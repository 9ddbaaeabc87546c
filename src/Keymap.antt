-- ===== src/Keymap.antt =====
-- The key codes of bootloader/stage2/devices/keyboard/keyboard.h, and the four tables of the Spanish
-- keymap, bootloader/stage2/devices/keyboard/keymaps/es_es.c: what each of the 128 make codes stands
-- for. The printable entries are the bytes of code page 850; 0 is a code with no key.
use dalek.Base.{ℕ, List, [], ◌∷◌}

-- The codes above 0xFF are keys that are no character.
abbrev pub key_esc : ℕ
key_esc = 0x0100

abbrev pub key_lcontrol : ℕ
key_lcontrol = 0x0200

abbrev pub key_lshift : ℕ
key_lshift = 0x0300

abbrev pub key_rshift : ℕ
key_rshift = 0x0400

abbrev pub key_caps : ℕ
key_caps = 0x0500

abbrev pub key_f1 : ℕ
key_f1 = 0x0600

abbrev pub key_f2 : ℕ
key_f2 = 0x0700

abbrev pub key_f3 : ℕ
key_f3 = 0x0800

abbrev pub key_f4 : ℕ
key_f4 = 0x0900

abbrev pub key_f5 : ℕ
key_f5 = 0x0A00

abbrev pub key_f6 : ℕ
key_f6 = 0x0B00

abbrev pub key_f7 : ℕ
key_f7 = 0x0C00

abbrev pub key_f8 : ℕ
key_f8 = 0x0D00

abbrev pub key_f9 : ℕ
key_f9 = 0x0E00

abbrev pub key_f10 : ℕ
key_f10 = 0x0F00

abbrev pub key_numlock : ℕ
key_numlock = 0x1000

abbrev pub key_scroll : ℕ
key_scroll = 0x1100

abbrev pub key_f11 : ℕ
key_f11 = 0x1200

abbrev pub key_f12 : ℕ
key_f12 = 0x1300

abbrev pub key_lalt : ℕ
key_lalt = 0x1400

abbrev pub key_rcontrol : ℕ
key_rcontrol = 0x1500

abbrev pub key_prtscn : ℕ
key_prtscn = 0x1600

abbrev pub key_ralt : ℕ
key_ralt = 0x1700

abbrev pub key_break : ℕ
key_break = 0x1800

abbrev pub key_home : ℕ
key_home = 0x1900

abbrev pub key_up : ℕ
key_up = 0x2000

abbrev pub key_pgup : ℕ
key_pgup = 0x2100

abbrev pub key_left : ℕ
key_left = 0x2200

abbrev pub key_right : ℕ
key_right = 0x2300

abbrev pub key_end : ℕ
key_end = 0x2400

abbrev pub key_down : ℕ
key_down = 0x2500

abbrev pub key_pgdown : ℕ
key_pgdown = 0x2600

abbrev pub key_insert : ℕ
key_insert = 0x2700

abbrev pub key_delete : ℕ
key_delete = 0x2800

abbrev pub key_prntscn : ℕ
key_prntscn = 0x2900

abbrev pub key_enter : ℕ
key_enter = 10

unfoldable pub kb_keymap : List ℕ
kb_keymap =
    0x00 ∷ key_esc ∷ b'1' ∷ b'2' ∷ b'3' ∷ b'4' ∷ b'5' ∷ b'6' ∷ b'7' ∷ b'8' ∷ b'9' ∷ b'0' ∷ 0x27
    ∷ 0xad ∷ 0x08 ∷ 0x09 ∷ b'q' ∷ b'w' ∷ b'e' ∷ b'r' ∷ b't' ∷ b'y' ∷ b'u' ∷ b'i' ∷ b'o' ∷ b'p'
    ∷ 0x60 ∷ 0x2b ∷ key_enter ∷ key_lcontrol ∷ b'a' ∷ b's' ∷ b'd' ∷ b'f' ∷ b'g' ∷ b'h' ∷ b'j' ∷ b'k'
    ∷ b'l' ∷ 0xa4 ∷ 0x27 ∷ 0xa7 ∷ key_lshift ∷ 0x87 ∷ b'z' ∷ b'x' ∷ b'c' ∷ b'v' ∷ b'b' ∷ b'n' ∷ b'm'
    ∷ 0x2c ∷ 0x2e ∷ 0x2d ∷ key_rshift ∷ 0x00 ∷ key_lalt ∷ 0x20 ∷ key_caps ∷ key_f1 ∷ key_f2 ∷ key_f3
    ∷ key_f4 ∷ key_f5 ∷ key_f6 ∷ key_f7 ∷ key_f8 ∷ key_f9 ∷ key_f10 ∷ key_numlock ∷ key_scroll
    ∷ b'7' ∷ b'8' ∷ b'9' ∷ 0x2d ∷ b'4' ∷ b'5' ∷ b'6' ∷ 0x2b ∷ b'1' ∷ b'2' ∷ b'3' ∷ b'0' ∷ 0x2e
    ∷ 0x00 ∷ 0x00 ∷ 0x3c ∷ key_f11 ∷ key_f12 ∷ 0x00 ∷ 0x00 ∷ 0x00 ∷ 0x00 ∷ 0x00 ∷ 0x00 ∷ 0x00 ∷ 0x00
    ∷ 0x00 ∷ 0x00 ∷ 0x00 ∷ 0x00 ∷ 0x00 ∷ 0x00 ∷ 0x00 ∷ 0x00 ∷ 0x00 ∷ 0x00 ∷ 0x00 ∷ 0x00 ∷ 0x00
    ∷ 0x00 ∷ 0x00 ∷ 0x00 ∷ 0x00 ∷ 0x00 ∷ 0x00 ∷ 0x00 ∷ 0x00 ∷ 0x00 ∷ 0x00 ∷ 0x00 ∷ 0x00 ∷ 0x00
    ∷ 0x00 ∷ 0x00 ∷ 0x00 ∷ 0x00 ∷ 0x00 ∷ []

unfoldable pub kb_shift_keymap : List ℕ
kb_shift_keymap =
    0x00 ∷ key_esc ∷ 0x21 ∷ 0x22 ∷ 0xfa ∷ 0x24 ∷ 0x25 ∷ 0x26 ∷ 0x2f ∷ 0x28 ∷ 0x29 ∷ 0x3d ∷ 0x3f
    ∷ 0xa8 ∷ 0x08 ∷ 0x09 ∷ b'Q' ∷ b'W' ∷ b'E' ∷ b'R' ∷ b'T' ∷ b'Y' ∷ b'U' ∷ b'I' ∷ b'O' ∷ b'P'
    ∷ 0x5e ∷ 0x2a ∷ key_enter ∷ key_lcontrol ∷ b'A' ∷ b'S' ∷ b'D' ∷ b'F' ∷ b'G' ∷ b'H' ∷ b'J' ∷ b'K'
    ∷ b'L' ∷ 0xa5 ∷ 0x20 ∷ 0xa6 ∷ key_lshift ∷ 0x80 ∷ b'Z' ∷ b'X' ∷ b'C' ∷ b'V' ∷ b'B' ∷ b'N' ∷ b'M'
    ∷ 0x3b ∷ 0x3a ∷ 0x5f ∷ key_rshift ∷ 0x00 ∷ key_lalt ∷ 0x20 ∷ key_caps ∷ key_f1 ∷ key_f2 ∷ key_f3
    ∷ key_f4 ∷ key_f5 ∷ key_f6 ∷ key_f7 ∷ key_f8 ∷ key_f9 ∷ key_f10 ∷ key_numlock ∷ key_scroll
    ∷ b'7' ∷ b'8' ∷ b'9' ∷ 0x2d ∷ b'4' ∷ b'5' ∷ b'6' ∷ 0x2b ∷ b'1' ∷ b'2' ∷ b'3' ∷ b'0' ∷ 0x2e
    ∷ 0x00 ∷ 0x00 ∷ 0x3e ∷ key_f11 ∷ key_f12 ∷ 0x00 ∷ 0x00 ∷ 0x00 ∷ 0x00 ∷ 0x00 ∷ 0x00 ∷ 0x00 ∷ 0x00
    ∷ 0x00 ∷ 0x00 ∷ 0x00 ∷ 0x00 ∷ 0x00 ∷ 0x00 ∷ 0x00 ∷ 0x00 ∷ 0x00 ∷ 0x00 ∷ 0x00 ∷ 0x00 ∷ 0x00
    ∷ 0x00 ∷ 0x00 ∷ 0x00 ∷ 0x00 ∷ 0x00 ∷ 0x00 ∷ 0x00 ∷ 0x00 ∷ 0x00 ∷ 0x00 ∷ 0x00 ∷ 0x00 ∷ 0x00
    ∷ 0x00 ∷ 0x00 ∷ 0x00 ∷ 0x00 ∷ 0x00 ∷ []

unfoldable pub kb_altgr_keymap : List ℕ
kb_altgr_keymap =
    0x00 ∷ key_esc ∷ 0x7c ∷ 0x40 ∷ 0x23 ∷ 0x7e ∷ 0xab ∷ 0xaa ∷ 0x7b ∷ 0x5b ∷ 0x5d ∷ 0x7d ∷ 0x27
    ∷ 0x5c ∷ 0x08 ∷ 0x09 ∷ 0x40 ∷ b'q' ∷ b'w' ∷ b'e' ∷ b'r' ∷ b't' ∷ b'y' ∷ b'u' ∷ b'i' ∷ b'o'
    ∷ 0x5b ∷ 0x5d ∷ key_enter ∷ key_lcontrol ∷ 0x91 ∷ 0xe1 ∷ b'd' ∷ b'f' ∷ b'g' ∷ b'h' ∷ b'j' ∷ b'k'
    ∷ b'l' ∷ 0x7e ∷ 0x7b ∷ 0x5c ∷ key_lshift ∷ 0x7d ∷ b'z' ∷ b'x' ∷ b'c' ∷ 0x22 ∷ 0x22 ∷ b'n' ∷ b'm'
    ∷ 0x3b ∷ 0xab ∷ 0x2d ∷ key_rshift ∷ 0x00 ∷ key_lalt ∷ 0x20 ∷ key_caps ∷ key_f1 ∷ key_f2 ∷ key_f3
    ∷ key_f4 ∷ key_f5 ∷ key_f6 ∷ key_f7 ∷ key_f8 ∷ key_f9 ∷ key_f10 ∷ key_numlock ∷ key_scroll
    ∷ b'7' ∷ b'8' ∷ b'9' ∷ 0x2d ∷ b'4' ∷ b'5' ∷ b'6' ∷ 0x2b ∷ b'1' ∷ b'2' ∷ b'3' ∷ b'0' ∷ 0x2e
    ∷ 0x00 ∷ 0x00 ∷ 0x3c ∷ key_f11 ∷ key_f12 ∷ 0x00 ∷ 0x00 ∷ 0x00 ∷ 0x00 ∷ 0x00 ∷ 0x00 ∷ 0x00 ∷ 0x00
    ∷ 0x00 ∷ 0x00 ∷ 0x00 ∷ 0x00 ∷ 0x00 ∷ 0x00 ∷ 0x00 ∷ 0x00 ∷ 0x00 ∷ 0x00 ∷ 0x00 ∷ 0x00 ∷ 0x00
    ∷ 0x00 ∷ 0x00 ∷ 0x00 ∷ 0x00 ∷ 0x00 ∷ 0x00 ∷ 0x00 ∷ 0x00 ∷ 0x00 ∷ 0x00 ∷ 0x00 ∷ 0x00 ∷ 0x00
    ∷ 0x00 ∷ 0x00 ∷ 0x00 ∷ 0x00 ∷ 0x00 ∷ []

unfoldable pub kb_escaped_keymap : List ℕ
kb_escaped_keymap =
    0x00 ∷ 0x00 ∷ 0x00 ∷ 0x00 ∷ 0x00 ∷ 0x00 ∷ 0x00 ∷ 0x00 ∷ 0x00 ∷ 0x00 ∷ 0x00 ∷ 0x00 ∷ 0x00 ∷ 0x00
    ∷ 0x00 ∷ 0x09 ∷ b'q' ∷ b'w' ∷ b'e' ∷ b'r' ∷ b't' ∷ b'y' ∷ b'u' ∷ b'i' ∷ b'o' ∷ b'p' ∷ 0x60
    ∷ 0x2b ∷ key_enter ∷ key_rcontrol ∷ 0x00 ∷ 0x00 ∷ 0x00 ∷ 0x00 ∷ 0x00 ∷ 0x00 ∷ 0x00 ∷ 0x00 ∷ 0x00
    ∷ 0x00 ∷ 0x00 ∷ 0x00 ∷ key_lshift ∷ 0x00 ∷ 0x00 ∷ 0x00 ∷ 0x00 ∷ 0x00 ∷ 0x00 ∷ 0x00 ∷ 0x00 ∷ 0x00
    ∷ 0x00 ∷ 0x2f ∷ key_rshift ∷ key_prntscn ∷ key_ralt ∷ 0x00 ∷ 0x00 ∷ 0x00 ∷ 0x00 ∷ 0x00 ∷ 0x00
    ∷ 0x00 ∷ 0x00 ∷ 0x00 ∷ 0x00 ∷ 0x00 ∷ 0x00 ∷ 0x00 ∷ key_break ∷ key_home ∷ key_up ∷ key_pgup
    ∷ 0x00 ∷ key_left ∷ 0x00 ∷ key_right ∷ 0x00 ∷ key_end ∷ key_down ∷ key_pgdown ∷ key_insert
    ∷ key_delete ∷ 0x00 ∷ 0x00 ∷ 0x00 ∷ 0x00 ∷ 0x00 ∷ 0x00 ∷ 0x00 ∷ 0x00 ∷ 0x00 ∷ 0x00 ∷ 0x00 ∷ 0x00
    ∷ 0x00 ∷ 0x00 ∷ 0x00 ∷ 0x00 ∷ 0x00 ∷ 0x00 ∷ 0x00 ∷ 0x00 ∷ 0x00 ∷ 0x00 ∷ 0x00 ∷ 0x00 ∷ 0x00
    ∷ 0x00 ∷ 0x00 ∷ 0x00 ∷ 0x00 ∷ 0x00 ∷ 0x00 ∷ 0x00 ∷ 0x00 ∷ 0x00 ∷ 0x00 ∷ 0x00 ∷ 0x00 ∷ 0x00
    ∷ 0x00 ∷ 0x00 ∷ 0x00 ∷ 0x00 ∷ 0x00 ∷ 0x00 ∷ []
