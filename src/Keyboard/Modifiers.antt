-- ===== src/Keyboard/Modifiers.antt =====
-- The modifier keys of bootloader/stage2/devices/keyboard/keyboard.c over the four tables of the
-- keymap, and the codes that stand for no key.
use Prim.Native.Nat.{bit_xor}
use dalek.Base.{
  ℕ, suc, zero, ◌%◌, ◌<◌, ◌≤◌, ◌≡◌, refl, ◌==◌, ◌||◌, Bool, true, ltb, some, arith, get_or, List,
  if◌then◌else◌, checked_under, checked_under_lem,
}
use dalek.Keymap.{kb_keymap, kb_shift_keymap, kb_altgr_keymap, kb_escaped_keymap}
use dalek.Keyboard.{KbFlags, Keyboard, truth, kb_select, kb_switch, key_down, kb_handler}
use dalek.Keyboard.Queue.{typed, swap_case}

-- The flags after a code, with the escape flag reset.
abbrev pub flags_after : Keyboard → ℕ → KbFlags
flags_after k c = (kb_handler k c).flags

-- With no escape code before it, a modifier's make code sets its own flag and its break code clears
-- it, whatever other modifiers are held: no modifier sticks, and no other flag changes.
pub kb_handler-modifiers :
    (k : Keyboard)
    → k.flags.escaped ≡ 0
    → (flags_after k 0x2a ≡ record (k.flags) { shift = 1 })
      × (flags_after k 0xaa ≡ record (k.flags) { shift = 0 })
      × (flags_after k 0x36 ≡ record (k.flags) { shift = 1 })
      × (flags_after k 0xb6 ≡ record (k.flags) { shift = 0 })
      × (flags_after k 0x1d ≡ record (k.flags) { lcontrol = 1 })
      × (flags_after k 0x9d ≡ record (k.flags) { lcontrol = 0 })
      × (flags_after k 0x38 ≡ record (k.flags) { lalt = 1 })
      × (flags_after k 0xb8 ≡ record (k.flags) { lalt = 0 })
unfolding kb_handler kb_switch kb_select key_down kb_keymap kb_shift_keymap kb_altgr_keymap
kb_handler-modifiers k h = ground arith

-- The same for the keys behind the escape code: right control and AltGr.
pub kb_handler-escaped_modifiers :
    (k : Keyboard)
    → (flags_after (kb_handler k 0xe0) 0x1d ≡ record (k.flags) { rcontrol = 1; escaped = 0 })
      × (flags_after (kb_handler k 0xe0) 0x9d ≡ record (k.flags) { rcontrol = 0; escaped = 0 })
      × (flags_after (kb_handler k 0xe0) 0x38 ≡ record (k.flags) { ralt = 1; escaped = 0 })
      × (flags_after (kb_handler k 0xe0) 0xb8 ≡ record (k.flags) { ralt = 0; escaped = 0 })
unfolding kb_handler kb_switch kb_select key_down kb_escaped_keymap
kb_handler-escaped_modifiers k = ground arith

bit_xor-one : (a : ℕ) → a ≤ 1 → bit_xor 1 a ≡ (if truth a then 0 else 1)
bit_xor-one zero h = refl
bit_xor-one (suc zero) h = refl
bit_xor-one (suc (suc a)) h = absurd (omega arith)

bit_xor-zero : (a : ℕ) → a ≤ 1 → bit_xor 0 a ≡ a
bit_xor-zero zero h = refl
bit_xor-zero (suc zero) h = refl
bit_xor-zero (suc (suc a)) h = absurd (omega arith)

-- Pressing caps lock flips it, and releasing it leaves it alone.
pub kb_handler-caps :
    (k : Keyboard)
    → k.flags.escaped ≡ 0
    → k.flags.caps ≤ 1
    → (flags_after k 0x3a ≡ record (k.flags) { caps = if truth k.flags.caps then 0 else 1 })
      × (flags_after k 0xba ≡ k.flags)
unfolding kb_handler kb_switch kb_select key_down kb_keymap kb_shift_keymap kb_altgr_keymap
kb_handler-caps k h g = ground (arith, bit_xor-one k.flags.caps, bit_xor-zero k.flags.caps)

-- An entry of a table is a character, or a key code whose low byte is 0.
abbrev low_byte_zero : List ℕ → ℕ → Bool
low_byte_zero t c = ltb (get_or t c 0) 256 || get_or t c 0 % 256 == 0

tables_low_byte :
    (checked_under (low_byte_zero kb_keymap) 128 ≡ true)
    × (checked_under (low_byte_zero kb_shift_keymap) 128 ≡ true)
    × (checked_under (low_byte_zero kb_altgr_keymap) 128 ≡ true)
    × (checked_under (low_byte_zero kb_escaped_keymap) 128 ≡ true)
unfolding checked_under kb_keymap kb_shift_keymap kb_altgr_keymap kb_escaped_keymap
tables_low_byte = (refl, refl, refl, refl)

table-low_byte :
    (t : List ℕ) (c : ℕ)
    → checked_under (low_byte_zero t) 128 ≡ true
    → c < 128
    → 255 < get_or t c 0
    → get_or t c 0 % 256 ≡ 0
table-low_byte t c a h g = ground (arith, checked_under_lem (low_byte_zero t) 128 c h a)

kb_select-low_byte :
    (f : KbFlags) (c : ℕ)
    → c < 128
    → 255 < get_or (kb_select f) c 0
    → get_or (kb_select f) c 0 % 256 ≡ 0
unfolding kb_select
kb_select-low_byte f c h g =
    let (plain, shifted, altgr, escaped) = tables_low_byte in
    ground (
      arith,
      table-low_byte kb_keymap c plain h,
      table-low_byte kb_shift_keymap c shifted h,
      table-low_byte kb_altgr_keymap c altgr h,
      table-low_byte kb_escaped_keymap c escaped h,
    )

-- A key that is no character is read as the byte 0.
pub typed-special : (f : KbFlags) (c key : ℕ) → typed f c ≡ some key → 255 < key → key % 256 ≡ 0
unfolding typed swap_case
typed-special f c key h g = ground (arith, kb_select-low_byte f c)
