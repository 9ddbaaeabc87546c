-- ===== src/Screen/Tests.antt =====
-- The screen at concrete inputs, and the theorems at them.
use dalek.Base.{ℕ, ◌≤◌, ◌<◌, ◌≡◌, refl, inr, none, some, List, [], ◌∷◌, arith}
use dalek.Screen.{Screen, screen_info, screen_clear, screen_scroll, screen_putc, put_char, newline}
use dalek.Screen.Cells.{screen_scroll_lem, screen_clear_lem}
use dalek.Screen.Cursor.{
  IsScreen, screen_putc-IsScreen, put_char-memory, put_char-outside, put_char-lost,
  screen_putc-backspace,
}
use dalek.Screen.Ansi.{screen_write, write_loop, set_attr}
use dalek.Screen.Ansi.Writes.{screen_write-total}
use dalek.Screen.Ansi.Text.{screen_write-text, write_loop-cut}

-- The screen at start, and with the cursor elsewhere.
abbrev start : Screen
start = screen_info (λ a. 7)

abbrev at : ℕ → ℕ → Screen
at x y = record start { posx = x; posy = y }

at-IsScreen : (x y : ℕ) → x ≤ 80 → y < 25 → IsScreen (at x y)
at-IsScreen x y h l = record {
  column = h;
  row = l;
  byte_attr = omega arith;
  byte_oldattr = omega arith;
}

screen_clear_lem_instance :
    ((screen_clear (at 3 4)).memory 0xB8002 ≡ 0)
    × ((screen_clear (at 3 4)).posx ≡ 0)
    × ((screen_clear (at 3 4)).posy ≡ 0)
screen_clear_lem_instance = screen_clear_lem (at 3 4) 0xB8002

screen_scroll_lem_instance :
    ((screen_scroll (at 3 4) 2).memory 0xB8002 ≡ 7)
    × ((screen_scroll (at 3 4) 2).posx ≡ 0)
    × ((screen_scroll (at 3 4) 2).posy ≡ 23)
screen_scroll_lem_instance = screen_scroll_lem (at 3 4) 2 0xB8002 (omega arith)

screen_putc-IsScreen_example :
    IsScreen (screen_putc (at 80 24) b'x')
    × ((screen_putc (at 80 24) b'x').attr ≡ 0x1F)
    × ((screen_putc (at 80 24) b'x').video ≡ 0xB8000)
screen_putc-IsScreen_example =
    screen_putc-IsScreen b'x' (at-IsScreen 80 24 (omega arith) (omega arith))

put_char-memory_instance : (put_char (at 2 1) b'x').memory 0xB80A4 ≡ b'x'
put_char-memory_instance =
    put_char-memory (at 2 1) b'x' 0xB80A4 (at-IsScreen 2 1 (omega arith) (omega arith))
      (omega arith) refl

put_char-outside_example : (put_char (at 80 24) b'x').memory 0xB8FA0 ≡ b'x'
put_char-outside_example =
    put_char-outside (at 80 24) b'x' 0xB8FA0 (at-IsScreen 80 24 (omega arith) (omega arith))
      (omega arith) (inr (omega arith))

put_char-lost_instance :
    (put_char (put_char (at 80 3) b'x') b'y').memory 0xB8280
    ≡ (put_char (newline (at 80 3)) b'y').memory 0xB8280
put_char-lost_instance =
    put_char-lost (at 80 3) b'x' b'y' 0xB8280 (at-IsScreen 80 3 (omega arith) (omega arith)) refl
      (omega arith)

screen_putc-backspace_instance :
    let t = screen_putc (screen_putc (at 2 1) b'x') 8 in
    (t.posx ≡ 2) × (t.posy ≡ 1) × (t.memory 0xB80A4 ≡ 0)
screen_putc-backspace_instance =
    screen_putc-backspace (at 2 1) b'x' 0xB80A4 (at-IsScreen 2 1 (omega arith) (omega arith)) refl
      (omega arith)

-- ESC [ 3 1 m A, and a NUL.
abbrev red_letter : List ℕ
red_letter = 0x1B ∷ b'[' ∷ b'3' ∷ b'1' ∷ b'm' ∷ b'A' ∷ 0 ∷ []

screen_write-total_example :
    (t : Screen) × (screen_write red_letter 6 start ≡ some (6, t)) × IsScreen t
screen_write-total_example =
    screen_write-total red_letter 6 refl (at-IsScreen 0 0 (omega arith) (omega arith))

screen_write-text_example :
    screen_write (b'H' ∷ b'i' ∷ 0x1B ∷ []) 2 start
    ≡ some (2, screen_putc (screen_putc start b'H') b'i')
screen_write-text_example = screen_write-text (b'H' ∷ b'i' ∷ []) (0x1B ∷ []) start refl

write_loop-cut_example : write_loop 9 (0x1B ∷ b'[' ∷ b'K' ∷ b'!' ∷ []) 2 0 start ≡ none
write_loop-cut_example =
    write_loop-cut 9 (0x1B ∷ b'[' ∷ b'K' ∷ b'!' ∷ []) 0 b'K' start refl refl refl (omega arith)

-- The attribute after a colour sequence: red on the background that was there.
red_foreground : (set_attr start 31).attr ≡ 0x14
unfolding set_attr
red_foreground = refl
