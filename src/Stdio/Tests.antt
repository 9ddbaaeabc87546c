-- ===== src/Stdio/Tests.antt =====
-- Formatted output and lines at concrete inputs, and the theorems at them.
use dalek.Base.{ℕ, ◌≡◌, refl, none, some, Option, List, [], ◌∷◌, ◌++◌, replicate, arith}
use dalek.Base.Int.{ℤ}
use dalek.Strings.Text.{chars, c_string, strlen}
use dalek.Strings.Buffer.{store, fetch}
use dalek.Strings.Reverse.{str_reverse}
use dalek.Strings.Number.{digit_char, magnitude, itoa_digits, itoa_last, pad_loop, itoa_s}
use dalek.Strings.Number.Numeral.{digits_of}
use dalek.Io.{io_write}
use dalek.Stdio.{gets}
use dalek.Stdio.Format.{
  word, str, to_signed, next_word, is_flag, with_flag, read_flags, next_str, string_piece,
  number_piece, int_piece, convert, literal_length, directive, round,
}
use dalek.Stdio.Print.{vprintf_loop, vprintf, printf, log, log_info}
use dalek.Stdio.Console.{Console, keys, screen, console}
use dalek.Stdio.Directives.{decimal, hex, meant, spelled, argument}
use dalek.Stdio.Formats.{Format, text, more, format_text, arguments, meaning}
use dalek.Stdio.Shows.{Shows, vprintf-meaning}
use dalek.Stdio.Logs.{log_line, log-meaning}
use dalek.Stdio.Edits.{edited, echoes, pressed, but_last, echo}
use dalek.Stdio.Lines.{Read, gets-Read}
use dalek.Stdio.Widths.{vprintf-width}

abbrev stack : List ℕ
stack = replicate 64 170

abbrev shows : Option (ℤ × (Console × ℕ)) → Option (List ℕ)
shows none = none
shows (some (r, ((typed, shown), errno))) = some shown

prints_args :
    shows (
      printf
        (some screen)
        (c_string "n %d, 0x%04x: %s%%")
        (word 42 ∷ word 0xbee ∷ str (some (c_string "ok")) ∷ [])
        stack
        (([], []), 0))
    ≡ some (chars "n 42, 0x0bee: ok%")
unfolding printf vprintf vprintf_loop round directive literal_length convert int_piece number_piece
    string_piece next_word next_str read_flags with_flag is_flag to_signed itoa_s itoa_last
    itoa_digits pad_loop store fetch str_reverse digit_char magnitude strlen io_write
prints_args = refl

abbrev answer : Format
answer = more (chars "n ") (decimal 42) (more (chars ", ") (hex 4 0xbee) (text (chars "!")))

vprintf-meaning_example :
    Shows console
      (vprintf
        (some screen)
        (c_string "n %d, %04x!")
        (word 42 ∷ word 0xbee ∷ [])
        stack
        (([], []), 0))
      ([], [])
      0
      (chars "n 42, 0bee!")
unfolding format_text arguments meaning meant spelled argument to_signed digits_of digit_char
    magnitude
vprintf-meaning_example =
    vprintf-meaning console answer [] [] stack ([], []) 0 (ground arith) (omega arith)

log-meaning_instance :
    Shows console
      (log (some screen) stack log_info (c_string "main") (c_string "up") [] (([], []), 0))
      ([], [])
      0
      (log_line log_info (chars "main") (chars "up"))
unfolding format_text arguments meaning
log-meaning_instance =
    log-meaning console (text (chars "up")) [] (chars "main") [] log_info [] stack ([], []) 0
      (ground arith) (ground arith) (omega arith)

vprintf-width_example :
    Shows console
      (vprintf (some screen) (c_string "%5d") (word 42 ∷ []) stack (([], []), 0))
      ([], [])
      0
      []
unfolding to_signed digits_of magnitude
vprintf-width_example =
    vprintf-width console 5 42 [] [] stack ([], []) 0 (omega arith) (omega arith) (omega arith)
      (omega arith)

-- `ls`, with a wrong key in between.
abbrev typing : List ℕ
typing = b'l' ∷ b'x' ∷ 8 ∷ b's' ∷ []

gets-Read_example :
    Read console
      (gets 9 (some keys) (some screen) 170 stack ((typing ++ (b'\n' ∷ []), []), 0))
      (chars "ls")
      []
      64
      (typing ++ (b'\n' ∷ []), [])
      0
      (chars "lx" ++ (8 ∷ b's' ∷ b'\n' ∷ []))
unfolding edited echoes pressed but_last echo
gets-Read_example =
    gets-Read console typing [] stack 9 170 (typing ++ (b'\n' ∷ []), []) 0 (ground arith) refl
      (omega arith) (omega arith) (omega arith)
