-- ===== src/Stdio/Directives.antt =====
-- The conversions of `vprintf` in bootloader/stage2/stdio.c that print as they say.
use dalek.Base.{ℕ, ◌+◌, ◌%◌, ◌^◌, ◌<◌, some, List, [], ◌∷◌, length, arith}
use dalek.Strings.Text.{IsText, held}
use dalek.Strings.Number.Spelled.{numeral, padded}
use dalek.Stdio.Format.{Arg, word, str}

-- A conversion with its argument: an `int` that is not negative in decimal, by `%d` or `%i`, a word in
-- hexadecimal with zeros up to a width from 1 to 9, by `%x` or `%X`, or without a width, a size, a string
-- with what stands behind it, a character, and the sign itself.
pub data Directive : Type 0 where
  decimal : ℕ → Directive
  integer : ℕ → Directive
  hex : ℕ → ℕ → Directive
  capital_hex : ℕ → ℕ → Directive
  plain_hex : ℕ → Directive
  size : ℕ → Directive
  string : List ℕ → List ℕ → Directive
  character : ℕ → Directive
  percent : Directive

-- How it is spelled behind `%`.
unfoldable pub spelled : Directive → List ℕ
spelled (decimal n) = b'd' ∷ []
spelled (integer n) = b'i' ∷ []
spelled (hex w n) = b'0' ∷ (b'0' + w) ∷ b'x' ∷ []
spelled (capital_hex w n) = b'0' ∷ (b'0' + w) ∷ b'X' ∷ []
spelled (plain_hex n) = b'x' ∷ []
spelled (size n) = b'z' ∷ []
spelled (string t rest) = b's' ∷ []
spelled (character c) = b'c' ∷ []
spelled percent = b'%' ∷ []

pub length-spelled : (d : Directive) → 0 < length (spelled d)
unfolding spelled
length-spelled (decimal n) = omega arith
length-spelled (integer n) = omega arith
length-spelled (hex w n) = omega arith
length-spelled (capital_hex w n) = omega arith
length-spelled (plain_hex n) = omega arith
length-spelled (size n) = omega arith
length-spelled (string t rest) = omega arith
length-spelled (character c) = omega arith
length-spelled percent = omega arith

-- The argument it takes, and the text that is meant. The digits above 9 of `%X` are small letters too, in
-- this program.
unfoldable pub argument : Directive → List Arg
argument (decimal n) = word n ∷ []
argument (integer n) = word n ∷ []
argument (hex w n) = word n ∷ []
argument (capital_hex w n) = word n ∷ []
argument (plain_hex n) = word n ∷ []
argument (size n) = word n ∷ []
argument (string t rest) = str (some (held t rest)) ∷ []
argument (character c) = word c ∷ []
argument percent = []

unfoldable pub meant : Directive → List ℕ
meant (decimal n) = numeral 10 (n % 2 ^ 32)
meant (integer n) = numeral 10 (n % 2 ^ 32)
meant (hex w n) = padded 16 w (n % 2 ^ 32)
meant (capital_hex w n) = padded 16 w (n % 2 ^ 32)
meant (plain_hex n) = numeral 16 (n % 2 ^ 32)
meant (size n) = numeral 10 (n % 2 ^ 32)
meant (string t rest) = t
meant (character c) = c % 2 ^ 8 ∷ []
meant percent = b'%' ∷ []

abbrev pub IsDirective : Directive → Type 0
IsDirective (decimal n) = n % 2 ^ 32 < 2 ^ 31
IsDirective (integer n) = n % 2 ^ 32 < 2 ^ 31
IsDirective (hex w n) = (0 < w) × (w < 10)
IsDirective (capital_hex w n) = (0 < w) × (w < 10)
IsDirective (string t rest) = IsText t
IsDirective d = Unit {0}
