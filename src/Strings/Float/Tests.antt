-- ===== src/Strings/Float/Tests.antt =====
-- Numbers with two decimals for `ftoa_s`, and the theorem at one of them.
use dalek.Base.{
  ℕ, suc, ◌-◌, ◌*◌, ◌/◌, ◌≡◌, refl, some, List, [], ◌∷◌, ◌++◌, ltb, if◌then◌else◌, replicate, arith,
}
use dalek.Base.Int.{ℤ, pos, negsuc}
use dalek.Strings.Text.{held, chars}
use dalek.Strings.Number.{digit_char, itoa_last, itoa_digits, magnitude}
use dalek.Strings.Number.Numeral.{digits_of}
use dalek.Strings.Reverse.{str_reverse}
use dalek.Strings.Buffer.{store, fetch}
use dalek.Strings.Float.{ftoa_s, to_long, decimal_loop, decimal_char}
use dalek.Strings.Float.Exact.{decimals_of, ftoa_s-written}
use dalek.Strings.Number.Spelled.{numeral}

-- A number of hundredths.
abbrev tenfold : ℤ → ℤ
tenfold (pos n) = pos (10 * n)
tenfold (negsuc n) = negsuc (10 * suc n - 1)

-- The part in front of the point, cut towards zero.
abbrev cut : ℤ → ℤ
cut (pos n) = pos (n / 100)
cut (negsuc n) = if ltb (suc n) 100 then pos 0 else negsuc (suc n / 100 - 1)

printed_decimal :
    ftoa_s tenfold cut (pos 1250) 2 (replicate 8 0) 8 ≡ some (held (chars "12.50") (0 ∷ 0 ∷ []))
unfolding ftoa_s to_long itoa_last itoa_digits store magnitude str_reverse fetch decimal_loop
    digit_char decimal_char
printed_decimal = refl

-- The digits behind the point of a negative number are not digits.
printed_negative :
    ftoa_s tenfold cut (negsuc 1249) 2 (replicate 8 0) 8 ≡ some (held (chars "-12.+0") (0 ∷ []))
unfolding ftoa_s to_long itoa_last itoa_digits store magnitude str_reverse fetch decimal_loop
    digit_char decimal_char
printed_negative = refl

ftoa_s-written_example :
    (r : List ℕ) × (ftoa_s tenfold cut (pos 1250) 2 (replicate 8 0) 8
      ≡ some (held (numeral 10 (1250 / 100) ++ (b'.' ∷ decimals_of 2 1250 100)) r))
unfolding digits_of
ftoa_s-written_example =
    ftoa_s-written tenfold cut (pos 1250) 1250 100 2 (replicate 8 0)
      ((refl, omega arith), ((refl, omega arith), (refl, omega arith))) (omega arith)

spelled_decimal : numeral 10 (1250 / 100) ++ (b'.' ∷ decimals_of 2 1250 100) ≡ chars "12.50"
unfolding digits_of
spelled_decimal = refl
