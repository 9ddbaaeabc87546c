-- ===== src/Strings/RoundTrip.antt =====
-- Printing and parsing of numbers in bootloader/stage2/strings.c against one another, and what is
-- printed of a negative number.
use mathlib.Core.List.{reverse, reverse-cons}
use mathlib.Core.Path.{subst}
use dalek.Base.{
  ℕ, zero, suc, ◌-◌, ◌%◌, ◌^◌, ◌<◌, ◌≡◌, inl, inr, refl, ap, sym, ◌∙◌, true, none, some, List, [],
  ◌∷◌, ◌++◌, length, replicate, arith,
}
use dalek.Base.Int.{pos, negsuc}
use dalek.Strings.Text.{held, isdigit}
use dalek.Strings.Number.{magnitude, itoa_s}
use dalek.Strings.Number.Numeral.{IsBase}
use dalek.Strings.Number.Digits.{chars_of, written}
use dalek.Strings.Number.Print.{printed, itoa_s-printed}
use dalek.Strings.Parse.{
  strtol, horner, AllDigits, digit_amount, strtol-horner, chars_of_digits, nul_no_digit,
}

written-pos : (n d : ℕ) → IsBase d → n < 2 ^ 32 → written (pos n) d ≡ chars_of d n
unfolding magnitude
written-pos n d (inl e) h = let small : n % 2 ^ 32 ≡ n = omega arith in rw (e, small)
written-pos n d (inr e) h = let small : n % 2 ^ 32 ≡ n = omega arith in rw (e, small)

zero_digit : (d : ℕ) → IsBase d → isdigit b'0' d ≡ true
unfolding isdigit
zero_digit d b = ground arith

-- Zeros in front change neither the digits nor their number.
padded_digits :
    (d k : ℕ) (s : List ℕ)
    → IsBase d
    → AllDigits d s
    → AllDigits d (replicate k b'0' ++ s) × (horner d 0 (replicate k b'0' ++ s) ≡ horner d 0 s)
unfolding digit_amount
padded_digits d zero s b h = (h, refl)
padded_digits d (suc k) s b h =
    let (all, value) = padded_digits d k s b h in
    ((zero_digit d b, all), ap (λ a. horner d a (replicate k b'0' ++ s)) (omega arith) ∙ value)

strtol-padded :
    (d n k : ℕ) (rest : List ℕ)
    → IsBase d
    → n < 2 ^ 32
    → strtol (held (replicate k b'0' ++ reverse (chars_of d n)) rest) d ≡ some (n % 2 ^ 16, none)
strtol-padded d n k rest b h =
    let (all, value) = chars_of_digits d n b h in
    let (all', value') = padded_digits d k (reverse (chars_of d n)) b all in
    strtol-horner d (replicate k b'0' ++ reverse (chars_of d n)) 0 rest (ground arith) all'
      (nul_no_digit d)
    ∙ rw (value', value)

-- What `itoa_s` prints of an `unsigned long` in decimal or hexadecimal, with zeros in front up to the
-- width `w`, `strtol` reads back in that base: the number modulo 2 ^ 16, and the end of the string.
pub strtol-itoa_s :
    (n d w : ℕ) (b : List ℕ)
    → IsBase d
    → n < 2 ^ 32
    → length (chars_of d n) < length b
    → w < length b
    → (b' : List ℕ) × (itoa_s (pos n) d b'0' w b ≡ some b')
      × (strtol b' d ≡ some (n % 2 ^ 16, none))
strtol-itoa_s n d w b base h fits wide =
    let (r, e, l) = itoa_s-printed (pos n) d b'0' w b (rw (written-pos n d base h) fits) wide in
    (
      held (printed (pos n) d b'0' w) r,
      e,
      rw (written-pos n d base h) (strtol-padded d n (w - length (chars_of d n)) r base h),
    )

written-negsuc : (n : ℕ) → suc n < 2 ^ 32 → written (negsuc n) 10 ≡ b'-' ∷ chars_of 10 (suc n)
unfolding magnitude
written-negsuc n h = let small : suc n % 2 ^ 32 ≡ suc n = omega arith in rw small

printed-negsuc :
    (n pad : ℕ)
    → suc n < 2 ^ 32
    → printed (negsuc n) 10 pad 0 ≡ reverse (chars_of 10 (suc n)) ++ (b'-' ∷ [])
printed-negsuc n pad h =
    let none_left : 0 - length (b'-' ∷ chars_of 10 (suc n)) ≡ 0 = omega arith in
    ap (λ t. replicate (0 - length t) pad ++ reverse t) (written-negsuc n h)
    ∙ rw none_left (reverse-cons b'-' (chars_of 10 (suc n)))

-- A negative number in decimal is printed with its sign behind the digits.
pub itoa_s-negative :
    (n pad : ℕ) (b : List ℕ)
    → suc n < 2 ^ 32
    → suc (length (chars_of 10 (suc n))) < length b
    → (r : List ℕ) × (itoa_s (negsuc n) 10 pad 0 b
        ≡ some (held (reverse (chars_of 10 (suc n)) ++ (b'-' ∷ [])) r))
itoa_s-negative n pad b h fits =
    let (r, e, l) =
      itoa_s-printed (negsuc n) 10 pad 0 b
        (subst (λ t. length t < length b) (sym (written-negsuc n h)) fits) (omega arith) in
    (r, e ∙ ap (λ u. some (held u r)) (printed-negsuc n pad h))
