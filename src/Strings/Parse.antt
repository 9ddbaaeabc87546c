-- ===== src/Strings/Parse.antt =====
-- `strtol` and `atoi` of bootloader/stage2/strings.c.
pub mod Total
pub mod Digits
use mathlib.Core.List.{reverse, reverse-cons}
use dalek.Base.{
  ℕ, ◌+◌, ◌-◌, ◌*◌, ◌%◌, ◌^◌, ◌<◌, ◌≡◌, ◌⊎◌, refl, ap, ◌∙◌, true, false, ◌&&◌, Option, none, some,
  List, [], ◌∷◌, ◌++◌, map, leb, ◌==◌, if◌then◌else◌, arith,
}
use dalek.Base.Fault.{◌>>=◌}
use dalek.Strings.Text.{isdigit}
use dalek.Strings.Number.{digit_char}
use dalek.Strings.Number.Numeral.{
  digits_of, value_of, IsDigits, IsBase, value_of-digits_of, digits_of-IsDigits,
}
use dalek.Strings.Number.Digits.{chars_of}

-- What a character adds to the value.
unfoldable pub digit_amount : ℕ → ℕ
digit_amount c =
    if leb b'0' c && leb c b'9'
    then c - b'0'
    else if leb b'A' c && leb c b'F'
    then c - b'A' + 0x0a
    else if leb b'a' c && leb c b'f'
    then c - b'a' + 0x0a
    else 0

-- One digit, in a `uint16_t`.
accumulate : ℕ → ℕ → ℕ → ℕ
accumulate base value c = (value * base % 2 ^ 16 + digit_amount c) % 2 ^ 16

-- The loop: the value and the place where it stops.
strtol_loop : ℕ → ℕ → List ℕ → Option (ℕ × List ℕ)
strtol_loop base value [] = none
strtol_loop base value (c ∷ s) =
    let rest = strtol_loop base (accumulate base value c) s in
    if isdigit c base then rest else some (value, c ∷ s)

-- The base of a numeral with a prefix, and what stands behind it.
strtol_base : ℕ → List ℕ → Option (ℕ × List ℕ)
strtol_base base [] = if base == 0 then none else some (base, [])
strtol_base base (c ∷ []) =
    if base == 0 then (if c == b'0' then none else some (10, c ∷ [])) else some (base, c ∷ [])
strtol_base base (c ∷ d ∷ s) =
    if base == 0
    then (if c == b'0'
        then (if d == b'x'
            then some (16, s)
            else if d == b'b'
            then some (2, s)
            else some (8, d ∷ s))
        else some (10, c ∷ d ∷ s))
    else some (base, c ∷ d ∷ s)

-- What `*p` is set to: null at the end of the string.
stopped : List ℕ → Option (List ℕ)
stopped [] = none
stopped (c ∷ s) = if c == 0 then none else some (c ∷ s)

unfoldable pub strtol : List ℕ → ℕ → Option (ℕ × Option (List ℕ))
unfolding strtol_base strtol_loop accumulate stopped digit_amount
strtol s base = do
  (base', s') ← strtol_base base s
  (value, s'') ← strtol_loop base' 0 s'
  some (value, stopped s'')

unfoldable pub atoi : List ℕ → Option ℕ
unfolding strtol
atoi s = do (value, p) ← strtol s 0; some value

-- The number that a run of digits stands for, most significant first, behind `acc`.
abbrev pub horner : ℕ → ℕ → List ℕ → ℕ
horner base acc [] = acc
horner base acc (c ∷ s) = horner base (acc * base + digit_amount c) s

-- Every character is a digit of the base.
abbrev pub AllDigits : ℕ → List ℕ → Type 0
AllDigits base [] = Unit {0}
AllDigits base (c ∷ s) = (isdigit c base ≡ true) × AllDigits base s

abbrev pub IsRadix : ℕ → Type 0
IsRadix base = (base ≡ 2) ⊎ (base ≡ 8) ⊎ (base ≡ 10) ⊎ (base ≡ 16)

accumulate-mod :
    (base v w c : ℕ)
    → IsRadix base
    → v % 2 ^ 16 ≡ w % 2 ^ 16
    → accumulate base v c % 2 ^ 16 ≡ (w * base + digit_amount c) % 2 ^ 16
unfolding accumulate
accumulate-mod base v w c b h = ground arith

accumulate-lt : (base v c : ℕ) → accumulate base v c < 2 ^ 16
unfolding accumulate
accumulate-lt base v c = omega arith

strtol_loop-horner :
    (base v w : ℕ) (ds : List ℕ) (c : ℕ) (rest : List ℕ)
    → IsRadix base
    → v % 2 ^ 16 ≡ w % 2 ^ 16
    → v < 2 ^ 16
    → AllDigits base ds
    → isdigit c base ≡ false
    → strtol_loop base v (ds ++ (c ∷ rest)) ≡ some (horner base w ds % 2 ^ 16, c ∷ rest)
unfolding strtol_loop
strtol_loop-horner base v w [] c rest b e l h g =
    rw g (ap (λ (k : ℕ). some (k, c ∷ rest)) (omega arith))
strtol_loop-horner base v w (x ∷ ds) c rest b e l h g = rw h.0 (
    strtol_loop-horner base (accumulate base v x) (w * base + digit_amount x) ds c rest b
      (accumulate-mod base v w x b e) (accumulate-lt base v x) h.1 g)

pub nul_no_digit : (base : ℕ) → isdigit 0 base ≡ false
unfolding isdigit
nul_no_digit base = ground arith

IsRadix-ne_zero : (base : ℕ) → IsRadix base → (base == 0) ≡ false
IsRadix-ne_zero base b = ground arith

strtol_base-given :
    (base : ℕ) (s : List ℕ) → (base == 0) ≡ false → strtol_base base s ≡ some (base, s)
unfolding strtol_base
strtol_base-given base [] h = rw h
strtol_base-given base (c ∷ []) h = rw h
strtol_base-given base (c ∷ d ∷ s) h = rw h

-- The run of the loop in front of a character that is no digit.
pub strtol-horner :
    (base : ℕ) (ds : List ℕ) (c : ℕ) (rest : List ℕ)
    → IsRadix base
    → AllDigits base ds
    → isdigit c base ≡ false
    → strtol (ds ++ (c ∷ rest)) base
      ≡ some (horner base 0 ds % 2 ^ 16, (if c == 0 then none else some (c ∷ rest)))
unfolding strtol
strtol-horner base ds c rest b h g = rw (
  strtol_base-given base (ds ++ (c ∷ rest)) (IsRadix-ne_zero base b),
  strtol_loop-horner base 0 0 ds c rest b refl (omega arith) h g,
)

digit_char-digit :
    (d x : ℕ)
    → IsBase d
    → x < d
    → (isdigit (digit_char x) d ≡ true) × (digit_amount (digit_char x) ≡ x)
unfolding isdigit digit_char digit_amount
digit_char-digit d x b h = ground arith

horner-snoc :
    (d acc c : ℕ) (s : List ℕ) → horner d acc (s ++ (c ∷ [])) ≡ horner d acc s * d + digit_amount c
horner-snoc d acc c [] = refl
horner-snoc d acc c (x ∷ s) = horner-snoc d (acc * d + digit_amount x) c s

AllDigits-snoc :
    (d c : ℕ) (s : List ℕ) → AllDigits d s → isdigit c d ≡ true → AllDigits d (s ++ (c ∷ []))
AllDigits-snoc d c [] h g = (g, tt)
AllDigits-snoc d c (x ∷ s) h g = (h.0, AllDigits-snoc d c s h.1 g)

-- The characters of digits, turned round, are digits, and stand for the same number.
turned_digits :
    (d : ℕ) (ds : List ℕ)
    → IsBase d
    → IsDigits d ds
    → AllDigits d (reverse (map digit_char ds))
      × (horner d 0 (reverse (map digit_char ds)) ≡ value_of d ds)
unfolding value_of
turned_digits d [] b h = (tt, refl)
turned_digits d (x ∷ ds) b h =
    let (all, value) = turned_digits d ds b h.1 in
    let (digit, amount) = digit_char-digit d x b h.0 in
    rw (reverse-cons (digit_char x) (map digit_char ds)) (
      AllDigits-snoc d (digit_char x) (reverse (map digit_char ds)) all digit,
      horner-snoc d 0 (digit_char x) (reverse (map digit_char ds))
          ∙ rw (value, amount) (grind arith),
    )

-- The numeral of a number is made of digits, and stands for the number.
pub chars_of_digits :
    (d n : ℕ)
    → IsBase d
    → n < 2 ^ 32
    → AllDigits d (reverse (chars_of d n)) × (horner d 0 (reverse (chars_of d n)) ≡ n)
chars_of_digits d n b h =
    let (all, value) = turned_digits d (digits_of 32 d n) b (digits_of-IsDigits 32 d n b) in
    (all, value ∙ value_of-digits_of 32 d n b h)
