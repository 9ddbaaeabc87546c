-- ===== src/Strings/Number/Numeral.antt =====
-- The numeral of a number in base 10 or 16, said without the buffer of
-- bootloader/stage2/strings.c.
use dalek.Base.{
  ℕ, zero, suc, ◌+◌, ◌*◌, ◌/◌, ◌%◌, ◌≤◌, ◌<◌, ◌≡◌, ◌⊎◌, List, [], ◌∷◌, ◌==◌, if◌then◌else◌, length,
  arith,
}

-- The digits of a number, least significant first, at most `fuel` of them.
unfoldable pub digits_of : ℕ → ℕ → ℕ → List ℕ
digits_of zero d n = []
digits_of (suc fuel) d n =
    n % d ∷ (let rest = digits_of fuel d (n / d) in if n / d == 0 then [] else rest)

-- The number that digits stand for, least significant first.
unfoldable pub value_of : ℕ → List ℕ → ℕ
value_of d [] = 0
value_of d (x ∷ xs) = x + d * value_of d xs

-- A bound that the digits' recursion halves: `2 ^ fuel`.
abbrev pub pow2 : ℕ → ℕ
pow2 zero = 1
pow2 (suc n) = 2 * pow2 n

abbrev pub IsBase : ℕ → Type 0
IsBase d = (d ≡ 10) ⊎ (d ≡ 16)

-- Digits are below the base.
abbrev pub IsDigits : ℕ → List ℕ → Type 0
IsDigits d [] = Unit {0}
IsDigits d (x ∷ xs) = (x < d) × IsDigits d xs

pub value_of-digits_of :
    (fuel d n : ℕ) → IsBase d → n < pow2 fuel → value_of d (digits_of fuel d n) ≡ n
unfolding digits_of value_of
value_of-digits_of zero d n b h = omega arith
value_of-digits_of (suc fuel) d n b h = ground (arith, value_of-digits_of fuel d (n / d) b)

pub digits_of-IsDigits : (fuel d n : ℕ) → IsBase d → IsDigits d (digits_of fuel d n)
unfolding digits_of
digits_of-IsDigits zero d n b = tt
digits_of-IsDigits (suc fuel) d n b = ground (arith, digits_of-IsDigits fuel d (n / d) b)

pub length-digits_of : (fuel d n : ℕ) → length (digits_of fuel d n) ≤ fuel
unfolding digits_of
length-digits_of zero d n = omega arith
length-digits_of (suc fuel) d n = ground (arith, length-digits_of fuel d (n / d))
