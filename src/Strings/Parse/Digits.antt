-- ===== src/Strings/Parse/Digits.antt =====
-- What `strtol` of bootloader/stage2/strings.c makes of digits, with the digits of a base said without its
-- code.
use dalek.Base.{
  ℕ, ◌+◌, ◌-◌, ◌*◌, ◌%◌, ◌^◌, ◌<◌, ◌≡◌, ◌≢◌, ◌⊎◌, inl, inr, refl, sym, ap, ◌∙◌, true, false,
  Bool-cases, none, some, List, [], ◌∷◌, ◌++◌, ltb, ◌==◌, get_or, if◌then◌else◌, arith,
}
use dalek.Strings.Text.{chars, isdigit}
use dalek.Strings.Number.Spelled.{symbols, symbol, Everywhere, everywhere}
use dalek.Strings.Parse.{digit_amount, strtol, horner, AllDigits, IsRadix, strtol-horner}

abbrev pub capitals : List ℕ
capitals = chars "0123456789ABCDEF"

abbrev pub capital : ℕ → ℕ
capital x = get_or capitals x 0

-- The character is the digit `x` of the base, in a small or a capital letter.
abbrev pub Spells : ℕ → ℕ → ℕ → Type 0
Spells base c x = (x < base) × ((c ≡ symbol x) ⊎ (c ≡ capital x))

abbrev pub AllSpell : ℕ → List ℕ → List ℕ → Type 0
AllSpell base [] [] = Unit {0}
AllSpell base [] (x ∷ xs) = ⊥
AllSpell base (c ∷ cs) [] = ⊥
AllSpell base (c ∷ cs) (x ∷ xs) = Spells base c x × AllSpell base cs xs

-- The character is no digit of the base.
abbrev pub NoDigit : ℕ → ℕ → Type 0
NoDigit base c = (x : ℕ) → x < base → (c ≢ symbol x) × (c ≢ capital x)

-- The number that digits stand for, the first digit first, behind `acc`.
abbrev pub number : ℕ → ℕ → List ℕ → ℕ
number base acc [] = acc
number base acc (x ∷ xs) = number base (acc * base + x) xs

-- The characters by what they are in ASCII.
abbrev letter_from : ℕ → ℕ → ℕ
letter_from a x = if ltb x 10 then x + b'0' else x + a - 10

symbol-letter_from : (x : ℕ) → x < 16 → symbol x ≡ letter_from b'a' x
symbol-letter_from x h =
    let all : Everywhere (λ k c. c ≡ letter_from b'a' k) 0 symbols = ground arith in
    let same : x + 0 ≡ x = omega arith in
    everywhere (λ k c. c ≡ letter_from b'a' k) 0 symbols x all h ∙ ap (letter_from b'a') same

capital-letter_from : (x : ℕ) → x < 16 → capital x ≡ letter_from b'A' x
capital-letter_from x h =
    let all : Everywhere (λ k c. c ≡ letter_from b'A' k) 0 capitals = ground arith in
    let same : x + 0 ≡ x = omega arith in
    everywhere (λ k c. c ≡ letter_from b'A' k) 0 capitals x all h ∙ ap (letter_from b'A') same

letter_digit :
    (base x c : ℕ)
    → IsRadix base
    → x < base
    → (c ≡ letter_from b'a' x) ⊎ (c ≡ letter_from b'A' x)
    → (isdigit c base ≡ true) × (digit_amount c ≡ x)
unfolding isdigit digit_amount
letter_digit base x c b h e = ground arith

digit_letter :
    (base c : ℕ)
    → IsRadix base
    → isdigit c base ≡ true
    → (digit_amount c < base)
      × ((c ≡ letter_from b'a' (digit_amount c)) ⊎ (c ≡ letter_from b'A' (digit_amount c)))
unfolding isdigit digit_amount
digit_letter base c b h = ground arith

radix_small : (base x : ℕ) → IsRadix base → x < base → x < 16
radix_small base x b h = ground arith

Spells-digit :
    (base x c : ℕ) → IsRadix base → Spells base c x → (isdigit c base ≡ true) × (digit_amount c ≡ x)
Spells-digit base x c b (h, inl e) =
    letter_digit base x c b h (inl (e ∙ symbol-letter_from x (radix_small base x b h)))
Spells-digit base x c b (h, inr e) =
    letter_digit base x c b h (inr (e ∙ capital-letter_from x (radix_small base x b h)))

-- A character that `isdigit` refuses, and one that is no digit.
pub isdigit-NoDigit : (base c : ℕ) → IsRadix base → isdigit c base ≡ false → NoDigit base c
isdigit-NoDigit base c b h x small = (
  λ e. (let digit = Spells-digit base x c b (small, inl e) in ground arith),
  λ e. (let digit = Spells-digit base x c b (small, inr e) in ground arith),
)

NoDigit-isdigit : (base c : ℕ) → IsRadix base → NoDigit base c → isdigit c base ≡ false
NoDigit-isdigit base c b h = elim (Bool-cases (isdigit c base)) [
  | inl digit ↦
      let (small, letter) = digit_letter base c b digit in
      let x = digit_amount c in
      let (a, a') = h x small in
      elim letter [
        | inl e ↦ absurd (a (e ∙ sym (symbol-letter_from x (radix_small base x b small))))
        | inr e ↦ absurd (a' (e ∙ sym (capital-letter_from x (radix_small base x b small))))
      ]
  | inr other ↦ other
]

AllSpell-horner :
    (base acc : ℕ) (cs xs : List ℕ)
    → IsRadix base
    → AllSpell base cs xs
    → AllDigits base cs × (horner base acc cs ≡ number base acc xs)
AllSpell-horner base acc [] [] b h = (tt, refl)
AllSpell-horner base acc [] (x ∷ xs) b h = absurd h
AllSpell-horner base acc (c ∷ cs) [] b h = absurd h
AllSpell-horner base acc (c ∷ cs) (x ∷ xs) b (h, hs) =
    let (digit, amount) = Spells-digit base x c b h in
    let (all, value) = AllSpell-horner base (acc * base + x) cs xs b hs in
    ((digit, all), ap (λ k. horner base (acc * base + k) cs) amount ∙ value)

-- With the base 2, 8, 10 or 16 given, `strtol` reads the digits in front, in small or capital letters: its
-- value is the number that they stand for modulo 2 ^ 16, and it points at the first character that is no
-- digit of the base, or nowhere at the end of the string.
pub strtol-number :
    (base : ℕ) (cs xs : List ℕ) (c : ℕ) (rest : List ℕ)
    → IsRadix base
    → AllSpell base cs xs
    → NoDigit base c
    → strtol (cs ++ (c ∷ rest)) base
      ≡ some (number base 0 xs % 2 ^ 16, (if c == 0 then none else some (c ∷ rest)))
strtol-number base cs xs c rest b h g =
    let (all, value) = AllSpell-horner base 0 cs xs b h in
    strtol-horner base cs c rest b all (NoDigit-isdigit base c b g) ∙ rw value refl
