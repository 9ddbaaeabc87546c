-- ===== src/Strings/Number/Spelled.antt =====
-- How a number is spelled, said without the code of bootloader/stage2/strings.c, and that this is what
-- `itoa_s` prints of a number that is not a negative decimal.
use mathlib.Core.List.{reverse, reverse-cons}
use mathlib.Core.Path.{subst}
use dalek.Base.{
  ◌%◌, ◌^◌, ℕ, zero, suc, ◌+◌, ◌-◌, ◌<◌, ◌≡◌, inl, refl, ap, ap₂, ◌∙◌, sym, false, List, [], ◌∷◌,
  ◌++◌, map, length, length-append, replicate, get_or, arith,
}
use dalek.Base.Int.{ℤ, pos}
use dalek.Strings.Text.{chars}
use dalek.Strings.Number.{digit_char, signed_decimal, magnitude, divisor_of}
use dalek.Strings.Number.Numeral.{digits_of, IsBase, IsDigits, digits_of-IsDigits}
use dalek.Strings.Number.Digits.{chars_of, written}
use dalek.Strings.Number.Print.{printed}

-- The characters of the digits.
abbrev pub symbols : List ℕ
symbols = chars "0123456789abcdef"

abbrev pub symbol : ℕ → ℕ
symbol x = get_or symbols x 0

-- The numeral of a number of 32 bits, the first digit first, and the same with zeros up to a width.
abbrev pub numeral : ℕ → ℕ → List ℕ
numeral base n = reverse (map symbol (digits_of 32 base n))

abbrev pub padded : ℕ → ℕ → ℕ → List ℕ
padded base w n = replicate (w - length (numeral base n)) b'0' ++ numeral base n

-- What holds of every place of a list, from the number `k` on.
abbrev pub Everywhere : (ℕ → ℕ → Type 0) → ℕ → List ℕ → Type 0
Everywhere P k [] = Unit {0}
Everywhere P k (c ∷ cs) = P k c × Everywhere P (k + 1) cs

pub everywhere :
    (P : ℕ → ℕ → Type 0) (k : ℕ) (cs : List ℕ) (x : ℕ)
    → Everywhere P k cs
    → x < length cs
    → P (x + k) (get_or cs x 0)
everywhere P k [] x h l = absurd (omega arith)
everywhere P k (c ∷ cs) zero h l = subst (λ i. P i c) (omega arith) h.0
everywhere P k (c ∷ cs) (suc x) h l =
    subst (λ i. P i (get_or cs x 0)) (omega arith) (everywhere P (k + 1) cs x h.1 (omega arith))

pub digit_char-symbol : (x : ℕ) → x < 16 → digit_char x ≡ symbol x
unfolding digit_char
digit_char-symbol x h =
    let all : Everywhere (λ k c. digit_char k ≡ c) 0 symbols = ground arith in
    ap digit_char (omega arith) ∙ everywhere (λ k c. digit_char k ≡ c) 0 symbols x all h

digits-symbol : (d : ℕ) (ds : List ℕ) → IsBase d → IsDigits d ds → map digit_char ds ≡ map symbol ds
digits-symbol d [] b h = refl
digits-symbol d (x ∷ ds) b h =
    let small : x < 16 = ground arith in
    ap₂ (λ (c : ℕ) l. c ∷ l) (digit_char-symbol x small) (digits-symbol d ds b h.1)

reverse-chars_of : (d n : ℕ) → IsBase d → reverse (chars_of d n) ≡ numeral d n
reverse-chars_of d n b =
    ap reverse (digits-symbol d (digits_of 32 d n) b (digits_of-IsDigits 32 d n b))

pub length-reverse : (t : List ℕ) → length (reverse t) ≡ length t
length-reverse [] = refl
length-reverse (x ∷ t) =
    ap length (reverse-cons x t)
    ∙ omega (arith, length-append (reverse t) (x ∷ []), length-reverse t)

written-unsigned :
    (v : ℤ) (base : ℕ)
    → IsBase base
    → signed_decimal v base ≡ false
    → written v base ≡ chars_of base (magnitude v base)
written-unsigned v base b plain =
    let same : divisor_of base ≡ base = ground arith in
    rw plain (ap (λ d. chars_of d (magnitude v base)) same)

-- The text of a number without a sign is its numeral behind the padding.
printed-padding :
    (v : ℤ) (base pad w : ℕ)
    → IsBase base
    → signed_decimal v base ≡ false
    → printed v base pad w
      ≡ replicate (w - length (numeral base (magnitude v base))) pad
        ++ numeral base (magnitude v base)
printed-padding v base pad w b plain =
    let t = chars_of base (magnitude v base) in
    let spelled : reverse t ≡ numeral base (magnitude v base) =
      reverse-chars_of base (magnitude v base) b in
    ap (λ u. replicate (w - length u) pad ++ reverse u) (written-unsigned v base b plain)
    ∙ ap₂ (λ k (u : List ℕ). replicate (w - k) pad ++ u)
        (sym (length-reverse t) ∙ ap length spelled) spelled

-- Without a width.
pub printed-numeral :
    (v : ℤ) (base n : ℕ)
    → IsBase base
    → signed_decimal v base ≡ false
    → magnitude v base ≡ n
    → printed v base 0 0 ≡ numeral base n
printed-numeral v base n b plain e =
    let unpadded : 0 - length (numeral base n) ≡ 0 = omega arith in
    printed-padding v base 0 0 b plain ∙ rw (e, unpadded) refl

-- With zeros up to a width.
pub printed-padded :
    (v : ℤ) (base w n : ℕ)
    → IsBase base
    → signed_decimal v base ≡ false
    → magnitude v base ≡ n
    → printed v base b'0' w ≡ padded base w n
printed-padded v base w n b plain e = printed-padding v base b'0' w b plain ∙ rw e refl

-- What `itoa_last` writes of a number that is not negative, turned round.
pub reverse-written : (n : ℕ) → n < 2 ^ 32 → reverse (written (pos n) 10) ≡ numeral 10 n
unfolding magnitude
reverse-written n h =
    let same : n % 2 ^ 32 ≡ n = omega arith in
    ap reverse (written-unsigned (pos n) 10 (inl refl) refl)
    ∙ reverse-chars_of 10 (n % 2 ^ 32) (inl refl)
    ∙ ap (numeral 10) same
