-- ===== src/Strings/Number/Digits.antt =====
-- What `itoa_last` of bootloader/stage2/strings.c leaves in the buffer.
use dalek.Base.{
  ℕ, zero, suc, ◌+◌, ◌/◌, ◌%◌, ◌^◌, ◌≤◌, ◌<◌, ◌≡◌, inl, inr, Bool-cases, refl, ap, ap₂, sym, ◌∙◌,
  true, false, Option, some, List, [], ◌∷◌, ◌++◌, map, ◌==◌, if◌then◌else◌, length, length-append,
  length-map, length-drop, drop, cons_of_pos, replicate, append_assoc, arith,
}
use dalek.Base.Int.{ℤ, pos, negsuc}
use dalek.Strings.Text.{held}
use dalek.Strings.Buffer.{store-append}
use dalek.Strings.Number.{
  digit_char, signed_decimal, magnitude, divisor_of, itoa_digits, itoa_last, pad_loop,
}
use dalek.Strings.Number.Numeral.{digits_of, pow2, IsBase}

-- The characters of a number's digits, least significant first.
abbrev pub chars_of : ℕ → ℕ → List ℕ
chars_of d n = map digit_char (digits_of 32 d n)

pos_of_pow2 : (f : ℕ) → 1 < pow2 f → 0 < f
pos_of_pow2 zero h = absurd (omega arith)
pos_of_pow2 (suc f) h = omega arith

-- The round that is not the last one, given the rounds behind it.
itoa_digits-more :
    (fuel : ℕ) (w b : List ℕ) (x c p n d : ℕ)
    → c ≡ digit_char (n % d)
    → p ≡ length w
    → (n / d == 0) ≡ false
    → itoa_digits fuel ((w ++ (c ∷ [])) ++ b) (p + 1) (n / d) d
      ≡ some (
        (w ++ (c ∷ []))
            ++ (map digit_char (digits_of fuel d (n / d))
                ++ drop (length (digits_of fuel d (n / d))) b),
        p + 1 + length (digits_of fuel d (n / d)),
      )
    → itoa_digits (suc fuel) (w ++ (x ∷ b)) p n d
      ≡ some (
        w
            ++ (map digit_char (digits_of (suc fuel) d n)
                ++ drop (length (digits_of (suc fuel) d n)) (x ∷ b)),
        p + length (digits_of (suc fuel) d n),
      )
unfolding itoa_digits digits_of
itoa_digits-more fuel w b x c p n d ec e more ih =
    rw (← ec, store-append w x b c p e, more)
      ((rw (append_assoc w (c ∷ []) b) at ih)
        ∙ ap₂ (λ l (k : ℕ). some (l, k)) (append_assoc w (c ∷ []) _) (omega arith))

-- Behind the characters `w` the loop writes the digits over the first bytes of `b`.
itoa_digits-digits_of :
    (fuel : ℕ) (w b : List ℕ) (p n d : ℕ)
    → IsBase d
    → n < pow2 fuel
    → 0 < fuel
    → p ≡ length w
    → length (digits_of fuel d n) ≤ length b
    → itoa_digits fuel (w ++ b) p n d
      ≡ some (
        w ++ (map digit_char (digits_of fuel d n) ++ drop (length (digits_of fuel d n)) b),
        p + length (digits_of fuel d n),
      )
unfolding itoa_digits digits_of
itoa_digits-digits_of zero w b p n d base h pf e l = absurd (omega arith)
itoa_digits-digits_of (suc fuel) w [] p n d base h pf e l = absurd (omega arith)
itoa_digits-digits_of (suc fuel) w (x ∷ b) p n d base h pf e l = elim (Bool-cases (n / d == 0)) [
  | inl last ↦ ground (arith, store-append w x b (digit_char (n % d)) p e)
  | inr more ↦
      let room : n / d < pow2 fuel = ground arith in
      let some_left : 0 < fuel = pos_of_pow2 fuel (ground arith) in
      let rest : length (digits_of fuel d (n / d)) ≤ length b = ground arith in
      itoa_digits-more fuel w b x (digit_char (n % d)) p n d refl e more (
        itoa_digits-digits_of fuel (w ++ (digit_char (n % d) ∷ [])) b (p + 1) (n / d) d base room
          some_left (omega (arith, length-append w (digit_char (n % d) ∷ []))) rest)
]

pub pad_loop-replicate :
    (n : ℕ) (w b : List ℕ) (p v : ℕ)
    → p ≡ length w
    → n ≤ length b
    → pad_loop n (w ++ b) p v ≡ some (w ++ (replicate n v ++ drop n b), p + n)
unfolding pad_loop
pad_loop-replicate zero w b p v e h = ground arith
pad_loop-replicate (suc n) w [] p v e h = absurd (omega arith)
pad_loop-replicate (suc n) w (x ∷ b) p v e h = ground (
  arith,
  store-append w x b v p e,
  pad_loop-replicate n (w ++ (v ∷ [])) b (p + 1) v,
  append_assoc w (v ∷ []) b,
  append_assoc w (v ∷ []) (replicate n v ++ drop n b),
  length-append w (v ∷ []),
)

pub length-chars_of : (d n : ℕ) → length (chars_of d n) ≡ length (digits_of 32 d n)
length-chars_of d n = length-map (digits_of 32 d n) digit_char

-- The digits behind `w`, with the byte `x` where the terminator will stand.
abbrev DigitsLast : List ℕ → List ℕ → ℕ → ℕ → ℕ → Type 0
DigitsLast w b p n d =
    (x : ℕ) × (r : List ℕ) × (itoa_digits 32 (w ++ b) p n d
      ≡ some ((w ++ chars_of d n) ++ (x ∷ r), length (w ++ chars_of d n)))
    × (length b ≡ length (chars_of d n) + suc (length r))

DigitsLast-drop :
    (w b : List ℕ) (p n d x : ℕ) (r : List ℕ)
    → drop (length (digits_of 32 d n)) b ≡ x ∷ r
    → p ≡ length w
    → length (chars_of d n) < length b
    → itoa_digits 32 (w ++ b) p n d
      ≡ some
          (w ++ (chars_of d n ++ drop (length (digits_of 32 d n)) b), p + length (digits_of 32 d n))
    → DigitsLast w b p n d
DigitsLast-drop w b p n d x r e ep fits digits = (
  x,
  r,
  digits
      ∙ ap₂ (λ l (k : ℕ). some (l, k))
          (ap (λ l. w ++ (chars_of d n ++ l)) e ∙ sym (append_assoc w (chars_of d n) (x ∷ r)))
          (omega (arith, length-append w (chars_of d n), length-chars_of d n)),
  omega (arith, ap length e, length-drop (length (digits_of 32 d n)) b, length-chars_of d n),
)

digits_last :
    (w b : List ℕ) (p n d : ℕ)
    → p ≡ length w
    → IsBase d
    → n < 2 ^ 32
    → length (chars_of d n) < length b
    → DigitsLast w b p n d
digits_last w b p n d ep base h fits =
    let (x, r, e) =
      cons_of_pos (drop (length (digits_of 32 d n)) b)
        (omega (arith, length-drop (length (digits_of 32 d n)) b, length-chars_of d n)) in
    DigitsLast-drop w b p n d x r e ep fits (
      itoa_digits-digits_of 32 w b p n d base h (omega arith) ep
        (omega (arith, length-chars_of d n)))

-- `itoa_last` in a buffer `b` leaves the text `t` and stops at its end.
abbrev pub Leaves : Option (List ℕ × ℕ) → List ℕ → List ℕ → Type 0
Leaves o t b =
    (r : List ℕ) × (o ≡ some (held t r, length t)) × (length b ≡ length t + suc (length r))

itoa_last-plain :
    (v : ℤ) (base : ℕ) (b : List ℕ)
    → signed_decimal v base ≡ false
    → DigitsLast [] b 0 (magnitude v base) (divisor_of base)
    → Leaves (itoa_last v base false b) (chars_of (divisor_of base) (magnitude v base)) b
unfolding itoa_last
itoa_last-plain v base b plain (x, r, e, l) = (
  r,
  rw (
    plain,
    e,
    store-append (chars_of (divisor_of base) (magnitude v base)) x r 0
        (length (chars_of (divisor_of base) (magnitude v base))) refl,
  ),
  l,
)

itoa_last-minus :
    (v : ℤ) (base y : ℕ) (b : List ℕ)
    → signed_decimal v base ≡ true
    → DigitsLast (b'-' ∷ []) b 1 (magnitude v base) (divisor_of base)
    → Leaves
        (itoa_last v base false (y ∷ b))
        (b'-' ∷ chars_of (divisor_of base) (magnitude v base))
        (y ∷ b)
unfolding itoa_last
itoa_last-minus v base y b minus (x, r, e, l) = (
  r,
  rw (
    minus,
    store-append [] y b b'-' 0 refl,
    e,
    store-append (b'-' ∷ chars_of (divisor_of base) (magnitude v base)) x r 0
        (suc (length (chars_of (divisor_of base) (magnitude v base)))) refl,
  ),
  omega arith,
)

-- What is in the buffer before the padding: the sign of a negative decimal, and the digits, least
-- significant first.
abbrev pub written : ℤ → ℕ → List ℕ
written v base =
    (if signed_decimal v base then b'-' ∷ [] else [])
    ++ chars_of (divisor_of base) (magnitude v base)

magnitude-lt : (v : ℤ) (base : ℕ) → magnitude v base < 2 ^ 32
unfolding magnitude
magnitude-lt (pos n) base = omega arith
magnitude-lt (negsuc n) base = ground arith

pub divisor_of-IsBase : (base : ℕ) → IsBase (divisor_of base)
divisor_of-IsBase base = ground arith

pub itoa_last-written :
    (v : ℤ) (base : ℕ) (b : List ℕ)
    → length (written v base) < length b
    → Leaves (itoa_last v base false b) (written v base) b
itoa_last-written v base [] fits = absurd (omega arith)
itoa_last-written v base (y ∷ b) fits = elim (Bool-cases (signed_decimal v base)) [
  | inl minus ↦ rw minus (
      itoa_last-minus v base y b minus (
        digits_last (b'-' ∷ []) b 1 (magnitude v base) (divisor_of base) refl
          (divisor_of-IsBase base) (magnitude-lt v base)
          (let f : suc (length (chars_of (divisor_of base) (magnitude v base))) < suc (length b) =
              rw minus at fits in
            omega arith)))
  | inr plain ↦ rw plain (
      itoa_last-plain v base (y ∷ b) plain (
        digits_last [] (y ∷ b) 0 (magnitude v base) (divisor_of base) refl (divisor_of-IsBase base)
          (magnitude-lt v base) (rw plain at fits)))
]
