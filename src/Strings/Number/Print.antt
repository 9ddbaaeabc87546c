-- ===== src/Strings/Number/Print.antt =====
-- What `itoa_s` of bootloader/stage2/strings.c leaves in the buffer.
use mathlib.Core.List.{reverse, reverse-append, reverse-cons}
use dalek.Base.{
  ℕ, zero, suc, ◌+◌, ◌-◌, ◌≤◌, ◌<◌, ◌≡◌, refl, ap, ◌∙◌, false, Option, some, List, [], ◌∷◌, ◌++◌,
  length, length-append, length-replicate, length-drop, drop, cons_of_pos, replicate, append_assoc,
  arith,
}
use dalek.Base.Int.{ℤ}
use dalek.Base.Fault.{◌>>=◌}
use dalek.Strings.Text.{held}
use dalek.Strings.Buffer.{store, store-append}
use dalek.Strings.Reverse.{str_reverse, str_reverse-reverse}
use dalek.Strings.Number.{itoa_last, pad_loop, itoa_s}
use dalek.Strings.Number.Digits.{pad_loop-replicate, written, itoa_last-written}

replicate-snoc : (k v : ℕ) → replicate k v ++ (v ∷ []) ≡ v ∷ replicate k v
replicate-snoc zero v = refl
replicate-snoc (suc k) v = ap (λ l. v ∷ l) (replicate-snoc k v)

reverse-replicate : (k v : ℕ) → reverse (replicate k v) ≡ replicate k v
reverse-replicate zero v = refl
reverse-replicate (suc k) v =
    reverse-cons v (replicate k v)
    ∙ ap (λ l. l ++ (v ∷ [])) (reverse-replicate k v)
    ∙ replicate-snoc k v

reverse-padded : (t : List ℕ) (k v : ℕ) → reverse (t ++ replicate k v) ≡ replicate k v ++ reverse t
reverse-padded t k v =
    reverse-append t (replicate k v) ∙ ap (λ l. l ++ reverse t) (reverse-replicate k v)

-- The padding, the terminator and the turn, as `itoa_s` makes them.
abbrev finish : List ℕ → ℕ → ℕ → ℕ → Option (List ℕ)
finish b len k v =
    ◌>>=◌ {B = List ℕ} (pad_loop k b len v) (λ s. store s.0 s.1 0 >>= λ b'. str_reverse b' 0 s.1)

-- `finish` leaves the text `u`.
abbrev Finished : Option (List ℕ) → List ℕ → List ℕ → ℕ → Type 0
Finished o u r k = (r' : List ℕ) × (o ≡ some (held u r')) × (length r ≡ k + length r')

finish-drop :
    (t r : List ℕ) (k v x : ℕ) (r' : List ℕ)
    → k ≤ length r
    → drop k (0 ∷ r) ≡ x ∷ r'
    → Finished (finish (held t r) (length t) k v) (replicate k v ++ reverse t) r k
finish-drop t r k v x r' h e = (
  r',
  rw
      (
        pad_loop-replicate k t (0 ∷ r) (length t) v refl (omega arith),
        e,
        ← append_assoc t (replicate k v) (x ∷ r'),
        store-append (t ++ replicate k v) x r' 0 (length t + k)
            (omega (arith, length-append t (replicate k v), length-replicate k v)),
      )
      (let same : length t + k ≡ length {A = ℕ} [] + length (t ++ replicate k v) =
          omega (arith, length-append t (replicate k v), length-replicate k v) in
        rw (same, ← reverse-padded t k v) (str_reverse-reverse [] (t ++ replicate k v) (0 ∷ r'))),
  omega (arith, ap length e, length-drop k (0 ∷ r)),
)

finish-padded :
    (t r : List ℕ) (k v : ℕ)
    → k ≤ length r
    → Finished (finish (held t r) (length t) k v) (replicate k v ++ reverse t) r k
finish-padded t r k v h =
    let (x, r', e) = cons_of_pos (drop k (0 ∷ r)) (omega (arith, length-drop k (0 ∷ r))) in
    finish-drop t r k v x r' h e

length-reverse : (t : List ℕ) → length (reverse t) ≡ length t
length-reverse [] = refl
length-reverse (x ∷ t) =
    ap length (reverse-cons x t)
    ∙ omega (arith, length-append (reverse t) (x ∷ []), length-reverse t)

length-padded :
    (t r : List ℕ) (k v : ℕ)
    → length (held (replicate k v ++ reverse t) r) ≡ k + length t + suc (length r)
length-padded t r k v = omega (
  arith,
  length-append (replicate k v ++ reverse t) (0 ∷ r),
  length-append (replicate k v) (reverse t),
  length-replicate k v,
  length-reverse t,
)

-- The text that `itoa_s` prints: the padding, and what was written turned round.
abbrev pub printed : ℤ → ℕ → ℕ → ℕ → List ℕ
printed v base pad w = replicate (w - length (written v base)) pad ++ reverse (written v base)

itoa_s-finish :
    (v : ℤ) (base pad w : ℕ) (b r : List ℕ)
    → itoa_last v base false b ≡ some (held (written v base) r, length (written v base))
    → itoa_s v base pad w b
      ≡ finish (held (written v base) r) (length (written v base)) (w - length (written v base)) pad
unfolding itoa_s
itoa_s-finish v base pad w b r e = rw e

-- In a buffer with room for the text and a terminator, `itoa_s` leaves the padding up to the width
-- `w`, then the digits, most significant first, then the sign if the number is a negative decimal;
-- the buffer keeps its size. The digits are those of the number modulo 2 ^ 32.
pub itoa_s-printed :
    (v : ℤ) (base pad w : ℕ) (b : List ℕ)
    → length (written v base) < length b
    → w < length b
    → (r : List ℕ) × (itoa_s v base pad w b ≡ some (held (printed v base pad w) r))
      × (length (held (printed v base pad w) r) ≡ length b)
itoa_s-printed v base pad w b fits wide =
    let (r, e, l) = itoa_last-written v base b fits in
    let (r', e', l') =
      finish-padded (written v base) r (w - length (written v base)) pad (omega arith) in
    (
      r',
      itoa_s-finish v base pad w b r e ∙ e',
      length-padded (written v base) r' (w - length (written v base)) pad ∙ omega arith,
    )
