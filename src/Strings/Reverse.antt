-- ===== src/Strings/Reverse.antt =====
-- `str_reverse` of bootloader/stage2/strings.c, in place.
use mathlib.Core.List.{reverse, reverse-append, reverse-cons}
use mathlib.Core.Path.{subst}
use dalek.Base.{
  ℕ, zero, suc, ◌+◌, ◌-◌, ◌<◌, ◌≡◌, refl, ap, sym, ◌∙◌, Option, none, some, List, [], ◌∷◌, ◌++◌,
  arith, ltb, if◌then◌else◌, length, length-append, append_assoc,
}
use dalek.Base.Fault.{◌>>=◌}
use dalek.Strings.Buffer.{store, store-append, fetch, fetch-append}

-- The body of the loop, at the indices of `p1` and `p2`.
swap : List ℕ → ℕ → ℕ → Option (List ℕ)
swap b i j = do tmp ← fetch b i; other ← fetch b j; b' ← store b i other; store b' j tmp

-- The loop, with the index behind `p2` for `p2`, which may stand before the buffer. Each round
-- moves both, so the length of the buffer is fuel enough.
str_reverse_loop : ℕ → List ℕ → ℕ → ℕ → Option (List ℕ)
str_reverse_loop zero b i j = none
str_reverse_loop (suc fuel) b i j =
    let rest = swap b i (j - 1) >>= (λ b'. str_reverse_loop fuel b' (i + 1) (j - 1)) in
    if ltb (i + 1) j then rest else some b

unfoldable pub str_reverse : List ℕ → ℕ → ℕ → Option (List ℕ)
unfolding str_reverse_loop swap
str_reverse b begin end = str_reverse_loop (end + 1) b begin end

swap_lem :
    (a m z : List ℕ) (x y i j : ℕ)
    → i ≡ length a
    → j ≡ length a + 1 + length m
    → swap (a ++ (x ∷ (m ++ (y ∷ z)))) i j ≡ some (a ++ (y ∷ (m ++ (x ∷ z))))
unfolding swap
swap_lem a m z x y i j e f = ground (
  arith,
  fetch-append a x (m ++ (y ∷ z)) i e,
  fetch-append (a ++ (x ∷ m)) y z j,
  append_assoc a (x ∷ m) (y ∷ z),
  append_assoc a (y ∷ m) (y ∷ z),
  append_assoc a (y ∷ m) (x ∷ z),
  store-append a x (m ++ (y ∷ z)) y i e,
  store-append (a ++ (y ∷ m)) y z x j,
  length-append a (x ∷ m),
  length-append a (y ∷ m),
)

-- A list that is not empty has a last element.
snoc : (x : ℕ) (r : List ℕ) → (m : List ℕ) × (y : ℕ) × (x ∷ r ≡ m ++ (y ∷ []))
snoc x [] = ([], x, refl)
snoc x (y ∷ r) = let (m, z, e) = snoc y r in (x ∷ m, z, ap (λ l. x ∷ l) e)

reverse-ends :
    (x : ℕ) (m : List ℕ) (y : ℕ) → reverse (x ∷ (m ++ (y ∷ []))) ≡ y ∷ (reverse m ++ (x ∷ []))
reverse-ends x m y =
    reverse-cons x (m ++ (y ∷ [])) ∙ ap (λ l. l ++ (x ∷ [])) (reverse-append m (y ∷ []))

-- One round, with the ends of the segment written out.
str_reverse_loop-round :
    (fuel : ℕ) (a m z : List ℕ) (x y i j : ℕ)
    → i ≡ length a
    → j ≡ length a + (2 + length m)
    → str_reverse_loop fuel ((a ++ (y ∷ [])) ++ (m ++ (x ∷ z))) (i + 1) (j - 1)
      ≡ some ((a ++ (y ∷ [])) ++ (reverse m ++ (x ∷ z)))
    → str_reverse_loop (suc fuel) (a ++ ((x ∷ (m ++ (y ∷ []))) ++ z)) i j
      ≡ some (a ++ (reverse (x ∷ (m ++ (y ∷ []))) ++ z))
unfolding str_reverse_loop
str_reverse_loop-round fuel a m z x y i j e f ih = ground (
  arith,
  swap_lem a m z x y i (j - 1) e,
  append_assoc m (y ∷ []) z,
  append_assoc a (y ∷ []) (m ++ (x ∷ z)),
  append_assoc a (y ∷ []) (reverse m ++ (x ∷ z)),
  reverse-ends x m y,
  append_assoc (reverse m) (x ∷ []) z,
  ih,
)

str_reverse_loop-reverse :
    (fuel : ℕ) (a m z : List ℕ) (i j : ℕ)
    → i ≡ length a
    → j ≡ length a + length m
    → length m < fuel
    → str_reverse_loop fuel (a ++ (m ++ z)) i j ≡ some (a ++ (reverse m ++ z))
unfolding str_reverse_loop
str_reverse_loop-reverse zero a m z i j e f h = absurd (omega arith)
str_reverse_loop-reverse (suc fuel) a [] z i j e f h = ground arith
str_reverse_loop-reverse (suc fuel) a (x ∷ []) z i j e f h = ground arith
str_reverse_loop-reverse (suc fuel) a (x ∷ y ∷ r) z i j e f h =
    let (m, w, s) = snoc y r in
    let size : length (y ∷ r) ≡ length m + 1 = ap length s ∙ length-append m (w ∷ []) in
    subst
      (λ l.
        str_reverse_loop (suc fuel) (a ++ ((x ∷ l) ++ z)) i j ≡ some (a ++ (reverse (x ∷ l) ++ z)))
      (sym s)
      (str_reverse_loop-round fuel a m z x w i j e (omega arith) (
        str_reverse_loop-reverse fuel (a ++ (w ∷ [])) m (x ∷ z) (i + 1) (j - 1)
          (omega (arith, length-append a (w ∷ []))) (omega (arith, length-append a (w ∷ [])))
          (omega arith)))

-- The bytes from `begin` to `end` are reversed in place, and no other byte changes.
pub str_reverse-reverse :
    (a m z : List ℕ)
    → str_reverse (a ++ (m ++ z)) (length a) (length a + length m) ≡ some (a ++ (reverse m ++ z))
unfolding str_reverse
str_reverse-reverse a m z =
    str_reverse_loop-reverse (length a + length m + 1) a m z (length a) (length a + length m) refl
      refl (omega arith)
