-- ===== src/Strings/Search.antt =====
-- `strcontains` of bootloader/stage2/strings.c.
use dalek.Base.{
  ℕ, ◌+◌, ◌^◌, ◌<◌, ◌≡◌, refl, ◌≢◌, Option, none, some, List, [], ◌∷◌, ◌++◌, arith, ◌==◌,
  if◌then◌else◌, length, length-append, ap, ◌∙◌,
}
use dalek.Base.Int.{ℤ, pos, negsuc}
use dalek.Strings.Text.{IsText, held}

-- The loop from the index `i`, an `int16_t`. Past 32767 it is negative, and `s[i]` lies outside the
-- object.
unfoldable pub strcontains_from : List ℕ → ℕ → ℕ → Option ℤ
strcontains_from [] c i = none
strcontains_from (x ∷ s) c i =
    let rest = strcontains_from s c (i + 1) in
    if x == 0
    then some (negsuc 0)
    else if x == c
    then some (pos i)
    else if i + 1 == 2 ^ 15
    then none
    else rest

unfoldable pub strcontains : List ℕ → ℕ → Option ℤ
unfolding strcontains_from
strcontains s c = strcontains_from s c 0

-- The character is nowhere in the text.
abbrev pub Absent : ℕ → List ℕ → Type 0
Absent c [] = Unit {0}
Absent c (x ∷ t) = (x ≢ c) × Absent c t

module _ (c : ℕ) where
  strcontains_from-found :
      (p q rest : List ℕ) (i : ℕ)
      → IsText (p ++ (c ∷ q))
      → Absent c p
      → i + length p < 2 ^ 15
      → strcontains_from (held (p ++ (c ∷ q)) rest) c i ≡ some (pos (i + length p))
  unfolding strcontains_from
  strcontains_from-found [] q rest i h a l = ground arith
  strcontains_from-found (x ∷ p) q rest i h a l =
      ground (arith, strcontains_from-found p q rest (i + 1) h.2 a.1)

  strcontains_from-Absent :
      (t rest : List ℕ) (i : ℕ)
      → IsText t
      → Absent c t
      → i + length t < 2 ^ 15
      → strcontains_from (held t rest) c i ≡ some (negsuc 0)
  unfolding strcontains_from
  strcontains_from-Absent [] rest i h a l = refl
  strcontains_from-Absent (x ∷ t) rest i h a l =
      ground (arith, strcontains_from-Absent t rest (i + 1) h.2 a.1)

  -- In a string of fewer than 32768 characters `strcontains` returns the index of the first place
  -- where the character stands.
  pub strcontains-found :
      (p q rest : List ℕ)
      → IsText (p ++ (c ∷ q))
      → Absent c p
      → length (p ++ (c ∷ q)) < 2 ^ 15
      → strcontains (held (p ++ (c ∷ q)) rest) c ≡ some (pos (length p))
  unfolding strcontains
  strcontains-found p q rest h a l =
      strcontains_from-found p q rest 0 h a (omega (arith, length-append p (c ∷ q)))
      ∙ ap (λ k. some (pos k)) (omega arith)

  -- And it returns -1 if the character is not in the string.
  pub strcontains-Absent :
      (t rest : List ℕ)
      → IsText t
      → Absent c t
      → length t < 2 ^ 15
      → strcontains (held t rest) c ≡ some (negsuc 0)
  unfolding strcontains
  strcontains-Absent t rest h a l = strcontains_from-Absent t rest 0 h a (omega arith)
