-- ===== src/Strings/Compare.antt =====
-- `strcmp` and `strncmp` of bootloader/stage2/strings.c.
use dalek.Base.{
  ℕ, zero, suc, ◌<◌, ◌≡◌, refl, ◌↔◌, true, false, ◌||◌, Bool-cases, inl, inr, ◌⊎◌, ap₂, sym, Option,
  none, some, List, [], ◌∷◌, ◌++◌, arith, ◌==◌, if◌then◌else◌, take,
}
use dalek.Base.Int.{ℤ, pos, negsuc}
use dalek.Strings.Text.{IsText, held, signed_lt}

-- What both return at the end of `s1`, or of the count.
compare_end : List ℕ → Option ℤ
compare_end [] = none
compare_end (d ∷ s2) = some (if d == 0 then pos 0 else pos 1)

-- The body of the loop, given what the next round returns.
compare_step : ℕ → List ℕ → (List ℕ → Option ℤ) → Option ℤ
compare_step c [] next = none
compare_step c (d ∷ s2) next =
    if signed_lt d c || d == 0
    then some (pos 1)
    else if signed_lt c d
    then some (negsuc 0)
    else next s2

unfoldable pub strcmp : List ℕ → List ℕ → Option ℤ
unfolding compare_end compare_step
strcmp [] s2 = none
strcmp (c ∷ s1) s2 = if c == 0 then compare_end s2 else compare_step c s2 (strcmp s1)

-- The count is what is left of `len`.
unfoldable pub strncmp : List ℕ → List ℕ → ℕ → Option ℤ
unfolding compare_end compare_step
strncmp [] s2 n = none
strncmp (c ∷ s1) s2 zero = compare_end s2
strncmp (c ∷ s1) s2 (suc n) =
    if c == 0 then compare_end s2 else compare_step c s2 (λ s. strncmp s1 s n)

-- Two characters are equal or ordered.
char_cases :
    (c d : ℕ)
    → c < 256
    → d < 256
    → (signed_lt d c ≡ true) ⊎ ((signed_lt d c ≡ false) × (signed_lt c d ≡ true)) ⊎ (c ≡ d)
char_cases c d h g = elim (Bool-cases (signed_lt d c)) [
  | inl more ↦ inl more
  | inr not_more ↦ elim (Bool-cases (signed_lt c d)) [
    | inl less ↦ inr (inl (not_more, less))
    | inr not_less ↦ inr (inr (ground arith))
  ]
]

cons_injective : {c d : ℕ} {t u : List ℕ} → c ∷ t ≡ d ∷ u → (c ≡ d) × (t ≡ u)
cons_injective e = (cc, cc)

-- A comparison that returned, with what a zero says of the two texts.
abbrev pub Compared : Option ℤ → Type 0 → Type 0
Compared o Same = (r : ℤ) × (o ≡ some r) × ((r ≡ pos 0) ↔ Same)

-- One round of either loop.
compare_step-Compared :
    (c d : ℕ) (s2 : List ℕ) (next : List ℕ → Option ℤ) (t u : List ℕ)
    → 0 < d
    → c < 256
    → d < 256
    → Compared (next s2) (u ≡ t)
    → Compared (compare_step c (d ∷ s2) next) (d ∷ u ≡ c ∷ t)
unfolding compare_step
compare_step-Compared c d s2 next t u pd h g (r, e, iff) = elim (char_cases c d h g) [
  | inl more ↦ (pos 1, rw more, (λ z. cc, λ same. absurd (ground (arith, cons_injective same))))
  | inr (inl (not_more, less)) ↦
      (negsuc 0, ground arith, (λ z. cc, λ same. absurd (ground (arith, cons_injective same))))
  | inr (inr eq) ↦
      (r, ground arith, (λ z. ap₂ ◌∷◌ (sym eq) (iff.0 z), λ same. iff.1 (cons_injective same).1))
]

-- On two strings `strcmp` returns, and it returns 0 exactly when they are the same text.
pub strcmp_equal :
    (t u rest rest' : List ℕ)
    → IsText t
    → IsText u
    → Compared (strcmp (held t rest) (held u rest')) (u ≡ t)
unfolding strcmp
strcmp_equal [] [] rest rest' h g = (pos 0, refl, ground arith)
strcmp_equal [] (d ∷ u) rest rest' h g = (pos 1, ground arith, (λ e. cc, λ e. cc))
strcmp_equal (c ∷ t) [] rest rest' h g = (pos 1, ground arith, (λ e. cc, λ e. cc))
strcmp_equal (c ∷ t) (d ∷ u) rest rest' h g =
    let nul : (c == 0) ≡ false = ground arith in
    rw nul (
      compare_step-Compared c d (held u rest') (strcmp (held t rest)) t u g.0 h.1 g.1
        (strcmp_equal t u rest rest' h.2 g.2))

-- On two strings `strncmp` returns, and it returns 0 exactly when the second text is the first `n`
-- characters of the first one, or all of it if it has fewer.
pub strncmp_equal :
    (t u rest rest' : List ℕ) (n : ℕ)
    → IsText t
    → IsText u
    → Compared (strncmp (held t rest) (held u rest') n) (u ≡ take n t)
unfolding strncmp
strncmp_equal [] [] rest rest' zero h g = (pos 0, refl, ground arith)
strncmp_equal [] [] rest rest' (suc n) h g = (pos 0, refl, ground arith)
strncmp_equal [] (d ∷ u) rest rest' zero h g = (pos 1, ground arith, (λ e. cc, λ e. cc))
strncmp_equal [] (d ∷ u) rest rest' (suc n) h g = (pos 1, ground arith, (λ e. cc, λ e. cc))
strncmp_equal (c ∷ t) [] rest rest' zero h g = (pos 0, refl, ground arith)
strncmp_equal (c ∷ t) (d ∷ u) rest rest' zero h g = (pos 1, ground arith, (λ e. cc, λ e. cc))
strncmp_equal (c ∷ t) [] rest rest' (suc n) h g = (pos 1, ground arith, (λ e. cc, λ e. cc))
strncmp_equal (c ∷ t) (d ∷ u) rest rest' (suc n) h g =
    let nul : (c == 0) ≡ false = ground arith in
    rw nul (
      compare_step-Compared c d (held u rest') (λ s. strncmp (held t rest) s n) (take n t) u g.0 h.1
        g.1 (strncmp_equal t u rest rest' n h.2 g.2))

-- A string is greater than each of its prefixes, and so is the prefix than the string: `strcmp`
-- returns 1 both ways round.
pub strcmp_prefix :
    (t rest rest' : List ℕ) (d : ℕ) (u : List ℕ)
    → IsText t
    → IsText (d ∷ u)
    → (strcmp (held t rest) (held (t ++ (d ∷ u)) rest') ≡ some (pos 1))
      × (strcmp (held (t ++ (d ∷ u)) rest') (held t rest) ≡ some (pos 1))
unfolding strcmp
strcmp_prefix [] rest rest' d u h g = (ground arith, ground arith)
strcmp_prefix (c ∷ t) rest rest' d u h g = ground (arith, strcmp_prefix t rest rest' d u h.2 g)
