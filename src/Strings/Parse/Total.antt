-- ===== src/Strings/Parse/Total.antt =====
-- `strtol` and `atoi` of bootloader/stage2/strings.c on any terminated string.
use dalek.Base.{
  ℕ, ◌≤◌, ◌<◌, ◌≡◌, refl, Bool, true, false, Bool-cases, ◌⊎◌, inl, inr, ◌||◌, Option, none, some,
  List, [], ◌∷◌, ◌==◌, length, drop, arith,
}
use dalek.Strings.Text.{isdigit}
use dalek.Strings.Parse.{strtol, atoi, strtol_loop, strtol_base, accumulate, stopped}

-- The object has a terminator.
abbrev pub has_nul : List ℕ → Bool
has_nul [] = false
has_nul (c ∷ s) = c == 0 || has_nul s

-- A place inside the object `s`, with a terminator at it or behind it.
pub record IsPlace (s q : List ℕ) : Type 0 where
  pub shorter : length q ≤ length s
  pub terminated : has_nul q ≡ true

-- What `strtol` sets `*p` to: null, or a place whose character is no terminator.
pub record IsStop (s q : List ℕ) : Type 0 where
  pub some_character : 0 < length q
  pub shorter : length q ≤ length s
  pub next_terminated : has_nul (drop 1 q) ≡ true

digit-has_nul :
    (c base : ℕ) (s : List ℕ) → isdigit c base ≡ true → has_nul (c ∷ s) ≡ true → has_nul s ≡ true
unfolding isdigit
digit-has_nul c base s d h = ground arith

strtol_loop-total :
    (base value : ℕ) (s : List ℕ)
    → has_nul s ≡ true
    → (v : ℕ) × (q : List ℕ) × (strtol_loop base value s ≡ some (v, q)) × IsPlace s q
unfolding strtol_loop
strtol_loop-total base value [] h = ground arith
strtol_loop-total base value (c ∷ s) h = elim (Bool-cases (isdigit c base)) [
  | inl digit ↦
      let tail : has_nul s ≡ true = digit-has_nul c base s digit h in
      let (v, q, e, place) = strtol_loop-total base (accumulate base value c) s tail in
      (
        v,
        q,
        rw digit e,
        record { shorter = omega (arith, place.shorter); terminated = place.terminated },
      )
  | inr other ↦ (value, c ∷ s, rw other refl, record { shorter = omega arith; terminated = h })
]

strtol_base-total :
    (base : ℕ) (s : List ℕ)
    → has_nul s ≡ true
    → (b : ℕ) × (q : List ℕ) × (strtol_base base s ≡ some (b, q)) × IsPlace s q
unfolding strtol_base
strtol_base-total base [] h = ground arith
strtol_base-total base (c ∷ []) h = elim (Bool-cases (base == 0)) [
  | inl zero_base ↦ (10, c ∷ [], ground arith, record { shorter = omega arith; terminated = h })
  | inr given ↦ (base, c ∷ [], ground arith, record { shorter = omega arith; terminated = h })
]
strtol_base-total base (c ∷ d ∷ s) h = elim (Bool-cases (base == 0)) [
  | inr given ↦ (base, c ∷ d ∷ s, ground arith, record { shorter = omega arith; terminated = h })
  | inl zero_base ↦ elim (Bool-cases (c == b'0')) [
    | inr decimal ↦ (10, c ∷ d ∷ s, ground arith, record { shorter = omega arith; terminated = h })
    | inl prefix ↦ elim (Bool-cases (d == b'x')) [
      | inl hexadecimal ↦
          (16, s, ground arith, record { shorter = omega arith; terminated = ground arith })
      | inr not_x ↦ elim (Bool-cases (d == b'b')) [
        | inl binary ↦
            (2, s, ground arith, record { shorter = omega arith; terminated = ground arith })
        | inr octal ↦
            (8, d ∷ s, ground arith, record { shorter = omega arith; terminated = ground arith })
      ]
    ]
  ]
]

stopped-IsStop :
    (s q : List ℕ)
    → IsPlace s q
    → (stopped q ≡ none) ⊎ ((r : List ℕ) × (stopped q ≡ some r) × IsStop s r)
unfolding stopped
stopped-IsStop s [] place = inl refl
stopped-IsStop s (c ∷ q) place = elim (Bool-cases (c == 0)) [
  | inl nul ↦ inl (ground arith)
  | inr character ↦ inr (
    c ∷ q,
    ground arith,
    record {
      some_character = omega arith;
      shorter = place.shorter;
      next_terminated = ground (arith, place.terminated);
    },
  )
]

IsPlace-trans : {s q r : List ℕ} → IsPlace s q → IsPlace q r → IsPlace s r
IsPlace-trans h k = record {
  shorter = omega (arith, h.shorter, k.shorter);
  terminated = k.terminated;
}

-- On every terminated string, in every base, `strtol` returns and reads no further than the
-- terminator; `*p` is null or a place in the string before the terminator.
pub strtol-total :
    (s : List ℕ) (base : ℕ)
    → has_nul s ≡ true
    → (value : ℕ) × (p : Option (List ℕ)) × (strtol s base ≡ some (value, p))
      × ((p ≡ none) ⊎ ((r : List ℕ) × (p ≡ some r) × IsStop s r))
unfolding strtol
strtol-total s base h =
    let (b, q, e, place) = strtol_base-total base s h in
    let (value, r, f, end) = strtol_loop-total b 0 q place.terminated in
    (value, stopped r, rw (e, f) refl, stopped-IsStop s r (IsPlace-trans place end))

-- So does `atoi`.
pub atoi-total : (s : List ℕ) → has_nul s ≡ true → (value : ℕ) × (atoi s ≡ some value)
unfolding atoi
atoi-total s h = let (value, p, e, stop) = strtol-total s 0 h in (value, rw e refl)
