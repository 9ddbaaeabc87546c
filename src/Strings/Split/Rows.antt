-- ===== src/Strings/Split/Rows.antt =====
-- What `strsplit` of bootloader/stage2/strings.c leaves in the object of the strings, a row for each
-- entry of its array.
use mathlib.Core.Path.{subst}
use dalek.Base.{
  ℕ, zero, suc, ◌+◌, ◌-◌, ◌^◌, ◌<◌, ◌≤◌, ◌≡◌, refl, some, List, [], ◌∷◌, ◌++◌, take, drop, length,
  get_elem?, get_elem?-append, arith, length-append, append_assoc, length-drop,
}
use dalek.Strings.Text.{IsText, held}
use dalek.Strings.Buffer.{store-append}
use dalek.Strings.Split.{put_bytes, put_string, skip_separator}
use dalek.Strings.Split.Words.{first_word, tail}

-- The rows one behind the other, and where each of them starts.
abbrev pub flat : List (List ℕ) → List ℕ
flat [] = []
flat (r ∷ rs) = r ++ flat rs

abbrev pub starts : ℕ → List (List ℕ) → List ℕ
starts p [] = []
starts p (r ∷ rs) = p ∷ starts (p + length r) rs

-- A row with a string written into it, and the rows with the words in them: the row behind the last
-- word holds the empty string.
abbrev pub overwritten : List ℕ → List ℕ → List ℕ
overwritten w r = held w (drop (suc (length w)) r)

abbrev pub filled : List (List ℕ) → List (List ℕ) → List (List ℕ)
filled ws [] = []
filled [] (r ∷ rs) = overwritten [] r ∷ rs
filled (w ∷ ws) (r ∷ rs) = overwritten w r ∷ filled ws rs

-- There is a row for every word and one more, each with room for its terminator.
abbrev pub Fits : List (List ℕ) → List (List ℕ) → Type 0
Fits ws [] = ⊥
Fits [] (r ∷ rs) = 0 < length r
Fits (w ∷ ws) (r ∷ rs) = (length w < length r) × Fits ws rs

-- From its entry `z` the array holds the starts of the rows.
abbrev pub Points : List ℕ → ℕ → ℕ → List (List ℕ) → Type 0
Points array z p [] = Unit {0}
Points array z p (r ∷ rs) = (get_elem? array z ≡ some p) × Points array (z + 1) (p + length r) rs

pub starts-Points :
    (a : List ℕ) (p z : ℕ) (rs : List (List ℕ)) → z ≡ length a → Points (a ++ starts p rs) z p rs
starts-Points a p z [] e = tt
starts-Points a p z (r ∷ rs) e = (
  rw e (get_elem?-append a p (starts (p + length r) rs)),
  subst (λ a'. Points a' (z + 1) (p + length r) rs)
      (append_assoc a (p ∷ []) (starts (p + length r) rs))
      (starts-Points (a ++ (p ∷ [])) (p + length r) (z + 1) rs
        (omega (arith, length-append a (p ∷ [])))),
)

-- A string written over the bytes `b`.
pub put_bytes-over :
    (done b s after : List ℕ) (p : ℕ)
    → p ≡ length done
    → length s ≤ length b
    → put_bytes (done ++ (b ++ after)) p s ≡ some (done ++ (s ++ (drop (length s) b ++ after)))
unfolding put_bytes
put_bytes-over done b [] after p e h = refl
put_bytes-over done [] (c ∷ s) after p e h = absurd (omega arith)
put_bytes-over done (x ∷ b) (c ∷ s) after p e h = ground (
  arith,
  store-append done x (b ++ after) c p e,
  append_assoc done (c ∷ []) (b ++ after),
  append_assoc done (c ∷ []) (s ++ (drop (length s) b ++ after)),
  put_bytes-over (done ++ (c ∷ [])) b s after (p + 1),
  length-append done (c ∷ []),
)

pub length-overwritten : (w r : List ℕ) → length w < length r → length (overwritten w r) ≡ length r
length-overwritten w r h =
    omega (arith, length-append w (0 ∷ drop (suc (length w)) r), length-drop (suc (length w)) r)

drop-cons : (n : ℕ) (r : List ℕ) → n < length r → (x : ℕ) × (drop n r ≡ x ∷ drop (suc n) r)
drop-cons n [] h = absurd (omega arith)
drop-cons zero (x ∷ r) h = (x, refl)
drop-cons (suc n) (y ∷ r) h = drop-cons n r (omega arith)

pub take-first_word :
    (seps t rest : List ℕ) → take (length (first_word seps t)) (held t rest) ≡ first_word seps t
unfolding first_word
take-first_word seps [] rest = refl
take-first_word seps (c ∷ t) rest = ground (arith, take-first_word seps t rest)

-- A string and its terminator written over a row.
pub row-over :
    (done r w s after : List ℕ) (p : ℕ)
    → p ≡ length done
    → length w < length r
    → take (length w) s ≡ w
    → put_string (done ++ (r ++ after)) p s (length w) ≡ some (done ++ (overwritten w r ++ after))
unfolding put_string
row-over done r w s after p e h same =
    let (x, d) = drop-cons (length w) r h in
    ground (
      arith,
      put_bytes-over done r w after p e,
      d,
      append_assoc done w (x ∷ (drop (suc (length w)) r ++ after)),
      append_assoc done w (0 ∷ (drop (suc (length w)) r ++ after)),
      append_assoc w (0 ∷ drop (suc (length w)) r) after,
      store-append (done ++ w) x (drop (suc (length w)) r ++ after) 0 (p + length w),
      length-append done w,
    )

pub skip_separator-tail :
    (t rest : List ℕ) (j : ℕ)
    → IsText t
    → j + length t < 2 ^ 16
    → (i : ℕ) × (skip_separator (held t rest) j ≡ some (held (tail t) rest, i))
      × (i + length (tail t) ≡ j + length t)
unfolding skip_separator
skip_separator-tail [] rest j h l = (j, refl, omega arith)
skip_separator-tail (c ∷ t) rest j h l = (j + 1, ground arith, omega arith)

pub length-tail : (t : List ℕ) → length (tail t) ≡ length t - 1
length-tail [] = omega arith
length-tail (c ∷ t) = omega arith

pub tail-IsText : (t : List ℕ) → IsText t → IsText (tail t)
tail-IsText [] h = tt
tail-IsText (c ∷ t) h = h.2
