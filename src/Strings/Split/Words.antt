-- ===== src/Strings/Split/Words.antt =====
-- The words of a text, said without the loops of `strsplit` in bootloader/stage2/strings.c, and the
-- search of a separator.
use dalek.Base.{
  ℕ, ◌+◌, ◌^◌, ◌<◌, ◌≡◌, refl, Bool, false, Bool-cases, inl, inr, ◌||◌, not, some, List, [], ◌∷◌,
  ◌==◌, if◌then◌else◌, length, arith,
}
use dalek.Base.Int.{ℤ, pos, negsuc}
use dalek.Strings.Text.{IsText, held}
use dalek.Strings.Search.{strcontains, strcontains_from}
use dalek.Strings.Split.{is_minus_one, next_separator}

-- The character is one of these.
abbrev pub contains : List ℕ → ℕ → Bool
contains [] c = false
contains (x ∷ xs) c = x == c || contains xs c

-- A character in front of the first word.
abbrev pub in_front : ℕ → List (List ℕ) → List (List ℕ)
in_front c [] = (c ∷ []) ∷ []
in_front c (w ∷ ws) = (c ∷ w) ∷ ws

-- The words between the separators; a separator at the end has no word behind it.
unfoldable pub words : List ℕ → List ℕ → List (List ℕ)
words seps [] = []
words seps (c ∷ t) =
    let rest = words seps t in if contains seps c then [] ∷ rest else in_front c rest

strcontains_from-contains :
    (seps rest : List ℕ) (c i : ℕ)
    → IsText seps
    → i + length seps < 2 ^ 15
    → (r : ℤ) × (strcontains_from (held seps rest) c i ≡ some r)
      × (is_minus_one r ≡ not (contains seps c))
unfolding strcontains_from
strcontains_from-contains [] rest c i h l = (negsuc 0, refl, refl)
strcontains_from-contains (x ∷ seps) rest c i h l = elim (Bool-cases (x == c)) [
  | inl same ↦ (pos i, ground arith, ground arith)
  | inr other ↦
      let (r, e, f) = strcontains_from-contains seps rest c (i + 1) h.2 (omega arith) in
      (r, ground arith, ground arith)
]

-- `strcontains` tells whether the character is one of the string.
pub strcontains-contains :
    (seps rest : List ℕ) (c : ℕ)
    → IsText seps
    → length seps < 2 ^ 15
    → (r : ℤ) × (strcontains (held seps rest) c ≡ some r) × (is_minus_one r ≡ not (contains seps c))
unfolding strcontains
strcontains-contains seps rest c h l = strcontains_from-contains seps rest c 0 h (omega arith)

-- The first word of a text and what stands from its separator on.
unfoldable pub first_word : List ℕ → List ℕ → List ℕ
first_word seps [] = []
first_word seps (c ∷ t) = let rest = first_word seps t in if contains seps c then [] else c ∷ rest

unfoldable pub behind_word : List ℕ → List ℕ → List ℕ
behind_word seps [] = []
behind_word seps (c ∷ t) = let rest = behind_word seps t in if contains seps c then c ∷ t else rest

abbrev pub tail : List ℕ → List ℕ
tail [] = []
tail (c ∷ t) = t

pub words-nil : (seps : List ℕ) → words seps [] ≡ []
unfolding words
words-nil seps = refl

pub words-cons :
    (seps : List ℕ) (c : ℕ) (t : List ℕ)
    → words seps (c ∷ t) ≡ first_word seps (c ∷ t) ∷ words seps (tail (behind_word seps (c ∷ t)))
unfolding words first_word behind_word
words-cons seps c [] = ground arith
words-cons seps c (d ∷ t) = ground (arith, words-cons seps d t)

pub length-behind_word :
    (seps t : List ℕ) → length (first_word seps t) + length (behind_word seps t) ≡ length t
unfolding first_word behind_word
length-behind_word seps [] = refl
length-behind_word seps (c ∷ t) = ground (arith, length-behind_word seps t)

pub behind_word-IsText : (seps t : List ℕ) → IsText t → IsText (behind_word seps t)
unfolding behind_word
behind_word-IsText seps [] h = tt
behind_word-IsText seps (c ∷ t) h = ground (arith, behind_word-IsText seps t)

pub next_separator-behind_word :
    (seps rest t rest' : List ℕ) (j : ℕ)
    → IsText seps
    → length seps < 2 ^ 15
    → IsText t
    → j + length t < 2 ^ 16
    → next_separator (held seps rest) (held t rest') j
      ≡ some (held (behind_word seps t) rest', j + length (first_word seps t))
unfolding next_separator first_word behind_word
next_separator-behind_word seps rest [] rest' j hs ls h l = ground arith
next_separator-behind_word seps rest (c ∷ t) rest' j hs ls h l =
    let (r, e, f) = strcontains-contains seps rest c hs ls in
    ground (arith, next_separator-behind_word seps rest t rest' (j + 1) hs ls h.2)
