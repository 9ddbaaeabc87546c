-- ===== src/Strings/Split/Loop.antt =====
-- The loop of `strsplit` in bootloader/stage2/strings.c against the words of a text.
use mathlib.Core.Path.{subst}
use dalek.Base.{
  ℕ, zero, suc, ◌+◌, ◌-◌, ◌^◌, false, ◌<◌, ◌≡◌, refl, ap, ◌∙◌, some, List, [], ◌∷◌, ◌++◌, ◌==◌,
  length, get_elem?, arith, length-append, append_assoc,
}
use dalek.Strings.Text.{IsText, held}
use dalek.Strings.Buffer.{store-append}
use dalek.Strings.Split.{split_round, split_end, split_loop, strsplit}
use dalek.Strings.Split.Words.{
  words, words-cons, words-nil, first_word, behind_word, tail, length-behind_word,
  behind_word-IsText, next_separator-behind_word,
}
use dalek.Strings.Split.Rows.{
  flat, starts, overwritten, filled, Fits, Points, row-over, take-first_word, skip_separator-tail,
  length-tail, tail-IsText, length-overwritten, starts-Points,
}

-- What the loop returns on the text `t` with the rows `rows` before it, `z` of them used.
module _ (seps behind array : List ℕ) where
  abbrev Splits : ℕ → List ℕ → List ℕ → ℕ → ℕ → List ℕ → List (List ℕ) → Type 0
  Splits fuel t rest i z done rows =
      split_loop fuel (held seps behind) (held t rest) i z array (done ++ flat rows)
      ≡ some (z + length (words seps t), done ++ flat (filled (words seps t) rows))

  split_round-word :
      (c : ℕ) (t rest : List ℕ) (i z : ℕ) (done r : List ℕ) (rows : List (List ℕ))
      → IsText seps
      → length seps < 2 ^ 15
      → IsText (c ∷ t)
      → i + length (c ∷ t) < 2 ^ 16
      → get_elem? array z ≡ some (length done)
      → length (first_word seps (c ∷ t)) < length r
      → (i' : ℕ) × (split_round
            (held seps behind)
            (held (c ∷ t) rest)
            i
            z
            array
            (done ++ (r ++ flat rows))
          ≡ some (
            held (tail (behind_word seps (c ∷ t))) rest,
            i',
            done ++ (overwritten (first_word seps (c ∷ t)) r ++ flat rows),
          ))
        × (i' + length (tail (behind_word seps (c ∷ t))) ≡ i + length (c ∷ t))
  unfolding split_round
  split_round-word c t rest i z done r rows hs ls h l at fits =
      let word = first_word seps (c ∷ t) in
      let text = c ∷ t in
      let (i', skipped, same) =
        skip_separator-tail (behind_word seps text) rest (i + length word)
          (behind_word-IsText seps text h) (omega (arith, length-behind_word seps text)) in
      let count : i + length word - i ≡ length word = omega arith in
      (
        i',
        rw
            (
              next_separator-behind_word seps behind text rest i hs ls h l,
              at,
              count,
              row-over done r word (held text rest) (flat rows) (length done) refl fits
                  (take-first_word seps text rest),
              skipped,
            )
            refl,
        omega (arith, same, length-behind_word seps text),
      )

  split_loop-words :
      (fuel : ℕ) (t rest : List ℕ) (i z : ℕ) (done : List ℕ) (rows : List (List ℕ))
      → IsText seps
      → length seps < 2 ^ 15
      → IsText t
      → i + length t < 2 ^ 16
      → length t < fuel
      → Points array z (length done) rows
      → Fits (words seps t) rows
      → Splits fuel t rest i z done rows
  unfolding split_loop split_end
  split_loop-words zero t rest i z done rows hs ls h l enough points fits = absurd (omega arith)
  split_loop-words (suc fuel) [] rest i z done [] hs ls h l enough points fits =
      absurd (elim fits [ ])
  split_loop-words (suc fuel) [] rest i z done ([] ∷ rows) hs ls h l enough points fits =
      absurd (let e = words-nil seps in ground arith)
  split_loop-words (suc fuel) [] rest i z done ((x ∷ r) ∷ rows) hs ls h l enough points fits =
      ground (arith, words-nil seps, store-append done x (r ++ flat rows) 0 (length done) refl)
  split_loop-words (suc fuel) (c ∷ t) rest i z done [] hs ls h l enough points fits =
      absurd (subst (λ w. Fits w []) (words-cons seps c t) fits)
  split_loop-words (suc fuel) (c ∷ t) rest i z done (r ∷ rows) hs ls h l enough points fits =
      let word = first_word seps (c ∷ t) in
      let left = tail (behind_word seps (c ∷ t)) in
      let done' = done ++ overwritten word r in
      let ws = words-cons seps c t in
      let (short, fits') = subst (λ w. Fits w (r ∷ rows)) ws fits in
      let size = length-overwritten word r short in
      let (i', round, same) = split_round-word c t rest i z done r rows hs ls h l points.0 short in
      let smaller : length left < fuel =
        omega (arith, length-tail (behind_word seps (c ∷ t)), length-behind_word seps (c ∷ t)) in
      let next =
        split_loop-words fuel left rest i' (z + 1) done' rows hs ls
          (tail-IsText (behind_word seps (c ∷ t)) (behind_word-IsText seps (c ∷ t) h)) (omega arith)
          (omega arith)
          (subst (λ p. Points array (z + 1) p rows)
            (omega (arith, length-append done (overwritten word r), size)) points.1)
          fits' in
      let nul : (c == 0) ≡ false = ground arith in
      ground (
        arith,
        ws,
        round,
        next,
        append_assoc done (overwritten word r) (flat rows),
        append_assoc done (overwritten word r) (flat (filled (words seps left) rows)),
      )

-- `strsplit` on a text, into an array of rows that have room for its words and for one more string: it
-- returns the number of the words, and leaves each word in its row and the empty string in the row
-- behind them. Two separators in a row have an empty word between them, a separator at the end of the
-- text has none behind it.
pub strsplit-words :
    (seps behind t rest : List ℕ) (rows : List (List ℕ))
    → IsText seps
    → length seps < 2 ^ 15
    → IsText t
    → length t < 2 ^ 16
    → Fits (words seps t) rows
    → strsplit (held t rest) (starts 0 rows) (held seps behind) (flat rows)
      ≡ some (length (words seps t), flat (filled (words seps t) rows))
unfolding strsplit
strsplit-words seps behind t rest rows hs ls h l fits =
    split_loop-words seps behind (starts 0 rows) (suc (length (held t rest))) t rest 0 0 [] rows hs
      ls h (omega arith) (omega (arith, length-append t (0 ∷ rest)))
      (starts-Points [] 0 0 rows refl) fits
    ∙ ap (λ n. some (n, flat (filled (words seps t) rows))) (omega arith)
