-- ===== src/Strings/Split/Lines.antt =====
-- A line that is made of words and a separator, against `strsplit` of bootloader/stage2/strings.c.
use dalek.Base.{
  ℕ, ◌^◌, ◌<◌, ◌≡◌, refl, sym, ap, ◌∙◌, false, true, some, List, [], ◌∷◌, ◌++◌, length, arith,
}
use mathlib.Core.Path.{subst}
use dalek.Strings.Text.{IsText, held}
use dalek.Strings.Split.{strsplit}
use dalek.Strings.Split.Words.{contains, words}
use dalek.Strings.Split.Rows.{flat, starts, filled, Fits}
use dalek.Strings.Split.Loop.{strsplit-words}

-- The words with the separator between them.
abbrev pub line : ℕ → List (List ℕ) → List ℕ
line sep [] = []
line sep (w ∷ []) = w
line sep (w ∷ v ∷ ws) = w ++ (sep ∷ line sep (v ∷ ws))

-- A word has a character, and none of its characters is a separator.
abbrev pub Free : List ℕ → List ℕ → Type 0
Free seps [] = Unit {0}
Free seps (c ∷ w) = (contains seps c ≡ false) × Free seps w

abbrev pub AreWords : List ℕ → List (List ℕ) → Type 0
AreWords seps [] = Unit {0}
AreWords seps (w ∷ ws) = (0 < length w) × Free seps w × AreWords seps ws

words-Free : (seps w : List ℕ) → 0 < length w → Free seps w → words seps w ≡ w ∷ []
unfolding words
words-Free seps [] p h = absurd (omega arith)
words-Free seps (c ∷ []) p h = ground (arith, h.0)
words-Free seps (c ∷ d ∷ w) p h = ground (arith, words-Free seps (d ∷ w))

words-Free_append :
    (seps w t : List ℕ) (sep : ℕ)
    → contains seps sep ≡ true
    → Free seps w
    → words seps (w ++ (sep ∷ t)) ≡ w ∷ words seps t
unfolding words
words-Free_append seps [] t sep s h = ground (arith, s)
words-Free_append seps (c ∷ w) t sep s h = ground (arith, words-Free_append seps w t sep s)

words-line :
    (seps : List ℕ) (sep : ℕ) (ws : List (List ℕ))
    → contains seps sep ≡ true
    → AreWords seps ws
    → words seps (line sep ws) ≡ ws
words-line seps sep [] s h = unfold words in refl
words-line seps sep (w ∷ []) s h = words-Free seps w h.0 h.1
words-line seps sep (w ∷ v ∷ ws) s h =
    words-Free_append seps w (line sep (v ∷ ws)) sep s h.1
    ∙ ap (λ l. w ∷ l) (words-line seps sep (v ∷ ws) s h.2)

-- `strsplit` takes a line apart into the words it was made of, if each of them has a character and none
-- has a separator: it returns their number and leaves each of them in its row, where there are rows
-- with room for them and for one more string.
pub strsplit-line :
    (seps behind rest : List ℕ) (sep : ℕ) (ws rows : List (List ℕ))
    → IsText seps
    → length seps < 2 ^ 15
    → contains seps sep ≡ true
    → AreWords seps ws
    → IsText (line sep ws)
    → length (line sep ws) < 2 ^ 16
    → Fits ws rows
    → strsplit (held (line sep ws) rest) (starts 0 rows) (held seps behind) (flat rows)
      ≡ some (length ws, flat (filled ws rows))
strsplit-line seps behind rest sep ws rows hs ls s hw h l fits =
    let same = words-line seps sep ws s hw in
    subst
      (λ v.
        strsplit (held (line sep ws) rest) (starts 0 rows) (held seps behind) (flat rows)
        ≡ some (length v, flat (filled v rows)))
      same
      (strsplit-words seps behind (line sep ws) rest rows hs ls h l
        (subst (λ v. Fits v rows) (sym same) fits))
