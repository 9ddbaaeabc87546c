-- ===== src/Cli/Rows.antt =====
-- The strings of `cli_start` in bootloader/stage2/cli.c as sixteen rows of 128 bytes.
use dalek.Base.{
  get_or, append_assoc, drop-append, ℕ, zero, suc, ◌+◌, ◌*◌, ◌<◌, ◌≡◌, refl, ap, ap₂, ◌∙◌, List, [],
  ◌∷◌, ◌++◌, length, take, drop, take-append-drop, length-take, length-drop, length-append, arith,
}
use dalek.Strings.Text.{held}
use mathlib.Core.Path.{subst}
use dalek.Strings.Split.Rows.{flat, starts, overwritten, length-overwritten, filled, Fits}
use dalek.Strings.Split.Lines.{line}
use dalek.Cli.{pointers, argv_of}

-- The object cut into rows.
unfoldable pub rows_of : ℕ → List ℕ → List (List ℕ)
rows_of zero strings = []
rows_of (suc n) strings = take 128 strings ∷ rows_of n (drop 128 strings)

-- Rows of 128 bytes.
abbrev pub Wide : List (List ℕ) → Type 0
Wide [] = Unit {0}
Wide (r ∷ rs) = (length r ≡ 128) × Wide rs

pub rows_of-Wide : (n : ℕ) (strings : List ℕ) → length strings ≡ n * 128 → Wide (rows_of n strings)
unfolding rows_of
rows_of-Wide zero strings h = tt
rows_of-Wide (suc n) strings h = (
  omega (arith, length-take 128 strings),
  rows_of-Wide n (drop 128 strings) (omega (arith, length-drop 128 strings)),
)

pub flat-rows_of :
    (n : ℕ) (strings : List ℕ) → length strings ≡ n * 128 → flat (rows_of n strings) ≡ strings
unfolding rows_of
flat-rows_of zero [] h = refl
flat-rows_of zero (x ∷ strings) h = absurd (omega arith)
flat-rows_of (suc n) strings h =
    ap (λ l. take 128 strings ++ l)
      (flat-rows_of n (drop 128 strings) (omega (arith, length-drop 128 strings)))
    ∙ take-append-drop 128 strings

pub length-rows_of : (n : ℕ) (strings : List ℕ) → length (rows_of n strings) ≡ n
unfolding rows_of
length-rows_of zero strings = refl
length-rows_of (suc n) strings = ap suc (length-rows_of n (drop 128 strings))

-- Where rows of 128 bytes start.
pub starts-pointers :
    (i : ℕ) (rows : List (List ℕ)) → Wide rows → starts (i * 128) rows ≡ pointers i (length rows)
unfolding pointers
starts-pointers i [] h = refl
starts-pointers i (r ∷ rows) h =
    let next : i * 128 + length r ≡ (i + 1) * 128 = omega (arith, h.0) in
    ap₂ ◌∷◌ refl (ap (λ p. starts p rows) next ∙ starts-pointers (i + 1) rows h.1)

-- The first strings of an array hold these words.
abbrev pub Holds : List (List ℕ) → List (List ℕ) → Type 0
Holds [] argv = Unit {0}
Holds (w ∷ ws) [] = ⊥
Holds (w ∷ ws) (a ∷ argv) = ((rest : List ℕ) × (a ≡ held w rest)) × Holds ws argv

-- Words that are shorter than a row, with a row more.
pub Fits-line :
    (sep : ℕ) (ws rows : List (List ℕ))
    → Wide rows
    → length (line sep ws) < 128
    → length ws < length rows
    → Fits ws rows
Fits-line sep ws [] h l more = absurd (omega arith)
Fits-line sep [] (r ∷ rows) h l more = omega (arith, h.0)
Fits-line sep (w ∷ []) (r ∷ rows) h l more =
    (omega (arith, h.0), Fits-line sep [] rows h.1 (omega arith) (omega arith))
Fits-line sep (w ∷ v ∷ ws) (r ∷ rows) h l more =
    let size = length-append w (sep ∷ line sep (v ∷ ws)) in
    (omega (arith, h.0, size), Fits-line sep (v ∷ ws) rows h.1 (omega (arith, size)) (omega arith))

-- Rows that are filled with words hold them.
argv_of-Holds_behind :
    (done : List ℕ) (ws rows : List (List ℕ))
    → Fits ws rows
    → Holds ws (argv_of (starts (length done) rows) (done ++ flat (filled ws rows)))
unfolding argv_of
argv_of-Holds_behind done [] rows fits = tt
argv_of-Holds_behind done (w ∷ ws) [] fits = elim fits [ ]
argv_of-Holds_behind done (w ∷ ws) (r ∷ rows) fits =
    let row = overwritten w r in
    let after = flat (filled ws rows) in
    let moved : length (done ++ row) ≡ length done + length r =
      omega (arith, length-append done row, length-overwritten w r fits.0) in
    (
      (
        drop (suc (length w)) r ++ after,
        drop-append done (row ++ after) ∙ append_assoc w (0 ∷ drop (suc (length w)) r) after,
      ),
      subst (λ (p : ℕ). Holds ws (argv_of (starts p rows) (done ++ (row ++ after)))) moved
          (subst (λ l. Holds ws (argv_of (starts (length (done ++ row)) rows) l))
            (append_assoc done row after) (argv_of-Holds_behind (done ++ row) ws rows fits.1)),
    )

pub argv_of-Holds :
    (ws rows : List (List ℕ))
    → Fits ws rows
    → Holds ws (argv_of (starts 0 rows) (flat (filled ws rows)))
argv_of-Holds ws rows fits = argv_of-Holds_behind [] ws rows fits

pub first-Holds :
    (w : List ℕ) (ws argv : List (List ℕ))
    → Holds (w ∷ ws) argv
    → (rest : List ℕ) × (get_or argv 0 [] ≡ held w rest)
first-Holds w ws [] h = elim h [ ]
first-Holds w ws (a ∷ argv) h = h.0
