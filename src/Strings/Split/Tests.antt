-- ===== src/Strings/Split/Tests.antt =====
-- `strsplit` at concrete strings, and the theorems at them.
use dalek.Base.{ℕ, ◌≡◌, refl, some, List, [], ◌∷◌, replicate, arith}
use dalek.Strings.Text.{chars, c_string}
use dalek.Strings.Split.{strsplit}
use dalek.Strings.Split.Words.{words}
use dalek.Strings.Split.Rows.{flat, filled}
use dalek.Strings.Split.Loop.{strsplit-words}
use dalek.Strings.Split.Lines.{strsplit-line}

-- Four rows of five bytes.
abbrev rows : List (List ℕ)
rows = replicate 4 (replicate 5 170)

strsplit-words_example :
    strsplit (c_string "a  b\t") (0 ∷ 5 ∷ 10 ∷ 15 ∷ []) (c_string " \t") (replicate 20 170)
    ≡ some (3, flat (filled (chars "a" ∷ [] ∷ chars "b" ∷ []) rows))
unfolding words
strsplit-words_example =
    strsplit-words (chars " \t") [] (chars "a  b\t") [] rows (omega arith) (omega arith)
      (omega arith) (omega arith) (ground arith)

strsplit-line_example :
    strsplit (c_string "read fd0") (0 ∷ 5 ∷ 10 ∷ 15 ∷ []) (c_string " \t") (replicate 20 170)
    ≡ some (2, flat (filled (chars "read" ∷ chars "fd0" ∷ []) rows))
strsplit-line_example =
    strsplit-line (chars " \t") [] [] b' ' (chars "read" ∷ chars "fd0" ∷ []) rows (omega arith)
      (omega arith) refl (ground arith) (omega arith) (omega arith) (ground arith)
