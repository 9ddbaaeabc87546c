-- ===== src/Strings/Split.antt =====
-- `strsplit` of bootloader/stage2/strings.c. The strings of the array stand in one object, each entry is
-- the offset of its string in it.
pub mod Words
pub mod Rows
pub mod Loop
pub mod Lines
mod Tests
use dalek.Base.{
  ℕ, zero, suc, ◌+◌, ◌-◌, ◌^◌, Bool, true, false, Option, none, some, List, [], ◌∷◌, ◌==◌,
  if◌then◌else◌, take, length, get_elem?,
}
use dalek.Base.Int.{ℤ, pos, negsuc}
use dalek.Base.Fault.{◌>>=◌}
use dalek.Strings.Buffer.{store}
use dalek.Strings.Search.{strcontains}

-- The test `== -1` of an `int`.
abbrev pub is_minus_one : ℤ → Bool
is_minus_one (pos n) = false
is_minus_one (negsuc n) = n == 0

-- The search for the next separator, from the index `j`: the string from the separator on, or from its
-- end, and the index. An index past 65535 wraps around to the start of the string: the code then
-- copies a negative number of bytes or splits the string over and over, and gives no result.
unfoldable pub next_separator : List ℕ → List ℕ → ℕ → Option (List ℕ × ℕ)
next_separator separator [] j = none
next_separator separator (c ∷ s) j =
    let rest = if j + 1 == 2 ^ 16 then none else next_separator separator s (j + 1) in
    let stop = some (c ∷ s, j) in
    if c == 0
    then stop
    else (strcontains separator c >>= λ r. if is_minus_one r then rest else stop)

-- `memcpy` of the bytes to the offset `p`, which copies them one by one.
unfoldable pub put_bytes : List ℕ → ℕ → List ℕ → Option (List ℕ)
put_bytes mem p [] = some mem
put_bytes mem p (c ∷ s) = store mem p c >>= λ mem'. put_bytes mem' (p + 1) s

-- The first `n` bytes of a string copied, and a terminator behind them.
unfoldable pub put_string : List ℕ → ℕ → List ℕ → ℕ → Option (List ℕ)
put_string mem p s n = do mem' ← put_bytes mem p (take n s); store mem' (p + n) 0

-- What the round leaves of the string, and the index: a separator is skipped, the end is not.
unfoldable pub skip_separator : List ℕ → ℕ → Option (List ℕ × ℕ)
skip_separator [] j = none
skip_separator (c ∷ s) j =
    if c == 0 then some (c ∷ s, j) else if j + 1 == 2 ^ 16 then none else some (s, j + 1)

-- One round of the loop on the string from the index `i`: what is left of it, the index and the object.
unfoldable pub split_round :
    List ℕ → List ℕ → ℕ → ℕ → List ℕ → List ℕ → Option (List ℕ × ℕ × List ℕ)
split_round separator s i z array mem = do
  (q, j) ← next_separator separator s i
  p ← get_elem? array z
  mem' ← put_string mem p s (j - i)
  (q', i') ← skip_separator q j
  some (q', i', mem')

-- The last string begins with the terminator.
unfoldable pub split_end : ℕ → List ℕ → List ℕ → Option (ℕ × List ℕ)
split_end z array mem = do p ← get_elem? array z; mem' ← store mem p 0; some (z, mem')

-- The loop, on at most `fuel` rounds: the number of strings and the object.
unfoldable pub split_loop : ℕ → List ℕ → List ℕ → ℕ → ℕ → List ℕ → List ℕ → Option (ℕ × List ℕ)
split_loop zero separator s i z array mem = none
split_loop (suc fuel) separator [] i z array mem = none
split_loop (suc fuel) separator (c ∷ s) i z array mem =
    if c == 0
    then split_end z array mem
    else (split_round separator (c ∷ s) i z array mem >>= λ (q, i', mem').
        split_loop fuel separator q i' (z + 1) array mem')

-- `strsplit`. Every round but the last shortens the string.
unfoldable pub strsplit : List ℕ → List ℕ → List ℕ → List ℕ → Option (ℕ × List ℕ)
strsplit s array separator mem = split_loop (suc (length s)) separator s 0 0 array mem
