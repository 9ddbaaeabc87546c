-- ===== src/Stdio/Terminal.antt =====
-- What the users of bootloader/stage2/stdio.c rely on: a device that gives the typed characters one at
-- a time, and one that shows every byte it is given.
use dalek.Base.{ℕ, ◌≤◌, ◌≡◌, some, List, [], ◌∷◌, ◌++◌, take, length, drop}
use dalek.Base.Int.{pos}
use dalek.Io.{IoDevice, io_read, io_write}

-- `typed` is what waits to be read, `shown` what was written; reading and writing change nothing else
-- of the two.
pub record Terminal (State : Type 0) : Type 0 where
  pub stdin : IoDevice State
  pub stdout : IoDevice State
  pub typed : State → List ℕ
  pub shown : State → List ℕ
  pub take_key : State → State
  pub display : List ℕ → State → State
  pub reads :
      (s : State) (c : ℕ) (t : List ℕ) (unset errno : ℕ)
      → typed s ≡ c ∷ t
      → io_read (some stdin) (unset ∷ [], 1) (s, errno) ≡ (pos 1, (c ∷ [], (take_key s, errno)))
  pub typed-take_key : (s : State) → typed (take_key s) ≡ drop 1 (typed s)
  pub shown-take_key : (s : State) → shown (take_key s) ≡ shown s
  pub writes :
      (s : State) (bytes : List ℕ) (n errno : ℕ)
      → n ≤ length bytes
      → io_write (some stdout) (bytes, n) (s, errno) ≡ (pos n, (display (take n bytes) s, errno))
  pub typed-display : (s : State) (bytes : List ℕ) → typed (display bytes s) ≡ typed s
  pub shown-display : (s : State) (bytes : List ℕ) → shown (display bytes s) ≡ shown s ++ bytes
