-- ===== src/Stdio.antt =====
-- bootloader/stage2/stdio.c and include/stdio.h: characters and lines from `stdin`, formatted output to
-- `stdout`. Both are devices, or null; what they do is an argument of the model.
pub mod Format
pub mod Print
pub mod Terminal
pub mod Directives
pub mod Conversions
pub mod Formats
pub mod Shows
pub mod Logs
pub mod Leaves
pub mod Widths
pub mod Console
pub mod Edits
pub mod Lines
mod Tests
use dalek.Base.{
  ℕ, zero, suc, ◌+◌, ◌-◌, ◌%◌, ◌^◌, Bool, true, false, ◌&&◌, Option, none, some, List, [], ◌∷◌, ltb,
  leb, ◌==◌, if◌then◌else◌, get_or,
}
use dalek.Base.Int.{ℤ, pos, negsuc}
use dalek.Base.Fault.{◌>>=◌}
use dalek.Errno.{ebadf}
use dalek.Strings.Buffer.{store}
use dalek.Io.{IoDevice, io_read, io_write}

module _ (State : Type 0) where
  -- What a call of `gets` returns, null or its buffer, with the buffer and the state that it leaves.
  pub record Line : Type 0 where
    pub is_null : Bool
    pub dest : List ℕ
    pub state : State × ℕ

module _ {State : Type 0} where
  -- The character that was read into `c`, which a read that fails leaves as it was.
  abbrev pub got : ℤ × (List ℕ × (State × ℕ)) → ℕ × (State × ℕ)
  got (n, (c, s)) = (get_or c 0 0, s)

  -- `getc`: a character as a byte, 255 for -1, and the state. `unset` is what its local variable holds
  -- before the read.
  unfoldable pub getc : Option (IoDevice State) → ℕ → State × ℕ → ℕ × (State × ℕ)
  getc none unset (s, errno) = (255, (s, ebadf))
  getc (some stdin) unset s = got (io_read (some stdin) (unset ∷ [], 1) s)

  -- The state after a write, whose result is not looked at.
  abbrev pub echoed : ℤ × (State × ℕ) → State × ℕ
  echoed (n, s) = s

  -- The `switch` of `gets` on a character: the buffer, the index and the state. The index is a
  -- `uint16_t`.
  unfoldable pub gets_switch :
      Option (IoDevice State) → ℕ → List ℕ → ℕ → State × ℕ → Option (List ℕ × ℕ × (State × ℕ))
  gets_switch stdout c dest i s =
      let echo = echoed (io_write stdout (c ∷ [], 1) s) in
      if c == 8
      then (if i == 0
          then some (dest, i, s)
          else (store dest (i - 1) 0 >>= λ d. some (d, i - 1, echo)))
      else if c == b'\n'
      then (store dest i 0 >>= λ d. some (d, i, echo))
      else (store dest i c >>= λ d. some (d, (i + 1) % 2 ^ 16, echo))

  -- The test of the loop: the line is done at its end.
  abbrev pub after_char :
      ℕ
      → List ℕ × ℕ × (State × ℕ)
      → (List ℕ → ℕ → State × ℕ → Option (Line State))
      → Option (Line State)
  after_char c (dest, i, s) again =
      if c == b'\n'
      then some (record { is_null = false; dest = dest; state = s })
      else again dest i s

  -- The body of the loop, on the character that `getc` returned. One below zero ends it with null.
  unfoldable pub gets_body :
      Option (IoDevice State)
      → List ℕ
      → ℕ
      → ℕ × (State × ℕ)
      → (List ℕ → ℕ → State × ℕ → Option (Line State))
      → Option (Line State)
  gets_body stdout dest i (c, s) again =
      if leb 128 c
      then some (record { is_null = true; dest = dest; state = s })
      else (gets_switch stdout c dest i s >>= λ after. after_char c after again)

  -- The loop of `gets` on at most `fuel` characters.
  unfoldable pub gets_loop :
      ℕ
      → Option (IoDevice State)
      → Option (IoDevice State)
      → ℕ
      → List ℕ
      → ℕ
      → State × ℕ
      → Option (Line State)
  gets_loop zero stdin stdout unset dest i s = none
  gets_loop (suc fuel) stdin stdout unset dest i s =
      gets_body stdout dest i (getc stdin unset s) (gets_loop fuel stdin stdout unset)

  -- `gets`, if the line comes within `fuel` characters.
  unfoldable pub gets :
      ℕ
      → Option (IoDevice State)
      → Option (IoDevice State)
      → ℕ
      → List ℕ
      → State × ℕ
      → Option (Line State)
  gets fuel stdin stdout unset dest s = gets_loop fuel stdin stdout unset dest 0 s
