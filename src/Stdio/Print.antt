-- ===== src/Stdio/Print.antt =====
-- `vprintf`, `printf` and `log` of bootloader/stage2/stdio.c on a device.
use dalek.Base.{ℕ, zero, suc, Option, none, some, List, [], ◌∷◌, ◌==◌, if◌then◌else◌, length}
use dalek.Base.Int.{ℤ, pos, negsuc, ◌+ℤ◌}
use dalek.Base.Fault.{◌>>=◌}
use dalek.Strings.Text.{chars, c_string, held}
use dalek.Strings.Number.{is_negative}
use dalek.Io.{IoDevice, io_write}
use dalek.Stdio.Format.{Arg, str, round}

-- The levels of a message.
abbrev pub log_debug : ℕ
log_debug = 0

abbrev pub log_info : ℕ
log_info = 1

abbrev pub log_warn : ℕ
log_warn = 2

abbrev pub log_error : ℕ
log_error = 3

abbrev pub log_critical : ℕ
log_critical = 4

-- The colour that `log` writes first.
unfoldable pub log_colour : ℕ → List ℕ
log_colour level =
    if level == log_error
    then chars "\u{1b}[31;1m"
    else if level == log_warn
    then chars "\u{1b}[33m"
    else if level == log_info
    then chars "\u{1b}[36m"
    else chars "\u{1b}[37m"

module _ (State : Type 0) where
  -- What a call returned and the state it left.
  abbrev pub Outcome : Type 0
  Outcome = ℤ × (State × ℕ)

module _ {State : Type 0} where
  -- A write that fails ends the loop with -1.
  abbrev pub after_write :
      Outcome State → (State × ℕ → Option (Outcome State)) → Option (Outcome State)
  after_write (r, s) next = if is_negative r then some (negsuc 0, s) else next s

  -- The loop of `vprintf`, on at most `fuel` rounds. `i` stays 0.
  unfoldable pub vprintf_loop :
      ℕ → Option (IoDevice State) → List ℕ → List Arg → List ℕ → State × ℕ → Option (Outcome State)
  vprintf_loop zero stdout s args buffer st = none
  vprintf_loop (suc fuel) stdout [] args buffer st = none
  vprintf_loop (suc fuel) stdout (c ∷ s) args buffer st =
      if c == 0
      then some (pos 0, st)
      else (round c s args buffer >>= λ (p, s').
          after_write (io_write stdout (p.bytes, p.count) st)
            (vprintf_loop fuel stdout s' p.args p.buffer))

  -- `vprintf`, and `printf`, which passes its arguments on. `buffer` is the local array of 64 bytes, with
  -- what the stack held. Every round shortens the format.
  unfoldable pub vprintf :
      Option (IoDevice State) → List ℕ → List Arg → List ℕ → State × ℕ → Option (Outcome State)
  vprintf none s args buffer st = some (pos 0, st)
  vprintf (some stdout) s args buffer st =
      vprintf_loop (suc (length s)) (some stdout) s args buffer st

  unfoldable pub printf :
      Option (IoDevice State) → List ℕ → List Arg → List ℕ → State × ℕ → Option (Outcome State)
  printf stdout s args buffer st = vprintf stdout s args buffer st

  -- `log`. Every call finds the same bytes on the stack.
  unfoldable pub log :
      Option (IoDevice State)
      → List ℕ
      → ℕ
      → List ℕ
      → List ℕ
      → List Arg
      → State × ℕ
      → Option (Outcome State)
  log stdout buffer level func msg args s = do
    (r₁, s₁) ← printf stdout (held (log_colour level) []) [] buffer s
    (i, s₂) ← printf stdout (c_string "[%s] ") (str (some func) ∷ []) buffer s₁
    (j, s₃) ← vprintf stdout msg args buffer s₂
    (r₂, s₄) ← printf stdout (c_string "\n") [] buffer s₃
    (r₃, s₅) ← printf stdout (c_string "\u{1b}[m") [] buffer s₄
    some (i +ℤ j, s₅)
