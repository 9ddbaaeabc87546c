-- ===== src/Cli.antt =====
-- bootloader/stage2/cli.c and include/cli.h: the list of commands and the loop that reads a line, splits
-- it and runs a command.
pub mod Find
pub mod Rows
pub mod Rounds
pub mod Runs
mod Tests
use dalek.Base.{
  ℕ, zero, suc, ◌+◌, ◌*◌, ◌%◌, ◌^◌, Option, none, some, List, [], ◌∷◌, map, drop, get_or,
  if◌then◌else◌,
}
use dalek.Base.Int.{ℤ, pos}
use dalek.Base.Fault.{◌>>=◌}
use dalek.Strings.Text.{c_string}
use dalek.Strings.Compare.{strncmp}
use dalek.Strings.Split.{strsplit}
use dalek.Io.{IoDevice, is_zero}
use dalek.Stdio.{Line, gets}
use dalek.Stdio.Format.{str}
use dalek.Stdio.Print.{Outcome, printf}

-- The arrays of `cli_start`: the line and the strings.
pub record Buffers : Type 0 where
  pub line : List ℕ
  pub strings : List ℕ

-- `string_array`, as offsets into `string_array_buffer`, from the entry `i` on.
unfoldable pub pointers : ℕ → ℕ → List ℕ
pointers i zero = []
pointers i (suc n) = i * 128 ∷ pointers (i + 1) n

abbrev pub string_array : List ℕ
string_array = pointers 0 16

-- The strings of the array.
unfoldable pub argv_of : List ℕ → List ℕ → List (List ℕ)
argv_of array strings = map (λ p. drop p strings) array

module _ (State : Type 0) where
  -- The function of a command, on the number of its arguments and the arguments, each the bytes from the
  -- pointer on: it returns a byte and leaves a state. `none` is a fault.
  abbrev pub Command : Type 0
  Command = ℕ → List (List ℕ) → State × ℕ → Option (ℕ × (State × ℕ))

  -- `CliCommand`; the list stands for `next`. A description can be null.
  pub record CliCommand : Type 0 where
    pub name : List ℕ
    pub description : Option (List ℕ)
    pub func : Command

module _ {State : Type 0} where
  -- `cli_register`, which returns 0.
  unfoldable pub cli_register :
      List (CliCommand State) → CliCommand State → ℕ × List (CliCommand State)
  cli_register commands cli = (0, cli ∷ commands)

  -- The loop of `cli_help`, on `stdout` and what the stack holds.
  unfoldable pub help_loop :
      Option (IoDevice State) → List ℕ → List (CliCommand State) → State × ℕ → Option (State × ℕ)
  help_loop stdout stack [] s = some s
  help_loop stdout stack (cmd ∷ commands) s =
      printf stdout (c_string "%s\n\t%s\n") (str (some cmd.name) ∷ str cmd.description ∷ []) stack s
      >>= λ (r, s'). help_loop stdout stack commands s'

  unfoldable pub cli_help :
      Option (IoDevice State) → List ℕ → List (CliCommand State) → Command State
  cli_help stdout stack commands argn argv s =
      help_loop stdout stack commands s >>= λ s'. some (0, s')

  -- The search of a command by the first string.
  unfoldable pub find_command :
      List (CliCommand State) → List ℕ → Option (Option (CliCommand State))
  find_command [] name = some none
  find_command (cmd ∷ commands) name =
      let rest = find_command commands name in
      strncmp name cmd.name 128 >>= λ order. if is_zero order then some (some cmd) else rest

  -- The command runs, or the message is printed.
  unfoldable pub run_command :
      Option (IoDevice State)
      → List ℕ
      → Option (CliCommand State)
      → ℕ
      → List (List ℕ)
      → State × ℕ
      → Option (State × ℕ)
  run_command stdout stack none argn argv s = do
    (r, s') ←
        printf stdout (c_string "Wrong command \"%s\"\n") (str (some (get_or argv 0 [])) ∷ []) stack
          s
    some s'
  run_command stdout stack (some cmd) argn argv s = do (r, s') ← cmd.func argn argv s; some s'

  -- The body of the loop of `cli_start`, for a line of fewer than `fuel` keys. What `gets` returns is not
  -- looked at.
  unfoldable pub cli_round :
      ℕ
      → Option (IoDevice State)
      → Option (IoDevice State)
      → ℕ
      → List ℕ
      → List (CliCommand State)
      → Buffers
      → State × ℕ
      → Option (Buffers × (State × ℕ))
  cli_round fuel stdin stdout unset stack commands b s = do
    (r, s₁) ← printf stdout (c_string "?: ") [] stack s
    l ← gets fuel stdin stdout unset b.line s₁
    (n, strings) ← strsplit l.dest string_array (c_string " \t") b.strings
    cmd ← find_command commands (get_or (argv_of string_array strings) 0 [])
    s₂ ← run_command stdout stack cmd (n % 2 ^ 8) (argv_of string_array strings) l.state
    some (record { line = l.dest; strings = strings }, s₂)

  -- `cli_start` does not end: this is `n` rounds of it.
  unfoldable pub cli_start :
      ℕ
      → ℕ
      → Option (IoDevice State)
      → Option (IoDevice State)
      → ℕ
      → List ℕ
      → List (CliCommand State)
      → Buffers
      → State × ℕ
      → Option (Buffers × (State × ℕ))
  cli_start zero fuel stdin stdout unset stack commands b s = some (b, s)
  cli_start (suc n) fuel stdin stdout unset stack commands b s =
      cli_round fuel stdin stdout unset stack commands b s >>= λ (b', s').
      cli_start n fuel stdin stdout unset stack commands b' s'
