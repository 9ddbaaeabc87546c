-- ===== src/Cli/Tests.antt =====
-- The command line at concrete keys, and the theorems at them.
use dalek.Base.{ℕ, ◌≡◌, refl, some, none, List, [], ◌∷◌, ◌++◌, replicate, arith}
use dalek.Strings.Text.{chars, c_string}
use dalek.Stdio.Console.{Console, console, keys, screen}
use dalek.Stdio.Edits.{edited, echoes, pressed}
use dalek.Cli.{CliCommand, Buffers, cli_round}
use dalek.Cli.Find.{here, there, empty, other}
use dalek.Cli.Rounds.{Typed}
use dalek.Cli.Runs.{Runs, cli_round-Runs, cli_round-wrong}

-- A command that returns the number of its arguments, and another one before it.
abbrev count : CliCommand Console
count = record { name = c_string "count"; description = none; func = λ n argv s. some (n, s) }

abbrev fault : CliCommand Console
fault = record { name = c_string "fault"; description = none; func = λ n argv s. none }

abbrev commands : List (CliCommand Console)
commands = fault ∷ count ∷ []

abbrev buffers : Buffers
buffers = record { line = replicate 128 170; strings = replicate 2048 170 }

abbrev typing : List ℕ
typing = chars "count ab"

typing-Typed : Typed typing (chars "count" ∷ chars "ab" ∷ [])
unfolding edited pressed
typing-Typed = record {
  keys = ground arith;
  short = omega arith;
  spelled = refl;
  words = ground arith;
  plain = ground arith;
  few = omega arith;
}

cli_round-Runs_example :
    Runs console
      (cli_round 20
        (some keys)
        (some screen)
        0
        (replicate 64 170)
        commands
        buffers
        ((typing ++ (b'\n' ∷ []), []), 0))
      count
      (chars "count" ∷ chars "ab" ∷ [])
      (typing ++ (b'\n' ∷ []), [])
      0
      (chars "?: " ++ (echoes [] typing ++ (b'\n' ∷ [])))
      []
cli_round-Runs_example =
    cli_round-Runs console typing (chars "count") [] (chars "ab" ∷ []) count 20 0 (replicate 64 170)
      commands buffers (typing ++ (b'\n' ∷ []), []) 0 typing-Typed
      (there (chars "fault") [] (ground arith) refl (λ e. ground arith) (here [] refl)) refl
      (omega arith) (omega arith) (omega arith) (omega arith)

cli_round-wrong_instance :
    (b' : Buffers) × (s' : Console) × (cli_round 20
        (some keys)
        (some screen)
        0
        (replicate 64 170)
        (fault ∷ [])
        buffers
        ((typing ++ (b'\n' ∷ []), []), 0)
      ≡ some (b', (s', 0)))
    × (s'.1 ≡ (
        (chars "?: " ++ (echoes [] typing ++ (b'\n' ∷ [])))
        ++ (chars "Wrong command \"" ++ (chars "count" ++ chars "\"\n"))))
    × (s'.0 ≡ [])
cli_round-wrong_instance =
    cli_round-wrong console typing (chars "count") [] (chars "ab" ∷ []) 20 0 (replicate 64 170)
      (fault ∷ []) buffers (typing ++ (b'\n' ∷ []), []) 0 typing-Typed
      (other (chars "fault") [] (ground arith) refl (λ e. ground arith) empty) refl (omega arith)
      (omega arith) (omega arith) (omega arith)
