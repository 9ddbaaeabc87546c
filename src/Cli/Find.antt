-- ===== src/Cli/Find.antt =====
-- The search of a command in bootloader/stage2/cli.c.
use dalek.Base.{
  ℕ, ◌≤◌, ◌≡◌, ◌≢◌, refl, sym, ap, ◌∙◌, true, Bool-cases, inl, inr, none, some, List, [], ◌∷◌,
  if◌then◌else◌, length, take-all,
}
use dalek.Base.Int.{ℤ}
use dalek.Strings.Text.{IsText, held}
use dalek.Strings.Compare.{strncmp, strncmp_equal}
use dalek.Io.{is_zero}
use dalek.Io.Register.{is_zero-true}
use dalek.Cli.{CliCommand, find_command}

module _ {State : Type 0} where
  -- Where the first command with the name `w` stands in the list: at the head, or behind a command with
  -- another name.
  pub data First (w : List ℕ) (cmd : CliCommand State) : List (CliCommand State) → Type 0 where
    here :
        {commands : List (CliCommand State)} (rest : List ℕ)
        → cmd.name ≡ held w rest
        → First w cmd (cmd ∷ commands)
    there :
        {other : CliCommand State} {commands : List (CliCommand State)} (u rest : List ℕ)
        → IsText u
        → other.name ≡ held u rest
        → u ≢ w
        → First w cmd commands
        → First w cmd (other ∷ commands)

  -- No command has the name.
  pub data Unknown (w : List ℕ) : List (CliCommand State) → Type 0 where
    empty : Unknown w []
    other :
        {cmd : CliCommand State} {commands : List (CliCommand State)} (u rest : List ℕ)
        → IsText u
        → cmd.name ≡ held u rest
        → u ≢ w
        → Unknown w commands
        → Unknown w (cmd ∷ commands)

  find_command-cons :
      (cmd : CliCommand State) (commands : List (CliCommand State)) (name : List ℕ) (r : ℤ)
      → strncmp name cmd.name 128 ≡ some r
      → find_command (cmd ∷ commands) name
        ≡ (if is_zero r then some (some cmd) else find_command commands name)
  unfolding find_command
  find_command-cons cmd commands name r e = rw e refl

  find_command-same :
      (cmd : CliCommand State) (commands : List (CliCommand State)) (w rest rest' : List ℕ)
      → IsText w
      → length w ≤ 128
      → cmd.name ≡ held w rest
      → find_command (cmd ∷ commands) (held w rest') ≡ some (some cmd)
  find_command-same cmd commands w rest rest' h l name =
      let (r, e, iff) = strncmp_equal w w rest' rest 128 h h in
      let zero_order : is_zero r ≡ true = ap is_zero (iff.1 (sym (take-all 128 w l))) in
      find_command-cons cmd commands (held w rest') r
        (ap (λ k. strncmp (held w rest') k 128) name ∙ e)
      ∙ rw zero_order refl

  find_command-other :
      (cmd : CliCommand State) (commands : List (CliCommand State)) (w u rest rest' : List ℕ)
      → IsText w
      → IsText u
      → length w ≤ 128
      → cmd.name ≡ held u rest
      → u ≢ w
      → find_command (cmd ∷ commands) (held w rest') ≡ find_command commands (held w rest')
  find_command-other cmd commands w u rest rest' h g l name apart =
      let (r, e, iff) = strncmp_equal w u rest' rest 128 h g in
      let found =
        find_command-cons cmd commands (held w rest') r
          (ap (λ k. strncmp (held w rest') k 128) name ∙ e) in
      elim (Bool-cases (is_zero r)) [
        | inl zero_order ↦ absurd (apart (iff.0 (is_zero-true r zero_order) ∙ take-all 128 w l))
        | inr nonzero ↦ found ∙ rw nonzero refl
      ]

  -- A word of at most 128 characters finds the first command with its name.
  pub find_command-First :
      (w rest : List ℕ) (cmd : CliCommand State) (commands : List (CliCommand State))
      → IsText w
      → length w ≤ 128
      → First w cmd commands
      → find_command commands (held w rest) ≡ some (some cmd)
  find_command-First w rest cmd commands h l (here r name) =
      find_command-same cmd _ w r rest h l name
  find_command-First w rest cmd commands h l (there u r g name apart first) =
      find_command-other _ _ w u r rest h g l name apart ∙ find_command-First w rest cmd _ h l first

  -- And it finds none if no command has it.
  pub find_command-Unknown :
      (w rest : List ℕ) (commands : List (CliCommand State))
      → IsText w
      → length w ≤ 128
      → Unknown w commands
      → find_command commands (held w rest) ≡ some none
  find_command-Unknown w rest commands h l empty = unfold find_command in refl
  find_command-Unknown w rest commands h l (other u r g name apart unknown) =
      find_command-other _ _ w u r rest h g l name apart ∙ find_command-Unknown w rest _ h l unknown
