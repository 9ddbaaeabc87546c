-- ===== src/Cli/Runs.antt =====
-- What the loop of `cli_start` in bootloader/stage2/cli.c does with a line: it runs the command, or says
-- that there is none.
use dalek.Base.{
  ℕ, suc, ◌≤◌, ◌<◌, ◌≡◌, refl, ap, ◌∙◌, Option, some, List, [], ◌∷◌, ◌++◌, length, append_assoc,
  Option-cases, inl, inr, length-append, arith,
}
use dalek.Base.Fault.{◌>>=◌}
use dalek.Strings.Text.{IsText, chars}
use dalek.Strings.Split.Lines.{line}
use dalek.Stdio.Print.{printf}
use dalek.Stdio.Terminal.{Terminal}
use dalek.Stdio.Directives.{string, spelled, argument, meant}
use dalek.Stdio.Formats.{text, more, format_text, arguments, meaning}
use dalek.Stdio.Shows.{vprintf-meaning}
use dalek.Stdio.Edits.{echoes, length-edited}
use dalek.Cli.{CliCommand, Buffers, run_command, cli_round}
use dalek.Cli.Find.{First, Unknown, find_command-First, find_command-Unknown}
use dalek.Cli.Rows.{Holds}
use dalek.Cli.Rounds.{Typed, cli_round-Searches}

-- The first word of a line.
first-IsText : (w : List ℕ) (ws : List (List ℕ)) → IsText (line b' ' (w ∷ ws)) → IsText w
first-IsText w [] h = h
first-IsText [] (v ∷ ws) h = tt
first-IsText (c ∷ w) (v ∷ ws) h = (h.0, h.1, first-IsText w (v ∷ ws) h.2)

length-first : (w : List ℕ) (ws : List (List ℕ)) → length w ≤ length (line b' ' (w ∷ ws))
length-first w [] = omega arith
length-first w (v ∷ ws) = omega (arith, length-append w (b' ' ∷ line b' ' (v ∷ ws)))

first-short : (ks w : List ℕ) (ws : List (List ℕ)) → Typed ks (w ∷ ws) → length w ≤ 128
first-short ks w ws h =
    omega (arith, h.short, length-edited [] ks, ap length h.spelled, length-first w ws)

module _ {State : Type 0} (terminal : Terminal State) where
  open terminal use {stdin, stdout, typed, shown}

  -- What the round leaves behind the function of a command.
  abbrev pub ran : Buffers → ℕ × (State × ℕ) → Option (Buffers × (State × ℕ))
  ran b (r, s) = some (b, s)

  -- The round calls the function of the command once, on the number of the words and an array that
  -- holds them, in a state where `out` was shown and `rest` waits; it leaves what the function leaves.
  pub record Runs (o : Option (Buffers × (State × ℕ))) (cmd : CliCommand State) (ws : List (List ℕ))
      (s : State) (errno : ℕ) (out rest : List ℕ) : Type 0 where
    pub state : State
    pub buffers : Buffers
    pub argv : List (List ℕ)
    pub holds : Holds ws argv
    pub returned : o ≡ (cmd.func (length ws) argv (state, errno) >>= ran buffers)
    pub more_shown : shown state ≡ shown s ++ out
    pub same_typed : typed state ≡ rest

  run_command-some :
      (stack : List ℕ) (cmd : CliCommand State) (n : ℕ) (argv : List (List ℕ)) (s : State × ℕ)
      (b : Buffers)
      → (run_command (some stdout) stack (some cmd) n argv s >>= λ s₂. some (b, s₂))
        ≡ (cmd.func n argv s >>= ran b)
  unfolding run_command
  run_command-some stack cmd n argv s b = elim (Option-cases (cmd.func n argv s)) [
    | inl fault ↦ rw fault refl
    | inr (x, e) ↦ rw e refl
  ]

  -- Fewer than 128 keys are typed, which make a line of up to 15 words with one blank between them, and
  -- its end: the round prompts, shows the keys, and runs the first command in the list that has the
  -- first word for its name, on all the words.
  pub cli_round-Runs :
      (ks w rest : List ℕ) (ws : List (List ℕ)) (cmd : CliCommand State) (fuel unset : ℕ)
      (stack : List ℕ) (commands : List (CliCommand State)) (b : Buffers) (s : State) (errno : ℕ)
      → Typed ks (w ∷ ws)
      → First w cmd commands
      → typed s ≡ ks ++ (b'\n' ∷ rest)
      → length ks < fuel
      → length stack ≡ 64
      → length b.line ≡ 128
      → length b.strings ≡ 2048
      → Runs
          (cli_round fuel (some stdin) (some stdout) unset stack commands b (s, errno))
          cmd
          (w ∷ ws)
          s
          errno
          (chars "?: " ++ (echoes [] ks ++ (b'\n' ∷ [])))
          rest
  cli_round-Runs ks w rest ws cmd fuel unset stack commands b s errno h first e enough stacked wide
        size =
      let r =
        cli_round-Searches terminal ks w rest ws fuel unset stack commands b s errno h e enough
          stacked wide size in
      let found =
        find_command-First w r.behind cmd commands (first-IsText w ws h.plain)
          (first-short ks w ws h) first in
      record {
        state = r.state;
        buffers = r.buffers;
        argv = r.argv;
        holds = r.holds;
        returned =
            r.returned
            ∙ rw found
                (run_command-some stack cmd (suc (length ws)) r.argv (r.state, errno) r.buffers);
        more_shown = r.more_shown;
        same_typed = r.same_typed;
      }

  -- The keys of such a line are typed, and no command has the first word for its name: the round shows
  -- the prompt, the keys and a message with the word, and runs nothing.
  pub cli_round-wrong :
      (ks w rest : List ℕ) (ws : List (List ℕ)) (fuel unset : ℕ) (stack : List ℕ)
      (commands : List (CliCommand State)) (b : Buffers) (s : State) (errno : ℕ)
      → Typed ks (w ∷ ws)
      → Unknown w commands
      → typed s ≡ ks ++ (b'\n' ∷ rest)
      → length ks < fuel
      → length stack ≡ 64
      → length b.line ≡ 128
      → length b.strings ≡ 2048
      → (b' : Buffers) × (s' : State) × (cli_round fuel
            (some stdin)
            (some stdout)
            unset
            stack
            commands
            b
            (s, errno)
          ≡ some (b', (s', errno)))
        × (shown s'
            ≡ shown s
              ++ ((chars "?: " ++ (echoes [] ks ++ (b'\n' ∷ [])))
                  ++ (chars "Wrong command \"" ++ (w ++ chars "\"\n"))))
        × (typed s' ≡ rest)
  unfolding run_command printf format_text arguments meaning spelled meant argument
  cli_round-wrong ks w rest ws fuel unset stack commands b s errno h unknown e enough stacked wide
        size =
      let r =
        cli_round-Searches terminal ks w rest ws fuel unset stack commands b s errno h e enough
          stacked wide size in
      let missing =
        find_command-Unknown w r.behind commands (first-IsText w ws h.plain) (first-short ks w ws h)
          unknown in
      let (s', printed, more_shown, same_typed) =
        vprintf-meaning terminal
          (more (chars "Wrong command \"") (string w r.behind) (text (chars "\"\n"))) [] [] stack
          r.state errno (ground arith, first-IsText w ws h.plain, ground arith) stacked in
      (
        r.buffers,
        s',
        r.returned ∙ rw (missing, r.first, printed) refl,
        more_shown
            ∙ ap (λ l. l ++ (chars "Wrong command \"" ++ (w ++ chars "\"\n"))) r.more_shown
            ∙ append_assoc (shown s) (chars "?: " ++ (echoes [] ks ++ (b'\n' ∷ [])))
                (chars "Wrong command \"" ++ (w ++ chars "\"\n")),
        same_typed ∙ r.same_typed,
      )
