-- ===== src/Commands/Echoes.antt =====
-- What `echo` of bootloader/stage2/commands/echo.c shows, on its own and from the keys on.
use mathlib.Core.Path.{subst}
use dalek.Base.{
  ℕ, suc, ◌+◌, ◌-◌, ◌<◌, ◌≡◌, refl, ap, ◌∙◌, some, Option, List, [], ◌∷◌, ◌++◌, length,
  get_elem?-append, length-append, append_assoc, arith,
}
use dalek.Base.Fault.{◌>>=◌}
use dalek.Strings.Text.{IsText, held, chars}
use dalek.Stdio.Terminal.{Terminal}
use dalek.Stdio.Directives.{string, spelled, argument, meant}
use dalek.Stdio.Formats.{text, more, format_text, arguments, meaning}
use dalek.Stdio.Logs.{printf-plain}
use dalek.Stdio.Leaves.{Leaves, Leaves-bind, Leaves-nothing, printf-then}
use dalek.Stdio.Edits.{echoes}
use dalek.Cli.{CliCommand, Buffers, cli_round}
use dalek.Cli.Rows.{Holds}
use dalek.Cli.Find.{First}
use dalek.Cli.Rounds.{Typed}
use dalek.Cli.Runs.{ran, cli_round-Runs}
use dalek.Commands.Texts.{echo_loop, echo}

-- The words, each with a space behind it.
abbrev pub spaced : List (List ℕ) → List ℕ
spaced [] = []
spaced (w ∷ ws) = (w ++ (b' ' ∷ [])) ++ spaced ws

abbrev pub AreTexts : List (List ℕ) → Type 0
AreTexts [] = Unit {0}
AreTexts (w ∷ ws) = IsText w × AreTexts ws

module _ {State : Type 0} (terminal : Terminal State) where
  open terminal use {stdin, stdout, typed, shown}

  echo_loop-Leaves :
      (ws front argv : List (List ℕ)) (stack : List ℕ) (s : State) (errno i : ℕ)
      → i ≡ length front
      → Holds ws argv
      → AreTexts ws
      → length stack ≡ 64
      → Leaves terminal
          (echo_loop (some stdout) stack (length ws) i (front ++ argv) (s, errno))
          (λ s'. (s', errno))
          s
          (spaced ws)
  unfolding echo_loop format_text arguments meaning spelled argument meant
  echo_loop-Leaves [] front argv stack s errno i e holds h stacked =
      Leaves-nothing terminal (λ s'. (s', errno)) s
  echo_loop-Leaves (w ∷ ws) front [] stack s errno i e holds h stacked = elim holds [ ]
  echo_loop-Leaves (w ∷ ws) front (a ∷ argv) stack s errno i e ((rest, same), holds) h stacked =
      rw (e, get_elem?-append front a argv, same)
        (printf-then terminal (more [] (string w rest) (text (b' ' ∷ []))) stack errno
          (echo_loop (some stdout) stack (length ws) (length front + 1)
            (front ++ (held w rest ∷ argv)))
          (λ s'. (s', errno)) s (spaced ws) (ground (arith, h.0)) stacked
          λ s'.
            subst
              (λ l.
                Leaves terminal
                  (echo_loop (some stdout) stack (length ws) (length front + 1) l (s', errno))
                  (λ t. (t, errno)) s' (spaced ws))
              (append_assoc front (held w rest ∷ []) argv)
              (echo_loop-Leaves ws (front ++ (held w rest ∷ [])) argv stack s' errno
                (length front + 1) (omega (arith, length-append front (held w rest ∷ []))) holds h.1
                stacked))

  -- `echo` on the words of a line: it returns 0, and shows every word behind the first with a space
  -- behind it, and a new line.
  pub echo-Leaves :
      (w : List ℕ) (ws argv : List (List ℕ)) (stack : List ℕ) (s : State) (errno : ℕ)
      → Holds (w ∷ ws) argv
      → AreTexts ws
      → length stack ≡ 64
      → Leaves terminal
          (echo (some stdout) stack (suc (length ws)) argv (s, errno))
          (λ s'. (0, (s', errno)))
          s
          (spaced ws ++ (b'\n' ∷ []))
  unfolding echo format_text arguments meaning
  echo-Leaves w ws [] stack s errno holds h stacked = elim holds [ ]
  echo-Leaves w ws (a ∷ argv) stack s errno holds h stacked =
      let count : suc (length ws) - 1 ≡ length ws = omega arith in
      rw count (
        Leaves-bind terminal _ _ (λ s'. (s', errno)) (λ s'. (0, (s', errno))) s (spaced ws)
          (b'\n' ∷ []) (echo_loop-Leaves ws (a ∷ []) argv stack s errno 1 refl holds.1 h stacked)
          λ s₁.
            let (s₂, printed, more_shown, same_typed) =
              printf-plain terminal (b'\n' ∷ []) stack s₁ errno (ground arith) stacked in
            (s₂, rw printed refl, more_shown, same_typed))

  -- Fewer than 128 keys are typed, which make a line of up to 15 words with one blank between them, the
  -- first of them the name of a command of the list that is `echo`: the round shows the prompt, the
  -- keys, and every word behind the first with a space behind it.
  pub cli_round-echo :
      (ks w rest : List ℕ) (ws : List (List ℕ)) (cmd : CliCommand State) (fuel unset : ℕ)
      (stack stack' : List ℕ) (commands : List (CliCommand State)) (b : Buffers) (s : State)
      (errno : ℕ)
      → Typed ks (w ∷ ws)
      → First w cmd commands
      → cmd.func ≡ echo (some stdout) stack'
      → AreTexts ws
      → typed s ≡ ks ++ (b'\n' ∷ rest)
      → length ks < fuel
      → length stack ≡ 64
      → length stack' ≡ 64
      → length b.line ≡ 128
      → length b.strings ≡ 2048
      → (b' : Buffers) × (s' : State) × (cli_round fuel
            (some stdin)
            (some stdout)
            unset
            stack
            commands
            b
            (s, errno)
          ≡ some (b', (s', errno)))
        × (shown s'
            ≡ shown s
              ++ ((chars "?: " ++ (echoes [] ks ++ (b'\n' ∷ []))) ++ (spaced ws ++ (b'\n' ∷ []))))
        × (typed s' ≡ rest)
  cli_round-echo ks w rest ws cmd fuel unset stack stack' commands b s errno h first is_echo texts e
        enough stacked stacked' wide size =
      let r =
        cli_round-Runs terminal ks w rest ws cmd fuel unset stack commands b s errno h first e
          enough stacked wide size in
      let (s', echoed, more_shown, same_typed) =
        echo-Leaves w ws r.argv stack' r.state errno r.holds texts stacked' in
      (
        r.buffers,
        s',
        r.returned
            ∙ ap
                (λ (f : ℕ → List (List ℕ) → State × ℕ → Option (ℕ × (State × ℕ))).
                  f (suc (length ws)) r.argv (r.state, errno) >>= ran terminal r.buffers)
                is_echo
            ∙ rw echoed refl,
        more_shown
            ∙ ap (λ l. l ++ (spaced ws ++ (b'\n' ∷ []))) r.more_shown
            ∙ append_assoc (shown s) (chars "?: " ++ (echoes [] ks ++ (b'\n' ∷ [])))
                (spaced ws ++ (b'\n' ∷ [])),
        same_typed ∙ r.same_typed,
      )
