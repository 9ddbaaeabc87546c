-- ===== src/Commands/Calls.antt =====
-- The calls of the callback of bootloader/stage2/commands/test_timer.c.
use mathlib.Core.Path.{subst}
use dalek.Base.{
  ◌<◌, refl, true, false, append-nil, ℕ, zero, suc, ◌+◌, ◌%◌, ◌^◌, ◌≡◌, Option, some, List, [],
  ◌++◌, ltb, if◌then◌else◌, length, arith,
}
use dalek.Base.Fault.{◌>>=◌}
use dalek.Strings.Text.{chars}
use dalek.Strings.Number.Spelled.{numeral}
use dalek.Io.{IoDevice}
use dalek.Timer.{Timer, timer_unregister_task}
use dalek.Stdio.Terminal.{Terminal}
use dalek.Stdio.Directives.{integer, spelled, argument, meant}
use dalek.Stdio.Formats.{text, more, format_text, arguments, meaning}
use dalek.Stdio.Leaves.{Leaves, Leaves-bind, Leaves-nothing, print-Leaves}
use dalek.Commands.Machine.{callback}

-- So many calls.
abbrev pub callbacks :
    {State : Type 0}
    → Option (IoDevice State)
    → List ℕ
    → ℕ
    → ℕ
    → ℕ × Timer
    → State × ℕ
    → Option ((ℕ × Timer) × (State × ℕ))
callbacks stdout stack zero id c s = some (c, s)
callbacks stdout stack (suc n) id c s =
    callback stdout stack id c s >>= λ x. callbacks stdout stack n id x.0 x.1

-- The line of a call, and those of so many calls behind `c`.
abbrev pub called_line : ℕ → List ℕ
called_line c = chars "TIMER CALLBACK " ++ (numeral 10 (c % 2 ^ 32) ++ chars "...\n")

abbrev pub called_lines : ℕ → ℕ → List ℕ
called_lines c zero = []
called_lines c (suc n) = called_line (c + 1) ++ called_lines (c + 1) n

module _ {State : Type 0} (terminal : Terminal State) (stack : List ℕ) where
  open terminal use {stdout}

  -- A call that leaves `x`.
  callback-Leaves :
      (id c : ℕ) (t : Timer) (x : ℕ × Timer) (s : State) (errno : ℕ)
      → (if ltb 20 (c + 1) then (0, timer_unregister_task t id) else (c + 1, t)) ≡ x
      → c < 21
      → length stack ≡ 64
      → Leaves terminal
          (callback (some stdout) stack id (c, t) (s, errno))
          (λ s'. (x, (s', errno)))
          s
          (called_line (c + 1))
  unfolding callback format_text arguments meaning spelled argument meant
  callback-Leaves id c t x s errno e few stacked =
      subst
        (Leaves terminal (callback (some stdout) stack id (c, t) (s, errno))
          (λ s'. (x, (s', errno))) s)
        (append-nil (called_line (c + 1)))
        (Leaves-bind terminal _ _ (λ s'. (s', errno)) (λ s'. (x, (s', errno))) s
          (called_line (c + 1)) []
          (print-Leaves terminal
            (more (chars "TIMER CALLBACK ") (integer (c + 1)) (text (chars "...\n"))) stack s errno
            (ground (arith, few)) stacked)
          λ s'. rw e (Leaves-nothing terminal (λ t'. (x, (t', errno))) s'))

  -- Behind `c` calls of the callback, on a terminal, those up to the twenty-first each show a line with
  -- their number; behind the last of them the task is taken away, and the count is 0 again.
  pub callbacks-Leaves :
      (n id c : ℕ) (t : Timer) (s : State) (errno : ℕ)
      → c + n ≡ 20
      → length stack ≡ 64
      → Leaves terminal
          (callbacks (some stdout) stack (suc n) id (c, t) (s, errno))
          (λ s'. ((0, timer_unregister_task t id), (s', errno)))
          s
          (called_lines c (suc n))
  callbacks-Leaves zero id c t s errno e stacked =
      let last : ltb 20 (c + 1) ≡ true = ground arith in
      Leaves-bind terminal _ _ (λ s'. ((0, timer_unregister_task t id), (s', errno))) _ s _ []
        (callback-Leaves id c t (0, timer_unregister_task t id) s errno (rw last refl) (omega arith)
          stacked)
        λ s'. Leaves-nothing terminal _ s'
  callbacks-Leaves (suc n) id c t s errno e stacked =
      let fewer : ltb 20 (c + 1) ≡ false = ground arith in
      Leaves-bind terminal _ _ (λ s'. ((c + 1, t), (s', errno))) _ s _ _
        (callback-Leaves id c t (c + 1, t) s errno (rw fewer refl) (omega arith) stacked)
        λ s'. callbacks-Leaves n id (c + 1) t s' errno (omega arith) stacked
