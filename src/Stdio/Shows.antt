-- ===== src/Stdio/Shows.antt =====
-- What a terminal shows when `vprintf` of bootloader/stage2/stdio.c print to it.
use mathlib.Core.Path.{subst}
use dalek.Base.{
  ℕ, zero, suc, ◌+◌, ◌≤◌, ◌<◌, ◌≡◌, refl, sym, ap, ◌∙◌, true, false, ◌||◌, Option, some, List, [],
  ◌∷◌, ◌++◌, ◌==◌, length, arith, length-append, append_assoc, append-nil,
}
use dalek.Base.Int.{pos}
use dalek.Strings.Text.{held}
use dalek.Stdio.Format.{Arg, round}
use dalek.Stdio.Print.{Outcome, vprintf_loop, vprintf}
use dalek.Stdio.Terminal.{Terminal}
use dalek.Stdio.Directives.{Directive, spelled, length-spelled, argument, meant, IsDirective}
use dalek.Stdio.Conversions.{Writes, directive-Writes}
use dalek.Stdio.Formats.{
  Format, text, more, format_text, arguments, meaning, IsPlain, IsFormat, literal-Writes,
}

module _ {State : Type 0} (terminal : Terminal State) where
  open terminal use {stdout, typed, shown, display, writes, typed-display, shown-display}

  -- The call returns 0, `errno` is as it was, and the terminal shows `out` behind what it showed.
  abbrev pub Shows : Option (Outcome State) → State → ℕ → List ℕ → Type 0
  Shows o s errno out =
      (s' : State) × (o ≡ some (pos 0, (s', errno)))
      × (shown s' ≡ shown s ++ out)
      × (typed s' ≡ typed s)

  pub vprintf_loop-Writes :
      (fuel c : ℕ) (s t s' : List ℕ) (args args' : List Arg) (buffer : List ℕ) (st : State)
      (errno : ℕ)
      → (c == 0) ≡ false
      → (w : Writes (round c s args buffer) t args' s')
      → vprintf_loop (suc fuel) (some stdout) (c ∷ s) args buffer (st, errno)
        ≡ vprintf_loop fuel (some stdout) s' args' w.buffer (display t st, errno)
  unfolding vprintf_loop
  vprintf_loop-Writes fuel c s t s' args args' buffer st errno nul w =
      rw (nul, w.returned, writes st w.bytes w.count errno w.inside, w.written)

  -- What is shown first, and then.
  pub Shows-display :
      (o o' : Option (Outcome State)) (st : State) (errno : ℕ) (t out : List ℕ)
      → o ≡ o'
      → Shows o' (display t st) errno out
      → Shows o st errno (t ++ out)
  Shows-display o o' st errno t out e (s', returned, more_shown, same_typed) = (
    s',
    e ∙ returned,
    more_shown ∙ ap (λ l. l ++ out) (shown-display st t) ∙ append_assoc (shown st) t out,
    same_typed ∙ typed-display st t,
  )

  -- Text in front of a conversion or of the end.
  text-Shows :
      (fuel : ℕ) (t : List ℕ) (x : ℕ) (s : List ℕ) (args : List Arg) (buffer : List ℕ) (st : State)
      (errno : ℕ) (out : List ℕ)
      → IsPlain t
      → (x == b'%' || x == 0) ≡ true
      → length buffer ≡ 64
      → length t < fuel
      → ((fuel' : ℕ) (buffer' : List ℕ) (st' : State)
          → fuel ≤ length t + fuel'
          → length buffer' ≡ 64
          → Shows
              (vprintf_loop fuel' (some stdout) (x ∷ s) args buffer' (st', errno))
              st'
              errno
              out)
      → Shows
          (vprintf_loop fuel (some stdout) (t ++ (x ∷ s)) args buffer (st, errno))
          st
          errno
          (t ++ out)
  text-Shows fuel [] x s args buffer st errno out h e sized enough behind =
      behind fuel buffer st (omega arith) sized
  text-Shows zero (c ∷ t) x s args buffer st errno out h e sized enough behind =
      absurd (omega arith)
  text-Shows (suc fuel) (c ∷ t) x s args buffer st errno out h e sized enough behind =
      let w = literal-Writes c t x s args buffer h e sized in
      Shows-display _ _ st errno (c ∷ t) out
        (vprintf_loop-Writes fuel c (t ++ (x ∷ s)) (c ∷ t) (x ∷ s) args args buffer st errno
          (ground arith) w)
        (behind fuel w.buffer (display (c ∷ t) st) (omega arith) w.sized)

  -- The end of the format.
  pub end-Shows :
      (fuel : ℕ) (rest : List ℕ) (args : List Arg) (buffer : List ℕ) (st : State) (errno : ℕ)
      → 0 < fuel
      → Shows (vprintf_loop fuel (some stdout) (0 ∷ rest) args buffer (st, errno)) st errno []
  unfolding vprintf_loop
  end-Shows zero rest args buffer st errno h = absurd (omega arith)
  end-Shows (suc fuel) rest args buffer st errno h = (st, refl, sym (append-nil (shown st)), refl)

  -- A conversion, and what is behind it.
  directive-Shows :
      (d : Directive) (fuel bound : ℕ) (s : List ℕ) (args : List Arg) (buffer : List ℕ) (st : State)
      (errno : ℕ) (out : List ℕ)
      → IsDirective d
      → length buffer ≡ 64
      → bound < fuel
      → ((fuel' : ℕ) (buffer' : List ℕ) (st' : State)
          → bound ≤ fuel'
          → length buffer' ≡ 64
          → Shows (vprintf_loop fuel' (some stdout) s args buffer' (st', errno)) st' errno out)
      → Shows
          (vprintf_loop fuel
            (some stdout)
            (b'%' ∷ (spelled d ++ s))
            (argument d ++ args)
            buffer
            (st, errno))
          st
          errno
          (meant d ++ out)
  directive-Shows d zero bound s args buffer st errno out h sized enough behind =
      absurd (omega arith)
  directive-Shows d (suc fuel) bound s args buffer st errno out h sized enough behind =
      let w = directive-Writes d s args buffer h sized in
      Shows-display _ _ st errno (meant d) out
        (vprintf_loop-Writes fuel b'%' (spelled d ++ s) (meant d) s (argument d ++ args) args buffer
          st errno refl w)
        (behind fuel w.buffer (display (meant d) st) (omega arith) w.sized)

  format_text-held :
      (t : List ℕ) (d : Directive) (f : Format) (rest : List ℕ)
      → held (t ++ (b'%' ∷ (spelled d ++ format_text f))) rest
        ≡ t ++ (b'%' ∷ (spelled d ++ held (format_text f) rest))
  format_text-held t d f rest =
      append_assoc t (b'%' ∷ (spelled d ++ format_text f)) (0 ∷ rest)
      ∙ ap (λ l. t ++ (b'%' ∷ l)) (append_assoc (spelled d) (format_text f) (0 ∷ rest))

  vprintf_loop-meaning :
      (f : Format) (fuel : ℕ) (rest : List ℕ) (args : List Arg) (buffer : List ℕ) (st : State)
      (errno : ℕ)
      → IsFormat f
      → length buffer ≡ 64
      → length (format_text f) < fuel
      → Shows
          (vprintf_loop fuel
            (some stdout)
            (held (format_text f) rest)
            (arguments f ++ args)
            buffer
            (st, errno))
          st
          errno
          (meaning f)
  unfolding format_text arguments meaning
  vprintf_loop-meaning (text t) fuel rest args buffer st errno h sized enough =
      subst
        (λ out.
          Shows (vprintf_loop fuel (some stdout) (held t rest) args buffer (st, errno)) st errno
            out)
        (append-nil t)
        (text-Shows fuel t 0 rest args buffer st errno [] h refl sized enough
          (λ fuel' buffer' st' l sized'. end-Shows fuel' rest args buffer' st' errno (omega arith)))
  vprintf_loop-meaning (more t d f) fuel rest args buffer st errno h sized enough =
      let room : length t + suc (length (spelled d ++ format_text f)) < fuel =
        omega (arith, length-append t (b'%' ∷ (spelled d ++ format_text f))) in
      rw (format_text-held t d f rest, append_assoc (argument d) (arguments f) args)
        (text-Shows fuel t b'%' (spelled d ++ held (format_text f) rest)
          (argument d ++ (arguments f ++ args)) buffer st errno (meant d ++ meaning f) h.0 refl
          sized (omega arith)
          (λ fuel' buffer' st' l sized'.
            directive-Shows d fuel' (suc (length (format_text f))) (held (format_text f) rest)
              (arguments f ++ args) buffer' st' errno (meaning f) h.1 sized'
              (omega (arith, length-append (spelled d) (format_text f), length-spelled d))
              (λ fuel'' buffer'' st'' l' sized''.
                vprintf_loop-meaning f fuel'' rest args buffer'' st'' errno h.2 sized''
                  (omega arith))))

  -- `vprintf` with `stdout` set, on a format of text and conversions, with their arguments and others
  -- behind them: it returns 0, and the terminal shows the text with, for each conversion, the numeral
  -- of its number, its string or its character. The conversions are `%d` and `%i` of a number that is not
  -- negative, `%x` and `%X` with zeros up to a width below 10, both in small letters, `%x`, `%z`, `%s`,
  -- `%c` and `%%`.
  pub vprintf-meaning :
      (f : Format) (rest : List ℕ) (args : List Arg) (buffer : List ℕ) (st : State) (errno : ℕ)
      → IsFormat f
      → length buffer ≡ 64
      → Shows
          (vprintf
            (some stdout)
            (held (format_text f) rest)
            (arguments f ++ args)
            buffer
            (st, errno))
          st
          errno
          (meaning f)
  unfolding vprintf
  vprintf-meaning f rest args buffer st errno h sized =
      vprintf_loop-meaning f (suc (length (held (format_text f) rest))) rest args buffer st errno h
        sized (omega (arith, length-append (format_text f) (0 ∷ rest)))
