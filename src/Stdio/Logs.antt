-- ===== src/Stdio/Logs.antt =====
-- What a terminal shows when `printf` and `log` of bootloader/stage2/stdio.c print to it.
use dalek.Base.{
  ℕ, ◌≡◌, refl, sym, ap, ◌∙◌, Option, some, List, [], ◌∷◌, ◌++◌, length, arith, append_assoc,
  append-nil,
}
use dalek.Base.Int.{pos}
use dalek.Strings.Text.{held}
use dalek.Base.Fault.{◌>>=◌}
use dalek.Stdio.Format.{Arg}
use dalek.Stdio.Print.{Outcome}
use dalek.Stdio.Terminal.{Terminal}
use dalek.Stdio.Directives.{string, spelled, argument, meant}
use dalek.Stdio.Formats.{Format, text, more, format_text, arguments, meaning, IsPlain, IsFormat}
use dalek.Stdio.Print.{log_colour, printf, log}
use dalek.Strings.Text.{IsText, chars}
use dalek.Stdio.Shows.{Shows, vprintf-meaning}

-- The line of a message: the colour of the level, the name of the function in brackets, the text, a new
-- line, and the code that takes the colour back.
abbrev pub log_line : ℕ → List ℕ → List ℕ → List ℕ
log_line level func t =
    log_colour level ++ ((b'[' ∷ (func ++ chars "] ")) ++ (t ++ (b'\n' ∷ chars "\u{1b}[m")))

log_colour-IsPlain : (level : ℕ) → IsPlain (log_colour level)
unfolding log_colour
log_colour-IsPlain level = ground arith

module _ {State : Type 0} (terminal : Terminal State) where
  open terminal use {stdout, typed, shown}

  pub printf-plain :
      (t : List ℕ) (buffer : List ℕ) (st : State) (errno : ℕ)
      → IsPlain t
      → length buffer ≡ 64
      → Shows terminal (printf (some stdout) (held t []) [] buffer (st, errno)) st errno t
  unfolding printf format_text arguments meaning
  printf-plain t buffer st errno h sized =
      vprintf-meaning terminal (text t) [] [] buffer st errno h sized

  -- One call behind another.
  pub Shows-bind :
      (o : Option (Outcome State)) (k : Outcome State → Option (Outcome State)) (st : State)
      (errno : ℕ) (out out' : List ℕ)
      → Shows terminal o st errno out
      → ((s : State) → Shows terminal (k (pos 0, (s, errno))) s errno out')
      → Shows terminal (o >>= k) st errno (out ++ out')
  Shows-bind o k st errno out out' (s, returned, more_shown, same_typed) next =
      let (s', returned', more_shown', same_typed') = next s in
      (
        s',
        rw returned returned',
        more_shown' ∙ ap (λ l. l ++ out') more_shown ∙ append_assoc (shown st) out out',
        same_typed' ∙ same_typed,
      )

  -- `log` with `stdout` set, on such a format: it returns 0, and the terminal shows the line of the
  -- message with the text that is meant.
  pub log-meaning :
      (f : Format) (rest func behind : List ℕ) (level : ℕ) (args : List Arg) (buffer : List ℕ)
      (st : State) (errno : ℕ)
      → IsFormat f
      → IsText func
      → length buffer ≡ 64
      → Shows terminal
          (log
            (some stdout)
            buffer
            level
            (held func behind)
            (held (format_text f) rest)
            (arguments f ++ args)
            (st, errno))
          st
          errno
          (log_line level func (meaning f))
  unfolding log format_text arguments meaning spelled meant argument printf
  log-meaning f rest func behind level args buffer st errno h hf sized =
      Shows-bind _ _ st errno (log_colour level) _
        (printf-plain (log_colour level) buffer st errno (log_colour-IsPlain level) sized)
        λ s₁.
          Shows-bind _ _ s₁ errno (b'[' ∷ (func ++ chars "] ")) _
            (vprintf-meaning terminal (more (b'[' ∷ []) (string func behind) (text (chars "] "))) []
              [] buffer s₁ errno (ground arith) sized)
            λ s₂.
              Shows-bind _ _ s₂ errno (meaning f) _
                (vprintf-meaning terminal f rest args buffer s₂ errno h sized)
                λ s₃.
                  Shows-bind _ _ s₃ errno (b'\n' ∷ []) _
                    (printf-plain (b'\n' ∷ []) buffer s₃ errno (ground arith) sized)
                    λ s₄.
                      Shows-bind _ _ s₄ errno (chars "\u{1b}[m") []
                        (printf-plain (chars "\u{1b}[m") buffer s₄ errno (ground arith) sized)
                        λ s₅. (s₅, refl, sym (append-nil (shown s₅)), refl)
