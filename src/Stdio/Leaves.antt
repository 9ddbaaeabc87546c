-- ===== src/Stdio/Leaves.antt =====
-- Chains of calls that print to a terminal by bootloader/stage2/stdio.c.
use dalek.Base.{
  ℕ, ◌≡◌, refl, sym, ap, ◌∙◌, Option, some, List, [], ◌++◌, append_assoc, append-nil, length,
}
use mathlib.Core.Path.{subst}
use dalek.Base.Int.{pos}
use dalek.Base.Fault.{◌>>=◌}
use dalek.Strings.Text.{held}
use dalek.Stdio.Print.{printf, log}
use dalek.Strings.Text.{IsText}
use dalek.Stdio.Terminal.{Terminal}
use dalek.Stdio.Formats.{Format, format_text, arguments, meaning, IsFormat}
use dalek.Stdio.Logs.{log_line, log-meaning}
use dalek.Stdio.Shows.{vprintf-meaning}

module _ {State : Type 0} (terminal : Terminal State) where
  open terminal use {stdout, typed, shown}

  -- The result is made of a state in which the terminal shows `out` behind what it showed.
  abbrev pub Leaves : {A : Type 0} → Option A → (State → A) → State → List ℕ → Type 0
  Leaves o make s out =
      (s' : State) × (o ≡ some (make s')) × (shown s' ≡ shown s ++ out) × (typed s' ≡ typed s)

  pub Leaves-bind :
      {A : Type 0} {B : Type 0} (o : Option A) (k : A → Option B) (make : State → A)
      (make' : State → B) (s : State) (out out' : List ℕ)
      → Leaves o make s out
      → ((s' : State) → Leaves (k (make s')) make' s' out')
      → Leaves (o >>= k) make' s (out ++ out')
  Leaves-bind o k make make' s out out' (s₁, returned, more_shown, same_typed) next =
      let (s₂, returned', more_shown', same_typed') = next s₁ in
      (
        s₂,
        rw returned returned',
        more_shown' ∙ ap (λ l. l ++ out') more_shown ∙ append_assoc (shown s) out out',
        same_typed' ∙ same_typed,
      )

  pub Leaves-nothing :
      {A : Type 0} (make : State → A) (s : State) → Leaves (some (make s)) make s []
  Leaves-nothing make s = (s, refl, sym (append-nil (shown s)), refl)

  -- `printf` of a format, and what comes behind it.
  pub printf-then :
      {B : Type 0} (f : Format) (stack : List ℕ) (errno : ℕ) (k : State × ℕ → Option B)
      (make : State → B) (s : State) (out : List ℕ)
      → IsFormat f
      → length stack ≡ 64
      → ((s' : State) → Leaves (k (s', errno)) make s' out)
      → Leaves
          (printf (some stdout) (held (format_text f) []) (arguments f) stack (s, errno) >>= λ x.
            k x.1)
          make
          s
          (meaning f ++ out)
  unfolding printf
  printf-then f stack errno k make s out h stacked next =
      Leaves-bind _ (λ x. k x.1) (λ s'. (pos 0, (s', errno))) make s (meaning f) out
        (subst
          (λ args.
            Leaves (printf (some stdout) (held (format_text f) []) args stack (s, errno))
              (λ s'. (pos 0, (s', errno))) s (meaning f))
          (append-nil (arguments f)) (vprintf-meaning terminal f [] [] stack s errno h stacked))
        next

  -- A message, and what comes behind it.
  pub log-then :
      {B : Type 0} (level : ℕ) (func : List ℕ) (f : Format) (stack : List ℕ) (errno : ℕ)
      (k : State × ℕ → Option B) (make : State → B) (s : State) (out : List ℕ)
      → IsFormat f
      → IsText func
      → length stack ≡ 64
      → ((s' : State) → Leaves (k (s', errno)) make s' out)
      → Leaves
          (log
              (some stdout)
              stack
              level
              (held func [])
              (held (format_text f) [])
              (arguments f)
              (s, errno)
            >>= λ x. k x.1)
          make
          s
          (log_line level func (meaning f) ++ out)
  log-then level func f stack errno k make s out h hf stacked next =
      Leaves-bind _ (λ x. k x.1) (λ s'. (pos 0, (s', errno))) make s
        (log_line level func (meaning f)) out
        (subst
          (λ args.
            Leaves
              (log (some stdout) stack level (held func []) (held (format_text f) []) args
                (s, errno))
              (λ s'. (pos 0, (s', errno))) s (log_line level func (meaning f)))
          (append-nil (arguments f))
          (log-meaning terminal f [] func [] level [] stack s errno h hf stacked))
        next

  -- `printf` alone.
  pub print-Leaves :
      (f : Format) (stack : List ℕ) (s : State) (errno : ℕ)
      → IsFormat f
      → length stack ≡ 64
      → Leaves
          (printf (some stdout) (held (format_text f) []) (arguments f) stack (s, errno) >>= λ x.
            some x.1)
          (λ s'. (s', errno))
          s
          (meaning f)
  print-Leaves f stack s errno h stacked =
      subst
        (Leaves
          (printf (some stdout) (held (format_text f) []) (arguments f) stack (s, errno) >>= λ x.
            some x.1)
          (λ s'. (s', errno)) s)
        (append-nil (meaning f))
        (printf-then f stack errno some (λ s'. (s', errno)) s [] h stacked
          λ s'. Leaves-nothing (λ t. (t, errno)) s')
