-- ===== src/Main/Panics.antt =====
-- What `panic` of bootloader/stage2/panic.c shows before it halts.
use dalek.Base.{ℕ, ◌≡◌, some, List, [], ◌∷◌, ◌++◌, length, arith}
use dalek.Strings.Text.{IsText, held, chars}
use dalek.Stdio.Terminal.{Terminal}
use dalek.Stdio.Directives.{string, spelled, argument, meant}
use dalek.Stdio.Formats.{Format, text, more, format_text, arguments, meaning, IsFormat}
use dalek.Stdio.Leaves.{Leaves, Leaves-bind, Leaves-nothing, print-Leaves}
use dalek.Main.{halts, panic}

module _ {State : Type 0} (terminal : Terminal State) (stack : List ℕ) where
  open terminal use {stdout}

  -- With a terminal, `panic` halts, and shows the word, the name of the function in brackets, the text
  -- that the format means, and that it halts.
  pub panic-Leaves :
      (func : List ℕ) (f : Format) (s : State) (errno : ℕ)
      → IsText func
      → IsFormat f
      → length stack ≡ 64
      → Leaves terminal
          (panic
            (λ s'. some stdout)
            stack
            (held func [])
            (held (format_text f) [])
            (arguments f)
            (s, errno))
          (λ s'. halts (s', errno))
          s
          (chars "PANIC!! "
            ++ ((b'[' ∷ (func ++ chars "] ")) ++ (meaning f ++ chars "\nHalting...\n")))
  unfolding panic format_text arguments meaning spelled argument meant
  panic-Leaves func f s errno hf h stacked =
      Leaves-bind terminal _ _ (λ s'. (s', errno)) (λ s'. halts (s', errno)) s (chars "PANIC!! ") _
        (print-Leaves terminal (text (chars "PANIC!! ")) stack s errno (ground arith) stacked)
        λ s₁.
          Leaves-bind terminal _ _ (λ s'. (s', errno)) (λ s'. halts (s', errno)) s₁
            (b'[' ∷ (func ++ chars "] ")) _
            (print-Leaves terminal (more (b'[' ∷ []) (string func []) (text (chars "] "))) stack s₁
              errno (ground arith) stacked)
            λ s₂.
              Leaves-bind terminal _ _ (λ s'. (s', errno)) (λ s'. halts (s', errno)) s₂ (meaning f)
                _ (print-Leaves terminal f stack s₂ errno h stacked)
                λ s₃.
                  Leaves-bind terminal _ _ (λ s'. (s', errno)) (λ s'. halts (s', errno)) s₃
                    (chars "\nHalting...\n") []
                    (print-Leaves terminal (text (chars "\nHalting...\n")) stack s₃ errno
                      (ground arith) stacked)
                    λ s₄. Leaves-nothing terminal (λ s'. halts (s', errno)) s₄
