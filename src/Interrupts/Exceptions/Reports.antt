-- ===== src/Interrupts/Exceptions/Reports.antt =====
-- What the exception handler of bootloader/stage2/idt.c shows.
use dalek.Base.{
  ℕ, zero, suc, ◌+◌, ◌%◌, ◌^◌, Bool-cases, inl, inr, ◌≤◌, ◌<◌, ◌≡◌, refl, some, List, [], ◌∷◌, ◌++◌,
  ltb, ◌==◌, if◌then◌else◌, get_elem?, length, arith,
}
use mathlib.Core.Path.{subst}
use dalek.Strings.Text.{IsText, chars, c_string, held}
use dalek.Strings.Number.Spelled.{numeral}
use dalek.Main.{halts, panic}
use dalek.Main.Panics.{panic-Leaves}
use dalek.Stdio.Format.{word, str}
use dalek.Stdio.Terminal.{Terminal}
use dalek.Stdio.Directives.{integer, string, spelled, argument, meant}
use dalek.Stdio.Formats.{Format, text, more, format_text, arguments, meaning}
use dalek.Stdio.Leaves.{Leaves}
use dalek.Interrupts.Exceptions.{exception_names, isr_base_handler}

-- The exceptions of the processor, as the messages are to call them.
abbrev pub titles : List (ℕ × List ℕ)
titles =
    (0x00, chars "Division By Zero Exception")
    ∷ (0x01, chars "Debug Exception")
    ∷ (0x02, chars "Non Maskable Interrupt Exception")
    ∷ (0x03, chars "Breakpoint Exception")
    ∷ (0x04, chars "Into Detected Overflow Exception")
    ∷ (0x05, chars "Out of Bounds Exception")
    ∷ (0x06, chars "Invalid Opcode Exception")
    ∷ (0x07, chars "No Coprocessor Exception")
    ∷ (0x08, chars "Double Fault Exception")
    ∷ (0x09, chars "Coprocessor Segment Overrun Exception")
    ∷ (0x0a, chars "Bad TSS Exception")
    ∷ (0x0b, chars "Segment Not Present Exception")
    ∷ (0x0c, chars "Stack Fault Exception")
    ∷ (0x0d, chars "General Protection Fault Exception")
    ∷ (0x0e, chars "Page Fault Exception")
    ∷ (0x0f, chars "Unknown Interrupt Exception")
    ∷ (0x10, chars "Coprocessor Fault Exception")
    ∷ (0x11, chars "Alignment Check Exception (486+)")
    ∷ (0x12, chars "Machine Check Exception")
    ∷ []

-- The title of a number, or that it is reserved.
abbrev pub titled : List (ℕ × List ℕ) → ℕ → List ℕ
titled [] int_no = chars "Reserved exception"
titled ((n, title) ∷ entries) int_no = if int_no == n then title else titled entries int_no

-- The two numbers and what stands behind them.
abbrev pub exception_line : ℕ → ℕ → List ℕ
exception_line int_no err_code =
    chars "("
    ++ (numeral 10 (int_no % 2 ^ 32)
        ++ (chars ", "
            ++ (numeral 10 (err_code % 2 ^ 32)
                ++ (chars ") " ++ (titled titles int_no ++ chars "\n")))))

-- The formats of the two messages.
abbrev named_format : ℕ → ℕ → List ℕ → Format
named_format int_no err_code name =
    more (chars "(") (integer int_no) (
      more (chars ", ") (integer err_code) (more (chars ") ") (string name []) (text (chars "\n"))))

abbrev reserved_format : ℕ → ℕ → Format
reserved_format int_no err_code =
    more (chars "(") (integer int_no)
      (more (chars ", ") (integer err_code) (text (chars ") Reserved exception\n")))

-- The names of the table, from the number `k` on, are the titles, and texts.
abbrev Titled : ℕ → List (List ℕ) → Type 0
Titled k [] = Unit {0}
Titled k (t ∷ ts) = ((titled titles k ≡ t) × IsText t) × Titled (k + 1) ts

exception_names-Titled : Titled 0 exception_names
exception_names-Titled = ground arith

get_elem?-Titled :
    (k i : ℕ) (ts : List (List ℕ))
    → Titled k ts
    → i < length ts
    → (t : List ℕ) × (get_elem? ts i ≡ some t) × (titled titles (i + k) ≡ t) × IsText t
get_elem?-Titled k i [] h l = absurd (omega arith)
get_elem?-Titled k zero (t ∷ ts) h l =
    let same : k ≡ 0 + k = omega arith in
    (t, refl, subst (λ j. titled titles j ≡ t) same h.0.0, h.0.1)
get_elem?-Titled k (suc i) (t ∷ ts) h l =
    let (u, e, title, plain) = get_elem?-Titled (k + 1) i ts h.1 (omega arith) in
    let same : i + (k + 1) ≡ suc i + k = omega arith in
    (u, e, subst (λ j. titled titles j ≡ u) same title, plain)

titled-reserved : (int_no : ℕ) → 19 ≤ int_no → titled titles int_no ≡ chars "Reserved exception"
titled-reserved int_no h = ground arith

module _ {State : Type 0} (terminal : Terminal State) (stack : List ℕ) where
  open terminal use {stdout}

  named-Leaves :
      (int_no err_code : ℕ) (name : List ℕ) (s : State) (errno : ℕ)
      → IsText name
      → int_no < 2 ^ 31
      → err_code < 2 ^ 31
      → length stack ≡ 64
      → Leaves terminal
          (panic
            (λ s'. some stdout)
            stack
            (c_string "isr_base_handler")
            (c_string "(%i, %i) %s\n")
            (word int_no ∷ word err_code ∷ str (some (held name [])) ∷ [])
            (s, errno))
          (λ s'. halts (s', errno))
          s
          (chars "PANIC!! [isr_base_handler] "
            ++ (meaning (named_format int_no err_code name) ++ chars "\nHalting...\n"))
  unfolding format_text arguments meaning spelled argument meant
  named-Leaves int_no err_code name s errno h small small' stacked =
      panic-Leaves terminal stack (chars "isr_base_handler") (named_format int_no err_code name) s
        errno (ground arith) (ground (arith, h)) stacked

  reserved-Leaves :
      (int_no err_code : ℕ) (s : State) (errno : ℕ)
      → int_no < 2 ^ 31
      → err_code < 2 ^ 31
      → length stack ≡ 64
      → Leaves terminal
          (panic
            (λ s'. some stdout)
            stack
            (c_string "isr_base_handler")
            (c_string "(%i, %i) Reserved exception\n")
            (word int_no ∷ word err_code ∷ [])
            (s, errno))
          (λ s'. halts (s', errno))
          s
          (chars "PANIC!! [isr_base_handler] "
            ++ (meaning (reserved_format int_no err_code) ++ chars "\nHalting...\n"))
  unfolding format_text arguments meaning spelled argument meant
  reserved-Leaves int_no err_code s errno small small' stacked =
      panic-Leaves terminal stack (chars "isr_base_handler") (reserved_format int_no err_code) s
        errno (ground arith) (ground arith) stacked

  -- With a terminal, the handler of an exception halts, and shows its name, of a number below 19, or
  -- that it is reserved, behind the number and the code, both below 2 ^ 31.
  pub isr_base_handler-Leaves :
      (int_no err_code : ℕ) (s : State) (errno : ℕ)
      → int_no < 2 ^ 31
      → err_code < 2 ^ 31
      → length stack ≡ 64
      → Leaves terminal
          (isr_base_handler (λ s'. some stdout) stack int_no err_code (s, errno))
          (λ s'. halts (s', errno))
          s
          (chars "PANIC!! [isr_base_handler] "
            ++ (exception_line int_no err_code ++ chars "\nHalting...\n"))
  unfolding isr_base_handler meaning meant
  isr_base_handler-Leaves int_no err_code s errno h h' stacked = elim (Bool-cases (ltb int_no 19)) [
    | inl small ↦
        let (name, named, title, plain) =
          get_elem?-Titled 0 int_no exception_names exception_names-Titled (ground arith) in
        let same : int_no + 0 ≡ int_no = omega arith in
        let called : titled titles int_no ≡ name = subst (λ j. titled titles j ≡ name) same title in
        rw (small, named, called) (named-Leaves int_no err_code name s errno plain h h' stacked)
    | inr large ↦
        rw (large, titled-reserved int_no (ground arith))
          (reserved-Leaves int_no err_code s errno h h' stacked)
  ]
