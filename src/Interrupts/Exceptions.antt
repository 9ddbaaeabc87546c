-- ===== src/Interrupts/Exceptions.antt =====
-- The exception handler of bootloader/stage2/idt.c, which panics.
pub mod Reports
use dalek.Base.{
  ℕ, zero, suc, Bool-cases, inl, inr, ◌≤◌, ◌<◌, ◌≡◌, refl, Option, none, some, List, [], ◌∷◌, ◌++◌,
  ltb, if◌then◌else◌, get_elem?, length, arith,
}
use dalek.Base.Fault.{◌>>=◌}
use dalek.Strings.Text.{IsText, chars, c_string, held}
use dalek.Strings.Number.Print.{printed}
use dalek.Io.{IoDevice}
use dalek.Main.{Halted, panic}
use dalek.Main.Panics.{panic-Leaves}
use dalek.Stdio.Format.{word, str, to_signed}
use dalek.Stdio.Terminal.{Terminal}
use dalek.Stdio.Directives.{integer, string, spelled, argument, meant}
use dalek.Stdio.Formats.{Format, text, more, format_text, arguments, meaning}
use dalek.Stdio.Leaves.{Leaves}

abbrev pub exception_names : List (List ℕ)
exception_names =
    chars "Division By Zero Exception"
    ∷ chars "Debug Exception"
    ∷ chars "Non Maskable Interrupt Exception"
    ∷ chars "Breakpoint Exception"
    ∷ chars "Into Detected Overflow Exception"
    ∷ chars "Out of Bounds Exception"
    ∷ chars "Invalid Opcode Exception"
    ∷ chars "No Coprocessor Exception"
    ∷ chars "Double Fault Exception"
    ∷ chars "Coprocessor Segment Overrun Exception"
    ∷ chars "Bad TSS Exception"
    ∷ chars "Segment Not Present Exception"
    ∷ chars "Stack Fault Exception"
    ∷ chars "General Protection Fault Exception"
    ∷ chars "Page Fault Exception"
    ∷ chars "Unknown Interrupt Exception"
    ∷ chars "Coprocessor Fault Exception"
    ∷ chars "Alignment Check Exception (486+)"
    ∷ chars "Machine Check Exception"
    ∷ []

module _ {State : Type 0} (stdout : State → Option (IoDevice State)) (stack : List ℕ) where
  -- A string of `isr_exception_string` stands alone in its object.
  unfoldable pub isr_base_handler : ℕ → ℕ → State × ℕ → Option (Halted State)
  isr_base_handler int_no err_code s =
      if ltb int_no 19
      then (get_elem? exception_names int_no >>= λ name.
          panic stdout stack (c_string "isr_base_handler") (c_string "(%i, %i) %s\n")
            (word int_no ∷ word err_code ∷ str (some (held name [])) ∷ []) s)
      else panic stdout stack (c_string "isr_base_handler")
          (c_string "(%i, %i) Reserved exception\n") (word int_no ∷ word err_code ∷ []) s
