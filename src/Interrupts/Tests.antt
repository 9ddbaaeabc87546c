-- ===== src/Interrupts/Tests.antt =====
-- Interrupts at concrete inputs, and the theorems at them.
use dalek.Base.{
  ℕ, List, [], ◌++◌, replicate, ◌+◌, ◌*◌, ◌≡◌, refl, none, some, length, get_elem?, set, arith,
}
use dalek.Interrupts.{
  irq_routines, irq_install_handler, irq_uninstall_handler, irq_handler, irq_remap, irq_uninstall,
  idt_install,
}
use dalek.Strings.Text.{chars}
use dalek.Strings.Number.Numeral.{digits_of}
use dalek.Stdio.Console.{console, screen}
use dalek.Stdio.Leaves.{Leaves}
use dalek.Main.{halts}
use dalek.Interrupts.Exceptions.{isr_base_handler}
use dalek.Interrupts.Exceptions.Reports.{exception_line, isr_base_handler-Leaves}
use dalek.Interrupts.Gates.{installed, gate_to, installed_lem}
use dalek.Interrupts.Lines.{end_of_interrupt, irq_handler-installed}

abbrev stack : List ℕ
stack = replicate 64 170

-- Routines 16 bytes apart.
abbrev isr : ℕ → ℕ
isr k = 0x10000 + k * 16

abbrev irq : ℕ → ℕ
irq k = 0x12000 + k * 16

installed_lem_instance : get_elem? (installed 0x9000 isr irq) 33 ≡ some (gate_to 0x12010)
installed_lem_instance = installed_lem 0x9000 isr irq 33 (omega arith)

irq_handler-installed_instance :
    (irq_install_handler irq_routines 1 77 ≡ some (set irq_routines 1 (some 77)))
    × (irq_handler (set irq_routines 1 (some 77)) 33 ≡ some (some 77, end_of_interrupt))
    × (irq_uninstall_handler irq_routines 1 ≡ some (set irq_routines 1 none))
    × (irq_handler (set irq_routines 1 none) 33 ≡ some (none, end_of_interrupt))
irq_handler-installed_instance =
    irq_handler-installed irq_routines 1 1 77 none refl (omega arith) (omega arith) refl

table_limit : (idt_install 0x9000 isr).0 ≡ (2047, 0x9000)
unfolding idt_install
table_limit = refl

remapped : length (irq_remap 0 0) ≡ 10
unfolding irq_remap
remapped = refl

restored : length (irq_uninstall 0 0) ≡ 10
unfolding irq_uninstall
restored = refl

-- A page fault.
isr_base_handler-Leaves_example :
    Leaves console
      (isr_base_handler (λ s. some screen) stack 14 2 (([], []), 5))
      (λ s'. halts (s', 5))
      ([], [])
      (chars "PANIC!! [isr_base_handler] " ++ (exception_line 14 2 ++ chars "\nHalting...\n"))
isr_base_handler-Leaves_example =
    isr_base_handler-Leaves console stack 14 2 ([], []) 5 (omega arith) (omega arith) refl

page_fault : exception_line 14 2 ≡ chars "(14, 2) Page Fault Exception\n"
unfolding digits_of
page_fault = refl
