-- ===== src/Interrupts/Lines.antt =====
-- The handlers of the interrupt lines in bootloader/stage2/irq.c.
use dalek.Base.{
  ℕ, ◌+◌, ◌-◌, ◌%◌, ◌^◌, ◌<◌, ◌≡◌, ◌≢◌, refl, ap, ◌∙◌, true, Bool-cases, inl, inr, Option, none,
  some, List, [], ◌∷◌, ltb, ◌==◌, if◌then◌else◌, length, get_elem?, set, get_elem?-set_self,
  get_elem?-set_ne, arith,
}
use dalek.Interrupts.{
  Outportb, pic_master_port_cmd, pic_master_port_data, irq_install_handler, irq_uninstall_handler,
  irq_handler,
}

-- What is written at the end of every interrupt.
abbrev pub end_of_interrupt : List Outportb
end_of_interrupt = (pic_master_port_cmd, 0x20) ∷ (pic_master_port_data, 0x20) ∷ []

irq_handler-line :
    (routines : List (Option ℕ)) (line : ℕ) (handler : Option ℕ)
    → line < 2 ^ 32 - 32
    → get_elem? routines line ≡ some handler
    → irq_handler routines (32 + line) ≡ some (handler, end_of_interrupt)
unfolding irq_handler
irq_handler-line routines line handler small at =
    let e : (32 + line + 2 ^ 32 - 32) % 2 ^ 32 ≡ line = omega arith in rw (e, at) refl

set_line :
    (routines : List (Option ℕ)) (irq line : ℕ) (new old : Option ℕ)
    → irq < length routines
    → get_elem? routines line ≡ some old
    → get_elem? (set routines irq new) line ≡ some (if line == irq then new else old)
set_line routines irq line new old l at = elim (Bool-cases (line == irq)) [
  | inl same ↦
      let e : line ≡ irq = ground arith in
      rw same
        (ap (λ k. get_elem? (set routines irq new) k) e ∙ get_elem?-set_self routines irq new l)
  | inr other ↦ let e : irq ≢ line = ground arith in rw other (get_elem?-set_ne routines new e ∙ at)
]

-- Once a handler is installed on a line, an interrupt of the line calls it, and one of another line calls
-- what it called before; once it is uninstalled, an interrupt of the line calls nothing. Every interrupt
-- ends with the same writes to the master controller.
pub irq_handler-installed :
    (routines : List (Option ℕ)) (irq line handler : ℕ) (old : Option ℕ)
    → length routines ≡ 16
    → irq < 16
    → line < 16
    → get_elem? routines line ≡ some old
    → (irq_install_handler routines irq handler ≡ some (set routines irq (some handler)))
      × (irq_handler (set routines irq (some handler)) (32 + line)
          ≡ some (if line == irq then some handler else old, end_of_interrupt))
      × (irq_uninstall_handler routines irq ≡ some (set routines irq none))
      × (irq_handler (set routines irq none) (32 + line)
          ≡ some (if line == irq then none else old, end_of_interrupt))
unfolding irq_install_handler irq_uninstall_handler
irq_handler-installed routines irq line handler old l h g at =
    let inside : ltb irq 16 ≡ true = ground arith in
    (
      rw inside refl,
      irq_handler-line (set routines irq (some handler)) line _ (omega arith)
          (set_line routines irq line (some handler) old (omega arith) at),
      rw inside refl,
      irq_handler-line (set routines irq none) line _ (omega arith)
          (set_line routines irq line none old (omega arith) at),
    )
