-- ===== src/Interrupts.antt =====
-- bootloader/stage2/idt.c, irq.c and their headers: the interrupt descriptor table, the handlers of the
-- interrupt lines, and what is written to the interrupt controllers. The addresses of the assembly
-- routines, the masks that are read and the addresses of handlers are arguments.
pub mod Gates
pub mod Lines
pub mod Exceptions
mod Tests
use dalek.Base.{
  ℕ, zero, suc, ◌+◌, ◌-◌, ◌*◌, ◌/◌, ◌%◌, ◌^◌, Option, none, some, List, [], ◌∷◌, ltb, if◌then◌else◌,
  set, get_elem?, replicate,
}
use dalek.Base.Fault.{◌>>=◌}

abbrev pub idt_present : ℕ
idt_present = 0x80

abbrev pub idt_ring_0 : ℕ
idt_ring_0 = 0x0E

-- `struct idt_entry`
pub record IdtEntry : Type 0 where
  pub base_lo : ℕ
  pub sel : ℕ
  pub reserved : ℕ
  pub flags : ℕ
  pub base_hi : ℕ

-- A gate, as `idt_set_gate` fills it.
abbrev pub gate : ℕ → ℕ → ℕ → IdtEntry
gate base sel flags = record {
  base_lo = base % 2 ^ 16;
  sel = sel;
  reserved = 0;
  flags = flags;
  base_hi = base / 2 ^ 16 % 2 ^ 16;
}

unfoldable pub idt_set_gate : List IdtEntry → ℕ → ℕ → ℕ → ℕ → List IdtEntry
idt_set_gate idt num base sel flags = set idt num (gate base sel flags)

-- The calls of `idt_set_gate` for the `n` routines from number `k` on, the first of them at entry `num`.
unfoldable pub set_gates : (ℕ → ℕ) → ℕ → ℕ → ℕ → List IdtEntry → List IdtEntry
set_gates routine num k zero idt = idt
set_gates routine num k (suc n) idt =
    set_gates routine (num + 1) (k + 1) n
      (idt_set_gate idt num (routine k) 0x08 (idt_present + idt_ring_0))

-- `struct idt_ptr`: the limit and the base.
abbrev pub IdtPtr : Type 0
IdtPtr = ℕ × ℕ

-- An entry of zeroes, which `memset` leaves.
abbrev pub empty_entry : IdtEntry
empty_entry = record { base_lo = 0; sel = 0; reserved = 0; flags = 0; base_hi = 0 }

-- `idt_install`: the pointer and the table, with the address of the table and those of `_isr0` to
-- `_isr31`.
unfoldable pub idt_install : ℕ → (ℕ → ℕ) → IdtPtr × List IdtEntry
idt_install address isr = ((8 * 256 - 1, address), set_gates isr 0 0 32 (replicate 256 empty_entry))

abbrev pub pic_master_port_cmd : ℕ
pic_master_port_cmd = 0x20

abbrev pub pic_master_port_data : ℕ
pic_master_port_data = 0x21

abbrev pub pic_slave_port_cmd : ℕ
pic_slave_port_cmd = 0xA0

abbrev pub pic_slave_port_data : ℕ
pic_slave_port_data = 0xA1

-- A write to a port.
abbrev pub Outportb : Type 0
Outportb = ℕ × ℕ

-- `irq_remap`, with the masks that it reads and keeps.
unfoldable pub irq_remap : ℕ → ℕ → List Outportb
irq_remap master_mask slave_mask =
    (pic_master_port_cmd, 0x11)
    ∷ (pic_slave_port_cmd, 0x11)
    ∷ (pic_master_port_data, 0x20)
    ∷ (pic_slave_port_data, 0x28)
    ∷ (pic_master_port_data, 0x04)
    ∷ (pic_slave_port_data, 0x02)
    ∷ (pic_master_port_data, 0x05)
    ∷ (pic_slave_port_data, 0x01)
    ∷ (pic_master_port_data, master_mask)
    ∷ (pic_slave_port_data, slave_mask)
    ∷ []

-- `irq_uninstall`, with the masks that `irq_remap` kept.
unfoldable pub irq_uninstall : ℕ → ℕ → List Outportb
irq_uninstall master_mask slave_mask =
    (pic_master_port_cmd, 0x11)
    ∷ (pic_slave_port_cmd, 0x11)
    ∷ (pic_master_port_data, 0x08)
    ∷ (pic_slave_port_data, 0x70)
    ∷ (pic_master_port_data, 0x04)
    ∷ (pic_slave_port_data, 0x02)
    ∷ (pic_master_port_data, 0x01)
    ∷ (pic_slave_port_data, 0x01)
    ∷ (pic_master_port_data, master_mask)
    ∷ (pic_slave_port_data, slave_mask)
    ∷ []

-- `irq_install`: the table, with the addresses of `_irq0` to `_irq15`.
unfoldable pub irq_install : (ℕ → ℕ) → List IdtEntry → List IdtEntry
irq_install irq idt = set_gates irq 32 0 16 idt

-- `irq_routines`: 16 places without a handler.
abbrev pub irq_routines : List (Option ℕ)
irq_routines = replicate 16 none

-- The line is not checked; `none` is a write behind the array.
unfoldable pub irq_install_handler : List (Option ℕ) → ℕ → ℕ → Option (List (Option ℕ))
irq_install_handler routines irq handler =
    if ltb irq 16 then some (set routines irq (some handler)) else none

unfoldable pub irq_uninstall_handler : List (Option ℕ) → ℕ → Option (List (Option ℕ))
irq_uninstall_handler routines irq = if ltb irq 16 then some (set routines irq none) else none

-- `irq_handler`: the handler that is called, and what is written to the ports behind it. The outer `none`
-- is a read outside the array.
unfoldable pub irq_handler : List (Option ℕ) → ℕ → Option (Option ℕ × List Outportb)
irq_handler routines int_no = do
  handler ← get_elem? routines ((int_no + 2 ^ 32 - 32) % 2 ^ 32)
  some (handler, (pic_master_port_cmd, 0x20) ∷ (pic_master_port_data, 0x20) ∷ [])
