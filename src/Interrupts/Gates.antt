-- ===== src/Interrupts/Gates.antt =====
-- The interrupt descriptor table of bootloader/stage2/idt.c and irq.c after both are installed.
use dalek.Base.{
  ℕ, zero, suc, ◌+◌, ◌-◌, ◌≤◌, ◌<◌, ◌≡◌, ◌≢◌, refl, ap, sym, ◌∙◌, Bool-cases, ◌⊎◌, inl, inr, some,
  List, ltb, if◌then◌else◌, length, length-set, get_elem?, set, get_elem?-set_self,
  get_elem?-set_ne, replicate, length-replicate, arith,
}
use dalek.Interrupts.{
  IdtEntry, gate, idt_set_gate, set_gates, idt_install, irq_install, empty_entry, idt_present,
  idt_ring_0,
}

-- A gate of the loader.
abbrev pub gate_to : ℕ → IdtEntry
gate_to base = gate base 0x08 (idt_present + idt_ring_0)

set_gates-length :
    (routine : ℕ → ℕ) (num k n : ℕ) (idt : List IdtEntry)
    → length (set_gates routine num k n idt) ≡ length idt
unfolding set_gates idt_set_gate
set_gates-length routine num k zero idt = refl
set_gates-length routine num k (suc n) idt =
    set_gates-length routine (num + 1) (k + 1) n (set idt num (gate_to (routine k)))
    ∙ length-set idt num (gate_to (routine k))

set_gates-others :
    (routine : ℕ → ℕ) (num k n : ℕ) (idt : List IdtEntry) (j : ℕ)
    → (j < num) ⊎ (num + n ≤ j)
    → get_elem? (set_gates routine num k n idt) j ≡ get_elem? idt j
unfolding set_gates idt_set_gate
set_gates-others routine num k zero idt j h = refl
set_gates-others routine num k (suc n) idt j h =
    let other : num ≢ j = omega arith in
    let rest : (j < num + 1) ⊎ (num + 1 + n ≤ j) = omega arith in
    set_gates-others routine (num + 1) (k + 1) n (set idt num (gate_to (routine k))) j rest
    ∙ get_elem?-set_ne idt (gate_to (routine k)) other

set_gates-set :
    (routine : ℕ → ℕ) (num k n : ℕ) (idt : List IdtEntry) (i : ℕ)
    → i < n
    → num + n ≤ length idt
    → get_elem? (set_gates routine num k n idt) (num + i) ≡ some (gate_to (routine (k + i)))
unfolding set_gates idt_set_gate
set_gates-set routine num k zero idt i h l = absurd (omega arith)
set_gates-set routine num k (suc n) idt zero h l =
    let first : num + 0 ≡ num = omega arith in
    let same : k ≡ k + 0 = omega arith in
    ap
      (λ j. get_elem? (set_gates routine (num + 1) (k + 1) n (set idt num (gate_to (routine k)))) j)
      first
    ∙ set_gates-others routine (num + 1) (k + 1) n (set idt num (gate_to (routine k))) num
        (inl (omega arith))
    ∙ get_elem?-set_self idt num (gate_to (routine k)) (omega arith)
    ∙ ap (λ j. some (gate_to (routine j))) same
set_gates-set routine num k (suc n) idt (suc i) h l =
    let moved : num + suc i ≡ num + 1 + i = omega arith in
    let next : k + 1 + i ≡ k + suc i = omega arith in
    let room : num + 1 + n ≤ length (set idt num (gate_to (routine k))) =
      omega (arith, length-set idt num (gate_to (routine k))) in
    ap
      (λ j. get_elem? (set_gates routine (num + 1) (k + 1) n (set idt num (gate_to (routine k)))) j)
      moved
    ∙ set_gates-set routine (num + 1) (k + 1) n (set idt num (gate_to (routine k))) i (omega arith)
        room
    ∙ ap (λ j. some (gate_to (routine j))) next

get_elem?-replicate : (n j : ℕ) (e : IdtEntry) → j < n → get_elem? (replicate n e) j ≡ some e
get_elem?-replicate zero j e h = absurd (omega arith)
get_elem?-replicate (suc n) zero e h = refl
get_elem?-replicate (suc n) (suc j) e h = get_elem?-replicate n j e (omega arith)

-- The table when both parts are installed.
abbrev pub installed : ℕ → (ℕ → ℕ) → (ℕ → ℕ) → List IdtEntry
installed address isr irq = irq_install irq (idt_install address isr).1

-- After both are installed, the exceptions 0 to 31 go to the exception routines in order, the interrupts
-- 32 to 47 to the routines of the lines 0 to 15 in order, and every other entry up to 255 is empty.
pub installed_lem :
    (address : ℕ) (isr irq : ℕ → ℕ) (j : ℕ)
    → j < 256
    → get_elem? (installed address isr irq) j
      ≡ some (
          if ltb j 32
          then gate_to (isr j)
          else if ltb j 48
          then gate_to (irq (j - 32))
          else empty_entry)
unfolding idt_install irq_install
installed_lem address isr irq j h =
    let table = set_gates isr 0 0 32 (replicate 256 empty_entry) in
    let room : length table ≡ 256 =
      set_gates-length isr 0 0 32 (replicate 256 empty_entry) ∙ length-replicate 256 empty_entry in
    elim (Bool-cases (ltb j 32)) [
      | inl exception ↦
          let e : 0 + j ≡ j = omega arith in
          rw exception (
            set_gates-others irq 32 0 16 table j (ground arith)
            ∙ ap (λ k. get_elem? table k) (sym e)
            ∙ set_gates-set isr 0 0 32 (replicate 256 empty_entry) j (ground arith)
                (omega (arith, length-replicate 256 empty_entry))
            ∙ ap (λ k. some (gate_to (isr k))) e)
      | inr above ↦ elim (Bool-cases (ltb j 48)) [
        | inl line ↦
            let e : j ≡ 32 + (j - 32) = ground arith in
            let f : 0 + (j - 32) ≡ j - 32 = omega arith in
            rw (above, line)
              (ap (λ k. get_elem? (set_gates irq 32 0 16 table) k) e
                ∙ set_gates-set irq 32 0 16 table (j - 32) (ground arith) (omega (arith, room))
                ∙ ap (λ k. some (gate_to (irq k))) f)
        | inr rest ↦
            rw (above, rest)
              (set_gates-others irq 32 0 16 table j (ground arith)
                ∙ set_gates-others isr 0 0 32 (replicate 256 empty_entry) j (ground arith)
                ∙ get_elem?-replicate 256 j empty_entry h)
      ]
    ]
