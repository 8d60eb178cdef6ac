-- ===== src/Interrupt/Idt.antt =====
-- The descriptor table and the handler table after set-up, and the dispatch of an interrupt.
use skip_os.Common.{
  ℕ, zero, suc, ◌+◌, ◌*◌, ◌%◌, ◌^◌, ◌≤◌, ◌<◌, ◌≡◌, ◌≢◌, refl, ◌∙◌, true, Run, ok, ◌>>=◌, ◌==◌,
  ==_refl, if◌then◌else◌, arith, Bool-cases, inl, inr, ne→==_false,
}
use skip_os.Ports.{Ports}
use skip_os.Interrupt.{
  irq_cnt, Idt, IdtEntry, idt_set_descriptor, set_ist, populate_idt, idt_populate, gp_int_num,
  df_int_num, pf_int_num, de_int_num, Handler, def_irq, div_zero, double_fault, page_fault,
  gen_proc, IrqTable, set_handler, populate_handlers, irqh_populate_table, isr_helper,
  end_of_interrupt, IrqState, init, gdt_offset_kernel_code,
}

-- The address that the processor reads out of an entry.
abbrev pub target : IdtEntry → ℕ
target e = e.isr_low + 2 ^ 16 * e.isr_mid + 2 ^ 32 * e.isr_high

-- An entry leads to `isr`, in the kernel's code segment, as an interrupt gate of ring 0.
pub record IsGate (e : IdtEntry) (isr : ℕ) : Type 0 where
  pub leads : target e ≡ isr
  pub segment : e.kernel_cs ≡ gdt_offset_kernel_code
  pub gate : e.attributes ≡ 0x8E
  pub zeros : e.reserved ≡ 0

idt_set_descriptor-IsGate :
    (i isr : ℕ) (idt : Idt)
    → isr < 2 ^ 64
    → IsGate (idt_set_descriptor i isr 0x8E idt i) isr
      × ((idt_set_descriptor i isr 0x8E idt i).ist ≡ 0)
unfolding idt_set_descriptor
idt_set_descriptor-IsGate i isr idt h = rw (==_refl i) (omega arith)

idt_set_descriptor-ne :
    (i j isr a : ℕ) (idt : Idt) → j ≢ i → idt_set_descriptor i isr a idt j ≡ idt j
unfolding idt_set_descriptor
idt_set_descriptor-ne i j isr a idt h = rw (ne→==_false j i h)

-- An entry that is set up, with no stack of its own.
abbrev Plain : IdtEntry → ℕ → Type 0
Plain e isr = IsGate e isr × (e.ist ≡ 0)

-- `set_ist` changes the stack of one entry, and keeps each gate.
set_ist-IsGate :
    (n v i isr : ℕ) (idt : Idt)
    → IsGate (idt i) isr
    → IsGate (set_ist n v idt i) isr
      × ((set_ist n v idt i).ist ≡ (if i == n then v else (idt i).ist))
unfolding set_ist
set_ist-IsGate n v i isr idt g = elim (Bool-cases (i == n)) [
  | inl same ↦
      rw same
        (record { leads = g.leads; segment = g.segment; gate = g.gate; zeros = g.zeros }, refl)
  | inr other ↦ rw other (g, refl)
]

module _ (isr_table : ℕ → ℕ) (fits : (i : ℕ) → isr_table i < 2 ^ 64) where
  -- The entries from `i` on are set, and those below are left.
  populate_idt-below :
      (n i j : ℕ) (idt : Idt) → i + n ≤ irq_cnt → j < i → populate_idt n i isr_table idt j ≡ idt j
  unfolding populate_idt
  populate_idt-below zero i j idt h lt = refl
  populate_idt-below (suc n) i j idt h lt =
      populate_idt-below n (i + 1) j (idt_set_descriptor (i % 256) (isr_table i) 0x8E idt)
        (omega arith) (omega arith)
      ∙ idt_set_descriptor-ne (i % 256) j (isr_table i) 0x8E idt (omega arith)

  populate_idt-Plain :
      (n i j : ℕ) (idt : Idt)
      → i + n ≤ irq_cnt
      → i ≤ j
      → j < i + n
      → Plain (populate_idt n i isr_table idt j) (isr_table j)
  unfolding populate_idt
  populate_idt-Plain zero i j idt h le lt = absurd (omega arith)
  populate_idt-Plain (suc n) i j idt h le lt = elim (Bool-cases (i == j)) [
    | inl here ↦
        let same : i ≡ j = ground arith in
        let index : i % 256 ≡ j = omega arith in
        rw
          (
            populate_idt-below n (i + 1) j (idt_set_descriptor (i % 256) (isr_table i) 0x8E idt)
                (omega arith) (omega arith),
            index,
            same,
          )
          (idt_set_descriptor-IsGate j (isr_table j) idt (fits j))
    | inr later ↦
        populate_idt-Plain n (i + 1) j (idt_set_descriptor (i % 256) (isr_table i) 0x8E idt)
          (omega arith) (ground arith) (omega arith)
  ]

  -- The interrupt stack of an entry: page faults, double faults and protection faults have their own.
  abbrev pub stack_of : ℕ → ℕ
  stack_of i =
      if i == gp_int_num then 1 else if i == df_int_num then 2 else if i == pf_int_num then 3 else 0

  -- After `idt_populate` each of the 256 entries is a gate that leads to the routine of its index in
  -- `isr_table`; entries 13, 8 and 14 use the interrupt stacks 1, 2 and 3, and the others none.
  pub idt_populate-IsGate :
      (i : ℕ) (idt : Idt)
      → i < irq_cnt
      → IsGate (idt_populate isr_table idt i) (isr_table i)
        × ((idt_populate isr_table idt i).ist ≡ stack_of i)
  unfolding idt_populate
  idt_populate-IsGate i idt h =
      let idt0 = populate_idt irq_cnt 0 isr_table idt in
      let p0 = populate_idt-Plain irq_cnt 0 i idt (omega arith) (omega arith) (omega arith) in
      let p1 = set_ist-IsGate gp_int_num 1 i (isr_table i) idt0 p0.0 in
      let p2 = set_ist-IsGate df_int_num 2 i (isr_table i) (set_ist gp_int_num 1 idt0) p1.0 in
      let p3 =
        set_ist-IsGate pf_int_num 3 i (isr_table i)
          (set_ist df_int_num 2 (set_ist gp_int_num 1 idt0)) p2.0 in
      (p3.0, ground (arith, p0.1, p1.1, p2.1, p3.1))

set_handler-ne :
    (i j a : ℕ) (h : Handler) (table : IrqTable) → j ≢ i → set_handler i h a table j ≡ table j
unfolding set_handler
set_handler-ne i j a h table ne = rw (ne→==_false j i ne)

populate_handlers-below :
    (n i j : ℕ) (table : IrqTable)
    → i + n ≤ irq_cnt
    → j < i
    → populate_handlers n i table j ≡ table j
unfolding populate_handlers
populate_handlers-below zero i j table h lt = refl
populate_handlers-below (suc n) i j table h lt =
    populate_handlers-below n (i + 1) j (set_handler (i % 256) def_irq 0 table) (omega arith)
      (omega arith)
    ∙ set_handler-ne (i % 256) j 0 def_irq table (omega arith)

populate_handlers-eq :
    (n i j : ℕ) (table : IrqTable)
    → i + n ≤ irq_cnt
    → i ≤ j
    → j < i + n
    → populate_handlers n i table j ≡ record { handler = def_irq; arg = 0 }
unfolding populate_handlers set_handler
populate_handlers-eq zero i j table h le lt = absurd (omega arith)
populate_handlers-eq (suc n) i j table h le lt = elim (Bool-cases (i == j)) [
  | inl here ↦
      let hit : (j == i % 256) ≡ true = ground arith in
      populate_handlers-below n (i + 1) j (set_handler (i % 256) def_irq 0 table) (omega arith)
        (ground arith)
      ∙ rw hit refl
  | inr later ↦
      populate_handlers-eq n (i + 1) j (set_handler (i % 256) def_irq 0 table) (omega arith)
        (ground arith) (omega arith)
]

-- The handler that `IRQ_init` leaves for each interrupt.
abbrev pub handler_of : ℕ → Handler
handler_of i =
    if i == df_int_num
    then double_fault
    else if i == de_int_num
    then div_zero
    else if i == pf_int_num
    then page_fault
    else if i == gp_int_num
    then gen_proc
    else def_irq

pub init-table :
    (ports : Ports) (isr_table : ℕ → ℕ) (s : IrqState ports) (i : ℕ)
    → i < irq_cnt
    → (init ports isr_table s).table i ≡ record { handler = handler_of i; arg = 0 }
unfolding init irqh_populate_table set_handler
init-table ports isr_table s i h = ground (arith, populate_handlers-eq irq_cnt 0 i s.table)

-- After `IRQ_init` an interrupt runs the handler of its kind, the default one but for the four
-- exceptions, with a null argument, and is then ended.
pub init-isr_helper :
    (ports : Ports) (call : Handler → ℕ → ℕ → ℕ → ports.Device → Run ports.Device)
    (isr_table : ℕ → ℕ) (s : IrqState ports) (i error : ℕ) (d : ports.Device)
    → i < irq_cnt
    → isr_helper ports call (init ports isr_table s).table i error d
      ≡ (call (handler_of i) i error 0 d >>= λ d1. ok (end_of_interrupt ports i d1))
unfolding isr_helper
init-isr_helper ports call isr_table s i error d h = rw (init-table ports isr_table s i h)
