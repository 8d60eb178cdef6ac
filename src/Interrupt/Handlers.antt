-- ===== src/Interrupt/Handlers.antt =====
-- The handlers that core/src/interrupt.c has itself, and what an interrupt comes to when one other
-- handler is registered.
use skip_os.Common.{
  ℕ, ◌<◌, ◌≡◌, refl, ap, inl, inr, Bool, true, false, Run, ok, halted, ◌>>=◌, ◌>>◌, assert, ◌==◌,
  if◌then◌else◌, Bool-cases,
}
use skip_os.Ports.{Ports}
use skip_os.Interrupt.{
  Handler, def_irq, div_zero, double_fault, page_fault, gen_proc, registered, irq_cnt, set_handler,
  isr_helper, end_of_interrupt, IrqState, init, df_int_num, de_int_num, gp_int_num, pf_int_num,
}
use skip_os.Interrupt.Idt.{handler_of, init-table}

module _ (ports : Ports) (call_registered : ℕ → ℕ → ℕ → ℕ → ports.Device → Run ports.Device) where
  open ports use {Device}

  -- The handlers of the file print and stop the machine, as interrupts are off in them; the assertion
  -- of the page fault handler assigns and does not compare. Its `int 14` comes before the text.
  unfoldable pub call : Handler → ℕ → ℕ → ℕ → Device → Run Device
  call def_irq irq_num error arg d = halted
  call double_fault irq_index error arg d = assert (irq_index == df_int_num) >> halted
  call div_zero irq_index error arg d = assert (irq_index == de_int_num) >> halted
  call page_fault irq_index error arg d = halted
  call gen_proc irq_index error arg d = assert (irq_index == gp_int_num) >> halted
  call (registered n) irq_index error arg d = call_registered n irq_index error arg d

  own_halts : (b : Bool) → Path (Run Device) (assert b >> halted) halted
  own_halts true = refl
  own_halts false = refl

  own_stops : (i error arg : ℕ) (d : Device) → call (handler_of i) i error arg d ≡ halted
  unfolding call
  own_stops i error arg d = elim (Bool-cases (i == df_int_num)) [
    | inl e1 ↦ rw e1 (own_halts (i == df_int_num))
    | inr n1 ↦ elim (Bool-cases (i == de_int_num)) [
      | inl e2 ↦ rw (n1, e2) (own_halts (i == de_int_num))
      | inr n2 ↦ elim (Bool-cases (i == pf_int_num)) [
        | inl e3 ↦ rw (n1, n2, e3) refl
        | inr n3 ↦ elim (Bool-cases (i == gp_int_num)) [
          | inl e4 ↦ rw (n1, n2, n3, e4) (own_halts (i == gp_int_num))
          | inr n4 ↦ rw (n1, n2, n3, n4) refl
        ]
      ]
    ]
  ]

  -- After `IRQ_init` and the registration of one handler, its interrupt runs it with its argument and
  -- is then ended, and every other interrupt stops the machine.
  pub set_handler-isr_helper :
      (isr_table : ℕ → ℕ) (s : IrqState ports) (k n arg i error : ℕ) (d : Device)
      → i < irq_cnt
      → isr_helper ports call
          (set_handler k (registered n) arg (init ports isr_table s).table)
          i
          error
          d
        ≡ (if i == k
            then (call_registered n i error arg d >>= λ d1. ok (end_of_interrupt ports i d1))
            else halted)
  unfolding isr_helper set_handler call
  set_handler-isr_helper isr_table s k n arg i error d h = elim (Bool-cases (i == k)) [
    | inl here ↦ rw (isr_helper, set_handler, call, here) refl
    | inr other ↦
        rw (isr_helper, set_handler, other, init-table ports isr_table s i h)
          (ap (λ (r : Run Device). r >>= λ d1. ok (end_of_interrupt ports i d1))
            (own_stops i error 0 d))
  ]
