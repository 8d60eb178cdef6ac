-- ===== src/Interrupt/Tests.antt =====
-- The interrupt system with controllers that keep what is written to their ports.
use skip_os.Common.{
  ℕ, ◌+◌, ◌%◌, ◌^◌, ◌<◌, ◌≡◌, refl, true, Run, ok, halted, ◌>>=◌, ◌==◌, if◌then◌else◌, arith,
}
use skip_os.Ports.{latches}
use skip_os.Interrupt.{
  set_irq_line_state, is_enabled, end_of_interrupt, def_irq, registered, set_handler, IrqState,
  IdtEntry, init, isr_helper, idt_populate,
}
use skip_os.Interrupt.Lines.{Masks, IsLine, enabled, set_irq_line_state_lem}
use skip_os.Interrupt.Idt.{IsGate, idt_populate-IsGate}
use skip_os.Interrupt.Handlers.{call, set_handler-isr_helper}

latches-byte : (v : ℕ) → v < 256 → v % 256 ≡ v
latches-byte v h = omega arith

latches-lt : (v : ℕ) → v % 256 < 256
latches-lt v = omega arith

abbrev latches-Masks : Masks latches
latches-Masks = record {
  mask1 = λ d. d 0x21 % 256;
  mask2 = λ d. d 0xA1 % 256;
  read1 = λ d. refl;
  read2 = λ d. refl;
  write1 = λ v d h. latches-byte v h;
  write2 = λ v d h. latches-byte v h;
  keep1 = λ v d. refl;
  keep2 = λ v d. refl;
  byte1 = λ d. latches-lt (d 0x21);
  byte2 = λ d. latches-lt (d 0xA1);
}

-- All lines off.
abbrev all_off : ℕ → ℕ
all_off p = 255

set_irq_line_state_lem_example :
    (d' : ℕ → ℕ) × (set_irq_line_state latches 0x21 true all_off ≡ ok d')
    × ((j : ℕ)
        → IsLine j
        → is_enabled latches j d'
          ≡ ok (if j == 0x21 then true else enabled latches latches-Masks j all_off, d'))
set_irq_line_state_lem_example =
    set_irq_line_state_lem latches latches-Masks 0x21 true all_off (omega arith)

abbrev routines : ℕ → ℕ
routines i = 0x100000 + i % 256

routines-fit : (i : ℕ) → routines i < 2 ^ 64
routines-fit i = omega arith

abbrev empty_entry : IdtEntry
empty_entry = record {
  isr_low = 0;
  kernel_cs = 0;
  ist = 0;
  attributes = 0;
  isr_mid = 0;
  isr_high = 0;
  reserved = 0;
}

idt_populate-IsGate_example :
    IsGate (idt_populate routines (λ i. empty_entry) 13) 0x10000d
    × ((idt_populate routines (λ i. empty_entry) 13).ist ≡ 1)
idt_populate-IsGate_example =
    idt_populate-IsGate routines routines-fit 13 (λ i. empty_entry) (omega arith)

-- What the keyboard's handler is taken to do here: nothing.
abbrev keyboard : ℕ → ℕ → ℕ → ℕ → (ℕ → ℕ) → Run (ℕ → ℕ)
keyboard n i error arg d = ok d

abbrev cold : IrqState latches
cold = record {
  idt = λ i. empty_entry;
  table = λ i. record { handler = def_irq; arg = 0 };
  device = all_off;
}

set_handler-isr_helper_example :
    isr_helper latches
      (call latches keyboard)
      (set_handler 0x21 (registered 1) 0x5000 (init latches routines cold).table)
      0x21
      0
      all_off
    ≡ (if 0x21 == 0x21
        then (keyboard 1 0x21 0 0x5000 all_off >>= λ d1. ok (end_of_interrupt latches 0x21 d1))
        else halted)
set_handler-isr_helper_example =
    set_handler-isr_helper latches keyboard routines cold 0x21 1 0x5000 0x21 0 all_off (omega arith)
