-- ===== src/Serial.antt =====
-- The serial port, core/src/serial.c: a ring of 1024 bytes between the writers and the interrupt
-- handler. The pointers `c` and `p` into the ring are its indices.
pub mod Queue
pub mod Refine
pub mod Output
pub mod Session
mod Tests
use skip_os.Common.{
  ℕ, zero, suc, ◌+◌, ◌-◌, ◌/◌, ◌%◌, Bool, true, false, not, ◌&&◌, ◌||◌, Run, ok, halted, ◌>>=◌,
  ◌>>◌, assert, ltb, leb, ◌==◌, if◌then◌else◌, Option, none, some, List, [], ◌∷◌, get_or, set,
  bit_and,
}
use skip_os.Ports.{Ports}
use skip_os.Interrupt.{
  are_interrupts_enabled, cli, sti, Handler, registered, IrqTable, set_handler, enable_index,
}

abbrev pub com1_iop : ℕ
com1_iop = 0x3F8

abbrev pub com1_irq_num : ℕ
com1_irq_num = 0x24

abbrev pub lcr_offset : ℕ
lcr_offset = 3

abbrev pub lsr_offset : ℕ
lsr_offset = 5

abbrev pub tran_offset : ℕ
tran_offset = 0

abbrev pub int_en_reg_offset : ℕ
int_en_reg_offset = 1

abbrev pub lsby_div_offset : ℕ
lsby_div_offset = 0

abbrev pub msby_div_offset : ℕ
msby_div_offset = 1

abbrev pub iir_offset : ℕ
iir_offset = 2

abbrev pub fifo_cntr_reg_offset : ℕ
fifo_cntr_reg_offset = 2

abbrev pub baud_divisor : ℕ
baud_divisor = 115200 / 9600

abbrev pub buff_size : ℕ
buff_size = 1024

-- `ser_state_t`
pub record SerState : Type 0 where
  pub buff : List ℕ
  pub c : ℕ
  pub p : ℕ
  pub busy : Bool

-- `assert_noprint(!IRQ_are_interrupts_enabled())`, given the flags register.
abbrev pub assert_no_interrupts : ℕ → Run (Unit {0})
assert_no_interrupts rflags = assert (not (are_interrupts_enabled rflags))

unfoldable pub is_buff_empty : ℕ → SerState → Run Bool
is_buff_empty rflags s = do assert_no_interrupts rflags; ok (s.c == s.p)

-- `p == c - 1`, or `p` is the last place and `c` the first.
unfoldable pub is_buff_full : ℕ → SerState → Run Bool
is_buff_full rflags s = do
  assert_no_interrupts rflags
  ok (s.p + 1 == s.c || s.p == s.c + buff_size - 1)

-- `ptr++`, back to the first place behind the last.
unfoldable pub advance : ℕ → ℕ
advance i = if i + 1 == buff_size then 0 else i + 1

-- The flags register in the critical section of `SER_write` and `SER_flush`, and behind it.
unfoldable pub mask_ints : ℕ → ℕ
mask_ints rflags = if are_interrupts_enabled rflags then cli rflags else rflags

unfoldable pub restore_ints : ℕ → ℕ
restore_ints rflags =
    if are_interrupts_enabled rflags then sti (mask_ints rflags) else mask_ints rflags

-- The byte that goes through `c_val_ptr`, or `none` for the result false.
unfoldable pub consume : ℕ → SerState → Run (Option ℕ × SerState)
unfolding advance
consume rflags s = do
  assert_no_interrupts rflags
  empty ← is_buff_empty rflags s
  ok (if empty then (none, s) else (some (get_or s.buff s.c 0), record s { c = advance s.c }))

unfoldable pub produce : ℕ → ℕ → SerState → Run (Bool × SerState)
unfolding advance
produce rflags p_val s = do
  assert_no_interrupts rflags
  full ← is_buff_full rflags s
  ok (
      if full
      then (false, s)
      else (true, record s { buff = set s.buff s.p p_val; p = advance s.p }))

-- The loop of `SER_write`: it goes on while there are bytes and `produce` takes them.
unfoldable pub produce_all : ℕ → List ℕ → SerState → Run SerState
produce_all rflags [] s = ok s
produce_all rflags (x ∷ xs) s = do
  (done, s1) ← produce rflags x s
  elim done [ true ↦ produce_all rflags xs s1 | false ↦ ok s1 ]

module _ (ports : Ports) where
  open ports use {Device, outb, inb}

  unfoldable pub write_ser_reg : ℕ → ℕ → Device → Device
  write_ser_reg offset val d = outb (com1_iop + offset) val d

  unfoldable pub read_ser_reg : ℕ → Device → ℕ × Device
  read_ser_reg offset d = inb (com1_iop + offset) d

  -- The line status register is read only while the port is busy.
  unfoldable pub poll_busy : SerState → Device → SerState × Device
  unfolding read_ser_reg
  poll_busy s d =
      let (lsr, d1) = read_ser_reg lsr_offset d in
      if s.busy then (record s { busy = bit_and lsr 32 == 0 }, d1) else (s, d)

  -- The byte that was consumed, if any, goes to the transmitter, and the port is then busy.
  unfoldable pub send_out : Option ℕ × SerState → Device → SerState × Device
  send_out (none, s) d = (s, d)
  send_out (some v, s) d = (record s { busy = true }, write_ser_reg tran_offset v d)

  unfoldable pub start_write : ℕ → SerState → Device → Run (SerState × Device)
  unfolding send_out
  start_write rflags s d =
      if s.busy then ok (s, d) else (do r ← consume rflags s; ok (send_out r d))

  unfoldable pub init_hw_write : ℕ → SerState → Device → Run (SerState × Device)
  init_hw_write rflags s d = let (s1, d1) = poll_busy s d in start_write rflags s1 d1

  -- What `SER_write` and `SER_flush` work on: the ring, the device and the flags register.
  pub record Machine : Type 0 where
    pub ser : SerState
    pub device : Device
    pub rflags : ℕ

  unfoldable pub write : List ℕ → Machine → Run Machine
  write buff m = do
    s1 ← produce_all (mask_ints m.rflags) buff m.ser
    (s2, d) ← init_hw_write (mask_ints m.rflags) s1 m.device
    ok (record { ser = s2; device = d; rflags = restore_ints m.rflags })

  -- The loop of `SER_flush`; `none` is fuel run out.
  unfoldable pub flush_loop : ℕ → ℕ → SerState → Device → Option (Run (SerState × Device))
  flush_loop zero rflags s d = none
  flush_loop (suc n) rflags s d = elim (consume rflags s) [
    | halted ↦ some halted
    | ok (out_val, s1) ↦ elim out_val [
      | none ↦ some (ok (s1, d))
      | some v ↦ flush_loop n rflags s1 (write_ser_reg tran_offset v d)
    ]
  ]

  -- The part of `SER_flush` behind its loop.
  unfoldable pub flush_end : ℕ → Option (Run (SerState × Device)) → Option (Run Machine)
  flush_end rflags none = none
  flush_end rflags (some r) = some (do
    (s, d) ← r
    ok (record { ser = record s { busy = false }; device = d; rflags = restore_ints rflags }))

  unfoldable pub flush : Machine → Option (Run Machine)
  unfolding flush_end
  flush m = flush_end m.rflags (flush_loop buff_size (mask_ints m.rflags) m.ser m.device)

  -- The handler reads its state through `arg`, which `SER_init` registers.
  unfoldable pub ser_irq_handler : ℕ → Machine → Run Machine
  ser_irq_handler irq_index m =
      let (iir_val, d1) = read_ser_reg iir_offset m.device in
      let int_state = iir_val / 2 % 256 in
      do
        assert (irq_index == com1_irq_num)
        if int_state == 3
            then ok (record m { device = (read_ser_reg lsr_offset d1).1 })
            else (if int_state == 1
                then (do
                  (s2, d2) ← init_hw_write m.rflags (record m.ser { busy = false }) d1
                  ok (record m { ser = s2; device = d2 }))
                else ok (record m { device = d1 }))

  -- `SER_init`, with the handler table; the handler is number 2 of those that other parts register.
  unfoldable pub init : Machine → IrqTable → Run (Machine × IrqTable)
  unfolding write_ser_reg
  init m table =
      let d1 = write_ser_reg lcr_offset 64 m.device in
      let d2 = write_ser_reg lsby_div_offset (baud_divisor % 256) d1 in
      let d3 = write_ser_reg msby_div_offset (baud_divisor / 256) d2 in
      let d4 = write_ser_reg lcr_offset 3 d3 in
      let d5 = write_ser_reg int_en_reg_offset 2 d4 in
      let d6 = write_ser_reg fifo_cntr_reg_offset 0 d5 in
      do
        d7 ← enable_index ports com1_irq_num d6
        ok (
          record m { ser = record m.ser { c = 0; p = 0; busy = false }; device = d7 },
          set_handler com1_irq_num (registered 2) 0 table,
        )
