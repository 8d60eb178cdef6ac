-- ===== src/Interrupt.antt =====
-- The interrupt system, core/src/interrupt.c: the lines of the two controllers, the handler table
-- and the interrupt descriptor table.
pub mod Lines
pub mod Idt
pub mod Handlers
mod Tests
use skip_os.Common.{
  ℕ, zero, suc, ◌+◌, ◌-◌, ◌*◌, ◌/◌, ◌%◌, ◌^◌, Bool, true, false, not, ◌&&◌, ◌||◌, Run, ok, ◌>>=◌,
  ◌>>◌, assert, ltb, leb, ◌==◌, if◌then◌else◌, bit_and, bit_or,
}
use skip_os.Ports.{Ports}
use skip_os.Pic.{
  lines_per_pic, set_pic1_mask, set_pic2_mask, get_pic1_mask, get_pic2_mask, disable_all_pic_irqs,
  send_pic1_eoi, send_pic2_eoi, remap,
}

abbrev pub irq_cnt : ℕ
irq_cnt = 256

abbrev pub external_int_base : ℕ
external_int_base = 0x20

abbrev pub external_int_cnt : ℕ
external_int_cnt = 16

abbrev pub external_int_max : ℕ
external_int_max = external_int_base + external_int_cnt - 1

abbrev pub de_int_num : ℕ
de_int_num = 0x0

abbrev pub df_int_num : ℕ
df_int_num = 0x8

abbrev pub gp_int_num : ℕ
gp_int_num = 0xD

abbrev pub pf_int_num : ℕ
pf_int_num = 0xE

abbrev pub pic1_cascade_line : ℕ
pic1_cascade_line = 2

abbrev pub rflags_intr_enabled_msk : ℕ
rflags_intr_enabled_msk = 512

-- `IRQ_are_interrupts_enabled`, given the flags register that `get_rflags` reads: they are kept in a
-- `u8` before the test.
unfoldable pub are_interrupts_enabled : ℕ → Bool
are_interrupts_enabled rflags = not (bit_and (rflags % 256) rflags_intr_enabled_msk == 0)

-- `CLI` and `STI`: bit 9 of the flags register.
unfoldable pub cli : ℕ → ℕ
cli rflags = rflags - 512 * (rflags / 512 % 2)

unfoldable pub sti : ℕ → ℕ
sti rflags = rflags - 512 * (rflags / 512 % 2) + 512

abbrev pub is_external : ℕ → Bool
is_external irq_index = leb external_int_base irq_index && leb irq_index external_int_max

-- `1 << line` and its complement in a `u8`.
abbrev pub line_bit : ℕ → ℕ
line_bit line = 2 ^ line

abbrev pub line_mask : ℕ → ℕ
line_mask line = 255 - 2 ^ line

unfoldable pub get_pic_line_index : ℕ → Run ℕ
get_pic_line_index irq_index = do
  assert (is_external irq_index)
  if ltb (irq_index - external_int_base) lines_per_pic
      then (do
        assert (not (irq_index - external_int_base == 2))
        ok (irq_index - external_int_base))
      else ok (irq_index - external_int_base - lines_per_pic)

-- The mask with the bit of a line cleared, or set.
unfoldable pub line_state : ℕ → ℕ → Bool → ℕ
line_state curr_mask line enable =
    let cleared = bit_and curr_mask (line_mask line) in
    if enable then cleared else bit_or cleared (line_bit line)

module _ (ports : Ports) where
  open ports use {Device}

  unfoldable pub get_irq_mask : ℕ → Device → Run (ℕ × Device)
  get_irq_mask irq_index d = do
    assert (is_external irq_index)
    if ltb (irq_index - external_int_base) lines_per_pic
        then ok (get_pic1_mask ports d)
        else ok (get_pic2_mask ports d)

  unfoldable pub set_irq_line_state : ℕ → Bool → Device → Run Device
  unfolding get_irq_mask
  set_irq_line_state irq_index enable d = do
    assert (is_external irq_index)
    (curr_mask, d1) ← get_irq_mask irq_index d
    line ← get_pic_line_index irq_index
    if ltb (irq_index - external_int_base) lines_per_pic
        then ok (set_pic1_mask ports (line_state curr_mask line enable) d1)
        else ok (set_pic2_mask ports (line_state curr_mask line enable) d1)

  unfoldable pub enable_index : ℕ → Device → Run Device
  enable_index irq_index = set_irq_line_state irq_index true

  unfoldable pub disable_index : ℕ → Device → Run Device
  disable_index irq_index = set_irq_line_state irq_index false

  -- A low bit is enabled.
  unfoldable pub is_enabled : ℕ → Device → Run (Bool × Device)
  unfolding get_irq_mask
  is_enabled irq_index d = do
    (curr_mask, d1) ← get_irq_mask irq_index d
    line ← get_pic_line_index irq_index
    ok (bit_and curr_mask (line_bit line) == 0, d1)

  unfoldable pub end_of_interrupt : ℕ → Device → Device
  end_of_interrupt irq_index d =
      if ltb irq_index external_int_base || ltb external_int_max irq_index
      then d
      else send_pic1_eoi ports (if leb lines_per_pic irq_index then send_pic2_eoi ports d else d)

  unfoldable pub enable_cascade : Device → Device
  enable_cascade d =
      let (curr_mask, d1) = get_pic1_mask ports d in
      set_pic1_mask ports (bit_and curr_mask (line_mask pic1_cascade_line)) d1

-- The handlers of this file, and those that other parts register.
pub data Handler : Type 0 where
  def_irq div_zero double_fault page_fault gen_proc : Handler
  registered : ℕ → Handler

-- `irq_info_t`
pub record IrqInfo : Type 0 where
  pub handler : Handler
  pub arg : ℕ

abbrev pub IrqTable : Type 0
IrqTable = ℕ → IrqInfo

unfoldable pub set_handler : ℕ → Handler → ℕ → IrqTable → IrqTable
set_handler irq_num h a table i = if i == irq_num then record { handler = h; arg = a } else table i

-- The loop of `irqh_populate_table`.
unfoldable pub populate_handlers : ℕ → ℕ → IrqTable → IrqTable
populate_handlers zero i table = table
populate_handlers (suc n) i table =
    populate_handlers n (i + 1) (set_handler (i % 256) def_irq 0 table)

unfoldable pub irqh_populate_table : IrqTable → IrqTable
irqh_populate_table = populate_handlers irq_cnt 0

-- `isr_helper`: the handler of the table runs, with what `call` does for it, and then the interrupt
-- is ended.
unfoldable pub isr_helper :
    (ports : Ports)
    → (Handler → ℕ → ℕ → ℕ → ports.Device → Run ports.Device)
    → IrqTable
    → ℕ
    → ℕ
    → ports.Device
    → Run ports.Device
isr_helper ports call table irq_num error d = do
  d1 ← call (table irq_num).handler irq_num error (table irq_num).arg d
  ok (end_of_interrupt ports irq_num d1)

-- `idt_entry_t`
pub record IdtEntry : Type 0 where
  pub isr_low : ℕ
  pub kernel_cs : ℕ
  pub ist : ℕ
  pub attributes : ℕ
  pub isr_mid : ℕ
  pub isr_high : ℕ
  pub reserved : ℕ

abbrev pub Idt : Type 0
Idt = ℕ → IdtEntry

abbrev pub gdt_offset_kernel_code : ℕ
gdt_offset_kernel_code = 0x08

-- A masked field of an address: `(isr >> s) & (2 ^ w - 1)`.
abbrev pub bits : ℕ → ℕ → ℕ → ℕ
bits x s w = x / 2 ^ s % 2 ^ w

unfoldable pub idt_set_descriptor : ℕ → ℕ → ℕ → Idt → Idt
idt_set_descriptor idt_index isr attributes idt i =
    if i == idt_index
    then record {
      isr_low = bits isr 0 16;
      kernel_cs = gdt_offset_kernel_code;
      ist = 0;
      attributes = attributes;
      isr_mid = bits isr 16 16;
      isr_high = bits isr 32 32;
      reserved = 0;
    }
    else idt i

unfoldable pub set_ist : ℕ → ℕ → Idt → Idt
set_ist n v idt i = if i == n then record (idt i) { ist = v } else idt i

-- The loop of `idt_populate`, with the index as the `u8` argument.
unfoldable pub populate_idt : ℕ → ℕ → (ℕ → ℕ) → Idt → Idt
populate_idt zero i isr_table idt = idt
populate_idt (suc n) i isr_table idt =
    populate_idt n (i + 1) isr_table (idt_set_descriptor (i % 256) (isr_table i) 0x8E idt)

unfoldable pub idt_populate : (ℕ → ℕ) → Idt → Idt
idt_populate isr_table idt =
    set_ist pf_int_num 3
      (set_ist df_int_num 2 (set_ist gp_int_num 1 (populate_idt irq_cnt 0 isr_table idt)))

-- `idtr_t`, and what `idt_load_idtr` loads, given the address of the table of 256 entries of 16 bytes.
pub record Idtr : Type 0 where
  pub limit : ℕ
  pub base : ℕ

unfoldable pub idt_load_idtr : ℕ → Idtr
idt_load_idtr idt_addr = record { limit = 16 * irq_cnt - 1; base = idt_addr }

-- What `IRQ_init` sets up.
pub record IrqState (ports : Ports) : Type 0 where
  pub idt : Idt
  pub table : IrqTable
  pub device : ports.Device

unfoldable pub init : (ports : Ports) → (ℕ → ℕ) → IrqState ports → IrqState ports
init ports isr_table s = record {
  idt = idt_populate isr_table s.idt;
  table = set_handler gp_int_num gen_proc 0 (
      set_handler pf_int_num page_fault 0 (
        set_handler de_int_num div_zero 0
          (set_handler df_int_num double_fault 0 (irqh_populate_table s.table))));
  device =
      enable_cascade ports (disable_all_pic_irqs ports (remap ports external_int_base s.device));
}

-- `IRQ_start`, on the flags register.
unfoldable pub start : ℕ → ℕ
unfolding sti
start rflags = sti rflags
