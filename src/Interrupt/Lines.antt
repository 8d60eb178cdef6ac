-- ===== src/Interrupt/Lines.antt =====
-- The interrupt lines: what enabling, disabling and asking do to the masks of the controllers.
use skip_os.Common.{
  ℕ, ◌-◌, ◌%◌, ◌≤◌, ◌<◌, ◌≡◌, ◌≢◌, refl, sym, ap, ◌∙◌, Bool, true, false, not, ok, halted, ltb,
  ◌==◌, if◌then◌else◌, bit_and, arith, table_holds, table_lookup, table_lookup_pair, Bool-cases,
  inl, inr, ◌⊎◌,
}
use skip_os.Ports.{Ports}
use skip_os.Pic.{
  pic1_data_port, pic2_data_port, pic1_cmd_port, pic2_cmd_port, lines_per_pic, set_pic1_mask,
  set_pic2_mask, get_pic1_mask, get_pic2_mask, send_pic1_eoi, send_pic2_eoi, eoi_cmd,
}
use skip_os.Interrupt.{
  are_interrupts_enabled, external_int_base, external_int_max, is_external, line_bit, line_state,
  get_pic_line_index, set_irq_line_state, is_enabled, end_of_interrupt,
}

-- What the controllers document once they are set up: a read of the data port gives the mask that
-- was last written to it, a byte.
pub record Masks (ports : Ports) : Type 0 where
  pub mask1 : ports.Device → ℕ
  pub mask2 : ports.Device → ℕ
  pub read1 : (d : ports.Device) → ports.inb pic1_data_port d ≡ (mask1 d, d)
  pub read2 : (d : ports.Device) → ports.inb pic2_data_port d ≡ (mask2 d, d)
  pub write1 : (v : ℕ) (d : ports.Device) → v < 256 → mask1 (ports.outb pic1_data_port v d) ≡ v
  pub write2 : (v : ℕ) (d : ports.Device) → v < 256 → mask2 (ports.outb pic2_data_port v d) ≡ v
  pub keep1 : (v : ℕ) (d : ports.Device) → mask1 (ports.outb pic2_data_port v d) ≡ mask1 d
  pub keep2 : (v : ℕ) (d : ports.Device) → mask2 (ports.outb pic1_data_port v d) ≡ mask2 d
  pub byte1 : (d : ports.Device) → mask1 d < 256
  pub byte2 : (d : ports.Device) → mask2 d < 256

-- The bit of a line is low.
abbrev low : ℕ → ℕ → Bool
low mask line = bit_and mask (line_bit line) == 0

abbrev agree : Bool → Bool → Bool
agree true b = b
agree false b = not b

agree→eq : (a b : Bool) → agree a b ≡ true → a ≡ b
agree→eq true b h = sym h
agree→eq false true h = cc
agree→eq false false h = refl

-- What `line_state` does to each bit, checked for every mask and every pair of lines.
abbrev line_row : Bool → ℕ → ℕ → ℕ → Bool
line_row enable mask line other =
    agree (low (line_state mask line enable) other)
      (if other == line then enable else low mask other)

line_table :
    (enable : Bool)
    → table_holds (λ m. table_holds (λ k. table_holds (line_row enable m k) 8) 8) 256 ≡ true
unfolding line_state table_holds
line_table true = refl
line_table false = refl

low-line_state :
    (enable : Bool) (m k j : ℕ)
    → m < 256
    → k < 8
    → j < 8
    → low (line_state m k enable) j ≡ (if j == k then enable else low m j)
low-line_state enable m k j hm hk hj = agree→eq _ _ (
    table_lookup (line_row enable m k) 8
      (table_lookup_pair 256 8 (λ m k. table_holds (line_row enable m k) 8) (line_table enable) m k
        hm hk)
      j hj)

byte_table :
    (enable : Bool)
    → table_holds (λ m. table_holds (λ k. ltb (line_state m k enable) 256) 8) 256 ≡ true
unfolding line_state table_holds
byte_table true = refl
byte_table false = refl

line_state-lt : (enable : Bool) (m k : ℕ) → m < 256 → k < 8 → line_state m k enable < 256
line_state-lt enable m k hm hk =
    let h =
      table_lookup_pair 256 8 (λ m k. ltb (line_state m k enable) 256) (byte_table enable) m k hm
        hk in
    ground (arith, h)

-- A line that may be switched: of either controller, but not the cascade.
abbrev pub IsLine : ℕ → Type 0
IsLine i = (external_int_base ≤ i) × (i ≤ external_int_max) × (i ≢ 0x22)

-- The line number at its controller.
abbrev line_of : ℕ → ℕ
line_of i =
    if ltb (i - external_int_base) lines_per_pic
    then i - external_int_base
    else i - external_int_base - lines_per_pic

get_pic_line_index-eq : (i : ℕ) → IsLine i → get_pic_line_index i ≡ ok (line_of i)
unfolding get_pic_line_index
get_pic_line_index-eq i h = ground arith

line_of-lt : (i : ℕ) → IsLine i → line_of i < 8
line_of-lt i h = ground arith

module _ (ports : Ports) (masks : Masks ports) where
  open ports use {Device}
  open masks use {mask1, mask2, read1, read2, write1, write2, keep1, keep2, byte1, byte2}

  -- Whether the mask of the line's controller enables it.
  abbrev pub enabled : ℕ → Device → Bool
  enabled i d =
      low (if ltb (i - external_int_base) lines_per_pic then mask1 d else mask2 d) (line_of i)

  is_enabled-enabled : (i : ℕ) (d : Device) → IsLine i → is_enabled ports i d ≡ ok (enabled i d, d)
  unfolding is_enabled get_pic1_mask get_pic2_mask
  is_enabled-enabled i d h =
      let ext : is_external i ≡ true = ground arith in
      elim (Bool-cases (ltb (i - external_int_base) lines_per_pic)) [
        | inl first ↦ rw (ext, first, read1 d, get_pic_line_index-eq i h, first)
        | inr second ↦ rw (ext, second, read2 d, get_pic_line_index-eq i h, second)
      ]

  -- The device after a line of the first, or the second, controller was set.
  abbrev line_set : ℕ → Bool → Device → Device
  line_set i enable d =
      if ltb (i - external_int_base) lines_per_pic
      then set_pic1_mask ports (line_state (mask1 d) (line_of i) enable) d
      else set_pic2_mask ports (line_state (mask2 d) (line_of i) enable) d

  set_irq_line_state-line_set :
      (i : ℕ) (enable : Bool) (d : Device)
      → IsLine i
      → set_irq_line_state ports i enable d ≡ ok (line_set i enable d)
  unfolding set_irq_line_state get_pic1_mask get_pic2_mask
  set_irq_line_state-line_set i enable d h =
      let ext : is_external i ≡ true = ground arith in
      elim (Bool-cases (ltb (i - external_int_base) lines_per_pic)) [
        | inl first ↦ rw (ext, first, read1 d, get_pic_line_index-eq i h, first)
        | inr second ↦ rw (ext, second, read2 d, get_pic_line_index-eq i h, second)
      ]

  mask1-line_set :
      (i : ℕ) (enable : Bool) (d : Device)
      → IsLine i
      → mask1 (line_set i enable d) ≡ (
          if ltb (i - external_int_base) lines_per_pic
          then line_state (mask1 d) (line_of i) enable
          else mask1 d)
  unfolding set_pic1_mask set_pic2_mask
  mask1-line_set i enable d h = elim (Bool-cases (ltb (i - external_int_base) lines_per_pic)) [
    | inl first ↦ rw first (write1 _ d (line_state-lt enable (mask1 d) _ (byte1 d) (ground arith)))
    | inr second ↦ rw second (keep1 _ d)
  ]

  mask2-line_set :
      (i : ℕ) (enable : Bool) (d : Device)
      → IsLine i
      → mask2 (line_set i enable d) ≡ (
          if ltb (i - external_int_base) lines_per_pic
          then mask2 d
          else line_state (mask2 d) (line_of i) enable)
  unfolding set_pic1_mask set_pic2_mask
  mask2-line_set i enable d h = elim (Bool-cases (ltb (i - external_int_base) lines_per_pic)) [
    | inl first ↦ rw first (keep2 _ d)
    | inr second ↦
        rw second (write2 _ d (line_state-lt enable (mask2 d) _ (byte2 d) (ground arith)))
  ]

  enabled-line_set :
      (i j : ℕ) (enable : Bool) (d : Device)
      → IsLine i
      → IsLine j
      → enabled j (line_set i enable d) ≡ (if j == i then enable else enabled j d)
  enabled-line_set i j enable d hi hj =
      rw (mask1-line_set i enable d hi, mask2-line_set i enable d hi)
        (ground (
          arith,
          low-line_state enable (mask1 d) (i - external_int_base) (j - external_int_base) (byte1 d),
          low-line_state enable (mask2 d) (i - external_int_base - lines_per_pic)
              (j - external_int_base - lines_per_pic) (byte2 d),
        ))

  -- With data ports that give back the mask last written, switching a line of a controller, other
  -- than the cascade, returns; after it `IRQ_is_enabled`
  -- gives the new state for that line and the old one for every other line.
  pub set_irq_line_state_lem :
      (i : ℕ) (enable : Bool) (d : Device)
      → IsLine i
      → (d' : Device) × (set_irq_line_state ports i enable d ≡ ok d')
        × ((j : ℕ)
            → IsLine j
            → is_enabled ports j d' ≡ ok (if j == i then enable else enabled j d, d'))
  set_irq_line_state_lem i enable d h = (
    line_set i enable d,
    set_irq_line_state-line_set i enable d h,
    λ j hj.
        is_enabled-enabled j (line_set i enable d) hj
        ∙ ap (λ (b : Bool). ok (b, line_set i enable d)) (enabled-line_set i j enable d h hj),
  )

-- At the cascade line, and at an interrupt of no controller, switching a line stops the machine and
-- so does asking for its state.
pub other_line_halts :
    (ports : Ports) (i : ℕ) (enable : Bool) (d : ports.Device)
    → (i < external_int_base) ⊎ (external_int_max < i) ⊎ (i ≡ 0x22)
    → (set_irq_line_state ports i enable d ≡ halted) × (is_enabled ports i d ≡ halted)
unfolding set_irq_line_state is_enabled get_pic_line_index
other_line_halts ports i enable d h = ground arith

flags_table : table_holds (λ f. bit_and f 512 == 0) 256 ≡ true
unfolding table_holds
flags_table = refl

-- `IRQ_are_interrupts_enabled` returns false whatever the flags register holds: bit 9 is tested after
-- the register was cut to its low byte.
pub never_enabled : (rflags : ℕ) → are_interrupts_enabled rflags ≡ false
unfolding are_interrupts_enabled
never_enabled rflags =
    rw (table_lookup (λ f. bit_and f 512 == 0) 256 flags_table (rflags % 256) (omega arith))

-- The end of an interrupt of a controller is sent to both controllers, of the second one first, also
-- for a line of the first controller; for any other interrupt nothing is sent.
pub end_of_interrupt-both :
    (ports : Ports) (i : ℕ) (d : ports.Device)
    → end_of_interrupt ports i d ≡ (
        if is_external i
        then ports.outb pic1_cmd_port eoi_cmd (ports.outb pic2_cmd_port eoi_cmd d)
        else d)
unfolding end_of_interrupt send_pic1_eoi send_pic2_eoi
end_of_interrupt-both ports i d = ground arith
