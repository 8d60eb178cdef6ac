-- ===== src/Gdt/Layout.antt =====
-- What the processor reads in the descriptors.
use skip_os.Common.{ℕ, ◌+◌, ◌≤◌, ◌*◌, ◌/◌, ◌%◌, ◌^◌, ◌<◌, ◌≡◌, refl, ap, ◌∙◌, arith, update}
use mathlib.Core.Path.{ap₂}
use skip_os.Gdt.{
  Addresses, GdtState, usr_word, sys_low_word, sys_high_word, set_gdt_usr_desc, set_gdt_sys_desc,
  init, tss_size, kcode_desc_access, kcode_desc_flags, tss_desc_access, tss_desc_flags,
}

-- The fields of a descriptor, from its words, by the positions that the processor gives them.
abbrev pub limit_of : ℕ → ℕ
limit_of low = low % 2 ^ 16 + low / 2 ^ 48 % 2 ^ 4 * 2 ^ 16

abbrev pub base_of : ℕ → ℕ → ℕ
base_of low high = low / 2 ^ 16 % 2 ^ 24 + low / 2 ^ 56 % 2 ^ 8 * 2 ^ 24 + high % 2 ^ 32 * 2 ^ 32

abbrev pub access_of : ℕ → ℕ
access_of low = low / 2 ^ 40 % 2 ^ 8

abbrev pub flags_of : ℕ → ℕ
flags_of low = low / 2 ^ 52 % 2 ^ 4

-- A system descriptor, read as the processor does, has the base, the access byte, the low four bits
-- of the flags and the low twenty bits of the limit that `set_gdt_sys_desc` is given, and it is of
-- sixteen bytes.
pub set_gdt_sys_desc-fields :
    (access_byte flags base limit : ℕ)
    → access_byte < 2 ^ 8
    → base < 2 ^ 64
    → let d = set_gdt_sys_desc access_byte flags base limit in
      (base_of (sys_low_word d) (sys_high_word d) ≡ base)
      × (limit_of (sys_low_word d) ≡ limit % 2 ^ 20)
      × (access_of (sys_low_word d) ≡ access_byte)
      × (flags_of (sys_low_word d) ≡ flags % 2 ^ 4)
      × (sys_low_word d < 2 ^ 64)
      × (sys_high_word d < 2 ^ 64)
unfolding set_gdt_sys_desc sys_low_word sys_high_word
set_gdt_sys_desc-fields access_byte flags base limit ha hb =
    (omega arith, omega arith, omega arith, omega arith, omega arith, omega arith)

-- What `GDT_init` leaves, for a table of which the first entry is 0.
pub record Described (at : Addresses) (t : GdtState) : Type 0 where
  pub null_entry : t.gdt 0 ≡ 0
  -- the table that `lgdt` loads
  pub table : t.ptr_offset ≡ at.gdt
  -- the code descriptor: present, of ring 0, for code, and of 64 bits and no other size
  pub code_present : access_of (t.gdt 1) / 2 ^ 7 ≡ 1
  pub code_ring : access_of (t.gdt 1) / 2 ^ 5 % 2 ^ 2 ≡ 0
  pub code_kind : access_of (t.gdt 1) / 2 ^ 3 % 2 ^ 2 ≡ 3
  pub code_long : flags_of (t.gdt 1) / 2 % 2 ≡ 1
  pub code_size : flags_of (t.gdt 1) / 2 ^ 2 % 2 ≡ 0
  -- the descriptor that `ltr` selects, in the table and of ring 0: present, and an available task
  -- state segment of 64 bits
  pub task_inside : t.task_register + 16 ≤ t.ptr_size + 1
  pub task_ring : t.task_register % 2 ^ 3 ≡ 0
  pub task_base : base_of (t.gdt (t.task_register / 8)) (t.gdt (t.task_register / 8 + 1)) ≡ at.tss
  pub task_access : access_of (t.gdt (t.task_register / 8)) ≡ 0x89
  pub task_limit : limit_of (t.gdt (t.task_register / 8)) ≡ 104
  -- the table in the register holds all entries and no more
  pub entries : (t.ptr_size + 1) / 8 ≡ 4
  -- the stacks grow down from their ends
  pub gp_top : t.tss.ist1 ≡ at.gp_stack + 4096
  pub df_top : t.tss.ist2 ≡ at.df_stack + 4096
  pub pf_top : t.tss.ist3 ≡ at.pf_stack + 4096

entry_word :
    (at : Addresses) (s : GdtState)
    → ((init at s).gdt 0 ≡ s.gdt 0)
      × ((init at s).gdt 1 ≡ usr_word (set_gdt_usr_desc kcode_desc_access kcode_desc_flags))
      × ((init at s).gdt 2
          ≡ sys_low_word (set_gdt_sys_desc tss_desc_access tss_desc_flags at.tss tss_size))
      × ((init at s).gdt 3
          ≡ sys_high_word (set_gdt_sys_desc tss_desc_access tss_desc_flags at.tss tss_size))
unfolding init update
entry_word at s = (refl, refl, refl, refl)

pub init-Described :
    (at : Addresses) (s : GdtState) → at.tss < 2 ^ 64 → s.gdt 0 ≡ 0 → Described at (init at s)
unfolding init set_gdt_usr_desc usr_word
init-Described at s h z =
    let w = entry_word at s in
    let f =
      set_gdt_sys_desc-fields tss_desc_access tss_desc_flags at.tss tss_size (omega arith) h in
    record {
      null_entry = w.0 ∙ z;
      table = refl;
      code_present = ap (λ z. access_of z / 2 ^ 7) w.1 ∙ refl;
      code_ring = ap (λ z. access_of z / 2 ^ 5 % 2 ^ 2) w.1 ∙ refl;
      code_kind = ap (λ z. access_of z / 2 ^ 3 % 2 ^ 2) w.1 ∙ refl;
      code_long = ap (λ z. flags_of z / 2 % 2) w.1 ∙ refl;
      code_size = ap (λ z. flags_of z / 2 ^ 2 % 2) w.1 ∙ refl;
      task_inside = omega arith;
      task_ring = refl;
      task_base = ap₂ base_of w.2 w.3 ∙ f.0;
      task_access = ap access_of w.2 ∙ f.2;
      task_limit = ap limit_of w.2 ∙ f.1;
      entries = refl;
      gp_top = refl;
      df_top = refl;
      pf_top = refl;
    }
