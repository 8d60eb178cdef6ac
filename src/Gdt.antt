-- ===== src/Gdt.antt =====
-- The descriptor tables, core/src/gdt.c: the code descriptor, the descriptor of the task state segment,
-- and the segment itself with the stacks for interrupts.
pub mod Layout
mod Tests
use skip_os.Common.{ℕ, ◌+◌, ◌-◌, ◌*◌, ◌/◌, ◌%◌, ◌^◌, update}

abbrev pub ext_int_stack_size : ℕ
ext_int_stack_size = 4096

abbrev pub gdt_num_enties : ℕ
gdt_num_enties = 4

abbrev pub kcode_desc_access : ℕ
kcode_desc_access = 0b10011111

abbrev pub kcode_desc_flags : ℕ
kcode_desc_flags = 0b0010

abbrev pub tss_desc_access : ℕ
tss_desc_access = 0b10001001

abbrev pub tss_desc_flags : ℕ
tss_desc_flags = 0b0010

pub record GdtUsrDesc : Type 0 where
  pub limit_low : ℕ
  pub base_low : ℕ
  pub base_mid : ℕ
  pub access_byte : ℕ
  pub limit_high : ℕ
  pub flags : ℕ
  pub base_high : ℕ

pub record GdtSysDesc : Type 0 where
  pub limit_low : ℕ
  pub base_low : ℕ
  pub base_mid : ℕ
  pub access_byte : ℕ
  pub limit_high : ℕ
  pub flags : ℕ
  pub base_high : ℕ
  pub base_super_high : ℕ
  pub reserved : ℕ

-- The eight packed bytes as a word: 16, 16, 8, 8, 4, 4 and 8 bits.
unfoldable pub usr_word : GdtUsrDesc → ℕ
usr_word d =
    d.limit_low
    + d.base_low * 2 ^ 16
    + d.base_mid * 2 ^ 32
    + d.access_byte * 2 ^ 40
    + d.limit_high * 2 ^ 48
    + d.flags * 2 ^ 52
    + d.base_high * 2 ^ 56

-- The first eight bytes and the last eight.
unfoldable pub sys_low_word : GdtSysDesc → ℕ
sys_low_word d =
    d.limit_low
    + d.base_low * 2 ^ 16
    + d.base_mid * 2 ^ 32
    + d.access_byte * 2 ^ 40
    + d.limit_high * 2 ^ 48
    + d.flags * 2 ^ 52
    + d.base_high * 2 ^ 56

unfoldable pub sys_high_word : GdtSysDesc → ℕ
sys_high_word d = d.base_super_high + d.reserved * 2 ^ 32

unfoldable pub set_gdt_usr_desc : ℕ → ℕ → GdtUsrDesc
set_gdt_usr_desc access_byte flags = record {
  limit_low = 0;
  base_low = 0;
  base_mid = 0;
  access_byte = access_byte;
  limit_high = 0;
  flags = flags % 2 ^ 4;
  base_high = 0;
}

unfoldable pub set_gdt_sys_desc : ℕ → ℕ → ℕ → ℕ → GdtSysDesc
set_gdt_sys_desc access_byte flags base limit = record {
  limit_low = limit % 2 ^ 16;
  base_low = base % 2 ^ 16;
  base_mid = base / 2 ^ 16 % 2 ^ 8;
  access_byte = access_byte;
  limit_high = limit / 2 ^ 16 % 2 ^ 4;
  flags = flags % 2 ^ 4;
  base_high = base / 2 ^ 24 % 2 ^ 8;
  base_super_high = base / 2 ^ 32 % 2 ^ 32;
  reserved = 0;
}

-- The fields of `tss_t` that are ever written; the others are 0.
pub record Tss : Type 0 where
  pub ist1 : ℕ
  pub ist2 : ℕ
  pub ist3 : ℕ

-- `sizeof(tss_t)`
abbrev pub tss_size : ℕ
tss_size = 104

-- Where the linker puts the globals.
pub record Addresses : Type 0 where
  pub gdt : ℕ
  pub tss : ℕ
  pub gp_stack : ℕ
  pub df_stack : ℕ
  pub pf_stack : ℕ

-- The globals: the table by its entries of eight bytes, `gdt_ptr` and `tss`, and the selector that
-- `ltr` loads.
pub record GdtState : Type 0 where
  pub gdt : ℕ → ℕ
  pub ptr_size : ℕ
  pub ptr_offset : ℕ
  pub tss : Tss
  pub task_register : ℕ

-- `GDT_init`. The address of `gdt[2]` is 16 behind that of `gdt[0]`.
unfoldable pub init : Addresses → GdtState → GdtState
unfolding set_gdt_usr_desc set_gdt_sys_desc usr_word sys_low_word sys_high_word
init at s =
    let code = set_gdt_usr_desc kcode_desc_access kcode_desc_flags in
    let task = set_gdt_sys_desc tss_desc_access tss_desc_flags at.tss tss_size in
    record {
      gdt =
          update 3 (sys_high_word task)
            (update 2 (sys_low_word task) (update 1 (usr_word code) s.gdt));
      ptr_size = gdt_num_enties * 8 - 1;
      ptr_offset = at.gdt;
      tss = record {
        ist1 = at.gp_stack + ext_int_stack_size;
        ist2 = at.df_stack + ext_int_stack_size;
        ist3 = at.pf_stack + ext_int_stack_size;
      };
      task_register = 2 * 8;
    }
