-- ===== src/Gdt/Tests.antt =====
-- The descriptor tables at concrete addresses.
use skip_os.Common.{ℕ, ◌%◌, ◌^◌, ◌<◌, ◌≡◌, refl, arith}
use skip_os.Gdt.{
  Addresses, GdtState, sys_low_word, sys_high_word, set_gdt_usr_desc, set_gdt_sys_desc, usr_word,
  init,
}
use skip_os.Gdt.Layout.{
  limit_of, base_of, access_of, flags_of, set_gdt_sys_desc-fields, Described, init-Described,
}

abbrev high_base : ℕ
high_base = 0xFFFF800012345678

set_gdt_sys_desc-fields_example :
    let d = set_gdt_sys_desc 0x89 2 high_base 0x1ABCDE in
    (base_of (sys_low_word d) (sys_high_word d) ≡ high_base)
    × (limit_of (sys_low_word d) ≡ 0x1ABCDE % 2 ^ 20)
    × (access_of (sys_low_word d) ≡ 0x89)
    × (flags_of (sys_low_word d) ≡ 2 % 2 ^ 4)
    × (sys_low_word d < 2 ^ 64)
    × (sys_high_word d < 2 ^ 64)
set_gdt_sys_desc-fields_example =
    set_gdt_sys_desc-fields 0x89 2 high_base 0x1ABCDE (omega arith) (omega arith)

abbrev places : Addresses
places = record {
  gdt = 0x11000;
  tss = 0x12000;
  gp_stack = 0x13000;
  df_stack = 0x14000;
  pf_stack = 0x15000;
}

abbrev empty : GdtState
empty = record {
  gdt = λ i. 0;
  ptr_size = 0;
  ptr_offset = 0;
  tss = record { ist1 = 0; ist2 = 0; ist3 = 0 };
  task_register = 0;
}

init-Described_example : Described places (init places empty)
init-Described_example = init-Described places empty (omega arith) refl

-- The code descriptor as the word that it is usually written as, with the access bits of this kernel.
code_word : usr_word (set_gdt_usr_desc 0b10011111 0b0010) ≡ 0x00209F0000000000
unfolding usr_word set_gdt_usr_desc
code_word = refl
