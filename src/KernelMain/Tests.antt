-- ===== src/KernelMain/Tests.antt =====
-- The start of the memory from concrete tags: a memory map of two regions, and two section headers.
use skip_os.Common.{
  ◌*◌, List, ◌∷◌, inl, ◌<◌, ◌^◌, ◌+◌, ◌≤◌, ◌≡◌, refl, ok, some, ◌==◌, if◌then◌else◌, arith, ◌-◌,
  ◌/◌, [],
}
use skip_os.PfAlloc.Supply.{supply}
use skip_os.PfAlloc.Progress.{length-stack}
use skip_os.Common.Words.{Memory}
use skip_os.PfAlloc.Boot.{
  bytes_of, Bytes, UsableMemInfo, ElfInfo, u32_at, u64_at, round_up_nearest_mult,
  round_down_nearest_mult, sec_addr, sec_size, upper_base,
}
use skip_os.PfAlloc.Boot.Init.{pool_from, Fits, initial}
use skip_os.VpAlloc.{Vm, kern_heap_base}
use skip_os.VpAlloc.Tables.{absent}
use skip_os.VpAlloc.Pages.{IsHeap, States}
use skip_os.KernelMain.{start_memory, IsHeap-from_tags}
use skip_os.KernelMain.Tags.{Holding, map_end, usable_of}
use skip_os.PfAlloc.Boot.Tags.{Tag, first_of}
use skip_os.VpAlloc.Init.{Identity}

-- The words of the area, which stands behind the lower pages.
abbrev boot_memory : Memory
boot_memory a =
    if a == 0x200008
    then 6 + 64 * 2 ^ 32
    else if a == 0x200010
    then 24
    else if a == 0x200020
    then 0x9fc00
    else if a == 0x200028
    then 1
    else if a == 0x200030
    then 0x100000
    else if a == 0x200038
    then 0x7ee0000
    else if a == 0x200040
    then 1
    else if a == 0x200048
    then 9 + 148 * 2 ^ 32
    else if a == 0x200050
    then 2 + 64 * 2 ^ 32
    else if a == 0x2000A8
    then 0x100000 * 2 ^ 32
    else if a == 0x2000B8
    then 0x5000 * 2 ^ 32
    else 0

abbrev tags : Bytes
tags = bytes_of boot_memory

abbrev elf : ElfInfo
elf = record { sec_head_ent_arr = 0x20005C; num_sec_head_ents = 2 }

abbrev regions : UsableMemInfo
regions = record {
  lower = record { at = 0x200018; base_addr = 0; length = 0x9fc00; type = 1 };
  upper = record { at = 0x200030; base_addr = 0x100000; length = 0x7ee0000; type = 1 };
}

abbrev uninit : UsableMemInfo
uninit = record {
  lower = record { at = 7; base_addr = 7; length = 7; type = 7 };
  upper = record { at = 7; base_addr = 7; length = 7; type = 7 };
}

abbrev tag_list : List Tag
tag_list = record { type = 6; size = 64 } ∷ record { type = 9; size = 148 } ∷ []

tags-Holding : Holding tag_list tags 0x200000 2 regions elf
unfolding bytes_of u32_at u64_at round_up_nearest_mult first_of usable_of
tags-Holding = record {
  in_area = (refl, refl, λ e. omega arith, (refl, refl, λ e. omega arith, refl));
  map_ptr = 0x200008;
  elf_ptr = 0x200048;
  map_tag = refl;
  elf_tag = refl;
  map_type = refl;
  map_size = refl;
  entry_size = refl;
  entry_version = refl;
  few_entries = omega arith;
  elf_type = refl;
  elf_size = refl;
  elf_num = refl;
  elf_entry_size = refl;
  few_headers = omega arith;
  headers = refl;
  not_null = (λ e. omega arith, λ e. omega arith);
  usable = inl refl;
  lower_base = refl;
  upper_base = λ e. omega arith;
  apart = omega arith;
}

no_wrap : map_end tags 0x200008 2 < 2 ^ 64
unfolding bytes_of u32_at u64_at
no_wrap = omega arith

regions-Fits : Fits tags regions elf
unfolding bytes_of u64_at u32_at round_up_nearest_mult round_down_nearest_mult upper_base sec_addr
    sec_size
regions-Fits = omega arith

enough : 36 + 2 ≤ supply (initial tags regions elf)
unfolding pool_from
enough = omega (arith, length-stack (0x9fc00 / 0x1000 - 1) 0x1000 [])

IsHeap-from_tags_example :
    (t : Vm) × (start_memory 5 uninit 0x200000 boot_memory ≡ some (ok (map_end tags 0x200008 2, t)))
    × (t.kern_heap_top ≡ kern_heap_base)
    × IsHeap t 36
    × States t.mem t.l4_table (λ x. absent)
    × Identity t.mem t.l4_table
unfolding tags-Holding
IsHeap-from_tags_example =
    IsHeap-from_tags tag_list 5 uninit 0x200000 2 regions elf boot_memory 36 tags-Holding
      (omega arith) no_wrap regions-Fits (omega arith) enough
