-- ===== src/PfAlloc/Boot.antt =====
-- The set-up of the page frame allocator from the multiboot tags, `MMU_init_pf` of
-- core/src/pf_alloc.c. The tags are bytes of the same memory.
pub mod Tags
pub mod Init
pub mod Kept
use skip_os.Common.{
  ℕ, zero, suc, ◌+◌, ◌-◌, ◌*◌, ◌/◌, ◌%◌, ◌^◌, Bool, not, ◌&&◌, Run, ok, halted, ◌>>=◌, ◌>>◌, assert,
  ltb, leb, ◌==◌, if◌then◌else◌, List, [], ◌∷◌, Option, none, some, length, get_or,
}
use skip_os.Common.Words.{add64, sub64, Memory, store}
use skip_os.PfAlloc.{
  page_size, null, next, prev, base_addr, len_addr, unpooled_page_cnt, add_elem,
  get_ll_head_info_ptr,
}

abbrev pub mmap_tag_type : ℕ
mmap_tag_type = 6

abbrev pub end_tag_type : ℕ
end_tag_type = 0

abbrev pub elf_tag_type : ℕ
elf_tag_type = 9

abbrev pub valid_mem_info_ent_type : ℕ
valid_mem_info_ent_type = 1

abbrev pub fixed_header_size : ℕ
fixed_header_size = 8

-- A byte area, and the little-endian numbers in it.
abbrev pub Bytes : Type 0
Bytes = ℕ → ℕ

-- The bytes of the words of a memory, the least one first.
unfoldable pub bytes_of : Memory → Bytes
bytes_of m p = m (p - p % 8) / 2 ^ (8 * (p % 8)) % 256

unfoldable pub u32_at : Bytes → ℕ → ℕ
u32_at b p = b p + 256 * b (p + 1) + 65536 * b (p + 2) + 16777216 * b (p + 3)

unfoldable pub u64_at : Bytes → ℕ → ℕ
unfolding u32_at
u64_at b p = u32_at b p + 2 ^ 32 * u32_at b (p + 4)

unfoldable pub round_up_nearest_mult : ℕ → ℕ → ℕ
round_up_nearest_mult val mult = if val % mult == 0 then val else add64 val (mult - val % mult)

unfoldable pub round_down_nearest_mult : ℕ → ℕ → ℕ
round_down_nearest_mult val mult = val - val % mult

-- The loop of `find_tag`: `none` is fuel run out, `some none` the null pointer.
unfoldable pub find_loop : ℕ → Bytes → ℕ → ℕ → Option (Option ℕ)
find_loop zero tags p tag_type = none
find_loop (suc n) tags p tag_type =
    let rest = find_loop n tags (p + round_up_nearest_mult (u32_at tags (p + 4)) 8) tag_type in
    if u32_at tags p == tag_type
    then some (some p)
    else if u32_at tags p == end_tag_type
    then some none
    else rest

unfoldable pub find_tag : ℕ → Bytes → ℕ → ℕ → Option (Option ℕ)
find_tag fuel tags mb_tags_ptr tag_type =
    find_loop fuel tags (mb_tags_ptr + fixed_header_size) tag_type

-- `mem_info_entry_t`, with the address where it stands.
pub record MemInfo : Type 0 where
  pub at : ℕ
  pub base_addr : ℕ
  pub length : ℕ
  pub type : ℕ

-- `mmap_info_t`: where the entries stand, and how many there are.
pub record MmapInfo : Type 0 where
  pub mem_info_entry_arr : ℕ
  pub num_mem_info_entries : ℕ

-- `sizeof(mmap_tag_t)` is 16, and `sizeof(mem_info_entry_t)` 24.
unfoldable pub get_mmap_info : Bytes → ℕ → Run MmapInfo
get_mmap_info tags p =
    let arr_size_bytes = sub64 (u32_at tags (p + 4)) 16 in
    do
      assert (not (p == null))
      assert (u32_at tags p == mmap_tag_type)
      assert (u32_at tags (p + 8) == 24)
      assert (u32_at tags (p + 12) == 0)
      assert (arr_size_bytes % 24 == 0)
      ok (record { mem_info_entry_arr = p + 16; num_mem_info_entries = arr_size_bytes / 24 })

-- `elf_info_t`
pub record ElfInfo : Type 0 where
  pub sec_head_ent_arr : ℕ
  pub num_sec_head_ents : ℕ

-- `sizeof(elf_tag_t)` is 20, and `sizeof(sec_head_ent_t)` 64.
unfoldable pub get_elf_info : Bytes → ℕ → Run ElfInfo
get_elf_info tags p = do
  assert (not (p == null))
  assert (u32_at tags p == elf_tag_type)
  assert (u32_at tags (p + 12) == 64)
  assert (u32_at tags (p + 8) == sub64 (u32_at tags (p + 4)) 20 / 64)
  ok (record { sec_head_ent_arr = p + 20; num_sec_head_ents = u32_at tags (p + 8) })

-- The entry at an address, and the `i`-th entry of an array.
unfoldable pub mem_info_at : Bytes → ℕ → MemInfo
mem_info_at tags p = record {
  at = p;
  base_addr = u64_at tags p;
  length = u64_at tags (p + 8);
  type = u32_at tags (p + 16);
}

unfoldable pub mem_info_entries : Bytes → ℕ → ℕ → List MemInfo
unfolding mem_info_at
mem_info_entries tags p zero = []
mem_info_entries tags p (suc n) = mem_info_at tags p ∷ mem_info_entries tags (p + 24) n

-- `usable_mem_info_ptrs_t`, with the entries in place of the pointers to them.
pub record UsableMemInfo : Type 0 where
  pub lower : MemInfo
  pub upper : MemInfo

-- One round of the loop of `get_usable_mem_info_ptrs`: the count, and the two pointers.
unfoldable pub usable_round : MemInfo → ℕ × UsableMemInfo → ℕ × UsableMemInfo
usable_round e (cnt, ret) =
    if e.type == valid_mem_info_ent_type
    then (
      cnt + 1,
      if e.base_addr == 0x0 then record ret { lower = e } else record ret { upper = e },
    )
    else (cnt, ret)

unfoldable pub usable_loop : List MemInfo → ℕ × UsableMemInfo → ℕ × UsableMemInfo
usable_loop [] s = s
usable_loop (e ∷ es) s = usable_loop es (usable_round e s)

-- `ret` starts out as whatever the uninitialised variable holds.
unfoldable pub get_usable_mem_info_ptrs : UsableMemInfo → List MemInfo → Run UsableMemInfo
get_usable_mem_info_ptrs uninit es =
    let (cnt, ret) = usable_loop es (0, uninit) in do assert (cnt == 2); ok ret

pub init_ll_head : Memory → ℕ → Memory
init_ll_head m base = let m1 = store m (next base) base in store m1 (prev base) base

-- The loop of `add_lower_pages`: fuel, memory, head, current address, count.
pub lower_loop : ℕ → Memory → ℕ → ℕ → ℕ → ℕ → Memory × ℕ × ℕ
lower_loop zero m head_ptr lower_length curr_addr cnt = (m, curr_addr, cnt)
lower_loop (suc n) m head_ptr lower_length curr_addr cnt =
    let rest =
      lower_loop n (add_elem m head_ptr curr_addr) head_ptr lower_length (add64 curr_addr page_size)
        (cnt + 1) in
    if ltb curr_addr lower_length then rest else (m, curr_addr, cnt)

-- The fuel is a round for each page, and one for the test that ends the loop.
pub add_lower_pages : Memory → ℕ → ℕ → ℕ → Run Memory
add_lower_pages m head_ptr lower_base lower_length =
    let (m1, curr_addr, cnt) =
      lower_loop (suc (lower_length / page_size)) m head_ptr lower_length
        (add64 lower_base page_size) 0 in
    do assert (curr_addr == lower_length); assert (cnt == sub64 (lower_length / page_size) 1); ok m1

-- The address and the size of the `i`-th section header, each of 64 bytes.
unfoldable pub sec_addr : Bytes → ElfInfo → ℕ → ℕ
sec_addr tags elf i = u64_at tags (elf.sec_head_ent_arr + 64 * i + 16)

unfoldable pub sec_size : Bytes → ElfInfo → ℕ → ℕ
sec_size tags elf i = u64_at tags (elf.sec_head_ent_arr + 64 * i + 32)

-- Where the upper pages begin: behind the last section, and rounded up.
unfoldable pub upper_base : Bytes → ElfInfo → ℕ
upper_base tags elf =
    let last = (elf.num_sec_head_ents + 2 ^ 32 - 1) % 2 ^ 32 in
    round_up_nearest_mult (add64 (sec_addr tags elf last) (sec_size tags elf last)) page_size

pub upper_length : Bytes → ElfInfo → MemInfo → ℕ
upper_length tags elf upper =
    sub64 (round_down_nearest_mult (add64 upper.length upper.base_addr) page_size)
      (upper_base tags elf)

pub init_ll_head_info : Bytes → Memory → ℕ → ElfInfo → MemInfo → Run Memory
init_ll_head_info tags m head_ptr elf upper =
    let m1 = store m (base_addr head_ptr) (upper_base tags elf) in
    let m2 = store m1 (len_addr head_ptr) (upper_length tags elf upper) in
    let m3 = store m2 (unpooled_page_cnt head_ptr) (m2 (len_addr head_ptr) / page_size) in
    do
      assert (head_ptr == 0x0)
      assert (upper.base_addr == sec_addr tags elf 1)
      assert (m3 (len_addr head_ptr) % page_size == 0)
      ok m3

-- What is read behind the lower pages is read in the memory as it is then.
pub init_pool : Memory → UsableMemInfo → ElfInfo → Run Memory
init_pool m usable elf =
    let lower_length = round_down_nearest_mult usable.lower.length page_size in
    let lower_base = round_up_nearest_mult usable.lower.base_addr page_size in
    do
      assert (lower_base == 0x0)
      m1 ← add_lower_pages (init_ll_head m lower_base) lower_base lower_base lower_length
      init_ll_head_info (bytes_of m1) m1 lower_base elf (mem_info_at (bytes_of m1) usable.upper.at)

-- The end of the last entry. An empty array makes the index wrap to a read out of bounds, so `last`
-- is then what stands before the array.
unfoldable pub get_sys_mem_size_byte : Bytes → MmapInfo → ℕ
get_sys_mem_size_byte tags info =
    let last = mem_info_at tags (info.mem_info_entry_arr + 24 * info.num_mem_info_entries - 24) in
    add64 last.base_addr last.length

-- `assert(ptr)` of a tag that was looked for, at the address found.
abbrev pub found : {A : Type 0} → Option ℕ → (ℕ → Run A) → Run A
found none k = halted
found (some p) k = k p

-- `MMU_init_pf`; `none` is fuel run out.
unfoldable pub init_pf : ℕ → UsableMemInfo → ℕ → Memory → Option (Run (ℕ × Memory))
init_pf fuel uninit mb_tags_ptr m = elim (find_tag fuel (bytes_of m) mb_tags_ptr mmap_tag_type) [
  | none ↦ none
  | some mmap ↦ elim (find_tag fuel (bytes_of m) mb_tags_ptr elf_tag_type) [
    | none ↦ none
    | some elf ↦ some (
        found mmap λ mmap_ptr. do
          mmap_info ← get_mmap_info (bytes_of m) mmap_ptr
          found elf λ elf_ptr. do
            elf_info ← get_elf_info (bytes_of m) elf_ptr
            usable ← get_usable_mem_info_ptrs uninit (
                mem_info_entries (bytes_of m) mmap_info.mem_info_entry_arr
                  mmap_info.num_mem_info_entries)
            m1 ← init_pool m usable elf_info
            ok (get_sys_mem_size_byte (bytes_of m1) mmap_info, m1))
  ]
]
