-- ===== src/KernelMain/Tags.antt =====
-- What the multiboot tags hold, by their bytes, and what `MMU_init_pf` of core/src/pf_alloc.c reads in
-- them.
use skip_os.Common.{
  ℕ, zero, suc, ◌+◌, ◌-◌, ◌*◌, ◌/◌, ◌%◌, ◌^◌, ◌≤◌, ◌<◌, ◌≡◌, ◌≢◌, refl, sym, ap, ◌∙◌, subst, true,
  false, ◌⊎◌, inl, inr, Bool-cases, ◌==◌, if◌then◌else◌, ok, some, List, [], ◌∷◌, All, length,
  arith, ne→==_false, ==_iff, ==_refl,
}
use skip_os.Common.Words.{sub64}
use skip_os.PfAlloc.Boot.{
  Bytes, MemInfo, UsableMemInfo, ElfInfo, MmapInfo, u32_at, u64_at, mmap_tag_type, elf_tag_type,
  find_tag, get_mmap_info, get_elf_info, get_usable_mem_info_ptrs, usable_loop, usable_round,
  mem_info_at, mem_info_entries, get_sys_mem_size_byte,
}
use skip_os.PfAlloc.Boot.Tags.{Tag, Holds, first_of, find_tag-first}

-- The entries of a memory map of `n` entries of 24 bytes, by their bytes.
abbrev pub entries : Bytes → ℕ → ℕ → List MemInfo
entries tags p zero = []
entries tags p (suc n) =
    record {
      at = p;
      base_addr = u64_at tags p;
      length = u64_at tags (p + 8);
      type = u32_at tags (p + 16);
    }
    ∷ entries tags (p + 24) n

-- The entries of memory that may be used, which are of type 1.
unfoldable pub usable_of : List MemInfo → List MemInfo
usable_of [] = []
usable_of (e ∷ es) = if e.type == 1 then e ∷ usable_of es else usable_of es

-- What the tag area holds: tags with a memory map of `n` entries and with `elf.num_sec_head_ents`
-- section headers of 64 bytes. Two of the entries are of memory that may be used, one at address 0.
pub record Holding (ts : List Tag) (tags : Bytes) (p n : ℕ) (u : UsableMemInfo) (elf : ElfInfo)
    : Type 0 where
  pub in_area : Holds tags (p + 8) ts
  pub map_ptr : ℕ
  pub elf_ptr : ℕ
  pub map_tag : first_of 6 (p + 8) ts ≡ some map_ptr
  pub elf_tag : first_of 9 (p + 8) ts ≡ some elf_ptr
  pub map_type : u32_at tags map_ptr ≡ 6
  pub map_size : u32_at tags (map_ptr + 4) ≡ 16 + 24 * n
  pub entry_size : u32_at tags (map_ptr + 8) ≡ 24
  pub entry_version : u32_at tags (map_ptr + 12) ≡ 0
  pub few_entries : 16 + 24 * n < 2 ^ 32
  pub elf_type : u32_at tags elf_ptr ≡ 9
  pub elf_size : u32_at tags (elf_ptr + 4) ≡ 20 + 64 * elf.num_sec_head_ents
  pub elf_num : u32_at tags (elf_ptr + 8) ≡ elf.num_sec_head_ents
  pub elf_entry_size : u32_at tags (elf_ptr + 12) ≡ 64
  pub few_headers : 20 + 64 * elf.num_sec_head_ents < 2 ^ 32
  pub headers : elf.sec_head_ent_arr ≡ elf_ptr + 20
  pub not_null : (map_ptr ≢ 0) × (elf_ptr ≢ 0)
  pub usable :
      (usable_of (entries tags (map_ptr + 16) n) ≡ u.lower ∷ u.upper ∷ [])
      ⊎ (usable_of (entries tags (map_ptr + 16) n) ≡ u.upper ∷ u.lower ∷ [])
  pub lower_base : u.lower.base_addr ≡ 0
  pub upper_base : u.upper.base_addr ≢ 0
  -- the tags stand behind the lower pages, where no store of the set-up reaches them
  pub apart : u.lower.length + 16 ≤ map_ptr

-- The end of the last entry of the map.
abbrev pub map_end : Bytes → ℕ → ℕ → ℕ
map_end tags map_ptr n =
    u64_at tags (map_ptr + 16 + 24 * n - 24) + u64_at tags (map_ptr + 16 + 24 * n - 24 + 8)

mem_info_entries-entries : (tags : Bytes) (p n : ℕ) → mem_info_entries tags p n ≡ entries tags p n
unfolding mem_info_entries mem_info_at
mem_info_entries-entries tags p zero = refl
mem_info_entries-entries tags p (suc n) =
    ap (λ es. mem_info_at tags p ∷ es) (mem_info_entries-entries tags (p + 24) n)

usable_round-other :
    (e : MemInfo) (s : ℕ × UsableMemInfo) → (e.type == 1) ≡ false → usable_round e s ≡ s
unfolding usable_round
usable_round-other e (cnt, ret) other = rw other refl

usable_loop-usable_of :
    (es : List MemInfo) (s : ℕ × UsableMemInfo) → usable_loop es s ≡ usable_loop (usable_of es) s
unfolding usable_loop usable_of
usable_loop-usable_of [] s = refl
usable_loop-usable_of (e ∷ es) s = elim (Bool-cases (e.type == 1)) [
  | inl yes_usable ↦ rw yes_usable (usable_loop-usable_of es (usable_round e s))
  | inr no_usable ↦ rw (no_usable, usable_round-other e s no_usable) (usable_loop-usable_of es s)
]

-- An entry that the list of usable entries begins with, or has second, is of type 1.
usable_of-types : (es : List MemInfo) → All (λ e. (e.type == 1) ≡ true) (usable_of es)
unfolding usable_of
usable_of-types [] = tt
usable_of-types (e ∷ es) = elim (Bool-cases (e.type == 1)) [
  | inl yes_usable ↦ rw yes_usable (yes_usable, usable_of-types es)
  | inr no_usable ↦ rw no_usable (usable_of-types es)
]

usable_pair :
    (uninit u : UsableMemInfo) (es : List MemInfo)
    → (usable_of es ≡ u.lower ∷ u.upper ∷ []) ⊎ (usable_of es ≡ u.upper ∷ u.lower ∷ [])
    → u.lower.base_addr ≡ 0
    → u.upper.base_addr ≢ 0
    → get_usable_mem_info_ptrs uninit es ≡ ok u
unfolding get_usable_mem_info_ptrs usable_loop usable_round
usable_pair uninit u es (inl two) low up =
    let types = subst (All (λ e. (e.type == 1) ≡ true)) two (usable_of-types es) in
    rw
      (
        usable_loop-usable_of es (0, uninit),
        two,
        types.0,
        types.1.0,
        (==_iff u.lower.base_addr 0).1 low,
        ne→==_false u.upper.base_addr 0 up,
      )
      refl
usable_pair uninit u es (inr two) low up =
    let types = subst (All (λ e. (e.type == 1) ≡ true)) two (usable_of-types es) in
    rw
      (
        usable_loop-usable_of es (0, uninit),
        two,
        types.0,
        types.1.0,
        (==_iff u.lower.base_addr 0).1 low,
        ne→==_false u.upper.base_addr 0 up,
      )
      refl

map_read :
    (tags : Bytes) (p n : ℕ)
    → p ≢ 0
    → u32_at tags p ≡ 6
    → u32_at tags (p + 4) ≡ 16 + 24 * n
    → u32_at tags (p + 8) ≡ 24
    → u32_at tags (p + 12) ≡ 0
    → 16 + 24 * n < 2 ^ 32
    → get_mmap_info tags p ≡ ok (record { mem_info_entry_arr = p + 16; num_mem_info_entries = n })
unfolding get_mmap_info
map_read tags p n nz t sz e v few =
    let body : sub64 (16 + 24 * n) 16 ≡ 24 * n = omega arith in
    let whole : 24 * n % 24 ≡ 0 = omega arith in
    let count : 24 * n / 24 ≡ n = omega arith in
    rw (ne→==_false p 0 nz, t, sz, e, v, body, whole, count) refl

elf_read :
    (tags : Bytes) (p n : ℕ)
    → p ≢ 0
    → u32_at tags p ≡ 9
    → u32_at tags (p + 4) ≡ 20 + 64 * n
    → u32_at tags (p + 8) ≡ n
    → u32_at tags (p + 12) ≡ 64
    → 20 + 64 * n < 2 ^ 32
    → get_elf_info tags p ≡ ok (record { sec_head_ent_arr = p + 20; num_sec_head_ents = n })
unfolding get_elf_info
elf_read tags p n nz t sz num e few =
    let body : sub64 (20 + 64 * n) 20 ≡ 64 * n = omega arith in
    let count : 64 * n / 64 ≡ n = omega arith in
    rw (ne→==_false p 0 nz, t, sz, e, num, body, count, ==_refl n) refl

-- What the code reads in such an area.
pub record Parsed (fuel : ℕ) (uninit : UsableMemInfo) (tags : Bytes) (p : ℕ) (map : MmapInfo)
    (u : UsableMemInfo) (elf : ElfInfo) : Type 0 where
  pub map_ptr : ℕ
  pub elf_ptr : ℕ
  pub map_found : find_tag fuel tags p mmap_tag_type ≡ some (some map_ptr)
  pub elf_found : find_tag fuel tags p elf_tag_type ≡ some (some elf_ptr)
  pub map_got : get_mmap_info tags map_ptr ≡ ok map
  pub elf_got : get_elf_info tags elf_ptr ≡ ok elf
  pub usable_got :
      get_usable_mem_info_ptrs uninit
        (mem_info_entries tags map.mem_info_entry_arr map.num_mem_info_entries)
      ≡ ok u

pub Holding-Parsed :
    (ts : List Tag) (fuel : ℕ) (uninit : UsableMemInfo) (tags : Bytes) (p n : ℕ) (u : UsableMemInfo)
    (elf : ElfInfo)
    → (h : Holding ts tags p n u elf) → length ts < fuel
    → Parsed fuel uninit tags p
        (record { mem_info_entry_arr = h.map_ptr + 16; num_mem_info_entries = n })
        u
        elf
Holding-Parsed ts fuel uninit tags p n u elf h enough = record {
  map_ptr = h.map_ptr;
  elf_ptr = h.elf_ptr;
  map_found =
      find_tag-first ts fuel p 6 tags h.in_area (λ e. omega arith) enough ∙ ap some h.map_tag;
  elf_found =
      find_tag-first ts fuel p 9 tags h.in_area (λ e. omega arith) enough ∙ ap some h.elf_tag;
  map_got =
      map_read tags h.map_ptr n h.not_null.0 h.map_type h.map_size h.entry_size h.entry_version
        h.few_entries;
  elf_got =
      elf_read tags h.elf_ptr elf.num_sec_head_ents h.not_null.1 h.elf_type h.elf_size h.elf_num
        h.elf_entry_size h.few_headers
      ∙ ap (λ a. ok (record { sec_head_ent_arr = a; num_sec_head_ents = elf.num_sec_head_ents }))
          (sym h.headers);
  usable_got =
      ap (get_usable_mem_info_ptrs uninit) (mem_info_entries-entries tags (h.map_ptr + 16) n)
      ∙ usable_pair uninit u (entries tags (h.map_ptr + 16) n) h.usable h.lower_base h.upper_base;
}

pub mem_size-map_end :
    (tags : Bytes) (map_ptr n : ℕ)
    → map_end tags map_ptr n < 2 ^ 64
    → get_sys_mem_size_byte tags
        (record { mem_info_entry_arr = map_ptr + 16; num_mem_info_entries = n })
      ≡ map_end tags map_ptr n
unfolding get_sys_mem_size_byte mem_info_at
mem_size-map_end tags map_ptr n h = omega arith

-- The entries are what their own addresses hold.
entries-stand :
    (tags : Bytes) (p n : ℕ) → All (λ e. mem_info_at tags e.at ≡ e) (usable_of (entries tags p n))
unfolding usable_of mem_info_at
entries-stand tags p zero = tt
entries-stand tags p (suc n) = elim (Bool-cases (u32_at tags (p + 16) == 1)) [
  | inl yes_usable ↦ rw yes_usable (refl, entries-stand tags (p + 24) n)
  | inr no_usable ↦ rw no_usable (entries-stand tags (p + 24) n)
]

pub upper_stands :
    (ts : List Tag) (tags : Bytes) (p n : ℕ) (u : UsableMemInfo) (elf : ElfInfo)
    → Holding ts tags p n u elf
    → mem_info_at tags u.upper.at ≡ u.upper
upper_stands ts tags p n u elf h = from h.usable
  where
    stand : All (λ e. mem_info_at tags e.at ≡ e) (usable_of (entries tags (h.map_ptr + 16) n))
    stand = entries-stand tags (h.map_ptr + 16) n

    from :
        (usable_of (entries tags (h.map_ptr + 16) n) ≡ u.lower ∷ u.upper ∷ [])
          ⊎ (usable_of (entries tags (h.map_ptr + 16) n) ≡ u.upper ∷ u.lower ∷ [])
        → mem_info_at tags u.upper.at ≡ u.upper
    from (inl two) = (subst (All (λ e. mem_info_at tags e.at ≡ e)) two stand).1.0
    from (inr two) = (subst (All (λ e. mem_info_at tags e.at ≡ e)) two stand).0
