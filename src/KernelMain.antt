-- ===== src/KernelMain.antt =====
-- The part of kernel_main, core/src/kernel_main.c, that brings up the memory: the page frame allocator
-- from the multiboot tags, and then the virtual page allocator on its frames.
pub mod Tags
mod Tests
use skip_os.Common.{
  subst, sym, ◌*◌, ◌/◌, ◌-◌, ℕ, ◌+◌, ◌≤◌, ◌<◌, ◌≡◌, refl, Run, ok, halted, ◌>>=◌, Option, none,
  some, List, [], length, ◌^◌, arith,
}
use skip_os.Common.Words.{Memory}
use skip_os.PfAlloc.Refine.{IsPool}
use skip_os.PfAlloc.Progress.{IsPool-Owned}
use skip_os.PfAlloc.Supply.{supply}
use skip_os.PfAlloc.Spec.{Pool}
use skip_os.PfAlloc.Boot.{
  bytes_of, Bytes, UsableMemInfo, ElfInfo, MmapInfo, mmap_tag_type, elf_tag_type, find_tag,
  get_mmap_info, get_elf_info, get_usable_mem_info_ptrs, mem_info_entries, init_pool, init_pf,
  get_sys_mem_size_byte,
}
use skip_os.PfAlloc.Boot.Kept.{bytes_kept, u64_kept}
use skip_os.PfAlloc.Boot.Init.{Fits, initial, init_pool-IsPool}
use skip_os.VpAlloc.{Vm, init_vp, kern_heap_base}
use skip_os.VpAlloc.Tables.{absent}
use skip_os.VpAlloc.Pages.{IsHeap, States}
use skip_os.VpAlloc.Init.{Identity, IsHeap-started}
use skip_os.PfAlloc.Boot.Tags.{Tag}
use skip_os.KernelMain.Tags.{Holding, map_end, Holding-Parsed, upper_stands, mem_size-map_end}

-- `MMU_init_pf` and `MMU_init_vp`, less what is printed; `none` is fuel run out.
unfoldable pub start_memory : ℕ → UsableMemInfo → ℕ → Memory → Option (Run (ℕ × Vm))
unfolding init_pf init_vp
start_memory fuel uninit mb_tags_ptr m = elim (init_pf fuel uninit mb_tags_ptr m) [
  | none ↦ none
  | some r ↦ some (do (mem_size, m1) ← r; t ← init_vp m1; ok (mem_size, t))
]

map_end_kept :
    (m m1 : Memory) (low map_ptr n : ℕ)
    → ((a : ℕ) → low ≤ a → m1 a ≡ m a)
    → low + 16 ≤ map_ptr
    → map_end (bytes_of m1) map_ptr n ≡ map_end (bytes_of m) map_ptr n
map_end_kept m m1 low map_ptr n kept h =
    let bytes = bytes_kept m m1 ((low + 7) / 8 * 8) (omega arith) (λ a ge. kept a (omega arith)) in
    let at = map_ptr + 16 + 24 * n - 24 in
    rw
      (
        u64_kept (bytes_of m) (bytes_of m1) ((low + 7) / 8 * 8) bytes at (omega arith),
        u64_kept (bytes_of m) (bytes_of m1) ((low + 7) / 8 * 8) bytes (at + 8) (omega arith),
      )
      refl

-- From an area of tags with a memory map and section headers, with regions that fit and have three
-- frames or more, and fuel for more rounds than there are tags, the memory comes up: the size returned
-- is the end of the last entry of the map, the first gigabyte is mapped to itself, and the kernel's
-- heap is in order, starts at its base, and has no page.
pub IsHeap-from_tags :
    (ts : List Tag) (fuel : ℕ) (uninit : UsableMemInfo) (p n : ℕ) (u : UsableMemInfo)
    (elf : ElfInfo) (m : Memory) (k : ℕ) (h : Holding ts (bytes_of m) p n u elf)
    → length ts < fuel
    → map_end (bytes_of m) h.map_ptr n < 2 ^ 64
    → Fits (bytes_of m) u elf
    → 0 < k
    → k + 2 ≤ supply (initial (bytes_of m) u elf)
    → (t : Vm) × (start_memory fuel uninit p m ≡ some (ok (map_end (bytes_of m) h.map_ptr n, t)))
      × (t.kern_heap_top ≡ kern_heap_base)
      × IsHeap t k
      × States t.mem t.l4_table (λ x. absent)
      × Identity t.mem t.l4_table
unfolding start_memory init_pf
IsHeap-from_tags ts fuel uninit p n u elf m k h rounds no_wrap fits pos enough =
    let tags = bytes_of m in
    let found = Holding-Parsed ts fuel uninit tags p n u elf h rounds in
    let (m1, pool_run, pool, kept) =
      init_pool-IsPool u elf m fits (upper_stands ts tags p n u elf h) in
    let s = initial tags u elf in
    let (t, run, top, heap, states, identity) =
      IsHeap-started m1 s [] k pool (IsPool-Owned m1 s pool) pos enough in
    let same = map_end_kept m m1 u.lower.length h.map_ptr n kept h.apart in
    (
      t,
      rw
          (
            start_memory,
            init_pf,
            found.map_found,
            found.elf_found,
            found.map_got,
            found.elf_got,
            found.usable_got,
            pool_run,
            run,
            mem_size-map_end (bytes_of m1) h.map_ptr n (subst (λ z. z < 2 ^ 64) (sym same) no_wrap),
            same,
          )
          refl,
      top,
      heap,
      states,
      identity,
    )
