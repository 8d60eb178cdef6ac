-- ===== src/VpAlloc.antt =====
-- The virtual page allocator, core/src/vp_alloc.c: page tables of four levels in frames of the page
-- frame allocator. A heap page is first only marked in its table, and gets a frame when it is used.
pub mod Tables
pub mod Paths
pub mod Link
pub mod Frames
pub mod Entry
pub mod Grow
pub mod Demand
pub mod Fault
pub mod Handler
pub mod Unlink
pub mod Free
pub mod Pages
pub mod Release
pub mod Init
pub mod Space
pub mod Steps
pub mod Sequence
pub mod Physical
mod Tests
use skip_os.Common.{
  ℕ, zero, suc, ◌+◌, ◌-◌, ◌*◌, ◌/◌, ◌%◌, ◌^◌, Bool, true, false, not, ◌&&◌, ◌||◌, Run, ok, halted,
  ◌>>=◌, ◌>>◌, assert, ltb, ◌==◌, if◌then◌else◌, Option, none, some,
}
use skip_os.Common.Words.{add64, Memory, store}
use skip_os.PfAlloc.{page_size, null, pf_alloc, pf_free}
use skip_os.Interrupt.{pf_int_num}

abbrev pub kern_heap_base : ℕ
kern_heap_base = 2 ^ 40

abbrev pub entries_per_table : ℕ
entries_per_table = 512

-- `pt_level_t` is its number: 0 for `PHYSICAL`, and 1 to 4 for the tables.
abbrev pub PtLevel : Type 0
PtLevel = ℕ

-- One bit of a word: `w & (1 << b)`, `w |= 1 << b` and `w &= ~(1 << b)`.
unfoldable pub has_bit : ℕ → ℕ → Bool
has_bit b w = w / 2 ^ b % 2 == 1

unfoldable pub set_bit : ℕ → ℕ → ℕ
unfolding has_bit
set_bit b w = if has_bit b w then w else w + 2 ^ b

unfoldable pub clear_bit : ℕ → ℕ → ℕ
unfolding has_bit
clear_bit b w = if has_bit b w then w - 2 ^ b else w

-- The bits of `PRESENT_MASK`, `WRITEABLE_MASK`, `PAGE_SIZE_1GB_MSK` and `DEMAND_MASK`.
abbrev pub present_bit : ℕ
present_bit = 0

abbrev pub writeable_bit : ℕ
writeable_bit = 1

abbrev pub page_size_1gb_bit : ℕ
page_size_1gb_bit = 7

abbrev pub demand_bit : ℕ
demand_bit = 9

unfoldable pub is_next_page_present : ℕ → Bool
is_next_page_present entry = has_bit present_bit entry

-- `entry & ~(0xFFF)`
abbrev pub frame_of : ℕ → ℕ
frame_of entry = entry - entry % page_size

-- `virtual_addr >> s`, for the shifts 12, 21, 30 and 39 of the levels 1 to 4, given the level less 1.
unfoldable pub shifted : ℕ → ℕ → ℕ
shifted k virtual_addr = virtual_addr / 2 ^ (9 * k + 12)

-- The address of the entry for an address in a table of level `k + 1`.
abbrev pub entry_ptr : ℕ → ℕ → ℕ → ℕ
entry_ptr table k virtual_addr = table + 8 * (shifted k virtual_addr % entries_per_table)

-- What `get_lowest_present_page` gives: its result, the level, and what it writes to
-- `*prev_entry_ptr_ptr`, if anything.
pub record Found : Type 0 where
  pub entry : ℕ
  pub level : PtLevel
  pub prev : Option ℕ

-- The blocks of `get_lowest_present_page` for the levels up to `k`, from a table of level `k`; at 0
-- it has come to a frame.
unfoldable pub walk : ℕ → Memory → ℕ → ℕ → Option ℕ → Found
unfolding is_next_page_present
walk zero m frame virtual_addr prev = record { entry = frame; level = 0; prev = prev }
walk (suc k) m table virtual_addr prev =
    let ptr = entry_ptr table k virtual_addr in
    let lower = walk k m (frame_of (m ptr)) virtual_addr (some ptr) in
    if is_next_page_present (m ptr)
    then lower
    else record { entry = ptr; level = suc k; prev = prev }

unfoldable pub get_lowest_present_page : Memory → ℕ → ℕ → Run Found
get_lowest_present_page m l4_table virtual_addr = do
  assert (virtual_addr % page_size == 0)
  ok (
      if shifted 3 virtual_addr % entries_per_table == 0
      then record { entry = virtual_addr; level = 0; prev = none }
      else walk 4 m l4_table virtual_addr none)

unfoldable pub get_physical_addr : Memory → ℕ → ℕ → Run ℕ
get_physical_addr m l4_table virtual_addr = do
  assert (virtual_addr % page_size == 0)
  r ← get_lowest_present_page m l4_table virtual_addr
  ok (if r.level == 0 then r.entry else 0x0)

-- `memset(p, 0, PAGE_SIZE)` by words: the first `n` words are 0.
unfoldable pub zero_words : ℕ → Memory → ℕ → Memory
zero_words zero m p = m
zero_words (suc n) m p = store (zero_words n m p) (p + 8 * n) 0

abbrev pub zero_page : Memory → ℕ → Memory
zero_page m p = zero_words 512 m p

-- `*entry_ptr = (u64)page; *entry_ptr |= WRITEABLE_MASK | PRESENT_MASK;`
abbrev pub link_page : Memory → ℕ → ℕ → Memory
link_page m ptr page = store m ptr (set_bit writeable_bit (set_bit present_bit page))

-- The loop of `alloc_virtual_page`: fuel, memory, the last result. `none` is fuel run out. The result
-- of `MMU_pf_alloc` is not tested for null.
unfoldable pub table_loop : ℕ → Memory → ℕ → ℕ → PtLevel → Found → Option (Run (Memory × Found))
table_loop zero m l4_table virtual_addr lowest r = none
table_loop (suc n) m l4_table virtual_addr lowest r =
    if r.level == lowest then some (ok (m, r)) else elim (pf_alloc m) [
      | halted ↦ some halted
      | ok (new_page, m1) ↦
          let m2 = link_page (zero_page m1 new_page) r.entry new_page in
          elim (get_lowest_present_page m2 l4_table virtual_addr) [
            | halted ↦ some halted
            | ok r2 ↦ table_loop n m2 l4_table virtual_addr lowest r2
          ]
    ]

-- The part of `alloc_virtual_page` behind its loop.
unfoldable pub mark_demand : Bool → Memory × Found → Run Memory
mark_demand alloc_on_demand (m, r) =
    if alloc_on_demand
    then (do
      assert (r.level == 1)
      assert (not (has_bit demand_bit (m r.entry)))
      ok (store m r.entry (set_bit demand_bit (m r.entry))))
    else ok m

-- The loop goes down at most four levels, so five rounds are enough.
unfoldable pub alloc_virtual_page : Memory → ℕ → ℕ → Bool → Option (Run Memory)
unfolding table_loop mark_demand
alloc_virtual_page m l4_table virtual_addr alloc_on_demand =
    elim (assert (virtual_addr % page_size == 0)
      >> get_lowest_present_page m l4_table virtual_addr) [
        | halted ↦ some halted
        | ok r ↦
            if r.level == 0
            then some halted
            else elim (table_loop 5 m l4_table virtual_addr (if alloc_on_demand then 1 else 0) r) [
              | none ↦ none
              | some out ↦ some (out >>= mark_demand alloc_on_demand)
            ]
      ]

-- What the file keeps: the memory with its tables, `page_table` and `kern_heap_top`.
pub record Vm : Type 0 where
  pub mem : Memory
  pub l4_table : ℕ
  pub kern_heap_top : ℕ

-- The loop of `MMU_alloc_pages`.
unfoldable pub alloc_loop : ℕ → Vm → Option (Run Vm)
unfolding alloc_virtual_page
alloc_loop zero s = some (ok s)
alloc_loop (suc n) s = elim (alloc_virtual_page s.mem s.l4_table s.kern_heap_top true) [
  | none ↦ none
  | some halted ↦ some halted
  | some (ok m) ↦
      alloc_loop n (record s { mem = m; kern_heap_top = add64 s.kern_heap_top page_size })
]

-- `MMU_alloc_pages`: the address is the top of the heap before the call.
unfoldable pub alloc_pages : ℕ → Vm → Option (Run (ℕ × Vm))
alloc_pages num s = elim (alloc_loop num s) [
  | none ↦ none
  | some r ↦ some (r >>= λ t. ok (s.kern_heap_top, t))
]

-- One round of the loop of `MMU_free_pages`. An address below 2^39 is of the identity mapping: the
-- pointer that the code then writes through was set in an earlier round or never, and the model stops.
unfoldable pub free_one : Memory → ℕ → ℕ → Run Memory
free_one m l4_table next_to_free = do
  r ← get_lowest_present_page m l4_table next_to_free
  assert (r.level == 0 || r.level == 1)
  if r.level == 0
      then elim r.prev [
        | none ↦ halted
        | some prev ↦
            pf_free (store m prev (clear_bit writeable_bit (clear_bit present_bit (m prev))))
              r.entry
      ]
      else (do
        assert (has_bit demand_bit (m r.entry))
        assert (not (has_bit present_bit (m r.entry) || has_bit writeable_bit (m r.entry)))
        ok (store m r.entry (clear_bit demand_bit (m r.entry))))

unfoldable pub free_loop : ℕ → Memory → ℕ → ℕ → Run Memory
unfolding free_one
free_loop zero m l4_table next_to_free = ok m
free_loop (suc n) m l4_table next_to_free = do
  m1 ← free_one m l4_table next_to_free
  free_loop n m1 l4_table (add64 next_to_free page_size)

-- `MMU_free_pages`
unfoldable pub free_pages : ℕ → ℕ → Vm → Run Vm
free_pages vp num s = do
  assert (vp % page_size == 0)
  assert (ltb 0 num)
  m ← free_loop num s.mem s.l4_table vp
  ok (record s { mem = m })

-- `page_fault_handler`, given the fault address and the table in use, which the registers `cr2` and
-- `cr3` hold. A fault at a page that is not marked stops the machine.
unfoldable pub page_fault_handler : Memory → ℕ → ℕ → ℕ → Run Memory
page_fault_handler m irq_index cr3 cr2 =
    let fault_addr = cr2 - cr2 % page_size in
    do
      assert (irq_index == pf_int_num)
      r ← get_lowest_present_page m cr3 fault_addr
      assert (not (r.entry == null))
      if not (has_bit demand_bit (m r.entry)) || not (r.level == 1)
          then halted
          else (do (new_page, m1) ← pf_alloc m; ok (link_page m1 r.entry new_page))

-- The loop of `setup_identity_paging`: the first `n` entries.
unfoldable pub identity_loop : ℕ → Memory → ℕ → Memory
identity_loop zero m table = m
identity_loop (suc n) m table =
    store (identity_loop n m table) (table + 8 * n)
      (set_bit page_size_1gb_bit (set_bit writeable_bit (set_bit present_bit 0)))

unfoldable pub setup_identity_paging : Memory → ℕ → Run Memory
unfolding identity_loop
setup_identity_paging m l4_table = do
  (l3_identity_table, m1) ← pf_alloc m
  ok (
      identity_loop entries_per_table
        (link_page (zero_page m1 l3_identity_table) l4_table l3_identity_table) l3_identity_table)

-- `MMU_init_vp`, less the write to `cr3`. The registration of the handler is that of
-- `Interrupt.set_handler`.
unfoldable pub init_vp : Memory → Run Vm
unfolding setup_identity_paging
init_vp m = do
  (l4_table, m1) ← pf_alloc m
  m2 ← setup_identity_paging (zero_page m1 l4_table) l4_table
  ok (record { mem = m2; l4_table = l4_table; kern_heap_top = kern_heap_base })
