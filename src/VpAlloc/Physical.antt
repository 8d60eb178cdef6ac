-- ===== src/VpAlloc/Physical.antt =====
-- `get_physical_addr`, which says where a page is.
use skip_os.Common.{
  ℕ, zero, suc, ◌/◌, ◌%◌, ◌^◌, ◌<◌, ◌≡◌, inl, inr, refl, sym, ap, false, if◌then◌else◌, Bool-cases,
  arith, ok, ne→==_false, ==_iff, ltb, lt→ltb,
}
use native.Mathlib.Decide.{dec_lt}
use skip_os.Common.Words.{Memory}
use skip_os.PfAlloc.{page_size}
use skip_os.VpAlloc.{
  shifted, entry_ptr, has_bit, demand_bit, get_lowest_present_page, get_physical_addr,
}
use skip_os.VpAlloc.Tables.{PageState, absent, demand, mapped, absent_state, IsHeapAddr}
use skip_os.VpAlloc.Paths.{hit, miss}
use skip_os.VpAlloc.Grow.{Vmem, state_of, lowest_heap, find}

-- The frame of a page, or null.
unfoldable pub frame_or_null : PageState → ℕ
frame_or_null absent = 0
frame_or_null demand = 0
frame_or_null (mapped f) = f

absent_null : (l w : ℕ) → frame_or_null (absent_state l w) ≡ 0
unfolding frame_or_null absent_state
absent_null zero w = elim (Bool-cases (has_bit demand_bit w)) [
  | inl marked ↦ rw marked refl
  | inr unmarked ↦ rw unmarked refl
]
absent_null (suc l) w = refl

pub heap_addr :
    (m : Memory) (l4 n va : ℕ)
    → Vmem m l4 n
    → IsHeapAddr va
    → get_physical_addr m l4 va ≡ ok (frame_or_null (state_of m l4 va))
unfolding get_physical_addr frame_or_null
heap_addr m l4 n va v h = elim (find m l4 n va v h) [
  | hit f way rf here lv e pr st ↦
      rw (get_physical_addr, (==_iff (va % page_size) 0).1 h.0, lowest_heap m l4 va h, lv, st) refl
  | miss l f hl way rf lv e gone st ↦
      rw (get_physical_addr, (==_iff (va % page_size) 0).1 h.0, lowest_heap m l4 va h, lv, st)
        (rw (ne→==_false (suc l) 0 (λ z. omega arith))
          (ap ok (sym (absent_null l (m (entry_ptr f l va))))))
]

low_addr :
    (m : Memory) (l4 va : ℕ) → va % page_size ≡ 0 → va < 2 ^ 39 → get_physical_addr m l4 va ≡ ok va
unfolding get_physical_addr get_lowest_present_page shifted
low_addr m l4 va al low =
    let index : va / 2 ^ 39 % 512 ≡ 0 = omega arith in
    rw (get_physical_addr, (==_iff (va % page_size) 0).1 al, (==_iff (va / 2 ^ 39 % 512) 0).1 index)
      refl

-- `get_physical_addr` of a page of the heap is its frame, or 0 where it has none; of an address below
-- 2^39 it is the address.
pub get_physical_addr-state :
    (m : Memory) (l4 n va : ℕ)
    → Vmem m l4 n
    → va % page_size ≡ 0
    → va < 2 ^ 48
    → get_physical_addr m l4 va
      ≡ ok (if ltb va (2 ^ 39) then va else frame_or_null (state_of m l4 va))
get_physical_addr-state m l4 n va v al high = elim (dec_lt va (2 ^ 39)) [
  | yes low ↦ rw (lt→ltb va (2 ^ 39) low) (low_addr m l4 va al low)
  | no heap ↦
      let not_low : ltb va (2 ^ 39) ≡ false = ground arith in
      rw not_low (heap_addr m l4 n va v (al, omega arith, high))
]
