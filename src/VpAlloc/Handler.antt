-- ===== src/VpAlloc/Handler.antt =====
-- The whole of `page_fault_handler`: marked pages get a frame, and any other fault stops the machine.
use skip_os.Common.{
  ℕ, zero, suc, ◌-◌, ◌%◌, ◌<◌, ◌≡◌, ◌≢◌, inl, inr, refl, sym, ◌∙◌, Bool, true, false, not, ◌||◌,
  ◌==◌, Bool-cases, arith, Fresh, none, ok, halted, ne→==_false,
}
use skip_os.Common.Words.{Memory}
use skip_os.PfAlloc.{page_size, null, pf_alloc}
use skip_os.PfAlloc.Supply.{pf_alloc-supply}
use skip_os.Interrupt.{pf_int_num}
use skip_os.VpAlloc.{
  Found, shifted, entry_ptr, has_bit, demand_bit, walk, link_page, get_lowest_present_page,
  page_fault_handler,
}
use skip_os.VpAlloc.Tables.{absent, demand, mapped, absent_state, IsHeapAddr, mine, Owned-Elsewhere}
use skip_os.VpAlloc.Paths.{hit, miss}
use skip_os.VpAlloc.Frames.{new_frame}
use skip_os.VpAlloc.Grow.{Vmem, state_of, lowest_heap, find, Missed, missed}
use skip_os.VpAlloc.Demand.{OnlyAt}
use skip_os.VpAlloc.Fault.{given_vmem, given_only}

-- The page of an address.
abbrev pub fault_page : ℕ → ℕ
fault_page cr2 = cr2 - cr2 % page_size

-- What a fault at a marked page comes to.
pub record Filled (m : Memory) (l4 cr2 n : ℕ) (v : Vmem m l4 (suc n)) : Type 0 where
  pub m' : Memory
  pub new_page : ℕ
  pub run : page_fault_handler m pf_int_num l4 cr2 ≡ ok m'
  pub fresh : Fresh new_page v.o
  pub only : OnlyAt m m' l4 (fault_page cr2) (mapped new_page)
  pub vmem : Vmem m' l4 n

fill_run :
    (m m1 : Memory) (l4 cr2 f a : ℕ)
    → IsHeapAddr (fault_page cr2)
    → (walk 4 m l4 (fault_page cr2) none).level ≡ 1
    → (walk 4 m l4 (fault_page cr2) none).entry ≡ entry_ptr f 0 (fault_page cr2)
    → f ≢ 0
    → has_bit demand_bit (m (entry_ptr f 0 (fault_page cr2))) ≡ true
    → pf_alloc m ≡ ok (a, m1)
    → page_fault_handler m pf_int_num l4 cr2 ≡ ok (link_page m1 (entry_ptr f 0 (fault_page cr2)) a)
unfolding page_fault_handler
fill_run m m1 l4 cr2 f a h level entry ne marked run =
    rw
      (
        page_fault_handler,
        lowest_heap m l4 (fault_page cr2) h,
        level,
        entry,
        ne→==_false (entry_ptr f 0 (fault_page cr2)) 0 (λ z. ne (omega arith)),
        marked,
        run,
      )
      refl

pub demand_level :
    (m : Memory) (l4 va n : ℕ) (v : Vmem m l4 n)
    → IsHeapAddr va
    → state_of m l4 va ≡ demand
    → ((walk 4 m l4 va none).level ≡ 1)
      × ((x : Missed m l4 va n 0 v) → has_bit demand_bit (m (entry_ptr x.f 0 va)) ≡ true)
unfolding absent_state
demand_level m l4 va n v h st = elim (find m l4 n va v h) [
  | hit t way rt here lv e pr st' ↦
      let clash : demand ≡ mapped (walk 4 m l4 va none).entry = sym st ∙ st' in cc
  | miss (suc l) t hl way rt lv e gone st' ↦ let clash : demand ≡ absent = sym st ∙ st' in cc
  | miss zero t hl way rt lv e gone st' ↦ (
    lv,
    λ x.
        let got = sym st ∙ x.state in
        elim (Bool-cases (has_bit demand_bit (m (entry_ptr x.f 0 va)))) [
          | inl marked ↦ marked
          | inr unmarked ↦ let clash : demand ≡ absent = rw unmarked at got in cc
        ],
  )
]

-- A fault at a marked page of the heap, while two frames are left: the page is mapped to a frame
-- that nobody owned, every other page keeps its state, and the tables stay in order.
pub fault-Filled :
    (m : Memory) (l4 cr2 n : ℕ) (v : Vmem m l4 (suc n))
    → 0 < n
    → IsHeapAddr (fault_page cr2)
    → state_of m l4 (fault_page cr2) ≡ demand
    → Filled m l4 cr2 n v
fault-Filled m l4 cr2 n v pos h st =
    let va = fault_page cr2 in
    let (level, marked) = demand_level m l4 va (suc n) v h st in
    let x = missed m l4 va (suc n) 0 v h level in
    let (a, m1, s1, run, pool1, w, total) =
      pf_alloc-supply m v.s v.o v.paged.pool v.paged.owned (omega (arith, v.left)) in
    let table_frame =
      Owned-Elsewhere v.o v.s.frames v.s.base x.f 0 v.paged.owned
        (mine m l4 v.role v.o v.s v.paged x.f 1 (shifted 1 va) x.table) (omega arith) in
    record {
      m' = link_page m1 (entry_ptr x.f 0 va) a;
      new_page = a;
      run = fill_run m m1 l4 cr2 x.f a h level x.entry table_frame.2.1 (marked x) run;
      fresh = (new_frame m l4 v.role v.o v.s v.paged a s1 w).1;
      only = given_only m l4 va n v h x a m1 s1 run pool1 w total;
      vmem = given_vmem m l4 va n v h x a m1 s1 run pool1 w total;
    }

refuse_run :
    (m : Memory) (l4 cr2 : ℕ) (r : Found)
    → get_lowest_present_page m l4 (fault_page cr2) ≡ ok r
    → not (has_bit demand_bit (m r.entry)) || not (r.level == 1) ≡ true
    → page_fault_handler m pf_int_num l4 cr2 ≡ halted
unfolding page_fault_handler
refuse_run m l4 cr2 r found stop = elim (Bool-cases (r.entry == null)) [
  | inl at_null ↦ rw (page_fault_handler, found, at_null) refl
  | inr real ↦ rw (page_fault_handler, found, real, stop) refl
]

not_level : (b : Bool) (level : ℕ) → level ≢ 1 → not b || not (level == 1) ≡ true
not_level true level ne = rw (ne→==_false level 1 ne) refl
not_level false level ne = refl

-- A fault at a page of the heap that is not marked stops the machine.
pub fault_refused :
    (m : Memory) (l4 cr2 n : ℕ)
    → Vmem m l4 n
    → IsHeapAddr (fault_page cr2)
    → state_of m l4 (fault_page cr2) ≢ demand
    → page_fault_handler m pf_int_num l4 cr2 ≡ halted
unfolding absent_state
fault_refused m l4 cr2 n v h st =
    let va = fault_page cr2 in
    let r = walk 4 m l4 va none in
    let found = lowest_heap m l4 va h in
    elim (find m l4 n va v h) [
      | hit f way rf here lv e pr st' ↦
          refuse_run m l4 cr2 r found
            (not_level (has_bit demand_bit (m r.entry)) r.level (λ z. omega (arith, lv, z)))
      | miss (suc l) f hl way rf lv e gone st' ↦
          refuse_run m l4 cr2 r found
            (not_level (has_bit demand_bit (m r.entry)) r.level (λ z. omega (arith, lv, z)))
      | miss zero f hl way rf lv e gone st' ↦
          elim (Bool-cases (has_bit demand_bit (m (entry_ptr f 0 va)))) [
            | inl marked ↦ absurd (st (st' ∙ rw marked refl))
            | inr unmarked ↦ refuse_run m l4 cr2 r found (rw (e, unmarked) refl)
          ]
    ]
