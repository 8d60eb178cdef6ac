-- ===== src/VpAlloc/Demand.antt =====
-- `alloc_virtual_page` on demand: the tables that are missing are made, and the page is marked.
use skip_os.Common.{
  ℕ, zero, suc, ◌+◌, ◌*◌, ◌/◌, ◌%◌, ◌<◌, ◌≡◌, ◌≢◌, inl, inr, refl, sym, ap, ◌∙◌, true, false,
  Bool-cases, arith, none, some, ok, halted, ne→==_false, ==_iff,
}
use skip_os.Common.Words.{Memory, store}
use skip_os.PfAlloc.{page_size, pf_alloc}
use skip_os.PfAlloc.Supply.{pf_alloc-supply}
use skip_os.VpAlloc.{
  Found, shifted, entry_ptr, is_next_page_present, has_bit, set_bit, demand_bit, writeable_bit,
  walk, zero_words, link_page, get_lowest_present_page, table_loop, mark_demand, alloc_virtual_page,
}
use skip_os.VpAlloc.Tables.{
  PageState, absent, demand, mapped, absent_state, holds, IsHeapAddr, IsEntry,
}
use skip_os.VpAlloc.Paths.{hit, miss, Comes}
use skip_os.VpAlloc.Grow.{
  Vmem, Vmem_weaken, state_of, SameStates, lowest_heap, find, missed, Round, Round-at,
}
use skip_os.VpAlloc.Entry.{entry-IsPaged, entry-other, entry-here}

-- The page `va` has the state `st` in `m'`, and every other page of the heap the state it has in `m`.
pub record OnlyAt (m m' : Memory) (l4 va : ℕ) (st : PageState) : Type 0 where
  pub here : state_of m' l4 va ≡ st
  pub others : (x : ℕ) → IsHeapAddr x → x ≢ va → state_of m' l4 x ≡ state_of m l4 x

round :
    (m : Memory) (l4 va l n : ℕ)
    → Vmem m l4 (suc n)
    → 0 < n
    → IsHeapAddr va
    → (walk 4 m l4 va none).level ≡ suc (suc l)
    → Round m l4 va l n
round m l4 va l n v pos h level =
    let (a, m1, s1, run, pool1, w, total) =
      pf_alloc-supply m v.s v.o v.paged.pool v.paged.owned (omega (arith, v.left)) in
    Round-at m l4 va l n v h level (missed m l4 va (suc n) (suc l) v h level) a m1 s1 run pool1 w
      total

-- The end of the loop of `alloc_virtual_page`.
record LoopEnd (m : Memory) (l4 va k fuel : ℕ) : Type 0 where
  m' : Memory
  end : table_loop fuel m l4 va 1 (walk 4 m l4 va none) ≡ some (ok (m', walk 4 m' l4 va none))
  level : (walk 4 m' l4 va none).level ≡ 1
  same : SameStates m m' l4
  vmem : Vmem m' l4 k

loop_round :
    (n : ℕ) (m : Memory) (l4 va lowest : ℕ) (r r2 : Found) (a : ℕ) (m1 m2 : Memory)
    → r.level ≢ lowest
    → pf_alloc m ≡ ok (a, m1)
    → link_page (zero_words 512 m1 a) r.entry a ≡ m2
    → get_lowest_present_page m2 l4 va ≡ ok r2
    → table_loop (suc n) m l4 va lowest r ≡ table_loop n m2 l4 va lowest r2
unfolding table_loop
loop_round n m l4 va lowest r r2 a m1 m2 ne alloc written found =
    rw (ne→==_false r.level lowest ne, alloc, written, found)
      (ap (λ z. table_loop n z l4 va lowest r2) written)

loop_end :
    (l fuel : ℕ) (m : Memory) (l4 va k : ℕ)
    → l < fuel
    → 0 < k
    → Vmem m l4 (l + k)
    → IsHeapAddr va
    → (walk 4 m l4 va none).level ≡ suc l
    → LoopEnd m l4 va k fuel
unfolding table_loop
loop_end l zero m l4 va k hf pos v h level = absurd (omega arith)
loop_end zero (suc fuel) m l4 va k hf pos v h level = record {
  m' = m;
  end = rw level refl;
  level = level;
  same = λ x hx. refl;
  vmem = Vmem_weaken m l4 (0 + k) k (omega arith) v;
}
loop_end (suc l) (suc fuel) m l4 va k hf pos v h level =
    let r =
      round m l4 va l (l + k) (Vmem_weaken m l4 (suc l + k) (suc (l + k)) (omega arith) v)
        (omega arith) h level in
    let rest = loop_end l fuel r.m2 l4 va k (omega arith) pos r.vmem h r.level in
    record {
      m' = rest.m';
      end =
          loop_round fuel m l4 va 1 (walk 4 m l4 va none) (walk 4 r.m2 l4 va none) r.new_page r.m1
            r.m2 (λ z. omega (arith, level, z)) r.alloc r.written (lowest_heap r.m2 l4 va h)
          ∙ rest.end;
      level = rest.level;
      same = λ x hx. rest.same x hx ∙ r.same x hx;
      vmem = rest.vmem;
    }

pub page_index : (va : ℕ) → shifted 1 va * 512 + shifted 0 va % 512 ≡ va / page_size
unfolding shifted
page_index va = omega arith

-- A word that is not present, written to the entry of a page.
pub entry_changed :
    (m : Memory) (l4 n va f word : ℕ) (v : Vmem m l4 n)
    → IsHeapAddr va
    → v.role f ≡ holds 1 (shifted 1 va)
    → Comes m va 0 f 3 l4
    → is_next_page_present (m (entry_ptr f 0 va)) ≡ false
    → is_next_page_present word ≡ false
    → IsEntry word
    → Vmem (store m (entry_ptr f 0 va) word) l4 n
      × OnlyAt m (store m (entry_ptr f 0 va) word) l4 va (absent_state 0 word)
unfolding shifted
entry_changed m l4 n va f word v h rf way before gone entry = (
  record {
    role = v.role;
    o = v.o;
    s = v.s;
    paged =
        entry-IsPaged m l4 v.role v.o v.s v.paged f (shifted 1 va) (shifted 0 va % 512) rf
          (omega arith) word gone before entry;
    left = v.left;
  },
  record {
    here =
        entry-here m l4 v.role v.o v.s v.paged f (shifted 1 va) (shifted 0 va % 512) rf
          (omega arith) word gone va h.1 h.2 refl way;
    others = λ x hx ne.
        entry-other m l4 v.role v.o v.s v.paged f (shifted 1 va) (shifted 0 va % 512) rf
          (omega arith) word gone x hx.1 hx.2 (λ e. omega arith);
  },
)

-- The demand bit on top of a word that is not marked.
mark_word :
    (w : ℕ)
    → is_next_page_present w ≡ false
    → has_bit demand_bit w ≡ false
    → has_bit writeable_bit w ≡ false
    → (is_next_page_present (set_bit demand_bit w) ≡ false)
      × (absent_state 0 (set_bit demand_bit w) ≡ demand)
      × IsEntry (set_bit demand_bit w)
unfolding is_next_page_present has_bit set_bit absent_state
mark_word w gone unmarked plain =
    (ground arith, ground arith, (λ here. ground arith, λ still. ground arith))

absent_unmarked : (w : ℕ) → absent_state 0 w ≡ absent → has_bit demand_bit w ≡ false
unfolding absent_state
absent_unmarked w e = elim (Bool-cases (has_bit demand_bit w)) [
  | inl marked ↦ let clash : demand ≡ absent = rw marked at e in cc
  | inr unmarked ↦ unmarked
]

-- `alloc_virtual_page` on demand, for a page that is absent.
pub record Marked (m : Memory) (l4 va k : ℕ) : Type 0 where
  pub m' : Memory
  pub run : alloc_virtual_page m l4 va true ≡ some (ok m')
  pub only : OnlyAt m m' l4 va demand
  pub vmem : Vmem m' l4 k

mark_run :
    (m m1 : Memory) (l4 va ptr : ℕ)
    → IsHeapAddr va
    → (walk 4 m l4 va none).level ≢ 0
    → table_loop 5 m l4 va 1 (walk 4 m l4 va none) ≡ some (ok (m1, walk 4 m1 l4 va none))
    → (walk 4 m1 l4 va none).level ≡ 1
    → (walk 4 m1 l4 va none).entry ≡ ptr
    → has_bit demand_bit (m1 ptr) ≡ false
    → alloc_virtual_page m l4 va true ≡ some (ok (store m1 ptr (set_bit demand_bit (m1 ptr))))
unfolding alloc_virtual_page mark_demand
mark_run m m1 l4 va ptr h ne end level entry unmarked =
    rw
      (
        alloc_virtual_page,
        (==_iff (va % page_size) 0).1 h.0,
        lowest_heap m l4 va h,
        ne→==_false (walk 4 m l4 va none).level 0 ne,
        end,
        level,
        entry,
        unmarked,
      )
      refl

mark_end :
    (m : Memory) (l4 va k : ℕ)
    → IsHeapAddr va
    → state_of m l4 va ≡ absent
    → (walk 4 m l4 va none).level ≢ 0
    → LoopEnd m l4 va k 5
    → Marked m l4 va k
mark_end m l4 va k h st ne e =
    let x = missed e.m' l4 va k 0 e.vmem h e.level in
    let w = e.m' (entry_ptr x.f 0 va) in
    let unmarked = absent_unmarked w (sym x.state ∙ e.same va h ∙ st) in
    let plain = e.vmem.paged.plain x.f (shifted 1 va) (shifted 0 va % 512) x.table (omega arith) in
    let word = mark_word w x.gone unmarked (plain.1 x.gone) in
    let (vmem, only) =
      entry_changed e.m' l4 k va x.f (set_bit demand_bit w) e.vmem h x.table x.way x.gone word.0
        word.2 in
    record {
      m' = store e.m' (entry_ptr x.f 0 va) (set_bit demand_bit w);
      run = mark_run m e.m' l4 va (entry_ptr x.f 0 va) h ne e.end e.level x.entry unmarked;
      only = record {
        here = only.here ∙ word.1;
        others = λ z hz other. only.others z hz other ∙ e.same z hz;
      };
      vmem = vmem;
    }

pub alloc_demand :
    (m : Memory) (l4 va k : ℕ)
    → 0 < k
    → Vmem m l4 (3 + k)
    → IsHeapAddr va
    → state_of m l4 va ≡ absent
    → Marked m l4 va k
alloc_demand m l4 va k pos v h st = elim (find m l4 (3 + k) va v h) [
  | hit f way rf here lv en pr st' ↦
      let clash : absent ≡ mapped (walk 4 m l4 va none).entry = sym st ∙ st' in cc
  | miss l f hl way rf lv en gone st' ↦
      mark_end m l4 va k h st (λ z. omega (arith, lv, z))
        (loop_end l 5 m l4 va k (omega arith) pos (Vmem_weaken m l4 (3 + k) (l + k) (omega arith) v)
          h lv)
]

-- A page of the heap that is not absent is refused.
pub alloc_refused :
    (m : Memory) (l4 va n : ℕ)
    → Vmem m l4 n
    → IsHeapAddr va
    → state_of m l4 va ≢ absent
    → alloc_virtual_page m l4 va true ≡ some halted
unfolding alloc_virtual_page mark_demand table_loop absent_state
alloc_refused m l4 va n v h st = elim (find m l4 n va v h) [
  | hit f way rf here lv e pr st' ↦
      rw (alloc_virtual_page, (==_iff (va % page_size) 0).1 h.0, lowest_heap m l4 va h, lv) refl
  | miss (suc l) f hl way rf lv e gone st' ↦ absurd (st st')
  | miss zero f hl way rf lv e gone st' ↦
      elim (Bool-cases (has_bit demand_bit (m (entry_ptr f 0 va)))) [
        | inl marked ↦
            rw
              (
                alloc_virtual_page,
                (==_iff (va % page_size) 0).1 h.0,
                lowest_heap m l4 va h,
                lv,
                e,
                marked,
              )
              refl
        | inr unmarked ↦ absurd (st (st' ∙ rw unmarked refl))
      ]
]
