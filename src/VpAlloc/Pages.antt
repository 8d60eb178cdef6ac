-- ===== src/VpAlloc/Pages.antt =====
-- `MMU_alloc_pages`, for any number of pages, against the states of the heap.
use skip_os.Common.{
  ℕ, zero, suc, ◌+◌, ◌*◌, ◌%◌, ◌^◌, ◌≤◌, ◌<◌, ◌≡◌, inl, inr, ◌⊎◌, refl, sym, ap, ◌∙◌, true, ◌&&◌,
  if◌then◌else◌, arith, some, ok, ltb, leb,
}
use native.Mathlib.Decide.{ℕ_discrete, dec_lt}
use skip_os.Common.Words.{Memory, add64}
use skip_os.PfAlloc.{page_size}
use skip_os.VpAlloc.{Vm, alloc_virtual_page, alloc_loop, alloc_pages}
use skip_os.VpAlloc.Tables.{PageState, absent, demand, IsHeapAddr}
use skip_os.VpAlloc.Grow.{Vmem, Vmem_weaken, state_of}
use skip_os.VpAlloc.Demand.{OnlyAt, alloc_demand}

-- The states of the heap with `n` pages from `va` on in one state.
unfoldable pub filled : ℕ → ℕ → PageState → (ℕ → PageState) → ℕ → PageState
filled va n st f x = if leb va x && ltb x (va + n * page_size) then st else f x

-- The states of the heap in `m'` are those given.
abbrev pub States : Memory → ℕ → (ℕ → PageState) → Type 0
States m l4 f = (x : ℕ) → IsHeapAddr x → state_of m l4 x ≡ f x

pub filled_none : (va : ℕ) (st : PageState) (f : ℕ → PageState) (x : ℕ) → filled va 0 st f x ≡ f x
unfolding filled
filled_none va st f x = ground arith

pub filled_in :
    (va n : ℕ) (st : PageState) (f : ℕ → PageState) (x : ℕ)
    → va ≤ x
    → x < va + n * page_size
    → filled va n st f x ≡ st
unfolding filled
filled_in va n st f x low high = ground arith

pub filled_out :
    (va n : ℕ) (st : PageState) (f : ℕ → PageState) (x : ℕ)
    → (x < va) ⊎ (va + n * page_size ≤ x)
    → filled va n st f x ≡ f x
unfolding filled
filled_out va n st f x (inl below) = ground arith
filled_out va n st f x (inr above) = ground arith

-- One page first, and then the rest.
pub filled_more :
    (m m1 : Memory) (l4 va n : ℕ) (st : PageState)
    → va % page_size ≡ 0
    → OnlyAt m m1 l4 va st
    → (x : ℕ) → IsHeapAddr x
    → filled (va + page_size) n st (state_of m1 l4) x ≡ filled va (suc n) st (state_of m l4) x
filled_more m m1 l4 va n st al only x hx = elim (ℕ_discrete x va) [
  | yes e ↦
      filled_out (va + page_size) n st (state_of m1 l4) x (inl (omega arith))
      ∙ ap (state_of m1 l4) e
      ∙ only.here
      ∙ sym (filled_in va (suc n) st (state_of m l4) x (omega arith) (omega arith))
  | no ne ↦
      let same = only.others x hx ne in
      elim (dec_lt x (va + page_size)) [
        | yes near ↦
            filled_out (va + page_size) n st (state_of m1 l4) x (inl near)
            ∙ same
            ∙ sym (filled_out va (suc n) st (state_of m l4) x (inl (omega arith)))
        | no far ↦ elim (dec_lt x (va + page_size + n * page_size)) [
          | yes inside ↦
              filled_in (va + page_size) n st (state_of m1 l4) x (omega arith) inside
              ∙ sym (filled_in va (suc n) st (state_of m l4) x (omega arith) (omega arith))
          | no past ↦
              filled_out (va + page_size) n st (state_of m1 l4) x (inr (omega arith))
              ∙ same
              ∙ sym (filled_out va (suc n) st (state_of m l4) x (inr (omega arith)))
        ]
      ]
]

-- The tables are in order, with `k` frames left, and from the top of the heap on all pages are
-- absent.
pub record IsHeap (s : Vm) (k : ℕ) : Type 0 where
  pub aligned : s.kern_heap_top % page_size ≡ 0
  pub low : 2 ^ 39 ≤ s.kern_heap_top
  pub vmem : Vmem s.mem s.l4_table k
  pub above : (x : ℕ) → IsHeapAddr x → s.kern_heap_top ≤ x → state_of s.mem s.l4_table x ≡ absent

-- What `MMU_alloc_pages` comes to.
pub record Allocated (num : ℕ) (s : Vm) (k : ℕ) : Type 0 where
  pub s' : Vm
  pub run : alloc_loop num s ≡ some (ok s')
  pub table : s'.l4_table ≡ s.l4_table
  pub top : s'.kern_heap_top ≡ s.kern_heap_top + num * page_size
  pub states :
      States s'.mem s.l4_table (filled s.kern_heap_top num demand (state_of s.mem s.l4_table))
  pub heap : IsHeap s' k

next-IsHeap :
    (s : Vm) (m' : Memory) (k n : ℕ)
    → IsHeap s n
    → OnlyAt s.mem m' s.l4_table s.kern_heap_top demand
    → Vmem m' s.l4_table k
    → IsHeap (record s { mem = m'; kern_heap_top = s.kern_heap_top + page_size }) k
next-IsHeap s m' k n h only vmem = record {
  aligned = (let a = h.aligned in omega arith);
  low = (let l = h.low in omega arith);
  vmem = vmem;
  above = λ x hx le. only.others x hx (λ e. omega arith) ∙ h.above x hx (omega arith);
}

loop_step :
    (n : ℕ) (s : Vm) (m' : Memory)
    → alloc_virtual_page s.mem s.l4_table s.kern_heap_top true ≡ some (ok m')
    → s.kern_heap_top + page_size < 2 ^ 64
    → alloc_loop (suc n) s
      ≡ alloc_loop n (record s { mem = m'; kern_heap_top = s.kern_heap_top + page_size })
unfolding alloc_loop
loop_step n s m' run small =
    let sum : add64 s.kern_heap_top page_size ≡ s.kern_heap_top + page_size = omega arith in
    rw (alloc_loop, run, sum) refl

allocated :
    (num k : ℕ) (s : Vm)
    → 0 < k
    → s.kern_heap_top + num * page_size ≤ 2 ^ 48
    → IsHeap s (3 * num + k)
    → Allocated num s k
unfolding alloc_loop
allocated zero k s pos fits h = record {
  s' = s;
  run = refl;
  table = refl;
  top = omega arith;
  states = λ x hx. sym (filled_none s.kern_heap_top demand (state_of s.mem s.l4_table) x);
  heap = record {
    aligned = h.aligned;
    low = h.low;
    vmem = Vmem_weaken s.mem s.l4_table (3 * 0 + k) k (omega arith) h.vmem;
    above = h.above;
  };
}
allocated (suc num) k s pos fits h =
    let top = s.kern_heap_top in
    let here : IsHeapAddr top = (h.aligned, h.low, omega arith) in
    let vmem =
      Vmem_weaken s.mem s.l4_table (3 * suc num + k) (3 + (3 * num + k)) (omega arith) h.vmem in
    let d =
      alloc_demand s.mem s.l4_table top (3 * num + k) (omega arith) vmem here
        (h.above top here (omega arith)) in
    let t : Vm = record s { mem = d.m'; kern_heap_top = top + page_size } in
    let rest =
      allocated num k t pos (omega arith)
        (next-IsHeap s d.m' (3 * num + k) (3 * suc num + k) h d.only d.vmem) in
    record {
      s' = rest.s';
      run = loop_step num s d.m' d.run (omega arith) ∙ rest.run;
      table = rest.table;
      top = rest.top ∙ omega arith;
      states = λ x hx.
          rest.states x hx ∙ filled_more s.mem d.m' s.l4_table top num demand h.aligned d.only x hx;
      heap = rest.heap;
    }

-- `MMU_alloc_pages`, on a heap in order with three frames left for each page and one more, below
-- 2^48: it returns the old top, the pages from there on are marked, all other pages keep their state,
-- the top is behind them, and the heap is in order.
pub pages_allocated :
    (num k : ℕ) (s : Vm)
    → 0 < k
    → s.kern_heap_top + num * page_size ≤ 2 ^ 48
    → IsHeap s (3 * num + k)
    → (s' : Vm) × (alloc_pages num s ≡ some (ok (s.kern_heap_top, s')))
      × (s'.kern_heap_top ≡ s.kern_heap_top + num * page_size)
      × (s'.l4_table ≡ s.l4_table)
      × States s'.mem s.l4_table (filled s.kern_heap_top num demand (state_of s.mem s.l4_table))
      × IsHeap s' k
unfolding alloc_pages
pages_allocated num k s pos fits h =
    let a = allocated num k s pos fits h in
    (a.s', rw (alloc_pages, a.run) refl, a.top, a.table, a.states, a.heap)
