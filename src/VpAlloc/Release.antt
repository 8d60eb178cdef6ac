-- ===== src/VpAlloc/Release.antt =====
-- `MMU_free_pages`, for any number of pages, against the states of the heap.
use skip_os.Common.{
  ℕ, zero, suc, ◌+◌, ◌*◌, ◌%◌, ◌^◌, ◌≤◌, ◌<◌, ◌≡◌, ◌≢◌, refl, sym, ◌∙◌, subst, arith, ok, halted,
  ==_iff, lt→ltb,
}
use skip_os.Common.Words.{Memory, add64}
use skip_os.PfAlloc.{page_size}
use skip_os.VpAlloc.{Vm, free_one, free_loop, free_pages}
use skip_os.VpAlloc.Tables.{PageState, absent, IsHeapAddr}
use skip_os.VpAlloc.Grow.{Vmem, Vmem_weaken, state_of}
use skip_os.VpAlloc.Demand.{OnlyAt}
use skip_os.VpAlloc.Free.{frames_of, freed, free_refused}
use skip_os.VpAlloc.Pages.{filled, States, filled_none, filled_in, filled_more}

-- The frames of the `n` pages from `va` on.
unfoldable pub frames_in : Memory → ℕ → ℕ → ℕ → ℕ
unfolding frames_of
frames_in m l4 va zero = 0
frames_in m l4 va (suc n) = frames_of (state_of m l4 va) + frames_in m l4 (va + page_size) n

-- None of the `n` pages from `va` on is absent.
unfoldable pub InUse : Memory → ℕ → ℕ → ℕ → Type 0
InUse m l4 va zero = Unit
InUse m l4 va (suc n) = (state_of m l4 va ≢ absent) × InUse m l4 (va + page_size) n

InUse-others :
    (m m1 : Memory) (l4 top va n : ℕ) (st : PageState)
    → OnlyAt m m1 l4 top st
    → top < va
    → 2 ^ 39 ≤ va
    → va % page_size ≡ 0
    → va + n * page_size ≤ 2 ^ 48
    → InUse m l4 va n
    → InUse m1 l4 va n × (frames_in m1 l4 va n ≡ frames_in m l4 va n)
unfolding InUse frames_in
InUse-others m m1 l4 top va zero st only lt low al fits u = (tt, refl)
InUse-others m m1 l4 top va (suc n) st only lt low al fits u =
    let same = only.others va (al, low, omega arith) (λ e. omega arith) in
    let (rest, count) =
      InUse-others m m1 l4 top (va + page_size) n st only (omega arith) (omega arith) (omega arith)
        (omega arith) u.1 in
    ((λ e. u.0 (sym same ∙ e), rest), rw (same, count) refl)

-- What the loop of `MMU_free_pages` comes to.
record Emptied (num : ℕ) (m : Memory) (l4 va k : ℕ) : Type 0 where
  m' : Memory
  run : free_loop num m l4 va ≡ ok m'
  states : States m' l4 (filled va num absent (state_of m l4))
  vmem : Vmem m' l4 (k + frames_in m l4 va num)

free_step :
    (n : ℕ) (m m' : Memory) (l4 va : ℕ)
    → free_one m l4 va ≡ ok m'
    → va + page_size < 2 ^ 64
    → free_loop (suc n) m l4 va ≡ free_loop n m' l4 (va + page_size)
unfolding free_loop
free_step n m m' l4 va run small =
    let sum : add64 va page_size ≡ va + page_size = omega arith in rw (free_loop, run, sum) refl

emptied :
    (num k : ℕ) (m : Memory) (l4 va : ℕ)
    → va % page_size ≡ 0
    → 2 ^ 39 ≤ va
    → va + num * page_size ≤ 2 ^ 48
    → InUse m l4 va num
    → Vmem m l4 k
    → Emptied num m l4 va k
unfolding free_loop frames_in InUse
emptied zero k m l4 va al low fits u v = record {
  m' = m;
  run = refl;
  states = λ x hx. sym (filled_none va absent (state_of m l4) x);
  vmem = Vmem_weaken m l4 k (k + 0) (omega arith) v;
}
emptied (suc num) k m l4 va al low fits u v =
    let f = freed m l4 va k v (al, low, omega arith) u.0 in
    let (used, count) =
      InUse-others m f.m' l4 va (va + page_size) num absent f.only (omega arith) (omega arith)
        (omega arith) (omega arith) u.1 in
    let rest =
      emptied num (k + frames_of (state_of m l4 va)) f.m' l4 (va + page_size) (omega arith)
        (omega arith) (omega arith) used f.vmem in
    record {
      m' = rest.m';
      run = free_step num m f.m' l4 va f.run (omega arith) ∙ rest.run;
      states = λ x hx. rest.states x hx ∙ filled_more m f.m' l4 va num absent al f.only x hx;
      vmem =
          Vmem_weaken rest.m' l4
            (k + frames_of (state_of m l4 va) + frames_in f.m' l4 (va + page_size) num)
            (k + (frames_of (state_of m l4 va) + frames_in m l4 (va + page_size) num))
            (omega (arith, count)) rest.vmem;
    }

-- `MMU_free_pages` of pages of the heap of which none is absent: they are absent, all other pages
-- keep their state, and their frames are left again.
pub pages_freed :
    (num k vp : ℕ) (s : Vm)
    → 0 < num
    → vp % page_size ≡ 0
    → 2 ^ 39 ≤ vp
    → vp + num * page_size ≤ 2 ^ 48
    → InUse s.mem s.l4_table vp num
    → Vmem s.mem s.l4_table k
    → (s' : Vm) × (free_pages vp num s ≡ ok s')
      × (s'.kern_heap_top ≡ s.kern_heap_top)
      × (s'.l4_table ≡ s.l4_table)
      × States s'.mem s.l4_table (filled vp num absent (state_of s.mem s.l4_table))
      × Vmem s'.mem s.l4_table (k + frames_in s.mem s.l4_table vp num)
unfolding free_pages
pages_freed num k vp s pos al low fits u v =
    let e = emptied num k s.mem s.l4_table vp al low fits u v in
    (
      record s { mem = e.m' },
      rw (free_pages, (==_iff (vp % page_size) 0).1 al, lt→ltb 0 num pos, e.run) refl,
      refl,
      refl,
      e.states,
      e.vmem,
    )

absent_refused :
    (n k vp : ℕ) (s : Vm)
    → IsHeapAddr vp
    → Vmem s.mem s.l4_table k
    → state_of s.mem s.l4_table vp ≡ absent
    → free_pages vp (suc n) s ≡ halted
unfolding free_pages free_loop
absent_refused n k vp s h v st =
    rw
      (
        free_pages,
        (==_iff (vp % page_size) 0).1 h.0,
        lt→ltb 0 (suc n) (omega arith),
        free_refused s.mem s.l4_table vp k v h st,
      )
      refl

-- Pages that were freed cannot be freed again: the machine stops.
pub freed_twice :
    (num again k vp : ℕ) (s : Vm)
    → 0 < num
    → 0 < again
    → vp % page_size ≡ 0
    → 2 ^ 39 ≤ vp
    → vp + num * page_size ≤ 2 ^ 48
    → InUse s.mem s.l4_table vp num
    → Vmem s.mem s.l4_table k
    → (s' : Vm) × (free_pages vp num s ≡ ok s') × (free_pages vp again s' ≡ halted)
freed_twice num zero k vp s pos pos2 al low fits u v = absurd (omega arith)
freed_twice num (suc again) k vp s pos pos2 al low fits u v =
    let (t, run, top, table, states, vmem) = pages_freed num k vp s pos al low fits u v in
    let h : IsHeapAddr vp = (al, low, omega arith) in
    let gone =
      states vp h
      ∙ filled_in vp num absent (state_of s.mem s.l4_table) vp (omega arith) (omega arith) in
    (
      t,
      run,
      absent_refused again (k + frames_in s.mem s.l4_table vp num) vp t h
          (subst (λ l. Vmem t.mem l (k + frames_in s.mem s.l4_table vp num)) (sym table) vmem)
          (subst (λ l. state_of t.mem l vp ≡ absent) (sym table) gone),
    )
