-- ===== src/VpAlloc/Steps.antt =====
-- Single allocations, first uses and releases, against the abstract heap.
use skip_os.Common.{
  ℕ, zero, suc, ◌+◌, ◌*◌, ◌%◌, ◌^◌, ◌≤◌, ◌<◌, ◌≡◌, ◌≢◌, inl, inr, refl, sym, ap, ◌∙◌, subst, Bool,
  true, false, not, ◌&&◌, Bool-cases, arith, some, ok, ltb, leb,
}
use skip_os.Common.Words.{Memory}
use skip_os.PfAlloc.{page_size}
use skip_os.VpAlloc.{Vm}
use skip_os.VpAlloc.Tables.{PageState, absent, demand, mapped, IsHeapAddr}
use skip_os.VpAlloc.Grow.{Vmem, Vmem_weaken, state_of}
use skip_os.VpAlloc.Handler.{fault_page, fault-Filled}
use skip_os.VpAlloc.Pages.{filled, filled_none, filled_more, pages_allocated}
use skip_os.VpAlloc.Release.{InUse, frames_in, pages_freed}
use skip_os.VpAlloc.Space.{
  Op, alloc, touch, release, Kind, free, marked, present, kind, Space, is_marked, is_free, fill,
  none_free, run_op, Models, kind-filled,
}

-- One call.
pub record Stepped (op : Op) (s : Vm) (b : Space) (k : ℕ) : Type 0 where
  pub s' : Vm
  pub run : run_op op s ≡ some (ok s')
  pub models : Models s' b k

pub alloc_step :
    (n k : ℕ) (s : Vm) (a : Space)
    → 0 < k
    → a.top + n * page_size ≤ 2 ^ 48
    → Models s a (3 * n + k)
    → Stepped
        (alloc n)
        s
        (record { top = a.top + n * page_size; page = fill a.top n marked a.page })
        k
unfolding kind run_op
alloc_step n k s a pos fits v =
    let (s', run, top, table, states, heap) =
      pages_allocated n k s pos (omega (arith, v.top)) v.heap in
    record {
      s' = s';
      run = rw (run_op, run) refl;
      models = record {
        heap = heap;
        top = omega (arith, top, v.top);
        pages = λ x hx.
            ap (λ l. kind (state_of s'.mem l x)) table
            ∙ ap kind (states x hx)
            ∙ kind-filled s.kern_heap_top n demand (state_of s.mem s.l4_table) a.page x
                (v.pages x hx)
            ∙ ap (λ t. fill t n marked a.page x) v.top;
      };
    }

marked_demand : (st : PageState) → is_marked (kind st) ≡ true → st ≡ demand
unfolding kind is_marked
marked_demand absent e = cc
marked_demand demand e = refl
marked_demand (mapped f) e = cc

pub touch_step :
    (cr2 k : ℕ) (s : Vm) (a : Space)
    → 0 < k
    → IsHeapAddr (fault_page cr2)
    → is_marked (a.page (fault_page cr2)) ≡ true
    → Models s a (1 + k)
    → Stepped (touch cr2) s (record a { page = fill (fault_page cr2) 1 present a.page }) k
unfolding kind run_op
touch_step cr2 k s a pos h marked_page v =
    let va = fault_page cr2 in
    let st =
      marked_demand (state_of s.mem s.l4_table va) (ap is_marked (v.pages va h) ∙ marked_page) in
    let f =
      fault-Filled s.mem s.l4_table cr2 k
        (Vmem_weaken s.mem s.l4_table (1 + k) (suc k) (omega arith) v.heap.vmem) pos h st in
    let below : (x : ℕ) → IsHeapAddr x → s.kern_heap_top ≤ x → x ≢ va = (λ x hx le e.
      let clash : absent ≡ demand =
        sym (v.heap.above x hx le) ∙ ap (state_of s.mem s.l4_table) e ∙ st in
      cc) in
    record {
      s' = record s { mem = f.m' };
      run = rw (run_op, f.run) refl;
      models = record {
        heap = record {
          aligned = v.heap.aligned;
          low = v.heap.low;
          vmem = f.vmem;
          above = λ x hx le. f.only.others x hx (below x hx le) ∙ v.heap.above x hx le;
        };
        top = v.top;
        pages = λ x hx.
            ap kind (
              sym (filled_none (va + page_size) (mapped f.new_page) (state_of f.m' s.l4_table) x)
              ∙ filled_more s.mem f.m' s.l4_table va 0 (mapped f.new_page) h.0 f.only x hx)
            ∙ kind-filled va 1 (mapped f.new_page) (state_of s.mem s.l4_table) a.page x
                (v.pages x hx);
      };
    }

used : (st : PageState) → not (is_free (kind st)) ≡ true → st ≢ absent
unfolding kind is_free
used absent e z = cc
used demand e z = cc
used (mapped f) e z = cc

pub and_split : (a b : Bool) → a && b ≡ true → (a ≡ true) × (b ≡ true)
and_split true b e = (refl, e)
and_split false b e = cc

none_free-InUse :
    (m : Memory) (l4 va n : ℕ) (f : ℕ → Kind)
    → ((x : ℕ) → IsHeapAddr x → kind (state_of m l4 x) ≡ f x)
    → va % page_size ≡ 0
    → 2 ^ 39 ≤ va
    → va + n * page_size ≤ 2 ^ 48
    → none_free va n f ≡ true
    → InUse m l4 va n
unfolding none_free InUse
none_free-InUse m l4 va zero f pages al low fits e = tt
none_free-InUse m l4 va (suc n) f pages al low fits e =
    let both = and_split (not (is_free (f va))) (none_free (va + page_size) n f) e in
    (
      used (state_of m l4 va)
          (ap (λ c. not (is_free c)) (pages va (al, low, omega arith)) ∙ both.0),
      none_free-InUse m l4 (va + page_size) n f pages (omega arith) (omega arith) (omega arith)
          both.1,
    )

still_absent :
    (va n : ℕ) (f : ℕ → PageState) (x : ℕ) → f x ≡ absent → filled va n absent f x ≡ absent
unfolding filled
still_absent va n f x e = elim (Bool-cases (leb va x && ltb x (va + n * page_size))) [
  | inl inside ↦ rw inside refl
  | inr outside ↦ rw outside e
]

pub give_step :
    (vp n k : ℕ) (s : Vm) (a : Space)
    → vp % page_size ≡ 0
    → 0 < n
    → 2 ^ 39 ≤ vp
    → vp + n * page_size ≤ 2 ^ 48
    → none_free vp n a.page ≡ true
    → Models s a k
    → Stepped (release vp n) s (record a { page = fill vp n free a.page }) k
unfolding kind run_op
give_step vp n k s a al pos low fits in_use v =
    let u = none_free-InUse s.mem s.l4_table vp n a.page v.pages al low fits in_use in
    let (s', run, top, table, states, vmem) = pages_freed n k vp s pos al low fits u v.heap.vmem in
    let back = (λ (x : ℕ). ap (λ l. state_of s'.mem l x) table) in
    record {
      s' = s';
      run = ap some run;
      models = record {
        heap = record {
          aligned = ap (λ t. t % page_size) top ∙ v.heap.aligned;
          low = omega (arith, top, v.heap.low);
          vmem =
              subst (λ l. Vmem s'.mem l k) (sym table)
                (Vmem_weaken s'.mem s.l4_table (k + frames_in s.mem s.l4_table vp n) k (omega arith)
                  vmem);
          above = λ x hx le.
              back x
              ∙ states x hx
              ∙ still_absent vp n (state_of s.mem s.l4_table) x
                  (v.heap.above x hx (omega (arith, top, le)));
        };
        top = top ∙ v.top;
        pages = λ x hx.
            ap kind (back x ∙ states x hx)
            ∙ kind-filled vp n absent (state_of s.mem s.l4_table) a.page x (v.pages x hx);
      };
    }
