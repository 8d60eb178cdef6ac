-- ===== src/VpAlloc/Tests.antt =====
-- The virtual page allocator from its start on a pool of 100 pages, at concrete calls.
use skip_os.Common.{
  ℕ, ◌+◌, ◌*◌, ◌^◌, ◌≤◌, ◌<◌, ◌≡◌, ◌≢◌, refl, sym, ap, ◌∙◌, subst, if◌then◌else◌, ◌==◌, arith, List,
  [], ◌∷◌, some, ok, halted, ltb,
}
use skip_os.Common.Words.{Memory}
use skip_os.PfAlloc.{page_size}
use skip_os.PfAlloc.Spec.{Pool}
use skip_os.PfAlloc.Refine.{IsPool}
use skip_os.PfAlloc.Ownership.{Owned}
use skip_os.Interrupt.{pf_int_num}
use skip_os.VpAlloc.{Vm, alloc_pages, page_fault_handler, free_pages}
use skip_os.VpAlloc.Tables.{PageState, absent, demand, IsHeapAddr}
use skip_os.VpAlloc.Grow.{Vmem, state_of}
use skip_os.VpAlloc.{init_vp, kern_heap_base, get_physical_addr}
use skip_os.VpAlloc.Handler.{fault_page, Filled, fault-Filled, fault_refused}
use skip_os.VpAlloc.Pages.{IsHeap, States, filled, filled_in, pages_allocated}
use skip_os.VpAlloc.Release.{InUse, frames_in, pages_freed, freed_twice}
use skip_os.VpAlloc.Init.{Identity, IsHeap-started}
use skip_os.VpAlloc.Space.{
  Op, alloc, touch, release, free, marked, present, kind, Space, is_marked, is_free, fill,
  none_free, spec_op, spec_all, run_all, op_cost, cost, Models,
}
use skip_os.VpAlloc.Sequence.{run_all-spec_all, get_physical_addr-apart}
use skip_os.VpAlloc.Physical.{frame_or_null, get_physical_addr-state}

-- No free frame and 100 pages still to come.
abbrev pages_to_come : Memory
pages_to_come a =
    if a == 16 then 0x100000 else if a == 24 then 0x64000 else if a == 32 then 100 else 0

abbrev pool : Pool
pool = record { frames = []; base = 0x100000; unpooled = 100 }

pool-IsPool : IsPool pages_to_come pool
pool-IsPool = omega arith

pool-Owned : Owned [] pool.frames pool.base
pool-Owned = omega arith

IsHeap-started_example :
    (t : Vm) × (init_vp pages_to_come ≡ ok t)
    × (t.kern_heap_top ≡ kern_heap_base)
    × IsHeap t 36
    × States t.mem t.l4_table (λ x. absent)
    × Identity t.mem t.l4_table
IsHeap-started_example =
    IsHeap-started pages_to_come pool [] 36 pool-IsPool pool-Owned (omega arith) (omega arith)

-- The heap with two pages.
abbrev start : Vm
start = IsHeap-started_example.0

start_fits : start.kern_heap_top + 2 * page_size ≤ 2 ^ 48
start_fits = omega (arith, IsHeap-started_example.2)

pages_allocated_example :
    (s' : Vm) × (alloc_pages 2 start ≡ some (ok (start.kern_heap_top, s')))
    × (s'.kern_heap_top ≡ start.kern_heap_top + 2 * page_size)
    × (s'.l4_table ≡ start.l4_table)
    × States s'.mem start.l4_table
        (filled start.kern_heap_top 2 demand (state_of start.mem start.l4_table))
    × IsHeap s' 30
pages_allocated_example =
    pages_allocated 2 30 start (omega arith) start_fits IsHeap-started_example.3

abbrev two : Vm
two = pages_allocated_example.0

two_vmem : Vmem two.mem start.l4_table 30
two_vmem = subst (λ l. Vmem two.mem l 30) pages_allocated_example.3 pages_allocated_example.5.vmem

two_marked :
    (x : ℕ)
    → IsHeapAddr x
    → kern_heap_base ≤ x
    → x < kern_heap_base + 2 * page_size
    → state_of two.mem start.l4_table x ≡ demand
two_marked x hx low high =
    pages_allocated_example.4 x hx
    ∙ filled_in start.kern_heap_top 2 demand (state_of start.mem start.l4_table) x
        (omega (arith, IsHeap-started_example.2)) (omega (arith, IsHeap-started_example.2))

-- A fault in the first page.
fault-Filled_example : Filled two.mem start.l4_table (kern_heap_base + 5) 29 two_vmem
fault-Filled_example =
    fault-Filled two.mem start.l4_table (kern_heap_base + 5) 29 two_vmem (omega arith) (omega arith)
      (two_marked (fault_page (kern_heap_base + 5)) (omega arith) (omega arith) (omega arith))

fault_refused_example :
    page_fault_handler start.mem pf_int_num start.l4_table (kern_heap_base + 5) ≡ halted
fault_refused_example =
    fault_refused start.mem start.l4_table (kern_heap_base + 5) 36 IsHeap-started_example.3.vmem
      (omega arith)
      (λ e.
        let clash : absent ≡ demand =
          sym (IsHeap-started_example.4 (fault_page (kern_heap_base + 5)) (omega arith)) ∙ e in
        cc)

not_absent : (st : PageState) → st ≡ demand → st ≢ absent
not_absent st e z = let clash : demand ≡ absent = sym e ∙ z in cc

two_InUse : InUse two.mem start.l4_table kern_heap_base 2
unfolding InUse
two_InUse = (
  not_absent _ (two_marked kern_heap_base (omega arith) (omega arith) (omega arith)),
  (
    not_absent _
        (two_marked (kern_heap_base + page_size) (omega arith) (omega arith) (omega arith)),
    tt,
  ),
)

abbrev two_pages : Vm
two_pages = record two { l4_table = start.l4_table }

pages_freed_example :
    (s' : Vm) × (free_pages kern_heap_base 2 two_pages ≡ ok s')
    × (s'.kern_heap_top ≡ two_pages.kern_heap_top)
    × (s'.l4_table ≡ two_pages.l4_table)
    × States s'.mem two_pages.l4_table
        (filled kern_heap_base 2 absent (state_of two_pages.mem two_pages.l4_table))
    × Vmem s'.mem two_pages.l4_table
        (30 + frames_in two_pages.mem two_pages.l4_table kern_heap_base 2)
pages_freed_example =
    pages_freed 2 30 kern_heap_base two_pages (omega arith) refl (omega arith) (omega arith)
      two_InUse two_vmem

freed_twice_example :
    (s' : Vm) × (free_pages kern_heap_base 2 two_pages ≡ ok s')
    × (free_pages kern_heap_base 1 s' ≡ halted)
freed_twice_example =
    freed_twice 2 1 30 kern_heap_base two_pages (omega arith) (omega arith) refl (omega arith)
      (omega arith) two_InUse two_vmem

get_physical_addr-state_example :
    get_physical_addr two.mem start.l4_table kern_heap_base
    ≡ ok (
        if ltb kern_heap_base (2 ^ 39)
        then kern_heap_base
        else frame_or_null (state_of two.mem start.l4_table kern_heap_base))
get_physical_addr-state_example =
    get_physical_addr-state two.mem start.l4_table 30 kern_heap_base two_vmem refl (omega arith)

-- Two pages, a use of the first, and its release.
abbrev calls : List Op
calls = alloc 2 ∷ touch (kern_heap_base + 5) ∷ release kern_heap_base 1 ∷ []

abbrev empty_space : Space
empty_space = record { top = kern_heap_base; page = λ x. free }

abbrev after_calls : Space
after_calls = record {
  top = kern_heap_base + 2 * page_size;
  page =
      fill kern_heap_base 1 free
        (fill kern_heap_base 1 present (fill kern_heap_base 2 marked (λ x. free)));
}

start-Models : Models start empty_space 36
unfolding kind
start-Models = record {
  heap = IsHeap-started_example.3;
  top = IsHeap-started_example.2;
  pages = λ x hx. ap kind (IsHeap-started_example.4 x hx);
}

calls_allowed : spec_all calls empty_space ≡ some after_calls
unfolding spec_all spec_op fill is_marked none_free is_free
calls_allowed = refl

run_all-spec_all_example :
    (s' : Vm) × (run_all calls start ≡ some (ok s')) × Models s' after_calls 29
unfolding cost op_cost
run_all-spec_all_example =
    run_all-spec_all calls start empty_space after_calls 29 (omega arith) start-Models calls_allowed

-- Two pages, and a use of each.
abbrev uses : List Op
uses = alloc 2 ∷ touch (kern_heap_base + 5) ∷ touch (kern_heap_base + page_size) ∷ []

abbrev both_used : Space
both_used = record {
  top = kern_heap_base + 2 * page_size;
  page =
      fill (kern_heap_base + page_size) 1 present
        (fill kern_heap_base 1 present (fill kern_heap_base 2 marked (λ x. free)));
}

uses_allowed : spec_all uses empty_space ≡ some both_used
unfolding spec_all spec_op fill is_marked none_free is_free
uses_allowed = refl

abbrev used : (s' : Vm) × (run_all uses start ≡ some (ok s')) × Models s' both_used 28
unfolding cost op_cost
used = run_all-spec_all uses start empty_space both_used 28 (omega arith) start-Models uses_allowed

first_used : both_used.page kern_heap_base ≡ present
unfolding fill
first_used = refl

start-Models_uses : Models start empty_space (cost uses + 28)
unfolding cost op_cost
start-Models_uses = start-Models

get_physical_addr-apart_example : kern_heap_base ≡ kern_heap_base
get_physical_addr-apart_example =
    get_physical_addr-apart uses start used.0 empty_space both_used 28 kern_heap_base kern_heap_base
      (omega arith) start-Models_uses uses_allowed used.1 (omega arith) (omega arith) first_used
      first_used refl
