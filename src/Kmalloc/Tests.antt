-- ===== src/Kmalloc/Tests.antt =====
-- The heap on the pages of the virtual page allocator, after the start of both.
use skip_os.Common.{update, ℕ, ◌+◌, ◌*◌, ◌≡◌, ◌==◌, refl, ok, if◌then◌else◌, arith, [], ◌∷◌}
use skip_os.Common.Words.{Memory}
use skip_os.PfAlloc.Spec.{Pool}
use skip_os.PfAlloc.Refine.{IsPool}
use skip_os.PfAlloc.Ownership.{Owned}
use skip_os.VpAlloc.{Vm, init_vp, kern_heap_base}
use skip_os.VpAlloc.Init.{IsHeap-started}
use skip_os.Kmalloc.{Heap, kmalloc, kfree, kmalloc_init}
use skip_os.Kmalloc.Pages.{IsHeap}
use skip_os.Kmalloc.Source.{vp_pages, vp_laws, VpReady}
use skip_os.Kmalloc.Init.{Started, kmalloc_init-Started}
use skip_os.Kmalloc.Calls.{Handed, kmalloc-Handed, kfree-IsHeap}

-- No free frame and 100 pages still to come.
abbrev pages_to_come : Memory
pages_to_come a =
    if a == 16 then 0x100000 else if a == 24 then 0x64000 else if a == 32 then 100 else 0

abbrev pool : Pool
pool = record { frames = []; base = 0x100000; unpooled = 100 }

pool-IsPool : IsPool pages_to_come pool
pool-IsPool = omega arith

pool-Owned : Owned [] pool.frames pool.base
pool-Owned = omega arith

vp_started :
    (t : Vm) × (init_vp pages_to_come ≡ ok t) × (t.kern_heap_top ≡ kern_heap_base) × VpReady 8 t
unfolding VpReady
vp_started =
    let (t, run, top, heap, states, identity) =
      IsHeap-started pages_to_come pool [] 90 pool-IsPool pool-Owned (omega arith) (omega arith) in
    (t, run, top, (66, omega arith, omega arith, heap))

abbrev pool_arr : ℕ
pool_arr = 0x8000

abbrev at_start : Heap vp_pages pool_arr
at_start = record {
  mem = λ a. 0;
  pools = λ i. record { avail = 0; head = 0 };
  source = vp_started.0;
}

started :
    Started vp_pages pool_arr vp_laws
      (kmalloc_init vp_pages pool_arr at_start)
      1
      (at_start.source.kern_heap_top + 7 * 4096)
started =
    kmalloc_init-Started vp_pages pool_arr vp_laws 1 at_start (λ i. refl) (λ i. refl)
      (omega (arith, vp_started.2)) (λ e. omega (arith, vp_started.2)) vp_started.3
      (omega (arith, vp_started.2))

kmalloc-Handed_example :
    Handed vp_pages pool_arr vp_laws started.own started.frees started.h 100
      (kmalloc vp_pages pool_arr 100 started.h)
kmalloc-Handed_example =
    kmalloc-Handed vp_pages pool_arr vp_laws started.own started.frees started.h started.heap
      (omega (arith, started.top, vp_started.2)) 100 (omega arith) (omega arith) started.ready

-- The block that was handed out is given back.
abbrev handed :
    Handed vp_pages pool_arr vp_laws started.own started.frees started.h 100
      (kmalloc vp_pages pool_arr 100 started.h)
handed =
    kmalloc-Handed vp_pages pool_arr vp_laws started.own started.frees started.h started.heap
      (omega (arith, started.top, vp_started.2)) 100 (omega arith) (omega arith) started.ready

kfree-IsHeap_example :
    (h' : Heap vp_pages pool_arr) × (kfree vp_pages pool_arr (handed.x + 16) handed.h' ≡ ok h')
    × IsHeap vp_pages pool_arr vp_laws handed.own'
        (update handed.i (handed.x ∷ handed.frees' handed.i) handed.frees')
        h'
    × ((h'.pools handed.i).avail ≡ (handed.h'.pools handed.i).avail)
kfree-IsHeap_example =
    kfree-IsHeap vp_pages pool_arr vp_laws handed.own' handed.frees' handed.h' handed.block.heap
      (omega (arith, handed.grows, started.top, vp_started.2)) handed.i handed.x handed.block.pool
      handed.block.chunk handed.block.taken handed.block.pool_word (λ e. omega arith) handed.below
