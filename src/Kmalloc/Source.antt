-- ===== src/Kmalloc/Source.antt =====
-- The pages of the heap come from the virtual page allocator, core/src/vp_alloc.c.
use skip_os.Common.{
  ℕ, ◌+◌, ◌*◌, ◌^◌, ◌≤◌, ◌<◌, ◌≡◌, refl, Run, ok, halted, none, some, arith, subst,
}
use skip_os.PfAlloc.{page_size}
use skip_os.VpAlloc.{Vm, alloc_pages, free_pages}
use skip_os.VpAlloc.Pages.{IsHeap, pages_allocated}
use skip_os.Kmalloc.{PageSource}
use skip_os.Kmalloc.Pages.{PageLaws}

-- `MMU_alloc_pages` has fuel enough, and `none` does not occur.
unfoldable pub vp_alloc_pages : ℕ → Vm → Run (ℕ × Vm)
vp_alloc_pages n s = elim (alloc_pages n s) [ none ↦ halted | some r ↦ r ]

abbrev pub vp_pages : PageSource
vp_pages = record {
  Source = Vm;
  alloc_pages = vp_alloc_pages;
  free_pages = λ p n s. free_pages p n s;
}

-- The tables are in order, and there are addresses and frames for `n` pages: three tables for each.
unfoldable pub VpReady : ℕ → Vm → Type 0
VpReady n s = (k : ℕ) × (0 < k) × (s.kern_heap_top + n * page_size ≤ 2 ^ 48) × IsHeap s (3 * n + k)

pub vp_page :
    (n j : ℕ) (s : Vm)
    → VpReady (n + j) s
    → (s' : Vm) × (vp_alloc_pages n s ≡ ok (s.kern_heap_top, s'))
      × (s'.kern_heap_top ≡ s.kern_heap_top + n * page_size)
      × VpReady j s'
unfolding vp_alloc_pages VpReady
vp_page n j s (k, pos, fits, heap) =
    let (s', run, top, table, states, heap') =
      pages_allocated n (3 * j + k) s (omega arith) (omega arith)
        (subst (IsHeap s) (omega arith) heap) in
    (s', rw (vp_alloc_pages, run) refl, top, (k, pos, omega arith, heap'))

-- The promises hold of the virtual page allocator.
abbrev pub vp_laws : PageLaws vp_pages
vp_laws = record { top = λ s. s.kern_heap_top; Ready = VpReady; page = vp_page }
