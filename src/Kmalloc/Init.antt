-- ===== src/Kmalloc/Init.antt =====
-- `kmalloc_init`: the heap with a page in each pool.
use skip_os.Common.{
  ℕ, zero, suc, ◌+◌, ◌*◌, ◌%◌, ◌^◌, ◌≤◌, ◌<◌, ◌≡◌, ◌≢◌, Run, refl, sym, ap, subst, List, [], arith,
  ok, ==_iff, ne→==_false,
}
use native.Mathlib.Decide.{ℕ_discrete}
use skip_os.PfAlloc.{page_size}
use skip_os.Kmalloc.{PageSource, Heap, set_pool, add_page, add_chunks, init_loop, kmalloc_init}
use skip_os.Kmalloc.Chunks.{Chain}
use skip_os.Kmalloc.Pages.{PageLaws, IsHeap}
use skip_os.Kmalloc.NewPage.{add_page-IsHeap, top_after}

module _ (pages : PageSource) (pool_arr : ℕ) (laws : PageLaws pages) where
  -- The heap with the count of pool `i` set to 0.
  abbrev emptied : ℕ → Heap pages pool_arr → Heap pages pool_arr
  emptied i h = record h {
    pools = set_pool pages pool_arr i (record (h.pools i) { avail = 0 }) h.pools;
  }

  emptied_pool :
      (h : Heap pages pool_arr) (i j : ℕ)
      → (((emptied i h).pools j).head ≡ (h.pools j).head)
        × (((emptied i h).pools j).avail ≤ (h.pools j).avail)
  unfolding set_pool
  emptied_pool h i j = elim (ℕ_discrete j i) [
    | yes e ↦ rw ((==_iff j i).1 e) (ap (λ k. (h.pools k).head) (sym e), omega arith)
    | no ne ↦ rw (ne→==_false j i ne) (refl, omega arith)
  ]

  emptied-IsHeap :
      (own : ℕ → ℕ) (frees : ℕ → List ℕ) (h : Heap pages pool_arr) (i : ℕ)
      → IsHeap pages pool_arr laws own frees h
      → IsHeap pages pool_arr laws own frees (emptied i h)
  emptied-IsHeap own frees h i v = record {
    chain =
        λ j lt. subst (λ k. Chain h.mem k (frees j)) (sym (emptied_pool h i j).0) (v.chain j lt);
    chunks = v.chunks;
    distinct = v.distinct;
    avail = λ j lt. omega (arith, (emptied_pool h i j).1, v.avail j lt);
    ahead = v.ahead;
    aligned = v.aligned;
    nonzero = v.nonzero;
  }

  -- What the start comes to.
  pub record Started (r : Run (Heap pages pool_arr)) (j end : ℕ) : Type 0 where
    pub own : ℕ → ℕ
    pub frees : ℕ → List ℕ
    pub h : Heap pages pool_arr
    pub run : r ≡ ok h
    pub heap : IsHeap pages pool_arr laws own frees h
    pub top : laws.top h.source ≡ end
    pub ready : laws.Ready j h.source

  init_loop-Started :
      (n i j : ℕ) (own : ℕ → ℕ) (frees : ℕ → List ℕ) (h : Heap pages pool_arr)
      → IsHeap pages pool_arr laws own frees h
      → i + n ≤ 7
      → laws.Ready (n + j) h.source
      → laws.top h.source + n * page_size < 2 ^ 64
      → Started (init_loop pages pool_arr n i h) j (laws.top h.source + n * page_size)
  unfolding init_loop add_page
  init_loop-Started zero i j own frees h v le ready room = record {
    own = own;
    frees = frees;
    h = h;
    run = refl;
    heap = v;
    top = omega arith;
    ready = subst (λ k. laws.Ready k h.source) (omega arith) ready;
  }
  init_loop-Started (suc n) i j own frees h v le ready room =
      let v0 = emptied-IsHeap own frees h i v in
      let (source, run, moved, left) =
        laws.page 1 (n + j) h.source (subst (λ k. laws.Ready k h.source) (omega arith) ready) in
      let one_more : laws.top source ≡ laws.top h.source + page_size = omega arith in
      let small : laws.top h.source + page_size < 2 ^ 64 = omega arith in
      let w =
        add_page-IsHeap pages pool_arr laws own frees (emptied i h) v0 i (omega arith) small source
          one_more in
      let h1 = add_chunks pages pool_arr i (laws.top h.source) source (emptied i h) in
      let same =
        top_after pages pool_arr laws own frees (emptied i h) v0 i (omega arith) small source
          one_more in
      let rest = init_loop-Started n (i + 1) j _ _ h1 w (omega arith) left (omega arith) in
      record {
        own = rest.own;
        frees = rest.frees;
        h = rest.h;
        run = rw run rest.run;
        heap = rest.heap;
        top = omega (arith, rest.top);
        ready = rest.ready;
      }

  -- `kmalloc_init` on pools with no free chunk, while the page allocator is ready for seven pages:
  -- it stops at no assertion, and the heap is described, with a page handed to each pool.
  pub kmalloc_init-Started :
      (j : ℕ) (h : Heap pages pool_arr)
      → ((i : ℕ) → (h.pools i).head ≡ 0)
      → ((i : ℕ) → (h.pools i).avail ≡ 0)
      → laws.top h.source % page_size ≡ 0
      → laws.top h.source ≢ 0
      → laws.Ready (7 + j) h.source
      → laws.top h.source + 7 * page_size < 2 ^ 64
      → Started (kmalloc_init pages pool_arr h) j (laws.top h.source + 7 * page_size)
  unfolding kmalloc_init
  kmalloc_init-Started j h heads none_yet aligned nonzero ready room =
      init_loop-Started 7 0 j (λ g. 8) (λ i. []) h
        (record {
          chain = λ i lt. heads i;
          chunks = λ i lt. tt;
          distinct = λ i lt. tt;
          avail = λ i lt. omega (arith, none_yet i);
          ahead = λ g le. refl;
          aligned = aligned;
          nonzero = nonzero;
        })
        (omega arith) ready room
