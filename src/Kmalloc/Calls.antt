-- ===== src/Kmalloc/Calls.antt =====
-- `kmalloc` and `kfree` as a whole, for sizes that a pool holds.
use skip_os.Common.{
  update, update_at, update_ne, ℕ, zero, suc, ◌+◌, ◌-◌, ◌*◌, ◌/◌, ◌^◌, ◌≤◌, ◌<◌, ◌≡◌, ◌≢◌, refl,
  sym, ap, ◌∙◌, subst, some, List, [], ◌∷◌, ◌++◌, length, All, Fresh, arith, ◌⊎◌, inl, inr, Run, ok,
  ◌>>=◌, lt→ltb, ne→==_false, ==_iff, ==_refl,
}
use skip_os.Common.Words.{add64, sub64}
use native.Mathlib.Decide.{ℕ_discrete}
use skip_os.PfAlloc.{page_size}
use skip_os.Kmalloc.{
  PageSource, Heap, max_size, set_pool, add_page, add_chunks, take_chunk, give_chunk, refill,
  kmalloc, kfree, get_best_pool, pool_ptr, pool_index,
}
use skip_os.Kmalloc.Chunks.{row}
use skip_os.Kmalloc.Pages.{PageLaws, IsChunk, IsHeap}
use skip_os.Kmalloc.BestPool.{get_best_pool-least, best_large}
use skip_os.Kmalloc.NewPage.{frees_below, longer, new_own, new_frees, add_page-IsHeap}
use skip_os.Kmalloc.Blocks.{
  after_addr, after_pool, after_size, rest_Fresh, given_avail, take_chunk-IsHeap, give_chunk-IsHeap,
}

page_count : (i : ℕ) → i < 7 → (0 < page_size / max_size i) × (page_size / max_size i ≤ 128)
page_count zero h = (omega arith, omega arith)
page_count (suc zero) h = (omega arith, omega arith)
page_count (suc (suc zero)) h = (omega arith, omega arith)
page_count (suc (suc (suc zero))) h = (omega arith, omega arith)
page_count (suc (suc (suc (suc zero)))) h = (omega arith, omega arith)
page_count (suc (suc (suc (suc (suc zero))))) h = (omega arith, omega arith)
page_count (suc (suc (suc (suc (suc (suc zero)))))) h = (omega arith, omega arith)
page_count (suc (suc (suc (suc (suc (suc (suc i))))))) h = absurd (omega arith)

nonempty : (ys : List ℕ) → length ys ≢ 0 → (x : ℕ) × (xs : List ℕ) × (ys ≡ x ∷ xs)
nonempty [] ne = absurd (ne refl)
nonempty (y ∷ ys) ne = (y, ys, refl)

-- What a block of `size` bytes at `x + 16` is to be: a chunk of a pool that is large enough, with its
-- header, taken out of the free list `old`, or off a page that is new from `top` on.
pub record Block (pages : PageSource) (pool_arr : ℕ) (laws : PageLaws pages) (own : ℕ → ℕ)
    (frees : ℕ → List ℕ) (h : Heap pages pool_arr) (size i x : ℕ) (old : List ℕ) (top : ℕ)
    : Type 0 where
  pub pool : i < 7
  pub large : size + 16 ≤ max_size i
  pub chunk : IsChunk own i x
  pub taken : Fresh x (frees i)
  pub pool_word : h.mem x ≡ pool_ptr pages pool_arr i
  pub size_word : h.mem (x + 8) ≡ size + 16
  pub origin : (old ≡ x ∷ frees i) ⊎ (top ≡ x)
  pub heap : IsHeap pages pool_arr laws own frees h

module _ (pages : PageSource) (pool_arr : ℕ) (laws : PageLaws pages) where
  -- The result of a call, and the state after it.
  pub record Handed (own : ℕ → ℕ) (frees : ℕ → List ℕ) (h : Heap pages pool_arr) (size : ℕ)
      (r : Run (ℕ × Heap pages pool_arr)) : Type 0 where
    pub i : ℕ
    pub x : ℕ
    pub own' : ℕ → ℕ
    pub frees' : ℕ → List ℕ
    pub h' : Heap pages pool_arr
    pub run : r ≡ ok (x + 16, h')
    pub block : Block pages pool_arr laws own' frees' h' size i x (frees i) (laws.top h.source)
    pub below : x < laws.top h'.source
    pub grows : laws.top h'.source ≤ laws.top h.source + page_size
    pub owners : (g : ℕ) → g < laws.top h.source / page_size → own' g ≡ own g

  from_list :
      (own : ℕ → ℕ) (frees : ℕ → List ℕ) (h : Heap pages pool_arr) (size i x : ℕ) (xs : List ℕ)
      → (v : IsHeap pages pool_arr laws own frees h) → i < 7
      → (frees i ≡ x ∷ xs)
      → (h.pools i).avail ≢ 0
      → size + 16 ≤ max_size i
      → (old : List ℕ) → (top : ℕ) → (old ≡ x ∷ xs) ⊎ (top ≡ x)
      → Block pages pool_arr laws own
          (update i xs frees)
          (take_chunk pages pool_arr i (size + 16) h).1
          size
          i
          x
          old
          top
  from_list own frees h size i x xs v hi first ne large old top origin =
      let c = (subst (All (IsChunk own i)) first (v.chunks i hi)).0 in
      record {
        pool = hi;
        large = large;
        chunk = c;
        taken =
            subst (Fresh x) (sym (update_at i xs frees))
              (rest_Fresh pages pool_arr laws own frees h v i x hi c xs first);
        pool_word = after_pool pages pool_arr laws own frees h v i x hi c xs first (size + 16);
        size_word = after_size pages pool_arr laws own frees h v i x hi c xs first (size + 16);
        origin = subst (λ k. (old ≡ x ∷ k) ⊎ (top ≡ x)) (sym (update_at i xs frees)) origin;
        heap = take_chunk-IsHeap pages pool_arr laws own frees h v i x hi c xs first (size + 16) ne;
      }

  -- `take_chunk` leaves the source alone, and `add_chunks` has the new one.
  taken_below :
      (h : Heap pages pool_arr) (i bytes x : ℕ)
      → x < laws.top h.source
      → x < laws.top (take_chunk pages pool_arr i bytes h).1.source
  unfolding take_chunk
  taken_below h i bytes x lt = lt

  taken_grows :
      (h : Heap pages pool_arr) (i bytes limit : ℕ)
      → laws.top h.source ≤ limit
      → laws.top (take_chunk pages pool_arr i bytes h).1.source ≤ limit
  unfolding take_chunk
  taken_grows h i bytes limit le = le

  page_below :
      (h : Heap pages pool_arr) (i x : ℕ) (source : pages.Source)
      → laws.top source ≡ x + page_size
      → x < laws.top (add_chunks pages pool_arr i x source h).source
  unfolding add_chunks
  page_below h i x source moved = omega arith

  page_grows :
      (h : Heap pages pool_arr) (i x : ℕ) (source : pages.Source)
      → laws.top source ≡ x + page_size
      → laws.top (add_chunks pages pool_arr i x source h).source ≤ x + page_size
  unfolding add_chunks
  page_grows h i x source moved = omega arith

  kmalloc_run :
      (h : Heap pages pool_arr) (size i : ℕ)
      → 0 < size
      → size ≤ 2032
      → get_best_pool (size + 16) ≡ some i
      → kmalloc pages pool_arr size h
        ≡ (refill pages pool_arr i h >>= λ h1. ok (take_chunk pages pool_arr i (size + 16) h1))
  unfolding kmalloc
  kmalloc_run h size i pos small best =
      let fits : add64 size 16 ≡ size + 16 = omega arith in
      rw (lt→ltb 0 size pos, fits, best)
        (ap (λ k. refill pages pool_arr i h >>= λ h1. ok (take_chunk pages pool_arr i k h1)) fits)

  refill_same :
      (h : Heap pages pool_arr) (i : ℕ) → (h.pools i).avail ≢ 0 → refill pages pool_arr i h ≡ ok h
  unfolding refill
  refill_same h i ne = rw (ne→==_false (h.pools i).avail 0 ne) refl

  refill_page :
      (h : Heap pages pool_arr) (i : ℕ) (source : pages.Source)
      → (h.pools i).avail ≡ 0
      → pages.alloc_pages 1 h.source ≡ ok (laws.top h.source, source)
      → refill pages pool_arr i h ≡ ok (add_chunks pages pool_arr i (laws.top h.source) source h)
  unfolding refill add_page
  refill_page h i source e run = rw ((==_iff (h.pools i).avail 0).1 e, run) refl

  avail_refilled :
      (h : Heap pages pool_arr) (i p : ℕ) (source : pages.Source)
      → i < 7
      → (h.pools i).avail ≡ 0
      → ((add_chunks pages pool_arr i p source h).pools i).avail ≢ 0
  unfolding add_chunks set_pool
  avail_refilled h i p source hi e =
      let (some_chunk, few) = page_count i hi in rw (==_refl i) (λ z. omega arith)

  module _ (own : ℕ → ℕ) (frees : ℕ → List ℕ) (h : Heap pages pool_arr)
      (v : IsHeap pages pool_arr laws own frees h)
      (room : laws.top h.source + page_size < 2 ^ 64) where
    from_pool :
        (size i : ℕ)
        → i < 7
        → size + 16 ≤ max_size i
        → (h.pools i).avail ≢ 0
        → kmalloc pages pool_arr size h
          ≡ (refill pages pool_arr i h >>= λ h1. ok (take_chunk pages pool_arr i (size + 16) h1))
        → Handed own frees h size (kmalloc pages pool_arr size h)
    from_pool size i hi large ne run =
        let (x, xs, first) = nonempty (frees i) (λ z. ne (omega (arith, v.avail i hi))) in
        let c = (subst (All (IsChunk own i)) first (v.chunks i hi)).0 in
        let below =
          (subst (All (λ y. y < laws.top h.source)) first
            (frees_below pages pool_arr laws own frees h v i hi)).0 in
        record {
          i = i;
          x = x;
          own' = own;
          frees' = update i xs frees;
          h' = (take_chunk pages pool_arr i (size + 16) h).1;
          run =
              run
              ∙ ap (λ r. r >>= λ h1. ok (take_chunk pages pool_arr i (size + 16) h1))
                  (refill_same h i ne)
              ∙ ap (λ k. ok (k, (take_chunk pages pool_arr i (size + 16) h).1))
                  (after_addr pages pool_arr laws own frees h v i x hi c xs first (size + 16)
                    (omega arith));
          block =
              from_list own frees h size i x xs v hi first ne large (frees i) (laws.top h.source)
                (inl first);
          below = taken_below h i (size + 16) x below;
          grows = taken_grows h i (size + 16) (laws.top h.source + page_size) (omega arith);
          owners = λ g lt. refl;
        }

    page_first :
        (i : ℕ) (hi : i < 7) (source : pages.Source)
        (moved : laws.top source ≡ laws.top h.source + page_size)
        → new_frees pages pool_arr laws own frees h v i hi room source moved i
          ≡ laws.top h.source
              ∷ row (page_size / max_size i - 1) (laws.top h.source + max_size i) (max_size i)
            ++ frees i
    unfolding new_frees longer row
    page_first i hi source moved =
        update_at i (longer pages pool_arr laws own frees h v i hi room source moved) frees

    page_owners :
        (i : ℕ) (hi : i < 7) (source : pages.Source)
        (moved : laws.top source ≡ laws.top h.source + page_size) (g : ℕ)
        → g < laws.top h.source / page_size
        → new_own pages pool_arr laws own frees h v i hi room source moved g ≡ own g
    unfolding new_own
    page_owners i hi source moved g lt =
        update_ne (laws.top h.source / page_size) i own g (λ e. omega arith)

    from_page :
        (size i : ℕ)
        → i < 7
        → size + 16 ≤ max_size i
        → (h.pools i).avail ≡ 0
        → laws.Ready 1 h.source
        → kmalloc pages pool_arr size h
          ≡ (refill pages pool_arr i h >>= λ h1. ok (take_chunk pages pool_arr i (size + 16) h1))
        → Handed own frees h size (kmalloc pages pool_arr size h)
    from_page size i hi large e ready run =
        let (source, alloc_run, moved, left) = laws.page 1 0 h.source ready in
        let w = add_page-IsHeap pages pool_arr laws own frees h v i hi room source moved in
        let h1 = add_chunks pages pool_arr i (laws.top h.source) source h in
        let own1 = new_own pages pool_arr laws own frees h v i hi room source moved in
        let frees1 = new_frees pages pool_arr laws own frees h v i hi room source moved in
        let x = laws.top h.source in
        let xs = row (page_size / max_size i - 1) (x + max_size i) (max_size i) ++ frees i in
        let first = page_first i hi source moved in
        let c = (subst (All (IsChunk own1 i)) first (w.chunks i hi)).0 in
        record {
          i = i;
          x = x;
          own' = own1;
          frees' = update i xs frees1;
          h' = (take_chunk pages pool_arr i (size + 16) h1).1;
          run =
              run
              ∙ ap (λ r. r >>= λ k. ok (take_chunk pages pool_arr i (size + 16) k))
                  (refill_page h i source e alloc_run)
              ∙ ap (λ k. ok (k, (take_chunk pages pool_arr i (size + 16) h1).1))
                  (after_addr pages pool_arr laws own1 frees1 h1 w i x hi c xs first (size + 16)
                    (omega arith));
          block =
              from_list own1 frees1 h1 size i x xs w hi first
                (avail_refilled h i (laws.top h.source) source hi e) large (frees i)
                (laws.top h.source) (inr refl);
          below = taken_below h1 i (size + 16) x (page_below h i x source moved);
          grows = taken_grows h1 i (size + 16) (x + page_size) (page_grows h i x source moved);
          owners = page_owners i hi source moved;
        }

    -- `kmalloc` of 1 to 2032 bytes, while the page allocator is ready for a page, below
    -- the end of the address space, stops at no assertion: it returns a block as `Block` says, below the top of the heap, out of the free list of a pool or off a new
    -- page, keeps the heap described, and changes the owner of no page handed out before.
    pub kmalloc-Handed :
        (size : ℕ)
        → 0 < size
        → size ≤ 2032
        → laws.Ready 1 h.source
        → Handed own frees h size (kmalloc pages pool_arr size h)
    kmalloc-Handed size pos small ready = elim (get_best_pool-least (size + 16)) [
      | inl (e, big) ↦ absurd (omega arith)
      | inr (i, e, hi, large, least) ↦ elim (ℕ_discrete (h.pools i).avail 0) [
        | yes none_left ↦
            from_page size i hi large none_left ready (kmalloc_run h size i pos small e)
        | no some_left ↦ from_pool size i hi large some_left (kmalloc_run h size i pos small e)
      ]
    ]

    -- While the `avail` of its pool is 0, `kmalloc` passes over the chunks on the free list, and takes
    -- the block off a new page.
    pub kmalloc_passes_over :
        (size i : ℕ)
        → 0 < size
        → size ≤ 2032
        → i < 7
        → get_best_pool (size + 16) ≡ some i
        → (h.pools i).avail ≡ 0
        → laws.Ready 1 h.source
        → (h' : Heap pages pool_arr) × (kmalloc pages pool_arr size h
            ≡ ok (laws.top h.source + 16, h'))
    unfolding from_page
    kmalloc_passes_over size i pos small hi best none_left ready =
        let r =
          from_page size i hi (best_large size i best) none_left ready
            (kmalloc_run h size i pos small best) in
        (r.h', r.run)

  module _ (own : ℕ → ℕ) (frees : ℕ → List ℕ) (h : Heap pages pool_arr)
      (v : IsHeap pages pool_arr laws own frees h)
      (room : laws.top h.source + page_size < 2 ^ 64) where
    -- `kfree` of a block of pool `i` that is in no free list, lies below the top of the heap and has
    -- its header whole, stops at no assertion and puts the chunk first in the free list of its pool;
    -- the heap stays described. It does not raise `avail`.
    pub kfree-IsHeap :
        (i x : ℕ)
        → i < 7
        → IsChunk own i x
        → Fresh x (frees i)
        → h.mem x ≡ pool_ptr pages pool_arr i
        → pool_arr ≢ 0
        → x < laws.top h.source
        → (h' : Heap pages pool_arr) × (kfree pages pool_arr (x + 16) h ≡ ok h')
          × IsHeap pages pool_arr laws own (update i (x ∷ frees i) frees) h'
          × ((h'.pools i).avail ≡ (h.pools i).avail)
    unfolding kfree pool_ptr pool_index
    kfree-IsHeap i x hi c fresh word nz below =
        let back : sub64 (x + 16) 16 ≡ x = omega arith in
        let not_null : h.mem x ≢ 0 = (λ e. omega arith) in
        let index : (pool_arr + 24 * i - pool_arr) / 24 ≡ i = omega arith in
        (
          give_chunk pages pool_arr i x h,
          rw
              (
                ne→==_false (x + 16) 0 (λ e. omega arith),
                back,
                ne→==_false (h.mem x) 0 not_null,
                word,
                index,
              )
              refl,
          give_chunk-IsHeap pages pool_arr laws own frees h v i x hi c fresh,
          given_avail pages pool_arr laws own frees h v i x hi c fresh,
        )
