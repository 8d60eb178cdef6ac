-- ===== src/Kmalloc/NewPage.antt =====
-- A new page for a pool: `add_page` keeps the heap described.
use skip_os.Common.{
  update, update_at, update_ne, ℕ, suc, ◌+◌, ◌-◌, ◌/◌, ◌^◌, ◌≤◌, ◌<◌, ◌≡◌, ◌≢◌, refl, sym, ap, ◌∙◌,
  subst, List, [], ◌∷◌, ◌++◌, length, length-append, All, Distinct, arith, inl, ne→==_false,
  ==_refl,
}
use skip_os.Common.Words.{Memory}
use native.Mathlib.Decide.{ℕ_discrete}
use skip_os.PfAlloc.{page_size}
use skip_os.Kmalloc.{PageSource, Heap, max_size, set_pool, add_chunks}
use skip_os.Kmalloc.Chunks.{
  Chain, Chain-frame, All-map, All-append, row, length-row, row-All, row-Distinct, linked,
  linked_frame, linked-Chain,
}
use skip_os.Kmalloc.Pages.{PageLaws, IsChunk, IsHeap, chunk_below, size_table}

-- What holds of the new value at the pool, and of the old ones at the others, holds after the change.
pub update_cases {ℓ} :
    {A : Type ℓ} (i : ℕ) (v : A) (f : ℕ → A) (P : ℕ → A → Type 0)
    → P i v
    → ((j : ℕ) → j ≢ i → j < 7 → P j (f j))
    → (j : ℕ) → j < 7
    → P j (update i v f j)
update_cases i v f P here there j lt = elim (ℕ_discrete j i) [
  | yes e ↦ subst (λ k. P k (update i v f k)) (sym e) (subst (P i) (sym (update_at i v f)) here)
  | no ne ↦ subst (P j) (sym (update_ne i v f j ne)) (there j ne lt)
]

module _ (pages : PageSource) (pool_arr : ℕ) (laws : PageLaws pages) (own : ℕ → ℕ)
    (frees : ℕ → List ℕ) (h : Heap pages pool_arr)
    (v : IsHeap pages pool_arr laws own frees h) where
  pub frees_below : (j : ℕ) → j < 7 → All (λ y. y < laws.top h.source) (frees j)
  frees_below j lt =
      All-map (IsChunk own j) (λ y. y < laws.top h.source) (frees j)
        (λ y. chunk_below own j (laws.top h.source) y lt v.ahead v.aligned) (v.chunks j lt)

  module _ (i : ℕ) (hi : i < 7) (room : laws.top h.source + page_size < 2 ^ 64)
      (source : pages.Source) (moved : laws.top source ≡ laws.top h.source + page_size) where
    abbrev top : ℕ
    top = laws.top h.source

    -- The free list of pool `i` with the chunks of the new page.
    unfoldable pub longer : List ℕ
    longer = row (suc (page_size / max_size i - 1)) (laws.top h.source) (max_size i) ++ frees i

    unfoldable pub new_own : ℕ → ℕ
    new_own = update (laws.top h.source / page_size) i own

    new_mem : Memory
    new_mem =
        linked (page_size / max_size i - 1) h.mem (laws.top h.source) (max_size i) (h.pools i).head

    add_page_mem : (add_chunks pages pool_arr i (laws.top h.source) source h).mem ≡ new_mem
    unfolding add_chunks linked new_mem
    add_page_mem = refl

    old-IsChunk : (j y : ℕ) → y < laws.top h.source → IsChunk own j y → IsChunk new_own j y
    unfolding IsChunk new_own
    old-IsChunk j y lt (o, m, nz) =
        let other : y / page_size ≢ laws.top h.source / page_size =
          (λ e. omega (arith, v.aligned)) in
        (update_ne (laws.top h.source / page_size) i own (y / page_size) other ∙ o, m, nz)

    old_chunks : (j : ℕ) → j < 7 → All (IsChunk new_own j) (frees j)
    old_chunks j lt = pair_All (frees j) (frees_below j lt) (v.chunks j lt)
      where
        pair_All :
            (xs : List ℕ)
            → All (λ y. y < laws.top h.source) xs
            → All (IsChunk own j) xs
            → All (IsChunk new_own j) xs
        pair_All [] b c = tt
        pair_All (x ∷ xs) b c = (old-IsChunk j x b.0 c.0, pair_All xs b.1 c.1)

    new_chunks : All (IsChunk new_own i) longer
    unfolding longer new_own IsChunk
    new_chunks =
        let (pos, even, whole, count, by32) = size_table i (laws.top h.source) hi v.aligned in
        All-append (IsChunk new_own i)
          (row (suc (page_size / max_size i - 1)) (laws.top h.source) (max_size i)) (frees i)
          (All-map _ (IsChunk new_own i) _
            (λ y (lo, up, m).
              let same : y / page_size ≡ laws.top h.source / page_size = omega (arith, v.aligned) in
              let nz : y ≢ 0 = (λ e. omega (arith, v.nonzero)) in
              (ap new_own same ∙ update_at (laws.top h.source / page_size) i own, m, nz))
            (row-All (suc (page_size / max_size i - 1)) (laws.top h.source) (max_size i) pos even))
          (old_chunks i hi)

    kept_words : (j : ℕ) → j < 7 → All (λ y. new_mem y ≡ h.mem y) (frees j)
    unfolding new_mem
    kept_words j lt =
        let (pos, even, whole, count, by32) = size_table i (laws.top h.source) hi v.aligned in
        All-map (λ y. y < laws.top h.source) (λ y. new_mem y ≡ h.mem y) (frees j)
          (λ y below.
            linked_frame (page_size / max_size i - 1) h.mem (laws.top h.source) (max_size i)
              (h.pools i).head y pos (omega arith) (inl below))
          (frees_below j lt)

    new-Chain : Chain new_mem (laws.top h.source) longer
    unfolding new_mem longer
    new-Chain =
        let (pos, even, whole, count, by32) = size_table i (laws.top h.source) hi v.aligned in
        linked-Chain (page_size / max_size i - 1) h.mem (laws.top h.source) (max_size i)
          (h.pools i).head (frees i) pos (omega arith) (frees_below i hi) (v.chain i hi)

    new-Distinct : Distinct longer
    unfolding longer
    new-Distinct =
        let (pos, even, whole, count, by32) = size_table i (laws.top h.source) hi v.aligned in
        row-Distinct (suc (page_size / max_size i - 1)) (laws.top h.source) (max_size i) (frees i)
          pos (frees_below i hi) (v.distinct i hi)

    -- Of the pool that gets the page.
    head_here :
        ((add_chunks pages pool_arr i (laws.top h.source) source h).pools i).head
        ≡ laws.top h.source
    unfolding add_chunks set_pool
    head_here = rw (==_refl i) refl

    avail_here :
        ((add_chunks pages pool_arr i (laws.top h.source) source h).pools i).avail ≤ length longer
    unfolding add_chunks set_pool longer
    avail_here =
        let (pos, even, whole, count, by32) = size_table i (laws.top h.source) hi v.aligned in
        let long =
          length-append (row (suc (page_size / max_size i - 1)) (laws.top h.source) (max_size i))
            (frees i) in
        let len = length-row (suc (page_size / max_size i - 1)) (laws.top h.source) (max_size i) in
        rw (==_refl i) (omega (arith, v.avail i hi))

    -- Of the other pools.
    pool_there :
        (j : ℕ)
        → j ≢ i
        → (add_chunks pages pool_arr i (laws.top h.source) source h).pools j ≡ h.pools j
    unfolding add_chunks set_pool
    pool_there j ne = rw (ne→==_false j i ne) refl

    pub top_after :
        laws.top (add_chunks pages pool_arr i (laws.top h.source) source h).source
        ≡ laws.top h.source + page_size
    unfolding add_chunks
    top_after = moved

    unfoldable pub new_frees : ℕ → List ℕ
    new_frees = update i longer frees

    each_pool :
        (P : ℕ → List ℕ → Type 0)
        → P i longer
        → ((j : ℕ) → j ≢ i → j < 7 → P j (frees j))
        → (j : ℕ) → j < 7
        → P j (new_frees j)
    unfolding new_frees
    each_pool = update_cases i longer frees

    still_ahead :
        (g : ℕ)
        → laws.top (add_chunks pages pool_arr i (laws.top h.source) source h).source / page_size ≤ g
        → new_own g ≡ 8
    unfolding new_own
    still_ahead g le =
        let other : g ≢ laws.top h.source / page_size =
          (λ e. omega (arith, v.aligned, top_after)) in
        update_ne (laws.top h.source / page_size) i own g other
        ∙ v.ahead g (omega (arith, top_after))

    -- A new page keeps the heap described: the page belongs to pool `i`, whose free list has the
    -- chunks of the page in front.
    pub add_page-IsHeap :
        IsHeap pages pool_arr laws new_own new_frees
          (add_chunks pages pool_arr i (laws.top h.source) source h)
    add_page-IsHeap = record {
      chain =
          each_pool
            (λ j xs.
              Chain (add_chunks pages pool_arr i (laws.top h.source) source h).mem
                ((add_chunks pages pool_arr i (laws.top h.source) source h).pools j).head xs)
            (rw (add_page_mem, head_here) new-Chain)
            (λ j ne lt.
              rw (add_page_mem, pool_there j ne)
                (Chain-frame h.mem new_mem (h.pools j).head (frees j) (kept_words j lt)
                  (v.chain j lt)));
      chunks =
          each_pool (λ j xs. All (IsChunk new_own j) xs) new_chunks (λ j ne lt. old_chunks j lt);
      distinct = each_pool (λ j xs. Distinct xs) new-Distinct (λ j ne lt. v.distinct j lt);
      avail =
          each_pool
            (λ j xs.
              ((add_chunks pages pool_arr i (laws.top h.source) source h).pools j).avail
              ≤ length xs)
            avail_here (λ j ne lt. rw (pool_there j ne) (v.avail j lt));
      ahead = still_ahead;
      aligned = omega (arith, v.aligned, top_after);
      nonzero = λ z. omega (arith, top_after);
    }
