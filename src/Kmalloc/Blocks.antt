-- ===== src/Kmalloc/Blocks.antt =====
-- Handing out and taking back chunks: `kmalloc` and `kfree` as a whole.
use skip_os.Common.{
  update, ℕ, ◌+◌, ◌/◌, ◌%◌, ◌^◌, ◌≤◌, ◌<◌, ◌≡◌, ◌≢◌, refl, sym, ap, ◌∙◌, subst, List, [], ◌∷◌,
  length, All, Fresh, Distinct, arith, ne→==_false, ==_refl,
}
use skip_os.Common.Words.{store, store_at, store_ne}
use skip_os.PfAlloc.{page_size}
use skip_os.Kmalloc.{PageSource, Heap, set_pool, take_chunk, give_chunk, pool_ptr}
use skip_os.Kmalloc.Chunks.{Chain, Chain-frame}
use skip_os.Kmalloc.Pages.{PageLaws, IsChunk, IsHeap, size_table}
use skip_os.Kmalloc.NewPage.{update_cases}

-- Chunks stand at multiples of 32.
pub IsChunk-by32 : (own : ℕ → ℕ) (i x : ℕ) → i < 7 → IsChunk own i x → x % 32 ≡ 0
unfolding IsChunk
IsChunk-by32 own i x h (o, m, nz) = (size_table i 0 h refl).4 x m

module _ (pages : PageSource) (pool_arr : ℕ) (laws : PageLaws pages) (own : ℕ → ℕ)
    (frees : ℕ → List ℕ) (h : Heap pages pool_arr) (v : IsHeap pages pool_arr laws own frees h)
    (i x : ℕ) (hi : i < 7) (c : IsChunk own i x) where
  -- Two words written at the start of a chunk that is not in a list leave the list's links.
  header_kept :
      (a b j : ℕ)
      → j < 7
      → (xs : List ℕ) → All (IsChunk own j) xs
      → Fresh x xs
      → All (λ y. store (store h.mem x a) (x + 8) b y ≡ h.mem y) xs
  header_kept a b j hj [] cs f = tt
  header_kept a b j hj (y ∷ xs) cs f =
      let at_x = IsChunk-by32 own i x hi c in
      let at_y = IsChunk-by32 own j y hj cs.0 in
      (
        store_ne (store h.mem x a) (x + 8) b y (λ e. omega arith)
            ∙ store_ne h.mem x a y (λ e. f.0 (sym e)),
        header_kept a b j hj xs cs.1 f.1,
      )

  -- A chunk of a pool is in no list of another pool.
  other_Fresh : (j : ℕ) → j ≢ i → (xs : List ℕ) → All (IsChunk own j) xs → Fresh x xs
  unfolding IsChunk
  other_Fresh j ne [] cs = tt
  other_Fresh j ne (y ∷ xs) cs = (
    (λ e. ne (sym cs.0.0 ∙ ap (λ k. own (k / page_size)) (sym e) ∙ c.0)),
    other_Fresh j ne xs cs.1,
  )

  module _ (xs : List ℕ) (first : frees i ≡ x ∷ xs) where
    head_x : (h.pools i).head ≡ x
    head_x = (subst (λ k. Chain h.mem (h.pools i).head k) first (v.chain i hi)).0

    pub rest_Fresh : Fresh x xs
    rest_Fresh = (subst Distinct first (v.distinct i hi)).0

    abbrev pub after : ℕ → ℕ × Heap pages pool_arr
    after bytes = take_chunk pages pool_arr i bytes h

    after_mem :
        (bytes : ℕ)
        → (after bytes).1.mem ≡ store (store h.mem x (pool_ptr pages pool_arr i)) (x + 8) bytes
    unfolding take_chunk
    after_mem bytes = rw head_x refl

    after_head : (bytes : ℕ) → ((after bytes).1.pools i).head ≡ h.mem x
    unfolding take_chunk set_pool
    after_head bytes = rw (==_refl i) (ap h.mem head_x)

    after_there : (bytes j : ℕ) → j ≢ i → (after bytes).1.pools j ≡ h.pools j
    unfolding take_chunk set_pool
    after_there bytes j ne = rw (ne→==_false j i ne) refl

    after_avail : (bytes : ℕ) → (h.pools i).avail ≢ 0 → ((after bytes).1.pools i).avail ≤ length xs
    unfolding take_chunk set_pool
    after_avail bytes ne = let len = ap length first in rw (==_refl i) (omega (arith, v.avail i hi))

    tail-Chain : (bytes : ℕ) → Chain (after bytes).1.mem ((after bytes).1.pools i).head xs
    tail-Chain bytes =
        let cs = subst (All (IsChunk own i)) first (v.chunks i hi) in
        let ch = subst (λ k. Chain h.mem (h.pools i).head k) first (v.chain i hi) in
        rw (after_mem bytes, after_head bytes)
          (Chain-frame h.mem _ (h.mem x) xs
            (header_kept (pool_ptr pages pool_arr i) bytes i hi xs cs.1 rest_Fresh) ch.1)

    pub after_addr : (bytes : ℕ) → x + 16 < 2 ^ 64 → (after bytes).0 ≡ x + 16
    unfolding take_chunk
    after_addr bytes fits = rw head_x (omega arith)

    pub after_pool : (bytes : ℕ) → (after bytes).1.mem x ≡ pool_ptr pages pool_arr i
    after_pool bytes =
        ap (λ k. k x) (after_mem bytes)
        ∙ store_ne (store h.mem x (pool_ptr pages pool_arr i)) (x + 8) bytes x (λ e. omega arith)
        ∙ store_at h.mem x (pool_ptr pages pool_arr i)

    pub after_size : (bytes : ℕ) → (after bytes).1.mem (x + 8) ≡ bytes
    after_size bytes =
        ap (λ k. k (x + 8)) (after_mem bytes)
        ∙ store_at (store h.mem x (pool_ptr pages pool_arr i)) (x + 8) bytes

    source_ahead : (bytes g : ℕ) → laws.top (after bytes).1.source / page_size ≤ g → own g ≡ 8
    unfolding take_chunk
    source_ahead bytes = v.ahead

    source_aligned : (bytes : ℕ) → laws.top (after bytes).1.source % page_size ≡ 0
    unfolding take_chunk
    source_aligned bytes = v.aligned

    source_nonzero : (bytes : ℕ) → laws.top (after bytes).1.source ≢ 0
    unfolding take_chunk
    source_nonzero bytes = v.nonzero

    -- `take_chunk` keeps the heap described, with the chunk out of the list.
    pub take_chunk-IsHeap :
        (bytes : ℕ)
        → (h.pools i).avail ≢ 0
        → IsHeap pages pool_arr laws own (update i xs frees) (after bytes).1
    take_chunk-IsHeap bytes some_left = record {
      chain =
          update_cases i xs frees
            (λ j ys. Chain (after bytes).1.mem ((after bytes).1.pools j).head ys) (tail-Chain bytes)
            (λ j ne lt.
              rw (after_mem bytes, after_there bytes j ne)
                (Chain-frame h.mem _ (h.pools j).head (frees j)
                  (header_kept (pool_ptr pages pool_arr i) bytes j lt (frees j) (v.chunks j lt)
                    (other_Fresh j ne (frees j) (v.chunks j lt)))
                  (v.chain j lt)));
      chunks =
          update_cases i xs frees (λ j ys. All (IsChunk own j) ys)
            (subst (All (IsChunk own i)) first (v.chunks i hi)).1 (λ j ne lt. v.chunks j lt);
      distinct =
          update_cases i xs frees (λ j ys. Distinct ys) (subst Distinct first (v.distinct i hi)).1
            (λ j ne lt. v.distinct j lt);
      avail =
          update_cases i xs frees (λ j ys. ((after bytes).1.pools j).avail ≤ length ys)
            (after_avail bytes some_left) (λ j ne lt. rw (after_there bytes j ne) (v.avail j lt));
      ahead = source_ahead bytes;
      aligned = source_aligned bytes;
      nonzero = source_nonzero bytes;
    }

  -- Giving the chunk back, when it is in no list.
  module _ (fresh : Fresh x (frees i)) where
    abbrev pub given : Heap pages pool_arr
    given = give_chunk pages pool_arr i x h

    given_kept :
        (j : ℕ)
        → j < 7
        → (ys : List ℕ) → All (IsChunk own j) ys
        → Fresh x ys
        → All (λ y. given.mem y ≡ h.mem y) ys
    unfolding give_chunk
    given_kept j hj [] cs f = tt
    given_kept j hj (y ∷ ys) cs f =
        (store_ne h.mem x (h.pools i).head y (λ e. f.0 (sym e)), given_kept j hj ys cs.1 f.1)

    given_there : (j : ℕ) → j ≢ i → given.pools j ≡ h.pools j
    unfolding give_chunk set_pool
    given_there j ne = rw (ne→==_false j i ne) refl

    given_head : (given.pools i).head ≡ x
    unfolding give_chunk set_pool
    given_head = rw (==_refl i) refl

    pub given_avail : (given.pools i).avail ≡ (h.pools i).avail
    unfolding give_chunk set_pool
    given_avail = rw (==_refl i) refl

    given_word : given.mem x ≡ (h.pools i).head
    unfolding give_chunk
    given_word = store_at h.mem x (h.pools i).head

    pub given_source : given.source ≡ h.source
    unfolding give_chunk
    given_source = refl

    given-Chain : Chain given.mem (given.pools i).head (x ∷ frees i)
    given-Chain = (
      given_head,
      rw given_word (
          Chain-frame h.mem given.mem (h.pools i).head (frees i)
            (given_kept i hi (frees i) (v.chunks i hi) fresh) (v.chain i hi)),
    )

    -- `give_chunk` keeps the heap described, with the chunk first in its list.
    pub give_chunk-IsHeap : IsHeap pages pool_arr laws own (update i (x ∷ frees i) frees) given
    give_chunk-IsHeap = record {
      chain =
          update_cases i (x ∷ frees i) frees (λ j ys. Chain given.mem (given.pools j).head ys)
            given-Chain
            (λ j ne lt. rw (given_there j ne) (
              Chain-frame h.mem given.mem (h.pools j).head (frees j)
                (given_kept j lt (frees j) (v.chunks j lt)
                  (other_Fresh j ne (frees j) (v.chunks j lt)))
                (v.chain j lt)));
      chunks =
          update_cases i (x ∷ frees i) frees (λ j ys. All (IsChunk own j) ys) (c, v.chunks i hi)
            (λ j ne lt. v.chunks j lt);
      distinct =
          update_cases i (x ∷ frees i) frees (λ j ys. Distinct ys) (fresh, v.distinct i hi)
            (λ j ne lt. v.distinct j lt);
      avail =
          update_cases i (x ∷ frees i) frees (λ j ys. (given.pools j).avail ≤ length ys)
            (rw given_avail (omega (arith, v.avail i hi)))
            (λ j ne lt. rw (given_there j ne) (v.avail j lt));
      ahead = λ g. rw given_source (v.ahead g);
      aligned = rw given_source v.aligned;
      nonzero = rw given_source v.nonzero;
    }
