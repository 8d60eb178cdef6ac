-- ===== src/Kmalloc.antt =====
-- The kernel heap, core/src/kmalloc.c: seven pools of chunks, each with a list of free chunks linked
-- through their first word. A chunk that is handed out starts with a header of 16 bytes.
pub mod Chunks
pub mod BestPool
pub mod Pages
pub mod NewPage
pub mod Blocks
pub mod Calls
pub mod Source
pub mod Init
mod Tests
use skip_os.Common.{
  ℕ, zero, suc, ◌+◌, ◌-◌, ◌*◌, ◌/◌, ◌%◌, ◌^◌, ◌≡◌, ◌<◌, Bool, not, Run, ok, ◌>>=◌, ◌>>◌, assert,
  ltb, leb, ◌==◌, if◌then◌else◌, Option, none, some, List, [], ◌∷◌, get_or,
}
use skip_os.Common.Words.{add64, sub64, Memory, store}
use skip_os.PfAlloc.{page_size, null}

-- `MMU_alloc_pages` and `MMU_free_pages`, with the state that the pages come from. Either may stop the
-- machine. Kmalloc/Source fills it with core/src/vp_alloc.c.
pub record PageSource : Type 1 where
  pub Source : Type 0
  pub alloc_pages : ℕ → Source → Run (ℕ × Source)
  pub free_pages : ℕ → ℕ → Source → Run Source

-- The `max_size` of each pool.
abbrev pub max_sizes : List ℕ
max_sizes = 32 ∷ 64 ∷ 128 ∷ 256 ∷ 512 ∷ 1024 ∷ 2048 ∷ []

abbrev pub max_size : ℕ → ℕ
max_size i = get_or max_sizes i 0

-- `sizeof(kmalloc_header_t)`
abbrev pub header_size : ℕ
header_size = 16

-- The fields of a `kmalloc_pool_t` that change.
pub record Pool : Type 0 where
  pub avail : ℕ
  pub head : ℕ

-- The loop of `get_best_pool` over the pools from `i` on.
unfoldable pub best_from : List ℕ → ℕ → ℕ → Option ℕ
best_from [] i size = none
best_from (max ∷ rest) i size =
    let later = best_from rest (i + 1) size in if leb size max then some i else later

unfoldable pub get_best_pool : ℕ → Option ℕ
unfolding best_from
get_best_pool size = best_from max_sizes 0 size

-- The loop of `add_page`: the memory, and the chunk it ends at.
unfoldable pub link_chunks : ℕ → Memory → ℕ → ℕ → Memory × ℕ
link_chunks zero m chunk max = (m, chunk)
link_chunks (suc n) m chunk max =
    let m1 = store m chunk (add64 chunk max) in link_chunks n m1 (m1 chunk) max

-- `pool_arr` is the address of the array of pools, each of 24 bytes.
module _ (pages : PageSource) (pool_arr : ℕ) where
  open pages use {Source, alloc_pages, free_pages}

  pub record Heap : Type 0 where
    pub mem : Memory
    pub pools : ℕ → Pool
    pub source : Source

  unfoldable pub pool_ptr : ℕ → ℕ
  pool_ptr i = pool_arr + 24 * i

  unfoldable pub pool_index : ℕ → ℕ
  pool_index p = (p - pool_arr) / 24

  unfoldable pub set_pool : ℕ → Pool → (ℕ → Pool) → ℕ → Pool
  set_pool i v pools j = if j == i then v else pools j

  -- `add_page` behind the allocation of `new_page`.
  unfoldable pub add_chunks : ℕ → ℕ → Source → Heap → Heap
  add_chunks i new_page source h =
      let num_chunks = page_size / max_size i in
      let (m, chunk) = link_chunks (num_chunks - 1) h.mem new_page (max_size i) in
      record {
        mem = store m chunk (h.pools i).head;
        pools =
            set_pool i (record { avail = add64 (h.pools i).avail num_chunks; head = new_page })
              h.pools;
        source = source;
      }

  unfoldable pub add_page : ℕ → Heap → Run Heap
  unfolding add_chunks
  add_page i h = do (new_page, source) ← alloc_pages 1 h.source; ok (add_chunks i new_page source h)

  -- The loop of `kmalloc_init`: rounds left, index.
  unfoldable pub init_loop : ℕ → ℕ → Heap → Run Heap
  unfolding add_page
  init_loop zero i h = ok h
  init_loop (suc n) i h = do
    h1 ← add_page i (record h { pools = set_pool i (record (h.pools i) { avail = 0 }) h.pools })
    init_loop n (i + 1) h1

  unfoldable pub kmalloc_init : Heap → Run Heap
  kmalloc_init = init_loop 7 0

  -- A block of whole pages, for a size that fits no pool.
  unfoldable pub big_block : ℕ → Heap → Run (ℕ × Heap)
  big_block bytes_needed h =
      let new_page_cnt = sub64 bytes_needed 1 / page_size + 1 in
      do
        (new_page, source) ← alloc_pages new_page_cnt h.source
        ok (
          add64 new_page header_size,
          record {
            mem =
                store (store h.mem new_page null) (new_page + 8)
                  (new_page_cnt * page_size % 2 ^ 64);
            pools = h.pools;
            source = source;
          },
        )

  unfoldable pub refill : ℕ → Heap → Run Heap
  unfolding add_page
  refill i h = if (h.pools i).avail == 0 then add_page i h else ok h

  -- The first free chunk, with its header written.
  unfoldable pub take_chunk : ℕ → ℕ → Heap → ℕ × Heap
  take_chunk i bytes_needed h =
      let new_mem = (h.pools i).head in
      (
        add64 new_mem header_size,
        record {
          mem = store (store h.mem new_mem (pool_ptr i)) (new_mem + 8) bytes_needed;
          pools =
              set_pool i (record { avail = sub64 (h.pools i).avail 1; head = h.mem new_mem })
                h.pools;
          source = h.source;
        },
      )

  unfoldable pub kmalloc : ℕ → Heap → Run (ℕ × Heap)
  unfolding take_chunk refill
  kmalloc size h =
      let bytes_needed = add64 size header_size in
      do
        assert (ltb 0 size)
        elim (get_best_pool bytes_needed) [
          | none ↦ big_block bytes_needed h
          | some i ↦ refill i h >>= λ h1. ok (take_chunk i bytes_needed h1)
        ]

  -- The chunk becomes the first free one of its pool; `avail` stays as it is.
  unfoldable pub give_chunk : ℕ → ℕ → Heap → Heap
  give_chunk i old_mem h = record {
    mem = store h.mem old_mem (h.pools i).head;
    pools = set_pool i (record (h.pools i) { head = old_mem }) h.pools;
    source = h.source;
  }

  unfoldable pub kfree : ℕ → Heap → Run Heap
  unfolding give_chunk
  kfree ptr h =
      let old_mem = sub64 ptr header_size in
      do
        assert (not (ptr == null))
        if h.mem old_mem == null
            then (do
              source ← free_pages old_mem (h.mem (old_mem + 8) / page_size) h.source
              ok (record h { source = source }))
            else ok (give_chunk (pool_index (h.mem old_mem)) old_mem h)
