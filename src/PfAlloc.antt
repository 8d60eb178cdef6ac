-- ===== src/PfAlloc.antt =====
-- The page frame allocator, core/src/pf_alloc.c: the free frames form a doubly linked ring through
-- the first two words of each free frame, with its head in the page at address 0.
pub mod Boot
pub mod Chain
pub mod Elsewhere
pub mod Supply
mod Tests
pub mod Progress
pub mod Ownership
pub mod Refine
pub mod Spec
use skip_os.Common.{
  ℕ, zero, suc, ◌+◌, ◌*◌, ◌%◌, ◌^◌, Bool, not, Run, ok, ◌>>=◌, ◌>>◌, assert, ltb, leb, ◌==◌,
  if◌then◌else◌,
}
use skip_os.Common.Words.{add64, sub64, Memory, store}

abbrev pub page_size : ℕ
page_size = 0x1000

abbrev pub pages_to_add_if_pool_empty : ℕ
pages_to_add_if_pool_empty = 500

abbrev pub null : ℕ
null = 0

-- The addresses of the fields of the `ll_elem_t` and of the `ll_head_info_t` at `p`.
abbrev pub next : ℕ → ℕ
next p = p

abbrev pub prev : ℕ → ℕ
prev p = p + 8

abbrev pub base_addr : ℕ → ℕ
base_addr p = p + 16

abbrev pub len_addr : ℕ → ℕ
len_addr p = p + 24

abbrev pub unpooled_page_cnt : ℕ → ℕ
unpooled_page_cnt p = p + 32

pub is_empty : Memory → ℕ → Bool
is_empty m ll_head = m (next ll_head) == m (prev ll_head)

pub add_elem : Memory → ℕ → ℕ → Memory
add_elem m head_ptr new_ptr =
    let m1 = store m (next new_ptr) head_ptr in
    let m2 = store m1 (prev new_ptr) (m1 (prev head_ptr)) in
    let m3 = store m2 (next (m2 (prev head_ptr))) new_ptr in store m3 (prev head_ptr) new_ptr

-- The popped element is the one previous to the head.
pub pop_elem : Memory → ℕ → Run (ℕ × Memory)
pop_elem m head_ptr =
    let popped_ptr = m (prev head_ptr) in
    let m1 = store m (next (m (prev popped_ptr))) head_ptr in
    do
      assert (not (is_empty m head_ptr))
      ok (popped_ptr, store m1 (prev head_ptr) (m1 (prev popped_ptr)))

abbrev pub get_ll_head_info_ptr : ℕ
get_ll_head_info_ptr = 0x0

-- The loop of `add_new_upper_pages`: rounds left, memory, head.
pub add_upper_loop : ℕ → Memory → ℕ → Memory
add_upper_loop zero m head_info_ptr = m
add_upper_loop (suc n) m head_info_ptr =
    let m1 = add_elem m head_info_ptr (m (base_addr head_info_ptr)) in
    add_upper_loop n
      (store m1 (base_addr head_info_ptr) (add64 (m1 (base_addr head_info_ptr)) page_size))
      head_info_ptr

-- The end of the memory that is not yet in the pool.
abbrev pub limit_addr : Memory → ℕ → ℕ
limit_addr m p = add64 (m (base_addr p)) (m (len_addr p))

pub add_new_upper_pages : Memory → ℕ → ℕ → Run Memory
add_new_upper_pages m p num_new_pages =
    let m1 = add_upper_loop num_new_pages m p in
    let m2 = store m1 (len_addr p) (sub64 (m1 (len_addr p)) (num_new_pages * page_size % 2 ^ 64)) in
    let m3 = store m2 (unpooled_page_cnt p) (sub64 (m2 (unpooled_page_cnt p)) num_new_pages) in
    do
      assert (leb num_new_pages (m (unpooled_page_cnt p)))
      assert (ltb 0 num_new_pages)
      assert (limit_addr m p == limit_addr m3 p)
      ok m3

-- How many pages `MMU_pf_alloc` moves into an empty pool.
abbrev pub pages_to_add : ℕ → ℕ
pages_to_add unpooled =
    if ltb unpooled pages_to_add_if_pool_empty then unpooled else pages_to_add_if_pool_empty

-- `MMU_pf_alloc`; the result `null` says that no page is left to add.
pub pf_alloc : Memory → Run (ℕ × Memory)
pf_alloc m =
    let p = get_ll_head_info_ptr in
    if is_empty m p
    then (if m (unpooled_page_cnt p) == 0 then ok (null, m) else do
      m1 ← add_new_upper_pages m p (pages_to_add (m (unpooled_page_cnt p)))
      pop_elem m1 p)
    else pop_elem m p

-- `MMU_pf_free`
pub pf_free : Memory → ℕ → Run Memory
pf_free m pf = do assert (not (pf == null)); ok (add_elem m get_ll_head_info_ptr pf)
