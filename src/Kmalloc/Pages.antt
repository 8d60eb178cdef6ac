-- ===== src/Kmalloc/Pages.antt =====
-- The whole heap: the free lists of the seven pools are apart, since each page belongs to one pool.
use skip_os.Common.{
  ℕ, zero, suc, ◌+◌, ◌-◌, ◌*◌, ◌/◌, ◌%◌, ◌≤◌, ◌<◌, ◌≡◌, ◌≢◌, List, length, All, Distinct, arith, ok,
}
use native.Mathlib.Decide.{dec_lt}
use skip_os.PfAlloc.{page_size}
use skip_os.Kmalloc.{PageSource, Heap, max_size}
use skip_os.Kmalloc.Chunks.{Chain}

-- What `vp_alloc.c` promises of its pages: while it is ready for them, they come one after another
-- from the top of the heap, and it stays ready for the others.
pub record PageLaws (pages : PageSource) : Type 1 where
  pub top : pages.Source → ℕ
  pub Ready : ℕ → pages.Source → Type 0
  pub page :
      (n j : ℕ) (s : pages.Source)
      → Ready (n + j) s
      → (s' : pages.Source) × (pages.alloc_pages n s ≡ ok (top s, s'))
        × (top s' ≡ top s + n * page_size)
        × Ready j s'

-- A chunk of pool `i`, when `own` tells the pool of each page.
unfoldable pub IsChunk : (ℕ → ℕ) → ℕ → ℕ → Type 0
IsChunk own i x = (own (x / page_size) ≡ i) × (x % max_size i ≡ 0) × (x ≢ 0)

-- Every free chunk lies below the top.
pub chunk_below :
    (own : ℕ → ℕ) (i : ℕ) (t y : ℕ)
    → i < 7
    → ((g : ℕ) → t / page_size ≤ g → own g ≡ 8)
    → t % page_size ≡ 0
    → IsChunk own i y
    → y < t
unfolding IsChunk
chunk_below own i t y h ahead al (o, e, nz) = elim (dec_lt (y / page_size) (t / page_size)) [
  | yes lt ↦ omega arith
  | no ge ↦ absurd (omega (arith, ahead (y / page_size) (omega arith)))
]

pub size_table :
    (i p : ℕ)
    → i < 7
    → p % page_size ≡ 0
    → (0 < max_size i)
      × (p % max_size i ≡ 0)
      × (suc (page_size / max_size i - 1) * max_size i ≡ page_size)
      × (suc (page_size / max_size i - 1) ≡ page_size / max_size i)
      × ((y : ℕ) → y % max_size i ≡ 0 → y % 32 ≡ 0)
size_table zero p h e = (omega arith, omega arith, omega arith, omega arith, λ y m. omega arith)
size_table (suc zero) p h e =
    (omega arith, omega arith, omega arith, omega arith, λ y m. omega arith)
size_table (suc (suc zero)) p h e =
    (omega arith, omega arith, omega arith, omega arith, λ y m. omega arith)
size_table (suc (suc (suc zero))) p h e =
    (omega arith, omega arith, omega arith, omega arith, λ y m. omega arith)
size_table (suc (suc (suc (suc zero)))) p h e =
    (omega arith, omega arith, omega arith, omega arith, λ y m. omega arith)
size_table (suc (suc (suc (suc (suc zero))))) p h e =
    (omega arith, omega arith, omega arith, omega arith, λ y m. omega arith)
size_table (suc (suc (suc (suc (suc (suc zero)))))) p h e =
    (omega arith, omega arith, omega arith, omega arith, λ y m. omega arith)
size_table (suc (suc (suc (suc (suc (suc (suc i))))))) p h e = absurd (omega arith)

module _ (pages : PageSource) (pool_arr : ℕ) (laws : PageLaws pages) where
  -- The free lists `frees` and the page owners `own` describe the heap; 8 owns what is not yet handed
  -- out, and `avail` promises no chunk that is not there.
  pub record IsHeap (own : ℕ → ℕ) (frees : ℕ → List ℕ) (h : Heap pages pool_arr) : Type 0 where
    pub chain : (i : ℕ) → i < 7 → Chain h.mem (h.pools i).head (frees i)
    pub chunks : (i : ℕ) → i < 7 → All (IsChunk own i) (frees i)
    pub distinct : (i : ℕ) → i < 7 → Distinct (frees i)
    pub avail : (i : ℕ) → i < 7 → (h.pools i).avail ≤ length (frees i)
    pub ahead : (g : ℕ) → laws.top h.source / page_size ≤ g → own g ≡ 8
    pub aligned : laws.top h.source % page_size ≡ 0
    pub nonzero : laws.top h.source ≢ 0
