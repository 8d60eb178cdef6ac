-- ===== src/VpAlloc/Space.antt =====
-- The abstract heap, which is states of pages with no tables and no frames, and sequences of calls.
use skip_os.Common.{
  ℕ, zero, suc, ◌+◌, ◌*◌, ◌%◌, ◌^◌, ◌≡◌, inl, inr, refl, Bool, true, false, not, ◌&&◌,
  if◌then◌else◌, ◌==◌, Bool-cases, List, [], ◌∷◌, Option, none, some, Run, ok, halted, ◌>>=◌, ltb,
  leb,
}
use skip_os.PfAlloc.{page_size}
use skip_os.Interrupt.{pf_int_num}
use skip_os.VpAlloc.{Vm, alloc_pages, page_fault_handler, free_pages}
use skip_os.VpAlloc.Tables.{PageState, absent, demand, mapped, IsHeapAddr}
use skip_os.VpAlloc.Grow.{state_of}
use skip_os.VpAlloc.Handler.{fault_page}
use skip_os.VpAlloc.Pages.{filled, IsHeap}

-- `MMU_alloc_pages`, a page fault at an address, and `MMU_free_pages`.
pub data Op : Type 0 where
  alloc touch : ℕ → Op
  release : ℕ → ℕ → Op

-- The state of a page without its frame.
pub data Kind : Type 0 where
  free marked present : Kind

unfoldable pub kind : PageState → Kind
kind absent = free
kind demand = marked
kind (mapped f) = present

-- The abstract heap: its top and the kind of each page.
pub record Space : Type 0 where
  pub top : ℕ
  pub page : ℕ → Kind

unfoldable pub is_marked : Kind → Bool
is_marked marked = true
is_marked free = false
is_marked present = false

unfoldable pub is_free : Kind → Bool
is_free free = true
is_free marked = false
is_free present = false

-- `n` pages from `va` on get a kind.
unfoldable pub fill : ℕ → ℕ → Kind → (ℕ → Kind) → ℕ → Kind
fill va n c f x = if leb va x && ltb x (va + n * page_size) then c else f x

unfoldable pub none_free : ℕ → ℕ → (ℕ → Kind) → Bool
unfolding is_free
none_free va zero f = true
none_free va (suc n) f = not (is_free (f va)) && none_free (va + page_size) n f

-- What a call does to the abstract heap: pages are given from the top on, only a marked page is
-- mapped, and only pages in use are released.
unfoldable pub spec_op : Op → Space → Option Space
unfolding fill is_marked none_free
spec_op (alloc n) a =
    if leb (a.top + n * page_size) (2 ^ 48)
    then some (record { top = a.top + n * page_size; page = fill a.top n marked a.page })
    else none
spec_op (touch cr2) a =
    let va = fault_page cr2 in
    if leb (2 ^ 39) va && (ltb va (2 ^ 48) && is_marked (a.page va))
    then some (record a { page = fill va 1 present a.page })
    else none
spec_op (release vp n) a =
    if vp % page_size == 0
      && (ltb 0 n
          && (leb (2 ^ 39) vp && (leb (vp + n * page_size) (2 ^ 48) && none_free vp n a.page)))
    then some (record a { page = fill vp n free a.page })
    else none

-- The same call of the code.
unfoldable pub run_op : Op → Vm → Option (Run Vm)
unfolding alloc_pages free_pages page_fault_handler
run_op (alloc n) s = elim (alloc_pages n s) [ none ↦ none | some r ↦ some (r >>= λ t. ok t.1) ]
run_op (touch cr2) s =
    some (page_fault_handler s.mem pf_int_num s.l4_table cr2 >>= λ m. ok (record s { mem = m }))
run_op (release vp n) s = some (free_pages vp n s)

unfoldable pub spec_all : List Op → Space → Option Space
unfolding spec_op
spec_all [] a = some a
spec_all (op ∷ ops) a = elim (spec_op op a) [ none ↦ none | some b ↦ spec_all ops b ]

unfoldable pub run_all : List Op → Vm → Option (Run Vm)
unfolding run_op
run_all [] s = some (ok s)
run_all (op ∷ ops) s = elim (run_op op s) [
  | none ↦ none
  | some halted ↦ some halted
  | some (ok t) ↦ run_all ops t
]

-- The frames that the calls can need: three tables for each new page, and one for each use.
unfoldable pub op_cost : Op → ℕ
op_cost (alloc n) = 3 * n
op_cost (touch cr2) = 1
op_cost (release vp n) = 0

unfoldable pub cost : List Op → ℕ
unfolding op_cost
cost [] = 0
cost (op ∷ ops) = op_cost op + cost ops

-- The heap is in order, with `k` frames left, and is the abstract heap.
pub record Models (s : Vm) (a : Space) (k : ℕ) : Type 0 where
  pub heap : IsHeap s k
  pub top : s.kern_heap_top ≡ a.top
  pub pages : (x : ℕ) → IsHeapAddr x → kind (state_of s.mem s.l4_table x) ≡ a.page x

pub kind-filled :
    (va n : ℕ) (st : PageState) (f : ℕ → PageState) (g : ℕ → Kind) (x : ℕ)
    → kind (f x) ≡ g x
    → kind (filled va n st f x) ≡ fill va n (kind st) g x
unfolding filled fill
kind-filled va n st f g x e = elim (Bool-cases (leb va x && ltb x (va + n * page_size))) [
  | inl inside ↦ rw inside refl
  | inr outside ↦ rw outside e
]
