-- ===== src/VpAlloc/Sequence.antt =====
-- Any sequence of allocations, first uses and releases, against the abstract heap.
use skip_os.Common.{
  ℕ, ◌+◌, ◌*◌, ◌%◌, ◌^◌, ◌<◌, ◌≡◌, inl, inr, ◌⊎◌, refl, sym, ap, ◌∙◌, subst, ◌&&◌, ◌==◌, Bool-cases,
  arith, List, [], ◌∷◌, Option, none, some, ok, ==_iff, ltb, leb,
}
use skip_os.PfAlloc.{page_size}
use skip_os.VpAlloc.{Vm, get_physical_addr}
use skip_os.VpAlloc.Tables.{IsHeapAddr, PageState, absent, demand, mapped}
use skip_os.VpAlloc.Handler.{fault_page}
use skip_os.VpAlloc.Grow.{state_of}
use skip_os.VpAlloc.Fault.{frames_differ}
use skip_os.VpAlloc.Physical.{frame_or_null, heap_addr}
use skip_os.VpAlloc.Space.{
  kind, Op, alloc, touch, release, free, marked, present, Space, is_marked, fill, none_free,
  spec_op, spec_all, run_all, op_cost, cost, Models,
}
use skip_os.VpAlloc.Steps.{Stepped, alloc_step, touch_step, give_step, and_split}

option_cases : (o : Option Space) → (o ≡ none) ⊎ ((b : Space) × (o ≡ some b))
option_cases none = inl refl
option_cases (some b) = inr (b, refl)

-- A call that the abstract heap allows.
op_step :
    (op : Op) (s : Vm) (a b : Space) (k : ℕ)
    → 0 < k
    → Models s a (op_cost op + k)
    → spec_op op a ≡ some b
    → Stepped op s b k
unfolding spec_op op_cost
op_step (alloc n) s a b k pos v e = elim (Bool-cases (leb (a.top + n * page_size) (2 ^ 48))) [
  | inl fits ↦
      let same = rw fits at e in
      let next : record { top = a.top + n * page_size; page = fill a.top n marked a.page } ≡ b =
        cc in
      subst (λ c. Stepped (alloc n) s c k) next (alloc_step n k s a pos (ground arith) v)
  | inr not_fits ↦ let clash : none ≡ some b = rw not_fits at e in cc
]
op_step (touch cr2) s a b k pos v e =
    let va = fault_page cr2 in
    elim (Bool-cases (leb (2 ^ 39) va && (ltb va (2 ^ 48) && is_marked (a.page va)))) [
      | inl allowed ↦
          let low =
            and_split (leb (2 ^ 39) va) (ltb va (2 ^ 48) && is_marked (a.page va)) allowed in
          let high = and_split (ltb va (2 ^ 48)) (is_marked (a.page va)) low.1 in
          let h : IsHeapAddr va = (omega arith, ground arith, ground arith) in
          let same = rw allowed at e in
          let next : record a { page = fill va 1 present a.page } ≡ b = cc in
          subst (λ c. Stepped (touch cr2) s c k) next (touch_step cr2 k s a pos h high.1 v)
      | inr refused ↦ let clash : none ≡ some b = rw refused at e in cc
    ]
op_step (release vp n) s a b k pos v e =
    let in_use = none_free vp n a.page in
    let fits = leb (vp + n * page_size) (2 ^ 48) in
    elim (Bool-cases (vp % page_size == 0 && (ltb 0 n && (leb (2 ^ 39) vp && (fits && in_use))))) [
      | inl allowed ↦
          let b1 =
            and_split (vp % page_size == 0) (ltb 0 n && (leb (2 ^ 39) vp && (fits && in_use)))
              allowed in
          let b2 = and_split (ltb 0 n) (leb (2 ^ 39) vp && (fits && in_use)) b1.1 in
          let b3 = and_split (leb (2 ^ 39) vp) (fits && in_use) b2.1 in
          let b4 = and_split fits in_use b3.1 in
          let same = rw allowed at e in
          let next : record a { page = fill vp n free a.page } ≡ b = cc in
          subst (λ c. Stepped (release vp n) s c k) next
            (give_step vp n k s a ((==_iff (vp % page_size) 0).0 b1.0) (ground arith) (ground arith)
              (ground arith) b4.1 (subst (Models s a) (omega arith) v))
      | inr refused ↦ let clash : none ≡ some b = rw refused at e in cc
    ]

-- Any sequence of calls that the abstract heap allows, on a heap in order with enough frames left:
-- the code runs them all, the heap is in order behind them, and is the abstract heap again.
pub run_all-spec_all :
    (ops : List Op) (s : Vm) (a b : Space) (k : ℕ)
    → 0 < k
    → Models s a (cost ops + k)
    → spec_all ops a ≡ some b
    → (s' : Vm) × (run_all ops s ≡ some (ok s')) × Models s' b k
unfolding run_all spec_all cost
run_all-spec_all [] s a b k pos v e =
    let same : a ≡ b = cc in
    (s, refl, subst (λ c. Models s c k) same (subst (Models s a) (omega arith) v))
run_all-spec_all (op ∷ ops) s a b k pos v e = elim (option_cases (spec_op op a)) [
  | inl refused ↦ let clash : none ≡ some b = rw (spec_all, refused) at e in cc
  | inr (c, allowed) ↦
      let rest : spec_all ops c ≡ some b = rw (spec_all, allowed) at e in
      let step =
        op_step op s a c (cost ops + k) (omega arith) (subst (Models s a) (omega arith) v)
          allowed in
      let (s', run, models) = run_all-spec_all ops step.s' c b k pos step.models rest in
      (s', rw (run_all, step.run) run, models)
]

present_mapped : (st : PageState) → kind st ≡ present → (f : ℕ) × (st ≡ mapped f)
unfolding kind
present_mapped absent e = let clash : free ≡ present = e in cc
present_mapped demand e = let clash : marked ≡ present = e in cc
present_mapped (mapped f) e = (f, refl)

-- Behind any sequence of calls that the abstract heap allows, on a heap in order with enough frames
-- left, `get_physical_addr` gives two pages of the heap that are in use and have a frame the same
-- address only if they are one page.
pub get_physical_addr-apart :
    (ops : List Op) (s s' : Vm) (a b : Space) (k x y : ℕ)
    → 0 < k
    → Models s a (cost ops + k)
    → spec_all ops a ≡ some b
    → run_all ops s ≡ some (ok s')
    → IsHeapAddr x
    → IsHeapAddr y
    → b.page x ≡ present
    → b.page y ≡ present
    → get_physical_addr s'.mem s'.l4_table x ≡ get_physical_addr s'.mem s'.l4_table y
    → x ≡ y
unfolding frame_or_null
get_physical_addr-apart ops s s' a b k x y pos v e run hx hy px py same =
    let (s2, run2, models2) = run_all-spec_all ops s a b k pos v e in
    let end : s2 ≡ s' = cc in
    let models = subst (λ t. Models t b k) end models2 in
    let vmem = models.heap.vmem in
    let (f, fx) = present_mapped (state_of s'.mem s'.l4_table x) (models.pages x hx ∙ px) in
    let (g, gy) = present_mapped (state_of s'.mem s'.l4_table y) (models.pages y hy ∙ py) in
    let ax = heap_addr s'.mem s'.l4_table k x vmem hx ∙ ap (λ st. ok (frame_or_null st)) fx in
    let ay = heap_addr s'.mem s'.l4_table k y vmem hy ∙ ap (λ st. ok (frame_or_null st)) gy in
    let frames : ok f ≡ ok g = sym ax ∙ same ∙ ay in
    let one : f ≡ g = cc in
    frames_differ s'.mem s'.l4_table k x y f vmem hx hy fx (gy ∙ ap mapped (sym one))
