-- ===== src/PfAlloc/Supply.antt =====
-- How many frames are left: while there are two, `MMU_pf_alloc` gives one that nobody owns.
use skip_os.Common.{ℕ, suc, ◌+◌, ◌≤◌, ◌≡◌, ◌≢◌, refl, ◌∙◌, subst, ok, arith, List, [], ◌∷◌, length}
use skip_os.Common.Words.{Memory}
use native.Mathlib.Decide.{dec_lt}
use skip_os.PfAlloc.{pages_to_add, pf_alloc}
use skip_os.PfAlloc.Spec
use skip_os.PfAlloc.Spec.{Pool, stack}
use skip_os.PfAlloc.Refine.{IsPool, Refines, pf_alloc-Refines, pages_to_add_bounds}
use skip_os.PfAlloc.Ownership.{Owned, pop_from-Owned, stack-Owned}
use skip_os.PfAlloc.Progress.{length-stack, Refines-returns, alloc-pop, alloc-refill}

-- The frames in the pool and the pages still to come.
abbrev pub supply : Pool → ℕ
supply s = length s.frames + s.unpooled

pop_two :
    (xs : List ℕ) (s : Pool)
    → 2 ≤ length xs
    → (a : ℕ) × (s' : Pool) × (Spec.pop_from xs s ≡ ok (a, s'))
      × (suc (supply s') ≡ length xs + s.unpooled)
unfolding Spec.pop_from
pop_two [] s h = absurd (omega arith)
pop_two (x ∷ []) s h = absurd (omega arith)
pop_two (x ∷ y ∷ ys) s h = (x, record s { frames = y ∷ ys }, refl, omega arith)

alloc-supply :
    (s : Pool) (o : List ℕ)
    → Owned o s.frames s.base
    → 2 ≤ supply s
    → (a : ℕ) × (s' : Pool) × (Spec.alloc s ≡ ok (a, s'))
      × Owned (a ∷ o) s'.frames s'.base
      × (suc (supply s') ≡ supply s)
unfolding Spec.pop Spec.add_upper
alloc-supply s o w h = elim (dec_lt (length s.frames) 2) [
  | yes short ↦
      let more : s.unpooled ≢ 0 = (λ z. omega arith) in
      let k = pages_to_add s.unpooled in
      let bounds = pages_to_add_bounds s.unpooled more in
      let two : 2 ≤ length (stack k s.base s.frames) =
        ground (arith, length-stack k s.base s.frames) in
      let (a, s', e, total) = pop_two (stack k s.base s.frames) (Spec.add_upper k s) two in
      let (ne, out) =
        pop_from-Owned o (stack k s.base s.frames) (Spec.add_upper k s) a s'
          (stack-Owned k o s.frames s.base w) e in
      (a, s', alloc-refill s short more ∙ e, out, omega (arith, length-stack k s.base s.frames))
  | no long ↦
      let (a, s', e, total) = pop_two s.frames s (omega arith) in
      let (ne, out) = pop_from-Owned o s.frames s a s' w e in
      (a, s', alloc-pop s (omega arith) ∙ e, out, total)
]

-- While two frames are left, `MMU_pf_alloc` gives a frame that nobody owns, and one less is left.
pub pf_alloc-supply :
    (m : Memory) (s : Pool) (o : List ℕ)
    → IsPool m s
    → Owned o s.frames s.base
    → 2 ≤ supply s
    → (a : ℕ) × (m' : Memory) × (s' : Pool) × (pf_alloc m ≡ ok (a, m'))
      × IsPool m' s'
      × Owned (a ∷ o) s'.frames s'.base
      × (suc (supply s') ≡ supply s)
pf_alloc-supply m s o p w h =
    let (a, s', e, out, total) = alloc-supply s o w h in
    let (m', run, p') =
      Refines-returns (pf_alloc m) a s' (subst (Refines (pf_alloc m)) e (pf_alloc-Refines m s p)) in
    (a, m', s', run, p', out, total)
