-- ===== src/PfAlloc/Progress.antt =====
-- When `MMU_pf_alloc` gives a page, when it gives null, and when it stops.
use skip_os.Common.{
  ℕ, zero, suc, ◌+◌, ◌%◌, ◌≤◌, ◌<◌, ◌≡◌, ◌≢◌, refl, sym, ap, ◌∙◌, subst, Run, ok, halted, arith,
  List, [], ◌∷◌, length, ◌⊎◌, inl, inr, lt→ltb, le→ltb_false, Fresh, ne→==_false,
}
use skip_os.Common.Words.{Memory}
use skip_os.PfAlloc.{null, page_size, pages_to_add, pf_alloc, pf_free}
use skip_os.PfAlloc.Chain.{IsFrame}
use skip_os.PfAlloc.Spec
use skip_os.PfAlloc.Spec.{Pool, stack}
use skip_os.PfAlloc.Ownership.{Owned, pop_from-Owned, stack-Owned}
use skip_os.PfAlloc.Refine.{IsPool, Refines, pf_alloc-Refines, pf_free_refines}

-- A refinement of a run that returns, and of one that stops.
pub Refines-returns :
    (r : Run (ℕ × Memory)) (a : ℕ) (s : Pool)
    → Refines r (ok (a, s))
    → (m : Memory) × (r ≡ ok (a, m)) × IsPool m s
Refines-returns (ok (b, m)) a s h = (m, ap (λ (k : ℕ). ok (k, m)) h.0, h.1)
Refines-returns halted a s h = absurd h

Refines-stops : (r : Run (ℕ × Memory)) → Refines r halted → r ≡ halted
Refines-stops (ok (b, m)) h = absurd h
Refines-stops halted h = refl

pub length-stack : (n b : ℕ) (xs : List ℕ) → length (stack n b xs) ≡ n + length xs
unfolding stack
length-stack zero b xs = omega arith
length-stack (suc n) b xs = omega (arith, length-stack n (b + page_size) (b ∷ xs))

-- A pop with two frames or more gives one, with fewer it stops.
pop_from-two :
    (xs : List ℕ) (s : Pool)
    → 2 ≤ length xs
    → (a : ℕ) × (s' : Pool) × (Spec.pop_from xs s ≡ ok (a, s'))
unfolding Spec.pop_from
pop_from-two [] s h = absurd (omega arith)
pop_from-two (x ∷ []) s h = absurd (omega arith)
pop_from-two (x ∷ y ∷ ys) s h = (x, record s { frames = y ∷ ys }, refl)

pop_from-short : (xs : List ℕ) (s : Pool) → length xs < 2 → Spec.pop_from xs s ≡ halted
unfolding Spec.pop_from
pop_from-short [] s h = refl
pop_from-short (x ∷ []) s h = refl
pop_from-short (x ∷ y ∷ ys) s h = absurd (omega arith)

module _ (s : Pool) where
  pub alloc-pop : 2 ≤ length s.frames → Spec.alloc s ≡ Spec.pop s
  unfolding Spec.alloc
  alloc-pop h = rw (le→ltb_false (length s.frames) 2 h)

  pub alloc-refill :
      length s.frames < 2
      → s.unpooled ≢ 0
      → Spec.alloc s ≡ Spec.pop (Spec.add_upper (pages_to_add s.unpooled) s)
  unfolding Spec.alloc
  alloc-refill h n = rw (lt→ltb (length s.frames) 2 h, ne→==_false s.unpooled 0 n)

  alloc-null : length s.frames < 2 → s.unpooled ≡ 0 → Spec.alloc s ≡ ok (null, s)
  unfolding Spec.alloc
  alloc-null h z = rw (lt→ltb (length s.frames) 2 h, z)

  alloc-refilled :
      length s.frames < 2
      → s.unpooled ≢ 0
      → 2 ≤ length s.frames + s.unpooled
      → Owned [] s.frames s.base
      → (a : ℕ) × (s' : Pool) × (Spec.alloc s ≡ ok (a, s')) × Owned (a ∷ []) s'.frames s'.base
  unfolding Spec.pop Spec.add_upper
  alloc-refilled short n h w =
      let k = pages_to_add s.unpooled in
      let two : 2 ≤ k + length s.frames = ground arith in
      let (a, s', e) =
        pop_from-two (stack k s.base s.frames) (Spec.add_upper k s)
          (subst (λ (l : ℕ). 2 ≤ l) (sym (length-stack k s.base s.frames)) two) in
      let (ne, out) =
        pop_from-Owned [] (stack k s.base s.frames) (Spec.add_upper k s) a s'
          (stack-Owned k [] s.frames s.base w) e in
      (a, s', alloc-refill short n ∙ e, out)

-- A pool of which nothing is owned.
pub IsPool-Owned : (m : Memory) (s : Pool) → IsPool m s → Owned [] s.frames s.base
IsPool-Owned m s p = record {
  distinct = p.ring.distinct;
  frames = p.ring.frames;
  below = p.ring.below;
  base_frame = p.ring.base_frame;
}

-- `MMU_pf_alloc` returns a frame whenever two frames are in the pool, or pages are still to come and
-- they and the pool make two: an address that is not null and is a multiple of the page size, below
-- the pages still to come, and no longer in the pool.
pub pf_alloc_progress :
    (m : Memory) (s : Pool)
    → IsPool m s
    → (2 ≤ length s.frames)
      ⊎ ((length s.frames < 2) × (s.unpooled ≢ 0) × (2 ≤ length s.frames + s.unpooled))
    → (a : ℕ) × (s' : Pool) × (m' : Memory) × (pf_alloc m ≡ ok (a, m'))
      × (a ≢ null)
      × (a % page_size ≡ 0)
      × (a < s'.base)
      × Fresh a s'.frames
      × IsPool m' s'
unfolding Spec.pop
pf_alloc_progress m s p (inl h) =
    let (a, s', e) = pop_from-two s.frames s h in
    let r = subst (Refines (pf_alloc m)) (alloc-pop s h ∙ e) (pf_alloc-Refines m s p) in
    let (ne, out) = pop_from-Owned [] s.frames s a s' (IsPool-Owned m s p) e in
    let (m', e', p') = Refines-returns (pf_alloc m) a s' r in
    (a, s', m', e', out.frames.0.1, out.frames.0.0, out.below.0, out.distinct.0, p')
pf_alloc_progress m s p (inr (short, n, h)) =
    let (a, s', e, out) = alloc-refilled s short n h (IsPool-Owned m s p) in
    let r = subst (Refines (pf_alloc m)) e (pf_alloc-Refines m s p) in
    let (m', e', p') = Refines-returns (pf_alloc m) a s' r in
    (a, s', m', e', out.frames.0.1, out.frames.0.0, out.below.0, out.distinct.0, p')

-- With no page still to come and one frame in the pool, `MMU_pf_alloc` returns null and the pool is
-- as before: the last frame is never handed out.
pub last_frame_kept :
    (m : Memory) (s : Pool)
    → IsPool m s
    → length s.frames ≡ 1
    → s.unpooled ≡ 0
    → (m' : Memory) × (pf_alloc m ≡ ok (null, m')) × IsPool m' s
last_frame_kept m s p one z =
    Refines-returns (pf_alloc m) null s
      (subst (Refines (pf_alloc m)) (alloc-null s (omega arith) z) (pf_alloc-Refines m s p))

-- With an empty pool and one page still to come, `MMU_pf_alloc` stops at the assertion of
-- `pop_elem`.
pub lone_page_halts :
    (m : Memory) (s : Pool)
    → IsPool m s
    → length s.frames ≡ 0
    → s.unpooled ≡ 1
    → pf_alloc m ≡ halted
unfolding Spec.pop Spec.add_upper
lone_page_halts m s p none_in lone =
    let k = pages_to_add s.unpooled in
    let k1 : k ≡ 1 = ap pages_to_add lone in
    let short : length (stack k s.base s.frames) < 2 =
      omega (arith, length-stack k s.base s.frames) in
    let e =
      alloc-refill s (omega arith) (omega arith)
      ∙ pop_from-short (stack k s.base s.frames) (Spec.add_upper k s) short in
    Refines-stops (pf_alloc m) (subst (Refines (pf_alloc m)) e (pf_alloc-Refines m s p))

pop_from-cons :
    (x : ℕ) (xs : List ℕ) (s : Pool)
    → 0 < length xs
    → Spec.pop_from (x ∷ xs) s ≡ ok (x, record s { frames = xs })
unfolding Spec.pop_from
pop_from-cons x [] s h = absurd (omega arith)
pop_from-cons x (y ∷ ys) s h = refl

-- If the pool is not empty, a frame given back is the next one handed out, and the pool is then as
-- it was before.
pub free-alloc :
    (m : Memory) (s : Pool) (f : ℕ)
    → IsPool m s
    → IsFrame f
    → f < s.base
    → Fresh f s.frames
    → 0 < length s.frames
    → (m1 : Memory) × (m2 : Memory) × (pf_free m f ≡ ok m1)
      × (pf_alloc m1 ≡ ok (f, m2))
      × IsPool m2 s
unfolding Spec.pop Spec.free
free-alloc m s f p fr lt out some_frame =
    let (m1, e1, p1) = pf_free_refines m s f p fr lt out in
    let e =
      alloc-pop (Spec.free f s) (omega arith)
      ∙ pop_from-cons f s.frames (Spec.free f s) some_frame in
    let r = subst (Refines (pf_alloc m1)) e (pf_alloc-Refines m1 (Spec.free f s) p1) in
    let (m2, e2, p2) = Refines-returns (pf_alloc m1) f s r in (m1, m2, e1, e2, p2)
