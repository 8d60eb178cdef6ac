-- ===== src/PfAlloc/Ownership.antt =====
-- Who owns a frame: over any sequence of calls of `MMU_pf_alloc` and `MMU_pf_free`.
use skip_os.Common.{
  ℕ, zero, suc, ◌+◌, ◌*◌, ◌<◌, ◌≡◌, ◌≢◌, refl, sym, ap, ◌∙◌, subst, Run, ok, halted, ltb, ◌==◌,
  arith, List, [], ◌∷◌, ◌++◌, append_assoc, length, All, Fresh, Distinct, Distinct-middle,
  Distinct-insert, All-middle, All-insert, All-append-right, ◌⊎◌, inl, inr, Bool-cases,
}
use skip_os.Common.Words.{Memory}
use skip_os.PfAlloc.{null, page_size, pages_to_add, pf_alloc, pf_free}
use skip_os.PfAlloc.Chain.{IsFrame}
use skip_os.PfAlloc.Spec
use skip_os.PfAlloc.Spec.{Pool, stack}
use skip_os.PfAlloc.Refine.{
  IsPool, Refines, pf_alloc-Refines, pf_free_refines, below_mono, below-Fresh,
}

-- The frames `owned` by the callers and the free ones are different pages below the base.
pub record Owned (owned free : List ℕ) (base : ℕ) : Type 0 where
  pub distinct : Distinct (owned ++ free)
  pub frames : All IsFrame (owned ++ free)
  pub below : All (λ x. x < base) (owned ++ free)
  pub base_frame : IsFrame base

pub stack-Owned :
    (n : ℕ) (o xs : List ℕ) (b : ℕ) → Owned o xs b → Owned o (stack n b xs) (b + n * page_size)
unfolding stack
stack-Owned zero o xs b w = subst (Owned o xs) (omega arith) w
stack-Owned (suc n) o xs b w = subst (Owned o (stack n (b + page_size) (b ∷ xs))) (omega arith) (
    stack-Owned n o (b ∷ xs) (b + page_size) (record {
      distinct = Distinct-insert o b xs (below-Fresh b (o ++ xs) w.below) w.distinct;
      frames = All-insert IsFrame o b xs w.base_frame w.frames;
      below =
          All-insert (λ x. x < b + page_size) o b xs (omega arith)
            (below_mono b (b + page_size) (o ++ xs) (omega arith) w.below);
      base_frame = omega (arith, w.base_frame);
    }))

-- Moving the top frame over to the owner.
take-Owned : (o xs : List ℕ) (x b : ℕ) → Owned o (x ∷ xs) b → Owned (x ∷ o) xs b
take-Owned o xs x b w = record {
  distinct = Distinct-middle o x xs w.distinct;
  frames = All-middle IsFrame o x xs w.frames;
  below = All-middle (λ y. y < b) o x xs w.below;
  base_frame = w.base_frame;
}

-- What `alloc` hands out was owned by nobody; or it returns null and nothing changes.
abbrev Handed : List ℕ → Pool → ℕ → Pool → Type 0
Handed o s a s' = ((a ≡ null) × (s' ≡ s)) ⊎ ((a ≢ null) × Owned (a ∷ o) s'.frames s'.base)

pub pop_from-Owned :
    (o xs : List ℕ) (s : Pool) (a : ℕ) (s' : Pool)
    → Owned o xs s.base
    → Spec.pop_from xs s ≡ ok (a, s')
    → (a ≢ null) × Owned (a ∷ o) s'.frames s'.base
unfolding Spec.pop_from
pop_from-Owned o [] s a s' w e = cc
pop_from-Owned o (x ∷ []) s a s' w e = cc
pop_from-Owned o (x ∷ y ∷ ys) s a s' w e =
    let q : Path (ℕ × Pool) (x, record s { frames = y ∷ ys }) (a, s') = cc in
    let got : (x ≢ null) × Owned (x ∷ o) (y ∷ ys) s.base =
      ((All-middle IsFrame o x (y ∷ ys) w.frames).0.1, take-Owned o (y ∷ ys) x s.base w) in
    subst (λ (r : ℕ × Pool). (r.0 ≢ null) × Owned (r.0 ∷ o) r.1.frames r.1.base) q got

-- The three ways of `alloc`.
alloc_cases :
    (s : Pool)
    → (Spec.alloc s ≡ ok (null, s))
      ⊎ (Spec.alloc s ≡ Spec.pop (Spec.add_upper (pages_to_add s.unpooled) s))
      ⊎ (Spec.alloc s ≡ Spec.pop s)
unfolding Spec.alloc
alloc_cases s = elim (Bool-cases (ltb (length s.frames) 2)) [
  | inl short ↦ elim (Bool-cases (s.unpooled == 0)) [
    | inl none_left ↦ inl (rw (short, none_left))
    | inr more ↦ inr (inl (rw (short, more)))
  ]
  | inr long ↦ inr (inr (rw long))
]

alloc-Owned :
    (o : List ℕ) (s : Pool) (a : ℕ) (s' : Pool)
    → Owned o s.frames s.base
    → Spec.alloc s ≡ ok (a, s')
    → Handed o s a s'
unfolding Spec.pop Spec.add_upper
alloc-Owned o s a s' w e = elim (alloc_cases s) [
  | inl c ↦ let q : Path (Run (ℕ × Pool)) (ok (null, s)) (ok (a, s')) = sym c ∙ e in inl (cc, cc)
  | inr (inl c) ↦
      let n = pages_to_add s.unpooled in
      inr (
        pop_from-Owned o (stack n s.base s.frames) (Spec.add_upper n s) a s'
          (stack-Owned n o s.frames s.base w) (sym c ∙ e))
  | inr (inr c) ↦ inr (pop_from-Owned o s.frames s a s' w (sym c ∙ e))
]

-- The allocator's memory, and the frames that its callers hold.
pub record Client : Type 0 where
  pub mem : Memory
  pub owned : List ℕ

-- One call: a page is handed out, none is left, or an owner gives a page back.
pub data Step (c : Client) (d : Client) : Type 0 where
  got :
      (a : ℕ) (m : Memory)
      → pf_alloc c.mem ≡ ok (a, m)
      → a ≢ null
      → d ≡ record { mem = m; owned = a ∷ c.owned }
      → Step c d
  refused :
      (m : Memory)
      → pf_alloc c.mem ≡ ok (null, m)
      → d ≡ record { mem = m; owned = c.owned }
      → Step c d
  gave :
      (xs ys : List ℕ) (a : ℕ) (m : Memory)
      → c.owned ≡ xs ++ a ∷ ys
      → pf_free c.mem a ≡ ok m
      → d ≡ record { mem = m; owned = xs ++ ys }
      → Step c d

pub data Reach (c : Client) : Client → Type 0 where
  here : Reach c c
  next : {d e : Client} → Reach c d → Step d e → Reach c e

-- The memory holds some pool, of which the owned frames are no part.
pub record IsSafe (c : Client) : Type 0 where
  pub pool : Pool
  pub holds : IsPool c.mem pool
  pub apart : Owned c.owned pool.frames pool.base

-- Inversion of a refinement at a run that returned.
Refines-ok :
    (a : ℕ) (m : Memory) (r : Run (ℕ × Spec.Pool))
    → Refines (ok (a, m)) r
    → (s' : Pool) × (r ≡ ok (a, s')) × IsPool m s'
Refines-ok a m (ok (b, s')) h = (s', ap (λ (k : ℕ). ok (k, s')) (sym h.0), h.1)
Refines-ok a m halted h = absurd h

alloc-ok :
    (m : Memory) (s : Pool) (a : ℕ) (m' : Memory)
    → IsPool m s
    → pf_alloc m ≡ ok (a, m')
    → (s' : Pool) × (Spec.alloc s ≡ ok (a, s')) × IsPool m' s'
alloc-ok m s a m' p e =
    Refines-ok a m' (Spec.alloc s)
      (subst (λ r. Refines r (Spec.alloc s)) e (pf_alloc-Refines m s p))

-- An owner gives a frame back.
pub free-Owned :
    (xs ys f : List ℕ) (a b : ℕ) → Owned (xs ++ a ∷ ys) f b → Owned (xs ++ ys) (a ∷ f) b
free-Owned xs ys f a b w =
    let out = append_assoc xs (a ∷ ys) f in
    let back = sym (append_assoc xs ys f) in
    let d = Distinct-middle xs a (ys ++ f) (subst Distinct out w.distinct) in
    let p = All-middle IsFrame xs a (ys ++ f) (subst (All IsFrame) out w.frames) in
    let l = All-middle (λ x. x < b) xs a (ys ++ f) (subst (All (λ x. x < b)) out w.below) in
    record {
      distinct =
          Distinct-insert (xs ++ ys) a f (subst (Fresh a) back d.0) (subst Distinct back d.1);
      frames = All-insert IsFrame (xs ++ ys) a f p.0 (subst (All IsFrame) back p.1);
      below = All-insert (λ x. x < b) (xs ++ ys) a f l.0 (subst (All (λ x. x < b)) back l.1);
      base_frame = w.base_frame;
    }

-- What is known of the frame that an owner gives back.
pub given :
    (xs ys f : List ℕ) (a b : ℕ) → Owned (xs ++ a ∷ ys) f b → IsFrame a × (a < b) × Fresh a f
given xs ys f a b w =
    let out = append_assoc xs (a ∷ ys) f in
    (
      (All-middle IsFrame xs a (ys ++ f) (subst (All IsFrame) out w.frames)).0,
      (All-middle (λ x. x < b) xs a (ys ++ f) (subst (All (λ x. x < b)) out w.below)).0,
      All-append-right (λ x. a ≢ x) ys f
          (All-append-right (λ x. a ≢ x) xs (ys ++ f)
            (Distinct-middle xs a (ys ++ f) (subst Distinct out w.distinct)).0),
    )

Step-IsSafe : (c d : Client) → Step c d → IsSafe c → IsSafe d
unfolding Spec.free
Step-IsSafe c d (got a m e ne eq) i =
    let (s', e', p') = alloc-ok c.mem i.pool a m i.holds e in
    rw eq (elim (alloc-Owned c.owned i.pool a s' i.apart e') [
      | inl n ↦ absurd (ne n.0)
      | inr w ↦ record { pool = s'; holds = p'; apart = w.1 }
    ])
Step-IsSafe c d (refused m e eq) i =
    let (s', e', p') = alloc-ok c.mem i.pool null m i.holds e in
    rw eq (elim (alloc-Owned c.owned i.pool null s' i.apart e') [
      | inl n ↦ record {
        pool = s';
        holds = p';
        apart = subst (λ (t : Pool). Owned c.owned t.frames t.base) (sym n.1) i.apart;
      }
      | inr w ↦ absurd (w.0 refl)
    ])
Step-IsSafe c d (gave xs ys a m o e eq) i =
    let w = subst (λ l. Owned l i.pool.frames i.pool.base) o i.apart in
    let g = given xs ys i.pool.frames a i.pool.base w in
    let (m', e', p') = pf_free_refines c.mem i.pool a i.holds g.0 g.1 g.2 in
    let q : Path (Run Memory) (ok m') (ok m) = sym e' ∙ e in
    let same : m' ≡ m = cc in
    rw eq (record {
      pool = Spec.free a i.pool;
      holds = subst (λ k. IsPool k (Spec.free a i.pool)) same p';
      apart = free-Owned xs ys i.pool.frames a i.pool.base w;
    })

-- However calls of `MMU_pf_alloc` and `MMU_pf_free` follow one another, from a state that holds a
-- pool, callers giving back only what they own: the memory still holds a pool, and no frame is
-- owned twice or owned and free at once; every owned frame is a page other than page 0.
pub Reach-IsSafe : (c d : Client) → IsSafe c → Reach c d → IsSafe d
Reach-IsSafe c d i here = i
Reach-IsSafe c d i (next {d = b} r st) = Step-IsSafe b d st (Reach-IsSafe c b i r)
