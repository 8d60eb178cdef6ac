-- ===== src/PfAlloc/Refine.antt =====
-- The ring in memory behaves as the stack of its frames: `MMU_pf_alloc` and `MMU_pf_free` refine
-- the abstract pool.
use skip_os.Common.{
  ℕ, zero, suc, ◌+◌, ◌*◌, ◌%◌, ◌^◌, ◌≤◌, ◌<◌, ◌≡◌, ◌≢◌, refl, sym, ◌∙◌, subst, true, Run, ok,
  halted, ◌>>=◌, ltb, leb, ◌==◌, ne→==_false, lt→ltb, le→leb, ==_iff, arith, List, [], ◌∷◌, length,
  All, Fresh, Distinct, Bool-cases, inl, inr,
}
use skip_os.Common.Words.{add64, sub64, Memory, store, store_at, store_ne}
use skip_os.PfAlloc.{
  page_size, base_addr, len_addr, unpooled_page_cnt, limit_addr, pages_to_add, add_elem, pop_elem,
  add_upper_loop, add_new_upper_pages, pf_alloc, pf_free,
}
use skip_os.PfAlloc.Chain.{
  IsFrame, Chain, add_elem-Chain, IsHeadField, add_elem-field, is_empty-length, pop_elem-Chain,
  Chain-store-field,
}
use skip_os.PfAlloc.Spec
use skip_os.PfAlloc.Spec.{Pool, stack}

-- The ring holds `xs`, pages below the first one that is not in the pool, which is at `base`.
pub record Ring (m : Memory) (xs : List ℕ) (base : ℕ) : Type 0 where
  pub chain : Chain m 0 xs
  pub frames : All IsFrame xs
  pub distinct : Distinct xs
  pub below : All (λ x. x < base) xs
  pub base_frame : IsFrame base
  pub base_word : m (base_addr 0) ≡ base

-- The memory holds the pool `s`.
pub record IsPool (m : Memory) (s : Pool) : Type 0 where
  pub ring : Ring m s.frames s.base
  pub len_word : m (len_addr 0) ≡ s.unpooled * page_size
  pub cnt_word : m (unpooled_page_cnt 0) ≡ s.unpooled
  pub limit : s.base + s.unpooled * page_size < 2 ^ 64

-- The two runs stop together, or return the same address and related states.
abbrev pub Refines : Run (ℕ × Memory) → Run (ℕ × Pool) → Type 0
Refines (ok (a, m)) (ok (b, s)) = (a ≡ b) × IsPool m s
Refines (ok r) halted = ⊥
Refines halted (ok r) = ⊥
Refines halted halted = Unit

pub below-Fresh : (b : ℕ) (xs : List ℕ) → All (λ x. x < b) xs → Fresh b xs
below-Fresh b [] h = tt
below-Fresh b (x ∷ xs) h = (omega arith, below-Fresh b xs h.1)

pub below_mono : (b c : ℕ) (xs : List ℕ) → b ≤ c → All (λ x. x < b) xs → All (λ x. x < c) xs
below_mono b c [] le h = tt
below_mono b c (x ∷ xs) le h = (omega arith, below_mono b c xs le h.1)

-- One round of the loop of `add_new_upper_pages`.
abbrev pub add_upper_round : Memory → Memory
add_upper_round m =
    let m1 = add_elem m 0 (m (base_addr 0)) in
    store m1 (base_addr 0) (add64 (m1 (base_addr 0)) page_size)

module _ (m : Memory) (xs : List ℕ) (b : ℕ) (r : Ring m xs b) (fits : b + page_size < 2 ^ 64) where
  pub round-Ring : Ring (add_upper_round m) (b ∷ xs) (b + page_size)
  round-Ring =
      let b_eq = r.base_word in
      let fresh = below-Fresh b xs r.below in
      let m1 = add_elem m 0 b in
      let word : m1 16 ≡ b =
        add_elem-field m b 16 xs r.base_frame r.chain r.frames (omega arith) ∙ b_eq in
      rw (b_eq, word)
        (record {
          chain =
              Chain-store-field m1 16 (add64 b page_size) (b ∷ xs) (omega arith)
                (r.base_frame, r.frames)
                (add_elem-Chain m b xs r.base_frame r.chain r.frames r.distinct fresh);
          frames = (r.base_frame, r.frames);
          distinct = (fresh, r.distinct);
          below = (omega arith, below_mono b (b + page_size) xs (omega arith) r.below);
          base_frame = omega (arith, r.base_frame);
          base_word = store_at m1 16 (add64 b page_size) ∙ omega arith;
        })

  round-field : (a : ℕ) → IsHeadField a → a ≢ 16 → add_upper_round m a ≡ m a
  round-field a h ne =
      rw r.base_word
        (store_ne _ 16 _ a ne ∙ add_elem-field m b a xs r.base_frame r.chain r.frames h)

-- The loop stacks `n` pages, and leaves the other fields of the head alone.
add_upper_loop-Ring :
    (n : ℕ) (m : Memory) (xs : List ℕ) (b : ℕ)
    → Ring m xs b
    → b + n * page_size < 2 ^ 64
    → Ring (add_upper_loop n m 0) (stack n b xs) (b + n * page_size)
      × (add_upper_loop n m 0 24 ≡ m 24)
      × (add_upper_loop n m 0 32 ≡ m 32)
unfolding add_upper_loop stack
add_upper_loop-Ring zero m xs b r fits = (subst (Ring m xs) (omega arith) r, refl, refl)
add_upper_loop-Ring (suc n) m xs b r fits =
    let ih =
      add_upper_loop-Ring n (add_upper_round m) (b ∷ xs) (b + page_size)
        (round-Ring m xs b r (omega arith)) (omega arith) in
    (
      subst (Ring (add_upper_loop n (add_upper_round m) 0) (stack n (b + page_size) (b ∷ xs)))
          (omega arith) ih.0,
      ih.1 ∙ round-field m xs b r (omega arith) 24 (omega arith) (omega arith),
      ih.2 ∙ round-field m xs b r (omega arith) 32 (omega arith) (omega arith),
    )

-- A write to a counter of the head keeps the ring.
pub Ring-store :
    (m : Memory) (xs : List ℕ) (b a v : ℕ)
    → Ring m xs b
    → IsHeadField a
    → a ≢ 16
    → Ring (store m a v) xs b
Ring-store m xs b a v r h ne = record {
  chain = Chain-store-field m a v xs h r.frames r.chain;
  frames = r.frames;
  distinct = r.distinct;
  below = r.below;
  base_frame = r.base_frame;
  base_word = store_ne m a v 16 (λ e. ne (sym e)) ∙ r.base_word;
}

limit_addr-eq :
    (m : Memory) (s : Pool) → IsPool m s → limit_addr m 0 ≡ s.base + s.unpooled * page_size
limit_addr-eq m s p = omega (arith, p.ring.base_word, p.len_word, p.limit)

-- The memory that `add_new_upper_pages` leaves when its assertions hold.
abbrev pub upper_pages_added : ℕ → Memory → Memory
upper_pages_added n m =
    let m1 = add_upper_loop n m 0 in
    let m2 = store m1 24 (sub64 (m1 24) (n * page_size % 2 ^ 64)) in store m2 32 (sub64 (m2 32) n)

module _ (m : Memory) (s : Pool) (p : IsPool m s) (n : ℕ) (some_page : 0 < n)
    (enough : n ≤ s.unpooled) where
  open p use {ring, len_word, cnt_word, limit}

  pub upper_pages_added-IsPool : IsPool (upper_pages_added n m) (Spec.add_upper n s)
  unfolding Spec.add_upper store
  upper_pages_added-IsPool =
      let loop = add_upper_loop-Ring n m s.frames s.base ring (omega arith) in
      let m1 = add_upper_loop n m 0 in
      let m2 = store m1 24 (sub64 (m1 24) (n * page_size % 2 ^ 64)) in
      record {
        ring =
            Ring-store m2 _ _ 32 (sub64 (m2 32) n)
              (Ring-store m1 _ _ 24 (sub64 (m1 24) (n * page_size % 2 ^ 64)) loop.0 (omega arith)
                (omega arith))
              (omega arith) (omega arith);
        len_word = omega (arith, loop.1);
        cnt_word = omega (arith, loop.2);
        limit = omega arith;
      }

  pub add_new_upper_pages-ok : add_new_upper_pages m 0 n ≡ ok (upper_pages_added n m)
  unfolding add_new_upper_pages Spec.add_upper
  add_new_upper_pages-ok =
      let fits : leb n (m 32) ≡ true = rw cnt_word (le→leb n s.unpooled enough) in
      let same_limit : (limit_addr m 0 == limit_addr (upper_pages_added n m) 0) ≡ true =
        (==_iff _ _).1
          (omega (arith, limit_addr-eq m s p, limit_addr-eq _ _ upper_pages_added-IsPool)) in
      rw (fits, lt→ltb 0 n some_page, same_limit) refl

  add_new_upper_pages-IsPool :
      (m' : Memory) × (add_new_upper_pages m 0 n ≡ ok m') × IsPool m' (Spec.add_upper n s)
  add_new_upper_pages-IsPool =
      (upper_pages_added n m, add_new_upper_pages-ok, upper_pages_added-IsPool)

module _ (m : Memory) (s : Pool) where
  pub pop_elem-short : (xs : List ℕ) → Ring m xs s.base → length xs < 2 → pop_elem m 0 ≡ halted
  unfolding pop_elem
  pop_elem-short xs r h =
      rw (is_empty-length m xs r.chain r.frames r.distinct, lt→ltb (length xs) 2 h) refl

  -- Popping refines popping, on rings of every length.
  pop_from-Refines :
      (xs : List ℕ)
      → IsPool m (record s { frames = xs })
      → Refines (pop_elem m 0) (Spec.pop_from xs s)
  unfolding Spec.pop_from
  pop_from-Refines [] p = rw (pop_elem-short [] p.ring (omega arith)) tt
  pop_from-Refines (x ∷ []) p = rw (pop_elem-short (x ∷ []) p.ring (omega arith)) tt
  pop_from-Refines (x ∷ y ∷ ys) p =
      let r = p.ring in
      let (m', e, c', keep) = pop_elem-Chain m x y ys r.chain r.frames r.distinct in
      rw e (
        refl,
        record {
          ring = record {
            chain = c';
            frames = r.frames.1;
            distinct = r.distinct.1;
            below = r.below.1;
            base_frame = r.base_frame;
            base_word = keep 16 (omega arith) ∙ r.base_word;
          };
          len_word = keep 24 (omega arith) ∙ p.len_word;
          cnt_word = keep 32 (omega arith) ∙ p.cnt_word;
          limit = p.limit;
        },
      )

pop_elem-Refines : (m : Memory) (s : Pool) → IsPool m s → Refines (pop_elem m 0) (Spec.pop s)
unfolding Spec.pop
pop_elem-Refines m s p = pop_from-Refines m s s.frames p

-- Moving pages into the pool and popping one refines the same on the abstract pool.
refill-Refines :
    (m : Memory) (s : Pool) (n : ℕ)
    → IsPool m s
    → 0 < n
    → n ≤ s.unpooled
    → Refines (add_new_upper_pages m 0 n >>= λ m1. pop_elem m1 0) (Spec.pop (Spec.add_upper n s))
refill-Refines m s n p h le =
    let (m', e, q) = add_new_upper_pages-IsPool m s p n h le in
    rw e (pop_elem-Refines m' (Spec.add_upper n s) q)

pub pages_to_add_bounds : (u : ℕ) → u ≢ 0 → (0 < pages_to_add u) × (pages_to_add u ≤ u)
pages_to_add_bounds u h = ground arith

-- From a memory that holds the pool, `MMU_pf_alloc` returns what the abstract pool returns, null
-- exactly when it does, leaves the memory holding the new pool, and stops at a failed assertion
-- exactly when the abstract pool has no frame to pop.
pub pf_alloc-Refines : (m : Memory) (s : Pool) → IsPool m s → Refines (pf_alloc m) (Spec.alloc s)
unfolding pf_alloc Spec.alloc
pf_alloc-Refines m s p =
    let r = p.ring in
    rw (is_empty-length m s.frames r.chain r.frames r.distinct, p.cnt_word)
      (elim (Bool-cases (ltb (length s.frames) 2)) [
        | inl short ↦ rw short (elim (Bool-cases (s.unpooled == 0)) [
          | inl none_left ↦ rw none_left (refl, p)
          | inr more ↦
              let b = pages_to_add_bounds s.unpooled (ground arith) in
              rw more (refill-Refines m s (pages_to_add s.unpooled) p b.0 b.1)
        ])
        | inr long ↦ rw long (pop_elem-Refines m s p)
      ])

-- Freeing a page that was handed out, below the unpooled memory and not in the pool, puts it on top
-- of the stack.
pub pf_free_refines :
    (m : Memory) (s : Pool) (f : ℕ)
    → IsPool m s
    → IsFrame f
    → f < s.base
    → Fresh f s.frames
    → (m' : Memory) × (pf_free m f ≡ ok m') × IsPool m' (Spec.free f s)
unfolding pf_free Spec.free
pf_free_refines m s f p fr lt out =
    let r = p.ring in
    let same = λ (a : ℕ) (h : IsHeadField a). add_elem-field m f a s.frames fr r.chain r.frames h in
    (
      add_elem m 0 f,
      rw (ne→==_false f 0 fr.1) refl,
      record {
        ring = record {
          chain = add_elem-Chain m f s.frames fr r.chain r.frames r.distinct out;
          frames = (fr, r.frames);
          distinct = (out, r.distinct);
          below = (lt, r.below);
          base_frame = r.base_frame;
          base_word = same 16 (omega arith) ∙ r.base_word;
        };
        len_word = same 24 (omega arith) ∙ p.len_word;
        cnt_word = same 32 (omega arith) ∙ p.cnt_word;
        limit = p.limit;
      },
    )
