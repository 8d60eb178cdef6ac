-- ===== src/VpAlloc/Init.antt =====
-- `MMU_init_vp`: the tables are in order, and all pages of the heap are absent.
use skip_os.Common.{
  ℕ, zero, suc, ◌+◌, ◌*◌, ◌/◌, ◌%◌, ◌^◌, ◌≤◌, ◌<◌, ◌≡◌, ◌≢◌, refl, sym, ap, ◌∙◌, subst, true, false,
  arith, List, ◌∷◌, Fresh, ok, update, update_at, update_ne,
}
use native.Mathlib.Decide.{ℕ_discrete}
use skip_os.Common.Words.{Memory, store, store_at, store_ne}
use skip_os.PfAlloc.{page_size, pf_alloc}
use skip_os.PfAlloc.Chain.{IsFrame}
use skip_os.PfAlloc.Spec.{Pool}
use skip_os.PfAlloc.Refine.{IsPool}
use skip_os.PfAlloc.Ownership.{Owned}
use skip_os.PfAlloc.Elsewhere.{page_of, Elsewhere, pf_alloc-elsewhere, store-IsPool}
use skip_os.PfAlloc.Supply.{supply, pf_alloc-supply}
use skip_os.VpAlloc.{
  Vm, shifted, is_next_page_present, has_bit, set_bit, present_bit, writeable_bit, zero_words,
  link_page, identity_loop, setup_identity_paging, init_vp, kern_heap_base, page_size_1gb_bit,
}
use skip_os.VpAlloc.Tables.{
  absent, absent_state, state_from, Role, unused, holds, IsHeapAddr, IsPaged, Owned-Elsewhere,
}
use skip_os.VpAlloc.Frames.{link_word, zero_words-at, zero_words-other, zero_words-IsPool}
use skip_os.VpAlloc.Grow.{Vmem, state_of}
use skip_os.VpAlloc.Pages.{IsHeap, States}

-- What the processor reads in the tables: the first entry of the level 4 table is present and
-- writeable and gives a table, of which every entry is a present and writeable page of a gigabyte at
-- address 0.
pub record Identity (m : Memory) (l4 : ℕ) : Type 0 where
  pub table : ℕ
  pub table_page : table % page_size ≡ 0
  pub apart : table ≢ l4
  pub linked : m l4 ≡ table + 3
  pub pages : (j : ℕ) → j < 512 → m (table + 8 * j) ≡ 0x83

identity_word : set_bit page_size_1gb_bit (set_bit writeable_bit (set_bit present_bit 0)) ≡ 0x83
unfolding set_bit
identity_word = refl

identity-at : (n : ℕ) (m : Memory) (p j : ℕ) → j < n → identity_loop n m p (p + 8 * j) ≡ 0x83
unfolding identity_loop
identity-at zero m p j h = absurd (omega arith)
identity-at (suc n) m p j h = elim (ℕ_discrete j n) [
  | yes e ↦
      ap
        (λ k.
          store (identity_loop n m p) (p + 8 * n)
            (set_bit page_size_1gb_bit (set_bit writeable_bit (set_bit present_bit 0))) (p + 8 * k))
        e
      ∙ store_at (identity_loop n m p) (p + 8 * n)
          (set_bit page_size_1gb_bit (set_bit writeable_bit (set_bit present_bit 0)))
      ∙ identity_word
  | no ne ↦
      store_ne (identity_loop n m p) (p + 8 * n)
        (set_bit page_size_1gb_bit (set_bit writeable_bit (set_bit present_bit 0))) (p + 8 * j)
        (λ e. omega arith)
      ∙ identity-at n m p j (omega arith)
]

identity-other :
    (n : ℕ) (m : Memory) (p x : ℕ)
    → n ≤ 512
    → p % page_size ≡ 0
    → page_of x ≢ p
    → identity_loop n m p x ≡ m x
unfolding identity_loop
identity-other zero m p x h al ne = refl
identity-other (suc n) m p x h al ne =
    store_ne (identity_loop n m p) (p + 8 * n)
      (set_bit page_size_1gb_bit (set_bit writeable_bit (set_bit present_bit 0))) x
      (λ e. omega arith)
    ∙ identity-other n m p x (omega arith) al ne

identity-IsPool :
    (n : ℕ) (m : Memory) (p : ℕ) (o : List ℕ) (s : Pool)
    → n ≤ 512
    → Owned o s.frames s.base
    → (Fresh p o → ⊥)
    → IsPool m s
    → IsPool (identity_loop n m p) s
unfolding identity_loop
identity-IsPool zero m p o s h w own pool = pool
identity-IsPool (suc n) m p o s h w own pool =
    let out = Owned-Elsewhere o s.frames s.base p (8 * n) w own (omega arith) in
    store-IsPool (identity_loop n m p) s (identity-IsPool n m p o s (omega arith) w own pool)
      (p + 8 * n) out.0 (set_bit page_size_1gb_bit (set_bit writeable_bit (set_bit present_bit 0)))

-- The role of the first table alone.
unfoldable first_role : ℕ → ℕ → Role
first_role l4 = update l4 (holds 4 0) (λ f. unused)

first_only : (l4 f k q : ℕ) → first_role l4 f ≡ holds k q → (f ≡ l4) × (k ≡ 4) × (q ≡ 0)
unfolding first_role
first_only l4 f k q r = elim (ℕ_discrete f l4) [
  | yes e ↦
      let both : holds 4 0 ≡ holds k q =
        sym (update_at l4 (holds 4 0) (λ z. unused)) ∙ ap (first_role l4) (sym e) ∙ r in
      (e, cc, cc)
  | no ne ↦
      let clash : unused ≡ holds k q = sym (update_ne l4 (holds 4 0) (λ z. unused) f ne) ∙ r in
      absurd cc
]

zero_entry : is_next_page_present 0 ≡ false
unfolding is_next_page_present has_bit
zero_entry = refl

-- A first table of which all entries but the first are 0.
first-IsPaged :
    (m : Memory) (l4 : ℕ) (o : List ℕ) (s : Pool)
    → IsPool m s
    → Owned o s.frames s.base
    → (Fresh l4 o → ⊥)
    → ((j : ℕ) → j < 512 → j ≢ 0 → m (l4 + 8 * j) ≡ 0)
    → IsPaged m l4 (first_role l4) o s
unfolding first_role
first-IsPaged m l4 o s pool w own zeros = record {
  pool = pool;
  owned = w;
  unowned =
      λ f fr. update_ne l4 (holds 4 0) (λ z. unused) f (λ e. own (subst (λ z. Fresh z o) e fr));
  root = update_at l4 (holds 4 0) (λ z. unused);
  child = λ f k q i r hi ne here.
      let (e, level, prefix) = first_only l4 f (suc k) q r in
      let word = ap (λ z. m (z + 8 * i)) e ∙ zeros i hi (λ z. omega arith) in
      let clash : false ≡ true = sym zero_entry ∙ ap is_next_page_present (sym word) ∙ here in
      absurd cc;
  parent = λ f k q r top. absurd (top (first_only l4 f k q r).1);
  unique = λ f g k q rf rg. (first_only l4 f k q rf).0 ∙ sym (first_only l4 g k q rg).0;
  plain = λ f q i r hi. let level = (first_only l4 f 1 q r).1 in absurd (omega arith);
}

first_absent :
    (m : Memory) (l4 va : ℕ)
    → IsHeapAddr va
    → ((j : ℕ) → j < 512 → j ≢ 0 → m (l4 + 8 * j) ≡ 0)
    → state_of m l4 va ≡ absent
unfolding state_from absent_state shifted
first_absent m l4 va h zeros =
    rw (zeros (va / 2 ^ 39 % 512) (omega arith) (λ e. omega arith), zero_entry) refl

-- The two frames of the tables: `a` for level 4 and `b` for the identity mapping.
module _ (a : ℕ) (o : List ℕ) (m1 : Memory) (s1 : Pool) (pool1 : IsPool m1 s1)
    (w1 : Owned (a ∷ o) s1.frames s1.base) where
  own_a : Fresh a (a ∷ o) → ⊥
  own_a fr = fr.0 refl

  pool_cleared : IsPool (zero_words 512 m1 a) s1
  pool_cleared = zero_words-IsPool 512 m1 a (a ∷ o) s1 (omega arith) w1 own_a pool1

  module _ (b : ℕ) (m3 : Memory) (s3 : Pool) (run3 : pf_alloc (zero_words 512 m1 a) ≡ ok (b, m3))
      (pool3 : IsPool m3 s3) (w3 : Owned (b ∷ a ∷ o) s3.frames s3.base) where
    abbrev m4 : Memory
    m4 = zero_words 512 m3 b

    abbrev end : Memory
    end = identity_loop 512 (link_page m4 a b) b

    own_b : Fresh b (b ∷ a ∷ o) → ⊥
    own_b fr = fr.0 refl

    own_a3 : Fresh a (b ∷ a ∷ o) → ⊥
    own_a3 fr = fr.1.0 refl

    word_a :
        (j : ℕ)
        → j < 512
        → Elsewhere (a + 8 * j) s3.frames s3.base × (page_of (a + 8 * j) ≡ a) × IsFrame a
    word_a j hj = Owned-Elsewhere (b ∷ a ∷ o) s3.frames s3.base a (8 * j) w3 own_a3 (omega arith)

    frame_b : IsFrame b
    frame_b = (Owned-Elsewhere (b ∷ a ∷ o) s3.frames s3.base b 0 w3 own_b (omega arith)).2

    end-IsPool : IsPool end s3
    end-IsPool =
        let pool4 = zero_words-IsPool 512 m3 b (b ∷ a ∷ o) s3 (omega arith) w3 own_b pool3 in
        let out : Elsewhere a s3.frames s3.base =
          subst (λ z. Elsewhere z s3.frames s3.base) (omega arith) (word_a 0 (omega arith)).0 in
        identity-IsPool 512 (link_page m4 a b) b (b ∷ a ∷ o) s3 (omega arith) w3 own_b
          (store-IsPool m4 s3 pool4 a out (set_bit writeable_bit (set_bit present_bit b)))

    end_zeros : (j : ℕ) → j < 512 → j ≢ 0 → end (a + 8 * j) ≡ 0
    end_zeros j hj ne =
        let out = word_a j hj in
        let ab : page_of (a + 8 * j) ≢ b = (λ e. w3.distinct.0.0 (sym e ∙ out.1)) in
        let out1 = Owned-Elsewhere (a ∷ o) s1.frames s1.base a (8 * j) w1 own_a (omega arith) in
        identity-other 512 (link_page m4 a b) b (a + 8 * j) (omega arith) frame_b.0 ab
        ∙ store_ne m4 a (set_bit writeable_bit (set_bit present_bit b)) (a + 8 * j)
            (λ e. omega arith)
        ∙ zero_words-other 512 m3 b (a + 8 * j) (omega arith) frame_b.0 ab
        ∙ pf_alloc-elsewhere (zero_words 512 m1 a) s1 pool_cleared (a + 8 * j) out1.0 b m3 run3
        ∙ zero_words-at 512 m1 a j hj

    end-Identity : Identity end a
    end-Identity =
        let out = word_a 0 (omega arith) in
        let ab : page_of a ≢ b =
          (λ e. w3.distinct.0.0 (sym e ∙ ap page_of (omega arith) ∙ out.1)) in
        record {
          table = b;
          table_page = frame_b.0;
          apart = λ e. w3.distinct.0.0 e;
          linked =
              identity-other 512 (link_page m4 a b) b a (omega arith) frame_b.0 ab
              ∙ store_at m4 a (set_bit writeable_bit (set_bit present_bit b))
              ∙ link_word b frame_b.0;
          pages = λ j hj. identity-at 512 (link_page m4 a b) b j hj;
        }

-- `MMU_init_vp`, while the pool has three frames or more: two go to the tables, the first entry of the
-- level 4 table gives a table of 512 present and writeable pages of a gigabyte, all at address 0, and
-- the heap is in order, starts at its base, and has no page.
pub IsHeap-started :
    (m : Memory) (s : Pool) (o : List ℕ) (k : ℕ)
    → IsPool m s
    → Owned o s.frames s.base
    → 0 < k
    → k + 2 ≤ supply s
    → (t : Vm) × (init_vp m ≡ ok t)
      × (t.kern_heap_top ≡ kern_heap_base)
      × IsHeap t k
      × States t.mem t.l4_table (λ x. absent)
      × Identity t.mem t.l4_table
unfolding init_vp setup_identity_paging
IsHeap-started m s o k p w pos enough =
    let (a, m1, s1, run1, pool1, w1, t1) = pf_alloc-supply m s o p w (omega arith) in
    let pool2 = pool_cleared a o m1 s1 pool1 w1 in
    let (b, m3, s3, run3, pool3, w3, t3) =
      pf_alloc-supply (zero_words 512 m1 a) s1 (a ∷ o) pool2 w1 (omega arith) in
    let m6 = end a o m1 s1 pool1 w1 b m3 s3 run3 pool3 w3 in
    let zeros = end_zeros a o m1 s1 pool1 w1 b m3 s3 run3 pool3 w3 in
    let vmem : Vmem m6 a k = record {
      role = first_role a;
      o = b ∷ a ∷ o;
      s = s3;
      paged =
          first-IsPaged m6 a (b ∷ a ∷ o) s3 (end-IsPool a o m1 s1 pool1 w1 b m3 s3 run3 pool3 w3) w3
            (own_a3 a o m1 s1 pool1 w1 b m3 s3 run3 pool3 w3) zeros;
      left = omega arith;
    } in
    let absent_all : (x : ℕ) → IsHeapAddr x → state_of m6 a x ≡ absent =
      λ x hx. first_absent m6 a x hx zeros in
    (
      record { mem = m6; l4_table = a; kern_heap_top = kern_heap_base },
      rw (run1, run3) refl,
      refl,
      record { aligned = refl; low = omega arith; vmem = vmem; above = λ x hx le. absent_all x hx },
      absent_all,
      end-Identity a o m1 s1 pool1 w1 b m3 s3 run3 pool3 w3,
    )
