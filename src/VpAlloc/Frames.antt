-- ===== src/VpAlloc/Frames.antt =====
-- A new frame from the page frame allocator, cleared or not, and linked at an entry.
use skip_os.Common.{
  ℕ, zero, suc, ◌+◌, ◌*◌, ◌%◌, ◌≤◌, ◌<◌, ◌≡◌, ◌≢◌, refl, sym, ap, ◌∙◌, false, arith, List, ◌∷◌,
  ◌++◌, All-append-left, Fresh, ok,
}
use native.Mathlib.Decide.{ℕ_discrete}
use skip_os.Common.Words.{Memory, store, store_at, store_ne}
use skip_os.PfAlloc.{page_size, pf_alloc}
use skip_os.PfAlloc.Chain.{IsFrame}
use skip_os.PfAlloc.Spec.{Pool}
use skip_os.PfAlloc.Refine.{IsPool}
use skip_os.PfAlloc.Ownership.{Owned}
use skip_os.PfAlloc.Elsewhere.{page_of, pf_alloc-elsewhere, store-IsPool}
use skip_os.VpAlloc.{is_next_page_present, has_bit, set_bit, zero_words, link_page}
use skip_os.VpAlloc.Tables.{Role, holds, IsPaged, Owned-Elsewhere, mine}
use skip_os.VpAlloc.Paths.{Linked}

pub zero_words-at : (n : ℕ) (m : Memory) (p j : ℕ) → j < n → zero_words n m p (p + 8 * j) ≡ 0
unfolding zero_words
zero_words-at zero m p j h = absurd (omega arith)
zero_words-at (suc n) m p j h = elim (ℕ_discrete j n) [
  | yes e ↦
      ap (λ k. store (zero_words n m p) (p + 8 * n) 0 (p + 8 * k)) e
      ∙ store_at (zero_words n m p) (p + 8 * n) 0
  | no ne ↦
      store_ne (zero_words n m p) (p + 8 * n) 0 (p + 8 * j) (λ e. omega arith)
      ∙ zero_words-at n m p j (omega arith)
]

pub zero_words-other :
    (n : ℕ) (m : Memory) (p x : ℕ)
    → n ≤ 512
    → p % page_size ≡ 0
    → page_of x ≢ p
    → zero_words n m p x ≡ m x
unfolding zero_words
zero_words-other zero m p x h al ne = refl
zero_words-other (suc n) m p x h al ne =
    store_ne (zero_words n m p) (p + 8 * n) 0 x (λ e. omega arith)
    ∙ zero_words-other n m p x (omega arith) al ne

pub zero_words-IsPool :
    (n : ℕ) (m : Memory) (p : ℕ) (o : List ℕ) (s : Pool)
    → n ≤ 512
    → Owned o s.frames s.base
    → (Fresh p o → ⊥)
    → IsPool m s
    → IsPool (zero_words n m p) s
unfolding zero_words
zero_words-IsPool zero m p o s h w mine pool = pool
zero_words-IsPool (suc n) m p o s h w mine pool =
    let out = Owned-Elsewhere o s.frames s.base p (8 * n) w mine (omega arith) in
    store-IsPool (zero_words n m p) s (zero_words-IsPool n m p o s (omega arith) w mine pool)
      (p + 8 * n) out.0 0

fresh_front : (a : ℕ) (o xs : List ℕ) → Fresh a (o ++ xs) → Fresh a o
fresh_front a o xs f = All-append-left (λ x. a ≢ x) o xs f

-- The word that links a frame.
pub link_word : (a : ℕ) → a % page_size ≡ 0 → set_bit 1 (set_bit 0 a) ≡ a + 3
unfolding set_bit has_bit
link_word a h = ground arith

module _ (m : Memory) (l4_table : ℕ) (role : ℕ → Role) (o : List ℕ) (s : Pool)
    (v : IsPaged m l4_table role o s) where
  -- The tables are not touched by `MMU_pf_alloc`.
  pub tables_kept :
      (a : ℕ) (m1 : Memory)
      → pf_alloc m ≡ ok (a, m1)
      → (g k p j : ℕ) → role g ≡ holds k p
      → j < 512
      → m1 (g + 8 * j) ≡ m (g + 8 * j)
  tables_kept a m1 run g k p j r hj =
      let out =
        Owned-Elsewhere o s.frames s.base g (8 * j) v.owned (mine m l4_table role o s v g k p r)
          (omega arith) in
      pf_alloc-elsewhere m s v.pool (g + 8 * j) out.0 a m1 run

  module _ (a : ℕ) (s1 : Pool) (w : Owned (a ∷ o) s1.frames s1.base) where
    pub new_frame : IsFrame a × Fresh a o
    new_frame =
        let out = Owned-Elsewhere (a ∷ o) s1.frames s1.base a 0 w (λ fr. fr.0 refl) (omega arith) in
        (out.2, fresh_front a o s1.frames w.distinct.0)

    pub table_ne : (g k p j : ℕ) → role g ≡ holds k p → j < 512 → page_of (g + 8 * j) ≢ a
    table_ne g k p j r hj e =
        let out =
          Owned-Elsewhere o s.frames s.base g (8 * j) v.owned (mine m l4_table role o s v g k p r)
            (omega arith) in
        let u = v.unowned a new_frame.1 in
        let r2 = ap role (sym out.1 ∙ e) in let r3 = sym r ∙ r2 ∙ u in cc

    -- Linking it where no frame was, in a memory that has the tables and the pool.
    pub link_page-Linked :
        (mz : Memory)
        → ((g k p j : ℕ) → role g ≡ holds k p → j < 512 → mz (g + 8 * j) ≡ m (g + 8 * j))
        → (f l q i : ℕ) → role f ≡ holds (suc l) q
        → l < 4
        → i < 512
        → is_next_page_present (m (f + 8 * i)) ≡ false
        → Linked m (link_page mz (f + 8 * i) a) role a f l q i
    link_page-Linked mz kept f l q i table bound index gone = record {
      table = table;
      bound = bound;
      index = index;
      gone = gone;
      word = store_at mz (f + 8 * i) (set_bit 1 (set_bit 0 a)) ∙ link_word a new_frame.0.0;
      others = λ g k p j r hj ne.
          store_ne mz (f + 8 * i) (set_bit 1 (set_bit 0 a)) (g + 8 * j) ne
          ∙ kept g (suc k) p j r hj;
    }

    pub link_page-IsPool :
        (mz : Memory) (f k q i : ℕ)
        → role f ≡ holds k q
        → i < 512
        → IsPool mz s1
        → IsPool (link_page mz (f + 8 * i) a) s1
    link_page-IsPool mz f k q i r hi pool =
        let mine_f = (λ (fr : Fresh f (a ∷ o)). mine m l4_table role o s v f k q r fr.1) in
        let out = Owned-Elsewhere (a ∷ o) s1.frames s1.base f (8 * i) w mine_f (omega arith) in
        store-IsPool mz s1 pool (f + 8 * i) out.0 (set_bit 1 (set_bit 0 a))

    -- Clearing it keeps the tables and the pool.
    pub cleared_kept :
        (m1 : Memory)
        → ((g k p j : ℕ) → role g ≡ holds k p → j < 512 → m1 (g + 8 * j) ≡ m (g + 8 * j))
        → (g k p j : ℕ) → role g ≡ holds k p
        → j < 512
        → zero_words 512 m1 a (g + 8 * j) ≡ m (g + 8 * j)
    cleared_kept m1 kept g k p j r hj =
        zero_words-other 512 m1 a (g + 8 * j) (omega arith) new_frame.0.0 (table_ne g k p j r hj)
        ∙ kept g k p j r hj

    pub cleared-IsPool : (m1 : Memory) → IsPool m1 s1 → IsPool (zero_words 512 m1 a) s1
    cleared-IsPool m1 = zero_words-IsPool 512 m1 a (a ∷ o) s1 (omega arith) w (λ fr. fr.0 refl)
