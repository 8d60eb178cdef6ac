-- ===== src/PfAlloc/Elsewhere.antt =====
-- The words that `MMU_pf_alloc` and `MMU_pf_free` leave alone: those of the frames that are not free.
use skip_os.Common.{
  ℕ, zero, suc, ◌+◌, ◌-◌, ◌*◌, ◌%◌, ◌^◌, ◌≤◌, ◌<◌, ◌≡◌, ◌≢◌, refl, sym, ap, ◌∙◌, Run, ok, halted,
  ◌==◌, ne→==_false, arith, List, [], ◌∷◌, All, Fresh, Bool-cases, inl, inr, ◌⊎◌,
}
use skip_os.Common.Words.{add64, sub64, Memory, store, store_ne}
use skip_os.PfAlloc.{
  null, page_size, is_empty, add_elem, pop_elem, add_upper_loop, pages_to_add, pf_alloc, pf_free,
}
use skip_os.PfAlloc.Chain.{IsFrame, Chain, Outside, Chain-store, add_elem-linked, pop_elem-linked}
use skip_os.PfAlloc.Spec.{Pool, stack}
use skip_os.PfAlloc.Spec
use skip_os.PfAlloc.Refine.{
  Ring, IsPool, pages_to_add_bounds, round-Ring, pop_elem-short, upper_pages_added-IsPool,
  add_upper_round, upper_pages_added, add_new_upper_pages-ok,
}

-- The page of an address.
abbrev pub page_of : ℕ → ℕ
page_of a = a - a % page_size

-- `a` is a word of a page below `b` that is none of `xs`, and not the page of the head.
abbrev pub Elsewhere : ℕ → List ℕ → ℕ → Type 0
Elsewhere a xs b = (page_size ≤ a) × (a < b) × Fresh (page_of a) xs

pub add_elem-elsewhere :
    (m : Memory) (n a : ℕ) (xs : List ℕ)
    → IsFrame n
    → Chain m 0 xs
    → All IsFrame xs
    → page_size ≤ a
    → page_of a ≢ n
    → Fresh (page_of a) xs
    → add_elem m 0 n a ≡ m a
unfolding store
add_elem-elsewhere m n a [] f c fs ge ne fr = rw (add_elem-linked m n _ f refl) (ground arith)
add_elem-elsewhere m n a (x ∷ xs) f c fs ge ne fr =
    let first : page_of a ≢ x = fr.0 in
    let top = c.0 in let aligned = fs.0.0 in rw (add_elem-linked m n _ f refl) (ground arith)

pop_elem-Elsewhere :
    (m : Memory) (a : ℕ) (s : Pool) (v : ℕ) (m' : Memory) (xs : List ℕ)
    → Ring m xs s.base
    → Elsewhere a xs s.base
    → pop_elem m 0 ≡ ok (v, m')
    → m' a ≡ m a
pop_elem-Elsewhere m a s v m' [] r o e =
    let stop : Path (Run (ℕ × Memory)) halted (ok (v, m')) =
      sym (pop_elem-short m s [] r (omega arith)) ∙ e in
    cc
pop_elem-Elsewhere m a s v m' (x ∷ []) r o e =
    let stop : Path (Run (ℕ × Memory)) halted (ok (v, m')) =
      sym (pop_elem-short m s (x ∷ []) r (omega arith)) ∙ e in
    cc
pop_elem-Elsewhere m a s v m' (x ∷ y ∷ xs) r o e =
    let run = pop_elem-linked m x y xs r.chain r.frames r.distinct in
    let same : Path (Run (ℕ × Memory)) (ok (x, store (store m y 0) 8 y)) (ok (v, m')) =
      sym run ∙ e in
    let mem : store (store m y 0) 8 y ≡ m' = cc in
    let aligned = r.frames.1.0.0 in
    let out : page_of a ≢ y = o.2.1.0 in
    ap (λ (k : Memory). k a) (sym mem)
    ∙ store_ne (store m y 0) 8 y a (omega arith)
    ∙ store_ne m y 0 a (omega arith)

-- The loop that moves upper pages into the ring works in those pages, in the ring and in the head.
add_upper_loop-Elsewhere :
    (n : ℕ) (m : Memory) (a b : ℕ) (xs : List ℕ)
    → Ring m xs b
    → b + n * page_size < 2 ^ 64
    → Elsewhere a xs b
    → add_upper_loop n m 0 a ≡ m a
unfolding add_upper_loop
add_upper_loop-Elsewhere zero m a b xs r fits o = refl
add_upper_loop-Elsewhere (suc n) m a b xs r fits o =
    let aligned = r.base_frame in
    let ne : page_of a ≢ b = (λ h. omega arith) in
    let word = r.base_word in
    add_upper_loop-Elsewhere n (add_upper_round m) a (b + page_size) (b ∷ xs)
      (round-Ring m xs b r (omega arith)) (omega arith) (o.0, omega arith, (ne, o.2))
    ∙ store_ne (add_elem m 0 (m 16)) 16 (add64 (add_elem m 0 (m 16) 16) page_size) a (omega arith)
    ∙ ap (λ k. add_elem m 0 k a) word
    ∙ add_elem-elsewhere m b a xs r.base_frame r.chain r.frames o.0 ne o.2

stack-Fresh : (n b : ℕ) (xs : List ℕ) (q : ℕ) → q < b → Fresh q xs → Fresh q (stack n b xs)
unfolding stack
stack-Fresh zero b xs q lt f = f
stack-Fresh (suc n) b xs q lt f =
    stack-Fresh n (b + page_size) (b ∷ xs) q (omega arith) (omega arith, f)

Outside-elsewhere :
    (a q : ℕ) (xs : List ℕ)
    → page_size ≤ a
    → All IsFrame xs
    → Fresh (page_of a) xs
    → (q ≡ 0) ⊎ (IsFrame q × (page_of a ≢ q))
    → Outside a q xs
Outside-elsewhere a q [] ge fs fr h = ground arith
Outside-elsewhere a q (x ∷ xs) ge fs fr h =
    (ground arith, omega arith, Outside-elsewhere a x xs ge fs.1 fr.1 (inr (fs.0, fr.0)))

module _ (m : Memory) (s : Pool) (p : IsPool m s) (a : ℕ) (o : Elsewhere a s.frames s.base) where
  upper_pages-elsewhere : (n : ℕ) → n ≤ s.unpooled → upper_pages_added n m a ≡ m a
  upper_pages-elsewhere n le =
      let m1 = add_upper_loop n m 0 in
      let m2 = store m1 24 (sub64 (m1 24) (n * page_size % 2 ^ 64)) in
      store_ne m2 32 (sub64 (m2 32) n) a (omega arith)
      ∙ store_ne m1 24 (sub64 (m1 24) (n * page_size % 2 ^ 64)) a (omega arith)
      ∙ add_upper_loop-Elsewhere n m a s.base s.frames p.ring (omega (arith, p.limit)) o

  -- The three ways of `MMU_pf_alloc`.
  pf_alloc_cases :
      (pf_alloc m ≡ ok (null, m))
      ⊎ ((n : ℕ) × (n ≤ s.unpooled) × (0 < n) × (pf_alloc m ≡ pop_elem (upper_pages_added n m) 0))
      ⊎ (pf_alloc m ≡ pop_elem m 0)
  unfolding pf_alloc
  pf_alloc_cases = elim (Bool-cases (is_empty m 0)) [
    | inl empty ↦ elim (Bool-cases (s.unpooled == 0)) [
      | inl none_left ↦ inl (rw (empty, p.cnt_word, none_left) refl)
      | inr more ↦
          let b = pages_to_add_bounds s.unpooled (ground arith) in
          inr (
            inl (
              pages_to_add s.unpooled,
              b.1,
              b.0,
              rw
                  (
                    empty,
                    p.cnt_word,
                    more,
                    add_new_upper_pages-ok m s p (pages_to_add s.unpooled) b.0 b.1,
                  )
                  refl,
            ))
    ]
    | inr some_left ↦ inr (inr (rw some_left refl))
  ]

  -- `MMU_pf_alloc` keeps the words of the frames that are not free.
  pub pf_alloc-elsewhere : (v : ℕ) (m' : Memory) → pf_alloc m ≡ ok (v, m') → m' a ≡ m a
  unfolding Spec.add_upper
  pf_alloc-elsewhere v m' e = elim pf_alloc_cases [
    | inl c ↦
        let same : Path (Run (ℕ × Memory)) (ok (null, m)) (ok (v, m')) = sym c ∙ e in
        let mem : m ≡ m' = cc in ap (λ (k : Memory). k a) (sym mem)
    | inr (inl (n, le, pos, c)) ↦
        let q = upper_pages_added-IsPool m s p n pos le in
        let aligned = p.ring.base_frame in
        let out = stack-Fresh n s.base s.frames (page_of a) (omega arith) o.2 in
        pop_elem-Elsewhere (upper_pages_added n m) a (Spec.add_upper n s) v m'
          (stack n s.base s.frames) q.ring (o.0, omega arith, out) (sym c ∙ e)
        ∙ upper_pages-elsewhere n le
    | inr (inr c) ↦ pop_elem-Elsewhere m a s v m' s.frames p.ring o (sym c ∙ e)
  ]

  -- `MMU_pf_free` keeps the words of the frames that are not free, but for the one it frees.
  pub pf_free-elsewhere :
      (f : ℕ) (m' : Memory) → IsFrame f → page_of a ≢ f → pf_free m f ≡ ok m' → m' a ≡ m a
  unfolding pf_free
  pf_free-elsewhere f m' fr ne e =
      let run : Path (Run Memory) (ok (add_elem m 0 f)) (ok m') = rw (ne→==_false f 0 fr.1) at e in
      let mem : add_elem m 0 f ≡ m' = cc in
      ap (λ (k : Memory). k a) (sym mem)
      ∙ add_elem-elsewhere m f a s.frames fr p.ring.chain p.ring.frames o.0 ne o.2

  -- A write to such a word leaves the pool as it is.
  pub store-IsPool : (v : ℕ) → IsPool (store m a v) s
  store-IsPool v = record {
    ring = record {
      chain =
          Chain-store m a v 0 s.frames
            (Outside-elsewhere a 0 s.frames o.0 p.ring.frames o.2 (inl refl)) p.ring.chain;
      frames = p.ring.frames;
      distinct = p.ring.distinct;
      below = p.ring.below;
      base_frame = p.ring.base_frame;
      base_word = store_ne m a v 16 (omega arith) ∙ p.ring.base_word;
    };
    len_word = store_ne m a v 24 (omega arith) ∙ p.len_word;
    cnt_word = store_ne m a v 32 (omega arith) ∙ p.cnt_word;
    limit = p.limit;
  }
