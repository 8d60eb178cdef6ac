-- ===== src/Kmalloc/Chunks.antt =====
-- Lists of free chunks: what a write outside them, the loop of `add_page`, and `get_best_pool` do.
use skip_os.Common.{
  ℕ, zero, suc, ◌+◌, ◌*◌, ◌%◌, ◌^◌, ◌≤◌, ◌<◌, ◌≡◌, ◌≢◌, refl, sym, ap, ◌∙◌, subst, List, [], ◌∷◌,
  ◌++◌, length, All, Fresh, Distinct, arith, ◌⊎◌, inl,
}
use skip_os.Common.Words.{add64, Memory, store, store_at, store_ne}
use native.Mathlib.Nat.{add-mod_right}
use skip_os.PfAlloc.Refine.{below-Fresh, below_mono}
use skip_os.Kmalloc.{link_chunks}

-- The chunks `xs` are linked from `h` on, by their first words.
abbrev pub Chain : Memory → ℕ → List ℕ → Type 0
Chain m h [] = h ≡ 0
Chain m h (x ∷ xs) = (h ≡ x) × Chain m (m x) xs

-- A memory with the same first words has the same chain.
pub Chain-frame :
    (m m' : Memory) (h : ℕ) (xs : List ℕ) → All (λ y. m' y ≡ m y) xs → Chain m h xs → Chain m' h xs
Chain-frame m m' h [] same c = c
Chain-frame m m' h (x ∷ xs) same c =
    (c.0, subst (λ k. Chain m' k xs) (sym same.0) (Chain-frame m m' (m x) xs same.1 c.1))

pub All-map : (P Q : ℕ → Type 0) (xs : List ℕ) → ((y : ℕ) → P y → Q y) → All P xs → All Q xs
All-map P Q [] f a = tt
All-map P Q (x ∷ xs) f a = (f x a.0, All-map P Q xs f a.1)

pub All-append : (P : ℕ → Type 0) (xs ys : List ℕ) → All P xs → All P ys → All P (xs ++ ys)
All-append P [] ys a b = b
All-append P (x ∷ xs) ys a b = (a.0, All-append P xs ys a.1 b)

pub Fresh-All : (a : ℕ) (xs : List ℕ) → Fresh a xs → All (λ y. y ≢ a) xs
Fresh-All a [] f = tt
Fresh-All a (x ∷ xs) f = (λ e. f.0 (sym e), Fresh-All a xs f.1)

-- `n` chunks of `max` bytes from `p` on.
unfoldable pub row : ℕ → ℕ → ℕ → List ℕ
row zero p max = []
row (suc n) p max = p ∷ row n (p + max) max

pub length-row : (n p max : ℕ) → length (row n p max) ≡ n
unfolding row
length-row zero p max = refl
length-row (suc n) p max = ap suc (length-row n (p + max) max)

pub row-All :
    (n p max : ℕ)
    → 0 < max
    → p % max ≡ 0
    → All (λ y. (p ≤ y) × (y < p + n * max) × (y % max ≡ 0)) (row n p max)
unfolding row
row-All zero p max pos e = tt
row-All (suc n) p max pos e =
    let next : (p + max) % max ≡ 0 = add-mod_right p max ∙ e in
    let room : p < p + suc n * max = omega arith in
    (
      (omega arith, room, e),
      All-map _ _ (row n (p + max) max) (λ y (lo, hi, m). (omega arith, omega arith, m))
          (row-All n (p + max) max pos next),
    )

row-Fresh : (n q max : ℕ) (xs : List ℕ) (a : ℕ) → a < q → Fresh a xs → Fresh a (row n q max ++ xs)
unfolding row
row-Fresh zero q max xs a lt f = f
row-Fresh (suc n) q max xs a lt f = (omega arith, row-Fresh n (q + max) max xs a (omega arith) f)

pub row-Distinct :
    (n p max : ℕ) (xs : List ℕ)
    → 0 < max
    → All (λ y. y < p) xs
    → Distinct xs
    → Distinct (row n p max ++ xs)
unfolding row
row-Distinct zero p max xs pos b d = d
row-Distinct (suc n) p max xs pos b d = (
  row-Fresh n (p + max) max xs p (omega arith) (below-Fresh p xs b),
  row-Distinct n (p + max) max xs pos (below_mono p (p + max) xs (omega arith) b) d,
)

-- The memory once the last chunk of the row is linked to the old list.
unfoldable pub linked : ℕ → Memory → ℕ → ℕ → ℕ → Memory
linked n m p max old = store (link_chunks n m p max).0 (link_chunks n m p max).1 old

linked_step :
    (n : ℕ) (m : Memory) (p max old : ℕ)
    → p + max < 2 ^ 64
    → linked (suc n) m p max old ≡ linked n (store m p (p + max)) (p + max) max old
unfolding linked link_chunks
linked_step n m p max old h =
    let fits : add64 p max ≡ p + max = omega arith in
    ap (λ k. linked n (store m p k) (store m p k p) max old) fits
    ∙ ap (λ k. linked n (store m p (p + max)) k max old) (store_at m p (p + max))

-- A word outside the row is kept.
pub linked_frame :
    (n : ℕ) (m : Memory) (p max old a : ℕ)
    → 0 < max
    → p + n * max < 2 ^ 64
    → (a < p) ⊎ (p + suc n * max ≤ a)
    → linked n m p max old a ≡ m a
unfolding linked link_chunks
linked_frame zero m p max old a pos h out = store_ne m p old a (omega arith)
linked_frame (suc n) m p max old a pos h out =
    ap (λ k. k a) (linked_step n m p max old (omega arith))
    ∙ linked_frame n (store m p (p + max)) (p + max) max old a pos (omega arith) (omega arith)
    ∙ store_ne m p (p + max) a (omega arith)

-- The row is linked in front of the old list.
pub linked-Chain :
    (n : ℕ) (m : Memory) (p max old : ℕ) (xs : List ℕ)
    → 0 < max
    → p + n * max < 2 ^ 64
    → All (λ y. y < p) xs
    → Chain m old xs
    → Chain (linked n m p max old) p (row (suc n) p max ++ xs)
unfolding linked link_chunks row
linked-Chain zero m p max old xs pos h b c =
    let kept =
      All-map (λ y. y < p) (λ y. store m p old y ≡ m y) xs
        (λ y lt. store_ne m p old y (omega arith)) b in
    (refl, rw (store_at m p old) (Chain-frame m (store m p old) old xs kept c))
linked-Chain (suc n) m p max old xs pos h b c =
    let m1 = store m p (p + max) in
    let kept =
      All-map (λ y. y < p) (λ y. m1 y ≡ m y) xs (λ y lt. store_ne m p (p + max) y (omega arith))
        b in
    let later =
      linked-Chain n m1 (p + max) max old xs pos (omega arith)
        (below_mono p (p + max) xs (omega arith) b) (Chain-frame m m1 old xs kept c) in
    let first : linked n m1 (p + max) max old p ≡ p + max =
      linked_frame n m1 (p + max) max old p pos (omega arith) (inl (omega arith))
      ∙ store_at m p (p + max) in
    subst (λ k. Chain k p (p ∷ row (suc n) (p + max) max ++ xs))
      (sym (linked_step n m p max old (omega arith)))
      (
        refl,
        subst (λ k. Chain (linked n m1 (p + max) max old) k (row (suc n) (p + max) max ++ xs))
            (sym first) later,
      )
