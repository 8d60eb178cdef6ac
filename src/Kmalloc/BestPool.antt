-- ===== src/Kmalloc/BestPool.antt =====
-- The choice of a pool for a size, `get_best_pool`.
use skip_os.Common.{
  ℕ, zero, suc, ◌+◌, ◌≤◌, ◌<◌, ◌≡◌, refl, ap, ◌∙◌, subst, leb, some, none, List, [], ◌∷◌, length,
  All, arith, ◌⊎◌, inl, inr, get_or, Bool-cases,
}
use skip_os.Kmalloc.{max_sizes, max_size, best_from, get_best_pool}

least-suc :
    (m : ℕ) (ms : List ℕ) (k size : ℕ)
    → m < size
    → ((j : ℕ) → j < k → get_or ms j 0 < size)
    → (j : ℕ) → j < suc k
    → get_or (m ∷ ms) j 0 < size
least-suc m ms k size small least zero lt = small
least-suc m ms k size small least (suc j) lt = least j (omega arith)

-- The loop gives the first pool that is large enough, or none if all are too small.
best_from-least :
    (ms : List ℕ) (i size : ℕ)
    → ((best_from ms i size ≡ none) × All (λ m. m < size) ms)
      ⊎ ((k : ℕ) × (best_from ms i size ≡ some (i + k))
          × (k < length ms)
          × (size ≤ get_or ms k 0)
          × ((j : ℕ) → j < k → get_or ms j 0 < size))
unfolding best_from
best_from-least [] i size = inl (refl, tt)
best_from-least (m ∷ ms) i size = elim (Bool-cases (leb size m)) [
  | inl fits ↦
      inr (
        0,
        rw fits (ap some (omega arith)),
        omega arith,
        ground arith,
        λ j lt. absurd (omega arith),
      )
  | inr small ↦ elim (best_from-least ms (i + 1) size) [
    | inl (e, all) ↦ inl (rw small e, (ground arith, all))
    | inr (k, e, bound, large, least) ↦
        let shift : i + 1 + k ≡ i + suc k = omega arith in
        inr (
          suc k,
          rw small (e ∙ ap some shift),
          omega arith,
          large,
          least-suc m ms k size (ground arith) least,
        )
  ]
]

-- `get_best_pool` gives the first of the seven pools whose chunks are large enough, and none exactly
-- for more than 2048 bytes.
pub get_best_pool-least :
    (size : ℕ)
    → ((get_best_pool size ≡ none) × (2048 < size))
      ⊎ ((i : ℕ) × (get_best_pool size ≡ some i)
          × (i < 7)
          × (size ≤ max_size i)
          × ((j : ℕ) → j < i → max_size j < size))
unfolding get_best_pool
get_best_pool-least size = elim (best_from-least max_sizes 0 size) [
  | inl (e, all) ↦ inl (e, all.1.1.1.1.1.1.0)
  | inr (k, e, bound, large, least) ↦ inr (k, e ∙ ap some (omega arith), bound, large, least)
]

pub best_large : (size i : ℕ) → get_best_pool (size + 16) ≡ some i → size + 16 ≤ max_size i
best_large size i best = elim (get_best_pool-least (size + 16)) [
  | inl (e, big) ↦ cc
  | inr (k, e, hk, large, least) ↦
      let same : k ≡ i = cc in subst (λ j. size + 16 ≤ max_size j) same large
]
