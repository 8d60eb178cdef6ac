-- ===== src/PfAlloc/Chain.antt =====
-- The ring of free frames as a list: what `add_elem`, `is_empty` and `pop_elem` do to it.
use skip_os.Common.{
  ℕ, ◌+◌, ◌%◌, ◌<◌, ◌≡◌, ◌≢◌, refl, sym, subst, length, ◌∙◌, false, ok, ltb, ne→==_false, arith,
  List, [], ◌∷◌, All, Fresh, Distinct,
}
use skip_os.Common.Words.{Memory, store, store_ne}
use skip_os.PfAlloc.{page_size, next, prev, is_empty, add_elem, pop_elem}

-- A free frame: a page that is not the head's.
abbrev pub IsFrame : ℕ → Type 0
IsFrame p = (p % page_size ≡ 0) × (p ≢ 0)

-- From the element `q` the `prev` links lead through `xs` to the head at 0, and the `next` links
-- lead back.
abbrev pub Chain : Memory → ℕ → List ℕ → Type 0
Chain m q [] = (m (prev q) ≡ 0) × (m (next 0) ≡ q)
Chain m q (x ∷ xs) = (m (prev q) ≡ x) × (m (next x) ≡ q) × Chain m x xs

-- `a` is no word of a chain from `q` through `xs`.
abbrev pub Outside : ℕ → ℕ → List ℕ → Type 0
Outside a q [] = (a ≢ prev q) × (a ≢ next 0)
Outside a q (x ∷ xs) = (a ≢ prev q) × (a ≢ next x) × Outside a x xs

-- A write outside a chain keeps it.
pub Chain-store :
    (m : Memory) (a v q : ℕ) (xs : List ℕ)
    → Outside a q xs
    → Chain m q xs
    → Chain (store m a v) q xs
Chain-store m a v q [] o c = ground (arith, store_ne m a v (prev q), store_ne m a v 0)
Chain-store m a v q (x ∷ xs) o c = (
  ground (arith, store_ne m a v (prev q)),
  ground (arith, store_ne m a v x),
  Chain-store m a v x xs o.2 c.2,
)

-- The words of a frame that is not in the chain, and the head's `prev`, are outside it.
Outside-next :
    (n q : ℕ) (xs : List ℕ)
    → IsFrame n
    → q % page_size ≡ 0
    → All IsFrame xs
    → Fresh n xs
    → Outside (next n) q xs
Outside-next n q [] f hq fs fr = omega arith
Outside-next n q (x ∷ xs) f hq fs fr =
    (omega arith, fr.0, Outside-next n x xs f (omega arith) fs.1 fr.1)

Outside-prev :
    (n q : ℕ) (xs : List ℕ)
    → IsFrame n
    → q % page_size ≡ 0
    → q ≢ n
    → All IsFrame xs
    → Fresh n xs
    → Outside (prev n) q xs
Outside-prev n q [] f hq ne fs fr = (omega arith, omega arith)
Outside-prev n q (x ∷ xs) f hq ne fs fr =
    (omega arith, omega arith, Outside-prev n x xs f (omega arith) (λ e. fr.0 (sym e)) fs.1 fr.1)

Outside-head : (q : ℕ) (xs : List ℕ) → IsFrame q → All IsFrame xs → Outside (prev 0) q xs
Outside-head q [] f fs = omega arith
Outside-head q (x ∷ xs) f fs = (omega arith, omega arith, Outside-head x xs fs.0 fs.1)

-- `add_elem` with its reads resolved: four writes, `t` being the old top.
abbrev pub linked : Memory → ℕ → ℕ → Memory
linked m n t = store (store (store (store m n 0) (prev n) t) t n) (prev 0) n

pub add_elem-linked :
    (m : Memory) (n t : ℕ) → IsFrame n → m (prev 0) ≡ t → add_elem m 0 n ≡ linked m n t
unfolding add_elem
add_elem-linked m n t f e =
    rw
      (
        store_ne (store m n 0) (prev n) (store m n 0 8) (prev 0) (omega arith),
        store_ne m n 0 8 (omega arith),
        e,
      )
      refl

-- Linking `n` in keeps the part of the ring behind the old top `x`.
linked-rest :
    (m : Memory) (n x : ℕ) (xs : List ℕ)
    → IsFrame n
    → All IsFrame (x ∷ xs)
    → Fresh x xs
    → Fresh n (x ∷ xs)
    → Chain m x xs
    → Chain (linked m n x) x xs
linked-rest m n x xs f fs d fr c = Chain-store _ _ _ x xs (Outside-head x xs fs.0 fs.1) (
    Chain-store _ _ _ x xs (Outside-next x x xs fs.0 (fs.0).0 fs.1 d) (
      Chain-store _ _ _ x xs (Outside-prev n x xs f (fs.0).0 (λ h. fr.0 (sym h)) fs.1 fr.1)
        (Chain-store _ _ _ x xs (Outside-next n x xs f (fs.0).0 fs.1 fr.1) c)))

linked-Chain :
    (m : Memory) (n t : ℕ) (xs : List ℕ)
    → IsFrame n
    → m (prev 0) ≡ t
    → Chain m 0 xs
    → All IsFrame xs
    → Distinct xs
    → Fresh n xs
    → Chain (linked m n t) 0 (n ∷ xs)
unfolding store
linked-Chain m n t [] f e c fs d fr = ground arith
linked-Chain m n t (x ∷ xs) f e c fs d fr =
    let tx : t ≡ x = sym e ∙ c.0 in
    let rest : Chain (linked m n t) x xs = rw tx (linked-rest m n x xs f fs d.0 fr c.2) in
    (ground arith, ground arith, (ground arith, ground arith, rest))

-- `add_elem` puts a new frame on top of the ring.
pub add_elem-Chain :
    (m : Memory) (n : ℕ) (xs : List ℕ)
    → IsFrame n
    → Chain m 0 xs
    → All IsFrame xs
    → Distinct xs
    → Fresh n xs
    → Chain (add_elem m 0 n) 0 (n ∷ xs)
add_elem-Chain m n xs f c fs d fr =
    subst (λ k. Chain k 0 (n ∷ xs)) (sym (add_elem-linked m n _ f refl))
      (linked-Chain m n _ xs f refl c fs d fr)

-- The words of the head behind its two links.
abbrev pub IsHeadField : ℕ → Type 0
IsHeadField a = (8 < a) × (a < page_size)

pub add_elem-field :
    (m : Memory) (n a : ℕ) (xs : List ℕ)
    → IsFrame n
    → Chain m 0 xs
    → All IsFrame xs
    → IsHeadField a
    → add_elem m 0 n a ≡ m a
unfolding store
add_elem-field m n a [] f c fs h = rw (add_elem-linked m n _ f refl) (ground arith)
add_elem-field m n a (x ∷ xs) f c fs h = rw (add_elem-linked m n _ f refl) (ground arith)

-- The far end of the ring is in it, or is the head.
Chain-end-ne :
    (m : Memory) (a q : ℕ) (xs : List ℕ) → a ≢ q → Fresh a xs → Chain m q xs → m (next 0) ≢ a
Chain-end-ne m a q [] ne fr c = λ e. ne (sym e ∙ c.1)
Chain-end-ne m a q (x ∷ xs) ne fr c = Chain-end-ne m a x xs fr.0 fr.1 c.2

-- `is_empty` compares the two links of the head: it is true of a ring of one frame too.
pub is_empty-length :
    (m : Memory) (xs : List ℕ)
    → Chain m 0 xs
    → All IsFrame xs
    → Distinct xs
    → is_empty m 0 ≡ ltb (length xs) 2
unfolding is_empty
is_empty-length m [] c fs d = ground arith
is_empty-length m (x ∷ []) c fs d = ground arith
is_empty-length m (x ∷ y ∷ xs) c fs d = ground (arith, Chain-end-ne m x y xs (d.0).0 (d.0).1 c.2.2)

pub pop_elem-linked :
    (m : Memory) (x y : ℕ) (xs : List ℕ)
    → Chain m 0 (x ∷ y ∷ xs)
    → All IsFrame (x ∷ y ∷ xs)
    → Distinct (x ∷ y ∷ xs)
    → pop_elem m 0 ≡ ok (x, store (store m y 0) 8 y)
unfolding pop_elem store
pop_elem-linked m x y xs c fs d =
    let e : is_empty m 0 ≡ false = ground (arith, is_empty-length m (x ∷ y ∷ xs) c fs d) in
    rw (e, c.0, c.2.0, ne→==_false (x + 8) y (omega arith))

-- `pop_elem` takes the top frame of a ring of two or more, and stops at a shorter ring.
pub pop_elem-Chain :
    (m : Memory) (x y : ℕ) (xs : List ℕ)
    → Chain m 0 (x ∷ y ∷ xs)
    → All IsFrame (x ∷ y ∷ xs)
    → Distinct (x ∷ y ∷ xs)
    → (m' : Memory) × (pop_elem m 0 ≡ ok (x, m'))
      × Chain m' 0 (y ∷ xs)
      × ((a : ℕ) → IsHeadField a → m' a ≡ m a)
unfolding store
pop_elem-Chain m x y xs c fs d =
    let rest : Chain (store (store m y 0) 8 y) y xs =
      Chain-store (store m y 0) 8 y y xs (Outside-head y xs fs.1.0 fs.1.1)
        (Chain-store m y 0 y xs (Outside-next y y xs fs.1.0 (fs.1.0).0 fs.1.1 d.1.0) c.2.2) in
    (
      store (store m y 0) 8 y,
      pop_elem-linked m x y xs c fs d,
      (refl, ground arith, rest),
      λ a h. ground arith,
    )

Outside-field :
    (a q : ℕ) (xs : List ℕ) → IsHeadField a → a ≢ prev q → All IsFrame xs → Outside a q xs
Outside-field a q [] h ne fs = (ne, omega arith)
Outside-field a q (x ∷ xs) h ne fs = (ne, omega arith, Outside-field a x xs h (omega arith) fs.1)

-- A write to a field of the head behind the links keeps the ring.
pub Chain-store-field :
    (m : Memory) (a v : ℕ) (xs : List ℕ)
    → IsHeadField a
    → All IsFrame xs
    → Chain m 0 xs
    → Chain (store m a v) 0 xs
Chain-store-field m a v xs h fs c =
    Chain-store m a v 0 xs (Outside-field a 0 xs h (omega arith) fs) c
