-- ===== src/Serial/Queue.antt =====
-- The bytes in the ring, oldest first, and the representation invariant.
use skip_os.Common.{
  ℕ, zero, suc, ◌+◌, ◌-◌, ◌<◌, ◌≡◌, ◌≢◌, refl, ap, subst, ◌∙◌, List, [], ◌∷◌, ◌++◌, arith, length,
  get_or, set, get_or-set_self, get_or-set_ne, if◌then◌else◌, leb, ltb,
}
use mathlib.Core.Path.{ap₂}
use skip_os.Serial.{SerState, buff_size, advance}

pub record IsValid (s : SerState) : Type 0 where
  pub storage : length s.buff ≡ buff_size
  pub c_in : s.c < buff_size
  pub p_in : s.p < buff_size

-- How many bytes wait between `c` and `p`.
unfoldable pub count : SerState → ℕ
count s = if leb s.c s.p then s.p - s.c else s.p + buff_size - s.c

-- The `n` bytes from place `i` on.
abbrev pub from : List ℕ → ℕ → ℕ → List ℕ
from buff i zero = []
from buff i (suc n) = get_or buff i 0 ∷ from buff (advance i) n

unfoldable pub contents : SerState → List ℕ
contents s = from s.buff s.c (count s)

length-from : (buff : List ℕ) (i n : ℕ) → length (from buff i n) ≡ n
length-from buff i zero = refl
length-from buff i (suc n) = ap suc (length-from buff (advance i) n)

pub length-contents : (s : SerState) → length (contents s) ≡ count s
unfolding contents
length-contents s = length-from s.buff s.c (count s)

-- The place `n` steps on.
abbrev pub place : ℕ → ℕ → ℕ
place i n = if ltb (i + n) buff_size then i + n else i + n - buff_size

place-advance : (i n : ℕ) → i < buff_size → n < buff_size → place (advance i) n ≡ place i (suc n)
unfolding advance
place-advance i n h k = ground arith

-- A byte written behind the waiting ones joins them as the last.
pub from-set :
    (n i : ℕ) (buff : List ℕ) (v : ℕ)
    → length buff ≡ buff_size
    → i < buff_size
    → n < buff_size
    → from (set buff (place i n) v) i (suc n) ≡ from buff i n ++ v ∷ []
unfolding advance
from-set zero i buff v len hi hn =
    let here : place i 0 ≡ i = ground arith in
    ap (λ (x : ℕ). x ∷ [])
      (ap (λ (k : ℕ). get_or (set buff k v) i 0) here ∙ get_or-set_self buff i v 0 (omega arith))
from-set (suc n) i buff v len hi hn =
    let other : place i (suc n) ≢ i = ground arith in
    let ih : from (set buff (place (advance i) n) v) (advance i) (suc n)
        ≡ from buff (advance i) n ++ v ∷ [] =
      from-set n (advance i) buff v len (ground arith) (omega arith) in
    let ih' : from (set buff (place i (suc n)) v) (advance i) (suc n)
        ≡ from buff (advance i) n ++ v ∷ [] =
      subst (λ (k : ℕ). from (set buff k v) (advance i) (suc n) ≡ from buff (advance i) n ++ v ∷ [])
        (place-advance i n hi (omega arith)) ih in
    ap₂ ◌∷◌ (get_or-set_ne buff v 0 other) ih'

module _ (s : SerState) (v : IsValid s) where
  pub count-lt : count s < buff_size
  unfolding count
  count-lt = ground arith

  pub place-count : place s.c (count s) ≡ s.p
  unfolding count
  place-count = ground arith
