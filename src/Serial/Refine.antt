-- ===== src/Serial/Refine.antt =====
-- The serial port as a queue of at most 1023 bytes: what waits, and what goes out.
use skip_os.Common.{
  ℕ, zero, suc, ◌-◌, ◌<◌, ◌≡◌, ◌≢◌, refl, ap, ◌∙◌, subst, not, ok, List, [], ◌∷◌, ◌++◌, arith,
  length, get_or, set, length-set, if◌then◌else◌, ltb, ◌==◌, Option, none, some, Bool-cases, inl,
  inr,
}
use skip_os.Interrupt.Lines.{never_enabled}
use skip_os.Serial.{SerState, advance, is_buff_empty, is_buff_full, consume, produce}
use skip_os.Serial.Queue.{IsValid, count, contents, from, from-set, length-contents, place-count}

abbrev pub capacity : ℕ
capacity = 1023

-- The oldest byte, and the others.
abbrev pub oldest : List ℕ → Option ℕ
oldest [] = none
oldest (x ∷ xs) = some x

abbrev pub others : List ℕ → List ℕ
others [] = []
others (x ∷ xs) = xs

-- The queue after a byte was offered.
abbrev pub offer : List ℕ → ℕ → List ℕ
offer q x = if ltb (length q) capacity then q ++ x ∷ [] else q

from-parts :
    (buff : List ℕ) (i n : ℕ)
    → n ≢ 0
    → (oldest (from buff i n) ≡ some (get_or buff i 0))
      × (from buff (advance i) (n - 1) ≡ others (from buff i n))
from-parts buff i zero h = absurd (h refl)
from-parts buff i (suc n) h = (refl, ap (from buff (advance i)) (omega arith))

module _ (rflags : ℕ) (s : SerState) (v : IsValid s) where
  is_buff_full-eq : is_buff_full rflags s ≡ ok (not (ltb (count s) capacity))
  unfolding is_buff_full count
  is_buff_full-eq = rw (never_enabled rflags) (ground arith)

  is_buff_empty-eq : is_buff_empty rflags s ≡ ok (count s == 0)
  unfolding is_buff_empty count
  is_buff_empty-eq = rw (never_enabled rflags) (ground arith)

  -- The state that a byte which fits leaves.
  abbrev put : ℕ → SerState
  put x = record s { buff = set s.buff s.p x; p = advance s.p }

  put-IsValid : (x : ℕ) → IsValid (put x)
  unfolding advance
  put-IsValid x = record {
    storage = length-set s.buff s.p x ∙ v.storage;
    c_in = v.c_in;
    p_in = ground arith;
  }

  count-put : (x : ℕ) → count s < capacity → count (put x) ≡ suc (count s)
  unfolding count advance
  count-put x h = ground arith

  contents-put : (x : ℕ) → count s < capacity → contents (put x) ≡ contents s ++ x ∷ []
  unfolding contents
  contents-put x h = rw (count-put x h) (
      subst
        (λ (k : ℕ). from (set s.buff k x) s.c (suc (count s)) ≡ from s.buff s.c (count s) ++ x ∷ [])
        (place-count s v) (from-set (count s) s.c s.buff x v.storage v.c_in (omega arith)))

  -- On a valid ring `produce` puts a byte behind the waiting ones and returns true, or leaves a ring of 1023 bytes
  -- as it is and returns false.
  pub produce-offer :
      (x : ℕ)
      → (s' : SerState) × (produce rflags x s ≡ ok (ltb (length (contents s)) capacity, s'))
        × IsValid s'
        × (contents s' ≡ offer (contents s) x)
        × (s'.busy ≡ s.busy)
  unfolding produce
  produce-offer x = rw (length-contents s) (elim (Bool-cases (ltb (count s) capacity)) [
    | inl room ↦ (
      put x,
      rw (never_enabled rflags, is_buff_full-eq, room),
      put-IsValid x,
      rw room (contents-put x (ground arith)),
      refl,
    )
    | inr full ↦ (s, rw (never_enabled rflags, is_buff_full-eq, full), v, rw full, refl)
  ])

  -- The state that taking a byte out leaves.
  abbrev taken : SerState
  taken = record s { c = advance s.c }

  taken-IsValid : IsValid taken
  unfolding advance
  taken-IsValid = record { storage = v.storage; c_in = ground arith; p_in = v.p_in }

  count-taken : count s ≢ 0 → count taken ≡ count s - 1
  unfolding count advance
  count-taken h = ground arith

  contents-taken :
      count s ≢ 0
      → (oldest (contents s) ≡ some (get_or s.buff s.c 0)) × (contents taken ≡ others (contents s))
  unfolding contents
  contents-taken h = rw (count-taken h) (from-parts s.buff s.c (count s) h)

  contents-nil : count s ≡ 0 → contents s ≡ []
  unfolding contents
  contents-nil h = rw h

  -- On a valid ring `consume` takes the oldest byte out, or returns false at an empty ring and leaves it.
  pub consume-oldest :
      (s' : SerState) × (consume rflags s ≡ ok (oldest (contents s), s'))
      × IsValid s'
      × (contents s' ≡ others (contents s))
      × (s'.busy ≡ s.busy)
  unfolding consume
  consume-oldest = elim (Bool-cases (count s == 0)) [
    | inl empty ↦
        let none_left = contents-nil (ground arith) in
        (s, rw (never_enabled rflags, is_buff_empty-eq, empty, none_left), v, rw none_left, refl)
    | inr more ↦
        let t = contents-taken (ground arith) in
        (taken, rw (never_enabled rflags, is_buff_empty-eq, more, t.0), taken-IsValid, t.1, refl)
  ]
