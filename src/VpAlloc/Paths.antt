-- ===== src/VpAlloc/Paths.antt =====
-- What the walk through the tables finds, and which changes of the memory an address sees.
use skip_os.Common.{
  ℕ, zero, suc, ◌+◌, ◌*◌, ◌%◌, ◌^◌, ◌≤◌, ◌<◌, ◌≡◌, ◌≢◌, refl, sym, ap, ◌∙◌, true, false, Bool-cases,
  arith, List, inl, inr, Option, some,
}
use skip_os.Common.Words.{Memory}
use native.Mathlib.Decide.{ℕ_discrete}
use skip_os.PfAlloc.{page_size}
use skip_os.PfAlloc.Chain.{IsFrame}
use skip_os.PfAlloc.Spec.{Pool}
use skip_os.VpAlloc.{Found, shifted, entry_ptr, frame_of, is_next_page_present, has_bit, walk}
use skip_os.VpAlloc.Tables.{
  PageState, absent, mapped, absent_state, state_from, Role, holds, IsPaged, mine, child_prefix,
  entry_ptr-eq, Owned-Elsewhere,
}

-- From the table `t` of level `k + 1` the walk for an address comes to the table `f` of level `l + 1`.
pub data Comes (m : Memory) (va l f : ℕ) : ℕ → ℕ → Type 0 where
  arrived : Comes m va l f l f
  down :
      {k t : ℕ}
      → is_next_page_present (m (entry_ptr t (suc k) va)) ≡ true
      → Comes m va l f k (frame_of (m (entry_ptr t (suc k) va)))
      → Comes m va l f (suc k) t

-- What the walk from `t` for an address of state `st` finds: a frame, with the entry that leads to
-- it, or an entry that is not present.
pub data Finds (m : Memory) (role : ℕ → Role) (va : ℕ) (k t : ℕ) (st : PageState) (r : Found)
    : Type 0 where
  hit :
      (f : ℕ)
      → Comes m va 0 f k t
      → role f ≡ holds 1 (shifted 1 va)
      → is_next_page_present (m (entry_ptr f 0 va)) ≡ true
      → r.level ≡ 0
      → r.entry ≡ frame_of (m (entry_ptr f 0 va))
      → r.prev ≡ some (entry_ptr f 0 va)
      → st ≡ mapped r.entry
      → Finds m role va k t st r
  miss :
      (l f : ℕ)
      → l < 4
      → Comes m va l f k t
      → role f ≡ holds (suc l) (shifted (suc l) va)
      → r.level ≡ suc l
      → r.entry ≡ entry_ptr f l va
      → is_next_page_present (m (entry_ptr f l va)) ≡ false
      → st ≡ absent_state l (m (entry_ptr f l va))
      → Finds m role va k t st r

Finds-down :
    (m : Memory) (role : ℕ → Role) (va k t : ℕ) (st : PageState) (r : Found)
    → is_next_page_present (m (entry_ptr t (suc k) va)) ≡ true
    → Finds m role va k (frame_of (m (entry_ptr t (suc k) va))) st r
    → Finds m role va (suc k) t st r
Finds-down m role va k t st r here (hit f way rf p l e pr st_eq) =
    hit f (down here way) rf p l e pr st_eq
Finds-down m role va k t st r here (miss l f hl way rf lv e g st_eq) =
    miss l f hl (down here way) rf lv e g st_eq

module _ (m : Memory) (l4_table : ℕ) (role : ℕ → Role) (o : List ℕ) (s : Pool)
    (v : IsPaged m l4_table role o s) (va : ℕ) (low : 2 ^ 39 ≤ va) where
  pub walk-Finds :
      (k t : ℕ) (prev : Option ℕ)
      → k < 4
      → role t ≡ holds (suc k) (shifted (suc k) va)
      → Finds m role va k t (state_from (suc k) m t va) (walk (suc k) m t va prev)
  unfolding walk state_from
  walk-Finds zero t prev hk rt = elim (Bool-cases (is_next_page_present (m (entry_ptr t 0 va)))) [
    | inl here ↦ rw here (hit t arrived rt here refl refl refl refl)
    | inr gone ↦ rw gone (miss 0 t hk arrived rt refl refl gone refl)
  ]
  walk-Finds (suc k) t prev hk rt =
      elim (Bool-cases (is_next_page_present (m (entry_ptr t (suc k) va)))) [
        | inl here ↦ rw here (
            Finds-down m role va k t _ _ here (
              walk-Finds k (frame_of (m (entry_ptr t (suc k) va))) (some (entry_ptr t (suc k) va))
                (omega arith) (child_prefix m l4_table role o s v t (suc k) va hk low rt here)))
        | inr gone ↦ rw gone (miss (suc k) t hk arrived rt refl refl gone refl)
      ]

  -- A memory that agrees on the entries above a table gives the state from that table on.
  pub state-Comes :
      (m' : Memory) (l f : ℕ)
      → ((j g : ℕ)
          → l < j
          → j < 4
          → role g ≡ holds (suc j) (shifted (suc j) va)
          → m' (entry_ptr g j va) ≡ m (entry_ptr g j va))
      → (k t : ℕ) → k < 4
      → role t ≡ holds (suc k) (shifted (suc k) va)
      → Comes m va l f k t
      → l ≤ k × (state_from (suc k) m' t va ≡ state_from (suc l) m' f va)
  unfolding state_from
  state-Comes m' l f agrees k t hk rt arrived = (omega arith, refl)
  state-Comes m' l f agrees (suc k) t hk rt (down here way) =
      let child = child_prefix m l4_table role o s v t (suc k) va hk low rt here in
      let (le, rest) =
        state-Comes m' l f agrees k (frame_of (m (entry_ptr t (suc k) va))) (omega arith) child
          way in
      let same = agrees (suc k) t (omega arith) hk rt in (omega arith, rw (same, here) rest)

  -- Memories that agree on the entries for an address give it the same state.
  pub state-agrees :
      (m' : Memory)
      → ((k f : ℕ)
          → k < 4
          → role f ≡ holds (suc k) (shifted (suc k) va)
          → m' (entry_ptr f k va) ≡ m (entry_ptr f k va))
      → (k t : ℕ) → k ≤ 4
      → role t ≡ holds k (shifted k va)
      → state_from k m' t va ≡ state_from k m t va
  unfolding state_from
  state-agrees m' agrees zero t hk rt = refl
  state-agrees m' agrees (suc k) t hk rt =
      let same = agrees k t (omega arith) rt in
      elim (Bool-cases (is_next_page_present (m (entry_ptr t k va)))) [
        | inl here ↦
            rw (same, here)
              (state-agrees m' agrees k (frame_of (m (entry_ptr t k va))) (omega arith)
                (child_prefix m l4_table role o s v t k va (omega arith) low rt here))
        | inr gone ↦ rw (same, gone) refl
      ]

-- `m2` is `m` with the frame `a` linked at an entry that was not present, as far as the tables in use
-- go.
pub record Linked (m m2 : Memory) (role : ℕ → Role) (a f l q i : ℕ) : Type 0 where
  pub table : role f ≡ holds (suc l) q
  pub bound : l < 4
  pub index : i < 512
  pub gone : is_next_page_present (m (f + 8 * i)) ≡ false
  pub word : m2 (f + 8 * i) ≡ a + 3
  pub others :
      (g k p j : ℕ)
      → role g ≡ holds (suc k) p
      → j < 512
      → g + 8 * j ≢ f + 8 * i
      → m2 (g + 8 * j) ≡ m (g + 8 * j)

-- A linked word is present and leads to its frame.
pub linked_word :
    (a : ℕ) → a % page_size ≡ 0 → (is_next_page_present (a + 3) ≡ true) × (frame_of (a + 3) ≡ a)
unfolding is_next_page_present has_bit
linked_word a h = (ground arith, omega arith)

-- A table of zeros says nothing of any address.
zero_table :
    (m : Memory) (a l va : ℕ)
    → ((j : ℕ) → j < 512 → m (a + 8 * j) ≡ 0)
    → state_from (suc l) m a va ≡ absent
unfolding state_from is_next_page_present has_bit absent_state
zero_table m a zero va zeros = rw (zeros (shifted 0 va % 512) (omega arith)) refl
zero_table m a (suc l) va zeros = rw (zeros (shifted (suc l) va % 512) (omega arith)) refl

zero_state :
    (m : Memory) (a k va : ℕ)
    → 0 < k
    → ((j : ℕ) → j < 512 → m (a + 8 * j) ≡ 0)
    → state_from k m a va ≡ absent
zero_state m a zero va pos zeros = absurd (omega arith)
zero_state m a (suc k) va pos zeros = zero_table m a k va zeros

absent_upper : (k x : ℕ) → 0 < k → absent_state k x ≡ absent
unfolding absent_state
absent_upper zero x pos = absurd (omega arith)
absent_upper (suc k) x pos = refl

module _ (m m2 : Memory) (l4_table : ℕ) (role : ℕ → Role) (o : List ℕ) (s : Pool)
    (v : IsPaged m l4_table role o s) (a f l q i : ℕ) (n : Linked m m2 role a f l q i)
    (aligned : a % page_size ≡ 0) where
  pub frame_role : (g k p : ℕ) → role g ≡ holds k p → IsFrame g
  frame_role g k p r =
      (Owned-Elsewhere o s.frames s.base g 0 v.owned (mine m l4_table role o s v g k p r)
        (omega arith)).2

  -- A new empty table changes the state of no address.
  pub state-table :
      ((j : ℕ) → j < 512 → m2 (a + 8 * j) ≡ 0)
      → 0 < l
      → (va : ℕ) → 2 ^ 39 ≤ va
      → (k t : ℕ) → k ≤ 4
      → role t ≡ holds k (shifted k va)
      → state_from k m2 t va ≡ state_from k m t va
  unfolding state_from
  state-table zeros pos va low zero t hk rt = refl
  state-table zeros pos va low (suc k) t hk rt = elim (ℕ_discrete (entry_ptr t k va) (f + 8 * i)) [
    | no ne ↦
        let same = n.others t k (shifted (suc k) va) (shifted k va % 512) rt (omega arith) ne in
        elim (Bool-cases (is_next_page_present (m (entry_ptr t k va)))) [
          | inl here ↦
              rw (same, here)
                (state-table zeros pos va low k (frame_of (m (entry_ptr t k va))) (omega arith)
                  (child_prefix m l4_table role o s v t k va (omega arith) low rt here))
          | inr gone ↦ rw (same, gone) refl
        ]
    | yes e ↦
        let level =
          (entry_ptr-eq role t f k l q i va rt n.table
            (frame_role t (suc k) (shifted (suc k) va) rt) (frame_role f (suc l) q n.table) n.index
            (omega arith) e).0 in
        let word = ap m2 e ∙ n.word in
        let gone = ap (λ x. is_next_page_present (m x)) e ∙ n.gone in
        let linked = linked_word a aligned in
        rw (word, linked.0, linked.1, gone)
          (zero_state m2 a k va (omega arith) zeros
            ∙ sym (absent_upper k (m (entry_ptr t k va)) (omega arith)))
  ]

  -- Nor does a frame at a page change the state of another page.
  pub state-other :
      l ≡ 0
      → (va : ℕ) → 2 ^ 39 ≤ va
      → shifted 0 va ≢ q * 512 + i
      → (k t : ℕ) → k ≤ 4
      → role t ≡ holds k (shifted k va)
      → state_from k m2 t va ≡ state_from k m t va
  state-other z va low ne = state-agrees m l4_table role o s v va low m2 (λ k g hk rg.
      n.others g k (shifted (suc k) va) (shifted k va % 512) rg (omega arith) (λ e.
        let both =
          entry_ptr-eq role g f k l q i va rg n.table (frame_role g (suc k) (shifted (suc k) va) rg)
            (frame_role f (suc l) q n.table) n.index hk e in
        let k0 : k ≡ 0 = both.0 ∙ z in ne (ap (λ j. shifted j va) (sym k0) ∙ both.1)))
