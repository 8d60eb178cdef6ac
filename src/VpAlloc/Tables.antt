-- ===== src/VpAlloc/Tables.antt =====
-- What the page tables say of an address, and what each frame in use is for.
use skip_os.Common.{
  ℕ, zero, suc, ◌+◌, ◌*◌, ◌/◌, ◌%◌, ◌^◌, ◌≤◌, ◌<◌, ◌≡◌, ◌≢◌, sym, ap, ◌∙◌, subst, true, false,
  if◌then◌else◌, arith, List, [], ◌∷◌, ◌++◌, All, Fresh, Distinct, All-append-left,
  All-append-right,
}
use skip_os.Common.Words.{Memory}
use native.Mathlib.Decide.{ℕ_discrete}
use skip_os.PfAlloc.{page_size}
use skip_os.PfAlloc.Chain.{IsFrame}
use skip_os.PfAlloc.Spec.{Pool}
use skip_os.PfAlloc.Refine.{IsPool}
use skip_os.PfAlloc.Ownership.{Owned}
use skip_os.PfAlloc.Elsewhere.{page_of, Elsewhere}
use skip_os.VpAlloc.{
  shifted, entry_ptr, frame_of, is_next_page_present, has_bit, demand_bit, writeable_bit,
}

-- The state of a page of the heap.
pub data PageState : Type 0 where
  absent demand : PageState
  mapped : ℕ → PageState

-- An entry that is not present, in a table of level `k + 1`: it may be marked at level 1.
unfoldable pub absent_state : ℕ → ℕ → PageState
absent_state zero entry = if has_bit demand_bit entry then demand else absent
absent_state (suc k) entry = absent

-- What the tables say of an address, from a table of level `k` on.
unfoldable pub state_from : ℕ → Memory → ℕ → ℕ → PageState
state_from zero m frame virtual_addr = mapped frame
state_from (suc k) m table virtual_addr =
    let entry = m (entry_ptr table k virtual_addr) in
    let lower = state_from k m (frame_of entry) virtual_addr in
    if is_next_page_present entry then lower else absent_state k entry

-- What a frame is for: a table of a level, or at level 0 the frame of a page; and the part of the
-- address space that it serves, by the bits that all its addresses begin with.
pub data Role : Type 0 where
  unused : Role
  holds : ℕ → ℕ → Role

-- An address of the heap: a page below 2^48, outside the identity mapping.
abbrev pub IsHeapAddr : ℕ → Type 0
IsHeapAddr va = (va % page_size ≡ 0) × (2 ^ 39 ≤ va) × (va < 2 ^ 48)

-- An entry of a table of level 1: one that is present is not marked, any other is not writeable.
abbrev pub IsEntry : ℕ → Type 0
IsEntry w =
    (is_next_page_present w ≡ true → has_bit demand_bit w ≡ false)
    × (is_next_page_present w ≡ false → has_bit writeable_bit w ≡ false)

-- The table whose entry leads to a frame.
pub record Parent (m : Memory) (role : ℕ → Role) (f k q : ℕ) : Type 0 where
  pub table : ℕ
  pub table_role : role table ≡ holds (suc k) (q / 512)
  pub here : is_next_page_present (m (table + 8 * (q % 512))) ≡ true
  pub leads : frame_of (m (table + 8 * (q % 512))) ≡ f

-- The tables lie in frames that the page frame allocator has handed out; the roles of the frames
-- agree with the entries, no two frames have one role, and an entry leads to each but the root.
pub record IsPaged (m : Memory) (l4_table : ℕ) (role : ℕ → Role) (o : List ℕ) (s : Pool)
    : Type 0 where
  pub pool : IsPool m s
  pub owned : Owned o s.frames s.base
  pub unowned : (f : ℕ) → Fresh f o → role f ≡ unused
  pub root : role l4_table ≡ holds 4 0
  pub child :
      (f k q i : ℕ)
      → role f ≡ holds (suc k) q
      → i < 512
      → q * 512 + i ≢ 0
      → is_next_page_present (m (f + 8 * i)) ≡ true
      → role (frame_of (m (f + 8 * i))) ≡ holds k (q * 512 + i)
  pub parent : (f k q : ℕ) → role f ≡ holds k q → k ≢ 4 → Parent m role f k q
  pub unique : (f g k q : ℕ) → role f ≡ holds k q → role g ≡ holds k q → f ≡ g
  pub plain : (f q i : ℕ) → role f ≡ holds 1 q → i < 512 → IsEntry (m (f + 8 * i))

-- What holds of every owned frame holds of one that is not fresh.
All-Fresh : (P : ℕ → Type 0) (f : ℕ) (o : List ℕ) → All P o → (Fresh f o → ⊥) → P f
All-Fresh P f [] all mine = absurd (mine tt)
All-Fresh P f (x ∷ o) all mine = elim (ℕ_discrete f x) [
  | yes e ↦ subst P (sym e) all.0
  | no ne ↦ All-Fresh P f o all.1 (λ fr. mine (ne, fr))
]

apart_lists : (o xs : List ℕ) → Distinct (o ++ xs) → All (λ f. Fresh f xs) o
apart_lists [] xs d = tt
apart_lists (x ∷ o) xs d = (All-append-right (λ y. x ≢ y) o xs d.0, apart_lists o xs d.1)

-- The words of an owned frame are none of the pool's.
pub Owned-Elsewhere :
    (o xs : List ℕ) (b f j : ℕ)
    → Owned o xs b
    → (Fresh f o → ⊥)
    → j < page_size
    → Elsewhere (f + j) xs b × (page_of (f + j) ≡ f) × IsFrame f
Owned-Elsewhere o xs b f j w mine h =
    let frame = All-Fresh IsFrame f o (All-append-left IsFrame o xs w.frames) mine in
    let below = All-Fresh (λ y. y < b) f o (All-append-left (λ y. y < b) o xs w.below) mine in
    let fresh = All-Fresh (λ y. Fresh y xs) f o (apart_lists o xs w.distinct) mine in
    let base = w.base_frame in
    let page : page_of (f + j) ≡ f = omega arith in
    ((omega arith, omega arith, subst (λ k. Fresh k xs) (sym page) fresh), page, frame)

-- The address bits of one level are those of the level below, less the index.
pub shifted-suc : (k va : ℕ) → k < 4 → shifted k va ≡ shifted (suc k) va * 512 + shifted k va % 512
unfolding shifted
shifted-suc zero va h = omega arith
shifted-suc (suc zero) va h = omega arith
shifted-suc (suc (suc zero)) va h = omega arith
shifted-suc (suc (suc (suc zero))) va h = omega arith
shifted-suc (suc (suc (suc (suc k)))) va h = absurd (omega arith)

pub shifted-ne : (k va : ℕ) → k < 4 → 2 ^ 39 ≤ va → shifted k va ≢ 0
unfolding shifted
shifted-ne zero va h le = omega arith
shifted-ne (suc zero) va h le = omega arith
shifted-ne (suc (suc zero)) va h le = omega arith
shifted-ne (suc (suc (suc zero))) va h le = omega arith
shifted-ne (suc (suc (suc (suc k)))) va h le = absurd (omega arith)

-- The entry of a table for an address, and what its child is for.
module _ (m : Memory) (l4_table : ℕ) (role : ℕ → Role) (o : List ℕ) (s : Pool)
    (v : IsPaged m l4_table role o s) where
  pub mine : (f k q : ℕ) → role f ≡ holds k q → Fresh f o → ⊥
  mine f k q r fr = let u = v.unowned f fr in cc

  pub root_prefix : (va : ℕ) → va < 2 ^ 48 → role l4_table ≡ holds 4 (shifted 4 va)
  unfolding shifted
  root_prefix va h = let z : va / 2 ^ 48 ≡ 0 = omega arith in v.root ∙ ap (holds 4) (sym z)

  pub child_prefix :
      (f k va : ℕ)
      → k < 4
      → 2 ^ 39 ≤ va
      → role f ≡ holds (suc k) (shifted (suc k) va)
      → is_next_page_present (m (entry_ptr f k va)) ≡ true
      → role (frame_of (m (entry_ptr f k va))) ≡ holds k (shifted k va)
  child_prefix f k va h le r here =
      let split = shifted-suc k va h in
      v.child f k (shifted (suc k) va) (shifted k va % 512) r (omega arith)
        (λ z. shifted-ne k va h le (split ∙ z)) here
      ∙ ap (holds k) (sym split)

-- Two entries are at one address only if they serve the same part of the address space.
pub entry_ptr-eq :
    (role : ℕ → Role) (f g k l q i va : ℕ)
    → role f ≡ holds (suc k) (shifted (suc k) va)
    → role g ≡ holds (suc l) q
    → IsFrame f
    → IsFrame g
    → i < 512
    → k < 4
    → entry_ptr f k va ≡ g + 8 * i
    → (k ≡ l) × (shifted k va ≡ q * 512 + i)
entry_ptr-eq role f g k l q i va rf rg ff fg hi hk e =
    let same : f ≡ g = omega arith in
    let index : shifted k va % 512 ≡ i = omega arith in
    let roles : holds (suc k) (shifted (suc k) va) ≡ holds (suc l) q = sym rf ∙ ap role same ∙ rg in
    let level : k ≡ l = cc in
    let prefix : shifted (suc k) va ≡ q = cc in
    let split = shifted-suc k va hk in (level, split ∙ omega arith)
