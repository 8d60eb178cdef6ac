-- ===== src/VpAlloc/Unlink.antt =====
-- The entry of a mapped page cleared, as `MMU_free_pages` does, and its frame given back.
use skip_os.Common.{
  ℕ, suc, ◌+◌, ◌*◌, ◌/◌, ◌%◌, ◌^◌, ◌≤◌, ◌<◌, ◌≡◌, ◌≢◌, sym, ap, ◌∙◌, subst, true, false, arith,
  List, [], ◌∷◌, ◌++◌, All-insert, Fresh, ok, update, update_at, update_ne,
}
use native.Mathlib.Decide.{ℕ_discrete}
use mathlib.Core.Path.{ap₂}
use skip_os.Common.Words.{Memory, store, store_at, store_ne}
use skip_os.PfAlloc.{pf_free}
use skip_os.PfAlloc.Spec
use skip_os.PfAlloc.Spec.{Pool}
use skip_os.PfAlloc.Refine.{pf_free_refines}
use skip_os.PfAlloc.Ownership.{Owned, given, free-Owned}
use skip_os.PfAlloc.Elsewhere.{store-IsPool, pf_free-elsewhere}
use skip_os.VpAlloc.{shifted, entry_ptr, frame_of, is_next_page_present}
use skip_os.VpAlloc.Tables.{
  Role, unused, holds, Parent, IsEntry, IsPaged, mine, child_prefix, shifted-suc, Owned-Elsewhere,
}

module _ (m : Memory) (l4_table : ℕ) (role : ℕ → Role) (o : List ℕ) (s : Pool)
    (v : IsPaged m l4_table role o s) (f va : ℕ) (low : 2 ^ 39 ≤ va)
    (table : role f ≡ holds 1 (shifted 1 va))
    (here : is_next_page_present (m (entry_ptr f 0 va)) ≡ true) (word : ℕ)
    (gone : is_next_page_present word ≡ false) (entry : IsEntry word) where
  abbrev pub frame : ℕ
  frame = frame_of (m (entry_ptr f 0 va))

  abbrev cleared : Memory
  cleared = store m (entry_ptr f 0 va) word

  pub page_role : role frame ≡ holds 0 (shifted 0 va)
  page_role = child_prefix m l4_table role o s v f 0 va (omega arith) low table here

  unfoldable pub left_role : ℕ → Role
  left_role = update frame unused role

  pub left_at : left_role frame ≡ unused
  unfolding left_role
  left_at = update_at frame unused role

  kept_role : (g : ℕ) → g ≢ frame → left_role g ≡ role g
  unfolding left_role
  kept_role g ne = update_ne frame unused role g ne

  old_role : (g k p : ℕ) → left_role g ≡ holds k p → (g ≢ frame) × (role g ≡ holds k p)
  old_role g k p r = elim (ℕ_discrete g frame) [
    | yes e ↦ let clash : unused ≡ holds k p = sym left_at ∙ ap left_role (sym e) ∙ r in absurd cc
    | no ne ↦ (ne, sym (kept_role g ne) ∙ r)
  ]

  upper_ne : (g k p : ℕ) → role g ≡ holds (suc k) p → g ≢ frame
  upper_ne g k p r e =
      let clash : holds (suc k) p ≡ holds 0 (shifted 0 va) = sym r ∙ ap role e ∙ page_role in cc

  -- An entry that is still present is not the one that was cleared.
  still :
      (g j : ℕ)
      → is_next_page_present (cleared (g + 8 * j)) ≡ true
      → (g + 8 * j ≢ entry_ptr f 0 va) × (cleared (g + 8 * j) ≡ m (g + 8 * j))
  still g j present = elim (ℕ_discrete (g + 8 * j) (entry_ptr f 0 va)) [
    | yes e ↦
        let at_entry = ap cleared e ∙ store_at m (entry_ptr f 0 va) word in
        let clash : false ≡ true = sym gone ∙ ap is_next_page_present (sym at_entry) ∙ present in
        absurd cc
    | no apart ↦ (apart, store_ne m (entry_ptr f 0 va) word (g + 8 * j) apart)
  ]

  left_child :
      (g k p j : ℕ)
      → left_role g ≡ holds (suc k) p
      → j < 512
      → p * 512 + j ≢ 0
      → is_next_page_present (cleared (g + 8 * j)) ≡ true
      → left_role (frame_of (cleared (g + 8 * j))) ≡ holds k (p * 512 + j)
  left_child g k p j r hj ne present =
      let (apart, same) = still g j present in
      let rg = (old_role g (suc k) p r).1 in
      let c = v.child g k p j rg hj ne (ap is_next_page_present (sym same) ∙ present) in
      let other : frame_of (m (g + 8 * j)) ≢ frame = (λ e.
        let roles : holds k (p * 512 + j) ≡ holds 0 (shifted 0 va) =
          sym c ∙ ap role e ∙ page_role in
        let level : k ≡ 0 = cc in
        let prefix : p * 512 + j ≡ shifted 0 va = cc in
        let split = shifted-suc 0 va (omega arith) in
        let pq : p ≡ shifted 1 va = omega arith in
        let index : j ≡ shifted 0 va % 512 = omega arith in
        let tables = v.unique g f 1 (shifted 1 va) (rg ∙ ap₂ holds (ap suc level) pq) table in
        apart (ap₂ (λ x y. x + 8 * y) tables index)) in
      rw same (kept_role (frame_of (m (g + 8 * j))) other ∙ c)

  left-Parent : (g k p : ℕ) → left_role g ≡ holds k p → k ≢ 4 → Parent cleared left_role g k p
  left-Parent g k p r top =
      let (ne, rg) = old_role g k p r in
      let up = v.parent g k p rg top in
      let apart : up.table + 8 * (p % 512) ≢ entry_ptr f 0 va =
        (λ e. ne (sym up.leads ∙ ap (λ z. frame_of (m z)) e)) in
      let same = store_ne m (entry_ptr f 0 va) word (up.table + 8 * (p % 512)) apart in
      record {
        table = up.table;
        table_role =
            kept_role up.table (upper_ne up.table k (p / 512) up.table_role) ∙ up.table_role;
        here = ap is_next_page_present same ∙ up.here;
        leads = ap frame_of same ∙ up.leads;
      }

  -- The tables are in order, and the frame has no role in them.
  pub unlinked-IsPaged : IsPaged cleared l4_table left_role o s
  unlinked-IsPaged =
      let out =
        Owned-Elsewhere o s.frames s.base f (8 * (shifted 0 va % 512)) v.owned
          (mine m l4_table role o s v f 1 (shifted 1 va) table) (omega arith) in
      record {
        pool = store-IsPool m s v.pool (entry_ptr f 0 va) out.0 word;
        owned = v.owned;
        unowned = λ g fr. elim (ℕ_discrete g frame) [
          | yes e ↦ ap left_role e ∙ left_at
          | no ne ↦ kept_role g ne ∙ v.unowned g fr
        ];
        root = kept_role l4_table (upper_ne l4_table 3 0 v.root) ∙ v.root;
        child = left_child;
        parent = left-Parent;
        unique = λ g x k p rg rx. v.unique g x k p (old_role g k p rg).1 (old_role x k p rx).1;
        plain = λ g p j r hj. elim (ℕ_discrete (g + 8 * j) (entry_ptr f 0 va)) [
          | yes e ↦ subst IsEntry (sym (ap cleared e ∙ store_at m (entry_ptr f 0 va) word)) entry
          | no apart ↦
              subst IsEntry (sym (store_ne m (entry_ptr f 0 va) word (g + 8 * j) apart))
                (v.plain g p j (old_role g 1 p r).1 hj)
        ];
      }

-- A frame that is not fresh stands in the list.
pub find_owned :
    (f : ℕ) (o : List ℕ) → (Fresh f o → ⊥) → (xs : List ℕ) × (ys : List ℕ) × (o ≡ xs ++ f ∷ ys)
find_owned f [] own = absurd (own tt)
find_owned f (x ∷ o) own = elim (ℕ_discrete f x) [
  | yes e ↦ ([], o, ap (λ z. z ∷ o) (sym e))
  | no ne ↦ let (xs, ys, e) = find_owned f o (λ fr. own (ne, fr)) in (x ∷ xs, ys, ap (λ l. x ∷ l) e)
]

-- The tables after `MMU_pf_free` of a frame that has no role in them.
pub record Returned (m : Memory) (l4_table : ℕ) (role : ℕ → Role) (s : Pool) (f : ℕ) : Type 0 where
  pub m' : Memory
  pub o' : List ℕ
  pub run : pf_free m f ≡ ok m'
  pub paged : IsPaged m' l4_table role o' (Spec.free f s)
  pub kept : (g k p j : ℕ) → role g ≡ holds (suc k) p → j < 512 → m' (g + 8 * j) ≡ m (g + 8 * j)

pub returned :
    (m : Memory) (l4_table : ℕ) (role : ℕ → Role) (o : List ℕ) (s : Pool)
    → IsPaged m l4_table role o s
    → (f : ℕ) → (Fresh f o → ⊥)
    → role f ≡ unused
    → Returned m l4_table role s f
unfolding Spec.free
returned m l4_table role o s v f own none_left =
    let (xs, ys, e) = find_owned f o own in
    let w = subst (λ l. Owned l s.frames s.base) e v.owned in
    let g = given xs ys s.frames f s.base w in
    let (m', run, pool) = pf_free_refines m s f v.pool g.0 g.1 g.2 in
    let kept : (g k p j : ℕ) → role g ≡ holds (suc k) p → j < 512 → m' (g + 8 * j) ≡ m (g + 8 * j) =
      (λ t k p j r hj.
        let out =
          Owned-Elsewhere o s.frames s.base t (8 * j) v.owned
            (mine m l4_table role o s v t (suc k) p r) (omega arith) in
        pf_free-elsewhere m s v.pool (t + 8 * j) out.0 f m' g.0
          (λ same.
            let clash : holds (suc k) p ≡ unused = sym r ∙ ap role (sym out.1 ∙ same) ∙ none_left in
            cc)
          run) in
    record {
      m' = m';
      o' = xs ++ ys;
      run = run;
      kept = kept;
      paged = record {
        pool = pool;
        owned = free-Owned xs ys s.frames f s.base w;
        unowned = λ t fr. elim (ℕ_discrete t f) [
          | yes same ↦ ap role same ∙ none_left
          | no ne ↦ v.unowned t (subst (Fresh t) (sym e) (All-insert (λ x. t ≢ x) xs f ys ne fr))
        ];
        root = v.root;
        child = λ t k p j r hj ne present.
            let same = kept t k p j r hj in
            rw same (v.child t k p j r hj ne (ap is_next_page_present (sym same) ∙ present));
        parent = λ t k p r top.
            let up = v.parent t k p r top in
            let same = kept up.table k (p / 512) (p % 512) up.table_role (omega arith) in
            record {
              table = up.table;
              table_role = up.table_role;
              here = ap is_next_page_present same ∙ up.here;
              leads = ap frame_of same ∙ up.leads;
            };
        unique = v.unique;
        plain = λ t p j r hj. subst IsEntry (sym (kept t 0 p j r hj)) (v.plain t p j r hj);
      };
    }
