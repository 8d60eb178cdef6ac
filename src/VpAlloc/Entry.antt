-- ===== src/VpAlloc/Entry.antt =====
-- A new word for an entry of a table of level 1, one that is not present.
use skip_os.Common.{
  ℕ, suc, ◌+◌, ◌*◌, ◌%◌, ◌^◌, ◌≤◌, ◌<◌, ◌≡◌, ◌≢◌, refl, sym, ap, ◌∙◌, subst, true, false, arith,
  List,
}
use native.Mathlib.Decide.{ℕ_discrete}
use skip_os.Common.Words.{Memory, store, store_at, store_ne}
use skip_os.PfAlloc.Chain.{IsFrame}
use skip_os.PfAlloc.Spec.{Pool}
use skip_os.PfAlloc.Elsewhere.{store-IsPool}
use skip_os.VpAlloc.{shifted, entry_ptr, frame_of, is_next_page_present}
use skip_os.VpAlloc.Tables.{
  absent_state, state_from, Role, holds, IsEntry, IsPaged, mine, entry_ptr-eq, Owned-Elsewhere,
  root_prefix,
}
use skip_os.VpAlloc.Paths.{Comes, state-Comes, state-agrees}

module _ (m : Memory) (l4_table : ℕ) (role : ℕ → Role) (o : List ℕ) (s : Pool)
    (v : IsPaged m l4_table role o s) (f q i : ℕ) (table : role f ≡ holds 1 q) (index : i < 512)
    (word : ℕ) (gone : is_next_page_present word ≡ false) where
  table_frame : (g k p : ℕ) → role g ≡ holds k p → IsFrame g
  table_frame g k p r =
      (Owned-Elsewhere o s.frames s.base g 0 v.owned (mine m l4_table role o s v g k p r)
        (omega arith)).2

  abbrev changed : Memory
  changed = store m (f + 8 * i) word

  -- The tables stay in order.
  pub entry-IsPaged :
      is_next_page_present (m (f + 8 * i)) ≡ false
      → IsEntry word
      → IsPaged (store m (f + 8 * i) word) l4_table role o s
  entry-IsPaged before entry =
      let out =
        Owned-Elsewhere o s.frames s.base f (8 * i) v.owned (mine m l4_table role o s v f 1 q table)
          (omega arith) in
      let kept = (λ (z : ℕ). store_ne m (f + 8 * i) word z) in
      record {
        pool = store-IsPool m s v.pool (f + 8 * i) out.0 word;
        owned = v.owned;
        unowned = v.unowned;
        root = v.root;
        child = λ g k p j r hj ne here. elim (ℕ_discrete (g + 8 * j) (f + 8 * i)) [
          | yes e ↦
              let at_entry = ap changed e ∙ store_at m (f + 8 * i) word in
              let clash : false ≡ true = sym gone ∙ ap is_next_page_present (sym at_entry) ∙ here in
              cc
          | no apart ↦ rw (kept (g + 8 * j) apart) (
              v.child g k p j r hj ne
                (ap is_next_page_present (sym (kept (g + 8 * j) apart)) ∙ here))
        ];
        parent = λ g k p r top.
            let up = v.parent g k p r top in
            let ne = (λ (e : up.table + 8 * (p % 512) ≡ f + 8 * i).
              let clash : false ≡ true =
                sym before ∙ ap (λ z. is_next_page_present (m z)) (sym e) ∙ up.here in
              absurd cc) in
            record {
              table = up.table;
              table_role = up.table_role;
              here = ap is_next_page_present (kept (up.table + 8 * (p % 512)) ne) ∙ up.here;
              leads = ap frame_of (kept (up.table + 8 * (p % 512)) ne) ∙ up.leads;
            };
        unique = v.unique;
        plain = λ g p j r hj. elim (ℕ_discrete (g + 8 * j) (f + 8 * i)) [
          | yes e ↦ subst IsEntry (sym (ap changed e ∙ store_at m (f + 8 * i) word)) entry
          | no apart ↦ subst IsEntry (sym (kept (g + 8 * j) apart)) (v.plain g p j r hj)
        ];
      }

  -- The entry of another part of the address space is another word.
  other_entry :
      (va k g : ℕ)
      → k < 4
      → role g ≡ holds (suc k) (shifted (suc k) va)
      → ((k ≡ 0) × (shifted 0 va ≡ q * 512 + i) → ⊥)
      → changed (entry_ptr g k va) ≡ m (entry_ptr g k va)
  other_entry va k g hk rg apart = store_ne m (f + 8 * i) word (entry_ptr g k va) (λ e.
      let both =
        entry_ptr-eq role g f k 0 q i va rg table (table_frame g (suc k) (shifted (suc k) va) rg)
          (table_frame f 1 q table) index hk e in
      apart (both.0, ap (λ j. shifted j va) (sym both.0) ∙ both.1))

  -- The other pages keep their state.
  pub entry-other :
      (va : ℕ)
      → 2 ^ 39 ≤ va
      → va < 2 ^ 48
      → shifted 0 va ≢ q * 512 + i
      → state_from 4 (store m (f + 8 * i) word) l4_table va ≡ state_from 4 m l4_table va
  entry-other va low high ne =
      state-agrees m l4_table role o s v va low changed
        (λ k g hk rg. other_entry va k g hk rg (λ both. ne both.1)) 4 l4_table (omega arith)
        (root_prefix m l4_table role o s v va high)

  -- The page of the entry has the state of the new word.
  pub entry-here :
      (va : ℕ)
      → 2 ^ 39 ≤ va
      → va < 2 ^ 48
      → entry_ptr f 0 va ≡ f + 8 * i
      → Comes m va 0 f 3 l4_table
      → state_from 4 (store m (f + 8 * i) word) l4_table va ≡ absent_state 0 word
  unfolding state_from
  entry-here va low high ptr way =
      let (le, same) =
        state-Comes m l4_table role o s v va low changed 0 f
          (λ j g lj hj rg. other_entry va j g hj rg (λ both. omega arith)) 3 l4_table (omega arith)
          (root_prefix m l4_table role o s v va high) way in
      let at_entry = ap changed ptr ∙ store_at m (f + 8 * i) word in same ∙ rw (at_entry, gone) refl
