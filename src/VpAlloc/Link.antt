-- ===== src/VpAlloc/Link.antt =====
-- A frame linked into the tables: the tables stay in order, and the walk goes on into the frame.
use skip_os.Common.{
  ℕ, zero, suc, ◌+◌, ◌*◌, ◌/◌, ◌%◌, ◌^◌, ◌≤◌, ◌<◌, ◌≡◌, ◌≢◌, refl, sym, ap, ◌∙◌, subst, true, false,
  ◌==◌, Bool-cases, arith, List, ◌∷◌, Fresh, ◌⊎◌, inl, inr, Option, some, update, update_at,
  update_ne,
}
use mathlib.Core.Path.{ap₂}
use skip_os.Common.Words.{Memory}
use native.Mathlib.Decide.{ℕ_discrete}
use skip_os.PfAlloc.{page_size}
use skip_os.PfAlloc.Spec.{Pool}
use skip_os.PfAlloc.Refine.{IsPool}
use skip_os.PfAlloc.Ownership.{Owned}
use skip_os.VpAlloc.{shifted, entry_ptr, frame_of, is_next_page_present, has_bit, walk}
use skip_os.VpAlloc.Tables.{Role, holds, Parent, IsEntry, IsPaged, child_prefix}
use skip_os.VpAlloc.Paths.{Linked, linked_word, frame_role}

-- A linked word is not marked.
linked_plain : (a : ℕ) → a % page_size ≡ 0 → IsEntry (a + 3)
unfolding has_bit
linked_plain a h =
    (λ here. ground arith, λ gone. let clash : false ≡ true = sym gone ∙ (linked_word a h).0 in cc)

zero_plain : IsEntry 0
unfolding is_next_page_present has_bit
zero_plain = (λ here. refl, λ gone. refl)

zero_gone : (x : ℕ) → x ≡ 0 → is_next_page_present x ≡ true → ⊥
unfolding is_next_page_present has_bit
zero_gone x z here =
    let gone : 0 / 2 ^ 0 % 2 == 1 ≡ true = subst (λ k. k / 2 ^ 0 % 2 == 1 ≡ true) z here in
    ground arith

module _ (m m2 : Memory) (l4_table : ℕ) (role : ℕ → Role) (o : List ℕ) (s : Pool)
    (v : IsPaged m l4_table role o s) (a f l q i : ℕ) (n : Linked m m2 role a f l q i)
    (aligned : a % page_size ≡ 0) where
  -- At the entry itself the walk now goes on into the frame.
  through_entry :
      (va k t : ℕ) (prev : Option ℕ)
      → is_next_page_present (m (entry_ptr t k va)) ≡ false
      → (walk (suc k) m t va prev).level ≡ suc l
      → (walk (suc k) m t va prev).entry ≡ f + 8 * i
      → (last : Option ℕ) × (walk (suc k) m2 t va prev ≡ walk l m2 a va last)
  unfolding walk
  through_entry va k t prev gone level entry =
      let e : entry_ptr t k va ≡ f + 8 * i = rw gone at entry in
      let lk : suc k ≡ suc l = rw gone at level in
      let kl : k ≡ l = omega arith in
      let word = ap m2 e ∙ n.word in
      let linked = linked_word a aligned in
      (
        some (entry_ptr t k va),
        rw (word, linked.0, linked.1) (ap (λ j. walk j m2 a va (some (entry_ptr t k va))) kl),
      )

  present_ne :
      (va k t : ℕ)
      → is_next_page_present (m (entry_ptr t k va)) ≡ true
      → entry_ptr t k va ≢ f + 8 * i
  present_ne va k t here e =
      let clash : false ≡ true = sym n.gone ∙ ap (λ x. is_next_page_present (m x)) (sym e) ∙ here in
      cc

  -- The walk that stopped at the entry now comes to the new frame.
  pub walk-through :
      (va : ℕ)
      → 2 ^ 39 ≤ va
      → (k t : ℕ) → (prev : Option ℕ) → k < 4
      → role t ≡ holds (suc k) (shifted (suc k) va)
      → (walk (suc k) m t va prev).level ≡ suc l
      → (walk (suc k) m t va prev).entry ≡ f + 8 * i
      → (last : Option ℕ) × (walk (suc k) m2 t va prev ≡ walk l m2 a va last)
  unfolding walk
  walk-through va low zero t prev hk rt level entry =
      elim (Bool-cases (is_next_page_present (m (entry_ptr t 0 va)))) [
        | inl here ↦ let none_left : 0 ≡ suc l = rw here at level in absurd (omega arith)
        | inr gone ↦ through_entry va 0 t prev gone level entry
      ]
  walk-through va low (suc k) t prev hk rt level entry =
      elim (Bool-cases (is_next_page_present (m (entry_ptr t (suc k) va)))) [
        | inl here ↦
            let same =
              n.others t (suc k) (shifted (suc (suc k)) va) (shifted (suc k) va % 512) rt
                (omega arith) (present_ne va (suc k) t here) in
            rw (same, here)
              (walk-through va low k (frame_of (m (entry_ptr t (suc k) va)))
                (some (entry_ptr t (suc k) va)) (omega arith)
                (child_prefix m l4_table role o s v t (suc k) va hk low rt here) (rw here at level)
                (rw here at entry))
        | inr gone ↦ through_entry va (suc k) t prev gone level entry
      ]

  module _ (fresh : Fresh a o)
      (m2_pool : (s2 : Pool) × IsPool m2 s2 × Owned (a ∷ o) s2.frames s2.base)
      (empty : (j : ℕ) → j < 512 → 0 < l → m2 (a + 8 * j) ≡ 0) where
    unfoldable pub new_role : ℕ → Role
    new_role = update a (holds l (q * 512 + i)) role

    old_role : (g : ℕ) → g ≢ a → new_role g ≡ role g
    unfolding new_role
    old_role g ne = update_ne a (holds l (q * 512 + i)) role g ne

    used-ne : (g k p : ℕ) → role g ≡ holds k p → g ≢ a
    used-ne g k p r e = let u = v.unowned a fresh in let r2 = ap role (sym e) ∙ r in cc

    new_child :
        (g k p j : ℕ)
        → new_role g ≡ holds (suc k) p
        → j < 512
        → p * 512 + j ≢ 0
        → is_next_page_present (m2 (g + 8 * j)) ≡ true
        → new_role (frame_of (m2 (g + 8 * j))) ≡ holds k (p * 512 + j)
    unfolding new_role
    new_child g k p j r hj ne here = elim (ℕ_discrete g a) [
      | yes e ↦
          let at_a = ap new_role (sym e) ∙ r in
          let level : holds l (q * 512 + i) ≡ holds (suc k) p =
            sym (update_at a (holds l (q * 512 + i)) role) ∙ at_a in
          let lk : l ≡ suc k = cc in
          let zero_word = ap (λ x. m2 (x + 8 * j)) e ∙ empty j hj (omega arith) in
          absurd (zero_gone (m2 (g + 8 * j)) zero_word here)
      | no other ↦
          let r0 = sym (old_role g other) ∙ r in
          elim (ℕ_discrete (g + 8 * j) (f + 8 * i)) [
            | yes same ↦
                let fg = frame_role m m2 l4_table role o s v a f l q i n aligned g (suc k) p r0 in
                let ff =
                  frame_role m m2 l4_table role o s v a f l q i n aligned f (suc l) q n.table in
                let gf : g ≡ f = omega arith in
                let ji : j ≡ i = omega arith in
                let roles : holds (suc k) p ≡ holds (suc l) q = sym r0 ∙ ap role gf ∙ n.table in
                let kl : k ≡ l = cc in
                let pq : p ≡ q = cc in
                let word = ap m2 same ∙ n.word in
                rw (word, (linked_word a aligned).1)
                  (update_at a (holds l (q * 512 + i)) role ∙ ap₂ holds (sym kl) (omega arith))
            | no apart ↦
                let kept = n.others g k p j r0 hj apart in
                let c = v.child g k p j r0 hj ne (ap is_next_page_present (sym kept) ∙ here) in
                rw kept (
                  old_role (frame_of (m (g + 8 * j)))
                    (used-ne (frame_of (m (g + 8 * j))) k (p * 512 + j) c)
                  ∙ c)
          ]
    ]

    new_cases :
        (g k p : ℕ)
        → new_role g ≡ holds k p
        → ((g ≡ a) × (l ≡ k) × (q * 512 + i ≡ p)) ⊎ ((g ≢ a) × (role g ≡ holds k p))
    unfolding new_role
    new_cases g k p r = elim (ℕ_discrete g a) [
      | yes e ↦
          let both : holds l (q * 512 + i) ≡ holds k p =
            sym (update_at a (holds l (q * 512 + i)) role) ∙ ap new_role (sym e) ∙ r in
          inl (e, cc, cc)
      | no ne ↦ inr (ne, sym (old_role g ne) ∙ r)
    ]

    new-Parent : (g k p : ℕ) → new_role g ≡ holds k p → k ≢ 4 → Parent m2 new_role g k p
    new-Parent g k p r top = elim (new_cases g k p r) [
      | inl (e, kl, pq) ↦
          let index : p % 512 ≡ i = (let b = n.index in omega arith) in
          let entry : m2 (f + 8 * (p % 512)) ≡ a + 3 = ap (λ z. m2 (f + 8 * z)) index ∙ n.word in
          record {
            table = f;
            table_role =
                old_role f (used-ne f (suc l) q n.table)
                ∙ n.table
                ∙ ap₂ holds (ap suc kl) (let b = n.index in omega arith);
            here = ap is_next_page_present entry ∙ (linked_word a aligned).0;
            leads = ap frame_of entry ∙ (linked_word a aligned).1 ∙ sym e;
          }
      | inr (ne, r0) ↦
          let up = v.parent g k p r0 top in
          let apart = (λ (e : up.table + 8 * (p % 512) ≡ f + 8 * i).
            let clash : false ≡ true =
              sym n.gone ∙ ap (λ z. is_next_page_present (m z)) (sym e) ∙ up.here in
            absurd cc) in
          let kept = n.others up.table k (p / 512) (p % 512) up.table_role (omega arith) apart in
          record {
            table = up.table;
            table_role =
                old_role up.table (used-ne up.table (suc k) (p / 512) up.table_role)
                ∙ up.table_role;
            here = ap is_next_page_present kept ∙ up.here;
            leads = ap frame_of kept ∙ up.leads;
          }
    ]

    -- No frame has the new role yet.
    role_free : (h : ℕ) → role h ≡ holds l (q * 512 + i) → ⊥
    role_free h r =
        let up = v.parent h l (q * 512 + i) r (let b = n.bound in λ z. omega arith) in
        let prefix : (q * 512 + i) / 512 ≡ q = (let b = n.index in omega arith) in
        let index : (q * 512 + i) % 512 ≡ i = (let b = n.index in omega arith) in
        let same =
          v.unique up.table f (suc l) q (up.table_role ∙ ap (holds (suc l)) prefix) n.table in
        let clash : false ≡ true =
          sym n.gone
          ∙ ap (λ z. is_next_page_present (m z)) (ap₂ (λ x y. x + 8 * y) (sym same) (sym index))
          ∙ up.here in
        cc

    new_unique : (g h k p : ℕ) → new_role g ≡ holds k p → new_role h ≡ holds k p → g ≡ h
    new_unique g h k p rg rh = elim (new_cases g k p rg) [
      | inl x ↦ elim (new_cases h k p rh) [
        | inl y ↦ x.0 ∙ sym y.0
        | inr y ↦ absurd (role_free h (y.1 ∙ ap₂ holds (sym x.1) (sym x.2)))
      ]
      | inr x ↦ elim (new_cases h k p rh) [
        | inl y ↦ absurd (role_free g (x.1 ∙ ap₂ holds (sym y.1) (sym y.2)))
        | inr y ↦ v.unique g h k p x.1 y.1
      ]
    ]

    new_plain : (g p j : ℕ) → new_role g ≡ holds 1 p → j < 512 → IsEntry (m2 (g + 8 * j))
    new_plain g p j r hj = elim (new_cases g 1 p r) [
      | inl (e, kl, pq) ↦
          subst IsEntry (sym (ap (λ x. m2 (x + 8 * j)) e ∙ empty j hj (omega arith))) zero_plain
      | inr (ne, r0) ↦ elim (ℕ_discrete (g + 8 * j) (f + 8 * i)) [
        | yes same ↦ subst IsEntry (sym (ap m2 same ∙ n.word)) (linked_plain a aligned)
        | no apart ↦ subst IsEntry (sym (n.others g 0 p j r0 hj apart)) (v.plain g p j r0 hj)
      ]
    ]

    -- The tables are in order with the new frame among them.
    pub linked-IsPaged : IsPaged m2 l4_table new_role (a ∷ o) m2_pool.0
    linked-IsPaged = record {
      pool = m2_pool.1;
      owned = m2_pool.2;
      unowned = λ g fr. old_role g fr.0 ∙ v.unowned g fr.1;
      root = old_role l4_table (used-ne l4_table 4 0 v.root) ∙ v.root;
      child = new_child;
      parent = new-Parent;
      unique = new_unique;
      plain = new_plain;
    }
