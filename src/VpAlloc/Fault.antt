-- ===== src/VpAlloc/Fault.antt =====
-- A frame linked at the entry of a marked page, as `page_fault_handler` does.
use skip_os.Common.{
  ℕ, zero, suc, ◌%◌, ◌<◌, ◌≡◌, inl, inr, refl, sym, ap, ◌∙◌, Bool-cases, arith, ◌∷◌, Fresh, ok,
}
use skip_os.Common.Words.{Memory}
use skip_os.PfAlloc.{pf_alloc}
use skip_os.PfAlloc.Chain.{IsFrame}
use skip_os.PfAlloc.Spec.{Pool}
use skip_os.PfAlloc.Refine.{IsPool}
use skip_os.PfAlloc.Ownership.{Owned}
use skip_os.PfAlloc.Supply.{supply}
use skip_os.VpAlloc.{shifted, entry_ptr, frame_of, has_bit, demand_bit, link_page}
use skip_os.VpAlloc.Tables.{
  absent, demand, mapped, absent_state, state_from, holds, IsHeapAddr, root_prefix, child_prefix,
  entry_ptr-eq,
}
use skip_os.VpAlloc.Paths.{Linked, linked_word, hit, miss, state-Comes, state-other, frame_role}
use skip_os.VpAlloc.Link.{new_role, linked-IsPaged}
use skip_os.VpAlloc.Frames.{tables_kept, new_frame, link_page-Linked, link_page-IsPool}
use skip_os.VpAlloc.Grow.{Vmem, state_of, find, Missed}
use skip_os.VpAlloc.Demand.{OnlyAt}

-- The frame of a mapped page is for that page alone.
pub mapped_role :
    (m : Memory) (l4 n x f : ℕ) (v : Vmem m l4 n)
    → IsHeapAddr x
    → state_of m l4 x ≡ mapped f
    → v.role f ≡ holds 0 (shifted 0 x)
unfolding absent_state
mapped_role m l4 n x f v h st = elim (find m l4 n x v h) [
  | hit t way rt here lv e pr st' ↦
      let both : mapped (frame_of (m (entry_ptr t 0 x))) ≡ mapped f =
        ap mapped (sym e) ∙ sym st' ∙ st in
      let same : frame_of (m (entry_ptr t 0 x)) ≡ f = cc in
      ap v.role (sym same)
      ∙ child_prefix m l4 v.role v.o v.s v.paged t 0 x (omega arith) h.1 rt here
  | miss (suc l) t hl way rt lv e gone st' ↦ let clash : absent ≡ mapped f = sym st' ∙ st in cc
  | miss zero t hl way rt lv e gone st' ↦
      let got = sym st' ∙ st in
      elim (Bool-cases (has_bit demand_bit (m (entry_ptr t 0 x)))) [
        | inl marked ↦ let clash : demand ≡ mapped f = rw marked at got in cc
        | inr unmarked ↦ let clash : absent ≡ mapped f = rw unmarked at got in cc
      ]
]

-- Two pages of the heap have the same frame only if they are one page.
pub frames_differ :
    (m : Memory) (l4 n x y f : ℕ)
    → Vmem m l4 n
    → IsHeapAddr x
    → IsHeapAddr y
    → state_of m l4 x ≡ mapped f
    → state_of m l4 y ≡ mapped f
    → x ≡ y
unfolding shifted
frames_differ m l4 n x y f v hx hy sx sy =
    let rx = mapped_role m l4 n x f v hx sx in
    let ry = mapped_role m l4 n y f v hy sy in
    let roles : holds 0 (shifted 0 x) ≡ holds 0 (shifted 0 y) = sym rx ∙ ry in
    let page : shifted 0 x ≡ shifted 0 y = cc in omega arith

module _ (m : Memory) (l4 va n : ℕ) (v : Vmem m l4 (suc n)) (h : IsHeapAddr va)
    (x : Missed m l4 va (suc n) 0 v) (a : ℕ) (m1 : Memory) (s1 : Pool)
    (run : pf_alloc m ≡ ok (a, m1)) (pool1 : IsPool m1 s1) (w : Owned (a ∷ v.o) s1.frames s1.base)
    (total : suc (supply s1) ≡ supply v.s) where
  abbrev m2 : Memory
  m2 = link_page m1 (entry_ptr x.f 0 va) a

  frame : IsFrame a × Fresh a v.o
  frame = new_frame m l4 v.role v.o v.s v.paged a s1 w

  hi : shifted 0 va % 512 < 512
  hi = omega arith

  linked : Linked m m2 v.role a x.f 0 (shifted 1 va) (shifted 0 va % 512)
  linked =
      link_page-Linked m l4 v.role v.o v.s v.paged a s1 w m1
        (tables_kept m l4 v.role v.o v.s v.paged a m1 run) x.f 0 (shifted 1 va) (shifted 0 va % 512)
        x.table x.bound hi x.gone

  pool2 : IsPool m2 s1
  pool2 =
      link_page-IsPool m l4 v.role v.o v.s v.paged a s1 w m1 x.f 1 (shifted 1 va)
        (shifted 0 va % 512) x.table hi pool1

  pub given_vmem : Vmem m2 l4 n
  given_vmem = record {
    role =
        new_role m m2 l4 v.role v.o v.s v.paged a x.f 0 (shifted 1 va) (shifted 0 va % 512) linked
          frame.0.0 frame.1 (s1, pool2, w) (λ j hj pos. absurd (omega arith));
    o = a ∷ v.o;
    s = s1;
    paged =
        linked-IsPaged m m2 l4 v.role v.o v.s v.paged a x.f 0 (shifted 1 va) (shifted 0 va % 512)
          linked frame.0.0 frame.1 (s1, pool2, w) (λ j hj pos. absurd (omega arith));
    left = omega (arith, v.left, total);
  }

  given_here : state_of m2 l4 va ≡ mapped a
  unfolding state_from
  given_here =
      let table_frame =
        frame_role m m2 l4 v.role v.o v.s v.paged a x.f 0 (shifted 1 va) (shifted 0 va % 512) linked
          frame.0.0 in
      let (le, same) =
        state-Comes m l4 v.role v.o v.s v.paged va h.1 m2 0 x.f
          (λ j g lj hj rg.
            linked.others g j (shifted (suc j) va) (shifted j va % 512) rg (omega arith) (λ e.
              let both =
                entry_ptr-eq v.role g x.f j 0 (shifted 1 va) (shifted 0 va % 512) va rg x.table
                  (table_frame g (suc j) (shifted (suc j) va) rg)
                  (table_frame x.f 1 (shifted 1 va) x.table) hi hj e in
              omega (arith, both.0, lj)))
          3 l4 (omega arith) (root_prefix m l4 v.role v.o v.s v.paged va h.2) x.way in
      same ∙ rw (linked.word, (linked_word a frame.0.0).0, (linked_word a frame.0.0).1) refl

  pub given_only : OnlyAt m m2 l4 va (mapped a)
  unfolding shifted
  given_only = record {
    here = given_here;
    others = λ z hz ne.
        state-other m m2 l4 v.role v.o v.s v.paged a x.f 0 (shifted 1 va) (shifted 0 va % 512)
          linked frame.0.0 refl z hz.1 (λ e. omega arith) 4 l4 (omega arith)
          (root_prefix m l4 v.role v.o v.s v.paged z hz.2);
  }
