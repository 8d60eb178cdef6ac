-- ===== src/VpAlloc/Free.antt =====
-- One round of `MMU_free_pages`: the page is absent again, and its frame goes back.
use skip_os.Common.{
  ℕ, zero, suc, ◌+◌, ◌%◌, ◌≡◌, ◌≢◌, inl, inr, ◌⊎◌, refl, sym, ◌∙◌, true, false, Bool-cases, arith,
  none, ok, halted, ne→==_false,
}
use skip_os.Common.Words.{Memory, store}
use skip_os.PfAlloc.Spec
use skip_os.PfAlloc.Spec.{Pool}
use skip_os.VpAlloc.{
  shifted, entry_ptr, frame_of, is_next_page_present, has_bit, clear_bit, demand_bit, present_bit,
  writeable_bit, walk, free_one,
}
use skip_os.VpAlloc.Tables.{
  PageState, absent, demand, mapped, absent_state, Role, IsEntry, IsHeapAddr, IsPaged, mine,
  root_prefix,
}
use skip_os.VpAlloc.Paths.{hit, miss, state-agrees}
use skip_os.VpAlloc.Grow.{Vmem, Vmem_weaken, state_of, lowest_heap, find, missed, Hit, met}
use skip_os.VpAlloc.Entry.{entry-other, entry-here}
use skip_os.VpAlloc.Demand.{OnlyAt, entry_changed}
use skip_os.VpAlloc.Handler.{demand_level}
use skip_os.VpAlloc.Unlink.{page_role, left_role, left_at, unlinked-IsPaged, Returned, returned}

-- The frames that a page in a state has.
unfoldable pub frames_of : PageState → ℕ
frames_of absent = 0
frames_of demand = 0
frames_of (mapped f) = 1

-- A page freed: it is absent, the others keep their state, and its frame is left again.
pub record Freed (m : Memory) (l4 va n : ℕ) : Type 0 where
  pub m' : Memory
  pub run : free_one m l4 va ≡ ok m'
  pub only : OnlyAt m m' l4 va absent
  pub vmem : Vmem m' l4 (n + frames_of (state_of m l4 va))

state_cases : (st : PageState) → (st ≡ absent) ⊎ (st ≡ demand) ⊎ ((f : ℕ) × (st ≡ mapped f))
state_cases absent = inl refl
state_cases demand = inr (inl refl)
state_cases (mapped f) = inr (inr (f, refl))

unmark_word :
    (w : ℕ)
    → is_next_page_present w ≡ false
    → has_bit demand_bit w ≡ true
    → has_bit writeable_bit w ≡ false
    → (is_next_page_present (clear_bit demand_bit w) ≡ false)
      × (absent_state 0 (clear_bit demand_bit w) ≡ absent)
      × IsEntry (clear_bit demand_bit w)
unfolding is_next_page_present has_bit clear_bit absent_state
unmark_word w gone marked plain =
    (ground arith, ground arith, (λ here. ground arith, λ still. ground arith))

unlink_word :
    (w : ℕ)
    → is_next_page_present w ≡ true
    → has_bit demand_bit w ≡ false
    → (is_next_page_present (clear_bit writeable_bit (clear_bit present_bit w)) ≡ false)
      × (absent_state 0 (clear_bit writeable_bit (clear_bit present_bit w)) ≡ absent)
      × IsEntry (clear_bit writeable_bit (clear_bit present_bit w))
unfolding is_next_page_present has_bit clear_bit absent_state
unlink_word w here unmarked =
    (ground arith, ground arith, (λ here. ground arith, λ still. ground arith))

free_marked :
    (m : Memory) (l4 va n : ℕ)
    → Vmem m l4 n
    → IsHeapAddr va
    → state_of m l4 va ≡ demand
    → Freed m l4 va n
unfolding free_one is_next_page_present frames_of
free_marked m l4 va n v h st =
    let (level, marked_at) = demand_level m l4 va n v h st in
    let x = missed m l4 va n 0 v h level in
    let marked = marked_at x in
    let w = m (entry_ptr x.f 0 va) in
    let plain =
      (v.paged.plain x.f (shifted 1 va) (shifted 0 va % 512) x.table (omega arith)).1 x.gone in
    let word = unmark_word w x.gone marked plain in
    let (vmem, only) =
      entry_changed m l4 n va x.f (clear_bit demand_bit w) v h x.table x.way x.gone word.0 word.2 in
    record {
      m' = store m (entry_ptr x.f 0 va) (clear_bit demand_bit w);
      run = rw (free_one, lowest_heap m l4 va h, level, x.entry, marked, x.gone, plain) refl;
      only = record { here = only.here ∙ word.1; others = only.others };
      vmem = rw st (
          Vmem_weaken (store m (entry_ptr x.f 0 va) (clear_bit demand_bit w)) l4 n (n + 0)
            (omega arith) vmem);
    }

mapped_level :
    (m : Memory) (l4 va n f : ℕ)
    → Vmem m l4 n
    → IsHeapAddr va
    → state_of m l4 va ≡ mapped f
    → (walk 4 m l4 va none).level ≡ 0
unfolding absent_state
mapped_level m l4 va n f v h st = elim (find m l4 n va v h) [
  | hit t way rt here lv e pr st' ↦ lv
  | miss (suc l) t hl way rt lv e gone st' ↦ let clash : mapped f ≡ absent = sym st ∙ st' in cc
  | miss zero t hl way rt lv e gone st' ↦
      let got = sym st ∙ st' in
      elim (Bool-cases (has_bit demand_bit (m (entry_ptr t 0 va)))) [
        | inl marked ↦ let clash : mapped f ≡ demand = rw marked at got in absurd cc
        | inr unmarked ↦ let clash : mapped f ≡ absent = rw unmarked at got in absurd cc
      ]
]

module _ (m : Memory) (l4 va n : ℕ) (v : Vmem m l4 n) (h : IsHeapAddr va)
    (x : Hit m l4 va n v) where
  abbrev word : ℕ
  word = clear_bit writeable_bit (clear_bit present_bit (m (entry_ptr x.f 0 va)))

  abbrev m1 : Memory
  m1 = store m (entry_ptr x.f 0 va) word

  word_ok : (is_next_page_present word ≡ false) × (absent_state 0 word ≡ absent) × IsEntry word
  word_ok =
      unlink_word (m (entry_ptr x.f 0 va)) x.here
        ((v.paged.plain x.f (shifted 1 va) (shifted 0 va % 512) x.table (omega arith)).0 x.here)

  abbrev roles : ℕ → Role
  roles = left_role m l4 v.role v.o v.s v.paged x.f va h.1 x.table x.here word word_ok.0 word_ok.2

  paged1 : IsPaged m1 l4 roles v.o v.s
  paged1 =
      unlinked-IsPaged m l4 v.role v.o v.s v.paged x.f va h.1 x.table x.here word word_ok.0
        word_ok.2

  back : Returned m1 l4 roles v.s (frame_of (m (entry_ptr x.f 0 va)))
  back =
      returned m1 l4 roles v.o v.s paged1 (frame_of (m (entry_ptr x.f 0 va)))
        (mine m l4 v.role v.o v.s v.paged (frame_of (m (entry_ptr x.f 0 va))) 0 (shifted 0 va) (
          page_role m l4 v.role v.o v.s v.paged x.f va h.1 x.table x.here word word_ok.0 word_ok.2))
        (left_at m l4 v.role v.o v.s v.paged x.f va h.1 x.table x.here word word_ok.0 word_ok.2)

  back_states : (z : ℕ) → IsHeapAddr z → state_of back.m' l4 z ≡ state_of m1 l4 z
  back_states z hz =
      state-agrees m1 l4 roles v.o v.s paged1 z hz.1 back.m'
        (λ k g hk rg. back.kept g k (shifted (suc k) z) (shifted k z % 512) rg (omega arith)) 4 l4
        (omega arith) (root_prefix m1 l4 roles v.o v.s paged1 z hz.2)

  back_only : OnlyAt m back.m' l4 va absent
  unfolding shifted
  back_only = record {
    here =
        back_states va h
        ∙ entry-here m l4 v.role v.o v.s v.paged x.f (shifted 1 va) (shifted 0 va % 512) x.table
            (omega arith) word word_ok.0 va h.1 h.2 refl x.way
        ∙ word_ok.1;
    others = λ z hz ne.
        back_states z hz
        ∙ entry-other m l4 v.role v.o v.s v.paged x.f (shifted 1 va) (shifted 0 va % 512) x.table
            (omega arith) word word_ok.0 z hz.1 hz.2 (λ e. omega arith);
  }

  back_run : (walk 4 m l4 va none).level ≡ 0 → free_one m l4 va ≡ ok back.m'
  unfolding free_one
  back_run level = rw (free_one, lowest_heap m l4 va h, level, x.prev, x.entry) back.run

free_mapped :
    (m : Memory) (l4 va n f : ℕ)
    → Vmem m l4 n
    → IsHeapAddr va
    → state_of m l4 va ≡ mapped f
    → Freed m l4 va n
unfolding frames_of Spec.free
free_mapped m l4 va n f v h st =
    let level = mapped_level m l4 va n f v h st in
    let x = met m l4 va n v h level in
    let r = back m l4 va n v h x in
    record {
      m' = r.m';
      run = back_run m l4 va n v h x level;
      only = back_only m l4 va n v h x;
      vmem = rw st (record {
        role = roles m l4 va n v h x;
        o = r.o';
        s = Spec.free (frame_of (m (entry_ptr x.f 0 va))) v.s;
        paged = r.paged;
        left = omega (arith, v.left);
      });
    }

-- A page that is marked or mapped is freed.
pub freed :
    (m : Memory) (l4 va n : ℕ)
    → Vmem m l4 n
    → IsHeapAddr va
    → state_of m l4 va ≢ absent
    → Freed m l4 va n
freed m l4 va n v h st = elim (state_cases (state_of m l4 va)) [
  | inl gone ↦ absurd (st gone)
  | inr (inl marked) ↦ free_marked m l4 va n v h marked
  | inr (inr (f, there)) ↦ free_mapped m l4 va n f v h there
]

-- A page that is absent is refused: the machine stops.
pub free_refused :
    (m : Memory) (l4 va n : ℕ)
    → Vmem m l4 n
    → IsHeapAddr va
    → state_of m l4 va ≡ absent
    → free_one m l4 va ≡ halted
unfolding free_one absent_state
free_refused m l4 va n v h st = elim (find m l4 n va v h) [
  | hit f way rf here lv e pr st' ↦
      let clash : absent ≡ mapped (walk 4 m l4 va none).entry = sym st ∙ st' in cc
  | miss (suc l) f hl way rf lv e gone st' ↦
      rw
        (
          free_one,
          lowest_heap m l4 va h,
          lv,
          ne→==_false (suc (suc l)) 0 (λ e. omega arith),
          ne→==_false (suc (suc l)) 1 (λ e. omega arith),
        )
        refl
  | miss zero f hl way rf lv e gone st' ↦
      let got = sym st ∙ st' in
      elim (Bool-cases (has_bit demand_bit (m (entry_ptr f 0 va)))) [
        | inl marked ↦ let clash : absent ≡ demand = rw marked at got in cc
        | inr unmarked ↦ rw (free_one, lowest_heap m l4 va h, lv, e, unmarked) refl
      ]
]
