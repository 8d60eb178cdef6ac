-- ===== src/VpAlloc/Grow.antt =====
-- `alloc_virtual_page`: the tables that are missing are made, and the page is marked.
use skip_os.Common.{
  ℕ, suc, ◌+◌, ◌*◌, ◌/◌, ◌%◌, ◌^◌, ◌≤◌, ◌<◌, ◌≡◌, refl, ap, ◌∙◌, subst, true, false, arith, List,
  ◌∷◌, Fresh, Option, none, some, ok, ne→==_false, ==_iff,
}
use skip_os.Common.Words.{Memory, store_ne}
use skip_os.PfAlloc.{page_size, pf_alloc}
use skip_os.PfAlloc.Spec.{Pool}
use skip_os.PfAlloc.Chain.{IsFrame}
use skip_os.PfAlloc.Refine.{IsPool}
use skip_os.PfAlloc.Ownership.{Owned}
use skip_os.PfAlloc.Supply.{supply}
use skip_os.VpAlloc.{
  Found, shifted, entry_ptr, frame_of, is_next_page_present, has_bit, set_bit, walk, zero_words,
  link_page, get_lowest_present_page,
}
use skip_os.VpAlloc.Tables.{
  PageState, mapped, absent_state, state_from, Role, holds, IsHeapAddr, IsPaged, root_prefix,
}
use skip_os.VpAlloc.Paths.{Linked, Finds, hit, miss, walk-Finds, Comes, state-table}
use skip_os.VpAlloc.Link.{walk-through, linked-IsPaged, new_role}
use skip_os.VpAlloc.Frames.{
  zero_words-at, tables_kept, new_frame, table_ne, link_page-Linked, link_page-IsPool, cleared_kept,
  cleared-IsPool,
}

-- The tables in a memory are in order, and at least `n` frames are left.
pub record Vmem (m : Memory) (l4_table n : ℕ) : Type 0 where
  pub role : ℕ → Role
  pub o : List ℕ
  pub s : Pool
  pub paged : IsPaged m l4_table role o s
  pub left : n ≤ supply s

pub Vmem_weaken : (m : Memory) (l4 n k : ℕ) → k ≤ n → Vmem m l4 n → Vmem m l4 k
Vmem_weaken m l4 n k le v = record {
  role = v.role;
  o = v.o;
  s = v.s;
  paged = v.paged;
  left = omega (arith, v.left);
}

-- What the tables say of an address.
abbrev pub state_of : Memory → ℕ → ℕ → PageState
state_of = state_from 4

-- No heap address has another state than before.
abbrev pub SameStates : Memory → Memory → ℕ → Type 0
SameStates m m' l4 = (va : ℕ) → IsHeapAddr va → state_of m' l4 va ≡ state_of m l4 va

pub lowest_heap :
    (m : Memory) (l4 va : ℕ)
    → IsHeapAddr va
    → get_lowest_present_page m l4 va ≡ ok (walk 4 m l4 va none)
unfolding get_lowest_present_page shifted
lowest_heap m l4 va h =
    rw ((==_iff (va % page_size) 0).1 h.0, ne→==_false (va / 2 ^ 39 % 512) 0 (λ e. omega arith))
      refl

pub find :
    (m : Memory) (l4 n va : ℕ)
    → (v : Vmem m l4 n) → IsHeapAddr va
    → Finds m v.role va 3 l4 (state_of m l4 va) (walk 4 m l4 va none)
find m l4 n va v h =
    walk-Finds m l4 v.role v.o v.s v.paged va h.1 3 l4 none (omega arith)
      (root_prefix m l4 v.role v.o v.s v.paged va h.2)

-- An entry of a table of level `l + 1` that is not present, found on the walk for an address.
pub record Missed (m : Memory) (l4 va n l : ℕ) (v : Vmem m l4 n) : Type 0 where
  pub f : ℕ
  pub bound : l < 4
  pub way : Comes m va l f 3 l4
  pub table : v.role f ≡ holds (suc l) (shifted (suc l) va)
  pub entry : (walk 4 m l4 va none).entry ≡ entry_ptr f l va
  pub gone : is_next_page_present (m (entry_ptr f l va)) ≡ false
  pub state : state_of m l4 va ≡ absent_state l (m (entry_ptr f l va))

pub missed :
    (m : Memory) (l4 va n l : ℕ) (v : Vmem m l4 n)
    → IsHeapAddr va
    → (walk 4 m l4 va none).level ≡ suc l
    → Missed m l4 va n l v
missed m l4 va n l v h level = elim (find m l4 n va v h) [
  | hit f way rf here lv e pr st ↦ absurd (omega (arith, lv, level))
  | miss k f hk way rf lv e gone st ↦
      let kl : k ≡ l = omega (arith, lv, level) in
      subst (λ j. Missed m l4 va n j v) kl
        (record { f = f; bound = hk; way = way; table = rf; entry = e; gone = gone; state = st })
]

-- The entry of level 1 found on the walk for a mapped address.
pub record Hit (m : Memory) (l4 va n : ℕ) (v : Vmem m l4 n) : Type 0 where
  pub f : ℕ
  pub way : Comes m va 0 f 3 l4
  pub table : v.role f ≡ holds 1 (shifted 1 va)
  pub here : is_next_page_present (m (entry_ptr f 0 va)) ≡ true
  pub entry : (walk 4 m l4 va none).entry ≡ frame_of (m (entry_ptr f 0 va))
  pub prev : (walk 4 m l4 va none).prev ≡ some (entry_ptr f 0 va)
  pub state : state_of m l4 va ≡ mapped (walk 4 m l4 va none).entry

pub met :
    (m : Memory) (l4 va n : ℕ) (v : Vmem m l4 n)
    → IsHeapAddr va
    → (walk 4 m l4 va none).level ≡ 0
    → Hit m l4 va n v
met m l4 va n v h level = elim (find m l4 n va v h) [
  | hit f way rf here lv e pr st ↦ record {
    f = f;
    way = way;
    table = rf;
    here = here;
    entry = e;
    prev = pr;
    state = st;
  }
  | miss k f hk way rf lv e gone st ↦ absurd (omega (arith, lv, level))
]

-- One round of the loop, from a level above 1: the level goes down by one.
pub record Round (m : Memory) (l4 va l n : ℕ) : Type 0 where
  pub new_page : ℕ
  pub m1 : Memory
  pub alloc : pf_alloc m ≡ ok (new_page, m1)
  pub m2 : Memory
  pub written : link_page (zero_words 512 m1 new_page) (walk 4 m l4 va none).entry new_page ≡ m2
  pub vmem : Vmem m2 l4 n
  pub level : (walk 4 m2 l4 va none).level ≡ suc l
  pub same : SameStates m m2 l4

-- In an empty table the walk stops at once.
walk_empty :
    (m : Memory) (a l va : ℕ) (prev : Option ℕ)
    → ((j : ℕ) → j < 512 → m (a + 8 * j) ≡ 0)
    → (walk (suc l) m a va prev).level ≡ suc l
unfolding walk is_next_page_present has_bit
walk_empty m a l va prev zeros = rw (zeros (shifted l va % 512) (omega arith)) refl

module _ (m : Memory) (l4 va l n : ℕ) (v : Vmem m l4 (suc n)) (h : IsHeapAddr va)
    (level : (walk 4 m l4 va none).level ≡ suc (suc l)) (x : Missed m l4 va (suc n) (suc l) v)
    (a : ℕ) (m1 : Memory) (s1 : Pool) (run : pf_alloc m ≡ ok (a, m1)) (pool1 : IsPool m1 s1)
    (w : Owned (a ∷ v.o) s1.frames s1.base) (total : suc (supply s1) ≡ supply v.s) where
  abbrev mz : Memory
  mz = zero_words 512 m1 a

  abbrev m2 : Memory
  m2 = link_page mz (entry_ptr x.f (suc l) va) a

  frame : IsFrame a × Fresh a v.o
  frame = new_frame m l4 v.role v.o v.s v.paged a s1 w

  hi : shifted (suc l) va % 512 < 512
  hi = omega arith

  kept : (g k p j : ℕ) → v.role g ≡ holds k p → j < 512 → m1 (g + 8 * j) ≡ m (g + 8 * j)
  kept = tables_kept m l4 v.role v.o v.s v.paged a m1 run

  linked : Linked m m2 v.role a x.f (suc l) (shifted (suc (suc l)) va) (shifted (suc l) va % 512)
  linked =
      link_page-Linked m l4 v.role v.o v.s v.paged a s1 w mz
        (cleared_kept m l4 v.role v.o v.s v.paged a s1 w m1 kept) x.f (suc l)
        (shifted (suc (suc l)) va) (shifted (suc l) va % 512) x.table x.bound hi x.gone

  pool2 : IsPool m2 s1
  pool2 =
      link_page-IsPool m l4 v.role v.o v.s v.paged a s1 w mz x.f (suc (suc l))
        (shifted (suc (suc l)) va) (shifted (suc l) va % 512) x.table hi
        (cleared-IsPool m l4 v.role v.o v.s v.paged a s1 w m1 pool1)

  zeros : (j : ℕ) → j < 512 → m2 (a + 8 * j) ≡ 0
  zeros j hj =
      let ne =
        table_ne m l4 v.role v.o v.s v.paged a s1 w x.f (suc (suc l)) (shifted (suc (suc l)) va)
          (shifted (suc l) va % 512) x.table hi in
      let aligned = frame.0.0 in
      store_ne mz (entry_ptr x.f (suc l) va) (set_bit 1 (set_bit 0 a)) (a + 8 * j)
        (λ e. ne (omega arith))
      ∙ zero_words-at 512 m1 a j hj

  pub Round-at : Round m l4 va l n
  Round-at = record {
    new_page = a;
    m1 = m1;
    alloc = run;
    m2 = m2;
    written = ap (λ z. link_page mz z a) x.entry;
    vmem = record {
      role =
          new_role m m2 l4 v.role v.o v.s v.paged a x.f (suc l) (shifted (suc (suc l)) va)
            (shifted (suc l) va % 512) linked frame.0.0 frame.1 (s1, pool2, w)
            (λ j hj pos. zeros j hj);
      o = a ∷ v.o;
      s = s1;
      paged =
          linked-IsPaged m m2 l4 v.role v.o v.s v.paged a x.f (suc l) (shifted (suc (suc l)) va)
            (shifted (suc l) va % 512) linked frame.0.0 frame.1 (s1, pool2, w)
            (λ j hj pos. zeros j hj);
      left = omega (arith, v.left, total);
    };
    level =
        let through =
          walk-through m m2 l4 v.role v.o v.s v.paged a x.f (suc l) (shifted (suc (suc l)) va)
            (shifted (suc l) va % 512) linked frame.0.0 va h.1 3 l4 none (omega arith)
            (root_prefix m l4 v.role v.o v.s v.paged va h.2) level x.entry in
        ap (λ (r : Found). r.level) through.1 ∙ walk_empty m2 a l va through.0 zeros;
    same = λ z hz.
        state-table m m2 l4 v.role v.o v.s v.paged a x.f (suc l) (shifted (suc (suc l)) va)
          (shifted (suc l) va % 512) linked frame.0.0 zeros (omega arith) z hz.1 4 l4 (omega arith)
          (root_prefix m l4 v.role v.o v.s v.paged z hz.2);
  }
