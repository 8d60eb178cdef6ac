-- ===== src/PfAlloc/Boot/Tags.antt =====
-- `find_tag` against the list of tags that the area holds.
use skip_os.Common.{
  ℕ, zero, suc, ◌+◌, ◌<◌, ◌≡◌, ◌≢◌, arith, List, [], ◌∷◌, Option, none, some, length, ◌==◌,
  if◌then◌else◌,
}
use skip_os.PfAlloc.Boot.{
  Bytes, u32_at, round_up_nearest_mult, end_tag_type, find_loop, find_tag, fixed_header_size,
}

-- A tag: its type and its size.
pub record Tag : Type 0 where
  pub type : ℕ
  pub size : ℕ

-- The area holds these tags from `p` on, each padded to a multiple of 8, and then the end tag.
abbrev pub Holds : Bytes → ℕ → List Tag → Type 0
Holds tags p [] = u32_at tags p ≡ end_tag_type
Holds tags p (t ∷ ts) =
    (u32_at tags p ≡ t.type)
    × (u32_at tags (p + 4) ≡ t.size)
    × (t.type ≢ end_tag_type)
    × Holds tags (p + round_up_nearest_mult t.size 8) ts

-- The address of the first tag of a type other than the end tag's, in tags from `p` on.
unfoldable pub first_of : ℕ → ℕ → List Tag → Option ℕ
first_of tag_type p [] = none
first_of tag_type p (t ∷ ts) =
    if t.type == tag_type then some p else first_of tag_type (p + round_up_nearest_mult t.size 8) ts

find_loop-first :
    (ts : List Tag) (fuel p tag_type : ℕ) (tags : Bytes)
    → Holds tags p ts
    → tag_type ≢ end_tag_type
    → length ts < fuel
    → find_loop fuel tags p tag_type ≡ some (first_of tag_type p ts)
unfolding find_loop first_of
find_loop-first [] zero p tag_type tags h ne f = absurd (omega arith)
find_loop-first [] (suc n) p tag_type tags h ne f = ground arith
find_loop-first (t ∷ ts) zero p tag_type tags h ne f = absurd (omega arith)
find_loop-first (t ∷ ts) (suc n) p tag_type tags h ne f =
    let ih =
      find_loop-first ts n (p + round_up_nearest_mult t.size 8) tag_type tags h.3 ne
        (omega arith) in
    rw (h.1, h.0) (ground arith)

-- In an area that holds the tags `ts` behind its header, `find_tag`, given more rounds
-- than there are tags and a type other than that of the end tag, ends and returns the address of the
-- first tag of that type, or null if there is none.
pub find_tag-first :
    (ts : List Tag) (fuel p tag_type : ℕ) (tags : Bytes)
    → Holds tags (p + fixed_header_size) ts
    → tag_type ≢ end_tag_type
    → length ts < fuel
    → find_tag fuel tags p tag_type ≡ some (first_of tag_type (p + fixed_header_size) ts)
unfolding find_tag
find_tag-first ts fuel p tag_type tags h ne f =
    find_loop-first ts fuel (p + fixed_header_size) tag_type tags h ne f
