-- ===== src/PfAlloc/Boot/Init.antt =====
-- The pool that `init_pool` builds from the two usable regions.
use skip_os.Common.{
  ℕ, zero, suc, ◌+◌, ◌-◌, ◌*◌, ◌/◌, ◌%◌, ◌^◌, ◌≤◌, ◌<◌, ◌≡◌, refl, ap, ◌∙◌, subst, arith, List, [],
  ◌∷◌, ◌==◌, true, ok, lt→ltb, le→ltb_false, ==_iff, All, Distinct,
}
use skip_os.Common.Words.{add64, sub64, Memory, store, store_ne}
use skip_os.PfAlloc.{page_size, add_elem}
use skip_os.PfAlloc.Chain.{IsFrame, Chain, add_elem-Chain, Chain-store-field}
use skip_os.PfAlloc.Elsewhere.{page_of, add_elem-elsewhere}
use skip_os.PfAlloc.Spec.{Pool, stack}
use skip_os.PfAlloc.Refine.{Ring, Ring-store, IsPool, below-Fresh, below_mono}
use skip_os.PfAlloc.Boot.Kept.{info_kept, bytes_kept}
use skip_os.PfAlloc.Boot.{
  bytes_of, mem_info_at, Bytes, UsableMemInfo, ElfInfo, round_up_nearest_mult,
  round_down_nearest_mult, init_ll_head, lower_loop, add_lower_pages, sec_addr, upper_base,
  upper_length, init_ll_head_info, init_pool, u64_at, sec_size, bytes_of, mem_info_at,
}

-- The ring before the fields of the head behind its links are set.
record Links (m : Memory) (xs : List ℕ) (base : ℕ) : Type 0 where
  chain : Chain m 0 xs
  frames : All IsFrame xs
  distinct : Distinct xs
  below : All (λ x. x < base) xs

round_up-page : (v : ℕ) → v < 2 ^ 64 → round_up_nearest_mult v page_size % page_size ≡ 0
unfolding round_up_nearest_mult
round_up-page v h = ground arith

round_down-page :
    (v : ℕ)
    → (round_down_nearest_mult v page_size ≤ v) × (round_down_nearest_mult v page_size % 4096 ≡ 0)
unfolding round_down_nearest_mult
round_down-page v = (omega arith, omega arith)

round_up-zero : round_up_nearest_mult 0 page_size ≡ 0
unfolding round_up_nearest_mult
round_up-zero = refl

init-Links : (m : Memory) → Links (init_ll_head m 0) [] page_size
unfolding init_ll_head store
init-Links m = record { chain = (refl, refl); frames = tt; distinct = tt; below = tt }

add-Links :
    (m : Memory) (xs : List ℕ) (c : ℕ)
    → IsFrame c
    → Links m xs c
    → Links (add_elem m 0 c) (c ∷ xs) (c + page_size)
add-Links m xs c f l =
    let fresh = below-Fresh c xs l.below in
    record {
      chain = add_elem-Chain m c xs f l.chain l.frames l.distinct fresh;
      frames = (f, l.frames);
      distinct = (fresh, l.distinct);
      below = (omega arith, below_mono c (c + page_size) xs (omega arith) l.below);
    }

abbrev Stacked : Memory × ℕ × ℕ → ℕ → List ℕ → ℕ → Type 0
Stacked r limit xs cnt = Links r.0 xs limit × (r.1 ≡ limit) × (r.2 ≡ cnt)

-- With `k` pages to go the loop stacks them, stops at the limit, and has counted them.
lower_loop-Stacked :
    (k fuel : ℕ) (m : Memory) (xs : List ℕ) (limit c cnt : ℕ)
    → IsFrame c
    → c + k * page_size ≡ limit
    → limit < 2 ^ 64
    → k < fuel
    → Links m xs c
    → Stacked (lower_loop fuel m 0 limit c cnt) limit (stack k c xs) (cnt + k)
unfolding lower_loop stack
lower_loop-Stacked zero zero m xs limit c cnt f e w fu l = absurd (omega arith)
lower_loop-Stacked zero (suc n) m xs limit c cnt f e w fu l =
    rw (le→ltb_false c limit (omega arith))
      (subst (Links m xs) (omega arith) l, omega arith, omega arith)
lower_loop-Stacked (suc k) zero m xs limit c cnt f e w fu l = absurd (omega arith)
lower_loop-Stacked (suc k) (suc n) m xs limit c cnt f e w fu l =
    let no_wrap : add64 c page_size ≡ c + page_size = omega arith in
    let ih =
      lower_loop-Stacked k n (add_elem m 0 c) (c ∷ xs) limit (c + page_size) (cnt + 1) (omega arith)
        (omega arith) w (omega arith) (add-Links m xs c f l) in
    rw (lt→ltb c limit (omega arith), no_wrap) (ih.0, ih.1, ih.2 ∙ omega arith)

-- The loop writes to no word at or above the limit.
lower_loop-kept :
    (k fuel : ℕ) (m : Memory) (xs : List ℕ) (limit c cnt a : ℕ)
    → IsFrame c
    → c + k * page_size ≡ limit
    → limit < 2 ^ 64
    → k < fuel
    → Links m xs c
    → limit ≤ a
    → (lower_loop fuel m 0 limit c cnt).0 a ≡ m a
unfolding lower_loop
lower_loop-kept zero zero m xs limit c cnt a f e w fu l ge = absurd (omega arith)
lower_loop-kept zero (suc n) m xs limit c cnt a f e w fu l ge =
    rw (le→ltb_false c limit (omega arith)) refl
lower_loop-kept (suc k) zero m xs limit c cnt a f e w fu l ge = absurd (omega arith)
lower_loop-kept (suc k) (suc n) m xs limit c cnt a f e w fu l ge =
    let no_wrap : add64 c page_size ≡ c + page_size = omega arith in
    let fresh = below-Fresh (page_of a) xs (below_mono c (page_of a) xs (omega arith) l.below) in
    rw (lt→ltb c limit (omega arith), no_wrap)
      (lower_loop-kept k n (add_elem m 0 c) (c ∷ xs) limit (c + page_size) (cnt + 1) a (omega arith)
          (omega arith) w (omega arith) (add-Links m xs c f l) ge
        ∙ add_elem-elsewhere m c a xs f l.chain l.frames (omega arith) (λ z. omega arith) fresh)

-- The address behind the last section, from the words of its header, and the first page from there
-- on.
abbrev pub last_end : Bytes → ElfInfo → ℕ
last_end tags elf =
    u64_at tags (elf.sec_head_ent_arr + 64 * (elf.num_sec_head_ents - 1) + 16)
    + u64_at tags (elf.sec_head_ent_arr + 64 * (elf.num_sec_head_ents - 1) + 32)

abbrev pub first_page : Bytes → ElfInfo → ℕ
first_page tags elf = (last_end tags elf + 4095) / 4096 * 4096

-- What `init_pool` relies on: a lower region at 0 of at least a page, an upper one that begins at
-- the second section header's address and goes past the last section, and no address beyond 64 bits.
pub record Fits (tags : Bytes) (u : UsableMemInfo) (elf : ElfInfo) : Type 0 where
  pub at_zero : u.lower.base_addr ≡ 0
  pub some_page : page_size ≤ u.lower.length
  pub sections : u.upper.base_addr ≡ u64_at tags (elf.sec_head_ent_arr + 64 + 16)
  pub some_section : 0 < elf.num_sec_head_ents
  pub few_sections : elf.num_sec_head_ents < 2 ^ 32
  pub lower_end : u.lower.length ≤ first_page tags elf
  pub upper_end : first_page tags elf ≤ (u.upper.length + u.upper.base_addr) / 4096 * 4096
  pub small : u.upper.length + u.upper.base_addr < 2 ^ 64
  -- the section headers and the upper entry stand behind the lower pages, where no store of the set-up reaches them
  pub headers_apart : u.lower.length ≤ elf.sec_head_ent_arr
  pub upper_apart : u.lower.length ≤ u.upper.at

-- The pool with the lower pages but page 0, and the pages from `base` on still to come.
unfoldable pub pool_from : ℕ → UsableMemInfo → Pool
pool_from base u = record {
  frames = stack (u.lower.length / page_size - 1) page_size [];
  base = base;
  unpooled = ((u.upper.length + u.upper.base_addr) / page_size) - base / page_size;
}

-- The pool after start-up.
abbrev pub initial : Bytes → UsableMemInfo → ElfInfo → Pool
initial tags u elf = pool_from (first_page tags elf) u

-- The same by what the code computes.
record Regions (tags : Bytes) (u : UsableMemInfo) (elf : ElfInfo) : Type 0 where
  at_zero : u.lower.base_addr ≡ 0
  some_page : page_size ≤ u.lower.length
  sections : u.upper.base_addr ≡ sec_addr tags elf 1
  lower_end : u.lower.length ≤ upper_base tags elf
  aligned : upper_base tags elf % page_size ≡ 0
  upper_end :
      upper_base tags elf ≤ round_down_nearest_mult (u.upper.length + u.upper.base_addr) page_size
  small : u.upper.length + u.upper.base_addr < 2 ^ 64

round_up-first :
    (v : ℕ)
    → (v + 4095) / 4096 * 4096 < 2 ^ 64
    → round_up_nearest_mult v page_size ≡ (v + 4095) / 4096 * 4096
unfolding round_up_nearest_mult
round_up-first v h = ground arith

upper_base-first :
    (tags : Bytes) (u : UsableMemInfo) (elf : ElfInfo)
    → Fits tags u elf
    → upper_base tags elf ≡ first_page tags elf
unfolding upper_base sec_addr sec_size
upper_base-first tags u elf f =
    let index : (elf.num_sec_head_ents + 2 ^ 32 - 1) % 2 ^ 32 ≡ elf.num_sec_head_ents - 1 =
      omega (arith, f.some_section, f.few_sections) in
    let no_wrap : last_end tags elf % 2 ^ 64 ≡ last_end tags elf =
      omega (arith, f.upper_end, f.small) in
    rw (index, no_wrap) (round_up-first (last_end tags elf) (omega (arith, f.upper_end, f.small)))

Fits-Regions :
    (tags : Bytes) (u : UsableMemInfo) (elf : ElfInfo) → Fits tags u elf → Regions tags u elf
unfolding round_down_nearest_mult sec_addr
Fits-Regions tags u elf f =
    let e = upper_base-first tags u elf f in
    record {
      at_zero = f.at_zero;
      some_page = f.some_page;
      sections = f.sections;
      lower_end = omega (arith, f.lower_end, e);
      aligned = omega (arith, e);
      upper_end = omega (arith, f.upper_end, e);
      small = f.small;
    }

head_kept : (m : Memory) (a : ℕ) → 4096 ≤ a → init_ll_head m 0 a ≡ m a
unfolding init_ll_head store
head_kept m a ge = ground arith

add_lower_pages-Links :
    (m : Memory) (k limit : ℕ)
    → page_size + k * page_size ≡ limit
    → limit < 2 ^ 64
    → (m1 : Memory) × (add_lower_pages (init_ll_head m 0) 0 0 limit ≡ ok m1)
      × Links m1 (stack k page_size []) limit
      × ((a : ℕ) → limit ≤ a → m1 a ≡ m a)
unfolding add_lower_pages
add_lower_pages-Links m k limit e hi =
    let l =
      lower_loop-Stacked k (suc (limit / page_size)) (init_ll_head m 0) [] limit page_size 0
        (omega arith) e hi (omega arith) (init-Links m) in
    let at_limit = (==_iff _ limit).1 l.1 in
    let counted = (==_iff _ (sub64 (limit / page_size) 1)).1 (l.2 ∙ omega arith) in
    (
      _,
      rw (at_limit, counted) refl,
      l.0,
      λ a ge.
          lower_loop-kept k (suc (limit / page_size)) (init_ll_head m 0) [] limit page_size 0 a
            (omega arith) e hi (omega arith) (init-Links m) ge
          ∙ head_kept m a (omega arith),
    )

module _ (tags : Bytes) (u : UsableMemInfo) (elf : ElfInfo) (fits : Regions tags u elf) where
  open fits use {at_zero, some_page, sections, lower_end, aligned, upper_end, small}

  length-eq :
      upper_length tags elf u.upper ≡ (pool_from (upper_base tags elf) u).unpooled * page_size
  unfolding upper_length pool_from round_down_nearest_mult
  length-eq = omega (arith, aligned, upper_end, small)

  end-lt :
      (pool_from (upper_base tags elf) u).base
        + (pool_from (upper_base tags elf) u).unpooled * page_size
      < 2 ^ 64
  unfolding pool_from round_down_nearest_mult
  end-lt = omega (arith, aligned, upper_end, small)

  -- Writing the three fields completes the pool.
  init_ll_head_info-IsPool :
      (m : Memory)
      → Links m (pool_from (upper_base tags elf) u).frames (upper_base tags elf)
      → (m1 : Memory) × (init_ll_head_info tags m 0 elf u.upper ≡ ok m1)
        × IsPool m1 (pool_from (upper_base tags elf) u)
        × ((a : ℕ) → 4096 ≤ a → m1 a ≡ m a)
  unfolding init_ll_head_info store pool_from
  init_ll_head_info-IsPool m l =
      let base = upper_base tags elf in
      let len = upper_length tags elf u.upper in
      let xs = (pool_from (upper_base tags elf) u).frames in
      let m1 = store m 16 base in
      let m2 = store m1 24 len in
      let r : Ring m1 xs base = record {
        chain = Chain-store-field m 16 base xs (omega arith) l.frames l.chain;
        frames = l.frames;
        distinct = l.distinct;
        below = l.below;
        base_frame = (aligned, omega (arith, some_page, lower_end));
        base_word = refl;
      } in
      let same = (==_iff _ _).1 sections in
      let whole : (len % page_size == 0) ≡ true = (==_iff _ _).1 (omega (arith, length-eq)) in
      (
        store m2 32 (len / page_size),
        rw (same, whole) refl,
        record {
          ring =
              Ring-store m2 xs base 32 (len / page_size)
                (Ring-store m1 xs base 24 len r (omega arith) (omega arith)) (omega arith)
                (omega arith);
          len_word = length-eq;
          cnt_word = omega (arith, length-eq);
          limit = end-lt;
        },
        λ a ge.
            store_ne m2 32 (len / page_size) a (λ z. omega arith)
            ∙ store_ne m1 24 len a (λ z. omega arith)
            ∙ store_ne m 16 base a (λ z. omega arith),
      )

  -- The lower pages, below every upper one.
  lower_pages :
      (m : Memory)
      → (m1 : Memory) × (add_lower_pages
            (init_ll_head m 0)
            0
            0
            (round_down_nearest_mult u.lower.length page_size)
          ≡ ok m1)
        × Links m1 (pool_from (upper_base tags elf) u).frames (upper_base tags elf)
        × ((a : ℕ) → round_down_nearest_mult u.lower.length page_size ≤ a → m1 a ≡ m a)
  unfolding round_down_nearest_mult pool_from
  lower_pages m =
      let limit = round_down_nearest_mult u.lower.length page_size in
      let (m1, e, l, kept) =
        add_lower_pages-Links m (u.lower.length / page_size - 1) limit (omega (arith, some_page))
          (omega (arith, lower_end, upper_end, small)) in
      (
        m1,
        e,
        record {
          chain = l.chain;
          frames = l.frames;
          distinct = l.distinct;
          below = below_mono limit (upper_base tags elf) _ (omega (arith, lower_end)) l.below;
        },
        kept,
      )

-- On memory regions that fit, read in tags that stand behind the lower pages, the start-up stops at no
-- assertion, and leaves the memory holding the pool of all lower pages but page 0, with the pages from
-- the end of the last section, rounded up, to the end of the upper region still to come. It writes to
-- no word behind the lower pages.
pub init_pool-IsPool :
    (u : UsableMemInfo) (elf : ElfInfo) (m : Memory)
    → Fits (bytes_of m) u elf
    → mem_info_at (bytes_of m) u.upper.at ≡ u.upper
    → (m1 : Memory) × (init_pool m u elf ≡ ok m1)
      × IsPool m1 (initial (bytes_of m) u elf)
      × ((a : ℕ) → u.lower.length ≤ a → m1 a ≡ m a)
unfolding init_pool
init_pool-IsPool u elf m f entry =
    let tags = bytes_of m in
    let fits = Fits-Regions tags u elf f in
    let limit = round_down_nearest_mult u.lower.length page_size in
    let zero_base : round_up_nearest_mult u.lower.base_addr page_size ≡ 0 =
      rw (f.at_zero) round_up-zero in
    let down = round_down-page u.lower.length in
    let (m1, e, l, kept) = lower_pages tags u elf fits m in
    let (m2, e', pool, kept') = init_ll_head_info-IsPool tags u elf fits m1 l in
    let same =
      info_kept tags (bytes_of m1) limit (bytes_kept m m1 limit (omega (arith, down)) kept) m1 elf
        u.upper.at (omega (arith, down, f.headers_apart)) (omega (arith, down, f.upper_apart))
      ∙ ap (init_ll_head_info tags m1 0 elf) entry in
    (
      m2,
      rw (zero_base, e, same) e',
      subst (λ b. IsPool m2 (pool_from b u)) (upper_base-first tags u elf f) pool,
      λ a ge. kept' a (omega (arith, f.some_page)) ∙ kept a (omega (arith, down)),
    )
