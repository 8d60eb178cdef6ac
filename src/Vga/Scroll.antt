-- ===== src/Vga/Scroll.antt =====
-- The loop that blanks cells, and scrolling, as functions on the list of cells.
use skip_os.Common.{
  ℕ, zero, suc, ◌+◌, ◌≤◌, ◌<◌, ◌≡◌, ◌≢◌, refl, ◌∙◌, subst, ok, ltb, leb, ◌==◌, if◌then◌else◌, List,
  ◌++◌, length, get_or, take, drop, set, arith, lt→ltb, lt→leb_false, le→leb, le→ltb_false,
  length-set, get_or-set_self, get_or-set_ne, inl, inr, Bool-cases, ◌&&◌, get_or-append_left,
  get_or-drop, get_or-take, length-take, length-drop, length-append,
}
use native.Mathlib.Decide.{dec_lt}
use skip_os.Vga.{
  Vga, vga_width, vga_cell_count, vga_color_mask, clear_at_offset, clear_loop, clear_bottom_row,
  scroll, get_offset_from_coord,
}

-- The cells after `n` of them, from `offset` on, were made blank.
unfoldable pub blank : ℕ → ℕ → List ℕ → List ℕ
blank zero offset buff = buff
blank (suc n) offset buff = blank n (offset + 1) (set buff offset vga_color_mask)

pub length-blank : (n o : ℕ) (buff : List ℕ) → length (blank n o buff) ≡ length buff
unfolding blank
length-blank zero o buff = refl
length-blank (suc n) o buff =
    length-blank n (o + 1) (set buff o vga_color_mask) ∙ length-set buff o vga_color_mask

pub get_or-blank :
    (n o : ℕ) (buff : List ℕ) (i : ℕ)
    → o + n ≤ length buff
    → get_or (blank n o buff) i 0
      ≡ (if leb o i && ltb i (o + n) then vga_color_mask else get_or buff i 0)
unfolding blank
get_or-blank zero o buff i h = ground arith
get_or-blank (suc n) o buff i h =
    let later =
      get_or-blank n (o + 1) (set buff o vga_color_mask) i
        (omega (arith, length-set buff o vga_color_mask)) in
    elim (Bool-cases (o == i)) [
      | inl e ↦
          let same = get_or-set_self buff o vga_color_mask 0 (omega arith) in
          let oi : o ≡ i = ground arith in
          let here : get_or (set buff o vga_color_mask) i 0 ≡ vga_color_mask =
            subst (λ k. get_or (set buff o vga_color_mask) k 0 ≡ vga_color_mask) oi same in
          ground arith
      | inr ne ↦
          let oi : o ≢ i = ground arith in
          let other = get_or-set_ne buff vga_color_mask 0 oi in ground arith
    ]

-- The loop stops at no assertion inside the screen, and changes the cells only.
pub clear_loop-blank :
    (n o : ℕ) (s : Vga)
    → o + n ≤ vga_cell_count
    → clear_loop n o s ≡ ok (record s { vga_buff = blank n o s.vga_buff })
unfolding clear_loop clear_at_offset blank
clear_loop-blank zero o s h = refl
clear_loop-blank (suc n) o s h =
    let inside = lt→ltb o vga_cell_count (omega arith) in
    rw inside (
      clear_loop-blank n (o + 1) (record s { vga_buff = set s.vga_buff o vga_color_mask })
        (omega arith))

-- The cells with the first row out, the others a row up, and the last row blank.
unfoldable pub scrolled : List ℕ → List ℕ
unfolding blank
scrolled buff =
    blank vga_width 1920 (take 1920 (drop vga_width (take vga_cell_count buff)) ++ drop 1920 buff)

module _ (buff : List ℕ) (size : length buff ≡ vga_cell_count) where
  upper_rows : List ℕ
  upper_rows = take 1920 (drop vga_width (take vga_cell_count buff))

  length-upper_rows : length upper_rows ≡ 1920
  unfolding upper_rows
  length-upper_rows =
      let all = length-take vga_cell_count buff (omega arith) in
      let rest = length-drop vga_width (take vga_cell_count buff) in
      length-take 1920 (drop vga_width (take vga_cell_count buff)) (omega arith)

  length-moved : length (upper_rows ++ drop 1920 buff) ≡ vga_cell_count
  length-moved =
      omega
        (arith, length-append upper_rows (drop 1920 buff), length-upper_rows, length-drop 1920 buff)

  pub length-scrolled : length (scrolled buff) ≡ vga_cell_count
  unfolding scrolled upper_rows
  length-scrolled = length-blank vga_width 1920 (upper_rows ++ drop 1920 buff) ∙ length-moved

  get_or-moved :
      (i : ℕ) → i < 1920 → get_or (upper_rows ++ drop 1920 buff) i 0 ≡ get_or buff (i + vga_width) 0
  unfolding upper_rows
  get_or-moved i h =
      get_or-append_left upper_rows (drop 1920 buff) i 0 (omega (arith, length-upper_rows))
      ∙ get_or-take 1920 (drop vga_width (take vga_cell_count buff)) i 0 h
      ∙ get_or-drop vga_width (take vga_cell_count buff) i 0
      ∙ get_or-take vga_cell_count buff (i + vga_width) 0 (omega arith)

  pub get_or-scrolled :
      (i : ℕ)
      → i < vga_cell_count
      → get_or (scrolled buff) i 0
        ≡ (if ltb i 1920 then get_or buff (i + vga_width) 0 else vga_color_mask)
  unfolding scrolled upper_rows
  get_or-scrolled i h =
      let filled =
        get_or-blank vga_width 1920 (upper_rows ++ drop 1920 buff) i
          (omega (arith, length-moved)) in
      elim (dec_lt i 1920) [
        | yes low ↦ filled ∙ rw (lt→leb_false 1920 i low, lt→ltb i 1920 low) (get_or-moved i low)
        | no high ↦
            let last : 1920 ≤ i = omega arith in
            filled
            ∙ rw (le→leb 1920 i last, lt→ltb i vga_cell_count h, le→ltb_false i 1920 last) refl
      ]

-- Scrolling stops at no assertion, and changes the cells only.
pub scroll-scrolled : (s : Vga) → scroll s ≡ ok (record s { vga_buff = scrolled s.vga_buff })
unfolding scroll scrolled clear_bottom_row get_offset_from_coord
scroll-scrolled s =
    clear_loop-blank vga_width 1920
      (record s {
        vga_buff =
            take 1920 (drop vga_width (take vga_cell_count s.vga_buff)) ++ drop 1920 s.vga_buff;
      })
      (omega arith)
