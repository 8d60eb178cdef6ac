-- ===== src/Vga/Edit.antt =====
-- Strings, the backspace and clearing the screen.
use skip_os.Common.{
  All, ◌≢◌, ap, zero, suc, Run, halted, Option, some, ◌>>=◌, ℕ, ◌+◌, ◌-◌, ◌*◌, ◌%◌, ◌^◌, ◌<◌, ◌≡◌,
  refl, ◌∙◌, ok, ==_iff, ◌==◌, if◌then◌else◌, List, [], ◌∷◌, length, get_or, set, arith, lt→ltb,
  le→leb, length-set, ne→==_false,
}
use native.Mathlib.Decide.{ℕ_discrete}
use skip_os.Vga.{
  Vga, vga_width, vga_cell_count, vga_color_mask, display_char, str_loop, display_str, set_cursor,
  get_offset_from_coord, backspace_char, clear,
}
use skip_os.Vga.Scroll.{blank, get_or-blank, clear_loop-blank}
use skip_os.Vga.Place.{IsScreen, get_or-set_if}
use skip_os.Vga.Screen.{display_char-Typed}

-- The characters one after another.
unfoldable pub display_chars : List ℕ → Vga → Run Vga
display_chars [] s = ok s
display_chars (c ∷ cs) s = do s1 ← display_char c s; display_chars cs s1

pub display_chars-IsScreen :
    (cs : List ℕ) (s : Vga) → IsScreen s → (s' : Vga) × (display_chars cs s ≡ ok s') × IsScreen s'
unfolding display_chars
display_chars-IsScreen [] s v = (s, refl, v)
display_chars-IsScreen (c ∷ cs) s v =
    let (s1, run, done) = display_char-Typed c s v in
    let (s2, rest, w) = display_chars-IsScreen cs s1 done.screen in (s2, rw run rest, w)

str_loop-chars :
    (cs str : List ℕ) (i n : ℕ) (s : Vga)
    → ((j : ℕ) → get_or str (i + j) 0 ≡ get_or cs j 0)
    → All (λ c. c ≢ 0) cs
    → i + length cs < 2 ^ 16
    → length cs < n
    → str_loop n str i s ≡ some (display_chars cs s)
unfolding str_loop display_chars
str_loop-chars [] str i zero s at nz short fuel = absurd (omega arith)
str_loop-chars [] str i (suc n) s at nz short fuel =
    let end : get_or str i 0 ≡ 0 = ap (λ k. get_or str k 0) (omega arith) ∙ at 0 in
    rw ((==_iff (get_or str i 0) 0).1 end) refl
str_loop-chars (c ∷ cs) str i zero s at nz short fuel = absurd (omega arith)
str_loop-chars (c ∷ cs) str i (suc n) s at nz short fuel =
    let here : get_or str i 0 ≡ c = ap (λ k. get_or str k 0) (omega arith) ∙ at 0 in
    let no_wrap : (i + 1) % 2 ^ 16 ≡ i + 1 = omega arith in
    rw (here, ne→==_false c 0 nz.0)
      (each (display_char c s) no_wrap (λ s1.
        str_loop-chars cs str (i + 1) n s1
          (λ j. ap (λ k. get_or str k 0) (omega arith) ∙ at (suc j)) nz.1 (omega arith)
          (omega arith)))
  where
    each :
        (r : Run Vga) (no_wrap : (i + 1) % 2 ^ 16 ≡ i + 1)
        → ((s1 : Vga) → str_loop n str (i + 1) s1 ≡ some (display_chars cs s1))
        → elim r as (λ z. Option (Run Vga)) [
          | halted ↦ some halted
          | ok s1 ↦ str_loop n str ((i + 1) % 2 ^ 16) s1
        ]
          ≡ some (r >>= display_chars cs)
    each halted no_wrap rest = refl
    each (ok s1) no_wrap rest = rw no_wrap (rest s1)

-- A string of fewer than 2^16 characters, whose index does not wrap.
pub display_str-chars :
    (cs : List ℕ) (n : ℕ) (s : Vga)
    → All (λ c. c ≢ 0) cs
    → length cs < 2 ^ 16
    → length cs < n
    → display_str n cs s ≡ some (display_chars cs s)
unfolding display_str
display_str-chars cs n s nz short fuel =
    str_loop-chars cs cs 0 n s (λ j. ap (λ k. get_or cs k 0) (omega arith)) nz (omega arith) fuel

-- `VGA_display_str` of a string of fewer than 2^16 characters, with a round of fuel for each and one
-- for the end, ends and stops at no assertion, whatever the characters, and leaves the position inside
-- and the cursor at it.
pub display_str-IsScreen :
    (cs : List ℕ) (n : ℕ) (s : Vga)
    → All (λ c. c ≢ 0) cs
    → length cs < 2 ^ 16
    → length cs < n
    → IsScreen s
    → (s' : Vga) × (display_str n cs s ≡ some (ok s')) × IsScreen s'
display_str-IsScreen cs n s nz short fuel v =
    let (s', run, w) = display_chars-IsScreen cs s v in
    (s', display_str-chars cs n s nz short fuel ∙ ap some run, w)

-- `VGA_backspace_char` at a position behind the first column goes one back, blanks the cell there and
-- no other, and leaves the cursor at it; in the first column it does nothing.
pub backspace_char-blank :
    (s : Vga)
    → IsScreen s
    → (s' : Vga) × (backspace_char s ≡ ok s')
      × IsScreen s'
      × (s'.x_pos ≡ s.x_pos - 1)
      × (s'.y_pos ≡ s.y_pos)
      × ((i : ℕ)
          → get_or s'.vga_buff i 0 ≡ (
              if s.x_pos == 0
              then get_or s.vga_buff i 0
              else if i == s'.cursor
              then vga_color_mask
              else get_or s.vga_buff i 0))
unfolding backspace_char set_cursor get_offset_from_coord
backspace_char-blank s v = elim (ℕ_discrete s.x_pos 0) [
  | yes first ↦ (
    s,
    rw ((==_iff s.x_pos 0).1 first) refl,
    v,
    omega arith,
    refl,
    λ i. rw ((==_iff s.x_pos 0).1 first) refl,
  )
  | no more ↦
      let column = v.column in
      let row = v.row in
      let at = v.at in
      let size = v.size in
      let back : ℕ = s.x_pos - 1 + s.y_pos * vga_width in
      let fits : (s.x_pos - 1 + s.y_pos * vga_width) % 2 ^ 16 ≡ s.x_pos - 1 + s.y_pos * vga_width =
        omega arith in
      (
        record s {
          x_pos = s.x_pos - 1;
          cursor = back;
          vga_buff = set s.vga_buff back vga_color_mask;
        },
        rw (ne→==_false s.x_pos 0 more, lt→ltb s.cursor vga_cell_count (omega arith), fits) refl,
        record {
          size = length-set s.vga_buff back vga_color_mask ∙ size;
          column = omega arith;
          row = row;
          at = refl;
        },
        refl,
        refl,
        λ i.
            rw (ne→==_false s.x_pos 0 more)
              (get_or-set_if s.vga_buff back vga_color_mask i (omega arith)),
      )
]

-- `VGA_clear` blanks all 2000 cells, and stops at no assertion.
pub clear-blank :
    (s : Vga)
    → length s.vga_buff ≡ vga_cell_count
    → (s' : Vga) × (clear s ≡ ok s')
      × ((i : ℕ) → i < vga_cell_count → get_or s'.vga_buff i 0 ≡ vga_color_mask)
unfolding clear
clear-blank s size = (
  record s { vga_buff = blank vga_cell_count 0 s.vga_buff },
  clear_loop-blank vga_cell_count 0 s (omega arith),
  λ i h.
      get_or-blank vga_cell_count 0 s.vga_buff i (omega arith)
      ∙ rw (le→leb 0 i (omega arith), lt→ltb i vga_cell_count h) refl,
)
