-- ===== src/Vga/Place.antt =====
-- Where a character goes, and what the screen shows once it is there.
use skip_os.Common.{
  ℕ, ◌+◌, ◌*◌, ◌≤◌, ◌<◌, ◌≡◌, refl, sym, ◌∙◌, subst, true, ltb, leb, ◌&&◌, ==_iff, ◌==◌,
  if◌then◌else◌, min, List, length, get_or, set, arith, le→leb, length-set, get_or-set_self,
  get_or-set_ne, inl, inr, Bool-cases, ne→==_false, ==_refl,
}
use native.Mathlib.Decide.{ℕ_discrete}
use skip_os.Vga.{
  Vga, vga_width, vga_height, vga_cell_count, vga_color_mask, cell, place_char, write_char,
  wrap_line,
}

-- The screen memory has its size, the position is on it, and the cursor is at the position.
pub record IsScreen (s : Vga) : Type 0 where
  pub size : length s.vga_buff ≡ vga_cell_count
  pub column : s.x_pos < vga_width
  pub row : s.y_pos < vga_height
  pub at : s.cursor ≡ s.x_pos + s.y_pos * vga_width

-- The position behind a character, before scrolling.
unfoldable pub moved : ℕ → ℕ → ℕ → ℕ × ℕ
moved c x y =
    if c == b'\n'
    then (0, y + 1)
    else if c == b'\r'
    then (x, y + 1)
    else if x + 1 == vga_width
    then (0, y + 1)
    else (x + 1, y)

-- The cells with a character at an index; line feed and carriage return are not shown.
unfoldable pub put : ℕ → ℕ → List ℕ → List ℕ
put c i buff = if c == b'\n' then buff else if c == b'\r' then buff else set buff i (cell c)

-- The cell at an index once the character is shown at the cursor.
unfoldable pub shown : ℕ → Vga → ℕ → ℕ
shown c s i =
    if c == b'\n'
    then get_or s.vga_buff i 0
    else if c == b'\r'
    then get_or s.vga_buff i 0
    else if i == s.x_pos + s.y_pos * vga_width
    then cell c
    else get_or s.vga_buff i 0

-- What one character is to do: the position moves on; where it leaves the last row, it goes up by
-- one, every cell shows what was a row below it, and the last row is blank.
pub record Typed (c : ℕ) (s s' : Vga) : Type 0 where
  pub column : s'.x_pos ≡ (moved c s.x_pos s.y_pos).0
  pub row : s'.y_pos ≡ min 24 (moved c s.x_pos s.y_pos).1
  pub cells :
      (i : ℕ)
      → i < vga_cell_count
      → get_or s'.vga_buff i 0 ≡ (
          if (moved c s.x_pos s.y_pos).1 == vga_height
          then (if ltb i 1920 then shown c s (i + vga_width) else vga_color_mask)
          else shown c s i)
  pub screen : IsScreen s'

-- The state behind the two steps that move the position.
unfoldable pub placed : ℕ → Vga → Vga
placed c s = record {
  vga_buff = put c s.cursor s.vga_buff;
  x_pos = (moved c s.x_pos s.y_pos).0;
  y_pos = (moved c s.x_pos s.y_pos).1;
  cursor = s.cursor;
}

pub wrap_line-place_char :
    (c : ℕ) (s : Vga) → s.x_pos < vga_width → wrap_line (place_char c s) ≡ placed c s
unfolding wrap_line place_char placed put moved write_char
wrap_line-place_char c s h = elim (Bool-cases (c == b'\n')) [
  | inl nl ↦ rw nl refl
  | inr no_nl ↦ elim (Bool-cases (c == b'\r')) [
    | inl cr ↦ rw (no_nl, cr, ne→==_false s.x_pos vga_width (omega arith)) refl
    | inr no_cr ↦ elim (Bool-cases (s.x_pos + 1 == vga_width)) [
      | inl end ↦ rw (no_nl, no_cr, end) refl
      | inr more ↦ rw (no_nl, no_cr, more) refl
    ]
  ]
]

pub length-put : (c i : ℕ) (buff : List ℕ) → length (put c i buff) ≡ length buff
unfolding put
length-put c i buff = elim (Bool-cases (c == b'\n')) [
  | inl nl ↦ rw nl refl
  | inr no_nl ↦ elim (Bool-cases (c == b'\r')) [
    | inl cr ↦ rw (no_nl, cr) refl
    | inr no_cr ↦ rw (no_nl, no_cr) (length-set buff i (cell c))
  ]
]

pub get_or-set_if :
    (buff : List ℕ) (j v i : ℕ)
    → j < length buff
    → get_or (set buff j v) i 0 ≡ (if i == j then v else get_or buff i 0)
get_or-set_if buff j v i h = elim (ℕ_discrete i j) [
  | yes e ↦
      subst (λ k. get_or (set buff j v) k 0 ≡ (if k == j then v else get_or buff k 0)) (sym e)
        (get_or-set_self buff j v 0 h ∙ rw (==_refl j) refl)
  | no ne ↦ get_or-set_ne buff v 0 (λ e. ne (sym e)) ∙ rw (ne→==_false i j ne) refl
]

module _ (c : ℕ) (s : Vga) (v : IsScreen s) where
  pub put-shown : (i : ℕ) → get_or (put c s.cursor s.vga_buff) i 0 ≡ shown c s i
  unfolding put shown
  put-shown i =
      let spot =
        get_or-set_if s.vga_buff s.cursor (cell c) i
          (omega (arith, v.size, v.column, v.row, v.at)) in
      let here =
        subst
          (λ k.
            get_or (set s.vga_buff s.cursor (cell c)) i 0
            ≡ (if i == k then cell c else get_or s.vga_buff i 0))
          v.at spot in
      elim (Bool-cases (c == b'\n')) [
        | inl nl ↦ rw nl refl
        | inr no_nl ↦ elim (Bool-cases (c == b'\r')) [
          | inl cr ↦ rw (no_nl, cr) refl
          | inr no_cr ↦ rw (no_nl, no_cr) here
        ]
      ]

  pub moved_bounds :
      ((moved c s.x_pos s.y_pos).0 < vga_width) × ((moved c s.x_pos s.y_pos).1 ≤ vga_height)
  unfolding moved
  moved_bounds =
      let column = v.column in
      let row = v.row in
      elim (Bool-cases (c == b'\n')) [
        | inl nl ↦ rw nl (omega arith, omega arith)
        | inr no_nl ↦ elim (Bool-cases (c == b'\r')) [
          | inl cr ↦ rw (no_nl, cr) (column, omega arith)
          | inr no_cr ↦ elim (ℕ_discrete (s.x_pos + 1) vga_width) [
            | yes end ↦
                rw (no_nl, no_cr, (==_iff (s.x_pos + 1) vga_width).1 end) (omega arith, omega arith)
            | no more ↦
                rw (no_nl, no_cr, ne→==_false (s.x_pos + 1) vga_width more)
                  (omega arith, omega arith)
          ]
        ]
      ]

  pub place_bounds :
      leb (place_char c s).x_pos vga_width && leb (place_char c s).y_pos vga_height ≡ true
  unfolding place_char write_char
  place_bounds =
      let column = v.column in
      let row = v.row in
      let low = le→leb (s.y_pos + 1) vga_height (omega arith) in
      elim (Bool-cases (c == b'\n')) [
        | inl nl ↦ rw (nl, low) refl
        | inr no_nl ↦ elim (Bool-cases (c == b'\r')) [
          | inl cr ↦ rw (no_nl, cr, low, le→leb s.x_pos vga_width (omega arith)) refl
          | inr no_cr ↦
              rw
                (
                  no_nl,
                  no_cr,
                  le→leb (s.x_pos + 1) vga_width (omega arith),
                  le→leb s.y_pos vga_height (omega arith),
                )
                refl
        ]
      ]
