-- ===== src/Vga/Tests.antt =====
-- The screen with its position in the last cell, and with a line half written.
use skip_os.Common.{
  ℕ, ◌+◌, ◌*◌, ◌-◌, ◌≡◌, refl, ok, some, if◌then◌else◌, ◌==◌, [], ◌∷◌, arith, replicate,
  length-replicate, get_or,
}
use skip_os.Vga.{
  Vga, vga_width, vga_cell_count, vga_color_mask, display_char, display_str, backspace_char, cell,
}
use skip_os.Vga.Place.{IsScreen, Typed, moved}
use skip_os.Vga.Screen.{display_char-Typed}
use skip_os.Vga.Edit.{display_str-IsScreen, backspace_char-blank}

abbrev blanks : ℕ → ℕ → Vga
blanks x y = record {
  vga_buff = replicate vga_cell_count vga_color_mask;
  x_pos = x;
  y_pos = y;
  cursor = x + y * vga_width;
}

last_IsScreen : IsScreen (blanks 79 24)
last_IsScreen = record {
  size = length-replicate vga_cell_count vga_color_mask;
  column = omega arith;
  row = omega arith;
  at = refl;
}

half_IsScreen : IsScreen (blanks 40 3)
half_IsScreen = record {
  size = length-replicate vga_cell_count vga_color_mask;
  column = omega arith;
  row = omega arith;
  at = refl;
}

display_char-Typed_example :
    (s' : Vga) × (display_char b'x' (blanks 79 24) ≡ ok s') × Typed b'x' (blanks 79 24) s'
display_char-Typed_example = display_char-Typed b'x' (blanks 79 24) last_IsScreen

display_str-IsScreen_example :
    (s' : Vga) × (display_str 4 (b'h' ∷ b'i' ∷ b'\n' ∷ []) (blanks 40 3) ≡ some (ok s'))
    × IsScreen s'
display_str-IsScreen_example =
    display_str-IsScreen (b'h' ∷ b'i' ∷ b'\n' ∷ []) 4 (blanks 40 3)
      (λ e. omega arith, (λ e. omega arith, (λ e. omega arith, tt))) (omega arith) (omega arith)
      half_IsScreen

backspace_char-blank_example :
    (s' : Vga) × (backspace_char (blanks 40 3) ≡ ok s')
    × IsScreen s'
    × (s'.x_pos ≡ 40 - 1)
    × (s'.y_pos ≡ 3)
    × ((i : ℕ)
        → get_or s'.vga_buff i 0 ≡ (
            if 40 == 0
            then get_or (blanks 40 3).vga_buff i 0
            else if i == s'.cursor
            then vga_color_mask
            else get_or (blanks 40 3).vga_buff i 0))
backspace_char-blank_example = backspace_char-blank (blanks 40 3) half_IsScreen

-- A line feed goes to the first column of the next row, a carriage return down in the same column.
line_feed : moved b'\n' 40 3 ≡ (0, 4)
unfolding moved
line_feed = refl

carriage_return : moved b'\r' 40 3 ≡ (40, 4)
unfolding moved
carriage_return = refl

light_grey_x : cell b'x' ≡ 0x778
unfolding cell
light_grey_x = refl
