-- ===== src/Vga.antt =====
-- The text screen, core/src/vga.c: 25 rows of 80 cells, a position and the cursor. The file's globals
-- are a record, and the screen memory a list of its cells.
pub mod Place
pub mod Screen
pub mod Edit
pub mod Scroll
mod Tests
use skip_os.Common.{
  ℕ, zero, suc, ◌+◌, ◌-◌, ◌*◌, ◌%◌, ◌^◌, Bool, not, ◌&&◌, Run, halted, Option, none, some, get_or,
  ok, ◌>>=◌, ◌>>◌, assert, ltb, leb, ◌==◌, if◌then◌else◌, List, [], ◌∷◌, ◌++◌, take, drop, set,
  bit_or,
}
use skip_os.Interrupt.{are_interrupts_enabled, cli, sti}

abbrev pub vga_width : ℕ
vga_width = 80

abbrev pub vga_height : ℕ
vga_height = 25

abbrev pub vga_cell_count : ℕ
vga_cell_count = 2000

-- `VGA_COLOR << 8`: light grey on black.
abbrev pub vga_color_mask : ℕ
vga_color_mask = 0x700

pub record Vga : Type 0 where
  pub vga_buff : List ℕ
  pub x_pos : ℕ
  pub y_pos : ℕ
  pub cursor : ℕ

unfoldable pub get_offset_from_coord : ℕ → ℕ → ℕ
get_offset_from_coord x y = (x + y * vga_width) % 2 ^ 16

unfoldable pub clear_at_offset : ℕ → Vga → Run Vga
clear_at_offset offset s = do
  assert (ltb offset vga_cell_count)
  ok (record s { vga_buff = set s.vga_buff offset vga_color_mask })

-- The loop of `VGA_clear` and of `clear_bottom_row`: rounds left, offset.
unfoldable pub clear_loop : ℕ → ℕ → Vga → Run Vga
clear_loop zero offset s = ok s
clear_loop (suc n) offset s = do s1 ← clear_at_offset offset s; clear_loop n (offset + 1) s1

-- `VGA_clear`, which leaves the position and the cursor where they are.
unfoldable pub clear : Vga → Run Vga
clear = clear_loop vga_cell_count 0

unfoldable pub clear_bottom_row : Vga → Run Vga
clear_bottom_row =
    let offset = get_offset_from_coord 0 (vga_height - 1) in
    clear_loop (vga_cell_count - offset) offset

-- The cells go to a buffer, and all but its first row back to the front of the screen memory.
unfoldable pub scroll : Vga → Run Vga
scroll s =
    let temp_vga_buff = take vga_cell_count s.vga_buff in
    let n = vga_cell_count - vga_width in
    clear_bottom_row
      (record s { vga_buff = take n (drop vga_width temp_vga_buff) ++ drop n s.vga_buff })

unfoldable pub set_cursor : Vga → Run Vga
set_cursor s = do
  assert (ltb s.cursor vga_cell_count)
  ok (record s { cursor = get_offset_from_coord s.x_pos s.y_pos })

-- `c | VGA_COLOR_MASK` in a `u16`: a `char` of 128 or more is negative, and sets the high byte.
unfoldable pub cell : ℕ → ℕ
cell c = if ltb c 128 then bit_or c vga_color_mask else bit_or (c + 2 ^ 16 - 256) vga_color_mask

unfoldable pub write_char : ℕ → Vga → Vga
write_char c s = record s { vga_buff = set s.vga_buff s.cursor (cell c) }

unfoldable pub in_screen : Vga → Bool
in_screen s = ltb s.x_pos vga_width && (ltb s.y_pos vga_height && ltb s.cursor vga_cell_count)

-- The first half of `VGA_display_char`, by the kind of character.
unfoldable pub place_char : ℕ → Vga → Vga
place_char c s =
    if c == b'\n'
    then record s { x_pos = 0; y_pos = s.y_pos + 1 }
    else if c == b'\r'
    then record s { y_pos = s.y_pos + 1 }
    else record (write_char c s) { x_pos = s.x_pos + 1 }

unfoldable pub wrap_line : Vga → Vga
wrap_line s = if s.x_pos == vga_width then record s { x_pos = 0; y_pos = s.y_pos + 1 } else s

unfoldable pub scroll_if_full : Vga → Run Vga
scroll_if_full s =
    if s.y_pos == vga_height
    then (do s1 ← scroll s; ok (record s1 { y_pos = s1.y_pos - 1 }))
    else ok s

-- `VGA_display_char` between the masking of interrupts and their release.
unfoldable pub display_char : ℕ → Vga → Run Vga
display_char c s = do
  assert (in_screen s)
  assert (leb (place_char c s).x_pos vga_width && leb (place_char c s).y_pos vga_height)
  s1 ← scroll_if_full (wrap_line (place_char c s))
  s2 ← set_cursor s1
  assert (in_screen s2)
  ok s2

-- `VGA_display_char`, with the flags register.
unfoldable pub vga_display_char : ℕ → ℕ → Vga → Run (ℕ × Vga)
vga_display_char rflags c s =
    let enable_ints = are_interrupts_enabled rflags in
    let masked = if enable_ints then cli rflags else rflags in
    do s1 ← display_char c s; ok (if enable_ints then sti masked else masked, s1)

-- The loop of `VGA_display_str`: fuel, the characters in front of the 0, and the index, which is a
-- `u16` and wraps. `none` is fuel run out.
unfoldable pub str_loop : ℕ → List ℕ → ℕ → Vga → Option (Run Vga)
str_loop zero str index s = none
str_loop (suc n) str index s =
    let c = get_or str index 0 in
    if c == 0 then some (ok s) else elim (display_char c s) [
      | halted ↦ some halted
      | ok s1 ↦ str_loop n str ((index + 1) % 2 ^ 16) s1
    ]

-- `VGA_display_str` on a pointer that is not null.
unfoldable pub display_str : ℕ → List ℕ → Vga → Option (Run Vga)
unfolding str_loop
display_str n str s = str_loop n str 0 s

-- `VGA_backspace_char`
unfoldable pub backspace_char : Vga → Run Vga
backspace_char s = if s.x_pos == 0 then ok s else (do
  s1 ← set_cursor (record s { x_pos = s.x_pos - 1 })
  ok (record s1 { vga_buff = set s1.vga_buff s1.cursor vga_color_mask }))
