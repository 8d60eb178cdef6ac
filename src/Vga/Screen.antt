-- ===== src/Vga/Screen.antt =====
-- A character on the screen, `VGA_display_char` as a whole.
use skip_os.Common.{
  ℕ, ◌+◌, ◌-◌, ◌*◌, ◌%◌, ◌^◌, ◌<◌, ◌≡◌, ◌≢◌, refl, ap, ◌∙◌, true, Run, ok, ◌>>=◌, ltb, assert, ◌>>◌,
  ==_iff, if◌then◌else◌, length, arith, lt→ltb, ne→==_false,
}
use native.Mathlib.Decide.{ℕ_discrete}
use skip_os.Vga.{
  Vga, vga_width, vga_height, vga_cell_count, vga_color_mask, scroll_if_full, display_char,
  set_cursor, in_screen, get_offset_from_coord,
}
use skip_os.Vga.Scroll.{scrolled, length-scrolled, get_or-scrolled, scroll-scrolled}
use skip_os.Vga.Place.{
  IsScreen, moved, put, Typed, placed, wrap_line-place_char, length-put, put-shown, moved_bounds,
  place_bounds,
}

in_screen_lem :
    (s : Vga)
    → s.x_pos < vga_width
    → s.y_pos < vga_height
    → s.cursor < vga_cell_count
    → in_screen s ≡ true
unfolding in_screen
in_screen_lem s hx hy hc =
    rw
      (lt→ltb s.x_pos vga_width hx, lt→ltb s.y_pos vga_height hy, lt→ltb s.cursor vga_cell_count hc)
      refl

-- The cursor goes to the position.
settled : Vga → Vga
settled s = record s { cursor = s.x_pos + s.y_pos * vga_width }

-- The end of `VGA_display_char`.
settle : Vga → Run Vga
settle s = do s2 ← set_cursor s; assert (in_screen s2); ok s2

settle-settled :
    (s : Vga)
    → s.x_pos < vga_width
    → s.y_pos < vga_height
    → s.cursor < vga_cell_count
    → settle s ≡ ok (settled s)
unfolding settle settled set_cursor get_offset_from_coord
settle-settled s hx hy hc =
    let fits : (s.x_pos + s.y_pos * vga_width) % 2 ^ 16 ≡ s.x_pos + s.y_pos * vga_width =
      omega arith in
    let inside =
      in_screen_lem (record s { cursor = s.x_pos + s.y_pos * vga_width }) hx hy (omega arith) in
    rw (lt→ltb s.cursor vga_cell_count hc, fits, inside) refl

module _ (c : ℕ) (s : Vga) (v : IsScreen s) where
  display_char-placed : display_char c s ≡ (scroll_if_full (placed c s) >>= settle)
  unfolding display_char settle
  display_char-placed =
      rw
        (
          in_screen_lem s v.column v.row (omega (arith, v.column, v.row, v.at)),
          place_bounds c s v,
          wrap_line-place_char c s v.column,
        )
        refl

  -- The state before `set_cursor`, with and without scrolling.
  raised : Vga
  unfolding placed
  raised = record (placed c s) {
    vga_buff = scrolled (put c s.cursor s.vga_buff);
    y_pos = (moved c s.x_pos s.y_pos).1 - 1;
  }

  scroll_if_full-raised :
      (moved c s.x_pos s.y_pos).1 ≡ vga_height → scroll_if_full (placed c s) ≡ ok raised
  unfolding scroll_if_full placed raised
  scroll_if_full-raised full =
      rw ((==_iff (moved c s.x_pos s.y_pos).1 vga_height).1 full, scroll-scrolled (placed c s)) refl

  scroll_if_full-placed :
      (moved c s.x_pos s.y_pos).1 ≢ vga_height → scroll_if_full (placed c s) ≡ ok (placed c s)
  unfolding scroll_if_full placed
  scroll_if_full-placed low = rw (ne→==_false (moved c s.x_pos s.y_pos).1 vga_height low) refl

  cursor_bound : s.cursor < vga_cell_count
  cursor_bound = omega (arith, v.column, v.row, v.at)

  size_put : length (put c s.cursor s.vga_buff) ≡ vga_cell_count
  size_put = length-put c s.cursor s.vga_buff ∙ v.size

  raised-Typed : (moved c s.x_pos s.y_pos).1 ≡ vga_height → Typed c s (settled raised)
  unfolding settled raised placed
  raised-Typed full =
      let bounds = moved_bounds c s v in
      record {
        column = refl;
        row = omega arith;
        cells = λ i h. rw ((==_iff (moved c s.x_pos s.y_pos).1 vga_height).1 full) (
            get_or-scrolled (put c s.cursor s.vga_buff) size_put i h
            ∙ ap (λ k. if ltb i 1920 then k else vga_color_mask) (put-shown c s v (i + vga_width)));
        screen = record {
          size = length-scrolled (put c s.cursor s.vga_buff) size_put;
          column = bounds.0;
          row = omega arith;
          at = refl;
        };
      }

  placed-Typed : (moved c s.x_pos s.y_pos).1 ≢ vga_height → Typed c s (settled (placed c s))
  unfolding settled placed
  placed-Typed low =
      let bounds = moved_bounds c s v in
      record {
        column = refl;
        row = omega arith;
        cells =
            λ i h. rw (ne→==_false (moved c s.x_pos s.y_pos).1 vga_height low) (put-shown c s v i);
        screen = record { size = size_put; column = bounds.0; row = omega arith; at = refl };
      }

  run_raised : (moved c s.x_pos s.y_pos).1 ≡ vga_height → display_char c s ≡ ok (settled raised)
  unfolding raised placed
  run_raised full =
      let bounds = moved_bounds c s v in
      display_char-placed
      ∙ ap (λ r. r >>= settle) (scroll_if_full-raised full)
      ∙ settle-settled raised bounds.0 (omega arith) cursor_bound

  run_placed :
      (moved c s.x_pos s.y_pos).1 ≢ vga_height → display_char c s ≡ ok (settled (placed c s))
  unfolding placed
  run_placed low =
      let bounds = moved_bounds c s v in
      display_char-placed
      ∙ ap (λ r. r >>= settle) (scroll_if_full-placed low)
      ∙ settle-settled (placed c s) bounds.0 (omega arith) cursor_bound

  -- On a screen with its position inside, `VGA_display_char` stops at no assertion: it moves the
  -- position on, shows the character or scrolls as `Typed` says of every cell, and leaves the
  -- position inside and the cursor at it.
  pub display_char-Typed : (s' : Vga) × (display_char c s ≡ ok s') × Typed c s s'
  display_char-Typed = elim (ℕ_discrete (moved c s.x_pos s.y_pos).1 vga_height) [
    | yes full ↦ (settled raised, run_raised full, raised-Typed full)
    | no low ↦ (settled (placed c s), run_placed low, placed-Typed low)
  ]
