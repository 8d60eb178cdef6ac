-- ===== src/Keyboard/Typing.antt =====
-- Typing a text: the scan codes of its characters, with shift where it is needed, show the text.
use skip_os.Common.{
  some, length, suc, ◌≢◌, ◌^◌, ℕ, ◌≡◌, ◌<◌, refl, sym, ap, ◌∙◌, Bool, true, false, ◌&&◌, not, Run,
  ok, ◌>>=◌, ◌==◌, if◌then◌else◌, List, [], ◌∷◌, map, arith, All, fun_ext, table_holds,
  table_lookup,
}
use mathlib.Core.Path.{ap₂}
use skip_os.Ports.{Ports}
use skip_os.Vga.{Vga, display_char, display_str}
use skip_os.Vga.Edit.{display_chars, display_str-chars}
use skip_os.Vga.Place.{IsScreen}
use skip_os.ScanCode.{ScodeMapElem}
use skip_os.ScanCode.Lookup.{elem_at, char_from_scode-elem_at}
use skip_os.Keyboard.{kdb_state, l_shift_scode, released_scode, backspace_scode, kbd_ack_rsp}
use skip_os.Keyboard.Keys.{
  shows, keys_of, ends_in_release, is_shift, shift_after, key_edits, edits, apply_edits,
}
use skip_os.Keyboard.Stream.{bytes_read, behind_bytes, interrupts, interrupts-edits}

-- A character to type: the index of its element in the map of scan codes, and whether it is the one
-- with shift.
abbrev pub Stroke : Type 0
Stroke = ℕ × Bool

abbrev code : ℕ → ℕ
code i = (elem_at i).2

-- What the keyboard sends: the key goes down and up, and shift around it.
unfoldable pub bytes_of : List Stroke → List ℕ
bytes_of [] = []
bytes_of ((i, false) ∷ ts) = code i ∷ released_scode ∷ code i ∷ bytes_of ts
bytes_of ((i, true) ∷ ts) =
    l_shift_scode ∷ code i ∷ released_scode ∷ code i ∷ released_scode ∷ l_shift_scode ∷ bytes_of ts

unfoldable pub chars_of : List Stroke → List ℕ
chars_of [] = []
chars_of ((i, shift) ∷ ts) = (if shift then (elem_at i).1 else (elem_at i).0) ∷ chars_of ts

-- A code that means nothing else.
abbrev plain : ℕ → Bool
plain c =
    not (is_shift c)
    && (not (c == released_scode) && (not (c == backspace_scode) && not (c == kbd_ack_rsp)))

plain_table : table_holds (λ i. plain (code i)) 42 ≡ true
unfolding table_holds
plain_table = refl

plain_code :
    (i : ℕ)
    → i < 42
    → (is_shift (code i) ≡ false)
      × (code i == released_scode ≡ false)
      × (code i == backspace_scode ≡ false)
      × (code i == kbd_ack_rsp ≡ false)
plain_code i h = let all = table_lookup (λ j. plain (code j)) 42 plain_table i h in ground arith

-- The text of the strokes comes out of the bytes, and the state is that of the start again.
record Read (behind : List ScodeMapElem) (ts : List Stroke) : Type 0 where
  shown : edits behind false (keys_of false (bytes_of ts)) ≡ map shows (chars_of ts)
  shift : shift_after false (keys_of false (bytes_of ts)) ≡ false
  release : ends_in_release false (bytes_of ts) ≡ false

read :
    (behind : List ScodeMapElem) (ts : List Stroke)
    → All (λ (t : Stroke). t.0 < 42) ts
    → Read behind ts
unfolding bytes_of chars_of keys_of edits key_edits shift_after ends_in_release
read behind [] all = record { shown = refl; shift = refl; release = refl }
read behind ((i, false) ∷ ts) all =
    let (sh, re, ba, ac) = plain_code i all.0 in
    let rest = read behind ts all.1 in
    let char = char_from_scode-elem_at behind i false all.0 in
    record {
      shown = rw (re, sh, ba, ac, char) (ap (λ es. shows (elem_at i).0 ∷ es) rest.shown);
      shift = rw re (
          ap
            (λ b.
              shift_after (if b then false else (if b then true else false))
                (keys_of false (bytes_of ts)))
            sh
          ∙ rest.shift);
      release = rw re rest.release;
    }
read behind ((i, true) ∷ ts) all =
    let (sh, re, ba, ac) = plain_code i all.0 in
    let rest = read behind ts all.1 in
    let char = char_from_scode-elem_at behind i true all.0 in
    record {
      shown = rw (re, sh, ba, ac, char) (ap (λ es. shows (elem_at i).1 ∷ es) rest.shown);
      shift = rw re rest.shift;
      release = rw re rest.release;
    }

apply_edits-shows :
    (cs : List ℕ) (vga : Vga) → apply_edits (map shows cs) vga ≡ display_chars cs vga
unfolding apply_edits display_chars
apply_edits-shows [] vga = refl
apply_edits-shows (c ∷ cs) vga =
    ap (λ (f : Vga → Run Vga). display_char c vga >>= f) (fun_ext (λ w. apply_edits-shows cs w))

-- No character of the map is the end of a string.
nonzero_table : table_holds (λ i. not ((elem_at i).0 == 0) && not ((elem_at i).1 == 0)) 42 ≡ true
unfolding table_holds
nonzero_table = refl

chars_nonzero :
    (ts : List Stroke) → All (λ (t : Stroke). t.0 < 42) ts → All (λ c. c ≢ 0) (chars_of ts)
unfolding chars_of
chars_nonzero [] all = tt
chars_nonzero ((i, true) ∷ ts) all =
    let both =
      table_lookup (λ j. not ((elem_at j).0 == 0) && not ((elem_at j).1 == 0)) 42 nonzero_table i
        all.0 in
    ((λ e. ground arith), chars_nonzero ts all.1)
chars_nonzero ((i, false) ∷ ts) all =
    let both =
      table_lookup (λ j. not ((elem_at j).0 == 0) && not ((elem_at j).1 == 0)) 42 nonzero_table i
        all.0 in
    ((λ e. ground arith), chars_nonzero ts all.1)

length-chars_of : (ts : List Stroke) → length (chars_of ts) ≡ length ts
unfolding chars_of
length-chars_of [] = refl
length-chars_of ((i, true) ∷ ts) = ap suc (length-chars_of ts)
length-chars_of ((i, false) ∷ ts) = ap suc (length-chars_of ts)

-- When the bytes that the keyboard gives are those of a text of fewer than 2^16 characters of the map, the
-- interrupts for them put the text on a screen in order as `VGA_display_str` does, and the state
-- is the one of the start again.
pub interrupts-display_str :
    (ports : Ports) (behind : List ScodeMapElem) (n : ℕ) (ts : List Stroke) (vga : Vga)
    (d : ports.Device)
    → All (λ (t : Stroke). t.0 < 42) ts
    → length ts < 2 ^ 16
    → IsScreen vga
    → bytes_read ports behind n d ≡ bytes_of ts
    → (vga' : Vga) × (interrupts ports behind n (kdb_state, vga, d)
        ≡ ok (kdb_state, vga', behind_bytes ports behind n d))
      × (display_str (suc (length ts)) (chars_of ts) vga ≡ some (ok vga'))
interrupts-display_str ports behind n ts vga d all short v bytes =
    let (vga', run, shown, screen) = interrupts-edits ports behind n kdb_state vga d v in
    let r = read behind ts all in
    let shift = ap (λ bs. shift_after false (keys_of false bs)) bytes ∙ r.shift in
    let release = ap (ends_in_release false) bytes ∙ r.release in
    (
      vga',
      run
          ∙ ap₂
              (λ a b. ok (
                record { shift_pressed = a; prev_scode_release = b },
                vga',
                behind_bytes ports behind n d,
              ))
              shift release,
      display_str-chars (chars_of ts) (suc (length ts)) vga (chars_nonzero ts all)
            (omega (arith, length-chars_of ts)) (omega (arith, length-chars_of ts))
          ∙ ap some (
              sym (
                ap (λ bs. apply_edits (edits behind false (keys_of false bs)) vga) bytes
                ∙ ap (λ es. apply_edits es vga) r.shown
                ∙ apply_edits-shows (chars_of ts) vga)
              ∙ shown),
    )
