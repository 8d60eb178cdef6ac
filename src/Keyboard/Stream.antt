-- ===== src/Keyboard/Stream.antt =====
-- The handler over a stream of interrupts, against the meaning of the bytes.
use skip_os.Common.{
  ℕ, zero, suc, ◌≡◌, refl, sym, ap, ◌∙◌, inl, inr, Bool, true, false, Run, ok, ◌>>=◌, ◌==◌,
  if◌then◌else◌, Bool-cases, List, [], ◌∷◌, arith,
}
use mathlib.Core.Path.{ap₂}
use skip_os.Ports.{Ports}
use skip_os.Vga.{Vga}
use skip_os.Vga.Place.{IsScreen}
use skip_os.Vga.Screen.{display_char-Typed}
use skip_os.Vga.Edit.{backspace_char-blank}
use skip_os.ScanCode.{ScodeMapElem, char_from_scode}
use skip_os.Keyboard.{
  KbdState, handle_scode, kbd_isr_handler, recv_kbd_byte, released_scode, backspace_scode,
  kbd_ack_rsp, kbd_int_num,
}
use skip_os.Keyboard.Keys.{
  keys_of, ends_in_release, is_shift, shift_after, key_edits, edits, apply_edits,
}

-- One byte: the state behind it, and what the handler does to the screen is what its edits do.
record Handled (behind : List ScodeMapElem) (s : ℕ) (bs : List ℕ) (state : KbdState) (vga : Vga)
    : Type 0 where
  state1 : KbdState
  vga1 : Vga
  run : handle_scode behind s state vga ≡ ok (state1, vga1)
  screen : IsScreen vga1
  rest :
      apply_edits (edits behind state.shift_pressed (keys_of state.prev_scode_release (s ∷ bs))) vga
      ≡ apply_edits (edits behind state1.shift_pressed (keys_of state1.prev_scode_release bs)) vga1
  shift :
      shift_after state.shift_pressed (keys_of state.prev_scode_release (s ∷ bs))
      ≡ shift_after state1.shift_pressed (keys_of state1.prev_scode_release bs)
  release :
      ends_in_release state.prev_scode_release (s ∷ bs)
      ≡ ends_in_release state1.prev_scode_release bs

abbrev at : Bool → Bool → KbdState
at shift release = record { shift_pressed = shift; prev_scode_release = release }

release_step :
    (behind : List ScodeMapElem) (s : ℕ) (bs : List ℕ) (shift : Bool) (vga : Vga)
    → IsScreen vga
    → Handled behind s bs (at shift true) vga
unfolding handle_scode keys_of ends_in_release shift_after edits
release_step behind s bs shift vga v = record {
  state1 = at (if is_shift s then false else shift) false;
  vga1 = vga;
  run = refl;
  screen = v;
  rest = refl;
  shift = refl;
  release = refl;
}

press_step :
    (behind : List ScodeMapElem) (s : ℕ) (bs : List ℕ) (shift : Bool) (vga : Vga)
    → IsScreen vga
    → s == released_scode ≡ false
    → Handled behind s bs (at shift false) vga
unfolding handle_scode keys_of ends_in_release shift_after edits key_edits apply_edits
press_step behind s bs shift vga v ne = elim (Bool-cases (is_shift s)) [
  | inl sh ↦ record {
    state1 = at true false;
    vga1 = vga;
    run = rw sh refl;
    screen = v;
    rest = rw (ne, sh) refl;
    shift = rw ne (ap (λ b. shift_after (if b then true else shift) (keys_of false bs)) sh);
    release = rw ne refl;
  }
  | inr other ↦ elim (Bool-cases (s == backspace_scode)) [
    | inl back ↦
        let (vga1, run, screen, x, y, cells) = backspace_char-blank vga v in
        record {
          state1 = at shift false;
          vga1 = vga1;
          run = rw (other, ne, back, run) refl;
          screen = screen;
          rest = rw (ne, other, back, run) refl;
          shift =
              rw ne (ap (λ b. shift_after (if b then true else shift) (keys_of false bs)) other);
          release = rw ne refl;
        }
    | inr key ↦ elim (Bool-cases (s == kbd_ack_rsp)) [
      | inl ack ↦ record {
        state1 = at shift false;
        vga1 = vga;
        run = rw (other, ne, key, ack) refl;
        screen = v;
        rest = rw (ne, other, key, ack) refl;
        shift = rw ne (ap (λ b. shift_after (if b then true else shift) (keys_of false bs)) other);
        release = rw ne refl;
      }
      | inr char ↦
          let (vga1, run, done) = display_char-Typed (char_from_scode behind s shift) vga v in
          record {
            state1 = at shift false;
            vga1 = vga1;
            run = rw (other, ne, key, char, run) refl;
            screen = done.screen;
            rest = rw (ne, other, key, char, run) refl;
            shift =
                rw ne (ap (λ b. shift_after (if b then true else shift) (keys_of false bs)) other);
            release = rw ne refl;
          }
    ]
  ]
]

handled :
    (behind : List ScodeMapElem) (s : ℕ) (bs : List ℕ) (shift release : Bool) (vga : Vga)
    → IsScreen vga
    → Handled behind s bs (at shift release) vga
unfolding handle_scode keys_of ends_in_release shift_after edits
handled behind s bs shift true vga v = release_step behind s bs shift vga v
handled behind s bs shift false vga v = elim (Bool-cases (s == released_scode)) [
  | inl rel ↦
      let other : is_shift s ≡ false = ground arith in
      record {
        state1 = at shift true;
        vga1 = vga;
        run = rw (other, rel) refl;
        screen = v;
        rest = rw rel refl;
        shift = rw rel refl;
        release = rw rel refl;
      }
  | inr ne ↦ press_step behind s bs shift vga v ne
]

keys_of-nil : (release : Bool) → keys_of release [] ≡ []
unfolding keys_of
keys_of-nil true = refl
keys_of-nil false = refl

ends_in_release-nil : (release : Bool) → ends_in_release release [] ≡ release
unfolding ends_in_release
ends_in_release-nil true = refl
ends_in_release-nil false = refl

module _ (ports : Ports) (behind : List ScodeMapElem) where
  open ports use {Device}

  -- The next `n` bytes that the keyboard gives, and the device behind them.
  unfoldable pub bytes_read : ℕ → Device → List ℕ
  unfolding recv_kbd_byte
  bytes_read zero d = []
  bytes_read (suc n) d = (recv_kbd_byte ports d).0 ∷ bytes_read n (recv_kbd_byte ports d).1

  unfoldable pub behind_bytes : ℕ → Device → Device
  unfolding recv_kbd_byte
  behind_bytes zero d = d
  behind_bytes (suc n) d = behind_bytes n (recv_kbd_byte ports d).1

  -- `n` interrupts of the keyboard, one after the other.
  unfoldable pub interrupts : ℕ → KbdState × Vga × Device → Run (KbdState × Vga × Device)
  unfolding kbd_isr_handler
  interrupts zero t = ok t
  interrupts (suc n) t = do t1 ← kbd_isr_handler ports behind kbd_int_num t; interrupts n t1

  interrupt_step :
      (n : ℕ) (state state1 : KbdState) (vga vga1 : Vga) (d : Device)
      → handle_scode behind (recv_kbd_byte ports d).0 state vga ≡ ok (state1, vga1)
      → interrupts (suc n) (state, vga, d) ≡ interrupts n (state1, vga1, (recv_kbd_byte ports d).1)
  unfolding interrupts kbd_isr_handler recv_kbd_byte
  interrupt_step n state state1 vga vga1 d run = rw run refl

  none_read :
      (state : KbdState) (vga : Vga) (d : Device)
      → Path (Run (KbdState × Vga × Device)) (ok (state, vga, d)) (
          ok (
            record {
              shift_pressed = shift_after state.shift_pressed (keys_of state.prev_scode_release []);
              prev_scode_release = ends_in_release state.prev_scode_release [];
            },
            vga,
            d,
          ))
        × (apply_edits (edits behind state.shift_pressed (keys_of state.prev_scode_release [])) vga
            ≡ ok vga)
  unfolding shift_after edits apply_edits
  none_read state vga d =
      let none_left = keys_of-nil state.prev_scode_release in
      (
        ap₂ (λ a b. ok (at a b, vga, d)) (ap (shift_after state.shift_pressed) (sym none_left))
            (sym (ends_in_release-nil state.prev_scode_release)),
        ap (λ ks. apply_edits (edits behind state.shift_pressed ks) vga) none_left,
      )

  -- Any number of interrupts, on a screen in order: no assertion fails, the screen is what the edits
  -- that the bytes mean make of it, and is in order, and the handler's state is whether shift is down
  -- and whether the last byte was 0xF0.
  pub interrupts-edits :
      (n : ℕ) (state : KbdState) (vga : Vga) (d : Device)
      → IsScreen vga
      → (vga' : Vga) × (interrupts n (state, vga, d)
          ≡ ok (
            record {
              shift_pressed =
                  shift_after state.shift_pressed
                    (keys_of state.prev_scode_release (bytes_read n d));
              prev_scode_release = ends_in_release state.prev_scode_release (bytes_read n d);
            },
            vga',
            behind_bytes n d,
          ))
        × (apply_edits
              (edits behind state.shift_pressed (keys_of state.prev_scode_release (bytes_read n d)))
              vga
            ≡ ok vga')
        × IsScreen vga'
  unfolding interrupts bytes_read behind_bytes
  interrupts-edits zero state vga d v = let z = none_read state vga d in (vga, z.0, z.1, v)
  interrupts-edits (suc n) state vga d v =
      let s = (recv_kbd_byte ports d).0 in
      let d1 = (recv_kbd_byte ports d).1 in
      let h =
        handled behind s (bytes_read n d1) state.shift_pressed state.prev_scode_release vga v in
      let (vga', run, shown, screen) = interrupts-edits n h.state1 h.vga1 d1 h.screen in
      (
        vga',
        interrupt_step n state h.state1 vga h.vga1 d h.run
            ∙ run
            ∙ ap₂ (λ a b. ok (at a b, vga', behind_bytes n d1)) (sym h.shift) (sym h.release),
        h.rest ∙ shown,
        screen,
      )
