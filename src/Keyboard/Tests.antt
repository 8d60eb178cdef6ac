-- ===== src/Keyboard/Tests.antt =====
-- The keyboard with a list of the bytes that it gives: shift and a, and the answers to a command.
use skip_os.Common.{
  ℕ, ◌+◌, ◌*◌, ◌/◌, ◌%◌, ◌<◌, ◌≡◌, refl, Bool, true, false, ok, halted, ◌==◌, if◌then◌else◌, some,
  List, [], ◌∷◌, arith, replicate, length-replicate,
}
use skip_os.Ports.{Ports}
use skip_os.Vga.{Vga, vga_width, vga_cell_count, vga_color_mask, display_str}
use skip_os.Vga.Place.{IsScreen}
use skip_os.Keyboard.{
  kdb_state, get_good_config_byte, recv_kbd_byte, write_data_byte, wait_write_data,
  read_status_byte, and_then, verify_kbd_ack, send_kbd_byte,
}
use skip_os.Keyboard.Keys.{keys_of, ends_in_release, shift_after, edits, apply_edits}
use skip_os.Keyboard.Stream.{bytes_read, behind_bytes, interrupts, interrupts-edits}
use skip_os.Keyboard.Typing.{bytes_of, chars_of, interrupts-display_str}
use skip_os.Keyboard.Setup.{
  get_good_config_byte-bits, Acked, at_once, resent, verify_kbd_ack-Acked, Ready, ready,
  send_kbd_byte-Acked,
}

-- A keyboard that gives these bytes, and a controller that is always ready for one.
abbrev take_byte : ℕ → List ℕ → ℕ × List ℕ
take_byte port [] = (0, [])
take_byte port (b ∷ bs) = if port == 0x60 then (b, bs) else (0, b ∷ bs)

abbrev feed : Ports
feed = record { Device = List ℕ; outb = λ port v d. d; inb = take_byte }

abbrev blank : Vga
blank = record {
  vga_buff = replicate vga_cell_count vga_color_mask;
  x_pos = 40;
  y_pos = 3;
  cursor = 40 + 3 * vga_width;
}

blank-IsScreen : IsScreen blank
blank-IsScreen = record {
  size = length-replicate vga_cell_count vga_color_mask;
  column = omega arith;
  row = omega arith;
  at = refl;
}

-- Shift down, a down, an acknowledge, backspace, a up, shift up, a half release.
abbrev keys : List ℕ
keys = 0x12 ∷ 0x1C ∷ 0xFA ∷ 0x66 ∷ 0xF0 ∷ 0x1C ∷ 0xF0 ∷ 0x12 ∷ 0xF0 ∷ []

interrupts-edits_example :
    (vga' : Vga) × (interrupts feed [] 9 (kdb_state, blank, keys)
      ≡ ok (
        record {
          shift_pressed = shift_after false (keys_of false (bytes_read feed [] 9 keys));
          prev_scode_release = ends_in_release false (bytes_read feed [] 9 keys);
        },
        vga',
        behind_bytes feed [] 9 keys,
      ))
    × (apply_edits (edits [] false (keys_of false (bytes_read feed [] 9 keys))) blank ≡ ok vga')
    × IsScreen vga'
interrupts-edits_example = interrupts-edits feed [] 9 kdb_state blank keys blank-IsScreen

-- A and then b, the first and the second element of the map.
abbrev text : List (ℕ × Bool)
text = (0, true) ∷ (1, false) ∷ []

abbrev text_bytes : List ℕ
text_bytes = 0x12 ∷ 0x1C ∷ 0xF0 ∷ 0x1C ∷ 0xF0 ∷ 0x12 ∷ 0x32 ∷ 0xF0 ∷ 0x32 ∷ []

text_read : bytes_read feed [] 9 text_bytes ≡ bytes_of text
unfolding bytes_read bytes_of recv_kbd_byte
text_read = refl

interrupts-display_str_example :
    (vga' : Vga) × (interrupts feed [] 9 (kdb_state, blank, text_bytes)
      ≡ ok (kdb_state, vga', behind_bytes feed [] 9 text_bytes))
    × (display_str 3 (chars_of text) blank ≡ some (ok vga'))
interrupts-display_str_example =
    interrupts-display_str feed [] 9 text blank text_bytes (omega arith) (omega arith)
      blank-IsScreen text_read

text_shown : chars_of text ≡ b'A' ∷ b'b' ∷ []
unfolding chars_of
text_shown = refl

get_good_config_byte-bits_example :
    (get_good_config_byte 0x52 < 256)
    × (get_good_config_byte 0x52 % 2 ≡ 1)
    × (get_good_config_byte 0x52 / 2 % 2 ≡ 0)
    × (get_good_config_byte 0x52 / 16 % 2 ≡ 0)
    × (get_good_config_byte 0x52 / 32 % 2 ≡ 1)
    × (get_good_config_byte 0x52 / 64 % 2 ≡ 0)
    × (get_good_config_byte 0x52 / 4 % 4 ≡ 0x52 / 4 % 4)
    × (get_good_config_byte 0x52 / 128 ≡ 0x52 / 128)
get_good_config_byte-bits_example = get_good_config_byte-bits 0x52 (omega arith)

-- The keyboard asks for the byte again three times, and then acknowledges it.
abbrev answers : List ℕ
answers = 0xFE ∷ 0xFE ∷ 0xFE ∷ 0xFA ∷ []

ready_for : (d : List ℕ) → write_data_byte feed 1 0xFF d ≡ some (ok d)
unfolding write_data_byte wait_write_data read_status_byte and_then
ready_for [] = refl
ready_for (b ∷ bs) = refl

answers-Acked : Acked feed 1 0xFF 3 answers []
unfolding recv_kbd_byte
answers-Acked = resent (omega arith) (ready_for (0xFE ∷ 0xFE ∷ 0xFA ∷ [])) (
    resent (omega arith) (ready_for (0xFE ∷ 0xFA ∷ []))
      (resent (omega arith) (ready_for (0xFA ∷ [])) (at_once refl)))

third_resend_halts : verify_kbd_ack feed 1 0xFF answers ≡ some halted
third_resend_halts = verify_kbd_ack-Acked feed 1 0xFF 3 answers [] answers-Acked

-- It asks for the byte again twice.
abbrev two_answers : List ℕ
two_answers = 0xFE ∷ 0xFE ∷ 0xFA ∷ []

two_answers-Acked : Acked feed 1 0xFF 2 two_answers []
unfolding recv_kbd_byte
two_answers-Acked =
    resent (omega arith) (ready_for (0xFE ∷ 0xFA ∷ []))
      (resent (omega arith) (ready_for (0xFA ∷ [])) (at_once refl))

two_answers-Ready : Ready feed 1 0xFF 0 two_answers two_answers
unfolding read_status_byte
two_answers-Ready = ready refl

send_kbd_byte-Acked_example : send_kbd_byte feed 1 0xFF two_answers ≡ some (ok [])
send_kbd_byte-Acked_example =
    send_kbd_byte-Acked feed 1 0xFF 0 2 two_answers two_answers [] two_answers-Ready (omega arith)
      two_answers-Acked
