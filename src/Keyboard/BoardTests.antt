-- ===== src/Keyboard/BoardTests.antt =====
-- `KBD_init` on a board with a keyboard that answers.
use skip_os.Common.{
  ℕ, ◌%◌, ◌<◌, ◌≡◌, refl, sym, subst, true, ok, ◌==◌, if◌then◌else◌, some, List, [], ◌∷◌, arith,
}
use skip_os.Ports.{Ports}
use skip_os.Interrupt.{IrqTable, registered, is_enabled, def_irq}
use skip_os.Interrupt.Lines.{Masks}
use skip_os.Keyboard.{
  write_command_byte, disable_p1, disable_p2, enable_p1, init, kbd_int_num, get_good_config_byte,
  recv_kbd_byte, read_status_byte,
}
use skip_os.Keyboard.Setup.{at_once, Acked, ready}
use skip_os.Keyboard.Init.{more, empty, has_byte, Sent, Answers, init-Answers}

-- A board: the bytes that the keyboard has still to give, and the masks of the two interrupt
-- controllers. It gives its configuration when it is asked, and the keyboard acknowledges a byte
-- and tests itself at a reset.
record Board : Type 0 where
  bytes : List ℕ
  mask1 : ℕ
  mask2 : ℕ

abbrev answer : ℕ → List ℕ
answer v =
    if v == 0xFF
    then 0xFA ∷ 0xAA ∷ []
    else if v == 0xF0
    then 0xFA ∷ []
    else if v == 2
    then 0xFA ∷ []
    else []

abbrev board_out : ℕ → ℕ → Board → Board
board_out port v b =
    if port == 0x21
    then record b { mask1 = v % 256 }
    else if port == 0xA1
    then record b { mask2 = v % 256 }
    else if port == 0x60
    then record b { bytes = answer v }
    else if v == 0x20
    then record b { bytes = 0x52 ∷ [] }
    else b

abbrev status_of : List ℕ → ℕ
status_of [] = 0
status_of (b ∷ bs) = 1

abbrev first : List ℕ → ℕ
first [] = 0
first (b ∷ bs) = b

abbrev rest : List ℕ → List ℕ
rest [] = []
rest (b ∷ bs) = bs

abbrev board_in : ℕ → Board → ℕ × Board
board_in port b =
    if port == 0x21
    then (b.mask1 % 256, b)
    else if port == 0xA1
    then (b.mask2 % 256, b)
    else if port == 0x60
    then (first b.bytes, record b { bytes = rest b.bytes })
    else (status_of b.bytes, b)

abbrev board : Ports
board = record { Device = Board; outb = board_out; inb = board_in }

board-byte : (v : ℕ) → v < 256 → v % 256 % 256 ≡ v
board-byte v h = omega arith

board-lt : (v : ℕ) → v % 256 < 256
board-lt v = omega arith

abbrev board-Masks : Masks board
board-Masks = record {
  mask1 = λ b. b.mask1 % 256;
  mask2 = λ b. b.mask2 % 256;
  read1 = λ b. refl;
  read2 = λ b. refl;
  write1 = λ v b h. board-byte v h;
  write2 = λ v b h. board-byte v h;
  keep1 = λ v b. refl;
  keep2 = λ v b. refl;
  byte1 = λ b. board-lt b.mask1;
  byte2 = λ b. board-lt b.mask2;
}

-- The board with these bytes and all lines masked.
abbrev giving : List ℕ → Board
giving bytes = record { bytes = bytes; mask1 = 0xFF; mask2 = 0xFF }

answer-Sent :
    (v : ℕ) (bytes : List ℕ) → answer v ≡ 0xFA ∷ bytes → Sent board 2 v (giving []) (giving bytes)
unfolding read_status_byte recv_kbd_byte
answer-Sent v bytes e = record {
  polls = 0;
  resends = 0;
  free = giving [];
  taken = ready refl;
  in_time = omega arith;
  acked =
      subst (λ (l : List ℕ). Acked board 2 v 0 (giving l) (giving bytes)) (sym e) (at_once refl);
  few = omega arith;
}

-- One byte is left over from before.
board-Answers : Answers board 2 (giving (0x1C ∷ [])) (giving [])
unfolding read_status_byte recv_kbd_byte write_command_byte disable_p1 disable_p2 enable_p1
    get_good_config_byte
board-Answers = record {
  left = 1;
  polls_config = 0;
  polls_write = 0;
  drained = giving [];
  drains = more (omega arith) (empty refl);
  left_in_time = omega arith;
  asked = giving (0x52 ∷ []);
  config_given = has_byte (omega arith);
  config_in_time = omega arith;
  free = giving [];
  config_taken = ready refl;
  write_in_time = omega arith;
  reset = giving (0xAA ∷ []);
  reset_sent = answer-Sent 0xFF (0xAA ∷ []) refl;
  self_test = refl;
  chosen = giving [];
  choice_sent = answer-Sent 0xF0 [] refl;
  code_sent = answer-Sent 2 [] refl;
}

-- A table without the handler.
abbrev no_handlers : IrqTable
no_handlers i = record { handler = def_irq; arg = 0 }

init-Answers_example :
    (end : Board) × (table' : IrqTable) × (init board 2 0x5000 (giving (0x1C ∷ [])) no_handlers
      ≡ some (ok (end, table')))
    × (is_enabled board kbd_int_num end ≡ ok (true, end))
    × ((i : ℕ)
        → table' i ≡ (
            if i == kbd_int_num
            then record { handler = registered 1; arg = 0x5000 }
            else no_handlers i))
init-Answers_example =
    init-Answers board 2 board-Masks 0x5000 (giving (0x1C ∷ [])) (giving []) no_handlers
      board-Answers
