-- ===== src/Keyboard.antt =====
-- The keyboard, core/src/keyboard.c: the set-up of the PS/2 controller and of the keyboard over the
-- ports, and the handler that turns scan codes into edits of the screen.
pub mod Keys
pub mod Stream
pub mod Setup
pub mod Init
pub mod Typing
mod Tests
mod BoardTests
use skip_os.Common.{
  ℕ, zero, suc, ◌+◌, Bool, true, false, not, ◌&&◌, ◌||◌, Run, ok, halted, ◌>>=◌, ◌>>◌, assert, ltb,
  ◌==◌, if◌then◌else◌, List, Option, none, some, bit_or, bit_and,
}
use skip_os.Ports.{Ports}
use skip_os.Interrupt.{IrqTable, registered, set_handler, enable_index}
use skip_os.Vga.{Vga, display_char, backspace_char}
use skip_os.ScanCode.{ScodeMapElem, char_from_scode}

abbrev pub max_kbd_resend : ℕ
max_kbd_resend = 3

abbrev pub io_p_1 : ℕ
io_p_1 = 0x60

abbrev pub io_p_2 : ℕ
io_p_2 = 0x64

abbrev pub disable_p1_cmd : ℕ
disable_p1_cmd = 0xAD

abbrev pub disable_p2_cmd : ℕ
disable_p2_cmd = 0xA7

abbrev pub enable_p1_cmd : ℕ
enable_p1_cmd = 0xAE

abbrev pub read_cfg_cmd : ℕ
read_cfg_cmd = 0x20

abbrev pub write_cfg_cmd : ℕ
write_cfg_cmd = 0x60

abbrev pub cntrlr_self_test_cmd : ℕ
cntrlr_self_test_cmd = 0xAA

abbrev pub cntrlr_self_test_pass : ℕ
cntrlr_self_test_pass = 0x55

abbrev pub cntrlr_self_test_fail : ℕ
cntrlr_self_test_fail = 0xFC

abbrev pub output_buff_status_msk : ℕ
output_buff_status_msk = 0x1

abbrev pub input_buff_status_msk : ℕ
input_buff_status_msk = 0x2

abbrev pub kbd_ack_rsp : ℕ
kbd_ack_rsp = 0xFA

abbrev pub kbd_self_test_pass : ℕ
kbd_self_test_pass = 0xAA

abbrev pub kbd_rst_cmd : ℕ
kbd_rst_cmd = 0xFF

abbrev pub kbd_set_scan_code_cmd : ℕ
kbd_set_scan_code_cmd = 0xF0

abbrev pub kbd_set_scan_code_2_data : ℕ
kbd_set_scan_code_2_data = 2

abbrev pub l_shift_scode : ℕ
l_shift_scode = 0x12

abbrev pub r_shift_scode : ℕ
r_shift_scode = 0x59

abbrev pub released_scode : ℕ
released_scode = 0xF0

abbrev pub backspace_scode : ℕ
backspace_scode = 0x66

abbrev pub kbd_int_num : ℕ
kbd_int_num = 0x21

pub record KbdState : Type 0 where
  pub shift_pressed : Bool
  pub prev_scode_release : Bool

-- `kdb_state` at the start.
abbrev pub kdb_state : KbdState
kdb_state = record { shift_pressed = false; prev_scode_release = false }

-- The masks clear bits of a `u8`: `~P2_INT_CFG_MSK` is 0xFD there.
unfoldable pub get_good_config_byte : ℕ → ℕ
get_good_config_byte curr_config_byte =
    let c1 = bit_or curr_config_byte 0x01 in
    let c2 = bit_and c1 0xFD in
    let c3 = bit_and c2 0xEF in let c4 = bit_or c3 0x20 in bit_and c4 0xBF

-- What waits for the controller: `none` is fuel run out, and a run may halt.
unfoldable pub and_then : {A B : Type 0} → Option (Run A) → (A → Option (Run B)) → Option (Run B)
and_then none f = none
and_then (some halted) f = some halted
and_then (some (ok x)) f = f x

module _ (ports : Ports) where
  open ports use {Device, outb, inb}

  unfoldable pub read_status_byte : Device → ℕ × Device
  read_status_byte d = inb io_p_2 d

  unfoldable pub recv_kbd_byte : Device → ℕ × Device
  recv_kbd_byte d = inb io_p_1 d

  unfoldable pub write_command_byte : ℕ → Device → Device
  write_command_byte command_byte d = outb io_p_2 command_byte d

  unfoldable pub disable_p1 : Device → Device
  disable_p1 d = write_command_byte disable_p1_cmd d

  unfoldable pub disable_p2 : Device → Device
  disable_p2 d = write_command_byte disable_p2_cmd d

  unfoldable pub enable_p1 : Device → Device
  enable_p1 d = write_command_byte enable_p1_cmd d

  -- The loops that poll the status run on fuel.
  unfoldable pub flush_buff : ℕ → Device → Option (Run Device)
  flush_buff zero d = none
  flush_buff (suc n) d =
      let (status_byte, d1) = read_status_byte d in
      let rest = flush_buff n (inb io_p_1 d1).1 in
      if bit_and status_byte 0x1 == 0 then some (ok d1) else rest

  unfoldable pub wait_read_data : ℕ → Device → Option (Run Device)
  wait_read_data zero d = none
  wait_read_data (suc n) d =
      let (status_byte, d1) = read_status_byte d in
      let rest = wait_read_data n d1 in
      if bit_and status_byte output_buff_status_msk == 0 then rest else some (ok d1)

  unfoldable pub wait_write_data : ℕ → Device → Option (Run Device)
  wait_write_data zero d = none
  wait_write_data (suc n) d =
      let (status_byte, d1) = read_status_byte d in
      let rest = wait_write_data n d1 in
      if bit_and status_byte input_buff_status_msk == 0 then some (ok d1) else rest

  unfoldable pub read_data_byte : ℕ → Device → Option (Run (ℕ × Device))
  read_data_byte n d = and_then (wait_read_data n d) (λ d1. some (ok (inb io_p_1 d1)))

  unfoldable pub write_data_byte : ℕ → ℕ → Device → Option (Run Device)
  write_data_byte n data_byte d =
      and_then (wait_write_data n d) (λ d1. some (ok (outb io_p_1 data_byte d1)))

  unfoldable pub write_two_command_bytes : ℕ → ℕ → ℕ → Device → Option (Run Device)
  write_two_command_bytes n fst_cmd_byte sec_cmd_byte d =
      write_data_byte n sec_cmd_byte (write_command_byte fst_cmd_byte d)

  unfoldable pub read_config_byte : ℕ → Device → Option (Run (ℕ × Device))
  read_config_byte n d = read_data_byte n (write_command_byte read_cfg_cmd d)

  unfoldable pub write_config_byte : ℕ → ℕ → Device → Option (Run Device)
  write_config_byte n config_byte d = write_two_command_bytes n write_cfg_cmd config_byte d

  unfoldable pub write_good_config_byte : ℕ → Device → Option (Run Device)
  unfolding get_good_config_byte
  write_good_config_byte n d =
      and_then (read_config_byte n d) (λ r. write_config_byte n (get_good_config_byte r.0) r.1)

  unfoldable pub run_controller_self_test : ℕ → Device → Option (Run Device)
  run_controller_self_test n d =
      and_then (read_data_byte n (write_command_byte cntrlr_self_test_cmd d)) (λ r. some (do
        assert (not (r.0 == cntrlr_self_test_fail))
        assert (r.0 == cntrlr_self_test_pass)
        ok r.1))

  -- The loop of `verify_kbd_ack`, with the number of resends so far: it is done when the byte is
  -- acknowledged or has been sent again `MAX_KBD_RESEND` times.
  unfoldable pub resend_loop : ℕ → ℕ → ℕ → ℕ → Device → Option (Run (ℕ × Device))
  resend_loop zero n kbd_sent_byte num_resend d = none
  resend_loop (suc rounds) n kbd_sent_byte num_resend d =
      let (ack_byte, d1) = recv_kbd_byte d in
      let rest =
        and_then (write_data_byte n kbd_sent_byte d1)
          (resend_loop rounds n kbd_sent_byte (num_resend + 1)) in
      if not (ack_byte == kbd_ack_rsp) && ltb num_resend max_kbd_resend
      then rest
      else some (ok (num_resend, d1))

  unfoldable pub verify_kbd_ack : ℕ → ℕ → Device → Option (Run Device)
  unfolding resend_loop
  verify_kbd_ack n kbd_sent_byte d =
      and_then (resend_loop (max_kbd_resend + 1) n kbd_sent_byte 0 d)
        (λ r. some (if r.0 == max_kbd_resend then halted else ok r.1))

  unfoldable pub send_kbd_byte : ℕ → ℕ → Device → Option (Run Device)
  send_kbd_byte n kbd_byte d = and_then (write_data_byte n kbd_byte d) (verify_kbd_ack n kbd_byte)

  unfoldable pub reset_kbd : ℕ → Device → Option (Run Device)
  reset_kbd n d =
      and_then (send_kbd_byte n kbd_rst_cmd d) (λ d1.
        some (do assert ((recv_kbd_byte d1).0 == kbd_self_test_pass); ok (recv_kbd_byte d1).1))

  unfoldable pub set_kbd_scan_code_2 : ℕ → Device → Option (Run Device)
  set_kbd_scan_code_2 n d =
      and_then (send_kbd_byte n kbd_set_scan_code_cmd d) (send_kbd_byte n kbd_set_scan_code_2_data)

  -- The handler is number 1 of those that other parts register, with the address of `kdb_state`.
  unfoldable pub register_kbd_isr : ℕ → IrqTable → IrqTable
  register_kbd_isr kdb_state_ptr table = set_handler kbd_int_num (registered 1) kdb_state_ptr table

  -- `KBD_init`
  unfoldable pub init : ℕ → ℕ → Device → IrqTable → Option (Run (Device × IrqTable))
  init n kdb_state_ptr d table = and_then (flush_buff n (disable_p2 (disable_p1 d))) (λ d1.
      and_then (write_good_config_byte n d1) (λ d2. and_then (reset_kbd n (enable_p1 d2)) (λ d3.
        and_then (set_kbd_scan_code_2 n d3) (λ d4. some (do
          d5 ← enable_index ports kbd_int_num d4
          ok (d5, register_kbd_isr kdb_state_ptr table))))))

-- What the handler does with a scan code. `behind` stands behind the map of scan codes.
unfoldable pub handle_scode : List ScodeMapElem → ℕ → KbdState → Vga → Run (KbdState × Vga)
handle_scode behind s state vga =
    let is_shift = s == l_shift_scode || s == r_shift_scode in
    if state.prev_scode_release
    then ok (
      record state {
        prev_scode_release = false;
        shift_pressed = if is_shift then false else state.shift_pressed;
      },
      vga,
    )
    else if is_shift
    then ok (record state { shift_pressed = true }, vga)
    else if s == released_scode
    then ok (record state { prev_scode_release = true }, vga)
    else if s == backspace_scode
    then (do vga1 ← backspace_char vga; ok (state, vga1))
    else if not (s == kbd_ack_rsp)
    then (do
      vga1 ← display_char (char_from_scode behind s state.shift_pressed) vga
      ok (state, vga1))
    else ok (state, vga)

-- `kbd_isr_handler`: `arg` is the state it is registered with.
unfoldable pub kbd_isr_handler :
    (ports : Ports)
    → List ScodeMapElem
    → ℕ
    → KbdState × Vga × ports.Device
    → Run (KbdState × Vga × ports.Device)
kbd_isr_handler ports behind irq_num (state, vga, d) =
    let (s, d1) = recv_kbd_byte ports d in
    do
      assert (irq_num == kbd_int_num)
      (state1, vga1) ← handle_scode behind s state vga
      ok (state1, vga1, d1)
