-- ===== src/Keyboard/Init.antt =====
-- `KBD_init` on a controller and a keyboard that answer.
use skip_os.Common.{
  ℕ, zero, suc, ◌<◌, ◌≡◌, ◌≢◌, refl, ◌∙◌, true, ok, lt→ltb, ◌==◌, ne→==_false, ==_iff,
  if◌then◌else◌, some, arith, bit_and,
}
use skip_os.Ports.{Ports}
use skip_os.Interrupt.{registered, IrqTable, set_handler, enable_index, is_enabled}
use skip_os.Interrupt.Lines.{Masks, set_irq_line_state_lem}
use skip_os.Keyboard.{
  io_p_1, disable_p1, disable_p2, enable_p1, flush_buff, read_status_byte, wait_read_data,
  read_data_byte, write_data_byte, write_command_byte, write_two_command_bytes, read_config_byte,
  write_config_byte, write_good_config_byte, get_good_config_byte, recv_kbd_byte, send_kbd_byte,
  reset_kbd, set_kbd_scan_code_2, register_kbd_isr, init, and_then, read_cfg_cmd, write_cfg_cmd,
  kbd_rst_cmd, kbd_set_scan_code_cmd, kbd_set_scan_code_2_data, kbd_self_test_pass, kbd_int_num,
  output_buff_status_msk, max_kbd_resend,
}
use skip_os.Keyboard.Setup.{Acked, Ready, wait_write_data-ends, send_kbd_byte-Acked}

module _ (ports : Ports) (n : ℕ) where
  open ports use {Device}

  -- The controller has no byte left after `k` bytes were read.
  pub data Drained : ℕ → Device → Device → Type 0 where
    empty :
        {d : Device}
        → bit_and (read_status_byte ports d).0 0x1 ≡ 0
        → Drained 0 d (read_status_byte ports d).1
    more :
        {k : ℕ} {d d' : Device}
        → bit_and (read_status_byte ports d).0 0x1 ≢ 0
        → Drained k (ports.inb io_p_1 (read_status_byte ports d).1).1 d'
        → Drained (suc k) d d'

  flush_buff-ends :
      (k : ℕ) (d d' : Device)
      → Drained k d d'
      → (rounds : ℕ) → k < rounds
      → flush_buff ports rounds d ≡ some (ok d')
  unfolding flush_buff
  flush_buff-ends k d d' r zero h = absurd (omega arith)
  flush_buff-ends zero d d' (empty e) (suc rounds) h =
      rw ((==_iff (bit_and (read_status_byte ports d).0 0x1) 0).1 e) refl
  flush_buff-ends (suc k) d d' (more ne r) (suc rounds) h =
      rw (ne→==_false (bit_and (read_status_byte ports d).0 0x1) 0 ne) (
        flush_buff-ends k (ports.inb io_p_1 (read_status_byte ports d).1).1 d' r rounds
          (omega arith))

  -- The controller has a byte after it was polled `k` times in vain.
  pub data Filled : ℕ → Device → Device → Type 0 where
    has_byte :
        {d : Device}
        → bit_and (read_status_byte ports d).0 output_buff_status_msk ≢ 0
        → Filled 0 d (read_status_byte ports d).1
    not_yet :
        {k : ℕ} {d d' : Device}
        → bit_and (read_status_byte ports d).0 output_buff_status_msk ≡ 0
        → Filled k (read_status_byte ports d).1 d'
        → Filled (suc k) d d'

  wait_read_data-ends :
      (k : ℕ) (d d' : Device)
      → Filled k d d'
      → (polls : ℕ) → k < polls
      → wait_read_data ports polls d ≡ some (ok d')
  unfolding wait_read_data
  wait_read_data-ends k d d' r zero h = absurd (omega arith)
  wait_read_data-ends zero d d' (has_byte ne) (suc polls) h =
      rw (ne→==_false (bit_and (read_status_byte ports d).0 output_buff_status_msk) 0 ne) refl
  wait_read_data-ends (suc k) d d' (not_yet e r) (suc polls) h =
      rw ((==_iff (bit_and (read_status_byte ports d).0 output_buff_status_msk) 0).1 e)
        (wait_read_data-ends k (read_status_byte ports d).1 d' r polls (omega arith))

  -- A byte sent to the keyboard is acknowledged in time.
  pub record Sent (kbd_byte : ℕ) (d d' : Device) : Type 0 where
    pub polls : ℕ
    pub resends : ℕ
    pub free : Device
    pub taken : Ready ports n kbd_byte polls d free
    pub in_time : polls < n
    pub acked : Acked ports n kbd_byte resends (ports.outb io_p_1 kbd_byte free) d'
    pub few : resends < max_kbd_resend

  Sent-returns :
      (kbd_byte : ℕ) (d d' : Device)
      → Sent kbd_byte d d'
      → send_kbd_byte ports n kbd_byte d ≡ some (ok d')
  Sent-returns kbd_byte d d' s =
      send_kbd_byte-Acked ports n kbd_byte s.polls s.resends d s.free d' s.taken s.in_time s.acked
      ∙ rw (lt→ltb s.resends max_kbd_resend s.few) refl

  -- A controller and a keyboard that answer, from the device before `KBD_init` to the one behind the
  -- last byte.
  pub record Answers (d d' : Device) : Type 0 where
    pub left : ℕ
    pub polls_config : ℕ
    pub polls_write : ℕ
    pub drained : Device
    pub drains : Drained left (disable_p2 ports (disable_p1 ports d)) drained
    pub left_in_time : left < n
    pub asked : Device
    pub config_given : Filled polls_config (write_command_byte ports read_cfg_cmd drained) asked
    pub config_in_time : polls_config < n
    pub free : Device
    pub config_taken :
        Ready ports n 0 polls_write
          (write_command_byte ports write_cfg_cmd (ports.inb io_p_1 asked).1)
          free
    pub write_in_time : polls_write < n
    pub reset : Device
    pub chosen : Device
    pub reset_sent :
        Sent kbd_rst_cmd
          (enable_p1 ports
            (ports.outb io_p_1 (get_good_config_byte (ports.inb io_p_1 asked).0) free))
          reset
    pub self_test : (recv_kbd_byte ports reset).0 ≡ kbd_self_test_pass
    pub choice_sent : Sent kbd_set_scan_code_cmd (recv_kbd_byte ports reset).1 chosen
    pub code_sent : Sent kbd_set_scan_code_2_data chosen d'

  config-returns :
      (d d' : Device) (a : Answers d d')
      → write_good_config_byte ports n a.drained
        ≡ some (ok (ports.outb io_p_1 (get_good_config_byte (ports.inb io_p_1 a.asked).0) a.free))
  unfolding write_good_config_byte read_config_byte read_data_byte write_config_byte
      write_two_command_bytes write_data_byte and_then
  config-returns d d' a =
      rw
        (
          wait_read_data-ends a.polls_config (write_command_byte ports read_cfg_cmd a.drained)
              a.asked a.config_given n a.config_in_time,
          wait_write_data-ends ports n 0 a.polls_write
              (write_command_byte ports write_cfg_cmd (ports.inb io_p_1 a.asked).1) a.free
              a.config_taken n a.write_in_time,
        )
        refl

  reset-returns :
      (d d' : Device) (a : Answers d d')
      → reset_kbd ports n (
          enable_p1 ports
            (ports.outb io_p_1 (get_good_config_byte (ports.inb io_p_1 a.asked).0) a.free))
        ≡ some (ok (recv_kbd_byte ports a.reset).1)
  unfolding reset_kbd and_then
  reset-returns d d' a =
      rw
        (
          Sent-returns kbd_rst_cmd
              (enable_p1 ports
                (ports.outb io_p_1 (get_good_config_byte (ports.inb io_p_1 a.asked).0) a.free))
              a.reset a.reset_sent,
          (==_iff (recv_kbd_byte ports a.reset).0 kbd_self_test_pass).1 a.self_test,
        )
        refl

  -- On a keyboard controller and a keyboard that answer within the fuel and with fewer than three
  -- resends of a byte, and on interrupt controllers that give back the mask last written to them,
  -- `KBD_init` returns: the handler is registered with the state, no other handler has changed, and
  -- the keyboard's line is enabled.
  pub init-Answers :
      (masks : Masks ports) (kdb_state_ptr : ℕ) (d d' : Device) (table : IrqTable)
      → Answers d d'
      → (end : Device) × (table' : IrqTable) × (init ports n kdb_state_ptr d table
          ≡ some (ok (end, table')))
        × (is_enabled ports kbd_int_num end ≡ ok (true, end))
        × ((i : ℕ)
            → table' i ≡ (
                if i == kbd_int_num
                then record { handler = registered 1; arg = kdb_state_ptr }
                else table i))
  unfolding init set_kbd_scan_code_2 and_then register_kbd_isr set_handler enable_index
  init-Answers masks kdb_state_ptr d d' table a =
      let (end, line, lines) =
        set_irq_line_state_lem ports masks kbd_int_num true d' (omega arith) in
      (
        end,
        register_kbd_isr ports kdb_state_ptr table,
        rw
            (
              init,
              flush_buff-ends a.left (disable_p2 ports (disable_p1 ports d)) a.drained a.drains n
                  a.left_in_time,
              config-returns d d' a,
              reset-returns d d' a,
              Sent-returns kbd_set_scan_code_cmd (recv_kbd_byte ports a.reset).1 a.chosen
                  a.choice_sent,
              Sent-returns kbd_set_scan_code_2_data a.chosen d' a.code_sent,
              line,
            )
            refl,
        lines kbd_int_num (omega arith),
        λ i. refl,
      )
