-- ===== src/Keyboard/Setup.antt =====
-- The set-up of the keyboard: the configuration byte, and the bytes that are sent again.
use skip_os.Common.{
  bit_and, ℕ, zero, suc, ◌+◌, ◌/◌, ◌%◌, ◌≤◌, ◌<◌, ◌≡◌, ◌≢◌, refl, ap, ◌∙◌, inl, inr, Bool, true,
  false, ◌&&◌, ok, halted, ltb, lt→ltb, ◌==◌, ne→==_false, ==_iff, if◌then◌else◌, Bool-cases, some,
  arith, table_holds, table_lookup,
}
use native.Mathlib.Decide.{dec_lt}
use skip_os.Ports.{Ports}
use skip_os.Keyboard.{
  get_good_config_byte, and_then, recv_kbd_byte, write_data_byte, resend_loop, verify_kbd_ack,
  send_kbd_byte, read_status_byte, wait_write_data, input_buff_status_msk, io_p_1, kbd_ack_rsp,
  max_kbd_resend,
}

abbrev good : ℕ → Bool
good c =
    let r = get_good_config_byte c in
    ltb r 256
    && (r % 2 == 1
        && (r / 2 % 2 == 0
            && (r / 16 % 2 == 0
                && (r / 32 % 2 == 1
                    && (r / 64 % 2 == 0 && (r / 4 % 4 == c / 4 % 4 && r / 128 == c / 128))))))

good_table : table_holds good 256 ≡ true
unfolding table_holds get_good_config_byte
good_table = refl

-- The configuration byte that is written is a byte; it has the first port's interrupt on and the
-- second's off, the first clock on and the second off, and no translation; bits 2, 3 and 7 are those
-- that were read.
pub get_good_config_byte-bits :
    (c : ℕ)
    → c < 256
    → (get_good_config_byte c < 256)
      × (get_good_config_byte c % 2 ≡ 1)
      × (get_good_config_byte c / 2 % 2 ≡ 0)
      × (get_good_config_byte c / 16 % 2 ≡ 0)
      × (get_good_config_byte c / 32 % 2 ≡ 1)
      × (get_good_config_byte c / 64 % 2 ≡ 0)
      × (get_good_config_byte c / 4 % 4 ≡ c / 4 % 4)
      × (get_good_config_byte c / 128 ≡ c / 128)
get_good_config_byte-bits c h = let all = table_lookup good 256 good_table c h in ground arith

module _ (ports : Ports) (n kbd_sent_byte : ℕ) where
  open ports use {Device}

  -- The keyboard acknowledges a byte after it was sent again `k` times.
  pub data Acked : ℕ → Device → Device → Type 0 where
    at_once :
        {d : Device} → (recv_kbd_byte ports d).0 ≡ kbd_ack_rsp → Acked 0 d (recv_kbd_byte ports d).1
    resent :
        {k : ℕ} {d d2 d' : Device}
        → (recv_kbd_byte ports d).0 ≢ kbd_ack_rsp
        → write_data_byte ports n kbd_sent_byte (recv_kbd_byte ports d).1 ≡ some (ok d2)
        → Acked k d2 d'
        → Acked (suc k) d d'

  resend_step :
      (rounds j : ℕ) (d d2 : Device)
      → (recv_kbd_byte ports d).0 ≢ kbd_ack_rsp
      → j < max_kbd_resend
      → write_data_byte ports n kbd_sent_byte (recv_kbd_byte ports d).1 ≡ some (ok d2)
      → resend_loop ports (suc rounds) n kbd_sent_byte j d
        ≡ resend_loop ports rounds n kbd_sent_byte (j + 1) d2
  unfolding resend_loop and_then
  resend_step rounds j d d2 ne lt sent =
      rw (ne→==_false (recv_kbd_byte ports d).0 kbd_ack_rsp ne, lt→ltb j max_kbd_resend lt, sent)
        refl

  resend_stop :
      (rounds : ℕ) (d : Device)
      → resend_loop ports (suc rounds) n kbd_sent_byte max_kbd_resend d
        ≡ some (ok (max_kbd_resend, (recv_kbd_byte ports d).1))
  unfolding resend_loop
  resend_stop rounds d = elim (Bool-cases ((recv_kbd_byte ports d).0 == kbd_ack_rsp)) [
    | inl ack ↦ rw ack refl
    | inr other ↦ rw other refl
  ]

  early_loop :
      (k : ℕ) (d d' : Device)
      → Acked k d d'
      → (rounds j : ℕ) → j + k < max_kbd_resend
      → k < rounds
      → resend_loop ports rounds n kbd_sent_byte j d ≡ some (ok (j + k, d'))
  unfolding resend_loop
  early_loop k d d' a zero j h lt = absurd (omega arith)
  early_loop zero d d' (at_once ack) (suc rounds) j h lt =
      rw ((==_iff (recv_kbd_byte ports d).0 kbd_ack_rsp).1 ack)
        (ap (λ z. some (ok (z, (recv_kbd_byte ports d).1))) (omega arith))
  early_loop (suc k) d d' (resent {d2 = d2} ne sent a) (suc rounds) j h lt =
      resend_step rounds j d d2 ne (omega arith) sent
      ∙ early_loop k d2 d' a rounds (j + 1) (omega arith) (omega arith)
      ∙ ap (λ z. some (ok (z, d'))) (omega arith)

  late_loop :
      (k : ℕ) (d d' : Device)
      → Acked k d d'
      → (rounds j : ℕ) → max_kbd_resend ≤ j + k
      → j ≤ max_kbd_resend
      → max_kbd_resend < rounds + j
      → (last : Device) × (resend_loop ports rounds n kbd_sent_byte j d
          ≡ some (ok (max_kbd_resend, last)))
  unfolding resend_loop
  late_loop k d d' a zero j h le lt = absurd (omega arith)
  late_loop zero d d' a (suc rounds) j h le lt =
      let full : j ≡ max_kbd_resend = omega arith in
      (
        (recv_kbd_byte ports d).1,
        ap (λ i. resend_loop ports (suc rounds) n kbd_sent_byte i d) full ∙ resend_stop rounds d,
      )
  late_loop (suc k) d d' (resent {d2 = d2} ne sent a) (suc rounds) j h le lt =
      elim (dec_lt j max_kbd_resend) [
        | yes more ↦
            let (last, run) =
              late_loop k d2 d' a rounds (j + 1) (omega arith) (omega arith) (omega arith) in
            (last, resend_step rounds j d d2 ne more sent ∙ run)
        | no no_more ↦
            let full : j ≡ max_kbd_resend = omega arith in
            (
              (recv_kbd_byte ports d).1,
              ap (λ i. resend_loop ports (suc rounds) n kbd_sent_byte i d) full
                  ∙ resend_stop rounds d,
            )
      ]

  -- A byte that is acknowledged after fewer than three resends is accepted; otherwise the machine
  -- stops, also when the acknowledge comes with the third resend.
  pub verify_kbd_ack-Acked :
      (k : ℕ) (d d' : Device)
      → Acked k d d'
      → verify_kbd_ack ports n kbd_sent_byte d
        ≡ some (if ltb k max_kbd_resend then ok d' else halted)
  unfolding verify_kbd_ack and_then
  verify_kbd_ack-Acked k d d' a = elim (dec_lt k max_kbd_resend) [
    | yes early ↦
        let run = early_loop k d d' a 4 0 (omega arith) (omega arith) in
        rw
          (
            run,
            lt→ltb k max_kbd_resend early,
            ne→==_false (0 + k) max_kbd_resend (λ e. omega arith),
          )
          refl
    | no late ↦
        let (last, run) = late_loop k d d' a 4 0 (omega arith) (omega arith) (omega arith) in
        let not_early : ltb k max_kbd_resend ≡ false = ground arith in rw (run, not_early) refl
  ]

  -- The controller takes a byte after it was polled `k` times in vain.
  pub data Ready : ℕ → Device → Device → Type 0 where
    ready :
        {d : Device}
        → bit_and (read_status_byte ports d).0 input_buff_status_msk ≡ 0
        → Ready 0 d (read_status_byte ports d).1
    full :
        {k : ℕ} {d d' : Device}
        → bit_and (read_status_byte ports d).0 input_buff_status_msk ≢ 0
        → Ready k (read_status_byte ports d).1 d'
        → Ready (suc k) d d'

  pub wait_write_data-ends :
      (k : ℕ) (d d' : Device)
      → Ready k d d'
      → (polls : ℕ) → k < polls
      → wait_write_data ports polls d ≡ some (ok d')
  unfolding wait_write_data
  wait_write_data-ends k d d' r zero h = absurd (omega arith)
  wait_write_data-ends zero d d' (ready free) (suc polls) h =
      rw ((==_iff (bit_and (read_status_byte ports d).0 input_buff_status_msk) 0).1 free) refl
  wait_write_data-ends (suc k) d d' (full taken r) (suc polls) h =
      rw (ne→==_false (bit_and (read_status_byte ports d).0 input_buff_status_msk) 0 taken)
        (wait_write_data-ends k (read_status_byte ports d).1 d' r polls (omega arith))

  -- A byte sent to a controller that takes it after fewer polls than there is fuel, and to a keyboard
  -- that acknowledges it after `j` resends: it is accepted when these are fewer than three, and
  -- otherwise the machine stops, also when the acknowledge comes with the third resend.
  pub send_kbd_byte-Acked :
      (k j : ℕ) (d d1 d' : Device)
      → Ready k d d1
      → k < n
      → Acked j (ports.outb io_p_1 kbd_sent_byte d1) d'
      → send_kbd_byte ports n kbd_sent_byte d
        ≡ some (if ltb j max_kbd_resend then ok d' else halted)
  unfolding send_kbd_byte write_data_byte and_then
  send_kbd_byte-Acked k j d d1 d' r h a =
      rw (send_kbd_byte, write_data_byte, wait_write_data-ends k d d1 r n h)
        (verify_kbd_ack-Acked j (ports.outb io_p_1 kbd_sent_byte d1) d' a)
