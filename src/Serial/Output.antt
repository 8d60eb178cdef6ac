-- ===== src/Serial/Output.antt =====
-- What `SER_write` and `SER_flush` leave waiting, and what they send to the device.
use skip_os.Common.{
  ℕ, zero, suc, ◌-◌, ◌≤◌, ◌<◌, ◌≡◌, refl, sym, ap, ◌∙◌, subst, Bool, true, false, Run, ok, ◌>>=◌,
  List, [], ◌∷◌, ◌++◌, append_assoc, append-nil, arith, length, length-append, take, if◌then◌else◌,
  ltb, ◌==◌, lt→ltb, Option, none, some, Bool-cases, inl, inr, bit_and,
}
use mathlib.Core.Path.{ap₂}
use skip_os.Ports.{Ports}
use skip_os.Interrupt.Lines.{never_enabled}
use skip_os.Serial.{
  SerState, buff_size, consume, produce_all, write_ser_reg, read_ser_reg, tran_offset, poll_busy,
  mask_ints, restore_ints, send_out, start_write, init_hw_write, Machine, write, flush_loop, flush,
}
use skip_os.Serial.Queue.{IsValid, count, contents, length-contents, count-lt}
use skip_os.Serial.Refine.{capacity, oldest, others, offer, produce-offer, consume-oldest}

-- The room left in a queue.
abbrev pub room : List ℕ → ℕ
room q = capacity - length q

offer-take :
    (q : List ℕ) (x : ℕ) (xs : List ℕ)
    → length q < capacity
    → offer q x ++ take (room (offer q x)) xs ≡ q ++ take (room q) (x ∷ xs)
offer-take q x xs h =
    let one_less : room q ≡ suc (room (q ++ x ∷ [])) = omega (arith, length-append q (x ∷ [])) in
    rw (lt→ltb (length q) capacity h) (
      append_assoc q (x ∷ []) (take (room (q ++ x ∷ [])) xs)
      ∙ ap (λ (k : ℕ). q ++ take k (x ∷ xs)) (sym one_less))

no-room : (q xs : List ℕ) → capacity ≤ length q → q ≡ q ++ take (room q) xs
no-room q xs h =
    let none_left : room q ≡ 0 = omega arith in
    sym (ap (λ (k : ℕ). q ++ take k xs) none_left ∙ append-nil q)

take-nil : (n : ℕ) → take {A = ℕ} n [] ≡ []
take-nil zero = refl
take-nil (suc n) = refl

-- The loop of `SER_write` appends the bytes that fit, in order, and drops the others.
pub produce_all-take :
    (rflags : ℕ) (xs : List ℕ) (s : SerState)
    → IsValid s
    → (s' : SerState) × (produce_all rflags xs s ≡ ok s')
      × IsValid s'
      × (contents s' ≡ contents s ++ take (room (contents s)) xs)
      × (s'.busy ≡ s.busy)
unfolding produce_all
produce_all-take rflags [] s v =
    (s, refl, v, rw (take-nil (room (contents s)), append-nil (contents s)), refl)
produce_all-take rflags (x ∷ xs) s v =
    let (s1, e1, v1, q1, b1) = produce-offer rflags s v x in
    elim (Bool-cases (ltb (length (contents s)) capacity)) [
      | inl fits ↦
          let (s2, e2, v2, q2, b2) = produce_all-take rflags xs s1 v1 in
          (
            s2,
            rw (e1, fits) e2,
            v2,
            q2 ∙ rw q1 (offer-take (contents s) x xs (ground arith)),
            b2 ∙ b1,
          )
      | inr full ↦ (
        s1,
        rw (e1, full) refl,
        v1,
        q1 ∙ rw full (no-room (contents s) (x ∷ xs) (ground arith)),
        b1,
      )
    ]

pub set_busy-IsValid : (b : Bool) (s : SerState) → IsValid s → IsValid (record s { busy = b })
set_busy-IsValid b s v = record { storage = v.storage; c_in = v.c_in; p_in = v.p_in }

pub set_busy-contents : (b : Bool) (s : SerState) → contents (record s { busy = b }) ≡ contents s
unfolding contents count
set_busy-contents b s = refl

-- The critical section is entered and left with the flags register as it was.
never_masked : (rflags : ℕ) → (mask_ints rflags ≡ rflags) × (restore_ints rflags ≡ rflags)
unfolding mask_ints restore_ints
never_masked rflags = rw (never_enabled rflags) (refl, refl)

module _ (ports : Ports) where
  open ports use {Device, inb}

  -- One byte goes to the transmitter.
  abbrev pub transmit : ℕ → Device → Device
  transmit = write_ser_reg ports tran_offset

  unfoldable pub transmit_all : List ℕ → Device → Device
  transmit_all [] d = d
  transmit_all (x ∷ xs) d = transmit_all xs (transmit x d)

  flush_loop-all :
      (q : List ℕ) (n rflags : ℕ) (s : SerState) (d : Device)
      → IsValid s
      → contents s ≡ q
      → length q < n
      → (s' : SerState) × (flush_loop ports n rflags s d ≡ some (ok (s', transmit_all q d)))
        × IsValid s'
        × (contents s' ≡ [])
  unfolding flush_loop transmit_all
  flush_loop-all q zero rflags s d v e h = absurd (omega arith)
  flush_loop-all [] (suc n) rflags s d v e h =
      let (s1, e1, v1, q1, b1) = consume-oldest rflags s v in
      let e1' : consume rflags s ≡ ok (none, s1) =
        subst (λ (q : List ℕ). consume rflags s ≡ ok (oldest q, s1)) e e1 in
      (s1, rw (e1', flush_loop), v1, q1 ∙ ap others e)
  flush_loop-all (x ∷ xs) (suc n) rflags s d v e h =
      let (s1, e1, v1, q1, b1) = consume-oldest rflags s v in
      let e1' : consume rflags s ≡ ok (some x, s1) =
        subst (λ (q : List ℕ). consume rflags s ≡ ok (oldest q, s1)) e e1 in
      let (s2, e2, v2, q2) =
        flush_loop-all xs n rflags s1 (transmit x d) v1 (q1 ∙ ap others e) (omega arith) in
      (s2, rw (e1', flush_loop) e2, v2, q2)

  -- From a valid ring `SER_flush` ends, sends every waiting byte in order, leaves the ring empty and not busy, and
  -- leaves the flags register with the value it had before.
  pub flush-all :
      (m : Machine ports)
      → IsValid m.ser
      → (m' : Machine ports) × (flush ports m ≡ some (ok m'))
        × IsValid m'.ser
        × (contents m'.ser ≡ [])
        × (m'.ser.busy ≡ false)
        × (m'.device ≡ transmit_all (contents m.ser) m.device)
        × (m'.rflags ≡ m.rflags)
  unfolding flush
  flush-all m v =
      let (s', e, v', q) =
        flush_loop-all (contents m.ser) buff_size m.rflags m.ser m.device v refl
          (rw (length-contents m.ser) (count-lt m.ser v)) in
      let (masked, restored) = never_masked m.rflags in
      (
        record {
          ser = record s' { busy = false };
          device = transmit_all (contents m.ser) m.device;
          rflags = m.rflags;
        },
        rw (masked, e, restored),
        set_busy-IsValid false s' v',
        set_busy-contents false s' ∙ q,
        refl,
        refl,
        refl,
      )

  -- What `init_hw_write` makes of the waiting bytes and the device: nothing at a transmitter that is
  -- still at work, else the oldest byte goes out.
  abbrev pub Started : Type 0
  Started = List ℕ × Device × Bool

  abbrev pub started : Bool → List ℕ → Device → Started
  started true q d = (q, d, true)
  started false [] d = ([], d, false)
  started false (x ∷ xs) d = (xs, transmit x d, true)

  -- The line status of a busy port, and the device after it was read.
  abbrev pub status : Bool → Device → Bool × Device
  status busy d = if busy then (bit_and (inb 0x3FD d).0 32 == 0, (inb 0x3FD d).1) else (false, d)

  send_out-started :
      (q : List ℕ) (s : SerState) (d : Device)
      → IsValid s
      → contents s ≡ others q
      → s.busy ≡ false
      → let (s', d') = send_out ports (oldest q, s) d in
        IsValid s' × ◌≡◌ {A = Started} (contents s', d', s'.busy) (started false q d)
  unfolding send_out
  send_out-started [] s d v e b = (v, ap₂ (λ (l : List ℕ) (k : Bool). (l, d, k)) e b)
  send_out-started (x ∷ xs) s d v e b = (
    set_busy-IsValid true s v,
    ap (λ (l : List ℕ). (l, transmit x d, true)) (set_busy-contents true s ∙ e),
  )

  start_write-started :
      (rflags : ℕ) (s : SerState) (d : Device)
      → IsValid s
      → (s' : SerState) × (d' : Device) × (start_write ports rflags s d ≡ ok (s', d'))
        × IsValid s'
        × ◌≡◌ {A = Started} (contents s', d', s'.busy) (started s.busy (contents s) d)
  unfolding start_write
  start_write-started rflags s d v = elim (Bool-cases s.busy) [
    | inl busy ↦ (s, d, rw busy, v, rw busy)
    | inr idle ↦
        let (s1, e1, v1, q1, b1) = consume-oldest rflags s v in
        let r = send_out-started (contents s) s1 d v1 q1 (b1 ∙ idle) in
        let (s2, d2) = send_out ports (oldest (contents s), s1) d in
        (
          s2,
          d2,
          ap
                (λ (b : Bool).
                  if b then ok (s, d) else (consume rflags s >>= λ k. ok (send_out ports k d)))
                idle
              ∙ ap (λ (k : Run (Option ℕ × SerState)). k >>= λ t. ok (send_out ports t d)) e1,
          r.0,
          r.1 ∙ ap (λ (b : Bool). started b (contents s) d) (sym idle),
        )
  ]

  poll_busy-parts :
      (buff : List ℕ) (c p : ℕ) (b : Bool) (d : Device)
      → let s : SerState = record { buff = buff; c = c; p = p; busy = b } in
        poll_busy ports s d ≡ (record s { busy = (status s.busy d).0 }, (status s.busy d).1)
  unfolding poll_busy read_ser_reg
  poll_busy-parts buff c p true d = refl
  poll_busy-parts buff c p false d = refl

  -- `init_hw_write` starts the output if the transmitter is free.
  pub init_hw_write-started :
      (rflags : ℕ) (s : SerState) (d : Device)
      → IsValid s
      → (s' : SerState) × (d' : Device) × (init_hw_write ports rflags s d ≡ ok (s', d'))
        × IsValid s'
        × ◌≡◌ {A = Started}
            (contents s', d', s'.busy)
            (started (status s.busy d).0 (contents s) (status s.busy d).1)
  unfolding init_hw_write
  init_hw_write-started rflags s d v =
      let b = (status s.busy d).0 in
      let (s', d', e', v', q') =
        start_write-started rflags (record s { busy = b }) (status s.busy d).1
          (set_busy-IsValid b s v) in
      (
        s',
        d',
        rw (poll_busy-parts s.buff s.c s.p s.busy d) e',
        v',
        q' ∙ ap (λ (l : List ℕ). started b l (status s.busy d).1) (set_busy-contents b s),
      )

  -- From a valid ring `SER_write` returns. It appends the bytes that fit in the ring, in order, and drops the others;
  -- then, if the transmitter is free, the oldest waiting byte goes out. The flags register has
  -- the value it had before.
  pub write-started :
      (buff : List ℕ) (m : Machine ports)
      → IsValid m.ser
      → (m' : Machine ports) × (write ports buff m ≡ ok m')
        × IsValid m'.ser
        × ◌≡◌ {A = Started}
            (contents m'.ser, m'.device, m'.ser.busy)
            (started
              (status m.ser.busy m.device).0
              (contents m.ser ++ take (room (contents m.ser)) buff)
              (status m.ser.busy m.device).1)
        × (m'.rflags ≡ m.rflags)
  unfolding write
  write-started buff m v =
      let (s1, e1, v1, q1, b1) = produce_all-take m.rflags buff m.ser v in
      let (s2, d2, e2, v2, q2) = init_hw_write-started m.rflags s1 m.device v1 in
      let (masked, restored) = never_masked m.rflags in
      (
        record { ser = s2; device = d2; rflags = m.rflags },
        rw (masked, e1, e2, restored) refl,
        v2,
        q2
            ∙ ap₂ (λ (b : Bool) (l : List ℕ). started (status b m.device).0 l (status b m.device).1)
                b1 q1,
        refl,
      )
