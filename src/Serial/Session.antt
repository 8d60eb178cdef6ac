-- ===== src/Serial/Session.antt =====
-- Any sequence of writes, flushes and interrupts of the serial port: what was sent and what waits.
use skip_os.Common.{
  ℕ, ◌+◌, ◌/◌, ◌%◌, ◌≡◌, refl, sym, ap, ◌∙◌, subst, Bool, true, false, Run, ok, List, [], ◌∷◌, ◌++◌,
  append_assoc, append-nil, take, ◌==◌, Option, some, Bool-cases, inl, inr,
}
use mathlib.Core.Path.{ap₂}
use skip_os.Ports.{Ports}
use skip_os.Serial.{
  com1_irq_num, com1_iop, write_ser_reg, read_ser_reg, tran_offset, iir_offset, lsr_offset, Machine,
  write, flush, ser_irq_handler,
}
use skip_os.Serial.Queue.{IsValid, contents}
use skip_os.Serial.Output.{
  room, transmit, transmit_all, flush-all, Started, started, status, init_hw_write-started,
  write-started, set_busy-IsValid, set_busy-contents,
}

-- A device that logs the bytes written to the transmitter; a read leaves the log as it is.
pub record Logs (ports : Ports) : Type 0 where
  pub log : ports.Device → List ℕ
  pub sent :
      (v : ℕ) (d : ports.Device) → log (ports.outb (com1_iop + tran_offset) v d) ≡ log d ++ v ∷ []
  pub kept : (p : ℕ) (d : ports.Device) → log (ports.inb p d).1 ≡ log d

module _ (ports : Ports) (device : Logs ports) where
  open ports use {Device}

  -- What was sent, and behind it what waits.
  abbrev pub stream : Machine ports → List ℕ
  stream m = device.log m.device ++ contents m.ser

  transmit-log : (v : ℕ) (d : Device) → device.log (transmit ports v d) ≡ device.log d ++ v ∷ []
  unfolding write_ser_reg
  transmit-log v d = device.sent v d

  transmit_all-log :
      (xs : List ℕ) (d : Device) → device.log (transmit_all ports xs d) ≡ device.log d ++ xs
  unfolding transmit_all
  transmit_all-log [] d = sym (append-nil (device.log d))
  transmit_all-log (x ∷ xs) d =
      transmit_all-log xs (transmit ports x d)
      ∙ ap (λ l. l ++ xs) (transmit-log x d)
      ∙ append_assoc (device.log d) (x ∷ []) xs

  -- Starting the output moves a byte from the queue to the log.
  started-log :
      (b : Bool) (q : List ℕ) (d : Device)
      → device.log (started ports b q d).1 ++ (started ports b q d).0 ≡ device.log d ++ q
  started-log true q d = refl
  started-log false [] d = refl
  started-log false (x ∷ xs) d =
      ap (λ l. l ++ xs) (transmit-log x d) ∙ append_assoc (device.log d) (x ∷ []) xs

  status-log : (busy : Bool) (d : Device) → device.log (status ports busy d).1 ≡ device.log d
  status-log true d = device.kept 0x3FD d
  status-log false d = refl

  -- A call, and the bytes that it takes.
  pub data Call (m m' : Machine ports) : List ℕ → Type 0 where
    wrote :
        (buff : List ℕ) → write ports buff m ≡ ok m' → Call m m' (take (room (contents m.ser)) buff)
    flushed : flush ports m ≡ some (ok m') → Call m m' []
    interrupted : ser_irq_handler ports com1_irq_num m ≡ ok m' → Call m m' []

  pub data Calls (m : Machine ports) : Machine ports → List ℕ → Type 0 where
    here : Calls m m []
    next :
        {m1 m2 : Machine ports} {xs ys : List ℕ}
        → Calls m m1 xs
        → Call m1 m2 ys
        → Calls m m2 (xs ++ ys)

  read-log : (offset : ℕ) (d : Device) → device.log (read_ser_reg ports offset d).1 ≡ device.log d
  unfolding read_ser_reg
  read-log offset d = device.kept (com1_iop + offset) d

  -- The output started keeps the stream.
  started-stream :
      (q : List ℕ) (busy : Bool) (d : Device) (c : List ℕ) (d' : Device) (b : Bool)
      → Path
          (Started ports)
          (c, d', b)
          (started ports (status ports busy d).0 q (status ports busy d).1)
      → device.log d' ++ c ≡ device.log d ++ q
  started-stream q busy d c d' b e =
      ap (λ (t : Started ports). device.log t.1 ++ t.0) e
      ∙ started-log (status ports busy d).0 q (status ports busy d).1
      ∙ ap (λ l. l ++ q) (status-log busy d)

  -- The interrupt handler returns, and keeps the stream.
  pub irq-keeps :
      (m : Machine ports)
      → IsValid m.ser
      → (m' : Machine ports) × (ser_irq_handler ports com1_irq_num m ≡ ok m')
        × IsValid m'.ser
        × (stream m' ≡ stream m)
  unfolding ser_irq_handler
  irq-keeps m v =
      let iir = read_ser_reg ports iir_offset m.device in
      let log1 = read-log iir_offset m.device in
      elim (Bool-cases (iir.0 / 2 % 256 == 3)) [
        | inl line ↦ (
          record m { device = (read_ser_reg ports lsr_offset iir.1).1 },
          rw line refl,
          v,
          ap (λ l. l ++ contents m.ser) (read-log lsr_offset iir.1 ∙ log1),
        )
        | inr other ↦ elim (Bool-cases (iir.0 / 2 % 256 == 1)) [
          | inl sent ↦
              let idle = record m.ser { busy = false } in
              let (s', d', run, v', q') =
                init_hw_write-started ports m.rflags idle iir.1 (set_busy-IsValid false m.ser v) in
              (
                record m { ser = s'; device = d' },
                rw (other, sent, run) refl,
                v',
                started-stream (contents idle) false iir.1 (contents s') d' s'.busy q'
                    ∙ ap₂ (λ l q. l ++ q) log1 (set_busy-contents false m.ser),
              )
          | inr ignored ↦ (
            record m { device = iir.1 },
            rw (other, ignored) refl,
            v,
            ap (λ l. l ++ contents m.ser) log1,
          )
        ]
      ]

  -- A call keeps the ring valid, and puts the bytes that it takes at the end of the stream.
  Call-stream :
      (m m' : Machine ports) (xs : List ℕ)
      → Call m m' xs
      → IsValid m.ser
      → IsValid m'.ser × (stream m' ≡ stream m ++ xs)
  Call-stream m m' xs (wrote buff run) v =
      let taken = take (room (contents m.ser)) buff in
      let (m1, run1, v1, e, f) = write-started ports buff m v in
      let both : Path (Run (Machine ports)) (ok m1) (ok m') = sym run1 ∙ run in
      let same : m1 ≡ m' = cc in
      subst (λ (t : Machine ports). IsValid t.ser × (stream t ≡ stream m ++ taken)) same
        (
          v1,
          started-stream (contents m.ser ++ taken) m.ser.busy m.device (contents m1.ser) m1.device
                m1.ser.busy e
              ∙ sym (append_assoc (device.log m.device) (contents m.ser) taken),
        )
  Call-stream m m' xs (flushed run) v =
      let (m1, run1, v1, none_left, idle, sent, f) = flush-all ports m v in
      let both : Path (Option (Run (Machine ports))) (some (ok m1)) (some (ok m')) =
        sym run1 ∙ run in
      let same : m1 ≡ m' = cc in
      subst (λ (t : Machine ports). IsValid t.ser × (stream t ≡ stream m ++ [])) same
        (
          v1,
          ap₂ (λ d q. device.log d ++ q) sent none_left
              ∙ append-nil (device.log (transmit_all ports (contents m.ser) m.device))
              ∙ transmit_all-log (contents m.ser) m.device
              ∙ sym (append-nil (stream m)),
        )
  Call-stream m m' xs (interrupted run) v =
      let (m1, run1, v1, e) = irq-keeps m v in
      let both : Path (Run (Machine ports)) (ok m1) (ok m') = sym run1 ∙ run in
      let same : m1 ≡ m' = cc in
      subst (λ (t : Machine ports). IsValid t.ser × (stream t ≡ stream m ++ [])) same
        (v1, e ∙ sym (append-nil (stream m)))

  -- However writes, flushes and interrupts of the port follow one another, from a valid ring: no byte
  -- that was taken is lost, sent twice or moved before another. What was sent, with what waits behind
  -- it, is what it was at first, with the bytes taken since then in the order of the calls.
  pub Calls-stream :
      (m m' : Machine ports) (xs : List ℕ)
      → IsValid m.ser
      → Calls m m' xs
      → IsValid m'.ser × (stream m' ≡ stream m ++ xs)
  Calls-stream m m' xs v here = (v, sym (append-nil (stream m)))
  Calls-stream m m' xs v (next {m1 = m1} {xs = ys} {ys = zs} before call) =
      let (v1, e1) = Calls-stream m m1 ys v before in
      let (v2, e2) = Call-stream m1 m' zs call v1 in
      (v2, e2 ∙ ap (λ l. l ++ zs) e1 ∙ append_assoc (stream m) ys zs)
