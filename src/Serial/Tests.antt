-- ===== src/Serial/Tests.antt =====
-- The serial port with two waiting bytes.
use skip_os.Common.{
  ℕ, ◌+◌, ◌≡◌, refl, false, ok, some, [], ◌∷◌, ◌++◌, ap, arith, length, replicate, length-replicate,
  take, ltb, List, if◌then◌else◌, ◌==◌,
}
use skip_os.Ports.{Ports, latches}
use skip_os.Serial.{
  SerState, Machine, produce, write, flush, advance, ser_irq_handler, com1_irq_num,
}
use skip_os.Serial.Queue.{IsValid, contents, count}
use skip_os.Serial.Refine.{capacity, offer, produce-offer}
use skip_os.Serial.Output.{room, transmit_all, Started, started, status, flush-all, write-started}
use skip_os.Serial.Session.{
  Logs, stream, Calls, here, next, wrote, interrupted, irq-keeps, Calls-stream,
}

abbrev waiting : SerState
waiting = record { buff = b'o' ∷ b'k' ∷ replicate 1022 0; c = 0; p = 2; busy = false }

waiting-IsValid : IsValid waiting
waiting-IsValid = record {
  storage = ap (λ (n : ℕ). 2 + n) (length-replicate {A = ℕ} 1022 0);
  c_in = omega arith;
  p_in = omega arith;
}

abbrev machine : Machine latches
machine = record { ser = waiting; device = λ p. 0; rflags = 0x202 }

produce-offer_example :
    (s' : SerState) × (produce 0x202 b'!' waiting
      ≡ ok (ltb (length (contents waiting)) capacity, s'))
    × IsValid s'
    × (contents s' ≡ offer (contents waiting) b'!')
    × (s'.busy ≡ false)
produce-offer_example = produce-offer 0x202 waiting waiting-IsValid b'!'

flush-all_example :
    (m' : Machine latches) × (flush latches machine ≡ some (ok m'))
    × IsValid m'.ser
    × (contents m'.ser ≡ [])
    × (m'.ser.busy ≡ false)
    × (m'.device ≡ transmit_all latches (contents waiting) (λ p. 0))
    × (m'.rflags ≡ 0x202)
flush-all_example = flush-all latches machine waiting-IsValid

write-started_example :
    (m' : Machine latches) × (write latches (b'!' ∷ []) machine ≡ ok m')
    × IsValid m'.ser
    × ◌≡◌ {A = Started latches}
        (contents m'.ser, m'.device, m'.ser.busy)
        (started latches
          (status latches false machine.device).0
          (contents waiting ++ take (room (contents waiting)) (b'!' ∷ []))
          (status latches false machine.device).1)
    × (m'.rflags ≡ 0x202)
write-started_example = write-started latches (b'!' ∷ []) machine waiting-IsValid

-- The waiting bytes, by evaluation.
contents-waiting : contents waiting ≡ b'o' ∷ b'k' ∷ []
unfolding contents count advance
contents-waiting = refl

-- A transmitter that logs its bytes and says that it is empty.
abbrev logger : Ports
logger = record {
  Device = List ℕ;
  outb = λ port v d. if port == 0x3F8 then d ++ v ∷ [] else d;
  inb = λ port d. (if port == 0x3FA then 2 else 0x20, d);
}

abbrev logger-Logs : Logs logger
logger-Logs = record { log = λ d. d; sent = λ v d. refl; kept = λ p d. refl }

abbrev logged : Machine logger
logged = record { ser = waiting; device = b'>' ∷ []; rflags = 0x202 }

-- A write, the interrupt behind its first byte, and a flush.
abbrev after_write :
    (m' : Machine logger) × (write logger (b'!' ∷ []) logged ≡ ok m')
    × IsValid m'.ser
    × ◌≡◌ {A = Started logger}
        (contents m'.ser, m'.device, m'.ser.busy)
        (started logger
          (status logger false logged.device).0
          (contents waiting ++ take (room (contents waiting)) (b'!' ∷ []))
          (status logger false logged.device).1)
    × (m'.rflags ≡ 0x202)
after_write = write-started logger (b'!' ∷ []) logged waiting-IsValid

abbrev after_irq :
    (m' : Machine logger) × (ser_irq_handler logger com1_irq_num after_write.0 ≡ ok m')
    × IsValid m'.ser
    × (stream logger logger-Logs m' ≡ stream logger logger-Logs after_write.0)
after_irq = irq-keeps logger logger-Logs after_write.0 after_write.2

abbrev taken : List ℕ
taken = take (room (contents waiting)) (b'!' ∷ [])

write_then_irq : Calls logger logger-Logs logged after_irq.0 (([] ++ taken) ++ [])
write_then_irq = next (next here (wrote (b'!' ∷ []) after_write.1)) (interrupted after_irq.1)

Calls-stream_example :
    IsValid after_irq.0.ser
    × (stream logger logger-Logs after_irq.0
        ≡ stream logger logger-Logs logged ++ (([] ++ taken) ++ []))
Calls-stream_example =
    Calls-stream logger logger-Logs logged after_irq.0 (([] ++ taken) ++ []) waiting-IsValid
      write_then_irq
