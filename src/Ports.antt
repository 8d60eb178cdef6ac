-- ===== src/Ports.antt =====
-- The I/O ports, core/src/port_io.c. `outb` and `inb` are single instructions: a device answers
-- them, and is a parameter of what drives it.
use skip_os.Common.{ℕ, ◌%◌, ◌==◌, if◌then◌else◌}

-- `outb` and `inb` on the state of a device.
pub record Ports : Type 1 where
  pub Device : Type 0
  pub outb : ℕ → ℕ → Device → Device
  pub inb : ℕ → Device → ℕ × Device

module _ (ports : Ports) where
  open ports use {Device, outb}

  abbrev pub unused_port : ℕ
  unused_port = 0x80

  unfoldable pub io_wait : Device → Device
  io_wait d = outb unused_port 0 d

-- A device that keeps the last byte written to each port.
abbrev pub latches : Ports
latches = record {
  Device = ℕ → ℕ;
  outb = λ port v d p. if p == port then v else d p;
  inb = λ port d. (d port % 256, d);
}
