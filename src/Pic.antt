-- ===== src/Pic.antt =====
-- The two interrupt controllers, core/src/pic.c.
use skip_os.Common.{ℕ, ◌+◌, ◌%◌, bit_or}
use skip_os.Ports.{Ports, io_wait}

abbrev pub pic1_cmd_port : ℕ
pic1_cmd_port = 0x20

abbrev pub pic1_data_port : ℕ
pic1_data_port = 0x21

abbrev pub pic2_cmd_port : ℕ
pic2_cmd_port = 0xA0

abbrev pub pic2_data_port : ℕ
pic2_data_port = 0xA1

abbrev pub icw1_icw4 : ℕ
icw1_icw4 = 0x01

abbrev pub icw1_init : ℕ
icw1_init = 0x10

abbrev pub icw4_8086 : ℕ
icw4_8086 = 0x01

abbrev pub eoi_cmd : ℕ
eoi_cmd = 0x20

abbrev pub lines_per_pic : ℕ
lines_per_pic = 8

module _ (ports : Ports) where
  open ports use {Device, outb, inb}

  unfoldable pub set_pic1_mask : ℕ → Device → Device
  set_pic1_mask mask d = outb pic1_data_port mask d

  unfoldable pub set_pic2_mask : ℕ → Device → Device
  set_pic2_mask mask d = outb pic2_data_port mask d

  unfoldable pub get_pic1_mask : Device → ℕ × Device
  get_pic1_mask d = inb pic1_data_port d

  unfoldable pub get_pic2_mask : Device → ℕ × Device
  get_pic2_mask d = inb pic2_data_port d

  unfoldable pub disable_all_pic_irqs : Device → Device
  unfolding set_pic1_mask set_pic2_mask
  disable_all_pic_irqs d = set_pic2_mask 0xFF (set_pic1_mask 0xFF d)

  unfoldable pub send_pic1_eoi : Device → Device
  send_pic1_eoi d = outb pic1_cmd_port eoi_cmd d

  unfoldable pub send_pic2_eoi : Device → Device
  send_pic2_eoi d = outb pic2_cmd_port eoi_cmd d

  -- A write followed by a wait.
  unfoldable pub out_wait : ℕ → ℕ → Device → Device
  unfolding io_wait
  out_wait port val d = io_wait ports (outb port val d)

  unfoldable pub remap : ℕ → Device → Device
  unfolding out_wait
  remap base d =
      let d1 = out_wait pic1_cmd_port (bit_or icw1_init icw1_icw4) d in
      let d2 = out_wait pic2_cmd_port (bit_or icw1_init icw1_icw4) d1 in
      let d3 = out_wait pic1_data_port base d2 in
      let d4 = out_wait pic2_data_port ((base + 8) % 256) d3 in
      let d5 = out_wait pic1_data_port 4 d4 in
      let d6 = out_wait pic2_data_port 2 d5 in
      let d7 = out_wait pic1_data_port icw4_8086 d6 in
      let d8 = out_wait pic2_data_port icw4_8086 d7 in
      outb pic2_data_port 0 (outb pic1_data_port 0 d8)
