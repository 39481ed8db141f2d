-- ===== src/Hardware.antt =====
-- kernel/pic.c and kernel/timer.c: what is written to the ports of the interrupt controllers and the timer.
pub mod Segments
pub mod Gates
pub mod Vectors
use fi_rststep.Prelude.{
  ℕ, ◌+◌, ◌-◌, ◌*◌, ◌/◌, ◌%◌, ◌^◌, Bool, not, List, [], ◌∷◌, ◌++◌, ◌==◌, ltb, leb, if◌then◌else◌,
  bit_and, bit_or,
}
use fi_rststep.Prelude.Outcome.{Outcome, ok, ◌>>=◌, ◌>>◌, assert}
use fi_rststep.Sched.{Cmd}
use fi_rststep.Sched.Switch.{schedule_handler}

-- The writes so far, in order, and the byte last written to each port. A controller's data port is read
-- only for its mask, which is what was written there last.
pub record Ports : Type 0 where
  pub log : List (ℕ × ℕ)
  pub value : ℕ → ℕ

abbrev pub outb : ℕ → ℕ → Ports → Ports
outb port v p = record {
  log = p.log ++ ((port, v % 256) ∷ []);
  value = λ q. if q == port then v % 256 else p.value q;
}

abbrev pub inb : ℕ → Ports → ℕ
inb port p = p.value port

abbrev pub pic1_io : ℕ
pic1_io = 0x20

abbrev pub pic2_io : ℕ
pic2_io = 0xA0

abbrev pub icw1_icw4 : ℕ
icw1_icw4 = 0x11

abbrev pub pic_eoi : ℕ
pic_eoi = 0x20

abbrev pub idt_pic1_offset : ℕ
idt_pic1_offset = 32

abbrev pub idt_pic2_offset : ℕ
idt_pic2_offset = 40

-- the four initialisation words of both controllers, then their masks
unfoldable pub pic_init : Ports → Ports
pic_init p =
    let p₁ = outb pic2_io icw1_icw4 (outb pic1_io icw1_icw4 p) in
    let p₂ = outb (pic2_io + 1) idt_pic2_offset (outb (pic1_io + 1) idt_pic1_offset p₁) in
    let p₃ = outb (pic2_io + 1) 2 (outb (pic1_io + 1) 4 p₂) in
    let p₄ = outb (pic2_io + 1) 1 (outb (pic1_io + 1) 1 p₃) in
    outb (pic2_io + 1) 0xFF (outb (pic1_io + 1) 0xFF p₄)

unfoldable pub pic_send_eoi : ℕ → Ports → Ports
pic_send_eoi irq p = outb pic1_io pic_eoi (if leb 8 irq then outb pic2_io pic_eoi p else p)

-- the port of the mask, and the line's number at its controller
abbrev pub mask_port : ℕ → ℕ × ℕ
mask_port irq = if leb 8 irq then (pic2_io + 1, irq - 8) else (pic1_io + 1, irq)

unfoldable pub pic_enable_irq : ℕ → Ports → Outcome Ports
pic_enable_irq irq p = do
  assert (ltb irq 16)
  let (port, line) = mask_port irq
  ok (outb port (bit_and (inb port p) (255 - 2 ^ line)) p)

unfoldable pub pic_disable_irq : ℕ → Ports → Outcome Ports
pic_disable_irq irq p = do
  assert (ltb irq 16)
  let (port, line) = mask_port irq
  ok (outb port (bit_or (inb port p) (2 ^ line)) p)

abbrev pub pit_ctrl : ℕ
pit_ctrl = 0x43

abbrev pub pit_ch0 : ℕ
pit_ch0 = 0x40

abbrev pub osc_freq : ℕ
osc_freq = 1193180

abbrev pub hz : ℕ
hz = 20

-- mode 3, the divisor, and the timer's line
unfoldable pub start_timer : Ports → Outcome Ports
start_timer p =
    let divisor = osc_freq / hz % 65536 in
    pic_enable_irq 0
      (outb pit_ch0 (divisor / 256 % 256) (outb pit_ch0 (divisor % 256) (outb pit_ctrl 0x36 p)))

-- The end of the interrupt is announced before the switch, which does not come back.
unfoldable pub timer_handler : ℕ → Ports → Ports × Cmd (Unit {0})
timer_handler frame p = (pic_send_eoi 0 p, schedule_handler frame)
