-- ===== src/Start.antt =====
-- kernel/init.c: the kernel's start, up to the point where it waits for the first tick; and kernel/isr.c, the
-- message that a service routine stops with.
use fi_rststep.Prelude.{ℕ, Option, none, some, List, [], ◌∷◌, ◌++◌}
use fi_rststep.Prelude.Outcome.{Outcome, ok, ◌>>=◌}
use fi_rststep.Ata.{Bytes, Drive}
use fi_rststep.Fs.Mount.{fs_init}
use fi_rststep.Tty.{tty_init}
use fi_rststep.Paging.Start.{mem_init}
use fi_rststep.Kernel.{Kernel, vm_of, put_vm}
use fi_rststep.Process.{task_init}
use fi_rststep.Hardware.{Ports, pic_init, start_timer}
use fi_rststep.Hardware.Gates.{
  Idt, Isr, isr_de, isr_db, isr_nmi, isr_bp, isr_of, isr_br, isr_ud, isr_nm, isr_df, isr_cso,
  isr_ts, isr_np, isr_ss, isr_gp, isr_pf, isr_reserved, isr_mf, isr_ac, isr_mc, isr_xm, isr_ve,
  isr_cp, isr_default, isr_timer, isr_spurious_irq, isr_syscall, idt_init,
}

-- "#" and the two letters of an exception
abbrev short : ℕ → ℕ → Option (List ℕ)
short a b = some (b'#' ∷ a ∷ b ∷ [])

-- "Exception", "Coprocessor Segment Overrun" and "Undefined interrupt handling"
abbrev exception_word : List ℕ
exception_word = b'E' ∷ b'x' ∷ b'c' ∷ b'e' ∷ b'p' ∷ b't' ∷ b'i' ∷ b'o' ∷ b'n' ∷ []

abbrev overrun_message : List ℕ
overrun_message =
    b'C' ∷ b'o' ∷ b'p' ∷ b'r' ∷ b'o' ∷ b'c' ∷ b'e' ∷ b's' ∷ b's' ∷ b'o' ∷ b'r' ∷ b' ' ∷ b'S' ∷ b'e'
    ∷ b'g' ∷ b'm' ∷ b'e' ∷ b'n' ∷ b't' ∷ b' ' ∷ b'O' ∷ b'v' ∷ b'e' ∷ b'r' ∷ b'r' ∷ b'u' ∷ b'n' ∷ []

abbrev undefined_message : List ℕ
undefined_message =
    b'U' ∷ b'n' ∷ b'd' ∷ b'e' ∷ b'f' ∷ b'i' ∷ b'n' ∷ b'e' ∷ b'd' ∷ b' ' ∷ b'i' ∷ b'n' ∷ b't' ∷ b'e'
    ∷ b'r' ∷ b'r' ∷ b'u' ∷ b'p' ∷ b't' ∷ b' ' ∷ b'h' ∷ b'a' ∷ b'n' ∷ b'd' ∷ b'l' ∷ b'i' ∷ b'n'
    ∷ b'g' ∷ []

-- what a routine of isr.c panics with; the other three routines do not
unfoldable pub panic_message : Isr → Option (List ℕ)
panic_message isr_de = short b'D' b'E'
panic_message isr_db = short b'D' b'B'
panic_message isr_nmi = some (b'N' ∷ b'M' ∷ b'I' ∷ [])
panic_message isr_bp = short b'B' b'P'
panic_message isr_of = short b'O' b'F'
panic_message isr_br = short b'B' b'R'
panic_message isr_ud = short b'U' b'D'
panic_message isr_nm = short b'N' b'M'
panic_message isr_df = short b'D' b'F'
panic_message isr_cso = some overrun_message
panic_message isr_ts = short b'T' b'S'
panic_message isr_np = short b'N' b'P'
panic_message isr_ss = short b'S' b'S'
panic_message isr_gp = short b'G' b'P'
panic_message isr_pf = short b'P' b'F'
panic_message isr_mf = short b'M' b'F'
panic_message isr_ac = short b'A' b'C'
panic_message isr_mc = short b'M' b'C'
panic_message isr_xm = short b'X' b'M'
panic_message isr_ve = short b'V' b'E'
panic_message isr_cp = short b'C' b'P'
panic_message isr_reserved =
    some ((b'R' ∷ b'e' ∷ b's' ∷ b'e' ∷ b'r' ∷ b'v' ∷ b'e' ∷ b'd' ∷ b' ' ∷ []) ++ exception_word)
panic_message isr_default = some undefined_message
panic_message isr_timer = none
panic_message isr_spurious_irq = none
panic_message isr_syscall = none

-- The kernel's state, the ports and the interrupt table.
pub record Machine : Type 0 where
  pub kernel : Kernel
  pub ports : Ports
  pub idt : Idt

-- `address` and the answers of the clock chip (`low`, `hi`) come from outside; `fs_buf` is the static
-- buffer of `fs_init`. `syscall_init` fills the table that `syscall_table` stands for.
module _ (address : Isr → ℕ) (drive : Drive) (junk fs_buf : Bytes) (low hi : ℕ) where
  unfoldable pub init : Machine → Outcome Machine
  init m = do
    let k₁ : Kernel = record m.kernel { tty = tty_init m.kernel.tty }
    s ← mem_init low hi (vm_of k₁)
    let k₂ = put_vm s k₁
    (fat, buf, time) ← fs_init drive fs_buf k₂.search.io.time
    let io = record k₂.search.io { time = time }
    k₃ ← task_init fat drive junk (record k₂ { search = record k₂.search { io = io } })
    ports ← start_timer (pic_init m.ports)
    ok (record { kernel = k₃; ports = ports; idt = idt_init address m.idt })
