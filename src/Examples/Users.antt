-- ===== src/Examples/Users.antt =====
-- lib/syscall.c, lib/print.c, the user programs and kernel/printk.c on concrete inputs.
use fi_rststep.Prelude.{ℕ, ◌≡◌, ◌==◌, refl, List, [], ◌∷◌, arith, if◌then◌else◌, inr}
use fi_rststep.Prelude.Outcome.{Outcome, ok, ◌>>=◌}
use fi_rststep.Str.{Memory}
use fi_rststep.Fmt.Format.{put_format, vsprintf}
use fi_rststep.Paging.{load32}
use fi_rststep.Tty.{Tty, cga_mem_size}
use fi_rststep.Tty.Text.{typed}
use fi_rststep.Syscall.{
  enters, finish, sys_write, sys_waitpid, sys_wait, sys_exit, sys_fork, sys_getpid, sys_execl,
}
use fi_rststep.Console.{printk, bytes_from, store_words}
use fi_rststep.Console.Plain.{IsText, buffered, printk-plain}
use fi_rststep.User.{
  User, Regs, write, waitpid, wait, exit, fork, getpid, execl, printf, call_syscall, syscall,
  trap_regs,
}
use fi_rststep.User.Programs.{Texts, hello_main, call_printf}
use fi_rststep.User.Traps.{Reaches, calls-Reaches}
use fi_rststep.Examples.Calls.{kernel, no_schedule}
use fi_rststep.Examples.Files.{disk_drive, disk_fat}

-- "Hi" at 0x1000, and its address on the stack at 0x9000
abbrev greeting : Memory
greeting a =
    if a == 0x1000 then b'H' else (if a == 0x1001 then b'i' else (if a == 0x9001 then 0x10 else 0))

greeting-IsText : IsText greeting 0x1000 2
greeting-IsText = record { stop = refl; text = λ i h. ground arith }

abbrev screen : Tty
screen = record {
  vmem_base = 0;
  vmem_size = cga_mem_size;
  screen = 0;
  cursor = 2;
  attr = 7;
  mem = greeting;
  crtc = λ r. 0;
}

printk-plain_example :
    (t' : Tty) × (printk 0x5000 0x9000 screen ≡ ok (2, t'))
    × (t'.cursor ≡ 4)
    × (t'.screen ≡ 0)
    × ((a : ℕ)
        → t'.mem a ≡ typed 7 2 (bytes_from 2 0x1000 greeting) (buffered 0x5000 0x1000 2 greeting) a)
printk-plain_example =
    printk-plain 0x5000 0x9000 2 screen greeting-IsText (inr (omega arith)) (omega arith)
      (omega arith) (omega arith) (omega arith)

-- the kernel as one that takes down the registers of each trap
abbrev Log : Type 0
Log = List Regs

abbrev take_down : Regs → User Log → Outcome (ℕ × User Log)
take_down r s = ok (r.edx, record s { world = r ∷ s.world })

abbrev program : User Log
program = record { mem = greeting; world = [] }

abbrev world_of : Outcome (ℕ × User Log) → Log
world_of (ok (n, s)) = s.world
world_of other = []

-- `hello_main` writes the text: one call of `write` with its length.
abbrev texts : Texts
texts = record {
  init_process = 0;
  fork_failed = 0;
  child_process = 0;
  hello_path = 0;
  execve_failed = 0;
  parent_process = 0;
  child_exited = 0;
  hello = 0x1000;
}

hello_main_writes :
    world_of (hello_main take_down texts 0x5000 0x9000 0x8000 program)
    ≡ record { eax = 1; ebx = 1; ecx = 0x5000; edx = 2 } ∷ []
unfolding hello_main call_printf printf vsprintf put_format write call_syscall syscall trap_regs
    store_words
hello_main_writes = refl

calls-Reaches_example :
    let reaches =
      Reaches disk_fat disk_drive (λ i. 0) no_schedule 3 0x100000 take_down 0x9000 program kernel in
    reaches
      (write take_down 0x9000 1 0x1000 2 program)
      (finish 0x100000 (sys_write 1 0x1000 2 kernel))
    × reaches
        (waitpid take_down 0x9000 1 0x1000 2 program)
        (finish 0x100000 (sys_waitpid no_schedule 3 1 0x1000 2 kernel))
    × reaches (wait take_down 0x9000 1 program) (finish 0x100000 (sys_wait no_schedule 3 1 kernel))
    × reaches (exit take_down 0x9000 1 program) (do (p, k') ← sys_exit 1 kernel; ok (enters p k'))
    × reaches (fork take_down 0x9000 program) (finish 0x100000 (sys_fork kernel))
    × reaches (getpid take_down 0x9000 program) (finish 0x100000 (sys_getpid kernel))
    × reaches (execl take_down 0x9000 0x9000 program) (
        finish 0x100000 (
          sys_execl disk_fat disk_drive
            (λ i. 0)
            no_schedule
            (load32 greeting 0x9000)
            0x9004
            kernel))
calls-Reaches_example =
    calls-Reaches disk_fat disk_drive (λ i. 0) no_schedule 3 0x100000 take_down 0x9000 program
      kernel 1 0x1000 2 0x9000 (omega arith) (omega arith) (omega arith) (omega arith) (omega arith)
