-- ===== src/User.antt =====
-- lib/syscall.c and lib/print.c: a user program's calls of the kernel. The kernel behind `int $0x80` is the
-- parameter `trap`: from the registers and the program's state to the value in EAX and the state then.
pub mod Programs
pub mod Traps
use fi_rststep.Prelude.{ℕ, ◌+◌, List, [], ◌∷◌}
use fi_rststep.Prelude.Outcome.{Outcome, ok, ◌>>=◌}
use fi_rststep.Str.{Memory}
use fi_rststep.Paging.{load32}
use fi_rststep.Fmt.Format.{va_arg, vsprintf}
use fi_rststep.Console.{va_start, store_words, pushed_at}

-- the numbers of inc/kernel/syscall.h
abbrev pub sys_nr_write : ℕ
sys_nr_write = 1

abbrev pub sys_nr_fork : ℕ
sys_nr_fork = 2

abbrev pub sys_nr_getpid : ℕ
sys_nr_getpid = 3

abbrev pub sys_nr_exit : ℕ
sys_nr_exit = 4

abbrev pub sys_nr_wait : ℕ
sys_nr_wait = 5

abbrev pub sys_nr_waitpid : ℕ
sys_nr_waitpid = 6

abbrev pub sys_nr_execl : ℕ
sys_nr_execl = 7

-- what `syscall` puts into the registers
pub record Regs : Type 0 where
  pub eax : ℕ
  pub ebx : ℕ
  pub ecx : ℕ
  pub edx : ℕ

-- the program's memory, and everything outside it
pub record User (W : Type 0) : Type 0 where
  pub mem : Memory
  pub world : W

-- `syscall_no` lies at `at`, and three arguments are read behind it, whether they were given or not.
unfoldable pub trap_regs : ℕ → Memory → Regs
trap_regs at mem =
    let (arg1, args₁) = va_arg (va_start at 4) mem in
    let (arg2, args₂) = va_arg args₁ mem in
    let (arg3, args₃) = va_arg args₂ mem in
    record { eax = load32 mem at; ebx = arg1; ecx = arg2; edx = arg3 }

module _ {W : Type 0} (trap : Regs → User W → Outcome (ℕ × User W)) where
  unfoldable pub syscall : ℕ → User W → Outcome (ℕ × User W)
  syscall at s = trap (trap_regs at s.mem) s

  -- `syscall` with the given words as arguments; `top` is the stack pointer.
  unfoldable pub call_syscall : ℕ → List ℕ → User W → Outcome (ℕ × User W)
  call_syscall top words s =
      let at = pushed_at top words in syscall at (record s { mem = store_words at words s.mem })

  unfoldable pub write : ℕ → ℕ → ℕ → ℕ → User W → Outcome (ℕ × User W)
  write top fd buf count s = call_syscall top (sys_nr_write ∷ fd ∷ buf ∷ count ∷ []) s

  unfoldable pub fork : ℕ → User W → Outcome (ℕ × User W)
  fork top s = call_syscall top (sys_nr_fork ∷ []) s

  unfoldable pub getpid : ℕ → User W → Outcome (ℕ × User W)
  getpid top s = call_syscall top (sys_nr_getpid ∷ []) s

  unfoldable pub exit : ℕ → ℕ → User W → Outcome (ℕ × User W)
  exit top status s = call_syscall top (sys_nr_exit ∷ status ∷ []) s

  unfoldable pub wait : ℕ → ℕ → User W → Outcome (ℕ × User W)
  wait top status s = call_syscall top (sys_nr_wait ∷ status ∷ []) s

  unfoldable pub waitpid : ℕ → ℕ → ℕ → ℕ → User W → Outcome (ℕ × User W)
  waitpid top pid status options s =
      call_syscall top (sys_nr_waitpid ∷ pid ∷ status ∷ options ∷ []) s

  -- `path` lies at `at`, and the argument list begins behind it.
  unfoldable pub execl : ℕ → ℕ → User W → Outcome (ℕ × User W)
  execl top at s = call_syscall top (sys_nr_execl ∷ load32 s.mem at ∷ va_start at 4 ∷ []) s

  -- The text is put together in a static buffer; the format lies at `at`.
  unfoldable pub printf : ℕ → ℕ → ℕ → User W → Outcome (ℕ × User W)
  printf buf top at s = do
    (len, mem) ← vsprintf buf (load32 s.mem at) (va_start at 4) s.mem
    write top 1 buf len (record s { mem = mem })
