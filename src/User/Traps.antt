-- ===== src/User/Traps.antt =====
-- From the wrappers of lib/syscall.c, by the registers at the trap, to the routines of kernel/syscall.c.
use fi_rststep.Prelude.{
  ℕ, ◌+◌, ◌^◌, ◌≤◌, ◌<◌, ◌≡◌, refl, ap, ◌∙◌, List, [], ◌∷◌, inl, arith, zero, suc, ◌*◌, some,
  get_elem?,
}
use fi_rststep.Prelude.Outcome.{Outcome, ok, ◌>>=◌}
use fi_rststep.Str.{Memory}
use fi_rststep.Ata.{Bytes, Drive}
use fi_rststep.Fs.{Fat}
use fi_rststep.Paging.{load32, store32}
use fi_rststep.Paging.Words.{load-store_same, load-store_ne}
use fi_rststep.Kernel.{Kernel}
use fi_rststep.Console.{va_start, store_words, pushed_at}
use fi_rststep.Syscall.{
  Ending, enters, finish, syscall_handler, syscall_table, sys_write, sys_fork, sys_getpid, sys_exit,
  sys_wait, sys_waitpid, sys_execl,
}
use fi_rststep.User.{
  User, Regs, trap_regs, syscall, call_syscall, write, fork, getpid, exit, wait, waitpid, execl,
}

-- Words that are pushed later lie behind.
store_words_below :
    (words : List ℕ) (at b : ℕ) (mem : Memory)
    → b + 4 ≤ at
    → load32 (store_words at words mem) b ≡ load32 mem b
unfolding store_words
store_words_below [] at b mem h = refl
store_words_below (w ∷ ws) at b mem h =
    store_words_below ws (at + 4) b (store32 at w mem) (omega arith)
    ∙ load-store_ne mem at b w (inl h)

-- The words of a call are found where it pushed them.
load32-store_words :
    (words : List ℕ) (i at v : ℕ) (mem : Memory)
    → get_elem? words i ≡ some v
    → v < 2 ^ 32
    → load32 (store_words at words mem) (at + 4 * i) ≡ v
unfolding store_words
load32-store_words [] i at v mem e h = absurd (ground arith)
load32-store_words (w ∷ ws) zero at v mem e h =
    let same : w ≡ v = ground arith in
    let place : at + 4 * 0 ≡ at = omega arith in
    rw place (
      store_words_below ws (at + 4) at (store32 at w mem) (omega arith)
      ∙ load-store_same mem at w (omega arith)
      ∙ same)
load32-store_words (w ∷ ws) (suc i) at v mem e h =
    let place : at + 4 * suc i ≡ at + 4 + 4 * i = omega arith in
    rw place (load32-store_words ws i (at + 4) v (store32 at w mem) e h)

module _ (top : ℕ) (words : List ℕ) (mem : Memory) where
  -- the registers at the trap of a call of `syscall` with these words
  abbrev pub call_regs : Regs
  call_regs = trap_regs (pushed_at top words) (store_words (pushed_at top words) words mem)

  call_regs-eax : (v : ℕ) → get_elem? words 0 ≡ some v → v < 2 ^ 32 → call_regs.eax ≡ v
  unfolding trap_regs
  call_regs-eax v e h =
      ap (load32 (store_words (pushed_at top words) words mem)) (omega arith)
      ∙ load32-store_words words 0 (pushed_at top words) v mem e h

  call_regs-ebx : (v : ℕ) → get_elem? words 1 ≡ some v → v < 2 ^ 32 → call_regs.ebx ≡ v
  unfolding trap_regs
  call_regs-ebx v e h = load32-store_words words 1 (pushed_at top words) v mem e h

  call_regs-ecx : (v : ℕ) → get_elem? words 2 ≡ some v → v < 2 ^ 32 → call_regs.ecx ≡ v
  unfolding trap_regs
  call_regs-ecx v e h =
      ap (load32 (store_words (pushed_at top words) words mem)) (omega arith)
      ∙ load32-store_words words 2 (pushed_at top words) v mem e h

  call_regs-edx : (v : ℕ) → get_elem? words 3 ≡ some v → v < 2 ^ 32 → call_regs.edx ≡ v
  unfolding trap_regs
  call_regs-edx v e h =
      ap (load32 (store_words (pushed_at top words) words mem)) (omega arith)
      ∙ load32-store_words words 3 (pushed_at top words) v mem e h

module _ (fat : Fat) (drive : Drive) (junk : Bytes) (schedule : Kernel → Outcome Kernel)
    (fuel frame : ℕ) where
  -- what the kernel's handler does at a trap
  abbrev pub handle : Regs → Kernel → Outcome Ending
  handle r k = syscall_handler fat drive junk schedule fuel r.eax r.ebx r.ecx r.edx frame k

  module _ {W : Type 0} (trap : Regs → User W → Outcome (ℕ × User W)) (top : ℕ) (s : User W)
      (k : Kernel) where
    -- The call traps, and the kernel's handler does then what `result` says.
    abbrev pub Reaches : Outcome (ℕ × User W) → Outcome Ending → Type 0
    Reaches call result =
        (r : Regs) × (m : Memory) × (call ≡ trap r (record s { mem = m })) × (handle r k ≡ result)

    reach :
        (words : List ℕ) (result : Outcome Ending)
        → handle (call_regs top words s.mem) k ≡ result
        → Reaches (call_syscall trap top words s) result
    unfolding call_syscall syscall
    reach words result e =
        (call_regs top words s.mem, store_words (pushed_at top words) words s.mem, refl, e)

    -- Three arguments in EBX, ECX and EDX.
    three-Reaches :
        (number a b c : ℕ)
        → number < 8
        → a < 2 ^ 32
        → b < 2 ^ 32
        → c < 2 ^ 32
        → Reaches
            (call_syscall trap top (number ∷ a ∷ b ∷ c ∷ []) s)
            (syscall_handler fat drive junk schedule fuel number a b c frame k)
    three-Reaches number a b c less ha hb hc =
        let words : List ℕ = number ∷ a ∷ b ∷ c ∷ [] in
        reach words (syscall_handler fat drive junk schedule fuel number a b c frame k) (
          rw (
            call_regs-eax top words s.mem number refl (omega arith),
            call_regs-ebx top words s.mem a refl ha,
            call_regs-ecx top words s.mem b refl hb,
            call_regs-edx top words s.mem c refl hc,
          ))

    -- For 32-bit arguments, each of `write`, `waitpid`, `wait`, `exit`, `fork`, `getpid` and
    -- `execl` traps once, with registers for which the kernel's handler does what its routine of
    -- the same name does with the arguments given (`execl` with the path and the address of the
    -- arguments behind it).
    pub calls-Reaches :
        (a b c at : ℕ)
        → a < 2 ^ 32
        → b < 2 ^ 32
        → c < 2 ^ 32
        → load32 s.mem at < 2 ^ 32
        → at + 4 < 2 ^ 32
        → Reaches (write trap top a b c s) (finish frame (sys_write a b c k))
          × Reaches (waitpid trap top a b c s) (finish frame (sys_waitpid schedule fuel a b c k))
          × Reaches (wait trap top a s) (finish frame (sys_wait schedule fuel a k))
          × Reaches (exit trap top a s) (do (p, k') ← sys_exit a k; ok (enters p k'))
          × Reaches (fork trap top s) (finish frame (sys_fork k))
          × Reaches (getpid trap top s) (finish frame (sys_getpid k))
          × Reaches
              (execl trap top at s)
              (finish frame (sys_execl fat drive junk schedule (load32 s.mem at) (va_start at 4) k))
    unfolding write waitpid wait exit fork getpid execl syscall_handler syscall_table
    calls-Reaches a b c at ha hb hc hp hat = (
      three-Reaches 1 a b c (omega arith) ha hb hc,
      three-Reaches 6 a b c (omega arith) ha hb hc,
      reach (5 ∷ a ∷ []) (finish frame (sys_wait schedule fuel a k)) (
          rw (
            call_regs-eax top (5 ∷ a ∷ []) s.mem 5 refl (omega arith),
            call_regs-ebx top (5 ∷ a ∷ []) s.mem a refl ha,
          )),
      reach (4 ∷ a ∷ []) (do (p, k') ← sys_exit a k; ok (enters p k'))
          (rw (
            call_regs-eax top (4 ∷ a ∷ []) s.mem 4 refl (omega arith),
            call_regs-ebx top (4 ∷ a ∷ []) s.mem a refl ha,
          )),
      reach (2 ∷ []) (finish frame (sys_fork k))
          (rw (call_regs-eax top (2 ∷ []) s.mem 2 refl (omega arith))),
      reach (3 ∷ []) (finish frame (sys_getpid k))
          (rw (call_regs-eax top (3 ∷ []) s.mem 3 refl (omega arith))),
      reach (7 ∷ load32 s.mem at ∷ va_start at 4 ∷ [])
          (finish frame (sys_execl fat drive junk schedule (load32 s.mem at) (va_start at 4) k))
          (rw (
            call_regs-eax top (7 ∷ load32 s.mem at ∷ va_start at 4 ∷ []) s.mem 7 refl (omega arith),
            call_regs-ebx top (7 ∷ load32 s.mem at ∷ va_start at 4 ∷ []) s.mem (load32 s.mem at)
                refl hp,
            call_regs-ecx top (7 ∷ load32 s.mem at ∷ va_start at 4 ∷ []) s.mem (va_start at 4) refl
                hat,
          )),
    )
