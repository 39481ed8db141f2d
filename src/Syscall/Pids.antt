-- ===== src/Syscall/Pids.antt =====
-- `sys_waitpid` of kernel/syscall.c: which child a pid stands for. `pid_t` is unsigned, so the test for
-- a pid below -1 holds for the positive ones too, and they are negated.
use fi_rststep.Prelude.{
  ℕ, zero, suc, ◌-◌, ◌%◌, ◌^◌, ◌≤◌, ◌<◌, true, false, not, List, [], ◌∷◌, ◌≡◌, ◌≢◌, refl, ◌⊎◌, ◌==◌,
  ltb, arith, length, Bool-cases, inl, inr, if◌then◌else◌,
}
use fi_rststep.Prelude.Outcome.{Outcome, ok, panic, endless, ◌>>=◌}
use fi_rststep.Prelude.Words.{null, sub32}
use fi_rststep.Task.{Tasks, nr_tasks}
use fi_rststep.Process.Orphans.{Siblings}
use fi_rststep.Kernel.{Kernel}
use fi_rststep.Syscall.{minus_one, running, find_zombie, find_pid, wait_any, sys_wait, sys_waitpid}

-- No task of the list has the pid.
abbrev pub NoPid : ℕ → Tasks → List ℕ → Type 0
NoPid pid t [] = Unit
NoPid pid t (x ∷ xs) = ((t x).pid ≢ pid) × NoPid pid t xs

find_pid-none :
    (fuel pid p : ℕ) (xs : List ℕ) (t : Tasks)
    → Siblings t p xs
    → NoPid pid t xs
    → length xs < fuel
    → find_pid fuel pid p t ≡ ok null
unfolding find_pid
find_pid-none zero pid p xs t s no_pid short = absurd (omega arith)
find_pid-none (suc fuel) pid p [] t s no_pid short = rw s refl
find_pid-none (suc fuel) pid p (x ∷ xs) t (e, ne, rest) (other, no_pid) short =
    let n : (x == null) ≡ false = ground arith in
    let o : ((t x).pid == pid) ≡ false = ground arith in
    rw e (rw (n, o) (find_pid-none fuel pid (t x).sibling xs t rest no_pid (omega arith)))

-- For a pid above 1 and below 2 ^ 31, unless a child has the pid 2 ^ 32 minus it, `sys_waitpid`
-- returns -1 and changes nothing, whether or not a child with the given pid is there.
pub sys_waitpid-negated :
    (schedule : Kernel → Outcome Kernel) (fuel pid status options : ℕ) (xs : List ℕ) (k : Kernel)
    → k.sched.current_task ≢ null
    → Siblings k.sched.tasks (k.sched.tasks k.sched.current_task).child xs
    → length xs ≤ nr_tasks
    → 1 < pid
    → pid < 2 ^ 31
    → NoPid (2 ^ 32 - pid) k.sched.tasks xs
    → sys_waitpid schedule fuel pid status options k ≡ ok (minus_one, k)
unfolding sys_waitpid running
sys_waitpid-negated schedule fuel pid status options xs k nn s short low high no_pid =
    let a : (k.sched.current_task == null) ≡ false = ground arith in
    elim (Bool-cases ((k.sched.tasks k.sched.current_task).child == null)) [
      | inl no_child ↦ rw (a, no_child, ◌>>=◌) refl
      | inr b ↦
          let c : ltb pid minus_one ≡ true = ground arith in
          let negated : sub32 0 pid ≡ 2 ^ 32 - pid = omega arith in
          let d : (2 ^ 32 - pid == 0) ≡ false = ground arith in
          let e : (2 ^ 32 - pid == minus_one) ≡ false = ground arith in
          let found =
            find_pid-none (suc nr_tasks) (2 ^ 32 - pid) (k.sched.tasks k.sched.current_task).child
              xs k.sched.tasks s no_pid (omega arith) in
          rw (a, b, ◌>>=◌) (rw (c, negated) (rw (d, e, found, ◌>>=◌) refl))
    ]

-- Without WNOHANG the wait for any child never gives NULL.
module _ {R : Type 0} (schedule : Kernel → Outcome Kernel) (task : ℕ) (f g : ℕ × Kernel → Outcome R)
    (agree : (child : ℕ) (k : Kernel) → child ≢ null → f (child, k) ≡ g (child, k)) where
  resumed :
      (fuel : ℕ)
      → ((k : Kernel)
          → (wait_any schedule fuel task false k >>= f)
            ≡ (wait_any schedule fuel task false k >>= g))
      → (r : Outcome Kernel)
      → ((r >>= wait_any schedule fuel task false) >>= f)
        ≡ ((r >>= wait_any schedule fuel task false) >>= g)
  resumed fuel same (ok k') = same k'
  resumed fuel same panic = refl
  resumed fuel same endless = refl

  abbrev round : ℕ → Kernel → ℕ → Outcome (ℕ × Kernel)
  round fuel k child =
      if not (child == null)
      then ok (child, k)
      else (schedule k >>= λ k'. wait_any schedule fuel task false k')

  at_child :
      (fuel : ℕ)
      → ((k : Kernel)
          → (wait_any schedule fuel task false k >>= f)
            ≡ (wait_any schedule fuel task false k >>= g))
      → (k : Kernel) (r : Outcome ℕ) → ((r >>= round fuel k) >>= f) ≡ ((r >>= round fuel k) >>= g)
  at_child fuel same k (ok child) = elim (Bool-cases (child == null)) [
    | inl z ↦ rw z (resumed fuel same (schedule k))
    | inr z ↦ rw z (agree child k (λ e. absurd (ground arith)))
  ]
  at_child fuel same k panic = refl
  at_child fuel same k endless = refl

  wait_any-agree :
      (fuel : ℕ) (k : Kernel)
      → (wait_any schedule fuel task false k >>= f) ≡ (wait_any schedule fuel task false k >>= g)
  unfolding wait_any
  wait_any-agree zero k = refl
  wait_any-agree (suc fuel) k =
      at_child fuel (wait_any-agree fuel) k
        (find_zombie (suc nr_tasks) (k.sched.tasks task).child k.sched.tasks)

bind-agree :
    {X Y : Type 0} (r : Outcome X) (f g : X → Outcome Y)
    → ((x : X) → f x ≡ g x)
    → (r >>= f) ≡ (r >>= g)
bind-agree (ok x) f g h = h x
bind-agree panic f g h = refl
bind-agree endless f g h = refl

-- For the pids 1 and -1, without WNOHANG, `sys_waitpid` is `sys_wait`: for 1 too it waits for any
-- child.
pub sys_waitpid-eq-sys_wait :
    (schedule : Kernel → Outcome Kernel) (fuel pid status options : ℕ) (k : Kernel)
    → (pid ≡ 1) ⊎ (pid ≡ 2 ^ 32 - 1)
    → options % 2 ≡ 0
    → sys_waitpid schedule fuel pid status options k ≡ sys_wait schedule fuel status k
unfolding sys_waitpid sys_wait
sys_waitpid-eq-sys_wait schedule fuel pid status options k which hang =
    let any : (if ltb pid minus_one then sub32 0 pid else pid) ≡ minus_one = any_child which in
    let stay : (options % 2 == 0) ≡ true = ground arith in
    rw (any, stay)
      (bind-agree (running k) _ _ (λ task. elim (Bool-cases ((k.sched.tasks task).child == null)) [
        | inl alone ↦ rw alone refl
        | inr parent ↦ rw parent (
            wait_any-agree schedule task _ _
              (λ child k₁ ne. let n : (child == null) ≡ false = ground arith in rw n refl)
              (suc fuel) k)
      ]))
  where
    any_child :
        (pid ≡ 1) ⊎ (pid ≡ 2 ^ 32 - 1)
        → (if ltb pid minus_one then sub32 0 pid else pid) ≡ minus_one
    any_child (inl e) = rw e refl
    any_child (inr e) = rw e refl
