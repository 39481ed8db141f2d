-- ===== src/Syscall/Reap.antt =====
-- `sys_wait` of kernel/syscall.c: which child it reaps, and what it leaves of the others.
use fi_rststep.Prelude.{
  ℕ, zero, suc, ◌+◌, ◌/◌, ◌%◌, ◌≤◌, ◌<◌, Bool, true, false, List, [], ◌∷◌, ◌++◌, ◌≡◌, ◌≢◌, refl,
  sym, subst, ◌==◌, arith, length, if◌then◌else◌, Option, none, some,
}
use fi_rststep.Prelude.Outcome.{Outcome, ok, panic, endless, ◌>>=◌}
use fi_rststep.Prelude.Words.{null, u32}
use fi_rststep.Str.{poke}
use fi_rststep.Task.{Tasks, task_zombie, task_dead, same_state, set_state, nr_tasks}
use fi_rststep.Task.Slots.{set_free_task_union}
use fi_rststep.Task.Slots.Laws.{set_free_task_union_lem}
use fi_rststep.Sched.{Sched}
use fi_rststep.Sched.Switch.{
  switch_task_state, enter, switch_to_dead_state, leave_for_dead, task_dead_free,
}
use fi_rststep.Process.{set_child}
use fi_rststep.Process.Orphans.{Siblings, Siblings-frame}
use fi_rststep.Kernel.{Kernel, on_mem, translate, call_ok, store_user, store_user32}
use fi_rststep.Syscall.{running, find_zombie, reap, wait_any, sys_wait}

-- No task of the list is a zombie.
abbrev pub AllLive : Tasks → List ℕ → Type 0
AllLive t [] = Unit
AllLive t (x ∷ xs) = (same_state (t x).state task_zombie ≡ false) × AllLive t xs

pub find_zombie-first :
    (fuel p z : ℕ) (xs ys : List ℕ) (t : Tasks)
    → Siblings t p (xs ++ (z ∷ ys))
    → AllLive t xs
    → (t z).state ≡ task_zombie
    → length xs < fuel
    → find_zombie fuel p t ≡ ok z
unfolding find_zombie
find_zombie-first zero p z xs ys t s live dead short = absurd (omega arith)
find_zombie-first (suc fuel) p z [] ys t (e, ne, rest) live dead short =
    let n : (z == null) ≡ false = ground arith in rw e (rw (n, dead) refl)
find_zombie-first (suc fuel) p z (x ∷ xs) ys t (e, ne, rest) (l, live) dead short =
    let n : (x == null) ≡ false = ground arith in
    rw e (rw (n, l) (find_zombie-first fuel (t x).sibling z xs ys t rest live dead (omega arith)))

pub find_zombie-none :
    (fuel p : ℕ) (xs : List ℕ) (t : Tasks)
    → Siblings t p xs
    → AllLive t xs
    → length xs < fuel
    → find_zombie fuel p t ≡ ok null
unfolding find_zombie
find_zombie-none zero p xs t s live short = absurd (omega arith)
find_zombie-none (suc fuel) p [] t s live short = rw s refl
find_zombie-none (suc fuel) p (x ∷ xs) t (e, ne, rest) (l, live) short =
    let n : (x == null) ≡ false = ground arith in
    rw e (rw (n, l) (find_zombie-none fuel (t x).sibling xs t rest live (omega arith)))

-- The result has the same scheduler state, if there is one.
abbrev Keeps : Kernel → Outcome Kernel → Type 0
Keeps k (ok k') = k'.sched ≡ k.sched
Keeps k panic = Unit
Keeps k endless = Unit

Keeps-bind :
    (k : Kernel) (r : Outcome Kernel) (f : Kernel → Outcome Kernel)
    → Keeps k r
    → ((k' : Kernel) → k'.sched ≡ k.sched → Keeps k (f k'))
    → Keeps k (r >>= f)
Keeps-bind k (ok k') f h g = g k' h
Keeps-bind k panic f h g = tt
Keeps-bind k endless f h g = tt

store_user-Keeps : (a v : ℕ) (k k₀ : Kernel) → k.sched ≡ k₀.sched → Keeps k₀ (store_user a v k)
unfolding store_user
store_user-Keeps a v k k₀ e = at_page (translate k.vm.mem k.sched.cr3 a)
  where
    at_page :
        (p : Option ℕ)
        → Keeps k₀
            (elim p as (λ _. Outcome Kernel) [ none ↦ panic | some p ↦ ok (on_mem (poke p v) k) ])
    at_page none = tt
    at_page (some p) = e

store_user32-Keeps : (a v : ℕ) (k : Kernel) → Keeps k (store_user32 a v k)
unfolding store_user32
store_user32-Keeps a v k = Keeps-bind k _ _ (store_user-Keeps a (v % 256) k k refl) (λ k₁ e₁.
    Keeps-bind k _ _ (store_user-Keeps (u32 (a + 1)) (v / 256 % 256) k₁ k e₁) (λ k₂ e₂.
      Keeps-bind k _ _ (store_user-Keeps (u32 (a + 2)) (v / 65536 % 256) k₂ k e₂)
        (λ k₃ e₃. store_user-Keeps (u32 (a + 3)) (v / 16777216 % 256) k₃ k e₃)))

pub store_user32-sched : (a v : ℕ) (k k' : Kernel) → store_user32 a v k ≡ ok k' → k'.sched ≡ k.sched
store_user32-sched a v k k' e = subst (Keeps k) e (store_user32-Keeps a v k)

switch_task_state-dead :
    (z : ℕ) (s : Sched)
    → z ≢ null
    → (s.tasks z).state ≡ task_zombie
    → switch_task_state z task_dead s
      ≡ fi_rststep.Sched.ok tt (record s {
        tasks = set_state z task_dead s.tasks;
        is_used = (set_free_task_union z s.is_used).1;
      })
unfolding switch_task_state enter switch_to_dead_state leave_for_dead task_dead_free
switch_task_state-dead z s ne dead = let n : (z == null) ≡ false = ground arith in rw (dead, n)

-- `n` calls of `schedule` lead from `k` to `k'`, and before each no child of `task` is a zombie.
abbrev pub Waits : (Kernel → Outcome Kernel) → ℕ → ℕ → Kernel → Kernel → Type 0
Waits schedule task zero k k' = k ≡ k'
Waits schedule task (suc n) k k' =
    (xs : List ℕ) × Siblings k.sched.tasks (k.sched.tasks task).child xs
    × AllLive k.sched.tasks xs
    × (length xs ≤ nr_tasks)
    × ((next : Kernel) × (schedule k ≡ ok next) × Waits schedule task n next k')

-- The children `xs`, none of them a zombie, then the zombie `z`, one of the 100 structures, then `ys`.
pub record HasZombie (k : Kernel) (task z : ℕ) (xs ys : List ℕ) : Type 0 where
  pub children : Siblings k.sched.tasks (k.sched.tasks task).child (xs ++ (z ∷ ys))
  pub live : AllLive k.sched.tasks xs
  pub dead : (k.sched.tasks z).state ≡ task_zombie
  pub short : length xs < nr_tasks
  pub in_table : z ≤ nr_tasks

wait_any-first :
    (schedule : Kernel → Outcome Kernel) (fuel task z : ℕ) (xs ys : List ℕ) (no_hang : Bool)
    (k : Kernel)
    → HasZombie k task z xs ys
    → z ≢ null
    → wait_any schedule (suc fuel) task no_hang k ≡ ok (z, k)
unfolding wait_any
wait_any-first schedule fuel task z xs ys no_hang k h ne =
    let found =
      find_zombie-first (suc nr_tasks) (k.sched.tasks task).child z xs ys k.sched.tasks h.children
        h.live h.dead (omega (arith, h.short)) in
    let n : (z == null) ≡ false = ground arith in rw (found, ◌>>=◌) (rw n refl)

wait_any-Waits :
    (schedule : Kernel → Outcome Kernel) (n fuel task z : ℕ) (xs ys : List ℕ) (k k' : Kernel)
    → Waits schedule task n k k'
    → HasZombie k' task z xs ys
    → z ≢ null
    → n ≤ fuel
    → wait_any schedule (suc fuel) task false k ≡ ok (z, k')
unfolding wait_any
wait_any-Waits schedule zero fuel task z xs ys k k' e h ne enough =
    subst (λ k. wait_any schedule (suc fuel) task false k ≡ ok (z, k')) (sym e)
      (wait_any-first schedule fuel task z xs ys false k' h ne)
wait_any-Waits schedule (suc n) zero task z xs ys k k' w h ne enough = absurd (omega arith)
wait_any-Waits schedule (suc n) (suc fuel) task z xs ys k k' (cs, s, live, short, (next, e, w)) h ne
      enough =
    let found =
      find_zombie-none (suc nr_tasks) (k.sched.tasks task).child cs k.sched.tasks s live
        (omega arith) in
    rw (found, ◌>>=◌)
      (rw e (wait_any-Waits schedule n fuel task z xs ys next k' w h ne (omega arith)))

zombie-ne : (t : Tasks) (p z : ℕ) (xs ys : List ℕ) → Siblings t p (xs ++ (z ∷ ys)) → z ≢ null
zombie-ne t p z [] ys (e, ne, rest) = ne
zombie-ne t p z (x ∷ xs) ys (e, ne, rest) = zombie-ne t (t x).sibling z xs ys rest

Siblings-tail :
    (t : Tasks) (p z : ℕ) (xs ys : List ℕ)
    → Siblings t p (xs ++ (z ∷ ys))
    → Siblings t (t z).sibling ys
Siblings-tail t p z [] ys (e, ne, rest) = rest
Siblings-tail t p z (x ∷ xs) ys (e, ne, rest) = Siblings-tail t (t x).sibling z xs ys rest

-- What is left when `task` has reaped `z`, with its exit status stored in `k₁`.
pub record IsReaped (k₁ k₂ : Kernel) (task z : ℕ) (ys : List ℕ) : Type 0 where
  pub children : Siblings k₂.sched.tasks (k₂.sched.tasks task).child ys
  pub dead : (k₂.sched.tasks z).state ≡ task_dead
  pub other : (y : ℕ) → y ≢ z → (k₂.sched.tasks y).state ≡ (k₁.sched.tasks y).state
  pub slot : (j : ℕ) → k₂.sched.is_used j ≡ (if suc j == z then false else k₁.sched.is_used j)
  pub current : k₂.sched.current_task ≡ k₁.sched.current_task
  pub memory : k₂.vm ≡ k₁.vm

pub reap-IsReaped :
    (k k₁ : Kernel) (task z status : ℕ) (xs ys : List ℕ)
    → HasZombie k task z xs ys
    → store_user32 status (k.sched.tasks z).exit_code k ≡ ok k₁
    → (k₂ : Kernel) × (reap task z status k ≡ ok ((k.sched.tasks z).pid, k₂))
      × IsReaped k₁ k₂ task z ys
unfolding reap
reap-IsReaped k k₁ task z status xs ys h stored =
    let same = store_user32-sched status (k.sched.tasks z).exit_code k k₁ stored in
    let ne = zombie-ne k.sched.tasks (k.sched.tasks task).child z xs ys h.children in
    let t = k₁.sched.tasks in
    let s₂ = record k₁.sched { tasks = set_child task (t z).sibling t } in
    let died =
      switch_task_state-dead z s₂ ne
        (subst (λ s. (s.tasks z).state ≡ task_zombie) (sym same) h.dead) in
    (
      record k₁ {
        sched = record s₂ {
          tasks = set_state z task_dead s₂.tasks;
          is_used = (set_free_task_union z s₂.is_used).1;
        };
      },
      rw (stored, ◌>>=◌)
          (rw (call_ok (switch_task_state z task_dead) (record k₁ { sched = s₂ }) _ died) refl),
      record {
        children =
            let rest = Siblings-tail k.sched.tasks (k.sched.tasks task).child z xs ys h.children in
            let rest₁ : Siblings t (t z).sibling ys =
              subst (λ s. Siblings s.tasks (s.tasks z).sibling ys) (sym same) rest in
            let here : (task == task) ≡ true = ground arith in
            rw here (
              Siblings-frame t (set_state z task_dead s₂.tasks) (t z).sibling ys (λ y n. refl)
                rest₁);
        dead = ground arith;
        other = λ y n. ground arith;
        slot = λ j. set_free_task_union_lem k₁.sched.is_used z j ne h.in_table;
        current = refl;
        memory = refl;
      },
    )

-- If, with a current task that has a child, the `n`-th call of `schedule` leads to the first state in
-- which a child is a zombie, the siblings `xs`, fewer than 100, in front of it live and `ys` behind it,
-- the child is one of the 100 structures, and the status lies in mapped memory, then `sys_wait` returns
-- after `n` calls with that child's pid, its exit code stored. The child is dead and its structure free,
-- the other structures as used as they were, and the task's children are `ys`: those of `xs` are lost.
pub sys_wait-IsReaped :
    (schedule : Kernel → Outcome Kernel) (fuel n status z : ℕ) (xs ys : List ℕ) (k k' k₁ : Kernel)
    → k.sched.current_task ≢ null
    → (k.sched.tasks k.sched.current_task).child ≢ null
    → Waits schedule k.sched.current_task n k k'
    → n ≤ fuel
    → HasZombie k' k.sched.current_task z xs ys
    → store_user32 status (k'.sched.tasks z).exit_code k' ≡ ok k₁
    → (k₂ : Kernel) × (sys_wait schedule fuel status k ≡ ok ((k'.sched.tasks z).pid, k₂))
      × IsReaped k₁ k₂ k.sched.current_task z ys
unfolding sys_wait running
sys_wait-IsReaped schedule fuel n status z xs ys k k' k₁ nn has_child w enough h stored =
    let ne =
      zombie-ne k'.sched.tasks (k'.sched.tasks k.sched.current_task).child z xs ys h.children in
    let found = wait_any-Waits schedule n fuel k.sched.current_task z xs ys k k' w h ne enough in
    let a : (k.sched.current_task == null) ≡ false = ground arith in
    let b : ((k.sched.tasks k.sched.current_task).child == null) ≡ false = ground arith in
    let (k₂, e, is) = reap-IsReaped k' k₁ k.sched.current_task z status xs ys h stored in
    (k₂, rw (a, b, ◌>>=◌) (rw (found, ◌>>=◌) e), is)
