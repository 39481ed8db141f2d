-- ===== src/Sched/Safety.antt =====
-- Which tasks run, in every state that kernel/scheduler.c can reach.
use fi_rststep.Prelude.{ℕ, ◌≡◌, ◌≢◌, inl, subst, arith}
use fi_rststep.Prelude.Words.{null}
use fi_rststep.Task.{TaskState, task_none, task_running, set_state}
use fi_rststep.Sched.{Sched, ok, jump}
use fi_rststep.Sched.Switch.{switch_task_state, schedule_handler}
use fi_rststep.Sched.Post.{Post, IsSafe}
use fi_rststep.Sched.Moves.{switch_task_state-Post, schedule_handler-Post}

-- What can happen to the scheduler's state: a tick, a change of a task's state (by a system call, say),
-- and a structure's new life, or any other write, that leaves it in no state.
pub data Step : Sched → Sched → Type 0 where
  ticked : (frame : ℕ) {p : ℕ} {s s' : Sched} → schedule_handler frame s ≡ jump p s' → Step s s'
  changed :
      (task : ℕ) (st : TaskState) {s s' : Sched}
      → task ≢ null
      → switch_task_state task st s ≡ ok tt s'
      → Step s s'
  entered :
      (task : ℕ) {p : ℕ} (st : TaskState) {s s' : Sched}
      → task ≢ null
      → switch_task_state task st s ≡ jump p s'
      → Step s s'
  created :
      (task : ℕ) {s : Sched}
      → task ≢ s.current_task
      → Step s (record s { tasks = set_state task task_none s.tasks })

-- From `s` in any number of steps.
pub data Reach (s : Sched) : Sched → Type 0 where
  start : Reach s s
  next : {s₁ s₂ : Sched} → Reach s s₁ → Step s₁ s₂ → Reach s s₂

-- Before the first task is ready: no task runs.
abbrev pub IsInitial : Sched → Type 0
IsInitial s = (s.current_task ≡ null) × ((y : ℕ) → y ≢ null → (s.tasks y).state ≢ task_running)

initial-IsSafe : (s : Sched) → IsInitial s → IsSafe s
initial-IsSafe s (e, idle) = record { running = inl e; only = λ y n r. absurd (idle y n r) }

created-IsSafe :
    (task : ℕ) (s : Sched)
    → task ≢ s.current_task
    → IsSafe s
    → IsSafe (record s { tasks = set_state task task_none s.tasks })
created-IsSafe task s ne is = record {
  running = ground (arith, is.running);
  only = λ y n r. is.only y n (ground arith);
}

Step-IsSafe : (s s' : Sched) → Step s s' → IsSafe s → IsSafe s'
Step-IsSafe s s' (ticked frame e) is = (subst (Post IsSafe) e (schedule_handler-Post frame s is)).0
Step-IsSafe s s' (changed task st nn e) is =
    subst (Post IsSafe) e (switch_task_state-Post task st s is nn)
Step-IsSafe s s' (entered task st nn e) is =
    (subst (Post IsSafe) e (switch_task_state-Post task st s is nn)).0
Step-IsSafe s s' (created task ne) is = created-IsSafe task s ne is

Reach-IsSafe : (s s' : Sched) → Reach s s' → IsSafe s → IsSafe s'
Reach-IsSafe s s' start is = is
Reach-IsSafe s s' (next {s₁ = s₁} r step) is = Step-IsSafe s₁ s' step (Reach-IsSafe s s₁ r is)

-- From a state in which no task runs, after any sequence of ticks, changes of state by
-- `switch_task_state` and new task structures, a task that is in the running state is the current
-- task: two tasks never run at once.
pub Reach-one_running :
    (s s' : Sched) (y : ℕ)
    → IsInitial s
    → Reach s s'
    → y ≢ null
    → (s'.tasks y).state ≡ task_running
    → y ≡ s'.current_task
Reach-one_running s s' y init r = (Reach-IsSafe s s' r (initial-IsSafe s init)).only y
