-- ===== src/Sched/Moves.antt =====
-- The state changes and the tick of kernel/scheduler.c keep the rule that only the current task runs.
use fi_rststep.Prelude.{
  ℕ, suc, Bool, true, false, Option, none, some, ◌≡◌, ◌≢◌, inl, inr, refl, ◌∙◌, ◌==◌, arith,
  if◌then◌else◌, Bool-cases, ℕ_discrete,
}
use fi_rststep.Prelude.Words.{null}
use fi_rststep.Task.{
  Tasks, TaskState, task_none, task_ready, task_running, task_blocked, task_zombie, task_dead,
  set_state, same_state, nr_tasks,
}
use fi_rststep.Sched.{
  Sched, TaskList, Run, ok, panic, endless, ◌>>=◌, context_switch_to, task_list_remove, unlink,
  find_task, running_task, get_next_ready_task,
}
use fi_rststep.Sched.Invariant.{running_task_busy, unlink-SameOwn}
use fi_rststep.Sched.Switch.{
  remove_ready, leave_for_ready, switch_to_ready_state, make_ready, requeue_running,
  leave_for_running, switch_to_running_state, leave_for_zombie, switch_to_zombie_state,
  task_dead_free, leave_for_dead, switch_to_dead_state, enter, switch_task_state, save_frame,
  schedule_handler,
}
use fi_rststep.Sched.Post.{
  Post, Post-bind, Post-weaken, IsSafe, IsSafeBut, but-idle, but-running, write_state-IsSafe,
  IsSafe-same, add_ready-Post,
}

abbrev pub KeepsStates : Tasks → Option (Bool × TaskList × Tasks) → Type 0
KeepsStates t none = Unit
KeepsStates t (some (b, l, u)) = (y : ℕ) → (u y).state ≡ (t y).state

pub task_list_remove-KeepsStates :
    (l : TaskList) (target : ℕ) (t : Tasks) → KeepsStates t (task_list_remove l target t)
unfolding task_list_remove
task_list_remove-KeepsStates l target t = at_found l t (find_task (suc nr_tasks) l.head target t)
  where
    at_found :
        (l : TaskList) (t : Tasks) (r : Option ℕ)
        → KeepsStates t (elim r as (λ _. Option (Bool × TaskList × Tasks)) [
          | none ↦ none
          | some task ↦
              if task == null
              then some (false, l, t)
              else let (list', t') = unlink l task t in some (true, list', t')
        ])
    at_found l t none = tt
    at_found l t (some task) = elim (Bool-cases (task == null)) [
      | inl z ↦ rw z (λ y. refl)
      | inr z ↦ rw z (unlink-SameOwn l task t).state
    ]

pub remove_ready-Post :
    (task : ℕ) (P : Sched → Type 0) (s : Sched)
    → ((s' : Sched)
        → s'.current_task ≡ s.current_task
        → ((y : ℕ) → (s'.tasks y).state ≡ (s.tasks y).state)
        → P s')
    → Post P (remove_ready task s)
unfolding remove_ready
remove_ready-Post task P s h =
    at_result (task_list_remove s.ready_tasks task s.tasks)
      (task_list_remove-KeepsStates s.ready_tasks task s.tasks)
  where
    at_result :
        (r : Option (Bool × TaskList × Tasks))
        → KeepsStates s.tasks r
        → Post P (elim r as (λ _. Run (Unit {0})) [
          | none ↦ endless
          | some (found, list, t) ↦ ok tt (record s { ready_tasks = list; tasks = t })
        ])
    at_result none k = tt
    at_result (some (b, l, u)) k = h _ refl k

-- Leaving a state other than running, and leaving running.
abbrev pub Left : ℕ → TaskState → Sched → Type 0
Left task st s = IsSafeBut task s × (st ≡ task_running → s.current_task ≡ null)

abbrev pub Readied : TaskState → Sched → Type 0
Readied st s = IsSafe s × (st ≡ task_running → s.current_task ≡ null)

pub leave_for_ready-Post :
    (task : ℕ) (st : TaskState) (s : Sched)
    → IsSafe s
    → task ≢ null
    → (s.tasks task).state ≡ st
    → Post (Left task st) (leave_for_ready st s)
unfolding leave_for_ready
leave_for_ready-Post task task_none s is nn e =
    (but-idle task s is (λ f. absurd (ground arith)), λ f. absurd (ground arith))
leave_for_ready-Post task task_running s is nn e = (but-running task s is nn e, λ f. refl)
leave_for_ready-Post task task_ready s is nn e = tt
leave_for_ready-Post task task_blocked s is nn e = tt
leave_for_ready-Post task task_zombie s is nn e = tt
leave_for_ready-Post task task_dead s is nn e = tt

pub switch_to_ready_state-Post :
    (task : ℕ) (s : Sched)
    → IsSafe s
    → task ≢ null
    → Post (Readied (s.tasks task).state) (switch_to_ready_state task s)
unfolding switch_to_ready_state
switch_to_ready_state-Post task s is nn =
    Post-bind (Left task (s.tasks task).state) (Readied (s.tasks task).state)
      (leave_for_ready (s.tasks task).state) _ s
      (leave_for_ready-Post task (s.tasks task).state s is nn refl)
      (λ u s₁ (but, idle).
        let s₂ = record s₁ { tasks = set_state task task_ready s₁.tasks } in
        add_ready-Post task (Readied (s.tasks task).state) s₂ (λ s₃ c same. (
          IsSafe-same s₂ s₃ c same (write_state-IsSafe task task_ready s₁ but (λ f. ground arith)),
          λ r. c ∙ idle r,
        )))

abbrev pub Idle : Sched → Type 0
Idle s = IsSafe s × (s.current_task ≡ null)

pub make_ready-Post :
    (s : Sched)
    → IsSafe s
    → s.current_task ≢ null
    → (s.tasks s.current_task).state ≡ task_running
    → Post Idle (make_ready s.current_task s)
unfolding make_ready
make_ready-Post s is nn e =
    let n : same_state (s.tasks s.current_task).state task_ready ≡ false = rw e refl in
    rw n (
      Post-weaken (Readied (s.tasks s.current_task).state) Idle
        (switch_to_ready_state s.current_task s) (λ s' (safe, idle). (safe, idle e))
        (switch_to_ready_state-Post s.current_task s is nn))

pub running_task_none : (s : Sched) → (s.current_task == null) ≡ true → running_task true s ≡ panic
unfolding running_task
running_task_none s z = rw z refl

pub requeue_busy-Post :
    (s : Sched)
    → IsSafe s
    → (s.current_task == null) ≡ false
    → Post Idle ((running_task true >>= make_ready) s)
requeue_busy-Post s is z =
    let nn : s.current_task ≢ null = λ e. absurd (ground arith) in
    let run : (s.tasks s.current_task).state ≡ task_running = ground (arith, is.running) in
    rw (running_task_busy s z, ◌>>=◌) (make_ready-Post s is nn run)

pub requeue_running-Post : (s : Sched) → IsSafe s → Post Idle (requeue_running s)
unfolding requeue_running running_task
requeue_running-Post s is = elim (Bool-cases (s.current_task == null)) [
  | inl z ↦ rw z (is, ground arith)
  | inr z ↦ rw z (requeue_busy-Post s is z)
]

pub leave_for_running-Post :
    (task : ℕ) (st : TaskState) (s : Sched) → IsSafe s → Post IsSafe (leave_for_running task st s)
unfolding leave_for_running
leave_for_running-Post task task_ready s is =
    remove_ready-Post task IsSafe s (λ s' c same. IsSafe-same s s' c same is)
leave_for_running-Post task task_none s is = tt
leave_for_running-Post task task_running s is = tt
leave_for_running-Post task task_blocked s is = tt
leave_for_running-Post task task_zombie s is = tt
leave_for_running-Post task task_dead s is = tt

-- The task enters the processor when no other one has it.
pub enter-IsSafe :
    (task : ℕ) (s : Sched)
    → Idle s
    → IsSafe (record s { tasks = set_state task task_running s.tasks; current_task = task })
enter-IsSafe task s (is, idle) = record {
  running = inr (ground arith);
  only = λ y n r. elim (ℕ_discrete y task) [
    | yes e ↦ e
    | no ne ↦ absurd (n (is.only y n (ground arith) ∙ idle))
  ];
}

pub switch_to_running_state-Post :
    (task : ℕ) (s : Sched) → IsSafe s → Post IsSafe (switch_to_running_state task s)
unfolding switch_to_running_state context_switch_to
switch_to_running_state-Post task s is =
    Post-bind IsSafe IsSafe (leave_for_running task (s.tasks task).state) _ s
      (leave_for_running-Post task (s.tasks task).state s is)
      (λ u s₁ is₁.
        Post-bind Idle IsSafe requeue_running _ s₁ (requeue_running-Post s₁ is₁) (λ v s₂ idle.
          let s₃ = record s₂ {
            tasks = set_state task task_running s₂.tasks;
            current_task = task;
          } in
          (IsSafe-same s₃ _ refl (λ y. refl) (enter-IsSafe task s₂ idle), refl)))

pub leave_for_zombie-Post :
    (task : ℕ) (st : TaskState) (s : Sched)
    → IsSafe s
    → task ≢ null
    → (s.tasks task).state ≡ st
    → Post (IsSafeBut task) (leave_for_zombie st s)
unfolding leave_for_zombie
leave_for_zombie-Post task task_running s is nn e = but-running task s is nn e
leave_for_zombie-Post task task_none s is nn e = tt
leave_for_zombie-Post task task_ready s is nn e = tt
leave_for_zombie-Post task task_blocked s is nn e = tt
leave_for_zombie-Post task task_zombie s is nn e = tt
leave_for_zombie-Post task task_dead s is nn e = tt

pub leave_for_dead-Post :
    (task : ℕ) (st : TaskState) (s : Sched)
    → IsSafe s
    → (s.tasks task).state ≡ st
    → Post (IsSafeBut task) (leave_for_dead st s)
unfolding leave_for_dead
leave_for_dead-Post task task_zombie s is e = but-idle task s is (λ f. absurd (ground arith))
leave_for_dead-Post task task_none s is e = tt
leave_for_dead-Post task task_ready s is e = tt
leave_for_dead-Post task task_blocked s is e = tt
leave_for_dead-Post task task_running s is e = tt
leave_for_dead-Post task task_dead s is e = tt

pub task_dead_free-Post : (task : ℕ) (s : Sched) → IsSafe s → Post IsSafe (task_dead_free task s)
unfolding task_dead_free
task_dead_free-Post task s is = elim (Bool-cases (task == null)) [
  | inl z ↦ rw z tt
  | inr z ↦ rw z (IsSafe-same s _ refl (λ y. refl) is)
]

pub enter-Post :
    (task : ℕ) (st : TaskState) (s : Sched) → IsSafe s → task ≢ null → Post IsSafe (enter task st s)
unfolding enter switch_to_zombie_state switch_to_dead_state
enter-Post task task_none s is nn = tt
enter-Post task task_blocked s is nn = tt
enter-Post task task_running s is nn = switch_to_running_state-Post task s is
enter-Post task task_ready s is nn =
    Post-weaken (Readied (s.tasks task).state) IsSafe (switch_to_ready_state task s) (λ s' h. h.0)
      (switch_to_ready_state-Post task s is nn)
enter-Post task task_zombie s is nn =
    Post-bind (IsSafeBut task) IsSafe (leave_for_zombie (s.tasks task).state) _ s
      (leave_for_zombie-Post task (s.tasks task).state s is nn refl)
      (λ u s₁ but. write_state-IsSafe task task_zombie s₁ but (λ f. ground arith))
enter-Post task task_dead s is nn =
    Post-bind (IsSafeBut task) IsSafe (leave_for_dead (s.tasks task).state) _ s
      (leave_for_dead-Post task (s.tasks task).state s is refl)
      (λ u s₁ but.
        task_dead_free-Post task (record s₁ { tasks = set_state task task_dead s₁.tasks })
          (write_state-IsSafe task task_dead s₁ but (λ f. ground arith)))

pub switch_task_state-Post :
    (task : ℕ) (st : TaskState) (s : Sched)
    → IsSafe s
    → task ≢ null
    → Post IsSafe (switch_task_state task st s)
unfolding switch_task_state
switch_task_state-Post task st s is nn = elim (Bool-cases (same_state (s.tasks task).state st)) [
  | inl z ↦ rw z is
  | inr z ↦ rw z (enter-Post task st s is nn)
]

pub save_frame-Post : (frame : ℕ) (s : Sched) → IsSafe s → Post IsSafe (save_frame frame s)
unfolding save_frame
save_frame-Post frame s is = elim (Bool-cases (s.current_task == null)) [
  | inl z ↦ rw z is
  | inr z ↦ rw z (IsSafe-same s _ refl (λ y. refl) is)
]

-- The current task goes on, if there is one.
pub current-Post :
    (s : Sched) → IsSafe s → Post IsSafe ((running_task true >>= context_switch_to) s)
unfolding context_switch_to
current-Post s is = elim (Bool-cases (s.current_task == null)) [
  | inl z ↦ rw (running_task_none s z, ◌>>=◌) tt
  | inr z ↦ rw (running_task_busy s z, ◌>>=◌) (IsSafe-same s _ refl (λ y. refl) is, refl)
]

pub schedule_handler-Post :
    (frame : ℕ) (s : Sched) → IsSafe s → Post IsSafe (schedule_handler frame s)
unfolding schedule_handler get_next_ready_task
schedule_handler-Post frame s is =
    Post-bind IsSafe IsSafe (save_frame frame) _ s (save_frame-Post frame s is)
      (λ u s₁ is₁. next_task s₁ is₁)
  where
    next_task :
        (s : Sched)
        → IsSafe s
        → Post IsSafe (
            (if s.ready_tasks.head == null
                then (running_task true >>= context_switch_to)
                else switch_task_state s.ready_tasks.head task_running)
              s)
    next_task s is = elim (Bool-cases (s.ready_tasks.head == null)) [
      | inl z ↦ rw z (current-Post s is)
      | inr z ↦
          rw z (
            switch_task_state-Post s.ready_tasks.head task_running s is
              (λ e. absurd (ground arith)))
    ]
