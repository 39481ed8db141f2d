-- ===== src/Sched/Transitions.antt =====
-- `switch_task_state` of kernel/scheduler.c: the changes of state that a task may make.
use fi_rststep.Prelude.{
  ℕ, suc, ◌≤◌, ◌<◌, Bool, true, false, some, ◌≡◌, ◌∙◌, refl, ◌==◌, arith, if◌then◌else◌,
}
use fi_rststep.Task.{
  nr_tasks, TaskState, task_none, task_ready, task_running, task_blocked, task_zombie, task_dead,
  same_state, set_state,
}
use fi_rststep.Prelude.Words.{null}
use fi_rststep.Task.Slots.{Slots, get_free_task_union, set_free_task_union}
use fi_rststep.Task.Slots.Laws.{
  NotGiven, set_free_task_union_lem, get_free_task_union-NotGiven, get_free_task_union-le,
}
use fi_rststep.Sched.{Sched, ok, panic, ◌>>=◌}
use fi_rststep.Sched.Switch.{
  leave_for_ready, leave_for_running, leave_for_zombie, leave_for_dead, task_dead_free,
  switch_to_ready_state, switch_to_running_state, switch_to_zombie_state, switch_to_dead_state,
  enter, switch_task_state,
}

-- the edges of the state diagram
abbrev pub is_edge : TaskState → TaskState → Bool
is_edge task_none task_ready = true
is_edge task_running task_ready = true
is_edge task_ready task_running = true
is_edge task_running task_zombie = true
is_edge task_zombie task_dead = true
is_edge _ _ = false

leave_for_running-panic :
    (task : ℕ) (st : TaskState) (s : Sched)
    → is_edge st task_running ≡ false
    → leave_for_running task st s ≡ panic
unfolding leave_for_running
leave_for_running-panic task st s h = ground arith

leave_for_ready-panic :
    (st : TaskState) (s : Sched) → is_edge st task_ready ≡ false → leave_for_ready st s ≡ panic
unfolding leave_for_ready
leave_for_ready-panic st s h = ground arith

leave_for_zombie-panic :
    (st : TaskState) (s : Sched) → is_edge st task_zombie ≡ false → leave_for_zombie st s ≡ panic
unfolding leave_for_zombie
leave_for_zombie-panic st s h = ground arith

leave_for_dead-panic :
    (st : TaskState) (s : Sched) → is_edge st task_dead ≡ false → leave_for_dead st s ≡ panic
unfolding leave_for_dead
leave_for_dead-panic st s h = ground arith

enter-panic :
    (task : ℕ) (to : TaskState) (s : Sched)
    → is_edge (s.tasks task).state to ≡ false
    → enter task to s ≡ panic
unfolding enter switch_to_ready_state switch_to_running_state switch_to_zombie_state
    switch_to_dead_state
enter-panic task task_none s h = refl
enter-panic task task_ready s h = rw (leave_for_ready-panic (s.tasks task).state s h, ◌>>=◌)
enter-panic task task_running s h =
    rw (leave_for_running-panic task (s.tasks task).state s h, ◌>>=◌)
enter-panic task task_blocked s h = refl
enter-panic task task_zombie s h = rw (leave_for_zombie-panic (s.tasks task).state s h, ◌>>=◌)
enter-panic task task_dead s h = rw (leave_for_dead-panic (s.tasks task).state s h, ◌>>=◌)

-- For every pair of states that is no edge of the task's state diagram (none to ready, running to
-- ready, ready to running, running to zombie, zombie to dead), `switch_task_state` panics, or does
-- nothing if the task is in that state already.
pub switch_task_state-panic :
    (task : ℕ) (to : TaskState) (s : Sched)
    → is_edge (s.tasks task).state to ≡ false
    → switch_task_state task to s ≡ (if same_state (s.tasks task).state to then ok tt s else panic)
unfolding switch_task_state
switch_task_state-panic task to s h = rw (enter-panic task to s h)

-- The life of the running task `suc k` ends in two steps, `zombie` and `dead`.
pub record IsEnd (k : ℕ) (s zombie dead : Sched) : Type 0 where
  pub is_zombie : (zombie.tasks (suc k)).state ≡ task_zombie
  pub no_current : (zombie.current_task ≡ null) × (dead.current_task ≡ null)
  pub kept : NotGiven (suc k) (get_free_task_union zombie.is_used)
  pub tasks :
      (y : ℕ)
      → dead.tasks y
        ≡ record (s.tasks y) { state = if y == suc k then task_dead else (s.tasks y).state }
  pub slots : (j : ℕ) → dead.is_used j ≡ (if suc j == suc k then false else s.is_used j)
  pub ready : dead.ready_tasks ≡ s.ready_tasks
  pub given :
      (p : ℕ) × (used : Slots) × (get_free_task_union dead.is_used ≡ some (p, used)) × (p ≤ suc k)

-- If the running task is one of the 100 structures and its structure is marked as used, `switch_task_state`
-- makes it a zombie, with no current task then, and `get_free_task_union` does not hand its structure out.
-- A second call makes it dead and frees its structure, so that `get_free_task_union` hands this one or a
-- lower one out. Both calls return; no other structure, whether it is used, and the ready list are
-- changed.
pub switch_task_state-IsEnd :
    (k : ℕ) (s : Sched)
    → k < nr_tasks
    → s.is_used k ≡ true
    → (s.tasks (suc k)).state ≡ task_running
    → (zombie : Sched) × (dead : Sched) × (switch_task_state (suc k) task_zombie s ≡ ok tt zombie)
      × (switch_task_state (suc k) task_dead zombie ≡ ok tt dead)
      × IsEnd k s zombie dead
unfolding switch_task_state enter switch_to_zombie_state leave_for_zombie switch_to_dead_state
    leave_for_dead task_dead_free
switch_task_state-IsEnd k s low used run =
    let zombie = record s { tasks = set_state (suc k) task_zombie s.tasks; current_task = null } in
    let dead = record zombie {
      tasks = set_state (suc k) task_dead zombie.tasks;
      is_used = (set_free_task_union (suc k) s.is_used).1;
    } in
    let here : (suc k == suc k) ≡ true = ground arith in
    let there : (suc k == null) ≡ false = ground arith in
    let freed =
      λ (j : ℕ). set_free_task_union_lem s.is_used (suc k) j (omega arith) (omega arith) in
    (
      zombie,
      dead,
      rw run,
      rw (here, there),
      record {
        is_zombie = rw here;
        no_current = (refl, refl);
        kept = get_free_task_union-NotGiven s.is_used k used;
        tasks = λ y. ground arith;
        slots = freed;
        ready = refl;
        given = get_free_task_union-le dead.is_used k low (freed k ∙ rw here);
      },
    )
