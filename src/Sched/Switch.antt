-- ===== src/Sched/Switch.antt =====
-- kernel/scheduler.c: the changes of a task's state, the scheduler's tick and its start.
use fi_rststep.Prelude.{ℕ, true, false, none, some, ◌==◌, if◌then◌else◌}
use fi_rststep.Prelude.Words.{null}
use fi_rststep.Task.{
  TaskState, task_none, task_ready, task_running, task_zombie, task_dead, set_state, set_frame,
  same_state,
}
use fi_rststep.Task.Slots.{set_free_task_union}
use fi_rststep.Sched.{
  Sched, ok, panic, endless, Cmd, ◌>>=◌, ◌>>◌, pure, get, put, assert, context_switch_to,
  task_list_add, task_list_remove, get_next_ready_task, running_task,
}

-- `task->state`
abbrev pub state_of : ℕ → Sched → TaskState
state_of p s = (s.tasks p).state

-- `task->state = v`
abbrev pub write_state : ℕ → TaskState → Cmd (Unit {0})
write_state p v s = ok tt (record s { tasks = set_state p v s.tasks })

abbrev pub clear_current : Cmd (Unit {0})
clear_current s = ok tt (record s { current_task = null })

-- `task_list_add(&ready_tasks, task)`
unfoldable pub add_ready : ℕ → Cmd (Unit {0})
add_ready task s =
    let (list, t) = task_list_add s.ready_tasks task s.tasks in
    ok tt (record s { ready_tasks = list; tasks = t })

-- `task_list_remove(&ready_tasks, task)`, whose result the caller drops
unfoldable pub remove_ready : ℕ → Cmd (Unit {0})
remove_ready task s = elim (task_list_remove s.ready_tasks task s.tasks) [
  | none ↦ endless
  | some (found, list, t) ↦ ok tt (record s { ready_tasks = list; tasks = t })
]

unfoldable pub leave_for_ready : TaskState → Cmd (Unit {0})
leave_for_ready task_none = pure tt
leave_for_ready task_running = clear_current
leave_for_ready _ = λ s. panic

unfoldable pub switch_to_ready_state : ℕ → Cmd (Unit {0})
unfolding leave_for_ready add_ready
switch_to_ready_state task = do
  s ← get
  leave_for_ready (state_of task s)
  write_state task task_ready
  add_ready task

-- `switch_task_state(task, TASK_READY)`, the call that `switch_to_running_state` makes
unfoldable pub make_ready : ℕ → Cmd (Unit {0})
unfolding switch_to_ready_state
make_ready task s =
    if same_state (state_of task s) task_ready then ok tt s else switch_to_ready_state task s

-- `if (running_task(0) != NULL) switch_task_state(running_task(1), TASK_READY);`
unfoldable pub requeue_running : Cmd (Unit {0})
unfolding running_task make_ready
requeue_running = do
  current ← running_task false
  if current == null then pure tt else running_task true >>= make_ready

unfoldable pub leave_for_running : ℕ → TaskState → Cmd (Unit {0})
unfolding remove_ready
leave_for_running task task_ready = remove_ready task
leave_for_running task _ = λ s. panic

abbrev pub set_current : ℕ → Cmd (Unit {0})
set_current task s = ok tt (record s { current_task = task })

unfoldable pub switch_to_running_state : ℕ → Cmd (Unit {0})
unfolding leave_for_running requeue_running context_switch_to
switch_to_running_state task = do
  s ← get
  leave_for_running task (state_of task s)
  requeue_running
  write_state task task_running
  set_current task
  context_switch_to task

unfoldable pub leave_for_zombie : TaskState → Cmd (Unit {0})
leave_for_zombie task_running = clear_current
leave_for_zombie _ = λ s. panic

unfoldable pub switch_to_zombie_state : ℕ → Cmd (Unit {0})
unfolding leave_for_zombie
switch_to_zombie_state task = do
  s ← get
  leave_for_zombie (state_of task s)
  write_state task task_zombie

-- `task_dead` of task.c: the result of `set_free_task_union` is dropped
unfoldable pub task_dead_free : ℕ → Cmd (Unit {0})
task_dead_free task = do
  assert (if task == null then false else true)
  s ← get
  put (record s { is_used = (set_free_task_union task s.is_used).1 })

unfoldable pub leave_for_dead : TaskState → Cmd (Unit {0})
leave_for_dead task_zombie = pure tt
leave_for_dead _ = λ s. panic

unfoldable pub switch_to_dead_state : ℕ → Cmd (Unit {0})
unfolding leave_for_dead task_dead_free
switch_to_dead_state task = do
  s ← get
  leave_for_dead (state_of task s)
  write_state task task_dead
  task_dead_free task

-- the `switch (state)` of `switch_task_state`
unfoldable pub enter : ℕ → TaskState → Cmd (Unit {0})
unfolding switch_to_running_state switch_to_ready_state switch_to_zombie_state switch_to_dead_state
enter task task_running = switch_to_running_state task
enter task task_ready = switch_to_ready_state task
enter task task_zombie = switch_to_zombie_state task
enter task task_dead = switch_to_dead_state task
enter task _ = λ s. panic

unfoldable pub switch_task_state : ℕ → TaskState → Cmd (Unit {0})
unfolding enter
switch_task_state task state s =
    if same_state (state_of task s) state then ok tt s else enter task state s

-- `current_task->interrupt_frame = frame`, if there is a current task
unfoldable pub save_frame : ℕ → Cmd (Unit {0})
save_frame frame s =
    if s.current_task == null
    then ok tt s
    else ok tt (record s { tasks = set_frame s.current_task frame s.tasks })

-- With no ready task the current one goes on: `context_switch_to` does not come back, so the last
-- line runs only with a task.
unfoldable pub schedule_handler : ℕ → Cmd (Unit {0})
unfolding save_frame get_next_ready_task running_task context_switch_to switch_task_state
schedule_handler frame = do
  save_frame frame
  s ← get
  let next_task = get_next_ready_task s
  if next_task == null
      then running_task true >>= context_switch_to
      else switch_task_state next_task task_running

-- `scheduler_init` up to `start_timer`; then the processor sleeps until a tick.
unfoldable pub scheduler_init : ℕ → Cmd (Unit {0})
unfolding switch_task_state
scheduler_init init_task = switch_task_state init_task task_ready
