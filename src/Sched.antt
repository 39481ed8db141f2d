-- ===== src/Sched.antt =====
-- kernel/scheduler.c: the ready list and the state changes of a task. A call returns (`ok`), leaves
-- by `iret` into a task (`jump`), stops the machine (`panic`, a failed `assert` too) or never ends.
pub mod Switch
pub mod Links
pub mod Add
pub mod Remove
pub mod Invariant
pub mod Tick
pub mod RoundRobin
pub mod Transitions
pub mod Post
pub mod Moves
pub mod Safety
use fi_rststep.Prelude.{
  ℕ, zero, suc, ◌-◌, Bool, true, false, Option, none, some, ◌==◌, ◌||◌, if◌then◌else◌,
}
use fi_rststep.Prelude.Words.{null}
use fi_rststep.Task.{
  Tasks, TaskStruct, TaskState, task_none, task_ready, task_running, task_blocked, task_zombie,
  task_dead, set_prev, set_next, same_state, nr_tasks,
}
use fi_rststep.Task.Slots.{Slots, set_free_task_union}

pub record TaskList : Type 0 where
  pub head : ℕ
  pub tail : ℕ

-- The statics of scheduler.c with the task store; `is_used` of task.c, which a task's death frees;
-- and what `context_switch_to` loads: the TSS's stack and the page directory.
pub record Sched : Type 0 where
  pub tasks : Tasks
  pub current_task : ℕ
  pub ready_tasks : TaskList
  pub is_used : Slots
  pub tss_ss0 : ℕ
  pub tss_esp0 : ℕ
  pub cr3 : ℕ

pub data Run (A : Type 0) : Type 0 where
  ok : A → Sched → Run A
  jump : ℕ → Sched → Run A
  panic : Run A
  endless : Run A

abbrev pub Cmd : Type 0 → Type 0
Cmd A = Sched → Run A

infixl 5 ◌>>=◌ ◌>>◌
abbrev pub ◌>>=◌ : {A B : Type 0} → Cmd A → (A → Cmd B) → Cmd B
◌>>=◌ m k s = elim (m s) [
  | ok a s' ↦ k a s'
  | jump p s' ↦ jump p s'
  | panic ↦ panic
  | endless ↦ endless
]

abbrev pub ◌>>◌ : {B : Type 0} → Cmd (Unit {0}) → Cmd B → Cmd B
m >> k = m >>= λ _. k

abbrev pub pure : {A : Type 0} → A → Cmd A
pure a s = ok a s

abbrev pub get : Cmd Sched
get s = ok s s

abbrev pub put : Sched → Cmd (Unit {0})
put s' s = ok tt s'

abbrev pub assert : Bool → Cmd (Unit {0})
assert true s = ok tt s
assert false s = panic

unfoldable pub context_switch_to : ℕ → Cmd (Unit {0})
context_switch_to task s = jump task (record s {
  tss_ss0 = (s.tasks task).ss0;
  tss_esp0 = (s.tasks task).esp0;
  cr3 = (s.tasks task).page_dir;
})

unfoldable pub task_list_add : TaskList → ℕ → Tasks → TaskList × Tasks
task_list_add list task t =
    let cleared = set_prev task null (set_next task null t) in
    if list.head == null
    then (record { head = task; tail = task }, cleared)
    else (record list { tail = task }, set_next list.tail task (set_prev task list.tail cleared))

-- `while (task != NULL && task != target)`; `none`: the chain goes round.
unfoldable pub find_task : ℕ → ℕ → ℕ → Tasks → Option ℕ
find_task zero task target t = none
find_task (suc fuel) task target t =
    if (task == null) || (task == target) then some task else find_task fuel (t task).next target t

-- The links that are cut when `task` is found; the four writes in the order of the source.
unfoldable pub unlink : TaskList → ℕ → Tasks → TaskList × Tasks
unlink list task t =
    let list' : TaskList = record {
      head = if task == list.head then (t task).next else list.head;
      tail = if task == list.tail then (t task).prev else list.tail;
    } in
    let t₁ = set_next (t task).prev (t task).next t in
    let t₂ = set_prev (t₁ task).next (t₁ task).prev t₁ in
    (list', set_prev task null (set_next task null t₂))

-- the first part of the result is whether 0 was returned (else -1)
unfoldable pub task_list_remove : TaskList → ℕ → Tasks → Option (Bool × TaskList × Tasks)
task_list_remove list target t = elim (find_task (suc nr_tasks) list.head target t) [
  | none ↦ none
  | some task ↦
      if task == null
      then some (false, list, t)
      else let (list', t') = unlink list task t in some (true, list', t')
]

unfoldable pub get_next_ready_task : Sched → ℕ
get_next_ready_task s = s.ready_tasks.head

unfoldable pub running_task : Bool → Cmd ℕ
running_task check_null s =
    if check_null
    then (if s.current_task == null then panic else ok s.current_task s)
    else ok s.current_task s
