-- ===== src/Task.antt =====
-- inc/kernel/task.h: the task structure and its states. A task pointer is 0 for
-- NULL and i + 1 for `&task_unions[i]`. All of physical memory is mapped for the kernel, page 0 too,
-- so a write through NULL is no fault: it lands in a cell of its own, and the store is total.
pub mod Slots
use fi_rststep.Prelude.{ℕ, Bool, ◌==◌, if◌then◌else◌}

pub data TaskState : Type 0 where
  task_none : TaskState
  task_ready : TaskState
  task_running : TaskState
  task_blocked : TaskState
  task_zombie : TaskState
  task_dead : TaskState

-- `struct task_struct`; of the TSS the two fields that the kernel writes. `frame` is the address of
-- the saved interrupt frame.
pub record TaskStruct : Type 0 where
  pub ss0 : ℕ
  pub esp0 : ℕ
  pub pid : ℕ
  pub state : TaskState
  pub exit_code : ℕ
  pub frame : ℕ
  pub page_dir : ℕ
  pub prev : ℕ
  pub next : ℕ
  pub parent : ℕ
  pub child : ℕ
  pub sibling : ℕ

abbrev pub Tasks : Type 0
Tasks = ℕ → TaskStruct

-- A write of one field of one structure: `p->prev = v`, and so on.
abbrev pub set_prev : ℕ → ℕ → Tasks → Tasks
set_prev p v t q = record (t q) { prev = if q == p then v else (t q).prev }

abbrev pub set_next : ℕ → ℕ → Tasks → Tasks
set_next p v t q = record (t q) { next = if q == p then v else (t q).next }

abbrev pub set_state : ℕ → TaskState → Tasks → Tasks
set_state p v t q = record (t q) { state = if q == p then v else (t q).state }

abbrev pub set_frame : ℕ → ℕ → Tasks → Tasks
set_frame p v t q = record (t q) { frame = if q == p then v else (t q).frame }

-- `x == y` on states, as C compares the enumeration
abbrev pub same_state : TaskState → TaskState → Bool
same_state task_none task_none = Bool.true
same_state task_ready task_ready = Bool.true
same_state task_running task_running = Bool.true
same_state task_blocked task_blocked = Bool.true
same_state task_zombie task_zombie = Bool.true
same_state task_dead task_dead = Bool.true
same_state _ _ = Bool.false

abbrev pub nr_tasks : ℕ
nr_tasks = 100
