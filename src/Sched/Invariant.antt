-- ===== src/Sched/Invariant.antt =====
-- When the scheduler's state stands for a running task and a queue of ready ones, and what the list
-- operations do to that.
use fi_rststep.Prelude.{
  ℕ, suc, ◌≤◌, true, false, List, [], ◌∷◌, ◌++◌, ◌≡◌, ◌≢◌, ◌⊎◌, refl, ◌==◌, arith, if◌then◌else◌,
  length, Bool-cases, inl, inr,
}
use fi_rststep.Prelude.Words.{null}
use fi_rststep.Task.{task_ready, task_running, Tasks, set_state, nr_tasks}
use fi_rststep.Sched.{Sched, TaskList, ok, ◌>>=◌, task_list_add, unlink, running_task}
use fi_rststep.Sched.Links.{has, IsList, Seg-frame, has-append}
use fi_rststep.Sched.Add.{task_list_add-append}
use fi_rststep.Sched.Remove.{task_list_remove-mem}
use fi_rststep.Sched.Switch.{
  add_ready, remove_ready, switch_to_ready_state, make_ready, requeue_running, leave_for_ready,
}

abbrev pub AllReady : Tasks → List ℕ → Type 0
AllReady t xs = (y : ℕ) → has y xs ≡ true → (t y).state ≡ task_ready

-- The ready list holds `xs`, all of them ready.
pub record IsQueue (l : TaskList) (t : Tasks) (xs : List ℕ) : Type 0 where
  pub list : IsList l t xs
  pub ready : AllReady t xs

-- No task runs, or `current_task` does.
abbrev pub Running : Sched → Type 0
Running s = (s.current_task ≡ null) ⊎ ((s.tasks s.current_task).state ≡ task_running)

pub record IsSched (s : Sched) (xs : List ℕ) : Type 0 where
  pub queue : IsQueue s.ready_tasks s.tasks xs
  pub running : Running s
  pub short : length xs ≤ nr_tasks

-- Writes that touch no link keep the list.
pub IsList-relabel :
    (l : TaskList) (t u : Tasks) (xs : List ℕ)
    → ((y : ℕ) → ((u y).prev ≡ (t y).prev) × ((u y).next ≡ (t y).next))
    → IsList l t xs
    → IsList l u xs
IsList-relabel l t u xs same is = record {
  chain = Seg-frame t u null l.head xs null l.tail (λ y h. same y) is.chain;
  distinct = is.distinct;
}

-- The list operations write no state, and no page directory or kernel stack.
pub record SameOwn (t u : Tasks) : Type 0 where
  pub state : (y : ℕ) → (u y).state ≡ (t y).state
  pub page_dir : (y : ℕ) → (u y).page_dir ≡ (t y).page_dir
  pub frame : (y : ℕ) → (u y).frame ≡ (t y).frame
  pub ss0 : (y : ℕ) → (u y).ss0 ≡ (t y).ss0
  pub esp0 : (y : ℕ) → (u y).esp0 ≡ (t y).esp0

pub unlink-SameOwn : (l : TaskList) (a : ℕ) (t : Tasks) → SameOwn t (unlink l a t).1
unfolding unlink
unlink-SameOwn l a t = record {
  state = λ y. refl;
  page_dir = λ y. refl;
  frame = λ y. refl;
  ss0 = λ y. refl;
  esp0 = λ y. refl;
}

pub task_list_add-SameOwn : (l : TaskList) (a : ℕ) (t : Tasks) → SameOwn t (task_list_add l a t).1
unfolding task_list_add
task_list_add-SameOwn l a t = record {
  state = λ y. ground arith;
  page_dir = λ y. ground arith;
  frame = λ y. ground arith;
  ss0 = λ y. ground arith;
  esp0 = λ y. ground arith;
}

-- the state with `x` gone from the ready list
unfoldable pub removed : ℕ → Sched → Sched
removed x s = let (l, t) = unlink s.ready_tasks x s.tasks in record s { ready_tasks = l; tasks = t }

pub remove_ready-head :
    (s : Sched) (x : ℕ) (xs : List ℕ)
    → IsQueue s.ready_tasks s.tasks (x ∷ xs)
    → suc (length xs) ≤ nr_tasks
    → (remove_ready x s ≡ ok tt (removed x s))
      × IsQueue (removed x s).ready_tasks (removed x s).tasks xs
unfolding remove_ready removed
remove_ready-head s x xs q short =
    let both = task_list_remove-mem s.ready_tasks s.tasks x [] xs short q.list in
    let own = unlink-SameOwn s.ready_tasks x s.tasks in
    (
      rw (both.0, remove_ready),
      record { list = both.1; ready = λ y h. ground (arith, own.state y, q.ready y) },
    )

-- the state with `c` ready and at the end of the ready list
unfoldable pub queued : ℕ → Sched → Sched
queued c s =
    let (l, t) = task_list_add s.ready_tasks c (set_state c task_ready s.tasks) in
    record s { ready_tasks = l; tasks = t }

pub queued-IsQueue :
    (s : Sched) (c : ℕ) (xs : List ℕ)
    → c ≢ null
    → has c xs ≡ false
    → IsQueue s.ready_tasks s.tasks xs
    → IsQueue (queued c s).ready_tasks (queued c s).tasks (xs ++ (c ∷ []))
unfolding queued
queued-IsQueue s c xs ne out q =
    let t = set_state c task_ready s.tasks in
    let own = task_list_add-SameOwn s.ready_tasks c t in
    record {
      list =
          task_list_add-append s.ready_tasks c t xs ne out
            (IsList-relabel s.ready_tasks s.tasks t xs (λ y. (refl, refl)) q.list);
      ready = λ y h. ground (arith, own.state y, has-append y xs (c ∷ []), q.ready y);
    }

-- `switch_task_state(c, TASK_READY)` of the running task gives up the processor for a place at the end.
pub make_ready-running :
    (s : Sched) (c : ℕ)
    → (s.tasks c).state ≡ task_running
    → make_ready c s ≡ ok tt (queued c (record s { current_task = null }))
unfolding queued make_ready switch_to_ready_state leave_for_ready add_ready
make_ready-running s c run = rw (run, make_ready)

pub running_task_busy :
    (s : Sched) → (s.current_task == null) ≡ false → running_task true s ≡ ok s.current_task s
unfolding running_task
running_task_busy s busy = rw (busy, running_task)

-- The running task, if there is one, goes back to the end of the ready list.
pub requeue_running_lem :
    (s : Sched)
    → Running s
    → requeue_running s
      ≡ ok tt (
          if s.current_task == null
          then s
          else queued s.current_task (record s { current_task = null }))
unfolding requeue_running
requeue_running_lem s h = elim (Bool-cases (s.current_task == null)) [
  | inl idle ↦ rw idle
  | inr busy ↦
      let run : (s.tasks s.current_task).state ≡ task_running = ground arith in
      rw (busy, running_task_busy s busy, ◌>>=◌) (make_ready-running s s.current_task run)
]
