-- ===== src/Sched/Tick.antt =====
-- `schedule_handler` of kernel/scheduler.c: what one tick does to the queue of tasks.
use fi_rststep.Prelude.{
  ℕ, ◌≤◌, true, false, List, [], ◌∷◌, ◌++◌, ◌≡◌, ◌≢◌, refl, ◌==◌, arith, if◌then◌else◌, length,
  length-append, append-nil, ◌∙◌, subst, inl, inr, Bool-cases,
}
use fi_rststep.Prelude.Words.{null}
use fi_rststep.Task.{task_ready, task_running, Tasks, set_state, set_frame}
use fi_rststep.Sched.{
  Sched, ok, ◌>>=◌, jump, panic, context_switch_to, get_next_ready_task, running_task,
}
use fi_rststep.Sched.Links.{has, has-append}
use fi_rststep.Sched.Remove.{apart_of_has}
use fi_rststep.Sched.Invariant.{
  IsQueue, IsSched, Running, SameOwn, unlink-SameOwn, task_list_add-SameOwn, removed,
  remove_ready-head, queued, queued-IsQueue, requeue_running_lem, IsList-relabel,
}
use fi_rststep.Sched.Switch.{
  requeue_running, leave_for_running, switch_to_running_state, enter, switch_task_state, save_frame,
  schedule_handler,
}

-- The abstract scheduler: who runs (or null), and who waits, in order.
abbrev pub waiting : ℕ → List ℕ
waiting c = if c == null then [] else c ∷ []

length-waiting : (c : ℕ) → length (waiting c) ≤ 1
length-waiting c = ground arith

frame-queued : (s : Sched) (c y : ℕ) → ((queued c s).tasks y).frame ≡ (s.tasks y).frame
unfolding queued
frame-queued s c y =
    (task_list_add-SameOwn s.ready_tasks c (set_state c task_ready s.tasks)).frame y

removed-SameOwn : (s : Sched) (x : ℕ) → SameOwn s.tasks (removed x s).tasks
unfolding removed
removed-SameOwn s x = unlink-SameOwn s.ready_tasks x s.tasks

removed-Running : (s : Sched) (x : ℕ) → Running s → Running (removed x s)
unfolding removed
removed-Running s x h = ground (arith, own.state s.current_task)
  where
    own : SameOwn s.tasks (removed x s).tasks
    own = unlink-SameOwn s.ready_tasks x s.tasks

-- the state before the switch: `x` out of the list, the running task at its end
unfoldable pub requeued : ℕ → Sched → Sched
requeued x s =
    let s₁ = removed x s in
    if s₁.current_task == null
    then s₁
    else queued s₁.current_task (record s₁ { current_task = null })

-- what `context_switch_to x` leaves
abbrev pub switched : ℕ → Sched → Sched
switched x s = record s {
  tasks = set_state x task_running s.tasks;
  current_task = x;
  tss_ss0 = (s.tasks x).ss0;
  tss_esp0 = (s.tasks x).esp0;
  cr3 = (s.tasks x).page_dir;
}

requeue-removed :
    (s : Sched) (x : ℕ) (xs : List ℕ)
    → IsSched s (x ∷ xs)
    → requeue_running (removed x s) ≡ ok tt (requeued x s)
unfolding requeued
requeue-removed s x xs is = requeue_running_lem (removed x s) (removed-Running s x is.running)

pub switch_to_running_state_lem :
    (s : Sched) (x : ℕ) (xs : List ℕ)
    → IsSched s (x ∷ xs)
    → switch_task_state x task_running s ≡ jump x (switched x (requeued x s))
unfolding switch_task_state enter switch_to_running_state leave_for_running context_switch_to
switch_to_running_state_lem s x xs is =
    let st : (s.tasks x).state ≡ task_ready = is.queue.ready x (ground arith) in
    rw (st, ◌>>=◌, (remove_ready-head s x xs is.queue is.short).0, requeue-removed s x xs is)

-- A running task is in no ready list.
pub running-not_mem :
    (s : Sched) (c : ℕ) (xs : List ℕ)
    → IsQueue s.ready_tasks s.tasks xs
    → (s.tasks c).state ≡ task_running
    → has c xs ≡ false
running-not_mem s c xs q run = elim (Bool-cases (has c xs)) [
  | inl h ↦ let r : (s.tasks c).state ≡ task_ready = q.ready c h in cc
  | inr h ↦ h
]

requeued_idle : (s : Sched) (x : ℕ) → (s.current_task == null) ≡ true → requeued x s ≡ removed x s
unfolding requeued removed
requeued_idle s x idle = rw idle

requeued_busy :
    (s : Sched) (x : ℕ)
    → (s.current_task == null) ≡ false
    → requeued x s ≡ queued s.current_task (record (removed x s) { current_task = null })
unfolding requeued removed
requeued_busy s x busy = rw busy

requeued-IsQueue :
    (s : Sched) (x : ℕ) (xs : List ℕ)
    → IsSched s (x ∷ xs)
    → IsQueue (requeued x s).ready_tasks (requeued x s).tasks (xs ++ waiting s.current_task)
requeued-IsQueue s x xs is = elim (Bool-cases (s.current_task == null)) [
  | inl idle ↦
      rw (requeued_idle s x idle, idle, append-nil) (remove_ready-head s x xs is.queue is.short).1
  | inr busy ↦
      let c = s.current_task in
      let ne : c ≢ null = ground arith in
      let run : (s.tasks c).state ≡ task_running = ground arith in
      let gone = (remove_ready-head s x xs is.queue is.short).1 in
      let run' : ((removed x s).tasks c).state ≡ task_running =
        (removed-SameOwn s x).state c ∙ run in
      rw (requeued_busy s x busy, busy)
        (queued-IsQueue (record (removed x s) { current_task = null }) c xs ne
          (running-not_mem (removed x s) c xs gone run') gone)
]

apart_of_state :
    (t : Tasks) (x y : ℕ) → (t x).state ≡ task_ready → (t y).state ≡ task_running → x ≢ y
apart_of_state t x y h k e =
    let h' : (t y).state ≡ task_ready = subst (λ z. (t z).state ≡ task_ready) e h in cc

-- The task that is switched to is not among those that wait afterwards.
taken-not_mem :
    (s : Sched) (x : ℕ) (xs : List ℕ)
    → IsSched s (x ∷ xs)
    → has x (xs ++ waiting s.current_task) ≡ false
taken-not_mem s x xs is =
    let st : (s.tasks x).state ≡ task_ready = is.queue.ready x (ground arith) in
    let out : has x xs ≡ false = is.queue.list.distinct.0 in
    elim (Bool-cases (s.current_task == null)) [
      | inl idle ↦ rw (idle, append-nil) out
      | inr busy ↦
          let run : (s.tasks s.current_task).state ≡ task_running = ground arith in
          let apart : x ≢ s.current_task = apart_of_state s.tasks x s.current_task st run in
          rw busy (ground (arith, has-append x xs (s.current_task ∷ [])))
    ]

pub switched-IsSched :
    (s : Sched) (x : ℕ) (xs : List ℕ)
    → IsSched s (x ∷ xs)
    → IsSched (switched x (requeued x s)) (xs ++ waiting s.current_task)
switched-IsSched s x xs is =
    let q = requeued-IsQueue s x xs is in
    let out = taken-not_mem s x xs is in
    let ys = xs ++ waiting s.current_task in
    record {
      queue = record {
        list =
            IsList-relabel (requeued x s).ready_tasks (requeued x s).tasks
              (switched x (requeued x s)).tasks ys (λ y. (refl, refl)) q.list;
        ready = λ y h. let ne : y ≢ x = apart_of_has y x ys h out in ground (arith, q.ready y h);
      };
      running = inr (ground arith);
      short = omega (
        arith,
        length-append {0} xs (waiting s.current_task),
        length-waiting s.current_task,
        is.short,
      );
    }

-- the state after the frame of the running task is saved
abbrev pub saved : ℕ → Sched → Sched
saved frame s =
    if s.current_task == null
    then s
    else record s { tasks = set_frame s.current_task frame s.tasks }

pub saved-IsSched :
    (s : Sched) (frame : ℕ) (xs : List ℕ) → IsSched s xs → IsSched (saved frame s) xs
saved-IsSched s frame xs is = elim (Bool-cases (s.current_task == null)) [
  | inl idle ↦ rw idle is
  | inr busy ↦ rw busy (record {
    queue = record {
      list =
          IsList-relabel s.ready_tasks s.tasks (set_frame s.current_task frame s.tasks) xs
            (λ y. (refl, refl)) is.queue.list;
      ready = is.queue.ready;
    };
    running = is.running;
    short = is.short;
  })
]

save_frame_lem : (s : Sched) (frame : ℕ) → save_frame frame s ≡ ok tt (saved frame s)
unfolding save_frame
save_frame_lem s frame = ground arith

get_next_ready_task-cons :
    (s : Sched) (x : ℕ) (xs : List ℕ)
    → IsSched s (x ∷ xs)
    → (get_next_ready_task s ≡ x) × ((x == null) ≡ false)
unfolding get_next_ready_task
get_next_ready_task-cons s x xs is = let chain = is.queue.list.chain in (chain.0, ground arith)

get_next_ready_task-nil : (s : Sched) → IsSched s [] → get_next_ready_task s ≡ null
unfolding get_next_ready_task
get_next_ready_task-nil s is = is.queue.list.chain.0

-- A tick with a ready task switches to the first one.
pub schedule_handler_ready :
    (frame : ℕ) (s : Sched) (x : ℕ) (xs : List ℕ)
    → IsSched s (x ∷ xs)
    → schedule_handler frame s ≡ jump x (switched x (requeued x (saved frame s)))
unfolding schedule_handler
schedule_handler_ready frame s x xs is =
    let is' = saved-IsSched s frame (x ∷ xs) is in
    let (first, ne) = get_next_ready_task-cons (saved frame s) x xs is' in
    rw (save_frame_lem s frame, ◌>>=◌, first, ne)
      (switch_to_running_state_lem (saved frame s) x xs is')

-- what the tick of the running task alone leaves
abbrev pub resumed : ℕ → Sched → Sched
resumed c s = record s {
  tss_ss0 = (s.tasks c).ss0;
  tss_esp0 = (s.tasks c).esp0;
  cr3 = (s.tasks c).page_dir;
}

pub current-saved : (s : Sched) (frame : ℕ) → (saved frame s).current_task ≡ s.current_task
current-saved s frame = ground arith

-- From a valid state with no ready task, a timer tick panics if there is no current task, and
-- otherwise jumps back into the current task, its frame saved and the TSS and the page directory
-- set to its own.
pub schedule_handler_empty :
    (frame : ℕ) (s : Sched)
    → IsSched s []
    → schedule_handler frame s ≡ (
        if s.current_task == null
        then panic
        else jump s.current_task (resumed s.current_task (saved frame s)))
unfolding schedule_handler running_task context_switch_to
schedule_handler_empty frame s is =
    let first = get_next_ready_task-nil (saved frame s) (saved-IsSched s frame [] is) in
    elim (Bool-cases (s.current_task == null)) [
      | inl idle ↦ rw (save_frame_lem s frame, ◌>>=◌, first, idle) (ground arith)
      | inr busy ↦ rw (save_frame_lem s frame, ◌>>=◌, first, busy) (ground arith)
    ]

-- Queueing tasks moves no saved frame.
pub frame-requeued : (s : Sched) (x y : ℕ) → ((requeued x s).tasks y).frame ≡ (s.tasks y).frame
frame-requeued s x y = elim (Bool-cases (s.current_task == null)) [
  | inl idle ↦ rw (requeued_idle s x idle) ((removed-SameOwn s x).frame y)
  | inr busy ↦ rw (requeued_busy s x busy) (
      frame-queued (record (removed x s) { current_task = null }) s.current_task y
      ∙ (removed-SameOwn s x).frame y)
]
