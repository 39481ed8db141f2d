-- ===== src/Examples/Scheduling.antt =====
-- kernel/scheduler.c on a concrete state: task 1 runs, tasks 2 and 3 are ready, in this order.
use fi_rststep.Prelude.{
  ℕ, ◌+◌, ◌≡◌, ◌≢◌, refl, true, false, some, [], ◌∷◌, arith, ◌==◌, ltb, if◌then◌else◌, inr,
}
use fi_rststep.Prelude.Words.{null}
use fi_rststep.Task.{Tasks, TaskState, task_none, task_ready, task_running, task_zombie, task_dead}
use fi_rststep.Sched.{
  get_next_ready_task, find_task, running_task, context_switch_to, Run, endless, Sched, TaskList,
  ok, jump, task_list_add, unlink, task_list_remove, panic,
}
use fi_rststep.Sched.Links.{IsList}
use fi_rststep.Sched.Add.{task_list_add-append}
use fi_rststep.Sched.Remove.{task_list_remove-mem, task_list_remove-not_mem}
use fi_rststep.Sched.Invariant.{IsSched}
use fi_rststep.Sched.Switch.{
  schedule_handler, switch_task_state, enter, switch_to_ready_state, leave_for_ready, add_ready,
  save_frame, switch_to_running_state, leave_for_running, requeue_running, remove_ready,
}
use fi_rststep.Sched.Safety.{start, next, ticked, changed, Reach-one_running}
use fi_rststep.Sched.Transitions.{switch_task_state-panic, switch_task_state-IsEnd, IsEnd}
use fi_rststep.Sched.RoundRobin.{
  IsTurned, turn, turns, schedule_handler-turn, run_ticks, run_ticks-turns, run_ticks-reach,
}

abbrev state_of : ℕ → TaskState
state_of p =
    if p == 1
    then task_running
    else if p == 2
    then task_ready
    else if p == 3
    then task_ready
    else task_none

-- task p has page directory 0x1000 + p
abbrev three_tasks : Tasks
three_tasks p = record {
  ss0 = 0x10;
  esp0 = 0x2000 + p;
  pid = p;
  state = state_of p;
  exit_code = 0;
  frame = 0;
  page_dir = 0x1000 + p;
  prev = if p == 3 then 2 else 0;
  next = if p == 2 then 3 else 0;
  parent = 0;
  child = 0;
  sibling = 0;
}

abbrev ready_list : TaskList
ready_list = record { head = 2; tail = 3 }

abbrev no_list : TaskList
no_list = record { head = 0; tail = 0 }

abbrev with_list : TaskList → Sched
with_list l = record {
  tasks = three_tasks;
  current_task = 1;
  ready_tasks = l;
  is_used = λ i. false;
  tss_ss0 = 0;
  tss_esp0 = 0;
  cr3 = 0;
}

two_ready-IsList : IsList ready_list three_tasks (2 ∷ 3 ∷ [])
two_ready-IsList = record {
  chain = (refl, ground arith, refl, (refl, ground arith, refl, (refl, refl)));
  distinct = (refl, (refl, tt));
}

two_ready-IsSched : IsSched (with_list ready_list) (2 ∷ 3 ∷ [])
two_ready-IsSched = record {
  queue = record { list = two_ready-IsList; ready = λ y h. ground arith };
  running = inr refl;
  short = omega arith;
}

none_ready-IsSched : IsSched (with_list no_list) []
none_ready-IsSched = record {
  queue = record {
    list = record { chain = (refl, refl); distinct = tt };
    ready = λ y h. ground arith;
  };
  running = inr refl;
  short = omega arith;
}

one_ne_null : (with_list ready_list).current_task ≢ null
one_ne_null = ground arith

task_list_add-append_example :
    let (l', t') = task_list_add ready_list 1 three_tasks in IsList l' t' (2 ∷ 3 ∷ 1 ∷ [])
task_list_add-append_example =
    task_list_add-append ready_list 1 three_tasks (2 ∷ 3 ∷ []) one_ne_null refl two_ready-IsList

task_list_remove-mem_example :
    (task_list_remove ready_list 3 three_tasks
      ≡ some (true, (unlink ready_list 3 three_tasks).0, (unlink ready_list 3 three_tasks).1))
    × (let (l', t') = unlink ready_list 3 three_tasks in IsList l' t' (2 ∷ []))
task_list_remove-mem_example =
    task_list_remove-mem ready_list three_tasks 3 (2 ∷ []) [] (omega arith) two_ready-IsList

task_list_remove-not_mem_example :
    task_list_remove ready_list 5 three_tasks ≡ some (false, ready_list, three_tasks)
task_list_remove-not_mem_example =
    task_list_remove-not_mem ready_list three_tasks 5 (2 ∷ 3 ∷ []) (omega arith) two_ready-IsList
      refl

schedule_handler-turn_example :
    (s' : Sched) × (schedule_handler 0x7fff (with_list ready_list) ≡ jump 2 s')
    × IsTurned 0x7fff (with_list ready_list) s' 2 (3 ∷ 1 ∷ [])
unfolding turn
schedule_handler-turn_example =
    schedule_handler-turn 0x7fff (with_list ready_list) (2 ∷ 3 ∷ []) two_ready-IsSched one_ne_null

run_ticks-turns_example :
    (s' : Sched) × (run_ticks (λ n. 0x7fff) 3 (with_list ready_list) ≡ ok tt s')
    × (s'.current_task ≡ 1)
    × IsSched s' (2 ∷ 3 ∷ [])
unfolding turns turn
run_ticks-turns_example =
    run_ticks-turns (λ n. 0x7fff) 3 (with_list ready_list) (2 ∷ 3 ∷ []) two_ready-IsSched
      one_ne_null

run_ticks-reach_example :
    (s' : Sched) × (run_ticks (λ n. 0x7fff) 2 (with_list ready_list) ≡ ok tt s')
    × (s'.current_task ≡ 3)
    × IsSched s' (1 ∷ 2 ∷ [])
run_ticks-reach_example =
    run_ticks-reach (λ n. 0x7fff) (with_list ready_list) (2 ∷ []) 3 [] two_ready-IsSched one_ne_null

switch_task_state-panic_example : switch_task_state 2 task_zombie (with_list ready_list) ≡ panic
switch_task_state-panic_example = switch_task_state-panic 2 task_zombie (with_list ready_list) refl

abbrev first_used : Sched
first_used = record (with_list ready_list) { is_used = λ i. ltb i 3 }

switch_task_state-IsEnd_example :
    (zombie : Sched) × (dead : Sched) × (switch_task_state 1 task_zombie first_used ≡ ok tt zombie)
    × (switch_task_state 1 task_dead zombie ≡ ok tt dead)
    × IsEnd 0 first_used zombie dead
switch_task_state-IsEnd_example = switch_task_state-IsEnd 0 first_used (omega arith) refl refl

-- no task yet, then one that is made ready and gets the processor
abbrev no_tasks : Sched
no_tasks = record (with_list no_list) {
  tasks = λ p. record (three_tasks p) { state = task_none };
  current_task = 0;
}

abbrev state_after : Run (Unit {0}) → Sched
state_after (ok a s) = s
state_after (jump p s) = s
state_after panic = no_tasks
state_after endless = no_tasks

abbrev one_ready : Sched
unfolding switch_task_state enter switch_to_ready_state leave_for_ready add_ready task_list_add
one_ready = state_after (switch_task_state 1 task_ready no_tasks)

abbrev one_running : Sched
unfolding schedule_handler save_frame get_next_ready_task switch_task_state enter
    switch_to_running_state leave_for_running requeue_running remove_ready task_list_remove
    find_task unlink running_task context_switch_to
one_running = state_after (schedule_handler 0 one_ready)

one_ready-changed : switch_task_state 1 task_ready no_tasks ≡ ok tt one_ready
unfolding switch_task_state enter switch_to_ready_state leave_for_ready add_ready task_list_add
one_ready-changed = refl

one_running-ticked : schedule_handler 0 one_ready ≡ jump 1 one_running
unfolding schedule_handler save_frame get_next_ready_task switch_task_state enter
    switch_to_running_state leave_for_running requeue_running remove_ready task_list_remove
    find_task unlink running_task context_switch_to one_ready switch_to_ready_state leave_for_ready
    add_ready task_list_add
one_running-ticked = refl

one_running-task : (one_running.tasks 1).state ≡ task_running
unfolding one_ready one_running schedule_handler save_frame get_next_ready_task switch_task_state
    enter switch_to_running_state leave_for_running requeue_running remove_ready task_list_remove
    find_task unlink running_task context_switch_to switch_to_ready_state leave_for_ready add_ready
    task_list_add
one_running-task = refl

Reach-one_running_example : 1 ≡ one_running.current_task
Reach-one_running_example =
    Reach-one_running no_tasks one_running 1 (refl, λ y n r. absurd (ground arith))
      (next (next start (changed 1 task_ready (λ e. omega arith) one_ready-changed))
        (ticked 0 one_running-ticked))
      (λ e. omega arith) one_running-task
