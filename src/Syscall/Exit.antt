-- ===== src/Syscall/Exit.antt =====
-- `sys_exit` of kernel/syscall.c: the task ends, and the first ready one goes on.
use fi_rststep.Prelude.{
  ℕ, ◌≤◌, true, false, List, ◌∷◌, ◌++◌, ◌≡◌, ◌≢◌, refl, sym, subst, ◌∙◌, ◌==◌, arith, length,
  append-nil, inl,
}
use fi_rststep.Prelude.Outcome.{ok, ◌>>=◌}
use fi_rststep.Prelude.Words.{null}
use fi_rststep.Task.{Tasks, nr_tasks, task_running, task_zombie, set_state}
use fi_rststep.Sched.{Sched, jump, unlink}
use fi_rststep.Sched.Links.{has, Distinct}
use fi_rststep.Sched.Remove.{apart_of_has}
use fi_rststep.Sched.Invariant.{removed, IsSched, IsList-relabel}
use fi_rststep.Sched.Tick.{
  switched, requeued, schedule_handler_ready, switched-IsSched, running-not_mem,
}
use fi_rststep.Sched.Switch.{switch_task_state, enter, switch_to_zombie_state, leave_for_zombie}
use fi_rststep.Paging.{Vm}
use fi_rststep.Paging.Copy.{free_user_page_dir}
use fi_rststep.Kernel.{Kernel, vm_of, call_ok}
use fi_rststep.Process.Orphans.{Siblings, Siblings-frame, exited, task_exit_lem}
use fi_rststep.Syscall.{sys_exit, running}

-- the scheduler when the running task is a zombie
abbrev zombied : ℕ → Sched → Sched
zombied c s = record s { tasks = set_state c task_zombie s.tasks; current_task = null }

zombied_lem :
    (c : ℕ) (s : Sched)
    → (s.tasks c).state ≡ task_running
    → switch_task_state c task_zombie s ≡ fi_rststep.Sched.ok tt (zombied c s)
unfolding switch_task_state enter switch_to_zombie_state leave_for_zombie
zombied_lem c s run = rw run

-- The ready list does not notice the end of the running task.
after-IsSched :
    (s : Sched) (u : Tasks) (cr3 c x : ℕ) (xs : List ℕ)
    → IsSched s (x ∷ xs)
    → (s.tasks c).state ≡ task_running
    → ((y : ℕ) → (u y).state ≡ (set_state c task_zombie s.tasks y).state)
    → ((y : ℕ) → ((u y).prev ≡ (s.tasks y).prev) × ((u y).next ≡ (s.tasks y).next))
    → IsSched (record (zombied c s) { tasks = u; cr3 = cr3 }) (x ∷ xs)
after-IsSched s u cr3 c x xs is run state links =
    let out = running-not_mem s c (x ∷ xs) is.queue run in
    record {
      queue = record {
        list = IsList-relabel s.ready_tasks s.tasks u (x ∷ xs) links is.queue.list;
        ready = λ y h.
            let ne : y ≢ c = apart_of_has y c (x ∷ xs) h out in
            ground (arith, state y, is.queue.ready y h);
      };
      running = inl refl;
      short = is.short;
    }

-- Switching to a task from none changes links and that task's state only.
after_switch :
    (s : Sched) (x y : ℕ)
    → s.current_task ≡ null
    → let t = (switched x (requeued x s)).tasks in
      ((t y).exit_code ≡ (s.tasks y).exit_code)
      × ((t y).pid ≡ (s.tasks y).pid)
      × ((t y).child ≡ (s.tasks y).child)
      × ((t y).sibling ≡ (s.tasks y).sibling)
      × (y ≢ x → (t y).state ≡ (s.tasks y).state)
unfolding requeued removed unlink
after_switch s x y idle =
    let test : (s.current_task == null) ≡ true = ground arith in
    rw test (refl, refl, refl, refl, λ ne. ground arith)

-- What `sys_exit` of the task `c` leaves when `x` is the first ready task.
pub record IsEnded (k k' : Kernel) (c code x : ℕ) (xs children init_children : List ℕ)
    : Type 0 where
  pub current : k'.sched.current_task ≡ x
  pub sched : IsSched k'.sched xs
  pub zombie : (k'.sched.tasks c).state ≡ task_zombie
  pub status : (k'.sched.tasks c).exit_code ≡ code
  pub pid : (k'.sched.tasks c).pid ≡ (k.sched.tasks c).pid
  pub orphans :
      Siblings k'.sched.tasks (k'.sched.tasks k.init_task).child (children ++ init_children)

-- If the current task is not `init`, the scheduler's state is valid and its first ready task is
-- `x`, the task's page directory can be freed, and the task has the children `xs`, at most 100,
-- none of them among the children `ys` of `init`, then `sys_exit` enters `x`, with the memory
-- freed. `x` is the current task then, the others stay in the ready list in order and the
-- scheduler's state is valid; the task is a zombie with its pid and the exit code for its parent
-- to read, and the children of `init` are `xs` followed by `ys`.
pub sys_exit-IsEnded :
    (k : Kernel) (code x : ℕ) (s : Vm) (xs children init_children : List ℕ)
    → let c = k.sched.current_task in
      c ≢ null
      → c ≢ k.init_task
      → IsSched k.sched (x ∷ xs)
      → free_user_page_dir (k.sched.tasks c).page_dir (vm_of k) ≡ ok s
      → Siblings k.sched.tasks (k.sched.tasks c).child children
      → Siblings k.sched.tasks (k.sched.tasks k.init_task).child init_children
      → Distinct children
      → ((y : ℕ) → has y children ≡ true → has y init_children ≡ false)
      → length children ≤ nr_tasks
      → (k' : Kernel) × (sys_exit code k ≡ ok (x, k'))
        × (k'.vm ≡ s)
        × IsEnded k k' c code x xs children init_children
unfolding sys_exit running
sys_exit-IsEnded k code x s xs children init_children ne not_init is freed ch old d apart short =
    let c = k.sched.current_task in
    let run : (k.sched.tasks c).state ≡ task_running = ground (arith, is.running) in
    let k₁ : Kernel = record k { sched = zombied c k.sched } in
    let ended =
      call_ok (switch_task_state c task_zombie) k (zombied c k.sched) (zombied_lem c k.sched run) in
    let (u, e, a) =
      task_exit_lem k₁ c code s children init_children ne not_init freed
        (Siblings-frame k.sched.tasks k₁.sched.tasks (k.sched.tasks c).child children (λ y h. refl)
          ch)
        (Siblings-frame k.sched.tasks k₁.sched.tasks (k.sched.tasks k.init_task).child init_children
          (λ y h. refl) old)
        d apart short in
    let k₂ = exited k₁ c code s u in
    let is₂ = after-IsSched k.sched u s.cr3 c x xs is run a.state a.links in
    let next = schedule_handler_ready null k₂.sched x xs is₂ in
    let other : x ≢ c =
      apart_of_has x c (x ∷ xs) (ground arith) (running-not_mem k.sched c (x ∷ xs) is.queue run) in
    let given : (c == null) ≡ false = ground arith in
    (
      record k₂ { sched = switched x (requeued x k₂.sched) },
      rw (given, ended, e, next, ◌>>=◌) refl,
      refl,
      record {
        current = refl;
        sched =
            subst (IsSched (switched x (requeued x k₂.sched))) (append-nil xs)
              (switched-IsSched k₂.sched x xs is₂);
        zombie = (after_switch k₂.sched x c refl).4 (λ e. other (sym e)) ∙ a.state c ∙ ground arith;
        status = (after_switch k₂.sched x c refl).0 ∙ a.exit_code c ∙ ground arith;
        pid = (after_switch k₂.sched x c refl).1 ∙ a.pid c;
        orphans =
            subst
              (λ z. Siblings (switched x (requeued x k₂.sched)).tasks z (children ++ init_children))
              (sym (after_switch k₂.sched x k.init_task refl).2)
              (Siblings-frame u (switched x (requeued x k₂.sched)).tasks (u k.init_task).child
                (children ++ init_children) (λ y h. (after_switch k₂.sched x y refl).3) a.children);
      },
    )
