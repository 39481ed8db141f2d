-- ===== src/Syscall.antt =====
-- kernel/syscall.c: the system calls. `schedule` (kernel/entry.S) comes back when the task gets the
-- processor again: it is a parameter, from the state at the call to the state then.
pub mod Reap
pub mod Exit
pub mod Pids
use fi_rststep.Prelude.{
  ℕ, zero, suc, ◌+◌, ◌-◌, ◌*◌, ◌/◌, ◌%◌, ◌^◌, Bool, true, false, not, ◌&&◌, Option, none, some,
  List, [], ◌∷◌, ◌==◌, ltb, if◌then◌else◌,
}
use fi_rststep.Prelude.Outcome.{Outcome, ok, panic, endless, ◌>>=◌, ◌>>◌, assert}
use fi_rststep.Prelude.Words.{null, u32, sub32}
use fi_rststep.Ata.{Bytes, Drive}
use fi_rststep.Fs.{Fat}
use fi_rststep.Task.{Tasks, task_ready, task_zombie, task_dead, same_state, nr_tasks}
use fi_rststep.Sched.{Sched, jump}
use fi_rststep.Sched.Switch.{switch_task_state, schedule_handler}
use fi_rststep.Paging.{store32}
use fi_rststep.Tty.{tty_write}
use fi_rststep.Kernel.{
  Kernel, on_mem, call, load_bytes, load_string, store_user32, eax_at, set_frame_eax,
}
use fi_rststep.Process.{fork_task, task_exit, reload_task_from_elf, set_child}

-- -1 as a 32-bit word
abbrev pub minus_one : ℕ
minus_one = 2 ^ 32 - 1

abbrev pub stdout : ℕ
stdout = 1

abbrev pub wnohang : ℕ
wnohang = 1

-- `running_task(1)`
unfoldable pub running : Kernel → Outcome ℕ
running k = do assert (not (k.sched.current_task == null)); ok k.sched.current_task

-- `sys_default`
abbrev pub sys_default : Kernel → Outcome (ℕ × Kernel)
sys_default k = panic

-- "test syscall!\n"
abbrev test_message : List ℕ
test_message = 116 ∷ 101 ∷ 115 ∷ 116 ∷ 32 ∷ 115 ∷ 121 ∷ 115 ∷ 99 ∷ 97 ∷ 108 ∷ 108 ∷ 33 ∷ 10 ∷ []

unfoldable pub sys_test : Kernel → Outcome (ℕ × Kernel)
sys_test k = ok (2333, record k { tty = (tty_write test_message k.tty).1 })

unfoldable pub sys_write : ℕ → ℕ → ℕ → Kernel → Outcome (ℕ × Kernel)
sys_write fd buf count k =
    if not (fd == stdout)
    then ok (minus_one, k)
    else do bytes ← load_bytes count buf k; ok (count, record k { tty = (tty_write bytes k.tty).1 })

-- `fork_task` may give NULL, which is not tested here.
unfoldable pub sys_fork : Kernel → Outcome (ℕ × Kernel)
sys_fork k = do
  task ← running k
  (new_task, k₁) ← fork_task task k
  k₂ ← call (switch_task_state new_task task_ready) (set_frame_eax new_task 0 k₁)
  ok ((k₂.sched.tasks new_task).pid, k₂)

unfoldable pub sys_getpid : Kernel → Outcome (ℕ × Kernel)
sys_getpid k = do task ← running k; ok ((k.sched.tasks task).pid, k)

-- It does not come back: the task that gets the processor, and the state.
unfoldable pub sys_exit : ℕ → Kernel → Outcome (ℕ × Kernel)
sys_exit exit_code k = do
  task ← running k
  k₁ ← call (switch_task_state task task_zombie) k
  k₂ ← task_exit task exit_code k₁
  elim (schedule_handler null k₂.sched) [
    | fi_rststep.Sched.ok u s ↦ panic
    | jump p s ↦ ok (p, record k₂ { sched = s })
    | fi_rststep.Sched.panic ↦ panic
    | fi_rststep.Sched.endless ↦ endless
  ]

-- the first zombie along the siblings; `none` if the chain goes round
unfoldable pub find_zombie : ℕ → ℕ → Tasks → Outcome ℕ
find_zombie zero p t = endless
find_zombie (suc fuel) p t =
    let rest = find_zombie fuel (t p).sibling t in
    if p == null then ok null else (if same_state (t p).state task_zombie then ok p else rest)

-- the first task with a pid along the siblings
unfoldable pub find_pid : ℕ → ℕ → ℕ → Tasks → Outcome ℕ
find_pid zero pid p t = endless
find_pid (suc fuel) pid p t =
    let rest = find_pid fuel pid (t p).sibling t in
    if p == null then ok null else (if (t p).pid == pid then ok p else rest)

-- The exit status is stored, the child's structure given back, its pid returned.
unfoldable pub reap : ℕ → ℕ → ℕ → Kernel → Outcome (ℕ × Kernel)
reap task child status k = do
  let pid = (k.sched.tasks child).pid
  k₁ ← store_user32 status (k.sched.tasks child).exit_code k
  let t = k₁.sched.tasks
  let k₂ : Kernel = record k₁ {
    sched = record k₁.sched { tasks = set_child task (t child).sibling t };
  }
  k₃ ← call (switch_task_state child task_dead) k₂
  ok (pid, k₃)

module _ (schedule : Kernel → Outcome Kernel) where
  -- Until there is a zombie among the children: the child, or NULL if the caller does not want to wait.
  unfoldable pub wait_any : ℕ → ℕ → Bool → Kernel → Outcome (ℕ × Kernel)
  wait_any zero task no_hang k = endless
  wait_any (suc fuel) task no_hang k = do
    child ← find_zombie (suc nr_tasks) (k.sched.tasks task).child k.sched.tasks
    if not (child == null)
        then ok (child, k)
        else (if no_hang then ok (null, k) else (do k' ← schedule k; wait_any fuel task no_hang k'))

  -- `while (child->state != TASK_ZOMBIE) schedule();`
  unfoldable pub wait_child : ℕ → ℕ → Kernel → Outcome Kernel
  wait_child zero child k = endless
  wait_child (suc fuel) child k =
      if same_state (k.sched.tasks child).state task_zombie
      then ok k
      else do k' ← schedule k; wait_child fuel child k'

  -- `fuel` is how often `schedule` may be called.
  unfoldable pub sys_wait : ℕ → ℕ → Kernel → Outcome (ℕ × Kernel)
  sys_wait fuel status k = do
    task ← running k
    if (k.sched.tasks task).child == null
        then ok (minus_one, k)
        else do (child, k₁) ← wait_any (suc fuel) task false k; reap task child status k₁

  -- `pid_t` is unsigned, so `pid < -1` holds for every pid but -1.
  unfoldable pub sys_waitpid : ℕ → ℕ → ℕ → ℕ → Kernel → Outcome (ℕ × Kernel)
  sys_waitpid fuel pid₀ status options k = do
    task ← running k
    if (k.sched.tasks task).child == null then ok (minus_one, k) else do
      let pid = if ltb pid₀ minus_one then sub32 0 pid₀ else pid₀
      let no_hang = not (options % 2 == 0)
      if pid == 0
          then panic
          else (if pid == minus_one
              then (do
                (child, k₁) ← wait_any (suc fuel) task no_hang k
                if child == null then ok (0, k₁) else reap task child status k₁)
              else (do
                child ← find_pid (suc nr_tasks) pid (k.sched.tasks task).child k.sched.tasks
                if child == null
                    then ok (minus_one, k)
                    else (if no_hang && not (same_state (k.sched.tasks child).state task_zombie)
                        then ok (0, k)
                        else (do k₁ ← wait_child (suc fuel) child k; reap task child status k₁))))

-- How a system call ends: with the value for EAX, or in a task that `sys_exit` enters.
pub data Ending : Type 0 where
  returns : Kernel → Ending
  enters : ℕ → Kernel → Ending

-- `frame->eax = ...`
unfoldable pub finish : ℕ → Outcome (ℕ × Kernel) → Outcome Ending
finish frame r = do (value, k) ← r; ok (returns (on_mem (store32 (frame + eax_at) value) k))

module _ (fat : Fat) (drive : Drive) (junk : Bytes) (schedule : Kernel → Outcome Kernel) where
  -- The path is read through the task's own directory; 2 ^ 32 bytes are the whole address space.
  unfoldable pub sys_execl : ℕ → ℕ → Kernel → Outcome (ℕ × Kernel)
  sys_execl file_path args k = do
    task ← running k
    assert (not (task == null))
    assert (not (file_path == null))
    path ← load_string (2 ^ 32) file_path k
    (done, k₁) ← reload_task_from_elf fat drive junk path task k
    if not done
        then ok (minus_one, k₁)
        else ok (0, record k₁ { sched = record k₁.sched { cr3 = (k₁.sched.tasks task).page_dir } })

  -- the call that `syscall_init` puts at an index of the table, for the indices below `NR_SYSCALL`
  unfoldable pub syscall_table : ℕ → ℕ → ℕ → ℕ → ℕ → Kernel → Outcome (ℕ × Kernel)
  syscall_table fuel syscall_no arg1 arg2 arg3 k =
      if syscall_no == 0
      then sys_test k
      else (if syscall_no == 1
          then sys_write arg1 arg2 arg3 k
          else (if syscall_no == 2
              then sys_fork k
              else (if syscall_no == 3
                  then sys_getpid k
                  else (if syscall_no == 5
                      then sys_wait schedule fuel arg1 k
                      else (if syscall_no == 6
                          then sys_waitpid schedule fuel arg1 arg2 arg3 k
                          else (if syscall_no == 7
                              then sys_execl arg1 arg2 k
                              else sys_default k))))))

  unfoldable pub syscall_handler : ℕ → ℕ → ℕ → ℕ → ℕ → ℕ → Kernel → Outcome Ending
  syscall_handler fuel syscall_no arg1 arg2 arg3 frame k =
      if not (ltb syscall_no 8)
      then panic
      else (if syscall_no == 4
          then (do (p, k') ← sys_exit arg1 k; ok (enters p k'))
          else finish frame (syscall_table fuel syscall_no arg1 arg2 arg3 k))
