-- ===== src/Process.antt =====
-- kernel/task.c: how a task is created, copied, given a new program and ended.
pub mod Orphans
use fi_rststep.Prelude.{
  ℕ, zero, suc, ◌+◌, ◌-◌, ◌*◌, ◌/◌, ◌%◌, Bool, true, false, not, Option, none, some, List, [], ◌∷◌,
  ◌==◌, ltb, if◌then◌else◌,
}
use fi_rststep.Prelude.Outcome.{Outcome, ok, panic, endless, ◌>>=◌, ◌>>◌, assert}
use fi_rststep.Prelude.Words.{null, u32}
use fi_rststep.Str.{Memory, memset, memcpy}
use fi_rststep.Ata.{Bytes, Drive}
use fi_rststep.Fs.{Fat}
use fi_rststep.Task.{Tasks, TaskStruct, TaskState, task_none, set_state, set_frame, nr_tasks}
use fi_rststep.Task.Slots.{get_free_task_union}
use fi_rststep.Sched.{Sched}
use fi_rststep.Sched.Switch.{scheduler_init}
use fi_rststep.Pmu.{page_size, pmu_alloc}
use fi_rststep.Paging.{Vm, store32, create_user_page_dir, map_physical_page}
use fi_rststep.Paging.Copy.{copy_page_dir_and_memory, free_user_page_dir}
use fi_rststep.Elf.{elf_loader}
use fi_rststep.Kernel.{Kernel, vm_of, put_vm, on_mem, on_tasks, call, frame_size, kernel_stack}

-- A write of one field of one structure.
abbrev pub set_parent : ℕ → ℕ → Tasks → Tasks
set_parent p v t q = record (t q) { parent = if q == p then v else (t q).parent }

abbrev pub set_child : ℕ → ℕ → Tasks → Tasks
set_child p v t q = record (t q) { child = if q == p then v else (t q).child }

abbrev pub set_sibling : ℕ → ℕ → Tasks → Tasks
set_sibling p v t q = record (t q) { sibling = if q == p then v else (t q).sibling }

abbrev pub set_pid : ℕ → ℕ → Tasks → Tasks
set_pid p v t q = record (t q) { pid = if q == p then v else (t q).pid }

abbrev pub set_exit_code : ℕ → ℕ → Tasks → Tasks
set_exit_code p v t q = record (t q) { exit_code = if q == p then v else (t q).exit_code }

abbrev pub set_page_dir : ℕ → ℕ → Tasks → Tasks
set_page_dir p v t q = record (t q) { page_dir = if q == p then v else (t q).page_dir }

abbrev pub set_tss : ℕ → ℕ → ℕ → Tasks → Tasks
set_tss p ss0 esp0 t q = record (t q) {
  ss0 = if q == p then ss0 else (t q).ss0;
  esp0 = if q == p then esp0 else (t q).esp0;
}

-- the selectors of inc/kernel/gdt.h
abbrev pub ker_data_selector : ℕ
ker_data_selector = 16

abbrev pub ker_code_selector : ℕ
ker_code_selector = 8

abbrev pub user_code_selector : ℕ
user_code_selector = 27

abbrev pub user_data_selector : ℕ
user_data_selector = 35

-- The writes to a new interrupt frame: ss, esp, eflags, cs, eip, es, ds, fs, gs.
unfoldable pub fill_frame : ℕ → ℕ → ℕ → ℕ → Memory → Memory
fill_frame frame esp eflags eip mem =
    let m₁ =
      store32 (frame + 60) esp
        (store32 (frame + 64) user_data_selector (memset frame 0 frame_size mem)) in
    let m₂ =
      store32 (frame + 48) eip
        (store32 (frame + 52) user_code_selector (store32 (frame + 56) eflags m₁)) in
    let m₃ = store32 (frame + 12) user_data_selector (store32 (frame + 8) user_data_selector m₂) in
    store32 frame user_data_selector (store32 (frame + 4) user_data_selector m₃)

unfoldable pub init_task_stack : ℕ → ℕ → Kernel → Outcome Kernel
init_task_stack task entry k = do
  (stack_page, pmu) ← pmu_alloc k.vm.pmu
  (linear, s) ←
      map_physical_page (k.sched.tasks task).page_dir stack_page 1 1
        (record (vm_of k) { pmu = pmu })
  let frame = kernel_stack task k + page_size - frame_size
  let k' = on_tasks (set_frame task frame) (put_vm s k)
  ok (on_mem (fill_frame frame (u32 (page_size + linear)) k.eflags entry) k')

-- the links of a new task to its parent and its siblings
unfoldable pub link_child : ℕ → ℕ → Tasks → Tasks
link_child task parent t =
    let t₁ = set_parent task parent (set_child task null t) in
    if parent == null then t₁ else set_child parent task (set_sibling task (t₁ parent).child t₁)

-- a pointer to the task, or NULL
unfoldable pub create_task : ℕ → ℕ → ℕ → Kernel → Outcome (ℕ × Kernel)
create_task entry page_dir parent k = do
  assert (not (page_dir == null))
  elim (get_free_task_union k.sched.is_used) [
    | none ↦ ok (null, k)
    | some (task, used) ↦ (do
      let t = set_pid task k.next_pid (link_child task parent k.sched.tasks)
      let esp0 = kernel_stack task k + page_size
      let t' =
          set_page_dir task page_dir
            (set_tss task ker_data_selector esp0 (set_state task task_none t))
      let k₁ : Kernel = record k {
        sched = record k.sched { tasks = t'; is_used = used };
        next_pid = u32 (k.next_pid + 1);
      }
      k₂ ← init_task_stack task entry k₁
      ok (task, k₂))
  ]

-- `free_user_page_dir` on the whole state
unfoldable pub free_page_dir : ℕ → Kernel → Outcome Kernel
free_page_dir page_dir k = do s ← free_user_page_dir page_dir (vm_of k); ok (put_vm s k)

unfoldable pub free_task_alloced_memory : ℕ → Kernel → Outcome Kernel
free_task_alloced_memory task k = do
  assert (not (task == null))
  k' ← free_page_dir (k.sched.tasks task).page_dir k
  ok (on_tasks (set_page_dir task null) k')

-- `create_task`, and the directory is given back if there is no structure left
unfoldable pub create_or_free : ℕ → ℕ → ℕ → Kernel → Outcome (ℕ × Kernel)
create_or_free entry page_dir parent k = do
  (task, k') ← create_task entry page_dir parent k
  if task == null then (do k'' ← free_page_dir page_dir k'; ok (null, k'')) else ok (task, k')

-- The loop of `task_exit` over the children: the last one, and the tasks with their new parent.
unfoldable pub adopt : ℕ → ℕ → ℕ → ℕ → Tasks → Outcome (ℕ × Tasks)
adopt zero init child last_child t = endless
adopt (suc fuel) init child last_child t =
    if child == null
    then ok (last_child, t)
    else adopt fuel init (t child).sibling child (set_parent child init t)

-- The children of `task` come before those of `init`. Unless the chain goes round it has at most one
-- task for each structure.
unfoldable pub give_to_init : ℕ → ℕ → Tasks → Outcome Tasks
give_to_init init task t = do
  (last_child, t₁) ← adopt (suc nr_tasks) init (t task).child null t
  ok (
      if last_child == null
      then t₁
      else (let t₂ = set_sibling last_child (t₁ init).child t₁ in
          set_child init (t₂ task).child t₂))

unfoldable pub task_exit : ℕ → ℕ → Kernel → Outcome Kernel
task_exit task exit_code k = do
  assert (not (task == null))
  if task == k.init_task then panic else do
    k₁ ← free_task_alloced_memory task (on_tasks (set_exit_code task exit_code) k)
    t ← give_to_init k₁.init_task task k₁.sched.tasks
    ok (on_tasks (λ _. t) k₁)

unfoldable pub fork_task : ℕ → Kernel → Outcome (ℕ × Kernel)
fork_task parent k = do
  assert (not (parent == null))
  (page_dir, s₁) ← create_user_page_dir (vm_of k)
  (done, s₂) ← copy_page_dir_and_memory page_dir (k.sched.tasks parent).page_dir s₁
  if not done then (do k' ← free_page_dir page_dir (put_vm s₂ k); ok (null, k')) else do
    (new_task, k₃) ← create_or_free 0 page_dir parent (put_vm s₂ k)
    let t = k₃.sched.tasks
    ok (
      new_task,
      if new_task == null
          then k₃
          else on_mem (memcpy (t new_task).frame (t parent).frame frame_size) k₃,
    )

module _ (fat : Fat) (drive : Drive) (junk : Bytes) where
  -- A new page directory with the program of a file: the entry, 0 if it cannot be loaded, in which case
  -- the directory is given back.
  unfoldable pub load_program : List ℕ → Kernel → Outcome (ℕ × ℕ × Kernel)
  load_program file_path k = do
    (page_dir, s₁) ← create_user_page_dir (vm_of k)
    (entry, s₂, search) ← elf_loader fat drive junk page_dir file_path s₁ k.search
    let k₁ = put_vm s₂ (record k { search = search })
    if entry == 0
        then (do k₂ ← free_page_dir page_dir k₁; ok (0, page_dir, k₂))
        else ok (entry, page_dir, k₁)

  unfoldable pub create_task_from_elf : List ℕ → ℕ → Kernel → Outcome (ℕ × Kernel)
  create_task_from_elf file_path parent k = do
    (entry, page_dir, k₁) ← load_program file_path k
    if entry == 0 then ok (null, k₁) else create_or_free entry page_dir parent k₁

  -- whether 0 was returned (else -1)
  unfoldable pub reload_task_from_elf : List ℕ → ℕ → Kernel → Outcome (Bool × Kernel)
  reload_task_from_elf file_path task k = do
    assert (not (task == null))
    (entry, page_dir, k₁) ← load_program file_path k
    if entry == 0 then ok (false, k₁) else do
      k₂ ← free_page_dir (k₁.sched.tasks task).page_dir k₁
      k₃ ← init_task_stack task entry (on_tasks (set_page_dir task page_dir) k₂)
      ok (true, k₃)

  -- up to the point where the processor waits for the timer; the path is "/bin/init"
  unfoldable pub task_init : Kernel → Outcome Kernel
  task_init k = do
    (init_task, k₁) ←
        create_task_from_elf (47 ∷ 98 ∷ 105 ∷ 110 ∷ 47 ∷ 105 ∷ 110 ∷ 105 ∷ 116 ∷ []) null k
    if init_task == null
        then panic
        else call (scheduler_init init_task) (record k₁ { init_task = init_task })
