-- ===== src/Examples/Calls.antt =====
-- kernel/task.c and kernel/syscall.c on a concrete kernel: task 1 is `init` and runs, tasks 2 and 3 are
-- its children, task 4 is a child of task 2, and task 3 is a zombie.
use fi_rststep.Prelude.{ℕ, ◌≡◌, inr, refl, [], ◌∷◌, arith, true, ◌==◌, if◌then◌else◌}
use fi_rststep.Prelude.Outcome.{Outcome, ok, panic}
use fi_rststep.Str.{poke}
use fi_rststep.Task.{TaskStruct, Tasks, TaskState, task_ready, task_running, task_zombie}
use fi_rststep.Paging.{Vm}
use fi_rststep.Paging.Copy.{free_user_page_dir}
use fi_rststep.Paging.Copy.{free_tables}
use fi_rststep.Prelude.Words.{null}
use fi_rststep.Pmu.{alloc_node, alloc_node_loop, free_node}
use fi_rststep.Pmu.Record.{pmu_free, pmu_add_record, find_place, place_run, join_previous}
use fi_rststep.Pmu.Bitmap.{is_bit_set, set_bit, clear_bit}
use fi_rststep.Examples.Memory.{three_pages}
use fi_rststep.Kernel.{Kernel, on_mem, vm_of, store_user, store_user32}
use fi_rststep.Process.{set_page_dir, set_exit_code, task_exit}
use fi_rststep.Process.Orphans.{Siblings, IsAdopted, task_exit-IsAdopted}
use fi_rststep.Sched.Invariant.{IsSched}
use fi_rststep.Syscall.{minus_one, sys_wait, sys_waitpid, sys_exit}
use fi_rststep.Syscall.Exit.{IsEnded, sys_exit-IsEnded}
use fi_rststep.Syscall.Reap.{Waits, HasZombie, IsReaped, sys_wait-IsReaped}
use fi_rststep.Syscall.Pids.{sys_waitpid-negated}

abbrev task_of : ℕ → TaskState → ℕ → ℕ → ℕ → TaskStruct
task_of pid state parent child sibling = record {
  ss0 = 16;
  esp0 = 0;
  pid = pid;
  state = state;
  exit_code = 42;
  frame = 0;
  page_dir = 0x200000;
  prev = 0;
  next = 0;
  parent = parent;
  child = child;
  sibling = sibling;
}

abbrev family : Tasks
family p =
    if p == 1
    then task_of 1 task_running 0 2 0
    else (if p == 2
        then task_of 2 task_ready 1 4 3
        else (if p == 3 then task_of 3 task_zombie 1 0 0 else task_of 4 task_ready 2 0 0))

-- Every word of memory is 0x01010101: an entry that is present and leads to 0x1010000.
abbrev pub kernel : Kernel
kernel = record {
  sched = record {
    tasks = family;
    current_task = 1;
    ready_tasks = record { head = 0; tail = 0 };
    is_used = λ i. true;
    tss_ss0 = 16;
    tss_esp0 = 0;
    cr3 = 0x200000;
  };
  vm = record {
    mem = λ a. 1;
    pmu = three_pages;
    cr3 = 0x200000;
    kernel_page_dir = 0x400000;
    end_index = 1024;
  };
  tty = record {
    vmem_base = 0;
    vmem_size = 0x8000;
    screen = 0;
    cursor = 0;
    attr = 7;
    mem = λ a. 0;
    crtc = λ r. 0;
  };
  search = record { buf = λ i. 0; namebuf = λ i. 0; io = record { clus_buf = λ i. 0; time = 0 } };
  next_pid = 5;
  init_task = 1;
  task_unions = 0x100000;
  eflags = 0x202;
}

abbrev pub no_schedule : Kernel → Outcome Kernel
no_schedule k = panic

abbrev stored : Kernel
stored =
    on_mem (poke 0x1010013 0)
      (on_mem (poke 0x1010012 0) (on_mem (poke 0x1010011 0) (on_mem (poke 0x1010010 42) kernel)))

kernel-children : Siblings family 2 (2 ∷ 3 ∷ [])
kernel-children = (refl, (λ e. omega arith), (refl, (λ e. omega arith), refl))

kernel-HasZombie : HasZombie kernel 1 3 (2 ∷ []) []
kernel-HasZombie = record {
  children = kernel-children;
  live = (refl, tt);
  dead = refl;
  short = omega arith;
  in_table = omega arith;
}

-- The same kernel while task 3 still lives; the next task that is switched to ends it.
abbrev living : Tasks
living p = if p == 3 then task_of 3 task_ready 1 0 0 else family p

abbrev waiting : Kernel
waiting = record kernel { sched = record kernel.sched { tasks = living } }

abbrev child_ends : Kernel → Outcome Kernel
child_ends k = ok kernel

waiting-Waits : Waits child_ends 1 1 waiting kernel
waiting-Waits = (
  2 ∷ 3 ∷ [],
  (refl, (λ e. omega arith), (refl, (λ e. omega arith), refl)),
  (refl, (refl, tt)),
  omega arith,
  (kernel, refl, refl),
)

kernel-stored : store_user32 0x10 42 kernel ≡ ok stored
unfolding store_user32 store_user
kernel-stored = refl

sys_wait-IsReaped_example :
    (k₂ : Kernel) × (sys_wait child_ends 1 0x10 waiting ≡ ok (3, k₂)) × IsReaped stored k₂ 1 3 []
sys_wait-IsReaped_example =
    sys_wait-IsReaped child_ends 1 1 0x10 3 (2 ∷ []) [] waiting kernel stored (λ e. omega arith)
      (λ e. omega arith) waiting-Waits (omega arith) kernel-HasZombie kernel-stored

sys_waitpid-negated_example : sys_waitpid no_schedule 0 3 0x10 0 kernel ≡ ok (minus_one, kernel)
sys_waitpid-negated_example =
    sys_waitpid-negated no_schedule 0 3 0x10 0 (2 ∷ 3 ∷ []) kernel (λ e. omega arith)
      kernel-children (omega arith) (omega arith) (omega arith)
      ((λ e. omega arith), ((λ e. omega arith), tt))

-- the value of a call that returns
abbrev returned : Outcome Vm → Vm
returned (ok s) = s
returned _ = kernel.vm

abbrev freed : Vm
unfolding free_user_page_dir free_tables pmu_free pmu_add_record find_place place_run join_previous
    alloc_node alloc_node_loop free_node is_bit_set set_bit clear_bit
freed = returned (free_user_page_dir 0x200000 (vm_of kernel))

kernel-freed : free_user_page_dir 0x200000 (vm_of kernel) ≡ ok freed
unfolding free_user_page_dir free_tables pmu_free pmu_add_record find_place place_run join_previous
    alloc_node alloc_node_loop free_node is_bit_set set_bit clear_bit
kernel-freed = refl

task_exit-IsAdopted_example :
    (k' : Kernel) × (task_exit 2 7 kernel ≡ ok k')
    × (k'.vm ≡ freed)
    × IsAdopted
        (set_page_dir 2 null (set_exit_code 2 7 family))
        k'.sched.tasks
        1
        2
        (4 ∷ [])
        (2 ∷ 3 ∷ [])
task_exit-IsAdopted_example =
    task_exit-IsAdopted kernel 2 7 freed (4 ∷ []) (2 ∷ 3 ∷ []) (λ e. omega arith) (λ e. omega arith)
      kernel-freed (refl, (λ e. omega arith), refl) kernel-children (refl, tt) (λ y h. ground arith)
      (omega arith)

-- The same tasks when task 2 runs, and its child is the only one in the ready list.
abbrev busy_family : Tasks
busy_family p =
    if p == 1
    then task_of 1 task_ready 0 2 0
    else (if p == 2
        then task_of 2 task_running 1 4 3
        else (if p == 3 then task_of 3 task_zombie 1 0 0 else task_of 4 task_ready 2 0 0))

abbrev ending : Kernel
ending = record kernel {
  sched = record kernel.sched {
    tasks = busy_family;
    current_task = 2;
    ready_tasks = record { head = 4; tail = 4 };
  };
}

ending-IsSched : IsSched ending.sched (4 ∷ [])
ending-IsSched = record {
  queue = record {
    list = record { chain = (refl, (λ e. omega arith), refl, (refl, refl)); distinct = (refl, tt) };
    ready = λ y h. ground arith;
  };
  running = inr refl;
  short = omega arith;
}

sys_exit-IsEnded_example :
    (k' : Kernel) × (sys_exit 7 ending ≡ ok (4, k'))
    × (k'.vm ≡ freed)
    × IsEnded ending k' 2 7 4 [] (4 ∷ []) (2 ∷ 3 ∷ [])
sys_exit-IsEnded_example =
    sys_exit-IsEnded ending 7 4 freed [] (4 ∷ []) (2 ∷ 3 ∷ []) (λ e. omega arith) (λ e. omega arith)
      ending-IsSched kernel-freed (refl, (λ e. omega arith), refl)
      (refl, (λ e. omega arith), (refl, (λ e. omega arith), refl)) (refl, tt) (λ y h. ground arith)
      (omega arith)
