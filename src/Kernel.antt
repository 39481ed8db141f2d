-- ===== src/Kernel.antt =====
-- The state of the whole kernel, and its access to the memory of a user program.
use fi_rststep.Prelude.{
  ℕ, ◌≡◌, ap, zero, suc, ◌+◌, ◌-◌, ◌*◌, ◌/◌, ◌%◌, Option, none, some, List, [], ◌∷◌, ◌==◌,
  if◌then◌else◌,
}
use fi_rststep.Prelude.Outcome.{Outcome, ok, panic, endless, ◌>>=◌}
use fi_rststep.Prelude.Words.{u32}
use fi_rststep.Str.{Memory, poke}
use fi_rststep.Fs.Find.{Search}
use fi_rststep.Task.{Tasks}
use fi_rststep.Sched.{Sched, Run, Cmd, jump}
use fi_rststep.Tty.{Tty}
use fi_rststep.Pmu.{page_size}
use fi_rststep.Paging.{Vm, load32, store32}
use fi_rststep.Paging.Walk.{walk}

-- The statics of the scheduler, mem.c, tty.c and fs.c with those of task.c: `_pid`, `init_task` and
-- the address of `task_unions`; and what `get_eflags` reads. CR3 is the one in `sched`.
pub record Kernel : Type 0 where
  pub sched : Sched
  pub vm : Vm
  pub tty : Tty
  pub search : Search
  pub next_pid : ℕ
  pub init_task : ℕ
  pub task_unions : ℕ
  pub eflags : ℕ

-- what mem.c works on, and its result put back
abbrev pub vm_of : Kernel → Vm
vm_of k = record k.vm { cr3 = k.sched.cr3 }

abbrev pub put_vm : Vm → Kernel → Kernel
put_vm s k = record k { vm = s; sched = record k.sched { cr3 = s.cr3 } }

abbrev pub on_mem : (Memory → Memory) → Kernel → Kernel
on_mem f k = record k { vm = record k.vm { mem = f k.vm.mem } }

abbrev pub on_tasks : (Tasks → Tasks) → Kernel → Kernel
on_tasks f k = record k { sched = record k.sched { tasks = f k.sched.tasks } }

-- A call of scheduler.c that comes back. None of those made here jumps into a task.
unfoldable pub came_back : Kernel → Run (Unit {0}) → Outcome Kernel
came_back k (fi_rststep.Sched.ok u s) = ok (record k { sched = s })
came_back k (jump p s) = endless
came_back k fi_rststep.Sched.panic = panic
came_back k fi_rststep.Sched.endless = endless

unfoldable pub call : Cmd (Unit {0}) → Kernel → Outcome Kernel
unfolding came_back
call m k = came_back k (m k.sched)

pub call_ok :
    (m : Cmd (Unit {0})) (k : Kernel) (s : Sched)
    → m k.sched ≡ fi_rststep.Sched.ok tt s
    → call m k ≡ ok (record k { sched = s })
unfolding call came_back
call_ok m k s e = ap (came_back k) e

-- the physical address behind a linear one
abbrev pub translate : Memory → ℕ → ℕ → Option ℕ
translate mem dir linear = elim (walk mem dir linear) [
  | none ↦ none
  | some w ↦ some (w.frame * page_size + linear % page_size)
]

-- One byte through the page tables of CR3. A page fault ends in `isr_pf`, which panics.
unfoldable pub load_user : ℕ → Kernel → Outcome ℕ
load_user a k = elim (translate k.vm.mem k.sched.cr3 a) [ none ↦ panic | some p ↦ ok (k.vm.mem p) ]

unfoldable pub store_user : ℕ → ℕ → Kernel → Outcome Kernel
store_user a v k = elim (translate k.vm.mem k.sched.cr3 a) [
  | none ↦ panic
  | some p ↦ ok (on_mem (poke p v) k)
]

-- a 32-bit word, the low byte first
unfoldable pub store_user32 : ℕ → ℕ → Kernel → Outcome Kernel
store_user32 a v k = do
  k₁ ← store_user a (v % 256) k
  k₂ ← store_user (u32 (a + 1)) (v / 256 % 256) k₁
  k₃ ← store_user (u32 (a + 2)) (v / 65536 % 256) k₂
  store_user (u32 (a + 3)) (v / 16777216 % 256) k₃

-- `count` bytes
unfoldable pub load_bytes : ℕ → ℕ → Kernel → Outcome (List ℕ)
load_bytes zero a k = ok []
load_bytes (suc count) a k = do
  c ← load_user a k
  rest ← load_bytes count (u32 (a + 1)) k
  ok (c ∷ rest)

-- the bytes of a string, without its NUL
unfoldable pub load_string : ℕ → ℕ → Kernel → Outcome (List ℕ)
load_string zero a k = endless
load_string (suc fuel) a k = do
  c ← load_user a k
  if c == 0 then ok [] else (do rest ← load_string fuel (u32 (a + 1)) k; ok (c ∷ rest))

-- `interrupt_frame`: its size and where its fields start
abbrev pub frame_size : ℕ
frame_size = 68

abbrev pub eax_at : ℕ
eax_at = 44

-- `(uint32_t)&task_union->kernel_stack`
abbrev pub kernel_stack : ℕ → Kernel → ℕ
kernel_stack task k = k.task_unions + (task - 1) * page_size

-- `task->interrupt_frame->eax`
abbrev pub frame_eax : ℕ → Kernel → ℕ
frame_eax task k = load32 k.vm.mem ((k.sched.tasks task).frame + eax_at)

abbrev pub set_frame_eax : ℕ → ℕ → Kernel → Kernel
set_frame_eax task v k = on_mem (store32 ((k.sched.tasks task).frame + eax_at) v) k
