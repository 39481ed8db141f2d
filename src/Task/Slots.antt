-- ===== src/Task/Slots.antt =====
-- kernel/task.c, `is_used`: which task structures are taken.
pub mod Laws
use fi_rststep.Prelude.{
  ℕ, zero, suc, ◌+◌, ◌-◌, ◌<◌, Bool, true, false, Option, none, some, ◌==◌, if◌then◌else◌,
}
use fi_rststep.Task.{nr_tasks}

abbrev pub Slots : Type 0
Slots = ℕ → Bool

abbrev pub mark : Slots → ℕ → Bool → Slots
mark used i b j = if j == i then b else used j

-- `for (i = 0; i < NR_TASKS; i++)` with `left` rounds to go
unfoldable pub get_free_loop : ℕ → ℕ → Slots → Option (ℕ × Slots)
get_free_loop zero i used = none
get_free_loop (suc left) i used =
    if used i then get_free_loop left (i + 1) used else some (suc i, mark used i true)

-- a pointer to a free slot, now taken, or NULL
unfoldable pub get_free_task_union : Slots → Option (ℕ × Slots)
get_free_task_union used = get_free_loop nr_tasks 0 used

-- the first part of the result is whether 0 was returned (else -1)
unfoldable pub set_free_loop : ℕ → ℕ → ℕ → Slots → Bool × Slots
set_free_loop zero i ptr used = (false, used)
set_free_loop (suc left) i ptr used =
    if ptr == suc i
    then (if used i then (true, mark used i false) else (false, used))
    else set_free_loop left (i + 1) ptr used

unfoldable pub set_free_task_union : ℕ → Slots → Bool × Slots
set_free_task_union ptr used = set_free_loop nr_tasks 0 ptr used
