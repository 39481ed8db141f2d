-- ===== src/Examples/Machine.antt =====
-- lib/math.c, lib/string.c and kernel/task.c on concrete inputs.
use fi_rststep.Prelude.{
  ℕ, ◌-◌, ◌^◌, ◌<◌, ◌≡◌, ◌↔◌, refl, true, false, some, arith, ◌==◌, if◌then◌else◌,
}
use fi_rststep.Prelude.Int.{pos}
use fi_rststep.Prelude.Outcome.{ok}
use fi_rststep.Math.{umod_loop, umoddi3, udiv_loop, udivdi3}
use fi_rststep.Math.Remainder.{umoddi3-eq-mod}
use fi_rststep.Math.Quotient.{udivdi3-eq-div}
use fi_rststep.Str.{Memory, strlen, strcmp, address_space}
use fi_rststep.Str.Blocks.{IsString, strlen_lem}
use fi_rststep.Str.Compare.{SameStrings, strcmp-eq-zero}
use fi_rststep.Task.{nr_tasks}
use fi_rststep.Task.Slots.{Slots, get_free_loop, get_free_task_union, set_free_task_union}
use fi_rststep.Task.Slots.Laws.{Lowest, get_free_task_union-Lowest, set_free_task_union-get_free}

umod_runs : umoddi3 1_000_000_007 97 ≡ 41
unfolding umoddi3 umod_loop
umod_runs = refl

udiv_runs : udivdi3 (2 ^ 64 - 1) 10 ≡ 1844674407370955161
unfolding udivdi3 udiv_loop
udiv_runs = refl

umoddi3-eq-mod_example : umoddi3 1_000_000_007 97 ≡ 41
umoddi3-eq-mod_example = umoddi3-eq-mod 1_000_000_007 97 (omega arith)

udivdi3-eq-div_example : udivdi3 1_000_000_007 97 ≡ 10309278
udivdi3-eq-div_example = udivdi3-eq-div 1_000_000_007 97 (omega arith)

-- "ab" at 10 and at 20, NUL elsewhere
abbrev words : Memory
words a =
    if a == 10
    then b'a'
    else if a == 11
    then b'b'
    else if a == 20
    then b'a'
    else if a == 21
    then b'b'
    else 0

words-IsString : IsString words 10 2
words-IsString = record { body = λ i lt. ground arith; stop = refl }

strlen_lem_example : strlen words 10 ≡ ok 2
strlen_lem_example = strlen_lem words 10 2 words-IsString (omega arith)

strcmp-eq-zero_example :
    (strcmp words 10 20 ≡ ok (pos 0)) ↔ ((n : ℕ) × (n < address_space) × SameStrings words 10 20 n)
strcmp-eq-zero_example = strcmp-eq-zero words 10 20

-- the first two slots are taken
abbrev two_taken : Slots
two_taken i = if i == 0 then true else if i == 1 then true else false

get_free_task_union-Lowest_example : Lowest 0 nr_tasks two_taken (get_free_task_union two_taken)
get_free_task_union-Lowest_example = get_free_task_union-Lowest two_taken

abbrev three_taken : Slots
three_taken i = if i == 2 then true else two_taken i

third_slot : get_free_task_union two_taken ≡ some (3, three_taken)
unfolding get_free_task_union get_free_loop
third_slot = refl

set_free_task_union-get_free_example : set_free_task_union 3 three_taken ≡ (true, two_taken)
set_free_task_union-get_free_example =
    set_free_task_union-get_free two_taken 3 three_taken third_slot
