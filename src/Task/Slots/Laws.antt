-- ===== src/Task/Slots/Laws.antt =====
-- Taking and giving back a task structure, in kernel/task.c.
use fi_rststep.Prelude.{
  ℕ, zero, suc, ◌+◌, ◌<◌, ◌≤◌, Bool, true, false, Option, none, some, ◌≡◌, refl, arith,
  if◌then◌else◌, Bool-cases, inl, inr, fun_ext, ap, subst, sym, dec_lt, ◌==◌, ◌≢◌, ◌∙◌, ℕ_discrete,
}
use fi_rststep.Prelude.Words.{null}
use fi_rststep.Task.{nr_tasks}
use fi_rststep.Task.Slots.{
  Slots, mark, get_free_loop, get_free_task_union, set_free_loop, set_free_task_union,
}

-- What the search from slot `i` up to `n` may answer.
abbrev pub Lowest : (i n : ℕ) → Slots → Option (ℕ × Slots) → Type 0
Lowest i n used none = (j : ℕ) → i ≤ j → j < n → used j ≡ true
Lowest i n used (some (p, used')) =
    (k : ℕ) × (p ≡ suc k)
    × (k < n)
    × (used k ≡ false)
    × ((j : ℕ) → i ≤ j → j < k → used j ≡ true)
    × (used' ≡ mark used k true)

from_next :
    (used : Slots) (i n : ℕ)
    → used i ≡ true
    → ((j : ℕ) → i + 1 ≤ j → j < n → used j ≡ true)
    → (j : ℕ) → i ≤ j
    → j < n
    → used j ≡ true
from_next used i n taken h j p q = elim (ℕ_discrete i j) [
  | yes e ↦ subst (λ z. used z ≡ true) e taken
  | no ne ↦ h j (omega arith) q
]

get_free_loop-Lowest :
    (left i n : ℕ) (used : Slots) → i + left ≡ n → Lowest i n used (get_free_loop left i used)
unfolding get_free_loop
get_free_loop-Lowest zero i n used e = λ j p q. absurd (omega arith)
get_free_loop-Lowest (suc left) i n used e = elim (Bool-cases (used i)) [
  | inl taken ↦ rw taken (
      extend taken (get_free_loop left (i + 1) used)
        (get_free_loop-Lowest left (i + 1) n used (omega arith)))
  | inr free ↦ rw free (i, refl, omega arith, free, (λ j p q. absurd (omega arith)), refl)
]
  where
    extend : used i ≡ true → (r : Option (ℕ × Slots)) → Lowest (i + 1) n used r → Lowest i n used r
    extend taken none h = from_next used i n taken h
    extend taken (some (p, used')) (k, a, b, c, d, f) = (k, a, b, c, from_next used i k taken d, f)

-- `get_free_task_union` returns the lowest free structure and marks it and no other as used; it
-- returns NULL only if all 100 are used.
pub get_free_task_union-Lowest : (used : Slots) → Lowest 0 nr_tasks used (get_free_task_union used)
unfolding get_free_task_union
get_free_task_union-Lowest used = get_free_loop-Lowest nr_tasks 0 nr_tasks used (omega arith)

set_free_loop_hit :
    (left i k n : ℕ) (used : Slots)
    → i + left ≡ n
    → i ≤ k
    → k < n
    → set_free_loop left i (suc k) used
      ≡ (if used k then (true, mark used k false) else (false, used))
unfolding set_free_loop
set_free_loop_hit zero i k n used e lo hi = absurd (omega arith)
set_free_loop_hit (suc left) i k n used e lo hi =
    ground (arith, set_free_loop_hit left (i + 1) k n used (omega arith))

unmark :
    (used : Slots) (k : ℕ)
    → used k ≡ false
    → (if mark used k true k
        then (true, mark (mark used k true) k false)
        else (false, mark used k true))
      ≡ (let r : Bool × Slots = (true, used) in r)
unmark used k free =
    let marked : mark used k true k ≡ true = ground arith in
    rw marked (ap (λ u. (true, u)) (fun_ext λ j. ground arith))

Lowest-of_some :
    (used : Slots) (r : Option (ℕ × Slots)) (p : ℕ) (used' : Slots)
    → r ≡ some (p, used')
    → Lowest 0 nr_tasks used r
    → Lowest 0 nr_tasks used (some (p, used'))
Lowest-of_some used r p used' e h = subst (Lowest 0 nr_tasks used) e h

-- If `get_free_task_union` hands out a structure, `set_free_task_union` of that structure succeeds
-- on the new table and restores the old one.
pub set_free_task_union-get_free :
    (used : Slots) (p : ℕ) (used' : Slots)
    → get_free_task_union used ≡ some (p, used')
    → set_free_task_union p used' ≡ (true, used)
unfolding set_free_task_union
set_free_task_union-get_free used p used' e =
    let (k, a, b, c, d, f) =
      Lowest-of_some used (get_free_task_union used) p used' e (get_free_task_union-Lowest used) in
    rw (a, f)
      (set_free_loop_hit nr_tasks 0 k nr_tasks (mark used k true) (omega arith) (omega arith) b
        ∙ unmark used k c)

set_free_task_union_at :
    (used : Slots) (k j : ℕ)
    → k < nr_tasks
    → (set_free_task_union (suc k) used).1 j ≡ (if suc j == suc k then false else used j)
unfolding set_free_task_union
set_free_task_union_at used k j hi =
    let e = set_free_loop_hit nr_tasks 0 k nr_tasks used (omega arith) (omega arith) hi in
    elim (Bool-cases (used k)) [
      | inl taken ↦ rw (e, taken) (ground arith)
      | inr free ↦
          rw (e, free)
            (elim (ℕ_discrete j k) [
              | yes same ↦
                  subst (λ i. used i ≡ (if suc i == suc k then false else used i)) (sym same)
                    (free ∙ ground arith)
              | no other ↦ ground arith
            ])
    ]

-- What `set_free_task_union` leaves: the structure is free, every other one as it was.
pub set_free_task_union_lem :
    (used : Slots) (p j : ℕ)
    → p ≢ null
    → p ≤ nr_tasks
    → (set_free_task_union p used).1 j ≡ (if suc j == p then false else used j)
set_free_task_union_lem used zero j ne hi = absurd (ne refl)
set_free_task_union_lem used (suc k) j ne hi = set_free_task_union_at used k j (omega arith)

-- With a free structure, that one or a lower one is handed out.
pub get_free_task_union-le :
    (used : Slots) (k : ℕ)
    → k < nr_tasks
    → used k ≡ false
    → (p : ℕ) × (used' : Slots) × (get_free_task_union used ≡ some (p, used')) × (p ≤ suc k)
get_free_task_union-le used k hi free =
    given (get_free_task_union used) (get_free_task_union-Lowest used)
  where
    given :
        (r : Option (ℕ × Slots))
        → Lowest 0 nr_tasks used r
        → (p : ℕ) × (used' : Slots) × (r ≡ some (p, used')) × (p ≤ suc k)
    given none all = let taken = all k (omega arith) hi in absurd (ground arith)
    given (some (p, used')) (m, e, low, f, below, g) = elim (dec_lt k m) [
      | yes lt ↦ let taken = below k (omega arith) lt in absurd (ground arith)
      | no le ↦ (p, used', refl, omega arith)
    ]

-- The structure `p` is not what is handed out.
abbrev pub NotGiven : ℕ → Option (ℕ × Slots) → Type 0
NotGiven p none = Unit
NotGiven p (some (q, used)) = q ≢ p

pub get_free_task_union-NotGiven :
    (used : Slots) (k : ℕ) → used k ≡ true → NotGiven (suc k) (get_free_task_union used)
get_free_task_union-NotGiven used k taken =
    other (get_free_task_union used) (get_free_task_union-Lowest used)
  where
    other : (r : Option (ℕ × Slots)) → Lowest 0 nr_tasks used r → NotGiven (suc k) r
    other none all = tt
    other (some (p, used')) (m, e, low, f, below, g) = λ h.
        let same : m ≡ k = omega arith in
        let free : used k ≡ false = subst (λ i. used i ≡ false) same f in cc
