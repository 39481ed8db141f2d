-- ===== src/Sched/Remove.antt =====
-- `task_list_remove` of kernel/scheduler.c, wherever the task stands in the list.
use fi_rststep.Prelude.{
  ℕ, zero, suc, ◌<◌, ◌≤◌, Bool, true, false, some, List, [], ◌∷◌, ◌++◌, ◌≡◌, ◌≢◌, refl, ◌==◌, arith,
  subst, if◌then◌else◌, length,
}
use fi_rststep.Prelude.Words.{null}
use fi_rststep.Task.{Tasks, set_prev, set_next, nr_tasks}
use fi_rststep.Sched.{TaskList, find_task, unlink, task_list_remove}
use fi_rststep.Sched.Links.{
  has, Distinct, Seg, IsList, Seg-frame, Seg-append, Seg-split, Seg-set_next, Seg-set_prev,
  last-mem, Seg-ne_null, Distinct-append_left, Distinct-append_right, Distinct-apart,
  Distinct-remove,
}

-- The walk ends at the target, or at NULL if it is not in the list.
find_task-Seg :
    (fuel : ℕ) (t : Tasks) (pr p : ℕ) (xs : List ℕ) (last a : ℕ)
    → length xs < fuel
    → Seg t pr p xs null last
    → find_task fuel p a t ≡ some (if has a xs then a else null)
unfolding find_task
find_task-Seg zero t pr p xs last a fuel s = absurd (omega arith)
find_task-Seg (suc k) t pr p [] last a fuel (e, f) = ground arith
find_task-Seg (suc k) t pr p (x ∷ xs) last a fuel (e, ne, back, rest) =
    ground (arith, find_task-Seg k t x (t x).next xs last a (omega arith) rest)

module _ (t : Tasks) (a nxt last : ℕ) where
  abbrev pub after : Tasks
  after = set_prev a null (set_next a null (set_prev nxt last (set_next last nxt t)))

  front :
      (head : ℕ) (xs : List ℕ)
      → Distinct xs
      → has a xs ≡ false
      → has nxt xs ≡ false
      → Seg t null head xs a last
      → Seg after null (if a == head then nxt else head) xs nxt last
  front head [] d out out' s = ground arith
  front head (x ∷ xs) d out out' s =
      let kept : (if a == head then nxt else head) ≡ head = ground arith in
      rw kept (
        Seg-frame (set_next last nxt t) after null head (x ∷ xs) nxt last
          (λ y h. (ground arith, ground arith)) (Seg-set_next t null head x xs a last nxt d s))

  back :
      (xs : List ℕ) (tail : ℕ)
      → Distinct xs
      → has a xs ≡ false
      → has last xs ≡ false
      → Seg t a nxt xs null tail
      → Seg after last nxt xs null (if a == tail then last else tail)
  back [] tail d out out' s = ground arith
  back (x ∷ xs) tail d out out' s =
      let inside : has tail (x ∷ xs) ≡ true = last-mem t a nxt x xs null tail s in
      let kept : (if a == tail then last else tail) ≡ tail = ground arith in
      rw kept (
        Seg-frame (set_prev x last t) after last nxt (x ∷ xs) null tail
          (λ y h. (ground arith, ground arith)) (Seg-set_prev t a nxt x xs null tail last d s))

-- Where a chain starts: in it, or at its end.
start :
    (t : Tasks) (pr p : ℕ) (xs : List ℕ) (last : ℕ) (ys : List ℕ)
    → Seg t pr p xs null last
    → has null ys ≡ false
    → ((y : ℕ) → has y xs ≡ true → has y ys ≡ false)
    → has p ys ≡ false
start t pr p [] last ys s out apart = ground arith
start t pr p (x ∷ xs) last ys s out apart = rw s.0 (apart x (ground arith))

finish :
    (t : Tasks) (p : ℕ) (xs : List ℕ) (q last : ℕ) (ys : List ℕ)
    → Seg t null p xs q last
    → has null ys ≡ false
    → ((y : ℕ) → has y xs ≡ true → has y ys ≡ false)
    → has last ys ≡ false
finish t p [] q last ys s out apart = ground arith
finish t p (x ∷ xs) q last ys s out apart = apart last (last-mem t null p x xs q last s)

if_same {ℓ} : {A : Type ℓ} (c : Bool) (x : A) → (if c then x else x) ≡ x
if_same true x = refl
if_same false x = refl

module _ (l : TaskList) (t : Tasks) (a : ℕ) (xs ys : List ℕ)
    (is : IsList l t (xs ++ (a ∷ ys))) where
  outside_left : has a xs ≡ false
  outside_left = Distinct-apart a xs (a ∷ ys) is.distinct (ground arith)

  outside_right : has a ys ≡ false
  outside_right = (Distinct-append_right xs (a ∷ ys) is.distinct).0

  left_right : (y : ℕ) → has y ys ≡ true → has y xs ≡ false
  left_right y h = Distinct-apart y xs (a ∷ ys) is.distinct (ground arith)

  right_left : (y : ℕ) → has y xs ≡ true → has y ys ≡ false
  right_left y h = ground (arith, left_right y)

  -- The two parts of the chain, joined past `a`.
  joined :
      (q last : ℕ)
      → Seg t null l.head xs q last
      → Seg t last q (a ∷ ys) null l.tail
      → Seg
          (after t a (t a).next (t a).prev)
          null
          (if a == l.head then (t a).next else l.head)
          (xs ++ ys)
          null
          (if a == l.tail then (t a).prev else l.tail)
  joined q last A (e, ne, b, B) =
      let A' : Seg t null l.head xs a last = subst (λ z. Seg t null l.head xs z last) e A in
      let no_null : has null xs ≡ false = Seg-ne_null t null l.head xs q last A in
      let no_next : has (t a).next xs ≡ false =
        start t a (t a).next ys l.tail xs B no_null left_right in
      let no_last : has last ys ≡ false =
        finish t l.head xs q last ys A (Seg-ne_null t a (t a).next ys null l.tail B) right_left in
      rw b (
        Seg-append (after t a (t a).next last) null (if a == l.head then (t a).next else l.head) xs
          ys (t a).next last null (if a == l.tail then last else l.tail)
          (front t a (t a).next last l.head xs (Distinct-append_left xs (a ∷ ys) is.distinct)
            outside_left no_next A')
          (back t a (t a).next last ys l.tail (Distinct-append_right xs (a ∷ ys) is.distinct).1
            outside_right no_last B))

  -- Unlinking `a` leaves the chain of the other tasks.
  pub unlink-IsList : let (l', t') = unlink l a t in IsList l' t' (xs ++ ys)
  unfolding unlink
  unlink-IsList =
      let (q, last, A, B) = Seg-split t null l.head xs (a ∷ ys) null l.tail is.chain in
      record {
        chain = rw (if_same (a == (t a).prev) (t a).next) (joined q last A B);
        distinct = Distinct-remove xs a ys is.distinct;
      }

pub apart_of_has : (a b : ℕ) (xs : List ℕ) → has a xs ≡ true → has b xs ≡ false → a ≢ b
apart_of_has a b xs h k e = let h' : has b xs ≡ true = subst (λ z. has z xs ≡ true) e h in cc

has-middle : (a : ℕ) (xs ys : List ℕ) → has a (xs ++ (a ∷ ys)) ≡ true
has-middle a [] ys = ground arith
has-middle a (x ∷ xs) ys = ground (arith, has-middle a xs ys)

-- For a valid list of at most 100 tasks, `task_list_remove` of a task that stands between `xs` and
-- `ys` in it finds the task and returns 0, and after its writes the list holds `xs` followed by
-- `ys`.
pub task_list_remove-mem :
    (l : TaskList) (t : Tasks) (a : ℕ) (xs ys : List ℕ)
    → length (xs ++ (a ∷ ys)) ≤ nr_tasks
    → IsList l t (xs ++ (a ∷ ys))
    → (task_list_remove l a t ≡ some (true, (unlink l a t).0, (unlink l a t).1))
      × (let (l', t') = unlink l a t in IsList l' t' (xs ++ ys))
unfolding task_list_remove
task_list_remove-mem l t a xs ys short is =
    let no_null : has null (xs ++ (a ∷ ys)) ≡ false =
      Seg-ne_null t null l.head (xs ++ (a ∷ ys)) null l.tail is.chain in
    let inside : has a (xs ++ (a ∷ ys)) ≡ true = has-middle a xs ys in
    let ne : a ≢ null = apart_of_has a null (xs ++ (a ∷ ys)) inside no_null in
    let ne' : (a == null) ≡ false = ground arith in
    let found =
      find_task-Seg (suc nr_tasks) t null l.head (xs ++ (a ∷ ys)) l.tail a (omega arith) is.chain in
    (rw (found, inside, ne', task_list_remove), unlink-IsList l t a xs ys is)

-- For a valid list of at most 100 tasks, `task_list_remove` of a task that is not in it returns -1
-- and changes neither the list nor any task.
pub task_list_remove-not_mem :
    (l : TaskList) (t : Tasks) (a : ℕ) (xs : List ℕ)
    → length xs ≤ nr_tasks
    → IsList l t xs
    → has a xs ≡ false
    → task_list_remove l a t ≡ some (false, l, t)
unfolding task_list_remove
task_list_remove-not_mem l t a xs short is out = rw (
  find_task-Seg (suc nr_tasks) t null l.head xs l.tail a (omega arith) is.chain,
  out,
  task_list_remove,
)
