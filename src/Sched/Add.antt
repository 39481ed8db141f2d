-- ===== src/Sched/Add.antt =====
-- `task_list_add` of kernel/scheduler.c.
use fi_rststep.Prelude.{ℕ, true, false, List, [], ◌∷◌, ◌++◌, ◌≡◌, ◌≢◌, refl, ◌==◌, arith}
use fi_rststep.Prelude.Words.{null}
use fi_rststep.Task.{Tasks, set_prev, set_next}
use fi_rststep.Sched.{TaskList, task_list_add}
use fi_rststep.Sched.Links.{
  has, Distinct, Seg, SameLinks, IsList, Seg-frame, Seg-append, Seg-set_next, last-mem,
  Distinct-snoc,
}

module _ (t : Tasks) (a : ℕ) (ne : a ≢ null) where
  abbrev pub cleared : Tasks
  cleared = set_prev a null (set_next a null t)

  add-chain :
      (head tail x : ℕ) (xs : List ℕ)
      → Distinct (x ∷ xs)
      → has a (x ∷ xs) ≡ false
      → Seg t null head (x ∷ xs) null tail
      → Seg (set_next tail a (set_prev a tail cleared)) null head (x ∷ (xs ++ (a ∷ []))) null a
  add-chain head tail x xs d out s =
      let inside : has tail (x ∷ xs) ≡ true = last-mem t null head x xs null tail s in
      let apart : a ≢ tail = ground arith in
      let same : SameLinks (x ∷ xs) t (set_prev a tail cleared) =
        λ y h. (ground arith, ground arith) in
      let front =
        Seg-set_next (set_prev a tail cleared) null head x xs null tail a d
          (Seg-frame t (set_prev a tail cleared) null head (x ∷ xs) null tail same s) in
      Seg-append (set_next tail a (set_prev a tail cleared)) null head (x ∷ xs) (a ∷ []) a tail null
        a front (refl, ne, ground arith, (ground arith, refl))

-- For a valid list and a task that is not NULL and not in the list, `task_list_add` leaves a valid
-- list with the task at its end, the others in order before it.
pub task_list_add-append :
    (l : TaskList) (a : ℕ) (t : Tasks) (xs : List ℕ)
    → a ≢ null
    → has a xs ≡ false
    → IsList l t xs
    → let (l', t') = task_list_add l a t in IsList l' t' (xs ++ (a ∷ []))
unfolding task_list_add
task_list_add-append l a t [] ne out is = ground arith
task_list_add-append l a t (x ∷ xs) ne out is =
    let nonempty : (l.head == null) ≡ false = ground arith in
    rw nonempty (record {
      chain = add-chain t a ne l.head l.tail x xs is.distinct out is.chain;
      distinct = Distinct-snoc (x ∷ xs) a is.distinct out;
    })
