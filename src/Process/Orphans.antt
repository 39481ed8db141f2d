-- ===== src/Process/Orphans.antt =====
-- The children of a task in kernel/task.c, and what `task_exit` and a new task do to them.
use fi_rststep.Prelude.{
  ℕ, zero, suc, ◌≤◌, ◌<◌, true, false, List, [], ◌∷◌, ◌++◌, ◌≡◌, ◌≢◌, refl, sym, ap, fun_ext, subst,
  ◌∙◌, ◌==◌, arith, length, if◌then◌else◌,
}
use fi_rststep.Prelude.Outcome.{ok, ◌>>=◌}
use fi_rststep.Prelude.Words.{null}
use fi_rststep.Task.{Tasks, nr_tasks}
use fi_rststep.Sched.Links.{has, Distinct}
use fi_rststep.Paging.{Vm}
use fi_rststep.Paging.Copy.{free_user_page_dir}
use fi_rststep.Kernel.{Kernel, vm_of, put_vm, on_tasks}
use fi_rststep.Process.{
  set_parent, set_child, set_sibling, set_exit_code, set_page_dir, adopt, give_to_init,
  free_page_dir, free_task_alloced_memory, task_exit,
}

-- From `p` the siblings are `xs`, and the chain ends there.
abbrev pub Siblings : Tasks → ℕ → List ℕ → Type 0
Siblings t p [] = p ≡ null
Siblings t p (x ∷ xs) = (p ≡ x) × (x ≢ null) × Siblings t (t x).sibling xs

pub Siblings-frame :
    (t u : Tasks) (p : ℕ) (xs : List ℕ)
    → ((y : ℕ) → has y xs ≡ true → (u y).sibling ≡ (t y).sibling)
    → Siblings t p xs
    → Siblings u p xs
Siblings-frame t u p [] same s = s
Siblings-frame t u p (x ∷ xs) same (e, ne, rest) = (
  e,
  ne,
  rw (same x (ground arith))
      (Siblings-frame t u (t x).sibling xs (λ y h. same y (ground arith)) rest),
)

-- the store with `init` as the parent of every task of a list
abbrev pub adopted : ℕ → List ℕ → Tasks → Tasks
adopted init xs t y = record (t y) { parent = if has y xs then init else (t y).parent }

abbrev pub last_of : ℕ → List ℕ → ℕ
last_of d [] = d
last_of d (x ∷ xs) = last_of x xs

adopt-adopted :
    (fuel init p last : ℕ) (xs : List ℕ) (t : Tasks)
    → Siblings t p xs
    → length xs < fuel
    → adopt fuel init p last t ≡ ok (last_of last xs, adopted init xs t)
unfolding adopt
adopt-adopted zero init p last xs t s short = absurd (omega arith)
adopt-adopted (suc fuel) init p last [] t s short = rw s refl
adopt-adopted (suc fuel) init p last (x ∷ xs) t (e, ne, rest) short =
    let z : (p == null) ≡ false = ground arith in
    let rest' = Siblings-frame t (set_parent x init t) (t x).sibling xs (λ y h. refl) rest in
    rw (z, e)
      (adopt-adopted fuel init (t x).sibling x xs (set_parent x init t) rest' (omega arith)
        ∙ ap (λ u. ok (last_of x xs, u)) (adopted_cons x))
  where
    adopted_cons : (x : ℕ) → adopted init xs (set_parent x init t) ≡ adopted init (x ∷ xs) t
    adopted_cons x = fun_ext (λ y. ap (λ v. record (t y) { parent = v }) (ground arith))

has-last_of : (x : ℕ) (xs : List ℕ) → has (last_of x xs) (x ∷ xs) ≡ true
has-last_of x [] = ground arith
has-last_of x (y ∷ xs) = ground (arith, has-last_of y xs)

-- The chain goes on behind its last task.
Siblings-append :
    (t : Tasks) (p x : ℕ) (xs ys : List ℕ) (q : ℕ)
    → Siblings t p (x ∷ xs)
    → Distinct (x ∷ xs)
    → Siblings (set_sibling (last_of x xs) q t) q ys
    → Siblings (set_sibling (last_of x xs) q t) p ((x ∷ xs) ++ ys)
Siblings-append t p x [] ys q (e, ne, rest) d more =
    let self : (set_sibling x q t x).sibling ≡ q = ground arith in
    (e, ne, subst (λ z. Siblings (set_sibling x q t) z ys) (sym self) more)
Siblings-append t p x (y ∷ xs) ys q (e, ne, rest) (out, d) more =
    let u = set_sibling (last_of y xs) q t in
    let same : (u x).sibling ≡ (t x).sibling = ground (arith, has-last_of y xs, apart_of x) in
    (
      e,
      ne,
      subst (λ z. Siblings u z ((y ∷ xs) ++ ys)) (sym same)
          (Siblings-append t (t x).sibling y xs ys q rest d more),
    )
  where
    apart_of : (a : ℕ) → has a (y ∷ xs) ≡ false → last_of y xs ≢ a
    apart_of a h f = let h' = subst (λ z. has z (y ∷ xs) ≡ true) f (has-last_of y xs) in cc

-- What becomes of the children `xs` of `task` when `init` has the children `ys`.
pub record IsAdopted (t u : Tasks) (init task : ℕ) (xs ys : List ℕ) : Type 0 where
  pub children : Siblings u (u init).child (xs ++ ys)
  pub new_parent : (y : ℕ) → has y xs ≡ true → (u y).parent ≡ init
  pub other_parent : (y : ℕ) → has y xs ≡ false → (u y).parent ≡ (t y).parent
  pub other_child : (y : ℕ) → y ≢ init → (u y).child ≡ (t y).child
  pub state : (y : ℕ) → (u y).state ≡ (t y).state
  pub exit_code : (y : ℕ) → (u y).exit_code ≡ (t y).exit_code
  pub pid : (y : ℕ) → (u y).pid ≡ (t y).pid
  pub page_dir : (y : ℕ) → (u y).page_dir ≡ (t y).page_dir
  pub links : (y : ℕ) → ((u y).prev ≡ (t y).prev) × ((u y).next ≡ (t y).next)

pub give_to_init-IsAdopted :
    (init task : ℕ) (t : Tasks) (xs ys : List ℕ)
    → Siblings t (t task).child xs
    → Siblings t (t init).child ys
    → Distinct xs
    → ((y : ℕ) → has y xs ≡ true → has y ys ≡ false)
    → init ≢ task
    → length xs ≤ nr_tasks
    → (u : Tasks) × (give_to_init init task t ≡ ok u) × IsAdopted t u init task xs ys
unfolding give_to_init
give_to_init-IsAdopted init task t [] ys s old d apart ne short = (
  t,
  rw (adopt-adopted (suc nr_tasks) init (t task).child null [] t s (omega arith), ◌>>=◌) refl,
  record {
    children = old;
    new_parent = λ y h. absurd (ground arith);
    other_parent = λ y h. refl;
    other_child = λ y h. refl;
    state = λ y. refl;
    exit_code = λ y. refl;
    pid = λ y. refl;
    page_dir = λ y. refl;
    links = λ y. (refl, refl);
  },
)
give_to_init-IsAdopted init task t (x ∷ xs) ys s old d apart ne short =
    let t₁ = adopted init (x ∷ xs) t in
    let t₂ = set_sibling (last_of x xs) (t₁ init).child t₁ in
    let u = set_child init (t₂ task).child t₂ in
    let found = adopt-adopted (suc nr_tasks) init (t task).child null (x ∷ xs) t s (omega arith) in
    let end : (last_of x xs == null) ≡ false = last_ne (t task).child x xs s in
    let into : (u init).child ≡ (t task).child = ground arith in
    let behind =
      Siblings-frame t t₂ (t init).child ys
        (λ y h. ground (arith, apart (last_of x xs) (has-last_of x xs))) old in
    (
      u,
      rw (found, ◌>>=◌) (rw end refl),
      record {
        children =
            subst (λ z. Siblings u z ((x ∷ xs) ++ ys)) (sym into)
              (Siblings-frame t₂ u (t task).child ((x ∷ xs) ++ ys) (λ y h. refl)
                (Siblings-append t₁ (t task).child x xs ys (t init).child
                  (Siblings-frame t t₁ (t task).child (x ∷ xs) (λ y h. refl) s) d behind));
        new_parent = λ y h. rw h refl;
        other_parent = λ y h. rw h refl;
        other_child = λ y h. ground arith;
        state = λ y. refl;
        exit_code = λ y. refl;
        pid = λ y. refl;
        page_dir = λ y. refl;
        links = λ y. (refl, refl);
      },
    )
  where
    last_ne : (p x : ℕ) (xs : List ℕ) → Siblings t p (x ∷ xs) → (last_of x xs == null) ≡ false
    last_ne p x [] (e, n, rest) = ground arith
    last_ne p x (y ∷ xs) (e, n, rest) = last_ne (t x).sibling y xs rest

-- the kernel when the memory is freed, the exit code stored and the children given away
abbrev pub exited : Kernel → ℕ → ℕ → Vm → Tasks → Kernel
exited k task exit_code s u =
    on_tasks (λ _. u) (put_vm s (on_tasks (set_exit_code task exit_code) k))

pub task_exit_lem :
    (k : Kernel) (task exit_code : ℕ) (s : Vm) (xs ys : List ℕ)
    → task ≢ null
    → task ≢ k.init_task
    → free_user_page_dir (k.sched.tasks task).page_dir (vm_of k) ≡ ok s
    → Siblings k.sched.tasks (k.sched.tasks task).child xs
    → Siblings k.sched.tasks (k.sched.tasks k.init_task).child ys
    → Distinct xs
    → ((y : ℕ) → has y xs ≡ true → has y ys ≡ false)
    → length xs ≤ nr_tasks
    → (u : Tasks) × (task_exit task exit_code k ≡ ok (exited k task exit_code s u))
      × IsAdopted
          (set_page_dir task null (set_exit_code task exit_code k.sched.tasks))
          u
          k.init_task
          task
          xs
          ys
unfolding task_exit free_task_alloced_memory free_page_dir
task_exit_lem k task exit_code s xs ys nn ni freed ch old d apart short =
    let t = set_page_dir task null (set_exit_code task exit_code k.sched.tasks) in
    let z : (task == null) ≡ false = ground arith in
    let i : (task == k.init_task) ≡ false = ground arith in
    let (u, e, is) =
      give_to_init-IsAdopted k.init_task task t xs ys
        (Siblings-frame k.sched.tasks t (k.sched.tasks task).child xs (λ y h. refl) ch)
        (Siblings-frame k.sched.tasks t (k.sched.tasks k.init_task).child ys (λ y h. refl) old) d
        apart (λ h. ni (sym h)) short in
    (u, rw (z, i, freed, ◌>>=◌) (rw (e) refl), is)

-- If a task that is not NULL and not `init` has the children `xs`, at most 100, none of them among
-- the children `ys` of `init`, and its page directory can be freed, then `task_exit` returns with
-- that memory freed. The children of `init` are `xs` followed by `ys`, the parent of each of `xs`
-- is `init`, the exit code is stored and the page directory forgotten; no other parent, child,
-- state, pid, exit code, page directory or link of the ready list is changed.
pub task_exit-IsAdopted :
    (k : Kernel) (task exit_code : ℕ) (s : Vm) (xs ys : List ℕ)
    → task ≢ null
    → task ≢ k.init_task
    → free_user_page_dir (k.sched.tasks task).page_dir (vm_of k) ≡ ok s
    → Siblings k.sched.tasks (k.sched.tasks task).child xs
    → Siblings k.sched.tasks (k.sched.tasks k.init_task).child ys
    → Distinct xs
    → ((y : ℕ) → has y xs ≡ true → has y ys ≡ false)
    → length xs ≤ nr_tasks
    → (k' : Kernel) × (task_exit task exit_code k ≡ ok k')
      × (k'.vm ≡ s)
      × IsAdopted
          (set_page_dir task null (set_exit_code task exit_code k.sched.tasks))
          k'.sched.tasks
          k.init_task
          task
          xs
          ys
task_exit-IsAdopted k task exit_code s xs ys nn ni freed ch old d apart short =
    let (u, e, is) = task_exit_lem k task exit_code s xs ys nn ni freed ch old d apart short in
    (exited k task exit_code s u, e, refl, is)
