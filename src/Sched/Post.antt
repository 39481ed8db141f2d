-- ===== src/Sched/Post.antt =====
-- What calls of kernel/scheduler.c keep of the rule that only the current task runs.
use fi_rststep.Prelude.{ℕ, ◌≡◌, ◌≢◌, ◌⊎◌, inl, inr, refl, sym, subst, ◌∙◌, arith}
use fi_rststep.Prelude.Words.{null}
use fi_rststep.Task.{TaskState, task_running, set_state}
use fi_rststep.Sched.{Sched, Run, ok, jump, panic, endless, Cmd, ◌>>=◌}
use fi_rststep.Sched.Invariant.{Running, task_list_add-SameOwn}
use fi_rststep.Sched.Switch.{add_ready}

-- The current task runs, if there is one, and no other does.
pub record IsSafe (s : Sched) : Type 0 where
  pub running : Running s
  pub only : (y : ℕ) → y ≢ null → (s.tasks y).state ≡ task_running → y ≡ s.current_task

-- What holds where a call returns; where it enters a task, this is the one that runs.
abbrev pub Post : {A : Type 0} → (Sched → Type 0) → Run A → Type 0
Post P (ok a s) = P s
Post P (jump p s) = IsSafe s × (p ≡ s.current_task)
Post P panic = Unit
Post P endless = Unit

pub bound :
    {A B : Type 0} (P Q : Sched → Type 0) (f : A → Cmd B) (r : Run A)
    → Post P r
    → ((a : A) (s' : Sched) → P s' → Post Q (f a s'))
    → Post Q (elim r as (λ _. Run B) [
      | ok a s' ↦ f a s'
      | jump p s' ↦ jump p s'
      | panic ↦ panic
      | endless ↦ endless
    ])
bound P Q f (ok a s') h g = g a s' h
bound P Q f (jump p s') h g = h
bound P Q f panic h g = tt
bound P Q f endless h g = tt

pub Post-bind :
    {A B : Type 0} (P Q : Sched → Type 0) (m : Cmd A) (f : A → Cmd B) (s : Sched)
    → Post P (m s)
    → ((a : A) (s' : Sched) → P s' → Post Q (f a s'))
    → Post Q ((m >>= f) s)
Post-bind P Q m f s h g = bound P Q f (m s) h g

pub Post-weaken :
    {A : Type 0} (P Q : Sched → Type 0) (r : Run A)
    → ((s : Sched) → P s → Q s)
    → Post P r
    → Post Q r
Post-weaken P Q (ok a s) h p = h s p
Post-weaken P Q (jump q s) h p = p
Post-weaken P Q panic h p = tt
Post-weaken P Q endless h p = tt

-- The same apart from one task.
pub record IsSafeBut (task : ℕ) (s : Sched) : Type 0 where
  pub current :
      (s.current_task ≡ null)
      ⊎ ((s.current_task ≢ task) × ((s.tasks s.current_task).state ≡ task_running))
  pub others : (y : ℕ) → y ≢ null → y ≢ task → (s.tasks y).state ≡ task_running → y ≡ s.current_task

pub but-idle :
    (task : ℕ) (s : Sched) → IsSafe s → (s.tasks task).state ≢ task_running → IsSafeBut task s
but-idle task s is h = record { current = apart is.running; others = λ y n o r. is.only y n r }
  where
    apart :
        Running s
        → (s.current_task ≡ null)
          ⊎ ((s.current_task ≢ task) × ((s.tasks s.current_task).state ≡ task_running))
    apart (inl e) = inl e
    apart (inr e) = inr (λ f. h (subst (λ z. (s.tasks z).state ≡ task_running) f e), e)

pub but-running :
    (task : ℕ) (s : Sched)
    → IsSafe s
    → task ≢ null
    → (s.tasks task).state ≡ task_running
    → IsSafeBut task (record s { current_task = null })
but-running task s is nn h = record {
  current = inl refl;
  others = λ y n o r. absurd (o (is.only y n r ∙ sym (is.only task nn h)));
}

pub write_state-IsSafe :
    (task : ℕ) (st : TaskState) (s : Sched)
    → IsSafeBut task s
    → st ≢ task_running
    → IsSafe (record s { tasks = set_state task st s.tasks })
write_state-IsSafe task st s is ne = record {
  running = kept is.current;
  only = λ y n r. is.others y n (λ e. ne (ground arith)) (ground arith);
}
  where
    kept :
        (s.current_task ≡ null)
          ⊎ ((s.current_task ≢ task) × ((s.tasks s.current_task).state ≡ task_running))
        → Running (record s { tasks = set_state task st s.tasks })
    kept (inl e) = inl e
    kept (inr (n, e)) = inr (ground arith)

-- Writes that leave every state alone.
pub IsSafe-same :
    (s s' : Sched)
    → s'.current_task ≡ s.current_task
    → ((y : ℕ) → (s'.tasks y).state ≡ (s.tasks y).state)
    → IsSafe s
    → IsSafe s'
IsSafe-same s s' c same is = record {
  running = kept is.running;
  only = λ y n r. is.only y n (sym (same y) ∙ r) ∙ sym c;
}
  where
    kept : Running s → Running s'
    kept (inl e) = inl (c ∙ e)
    kept (inr e) =
        inr (same s'.current_task ∙ subst (λ z. (s.tasks z).state ≡ task_running) (sym c) e)

pub add_ready-Post :
    (task : ℕ) (P : Sched → Type 0) (s : Sched)
    → ((s' : Sched)
        → s'.current_task ≡ s.current_task
        → ((y : ℕ) → (s'.tasks y).state ≡ (s.tasks y).state)
        → P s')
    → Post P (add_ready task s)
unfolding add_ready
add_ready-Post task P s h =
    h _ refl (λ y. (task_list_add-SameOwn s.ready_tasks task s.tasks).state y)
