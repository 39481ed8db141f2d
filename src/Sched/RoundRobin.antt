-- ===== src/Sched/RoundRobin.antt =====
-- The abstract scheduler, a queue that turns, and its implementation by ticks.
use fi_rststep.Prelude.{
  ℕ, zero, suc, false, List, [], ◌∷◌, ◌++◌, ◌≡◌, ◌≢◌, refl, ◌==◌, arith, length, append_assoc, ◌∙◌,
  subst, sym, ap,
}
use fi_rststep.Prelude.Words.{null}
use fi_rststep.Sched.{Sched, Run, ok, jump, panic, endless}
use fi_rststep.Sched.Links.{has, has-append, Seg-ne_null}
use fi_rststep.Sched.Invariant.{IsSched}
use fi_rststep.Sched.Switch.{schedule_handler}
use fi_rststep.Sched.Tick.{
  waiting, resumed, saved, requeued, switched, schedule_handler_ready, schedule_handler_empty,
  switched-IsSched, saved-IsSched, current-saved, frame-requeued,
}

-- One turn: the first in the queue runs, the one that ran goes to its end.
unfoldable pub turn : ℕ → List ℕ → ℕ × List ℕ
turn c [] = (c, [])
turn c (x ∷ xs) = (x, xs ++ waiting c)

-- What a tick leaves: the frame of the interrupted task is in its structure, and the processor has
-- the page directory and kernel stack of the task that runs.
pub record IsTurned (frame : ℕ) (s s' : Sched) (next : ℕ) (queue : List ℕ) : Type 0 where
  pub current : s'.current_task ≡ next
  pub inv : IsSched s' queue
  pub cr3 : s'.cr3 ≡ (s'.tasks next).page_dir
  pub stack : s'.tss_esp0 ≡ (s'.tasks next).esp0
  pub frame_saved : s.current_task ≢ null → (s'.tasks s.current_task).frame ≡ frame

frame-saved :
    (s : Sched) (frame : ℕ)
    → s.current_task ≢ null
    → ((saved frame s).tasks s.current_task).frame ≡ frame
frame-saved s frame h = ground arith

turn_ready :
    (frame : ℕ) (s : Sched) (x : ℕ) (xs : List ℕ)
    → IsSched s (x ∷ xs)
    → IsTurned frame s (switched x (requeued x (saved frame s))) x (xs ++ waiting s.current_task)
turn_ready frame s x xs is =
    let s' = switched x (requeued x (saved frame s)) in
    record {
      current = refl;
      inv =
          subst (λ z. IsSched s' (xs ++ waiting z)) (current-saved s frame)
            (switched-IsSched (saved frame s) x xs (saved-IsSched s frame (x ∷ xs) is));
      cr3 = refl;
      stack = refl;
      frame_saved = λ h. frame-requeued (saved frame s) x s.current_task ∙ frame-saved s frame h;
    }

turn_empty :
    (frame : ℕ) (s : Sched)
    → IsSched s []
    → (s.current_task == null) ≡ false
    → IsTurned frame s (resumed s.current_task (saved frame s)) s.current_task []
turn_empty frame s is busy =
    let is' = saved-IsSched s frame [] is in
    record {
      current = current-saved s frame;
      inv = record { queue = is'.queue; running = is'.running; short = is'.short };
      cr3 = refl;
      stack = refl;
      frame_saved = frame-saved s frame;
    }

-- From a valid state with a current task, a timer tick jumps into the task that the abstract
-- queue's turn gives (the first ready one, or the current one if none is ready) and leaves a valid
-- state with that turn's queue: the interrupted task's frame is saved in its structure, and the
-- page directory and kernel stack are those of the task that runs.
pub schedule_handler-turn :
    (frame : ℕ) (s : Sched) (xs : List ℕ)
    → IsSched s xs
    → s.current_task ≢ null
    → let (next, queue) = turn s.current_task xs in
      (s' : Sched) × (schedule_handler frame s ≡ jump next s') × IsTurned frame s s' next queue
unfolding turn
schedule_handler-turn frame s [] is ne =
    let busy : (s.current_task == null) ≡ false = ground arith in
    (
      resumed s.current_task (saved frame s),
      schedule_handler_empty frame s is ∙ rw busy,
      turn_empty frame s is busy,
    )
schedule_handler-turn frame s (x ∷ xs) is ne = (
  switched x (requeued x (saved frame s)),
  schedule_handler_ready frame s x xs is,
  turn_ready frame s x xs is,
)

-- Ticks one after the other; the last argument is the number of ticks, `frame` what each interrupts.
unfoldable pub run_ticks : (ℕ → ℕ) → ℕ → Sched → Run (Unit {0})
run_ticks frame zero s = ok tt s
run_ticks frame (suc n) s = elim (schedule_handler (frame n) s) [
  | jump p s' ↦ run_ticks frame n s'
  | ok a s' ↦ ok a s'
  | panic ↦ panic
  | endless ↦ endless
]

unfoldable pub turns : ℕ → ℕ → List ℕ → ℕ × List ℕ
turns zero c xs = (c, xs)
turns (suc n) c xs = let (c', xs') = turn c xs in turns n c' xs'

no_null : (s : Sched) (xs : List ℕ) → IsSched s xs → has null xs ≡ false
no_null s xs is =
    Seg-ne_null s.tasks null s.ready_tasks.head xs null s.ready_tasks.tail is.queue.list.chain

has-append_left : (a : ℕ) (xs ys : List ℕ) → has a (xs ++ ys) ≡ false → has a xs ≡ false
has-append_left a xs ys h = ground (arith, has-append a xs ys)

turn-ne_null : (c : ℕ) (xs : List ℕ) → c ≢ null → has null xs ≡ false → (turn c xs).0 ≢ null
unfolding turn
turn-ne_null c [] ne out = ne
turn-ne_null c (x ∷ xs) ne out = ground arith

waiting-task : (c : ℕ) → c ≢ null → waiting c ≡ c ∷ []
waiting-task c ne = ground arith

-- From a valid state with a current task, `n` timer ticks, whatever frames they interrupt, never
-- panic or hang and leave the current task and the ready queue that `n` turns of the abstract
-- queue give, in a valid state.
pub run_ticks-turns :
    (frame : ℕ → ℕ) (n : ℕ) (s : Sched) (xs : List ℕ)
    → IsSched s xs
    → s.current_task ≢ null
    → let (next, queue) = turns n s.current_task xs in
      (s' : Sched) × (run_ticks frame n s ≡ ok tt s') × (s'.current_task ≡ next) × IsSched s' queue
unfolding run_ticks turns
run_ticks-turns frame zero s xs is ne = (s, refl, refl, is)
run_ticks-turns frame (suc n) s xs is ne =
    let (s₁, e, t) = schedule_handler-turn (frame n) s xs is ne in
    let next = (turn s.current_task xs).0 in
    let ne₁ : s₁.current_task ≢ null =
      subst (λ z. z ≢ null) (sym t.current) (turn-ne_null s.current_task xs ne (no_null s xs is)) in
    let (s₂, e', c, i) = run_ticks-turns frame n s₁ (turn s.current_task xs).1 t.inv ne₁ in
    let same = ap (λ z. turns n z (turn s.current_task xs).1) t.current in
    (s₂, rw (e, run_ticks) e', c ∙ ap (λ z. z.0) same, subst (λ z. IsSched s₂ z.1) same i)

turn-cons : (c x : ℕ) (xs : List ℕ) → c ≢ null → turn c (x ∷ xs) ≡ (x, xs ++ (c ∷ []))
unfolding turn
turn-cons c x xs ne = ap (λ z. (x, xs ++ z)) (waiting-task c ne)

-- Turning the queue as often as there are tasks up to `x` makes `x` run, with those before it and the
-- task that ran behind the others.
turns-reach :
    (xs : List ℕ) (c x : ℕ) (ys : List ℕ)
    → c ≢ null
    → has null xs ≡ false
    → turns (suc (length xs)) c (xs ++ (x ∷ ys)) ≡ (x, ys ++ (c ∷ xs))
unfolding turns
turns-reach [] c x ys ne out = turn-cons c x ys ne
turns-reach (a ∷ xs) c x ys ne out =
    ap (λ (z : ℕ × List ℕ). turns (suc (length xs)) z.0 z.1)
      (turn-cons c a (xs ++ (x ∷ ys)) ne ∙ ap (λ z. (a, z)) (append_assoc xs (x ∷ ys) (c ∷ [])))
    ∙ turns-reach xs a x (ys ++ (c ∷ [])) (ground arith) (ground arith)
    ∙ ap (λ z. (x, z)) (append_assoc ys (c ∷ []) (a ∷ xs))

-- From a valid state with a running task, the ready task `x` with the tasks `xs` before it in the
-- queue runs after `length xs + 1` timer ticks. None of these ticks panics or hangs. The tasks
-- behind `x` come first in the queue then, the task that ran at the start follows them, and `xs`
-- come last, in order; the state is valid.
pub run_ticks-reach :
    (frame : ℕ → ℕ) (s : Sched) (xs : List ℕ) (x : ℕ) (ys : List ℕ)
    → IsSched s (xs ++ (x ∷ ys))
    → s.current_task ≢ null
    → (s' : Sched) × (run_ticks frame (suc (length xs)) s ≡ ok tt s')
      × (s'.current_task ≡ x)
      × IsSched s' (ys ++ (s.current_task ∷ xs))
run_ticks-reach frame s xs x ys is ne =
    let (s', e, c, i) = run_ticks-turns frame (suc (length xs)) s (xs ++ (x ∷ ys)) is ne in
    let reach =
      turns-reach xs s.current_task x ys ne
        (has-append_left null xs (x ∷ ys) (no_null s (xs ++ (x ∷ ys)) is)) in
    (s', e, c ∙ ap (λ z. z.0) reach, subst (λ z. IsSched s' z.1) reach i)
