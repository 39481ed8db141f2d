-- ===== src/User/Programs.antt =====
-- usr/init.c and usr/hello.c: the two programs.
use fi_rststep.Prelude.{ℕ, zero, suc, ◌-◌, ◌^◌, List, [], ◌∷◌, ◌==◌, if◌then◌else◌}
use fi_rststep.Prelude.Outcome.{Outcome, ok, endless, ◌>>=◌}
use fi_rststep.Prelude.Words.{null}
use fi_rststep.Paging.{load32}
use fi_rststep.Console.{store_words, pushed_at}
use fi_rststep.User.{User, Regs, fork, getpid, wait, execl, printf}

-- where the compiler puts the texts
pub record Texts : Type 0 where
  pub init_process : ℕ
  pub fork_failed : ℕ
  pub child_process : ℕ
  pub hello_path : ℕ
  pub execve_failed : ℕ
  pub parent_process : ℕ
  pub child_exited : ℕ
  pub hello : ℕ

-- -1 as a 32-bit word
abbrev failure : ℕ
failure = 2 ^ 32 - 1

-- `buf` is the buffer of `printf`, `top` the stack pointer below the locals, `status` the address of the
-- variable of that name; the stack of a call begins a page below, out of the way of its arguments.
module _ {W : Type 0} (trap : Regs → User W → Outcome (ℕ × User W)) (txt : Texts)
    (buf top status : ℕ) where
  abbrev below : ℕ
  below = top - 4096

  unfoldable pub call_printf : List ℕ → User W → Outcome (User W)
  call_printf words s = do
    let at = pushed_at top words
    (n, s') ← printf trap buf below at (record s { mem = store_words at words s.mem })
    ok s'

  -- `execl("/bin/hello", NULL)`
  unfoldable pub call_execl : User W → Outcome (ℕ × User W)
  call_execl s =
      let words : List ℕ = txt.hello_path ∷ null ∷ [] in
      let at = pushed_at top words in
      execl trap below at (record s { mem = store_words at words s.mem })

  -- `while (1)`, for as many rounds as `fuel` says
  unfoldable pub wait_loop : ℕ → User W → Outcome (ℕ × User W)
  wait_loop zero s = endless
  wait_loop (suc fuel) s = do
    (wpid, s₁) ← wait trap below status s
    s₂ ←
        if wpid == failure
        then ok s₁
        else call_printf (txt.child_exited ∷ wpid ∷ load32 s₁.mem status ∷ []) s₁
    wait_loop fuel s₂

  unfoldable pub init_main : ℕ → User W → Outcome (ℕ × User W)
  init_main fuel s = do
    (own, s₁) ← getpid trap below s
    s₂ ← call_printf (txt.init_process ∷ own ∷ []) s₁
    (pid, s₃) ← fork trap below s₂
    if pid == failure then (do s₄ ← call_printf (txt.fork_failed ∷ []) s₃; ok (failure, s₄)) else do
      (mine, s₄) ← getpid trap below s₃
      if pid == 0
          then (do
            s₅ ← call_printf (txt.child_process ∷ mine ∷ []) s₄
            (result, s₆) ← call_execl s₅
            if result == failure
                then (do s₇ ← call_printf (txt.execve_failed ∷ []) s₆; ok (failure, s₇))
                else ok (0, s₆))
          else (do s₅ ← call_printf (txt.parent_process ∷ mine ∷ []) s₄; wait_loop fuel s₅)

  unfoldable pub hello_main : User W → Outcome (ℕ × User W)
  hello_main s = do s' ← call_printf (txt.hello ∷ []) s; ok (0, s')
