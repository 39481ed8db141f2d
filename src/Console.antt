-- ===== src/Console.antt =====
-- kernel/printk.c and kernel/assert.c: the kernel's own output, and `sprintf` of lib/vsprintf.c, with the variable arguments of inc/varg.h.
-- The text is put together in a static buffer, at `buf`, and the arguments lie on the stack, both in
-- the memory that the terminal's state holds.
pub mod Plain
use fi_rststep.Prelude.{ℕ, zero, suc, ◌+◌, ◌-◌, ◌*◌, ◌/◌, List, [], ◌∷◌, length}
use fi_rststep.Prelude.Outcome.{Outcome, ok, ◌>>=◌}
use fi_rststep.Str.{Memory}
use fi_rststep.Paging.{load32, store32}
use fi_rststep.Tty.{Tty, tty_write}
use fi_rststep.Fmt.Format.{vsprintf}

-- `STACK_PUSH_SIZE`
abbrev pub stack_push_size : ℕ
stack_push_size = 4

abbrev pub va_rounded_size : ℕ → ℕ
va_rounded_size size = (size + stack_push_size - 1) / stack_push_size * stack_push_size

-- the arguments behind the named one of `size` bytes at `at`
abbrev pub va_start : ℕ → ℕ → ℕ
va_start at size = at + va_rounded_size size

-- the words that a call pushes, the first argument lowest
unfoldable pub store_words : ℕ → List ℕ → Memory → Memory
store_words at [] mem = mem
store_words at (w ∷ ws) mem = store_words (at + 4) ws (store32 at w mem)

-- the first of these words, when the stack pointer is `top`
abbrev pub pushed_at : ℕ → List ℕ → ℕ
pushed_at top words = top - 4 * length words

unfoldable pub bytes_from : ℕ → ℕ → Memory → List ℕ
bytes_from zero p mem = []
bytes_from (suc n) p mem = mem p ∷ bytes_from n (p + 1) mem

-- `sprintf` of lib/vsprintf.c: the buffer's address lies at `at`, the format behind it.
unfoldable pub sprintf : ℕ → Memory → Outcome (ℕ × Memory)
sprintf at mem = vsprintf (load32 mem at) (load32 mem (at + 4)) (va_start (at + 4) 4) mem

-- the size of `vprintk`'s static buffer; nothing in the code looks at it
abbrev pub buf_size : ℕ
buf_size = 1024

-- The text's length, and the terminal. A text of `buf_size` bytes or more is written on behind the buffer.
unfoldable pub vprintk : ℕ → ℕ → ℕ → Tty → Outcome (ℕ × Tty)
vprintk buf fmt args t = do
  (n, mem) ← vsprintf buf fmt args t.mem
  ok (n, (tty_write (bytes_from n buf mem) (record t { mem = mem })).1)

-- `fmt` lies at `at` on the stack, the other arguments behind it.
unfoldable pub printk : ℕ → ℕ → Tty → Outcome (ℕ × Tty)
printk buf at t = vprintk buf (load32 t.mem at) (va_start at 4) t

-- A call of `printk` with the given words as arguments.
unfoldable pub call_printk : ℕ → ℕ → List ℕ → Tty → Outcome Tty
call_printk buf top words t = do
  let at = pushed_at top words
  (n, t') ← printk buf at (record t { mem = store_words at words t.mem })
  ok t'

-- where the compiler puts the text of the messages
pub record Literals : Type 0 where
  pub assert_message : ℕ
  pub panic_head : ℕ
  pub panic_foot : ℕ
  pub debug_head : ℕ
  pub new_line : ℕ

module _ (lit : Literals) (buf : ℕ) where
  -- The screen with which `assertion_failed` spins; `top` is its stack pointer.
  unfoldable pub assertion_failed : ℕ → ℕ → ℕ → ℕ → ℕ → Tty → Outcome Tty
  assertion_failed top exp file base line t =
      call_printk buf top (lit.assert_message ∷ exp ∷ file ∷ line ∷ base ∷ []) t

  -- The screen with which `panic` spins; its format lies at `at`.
  unfoldable pub panic_screen : ℕ → ℕ → Tty → Outcome Tty
  panic_screen top at t = do
    t₁ ← call_printk buf top (lit.panic_head ∷ []) t
    (n, t₂) ← vprintk buf (load32 t₁.mem at) (va_start at 4) t₁
    call_printk buf top (lit.panic_foot ∷ []) t₂

  -- `file`, `line` and the format lie at `at` and the two words behind.
  unfoldable pub debug_print : ℕ → ℕ → Tty → Outcome Tty
  debug_print top at t = do
    t₁ ← call_printk buf top (lit.debug_head ∷ load32 t.mem at ∷ load32 t.mem (at + 4) ∷ []) t
    (n, t₂) ← vprintk buf (load32 t₁.mem (at + 8)) (va_start (at + 8) 4) t₁
    call_printk buf top (lit.new_line ∷ []) t₂
