-- ===== src/Examples/Console.antt =====
-- kernel/tty.c and lib/vsprintf.c on concrete inputs.
use fi_rststep.Prelude.{ℕ, ◌-◌, ◌^◌, ◌≤◌, ◌≡◌, ◌⊎◌, refl, List, [], ◌∷◌, arith}
use fi_rststep.Prelude.Outcome.{ok}
use fi_rststep.Tty.{Tty, tty_write, cga_mem_size}
use fi_rststep.Tty.Screen.{IsTty, IsShown, tty_write-IsTty}
use fi_rststep.Tty.Text.{typed, tty_write-plain}
use fi_rststep.Fmt.{Out, number}
use fi_rststep.Fmt.Digits.{read_back, number-read_back}

-- a cleared screen with the cursor at the third cell
abbrev small_tty : Tty
small_tty = record {
  vmem_base = 0;
  vmem_size = cga_mem_size;
  screen = 0;
  cursor = 2;
  attr = 7;
  mem = λ a. 0;
  crtc = λ r. 0;
}

small_tty-IsTty : IsTty small_tty
small_tty-IsTty = record { base = refl; size = refl; line = refl; fits = omega arith }

abbrev hello : List ℕ
hello = b'H' ∷ b'i' ∷ []

tty_write-IsTty_example : let (n, t') = tty_write hello small_tty in (n ≡ 2) × IsTty t' × IsShown t'
tty_write-IsTty_example = tty_write-IsTty hello small_tty small_tty-IsTty

tty_write-plain_example :
    let (n, t') = tty_write hello small_tty in
    (n ≡ 2) × ((a : ℕ) → t'.mem a ≡ typed 7 2 hello (λ a. 0) a) × (t'.cursor ≡ 4) × (t'.screen ≡ 0)
tty_write-plain_example =
    tty_write-plain hello small_tty (refl, (refl, tt)) (omega arith) (omega arith) (omega arith)

number-read_back_example :
    (o : Out) × (number (λ i. 0) 1024 10 0 0 0 ≡ ok o)
    × (read_back 10 o.len o.buf ≡ 1024)
    × (1 ≤ o.len)
    × (o.len ≤ 10)
    × ((o.len ≡ 1) ⊎ (10 ^ (o.len - 1) ≤ 1024))
number-read_back_example =
    number-read_back (λ i. 0) 1024 10 9 (omega arith) (omega arith) (omega arith) (omega arith)
      (omega arith)
