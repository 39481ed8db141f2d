-- ===== src/Prelude/Outcome.antt =====
-- What a kernel function may do: return, stop the machine by `panic` or a failed `assert` (both spin
-- for ever), or stay in a loop of its own.
use mathlib.Core.Bool.{Bool, true, false}

pub data Outcome {ℓ} (A : Type ℓ) : Type ℓ where
  ok : A → Outcome A
  panic : Outcome A
  endless : Outcome A

-- A step that did not return ends the whole sequence.
infixl 5 ◌>>=◌ ◌>>◌
abbrev pub ◌>>=◌ {ℓ κ} : {X : Type ℓ} {Y : Type κ} → Outcome X → (X → Outcome Y) → Outcome Y
panic >>= next = panic
endless >>= next = endless
ok x >>= next = next x

abbrev pub ◌>>◌ {ℓ} : {Y : Type ℓ} → Outcome (Unit {0}) → Outcome Y → Outcome Y
first >> second = first >>= λ _. second

-- `assert(c)`
abbrev pub assert : Bool → Outcome (Unit {0})
assert false = panic
assert true = ok tt
