-- ===== src/Prelude/Arith.antt =====
-- Quotient and remainder by a variable.
use Prim.Native.Nat.{ℕ, ◌+◌, ◌*◌, ◌/◌, ◌%◌, ◌<◌}
use mathlib.Core.Path.{◌≡◌}
use native.Mathlib.Nat.{mul-add-mod_self_right, mul-add-div_right, mod-eq_of_lt}
use native.Mathlib.Omega.{arith}

-- A number is its quotient and remainder in only one way.
pub mod_of_parts : (n q r d : ℕ) → n ≡ q * d + r → r < d → n % d ≡ r
mod_of_parts n q r d e h = rw (e, mul-add-mod_self_right, mod-eq_of_lt h)

pub div_of_parts : (n q r d : ℕ) → n ≡ q * d + r → r < d → n / d ≡ q
div_of_parts n q r d e h = grind (arith, e, mul-add-div_right {m = d} (omega arith) q r)
