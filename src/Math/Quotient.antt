-- ===== src/Math/Quotient.antt =====
-- `__udivdi3` of lib/math.c and the quotient.
use native.Mathlib.Nat.{mod-eq_of_lt, mod-le, mod-lt, mod-add-div', pow-suc, one-le-pow}
use fi_rststep.Prelude.{
  ℕ, zero, suc, ◌+◌, ◌-◌, ◌*◌, ◌/◌, ◌%◌, ◌^◌, ◌<◌, ◌≡◌, ap, ◌∙◌, Bool, true, false, arith, bit_or,
  leb, ◌==◌, if◌then◌else◌,
}
use fi_rststep.Prelude.Arith.{div_of_parts}
use fi_rststep.Prelude.Bits.{bit_or_fields}
use fi_rststep.Math.{udiv_loop, udivdi3}
use fi_rststep.Math.Remainder.{prefix-suc, push_bit_lem, mod_step}

-- one round of long division on the quotient
div_step :
    (m b d : ℕ)
    → b < 2
    → 0 < d
    → (m * 2 + b) / d ≡ m / d * 2 + (if leb d (m % d * 2 + b) then 1 else 0)
div_step m b d hb hd =
    let q = m / d in
    let r = m % d in
    let whole : r + q * d ≡ m = mod-add-div' m d in
    let low : r < d = mod-lt m hd in
    ground (
      arith,
      div_of_parts (m * 2 + b) (2 * q) (r * 2 + b) d,
      div_of_parts (m * 2 + b) (2 * q + 1) (r * 2 + b - d) d,
    )

-- the bit that a round sets in the quotient was clear
set_bit : (q k : ℕ) → bit_or (q * 2 ^ suc k) (2 ^ k) ≡ (q * 2 + 1) * 2 ^ k
set_bit q k =
    let below : 2 ^ k < 2 ^ suc k = omega (arith, pow-suc 2 k, one-le-pow k 2) in
    rw (bit_or_fields (suc k) q (2 ^ k) below)
      (omega (arith, pow-suc 2 k, ap (λ (t : ℕ). q * t) (pow-suc 2 k)))

set_bit_if :
    (q k : ℕ) (c : Bool)
    → (if c then bit_or (q * 2 ^ suc k) (2 ^ k) else q * 2 ^ suc k)
      ≡ (q * 2 + (if c then 1 else 0)) * 2 ^ k
set_bit_if q k true = set_bit q k
set_bit_if q k false = omega (arith, ap (λ (t : ℕ). q * t) (pow-suc 2 k))

-- what a round leaves in the quotient is the quotient of the longer prefix
extend :
    (n k d : ℕ)
    → 0 < d
    → (if leb d (n / 2 ^ suc k % d * 2 + n / 2 ^ k % 2)
        then bit_or (n / 2 ^ suc k / d * 2 ^ suc k) (2 ^ k)
        else n / 2 ^ suc k / d * 2 ^ suc k)
      ≡ n / 2 ^ k / d * 2 ^ k
extend n k d h = rw (
  set_bit_if (n / 2 ^ suc k / d) k (leb d (n / 2 ^ suc k % d * 2 + n / 2 ^ k % 2)),
  ← div_step (n / 2 ^ suc k) (n / 2 ^ k % 2) d (omega arith) h,
  ← prefix-suc n k,
)

udiv_loop_lem :
    (k n base : ℕ)
    → n < 2 ^ 64
    → 0 < base
    → udiv_loop k n base (n / 2 ^ k / base * 2 ^ k) (n / 2 ^ k % base) ≡ n / base
unfolding udiv_loop
udiv_loop_lem zero n base hn hb = let whole : n / 1 ≡ n = omega arith in rw whole (omega arith)
udiv_loop_lem (suc k) n base hn hb =
    rw
      (
        push_bit_lem (n / 2 ^ suc k % base) n k hn (mod-le (n / 2 ^ suc k) base),
        mod_step (n / 2 ^ suc k) (n / 2 ^ k % 2) base (omega arith) hb,
        ← prefix-suc n k,
      )
      (ap (λ (t : ℕ). udiv_loop k n base t (n / 2 ^ k % base)) (extend n k base hb)
        ∙ udiv_loop_lem k n base hn hb)

-- For a dividend below 2 ^ 64, `__udivdi3` is the quotient rounded down, and 2 ^ 64 - 1 if the
-- divisor is 0.
pub udivdi3-eq-div :
    (n base : ℕ) → n < 2 ^ 64 → udivdi3 n base ≡ (if base == 0 then 2 ^ 64 - 1 else n / base)
unfolding udivdi3
udivdi3-eq-div n base hn = ground (
  arith,
  udiv_loop_lem 64 n base,
  mod-eq_of_lt {n = 0} {m = base},
  div_of_parts n 0 n base,
  div_of_parts 0 0 0 base,
)
