-- ===== src/Math/Remainder.antt =====
-- `__umoddi3` of lib/math.c and the remainder.
use native.Mathlib.Nat.{
  div-div-eq-div-mul, pow-suc, mod-eq_of_lt, div-le_self, mod-le, mod-add-div', mod-lt,
}
use fi_rststep.Prelude.{
  ℕ, zero, suc, ◌+◌, ◌-◌, ◌*◌, ◌/◌, ◌%◌, ◌^◌, ◌≤◌, ◌<◌, ◌≡◌, ap, arith, leb, ◌==◌, if◌then◌else◌,
}
use fi_rststep.Prelude.Bits.{bit_or_push, bit_and-one}
use fi_rststep.Prelude.Arith.{mod_of_parts}
use fi_rststep.Math.{push_bit, umod_loop, umoddi3}

-- The prefix of `n` above bit `i` gains the bit `i`.
pub prefix-suc : (n i : ℕ) → n / 2 ^ i ≡ n / 2 ^ suc i * 2 + n / 2 ^ i % 2
prefix-suc n i = omega (arith, div-div-eq-div-mul n (2 ^ i) 2, ap (λ (t : ℕ). n / t) (pow-suc 2 i))

-- No bit is lost at the top: what has been read so far is at most `n >> 1`.
pub push_bit_lem :
    (acc n i : ℕ) → n < 2 ^ 64 → acc ≤ n / 2 ^ suc i → push_bit acc n i ≡ acc * 2 + n / 2 ^ i % 2
push_bit_lem acc n i hn h =
    let small : acc * 2 < 2 ^ 64 = omega (arith, prefix-suc n i, div-le_self n (2 ^ i)) in
    rw (mod-eq_of_lt small, bit_and-one, bit_or_push acc (n / 2 ^ i % 2) (omega arith))

-- one round of long division on the remainder
pub mod_step :
    (m b d : ℕ)
    → b < 2
    → 0 < d
    → (let s = m % d * 2 + b in if leb d s then s - d else s) ≡ (m * 2 + b) % d
mod_step m b d hb hd =
    let q = m / d in
    let r = m % d in
    let whole : r + q * d ≡ m = mod-add-div' m d in
    let low : r < d = mod-lt m hd in
    ground (
      arith,
      mod_of_parts (m * 2 + b) (2 * q) (r * 2 + b) d,
      mod_of_parts (m * 2 + b) (2 * q + 1) (r * 2 + b - d) d,
    )

umod_loop_lem :
    (k n base : ℕ) → n < 2 ^ 64 → 0 < base → umod_loop k n base (n / 2 ^ k % base) ≡ n % base
unfolding umod_loop
umod_loop_lem zero n base hn hb = ap (λ (t : ℕ). t % base) (omega arith)
umod_loop_lem (suc k) n base hn hb =
    rw
      (
        push_bit_lem (n / 2 ^ suc k % base) n k hn (mod-le (n / 2 ^ suc k) base),
        mod_step (n / 2 ^ suc k) (n / 2 ^ k % 2) base (omega arith) hb,
        ← prefix-suc n k,
      )
      (umod_loop_lem k n base hn hb)

-- For a dividend below 2 ^ 64, `__umoddi3` is the remainder, and 0 if the divisor is 0.
pub umoddi3-eq-mod :
    (n base : ℕ) → n < 2 ^ 64 → umoddi3 n base ≡ (if base == 0 then 0 else n % base)
unfolding umoddi3
umoddi3-eq-mod n base hn = ground (
  arith,
  umod_loop_lem 64 n base,
  mod-eq_of_lt {n = n} {m = base},
  mod-eq_of_lt {n = 0} {m = base},
)
