-- ===== src/Math.antt =====
-- lib/math.c: the 64-bit remainder and quotient that the compiler calls, done bit by bit.
pub mod Remainder
pub mod Quotient
use fi_rststep.Prelude.{
  ℕ, zero, suc, ◌-◌, ◌*◌, ◌/◌, ◌^◌, bit_and, bit_or, leb, ltb, ◌==◌, if◌then◌else◌,
}
use fi_rststep.Prelude.Words.{u64, ◌>>>◌}

-- `(acc << 1) | ((n >> i) & 1)` on 64 bits
abbrev pub push_bit : ℕ → ℕ → ℕ → ℕ
push_bit acc n i = bit_or (u64 (acc * 2)) (bit_and (n >>> i) 1)

-- The loop of `__umoddi3`; the first argument is `i + 1`.
unfoldable pub umod_loop : ℕ → ℕ → ℕ → ℕ → ℕ
umod_loop zero n base result = result
umod_loop (suc i) n base result =
    let shifted = push_bit result n i in
    umod_loop i n base (if leb base shifted then shifted - base else shifted)

unfoldable pub umoddi3 : ℕ → ℕ → ℕ
umoddi3 n base = if base == 0 then 0 else if ltb n base then n else umod_loop 64 n base 0

-- The loop of `__udivdi3`; the first argument is `i + 1`.
unfoldable pub udiv_loop : ℕ → ℕ → ℕ → ℕ → ℕ → ℕ
udiv_loop zero n base result remain = result
udiv_loop (suc i) n base result remain =
    let shifted = push_bit remain n i in
    udiv_loop i n base (if leb base shifted then bit_or result (2 ^ i) else result)
      (if leb base shifted then shifted - base else shifted)

unfoldable pub udivdi3 : ℕ → ℕ → ℕ
udivdi3 n base = if base == 0 then 2 ^ 64 - 1 else if ltb n base then 0 else udiv_loop 64 n base 0 0
