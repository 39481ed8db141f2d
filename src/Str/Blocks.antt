-- ===== src/Str/Blocks.antt =====
-- `memset`, `memcpy` and `strlen` of lib/string.c, address by address.
use fi_rststep.Prelude.{
  ℕ, zero, suc, ◌+◌, ◌-◌, ◌≤◌, ◌<◌, Bool, false, ◌&&◌, ◌≡◌, ◌≢◌, ◌⊎◌, ◌==◌, leb, ltb, arith,
  if◌then◌else◌, ◌∙◌,
}
use fi_rststep.Prelude.Outcome.{ok}
use fi_rststep.Prelude.Words.{u8}
use fi_rststep.Str.{Memory, poke, memcpy, memset, strlen_loop, strlen, address_space}

abbrev pub inside : ℕ → ℕ → ℕ → Bool
inside p n a = leb p a && ltb a (p + n)

-- After `memset` each of the `n` bytes at the address is the low byte of `c`, and every other byte
-- of memory is unchanged.
pub memset_lem :
    (p c n : ℕ) (mem : Memory) (a : ℕ) → memset p c n mem a ≡ (if inside p n a then u8 c else mem a)
unfolding memset
memset_lem p c zero mem a = ground arith
memset_lem p c (suc n) mem a = ground (arith, memset_lem (p + 1) c n (poke p (u8 c) mem) a)

-- If the target starts at or below the source, or at or behind its end, then after `memcpy` each
-- of the `n` bytes of the target is the old byte of the source at its place, and every other byte
-- of memory is unchanged.
pub memcpy_lem :
    (d s n : ℕ) (mem : Memory) (a : ℕ)
    → (d ≤ s) ⊎ (s + n ≤ d)
    → memcpy d s n mem a ≡ (if inside d n a then mem (s + (a - d)) else mem a)
unfolding memcpy
memcpy_lem d s zero mem a h = ground arith
memcpy_lem d s (suc n) mem a h =
    memcpy_lem (d + 1) (s + 1) n (poke d (mem s) mem) a (omega arith) ∙ step d s n mem a h
  where
    step :
        (d s n : ℕ) (mem : Memory) (a : ℕ)
        → (d ≤ s) ⊎ (s + suc n ≤ d)
        → (if inside (d + 1) n a
            then poke d (mem s) mem (s + 1 + (a - (d + 1)))
            else poke d (mem s) mem a)
          ≡ (if inside d (suc n) a then mem (s + (a - d)) else mem a)
    step d s n mem a h = ground arith

-- The bytes at `p` are a string of length `n`: no NUL among them, and one behind.
pub record IsString (mem : Memory) (p n : ℕ) : Type 0 where
  pub body : (i : ℕ) → i < n → mem (p + i) ≢ 0
  pub stop : mem (p + n) ≡ 0

strlen_loop_lem :
    (fuel : ℕ) (mem : Memory) (p n i left : ℕ)
    → IsString mem p n
    → i + left ≡ n
    → left < fuel
    → strlen_loop fuel mem p i ≡ ok n
unfolding strlen_loop
strlen_loop_lem zero mem p n i left is e h = absurd (omega arith)
strlen_loop_lem (suc fuel) mem p n i zero is e h =
    let same : i ≡ n = omega arith in rw same (rw is.stop)
strlen_loop_lem (suc fuel) mem p n i (suc left) is e h =
    let more : (mem (p + i) == 0) ≡ false = ground (arith, is.body i) in
    rw more (strlen_loop_lem fuel mem p n (i + 1) left is (omega arith) (omega arith))

-- On a string of `n` bytes, none of them NUL, and a NUL behind them, with `n` below 2 ^ 32,
-- `strlen` comes to an end and returns `n`.
pub strlen_lem :
    (mem : Memory) (p n : ℕ) → IsString mem p n → n < address_space → strlen mem p ≡ ok n
unfolding strlen
strlen_lem mem p n is h = strlen_loop_lem address_space mem p n 0 n is (omega arith) h
