-- ===== src/Prelude/Bits.antt =====
-- `|` of fields that do not overlap and `&` with a low mask, as arithmetic. The native operations
-- stand for a recursion on binary digits; one equation for the lowest digit is all that is used.
use Prim.Native.Nat.{
  ℕ, zero, suc, ◌+◌, ◌*◌, ◌/◌, ◌%◌, ◌^◌, ◌≤◌, ◌<◌, min, max, bit_and, bit_or, digits, bitwise,
  bit_and-bitwise, bit_or-bitwise,
}
use mathlib.Core.Path.{◌≡◌, refl, ap}
use mathlib.Core.WellFounded
use native.Mathlib.Nat.{pow-suc}
use native.Mathlib.Omega.{arith}
use fi_rststep.Prelude.Order.{lt_wf}

module _ (last : ℕ → ℕ) (op : ℕ → ℕ → ℕ) where
  -- Any two amounts of fuel that the first operand fits in give the same digits.
  digits-enough : (x b k l : ℕ) → x ≤ k → x ≤ l → digits last op k x b ≡ digits last op l x b
  digits-enough zero b zero zero hk hl = refl
  digits-enough zero b zero (suc l) hk hl = refl
  digits-enough zero b (suc k) zero hk hl = refl
  digits-enough zero b (suc k) (suc l) hk hl = refl
  digits-enough (suc x) b zero l hk hl = absurd (omega arith)
  digits-enough (suc x) b (suc k) zero hk hl = absurd (omega arith)
  digits-enough (suc x) b (suc k) (suc l) hk hl =
      let same = digits-enough (suc x / 2) (b / 2) k l (omega arith) (omega arith) in rw same

  lowest_digit :
      (x b : ℕ)
      → bitwise last op (suc x) b ≡ bitwise last op (suc x / 2) (b / 2) * 2 + op (suc x % 2) (b % 2)
  lowest_digit x b =
      let half : suc x / 2 ≤ x = omega arith in
      let same = digits-enough (suc x / 2) (b / 2) x (suc x / 2) half (omega arith) in
      omega (arith, same)

pub bit_or_step : (x y : ℕ) → bit_or x y ≡ bit_or (x / 2) (y / 2) * 2 + max (x % 2) (y % 2)
bit_or_step zero y = simp bit_or-bitwise (omega arith)
bit_or_step (suc x) y = simp bit_or-bitwise (lowest_digit (λ rest. rest) max x y)

pub bit_and_step : (x y : ℕ) → bit_and x y ≡ bit_and (x / 2) (y / 2) * 2 + min (x % 2) (y % 2)
bit_and_step zero y = simp bit_and-bitwise (omega arith)
bit_and_step (suc x) y = simp bit_and-bitwise (lowest_digit (λ rest. 0) min x y)

halving : (C : ℕ → Type 0) → C 0 → ((n : ℕ) → C (suc n / 2) → C (suc n)) → (n : ℕ) → C n
halving C base next n = WellFounded.induction lt_wf {C = C} n step
  where
    step : (m : ℕ) → ((k : ℕ) → k < m → C k) → C m
    step zero ih = base
    step (suc m) ih = next m (ih (suc m / 2) (omega arith))

pub bit_or-zero : (a : ℕ) → bit_or a 0 ≡ a
bit_or-zero = halving (λ a. bit_or a 0 ≡ a) refl (λ n ih. omega (arith, bit_or_step (suc n) 0))

pub bit_and-zero : (a : ℕ) → bit_and a 0 ≡ 0
bit_and-zero = halving (λ a. bit_and a 0 ≡ 0) refl (λ n ih. omega (arith, bit_and_step (suc n) 0))

pub bit_and-one : (a : ℕ) → bit_and a 1 ≡ a % 2
bit_and-one a = omega (arith, bit_and_step a 1, bit_and-zero (a / 2))

-- a bit appended at the right
pub bit_or_push : (a b : ℕ) → b < 2 → bit_or (a * 2) b ≡ a * 2 + b
bit_or_push a b h =
    let e : b / 2 ≡ 0 = omega arith in
    let d : a * 2 / 2 ≡ a = omega arith in
    omega (
      arith,
      bit_or_step (a * 2) b,
      ap (λ (t : ℕ). bit_or (a * 2 / 2) t) e,
      ap (λ (t : ℕ). bit_or t 0) d,
      bit_or-zero a,
    )

mul-pow-suc : (q k : ℕ) → q * 2 ^ suc k ≡ 2 * (q * 2 ^ k)
mul-pow-suc q k = omega (arith, ap (λ (t : ℕ). q * t) (pow-suc 2 k))

-- `(q << k) | r` is a sum when `r` fits in `k` bits.
pub bit_or_fields : (k q r : ℕ) → r < 2 ^ k → bit_or (q * 2 ^ k) r ≡ q * 2 ^ k + r
bit_or_fields zero q r fits = ground (arith, bit_or-zero q)
bit_or_fields (suc k) q r fits =
    ground (
      arith,
      pow-suc 2 k,
      mul-pow-suc q k,
      bit_or_step (q * 2 ^ suc k) r,
      bit_or_fields k q (r / 2),
    )

bit_and_even : (a m : ℕ) → a % 2 ≡ 0 → bit_and (a / 2) (m / 2) ≡ 0 → bit_and a m ≡ 0
bit_and_even a m even h = omega (arith, bit_and_step a m)

-- A multiple of the page size has none of the bits below it.
pub bit_and-page_offset : (a : ℕ) → a % 4096 ≡ 0 → bit_and a 4095 ≡ 0
bit_and-page_offset a h = bit_and_even _ _ (omega arith) (
    bit_and_even _ _ (omega arith) (
      bit_and_even _ _ (omega arith) (
        bit_and_even _ _ (omega arith) (
          bit_and_even _ _ (omega arith) (
            bit_and_even _ _ (omega arith) (
              bit_and_even _ _ (omega arith) (
                bit_and_even _ _ (omega arith) (
                  bit_and_even _ _ (omega arith) (
                    bit_and_even _ _ (omega arith) (
                      bit_and_even _ _ (omega arith)
                        (bit_and_even _ _ (omega arith) (bit_and-zero _))))))))))))
