-- ===== src/Fmt/Reversal.antt =====
-- `reverse_uint` of lib/vsprintf.c: the number whose digits are those of another, reversed.
use native.Mathlib.Nat.{
  pow-suc, pow-zero, mul-le-mul_right, pow-le-pow_right, div-lt_iff_lt-mul, div-div-eq-div-mul,
  mod-lt, div-add-mod', div-eq_of_lt, pow-succ',
}
use fi_rststep.Prelude.{
  ℕ, zero, suc, ◌+◌, ◌*◌, ◌/◌, ◌%◌, ◌-◌, ◌^◌, ◌≤◌, ◌<◌, ◌≡◌, refl, ap, sym, ◌∙◌, false, ◌==◌, arith,
  ℕ_discrete, ◌⊎◌, inl, inr,
}
use fi_rststep.Prelude.Arith.{mod_of_parts, div_of_parts}
use fi_rststep.Prelude.Outcome.{ok}
use fi_rststep.Prelude.Words.{u64}
use fi_rststep.Fmt.{reverse_loop}

-- `m` digits of `x` from the lowest on, appended to `acc` one by one
abbrev pub reversed : ℕ → ℕ → ℕ → ℕ → ℕ
reversed base zero acc x = acc
reversed base (suc m) acc x = reversed base m (acc * base + x % base) (x / base)

reversed-snoc :
    (base m acc x : ℕ)
    → reversed base (suc m) acc x ≡ reversed base m acc x * base + x / base ^ m % base
reversed-snoc base zero acc x = let whole : x / 1 ≡ x = omega arith in rw (pow-zero base, whole)
reversed-snoc base (suc m) acc x =
    let e : x / base / base ^ m ≡ x / base ^ suc m =
      div-div-eq-div-mul x base (base ^ m) ∙ ap (λ z. x / z) (sym (pow-succ' base m)) in
    reversed-snoc base m (acc * base + x % base) (x / base)
    ∙ ap (λ z. reversed base m (acc * base + x % base) (x / base) * base + z % base) e

-- one round of the reversal does not overflow
round :
    (x d base t : ℕ)
    → x < base ^ t
    → d < base
    → base ^ suc t ≤ 2 ^ 64
    → (u64 (u64 (x * base) + d) ≡ x * base + d) × (x * base + d < base ^ suc t)
round x d base t hx hd fits =
    let below : (x + 1) * base ≤ base ^ t * base = mul-le-mul_right base (omega arith) in
    let e = pow-suc base t in
    let apart : (x + 1) * base ≡ x * base + base = grind arith in
    let bound : x * base + d < base ^ suc t = omega (arith, below, e, apart) in
    (omega (arith, bound), bound)

-- What the reversal of a number of at most `k` digits gives after `t` digits that are in `x`.
pub record Reversed (base t x num k fuel : ℕ) : Type 0 where
  pub m : ℕ
  pub value : ℕ
  pub some_digit : 1 ≤ m
  pub few : m ≤ k
  pub run : reverse_loop fuel t x num base ≡ ok (t + m, value)
  pub above : value / base ^ m ≡ x
  pub digits : reversed base m 0 value ≡ num
  pub short : (m ≡ 1) ⊎ (base ^ (m - 1) ≤ num)

power-one : (base : ℕ) → base ^ 1 ≡ base
power-one base = grind (arith, pow-suc base 0, pow-zero base)

scaled : (base num y : ℕ) → y ≤ num / base → y * base ≤ num
scaled base num y h = omega (arith, mul-le-mul_right base h, div-add-mod' num base)

-- the number is no shorter than its digits
long :
    (base num m : ℕ)
    → (num / base == 0) ≡ false
    → 1 ≤ m
    → (m ≡ 1) ⊎ (base ^ (m - 1) ≤ num / base)
    → base ^ (suc m - 1) ≤ num
long base num m more pos (inl e) =
    let first : suc m - 1 ≡ 1 = omega arith in
    rw (first, power-one base) (omega (arith, scaled base num 1 (ground arith)))
long base num zero more pos (inr h) = absurd (omega arith)
long base num (suc m) more pos (inr h) =
    let next : suc (suc m) - 1 ≡ suc m = omega arith in
    let same : suc m - 1 ≡ m = omega arith in
    let h' : base ^ m ≤ num / base = rw same at h in
    rw (next, pow-suc base m) (scaled base num (base ^ m) h')

reverse_loop-last :
    (base t x num k fuel : ℕ)
    → 2 ≤ base
    → num < base
    → x < base ^ t
    → base ^ suc t ≤ 2 ^ 64
    → Reversed base t x num (suc k) (suc fuel)
unfolding reverse_loop
reverse_loop-last base t x num k fuel hb small hx fits =
    let last : num / base ≡ 0 = div-eq_of_lt small in
    let same : num % base ≡ num = mod_of_parts num 0 num base (omega arith) small in
    let (e, bound) = round x num base t hx small fits in
    record {
      m = 1;
      value = x * base + num;
      some_digit = omega arith;
      few = omega arith;
      run = rw (last, same, e);
      above = rw (power-one base) (div_of_parts (x * base + num) x num base refl small);
      digits = omega (arith, mod_of_parts (x * base + num) x num base refl small);
      short = inl refl;
    }

reverse_loop-more :
    (base t x num k fuel : ℕ)
    → 2 ≤ base
    → (num / base == 0) ≡ false
    → x < base ^ t
    → base ^ suc t ≤ 2 ^ 64
    → Reversed base (t + 1) (x * base + num % base) (num / base) k fuel
    → Reversed base t x num (suc k) (suc fuel)
unfolding reverse_loop
reverse_loop-more base t x num k fuel hb more hx fits r =
    let d = num % base in
    let low : d < base = mod-lt num (omega arith) in
    let (e, bound) = round x d base t hx low fits in
    let count : t + 1 + r.m ≡ t + suc r.m = omega arith in
    record {
      m = suc r.m;
      value = r.value;
      some_digit = omega arith;
      few = omega (arith, r.few);
      run = rw (more, e, r.run, count);
      above =
          rw (pow-suc base r.m, ← div-div-eq-div-mul r.value (base ^ r.m) base, r.above)
            (div_of_parts (x * base + d) x d base refl low);
      digits =
          reversed-snoc base r.m 0 r.value
          ∙ rw (r.digits, r.above, mod_of_parts (x * base + d) x d base refl low)
              (div-add-mod' num base);
      short = inr (long base num r.m more r.some_digit r.short);
    }

pub reverse_loop-Reversed :
    (base t x num k fuel : ℕ)
    → 2 ≤ base
    → num < base ^ suc k
    → k < fuel
    → x < base ^ t
    → base ^ (t + suc k) ≤ 2 ^ 64
    → Reversed base t x num (suc k) fuel
reverse_loop-Reversed base t x num k zero hb hn hf hx fits = absurd (omega arith)
reverse_loop-Reversed base t x num zero (suc fuel) hb hn hf hx fits =
    let next : t + 1 ≡ suc t = omega arith in
    reverse_loop-last base t x num zero fuel hb (omega (arith, power-one base, hn)) hx
      (rw next at fits)
reverse_loop-Reversed base t x num (suc k) (suc fuel) hb hn hf hx fits =
    let now : base ^ suc t ≤ 2 ^ 64 = omega (
      arith,
      pow-le-pow_right {n = base} (omega arith) {i = suc t} {j = t + suc (suc k)} (omega arith),
    ) in
    let small : num / base ≡ 0 → num < base = λ e.
      omega
        (arith, (div-lt_iff_lt-mul {k = base} {x = num} {y = 1} (omega arith)).0 (omega arith)) in
    elim (ℕ_discrete (num / base) 0) [
      | yes e ↦ reverse_loop-last base t x num (suc k) fuel hb (small e) hx now
      | no ne ↦
          let more : (num / base == 0) ≡ false = ground arith in
          let (e, bound) = round x (num % base) base t hx (mod-lt num (omega arith)) now in
          let next : t + suc (suc k) ≡ t + 1 + suc k = omega arith in
          let fewer : num / base < base ^ suc k =
            (div-lt_iff_lt-mul (omega arith)).1 (omega (arith, pow-suc base (suc k))) in
          let succ : suc t ≡ t + 1 = omega arith in
          reverse_loop-more base t x num (suc k) fuel hb more hx now (
            reverse_loop-Reversed base (t + 1) (x * base + num % base) (num / base) k fuel hb fewer
              (omega arith) (rw succ at bound) (rw next at fits))
    ]
