-- ===== src/Fmt/Digits.antt =====
-- `number` of lib/vsprintf.c: the digits that are printed, read back.
use native.Mathlib.Nat.{one-le-pow, mod-lt}
use fi_rststep.Prelude.{
  ℕ, zero, suc, ◌+◌, ◌*◌, ◌/◌, ◌%◌, ◌-◌, ◌^◌, ◌≤◌, ◌<◌, ◌≡◌, refl, ap, ◌∙◌, true, false, ◌==◌, ltb,
  if◌then◌else◌, arith, ◌⊎◌,
}
use fi_rststep.Prelude.Outcome.{ok, ◌>>=◌}
use fi_rststep.Fmt.{
  Out, push, reverse_uint, put_sign, put_prefix, put_times, digit_char, put_digits, pad, number,
}
use fi_rststep.Fmt.Reversal.{reversed, reverse_loop-Reversed}

-- a digit's value
abbrev pub char_digit : ℕ → ℕ
char_digit c = if ltb c b'A' then c - b'0' else c - b'A' + 10

-- the number whose digits are the first `n` bytes
abbrev pub read_back : ℕ → ℕ → (ℕ → ℕ) → ℕ
read_back base zero buf = 0
read_back base (suc n) buf = read_back base n buf * base + char_digit (buf n)

push-read_back :
    (base n c : ℕ) (o : Out) → n ≤ o.len → read_back base n (push c o).buf ≡ read_back base n o.buf
push-read_back base zero c o h = refl
push-read_back base (suc n) c o h =
    let other : (n == o.len) ≡ false = ground arith in
    rw (push-read_back base n c o (omega arith), other)

char_digit-digit_char : (d : ℕ) → d < 16 → char_digit (digit_char d) ≡ d
char_digit-digit_char d h = ground arith

read_back-push :
    (base d : ℕ) (o : Out)
    → d < 16
    → read_back base (o.len + 1) (push (digit_char d) o).buf ≡ read_back base o.len o.buf * base + d
read_back-push base d o h =
    let next : o.len + 1 ≡ suc o.len = omega arith in
    let here : (o.len == o.len) ≡ true = ground arith in
    rw (
      next,
      push-read_back base o.len (digit_char d) o (omega arith),
      here,
      char_digit-digit_char d h,
    )

put_digits-reversed :
    (base m x : ℕ) (o : Out)
    → 2 ≤ base
    → base ≤ 16
    → let o' = put_digits m x base o in
      (read_back base o'.len o'.buf ≡ reversed base m (read_back base o.len o.buf) x)
      × (o'.len ≡ o.len + m)
unfolding put_digits
put_digits-reversed base zero x o lo hi = (refl, omega arith)
put_digits-reversed base (suc m) x o lo hi =
    let (e, l) = put_digits-reversed base m (x / base) (push (digit_char (x % base)) o) lo hi in
    let small : x % base < base = mod-lt x (omega arith) in
    let c = digit_char (x % base) in
    let digit : read_back base (o.len + 1) (push c o).buf
        ≡ read_back base o.len o.buf * base + x % base =
      read_back-push base (x % base) o (omega arith) in
    (e ∙ ap (λ z. reversed base m z (x / base)) digit, omega (arith, l))

pad_narrow : (o : Out) → pad 0 0 o ≡ o
unfolding pad
pad_narrow o = let wide : ltb o.len 0 ≡ false = ground arith in rw wide

-- For a base from 2 to 16 and a number below `base ^ (k + 1)`, where `base ^ (k + 1)` is at most 2 ^ 64 and
-- k below 64, `number` without flags, width and precision comes to an end, and the bytes that it prints,
-- read as digits in the base, are the number. There are 1 to k + 1 of them, and no more than the number
-- needs.
pub number-read_back :
    (buf : ℕ → ℕ) (num base k : ℕ)
    → 2 ≤ base
    → base ≤ 16
    → num < base ^ suc k
    → base ^ suc k ≤ 2 ^ 64
    → k < 64
    → (o : Out) × (number buf num base 0 0 0 ≡ ok o)
      × (read_back base o.len o.buf ≡ num)
      × (1 ≤ o.len)
      × (o.len ≤ suc k)
      × ((o.len ≡ 1) ⊎ (base ^ (o.len - 1) ≤ num))
unfolding number reverse_uint put_sign put_prefix put_times
number-read_back buf num base k hb few hn fits hk =
    let o : Out = record { buf = buf; len = 0 } in
    let start : 0 < base ^ 0 = one-le-pow 0 base (omega arith) in
    let same : suc k ≡ 0 + suc k = omega arith in
    let r = reverse_loop-Reversed base 0 0 num k 64 hb hn hk start (rw same at fits) in
    let (e, l) = put_digits-reversed base r.m r.value o hb few in
    let count : (put_digits r.m r.value base o).len ≡ r.m = omega (arith, l) in
    let digits : 0 + r.m ≡ r.m = omega arith in
    let none_more : 0 - r.m ≡ 0 = omega arith in
    (
      put_digits r.m r.value base o,
      rw (r.run, ◌>>=◌, digits, none_more) (ap ok (pad_narrow (put_digits r.m r.value base o))),
      e ∙ r.digits,
      omega (arith, count, r.some_digit),
      omega (arith, count, r.few),
      rw count r.short,
    )
