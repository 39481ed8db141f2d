-- ===== src/Fmt.antt =====
-- lib/vsprintf.c: how a number is printed; Fmt/Format has the format string.
pub mod Reversal
pub mod Digits
pub mod Format
use fi_rststep.Prelude.{
  ℕ, zero, suc, ◌+◌, ◌*◌, ◌/◌, ◌%◌, ◌-◌, ◌^◌, Bool, true, false, not, List, [], ◌∷◌, ◌==◌, ltb, leb,
  if◌then◌else◌, bit_and, length, get_or,
}
use fi_rststep.Prelude.Outcome.{Outcome, ok, endless, ◌>>=◌, ◌>>◌}
use fi_rststep.Prelude.Words.{u64, sub64}

abbrev pub left : ℕ
left = 1

abbrev pub plus : ℕ
plus = 2

abbrev pub space : ℕ
space = 4

abbrev pub spec : ℕ
spec = 8

abbrev pub zeropad : ℕ
zeropad = 16

abbrev pub signed : ℕ
signed = 32

abbrev pub is_flag : ℕ → ℕ → Bool
is_flag flag flags = not (bit_and flags flag == 0)

-- the buffer and `len`, the number of bytes written to it
pub record Out : Type 0 where
  pub buf : ℕ → ℕ
  pub len : ℕ

-- `buf[len++] = c`
abbrev pub push : ℕ → Out → Out
push c o = record { buf = λ i. if i == o.len then c else o.buf i; len = o.len + 1 }

-- Each round takes a digit off, so a number of 64 bits ends within 64.
unfoldable pub reverse_loop : ℕ → ℕ → ℕ → ℕ → ℕ → Outcome (ℕ × ℕ)
reverse_loop zero t x num base = endless
reverse_loop (suc fuel) t x num base =
    let x' = u64 (u64 (x * base) + num % base) in
    let rest = reverse_loop fuel (t + 1) x' (num / base) base in
    if num / base == 0 then ok (t + 1, x') else rest

-- the number of digits and the reversed number
unfoldable pub reverse_uint : ℕ → ℕ → Outcome (ℕ × ℕ)
reverse_uint num base = reverse_loop 64 0 0 num base

-- the sign of a signed number, and the number to print
unfoldable pub put_sign : ℕ → ℕ → Out → ℕ × Out
put_sign flags num o =
    if is_flag signed flags
    then (if leb (2 ^ 63) num then (sub64 0 num, push b'-' o) else (
      num,
      if is_flag plus flags then push b'+' o else (if is_flag space flags then push b' ' o else o),
    ))
    else (num, o)

unfoldable pub put_prefix : ℕ → ℕ → Out → Out
put_prefix flags base o =
    if is_flag spec flags
    then (if base == 8 then push b'0' o else (if base == 16 then push b'x' (push b'0' o) else o))
    else o

-- a byte, some times
unfoldable pub put_times : ℕ → ℕ → Out → Out
put_times zero c o = o
put_times (suc n) c o = put_times n c (push c o)

-- "0123456789ABCDEF"
abbrev pub digit_table : List ℕ
digit_table =
    b'0' ∷ b'1' ∷ b'2' ∷ b'3' ∷ b'4' ∷ b'5' ∷ b'6' ∷ b'7' ∷ b'8' ∷ b'9' ∷ b'A' ∷ b'B' ∷ b'C' ∷ b'D'
    ∷ b'E' ∷ b'F' ∷ []

-- "0123456789ABCDEF"[d]. The callers' bases are 8, 10 and 16; what lies behind the table is not known, and
-- is 0 here.
abbrev pub digit_char : ℕ → ℕ
digit_char d = get_or digit_table d 0

-- `while (t--)`
unfoldable pub put_digits : ℕ → ℕ → ℕ → Out → Out
put_digits zero num base o = o
put_digits (suc t) num base o = put_digits t (num / base) base (push (digit_char (num % base)) o)

-- `for (i = len - 1; i >= 0; i--) buf[i + shift] = buf[i]`, with `left` bytes to go
unfoldable pub shift_right : ℕ → ℕ → (ℕ → ℕ) → ℕ → ℕ
shift_right zero shift buf = buf
shift_right (suc i) shift buf = shift_right i shift (λ j. if j == i + shift then buf i else buf j)

-- the padding to the field's width
unfoldable pub pad : ℕ → ℕ → Out → Out
pad flags field_width o =
    if ltb o.len field_width
    then (let fillc = if is_flag zeropad flags then b'0' else b' ' in
        if is_flag left flags
        then put_times (field_width - o.len) fillc o
        else (let moved = shift_right o.len (field_width - o.len) o.buf in
            record {
              buf = (put_times (field_width - o.len) fillc (record { buf = moved; len = 0 })).buf;
              len = field_width;
            }))
    else o

-- the buffer and the length that is returned
unfoldable pub number : (ℕ → ℕ) → ℕ → ℕ → ℕ → ℕ → ℕ → Outcome Out
number buf num₀ base flags field_width precision = do
  let (num, o) = put_sign flags num₀ (record { buf = buf; len = 0 })
  let o₁ = put_prefix flags base o
  (t, reversed) ← reverse_uint num base
  let o₂ = put_times (precision - t) b'0' o₁
  ok (pad flags field_width (put_digits t reversed base o₂))
