-- ===== src/Fmt/Format.antt =====
-- lib/vsprintf.c: the format string. The format, the arguments on the stack, the strings among them and
-- the buffer lie in one memory. 2 ^ 32 bounds every loop along a string, as it does in lib/string.c.
use fi_rststep.Prelude.{
  ℕ, zero, suc, ◌+◌, ◌*◌, ◌%◌, ◌-◌, ◌^◌, Bool, not, ◌&&◌, ◌||◌, ◌==◌, leb, if◌then◌else◌, bit_or,
}
use fi_rststep.Prelude.Outcome.{Outcome, ok, endless, ◌>>=◌}
use fi_rststep.Prelude.Words.{u32, sub32}
use fi_rststep.Str.{Memory, poke}
use fi_rststep.Paging.{load32, store32}
use fi_rststep.Fmt.{left, plus, space, spec, zeropad, signed, number}

abbrev pub is_dight : ℕ → Bool
is_dight x = leb b'0' x && leb x b'9'

-- the number and the place behind it, on 32 bits
unfoldable pub skip_atoi : ℕ → ℕ → ℕ → Memory → Outcome (ℕ × ℕ)
skip_atoi zero i s mem = endless
skip_atoi (suc fuel) i s mem =
    let rest = skip_atoi fuel (u32 (i * 10 + (mem s - b'0'))) (s + 1) mem in
    if is_dight (mem s) then rest else ok (i, s)

-- `va_arg` of a type that takes one slot of the stack, and of `long long`
abbrev pub va_arg : ℕ → Memory → ℕ × ℕ
va_arg args mem = (load32 mem args, args + 4)

abbrev pub va_arg64 : ℕ → Memory → ℕ × ℕ
va_arg64 args mem = (load32 mem args + load32 mem (args + 4) * 2 ^ 32, args + 8)

-- the low `w` bits as a signed number, on 64 bits
abbrev pub sign_extend : ℕ → ℕ → ℕ
sign_extend w v = let low = v % 2 ^ w in if leb (2 ^ (w - 1)) low then low + 2 ^ 64 - 2 ^ w else low

-- the argument and the place of the next one
unfoldable pub get_int : ℕ → ℕ → ℕ → Memory → ℕ × ℕ
get_int args lprefix hprefix mem =
    let (v, next) = va_arg args mem in
    if leb 2 lprefix
    then va_arg64 args mem
    else (if lprefix == 1
        then (sign_extend 32 v, next)
        else (if leb 2 hprefix
            then (sign_extend 8 v, next)
            else (if hprefix == 1 then (sign_extend 16 v, next) else (sign_extend 32 v, next))))

unfoldable pub get_uint : ℕ → ℕ → ℕ → Memory → ℕ × ℕ
get_uint args lprefix hprefix mem =
    let (v, next) = va_arg args mem in
    if leb 2 lprefix
    then va_arg64 args mem
    else (if lprefix == 1
        then (v, next)
        else (if leb 2 hprefix
            then (v % 2 ^ 8, next)
            else (if hprefix == 1 then (v % 2 ^ 16, next) else (v, next))))

-- the flag of a character, 0 for none
abbrev pub flag_of : ℕ → ℕ
flag_of c =
    if c == b'-'
    then left
    else (if c == b'+'
        then plus
        else (if c == b' '
            then space
            else (if c == b'#' then spec else (if c == b'0' then zeropad else 0))))

-- the flags behind `fmt`, and the place of the first character that is none
unfoldable pub read_flags : ℕ → ℕ → ℕ → Memory → Outcome (ℕ × ℕ)
read_flags zero flags fmt mem = endless
read_flags (suc fuel) flags fmt mem =
    let flag = flag_of (mem (fmt + 1)) in
    let rest = read_flags fuel (bit_or flags flag) (fmt + 1) mem in
    if flag == 0 then ok (flags, fmt + 1) else rest

-- A conversion while it is read; a negative `int` is a word from 2 ^ 31 on.
pub record Conv : Type 0 where
  pub flags : ℕ
  pub field_width : ℕ
  pub precision : ℕ
  pub lprefix : ℕ
  pub hprefix : ℕ
  pub fmt : ℕ
  pub args : ℕ

abbrev pub negative : ℕ → Bool
negative v = leb (2 ^ 31) v

abbrev pub string_fuel : ℕ
string_fuel = 4294967296

unfoldable pub read_width : Conv → Memory → Outcome Conv
read_width c mem =
    if is_dight (mem c.fmt)
    then (do
      (width, fmt) ← skip_atoi string_fuel 0 c.fmt mem
      ok (record c { field_width = width; fmt = fmt }))
    else (if mem c.fmt == b'*'
        then (let (width, args) = va_arg c.args mem in
            let c' : Conv = record c { fmt = c.fmt + 1; args = args } in
            ok (
              if negative width
              then record c' { field_width = sub32 0 width; flags = bit_or c.flags left }
              else record c' { field_width = width }))
        else ok c)

unfoldable pub read_precision : Conv → Memory → Outcome Conv
read_precision c mem =
    if mem c.fmt == b'.'
    then (if is_dight (mem (c.fmt + 1))
        then (do
          (precision, fmt) ← skip_atoi string_fuel 0 (c.fmt + 1) mem
          ok (record c { precision = precision; fmt = fmt }))
        else (if mem (c.fmt + 1) == b'*'
            then (let (precision, args) = va_arg c.args mem in
                ok (record c {
                  precision = if negative precision then 0 else precision;
                  fmt = c.fmt + 2;
                  args = args;
                }))
            else ok (record c { fmt = c.fmt + 1 })))
    else ok c

-- the prefixes `l` and `h`
unfoldable pub read_prefixes : ℕ → Conv → Memory → Outcome Conv
read_prefixes zero c mem = endless
read_prefixes (suc fuel) c mem =
    let l = mem c.fmt == b'l' in
    let h = mem c.fmt == b'h' in
    let rest =
      read_prefixes fuel
        (record c {
          lprefix = c.lprefix + (if l then 1 else 0);
          hprefix = c.hprefix + (if h then 1 else 0);
          fmt = c.fmt + 1;
        })
        mem in
    if l || h then rest else ok c

-- memory, `len` and the argument pointer
pub record Print : Type 0 where
  pub mem : Memory
  pub len : ℕ
  pub args : ℕ

-- `buf[len++] = c`
abbrev pub put_byte : ℕ → ℕ → Print → Print
put_byte buf c p = record p { mem = poke (buf + p.len) (c % 256) p.mem; len = p.len + 1 }

-- a negative width or precision has no effect in `number`
abbrev pub at_least_zero : ℕ → ℕ
at_least_zero v = if negative v then 0 else v

-- `len += number(buf + len, num, base, flags, field_width, precision)`
unfoldable pub put_number : ℕ → ℕ → ℕ → ℕ → Conv → Print → Outcome Print
put_number buf num base flags c p = do
  let at = buf + p.len
  o ←
      number (λ i. p.mem (at + i)) num base flags (at_least_zero c.field_width)
        (at_least_zero c.precision)
  ok (record p { mem = λ x. if leb at x then o.buf (x - at) else p.mem x; len = p.len + o.len })

-- `while (*s) buf[len++] = *s++;`
unfoldable pub put_string : ℕ → ℕ → ℕ → Print → Outcome Print
put_string zero buf s p = endless
put_string (suc fuel) buf s p =
    let rest = put_string fuel buf (s + 1) (put_byte buf (p.mem s) p) in
    if p.mem s == 0 then ok p else rest

-- the `switch` over the conversion's letter
unfoldable pub convert : ℕ → Conv → Print → Outcome Print
convert buf c p =
    let letter = p.mem c.fmt in
    let (signed_num, next) = get_int c.args c.lprefix c.hprefix p.mem in
    let (num, next') = get_uint c.args c.lprefix c.hprefix p.mem in
    let (word, after) = va_arg c.args p.mem in
    if (letter == b'i') || (letter == b'd')
    then put_number buf signed_num 10 (bit_or c.flags signed) c (record p { args = next })
    else (if letter == b'u'
        then put_number buf num 10 c.flags c (record p { args = next' })
        else (if letter == b'o'
            then put_number buf num 8 c.flags c (record p { args = next' })
            else (if (letter == b'x') || (letter == b'X')
                then put_number buf num 16 c.flags c (record p { args = next' })
                else (if letter == b'p'
                    then put_number buf word 16 (bit_or c.flags spec)
                        (record c { precision = if c.precision == 0 then 8 else c.precision })
                        (record p { args = after })
                    else (if letter == b'c'
                        then ok (put_byte buf word (record p { args = after }))
                        else (if letter == b's'
                            then put_string string_fuel buf word (record p { args = after })
                            else (if letter == b'n'
                                then ok (record p { mem = store32 word p.len p.mem; args = after })
                                else (if letter == b'%'
                                    then ok (put_byte buf b'%' (record p { args = c.args }))
                                    else ok (
                                        put_byte buf letter
                                          (put_byte buf b'%' (record p { args = c.args })))))))))))

-- A conversion, from its `%` to its letter: the place of the letter with the result.
unfoldable pub put_conversion : ℕ → ℕ → Print → Outcome (ℕ × Print)
put_conversion buf fmt p = do
  (flags, fmt₁) ← read_flags string_fuel 0 fmt p.mem
  c₁ ←
      read_width
        (record {
          flags = flags;
          field_width = 0;
          precision = 0;
          lprefix = 0;
          hprefix = 0;
          fmt = fmt₁;
          args = p.args;
        })
        p.mem
  c₂ ← read_precision c₁ p.mem
  c ← read_prefixes string_fuel c₂ p.mem
  p' ← convert buf c p
  ok (c.fmt, p')

-- `for (; *fmt; fmt++)`
unfoldable pub put_format : ℕ → ℕ → ℕ → Print → Outcome Print
put_format zero buf fmt p = endless
put_format (suc fuel) buf fmt p =
    let plain = put_format fuel buf (fmt + 1) (put_byte buf (p.mem fmt) p) in
    if p.mem fmt == 0
    then ok p
    else (if not (p.mem fmt == b'%')
        then plain
        else (do (last, p') ← put_conversion buf fmt p; put_format fuel buf (last + 1) p'))

-- the length that is returned, and the memory
unfoldable pub vsprintf : ℕ → ℕ → ℕ → Memory → Outcome (ℕ × Memory)
vsprintf buf fmt args mem = do
  p ← put_format string_fuel buf fmt (record { mem = mem; len = 0; args = args })
  ok (p.len, poke (buf + p.len) 0 p.mem)
