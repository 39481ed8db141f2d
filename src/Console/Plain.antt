-- ===== src/Console/Plain.antt =====
-- A format without conversions, from `vsprintf` of lib/vsprintf.c through `vprintk` of kernel/printk.c to
-- the screen of kernel/tty.c.
use fi_rststep.Prelude.{
  ℕ, zero, suc, ◌+◌, ◌-◌, ◌*◌, ◌%◌, ◌≤◌, ◌<◌, true, false, not, ◌&&◌, ◌⊎◌, List, ◌∷◌, ◌≡◌, refl,
  sym, ap, ap₂, fun_ext, subst, ◌∙◌, ◌==◌, arith, if◌then◌else◌, length,
}
use fi_rststep.Prelude.Outcome.{ok, ◌>>=◌}
use fi_rststep.Str.{Memory, poke}
use fi_rststep.Str.Blocks.{inside}
use fi_rststep.Fmt.Format.{Print, put_format, put_byte, vsprintf, string_fuel}
use fi_rststep.Tty.{Tty, tty_write, width, hight}
use fi_rststep.Tty.Text.{is_plain, AllPlain, typed, tty_write-plain}
use fi_rststep.Paging.{load32}
use fi_rststep.Console.{buf_size, printk, va_start, vprintk, bytes_from}

-- A string of `n` bytes, with no conversion and no control character in it.
pub record IsText (mem : Memory) (fmt n : ℕ) : Type 0 where
  pub stop : mem (fmt + n) ≡ 0
  pub text : (i : ℕ) → i < n → (is_plain (mem (fmt + i)) && not (mem (fmt + i) == b'%')) ≡ true

-- memory with the first `n` bytes of the format in the buffer
abbrev pub copied : ℕ → ℕ → ℕ → Memory → Memory
copied buf fmt n mem a = if inside buf n a then mem (fmt + (a - buf)) else mem a

-- memory with the whole text in the buffer
abbrev pub buffered : ℕ → ℕ → ℕ → Memory → Memory
buffered buf fmt n mem = poke (buf + n) 0 (copied buf fmt n mem)

module _ (buf fmt n : ℕ) (mem₀ : Memory) (is : IsText mem₀ fmt n)
    (apart : (buf + n < fmt) ⊎ (fmt + n < buf)) where
  copied_other : (i k : ℕ) → i ≤ n → k ≤ n → copied buf fmt i mem₀ (fmt + k) ≡ mem₀ (fmt + k)
  copied_other i k h h' = ground arith

  -- One more byte is copied.
  copied_step :
      (i a : ℕ)
      → i < n
      → poke (buf + i) (mem₀ (fmt + i) % 256) (copied buf fmt i mem₀) a
        ≡ copied buf fmt (suc i) mem₀ a
  copied_step i a h = ground (arith, is.text i h)

  -- the buffer behind the first `i` bytes
  abbrev so_far : ℕ → ℕ → Print
  so_far i args = record { mem = copied buf fmt i mem₀; len = i; args = args }

  stepped :
      (i args : ℕ)
      → copied buf fmt i mem₀ (fmt + i) ≡ mem₀ (fmt + i)
      → i < n
      → put_byte buf (copied buf fmt i mem₀ (fmt + i)) (so_far i args) ≡ so_far (suc i) args
  stepped i args here h = rw here (
      ap₂ {A = Memory} {B = ℕ} {C = Print} (λ m k. record { mem = m; len = k; args = args })
        (fun_ext (λ a. copied_step i a h)) (omega arith))

  put_format_plain :
      (left fuel i args : ℕ)
      → i + left ≡ n
      → left < fuel
      → put_format fuel buf (fmt + i) (so_far i args) ≡ ok (so_far n args)
  unfolding put_format
  put_format_plain left zero i args e short = absurd (omega arith)
  put_format_plain zero (suc fuel) i args e short =
      let same : i ≡ n = omega arith in
      let stop : copied buf fmt i mem₀ (fmt + i) ≡ 0 =
        copied_other i i (omega arith) (omega arith) ∙ ap (λ k. mem₀ (fmt + k)) same ∙ is.stop in
      rw stop (ap (λ k. ok (so_far k args)) same)
  put_format_plain (suc left) (suc fuel) i args e short =
      let here = copied_other i i (omega arith) (omega arith) in
      let more : (copied buf fmt i mem₀ (fmt + i) == 0) ≡ false =
        ground (arith, here, is.text i (omega arith)) in
      let no_percent : (copied buf fmt i mem₀ (fmt + i) == b'%') ≡ false =
        ground (arith, here, is.text i (omega arith)) in
      rw (more, no_percent)
        (ap₂ (λ p q. put_format fuel buf p q) (omega arith) (stepped i args here (omega arith))
          ∙ put_format_plain left fuel (suc i) args (omega arith) (omega arith))

  vsprintf_plain :
      (args : ℕ) → n < string_fuel → vsprintf buf fmt args mem₀ ≡ ok (n, buffered buf fmt n mem₀)
  unfolding vsprintf
  vsprintf_plain args short =
      let start : so_far 0 args ≡ record { mem = mem₀; len = 0; args = args } =
        ap (λ m. record { mem = m; len = 0; args = args }) (fun_ext (λ a. ground arith)) in
      let run = put_format_plain n string_fuel 0 args (omega arith) short in
      let run' : put_format string_fuel buf fmt (record { mem = mem₀; len = 0; args = args })
          ≡ ok (so_far n args) =
        ap₂ (λ p q. put_format string_fuel buf p q) (omega arith) (sym start) ∙ run in
      rw (run', ◌>>=◌)

length-bytes_from : (n p : ℕ) (mem : Memory) → length (bytes_from n p mem) ≡ n
unfolding bytes_from
length-bytes_from zero p mem = refl
length-bytes_from (suc n) p mem = omega (arith, length-bytes_from n (p + 1) mem)

load_bytes_cong :
    (n p q : ℕ) (m m' : Memory)
    → ((i : ℕ) → i < n → m (p + i) ≡ m' (q + i))
    → bytes_from n p m ≡ bytes_from n q m'
unfolding bytes_from
load_bytes_cong zero p q m m' same = refl
load_bytes_cong (suc n) p q m m' same =
    ap₂ (λ (x : ℕ) (xs : List ℕ). x ∷ xs) (ground (arith, same 0 (omega arith)))
      (load_bytes_cong n (p + 1) (q + 1) m m' (λ i h. ground (arith, same (suc i) (omega arith))))

bytes_from-AllPlain :
    (n p : ℕ) (mem : Memory)
    → ((i : ℕ) → i < n → is_plain (mem (p + i)) ≡ true)
    → AllPlain (bytes_from n p mem)
unfolding bytes_from
bytes_from-AllPlain zero p mem all = tt
bytes_from-AllPlain (suc n) p mem all = (
  subst (λ q. is_plain (mem q) ≡ true) (omega arith) (all 0 (omega arith)),
  bytes_from-AllPlain n (p + 1) mem
      (λ i h. subst (λ q. is_plain (mem q) ≡ true) (omega arith) (all (suc i) (omega arith))),
)

enough : (n : ℕ) → n < buf_size → n < string_fuel
enough n h = omega arith

-- If the format of `printk` is a string of `n` bytes, with no `%` and no control character among
-- them, the text and its NUL fit into the 1024 bytes of the static buffer and do not overlap the format
-- there, and the text fits on the screen behind the cursor, on a screen inside video memory, then
-- `printk` comes to an end and returns `n`. The buffer holds the text and a NUL behind it, the text's bytes
-- with the attribute stand in the cells from the cursor on, no other byte of memory is changed, and the
-- cursor stands behind the text.
pub printk-plain :
    (buf at n : ℕ) (t : Tty)
    → IsText t.mem (load32 t.mem at) n
    → (buf + n < load32 t.mem at) ⊎ (load32 t.mem at + n < buf)
    → n < buf_size
    → t.screen ≤ t.cursor
    → t.cursor + n < t.screen + width * hight
    → t.screen + width * hight ≤ 0x4000
    → (t' : Tty) × (printk buf at t ≡ ok (n, t'))
      × (t'.cursor ≡ t.cursor + n)
      × (t'.screen ≡ t.screen)
      × ((a : ℕ)
          → t'.mem a
            ≡ typed t.attr t.cursor
                (bytes_from n (load32 t.mem at) t.mem)
                (buffered buf (load32 t.mem at) n t.mem)
                a)
unfolding printk vprintk
printk-plain buf at n t is apart short lo hi fits =
    let fmt = load32 t.mem at in
    let mem = buffered buf fmt n t.mem in
    let e = vsprintf_plain buf fmt n t.mem is apart (va_start at 4) (enough n short) in
    let text : bytes_from n buf mem ≡ bytes_from n fmt t.mem =
      load_bytes_cong n buf fmt mem t.mem (λ i h. ground arith) in
    let count = length-bytes_from n fmt t.mem in
    let (c, m, k, s) =
      tty_write-plain (bytes_from n fmt t.mem) (record t { mem = mem })
        (bytes_from-AllPlain n fmt t.mem (λ i h. ground (arith, is.text i h))) lo (omega arith)
        fits in
    (
      (tty_write (bytes_from n fmt t.mem) (record t { mem = mem })).1,
      rw (e, ◌>>=◌, text) refl,
      omega arith,
      s,
      m,
    )
