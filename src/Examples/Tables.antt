-- ===== src/Examples/Tables.antt =====
-- kernel/idt.c and lib/vsprintf.c on concrete data.
use fi_rststep.Prelude.{ℕ, ◌≡◌, refl, arith, ◌==◌, if◌then◌else◌}
use fi_rststep.Prelude.{List, [], ◌∷◌}
use fi_rststep.Prelude.Outcome.{Outcome, ok}
use fi_rststep.Str.{Memory}
use fi_rststep.Fmt.{
  number, put_sign, put_prefix, reverse_uint, reverse_loop, put_times, put_digits, pad, shift_right,
}
use fi_rststep.Fmt.Format.{
  vsprintf, put_format, put_conversion, read_flags, read_width, read_precision, read_prefixes,
  skip_atoi, convert, get_int, get_uint, put_number, put_string,
}
use fi_rststep.Hardware.Gates.{Idt, idt_init}
use fi_rststep.Hardware.Vectors.{IsGate, idt_init-IsGate}

abbrev no_gates : Idt
no_gates i = record {
  offset_lo = 0;
  selector = 0;
  reserved = 0;
  gate_type = 0;
  zero_bit = 0;
  dpl = 0;
  present = 0;
  offset_hi = 0;
}

idt_init-IsGate_example : IsGate (idt_init (λ isr. 0x101000) no_gates 0x80) 0x101000 3
idt_init-IsGate_example =
    idt_init-IsGate (λ isr. 0x101000) no_gates 0x80 (λ isr. omega arith) (omega arith)

-- The format "%03d%%" at 100 with the argument 42 at 200, printed to 300.
abbrev format_memory : Memory
format_memory a =
    if a == 100
    then b'%'
    else (if a == 101
        then b'0'
        else (if a == 102
            then b'3'
            else (if a == 103
                then b'd'
                else (if a == 104
                    then b'%'
                    else (if a == 105 then b'%' else (if a == 200 then 42 else 0))))))

-- the length with the first five bytes of the buffer
abbrev printed : Outcome (ℕ × Memory) → List ℕ
printed (ok (n, mem)) = n ∷ mem 300 ∷ mem 301 ∷ mem 302 ∷ mem 303 ∷ mem 304 ∷ []
printed _ = []

vsprintf_test :
    printed (vsprintf 300 100 200 format_memory) ≡ 4 ∷ b'0' ∷ b'4' ∷ b'2' ∷ b'%' ∷ 0 ∷ []
unfolding vsprintf put_format put_conversion read_flags read_width read_precision read_prefixes
    skip_atoi convert get_int get_uint put_number put_string number put_sign put_prefix reverse_uint
    reverse_loop put_times put_digits pad shift_right
vsprintf_test = refl
