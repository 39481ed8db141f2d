-- ===== src/Str.antt =====
-- lib/string.c over a memory of bytes. A loop that looks for a NUL has the whole address space, 2 ^ 32
-- bytes, as its fuel.
pub mod Blocks
pub mod Compare
use fi_rststep.Prelude.{
  ℕ, zero, suc, ◌+◌, ◌-◌, ◌*◌, ◌^◌, Bool, true, false, not, ◌&&◌, ◌==◌, if◌then◌else◌,
}
use fi_rststep.Prelude.Int.{ℤ, pos, sub_ℕ}
use fi_rststep.Prelude.Outcome.{Outcome, ok, endless, ◌>>=◌, ◌>>◌}
use fi_rststep.Prelude.Words.{u8}

abbrev pub Memory : Type 0
Memory = ℕ → ℕ

-- `*p = v`
abbrev pub poke : ℕ → ℕ → Memory → Memory
poke p v mem a = if a == p then v else mem a

abbrev pub address_space : ℕ
address_space = 4294967296

unfoldable pub strlen_loop : ℕ → Memory → ℕ → ℕ → Outcome ℕ
strlen_loop zero mem str i = endless
strlen_loop (suc fuel) mem str i =
    let rest = strlen_loop fuel mem str (i + 1) in if mem (str + i) == 0 then ok i else rest

unfoldable pub strlen : Memory → ℕ → Outcome ℕ
strlen mem str = strlen_loop address_space mem str 0

-- `while (n--) *d++ = *s++;`
unfoldable pub memcpy : ℕ → ℕ → ℕ → Memory → Memory
memcpy d s zero mem = mem
memcpy d s (suc n) mem = memcpy (d + 1) (s + 1) n (poke d (mem s) mem)

unfoldable pub memset : ℕ → ℕ → ℕ → Memory → Memory
memset p c zero mem = mem
memset p c (suc n) mem = memset (p + 1) c n (poke p (u8 c) mem)

-- Where `while (*str1 && (*str1 == *str2))` stops: the difference of the two bytes there.
unfoldable pub strcmp_loop : ℕ → Memory → ℕ → ℕ → Outcome ℤ
strcmp_loop zero mem str1 str2 = endless
strcmp_loop (suc fuel) mem str1 str2 =
    let rest = strcmp_loop fuel mem (str1 + 1) (str2 + 1) in
    if not (mem str1 == 0) && (mem str1 == mem str2) then rest else ok (sub_ℕ (mem str1) (mem str2))

unfoldable pub strcmp : Memory → ℕ → ℕ → Outcome ℤ
strcmp mem str1 str2 = strcmp_loop address_space mem str1 str2

-- `while (--n && *str1 && (*str1 == *str2))`, entered with `n` not 0; the first argument is `n - 1`.
unfoldable pub strncmp_loop : ℕ → Memory → ℕ → ℕ → ℤ
strncmp_loop zero mem str1 str2 = sub_ℕ (mem str1) (mem str2)
strncmp_loop (suc n) mem str1 str2 =
    let rest = strncmp_loop n mem (str1 + 1) (str2 + 1) in
    if not (mem str1 == 0) && (mem str1 == mem str2) then rest else sub_ℕ (mem str1) (mem str2)

unfoldable pub strncmp : Memory → ℕ → ℕ → ℕ → ℤ
strncmp mem str1 str2 zero = pos 0
strncmp mem str1 str2 (suc n) = strncmp_loop n mem str1 str2

-- `while (--n && *p1 == *p2)`, entered with `n` not 0; the first argument is `n - 1`.
unfoldable pub memcmp_loop : ℕ → Memory → ℕ → ℕ → ℤ
memcmp_loop zero mem p1 p2 = sub_ℕ (mem p1) (mem p2)
memcmp_loop (suc n) mem p1 p2 =
    let rest = memcmp_loop n mem (p1 + 1) (p2 + 1) in
    if mem p1 == mem p2 then rest else sub_ℕ (mem p1) (mem p2)

unfoldable pub memcmp : Memory → ℕ → ℕ → ℕ → ℤ
memcmp mem s1 s2 zero = pos 0
memcmp mem s1 s2 (suc n) = memcmp_loop n mem s1 s2

-- `while (*src) *dest++ = *src++;`, then the NUL
unfoldable pub copy_loop : ℕ → ℕ → ℕ → Memory → Outcome Memory
copy_loop zero dest src mem = endless
copy_loop (suc fuel) dest src mem =
    let rest = copy_loop fuel (dest + 1) (src + 1) (poke dest (mem src) mem) in
    if mem src == 0 then ok (poke dest 0 mem) else rest

unfoldable pub strcpy : ℕ → ℕ → Memory → Outcome Memory
strcpy dest src mem = copy_loop address_space dest src mem

-- `while (n--) *dest++ = '\0';`
unfoldable pub pad_loop : ℕ → ℕ → Memory → Memory
pad_loop zero dest mem = mem
pad_loop (suc n) dest mem = pad_loop n (dest + 1) (poke dest 0 mem)

-- `while (n && *src)`, then the padding
unfoldable pub strncpy : ℕ → ℕ → ℕ → Memory → Memory
strncpy dest src zero mem = mem
strncpy dest src (suc n) mem =
    let rest = strncpy (dest + 1) (src + 1) n (poke dest (mem src) mem) in
    if mem src == 0 then pad_loop (suc n) dest mem else rest

-- both strcat and strncat first look for the end of `dest`
unfoldable pub strcat : ℕ → ℕ → Memory → Outcome Memory
strcat dest src mem = do n ← strlen mem dest; copy_loop address_space (dest + n) src mem

-- `while (n-- && *src)`, then the NUL
unfoldable pub ncopy_loop : ℕ → ℕ → ℕ → Memory → Memory
ncopy_loop zero dest src mem = poke dest 0 mem
ncopy_loop (suc n) dest src mem =
    let rest = ncopy_loop n (dest + 1) (src + 1) (poke dest (mem src) mem) in
    if mem src == 0 then poke dest 0 mem else rest

unfoldable pub strncat : ℕ → ℕ → ℕ → Memory → Outcome Memory
strncat dest src n mem = do k ← strlen mem dest; ok (ncopy_loop n (dest + k) src mem)
