-- ===== src/Tty/Text.antt =====
-- kernel/tty.c: printing plain text.
use fi_rststep.Prelude.{
  ℕ, zero, suc, ◌+◌, ◌-◌, ◌*◌, ◌/◌, ◌%◌, ◌≤◌, ◌<◌, ◌≡◌, refl, List, [], ◌∷◌, arith, ◌==◌,
  if◌then◌else◌, length, Bool, true, false, not, ◌&&◌, leb, ltb, ◌∙◌, get_or,
}
use fi_rststep.Prelude.Words.{u32}
use fi_rststep.Str.{Memory, poke}
use fi_rststep.Str.Blocks.{inside}
use fi_rststep.Tty.{
  Tty, cga_base_addr, width, hight, set_char, put_char, put_chars, scroll, set_cursor, set_screen,
  tty_write,
}

-- a byte that is no control character
abbrev pub is_plain : ℕ → Bool
is_plain c =
    not (c == 0x00)
    && (not (c == 0x0A) && (not (c == 0x0D) && (not (c == 0x08) && (not (c == 0x7F) && ltb c 256))))

abbrev pub AllPlain : List ℕ → Type 0
AllPlain [] = Unit
AllPlain (c ∷ cs) = (is_plain c ≡ true) × AllPlain cs

-- the memory with the characters of `cs` from the cell `i` of video memory on
abbrev pub typed : ℕ → ℕ → List ℕ → Memory → Memory
typed attr i cs mem a =
    let p = cga_base_addr + 2 * i in
    if inside p (2 * length cs) a
    then (if (a - p) % 2 == 0 then get_or cs ((a - p) / 2) 0 else attr)
    else mem a

get_or-cons : (c : ℕ) (cs : List ℕ) (k : ℕ) → 1 ≤ k → get_or (c ∷ cs) k 0 ≡ get_or cs (k - 1) 0
get_or-cons c cs zero h = absurd (omega arith)
get_or-cons c cs (suc k) h = let e : suc k - 1 ≡ k = omega arith in rw e

get_or-first : (c : ℕ) (cs : List ℕ) (k : ℕ) → k ≡ 0 → get_or (c ∷ cs) k 0 ≡ c
get_or-first c cs zero h = refl
get_or-first c cs (suc k) h = absurd (omega arith)

typed-cons :
    (attr i c : ℕ) (cs : List ℕ) (mem : Memory) (a : ℕ)
    → typed attr
        (i + 1)
        cs
        (poke (cga_base_addr + 2 * i + 1) attr (poke (cga_base_addr + 2 * i) c mem))
        a
      ≡ typed attr i (c ∷ cs) mem a
typed-cons attr i c cs mem a =
    let k = (a - (cga_base_addr + 2 * i)) / 2 in
    let back : (a - (cga_base_addr + 2 * (i + 1))) / 2 ≡ k - 1 = omega arith in
    rw back (ground (arith, get_or-cons c cs k, get_or-first c cs k))

put_char-plain :
    (c : ℕ) (t : Tty)
    → is_plain c ≡ true
    → t.cursor < 0x4000
    → put_char c t ≡ record t {
      cursor = t.cursor + 1;
      mem =
          poke
            (cga_base_addr + 2 * t.cursor + 1)
            t.attr
            (poke (cga_base_addr + 2 * t.cursor) c t.mem);
    }
unfolding put_char set_char
put_char-plain c t plain h = ground arith

put_chars-plain :
    (cs : List ℕ) (t : Tty)
    → AllPlain cs
    → t.cursor + length cs ≤ 0x4000
    → ((a : ℕ) → (put_chars cs t).mem a ≡ typed t.attr t.cursor cs t.mem a)
      × ((put_chars cs t).cursor ≡ t.cursor + length cs)
      × ((put_chars cs t).screen ≡ t.screen)
unfolding put_chars
put_chars-plain [] t plain h = (λ a. ground arith, omega arith, refl)
put_chars-plain (c ∷ cs) t plain h =
    let t' : Tty = record t {
      cursor = t.cursor + 1;
      mem =
          poke (cga_base_addr + 2 * t.cursor + 1) t.attr
            (poke (cga_base_addr + 2 * t.cursor) c t.mem);
    } in
    let (m, k, s) = put_chars-plain cs t' plain.1 (omega arith) in
    rw (put_chars, put_char-plain c t plain.0 (omega arith))
      (λ a. m a ∙ typed-cons t.attr t.cursor c cs t.mem a, omega (arith, k), s)

-- For bytes without control characters that fit on the screen behind the cursor, on a screen
-- inside video memory, `tty_write` puts each into its cell from the cursor on, with the attribute
-- beside it, changes no other byte of memory, moves the cursor behind them and does not scroll.
pub tty_write-plain :
    (cs : List ℕ) (t : Tty)
    → AllPlain cs
    → t.screen ≤ t.cursor
    → t.cursor + length cs < t.screen + width * hight
    → t.screen + width * hight ≤ 0x4000
    → let (n, t') = tty_write cs t in
      (n ≡ length cs)
      × ((a : ℕ) → t'.mem a ≡ typed t.attr t.cursor cs t.mem a)
      × (t'.cursor ≡ t.cursor + length cs)
      × (t'.screen ≡ t.screen)
unfolding tty_write set_screen set_cursor scroll
tty_write-plain cs t plain lo hi fits =
    let (m, k, s) = put_chars-plain cs t plain (omega arith) in
    let above : leb (u32 ((put_chars cs t).screen + width * hight)) (put_chars cs t).cursor
        ≡ false =
      ground (arith, k, s) in
    let below : ltb (put_chars cs t).cursor (put_chars cs t).screen ≡ false =
      ground (arith, k, s) in
    rw (above, below) (refl, m, k, s)
