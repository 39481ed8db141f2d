-- ===== src/Str/Compare.antt =====
-- `strcmp` and `memcmp` of lib/string.c on equal operands.
use fi_rststep.Prelude.{
  ℕ, zero, suc, ◌+◌, ◌<◌, true, false, not, ◌&&◌, ◌≡◌, ◌≢◌, ◌↔◌, inl, inr, refl, ◌==◌, arith,
  Bool-cases,
}
use fi_rststep.Prelude.Int.{ℤ, pos, sub_ℕ}
use fi_rststep.Prelude.Outcome.{Outcome, ok}
use fi_rststep.Str.{Memory, memcmp, memcmp_loop, strcmp, strcmp_loop, address_space}

-- the first `n` bytes at the two addresses are the same
abbrev pub SameBytes : Memory → ℕ → ℕ → ℕ → Type 0
SameBytes mem p q n = (i : ℕ) → i < n → mem (p + i) ≡ mem (q + i)

sub_ℕ-zero : (a b : ℕ) → sub_ℕ a b ≡ pos 0 → a ≡ b
sub_ℕ-zero a b h = ground arith

zero-sub_ℕ : (a b : ℕ) → a ≡ b → sub_ℕ a b ≡ pos 0
zero-sub_ℕ a b h = ground arith

SameBytes-suc :
    (mem : Memory) (p q n : ℕ)
    → mem p ≡ mem q
    → SameBytes mem (p + 1) (q + 1) n
    → SameBytes mem p q (suc n)
SameBytes-suc mem p q n e h zero lt = ground arith
SameBytes-suc mem p q n e h (suc i) lt = ground (arith, h i)

SameBytes-pred :
    (mem : Memory) (p q n : ℕ)
    → SameBytes mem p q (suc n)
    → (mem p ≡ mem q) × SameBytes mem (p + 1) (q + 1) n
SameBytes-pred mem p q n h = (ground (arith, h 0), λ i lt. ground (arith, h (suc i)))

memcmp_loop_lem :
    (n : ℕ) (mem : Memory) (p q : ℕ) → (memcmp_loop n mem p q ≡ pos 0) ↔ SameBytes mem p q (suc n)
unfolding memcmp_loop
memcmp_loop_lem zero mem p q = (
  λ h. SameBytes-suc mem p q 0 (sub_ℕ-zero (mem p) (mem q) h) (λ i lt. absurd (omega arith)),
  λ h. zero-sub_ℕ (mem p) (mem q) (SameBytes-pred mem p q 0 h).0,
)
memcmp_loop_lem (suc n) mem p q =
    let ih = memcmp_loop_lem n mem (p + 1) (q + 1) in
    elim (Bool-cases (mem p == mem q)) [
      | inl same ↦
          let e : mem p ≡ mem q = ground arith in
          rw same (
            λ h. SameBytes-suc mem p q (suc n) e (ih.0 h),
            λ h. ih.1 (SameBytes-pred mem p q (suc n) h).1,
          )
      | inr differ ↦ rw differ (
        λ h. absurd (ne differ (sub_ℕ-zero (mem p) (mem q) h)),
        λ h. absurd (ne differ (SameBytes-pred mem p q (suc n) h).0),
      )
    ]
  where
    ne : (mem p == mem q) ≡ false → mem p ≢ mem q
    ne differ e = ground arith

-- `memcmp` returns 0 exactly if the first `n` bytes at the two addresses agree.
pub memcmp-eq-zero : (mem : Memory) (p q n : ℕ) → (memcmp mem p q n ≡ pos 0) ↔ SameBytes mem p q n
unfolding memcmp
memcmp-eq-zero mem p q zero = (λ h i lt. absurd (omega arith), λ h. refl)
memcmp-eq-zero mem p q (suc n) = memcmp_loop_lem n mem p q

-- The strings at the two addresses are the same: the same bytes up to a NUL.
pub record SameStrings (mem : Memory) (p q n : ℕ) : Type 0 where
  pub same : SameBytes mem p q n
  pub stop_left : mem (p + n) ≡ 0
  pub stop_right : mem (q + n) ≡ 0

strcmp_loop-same :
    (fuel : ℕ) (mem : Memory) (p q n : ℕ)
    → SameStrings mem p q n
    → n < fuel
    → strcmp_loop fuel mem p q ≡ ok (pos 0)
unfolding strcmp_loop
strcmp_loop-same zero mem p q n s h = absurd (omega arith)
strcmp_loop-same (suc fuel) mem p q zero s h =
    let left : mem p ≡ 0 = ground (arith, s.stop_left) in
    let right : mem q ≡ 0 = ground (arith, s.stop_right) in ground arith
strcmp_loop-same (suc fuel) mem p q (suc n) s h =
    let (e, later) = SameBytes-pred mem p q n s.same in
    let rest : SameStrings mem (p + 1) (q + 1) n = record {
      same = later;
      stop_left = ground (arith, s.stop_left);
      stop_right = ground (arith, s.stop_right);
    } in
    ground (arith, e, strcmp_loop-same fuel mem (p + 1) (q + 1) n rest)

strcmp_loop-zero :
    (fuel : ℕ) (mem : Memory) (p q : ℕ)
    → strcmp_loop fuel mem p q ≡ ok (pos 0)
    → (n : ℕ) × (n < fuel) × SameStrings mem p q n
unfolding strcmp_loop
strcmp_loop-zero zero mem p q h = cc
strcmp_loop-zero (suc fuel) mem p q h = elim (Bool-cases (not (mem p == 0) && (mem p == mem q))) [
  | inl go ↦
      let (n, lt, s) = strcmp_loop-zero fuel mem (p + 1) (q + 1) (later go h) in
      let e : mem p ≡ mem q = ground arith in
      (
        suc n,
        omega arith,
        record {
          same = SameBytes-suc mem p q n e s.same;
          stop_left = ground (arith, s.stop_left);
          stop_right = ground (arith, s.stop_right);
        },
      )
  | inr stop ↦
      let e : mem p ≡ mem q = ends stop h in
      let z : mem p ≡ 0 = ground arith in
      (
        0,
        omega arith,
        record {
          same = λ i lt. absurd (omega arith);
          stop_left = ground arith;
          stop_right = ground arith;
        },
      )
]
  where
    later :
        (not (mem p == 0) && (mem p == mem q)) ≡ true
        → strcmp_loop (suc fuel) mem p q ≡ ok (pos 0)
        → strcmp_loop fuel mem (p + 1) (q + 1) ≡ ok (pos 0)
    later go h = rw go at h

    ends :
        (not (mem p == 0) && (mem p == mem q)) ≡ false
        → strcmp_loop (suc fuel) mem p q ≡ ok (pos 0)
        → mem p ≡ mem q
    ends stop h =
        let h' : Path (Outcome ℤ) (ok (sub_ℕ (mem p) (mem q))) (ok (pos 0)) = rw stop at h in
        sub_ℕ-zero (mem p) (mem q) (cc)

-- `strcmp` returns 0 exactly if the two addresses hold the same string, of a length below 2 ^ 32:
-- the same bytes up to a NUL in both.
pub strcmp-eq-zero :
    (mem : Memory) (p q : ℕ)
    → (strcmp mem p q ≡ ok (pos 0)) ↔ ((n : ℕ) × (n < address_space) × SameStrings mem p q n)
unfolding strcmp
strcmp-eq-zero mem p q = (
  strcmp_loop-zero address_space mem p q,
  λ (n, h, s). strcmp_loop-same address_space mem p q n s h,
)
