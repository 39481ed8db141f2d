-- ===== src/Pmu/Bitmap/Laws.antt =====
-- The bits of kernel/pmu.c's bitmap. Over a byte every case is evaluated.
use fi_rststep.Prelude.{
  ℕ, zero, suc, ◌-◌, ◌/◌, ◌%◌, ◌^◌, ◌<◌, Bool, true, false, ◌≡◌, refl, ◌&&◌, ◌==◌, ==_iff, ltb,
  arith, bit_and, bit_or, if◌then◌else◌, ap, ℕ_discrete,
}
use fi_rststep.Prelude.Words.{◌>>>◌}
use fi_rststep.Pmu.Bitmap.{Bytes, put, is_bit_set, set_bit, clear_bit}

-- whether a test succeeds on every number below a bound
every : (ℕ → Bool) → ℕ → Bool
every test zero = true
every test (suc k) = every test k && test k

every-at : (test : ℕ → Bool) (k i : ℕ) → every test k ≡ true → i < k → test i ≡ true
unfolding every
every-at test zero i all low = absurd (omega arith)
every-at test (suc k) i all low = elim (ℕ_discrete i k) [
  | yes e ↦ ground (arith, ap test e)
  | no ne ↦ every-at test k i (ground arith) (omega arith)
]

abbrev bit : ℕ → ℕ → ℕ
bit b k = bit_and (b >>> k) 1

set_entry : ℕ → ℕ → ℕ → Bool
set_entry b k j =
    (bit (bit_or b (2 ^ k)) j == (if j == k then 1 else bit b j)) && ltb (bit_or b (2 ^ k)) 256

clear_entry : ℕ → ℕ → ℕ → Bool
clear_entry b k j =
    (bit (bit_and b (255 - 2 ^ k)) j == (if j == k then 0 else bit b j))
    && ltb (bit_and b (255 - 2 ^ k)) 256

table : (ℕ → ℕ → ℕ → Bool) → Bool
table f = every (λ b. every (λ k. every (λ j. f b k j) 8) 8) 256

set_table : table set_entry ≡ true
unfolding table every set_entry
set_table = refl

clear_table : table clear_entry ≡ true
unfolding table every clear_entry
clear_table = refl

table_sound :
    (f : ℕ → ℕ → ℕ → Bool) (b k j : ℕ) → table f ≡ true → b < 256 → k < 8 → j < 8 → f b k j ≡ true
unfolding table
table_sound f b k j h hb hk hj =
    every-at (λ j. f b k j) 8 j
      (every-at (λ k. every (λ j. f b k j) 8) 8 k
        (every-at (λ b. every (λ k. every (λ j. f b k j) 8) 8) 256 b h hb) hk)
      hj

set_at :
    (b k j : ℕ)
    → b < 256
    → k < 8
    → j < 8
    → (bit (bit_or b (2 ^ k)) j ≡ (if j == k then 1 else bit b j)) × (bit_or b (2 ^ k) < 256)
unfolding set_entry
set_at b k j hb hk hj =
    let h = table_sound set_entry b k j set_table hb hk hj in
    ground (arith, h, ==_iff (bit (bit_or b (2 ^ k)) j) (if j == k then 1 else bit b j))

clear_at :
    (b k j : ℕ)
    → b < 256
    → k < 8
    → j < 8
    → (bit (bit_and b (255 - 2 ^ k)) j ≡ (if j == k then 0 else bit b j))
      × (bit_and b (255 - 2 ^ k) < 256)
unfolding clear_entry
clear_at b k j hb hk hj =
    let h = table_sound clear_entry b k j clear_table hb hk hj in
    ground (arith, h, ==_iff (bit (bit_and b (255 - 2 ^ k)) j) (if j == k then 0 else bit b j))

index_of_parts : (i j : ℕ) → i / 8 ≡ j / 8 → i % 8 ≡ j % 8 → i ≡ j
index_of_parts i j e f = omega arith

-- one byte written: its bits are the new ones, all others the old
bit-put :
    (bm : Bytes) (i j new w : ℕ)
    → bit new (j % 8) ≡ (if j % 8 == i % 8 then w else bit (bm (i / 8)) (j % 8))
    → bit (put bm (i / 8) new (j / 8)) (j % 8) ≡ (if j == i then w else bit (bm (j / 8)) (j % 8))
bit-put bm i j new w h = elim (ℕ_discrete (j / 8) (i / 8)) [
  | yes e ↦
      let here : (j / 8 == i / 8) ≡ true = ground arith in
      let same : (j == i) ≡ (j % 8 == i % 8) = ground (arith, index_of_parts j i e) in
      let old : bm (j / 8) ≡ bm (i / 8) = ap bm e in rw (here, same, old) h
  | no ne ↦
      let there : (j / 8 == i / 8) ≡ false = ground arith in
      let differs : (j == i) ≡ false = ground arith in rw (there, differs)
]

-- Every entry is a byte.
abbrev pub IsBytes : Bytes → Type 0
IsBytes bm = (x : ℕ) → bm x < 256

-- In an array of bytes, after `set_bit` of one index `is_bit_set` is 1 for this index and
-- unchanged for every other one, and all entries are still bytes.
pub is_bit_set-set_bit :
    (bm : Bytes) (i j : ℕ)
    → IsBytes bm
    → (is_bit_set (set_bit bm i) j ≡ (if j == i then 1 else is_bit_set bm j))
      × IsBytes (set_bit bm i)
unfolding is_bit_set set_bit
is_bit_set-set_bit bm i j bytes = (
  bit-put bm i j (bit_or (bm (i / 8)) (2 ^ (i % 8))) 1
      (set_at (bm (i / 8)) (i % 8) (j % 8) (bytes (i / 8)) (omega arith) (omega arith)).0,
  λ x. ground (arith, bytes x, set_at (bm (i / 8)) (i % 8) 0 (bytes (i / 8))),
)

-- In an array of bytes, after `clear_bit` of one index `is_bit_set` is 0 for this index and
-- unchanged for every other one, and all entries are still bytes.
pub is_bit_set-clear_bit :
    (bm : Bytes) (i j : ℕ)
    → IsBytes bm
    → (is_bit_set (clear_bit bm i) j ≡ (if j == i then 0 else is_bit_set bm j))
      × IsBytes (clear_bit bm i)
unfolding is_bit_set clear_bit
is_bit_set-clear_bit bm i j bytes = (
  bit-put bm i j (bit_and (bm (i / 8)) (255 - 2 ^ (i % 8))) 0
      (clear_at (bm (i / 8)) (i % 8) (j % 8) (bytes (i / 8)) (omega arith) (omega arith)).0,
  λ x. ground (arith, bytes x, clear_at (bm (i / 8)) (i % 8) 0 (bytes (i / 8))),
)
