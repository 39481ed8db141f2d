-- ===== src/Paging/Words.antt =====
-- Entries of tables in memory: what a write of one, or the clearing of a page, does to the others.
use fi_rststep.Prelude.{ℕ, ◌+◌, ◌*◌, ◌%◌, ◌^◌, ◌≤◌, ◌<◌, ◌≡◌, ◌≢◌, ◌⊎◌, inl, inr, dec_lt, arith}
use fi_rststep.Str.{Memory, memset}
use fi_rststep.Str.Blocks.{memset_lem}
use fi_rststep.Pmu.{page_size}
use fi_rststep.Paging.{load32, store32, entry, set_entry}

pub load-store_same : (mem : Memory) (a v : ℕ) → v < 2 ^ 32 → load32 (store32 a v mem) a ≡ v
load-store_same mem a v h = ground arith

pub load-store_ne :
    (mem : Memory) (a b v : ℕ)
    → (b + 4 ≤ a) ⊎ (a + 4 ≤ b)
    → load32 (store32 a v mem) b ≡ load32 mem b
load-store_ne mem a b v h = ground arith

pub entry-set_entry_same :
    (mem : Memory) (p j v : ℕ) → v < 2 ^ 32 → entry (set_entry p j v mem) p j ≡ v
entry-set_entry_same mem p j v h = load-store_same mem (p + 4 * j) v h

-- Two words of pages that are no two names of one word do not overlap.
words_apart :
    (p q j k : ℕ)
    → p % page_size ≡ 0
    → q % page_size ≡ 0
    → j < 1024
    → k < 1024
    → (p ≢ q) ⊎ (j ≢ k)
    → (q + 4 * k + 4 ≤ p + 4 * j) ⊎ (p + 4 * j + 4 ≤ q + 4 * k)
words_apart p q j k hp hq hj hk (inl ne) = elim (dec_lt p q) [
  | yes below ↦ inr (omega arith)
  | no above ↦ inl (omega arith)
]
words_apart p q j k hp hq hj hk (inr ne) = elim (dec_lt (p + 4 * j) (q + 4 * k)) [
  | yes below ↦ inr (omega arith)
  | no above ↦ inl (omega arith)
]

pub entry-set_entry_ne :
    (mem : Memory) (p q j k v : ℕ)
    → p % page_size ≡ 0
    → q % page_size ≡ 0
    → j < 1024
    → k < 1024
    → (p ≢ q) ⊎ (j ≢ k)
    → entry (set_entry p j v mem) q k ≡ entry mem q k
entry-set_entry_ne mem p q j k v hp hq hj hk h =
    load-store_ne mem (p + 4 * j) (q + 4 * k) v (words_apart p q j k hp hq hj hk h)

byte-cleared : (mem : Memory) (p a : ℕ) → p ≤ a → a < p + page_size → memset p 0 page_size mem a ≡ 0
byte-cleared mem p a lo hi = ground (arith, memset_lem p 0 page_size mem a)

byte-kept :
    (mem : Memory) (p a : ℕ) → (a < p) ⊎ (p + page_size ≤ a) → memset p 0 page_size mem a ≡ mem a
byte-kept mem p a h = ground (arith, memset_lem p 0 page_size mem a)

pub entry-memset_same :
    (mem : Memory) (p k : ℕ) → k < 1024 → entry (memset p 0 page_size mem) p k ≡ 0
entry-memset_same mem p k h =
    let a = p + 4 * k in
    rw (
      byte-cleared mem p a (omega arith) (omega arith),
      byte-cleared mem p (a + 1) (omega arith) (omega arith),
      byte-cleared mem p (a + 2) (omega arith) (omega arith),
      byte-cleared mem p (a + 3) (omega arith) (omega arith),
    )

outside :
    (p q a : ℕ)
    → p % page_size ≡ 0
    → q % page_size ≡ 0
    → p ≢ q
    → q ≤ a
    → a < q + page_size
    → (a < p) ⊎ (p + page_size ≤ a)
outside p q a hp hq ne lo hi = elim (dec_lt p q) [
  | yes below ↦ inr (omega arith)
  | no above ↦ inl (omega arith)
]

pub entry-memset_ne :
    (mem : Memory) (p q k : ℕ)
    → p % page_size ≡ 0
    → q % page_size ≡ 0
    → p ≢ q
    → k < 1024
    → entry (memset p 0 page_size mem) q k ≡ entry mem q k
entry-memset_ne mem p q k hp hq ne h =
    let a = q + 4 * k in
    let kept = λ (b : ℕ) (lo : q ≤ b) (hi : b < q + page_size).
      byte-kept mem p b (outside p q b hp hq ne lo hi) in
    rw (
      kept a (omega arith) (omega arith),
      kept (a + 1) (omega arith) (omega arith),
      kept (a + 2) (omega arith) (omega arith),
      kept (a + 3) (omega arith) (omega arith),
    )
