-- ===== src/Paging/Walk.antt =====
-- What a page directory means: the walk that the processor makes for a linear address.
use fi_rststep.Prelude.{
  ℕ, ◌*◌, ◌%◌, ◌<◌, ◌≡◌, ◌≢◌, false, true, Option, none, some, List, bit_and, ◌==◌, arith, ap, ◌∙◌,
  Bool-cases, inl, inr, if◌then◌else◌,
}
use fi_rststep.Str.{Memory}
use fi_rststep.Pmu.{page_size}
use fi_rststep.Pmu.Chain.{Cell, has_page, IsPmu}
use fi_rststep.Paging.{
  Vm, entry, table_at, present, rw_bit, us_bit, frame_of, page_dir_index, page_table_index,
}

-- A page and the rights to it, 1 or 0: whether user programs may use it and whether it may be written.
pub record Mapping : Type 0 where
  pub frame : ℕ
  pub user : ℕ
  pub write : ℕ

-- The page is the table entry's; a right is there if both entries give it.
abbrev pub mapping_of : ℕ → ℕ → Mapping
mapping_of d w = record {
  frame = frame_of w;
  user = bit_and (us_bit d) (us_bit w);
  write = bit_and (rw_bit d) (rw_bit w);
}

-- a directory's entry and its table's
abbrev pub both_present : ℕ → ℕ → Option Mapping
both_present d w =
    if present d == 0 then none else (if present w == 0 then none else some (mapping_of d w))

-- what directory slot `i` and table slot `j` map, if both are present
abbrev pub mapping : Memory → ℕ → ℕ → ℕ → Option Mapping
mapping mem dir i j = both_present (entry mem dir i) (entry mem (table_at mem dir i) j)

-- the page that a linear address leads to, with its rights
abbrev pub walk : Memory → ℕ → ℕ → Option Mapping
walk mem dir linear = mapping mem dir (page_dir_index linear) (page_table_index linear)

-- The rights that a directory's entry gives once it has a table: those that it gave before, or else the
-- given user bit and the right to write.
abbrev pub dir_user : Memory → ℕ → ℕ → ℕ → ℕ
dir_user mem dir i us = if present (entry mem dir i) == 0 then us % 2 else us_bit (entry mem dir i)

abbrev pub dir_write : Memory → ℕ → ℕ → ℕ
dir_write mem dir i = if present (entry mem dir i) == 0 then 1 else rw_bit (entry mem dir i)

-- A directory and its tables: pages of their own, none of them free, no table used twice.
pub record IsSpace (s : Vm) (dir : ℕ) (cells : List Cell) : Type 0 where
  pub free : IsPmu s.pmu cells
  pub aligned : dir % page_size ≡ 0
  pub own : has_page dir cells ≡ false
  pub tables :
      (i : ℕ)
      → i < 1024
      → present (entry s.mem dir i) ≡ 1
      → (has_page (table_at s.mem dir i) cells ≡ false) × (table_at s.mem dir i ≢ dir)
  pub apart :
      (i j : ℕ)
      → i < 1024
      → j < 1024
      → present (entry s.mem dir i) ≡ 1
      → present (entry s.mem dir j) ≡ 1
      → table_at s.mem dir i ≡ table_at s.mem dir j
      → i ≡ j

pub both_present-same :
    (d w w' : ℕ) → (present d ≡ 1 → w' ≡ w) → both_present d w' ≡ both_present d w
both_present-same d w w' h = elim (Bool-cases (present d == 0)) [
  | inl out ↦ rw out
  | inr here ↦ let e : w' ≡ w = h (ground arith) in rw e
]

-- Two memories that agree on a directory's entry and on its table's agree on the mapping.
pub mapping-same :
    (mem mem' : Memory) (dir i j : ℕ)
    → entry mem' dir i ≡ entry mem dir i
    → (present (entry mem dir i) ≡ 1
        → entry mem' (table_at mem dir i) j ≡ entry mem (table_at mem dir i) j)
    → mapping mem' dir i j ≡ mapping mem dir i j
mapping-same mem mem' dir i j e h =
    ap (λ d. both_present d (entry mem' (frame_of d * page_size) j)) e
    ∙ both_present-same (entry mem dir i) (entry mem (table_at mem dir i) j)
        (entry mem' (table_at mem dir i) j) h

pub mapping-absent :
    (mem : Memory) (dir i j : ℕ) → present (entry mem dir i) ≡ 0 → mapping mem dir i j ≡ none
mapping-absent mem dir i j h =
    let e : (present (entry mem dir i) == 0) ≡ true = ground arith in rw e

pub mapping-empty :
    (mem : Memory) (dir i j : ℕ) → entry mem (table_at mem dir i) j ≡ 0 → mapping mem dir i j ≡ none
mapping-empty mem dir i j h = ap (both_present (entry mem dir i)) h ∙ never (entry mem dir i)
  where
    never : (d : ℕ) → both_present d 0 ≡ none
    never d = ground arith
