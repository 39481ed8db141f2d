-- ===== src/Pmu/Init.antt =====
-- `pmu_init` of kernel/pmu.c: the manager starts over with one run.
use fi_rststep.Prelude.{
  ℕ, zero, suc, ◌+◌, ◌-◌, ◌*◌, ◌%◌, ◌^◌, ◌≤◌, ◌<◌, true, false, List, [], ◌∷◌, ◌≡◌, refl, sym, ap,
  subst, ◌∙◌, ◌==◌, arith, length, bit_and,
}
use fi_rststep.Prelude.Bits.{bit_and-page_offset, bit_and-one}
use fi_rststep.Prelude.Outcome.{ok, ◌>>=◌}
use fi_rststep.Prelude.Words.{null, u32, ◌>>>◌}
use fi_rststep.Pmu.{Pmu, page_size, node_count, fill, alloc_node, alloc_node_loop}
use fi_rststep.Pmu.Bitmap.{Bytes, set_bit, is_bit_set, clear_bit}
use fi_rststep.Pmu.Bitmap.Laws.{IsBytes, is_bit_set-set_bit}
use fi_rststep.Pmu.Chain.{Cell, Distinct, Chain, Chain-frame, IsPmu}
use fi_rststep.Pmu.Links.{has_test}
use fi_rststep.Pmu.Alloc.{free_node_lem}
use fi_rststep.Pmu.Record.{free_all, pmu_add_record, pmu_init}

abbrev pub no_marks : Bytes
no_marks i = 0

pub no_marks_lem : (i : ℕ) → is_bit_set no_marks i ≡ 0
unfolding is_bit_set
no_marks_lem i = bit_and-one (0 >>> (i % 8)) ∙ no_shift (i % 8)
  where
    no_shift : (k : ℕ) → (0 >>> k) % 2 ≡ 0
    no_shift k = ground (arith, native.Mathlib.Nat.one-le-pow k 2)

pub no_marks-IsBytes : IsBytes no_marks
no_marks-IsBytes i = omega arith

-- the state when the first node, `q`, is given back
abbrev without_head : Pmu → ℕ → Pmu
without_head s q = record s {
  bitmap = clear_bit s.bitmap (q - 1);
  node_buf = fill q 0 0 s.node_buf;
  head = (s.node_buf q).next;
}

free_all_head :
    (fuel : ℕ) (s : Pmu)
    → 1 ≤ s.head
    → s.head ≤ node_count
    → free_all (suc fuel) s ≡ free_all fuel (without_head s s.head)
unfolding free_all
free_all_head fuel s lo hi =
    let more : (s.head == null) ≡ false = ground arith in
    rw (more, free_node_lem s.head s lo hi, ◌>>=◌)

-- The loop gives back every node of the chain.
free_all-empty :
    (fuel : ℕ) (s : Pmu) (cells : List Cell)
    → Chain s.node_buf s.head cells
    → Distinct cells
    → length cells < fuel
    → (s' : Pmu) × (free_all fuel s ≡ ok s') × (s'.head ≡ null) × (s'.count ≡ s.count)
unfolding free_all
free_all-empty zero s cells c d short = absurd (omega arith)
free_all-empty (suc fuel) s [] c d short = (s, rw c refl, c, refl)
free_all-empty (suc fuel) s ((q, a, n) ∷ cells) (e, lo, hi, ea, en, rest) (out, d) short =
    let s₁ = without_head s q in
    let rest' =
      Chain-frame s.node_buf s₁.node_buf (s.node_buf q).next cells
        (λ r h. other r (has_test r q cells h out)) rest in
    let (s', e', h, c) = free_all-empty fuel s₁ cells rest' d (omega arith) in
    let step =
      subst (λ q. free_all (suc fuel) s ≡ free_all fuel (without_head s q)) e
        (free_all_head fuel s (omega arith) (omega arith)) in
    (s', step ∙ e', h, c)
  where
    other : (r : ℕ) → (r == q) ≡ false → fill q 0 0 s.node_buf r ≡ s.node_buf r
    other r h = rw h

alloc_node_first :
    (left a n : ℕ) (s : Pmu)
    → is_bit_set s.bitmap 0 ≡ 0
    → alloc_node_loop (suc left) 0 a n s
      ≡ ok (1, record s { bitmap = set_bit s.bitmap 0; node_buf = fill 1 a n s.node_buf })
unfolding alloc_node_loop
alloc_node_first left a n s e = rw e

-- A manager without nodes takes a run into its first node.
add_first :
    (s : Pmu) (a n : ℕ)
    → s.head ≡ null
    → s.bitmap ≡ no_marks
    → s.count ≡ 0
    → a % page_size ≡ 0
    → page_size ≤ a
    → 1 ≤ n
    → a + n * page_size < 2 ^ 32
    → (s' : Pmu) × (pmu_add_record a n s ≡ ok s') × IsPmu s' ((1, a, n) ∷ [])
unfolding pmu_add_record alloc_node
add_first s a n nil blank zero_count aligned low pos fits =
    let given : (a == 0) ≡ false = ground arith in
    let some_pages : (n == 0) ≡ false = ground arith in
    let offset : (bit_and a 0xFFF == 0) ≡ true = rw (bit_and-page_offset a aligned) in
    let unlinked : (s.head == null) ≡ true = ground arith in
    let counted : Pmu = record s { count = u32 (s.count + n) } in
    let e = alloc_node_first 1023 a n counted (ap (λ z. is_bit_set z 0) blank ∙ no_marks_lem 0) in
    let all : IsBytes s.bitmap = subst IsBytes (sym blank) no_marks-IsBytes in
    let s' : Pmu = record {
      node_buf = fill 1 a n s.node_buf;
      bitmap = set_bit s.bitmap 0;
      count = u32 (s.count + n);
      head = 1;
    } in
    (
      s',
      rw (given, some_pages, offset, unlinked, e, ◌>>=◌),
      record {
        chain = (refl, omega arith, omega arith, refl, refl, refl);
        distinct = (refl, tt);
        marks = λ i h. ground (
          arith,
          (is_bit_set-set_bit s.bitmap 0 i all).0,
          ap (λ z. is_bit_set z i) blank,
          no_marks_lem i,
        );
        bytes = (is_bit_set-set_bit s.bitmap 0 0 all).1;
        runs = (low, aligned, pos, fits, tt);
        counted = omega arith;
        small = omega arith;
      },
    )

-- From any state whose nodes form a chain of at most 1024 different ones, `pmu_init` with at least
-- one page, aligned, at 4096 or above and with their end below 4 GiB, comes to an end and leaves a
-- valid state with just this run, in the first node.
pub pmu_init-IsPmu :
    (s : Pmu) (cells : List Cell) (a n : ℕ)
    → Chain s.node_buf s.head cells
    → Distinct cells
    → length cells ≤ node_count
    → a % page_size ≡ 0
    → page_size ≤ a
    → 1 ≤ n
    → a + n * page_size < 2 ^ 32
    → (s' : Pmu) × (pmu_init a n s ≡ ok s') × IsPmu s' ((1, a, n) ∷ [])
unfolding pmu_init
pmu_init-IsPmu s cells a n c d short aligned low pos fits =
    let (s₁, e, h, zero_count) =
      free_all-empty (suc node_count) (record s { count = 0 }) cells c d (omega arith) in
    let (s', e', is) =
      add_first (record s₁ { bitmap = no_marks }) a n h refl zero_count aligned low pos fits in
    (s', rw (e, ◌>>=◌) e', is)
