-- ===== src/Pmu/Free.antt =====
-- `pmu_free` of kernel/pmu.c and the runs of free pages.
use fi_rststep.Prelude.{
  ℕ, suc, ◌+◌, ◌*◌, ◌%◌, ◌^◌, ◌≤◌, ◌<◌, true, false, ◌||◌, List, [], ◌∷◌, ◌≡◌, refl, sym, subst,
  ◌==◌, leb, arith, if◌then◌else◌, length, inl, inr, bit_and,
}
use fi_rststep.Prelude.Bits.{bit_and-page_offset}
use fi_rststep.Prelude.Outcome.{ok, ◌>>=◌}
use fi_rststep.Prelude.Words.{null}
use fi_rststep.Pmu.{Pmu, page_size, node_count, fill}
use fi_rststep.Pmu.Bitmap.{set_bit}
use fi_rststep.Pmu.Chain.{Cell, Chain, IsPmu, has_page, Runs-weaken}
use fi_rststep.Pmu.Nodes.{IsNodes, Chain-head, Chain-split, Place, find_place-Place}
use fi_rststep.Pmu.Links.{insert-IsNodes}
use fi_rststep.Pmu.Insert.{place_cell, IsAdded, place_cell-IsAdded}
use fi_rststep.Pmu.Place.{alloc_node_free}
use fi_rststep.Pmu.Record.{run_end, find_place, pmu_add_record, pmu_free}
use fi_rststep.Pmu.Merge.{
  Freed, counted_up, counted_up-IsNodes, added-IsPmu, next_apart, free_front, post-Runs, apart,
  free_behind,
}

module _ (s : Pmu) (cells : List Cell) (a : ℕ) (is : IsPmu s cells) (aligned : a % page_size ≡ 0)
    (low : page_size ≤ a) (fits : a + page_size < 2 ^ 32) (out : has_page a cells ≡ false)
    (short : length cells < node_count) where
  guards : ((a == 0) ≡ false) × ((bit_and a 0xFFF == 0) ≡ true)
  guards = (ground arith, rw (bit_and-page_offset a aligned))

  -- The first page of all gets a node of its own.
  free_only : cells ≡ [] → Freed a cells (pmu_add_record a 1 s)
  unfolding pmu_add_record place_cell
  free_only nil =
      let is' = subst (IsNodes (counted_up s)) nil (counted_up-IsNodes s cells is) in
      let unlinked : (s.head == null) ≡ true = ground (arith, is'.chain) in
      let (k, less, free, e) = alloc_node_free (counted_up s) [] a is' (omega arith) in
      let s' : Pmu = record (counted_up s) {
        bitmap = set_bit s.bitmap k;
        node_buf = fill (suc k) a 1 s.node_buf;
        head = suc k;
      } in
      let nodes =
        insert-IsNodes (counted_up s) s'.node_buf k (suc k) s'.count [] [] a 1 is' free less refl
          (ground arith) (ground arith) (ground arith) (λ r h. cc) in
      (
        s',
        rw (guards.0, guards.1, unlinked, e, ◌>>=◌),
        (
          (suc k, a, 1) ∷ [],
          added-IsPmu s s' a cells ((suc k, a, 1) ∷ []) is nodes refl
              (low, aligned, omega arith, omega arith, tt) (added k),
          (added k).pages,
        ),
      )
    where
      added : (k : ℕ) → IsAdded a cells ((suc k, a, 1) ∷ [])
      added k =
          subst (λ z. IsAdded a z ((suc k, a, 1) ∷ [])) (sym nil)
            (place_cell-IsAdded (suc k) a [] tt aligned)

  -- Behind or in front of the runs that are there.
  free_more : (s.head == null) ≡ false → Freed a cells (pmu_add_record a 1 s)
  unfolding pmu_add_record place_cell
  free_more some_head =
      put (find_place-Place (suc node_count) a null s.head s.node_buf cells is.chain (omega arith))
    where
      put :
          Place (find_place (suc node_count) a null s.head s.node_buf) a null cells
          → Freed a cells (pmu_add_record a 1 s)
      put (inl (fo, e)) =
          let (s', eq, rest) = free_front s cells a is aligned low fits out short fo in
          let chain =
            subst (λ h. Chain s.node_buf h cells) (Chain-head s.node_buf s.head cells is.chain)
              is.chain in
          let next =
            next_apart s.node_buf a cells chain
              (Runs-weaken page_size 0 cells (omega arith) is.runs) aligned fits fo out in
          (s', rw (guards.0, guards.1, some_head, e, ◌>>=◌) (rw next eq), rest)
      put (inr (pre, q, b, n, post, split, below, fo, e)) =
          let (s', eq, rest) =
            free_behind s cells a is aligned low fits out short pre q b n post split below fo in
          let (before, clear) =
            apart s cells a is aligned low fits out short pre q b n post split below fo in
          let (seg, (same, lo, hi, ea, en, chain)) =
            Chain-split s.node_buf s.head pre ((q, b, n) ∷ post)
              (subst (Chain s.node_buf s.head) split is.chain) in
          let chain' =
            subst (λ h. Chain s.node_buf h post)
              (Chain-head s.node_buf (s.node_buf q).next post chain) chain in
          let next =
            next_apart s.node_buf a post chain'
              (post-Runs s cells a is aligned low fits out short pre q b n post split below fo 0
                (omega arith))
              aligned fits fo clear in
          let end : run_end s.node_buf q ≡ b + n * page_size = rw (ea, en) (omega arith) in
          let previous : ((q == null) || leb (run_end s.node_buf q) a) ≡ true =
            rw end (ground arith) in
          (s', rw (guards.0, guards.1, some_head, e, ◌>>=◌) (rw (previous, next) eq), rest)

  freed : Freed a cells (pmu_free a s)
  unfolding pmu_free
  freed = rw guards.0 (by_head cells refl)
    where
      by_head : (cs : List Cell) → cells ≡ cs → Freed a cells (pmu_add_record a 1 s)
      by_head [] e = free_only e
      by_head ((q, b, n) ∷ cs) e =
          let chain = subst (Chain s.node_buf s.head) e is.chain in free_more (ground arith)

-- On a valid state with fewer runs than the 1024 nodes, `pmu_free` of a page that is not free,
-- aligned, at 4096 or above and with its end below 4 GiB, returns. The new state is valid for some
-- list of runs, in which this page is free and every other page is as free as it was, whichever of
-- the runs before and behind it the page joins.
pub pmu_free-added :
    (s : Pmu) (cells : List Cell) (a : ℕ)
    → IsPmu s cells
    → a % page_size ≡ 0
    → page_size ≤ a
    → a + page_size < 2 ^ 32
    → has_page a cells ≡ false
    → length cells < node_count
    → (s' : Pmu) × (pmu_free a s ≡ ok s')
      × ((cells' : List Cell) × IsPmu s' cells'
          × ((x : ℕ) → has_page x cells' ≡ (if x == a then true else has_page x cells)))
pmu_free-added s cells a is aligned low fits out short =
    freed s cells a is aligned low fits out short
