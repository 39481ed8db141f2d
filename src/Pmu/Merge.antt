-- ===== src/Pmu/Merge.antt =====
-- A page put in front of all runs or behind one by `pmu_add_record` of kernel/pmu.c: the state that
-- it leaves.
use fi_rststep.Prelude.{
  ℕ, ◌+◌, ◌*◌, ◌%◌, ◌^◌, ◌≤◌, ◌<◌, true, false, ◌||◌, List, [], ◌∷◌, ◌++◌, ◌≡◌, refl, sym, ap,
  subst, ◌∙◌, ◌==◌, leb, arith, if◌then◌else◌, length, inl, inr, append_assoc,
}
use fi_rststep.Prelude.Outcome.{Outcome, ok, ◌>>=◌}
use fi_rststep.Prelude.Words.{null, u32}
use fi_rststep.Pmu.{Pmu, Nodes, page_size, node_count}
use fi_rststep.Pmu.Chain.{Cell, Chain, Runs, IsPmu, has_page, total, Runs-weaken}
use fi_rststep.Pmu.Cells.{
  has_page-append, total-append, total-bound, behind, Runs-append, Runs-split,
}
use fi_rststep.Pmu.Nodes.{IsNodes, head_node, FromOn}
use fi_rststep.Pmu.Insert.{
  place_cell, join_cell, IsAdded, room, place_cell-Runs, place_cell-IsAdded, place_cell_shape,
  join_cell-Runs, join_cell-pages, join_cell-total,
}
use fi_rststep.Pmu.Place.{place_run-place_cell}
use fi_rststep.Pmu.Join.{join_previous-join_cell}
use fi_rststep.Pmu.Record.{place_run, join_previous}

-- a state whose count is one page ahead of its chain
abbrev pub counted_up : Pmu → Pmu
counted_up s = record s { count = u32 (s.count + 1) }

pub counted_up-IsNodes :
    (s : Pmu) (cells : List Cell) → IsPmu s cells → IsNodes (counted_up s) cells
counted_up-IsNodes s cells is = record {
  chain = is.chain;
  distinct = is.distinct;
  marks = is.marks;
  bytes = is.bytes;
}

-- A chain with one page more is a valid state again.
pub added-IsPmu :
    (s s' : Pmu) (a : ℕ) (cells cells' : List Cell)
    → IsPmu s cells
    → IsNodes s' cells'
    → s'.count ≡ u32 (s.count + 1)
    → Runs page_size cells'
    → IsAdded a cells cells'
    → IsPmu s' cells'
added-IsPmu s s' a cells cells' is is' counted runs added =
    let bound = total-bound page_size cells' runs (omega arith) in
    record {
      chain = is'.chain;
      distinct = is'.distinct;
      marks = is'.marks;
      bytes = is'.bytes;
      runs = runs;
      counted = omega (arith, is.counted, added.more, counted);
      small = omega arith;
    }

-- The page ends before the run behind it.
pub next_apart :
    (t : Nodes) (a : ℕ) (ys : List Cell)
    → Chain t (head_node ys) ys
    → Runs 0 ys
    → a % page_size ≡ 0
    → a + page_size < 2 ^ 32
    → FromOn a ys
    → has_page a ys ≡ false
    → ((head_node ys == null) || leb (u32 (a + 1 * page_size)) (t (head_node ys)).addr) ≡ true
next_apart t a [] c r aligned fits fo out = refl
next_apart t a ((q, b, n) ∷ ys) (e, lo, hi, ea, en, rest) r aligned fits fo out =
    let gap = room a q b n ys r aligned fo out in
    let end : u32 (a + 1 * page_size) ≡ a + page_size = omega arith in rw (ea, end) (ground arith)

-- A valid state with the pages of `cells` and the page at `a`.
abbrev pub Freed : ℕ → List Cell → Outcome Pmu → Type 0
Freed a cells result =
    (s' : Pmu) × (result ≡ ok s')
    × ((cells' : List Cell) × IsPmu s' cells'
        × ((x : ℕ) → has_page x cells' ≡ (if x == a then true else has_page x cells)))

module _ (s : Pmu) (cells : List Cell) (a : ℕ) (is : IsPmu s cells) (aligned : a % page_size ≡ 0)
    (low : page_size ≤ a) (fits : a + page_size < 2 ^ 32) (out : has_page a cells ≡ false)
    (short : length cells < node_count) where
  -- In front of all runs.
  pub free_front :
      FromOn a cells
      → Freed a cells (do
        (p, p_next', s') ← place_run a 1 null (head_node cells) (counted_up s)
        join_previous a null p p_next' s')
  unfolding join_previous
  free_front fo =
      let (p, s', e, is', c) =
        place_run-place_cell (counted_up s) a null [] cells (counted_up-IsNodes s cells is)
          (inl (refl, refl)) short (Runs-weaken page_size 0 cells (omega arith) is.runs) fits in
      let added =
        place_cell-IsAdded p a cells (Runs-weaken page_size 0 cells (omega arith) is.runs)
          aligned in
      (
        s',
        rw (e, ◌>>=◌),
        (
          place_cell p a cells,
          added-IsPmu s s' a cells (place_cell p a cells) is is' c
              (place_cell-Runs page_size p a cells is.runs low aligned fits fo out) added,
          added.pages,
        ),
      )

  module _ (pre : List Cell) (q b n : ℕ) (post : List Cell)
      (split : cells ≡ pre ++ ((q, b, n) ∷ post)) (below : b < a) (fo : FromOn a post) where
    split-Runs : Runs page_size pre × Runs (behind page_size pre) ((q, b, n) ∷ post)
    split-Runs = Runs-split page_size pre ((q, b, n) ∷ post) (subst (Runs page_size) split is.runs)

    pub apart : (b + n * page_size ≤ a) × (has_page a post ≡ false)
    apart =
        let out' : has_page a (pre ++ ((q, b, n) ∷ post)) ≡ false =
          subst (λ z. has_page a z ≡ false) split out in
        (
          ground (arith, has_page-append a pre ((q, b, n) ∷ post)),
          ground (arith, has_page-append a pre ((q, b, n) ∷ post)),
        )

    pub post-Runs : (low : ℕ) → low ≤ b + n * page_size + page_size → Runs low post
    post-Runs low le = Runs-weaken (b + n * page_size + page_size) low post le split-Runs.1.4

    placed-Runs : (p : ℕ) → Runs (b + n * page_size) (place_cell p a post)
    placed-Runs p =
        place_cell-Runs (b + n * page_size) p a post (post-Runs (b + n * page_size) (omega arith))
          apart.0 aligned fits fo apart.1

    joined-Runs : (p : ℕ) → Runs page_size (pre ++ join_cell q b n (place_cell p a post))
    joined-Runs p =
        let (runs_pre, (l, al, pos, fits', r)) = split-Runs in
        Runs-append page_size pre (join_cell q b n (place_cell p a post)) runs_pre (
          join_cell-Runs (behind page_size pre) q b n (place_cell p a post) l al pos fits'
            (placed-Runs p))

    small : (p p' m : ℕ) (cs : List Cell) → place_cell p a post ≡ (p', a, m) ∷ cs → n + m < 2 ^ 32
    small p p' m cs shape =
        let (l, al, pos, fits', r) = split-Runs.1 in
        let bound =
          total-bound (b + n * page_size) (place_cell p a post) (placed-Runs p) (omega arith) in
        let sum : total (place_cell p a post) ≡ m + total cs = ap total shape in omega arith

    added : (p : ℕ) → IsAdded a cells (pre ++ join_cell q b n (place_cell p a post))
    added p =
        let cs = place_cell p a post in
        let here = place_cell-IsAdded p a post (post-Runs 0 (omega arith)) aligned in
        let pages : (x : ℕ) → has_page x cells ≡ has_page x (pre ++ ((q, b, n) ∷ post)) =
          λ x. ap (has_page x) split in
        record {
          pages = λ x. ground (
            arith,
            pages x,
            has_page-append x pre ((q, b, n) ∷ post),
            has_page-append x pre (join_cell q b n cs),
            join_cell-pages q b n x cs (placed-Runs p),
            here.pages x,
          );
          more = omega (
            arith,
            ap total split,
            total-append pre ((q, b, n) ∷ post),
            total-append pre (join_cell q b n cs),
            join_cell-total q b n cs,
            here.more,
          );
        }

    -- Behind the run of node `q`.
    pub free_behind : Freed a cells (do
      (p, p_next', s') ← place_run a 1 q (head_node post) (counted_up s)
      join_previous a q p p_next' s')
    free_behind =
        let xs = pre ++ ((q, b, n) ∷ []) in
        let whole = split ∙ sym (append_assoc pre ((q, b, n) ∷ []) post) in
        let (p, s₁, e₁, is₁, c₁) =
          place_run-place_cell (counted_up s) a q xs post
            (subst (IsNodes (counted_up s)) whole (counted_up-IsNodes s cells is))
            (inr (pre, q, b, n, refl, refl)) (subst (λ z. length z < node_count) whole short)
            (post-Runs 0 (omega arith)) fits in
        let (p', m, cs, shape) = place_cell_shape p a post in
        let is₂ =
          subst (IsNodes s₁) (append_assoc pre ((q, b, n) ∷ []) (place_cell p a post)) is₁ in
        let (s', e₂, is', c₂) =
          join_previous-join_cell s₁ pre q b n (place_cell p a post) p' a m cs shape is₂
            split-Runs.1.3 (small p p' m cs shape) in
        (
          s',
          rw (e₁, ◌>>=◌) e₂,
          (
            pre ++ join_cell q b n (place_cell p a post),
            added-IsPmu s s' a cells (pre ++ join_cell q b n (place_cell p a post)) is is' (c₂ ∙ c₁)
                (joined-Runs p) (added p),
            (added p).pages,
          ),
        )
