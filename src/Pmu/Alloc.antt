-- ===== src/Pmu/Alloc.antt =====
-- `pmu_alloc` of kernel/pmu.c and the runs of free pages.
use fi_rststep.Prelude.{
  ℕ, ◌+◌, ◌-◌, ◌*◌, ◌≤◌, ◌<◌, true, false, List, [], ◌∷◌, ◌≡◌, refl, ◌==◌, leb, arith,
  if◌then◌else◌, Bool-cases, inl, inr, ap, ◌∙◌, subst, ==_iff, ℕ_discrete,
}
use fi_rststep.Prelude.Outcome.{ok, panic, ◌>>=◌}
use fi_rststep.Prelude.Words.{null, u32, sub32}
use fi_rststep.Pmu.{
  Pmu, Nodes, page_size, node_count, set_addr, set_count, fill, free_node, drop_empty_head,
  pmu_alloc,
}
use fi_rststep.Pmu.Bitmap.{clear_bit}
use fi_rststep.Pmu.Bitmap.Laws.{is_bit_set-clear_bit}
use fi_rststep.Pmu.Chain.{
  Cell, has, Chain, Runs, has_page, IsPmu, Chain-frame, Runs-weaken, has_page-below,
}

-- the runs after the lowest page is taken
unfoldable pub take_page : List Cell → List Cell
take_page [] = []
take_page ((q, a, n) ∷ cs) = if n == 1 then cs else (q, a + page_size, n - 1) ∷ cs

has_page-take_page :
    (q a n : ℕ) (cs : List Cell) (x : ℕ)
    → Runs page_size ((q, a, n) ∷ cs)
    → has_page x (take_page ((q, a, n) ∷ cs))
      ≡ (if x == a then false else has_page x ((q, a, n) ∷ cs))
unfolding take_page
has_page-take_page q a n cs x (l, al, pos, fits, rest) =
    ground (arith, has_page-below x (a + n * page_size + page_size) cs rest)

module _ (nodes : Nodes) (q a n : ℕ) where
  -- the first node once its lowest page is gone
  abbrev pub shrunk : Nodes
  shrunk = set_count q (n - 1) (set_addr q (a + page_size) nodes)

  -- the state when pages are left in the first run, and when none is
  abbrev pub kept : Pmu → Pmu
  kept s = record s { node_buf = shrunk; count = s.count - 1; head = q }

  abbrev pub dropped : Pmu → Pmu
  dropped s = record s {
    node_buf = fill q 0 0 shrunk;
    bitmap = clear_bit s.bitmap (q - 1);
    count = s.count - 1;
    head = (nodes q).next;
  }

pub free_node_lem :
    (q : ℕ) (s : Pmu)
    → 1 ≤ q
    → q ≤ node_count
    → free_node q s
      ≡ ok (record s { bitmap = clear_bit s.bitmap (q - 1); node_buf = fill q 0 0 s.node_buf })
unfolding free_node
free_node_lem q s lo hi =
    let above : leb 1 q ≡ true = ground arith in
    let below : leb q node_count ≡ true = ground arith in rw (above, below)

drop_kept :
    (nodes : Nodes) (q a n : ℕ) (s : Pmu)
    → 1 ≤ q
    → q ≤ node_count
    → 1 ≤ n
    → drop_empty_head (kept nodes q a n s)
      ≡ ok (if n == 1 then dropped nodes q a n s else kept nodes q a n s)
unfolding drop_empty_head
drop_kept nodes q a n s lo hi pos =
    let left : (shrunk nodes q a n q).count ≡ n - 1 = ground arith in
    let test : ((shrunk nodes q a n q).count == 0) ≡ (n == 1) = ground arith in
    elim (Bool-cases (n == 1)) [
      | inl one ↦ rw (test, one, free_node_lem q (kept nodes q a n s) lo hi, ◌>>=◌)
      | inr more ↦ rw (test, more)
    ]

pmu_alloc_run :
    (s : Pmu) (q a n : ℕ) (cs : List Cell)
    → IsPmu s ((q, a, n) ∷ cs)
    → pmu_alloc s ≡ ok (a, if n == 1 then dropped s.node_buf q a n s else kept s.node_buf q a n s)
unfolding pmu_alloc
pmu_alloc_run s q a n cs is =
    let (e, lo, hi, ea, en, rest) = is.chain in
    let (l, al, pos, fits, later) = is.runs in
    let some_left : (s.count == 0) ≡ false = ground (arith, is.counted) in
    let linked : (s.head == null) ≡ false = ground arith in
    let addr : (s.node_buf s.head).addr ≡ a = ap (λ z. (s.node_buf z).addr) e ∙ ea in
    let count : (s.node_buf s.head).count ≡ n = ap (λ z. (s.node_buf z).count) e ∙ en in
    let next : u32 (a + page_size) ≡ a + page_size = omega arith in
    let fewer : sub32 n 1 ≡ n - 1 = omega (arith, is.small) in
    let fewer_all : sub32 s.count 1 ≡ s.count - 1 = omega (arith, is.small, is.counted) in
    rw (some_left, linked, addr, count, next, fewer, fewer_all, e)
      (rw (drop_kept s.node_buf q a n s lo hi pos, ◌>>=◌))

has-mark : (p q : ℕ) (cs : List Cell) → has p cs ≡ true → has q cs ≡ false → (p == q) ≡ false
has-mark p q cs h k = elim (Bool-cases (p == q)) [
  | inl e ↦ absurd (differ p q cs h k e)
  | inr e ↦ e
]
  where
    differ : (p q : ℕ) (cs : List Cell) → has p cs ≡ true → has q cs ≡ false → (p == q) ≡ true → ⊥
    differ p q cs h k e =
        let same : p ≡ q = (==_iff p q).0 e in
        let h' : has q cs ≡ true = subst (λ z. has z cs ≡ true) same h in cc

shrunk_other : (nodes : Nodes) (q a n r : ℕ) → (r == q) ≡ false → shrunk nodes q a n r ≡ nodes r
shrunk_other nodes q a n r h = rw h

dropped_other :
    (nodes : Nodes) (q a n r : ℕ) → (r == q) ≡ false → fill q 0 0 (shrunk nodes q a n) r ≡ nodes r
dropped_other nodes q a n r h = rw h

kept-IsPmu :
    (s : Pmu) (q a n : ℕ) (cs : List Cell)
    → IsPmu s ((q, a, n) ∷ cs)
    → 1 < n
    → IsPmu (kept s.node_buf q a n s) ((q, a + page_size, n - 1) ∷ cs)
kept-IsPmu s q a n cs is more =
    let (e, lo, hi, ea, en, rest) = is.chain in
    let (l, al, pos, fits, later) = is.runs in
    let t = shrunk s.node_buf q a n in
    let rest' : Chain t (s.node_buf q).next cs =
      Chain-frame s.node_buf t (s.node_buf q).next cs
        (λ r h. shrunk_other s.node_buf q a n r (has-mark r q cs h is.distinct.0)) rest in
    record {
      chain = (refl, lo, hi, ground arith, ground arith, rest');
      distinct = is.distinct;
      marks = λ i h. is.marks i h;
      bytes = is.bytes;
      runs = (
        omega arith,
        omega arith,
        omega arith,
        omega arith,
        Runs-weaken (a + n * page_size + page_size)
            (a + page_size + (n - 1) * page_size + page_size) cs (omega arith) later,
      );
      counted = omega (arith, is.counted);
      small = omega (arith, is.small);
    }

dropped-IsPmu :
    (s : Pmu) (q a n : ℕ) (cs : List Cell)
    → IsPmu s ((q, a, n) ∷ cs)
    → n ≡ 1
    → IsPmu (dropped s.node_buf q a n s) cs
dropped-IsPmu s q a n cs is one =
    let (e, lo, hi, ea, en, rest) = is.chain in
    let (l, al, pos, fits, later) = is.runs in
    record {
      chain =
          Chain-frame s.node_buf (fill q 0 0 (shrunk s.node_buf q a n)) (s.node_buf q).next cs
            (λ r h. dropped_other s.node_buf q a n r (has-mark r q cs h is.distinct.0)) rest;
      distinct = is.distinct.1;
      marks = λ i h.
          ground
            (arith, is.marks i h, is_bit_set-clear_bit s.bitmap (q - 1) i is.bytes, is.distinct.0);
      bytes = (is_bit_set-clear_bit s.bitmap (q - 1) 0 is.bytes).1;
      runs = Runs-weaken (a + n * page_size + page_size) page_size cs (omega arith) later;
      counted = omega (arith, is.counted);
      small = omega (arith, is.small);
    }

pmu_alloc-take_page :
    (s : Pmu) (q a n : ℕ) (cs : List Cell)
    → IsPmu s ((q, a, n) ∷ cs)
    → (s' : Pmu) × (pmu_alloc s ≡ ok (a, s')) × IsPmu s' (take_page ((q, a, n) ∷ cs))
unfolding take_page
pmu_alloc-take_page s q a n cs is = elim (ℕ_discrete n 1) [
  | yes one ↦
      let test : (n == 1) ≡ true = ground arith in
      rw test (
        dropped s.node_buf q a n s,
        pmu_alloc_run s q a n cs is ∙ rw test,
        dropped-IsPmu s q a n cs is one,
      )
  | no more ↦
      let test : (n == 1) ≡ false = ground arith in
      let many : 1 < n = omega (arith, is.runs) in
      rw test (
        kept s.node_buf q a n s,
        pmu_alloc_run s q a n cs is ∙ rw test,
        kept-IsPmu s q a n cs is many,
      )
]

-- On a valid state with a free page, `pmu_alloc` returns the first page of the first run. This
-- page was free and no lower one was. The new state is valid for some list of runs, in which this
-- page is not free and every other page is as free as it was.
pub pmu_alloc-lowest :
    (s : Pmu) (q a n : ℕ) (cs : List Cell)
    → IsPmu s ((q, a, n) ∷ cs)
    → (s' : Pmu) × (pmu_alloc s ≡ ok (a, s'))
      × (has_page a ((q, a, n) ∷ cs) ≡ true)
      × ((x : ℕ) → x < a → has_page x ((q, a, n) ∷ cs) ≡ false)
      × ((cs' : List Cell) × IsPmu s' cs'
          × ((x : ℕ) → has_page x cs' ≡ (if x == a then false else has_page x ((q, a, n) ∷ cs))))
pmu_alloc-lowest s q a n cs is =
    let (s', e, is') = pmu_alloc-take_page s q a n cs is in
    let (l, al, pos, fits, later) = is.runs in
    (
      s',
      e,
      ground arith,
      λ x h. has_page-below x a ((q, a, n) ∷ cs) (omega arith, al, pos, fits, later) h,
      (take_page ((q, a, n) ∷ cs), is', λ x. has_page-take_page q a n cs x is.runs),
    )

-- On a valid state with no free page `pmu_alloc` panics.
pub pmu_alloc_empty : (s : Pmu) → IsPmu s [] → pmu_alloc s ≡ panic
unfolding pmu_alloc
pmu_alloc_empty s is =
    let none_left : (s.count == 0) ≡ true = ground (arith, is.counted) in rw none_left
