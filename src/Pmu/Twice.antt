-- ===== src/Pmu/Twice.antt =====
-- `pmu_free` of kernel/pmu.c with a page that is free.
use fi_rststep.Prelude.{
  ℕ, suc, ◌+◌, ◌*◌, ◌%◌, ◌≤◌, ◌<◌, Bool, true, false, ◌||◌, List, [], ◌∷◌, ◌++◌, ◌≡◌, ◌⊎◌, refl, ap,
  subst, ◌==◌, leb, arith, length, Bool-cases, inl, inr, bit_and,
}
use fi_rststep.Prelude.Bits.{bit_and-page_offset}
use fi_rststep.Prelude.Outcome.{Outcome, ok, panic, ◌>>=◌, ◌>>◌, assert}
use fi_rststep.Prelude.Words.{null, u32}
use fi_rststep.Pmu.{Pmu, Nodes, page_size, node_count}
use fi_rststep.Pmu.Chain.{Cell, Chain, Runs, IsPmu, has_page, Runs-weaken, has_page-below}
use fi_rststep.Pmu.Cells.{has_page-append, behind, Runs-split}
use fi_rststep.Pmu.Nodes.{head_node, Chain-head, Chain-split, FromOn, Place, find_place-Place}
use fi_rststep.Pmu.Record.{run_end, find_place, pmu_add_record, pmu_free}

has_page_aligned :
    (x low : ℕ) (cs : List Cell)
    → Runs low cs
    → has_page x cs ≡ true
    → (x % page_size ≡ 0) × (low ≤ x)
has_page_aligned x low [] r h = absurd (ground arith)
has_page_aligned x low ((q, a, n) ∷ cs) (l, al, pos, fits, r) h =
    elim (Bool-cases (has_page x cs)) [
      | inl later ↦
          let (e, le) = has_page_aligned x (a + n * page_size + page_size) cs r later in
          (e, omega arith)
      | inr here ↦ ground arith
    ]

-- A free page that no run before it holds begins the first run.
first_run :
    (a : ℕ) (cs : List Cell)
    → Runs 0 cs
    → FromOn a cs
    → has_page a cs ≡ true
    → (q : ℕ) × (n : ℕ) × (cs' : List Cell) × (cs ≡ (q, a, n) ∷ cs')
first_run a [] r fo h = absurd (ground arith)
first_run a ((q, b, n) ∷ cs) (l, al, pos, fits, r) fo h =
    let same : b ≡ a = ground (arith, has_page-below a (b + n * page_size + page_size) cs r) in
    (q, n, cs, ap (λ z. (q, z, n) ∷ cs) same)

-- The run behind the place refuses the page.
next_refuses :
    (t : Nodes) (a : ℕ) (ys : List Cell)
    → Chain t (head_node ys) ys
    → Runs 0 ys
    → FromOn a ys
    → has_page a ys ≡ true
    → ((head_node ys == null) || leb (u32 (a + 1 * page_size)) (t (head_node ys)).addr) ≡ false
next_refuses t a ys c r fo h =
    let (q, n, cs, shape) = first_run a ys r fo h in
    let (e, lo, hi, ea, en, rest) = subst (λ z. Chain t (head_node z) z) shape c in
    let (l, al, pos, fits, r') = subst (Runs 0) shape r in
    let end : u32 (a + 1 * page_size) ≡ a + page_size = omega arith in
    rw shape (rw (ea, end) (ground arith))

behind-le : (low : ℕ) (xs : List Cell) → Runs low xs → low ≤ behind low xs
behind-le low [] r = omega arith
behind-le low ((q, a, n) ∷ xs) (l, al, pos, fits, r) =
    omega (arith, behind-le (a + n * page_size + page_size) xs r)

-- The pages of a list lie before what stands behind it.
has_page-behind :
    (x low : ℕ) (xs : List Cell) → Runs low xs → has_page x xs ≡ true → x < behind low xs
has_page-behind x low [] r h = absurd (ground arith)
has_page-behind x low ((q, a, n) ∷ xs) (l, al, pos, fits, r) h = elim (Bool-cases (has_page x xs)) [
  | inl later ↦ has_page-behind x (a + n * page_size + page_size) xs r later
  | inr here ↦
      let le = behind-le (a + n * page_size + page_size) xs r in
      let before : x < a + n * page_size = ground arith in omega arith
]

either_refused :
    (first second : Bool) (rest : Outcome Pmu)
    → ((first ≡ false) ⊎ (second ≡ false))
    → (assert first >> (assert second >> rest)) ≡ panic
either_refused false second rest h = refl
either_refused true second rest (inl h) = absurd (ground arith)
either_refused true second rest (inr h) = rw h

-- the checks that the page lies apart from the runs around it
abbrev apart_before : Nodes → ℕ → ℕ → Bool
apart_before t a q = (q == null) || leb (run_end t q) a

abbrev apart_behind : Nodes → ℕ → ℕ → Bool
apart_behind t a q = (q == null) || leb (u32 (a + 1 * page_size)) (t q).addr

-- A failed check stops the kernel.
check_stops :
    (s : Pmu) (a pr pn : ℕ)
    → a % page_size ≡ 0
    → page_size ≤ a
    → (s.head == null) ≡ false
    → find_place (suc node_count) a null s.head s.node_buf ≡ ok (pr, pn)
    → ((apart_before s.node_buf a pr ≡ false) ⊎ (apart_behind s.node_buf a pn ≡ false))
    → pmu_free a s ≡ panic
unfolding pmu_free pmu_add_record
check_stops s a pr pn aligned low some_head e failed =
    let given : (a == 0) ≡ false = ground arith in
    let offset : (bit_and a 0xFFF == 0) ≡ true = rw (bit_and-page_offset a aligned) in
    rw (given, offset, some_head, e, ◌>>=◌)
      (either_refused (apart_before s.node_buf a pr) (apart_behind s.node_buf a pn) _ failed)

-- On a valid state of at most 1024 runs, `pmu_free` of a page that is free already panics.
pub pmu_free_twice :
    (s : Pmu) (cells : List Cell) (a : ℕ)
    → IsPmu s cells
    → length cells ≤ node_count
    → has_page a cells ≡ true
    → pmu_free a s ≡ panic
pmu_free_twice s cells a is short free =
    let (aligned, low) = has_page_aligned a page_size cells is.runs free in
    put aligned low
      (find_place-Place (suc node_count) a null s.head s.node_buf cells is.chain (omega arith))
  where
    some_head :
        (cs : List Cell)
        → Chain s.node_buf s.head cs
        → has_page a cs ≡ true
        → (s.head == null) ≡ false
    some_head [] c h = absurd (ground arith)
    some_head ((q, b, n) ∷ cs) (e, lo, hi, ea, en, rest) h = ground arith

    later :
        (pre post : List Cell) (q b n : ℕ)
        → Runs page_size pre
        → behind page_size pre ≤ b
        → leb (b + n * page_size) a ≡ true
        → cells ≡ pre ++ ((q, b, n) ∷ post)
        → has_page a post ≡ true
    later pre post q b n runs_pre l above split =
        let whole : has_page a (pre ++ ((q, b, n) ∷ post)) ≡ true =
          subst (λ z. has_page a z ≡ true) split free in
        elim (Bool-cases (has_page a pre)) [
          | inl h ↦ let before = has_page-behind a page_size pre runs_pre h in absurd (ground arith)
          | inr h ↦ ground (arith, has_page-append a pre ((q, b, n) ∷ post))
        ]

    put :
        a % page_size ≡ 0
        → page_size ≤ a
        → Place (find_place (suc node_count) a null s.head s.node_buf) a null cells
        → pmu_free a s ≡ panic
    put aligned low (inl (fo, e)) =
        let chain =
          subst (λ h. Chain s.node_buf h cells) (Chain-head s.node_buf s.head cells is.chain)
            is.chain in
        check_stops s a null (head_node cells) aligned low (some_head cells is.chain free) e (
          inr (
            next_refuses s.node_buf a cells chain
              (Runs-weaken page_size 0 cells (omega arith) is.runs) fo free))
    put aligned low (inr (pre, q, b, n, post, split, below, fo, e)) =
        let (seg, (same, lo, hi, ea, en, chain)) =
          Chain-split s.node_buf s.head pre ((q, b, n) ∷ post)
            (subst (Chain s.node_buf s.head) split is.chain) in
        let chain' =
          subst (λ h. Chain s.node_buf h post)
            (Chain-head s.node_buf (s.node_buf q).next post chain) chain in
        let (runs_pre, (l, al, pos, fits, r)) =
          Runs-split page_size pre ((q, b, n) ∷ post) (subst (Runs page_size) split is.runs) in
        let end : run_end s.node_buf q ≡ b + n * page_size = rw (ea, en) (omega arith) in
        check_stops s a q (head_node post) aligned low (some_head cells is.chain free) e
          (elim (Bool-cases (leb (b + n * page_size) a)) [
            | inr within ↦ inl (rw end (ground arith))
            | inl above ↦ inr (
                next_refuses s.node_buf a post chain'
                  (Runs-weaken (b + n * page_size + page_size) 0 post (omega arith) r) fo
                  (later pre post q b n runs_pre l above split))
          ])
