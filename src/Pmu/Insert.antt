-- ===== src/Pmu/Insert.antt =====
-- Putting a page into a list of runs, the way `pmu_add_record` of kernel/pmu.c does.
use fi_rststep.Prelude.{
  ℕ, suc, ◌+◌, ◌*◌, ◌%◌, ◌^◌, ◌≤◌, ◌<◌, true, false, List, [], ◌∷◌, ◌≡◌, ◌≢◌, refl, ◌==◌, arith,
  if◌then◌else◌, Bool-cases, inl, inr, ==_iff,
}
use fi_rststep.Pmu.{page_size}
use fi_rststep.Pmu.Chain.{Cell, Runs, total, has_page, Runs-weaken}
use fi_rststep.Pmu.Nodes.{FromOn}

-- In front of runs: the page joins the first one, or gets the node `p`.
unfoldable pub place_cell : ℕ → ℕ → List Cell → List Cell
place_cell p a [] = (p, a, 1) ∷ []
place_cell p a ((q, b, n) ∷ cs) =
    if a + page_size == b then (q, a, suc n) ∷ cs else (p, a, 1) ∷ (q, b, n) ∷ cs

-- The run in front joins the first of the runs behind it.
unfoldable pub join_cell : ℕ → ℕ → ℕ → List Cell → List Cell
join_cell q b n [] = (q, b, n) ∷ []
join_cell q b n ((p, a, m) ∷ cs) =
    if b + n * page_size == a then (q, b, n + m) ∷ cs else (q, b, n) ∷ (p, a, m) ∷ cs

-- `cs'` has just the pages of `cs` and the page at `a`.
pub record IsAdded (a : ℕ) (cs cs' : List Cell) : Type 0 where
  pub pages : (x : ℕ) → has_page x cs' ≡ (if x == a then true else has_page x cs)
  pub more : total cs' ≡ suc (total cs)

-- A page that is not in the runs behind it lies a page or more before them.
pub room :
    (a q b n : ℕ) (cs : List Cell)
    → Runs 0 ((q, b, n) ∷ cs)
    → a % page_size ≡ 0
    → a ≤ b
    → has_page a ((q, b, n) ∷ cs) ≡ false
    → a + page_size ≤ b
room a q b n cs (l, al, pos, fits, r) aligned le out =
    let apart : a ≢ b = λ e. ground arith in omega arith

pub place_cell-Runs :
    (low p a : ℕ) (cs : List Cell)
    → Runs low cs
    → low ≤ a
    → a % page_size ≡ 0
    → a + page_size < 2 ^ 32
    → FromOn a cs
    → has_page a cs ≡ false
    → Runs low (place_cell p a cs)
unfolding place_cell
place_cell-Runs low p a [] r le aligned fits fo out = (le, aligned, omega arith, omega arith, tt)
place_cell-Runs low p a ((q, b, n) ∷ cs) (l, al, pos, fits', r) le aligned fits fo out =
    let gap = room a q b n cs (omega arith, al, pos, fits', r) aligned fo out in
    elim (Bool-cases (a + page_size == b)) [
      | inl e ↦
          let here : a + page_size ≡ b = (==_iff (a + page_size) b).0 e in
          rw e (
            le,
            aligned,
            omega arith,
            omega arith,
            Runs-weaken (b + n * page_size + page_size) (a + suc n * page_size + page_size) cs
                (omega arith) r,
          )
      | inr e ↦
          let here : a + page_size ≢ b = λ h. ground arith in
          rw e (le, aligned, omega arith, omega arith, (omega arith, al, pos, fits', r))
    ]

-- The first run holds the page then.
pub place_cell_shape :
    (p a : ℕ) (cs : List Cell)
    → (p' : ℕ) × (m : ℕ) × (cs' : List Cell) × (place_cell p a cs ≡ (p', a, m) ∷ cs')
unfolding place_cell
place_cell_shape p a [] = (p, 1, [], refl)
place_cell_shape p a ((q, b, n) ∷ cs) = elim (Bool-cases (a + page_size == b)) [
  | inl e ↦ (q, suc n, cs, rw e)
  | inr e ↦ (p, 1, (q, b, n) ∷ cs, rw e)
]

pub place_cell-IsAdded :
    (p a : ℕ) (cs : List Cell) → Runs 0 cs → a % page_size ≡ 0 → IsAdded a cs (place_cell p a cs)
unfolding place_cell
place_cell-IsAdded p a [] r aligned = record { pages = λ x. ground arith; more = refl }
place_cell-IsAdded p a ((q, b, n) ∷ cs) (l, al, pos, fits, r) aligned =
    elim (Bool-cases (a + page_size == b)) [
      | inl e ↦ rw e (record { pages = λ x. ground arith; more = omega arith })
      | inr e ↦ rw e (record { pages = λ x. ground arith; more = omega arith })
    ]

-- The runs behind begin where the one in front ends, or behind that.
pub join_cell-Runs :
    (low q b n : ℕ) (cs : List Cell)
    → low ≤ b
    → b % page_size ≡ 0
    → 1 ≤ n
    → b + n * page_size < 2 ^ 32
    → Runs (b + n * page_size) cs
    → Runs low (join_cell q b n cs)
unfolding join_cell
join_cell-Runs low q b n [] le al pos fits r = (le, al, pos, fits, tt)
join_cell-Runs low q b n ((p, a, m) ∷ cs) le al pos fits (l, al', pos', fits', r) =
    elim (Bool-cases (b + n * page_size == a)) [
      | inl e ↦
          let here : b + n * page_size ≡ a = (==_iff (b + n * page_size) a).0 e in
          rw e (
            le,
            al,
            omega arith,
            omega arith,
            Runs-weaken (a + m * page_size + page_size) (b + (n + m) * page_size + page_size) cs
                (omega arith) r,
          )
      | inr e ↦
          let here : b + n * page_size ≢ a = λ h. ground arith in
          rw e (le, al, pos, fits, (omega arith, al', pos', fits', r))
    ]

pub join_cell-pages :
    (q b n x : ℕ) (cs : List Cell)
    → Runs (b + n * page_size) cs
    → has_page x (join_cell q b n cs) ≡ has_page x ((q, b, n) ∷ cs)
unfolding join_cell
join_cell-pages q b n x [] r = refl
join_cell-pages q b n x ((p, a, m) ∷ cs) (l, al', pos', fits', r) =
    elim (Bool-cases (b + n * page_size == a)) [ inl e ↦ rw e (ground arith) | inr e ↦ rw e ]

pub join_cell-total : (q b n : ℕ) (cs : List Cell) → total (join_cell q b n cs) ≡ n + total cs
unfolding join_cell
join_cell-total q b n [] = omega arith
join_cell-total q b n ((p, a, m) ∷ cs) = elim (Bool-cases (b + n * page_size == a)) [
  | inl e ↦ rw e (omega arith)
  | inr e ↦ rw e (omega arith)
]
