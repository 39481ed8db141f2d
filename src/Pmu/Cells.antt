-- ===== src/Pmu/Cells.antt =====
-- Lists of runs of free pages: what putting runs in and taking runs out does to them.
use fi_rststep.Prelude.{
  ℕ, zero, suc, ◌+◌, ◌*◌, ◌^◌, ◌≤◌, ◌<◌, true, false, ◌||◌, List, [], ◌∷◌, ◌++◌, ◌≡◌, ◌≢◌, refl,
  sym, ◌∙◌, ◌==◌, arith, if◌then◌else◌, length, Bool-cases, inl, inr,
}
use fi_rststep.Pmu.{page_size}
use fi_rststep.Pmu.Chain.{Cell, has, Distinct, Runs, total, has_page}

pub has-append : (p : ℕ) (xs ys : List Cell) → has p (xs ++ ys) ≡ (has p xs || has p ys)
has-append p [] ys = refl
has-append p ((q, a, n) ∷ xs) ys = ground (arith, has-append p xs ys)

pub has_page-append :
    (x : ℕ) (xs ys : List Cell) → has_page x (xs ++ ys) ≡ (has_page x xs || has_page x ys)
has_page-append x [] ys = refl
has_page-append x ((q, a, n) ∷ xs) ys = ground (arith, has_page-append x xs ys)

pub total-append : (xs ys : List Cell) → total (xs ++ ys) ≡ total xs + total ys
total-append [] ys = omega arith
total-append ((q, a, n) ∷ xs) ys = omega (arith, total-append xs ys)

-- the lowest address for a run behind a list
abbrev pub behind : ℕ → List Cell → ℕ
behind low [] = low
behind low ((q, a, n) ∷ cs) = behind (a + n * page_size + page_size) cs

pub Runs-append :
    (low : ℕ) (xs ys : List Cell) → Runs low xs → Runs (behind low xs) ys → Runs low (xs ++ ys)
Runs-append low [] ys r s = s
Runs-append low ((q, a, n) ∷ xs) ys (l, al, pos, fits, r) s =
    (l, al, pos, fits, Runs-append (a + n * page_size + page_size) xs ys r s)

pub Runs-split :
    (low : ℕ) (xs ys : List Cell) → Runs low (xs ++ ys) → Runs low xs × Runs (behind low xs) ys
Runs-split low [] ys r = (tt, r)
Runs-split low ((q, a, n) ∷ xs) ys (l, al, pos, fits, r) =
    let (r', s) = Runs-split (a + n * page_size + page_size) xs ys r in ((l, al, pos, fits, r'), s)

pub behind-append :
    (low : ℕ) (xs ys : List Cell) → behind low (xs ++ ys) ≡ behind (behind low xs) ys
behind-append low [] ys = refl
behind-append low ((q, a, n) ∷ xs) ys = behind-append (a + n * page_size + page_size) xs ys

-- The runs are apart, so there are fewer pages than fit below 4 GiB.
pub total-bound :
    (low : ℕ) (cs : List Cell)
    → Runs low cs
    → low ≤ 2 ^ 32 + page_size
    → total cs * page_size + low ≤ 2 ^ 32 + page_size
total-bound low [] r h = omega arith
total-bound low ((q, a, n) ∷ cs) (l, al, pos, fits, r) h =
    let later = total-bound (a + n * page_size + page_size) cs r (omega arith) in omega arith

-- Whether nodes repeat does not depend on the runs.
pub Distinct-relabel :
    (xs ys : List Cell) (q a n a' n' : ℕ)
    → Distinct (xs ++ ((q, a, n) ∷ ys))
    → Distinct (xs ++ ((q, a', n') ∷ ys))
Distinct-relabel [] ys q a n a' n' d = d
Distinct-relabel ((r, b, m) ∷ xs) ys q a n a' n' (out, d) = (
  ground (arith, has-append r xs ((q, a, n) ∷ ys), has-append r xs ((q, a', n') ∷ ys)),
  Distinct-relabel xs ys q a n a' n' d,
)

pub Distinct-insert :
    (xs ys : List Cell) (q a n : ℕ)
    → Distinct (xs ++ ys)
    → has q (xs ++ ys) ≡ false
    → Distinct (xs ++ ((q, a, n) ∷ ys))
Distinct-insert [] ys q a n d out = (out, d)
Distinct-insert ((r, b, m) ∷ xs) ys q a n (o, d) out = (
  ground (arith, has-append r xs ys, has-append r xs ((q, a, n) ∷ ys)),
  Distinct-insert xs ys q a n d (ground arith),
)

pub Distinct-remove :
    (xs ys : List Cell) (q a n : ℕ)
    → Distinct (xs ++ ((q, a, n) ∷ ys))
    → Distinct (xs ++ ys) × (has q (xs ++ ys) ≡ false)
Distinct-remove [] ys q a n (out, d) = (d, out)
Distinct-remove ((r, b, m) ∷ xs) ys q a n (o, d) =
    let (d', out) = Distinct-remove xs ys q a n d in
    (
      (ground (arith, has-append r xs ys, has-append r xs ((q, a, n) ∷ ys)), d'),
      ground (arith, has-append r xs ((q, a, n) ∷ ys)),
    )

-- the list without the nodes `q`
abbrev without : ℕ → List Cell → List Cell
without q [] = []
without q ((r, a, n) ∷ cs) = if r == q then without q cs else (r, a, n) ∷ without q cs

has-without : (p q : ℕ) (cs : List Cell) → p ≢ q → has p (without q cs) ≡ has p cs
has-without p q [] ne = refl
has-without p q ((r, a, n) ∷ cs) ne = elim (Bool-cases (r == q)) [
  | inl e ↦ rw e (ground (arith, has-without p q cs ne))
  | inr e ↦ rw e (ground (arith, has-without p q cs ne))
]

length-without : (q : ℕ) (cs : List Cell) → length (without q cs) ≤ length cs
length-without q [] = omega arith
length-without q ((r, a, n) ∷ cs) = elim (Bool-cases (r == q)) [
  | inl e ↦ rw e (omega (arith, length-without q cs))
  | inr e ↦ rw e (omega (arith, length-without q cs))
]

length-without_mem : (q : ℕ) (cs : List Cell) → has q cs ≡ true → length (without q cs) < length cs
length-without_mem q [] h = absurd (ground arith)
length-without_mem q ((r, a, n) ∷ cs) h = elim (Bool-cases (r == q)) [
  | inl e ↦ rw e (omega (arith, length-without q cs))
  | inr e ↦
      let h' : has q cs ≡ true = ground arith in rw e (omega (arith, length-without_mem q cs h'))
]

-- Fewer runs than nodes leave a node free.
pub free_slot :
    (n : ℕ) (cs : List Cell) → length cs < n → (i : ℕ) × (i < n) × (has (suc i) cs ≡ false)
free_slot zero cs h = absurd (omega arith)
free_slot (suc n) cs h = elim (Bool-cases (has (suc n) cs)) [
  | inr out ↦ (n, omega arith, out)
  | inl mem ↦
      let less = length-without_mem (suc n) cs mem in
      let (i, low, out) = free_slot n (without (suc n) cs) (omega arith) in
      (i, omega arith, sym (has-without (suc i) (suc n) cs (λ e. omega arith)) ∙ out)
]
