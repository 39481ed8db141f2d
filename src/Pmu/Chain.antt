-- ===== src/Pmu/Chain.antt =====
-- What the page manager's state stands for: a list of runs of free pages, each with its node.
use fi_rststep.Prelude.{
  ℕ, suc, ◌+◌, ◌*◌, ◌%◌, ◌^◌, ◌≤◌, ◌<◌, Bool, true, false, ◌&&◌, ◌||◌, List, [], ◌∷◌, ◌≡◌, refl,
  ◌==◌, leb, ltb, arith, if◌then◌else◌,
}
use fi_rststep.Prelude.Words.{null}
use fi_rststep.Pmu.{Pmu, Nodes, page_size, node_count}
use fi_rststep.Pmu.Bitmap.{is_bit_set}
use fi_rststep.Pmu.Bitmap.Laws.{IsBytes}

-- a node, the address of its first page and the number of its pages
abbrev pub Cell : Type 0
Cell = ℕ × ℕ × ℕ

abbrev pub has : ℕ → List Cell → Bool
has p [] = false
has p ((q, a, n) ∷ cs) = (p == q) || has p cs

abbrev pub Distinct : List Cell → Type 0
Distinct [] = Unit
Distinct ((q, a, n) ∷ cs) = (has q cs ≡ false) × Distinct cs

abbrev pub Chain : Nodes → ℕ → List Cell → Type 0
Chain t p [] = p ≡ null
Chain t p ((q, a, n) ∷ cs) =
    (p ≡ q)
    × (1 ≤ q)
    × (q ≤ node_count)
    × ((t q).addr ≡ a)
    × ((t q).count ≡ n)
    × Chain t (t q).next cs

-- From `low` on: page-aligned runs in order, with a gap between any two, below 4 GiB.
abbrev pub Runs : ℕ → List Cell → Type 0
Runs low [] = Unit
Runs low ((q, a, n) ∷ cs) =
    (low ≤ a)
    × (a % page_size ≡ 0)
    × (1 ≤ n)
    × (a + n * page_size < 2 ^ 32)
    × Runs (a + n * page_size + page_size) cs

abbrev pub total : List Cell → ℕ
total [] = 0
total ((q, a, n) ∷ cs) = n + total cs

-- Whether the page at `x` is free.
abbrev pub has_page : ℕ → List Cell → Bool
has_page x [] = false
has_page x ((q, a, n) ∷ cs) =
    (leb a x && (ltb x (a + n * page_size) && (x % page_size == 0))) || has_page x cs

pub record IsPmu (s : Pmu) (cells : List Cell) : Type 0 where
  pub chain : Chain s.node_buf s.head cells
  pub distinct : Distinct cells
  pub marks :
      (i : ℕ) → i < node_count → is_bit_set s.bitmap i ≡ (if has (suc i) cells then 1 else 0)
  pub bytes : IsBytes s.bitmap
  pub runs : Runs page_size cells
  pub counted : s.count ≡ total cells
  pub small : total cells < 2 ^ 32

-- Nodes that agree on a chain's cells carry the same chain.
pub Chain-frame :
    (t u : Nodes) (p : ℕ) (cs : List Cell)
    → ((q : ℕ) → has q cs ≡ true → u q ≡ t q)
    → Chain t p cs
    → Chain u p cs
Chain-frame t u p [] same c = c
Chain-frame t u p ((q, a, n) ∷ cs) same (e, lo, hi, ea, en, rest) =
    let here : u q ≡ t q = same q (ground arith) in
    rw here (e, lo, hi, ea, en, Chain-frame t u (t q).next cs (λ r h. same r (ground arith)) rest)

pub Runs-weaken : (low low' : ℕ) (cs : List Cell) → low' ≤ low → Runs low cs → Runs low' cs
Runs-weaken low low' [] h r = tt
Runs-weaken low low' ((q, a, n) ∷ cs) h (l, al, pos, fits, rest) =
    (omega arith, al, pos, fits, rest)

-- No page below the first run is free.
pub has_page-below : (x low : ℕ) (cs : List Cell) → Runs low cs → x < low → has_page x cs ≡ false
has_page-below x low [] r h = refl
has_page-below x low ((q, a, n) ∷ cs) (l, al, pos, fits, rest) h =
    ground (arith, has_page-below x (a + n * page_size + page_size) cs rest)
