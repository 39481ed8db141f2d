-- ===== src/Pmu/Nodes.antt =====
-- The chain of nodes of kernel/pmu.c under the writes of `pmu_add_record`.
use fi_rststep.Prelude.{
  ℕ, zero, suc, ◌+◌, ◌≤◌, ◌<◌, true, false, List, [], ◌∷◌, ◌++◌, ◌≡◌, ◌≢◌, ◌⊎◌, refl, sym, ap,
  subst, ◌==◌, ltb, arith, if◌then◌else◌, length, Bool-cases, inl, inr, ℕ_discrete, ==_iff,
}
use fi_rststep.Prelude.Outcome.{Outcome, ok}
use fi_rststep.Prelude.Words.{null}
use fi_rststep.Pmu.{Pmu, Nodes, node_count, fill, alloc_node_loop}
use fi_rststep.Pmu.Bitmap.{is_bit_set, set_bit}
use fi_rststep.Pmu.Bitmap.Laws.{IsBytes}
use fi_rststep.Pmu.Chain.{Cell, has, Distinct, Chain}
use fi_rststep.Pmu.Cells.{has-append}
use fi_rststep.Pmu.Record.{find_place}

-- The nodes of a list are linked in order, and these and no others are marked.
pub record IsNodes (s : Pmu) (cells : List Cell) : Type 0 where
  pub chain : Chain s.node_buf s.head cells
  pub distinct : Distinct cells
  pub marks :
      (i : ℕ) → i < node_count → is_bit_set s.bitmap i ≡ (if has (suc i) cells then 1 else 0)
  pub bytes : IsBytes s.bitmap

abbrev pub head_node : List Cell → ℕ
head_node [] = null
head_node ((q, a, n) ∷ cs) = q

pub Chain-head : (t : Nodes) (h : ℕ) (cs : List Cell) → Chain t h cs → h ≡ head_node cs
Chain-head t h [] c = c
Chain-head t h ((q, a, n) ∷ cs) (e, lo, hi, ea, en, rest) = e

-- a chain that ends at `q`
abbrev pub Seg : Nodes → ℕ → List Cell → ℕ → Type 0
Seg t h [] q = h ≡ q
Seg t h ((r, b, n) ∷ cs) q =
    (h ≡ r)
    × (1 ≤ r)
    × (r ≤ node_count)
    × ((t r).addr ≡ b)
    × ((t r).count ≡ n)
    × Seg t (t r).next cs q

pub Chain-split :
    (t : Nodes) (h : ℕ) (xs ys : List Cell)
    → Chain t h (xs ++ ys)
    → Seg t h xs (head_node ys) × Chain t (head_node ys) ys
Chain-split t h [] ys c = let e = Chain-head t h ys c in (e, subst (λ z. Chain t z ys) e c)
Chain-split t h ((r, b, n) ∷ xs) ys (e, lo, hi, ea, en, rest) =
    let (s, c) = Chain-split t (t r).next xs ys rest in ((e, lo, hi, ea, en, s), c)

pub Chain-join :
    (t : Nodes) (h q : ℕ) (xs ys : List Cell) → Seg t h xs q → Chain t q ys → Chain t h (xs ++ ys)
Chain-join t h q [] ys e c = subst (λ z. Chain t z ys) (sym e) c
Chain-join t h q ((r, b, n) ∷ xs) ys (e, lo, hi, ea, en, s) c =
    (e, lo, hi, ea, en, Chain-join t (t r).next q xs ys s c)

pub Seg-frame :
    (t u : Nodes) (h : ℕ) (cs : List Cell) (q : ℕ)
    → ((r : ℕ) → has r cs ≡ true → u r ≡ t r)
    → Seg t h cs q
    → Seg u h cs q
Seg-frame t u h [] q same s = s
Seg-frame t u h ((r, b, n) ∷ cs) q same (e, lo, hi, ea, en, rest) =
    let here : u r ≡ t r = same r (ground arith) in
    rw here (e, lo, hi, ea, en, Seg-frame t u (t r).next cs q (λ p h. same p (ground arith)) rest)

pub Distinct-apart :
    (r : ℕ) (xs ys : List Cell) → Distinct (xs ++ ys) → has r xs ≡ true → has r ys ≡ false
Distinct-apart r [] ys d h = absurd (ground arith)
Distinct-apart r ((q, a, n) ∷ xs) ys (out, d) h = elim (ℕ_discrete r q) [
  | yes e ↦ subst (λ z. has z ys ≡ false) (sym e) (ground (arith, has-append q xs ys))
  | no ne ↦ Distinct-apart r xs ys d (ground arith)
]

pub has_ne : (r q : ℕ) (cs : List Cell) → has r cs ≡ true → has q cs ≡ false → r ≢ q
has_ne r q cs h k e = let h' : has q cs ≡ true = subst (λ z. has z cs ≡ true) e h in cc

-- The first node that is free is taken.
pub alloc_node_lem :
    (left i j addr count : ℕ) (s : Pmu)
    → i ≤ j
    → j < i + left
    → is_bit_set s.bitmap j ≡ 0
    → (k : ℕ) × (i ≤ k)
      × (k < i + left)
      × (is_bit_set s.bitmap k ≡ 0)
      × (alloc_node_loop left i addr count s
          ≡ ok (
            suc k,
            record s { bitmap = set_bit s.bitmap k; node_buf = fill (suc k) addr count s.node_buf },
          ))
unfolding alloc_node_loop
alloc_node_lem zero i j addr count s lo hi free = absurd (omega arith)
alloc_node_lem (suc left) i j addr count s lo hi free =
    elim (Bool-cases (is_bit_set s.bitmap i == 0)) [
      | inl here ↦
          (i, omega arith, omega arith, (==_iff (is_bit_set s.bitmap i) 0).0 here, rw here refl)
      | inr taken ↦
          let later : i ≢ j = λ e. absurd (
            bit_taken (is_bit_set s.bitmap i) taken
              (subst (λ z. is_bit_set s.bitmap z ≡ 0) (sym e) free)) in
          let (k, lo', hi', free', e) =
            alloc_node_lem left (i + 1) j addr count s (omega arith) (omega arith) free in
          (k, omega arith, omega arith, free', rw taken e)
    ]
  where
    bit_taken : (b : ℕ) → (b == 0) ≡ false → b ≡ 0 → ⊥
    bit_taken b h e = ground arith

-- where a page belongs in a chain
abbrev pub FromOn : ℕ → List Cell → Type 0
FromOn a [] = Unit
FromOn a ((q, b, n) ∷ cs) = a ≤ b

-- The search stops in front of the whole chain, or behind a run below the page.
abbrev pub Place : Outcome (ℕ × ℕ) → ℕ → ℕ → List Cell → Type 0
Place result a pr cs =
    (FromOn a cs × (result ≡ ok (pr, head_node cs)))
    ⊎ ((pre : List Cell) × (q : ℕ) × (b : ℕ) × (n : ℕ) × (post : List Cell) × (cs
          ≡ pre ++ ((q, b, n) ∷ post))
        × (b < a)
        × FromOn a post
        × (result ≡ ok (q, head_node post)))

pub find_place-Place :
    (fuel a pr p : ℕ) (t : Nodes) (cs : List Cell)
    → Chain t p cs
    → length cs < fuel
    → Place (find_place fuel a pr p t) a pr cs
unfolding find_place
find_place-Place zero a pr p t cs c short = absurd (omega arith)
find_place-Place (suc fuel) a pr p t [] c short = inl (tt, rw c refl)
find_place-Place (suc fuel) a pr p t ((q, b, n) ∷ cs) (e, lo, hi, ea, en, rest) short =
    let z : (q == null) ≡ false = ground arith in
    elim (Bool-cases (ltb b a)) [
      | inr stop ↦ inl (ground arith, rw e (rw (z, ea, stop) refl))
      | inl below ↦
          let later = find_place-Place fuel a q (t q).next t cs rest (omega arith) in
          rw e (rw (z, ea, below) (further (ground arith) later))
    ]
  where
    further : {r : Outcome (ℕ × ℕ)} → b < a → Place r a q cs → Place r a pr ((q, b, n) ∷ cs)
    further lt (inl (fo, e)) = inr ([], q, b, n, cs, refl, lt, fo, e)
    further lt (inr (pre, r, b', m, post, e, lt', fo, eq)) =
        inr ((q, b, n) ∷ pre, r, b', m, post, ap (λ z. (q, b, n) ∷ z) e, lt', fo, eq)
