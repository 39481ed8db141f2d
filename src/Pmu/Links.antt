-- ===== src/Pmu/Links.antt =====
-- What the writes of `pmu_add_record` in kernel/pmu.c make of a chain of nodes.
use fi_rststep.Prelude.{
  ℕ, suc, ◌-◌, ◌<◌, true, false, List, [], ◌∷◌, ◌++◌, ◌≡◌, refl, sym, subst, ◌∙◌, ◌==◌, arith,
}
use fi_rststep.Pmu.{Pmu, Nodes, node_count}
use fi_rststep.Pmu.Bitmap.{set_bit, clear_bit}
use fi_rststep.Pmu.Bitmap.Laws.{is_bit_set-set_bit, is_bit_set-clear_bit}
use fi_rststep.Pmu.Chain.{Cell, has, Distinct, Chain, Chain-frame}
use fi_rststep.Pmu.Cells.{has-append, Distinct-relabel, Distinct-insert, Distinct-remove}
use fi_rststep.Pmu.Nodes.{
  IsNodes, head_node, Seg, Chain-head, Chain-split, Chain-join, Seg-frame, has_ne,
}

pub has_test : (r q : ℕ) (cs : List Cell) → has r cs ≡ true → has q cs ≡ false → (r == q) ≡ false
has_test r q cs h k = let ne = has_ne r q cs h k in ground arith

-- the node in the middle of a list stands neither before nor behind
pub middle_apart :
    (xs ys : List Cell) (q b n : ℕ)
    → Distinct (xs ++ ((q, b, n) ∷ ys))
    → (has q xs ≡ false) × (has q ys ≡ false)
middle_apart xs ys q b n d =
    let (d', out) = Distinct-remove xs ys q b n d in
    (ground (arith, has-append q xs ys), ground (arith, has-append q xs ys))

-- A node's address and count change in place.
pub relabel-IsNodes :
    (s : Pmu) (u : Nodes) (xs ys : List Cell) (q b n b' n' : ℕ)
    → IsNodes s (xs ++ ((q, b, n) ∷ ys))
    → ((u q).addr ≡ b')
    → ((u q).count ≡ n')
    → ((u q).next ≡ (s.node_buf q).next)
    → ((r : ℕ) → (r == q) ≡ false → u r ≡ s.node_buf r)
    → IsNodes (record s { node_buf = u }) (xs ++ ((q, b', n') ∷ ys))
relabel-IsNodes s u xs ys q b n b' n' is ea' en' ex same =
    let (seg, (e, lo, hi, ea, en, rest)) =
      Chain-split s.node_buf s.head xs ((q, b, n) ∷ ys) is.chain in
    let (before, behind) = middle_apart xs ys q b n is.distinct in
    let rest' =
      Chain-frame s.node_buf u (s.node_buf q).next ys (λ r h. same r (has_test r q ys h behind))
        rest in
    record {
      chain =
          Chain-join u s.head q xs ((q, b', n') ∷ ys)
            (Seg-frame s.node_buf u s.head xs q (λ r h. same r (has_test r q xs h before)) seg)
            (refl, lo, hi, ea', en', subst (λ z. Chain u z ys) (sym ex) rest');
      distinct = Distinct-relabel xs ys q b n b' n' is.distinct;
      marks = λ i h. ground (
        arith,
        is.marks i h,
        has-append (suc i) xs ((q, b, n) ∷ ys),
        has-append (suc i) xs ((q, b', n') ∷ ys),
      );
      bytes = is.bytes;
    }

-- The last node of a stretch is linked to another one.
pub Seg-relink :
    (t u : Nodes) (h : ℕ) (xs : List Cell) (q b n z p : ℕ)
    → Seg t h (xs ++ ((q, b, n) ∷ [])) z
    → ((r : ℕ) → has r xs ≡ true → u r ≡ t r)
    → ((u q).addr ≡ (t q).addr)
    → ((u q).count ≡ (t q).count)
    → ((u q).next ≡ p)
    → Seg u h (xs ++ ((q, b, n) ∷ [])) p
Seg-relink t u h [] q b n z p (e, lo, hi, ea, en, rest) same ea' en' ex =
    (e, lo, hi, ea' ∙ ea, en' ∙ en, ex)
Seg-relink t u h ((r, c, m) ∷ xs) q b n z p (e, lo, hi, ea, en, rest) same ea' en' ex =
    let here : u r ≡ t r = same r (ground arith) in
    rw here (
      e,
      lo,
      hi,
      ea,
      en,
      Seg-relink t u (t r).next xs q b n z p rest (λ p h. same p (ground arith)) ea' en' ex,
    )

-- A free node comes in between two stretches.
pub insert-IsNodes :
    (s : Pmu) (u : Nodes) (k h count : ℕ) (xs ys : List Cell) (a m : ℕ)
    → IsNodes s (xs ++ ys)
    → has (suc k) (xs ++ ys) ≡ false
    → k < node_count
    → Seg u h xs (suc k)
    → ((u (suc k)).addr ≡ a)
    → ((u (suc k)).count ≡ m)
    → ((u (suc k)).next ≡ head_node ys)
    → ((r : ℕ) → has r ys ≡ true → u r ≡ s.node_buf r)
    → IsNodes
        (record s { node_buf = u; bitmap = set_bit s.bitmap k; count = count; head = h })
        (xs ++ ((suc k, a, m) ∷ ys))
insert-IsNodes s u k h count xs ys a m is out less seg ea en ex same =
    let (old, rest) = Chain-split s.node_buf s.head xs ys is.chain in
    let rest' = Chain-frame s.node_buf u (head_node ys) ys same rest in
    record {
      chain =
          Chain-join u h (suc k) xs ((suc k, a, m) ∷ ys) seg
            (refl, omega arith, omega arith, ea, en, subst (λ z. Chain u z ys) (sym ex) rest');
      distinct = Distinct-insert xs ys (suc k) a m is.distinct out;
      marks = λ i h. ground (
        arith,
        is.marks i h,
        is_bit_set-set_bit s.bitmap k i is.bytes,
        has-append (suc i) xs ys,
        has-append (suc i) xs ((suc k, a, m) ∷ ys),
      );
      bytes = (is_bit_set-set_bit s.bitmap k 0 is.bytes).1;
    }

-- The node behind `q` goes out.
pub remove-IsNodes :
    (s : Pmu) (u : Nodes) (xs ys : List Cell) (q b n n' p a m : ℕ)
    → IsNodes s (xs ++ ((q, b, n) ∷ (p, a, m) ∷ ys))
    → ((u q).addr ≡ b)
    → ((u q).count ≡ n')
    → ((u q).next ≡ head_node ys)
    → ((r : ℕ) → (r == q) ≡ false → (r == p) ≡ false → u r ≡ s.node_buf r)
    → IsNodes
        (record s { node_buf = u; bitmap = clear_bit s.bitmap (p - 1) })
        (xs ++ ((q, b, n') ∷ ys))
remove-IsNodes s u xs ys q b n n' p a m is ea' en' ex same =
    let (seg, (e, lo, hi, ea, en, (e₂, lo₂, hi₂, ea₂, en₂, rest))) =
      Chain-split s.node_buf s.head xs ((q, b, n) ∷ (p, a, m) ∷ ys) is.chain in
    let (before, behind) = middle_apart xs ((p, a, m) ∷ ys) q b n is.distinct in
    let (d, out) = Distinct-remove xs ((p, a, m) ∷ ys) q b n is.distinct in
    let (d₂, out₂) = Distinct-remove xs ys p a m d in
    let (before₂, behind₂) = middle_apart xs ys p a m d in
    let linked = Chain-head s.node_buf (s.node_buf p).next ys rest in
    let rest' =
      Chain-frame s.node_buf u (s.node_buf p).next ys
        (λ r h. same r (has_test r q ys h (ground arith)) (has_test r p ys h behind₂)) rest in
    record {
      chain =
          Chain-join u s.head q xs ((q, b, n') ∷ ys)
            (Seg-frame s.node_buf u s.head xs q
              (λ r h. same r (has_test r q xs h before) (has_test r p xs h before₂)) seg)
            (refl, lo, hi, ea', en', subst (λ z. Chain u z ys) (linked ∙ sym ex) rest');
      distinct = Distinct-insert xs ys q b n' d₂ (ground (arith, has-append q xs ys));
      marks = λ i h. ground (
        arith,
        is.marks i h,
        is_bit_set-clear_bit s.bitmap (p - 1) i is.bytes,
        has-append (suc i) xs ys,
        has-append (suc i) xs ((q, b, n) ∷ (p, a, m) ∷ ys),
        has-append (suc i) xs ((q, b, n') ∷ ys),
      );
      bytes = (is_bit_set-clear_bit s.bitmap (p - 1) 0 is.bytes).1;
    }
