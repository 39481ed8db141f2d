-- ===== src/Pmu/Place.antt =====
-- `place_run` of kernel/pmu.c for one page, on the chain of nodes.
use fi_rststep.Prelude.{
  ℕ, suc, ◌+◌, ◌^◌, ◌<◌, true, false, not, ◌&&◌, List, [], ◌∷◌, ◌++◌, ◌≡◌, ◌⊎◌, refl, sym, subst,
  ◌==◌, arith, length, Bool-cases, inl, inr, append_assoc,
}
use fi_rststep.Prelude.Outcome.{ok, ◌>>=◌}
use fi_rststep.Prelude.Words.{null, u32}
use fi_rststep.Pmu.{
  Pmu, Nodes, page_size, node_count, set_addr, set_count, set_next, fill, alloc_node,
}
use fi_rststep.Pmu.Bitmap.{is_bit_set, set_bit}
use fi_rststep.Pmu.Chain.{Cell, has, Distinct, Chain, Runs}
use fi_rststep.Pmu.Cells.{has-append, free_slot}
use fi_rststep.Pmu.Nodes.{IsNodes, head_node, Chain-head, Chain-split, alloc_node_lem}
use fi_rststep.Pmu.Links.{relabel-IsNodes, Seg-relink, insert-IsNodes, has_test, middle_apart}
use fi_rststep.Pmu.Insert.{place_cell}
use fi_rststep.Pmu.Record.{place_run}

abbrev pub next_node : List Cell → ℕ
next_node [] = null
next_node ((q, a, n) ∷ cs) = head_node cs

-- `pr` is the last node of `xs`, NULL if there is none.
abbrev pub Last : ℕ → List Cell → Type 0
Last pr xs =
    ((pr ≡ null) × (xs ≡ []))
    ⊎ ((pre : List Cell) × (q : ℕ) × (b : ℕ) × (n : ℕ) × (xs ≡ pre ++ ((q, b, n) ∷ [])) × (pr ≡ q))

-- the state when node `k` is filled and linked
abbrev linked : Nodes → ℕ → ℕ → ℕ → Nodes
linked t k a pn = set_next (suc k) pn (fill (suc k) a 1 t)

linked_other : (t : Nodes) (k a pn r : ℕ) → (r == suc k) ≡ false → linked t k a pn r ≡ t r
linked_other t k a pn r h = rw h

-- A chain with fewer runs than nodes leaves a node for one more.
pub alloc_node_free :
    (s : Pmu) (cs : List Cell) (a : ℕ)
    → IsNodes s cs
    → length cs < node_count
    → (k : ℕ) × (k < node_count)
      × (has (suc k) cs ≡ false)
      × (alloc_node a 1 s
          ≡ ok (
            suc k,
            record s { bitmap = set_bit s.bitmap k; node_buf = fill (suc k) a 1 s.node_buf },
          ))
unfolding alloc_node
alloc_node_free s cs a is short =
    let (i, less, out) = free_slot node_count cs short in
    let unused : is_bit_set s.bitmap i ≡ 0 = ground (arith, is.marks i less) in
    let (k, lo, hi, z, e) =
      alloc_node_lem node_count 0 i a 1 s (omega arith) (omega arith) unused in
    (k, omega arith, ground (arith, is.marks k hi), e)

-- the two ways to link the fresh node
module _ (s : Pmu) (k a : ℕ) (ys : List Cell) where
  abbrev at_head : Pmu
  at_head = record s {
    bitmap = set_bit s.bitmap k;
    node_buf = linked s.node_buf k a (head_node ys);
    head = suc k;
  }

  abbrev behind_run : ℕ → Pmu
  behind_run q = record s {
    bitmap = set_bit s.bitmap k;
    node_buf = set_next q (suc k) (linked s.node_buf k a (head_node ys));
  }

  at_head-IsNodes :
      IsNodes s ys → k < node_count → has (suc k) ys ≡ false → IsNodes at_head ((suc k, a, 1) ∷ ys)
  at_head-IsNodes is less out =
      insert-IsNodes s (linked s.node_buf k a (head_node ys)) k (suc k) s.count [] ys a 1 is out
        less refl (ground arith) (ground arith) (ground arith)
        (λ r h. linked_other s.node_buf k a (head_node ys) r (has_test r (suc k) ys h out))

  other :
      (q r : ℕ) → (r == q) ≡ false → (r == suc k) ≡ false → (behind_run q).node_buf r ≡ s.node_buf r
  other q r h h' = rw (h, h')

  behind_run-IsNodes :
      (pre : List Cell) (q b n : ℕ)
      → IsNodes s ((pre ++ ((q, b, n) ∷ [])) ++ ys)
      → k < node_count
      → has (suc k) ((pre ++ ((q, b, n) ∷ [])) ++ ys) ≡ false
      → IsNodes (behind_run q) ((pre ++ ((q, b, n) ∷ [])) ++ ((suc k, a, 1) ∷ ys))
  behind_run-IsNodes pre q b n is less out =
      let d = subst Distinct (append_assoc pre ((q, b, n) ∷ []) ys) is.distinct in
      let (before, behind) = middle_apart pre ys q b n d in
      let apart : (suc k == q) ≡ false = ground (
        arith,
        has-append (suc k) (pre ++ ((q, b, n) ∷ [])) ys,
        has-append (suc k) pre ((q, b, n) ∷ []),
      ) in
      let apart' : (q == suc k) ≡ false = ground arith in
      let free_pre : has (suc k) pre ≡ false = ground (
        arith,
        has-append (suc k) (pre ++ ((q, b, n) ∷ [])) ys,
        has-append (suc k) pre ((q, b, n) ∷ []),
      ) in
      let free_ys : has (suc k) ys ≡ false =
        ground (arith, has-append (suc k) (pre ++ ((q, b, n) ∷ [])) ys) in
      let (seg, rest) = Chain-split s.node_buf s.head (pre ++ ((q, b, n) ∷ [])) ys is.chain in
      insert-IsNodes s (behind_run q).node_buf k s.head s.count (pre ++ ((q, b, n) ∷ [])) ys a 1 is
        out less
        (Seg-relink s.node_buf (behind_run q).node_buf s.head pre q b n (head_node ys) (suc k) seg
          (λ r h. other q r (has_test r q pre h before) (has_test r (suc k) pre h free_pre))
          (rw apart') (rw apart') (ground arith))
        (ground arith) (ground arith) (ground arith)
        (λ r h. other q r (has_test r q ys h behind) (has_test r (suc k) ys h free_ys))

-- Where `p_next` does not take the page, a fresh node does.
place_run_fresh :
    (s : Pmu) (a pr : ℕ) (xs ys : List Cell)
    → IsNodes s (xs ++ ys)
    → Last pr xs
    → length (xs ++ ys) < node_count
    → (not (head_node ys == null) && (u32 (a + page_size) == (s.node_buf (head_node ys)).addr))
      ≡ false
    → (k : ℕ) × (s' : Pmu) × (place_run a 1 pr (head_node ys) s ≡ ok (suc k, head_node ys, s'))
      × IsNodes s' (xs ++ ((suc k, a, 1) ∷ ys))
      × (s'.count ≡ s.count)
unfolding place_run
place_run_fresh s a pr xs ys is last short apart =
    let (k, less, out, e) = alloc_node_free s (xs ++ ys) a is short in link k less out e last
  where
    link :
        (k : ℕ)
        → k < node_count
        → has (suc k) (xs ++ ys) ≡ false
        → (alloc_node a 1 s
            ≡ ok (
              suc k,
              record s { bitmap = set_bit s.bitmap k; node_buf = fill (suc k) a 1 s.node_buf },
            ))
        → Last pr xs
        → (k : ℕ) × (s' : Pmu) × (place_run a 1 pr (head_node ys) s ≡ ok (suc k, head_node ys, s'))
          × IsNodes s' (xs ++ ((suc k, a, 1) ∷ ys))
          × (s'.count ≡ s.count)
    link k less out e (inl (z, nil)) = (
      k,
      at_head s k a ys,
      rw (apart, e, z, ◌>>=◌),
      subst (λ xs. IsNodes (at_head s k a ys) (xs ++ ((suc k, a, 1) ∷ ys))) (sym nil)
          (at_head-IsNodes s k a ys (subst (λ xs. IsNodes s (xs ++ ys)) nil is) less
            (subst (λ xs. has (suc k) (xs ++ ys) ≡ false) nil out)),
      refl,
    )
    link k less out e (inr (pre, q, b, n, snoc, z)) =
        let is' = subst (λ xs. IsNodes s (xs ++ ys)) snoc is in
        let out' = subst (λ xs. has (suc k) (xs ++ ys) ≡ false) snoc out in
        let chain =
          subst (Chain s.node_buf s.head) (append_assoc pre ((q, b, n) ∷ []) ys) is'.chain in
        let (seg, (same, lo, hi, ea, en, rest)) =
          Chain-split s.node_buf s.head pre ((q, b, n) ∷ ys) chain in
        let linked_to : (q == null) ≡ false = ground arith in
        (
          k,
          behind_run s k a ys q,
          rw (apart, e, z, ◌>>=◌) (rw linked_to),
          subst (λ xs. IsNodes (behind_run s k a ys q) (xs ++ ((suc k, a, 1) ∷ ys))) (sym snoc)
              (behind_run-IsNodes s k a ys pre q b n is' less out'),
          refl,
        )

-- In front of the runs `ys`, the page is put in as `place_cell` puts it.
pub place_run-place_cell :
    (s : Pmu) (a pr : ℕ) (xs ys : List Cell)
    → IsNodes s (xs ++ ys)
    → Last pr xs
    → length (xs ++ ys) < node_count
    → Runs 0 ys
    → a + page_size < 2 ^ 32
    → (p : ℕ) × (s' : Pmu) × (place_run a 1 pr (head_node ys) s
        ≡ ok (head_node (place_cell p a ys), next_node (place_cell p a ys), s'))
      × IsNodes s' (xs ++ place_cell p a ys)
      × (s'.count ≡ s.count)
unfolding place_cell place_run
place_run-place_cell s a pr xs [] is last short r fits =
    let (k, s', e, is', c) = place_run_fresh s a pr xs [] is last short refl in
    (suc k, s', e, is', c)
place_run-place_cell s a pr xs ((q, b, n) ∷ ys) is last short (l, al, pos, fits', r) fits =
    let (seg, (same, lo, hi, ea, en, rest)) =
      Chain-split s.node_buf s.head xs ((q, b, n) ∷ ys) is.chain in
    let linked_to : (q == null) ≡ false = ground arith in
    let next : u32 (a + page_size) ≡ a + page_size = omega arith in
    elim (Bool-cases (a + page_size == b)) [
      | inl e ↦
          let u = set_count q (u32 ((s.node_buf q).count + 1)) (set_addr q a s.node_buf) in
          let behind : (s.node_buf q).next ≡ head_node ys =
            Chain-head s.node_buf (s.node_buf q).next ys rest in
          let test : (u32 (a + page_size) == (s.node_buf q).addr) ≡ true = rw (next, ea) e in
          rw e (
            q,
            record s { node_buf = u },
            rw (linked_to, test, behind),
            relabel-IsNodes s u xs ys q b n a (suc n) is (ground arith) (ground arith) refl
                (λ r h. rw h),
            refl,
          )
      | inr e ↦
          let test : (u32 (a + page_size) == (s.node_buf q).addr) ≡ false = rw (next, ea) e in
          let (k, s', e', is', c) =
            place_run_fresh s a pr xs ((q, b, n) ∷ ys) is last short (rw (linked_to, test)) in
          rw e (suc k, s', e', is', c)
    ]
