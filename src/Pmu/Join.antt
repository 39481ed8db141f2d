-- ===== src/Pmu/Join.antt =====
-- `join_previous` of kernel/pmu.c, on the chain of nodes.
use fi_rststep.Prelude.{
  ℕ, ◌+◌, ◌-◌, ◌*◌, ◌^◌, ◌<◌, false, List, ◌∷◌, ◌++◌, ◌≡◌, refl, subst, ◌==◌, arith, Bool-cases,
  inl, inr,
}
use fi_rststep.Prelude.Outcome.{ok, ◌>>=◌}
use fi_rststep.Prelude.Words.{null, u32}
use fi_rststep.Pmu.{Pmu, page_size, set_count, set_next, fill}
use fi_rststep.Pmu.Bitmap.{clear_bit}
use fi_rststep.Pmu.Chain.{Cell}
use fi_rststep.Pmu.Nodes.{IsNodes, head_node, Chain-split}
use fi_rststep.Pmu.Links.{remove-IsNodes, middle_apart}
use fi_rststep.Pmu.Insert.{join_cell}
use fi_rststep.Pmu.Record.{join_previous, run_end}
use fi_rststep.Pmu.Alloc.{free_node_lem}
use fi_rststep.Pmu.Place.{next_node}

-- The run in front takes the page in, and its node is free again, as `join_cell` says.
pub join_previous-join_cell :
    (s : Pmu) (pre : List Cell) (q b n : ℕ) (cs : List Cell) (p a m : ℕ) (ys : List Cell)
    → cs ≡ (p, a, m) ∷ ys
    → IsNodes s (pre ++ ((q, b, n) ∷ cs))
    → b + n * page_size < 2 ^ 32
    → n + m < 2 ^ 32
    → (s' : Pmu) × (join_previous a q (head_node cs) (next_node cs) s ≡ ok s')
      × IsNodes s' (pre ++ join_cell q b n cs)
      × (s'.count ≡ s.count)
unfolding join_previous join_cell
join_previous-join_cell s pre q b n cs p a m ys shape is₀ fits small =
    let is = subst (λ cs. IsNodes s (pre ++ ((q, b, n) ∷ cs))) shape is₀ in
    let (seg, (same, lo, hi, ea, en, (e₂, lo₂, hi₂, ea₂, en₂, rest))) =
      Chain-split s.node_buf s.head pre ((q, b, n) ∷ (p, a, m) ∷ ys) is.chain in
    let (before, behind) = middle_apart pre ((p, a, m) ∷ ys) q b n is.distinct in
    let linked_to : (q == null) ≡ false = ground arith in
    let end : run_end s.node_buf q ≡ b + n * page_size = rw (ea, en) (omega arith) in
    elim (Bool-cases (b + n * page_size == a)) [
      | inl e ↦
          let u = set_count q (u32 ((s.node_buf q).count + (s.node_buf p).count)) s.node_buf in
          let w = set_next q (head_node ys) (fill p 0 0 u) in
          let apart : (q == p) ≡ false = ground arith in
          rw shape (
            rw e (
              record s { node_buf = w; bitmap = clear_bit s.bitmap (p - 1) },
              rw (linked_to, end, e, free_node_lem p (record s { node_buf = u }) lo₂ hi₂, ◌>>=◌),
              remove-IsNodes s w pre ys q b n (n + m) p a m is (rw apart ea)
                  (rw apart (ground arith)) (ground arith) (λ r h h'. rw (h, h')),
              refl,
            ))
      | inr e ↦ rw shape (rw e (s, rw (linked_to, end, e), is, refl))
    ]
