-- ===== src/Pmu/Record.antt =====
-- kernel/pmu.c: how a run of free pages is recorded, and the manager's start.
use fi_rststep.Prelude.{
  ℕ, zero, suc, ◌+◌, ◌*◌, not, ◌&&◌, ◌||◌, ◌==◌, ltb, leb, bit_and, if◌then◌else◌,
}
use fi_rststep.Prelude.Outcome.{Outcome, ok, endless, ◌>>=◌, ◌>>◌, assert}
use fi_rststep.Prelude.Words.{null, u32}
use fi_rststep.Pmu.{
  Pmu, Nodes, page_size, node_count, set_addr, set_count, set_next, alloc_node, free_node,
}

-- the first address behind a node's run
abbrev pub run_end : Nodes → ℕ → ℕ
run_end t p = u32 ((t p).addr + (t p).count * page_size)

-- `while (p_next != NULL && addr > p_next->addr)`: the nodes before and behind the place
unfoldable pub find_place : ℕ → ℕ → ℕ → ℕ → Nodes → Outcome (ℕ × ℕ)
find_place zero addr p_pre p_next t = endless
find_place (suc fuel) addr p_pre p_next t =
    let rest = find_place fuel addr p_next (t p_next).next t in
    if not (p_next == null) && ltb (t p_next).addr addr then rest else ok (p_pre, p_next)

-- The run joins the node behind it, or gets a node of its own; then the node that holds it and the
-- one behind that.
unfoldable pub place_run : ℕ → ℕ → ℕ → ℕ → Pmu → Outcome (ℕ × ℕ × Pmu)
place_run addr count p_pre p_next s =
    if not (p_next == null) && (u32 (addr + page_size) == (s.node_buf p_next).addr)
    then ok (
      p_next,
      (s.node_buf p_next).next,
      record s {
        node_buf =
            set_count p_next (u32 ((s.node_buf p_next).count + count))
              (set_addr p_next addr s.node_buf);
      },
    )
    else (do
      (p, s') ← alloc_node addr count s
      let linked = set_next p p_next s'.node_buf
      ok (
        p,
        p_next,
        if p_pre == null
            then record s' { node_buf = linked; head = p }
            else record s' { node_buf = set_next p_pre p linked },
      ))

-- The node joins the one before it.
unfoldable pub join_previous : ℕ → ℕ → ℕ → ℕ → Pmu → Outcome Pmu
join_previous addr p_pre p p_next s =
    if not (p_pre == null) && (run_end s.node_buf p_pre == addr)
    then (do
      let total = u32 ((s.node_buf p_pre).count + (s.node_buf p).count)
      s' ← free_node p (record s { node_buf = set_count p_pre total s.node_buf })
      ok (record s' { node_buf = set_next p_pre p_next s'.node_buf }))
    else ok s

unfoldable pub pmu_add_record : ℕ → ℕ → Pmu → Outcome Pmu
pmu_add_record addr count s₀ = do
  assert (not (count == 0))
  assert (not (addr == 0))
  assert (bit_and addr 0xFFF == 0)
  let s : Pmu = record s₀ { count = u32 (s₀.count + count) }
  if s.head == null then (do (p, s') ← alloc_node addr count s; ok (record s' { head = p })) else do
    (p_pre, p_next) ← find_place (suc node_count) addr null s.head s.node_buf
    assert ((p_pre == null) || leb (run_end s.node_buf p_pre) addr)
    assert ((p_next == null) || leb (u32 (addr + count * page_size)) (s.node_buf p_next).addr)
    (p, p_next', s') ← place_run addr count p_pre p_next s
    join_previous addr p_pre p p_next' s'

unfoldable pub pmu_free : ℕ → Pmu → Outcome Pmu
pmu_free addr s = if addr == 0 then ok s else pmu_add_record addr 1 s

-- `while (pmu.head != NULL)` of `pmu_init`
unfoldable pub free_all : ℕ → Pmu → Outcome Pmu
free_all zero s = endless
free_all (suc fuel) s = if s.head == null then ok s else do
  let next = (s.node_buf s.head).next
  s' ← free_node s.head s
  free_all fuel (record s' { head = next })

unfoldable pub pmu_init : ℕ → ℕ → Pmu → Outcome Pmu
pmu_init addr count s = do
  s' ← free_all (suc node_count) (record s { count = 0 })
  pmu_add_record addr count (record s' { bitmap = λ i. 0 })
