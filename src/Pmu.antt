-- ===== src/Pmu.antt =====
-- kernel/pmu.c: the free pages as a sorted chain of runs, in nodes from a buffer of 1024 with a bitmap
-- of those in use. A node pointer is 0 for NULL and i + 1 for `&node_buf[i]`.
pub mod Bitmap
pub mod Record
pub mod Chain
pub mod Cells
pub mod Nodes
pub mod Links
pub mod Insert
pub mod Place
pub mod Join
pub mod Merge
pub mod Free
pub mod Twice
pub mod Init
pub mod Alloc
use fi_rststep.Prelude.{
  ℕ, zero, suc, ◌+◌, ◌-◌, ◌<◌, Bool, true, false, not, ◌&&◌, ◌==◌, ltb, leb, if◌then◌else◌,
}
use fi_rststep.Prelude.Outcome.{Outcome, ok, panic, ◌>>=◌, ◌>>◌, assert}
use fi_rststep.Prelude.Words.{null, u32, sub32}
use fi_rststep.Pmu.Bitmap.{Bytes, is_bit_set, set_bit, clear_bit}

-- `PAGE_SIZE`
abbrev pub page_size : ℕ
page_size = 4096

abbrev pub node_count : ℕ
node_count = 1024

-- `struct page_node`
pub record PageNode : Type 0 where
  pub addr : ℕ
  pub count : ℕ
  pub next : ℕ

abbrev pub Nodes : Type 0
Nodes = ℕ → PageNode

-- A write of one field of one node, and of a whole node.
abbrev pub set_addr : ℕ → ℕ → Nodes → Nodes
set_addr p v t q = record (t q) { addr = if q == p then v else (t q).addr }

abbrev pub set_count : ℕ → ℕ → Nodes → Nodes
set_count p v t q = record (t q) { count = if q == p then v else (t q).count }

abbrev pub set_next : ℕ → ℕ → Nodes → Nodes
set_next p v t q = record (t q) { next = if q == p then v else (t q).next }

abbrev pub fill : ℕ → ℕ → ℕ → Nodes → Nodes
fill p addr count t = set_next p null (set_count p count (set_addr p addr t))

-- the statics of pmu.c
pub record Pmu : Type 0 where
  pub node_buf : Nodes
  pub bitmap : Bytes
  pub count : ℕ
  pub head : ℕ

-- `for (i = 0; i < NODE_COUNT; i++)` with `left` rounds to go
unfoldable pub alloc_node_loop : ℕ → ℕ → ℕ → ℕ → Pmu → Outcome (ℕ × Pmu)
alloc_node_loop zero i addr count s = panic
alloc_node_loop (suc left) i addr count s =
    let rest = alloc_node_loop left (i + 1) addr count s in
    if is_bit_set s.bitmap i == 0
    then ok (
      suc i,
      record s { bitmap = set_bit s.bitmap i; node_buf = fill (suc i) addr count s.node_buf },
    )
    else rest

unfoldable pub alloc_node : ℕ → ℕ → Pmu → Outcome (ℕ × Pmu)
alloc_node addr count s = alloc_node_loop node_count 0 addr count s

unfoldable pub free_node : ℕ → Pmu → Outcome Pmu
free_node node s = do
  assert (leb 1 node)
  assert (leb node node_count)
  ok (record s { bitmap = clear_bit s.bitmap (node - 1); node_buf = fill node 0 0 s.node_buf })

-- `if (pmu.head->count == 0)`: an empty first node is taken out.
unfoldable pub drop_empty_head : Pmu → Outcome Pmu
drop_empty_head s =
    if (s.node_buf s.head).count == 0
    then (do
      let next = (s.node_buf s.head).next
      s' ← free_node s.head s
      ok (record s' { head = next }))
    else ok s

-- the page's address with the new state
unfoldable pub pmu_alloc : Pmu → Outcome (ℕ × Pmu)
pmu_alloc s = if s.count == 0 then panic else do
  assert (not (s.head == null))
  let addr = (s.node_buf s.head).addr
  let nodes = set_addr s.head (u32 (addr + page_size)) s.node_buf
  let count = sub32 (nodes s.head).count 1
  s' ←
      drop_empty_head
        (record s { node_buf = set_count s.head count nodes; count = sub32 s.count 1 })
  ok (addr, s')
