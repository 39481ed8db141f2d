-- ===== src/Paging.antt =====
-- kernel/mem.c and inc/kernel/page.h: page directories and page tables, 32-bit words in physical
-- memory. The kernel reaches a physical address by a mapping of it onto itself; addresses here are
-- physical ones throughout.
pub mod Copy
pub mod Start
pub mod Words
pub mod Walk
pub mod Table
pub mod Map
pub mod FirstFit
pub mod Create
use fi_rststep.Prelude.{
  ℕ, zero, suc, ◌+◌, ◌-◌, ◌*◌, ◌/◌, ◌%◌, ◌^◌, Bool, not, ◌==◌, ltb, leb, if◌then◌else◌,
}
use fi_rststep.Prelude.Outcome.{Outcome, ok, panic, ◌>>=◌, ◌>>◌, assert}
use fi_rststep.Prelude.Words.{null, ◌>>>◌}
use fi_rststep.Str.{Memory, memset}
use fi_rststep.Pmu.{Pmu, page_size, pmu_alloc}

-- a 32-bit word at an address, little-endian
abbrev pub load32 : Memory → ℕ → ℕ
load32 mem a = mem a + mem (a + 1) * 256 + mem (a + 2) * 65536 + mem (a + 3) * 16777216

abbrev pub store32 : ℕ → ℕ → Memory → Memory
store32 a v mem x =
    if x == a
    then v % 256
    else (if x == a + 1
        then v / 256 % 256
        else (if x == a + 2
            then v / 65536 % 256
            else (if x == a + 3 then v / 16777216 % 256 else mem x)))

-- The bit fields of `page_dir_entry` and `page_tabel_entry` that the code uses.
abbrev pub present : ℕ → ℕ
present w = w % 2

abbrev pub rw_bit : ℕ → ℕ
rw_bit w = w / 2 % 2

abbrev pub us_bit : ℕ → ℕ
us_bit w = w / 4 % 2

abbrev pub frame_of : ℕ → ℕ
frame_of w = w / 4096

abbrev pub set_present : ℕ → ℕ → ℕ
set_present v w = w - w % 2 + v % 2

abbrev pub set_rw : ℕ → ℕ → ℕ
set_rw v w = w - w / 2 % 2 * 2 + v % 2 * 2

abbrev pub set_us : ℕ → ℕ → ℕ
set_us v w = w - w / 4 % 2 * 4 + v % 2 * 4

-- the page size bit
abbrev pub set_ps : ℕ → ℕ → ℕ
set_ps v w = w - w / 128 % 2 * 128 + v % 2 * 128

abbrev pub set_frame_of : ℕ → ℕ → ℕ
set_frame_of v w = w % 4096 + v % 1048576 * 4096

abbrev pub page_dir_index : ℕ → ℕ
page_dir_index addr = addr >>> 22

abbrev pub page_table_index : ℕ → ℕ
page_table_index addr = (addr >>> 12) % 1024

-- the entry `i` of the directory or table at `base`
abbrev pub entry : Memory → ℕ → ℕ → ℕ
entry mem base i = load32 mem (base + 4 * i)

abbrev pub set_entry : ℕ → ℕ → ℕ → Memory → Memory
set_entry base i v mem = store32 (base + 4 * i) v mem

-- `page_dir[i].addr << 12`
abbrev pub table_at : Memory → ℕ → ℕ → ℕ
table_at mem dir i = frame_of (entry mem dir i) * 4096

-- Memory, the page manager, CR3, the address of the static `kernel_page_dir` and the static
-- `kernel_area_page_dir_end_index`.
pub record Vm : Type 0 where
  pub mem : Memory
  pub pmu : Pmu
  pub cr3 : ℕ
  pub kernel_page_dir : ℕ
  pub end_index : ℕ

abbrev pub switch_page_dir : ℕ → Vm → Vm
switch_page_dir dir s = record s { cr3 = dir }

-- `pmu_alloc`, then `assert(addr != 0)`
unfoldable pub alloc_page : Vm → Outcome (ℕ × Vm)
alloc_page s = do
  (addr, pmu) ← pmu_alloc s.pmu
  assert (not (addr == 0))
  ok (addr, record s { pmu = pmu })

-- `for (i = 0; i < end; i++) page_dir[i] = kernel_page_dir[i];`, with `left` rounds to go
unfoldable pub copy_entries : ℕ → ℕ → ℕ → ℕ → Memory → Memory
copy_entries zero i dst src mem = mem
copy_entries (suc left) i dst src mem =
    copy_entries left (i + 1) dst src (set_entry dst i (entry mem src i) mem)

unfoldable pub create_user_page_dir : Vm → Outcome (ℕ × Vm)
create_user_page_dir s = do
  (dir, s₁) ← alloc_page s
  let mem = copy_entries s.end_index 0 dir s.kernel_page_dir (memset dir 0 page_size s₁.mem)
  ok (dir, record s₁ { mem = mem })

-- `if (!page_dir[i].present)`: the directory's entry `i` gets a page table of its own.
unfoldable pub ensure_table : ℕ → ℕ → ℕ → Vm → Outcome Vm
ensure_table dir i us s = if not (present (entry s.mem dir i) == 0) then ok s else do
  (table, s₁) ← alloc_page s
  let mem = memset table 0 page_size s₁.mem
  let w = set_rw 1 (set_us us (set_present 1 (set_frame_of (table >>> 12) (entry mem dir i))))
  ok (record s₁ { mem = set_entry dir i w mem })

-- the four writes to a free entry of a page table
unfoldable pub fill_entry : ℕ → ℕ → ℕ → ℕ → ℕ → Vm → Vm
fill_entry table j phys_addr us rw s =
    let w =
      set_rw rw
        (set_us us (set_present 1 (set_frame_of (phys_addr >>> 12) (entry s.mem table j)))) in
    record s { mem = set_entry table j w s.mem }

-- The first entry of a table that is free, from `j` on, with `left` to go; 1024 if none is.
unfoldable pub find_free_entry : ℕ → ℕ → ℕ → Memory → ℕ
find_free_entry zero j table mem = j
find_free_entry (suc left) j table mem =
    let rest = find_free_entry left (j + 1) table mem in
    if present (entry mem table j) == 0 then j else rest

-- the tables from the directory's entry `i` on, with `left` to go
unfoldable pub map_from : ℕ → ℕ → ℕ → ℕ → ℕ → ℕ → Vm → Outcome (ℕ × Vm)
map_from zero i dir phys_addr us rw s = panic
map_from (suc left) i dir phys_addr us rw s = do
  s₁ ← ensure_table dir i us s
  let table = table_at s₁.mem dir i
  let j = find_free_entry 1024 0 table s₁.mem
  if ltb j 1024
      then ok (i * 2 ^ 22 + j * 2 ^ 12, fill_entry table j phys_addr us rw s₁)
      else map_from left (i + 1) dir phys_addr us rw s₁

-- the linear address, with the new state
unfoldable pub map_physical_page : ℕ → ℕ → ℕ → ℕ → Vm → Outcome (ℕ × Vm)
map_physical_page dir phys_addr us rw s = do
  assert (not (dir == null))
  assert (not (phys_addr == 0))
  map_from (1024 - s.end_index) s.end_index dir phys_addr us rw s

-- 0 is returned whenever the function returns.
unfoldable pub map_physical_page_to_linear : ℕ → ℕ → ℕ → ℕ → ℕ → Vm → Outcome Vm
map_physical_page_to_linear dir phys_addr linear_addr us rw s = do
  assert (not (dir == null))
  assert (not (phys_addr == 0))
  assert (not (linear_addr == 0))
  if ltb (page_dir_index linear_addr) s.end_index then panic else do
    s₁ ← ensure_table dir (page_dir_index linear_addr) us s
    let table = table_at s₁.mem dir (page_dir_index linear_addr)
    if not (present (entry s₁.mem table (page_table_index linear_addr)) == 0)
        then panic
        else ok (fill_entry table (page_table_index linear_addr) phys_addr us rw s₁)
