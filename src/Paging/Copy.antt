-- ===== src/Paging/Copy.antt =====
-- kernel/mem.c: a page directory with all its memory copied, and given back.
use fi_rststep.Prelude.{
  ℕ, zero, suc, ◌+◌, ◌-◌, ◌*◌, Bool, true, false, not, ◌&&◌, ◌||◌, ◌==◌, if◌then◌else◌,
}
use fi_rststep.Prelude.Outcome.{Outcome, ok, ◌>>=◌, ◌>>◌, assert}
use fi_rststep.Prelude.Words.{null, ◌>>>◌}
use fi_rststep.Str.{memcpy}
use fi_rststep.Pmu.{page_size, pmu_alloc}
use fi_rststep.Pmu.Record.{pmu_free}
use fi_rststep.Paging.{
  Vm, present, us_bit, frame_of, set_frame_of, entry, set_entry, table_at, switch_page_dir,
}

-- success (0, else -1) and the state
abbrev pub Done : Type 0
Done = Outcome (Bool × Vm)

-- One present page of a table: a new page with the contents of the page in the first entry of
-- `src_table`, as `src_page_table->addr` is written.
unfoldable pub copy_page : ℕ → ℕ → ℕ → Vm → Done
copy_page src_table dst_table j s = do
  let src_page = frame_of (entry s.mem src_table 0) * 4096
  (dst_page, pmu) ← pmu_alloc s.pmu
  if dst_page == 0 then ok (false, record s { pmu = pmu }) else (do
    let mem = memcpy dst_page src_page page_size s.mem
    let w = set_frame_of (dst_page >>> 12) (entry mem dst_table j)
    ok (true, record s { pmu = pmu; mem = set_entry dst_table j w mem }))

-- the entries of a table from `j` on, with `left` to go
unfoldable pub copy_pages : ℕ → ℕ → ℕ → ℕ → Vm → Done
copy_pages zero j src_table dst_table s = ok (true, s)
copy_pages (suc left) j src_table dst_table s =
    let skip = copy_pages left (j + 1) src_table dst_table s in
    if present (entry s.mem src_table j) == 0 then skip else (do
      (done, s') ← copy_page src_table dst_table j s
      if done then copy_pages left (j + 1) src_table dst_table s' else ok (false, s'))

-- One present table: a new one with the same entries, whose pages are then copied.
unfoldable pub copy_table : ℕ → ℕ → ℕ → Vm → Done
copy_table i dst src s = do
  let src_table = table_at s.mem src i
  (dst_table, pmu) ← pmu_alloc s.pmu
  if dst_table == null then ok (false, record s { pmu = pmu }) else (do
    let mem = memcpy dst_table src_table page_size s.mem
    let w = set_frame_of (dst_table >>> 12) (entry mem dst i)
    copy_pages 1024 0 src_table dst_table (record s { pmu = pmu; mem = set_entry dst i w mem }))

-- the entries of the directory from `i` on, with `left` to go
unfoldable pub copy_tables : ℕ → ℕ → ℕ → ℕ → Vm → Done
copy_tables zero i dst src s = ok (true, s)
copy_tables (suc left) i dst src s =
    let skip = copy_tables left (i + 1) dst src s in
    if present (entry s.mem src i) == 0 then skip else (do
      (done, s') ← copy_table i dst src s
      if done then copy_tables left (i + 1) dst src s' else ok (false, s'))

-- A failure returns with the kernel's directory in CR3. (`pmu_alloc` never returns 0 here.)
unfoldable pub copy_page_dir_and_memory : ℕ → ℕ → Vm → Done
copy_page_dir_and_memory dst src s = do
  let stashed = s.cr3
  let s₁ : Vm = record s { cr3 = s.kernel_page_dir; mem = memcpy dst src page_size s.mem }
  (done, s₂) ← copy_tables (1024 - s.end_index) s.end_index dst src s₁
  ok (
    done,
    if done && not (stashed == s.kernel_page_dir || stashed == null)
        then switch_page_dir stashed s₂
        else s₂,
  )

-- the pages of a table from `j` on; `us` is the directory's bit, which the code tests again
unfoldable pub free_pages : ℕ → ℕ → ℕ → ℕ → Vm → Outcome Vm
free_pages zero j us table s = ok s
free_pages (suc left) j us table s =
    let skip = free_pages left (j + 1) us table s in
    if not (present (entry s.mem table j) == 0) && not (us == 0)
    then (do
      pmu ← pmu_free (frame_of (entry s.mem table j) * 4096) s.pmu
      free_pages left (j + 1) us table (record s { pmu = pmu }))
    else skip

unfoldable pub free_tables : ℕ → ℕ → ℕ → Vm → Outcome Vm
free_tables zero i dir s = ok s
free_tables (suc left) i dir s =
    let skip = free_tables left (i + 1) dir s in
    if not (present (entry s.mem dir i) == 0) && not (us_bit (entry s.mem dir i) == 0)
    then (do
      s₁ ← free_pages 1024 0 (us_bit (entry s.mem dir i)) (table_at s.mem dir i) s
      pmu ← pmu_free (table_at s.mem dir i) s₁.pmu
      free_tables left (i + 1) dir (record s₁ { pmu = pmu }))
    else skip

unfoldable pub free_user_page_dir : ℕ → Vm → Outcome Vm
free_user_page_dir dir s = do
  assert (not (dir == null))
  assert (not (dir == s.kernel_page_dir))
  let s₁ = if s.cr3 == dir then switch_page_dir s.kernel_page_dir s else s
  s₂ ← free_tables (1024 - s.end_index) s.end_index dir s₁
  pmu ← pmu_free dir s₂.pmu
  ok (record s₂ { pmu = pmu })
