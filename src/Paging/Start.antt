-- ===== src/Paging/Start.antt =====
-- kernel/mem.c: the start of memory management.
use fi_rststep.Prelude.{
  ℕ, zero, suc, ◌+◌, ◌-◌, ◌*◌, ◌/◌, ◌^◌, not, ◌==◌, ltb, if◌then◌else◌, bit_or,
}
use fi_rststep.Prelude.Outcome.{Outcome, ok, endless, ◌>>=◌, ◌>>◌, assert}
use fi_rststep.Prelude.Words.{u32, ◌>>>◌, ◌<<<◌}
use fi_rststep.Str.{memset}
use fi_rststep.Pmu.{page_size}
use fi_rststep.Pmu.Record.{pmu_init}
use fi_rststep.Paging.{
  Vm, present, set_present, set_rw, set_us, set_ps, set_frame_of, page_dir_index, page_table_index,
  load32, entry, set_entry, table_at, alloc_page, switch_page_dir,
}

-- `low` and `hi` are what the clock chip answers on its registers 0x34 and 0x35.
unfoldable pub detect_memory : ℕ → ℕ → Outcome ℕ
detect_memory low hi = do
  let total = bit_or low (hi <<< 8)
  assert (not (total == 0))
  ok (u32 (u32 (total * 64 * 1024) + 2 ^ 24))

-- the kernel directory's entry `i`, with a new table if it has none; the table is not cleared
unfoldable pub ensure_kernel_table : ℕ → Vm → Outcome Vm
ensure_kernel_table i s = if not (present (entry s.mem s.kernel_page_dir i) == 0) then ok s else do
  (page_addr, s₁) ← alloc_page s
  let old = entry s₁.mem s.kernel_page_dir i
  let w = set_ps 0 (set_rw 1 (set_us 0 (set_present 1 (set_frame_of (page_addr >>> 12) old))))
  ok (record s₁ { mem = set_entry s.kernel_page_dir i w s₁.mem })

-- The round of the loop for the page at `addr`.
unfoldable pub map_kernel_page : ℕ → Vm → Outcome Vm
map_kernel_page addr s = do
  s₁ ← ensure_kernel_table (page_dir_index addr) s
  let table = table_at s₁.mem s.kernel_page_dir (page_dir_index addr)
  let old = entry s₁.mem table (page_table_index addr)
  let w = set_rw 1 (set_us 0 (set_present 1 (set_frame_of (addr >>> 12) old)))
  ok (record s₁ { mem = set_entry table (page_table_index addr) w s₁.mem })

-- `for (addr = 0; addr < mem_size; addr += PAGE_SIZE)` on 32 bits
unfoldable pub map_kernel_pages : ℕ → ℕ → ℕ → Vm → Outcome Vm
map_kernel_pages zero addr mem_size s = endless
map_kernel_pages (suc fuel) addr mem_size s =
    if ltb addr mem_size
    then (do
      s' ← map_kernel_page addr s
      map_kernel_pages fuel (u32 (addr + page_size)) mem_size s')
    else ok s

-- 2 ^ 20 rounds cover 4 GiB: a loop that has not ended by then goes round for ever.
unfoldable pub kernel_page_init : ℕ → Vm → Outcome Vm
kernel_page_init mem_size s =
    map_kernel_pages 1048577 0 mem_size
      (record s { mem = memset s.kernel_page_dir 0 page_size s.mem })

-- The bit in CR0 that turns paging on is outside the model.
abbrev pub page_enable : Vm → Vm
page_enable s = switch_page_dir s.kernel_page_dir s

-- where the boot code leaves the end of the kernel
abbrev pub p_kernel_addr_end : ℕ
p_kernel_addr_end = 0x1004

unfoldable pub page_init : ℕ → Vm → Outcome Vm
page_init mem_size s = do
  let kernel_end = load32 s.mem p_kernel_addr_end
  let more = if page_table_index kernel_end == 0 then 0 else 1
  s' ← kernel_page_init mem_size (record s { end_index = page_dir_index kernel_end + more })
  ok (page_enable s')

unfoldable pub mem_init : ℕ → ℕ → Vm → Outcome Vm
mem_init low hi s = do
  mem_size ← detect_memory low hi
  let kernel_end = load32 s.mem p_kernel_addr_end
  let addr = u32 (kernel_end + page_size - 1) / page_size * page_size
  assert (ltb addr mem_size)
  pmu ← pmu_init addr ((mem_size - addr) / page_size) s.pmu
  page_init mem_size (record s { pmu = pmu })
