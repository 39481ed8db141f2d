-- ===== src/Boot.antt =====
-- boot/setupmain.c: the loader that reads the kernel from the first bootable FAT16 partition and enters it.
use fi_rststep.Prelude.{
  ℕ, zero, suc, ◌+◌, ◌-◌, ◌*◌, ◌/◌, ◌%◌, ◌^◌, Bool, true, false, not, ◌&&◌, ◌||◌, Option, none,
  some, List, [], ◌∷◌, ◌==◌, ltb, leb, min, max, if◌then◌else◌, bit_and, bit_or,
}
use fi_rststep.Prelude.Outcome.{Outcome, ok, panic, endless, ◌>>=◌}
use fi_rststep.Prelude.Words.{u8, u32, sub32, ◌>>>◌}
use fi_rststep.Str.{Memory, poke}
use fi_rststep.Ata.{
  Bytes, Drive, sect_size, store_sector, reg_seccount, reg_lba0, reg_lba1, reg_lba2, reg_hddevsel,
  reg_command, port_word,
}
use fi_rststep.Fs.{DirEntry, u16_at, u32_at, entry_at}
use fi_rststep.Fs.Mount.{PartitionEntry, mbr_bootable_flag, partition_at, bpb_at, is_fat16}
use fi_rststep.Elf.{elf_magic, pt_load, program_header_size}
use fi_rststep.Paging.{store32}

-- where the kernel's file is put, and the start of the hardware's addresses
abbrev pub elf : ℕ
elf = 0x8000

abbrev pub hw_map_start_addr : ℕ
hw_map_start_addr = 0xA0000

abbrev pub mbr : ℕ
mbr = 0x7C00

-- "kernel"
abbrev pub kernel_name : List ℕ
kernel_name = b'k' ∷ b'e' ∷ b'r' ∷ b'n' ∷ b'e' ∷ b'l' ∷ []

-- `TOUPPER`; a and z stay as they are
abbrev pub to_upper : ℕ → ℕ
to_upper x = if ltb b'a' x && ltb x b'z' then x - 32 else x

-- Memory, the statics `buffer`, `vmem` and `vattr`, and the time at the drive.
pub record Boot : Type 0 where
  pub mem : Memory
  pub buffer : Bytes
  pub vmem : ℕ
  pub vattr : ℕ
  pub time : ℕ

unfoldable pub putchar : ℕ → Boot → Boot
putchar c s = record s {
  mem = poke (u32 (s.vmem + 1)) s.vattr (poke s.vmem c s.mem);
  vmem = u32 (s.vmem + 2);
}

unfoldable pub puts : List ℕ → Boot → Boot
puts [] s = s
puts (c ∷ cs) s = puts cs (putchar c s)

-- `error`: a message, then a loop for ever
abbrev pub error : {A : Type 0} → Outcome A
error = panic

-- "In protected mode."
abbrev greeting : List ℕ
greeting =
    b'I' ∷ b'n' ∷ b' ' ∷ b'p' ∷ b'r' ∷ b'o' ∷ b't' ∷ b'e' ∷ b'c' ∷ b't' ∷ b'e' ∷ b'd' ∷ b' ' ∷ b'm'
    ∷ b'o' ∷ b'd' ∷ b'e' ∷ b'.' ∷ []

-- The address that memory sees: bit 20 is always 0 unless the A20 gate is on.
abbrev pub wire : Bool → ℕ → ℕ
wire true a = a
wire false a = a - a / 2 ^ 20 % 2 * 2 ^ 20

-- The two writes, and whether the test fails.
unfoldable pub test_a20 : Bool → Boot → Bool × Boot
test_a20 a20 s =
    let mem = poke (wire a20 0x023456) 0xFF (poke (wire a20 0x123456) 0x00 s.mem) in
    (mem (wire a20 0x123456) == mem (wire a20 0x023456), record s { mem = mem })

-- the first bootable entry of the partition table at `i`, of `left` entries
unfoldable pub boot_partition : ℕ → ℕ → Memory → PartitionEntry
boot_partition zero i mem = record { boot_indicator = 0; start_lba = 0 }
boot_partition (suc left) i mem =
    let rest = boot_partition left (i + 16) mem in
    if mem i == mbr_bootable_flag then partition_at mem i else rest

-- Does an entry's name start with a string?
unfoldable pub same_name : List ℕ → ℕ → Bytes → Bool
same_name [] i name = true
same_name (c ∷ cs) i name = (to_upper (name i) == to_upper c) && same_name cs (i + 1) name

-- The entries of a sector from offset `i` on, `lim` of them; `left` entries of the directory remain.
unfoldable pub scan_entries : ℕ → ℕ → ℕ → Bytes → Option DirEntry
scan_entries zero left i buf = none
scan_entries (suc lim) zero i buf = none
scan_entries (suc lim) (suc left) i buf =
    let rest = scan_entries lim left (i + 32) buf in
    if same_name kernel_name 0 (entry_at buf i).name then some (entry_at buf i) else rest

abbrev pub data_clus_to_lba28 : ℕ → ℕ → ℕ → ℕ
data_clus_to_lba28 data_fst_sec sec_per_clus cluster =
    u32 (data_fst_sec + sec_per_clus * sub32 cluster 2)

abbrev pub check_clus : ℕ → Bool
check_clus cluster = ltb 1 cluster && ltb cluster 0xFFF0

-- `memcpy` and `memset` of this file, a byte a round
unfoldable pub copy_bytes : ℕ → ℕ → ℕ → Memory → Memory
copy_bytes zero dst src mem = mem
copy_bytes (suc size) dst src mem =
    copy_bytes size (u32 (dst + 1)) (u32 (src + 1)) (poke dst (mem src) mem)

unfoldable pub fill_bytes : ℕ → ℕ → ℕ → Memory → Memory
fill_bytes zero dst value mem = mem
fill_bytes (suc size) dst value mem = fill_bytes size (u32 (dst + 1)) value (poke dst value mem)

-- The program headers from the one at `prog` on, the `i`-th, read from memory as it is by then. The
-- count is a 16-bit field, so `left` starts at 2 ^ 16. The result has the kernel's range.
unfoldable pub load_programs : ℕ → ℕ → ℕ → ℕ × ℕ → Memory → (ℕ × ℕ) × Memory
load_programs zero i prog range mem = (range, mem)
load_programs (suc left) i prog range mem =
    let next = u32 (prog + program_header_size) in
    let (lo, hi) = range in
    let paddr = u32_at mem (prog + 12) in
    let filesz = u32_at mem (prog + 16) in
    let memsz = u32_at mem (prog + 20) in
    let copied = copy_bytes filesz paddr (u32 (elf + u32_at mem (prog + 4))) mem in
    let loaded =
      fill_bytes (sub32 (u32_at copied (prog + 20)) (u32_at copied (prog + 16)))
        (u32 (u32_at copied (prog + 12) + u32_at copied (prog + 16))) 0 copied in
    let skip = load_programs left (i + 1) next range mem in
    let rest =
      load_programs left (i + 1) next (min lo paddr, max hi (u32 (paddr + memsz))) loaded in
    if not (ltb i (u16_at mem (elf + 44)))
    then (range, mem)
    else (if (memsz == 0) || not (u32_at mem prog == pt_load) then skip else rest)

-- the writes to the ports that make `readsect`'s request
unfoldable pub read_block : ℕ → List (ℕ × ℕ)
read_block offset =
    (reg_seccount, 1)
    ∷ (reg_lba0, u8 offset)
    ∷ (reg_lba1, u8 (offset >>> 8))
    ∷ (reg_lba2, u8 (offset >>> 16))
    ∷ (reg_hddevsel, u8 (bit_or (offset >>> 24) 0xE0))
    ∷ (reg_command, 0x20)
    ∷ []

-- the sector of such a request: 28 bits, the highest four with the drive's number
unfoldable pub addressed28 : List (ℕ × ℕ) → ℕ
addressed28 ws =
    port_word reg_lba0 0 ws % 256
    + port_word reg_lba1 0 ws % 256 * 2 ^ 8
    + port_word reg_lba2 0 ws % 256 * 2 ^ 16
    + port_word reg_hddevsel 0 ws % 16 * 2 ^ 24

module _ (drive : Drive) (patience : ℕ) where
  -- The loop has no bound in the source; `patience` is how often the status is read, while the drive
  -- has `pending` sectors to transfer.
  unfoldable pub waitdisk : ℕ → ℕ → ℕ → Outcome ℕ
  waitdisk zero pending t = endless
  waitdisk (suc fuel) pending t =
      let rest = waitdisk fuel pending (t + 1) in
      if bit_and (drive.status pending t) 0xC0 == 0x40 then ok (t + 1) else rest

  -- the sector's bytes
  unfoldable pub readsect : ℕ → Boot → Outcome (Bytes × Boot)
  readsect offset s = if ltb 0x0FFFFFFF offset then error else do
    t₁ ← waitdisk patience 0 s.time
    t₂ ← waitdisk patience 1 t₁
    ok (drive.sector (addressed28 (read_block offset)), record s { time = t₂ })

  unfoldable pub read_buffer : ℕ → Boot → Outcome Boot
  read_buffer offset s = do
    (bytes, s') ← readsect offset s
    ok (record s' { buffer = store_sector bytes 0 s'.buffer })

  unfoldable pub next_clus : ℕ → ℕ → Boot → Outcome (ℕ × Boot)
  next_clus cluster fat_fst_sec s = do
    let byte_offset = cluster * 2
    s' ← read_buffer (u32 (fat_fst_sec + byte_offset / sect_size)) s
    ok (u16_at s'.buffer (byte_offset % sect_size), s')

  -- The sectors of the root directory from `sec_i` on, `left` of them, `entries` entries to go.
  unfoldable pub find_kernel : ℕ → ℕ → ℕ → Boot → Outcome (Option DirEntry × Boot)
  find_kernel zero sector entries s = ok (none, s)
  find_kernel (suc left) sector entries s = do
    s' ← read_buffer (u32 sector) s
    elim (scan_entries 16 entries 0 s'.buffer) [
      | some e ↦ ok (some e, s')
      | none ↦ find_kernel left (sector + 1) (entries - 16) s'
    ]

  -- the sectors of a cluster, `left` to go: the place behind the last one
  unfoldable pub load_cluster : ℕ → ℕ → ℕ → Boot → Outcome (ℕ × Boot)
  load_cluster zero offset ptr s = ok (ptr, s)
  load_cluster (suc left) offset ptr s =
      if leb hw_map_start_addr (u32 (ptr + sect_size - 1)) then error else do
        (bytes, s') ← readsect (u32 offset) s
        load_cluster left (offset + 1) (u32 (ptr + sect_size))
            (record s' { mem = store_sector bytes ptr s'.mem })

  -- A chain that takes more rounds than there are clusters goes round.
  unfoldable pub load_file : ℕ → ℕ → ℕ → ℕ → ℕ → ℕ → Boot → Outcome Boot
  load_file zero data_fst_sec fat_fst_sec sec_per_clus cluster ptr s = endless
  load_file (suc fuel) data_fst_sec fat_fst_sec sec_per_clus cluster ptr s =
      if check_clus cluster
      then (do
        (ptr', s₁) ←
            load_cluster sec_per_clus (data_clus_to_lba28 data_fst_sec sec_per_clus cluster) ptr s
        (next, s₂) ← next_clus cluster fat_fst_sec s₁
        load_file fuel data_fst_sec fat_fst_sec sec_per_clus next ptr' s₂)
      else ok s

  -- the segments, and the two arguments for the kernel: its entry, which is jumped to
  unfoldable pub enter_kernel : Boot → Outcome (ℕ × Boot)
  enter_kernel s =
      if not (u32_at s.mem elf == elf_magic)
      then error
      else (let ((lo, hi), mem) =
            load_programs 65536 0 (u32 (elf + u32_at s.mem (elf + 28))) (2 ^ 32 - 1, 0) s.mem in
          let mem' = store32 0x1004 hi (store32 0x1000 lo mem) in
          ok (u32_at mem' (elf + 24), record s { mem = mem' }))

  unfoldable pub setupmain : Bool → Boot → Outcome (ℕ × Boot)
  setupmain a20 s = do
    let (failed, s₁) = test_a20 a20 (puts greeting s)
    if failed then error else do
      let boot_part = boot_partition 4 (mbr + 446) s₁.mem
      if not (boot_part.boot_indicator == mbr_bootable_flag) then error else do
        s₂ ← read_buffer boot_part.start_lba s₁
        if not (is_fat16 s₂.buffer) then error else do
          let bpb = bpb_at s₂.buffer
          let fat_fst_sec = u32 (boot_part.start_lba + bpb.rsvd_sec_cnt)
          let root_fst_sec = u32 (fat_fst_sec + bpb.num_fats * bpb.sec_per_fat_16)
          let root_sec_cnt = (bpb.root_ent_cnt * 32 + sect_size - 1) / sect_size
          (found, s₃) ← find_kernel root_sec_cnt root_fst_sec bpb.root_ent_cnt s₂
          elim found [
            | none ↦ error
            | some entry ↦ (do
              s₄ ←
                  load_file 65537 (u32 (root_fst_sec + root_sec_cnt)) fat_fst_sec bpb.sec_per_clus
                    entry.fst_clus elf s₃
              enter_kernel s₄)
          ]
