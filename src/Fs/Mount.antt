-- ===== src/Fs/Mount.antt =====
-- kernel/fs.c, `fs_init`, with inc/kernel/mbr.h: the first bootable partition and its FAT16 layout.
use fi_rststep.Prelude.{
  ℕ, zero, suc, ◌+◌, ◌-◌, ◌*◌, ◌/◌, ◌≤◌, ◌<◌, ◌≡◌, Bool, not, ◌&&◌, ◌==◌, bit_and, if◌then◌else◌,
  arith,
}
use fi_rststep.Prelude.Outcome.{Outcome, ok, ◌>>=◌, ◌>>◌, assert}
use fi_rststep.Prelude.Words.{u32, u64}
use fi_rststep.Ata.{Bytes, Drive, sect_size, ata_read}
use fi_rststep.Fs.{Fat, Bpb, u16_at, u32_at}

abbrev pub mbr_bootable_flag : ℕ
mbr_bootable_flag = 0x80

-- `struct partition_entry`, as far as it is read, and the static `part` before the start
pub record PartitionEntry : Type 0 where
  pub boot_indicator : ℕ
  pub start_lba : ℕ

abbrev pub partition_at : Bytes → ℕ → PartitionEntry
partition_at b i = record { boot_indicator = b i; start_lba = u32_at b (i + 8) }

-- the table of the MBR from the entry at `i` on, `left` entries
unfoldable pub find_partition : ℕ → ℕ → Bytes → PartitionEntry
find_partition zero i b = record { boot_indicator = 0; start_lba = 0 }
find_partition (suc left) i b =
    let rest = find_partition left (i + 16) b in
    if b i == mbr_bootable_flag then partition_at b i else rest

-- the BPB of a boot sector
abbrev pub bpb_at : Bytes → Bpb
bpb_at b = record {
  sec_per_clus = b 13;
  rsvd_sec_cnt = u16_at b 14;
  num_fats = b 16;
  root_ent_cnt = u16_at b 17;
  sec_per_fat_16 = u16_at b 22;
}

-- `fs_type` against "FAT16"
abbrev pub is_fat16 : Bytes → Bool
is_fat16 b =
    (b 54 == b'F') && ((b 55 == b'A') && ((b 56 == b'T') && ((b 57 == b'1') && (b 58 == b'6'))))

unfoldable pub layout : ℕ → Bpb → Fat
layout start_lba bpb =
    let fat_start = u32 (start_lba + bpb.rsvd_sec_cnt) in
    let root_start = u64 (fat_start + bpb.num_fats * bpb.sec_per_fat_16) in
    let root_sectors = (bpb.root_ent_cnt * 32 + sect_size - 1) / sect_size in
    record {
      fat_start_lba = fat_start;
      root_start_lba = root_start;
      data_start_lba = u64 (root_start + root_sectors);
      root_num_sectors = root_sectors;
      bpb = bpb;
    }

-- The results of the reads are dropped. `buf` is the function's static buffer.
unfoldable pub fs_init : Drive → Bytes → ℕ → Outcome (Fat × Bytes × ℕ)
fs_init drive buf t = do
  (done, buf₁, t₁) ← ata_read drive 0 0 1 buf t
  let part = find_partition 4 446 buf₁
  assert (not (bit_and part.boot_indicator mbr_bootable_flag == 0))
  (done₂, buf₂, t₂) ← ata_read drive 0 part.start_lba 1 buf₁ t₁
  assert (is_fat16 buf₂)
  ok (layout part.start_lba (bpb_at buf₂), buf₂, t₂)

-- If the reserved sectors end below sector 2 ^ 32 and the BPB's fields fit their widths, the
-- reserved sectors, the FATs, the root directory and the data area follow one another without a
-- gap and without overflow, and the root directory has just as many sectors as its entries need.
pub layout-contiguous :
    (start_lba : ℕ) (bpb : Bpb)
    → start_lba + bpb.rsvd_sec_cnt < 4294967296
    → bpb.num_fats < 256
    → bpb.sec_per_fat_16 < 65536
    → bpb.root_ent_cnt < 65536
    → let fat = layout start_lba bpb in
      (fat.fat_start_lba ≡ start_lba + bpb.rsvd_sec_cnt)
      × (fat.root_start_lba ≡ fat.fat_start_lba + bpb.num_fats * bpb.sec_per_fat_16)
      × (fat.data_start_lba ≡ fat.root_start_lba + fat.root_num_sectors)
      × (bpb.root_ent_cnt * 32 ≤ fat.root_num_sectors * 512)
      × (fat.root_num_sectors * 512 < bpb.root_ent_cnt * 32 + 512)
unfolding layout
layout-contiguous start_lba bpb h hn hs hr =
    let area : bpb.num_fats * bpb.sec_per_fat_16 ≤ 256 * 65536 = grind arith in omega arith
