-- ===== src/Fs.antt =====
-- kernel/fs.c and inc/kernel/fat16.h: reading a FAT16 partition. A path is its bytes without the final
-- NUL; a buffer is a function from addresses to bytes.
pub mod Name
pub mod Match
pub mod Cluster
pub mod Chain
pub mod Find
pub mod File
pub mod Content
pub mod Rest
pub mod Slice
pub mod Parts
pub mod Reading
pub mod Mount
use fi_rststep.Prelude.{ℕ, ◌+◌, ◌*◌, Bool, ◌==◌, if◌then◌else◌}
use fi_rststep.Ata.{Bytes}

-- The fields of `struct fat_dir_entry` that the code reads.
pub record DirEntry : Type 0 where
  pub name : Bytes
  pub ext : Bytes
  pub attr : ℕ
  pub fst_clus : ℕ
  pub file_size : ℕ

-- `struct bpb_struct`, as far as it is read
pub record Bpb : Type 0 where
  pub sec_per_clus : ℕ
  pub rsvd_sec_cnt : ℕ
  pub num_fats : ℕ
  pub root_ent_cnt : ℕ
  pub sec_per_fat_16 : ℕ

-- the static `fat`
pub record Fat : Type 0 where
  pub fat_start_lba : ℕ
  pub root_start_lba : ℕ
  pub data_start_lba : ℕ
  pub root_num_sectors : ℕ
  pub bpb : Bpb

-- The static buffer of `fat_next_clus`, and the time at the drive.
pub record Io : Type 0 where
  pub clus_buf : Bytes
  pub time : ℕ

-- little-endian numbers at an address
abbrev pub u16_at : Bytes → ℕ → ℕ
u16_at b i = b i + b (i + 1) * 256

abbrev pub u32_at : Bytes → ℕ → ℕ
u32_at b i = b i + b (i + 1) * 256 + b (i + 2) * 65536 + b (i + 3) * 16777216

-- the directory entry whose bytes start at `i`
abbrev pub entry_at : Bytes → ℕ → DirEntry
entry_at b i = record {
  name = λ k. b (i + k);
  ext = λ k. b (i + 8 + k);
  attr = b (i + 11);
  fst_clus = u16_at b (i + 26);
  file_size = u32_at b (i + 28);
}
