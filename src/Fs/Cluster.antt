-- ===== src/Fs/Cluster.antt =====
-- kernel/fs.c: the chain of clusters in the FAT, and from an offset in a file to a sector.
use fi_rststep.Prelude.{
  ℕ, zero, suc, ◌+◌, ◌-◌, ◌*◌, ◌/◌, ◌%◌, Bool, ◌&&◌, ◌==◌, leb, ltb, if◌then◌else◌,
}
use fi_rststep.Prelude.Outcome.{Outcome, ok, endless, ◌>>=◌, ◌>>◌, assert}
use fi_rststep.Prelude.Words.{u64}
use fi_rststep.Ata.{Drive, sect_size, ata_read}
use fi_rststep.Fs.{DirEntry, Fat, Io, u16_at}

unfoldable pub fat_check_clus : ℕ → Bool
fat_check_clus cluster = ltb 1 cluster && ltb cluster 0xFFF0

module _ (fat : Fat) where
  -- the callers have checked that `clus` is at least 2
  unfoldable pub fat_clus2lba : ℕ → ℕ
  fat_clus2lba clus = u64 (fat.data_start_lba + fat.bpb.sec_per_clus * (clus - 2))

  abbrev pub clus_size : ℕ
  clus_size = fat.bpb.sec_per_clus * sect_size

  module _ (drive : Drive) where
    -- The status of the read is dropped: after a failed one the buffer's old bytes are used.
    unfoldable pub fat_next_clus : ℕ → Io → Outcome (ℕ × Io)
    fat_next_clus cluster io = do
      let byte_offset = cluster * 2
      (done, buf, t) ←
          ata_read drive 0 (u64 (fat.fat_start_lba + byte_offset / sect_size)) 1 io.clus_buf io.time
      ok (u16_at buf (byte_offset % sect_size), record { clus_buf = buf; time = t })

    -- `while (offset >= clus_size)`: the cluster that holds the offset, and the offset in it
    unfoldable pub seek : ℕ → ℕ → ℕ → Io → Outcome (ℕ × ℕ × Io)
    seek zero cur_clus offset io = endless
    seek (suc fuel) cur_clus offset io =
        if leb clus_size offset
        then (do (next, io') ← fat_next_clus cur_clus io; seek fuel next (offset - clus_size) io')
        else ok (cur_clus, offset, io)

    -- the sector of a file's offset, or 0
    unfoldable pub fat_off2lba : DirEntry → ℕ → Io → Outcome (ℕ × Io)
    fat_off2lba entry offset io = do
      assert (offset % sect_size == 0)
      (cur_clus, rest, io') ← seek (suc offset) entry.fst_clus offset io
      if fat_check_clus cur_clus
          then (do
            let lba = u64 (fat_clus2lba cur_clus + rest / sect_size)
            assert (ltb 0 lba)
            ok (lba, io'))
          else ok (0, io')
