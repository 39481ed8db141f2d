-- ===== src/Fs/File.antt =====
-- kernel/fs.c: reading a file, first whole sectors along its clusters, then any range of bytes.
use fi_rststep.Prelude.{
  ℕ, zero, suc, ◌+◌, ◌-◌, ◌*◌, ◌/◌, ◌%◌, Bool, true, false, not, ◌&&◌, ◌||◌, Option, none, some,
  ◌==◌, leb, ltb, min, if◌then◌else◌,
}
use fi_rststep.Prelude.Outcome.{Outcome, ok, endless, ◌>>=◌, ◌>>◌, assert}
use fi_rststep.Prelude.Words.{null, u64}
use fi_rststep.Ata.{Bytes, Drive, sect_size, ata_read}
use fi_rststep.Fs.{DirEntry, Fat, Io}
use fi_rststep.Fs.Cluster.{fat_check_clus, fat_clus2lba, clus_size, fat_next_clus, seek}

-- success, the memory and the state of the reads
abbrev pub Read : Type 0
Read = Outcome (Bool × Bytes × Io)

-- `memcpy(dst, src, n)` out of another buffer
abbrev pub copy_out : Bytes → ℕ → ℕ → ℕ → Bytes → Bytes
copy_out buf src dst n mem a = if leb dst a && ltb a (dst + n) then buf (src + (a - dst)) else mem a

module _ (fat : Fat) (drive : Drive) where
  -- `ata_read` with the drive's time kept in the state
  unfoldable pub read_sectors : ℕ → ℕ → ℕ → Bytes → Io → Read
  read_sectors dst lba count mem io = do
    (done, mem', t) ← ata_read drive dst lba count mem io.time
    ok (done, mem', record io { time = t })

  -- The next cluster, checked, and `size` bytes of it: the new cluster with the result.
  unfoldable pub read_next : ℕ → ℕ → ℕ → Bytes → Io → Outcome (ℕ × Bool × Bytes × Io)
  read_next dst size cur_clus mem io = do
    (next, io₁) ← fat_next_clus fat drive cur_clus io
    if fat_check_clus next
        then (do
          (done, mem', io₂) ← read_sectors dst (fat_clus2lba fat next) (size / sect_size) mem io₁
          ok (next, done, mem', io₂))
        else ok (next, false, mem, io₁)

  -- `while (size - read_bytes >= clus_size)`, then the part of the last cluster
  unfoldable pub read_rest : ℕ → ℕ → ℕ → ℕ → ℕ → Bytes → Io → Read
  read_rest zero dst size read_bytes cur_clus mem io = endless
  read_rest (suc fuel) dst size read_bytes cur_clus mem io =
      if leb (clus_size fat) (size - read_bytes)
      then (do
        (next, done, mem', io') ← read_next (dst + read_bytes) (clus_size fat) cur_clus mem io
        if done
            then read_rest fuel dst size (read_bytes + clus_size fat) next mem' io'
            else ok (false, mem', io'))
      else (if ltb read_bytes size
          then (do
            (next, done, mem', io') ←
                read_next (dst + read_bytes) (size - read_bytes) cur_clus mem io
            ok (done, mem', io'))
          else ok (true, mem, io))

  unfoldable pub fat_read : ℕ → ℕ → ℕ → DirEntry → Bytes → Io → Read
  fat_read dst offset size entry mem io = do
    assert (offset % sect_size == 0)
    assert (size % sect_size == 0)
    (cur_clus, rest, io₁) ← seek fat drive (suc offset) entry.fst_clus offset io
    if fat_check_clus cur_clus
        then (do
          let lba = u64 (fat_clus2lba fat cur_clus + rest / sect_size)
          let read_size = min (clus_size fat - rest) size
          (done, mem', io₂) ← read_sectors dst lba (read_size / sect_size) mem io₁
          if done
              then read_rest (suc size) dst size read_size cur_clus mem' io₂
              else ok (false, mem', io₂))
        else ok (false, mem, io₁)

  -- The three parts of `file_read`. Each takes and gives the number of bytes read so far; the first
  -- part of the result is whether the function goes on.
  abbrev pub Part : Type 0
  Part = Outcome (Bool × ℕ × Bytes × Io)

  -- `buf` is the function's own uninitialised buffer.
  unfoldable pub read_head : Bytes → ℕ → ℕ → ℕ → DirEntry → Bytes → Io → Part
  read_head buf dst offset size entry mem io =
      if offset % sect_size == 0 then ok (true, 0, mem, io) else do
        let sec_off = offset % sect_size
        let read_size = min size (sect_size - sec_off)
        (done, buf', io') ← fat_read 0 (offset - sec_off) sect_size entry buf io
        if done
            then ok (true, read_size, copy_out buf' sec_off dst read_size mem, io')
            else ok (false, 0, mem, io')

  unfoldable pub read_middle : ℕ → ℕ → ℕ → ℕ → DirEntry → Bytes → Io → Part
  read_middle read_bytes dst offset size entry mem io =
      if leb sect_size (size - read_bytes)
      then (do
        let read_size = (size - read_bytes) / sect_size * sect_size
        (done, mem', io') ← fat_read (dst + read_bytes) (offset + read_bytes) read_size entry mem io
        if done
            then ok (true, read_bytes + read_size, mem', io')
            else ok (false, read_bytes, mem', io'))
      else ok (true, read_bytes, mem, io)

  unfoldable pub read_tail : Bytes → ℕ → ℕ → ℕ → ℕ → DirEntry → Bytes → Io → Part
  read_tail buf read_bytes dst offset size entry mem io =
      if ltb read_bytes size
      then (do
        let read_size = size - read_bytes
        (done, buf', io') ← fat_read 0 (offset + read_bytes) sect_size entry buf io
        if done
            then ok (
              true,
              read_bytes + read_size,
              copy_out buf' 0 (dst + read_bytes) read_size mem,
              io',
            )
            else ok (false, read_bytes, mem, io'))
      else ok (true, read_bytes, mem, io)

  -- the number of bytes read, the memory and the state; `file` is NULL or a file
  unfoldable pub file_read :
      Bytes → ℕ → ℕ → ℕ → Option DirEntry → Bytes → Io → Outcome (ℕ × Bytes × Io)
  file_read buf dst offset size₀ none mem io = ok (0, mem, io)
  file_read buf dst offset size₀ (some entry) mem io =
      if (dst == null) || leb entry.file_size offset then ok (0, mem, io) else do
        let size = min size₀ (entry.file_size - offset)
        (go, n₁, mem₁, io₁) ← read_head buf dst offset size entry mem io
        if not go then ok (n₁, mem₁, io₁) else do
          (go₂, n₂, mem₂, io₂) ← read_middle n₁ dst offset size entry mem₁ io₁
          if not go₂ then ok (n₂, mem₂, io₂) else do
            (go₃, n₃, mem₃, io₃) ← read_tail buf n₂ dst offset size entry mem₂ io₂
            ok (n₃, mem₃, io₃)
