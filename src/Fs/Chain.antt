-- ===== src/Fs/Chain.antt =====
-- The chain of clusters that the FAT on the disk describes, and the sector of a file's offset.
use native.Mathlib.Nat.{
  mul-le-mul, div-eq-sub-div, mod-eq-sub-mod, mod-lt, mod-eq_of_lt, div-eq_of_lt,
}
use fi_rststep.Prelude.{
  ℕ, zero, suc, ◌+◌, ◌-◌, ◌*◌, ◌/◌, ◌%◌, ◌≤◌, ◌<◌, ◌≡◌, ap, ◌∙◌, true, ◌&&◌, ◌==◌, leb, ltb,
  if◌then◌else◌, arith, Bool-cases, inl, inr,
}
use fi_rststep.Prelude.Outcome.{Outcome, ok, ◌>>=◌, ◌>>◌, assert}
use fi_rststep.Prelude.Words.{u64}
use fi_rststep.Ata.{Bytes, Drive, sect_size, ata_read}
use fi_rststep.Ata.Read.{IsReady, store_sectors, ata_read-store_sectors}
use fi_rststep.Fs.{DirEntry, Fat, Io, u16_at}
use fi_rststep.Fs.Cluster.{
  fat_check_clus, fat_clus2lba, clus_size, fat_next_clus, seek, fat_off2lba,
}

-- one sector read to the start of a buffer
pub one_sector :
    (drive : Drive) (lba : ℕ) (mem : Bytes) (i : ℕ)
    → i < sect_size
    → store_sectors drive 1 0 lba mem i ≡ drive.sector lba i
one_sector drive lba mem i h =
    let sector : lba + (i - 0) / sect_size ≡ lba = omega arith in
    let place : (i - 0) % sect_size ≡ i = omega arith in
    let inside : (leb 0 i && ltb i (0 + 1 * sect_size)) ≡ true = ground arith in
    rw (inside, sector, place)

module _ (fat : Fat) (drive : Drive) where
  -- the FAT's entry of a cluster, where it stands on the disk
  abbrev pub fat_entry : ℕ → ℕ
  fat_entry cluster =
      u16_at (drive.sector (fat.fat_start_lba + cluster * 2 / sect_size)) (cluster * 2 % sect_size)

  -- the n-th cluster behind a cluster
  abbrev pub nth_clus : ℕ → ℕ → ℕ
  nth_clus zero cluster = cluster
  nth_clus (suc n) cluster = nth_clus n (fat_entry cluster)

  -- A disk of bytes on a drive that works, and a layout within the reach of LBA 48.
  pub record IsDisk : Type 0 where
    pub answers : IsReady drive
    pub bytes : (l i : ℕ) → drive.sector l i < 256
    pub start : fat.fat_start_lba < 4294967296
    pub area : (1 ≤ fat.data_start_lba) × (fat.data_start_lba < 8589934592)
    pub cluster : (1 ≤ fat.bpb.sec_per_clus) × (fat.bpb.sec_per_clus < 256)

  module _ (disk : IsDisk) where
    pub fat_entry-lt : (cluster : ℕ) → fat_entry cluster < 65536
    fat_entry-lt cluster =
        let l = fat.fat_start_lba + cluster * 2 / sect_size in
        let i = cluster * 2 % sect_size in omega (arith, disk.bytes l i, disk.bytes l (i + 1))

    -- The two bytes of an entry lie in one sector.
    fat_next_clus-of_read :
        (cluster : ℕ) (io : Io) (t : ℕ)
        → let lba = fat.fat_start_lba + cluster * 2 / sect_size in
          ata_read drive 0 (u64 lba) 1 io.clus_buf io.time
            ≡ ok (true, store_sectors drive 1 0 lba io.clus_buf, t)
          → (io' : Io) × (fat_next_clus fat drive cluster io ≡ ok (fat_entry cluster, io'))
    unfolding fat_next_clus
    fat_next_clus-of_read cluster io t e =
        let lba = fat.fat_start_lba + cluster * 2 / sect_size in
        let buf = store_sectors drive 1 0 lba io.clus_buf in
        let i = cluster * 2 % sect_size in
        let same : u16_at buf i ≡ fat_entry cluster = rw (
          one_sector drive lba io.clus_buf i (omega arith),
          one_sector drive lba io.clus_buf (i + 1) (omega arith),
        ) in
        let io' : Io = record { clus_buf = buf; time = t } in
        (io', rw (e, ◌>>=◌) (ap (λ c. ok (c, io')) same))

    pub fat_next_clus_lem :
        (cluster : ℕ) (io : Io)
        → cluster < 65536
        → (io' : Io) × (fat_next_clus fat drive cluster io ≡ ok (fat_entry cluster, io'))
    fat_next_clus_lem cluster io h =
        let lba = fat.fat_start_lba + cluster * 2 / sect_size in
        let near : lba < 0xFFFFFFFFFFFF = omega (arith, disk.start) in
        let whole : u64 lba ≡ lba = omega arith in
        let (t, e) =
          ata_read-store_sectors drive disk.answers 0 lba 1 io.clus_buf io.time near
            (omega (arith, disk.start)) (omega arith) (omega arith) in
        fat_next_clus-of_read cluster io t
          (ap (λ l. ata_read drive 0 l 1 io.clus_buf io.time) whole ∙ e)

    pub nth_clus-lt : (n cluster : ℕ) → cluster < 65536 → nth_clus n cluster < 65536
    nth_clus-lt zero cluster h = h
    nth_clus-lt (suc n) cluster h = nth_clus-lt n (fat_entry cluster) (fat_entry-lt cluster)

    -- `seek` walks as many clusters as the offset has, and leaves the rest of the offset.
    pub seek-nth_clus :
        (fuel cluster offset : ℕ) (io : Io)
        → cluster < 65536
        → offset < fuel
        → (io' : Io) × (seek fat drive fuel cluster offset io
            ≡ ok (nth_clus (offset / clus_size fat) cluster, offset % clus_size fat, io'))
    unfolding seek
    seek-nth_clus zero cluster offset io h enough = absurd (omega arith)
    seek-nth_clus (suc fuel) cluster offset io h enough =
        elim (Bool-cases (leb (clus_size fat) offset)) [
          | inl far ↦
              let s = clus_size fat in
              let pos : 1 ≤ s = omega (arith, disk.cluster) in
              let reach : s ≤ offset = ground arith in
              let (io₁, e) = fat_next_clus_lem cluster io h in
              let (io₂, f) =
                seek-nth_clus fuel (fat_entry cluster) (offset - s) io₁ (fat_entry-lt cluster)
                  (omega arith) in
              let quotient : offset / s ≡ suc ((offset - s) / s) =
                div-eq-sub-div pos reach ∙ omega arith in
              (
                io₂,
                rw (far, e, ◌>>=◌) (f ∙ rw (quotient, mod-eq-sub-mod {n = offset} {m = s} reach)),
              )
          | inr near ↦
              let s = clus_size fat in
              let low : offset < s = ground arith in
              (io, rw (near, div-eq_of_lt low, mod-eq_of_lt low))
        ]

    sector_of :
        (c rest : ℕ) (io : Io)
        → rest < clus_size fat
        → (let lba = u64 (fat_clus2lba fat c + rest / sect_size) in
            let found : Outcome (ℕ × Io) =
              assert (ltb 0 lba) >> (let r : Outcome (ℕ × Io) = ok (lba, io) in r) in
            if fat_check_clus c then found else ok (0, io))
          ≡ ok (
            if leb 2 c && leb c 0xFFEF
                then fat.data_start_lba + fat.bpb.sec_per_clus * (c - 2) + rest / sect_size
                else 0,
            io,
          )
    unfolding fat_check_clus fat_clus2lba
    sector_of c rest io h =
        let same : (ltb 1 c && ltb c 0xFFF0) ≡ (leb 2 c && leb c 0xFFEF) = ground arith in
        elim (Bool-cases (leb 2 c && leb c 0xFFEF)) [
          | inl valid ↦
              let high : c - 2 ≤ 65536 = ground arith in
              let narrow : fat.bpb.sec_per_clus ≤ 256 = omega (arith, disk.cluster) in
              let area : fat.bpb.sec_per_clus * (c - 2) ≤ 256 * 65536 = mul-le-mul narrow high in
              let lba = fat.data_start_lba + fat.bpb.sec_per_clus * (c - 2) + rest / sect_size in
              let whole : u64
                    (u64 (fat.data_start_lba + fat.bpb.sec_per_clus * (c - 2)) + rest / sect_size)
                  ≡ lba =
                omega (arith, disk.area, disk.cluster, area) in
              let above : ltb 0 lba ≡ true = ground (arith, disk.area) in
              rw (same, valid, whole, above)
          | inr invalid ↦ rw (same, invalid)
        ]

    -- On a disk of bytes whose drive is ready within 100000 reads of its status and has data while
    -- sectors of a request are left, whose FAT starts below sector 2 ^ 32, whose data area starts at a
    -- sector from 1 up to below 2 ^ 33, and whose clusters have 1 to 255 sectors, for an entry with a
    -- 16-bit first cluster and an offset that is a multiple of 512, `fat_off2lba` ends without a failed
    -- assert. It follows the FAT as many times as the offset has whole clusters, and returns that
    -- cluster's sector for the rest of the offset, or 0 if this is no data cluster.
    pub fat_off2lba-nth_clus :
        (entry : DirEntry) (offset : ℕ) (io : Io)
        → entry.fst_clus < 65536
        → offset % sect_size ≡ 0
        → (io' : Io) × (fat_off2lba fat drive entry offset io ≡ (
            let c = nth_clus (offset / clus_size fat) entry.fst_clus in
            ok (
              if leb 2 c && leb c 0xFFEF
                  then fat.data_start_lba
                    + fat.bpb.sec_per_clus * (c - 2)
                    + offset % clus_size fat / sect_size
                  else 0,
              io',
            )))
    unfolding fat_off2lba
    fat_off2lba-nth_clus entry offset io h aligned =
        let (io', e) = seek-nth_clus (suc offset) entry.fst_clus offset io h (omega arith) in
        let c = nth_clus (offset / clus_size fat) entry.fst_clus in
        let start : (offset % sect_size == 0) ≡ true = ground arith in
        (
          io',
          rw (start, e, ◌>>=◌)
              (sector_of c (offset % clus_size fat) io'
                (mod-lt offset (omega (arith, disk.cluster)))),
        )
