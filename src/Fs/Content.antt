-- ===== src/Fs/Content.antt =====
-- The bytes of a file, as the chain of its clusters gives them, and one read of a part of a cluster.
use native.Mathlib.Nat.{
  mul-le-mul, mul-add-div_right, mul-add-mod_self_right, div-eq_of_lt, mod-eq_of_lt,
}
use fi_rststep.Prelude.{
  ℕ, ◌+◌, ◌-◌, ◌*◌, ◌/◌, ◌%◌, ◌≤◌, ◌<◌, ◌≡◌, sym, ap, ap₂, ◌∙◌, true, ◌&&◌, leb, ltb, if◌then◌else◌,
  arith, Bool-cases, inl, inr, fun_ext,
}
use fi_rststep.Prelude.Outcome.{ok, ◌>>=◌}
use fi_rststep.Ata.{Bytes, Drive, sect_size}
use fi_rststep.Ata.Read.{store_sectors, ata_read-store_sectors}
use fi_rststep.Fs.{Fat, Io}
use fi_rststep.Fs.Cluster.{fat_check_clus, fat_clus2lba, clus_size}
use fi_rststep.Fs.Chain.{IsDisk, nth_clus}
use fi_rststep.Fs.File.{read_sectors}

-- byte `y` of a region of whole sectors
abbrev pub byte_in : Drive → ℕ → ℕ → ℕ
byte_in drive lba y = drive.sector (lba + y / sect_size) (y % sect_size)

-- the first sector of a data cluster
abbrev pub clus_start : Fat → ℕ → ℕ
clus_start fat c = fat.data_start_lba + fat.bpb.sec_per_clus * (c - 2)

module _ (fat : Fat) (drive : Drive) where
  -- byte `x` of the file whose first cluster is given
  abbrev pub content : ℕ → ℕ → ℕ
  content first x =
      byte_in drive (clus_start fat (nth_clus fat drive (x / clus_size fat) first))
        (x % clus_size fat)

  -- The clusters of the file's bytes below `limit` are data clusters.
  abbrev pub AllData : ℕ → ℕ → Type 0
  AllData first limit =
      (j : ℕ) → j * clus_size fat < limit → fat_check_clus (nth_clus fat drive j first) ≡ true

  -- memory with `n` bytes of the file, from its byte `offset` on, at `dst`
  abbrev pub with_content : ℕ → ℕ → ℕ → ℕ → Bytes → Bytes
  with_content first dst offset n mem a =
      if leb dst a && ltb a (dst + n) then content first (offset + (a - dst)) else mem a

  pub with_content_none :
      (first dst offset : ℕ) (mem : Bytes) → with_content first dst offset 0 mem ≡ mem
  with_content_none first dst offset mem = fun_ext λ a. ground arith

  -- A stretch inside cluster number `q` of the file.
  pub content_at :
      (first q y : ℕ)
      → y < clus_size fat
      → content first (q * clus_size fat + y)
        ≡ byte_in drive (clus_start fat (nth_clus fat drive q first)) y
  content_at first q y h =
      let pos : 0 < clus_size fat = omega arith in
      let quotient : (q * clus_size fat + y) / clus_size fat ≡ q =
        mul-add-div_right pos q y ∙ ap (λ z. q + z) (div-eq_of_lt h) ∙ omega arith in
      let remainder : (q * clus_size fat + y) % clus_size fat ≡ y =
        mul-add-mod_self_right q (clus_size fat) y ∙ mod-eq_of_lt h in
      rw (quotient, remainder)

  -- What a read of sectors adds to the bytes that are there.
  with_content_step :
      (first dst offset r n q off : ℕ) (mem : Bytes) (a : ℕ)
      → offset + r ≡ q * clus_size fat + off
      → off % sect_size ≡ 0
      → n % sect_size ≡ 0
      → off + n ≤ clus_size fat
      → store_sectors drive
          (n / sect_size)
          (dst + r)
          (clus_start fat (nth_clus fat drive q first) + off / sect_size)
          (with_content first dst offset r mem)
          a
        ≡ with_content first dst offset (r + n) mem a
  with_content_step first dst offset r n q off mem a e ho hn fits =
      let y = off + (a - (dst + r)) in
      let whole : n / sect_size * sect_size ≡ n = omega arith in
      elim (Bool-cases (leb (dst + r) a && ltb a (dst + r + n / sect_size * sect_size))) [
        | inl here ↦
            let in_clus : y < clus_size fat = ground arith in
            let place : offset + (a - dst) ≡ q * clus_size fat + y = ground arith in
            let there : (leb dst a && ltb a (dst + (r + n))) ≡ true = ground arith in
            let sector : clus_start fat (nth_clus fat drive q first)
                  + off / sect_size
                  + (a - (dst + r)) / sect_size
                ≡ clus_start fat (nth_clus fat drive q first) + y / sect_size =
              omega arith in
            let rest : (a - (dst + r)) % sect_size ≡ y % sect_size = omega arith in
            rw (here, there)
              (ap₂ drive.sector sector rest
                ∙ sym (content_at first q y in_clus)
                ∙ ap (content first) (sym place))
        | inr out ↦
            let same : (leb dst a && ltb a (dst + (r + n))) ≡ (leb dst a && ltb a (dst + r)) =
              ground arith in
            rw (out, same)
      ]

  module _ (disk : IsDisk fat drive) where
    -- The sectors of a data cluster lie within the reach of the drive.
    pub fat_clus2lba-clus_start :
        (c : ℕ)
        → fat_check_clus c ≡ true
        → (fat_clus2lba fat c ≡ clus_start fat c) × (clus_start fat c < 8589934592 + 256 * 65536)
    unfolding fat_check_clus fat_clus2lba
    fat_clus2lba-clus_start c valid =
        let high : c - 2 ≤ 65536 = ground arith in
        let narrow : fat.bpb.sec_per_clus ≤ 256 = omega (arith, disk.cluster) in
        let area : fat.bpb.sec_per_clus * (c - 2) ≤ 256 * 65536 = mul-le-mul narrow high in
        (omega (arith, disk.area, area), omega (arith, disk.area, area))

    -- One read inside a cluster continues the file's bytes.
    pub read_sectors-content :
        (first dst offset r n q off : ℕ) (mem : Bytes) (io : Io)
        → fat_check_clus (nth_clus fat drive q first) ≡ true
        → offset + r ≡ q * clus_size fat + off
        → off % sect_size ≡ 0
        → n % sect_size ≡ 0
        → 1 ≤ n
        → off + n ≤ clus_size fat
        → (io' : Io) × (read_sectors fat drive
              (dst + r)
              (clus_start fat (nth_clus fat drive q first) + off / sect_size)
              (n / sect_size)
              (with_content first dst offset r mem)
              io
            ≡ ok (true, with_content first dst offset (r + n) mem, io'))
    unfolding read_sectors
    read_sectors-content first dst offset r n q off mem io valid e ho hn pos fits =
        let (same, low) = fat_clus2lba-clus_start (nth_clus fat drive q first) valid in
        let lba = clus_start fat (nth_clus fat drive q first) + off / sect_size in
        let (t, read) =
          ata_read-store_sectors drive disk.answers (dst + r) lba (n / sect_size)
            (with_content first dst offset r mem) io.time (omega (arith, disk.cluster))
            (omega (arith, disk.cluster)) (omega arith) (omega (arith, disk.cluster)) in
        let after : Io = record io { time = t } in
        (
          after,
          rw (read, ◌>>=◌)
              (ap (λ m. ok (true, m, after))
                (fun_ext (λ a. with_content_step first dst offset r n q off mem a e ho hn fits))),
        )
