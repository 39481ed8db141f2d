-- ===== src/Fs/Slice.antt =====
-- `fat_read` of kernel/fs.c: whole sectors of a file, along its clusters.
use native.Mathlib.Nat.{mod-lt, div-add-mod', mul-mod_right}
use fi_rststep.Prelude.{
  ℕ, suc, ◌+◌, ◌-◌, ◌*◌, ◌/◌, ◌%◌, ◌≤◌, ◌<◌, ◌≡◌, refl, sym, ap, ap₂, ◌∙◌, true, ◌==◌, leb, arith,
  Bool-cases, inl, inr, min, ◌⊎◌,
}
use fi_rststep.Prelude.Outcome.{ok, ◌>>=◌}
use fi_rststep.Prelude.Words.{u64}
use fi_rststep.Ata.{Bytes, Drive, sect_size}
use fi_rststep.Fs.{DirEntry, Fat, Io}
use fi_rststep.Fs.Cluster.{fat_check_clus, fat_clus2lba, clus_size, seek}
use fi_rststep.Fs.Chain.{IsDisk, nth_clus, seek-nth_clus}
use fi_rststep.Fs.Content.{
  AllData, with_content, with_content_none, clus_start, fat_clus2lba-clus_start,
  read_sectors-content,
}
use fi_rststep.Fs.File.{Read, read_sectors, read_rest, fat_read}
use fi_rststep.Fs.Rest.{read_rest-content}

module _ (fat : Fat) (drive : Drive) (disk : IsDisk fat drive) (first : ℕ)
    (narrow : first < 65536) where
  -- A cluster is a whole number of sectors.
  pub whole_sectors : (j : ℕ) → j * clus_size fat % sect_size ≡ 0
  whole_sectors j =
      regroup j fat.bpb.sec_per_clus ∙ mul-mod_right sect_size (j * fat.bpb.sec_per_clus)
    where
      regroup : (j k : ℕ) → j * (k * sect_size) % sect_size ≡ sect_size * (j * k) % sect_size
      regroup j k = ap (λ z. z % sect_size) (grind arith)

  -- The three steps of `fat_read`: finding the cluster, the read in it, and the other clusters.
  fat_read-steps :
      (dst offset size n c off lba : ℕ) (entry : DirEntry) (mem mem' : Bytes) (io io₁ io₂ : Io)
      (result : Read)
      → offset % sect_size ≡ 0
      → size % sect_size ≡ 0
      → seek fat drive (suc offset) entry.fst_clus offset io ≡ ok (c, off, io₁)
      → fat_check_clus c ≡ true
      → u64 (fat_clus2lba fat c + off / sect_size) ≡ lba
      → min (clus_size fat - off) size ≡ n
      → read_sectors fat drive dst lba (n / sect_size) mem io₁ ≡ ok (true, mem', io₂)
      → read_rest fat drive (suc size) dst size n c mem' io₂ ≡ result
      → fat_read fat drive dst offset size entry mem io ≡ result
  unfolding fat_read
  fat_read-steps dst offset size n c off lba entry mem mem' io io₁ io₂ result ho hs found valid
        at_lba some_bytes read last =
      let offset_test : (offset % sect_size == 0) ≡ true = ground arith in
      let size_test : (size % sect_size == 0) ≡ true = ground arith in
      rw (offset_test, size_test, found, ◌>>=◌, valid, at_lba, some_bytes, read) last

  -- `fat_read` of whole sectors whose clusters are data clusters reads the file's bytes.
  pub fat_read-content :
      (dst offset size : ℕ) (entry : DirEntry) (mem : Bytes) (io : Io)
      → entry.fst_clus ≡ first
      → AllData fat drive first (offset + size)
      → offset % sect_size ≡ 0
      → size % sect_size ≡ 0
      → 1 ≤ size
      → (io' : Io) × (fat_read fat drive dst offset size entry mem io
          ≡ ok (true, with_content fat drive first dst offset size mem, io'))
  fat_read-content dst offset size entry mem io same all ho hs pos =
      let w = clus_size fat in
      let q = offset / w in
      let off = offset % w in
      let c = nth_clus fat drive q first in
      let some_sectors : 1 ≤ w = omega (arith, disk.cluster) in
      let sum : q * w + off ≡ offset = div-add-mod' offset w in
      let inside : off < w = mod-lt offset some_sectors in
      let aligned : off % sect_size ≡ 0 = omega (arith, whole_sectors q) in
      let room : (w - off) % sect_size ≡ 0 = omega (arith, whole_sectors 1) in
      let n = min (w - off) size in
      let n_pos : 1 ≤ n = ground arith in
      let n_aligned : n % sect_size ≡ 0 = ground arith in
      let n_fits : off + n ≤ w = ground arith in
      let n_le : n ≤ size = ground arith in
      let valid : fat_check_clus c ≡ true = all q (omega arith) in
      let (io₁, found) =
        seek-nth_clus fat drive disk (suc offset) first offset io narrow (omega arith) in
      let (lba, low) = fat_clus2lba-clus_start fat drive disk c valid in
      let lba' : u64 (fat_clus2lba fat c + off / sect_size) ≡ clus_start fat c + off / sect_size =
        rw lba (omega (arith, disk.cluster)) in
      let (io₂, read) =
        read_sectors-content fat drive disk first dst offset 0 n q off mem io₁ valid (omega arith)
          aligned n_aligned n_pos n_fits in
      let found' = ap (λ z. seek fat drive (suc offset) z offset io) same ∙ found in
      let count : 0 + n ≡ n = omega arith in
      let read' : read_sectors fat drive dst (clus_start fat c + off / sect_size) (n / sect_size)
            mem io₁
          ≡ ok (true, with_content fat drive first dst offset n mem, io₂) =
        ap₂
          (λ d m.
            read_sectors fat drive d (clus_start fat c + off / sect_size) (n / sect_size) m io₁)
          (omega arith) (sym (with_content_none fat drive first dst offset mem))
        ∙ read
        ∙ ap (λ k. ok (true, with_content fat drive first dst offset k mem, io₂)) count in
      let (io₃, last) =
        read_rest-content fat drive disk first narrow (suc size) dst offset size n q mem io₂ all
          (either off size w q sum inside) n_le n_aligned hs (omega arith) in
      (
        io₃,
        fat_read-steps dst offset size n c off (clus_start fat c + off / sect_size) entry mem
            (with_content fat drive first dst offset n mem) io io₁ io₂
            (ok (true, with_content fat drive first dst offset size mem, io₃)) ho hs found' valid
            lba' refl read' last,
      )
    where
      either :
          (off size w q : ℕ)
          → q * w + off ≡ offset
          → off < w
          → (min (w - off) size ≡ size) ⊎ (offset + min (w - off) size ≡ suc q * w)
      either off size w q sum inside = elim (Bool-cases (leb size (w - off))) [
        | inl all ↦ inl (ground arith)
        | inr more ↦ let n : min (w - off) size ≡ w - off = ground arith in inr (omega (arith, n))
      ]
