-- ===== src/Fs/Rest.antt =====
-- The loop of `fat_read` in kernel/fs.c: the clusters of a file behind the first one that is read.
use fi_rststep.Prelude.{
  ℕ, zero, suc, ◌+◌, ◌-◌, ◌*◌, ◌/◌, ◌%◌, ◌≤◌, ◌<◌, ◌≡◌, refl, sym, ap, subst, ◌∙◌, true, false, leb,
  ltb, arith, Bool-cases, inl, inr, ◌⊎◌,
}
use fi_rststep.Prelude.Outcome.{ok, ◌>>=◌}
use fi_rststep.Ata.{Bytes, Drive, sect_size}
use fi_rststep.Fs.{Fat, Io}
use fi_rststep.Fs.Cluster.{fat_check_clus, fat_clus2lba, clus_size}
use fi_rststep.Fs.Chain.{IsDisk, nth_clus, fat_entry, fat_next_clus_lem, nth_clus-lt}
use fi_rststep.Fs.Content.{
  AllData, with_content, clus_start, fat_clus2lba-clus_start, read_sectors-content,
}
use fi_rststep.Fs.File.{read_next, read_rest}

module _ (fat : Fat) (drive : Drive) (disk : IsDisk fat drive) (first : ℕ)
    (narrow : first < 65536) where
  nth_clus-suc :
      (n c : ℕ) → nth_clus fat drive (suc n) c ≡ fat_entry fat drive (nth_clus fat drive n c)
  nth_clus-suc zero c = refl
  nth_clus-suc (suc n) c = nth_clus-suc n (fat_entry fat drive c)

  -- The next cluster's bytes continue those that were read.
  read_next-content :
      (limit dst offset r n q : ℕ) (mem : Bytes) (io : Io)
      → AllData fat drive first limit
      → offset + r ≡ suc q * clus_size fat
      → offset + r < limit
      → n % sect_size ≡ 0
      → 1 ≤ n
      → n ≤ clus_size fat
      → (io' : Io) × (read_next fat drive
            (dst + r)
            n
            (nth_clus fat drive q first)
            (with_content fat drive first dst offset r mem)
            io
          ≡ ok (
            nth_clus fat drive (suc q) first,
            true,
            with_content fat drive first dst offset (r + n) mem,
            io',
          ))
  unfolding read_next
  read_next-content limit dst offset r n q mem io all e within hn pos fits =
      let c = nth_clus fat drive q first in
      let (io₁, next) =
        fat_next_clus_lem fat drive disk c io (nth_clus-lt fat drive disk q first narrow) in
      let valid : fat_check_clus (nth_clus fat drive (suc q) first) ≡ true =
        all (suc q) (omega arith) in
      let valid' : fat_check_clus (fat_entry fat drive c) ≡ true =
        subst (λ z. fat_check_clus z ≡ true) (nth_clus-suc q first) valid in
      let (lba, low) =
        fat_clus2lba-clus_start fat drive disk (nth_clus fat drive (suc q) first) valid in
      let (io₂, read) =
        read_sectors-content fat drive disk first dst offset r n (suc q) 0 mem io₁ valid
          (omega arith) refl hn pos (omega arith) in
      let lba' : fat_clus2lba fat (fat_entry fat drive c)
          ≡ clus_start fat (nth_clus fat drive (suc q) first) + 0 / sect_size =
        ap (fat_clus2lba fat) (sym (nth_clus-suc q first)) ∙ lba ∙ omega arith in
      (
        io₂,
        rw (next, ◌>>=◌, valid', lba', read)
            (ap (λ z. ok (z, true, with_content fat drive first dst offset (r + n) mem, io₂))
              (sym (nth_clus-suc q first))),
      )

  -- The clusters behind the first one give the rest.
  pub read_rest-content :
      (fuel dst offset size r q : ℕ) (mem : Bytes) (io : Io)
      → AllData fat drive first (offset + size)
      → ((r ≡ size) ⊎ (offset + r ≡ suc q * clus_size fat))
      → r ≤ size
      → r % sect_size ≡ 0
      → size % sect_size ≡ 0
      → size - r < fuel
      → (io' : Io) × (read_rest fat drive fuel dst size r
            (nth_clus fat drive q first)
            (with_content fat drive first dst offset r mem)
            io
          ≡ ok (true, with_content fat drive first dst offset size mem, io'))
  unfolding read_rest
  read_rest-content zero dst offset size r q mem io all e le hr hs enough = absurd (omega arith)
  read_rest-content (suc fuel) dst offset size r q mem io all (inl done) le hr hs enough =
      let w = clus_size fat in
      let pos : 1 ≤ w = omega (arith, disk.cluster) in
      let no_cluster : leb w (size - r) ≡ false = ground arith in
      let no_part : ltb r size ≡ false = ground arith in
      (
        io,
        rw (no_cluster, no_part)
            (ap (λ k. ok (true, with_content fat drive first dst offset k mem, io)) done),
      )
  read_rest-content (suc fuel) dst offset size r q mem io all (inr e) le hr hs enough =
      let w = clus_size fat in
      let pos : 1 ≤ w = omega (arith, disk.cluster) in
      elim (Bool-cases (leb w (size - r))) [
        | inl whole ↦
            let room : w ≤ size - r = ground arith in
            let (io₁, read) =
              read_next-content (offset + size) dst offset r w q mem io all e (omega arith)
                (omega arith) pos (omega arith) in
            let (io₂, rest) =
              read_rest-content fuel dst offset size (r + w) (suc q) mem io₁ all (inr (omega arith))
                (omega arith) (omega arith) hs (omega arith) in
            (io₂, rw (whole, read, ◌>>=◌) rest)
        | inr part ↦
            let short : size - r < w = ground arith in
            elim (Bool-cases (ltb r size)) [
              | inl some_left ↦
                  let more : r < size = ground arith in
                  let (io₁, read) =
                    read_next-content (offset + size) dst offset r (size - r) q mem io all e
                      (omega arith) (omega arith) (omega arith) (omega arith) in
                  let sum : r + (size - r) ≡ size = omega arith in
                  (
                    io₁,
                    rw (part, some_left, read, ◌>>=◌)
                        (ap (λ k. ok (true, with_content fat drive first dst offset k mem, io₁))
                          sum),
                  )
              | inr none_left ↦
                  let done : r ≡ size = ground arith in
                  (
                    io,
                    rw (part, none_left)
                        (ap (λ k. ok (true, with_content fat drive first dst offset k mem, io))
                          done),
                  )
            ]
      ]
