-- ===== src/Fs/Parts.antt =====
-- The three parts of `file_read` in kernel/fs.c: the bytes in front of the first whole sector, the whole
-- sectors, and the bytes behind them.
use fi_rststep.Prelude.{
  ℕ, ◌+◌, ◌-◌, ◌*◌, ◌/◌, ◌%◌, ◌≤◌, ◌<◌, ◌≡◌, refl, sym, ap, ◌∙◌, true, ◌&&◌, ◌==◌, leb, ltb, arith,
  Bool-cases, inl, inr, min, fun_ext,
}
use fi_rststep.Prelude.Outcome.{ok, ◌>>=◌}
use fi_rststep.Ata.{Bytes, Drive, sect_size}
use fi_rststep.Fs.{DirEntry, Fat, Io}
use fi_rststep.Fs.Chain.{IsDisk}
use fi_rststep.Fs.Content.{AllData, content, with_content, with_content_none}
use fi_rststep.Fs.Slice.{whole_sectors, fat_read-content}
use fi_rststep.Fs.File.{copy_out, read_head, read_middle, read_tail}

module _ (fat : Fat) (drive : Drive) (first : ℕ) where
  -- Bytes copied out of a buffer that holds a sector of the file.
  copy_out_content :
      (base so dst n : ℕ) (buf mem : Bytes) (a : ℕ)
      → so + n ≤ sect_size
      → copy_out (with_content fat drive first 0 base sect_size buf) so dst n mem a
        ≡ with_content fat drive first dst (base + so) n mem a
  copy_out_content base so dst n buf mem a fits = elim (Bool-cases (leb dst a && ltb a (dst + n))) [
    | inl here ↦
        let there : (leb 0 (so + (a - dst)) && ltb (so + (a - dst)) (0 + sect_size)) ≡ true =
          ground arith in
        rw (here, there) (ap (content fat drive first) (omega arith))
    | inr out ↦ rw out
  ]

  -- Two stretches one behind the other are one.
  with_content_append :
      (dst offset r k : ℕ) (mem : Bytes) (a : ℕ)
      → with_content fat drive first
          (dst + r)
          (offset + r)
          k
          (with_content fat drive first dst offset r mem)
          a
        ≡ with_content fat drive first dst offset (r + k) mem a
  with_content_append dst offset r k mem a =
      elim (Bool-cases (leb (dst + r) a && ltb a (dst + r + k))) [
        | inl here ↦
            let there : (leb dst a && ltb a (dst + (r + k))) ≡ true = ground arith in
            let place : offset + r + (a - (dst + r)) ≡ offset + (a - dst) = ground arith in
            rw (here, there) (ap (content fat drive first) place)
        | inr out ↦
            let same : (leb dst a && ltb a (dst + (r + k))) ≡ (leb dst a && ltb a (dst + r)) =
              ground arith in
            rw (out, same)
      ]

module _ (fat : Fat) (drive : Drive) (disk : IsDisk fat drive) (entry : DirEntry)
    (narrow : entry.fst_clus < 65536) (buf : Bytes) (dst offset size : ℕ)
    (all : AllData fat drive entry.fst_clus entry.file_size)
    (fits : offset + size ≤ entry.file_size) (start : offset < entry.file_size) where
  -- the memory when `r` bytes are read
  abbrev pub got : ℕ → Bytes → Bytes
  got r mem = with_content fat drive entry.fst_clus dst offset r mem

  -- A whole sector that begins inside the file has data clusters.
  sector_data :
      (x : ℕ)
      → x % sect_size ≡ 0
      → x < entry.file_size
      → AllData fat drive entry.fst_clus (x + sect_size)
  sector_data x aligned inside j h =
      all j (omega (arith, whole_sectors fat drive disk entry.fst_clus narrow j))

  -- The part in front of the first whole sector; what is left begins at a sector.
  pub read_head-content :
      (mem : Bytes) (io : Io)
      → (r : ℕ) × (io' : Io) × (read_head fat drive buf dst offset size entry mem io
          ≡ ok (true, r, got r mem, io'))
        × (r ≤ size)
        × (r < size → (offset + r) % sect_size ≡ 0)
  unfolding read_head
  read_head-content mem io = elim (Bool-cases (offset % sect_size == 0)) [
    | inl aligned ↦ (
      0,
      io,
      rw aligned (
          ap (λ m. ok (true, 0, m, io))
            (sym (with_content_none fat drive entry.fst_clus dst offset mem))),
      omega arith,
      λ h. ground arith,
    )
    | inr broken ↦
        let so = offset % sect_size in
        let base = offset - so in
        let n = min size (sect_size - so) in
        let (io', e) =
          fat_read-content fat drive disk entry.fst_clus narrow 0 base sect_size entry buf io refl
            (sector_data base (omega arith) (omega arith)) (omega arith) refl (omega arith) in
        let n_fits : so + n ≤ sect_size = ground arith in
        let n_le : n ≤ size = ground arith in
        let place : base + so ≡ offset = omega arith in
        let copied : copy_out (with_content fat drive entry.fst_clus 0 base sect_size buf) so dst n
              mem
            ≡ got n mem =
          fun_ext (λ a.
            copy_out_content fat drive entry.fst_clus base so dst n buf mem a n_fits
            ∙ ap (λ x. with_content fat drive entry.fst_clus dst x n mem a) place) in
        (
          n,
          io',
          rw (broken, e, ◌>>=◌) (ap (λ m. ok (true, n, m, io')) copied),
          n_le,
          λ h. ground arith,
        )
  ]

  -- The whole sectors behind the head.
  pub read_middle-content :
      (r : ℕ) (mem : Bytes) (io : Io)
      → r ≤ size
      → (r < size → (offset + r) % sect_size ≡ 0)
      → (r' : ℕ) × (io' : Io) × (read_middle fat drive r dst offset size entry (got r mem) io
          ≡ ok (true, r', got r' mem, io'))
        × (r' ≤ size)
        × (size - r' < sect_size)
        × (r' < size → (offset + r') % sect_size ≡ 0)
  unfolding read_middle
  read_middle-content r mem io le aligned = elim (Bool-cases (leb sect_size (size - r))) [
    | inr few ↦ (r, io, rw few, le, ground arith, aligned)
    | inl many ↦
        let some_sectors : sect_size ≤ size - r = ground arith in
        let at_sector : (offset + r) % sect_size ≡ 0 = aligned (omega arith) in
        let k = (size - r) / sect_size * sect_size in
        let (io', e) =
          fat_read-content fat drive disk entry.fst_clus narrow (dst + r) (offset + r) k entry
            (got r mem) io refl (λ j h. all j (omega arith)) at_sector (omega arith)
            (omega arith) in
        let joined : with_content fat drive entry.fst_clus (dst + r) (offset + r) k (got r mem)
            ≡ got (r + k) mem =
          fun_ext (with_content_append fat drive entry.fst_clus dst offset r k mem) in
        (
          r + k,
          io',
          rw (many, e, ◌>>=◌) (ap (λ m. ok (true, r + k, m, io')) joined),
          omega arith,
          omega arith,
          λ h. omega arith,
        )
  ]

  -- What is left of the last sector.
  pub read_tail-content :
      (r : ℕ) (mem : Bytes) (io : Io)
      → r ≤ size
      → size - r < sect_size
      → (r < size → (offset + r) % sect_size ≡ 0)
      → (io' : Io) × (read_tail fat drive buf r dst offset size entry (got r mem) io
          ≡ ok (true, size, got size mem, io'))
  unfolding read_tail
  read_tail-content r mem io le short aligned = elim (Bool-cases (ltb r size)) [
    | inr done ↦
        let same : r ≡ size = ground arith in
        (io, rw done (ap (λ k. ok (true, k, got k mem, io)) same))
    | inl some_left ↦
        let more : r < size = ground arith in
        let k = size - r in
        let total : r + k ≡ size = omega arith in
        let (io', e) =
          fat_read-content fat drive disk entry.fst_clus narrow 0 (offset + r) sect_size entry buf
            io refl (sector_data (offset + r) (aligned more) (omega arith)) (aligned more) refl
            (omega arith) in
        let copied : copy_out (with_content fat drive entry.fst_clus 0 (offset + r) sect_size buf) 0
              (dst + r) k (got r mem)
            ≡ got (r + k) mem =
          fun_ext (λ a.
            copy_out_content fat drive entry.fst_clus (offset + r) 0 (dst + r) k buf (got r mem) a
              (omega arith)
            ∙ ap (λ x. with_content fat drive entry.fst_clus (dst + r) x k (got r mem) a)
                (omega arith)
            ∙ with_content_append fat drive entry.fst_clus dst offset r k mem a) in
        (
          io',
          rw (some_left, e, ◌>>=◌)
              (ap (λ m. ok (true, r + k, m, io')) copied
                ∙ ap (λ n. ok (true, n, got n mem, io')) total),
        )
  ]
