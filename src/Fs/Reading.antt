-- ===== src/Fs/Reading.antt =====
-- `file_read` of kernel/fs.c: any range of a file's bytes, by its parts in whole and in broken sectors.
use fi_rststep.Prelude.{
  ℕ, ◌+◌, ◌-◌, ◌≤◌, ◌<◌, ◌≡◌, ◌≢◌, refl, sym, ap, true, false, ◌||◌, ◌==◌, leb, arith, Bool-cases,
  inl, inr, min, some,
}
use fi_rststep.Prelude.Outcome.{ok, ◌>>=◌}
use fi_rststep.Prelude.Words.{null}
use fi_rststep.Ata.{Bytes, Drive}
use fi_rststep.Fs.{DirEntry, Fat, Io}
use fi_rststep.Fs.Chain.{IsDisk}
use fi_rststep.Fs.Content.{AllData, with_content, with_content_none}
use fi_rststep.Fs.File.{read_head, read_middle, read_tail, file_read}
use fi_rststep.Fs.Parts.{read_head-content, read_middle-content, read_tail-content}

-- The parts of `file_read`, one behind the other.
file_read-steps :
    (fat : Fat) (drive : Drive) (buf : Bytes) (dst offset size₀ size n₁ n₂ n₃ : ℕ)
    (entry : DirEntry) (mem mem₁ mem₂ mem₃ : Bytes) (io io₁ io₂ io₃ : Io)
    → ((dst == null) || leb entry.file_size offset) ≡ false
    → min size₀ (entry.file_size - offset) ≡ size
    → read_head fat drive buf dst offset size entry mem io ≡ ok (true, n₁, mem₁, io₁)
    → read_middle fat drive n₁ dst offset size entry mem₁ io₁ ≡ ok (true, n₂, mem₂, io₂)
    → read_tail fat drive buf n₂ dst offset size entry mem₂ io₂ ≡ ok (true, n₃, mem₃, io₃)
    → file_read fat drive buf dst offset size₀ (some entry) mem io ≡ ok (n₃, mem₃, io₃)
unfolding file_read
file_read-steps fat drive buf dst offset size₀ size n₁ n₂ n₃ entry mem mem₁ mem₂ mem₃ io io₁ io₂ io₃
      go amount first second third =
    rw (go, amount, first, ◌>>=◌) (rw (second, ◌>>=◌) (rw (third, ◌>>=◌) refl))

file_read_inside :
    (fat : Fat) (drive : Drive) (entry : DirEntry) (buf mem : Bytes) (dst offset size₀ : ℕ)
    (io : Io)
    → IsDisk fat drive
    → entry.fst_clus < 65536
    → AllData fat drive entry.fst_clus entry.file_size
    → dst ≢ null
    → offset < entry.file_size
    → (io' : Io) × (file_read fat drive buf dst offset size₀ (some entry) mem io
        ≡ ok (
          min size₀ (entry.file_size - offset),
          with_content fat drive entry.fst_clus dst offset
              (min size₀ (entry.file_size - offset))
              mem,
          io',
        ))
file_read_inside fat drive entry buf mem dst offset size₀ io disk narrow all given start =
    let size = min size₀ (entry.file_size - offset) in
    let fits : offset + size ≤ entry.file_size = ground arith in
    let go : ((dst == null) || leb entry.file_size offset) ≡ false = ground arith in
    let (n₁, io₁, first, le₁, at₁) =
      read_head-content fat drive disk entry narrow buf dst offset size all fits start mem io in
    let (n₂, io₂, second, le₂, short, at₂) =
      read_middle-content fat drive disk entry narrow buf dst offset size all fits start n₁ mem io₁
        le₁ at₁ in
    let (io₃, third) =
      read_tail-content fat drive disk entry narrow buf dst offset size all fits start n₂ mem io₂
        le₂ short at₂ in
    let memory = λ (r : ℕ). with_content fat drive entry.fst_clus dst offset r mem in
    (
      io₃,
      file_read-steps fat drive buf dst offset size₀ size n₁ n₂ size entry mem (memory n₁)
          (memory n₂) (memory size) io io₁ io₂ io₃ go refl first second third,
    )

-- On a disk of bytes whose drive is ready within 100000 reads of its status and has data while
-- sectors of a request are left, whose FAT starts below sector 2 ^ 32, whose data
-- area starts at a sector from 1 up to below 2 ^ 33, and whose clusters have 1 to 255 sectors, for
-- a file with a 16-bit first cluster, all of whose clusters are data clusters, and a destination
-- that is not NULL, `file_read` ends without a failed assert at any offset and size. It returns
-- the size, or what the file has behind the offset if this is less, and puts just these bytes of
-- the file, as the chain of its clusters gives them, at the destination, with the rest of memory
-- unchanged.
pub file_read-content :
    (fat : Fat) (drive : Drive) (entry : DirEntry) (buf mem : Bytes) (dst offset size : ℕ) (io : Io)
    → IsDisk fat drive
    → entry.fst_clus < 65536
    → AllData fat drive entry.fst_clus entry.file_size
    → dst ≢ null
    → (io' : Io) × (file_read fat drive buf dst offset size (some entry) mem io ≡ (
        let n = min size (entry.file_size - offset) in
        ok (n, with_content fat drive entry.fst_clus dst offset n mem, io')))
unfolding file_read
file_read-content fat drive entry buf mem dst offset size io disk narrow all given =
    elim (Bool-cases (leb entry.file_size offset)) [
      | inr inside ↦
          file_read_inside fat drive entry buf mem dst offset size io disk narrow all given
            (ground arith)
      | inl behind ↦
          let nothing : min size (entry.file_size - offset) ≡ 0 = ground arith in
          let stop : ((dst == null) || leb entry.file_size offset) ≡ true = ground arith in
          (
            io,
            rw (stop, nothing)
                (ap (λ m. ok (0, m, io))
                  (sym (with_content_none fat drive entry.fst_clus dst offset mem))),
          )
    ]
