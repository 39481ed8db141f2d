-- ===== src/Fs/Find.antt =====
-- kernel/fs.c: from a path to a directory entry.
use fi_rststep.Prelude.{
  ℕ, zero, suc, ◌+◌, Bool, List, [], ◌∷◌, Option, none, some, ◌==◌, bit_and, if◌then◌else◌, length,
}
use fi_rststep.Prelude.Outcome.{Outcome, ok, panic, endless, ◌>>=◌, ◌>>◌, assert}
use fi_rststep.Prelude.Words.{u32, u64}
use fi_rststep.Ata.{Bytes, Drive, sect_size, ata_read}
use fi_rststep.Fs.{DirEntry, Fat, Io, entry_at}
use fi_rststep.Fs.Name.{path_separator, next_name, fat_name_cmp}
use fi_rststep.Fs.Cluster.{fat_off2lba}

abbrev pub fat_attr_directory : ℕ
fat_attr_directory = 0x10

-- the static buffers of `fat_find_entry`, with the state of the reads
pub record Search : Type 0 where
  pub buf : Bytes
  pub namebuf : Bytes
  pub io : Io

-- The entries of a sector from offset `i` on, `left` of them; an empty name ends the sector.
unfoldable pub scan_sector : ℕ → ℕ → Bytes → Bytes → Option DirEntry
scan_sector zero i buf name = none
scan_sector (suc left) i buf name =
    let rest = scan_sector left (i + 32) buf name in
    if buf i == 0
    then none
    else (if fat_name_cmp (entry_at buf i) name then some (entry_at buf i) else rest)

abbrev pub entries_per_sector : ℕ
entries_per_sector = 16

module _ (fat : Fat) (drive : Drive) where
  -- `ata_read(buf, lba, 1)`, whose status is dropped
  unfoldable pub load_sector : ℕ → Search → Outcome Search
  load_sector lba s = do
    (done, buf, t) ← ata_read drive 0 lba 1 s.buf s.io.time
    ok (record s { buf = buf; io = record s.io { time = t } })

  -- the sectors of the root directory from `i` on, `left` of them
  unfoldable pub scan_root : ℕ → ℕ → Search → Outcome (Option DirEntry × Search)
  scan_root zero i s = ok (none, s)
  scan_root (suc left) i s = do
    s' ← load_sector (u64 (fat.root_start_lba + i)) s
    elim (scan_sector entries_per_sector 0 s'.buf s'.namebuf) [
      | some e ↦ ok (some e, s')
      | none ↦ scan_root left (i + 1) s'
    ]

  -- The sectors of a directory from `offset` on. On 32 bits the offset comes round after 2 ^ 23 of
  -- them: a directory that has not ended by then never does.
  unfoldable pub scan_dir : ℕ → DirEntry → ℕ → Search → Outcome (Option DirEntry × Search)
  scan_dir zero entry offset s = endless
  scan_dir (suc fuel) entry offset s = do
    (lba, io) ← fat_off2lba fat drive entry offset s.io
    if lba == 0 then ok (none, record s { io = io }) else (do
      s' ← load_sector lba (record s { io = io })
      elim (scan_sector entries_per_sector 0 s'.buf s'.namebuf) [
        | some e ↦ ok (some e, s')
        | none ↦ scan_dir fuel entry (u32 (offset + sect_size)) s'
      ])

  -- `while (*path != '\0')`: each round takes at least a byte off the path
  unfoldable pub walk_path : ℕ → List ℕ → DirEntry → Search → Outcome (Option DirEntry × Search)
  walk_path zero path cur_entry s = endless
  walk_path (suc fuel) [] cur_entry s = ok (some cur_entry, s)
  walk_path (suc fuel) (c ∷ r) cur_entry s = do
    (path, namebuf) ← next_name (c ∷ r) s.namebuf
    let s₁ : Search = record s { namebuf = namebuf }
    if namebuf 0 == 0
        then ok (some cur_entry, s₁)
        else (if bit_and cur_entry.attr fat_attr_directory == 0 then ok (none, s₁) else (do
          (found, s₂) ← scan_dir 8388609 cur_entry 0 s₁
          elim found [ none ↦ ok (none, s₂) | some e ↦ walk_path fuel path e s₂ ]))

  -- the entry that is stored through `out_entry`, or `none` for -1
  unfoldable pub fat_find_entry : List ℕ → Search → Outcome (Option DirEntry × Search)
  fat_find_entry [] s = panic
  fat_find_entry (c ∷ r) s = do
    assert (c == path_separator)
    (path, namebuf) ← next_name (c ∷ r) s.namebuf
    (found, s') ← scan_root fat.root_num_sectors 0 (record s { namebuf = namebuf })
    elim found [ none ↦ ok (none, s') | some e ↦ walk_path (suc (length path)) path e s' ]

  -- `file_open`; `path` and `out_file` are NULL or not
  unfoldable pub file_open : Option (List ℕ) → Bool → Search → Outcome (Option DirEntry × Search)
  file_open none out_file s = ok (none, s)
  file_open (some path) out_file s = if out_file then fat_find_entry path s else ok (none, s)
