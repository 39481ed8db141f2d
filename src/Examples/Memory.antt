-- ===== src/Examples/Memory.antt =====
-- kernel/pmu.c, kernel/ata.c and kernel/fs.c on concrete inputs.
use fi_rststep.Prelude.{
  ℕ, ◌+◌, ◌*◌, ◌%◌, ◌≤◌, ◌<◌, ◌≡◌, refl, true, false, List, [], ◌∷◌, arith, ◌==◌, if◌then◌else◌,
  suc, ◌-◌, ◌⊎◌, leb, ltb, ◌&&◌,
}
use fi_rststep.Prelude.Outcome.{ok, panic}
use fi_rststep.Pmu.{Pmu, pmu_alloc}
use fi_rststep.Pmu.Bitmap.{Bytes, is_bit_set, set_bit}
use fi_rststep.Pmu.Bitmap.Laws.{IsBytes, is_bit_set-set_bit}
use fi_rststep.Pmu.Chain.{IsPmu, has_page, has, Cell}
use fi_rststep.Pmu.Alloc.{pmu_alloc-lowest}
use fi_rststep.Pmu.Record.{pmu_free, pmu_init}
use fi_rststep.Pmu.Free.{pmu_free-added}
use fi_rststep.Pmu.Twice.{pmu_free_twice}
use fi_rststep.Pmu.Init.{no_marks, no_marks_lem, no_marks-IsBytes, pmu_init-IsPmu}
use fi_rststep.Ata.{Drive, ata_read, ata_write}
use fi_rststep.Ata.Partial.{Comes, ata_read-partial}
use fi_rststep.Ata.Write.{ata_read-ata_write}
use fi_rststep.Ata.Read.{IsReady, store_sectors, ata_read-store_sectors}
use fi_rststep.Examples.Files.{disk_drive, disk_drive-IsReady}
use fi_rststep.Fs.{Bpb}
use fi_rststep.Fs.Mount.{layout, layout-contiguous}

-- one run of three pages in the first node
abbrev first_node : Bytes
first_node = set_bit no_marks 0

first_node-IsBytes : IsBytes first_node
first_node-IsBytes = (is_bit_set-set_bit no_marks 0 0 no_marks-IsBytes).1

abbrev pub three_pages : Pmu
three_pages = record {
  node_buf = λ p. record { addr = 0x10000; count = 3; next = 0 };
  bitmap = first_node;
  count = 3;
  head = 1;
}

first_mark :
    (i : ℕ) → is_bit_set first_node i ≡ (if has (suc i) ((1, 0x10000, 3) ∷ []) then 1 else 0)
first_mark i = ground (arith, (is_bit_set-set_bit no_marks 0 i no_marks-IsBytes).0, no_marks_lem i)

pub three_pages-IsPmu : IsPmu three_pages ((1, 0x10000, 3) ∷ [])
three_pages-IsPmu = record {
  chain = (refl, omega arith, omega arith, refl, refl, refl);
  distinct = (refl, tt);
  marks = λ i h. first_mark i;
  bytes = first_node-IsBytes;
  runs = (omega arith, refl, omega arith, omega arith, tt);
  counted = refl;
  small = omega arith;
}

pmu_alloc-lowest_example :
    (s' : Pmu) × (pmu_alloc three_pages ≡ ok (0x10000, s'))
    × (has_page 0x10000 ((1, 0x10000, 3) ∷ []) ≡ true)
    × ((x : ℕ) → x < 0x10000 → has_page x ((1, 0x10000, 3) ∷ []) ≡ false)
    × ((cs' : List Cell) × IsPmu s' cs'
        × ((x : ℕ)
            → has_page x cs' ≡ (if x == 0x10000 then false else has_page x ((1, 0x10000, 3) ∷ []))))
pmu_alloc-lowest_example = pmu_alloc-lowest three_pages 1 0x10000 3 [] three_pages-IsPmu

pmu_free-added_example :
    (s' : Pmu) × (pmu_free 0x13000 three_pages ≡ ok s')
    × ((cells' : List Cell) × IsPmu s' cells'
        × ((x : ℕ)
            → has_page x cells'
              ≡ (if x == 0x13000 then true else has_page x ((1, 0x10000, 3) ∷ []))))
pmu_free-added_example =
    pmu_free-added three_pages ((1, 0x10000, 3) ∷ []) 0x13000 three_pages-IsPmu refl (omega arith)
      (omega arith) refl (omega arith)

pmu_free_twice_example : pmu_free 0x11000 three_pages ≡ panic
pmu_free_twice_example =
    pmu_free_twice three_pages ((1, 0x10000, 3) ∷ []) 0x11000 three_pages-IsPmu (omega arith) refl

pmu_init-IsPmu_example :
    (s' : Pmu) × (pmu_init 0x100000 500 three_pages ≡ ok s') × IsPmu s' ((1, 0x100000, 500) ∷ [])
pmu_init-IsPmu_example =
    pmu_init-IsPmu three_pages ((1, 0x10000, 3) ∷ []) 0x100000 500 three_pages-IsPmu.chain
      (refl, tt) (omega arith) refl (omega arith) (omega arith) (omega arith)

abbrev ready_drive : Drive
ready_drive = record { status = disk_drive.status; sector = λ lba i. lba % 256 }

ready_drive-IsReady : IsReady ready_drive
ready_drive-IsReady = record {
  device = disk_drive-IsReady.device;
  data_request = disk_drive-IsReady.data_request;
}

ata_read-store_sectors_example :
    (t' : ℕ) × (ata_read ready_drive 0x8000 100 2 (λ a. 0) 0
      ≡ ok (true, store_sectors ready_drive 2 0x8000 100 (λ a. 0), t'))
ata_read-store_sectors_example =
    ata_read-store_sectors ready_drive ready_drive-IsReady 0x8000 100 2 (λ a. 0) 0 (omega arith)
      (omega arith) (omega arith) (omega arith)

ata_read-ata_write_example :
    (t' : ℕ) × (u' : ℕ) × (disk : ℕ → Bytes) × (ata_write ready_drive 0x8000 100 2 (λ a. a % 256) 0
      ≡ ok (true, disk, t'))
    × ((l : ℕ) → (l < 100) ⊎ (102 ≤ l) → disk l ≡ ready_drive.sector l)
    × (ata_read (record ready_drive { sector = disk }) 0x9000 100 2 (λ a. 0) 0
        ≡ ok (
          true,
          (λ a. if leb 0x9000 a && ltb a (0x9000 + 1024) then (0x8000 + (a - 0x9000)) % 256 else 0),
          u',
        ))
ata_read-ata_write_example =
    ata_read-ata_write ready_drive ready_drive-IsReady 0x8000 0x9000 100 2 (λ a. a % 256) (λ a. 0) 0
      0 (omega arith) (omega arith) (omega arith) (omega arith)

-- a drive that reports an error instead of the last sector of a request
abbrev failing_drive : Drive
failing_drive = record {
  status = λ pending t. if pending == 1 then 0x51 else 0x58;
  sector = λ lba i. lba % 256;
}

ata_read-partial_example :
    (m : ℕ) × (t' : ℕ) × (ata_read failing_drive 0x8000 100 3 (λ a. 0) 0
      ≡ ok (m == 3, store_sectors failing_drive m 0x8000 100 (λ a. 0), t'))
    × (m ≤ 3)
    × (t' ≤ 400016)
    × Comes failing_drive 3 m 0
ata_read-partial_example =
    ata_read-partial failing_drive 0x8000 100 3 (λ a. 0) 0 (omega arith) (omega arith) (omega arith)
      (omega arith)

abbrev small_disk : Bpb
small_disk = record {
  sec_per_clus = 4;
  rsvd_sec_cnt = 4;
  num_fats = 2;
  root_ent_cnt = 500;
  sec_per_fat_16 = 64;
}

layout-contiguous_example :
    let fat = layout 2048 small_disk in
    (fat.fat_start_lba ≡ 2052)
    × (fat.root_start_lba ≡ fat.fat_start_lba + 128)
    × (fat.data_start_lba ≡ fat.root_start_lba + fat.root_num_sectors)
    × (16000 ≤ fat.root_num_sectors * 512)
    × (fat.root_num_sectors * 512 < 16512)
layout-contiguous_example =
    layout-contiguous 2048 small_disk (omega arith) (omega arith) (omega arith) (omega arith)
