-- ===== src/Examples/Files.antt =====
-- kernel/fs.c on concrete names and on a small disk, whose drive is busy now and then and whose FAT at
-- sector 4 links cluster 2 to cluster 3, the last one.
use fi_rststep.Prelude.{
  ℕ, ◌≡◌, refl, ◌==◌, if◌then◌else◌, arith, List, [], ◌∷◌, get_or, ◌↔◌, inl, inr, true, Bool-cases,
  ◌%◌, ap, ℕ_discrete, zero, suc, some,
}
use fi_rststep.Prelude.Outcome.{ok}
use fi_rststep.Ata.{Drive}
use fi_rststep.Ata.Read.{IsReady}
use fi_rststep.Fs.{DirEntry, Fat, Io}
use fi_rststep.Fs.Cluster.{fat_off2lba, fat_check_clus}
use fi_rststep.Fs.Name.{fat_name_cmp}
use fi_rststep.Fs.Match.{IsPadded, IsName, written_name, fat_name_cmp-IsName}
use fi_rststep.Fs.Content.{AllData, with_content}
use fi_rststep.Fs.File.{file_read}
use fi_rststep.Fs.Reading.{file_read-content}
use fi_rststep.Fs.Chain.{IsDisk, fat_off2lba-nth_clus}

abbrev pub disk_drive : Drive
disk_drive = record {
  status = λ pending t. if pending == 0 then 0x50 else (if t % 3 == 0 then 0xD0 else 0x58);
  sector = λ l i. if i == 4 then 3 else if i == 6 then 255 else if i == 7 then 255 else 0;
}

pub disk_drive-IsReady : IsReady disk_drive
disk_drive-IsReady = record {
  device = λ pending t. elim (Bool-cases (pending == 0)) [
    | inl idle ↦ (0, omega arith, ground arith)
    | inr busy ↦ elim (ℕ_discrete (t % 3) 0) [
      | yes later ↦ (1, omega arith, ground arith)
      | no now ↦ (0, omega arith, ground arith)
    ]
  ];
  data_request = λ pending t more ready. ground arith;
}

abbrev pub disk_fat : Fat
disk_fat = record {
  fat_start_lba = 4;
  root_start_lba = 40;
  data_start_lba = 100;
  root_num_sectors = 60;
  bpb = record {
    sec_per_clus = 1;
    rsvd_sec_cnt = 4;
    num_fats = 2;
    root_ent_cnt = 960;
    sec_per_fat_16 = 18;
  };
}

disk_drive-IsDisk : IsDisk disk_fat disk_drive
disk_drive-IsDisk = record {
  answers = disk_drive-IsReady;
  bytes = λ l i. ground arith;
  start = omega arith;
  area = (omega arith, omega arith);
  cluster = (omega arith, omega arith);
}

abbrev two_clusters : DirEntry
two_clusters = record {
  name = λ i. b'A';
  ext = λ i. b' ';
  attr = 0;
  fst_clus = 2;
  file_size = 1000;
}

abbrev start_io : Io
start_io = record { clus_buf = λ i. 0; time = 0 }

fat_off2lba-nth_clus_example :
    (io' : Io) × (fat_off2lba disk_fat disk_drive two_clusters 512 start_io ≡ ok (101, io'))
fat_off2lba-nth_clus_example =
    fat_off2lba-nth_clus disk_fat disk_drive disk_drive-IsDisk two_clusters 512 start_io
      (omega arith) (omega arith)

two_clusters_data : AllData disk_fat disk_drive 2 1000
unfolding fat_check_clus
two_clusters_data zero h = refl
two_clusters_data (suc zero) h = refl
two_clusters_data (suc (suc j)) h = absurd (omega arith)

file_read-content_example :
    (io' : Io) × (file_read disk_fat disk_drive
        (λ i. 0)
        0x5000
        300
        900
        (some two_clusters)
        (λ a. 0)
        start_io
      ≡ ok (700, with_content disk_fat disk_drive 2 0x5000 300 700 (λ a. 0), io'))
file_read-content_example =
    file_read-content disk_fat disk_drive two_clusters (λ i. 0) (λ a. 0) 0x5000 300 900 start_io
      disk_drive-IsDisk (omega arith) two_clusters_data (omega arith)

-- README.TXT
abbrev readme : DirEntry
readme = record {
  name = λ i. get_or (b'R' ∷ b'E' ∷ b'A' ∷ b'D' ∷ b'M' ∷ b'E' ∷ []) i b' ';
  ext = λ i. get_or (b'T' ∷ b'X' ∷ b'T' ∷ []) i b' ';
  attr = 0;
  fst_clus = 2;
  file_size = 10;
}

abbrev asked : List ℕ
asked = b'r' ∷ b'e' ∷ b'a' ∷ b'd' ∷ b'm' ∷ b'e' ∷ b'.' ∷ b't' ∷ b'x' ∷ b't' ∷ []

readme-name : IsPadded 8 readme.name 6
readme-name = record {
  fits = omega arith;
  blanks = λ i lo hi. elim (ℕ_discrete i 6) [
    | yes e ↦ ap readme.name e
    | no ne ↦ let last : i ≡ 7 = omega arith in ap readme.name last
  ];
  full = inr (λ e. ground arith);
}

readme-ext : IsPadded 3 readme.ext 3
readme-ext = record {
  fits = omega arith;
  blanks = λ i lo hi. absurd (omega arith);
  full = inr (λ e. ground arith);
}

fat_name_cmp-IsName_example :
    (fat_name_cmp readme (λ i. get_or asked i 0) ≡ true)
    ↔ IsName (written_name 6 3 readme) 0 (λ i. get_or asked i 0)
fat_name_cmp-IsName_example =
    fat_name_cmp-IsName readme 6 3 (λ i. get_or asked i 0) readme-name readme-ext
