-- ===== src/Elf.antt =====
-- kernel/elf.c and inc/kernel/elf.h: loading a program. The two structures on the loader's stack are
-- buffers of their own; `junk` is what a buffer holds before it is written.
use fi_rststep.Prelude.{
  ℕ, zero, suc, ◌+◌, ◌-◌, ◌*◌, ◌/◌, ◌%◌, true, none, some, List, ◌==◌, ltb, min, if◌then◌else◌,
}
use fi_rststep.Prelude.Outcome.{Outcome, ok, endless, ◌>>=◌}
use fi_rststep.Prelude.Words.{u32}
use fi_rststep.Str.{memset}
use fi_rststep.Ata.{Bytes, Drive}
use fi_rststep.Fs.{DirEntry, Fat, Io, u16_at, u32_at}
use fi_rststep.Fs.Find.{Search, file_open}
use fi_rststep.Fs.File.{file_read}
use fi_rststep.Pmu.{page_size, pmu_alloc}
use fi_rststep.Paging.{Vm, map_physical_page_to_linear}

abbrev pub elf_magic : ℕ
elf_magic = 0x464C457F

abbrev pub pt_load : ℕ
pt_load = 1

-- `struct elf_header`, as far as it is read
pub record ElfHeader : Type 0 where
  pub e_magic : ℕ
  pub e_entry : ℕ
  pub e_phoff : ℕ
  pub e_phnum : ℕ

abbrev pub elf_header_size : ℕ
elf_header_size = 52

-- `struct program_header`, as far as it is read
pub record ProgramHeader : Type 0 where
  pub p_type : ℕ
  pub p_offset : ℕ
  pub p_vaddr : ℕ
  pub p_filesz : ℕ
  pub p_memsz : ℕ
  pub p_flags : ℕ

abbrev pub program_header_size : ℕ
program_header_size = 32

-- where a local structure starts in its buffer: an address that is not NULL
abbrev pub local : ℕ
local = 16

abbrev pub elf_header_at : Bytes → ElfHeader
elf_header_at b = record {
  e_magic = u32_at b local;
  e_entry = u32_at b (local + 24);
  e_phoff = u32_at b (local + 28);
  e_phnum = u16_at b (local + 44);
}

abbrev pub program_header_at : Bytes → ProgramHeader
program_header_at b = record {
  p_type = u32_at b local;
  p_offset = u32_at b (local + 4);
  p_vaddr = u32_at b (local + 8);
  p_filesz = u32_at b (local + 16);
  p_memsz = u32_at b (local + 20);
  p_flags = u32_at b (local + 24);
}

module _ (fat : Fat) (drive : Drive) (junk : Bytes) where
  -- The bytes of one page: what the file holds, then zeros. The result starts with `write_bytes`.
  unfoldable pub write_page :
      DirEntry → ProgramHeader → ℕ → ℕ → ℕ → ℕ → Vm → Io → Outcome (ℕ × Vm × Io)
  write_page elf ph p_addr offset write_size write_bytes s io =
      if ltb write_bytes ph.p_filesz
      then (do
        let read_filesz = min write_size (ph.p_filesz - write_bytes)
        (n, mem, io') ←
            file_read fat drive junk (p_addr + offset) (u32 (ph.p_offset + write_bytes)) read_filesz
              (some elf) s.mem io
        ok (
          write_bytes + write_size,
          record s {
            mem = memset (p_addr + (offset + read_filesz)) 0 (write_size - read_filesz) mem;
          },
          io',
        ))
      else ok (
        write_bytes + write_size,
        record s { mem = memset (p_addr + offset) 0 write_size s.mem },
        io,
      )

  -- A page for the part of the segment at `v_addr`.
  unfoldable pub load_page :
      ℕ → DirEntry → ProgramHeader → ℕ → ℕ → ℕ → Vm → Io → Outcome (ℕ × Vm × Io)
  load_page dir elf ph v_addr v_end write_bytes s io = do
    (p_addr, pmu) ← pmu_alloc s.pmu
    let rw = if ph.p_flags / 2 % 2 == 0 then 0 else 1
    s₁ ← map_physical_page_to_linear dir p_addr v_addr 1 rw (record s { pmu = pmu })
    let offset = v_addr % page_size
    let write_size = min (v_end - v_addr) (page_size - offset)
    write_page elf ph p_addr offset write_size write_bytes s₁ io

  -- `for (v_addr = ph.p_vaddr; v_addr < v_end;)`, a page a round
  unfoldable pub load_pages :
      ℕ → ℕ → DirEntry → ProgramHeader → ℕ → ℕ → ℕ → Vm → Io → Outcome (Vm × Io)
  load_pages zero dir elf ph v_addr v_end write_bytes s io = endless
  load_pages (suc fuel) dir elf ph v_addr v_end write_bytes s io =
      if ltb v_addr v_end
      then (do
        (written, s', io') ← load_page dir elf ph v_addr v_end write_bytes s io
        load_pages fuel dir elf ph (u32 (v_addr / page_size * page_size + page_size)) v_end written
            s' io')
      else ok (s, io)

  -- The program headers from the `i`-th on, `left` of them. 2 ^ 20 pages cover the address space; an
  -- address that has come round to 0 makes the mapping panic.
  unfoldable pub load_segments : ℕ → ℕ → ℕ → DirEntry → ElfHeader → Vm → Io → Outcome (Vm × Io)
  load_segments zero i dir elf elfhdr s io = ok (s, io)
  load_segments (suc left) i dir elf elfhdr s io = do
    (n, buf, io₁) ←
        file_read fat drive junk local (u32 (elfhdr.e_phoff + program_header_size * i))
          program_header_size (some elf) junk io
    let ph = program_header_at buf
    (s', io') ←
        (if ph.p_type == pt_load
          then load_pages 1048577 dir elf ph ph.p_vaddr (u32 (ph.p_vaddr + ph.p_memsz)) 0 s io₁
          else ok (s, io₁))
    load_segments left (i + 1) dir elf elfhdr s' io'

  -- the program's entry, or 0 if it cannot be loaded
  unfoldable pub elf_loader : ℕ → List ℕ → Vm → Search → Outcome (ℕ × Vm × Search)
  elf_loader user_page_dir file_path s search = do
    (found, search₁) ← file_open fat drive (some file_path) true search
    elim found [
      | none ↦ ok (0, s, search₁)
      | some elf ↦ (do
        (n, buf, io) ← file_read fat drive junk local 0 elf_header_size (some elf) junk search₁.io
        let elfhdr = elf_header_at buf
        if elfhdr.e_magic == elf_magic
            then (do
              (s', io') ← load_segments elfhdr.e_phnum 0 user_page_dir elf elfhdr s io
              ok (elfhdr.e_entry, s', record search₁ { io = io' }))
            else ok (0, s, record search₁ { io = io }))
    ]
