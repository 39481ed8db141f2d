-- ===== src/Hardware/Segments.antt =====
-- kernel/gdt.c and inc/kernel/gdt.h: the segment descriptors.
use fi_rststep.Prelude.{ℕ, ◌+◌, ◌*◌, ◌/◌, ◌%◌, ◌^◌, ◌==◌, if◌then◌else◌}

-- `struct segment_descriptor`
pub record SegmentDescriptor : Type 0 where
  pub lim_low : ℕ
  pub base_low : ℕ
  pub accessed : ℕ
  pub kind : ℕ
  pub dpl : ℕ
  pub present : ℕ
  pub lim_hi : ℕ
  pub reserved : ℕ
  pub long_mode : ℕ
  pub m32 : ℕ
  pub granularity : ℕ
  pub base_hi : ℕ

abbrev pub Gdt : Type 0
Gdt = ℕ → SegmentDescriptor

abbrev pub zero_descriptor : SegmentDescriptor
zero_descriptor = record {
  lim_low = 0;
  base_low = 0;
  accessed = 0;
  kind = 0;
  dpl = 0;
  present = 0;
  lim_hi = 0;
  reserved = 0;
  long_mode = 0;
  m32 = 0;
  granularity = 0;
  base_hi = 0;
}

-- the writes to the descriptor at an index
unfoldable pub set_seg_descriptor : ℕ → (base limit dpl kind : ℕ) → Gdt → Gdt
set_seg_descriptor index base limit dpl kind gdt i =
    if i == index
    then record (gdt i) {
      base_low = base % 2 ^ 24;
      base_hi = base / 2 ^ 24 % 256;
      lim_low = limit % 65536;
      lim_hi = limit / 65536 % 16;
      dpl = dpl % 4;
      kind = kind % 16;
      accessed = 1;
      present = 1;
      m32 = 1;
      long_mode = 0;
      granularity = 1;
    }
    else gdt i

-- DA_CR, DA_DRW and DA_TSS
abbrev pub da_cr : ℕ
da_cr = 13

abbrev pub da_drw : ℕ
da_drw = 9

abbrev pub da_tss : ℕ
da_tss = 4

-- The table that is loaded; `tss` is the address of `_tss`.
unfoldable pub gdt_init : ℕ → Gdt → Gdt
gdt_init tss gdt₀ =
    let gdt : Gdt = λ i. if i == 0 then zero_descriptor else gdt₀ i in
    let code = set_seg_descriptor 1 0 0xFFFFF 0 da_cr gdt in
    let both = set_seg_descriptor 2 0 0xFFFFF 0 da_drw code in
    let user =
      set_seg_descriptor 4 0 0xFFFFF 3 da_drw (set_seg_descriptor 3 0 0xFFFFF 3 da_cr both) in
    set_seg_descriptor 5 tss 0xFFFFF 0 da_tss user

-- `segment_selector(index, rpl, ti)`
abbrev pub segment_selector : (index rpl ti : ℕ) → ℕ
segment_selector index rpl ti = rpl % 4 + ti % 2 * 4 + index * 8 % 65536
