-- ===== src/Hardware/Gates.antt =====
-- kernel/idt.c and inc/kernel/idt.h: the interrupt gates.
use fi_rststep.Prelude.{ℕ, zero, suc, ◌+◌, ◌/◌, ◌%◌, ◌==◌, if◌then◌else◌}
use fi_rststep.Process.{ker_code_selector}

-- `struct gate_descriptor`
pub record GateDescriptor : Type 0 where
  pub offset_lo : ℕ
  pub selector : ℕ
  pub reserved : ℕ
  pub gate_type : ℕ
  pub zero_bit : ℕ
  pub dpl : ℕ
  pub present : ℕ
  pub offset_hi : ℕ

abbrev pub Idt : Type 0
Idt = ℕ → GateDescriptor

-- the service routines that `idt_init` names
pub data Isr : Type 0 where
  isr_de : Isr
  isr_db : Isr
  isr_nmi : Isr
  isr_bp : Isr
  isr_of : Isr
  isr_br : Isr
  isr_ud : Isr
  isr_nm : Isr
  isr_df : Isr
  isr_cso : Isr
  isr_ts : Isr
  isr_np : Isr
  isr_ss : Isr
  isr_gp : Isr
  isr_pf : Isr
  isr_reserved : Isr
  isr_mf : Isr
  isr_ac : Isr
  isr_mc : Isr
  isr_xm : Isr
  isr_ve : Isr
  isr_cp : Isr
  isr_default : Isr
  isr_timer : Isr
  isr_spurious_irq : Isr
  isr_syscall : Isr

abbrev pub gt_int : ℕ
gt_int = 14

abbrev pub idt_entry_count : ℕ
idt_entry_count = 256

unfoldable pub set_gate : ℕ → ℕ → ℕ → Idt → Idt
set_gate index kind addr idt i =
    if i == index
    then record (idt i) {
      gate_type = kind % 16;
      offset_lo = addr % 65536;
      offset_hi = addr / 65536 % 65536;
      selector = ker_code_selector;
      dpl = 0;
      present = 1;
      zero_bit = 0;
    }
    else idt i

-- The linker gives the addresses.
module _ (address : Isr → ℕ) where
  abbrev pub gate : ℕ → Isr → Idt → Idt
  gate index isr = set_gate index gt_int (address isr)

  -- `for (i = from; ...; i++) set_gate(i, GT_INT, &isr)`, `left` times
  unfoldable pub set_gates : ℕ → ℕ → Isr → Idt → Idt
  set_gates zero from isr idt = idt
  set_gates (suc left) from isr idt = set_gates left (from + 1) isr (gate from isr idt)

  -- the gates 0 to 21
  unfoldable pub set_exceptions : Idt → Idt
  set_exceptions idt =
      let a = gate 4 isr_of (gate 3 isr_bp (gate 2 isr_nmi (gate 1 isr_db (gate 0 isr_de idt)))) in
      let b = gate 9 isr_cso (gate 8 isr_df (gate 7 isr_nm (gate 6 isr_ud (gate 5 isr_br a)))) in
      let c =
        gate 14 isr_pf (gate 13 isr_gp (gate 12 isr_ss (gate 11 isr_np (gate 10 isr_ts b)))) in
      let d =
        gate 19 isr_xm
          (gate 18 isr_mc (gate 17 isr_ac (gate 16 isr_mf (gate 15 isr_reserved c)))) in
      gate 21 isr_cp (gate 20 isr_ve d)

  abbrev pub allow_user : ℕ → Idt → Idt
  allow_user index idt i = if i == index then record (idt i) { dpl = 3 } else idt i

  -- The table that is loaded.
  unfoldable pub idt_init : Idt → Idt
  idt_init idt =
      let reserved = set_gates 10 22 isr_reserved (set_exceptions idt) in
      let default = set_gates 224 32 isr_default reserved in
      let spurious =
        gate 47 isr_spurious_irq (gate 39 isr_spurious_irq (gate 32 isr_timer default)) in
      allow_user 0x80 (gate 0x80 isr_syscall spurious)
