-- ===== src/Paging/Map.antt =====
-- `map_physical_page_to_linear` and `map_physical_page` of kernel/mem.c against the walk.
use fi_rststep.Prelude.{
  ℕ, ◌*◌, ◌/◌, ◌%◌, ◌^◌, ◌≤◌, ◌<◌, ◌≡◌, ◌≢◌, ◌⊎◌, inl, inr, refl, ap, ap₂, sym, bit_and, ◌∙◌, false,
  not, none, some, List, ◌∷◌, ◌==◌, ltb, arith, ℕ_discrete,
}
use fi_rststep.Prelude.Outcome.{ok, ◌>>=◌}
use fi_rststep.Prelude.Words.{null, ◌>>>◌}
use fi_rststep.Str.{Memory}
use fi_rststep.Pmu.{page_size}
use fi_rststep.Pmu.Chain.{Cell, has_page}
use fi_rststep.Paging.{
  Vm, present, rw_bit, us_bit, frame_of, page_dir_index, page_table_index, entry, set_entry,
  table_at, fill_entry, map_physical_page_to_linear,
}
use fi_rststep.Paging.Words.{entry-set_entry_same, entry-set_entry_ne}
use fi_rststep.Paging.Walk.{
  Mapping, mapping_of, both_present, mapping, mapping-same, walk, IsSpace, dir_user, dir_write,
}
use fi_rststep.Paging.Table.{filled, filled_fields, HasTable, ensure_table-HasTable}

both : (d w : ℕ) → present d ≡ 1 → present w ≡ 1 → both_present d w ≡ some (mapping_of d w)
both d w p q = ground arith

module _ (s : Vm) (dir i j phys us rw_ : ℕ) where
  abbrev pub word : ℕ
  word = filled rw_ us (phys >>> 12) (entry s.mem (table_at s.mem dir i) j)

  abbrev pub filled_mem : Memory
  filled_mem = set_entry (table_at s.mem dir i) j word s.mem

  module _ (cells : List Cell) (is : IsSpace s dir cells) (hi : i < 1024) (hj : j < 1024)
      (here : present (entry s.mem dir i) ≡ 1) (small : phys < 2 ^ 32) where
    table_aligned : (k : ℕ) → table_at s.mem dir k % page_size ≡ 0
    table_aligned k = omega arith

    fields :
        (present word ≡ 1)
        × (us_bit word ≡ us % 2)
        × (rw_bit word ≡ rw_ % 2)
        × (frame_of word ≡ phys >>> 12)
        × (word < 2 ^ 32)
    fields = filled_fields rw_ us (phys >>> 12) (entry s.mem (table_at s.mem dir i) j) (omega arith)

    -- The directory is not touched.
    dir_entry : (k : ℕ) → k < 1024 → entry filled_mem dir k ≡ entry s.mem dir k
    dir_entry k hk =
        entry-set_entry_ne s.mem (table_at s.mem dir i) dir j k word (table_aligned i) is.aligned hj
          hk (inl (is.tables i hi here).1)

    filled-IsSpace : IsSpace (record s { mem = filled_mem }) dir cells
    filled-IsSpace = record {
      free = is.free;
      aligned = is.aligned;
      own = is.own;
      tables = λ k hk p.
          let same = dir_entry k hk in
          let (out, other) = is.tables k hk (ap present (sym same) ∙ p) in
          let t : table_at filled_mem dir k ≡ table_at s.mem dir k =
            ap (λ w. frame_of w * page_size) same in
          (ap (λ z. has_page z cells) t ∙ out, λ h. other (sym t ∙ h));
      apart = λ k l hk hl p q h.
          let e = dir_entry k hk in
          let f = dir_entry l hl in
          is.apart k l hk hl (ap present (sym e) ∙ p) (ap present (sym f) ∙ q)
            (ap (λ w. frame_of w * page_size) (sym e) ∙ h ∙ ap (λ w. frame_of w * page_size) f);
    }

    filled-mapping_self : mapping filled_mem dir i j ≡ some (mapping_of (entry s.mem dir i) word)
    filled-mapping_self =
        let e = dir_entry i hi in
        let w = entry-set_entry_same s.mem (table_at s.mem dir i) j word fields.4 in
        ap (λ d. both_present d (entry filled_mem (frame_of d * page_size) j)) e
        ∙ ap (both_present (entry s.mem dir i)) w
        ∙ both (entry s.mem dir i) word here fields.0

    filled-mapping_ne :
        (k l : ℕ)
        → k < 1024
        → l < 1024
        → (k ≢ i) ⊎ (l ≢ j)
        → mapping filled_mem dir k l ≡ mapping s.mem dir k l
    filled-mapping_ne k l hk hl other = mapping-same s.mem filled_mem dir k l (dir_entry k hk) (λ p.
        entry-set_entry_ne s.mem (table_at s.mem dir i) (table_at s.mem dir k) j l word
          (table_aligned i) (table_aligned k) hj hl (tables_ne k l hk p other))
      where
        tables_ne :
            (k l : ℕ)
            → k < 1024
            → present (entry s.mem dir k) ≡ 1
            → (k ≢ i) ⊎ (l ≢ j)
            → (table_at s.mem dir i ≢ table_at s.mem dir k) ⊎ (j ≢ l)
        tables_ne k l hk p (inl ne) = inl (λ e. ne (sym (is.apart i k hi hk here p e)))
        tables_ne k l hk p (inr ne) = inr (λ e. ne (sym e))

-- What a mapping of a page to a linear address leaves.
pub record IsMapped (s s' : Vm) (dir linear phys us rw_ : ℕ) : Type 0 where
  pub found : Mapping
  pub here : walk s'.mem dir linear ≡ some found
  pub frame : found.frame * page_size ≡ phys
  pub user : found.user ≡ bit_and (dir_user s.mem dir (page_dir_index linear) us) (us % 2)
  pub write : found.write ≡ bit_and (dir_write s.mem dir (page_dir_index linear)) (rw_ % 2)
  pub kept :
      (l : ℕ)
      → l < 2 ^ 32
      → l / page_size ≢ linear / page_size
      → walk s'.mem dir l ≡ walk s.mem dir l
  pub cells : List Cell
  pub space : IsSpace s' dir cells

-- `fill_entry` of a free entry, after its table is there.
pub fill_entry-IsMapped :
    (s s₁ : Vm) (dir i j phys us rw_ linear : ℕ)
    → HasTable s s₁ dir i us
    → i < 1024
    → j < 1024
    → phys % page_size ≡ 0
    → phys < 2 ^ 32
    → page_dir_index linear ≡ i
    → page_table_index linear ≡ j
    → IsMapped s (fill_entry (table_at s₁.mem dir i) j phys us rw_ s₁) dir linear phys us rw_
unfolding fill_entry
fill_entry-IsMapped s s₁ dir i j phys us rw_ linear h hi hj al small ei ej =
    let f = fields s₁ dir i j phys us rw_ h.cells h.space hi hj h.here small in
    record {
      found = mapping_of (entry s₁.mem dir i) (word s₁ dir i j phys us rw_);
      here =
          rw (ei, ej)
            (filled-mapping_self s₁ dir i j phys us rw_ h.cells h.space hi hj h.here small);
      frame = omega (arith, f.3);
      user = rw ei (ap₂ bit_and h.user f.1);
      write = rw ei (ap₂ bit_and h.write f.2);
      kept = λ l low ne.
          let a : page_dir_index l < 1024 = omega arith in
          let b : page_table_index l < 1024 = omega arith in
          filled-mapping_ne s₁ dir i j phys us rw_ h.cells h.space hi hj h.here small
            (page_dir_index l) (page_table_index l) a b (indices_ne l linear i j low ne ei ej)
          ∙ h.kept (page_dir_index l) (page_table_index l) a b;
      cells = h.cells;
      space = filled-IsSpace s₁ dir i j phys us rw_ h.cells h.space hi hj h.here small;
    }
  where
    indices_ne :
        (l linear i j : ℕ)
        → l < 2 ^ 32
        → l / page_size ≢ linear / page_size
        → page_dir_index linear ≡ i
        → page_table_index linear ≡ j
        → (page_dir_index l ≢ i) ⊎ (page_table_index l ≢ j)
    indices_ne l linear i j low ne ei ej = elim (ℕ_discrete (page_dir_index l) i) [
      | yes e ↦ inr (λ f. ne (omega arith))
      | no n ↦ inl n
    ]

absent-of_none :
    (d w : ℕ) → both_present d w ≡ none → present d ≡ 1 → (not (present w == 0)) ≡ false
absent-of_none d w h p = ground arith

-- In a directory that is not NULL and whose tables are pages of their own, none of them free, with a
-- free page left, and for a nonzero page-aligned 32-bit physical address and a nonzero 32-bit linear
-- address in the user area that the processor's walk does not map, `map_physical_page_to_linear`
-- returns. After that the walk leads from the linear address to the physical page. User programs may use
-- it exactly if the given user bit is set and, where the directory's entry was present before, that entry's
-- is; it may be written exactly if the given write bit is set and, where the directory's entry was present before,
-- that entry's is. Every linear address of another page is mapped, or not, as before, with the same
-- rights, and the directory and its tables are still pages of their own that are not free.
pub map_physical_page_to_linear-IsMapped :
    (s : Vm) (dir phys linear us rw_ : ℕ) (c : Cell) (cs : List Cell)
    → IsSpace s dir (c ∷ cs)
    → dir ≢ 0
    → phys ≢ 0
    → phys % page_size ≡ 0
    → phys < 2 ^ 32
    → linear ≢ 0
    → linear < 2 ^ 32
    → s.end_index ≤ page_dir_index linear
    → walk s.mem dir linear ≡ none
    → (s' : Vm) × (map_physical_page_to_linear dir phys linear us rw_ s ≡ ok s')
      × IsMapped s s' dir linear phys us rw_
unfolding map_physical_page_to_linear
map_physical_page_to_linear-IsMapped s dir phys linear us rw_ c cs is nd np al small nl low user
      free =
    let i = page_dir_index linear in
    let j = page_table_index linear in
    let hi : i < 1024 = omega arith in
    let hj : j < 1024 = omega arith in
    let (s₁, e, h) = ensure_table-HasTable s dir i us c cs is hi in
    let d : (dir == null) ≡ false = ground arith in
    let p : (phys == 0) ≡ false = ground arith in
    let l : (linear == 0) ≡ false = ground arith in
    let u : ltb i s.end_index ≡ false = ground arith in
    let empty =
      absent-of_none (entry s₁.mem dir i) (entry s₁.mem (table_at s₁.mem dir i) j)
        (h.kept i j hi hj ∙ free) h.here in
    (
      fill_entry (table_at s₁.mem dir i) j phys us rw_ s₁,
      rw (d, p, l, u, e, ◌>>=◌) (rw empty),
      fill_entry-IsMapped s s₁ dir i j phys us rw_ linear h hi hj al small refl refl,
    )
