-- ===== src/Paging/Table.antt =====
-- A page table of its own for an empty entry of a directory, in kernel/mem.c.
use fi_rststep.Prelude.{
  ℕ, ◌*◌, ◌/◌, ◌%◌, ◌^◌, ◌<◌, ◌≡◌, ◌≢◌, ◌⊎◌, inl, inr, refl, ap, sym, subst, ◌∙◌, true, false, List,
  ◌∷◌, ◌==◌, if◌then◌else◌, arith, Bool-cases, ℕ_discrete,
}
use fi_rststep.Prelude.Outcome.{ok, ◌>>=◌}
use fi_rststep.Prelude.Words.{◌>>>◌}
use fi_rststep.Str.{Memory, memset}
use fi_rststep.Pmu.{Pmu, page_size}
use fi_rststep.Pmu.Chain.{Cell, has_page, IsPmu}
use fi_rststep.Pmu.Alloc.{pmu_alloc-lowest}
use fi_rststep.Paging.{
  Vm, present, rw_bit, us_bit, frame_of, set_present, set_rw, set_us, set_frame_of, entry,
  set_entry, table_at, alloc_page, ensure_table,
}
use fi_rststep.Paging.Words.{
  entry-set_entry_same, entry-set_entry_ne, entry-memset_same, entry-memset_ne,
}
use fi_rststep.Paging.Walk.{
  mapping, mapping-same, mapping-absent, mapping-empty, IsSpace, dir_user, dir_write,
}

-- the word of an entry that has been filled
abbrev pub filled : ℕ → ℕ → ℕ → ℕ → ℕ
filled rw us frame w = set_rw rw (set_us us (set_present 1 (set_frame_of frame w)))

-- The fields of such a word.
pub filled_fields :
    (rw us frame w : ℕ)
    → frame < 1048576
    → (present (filled rw us frame w) ≡ 1)
      × (us_bit (filled rw us frame w) ≡ us % 2)
      × (rw_bit (filled rw us frame w) ≡ rw % 2)
      × (frame_of (filled rw us frame w) ≡ frame)
      × (filled rw us frame w < 2 ^ 32)
filled_fields rw us frame w h = omega arith

-- A page that `alloc_page` gives: free before, not free afterwards.
pub alloc_page_lem :
    (s : Vm) (c : Cell) (cs : List Cell)
    → IsPmu s.pmu (c ∷ cs)
    → (a : ℕ) × (pmu : Pmu) × (cs' : List Cell) × (alloc_page s ≡ ok (a, record s { pmu = pmu }))
      × IsPmu pmu cs'
      × (a ≢ 0)
      × (a % page_size ≡ 0)
      × (a < 2 ^ 32)
      × (has_page a (c ∷ cs) ≡ true)
      × ((x : ℕ) → has_page x cs' ≡ (if x == a then false else has_page x (c ∷ cs)))
unfolding alloc_page
alloc_page_lem s (q, a, n) cs is =
    let (pmu, e, here, below, (cs', is', rest)) = pmu_alloc-lowest s.pmu q a n cs is in
    let (low, al, pos, fits, later) = is.runs in
    let ne : (a == 0) ≡ false = ground arith in
    (a, pmu, cs', rw (e, ◌>>=◌) (rw (ne)), is', ground arith, al, omega arith, here, rest)

pub apart_of_free :
    (x y : ℕ) (cells : List Cell) → has_page x cells ≡ true → has_page y cells ≡ false → x ≢ y
apart_of_free x y cells h k e =
    let h' : has_page y cells ≡ true = subst (λ z. has_page z cells ≡ true) e h in cc

module _ (s : Vm) (dir i us a : ℕ) (cells cells' : List Cell) (pmu : Pmu) where
  -- memory and state once a directory's empty entry `i` has got the page `a` as its table
  abbrev pub fresh_mem : Memory
  fresh_mem =
      let mem = memset a 0 page_size s.mem in
      set_entry dir i (filled 1 us (a >>> 12) (entry mem dir i)) mem

  abbrev pub fresh : Vm
  fresh = record s { pmu = pmu; mem = fresh_mem }

  module _ (is : IsSpace s dir cells) (hi : i < 1024) (absent : present (entry s.mem dir i) ≡ 0)
      (is' : IsPmu pmu cells') (al : a % page_size ≡ 0) (small : a < 2 ^ 32)
      (free : has_page a cells ≡ true)
      (rest : (x : ℕ) → has_page x cells' ≡ (if x == a then false else has_page x cells)) where
    ne_dir : a ≢ dir
    ne_dir = apart_of_free a dir cells free is.own

    new_entry :
        entry fresh_mem dir i ≡ filled 1 us (a / 4096) (entry (memset a 0 page_size s.mem) dir i)
    new_entry =
        entry-set_entry_same (memset a 0 page_size s.mem) dir i
          (filled 1 us (a / 4096) (entry (memset a 0 page_size s.mem) dir i))
          (filled_fields 1 us (a / 4096) (entry (memset a 0 page_size s.mem) dir i) (omega arith)).4

    new_present : present (entry fresh_mem dir i) ≡ 1
    new_present =
        ap present new_entry
        ∙ (filled_fields 1 us (a / 4096) (entry (memset a 0 page_size s.mem) dir i) (omega arith)).0

    new_user : us_bit (entry fresh_mem dir i) ≡ us % 2
    new_user =
        ap us_bit new_entry
        ∙ (filled_fields 1 us (a / 4096) (entry (memset a 0 page_size s.mem) dir i) (omega arith)).1

    new_write : rw_bit (entry fresh_mem dir i) ≡ 1
    new_write =
        ap rw_bit new_entry
        ∙ (filled_fields 1 us (a / 4096) (entry (memset a 0 page_size s.mem) dir i) (omega arith)).2

    new_table : table_at fresh_mem dir i ≡ a
    new_table =
        ap (λ w. frame_of w * 4096) new_entry
        ∙ omega (
          arith,
          (filled_fields 1 us (a / 4096) (entry (memset a 0 page_size s.mem) dir i)
              (omega arith)).3,
        )

    old_entry :
        (q k : ℕ)
        → q % page_size ≡ 0
        → q ≢ a
        → k < 1024
        → (dir ≢ q) ⊎ (i ≢ k)
        → entry fresh_mem q k ≡ entry s.mem q k
    old_entry q k hq ne hk other =
        entry-set_entry_ne (memset a 0 page_size s.mem) dir q i k
          (filled 1 us (a >>> 12) (entry (memset a 0 page_size s.mem) dir i)) is.aligned hq hi hk
          other
        ∙ entry-memset_ne s.mem a q k al hq (λ e. ne (sym e)) hk

    empty_entry : (k : ℕ) → k < 1024 → entry fresh_mem a k ≡ 0
    empty_entry k hk =
        entry-set_entry_ne (memset a 0 page_size s.mem) dir a i k
          (filled 1 us (a >>> 12) (entry (memset a 0 page_size s.mem) dir i)) is.aligned al hi hk
          (inl (λ e. ne_dir (sym e)))
        ∙ entry-memset_same s.mem a k hk

    old_dir_entry : (k : ℕ) → k < 1024 → i ≢ k → entry fresh_mem dir k ≡ entry s.mem dir k
    old_dir_entry k hk ne = old_entry dir k is.aligned (λ e. ne_dir (sym e)) hk (inr ne)

    -- An old table is neither the new page nor the directory.
    old_table_ne : (k : ℕ) → k < 1024 → present (entry s.mem dir k) ≡ 1 → table_at s.mem dir k ≢ a
    old_table_ne k hk p e =
        apart_of_free a (table_at s.mem dir k) cells free (is.tables k hk p).0 (sym e)

    pub table_aligned : (mem : Memory) (k : ℕ) → table_at mem dir k % page_size ≡ 0
    table_aligned mem k = omega arith

    fresh-mapping :
        (k j : ℕ) → k < 1024 → j < 1024 → mapping fresh_mem dir k j ≡ mapping s.mem dir k j
    fresh-mapping k j hk hj = elim (ℕ_discrete i k) [
      | yes e ↦
          subst (λ z. mapping fresh_mem dir z j ≡ mapping s.mem dir z j) e
            (mapping-empty fresh_mem dir i j
                (ap (λ z. entry fresh_mem z j) new_table ∙ empty_entry j hj)
              ∙ sym (mapping-absent s.mem dir i j absent))
      | no ne ↦ mapping-same s.mem fresh_mem dir k j (old_dir_entry k hk ne) (λ p.
          old_entry (table_at s.mem dir k) j (table_aligned s.mem k) (old_table_ne k hk p) hj
            (inl (λ e. (is.tables k hk p).1 (sym e))))
    ]

    -- A directory entry that is present now is the new one, or was present with the same table.
    fresh-table :
        (k : ℕ)
        → k < 1024
        → present (entry fresh_mem dir k) ≡ 1
        → ((i ≡ k) × (table_at fresh_mem dir k ≡ a))
          ⊎ ((i ≢ k)
              × (present (entry s.mem dir k) ≡ 1)
              × (table_at fresh_mem dir k ≡ table_at s.mem dir k))
    fresh-table k hk p = elim (ℕ_discrete i k) [
      | yes e ↦ inl (e, subst (λ z. table_at fresh_mem dir z ≡ a) e new_table)
      | no ne ↦
          let same = old_dir_entry k hk ne in
          inr (ne, ap present (sym same) ∙ p, ap (λ w. frame_of w * page_size) same)
    ]

    fresh-IsSpace : IsSpace fresh dir cells'
    fresh-IsSpace = record {
      free = is';
      aligned = is.aligned;
      own = ground (arith, rest dir, is.own);
      tables = λ k hk p. elim (fresh-table k hk p) [
        | inl (e, t) ↦
            (ap (λ z. has_page z cells') t ∙ ground (arith, rest a), λ h. ne_dir (sym t ∙ h))
        | inr (ne, p', t) ↦
            let (out, other) = is.tables k hk p' in
            (
              ap (λ z. has_page z cells') t ∙ ground (arith, rest (table_at s.mem dir k), out),
              λ h. other (sym t ∙ h),
            )
      ];
      apart = λ k l hk hl p q h. elim (fresh-table k hk p) [
        | inl (e, t) ↦ elim (fresh-table l hl q) [
          | inl (f, u) ↦ sym e ∙ f
          | inr (ne, q', u) ↦ absurd (old_table_ne l hl q' (sym u ∙ sym h ∙ t))
        ]
        | inr (ne, p', t) ↦ elim (fresh-table l hl q) [
          | inl (f, u) ↦ absurd (old_table_ne k hk p' (sym t ∙ h ∙ u))
          | inr (ne', q', u) ↦ is.apart k l hk hl p' q' (sym t ∙ h ∙ u)
        ]
      ];
    }

-- What `ensure_table` leaves: a table in the entry, with its rights, and every mapping as it was.
pub record HasTable (s s' : Vm) (dir i us : ℕ) : Type 0 where
  pub cells : List Cell
  pub space : IsSpace s' dir cells
  pub here : present (entry s'.mem dir i) ≡ 1
  pub user : us_bit (entry s'.mem dir i) ≡ dir_user s.mem dir i us
  pub write : rw_bit (entry s'.mem dir i) ≡ dir_write s.mem dir i
  pub kept : (k j : ℕ) → k < 1024 → j < 1024 → mapping s'.mem dir k j ≡ mapping s.mem dir k j
  pub bound : s'.end_index ≡ s.end_index

-- An entry without a table gets one, if a page is free.
pub ensure_table-HasTable :
    (s : Vm) (dir i us : ℕ) (c : Cell) (cs : List Cell)
    → IsSpace s dir (c ∷ cs)
    → i < 1024
    → (s' : Vm) × (ensure_table dir i us s ≡ ok s') × HasTable s s' dir i us
unfolding ensure_table
ensure_table-HasTable s dir i us c cs is hi = elim (Bool-cases (present (entry s.mem dir i) == 0)) [
  | inl out ↦
      let absent : present (entry s.mem dir i) ≡ 0 = ground arith in
      let (a, pmu, cells', e, is', ne, al, small, free, rest) = alloc_page_lem s c cs is.free in
      (
        fresh s dir i us a (c ∷ cs) cells' pmu,
        rw (out, e, ◌>>=◌),
        record {
          cells = cells';
          space =
              fresh-IsSpace s dir i us a (c ∷ cs) cells' pmu is hi absent is' al small free rest;
          here = new_present s dir i us a (c ∷ cs) cells' pmu is hi absent is' al small free rest;
          user =
              rw out
                (new_user s dir i us a (c ∷ cs) cells' pmu is hi absent is' al small free rest);
          write =
              rw out
                (new_write s dir i us a (c ∷ cs) cells' pmu is hi absent is' al small free rest);
          kept = fresh-mapping s dir i us a (c ∷ cs) cells' pmu is hi absent is' al small free rest;
          bound = refl;
        },
      )
  | inr there ↦
      let here : present (entry s.mem dir i) ≡ 1 = ground arith in
      (
        s,
        rw there,
        record {
          cells = c ∷ cs;
          space = is;
          here = here;
          user = rw there;
          write = rw there;
          kept = λ k j hk hj. refl;
          bound = refl;
        },
      )
]
