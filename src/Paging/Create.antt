-- ===== src/Paging/Create.antt =====
-- `create_user_page_dir` of kernel/mem.c.
use fi_rststep.Prelude.{
  ℕ, zero, suc, ◌+◌, ◌*◌, ◌%◌, ◌^◌, ◌≤◌, ◌<◌, ◌≡◌, ◌≢◌, ◌⊎◌, inl, inr, refl, ap, sym, subst, ◌∙◌,
  true, false, none, List, ◌∷◌, ◌==◌, ltb, if◌then◌else◌, arith, Bool-cases, ℕ_discrete,
}
use fi_rststep.Prelude.Outcome.{ok, ◌>>=◌}
use fi_rststep.Str.{Memory, memset}
use fi_rststep.Pmu.{Pmu, page_size}
use fi_rststep.Pmu.Chain.{Cell, has_page, IsPmu}
use fi_rststep.Paging.{
  Vm, load32, present, frame_of, entry, set_entry, table_at, copy_entries, create_user_page_dir,
}
use fi_rststep.Paging.Words.{
  entry-set_entry_same, entry-set_entry_ne, entry-memset_same, entry-memset_ne,
}
use fi_rststep.Paging.Walk.{both_present, both_present-same, mapping, mapping-absent, IsSpace}
use fi_rststep.Paging.Table.{alloc_page_lem, apart_of_free}

-- Entries outside of the part that is copied.
copy_entries-outside :
    (left i dst src q k : ℕ) (mem : Memory)
    → dst % page_size ≡ 0
    → q % page_size ≡ 0
    → i + left ≤ 1024
    → k < 1024
    → (dst ≢ q) ⊎ ((k < i) ⊎ (i + left ≤ k))
    → entry (copy_entries left i dst src mem) q k ≡ entry mem q k
unfolding copy_entries
copy_entries-outside zero i dst src q k mem a b fits hk other = refl
copy_entries-outside (suc left) i dst src q k mem a b fits hk other =
    copy_entries-outside left (i + 1) dst src q k (set_entry dst i (entry mem src i) mem) a b
      (omega arith) hk (later other)
    ∙ entry-set_entry_ne mem dst q i k (entry mem src i) a b (omega arith) hk (index other)
  where
    later :
        (dst ≢ q) ⊎ ((k < i) ⊎ (i + suc left ≤ k)) → (dst ≢ q) ⊎ ((k < i + 1) ⊎ (i + 1 + left ≤ k))
    later (inl ne) = inl ne
    later (inr (inl h)) = inr (inl (omega arith))
    later (inr (inr h)) = inr (inr (omega arith))

    index : (dst ≢ q) ⊎ ((k < i) ⊎ (i + suc left ≤ k)) → (dst ≢ q) ⊎ (i ≢ k)
    index (inl ne) = inl ne
    index (inr (inl h)) = inr (λ e. omega arith)
    index (inr (inr h)) = inr (λ e. omega arith)

-- Entries in it.
copy_entries-inside :
    (left i dst src k : ℕ) (mem : Memory)
    → dst % page_size ≡ 0
    → src % page_size ≡ 0
    → dst ≢ src
    → i + left ≤ 1024
    → i ≤ k
    → k < i + left
    → ((l : ℕ) → l < 1024 → entry mem src l < 2 ^ 32)
    → entry (copy_entries left i dst src mem) dst k ≡ entry mem src k
unfolding copy_entries
copy_entries-inside zero i dst src k mem a b ne fits low high words = absurd (omega arith)
copy_entries-inside (suc left) i dst src k mem a b ne fits low high words =
    let next = set_entry dst i (entry mem src i) mem in
    let same = λ (l : ℕ) (h : l < 1024).
      entry-set_entry_ne mem dst src i l (entry mem src i) a b (omega arith) h (inl ne) in
    elim (ℕ_discrete i k) [
      | yes e ↦
          copy_entries-outside left (i + 1) dst src dst k next a a (omega arith) (omega arith)
            (inr (inl (omega arith)))
          ∙ subst (λ z. entry next dst z ≡ entry mem src z) e
              (entry-set_entry_same mem dst i (entry mem src i) (words i (omega arith)))
      | no far ↦
          copy_entries-inside left (i + 1) dst src k next a b ne (omega arith) (omega arith)
            (omega arith) (λ l h. subst (λ z. z < 2 ^ 32) (sym (same l h)) (words l h))
          ∙ same k (omega arith)
    ]

-- A new directory: the kernel's mappings below `end_index`, nothing above; other pages unchanged.
pub record IsUserDir (s s' : Vm) (dir : ℕ) : Type 0 where
  pub kernel :
      (k l : ℕ)
      → k < s.end_index
      → l < 1024
      → mapping s'.mem dir k l ≡ mapping s.mem s.kernel_page_dir k l
  pub user : (k l : ℕ) → s.end_index ≤ k → k < 1024 → mapping s'.mem dir k l ≡ none
  pub elsewhere :
      (q k : ℕ) → q % page_size ≡ 0 → k < 1024 → dir ≢ q → entry s'.mem q k ≡ entry s.mem q k
  pub cells : List Cell
  pub space : IsSpace s' dir cells

module _ (s : Vm) (dir : ℕ) (cells cells' : List Cell) (pmu : Pmu) where
  abbrev pub created_mem : Memory
  created_mem = copy_entries s.end_index 0 dir s.kernel_page_dir (memset dir 0 page_size s.mem)

  abbrev pub created : Vm
  created = record s { pmu = pmu; mem = created_mem }

  module _ (is : IsSpace s s.kernel_page_dir cells) (bytes : (a : ℕ) → s.mem a < 256)
      (fits : s.end_index ≤ 1024) (is' : IsPmu pmu cells') (al : dir % page_size ≡ 0)
      (free : has_page dir cells ≡ true)
      (rest : (x : ℕ) → has_page x cells' ≡ (if x == dir then false else has_page x cells)) where
    ne_kernel : dir ≢ s.kernel_page_dir
    ne_kernel = apart_of_free dir s.kernel_page_dir cells free is.own

    other_page :
        (q k : ℕ) → q % page_size ≡ 0 → k < 1024 → dir ≢ q → entry created_mem q k ≡ entry s.mem q k
    other_page q k hq hk ne =
        copy_entries-outside s.end_index 0 dir s.kernel_page_dir q k (memset dir 0 page_size s.mem)
          al hq (omega arith) hk (inl ne)
        ∙ entry-memset_ne s.mem dir q k al hq ne hk

    kernel_words :
        (l : ℕ) → l < 1024 → entry (memset dir 0 page_size s.mem) s.kernel_page_dir l < 2 ^ 32
    kernel_words l hl =
        subst (λ z. z < 2 ^ 32)
          (sym (entry-memset_ne s.mem dir s.kernel_page_dir l al is.aligned ne_kernel hl))
          (word_bound (s.kernel_page_dir + 4 * l))
      where
        word_bound : (a : ℕ) → load32 s.mem a < 2 ^ 32
        word_bound a = omega (arith, bytes a, bytes (a + 1), bytes (a + 2), bytes (a + 3))

    kernel_part :
        (k : ℕ) → k < s.end_index → entry created_mem dir k ≡ entry s.mem s.kernel_page_dir k
    kernel_part k hk =
        copy_entries-inside s.end_index 0 dir s.kernel_page_dir k (memset dir 0 page_size s.mem) al
          is.aligned ne_kernel (omega arith) (omega arith) (omega arith) kernel_words
        ∙ entry-memset_ne s.mem dir s.kernel_page_dir k al is.aligned ne_kernel (omega arith)

    user_part : (k : ℕ) → s.end_index ≤ k → k < 1024 → entry created_mem dir k ≡ 0
    user_part k low hk =
        copy_entries-outside s.end_index 0 dir s.kernel_page_dir dir k
          (memset dir 0 page_size s.mem) al al (omega arith) hk (inr (inr (omega arith)))
        ∙ entry-memset_same s.mem dir k hk

    created-table :
        (k : ℕ)
        → k < 1024
        → present (entry created_mem dir k) ≡ 1
        → (present (entry s.mem s.kernel_page_dir k) ≡ 1)
          × (table_at created_mem dir k ≡ table_at s.mem s.kernel_page_dir k)
    created-table k hk p = elim (Bool-cases (ltb k s.end_index)) [
      | inl low ↦
          let e = kernel_part k (ground arith) in
          (ap present (sym e) ∙ p, ap (λ w. frame_of w * page_size) e)
      | inr high ↦ absurd (omega (arith, p, ap present (user_part k (ground arith) hk)))
    ]

    table_ne :
        (k : ℕ)
        → k < 1024
        → present (entry s.mem s.kernel_page_dir k) ≡ 1
        → dir ≢ table_at s.mem s.kernel_page_dir k
    table_ne k hk p =
        apart_of_free dir (table_at s.mem s.kernel_page_dir k) cells free (is.tables k hk p).0

    pub created-IsSpace : IsSpace created dir cells'
    created-IsSpace = record {
      free = is';
      aligned = al;
      own = ground (arith, rest dir);
      tables = λ k hk p.
          let (p', t) = created-table k hk p in
          let (out, _) = is.tables k hk p' in
          (
            ap (λ z. has_page z cells') t
                ∙ ground (arith, rest (table_at s.mem s.kernel_page_dir k), out),
            λ h. table_ne k hk p' (sym h ∙ t),
          );
      apart = λ k l hk hl p q h.
          let (p', t) = created-table k hk p in
          let (q', u) = created-table l hl q in is.apart k l hk hl p' q' (sym t ∙ h ∙ u);
    }

    created-kernel :
        (k l : ℕ)
        → k < s.end_index
        → l < 1024
        → mapping created_mem dir k l ≡ mapping s.mem s.kernel_page_dir k l
    created-kernel k l hk hl =
        let e = kernel_part k hk in
        let t : ℕ = table_at s.mem s.kernel_page_dir k in
        ap (λ d. both_present d (entry created_mem (frame_of d * page_size) l)) e
        ∙ both_present-same (entry s.mem s.kernel_page_dir k) (entry s.mem t l)
            (entry created_mem t l)
            (λ p. other_page t l (omega arith) hl (table_ne k (omega arith) p))

    created-user : (k l : ℕ) → s.end_index ≤ k → k < 1024 → mapping created_mem dir k l ≡ none
    created-user k l low hk = mapping-absent created_mem dir k l (ap present (user_part k low hk))

    pub created-IsUserDir : IsUserDir s created dir
    created-IsUserDir = record {
      kernel = created-kernel;
      user = created-user;
      elsewhere = other_page;
      cells = cells';
      space = created-IsSpace;
    }

-- If memory holds bytes, the kernel's directory and its tables, reached by their physical addresses, are
-- pages of their own, none of them free, a page is free, and the kernel's area has at most 1024 tables,
-- `create_user_page_dir` returns a page that was free. As a directory it maps the kernel's area as the
-- kernel's directory does, with the same rights, and nothing above it; the words of every other page are
-- unchanged, and the new directory and its tables are pages of their own that are not free.
pub create_user_page_dir-IsUserDir :
    (s : Vm) (c : Cell) (cs : List Cell)
    → IsSpace s s.kernel_page_dir (c ∷ cs)
    → ((a : ℕ) → s.mem a < 256)
    → s.end_index ≤ 1024
    → (dir : ℕ) × (s' : Vm) × (create_user_page_dir s ≡ ok (dir, s'))
      × (dir ≢ 0)
      × (has_page dir (c ∷ cs) ≡ true)
      × IsUserDir s s' dir
unfolding create_user_page_dir
create_user_page_dir-IsUserDir s c cs is bytes fits =
    let (a, pmu, cells', e, is', ne, al, small, free, rest) = alloc_page_lem s c cs is.free in
    (
      a,
      created s a (c ∷ cs) cells' pmu,
      rw (e, ◌>>=◌),
      ne,
      free,
      created-IsUserDir s a (c ∷ cs) cells' pmu is bytes fits is' al free rest,
    )
