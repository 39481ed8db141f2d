-- ===== src/Paging/FirstFit.antt =====
-- `map_physical_page` of kernel/mem.c, which takes the first free entry; and when
-- `map_physical_page_to_linear` stops the machine.
use fi_rststep.Prelude.{
  ℕ, zero, suc, ◌+◌, ◌-◌, ◌*◌, ◌/◌, ◌%◌, ◌^◌, ◌≤◌, ◌<◌, ◌≡◌, ◌≢◌, ◌⊎◌, inl, inr, refl, ap, sym,
  subst, ◌∙◌, false, none, List, ◌∷◌, ◌==◌, ltb, arith, Bool-cases, ℕ_discrete,
}
use fi_rststep.Prelude.Outcome.{Outcome, ok, panic, ◌>>=◌}
use fi_rststep.Prelude.Words.{null}
use fi_rststep.Str.{Memory}
use fi_rststep.Pmu.{page_size}
use fi_rststep.Pmu.Chain.{Cell}
use fi_rststep.Paging.{
  Vm, present, page_dir_index, page_table_index, entry, table_at, ensure_table, fill_entry,
  find_free_entry, map_from, map_physical_page, map_physical_page_to_linear,
}
use fi_rststep.Paging.Walk.{both_present, mapping, mapping-absent, walk, IsSpace}
use fi_rststep.Paging.Table.{HasTable, ensure_table-HasTable}
use fi_rststep.Paging.Map.{IsMapped, fill_entry-IsMapped}

-- The search stops at the first free entry, or behind the last one.
find_free_entry_lem :
    (left j table : ℕ) (mem : Memory)
    → let k = find_free_entry left j table mem in
      (j ≤ k)
      × (k ≤ j + left)
      × ((l : ℕ) → j ≤ l → l < k → present (entry mem table l) ≢ 0)
      × (k < j + left → present (entry mem table k) ≡ 0)
unfolding find_free_entry
find_free_entry_lem zero j table mem =
    (omega arith, omega arith, λ l a b. absurd (omega arith), λ a. absurd (omega arith))
find_free_entry_lem (suc left) j table mem = elim (Bool-cases (present (entry mem table j) == 0)) [
  | inl free ↦
      let z : present (entry mem table j) ≡ 0 = ground arith in
      rw free (omega arith, omega arith, λ l a b. absurd (omega arith), λ a. z)
  | inr taken ↦
      let (low, high, all, stop) = find_free_entry_lem left (j + 1) table mem in
      let here : present (entry mem table j) ≢ 0 = λ z. absurd (ground arith) in
      rw taken (omega arith, omega arith, from_here here all, λ a. stop (omega arith))
]
  where
    from_here :
        {k : ℕ}
        → present (entry mem table j) ≢ 0
        → ((l : ℕ) → j + 1 ≤ l → l < k → present (entry mem table l) ≢ 0)
        → (l : ℕ) → j ≤ l
        → l < k
        → present (entry mem table l) ≢ 0
    from_here here all l a b = elim (ℕ_discrete l j) [
      | yes e ↦ subst (λ z. present (entry mem table z) ≢ 0) (sym e) here
      | no ne ↦ all l (omega arith) b
    ]

both_present-taken : (d w : ℕ) → present d ≡ 1 → present w ≢ 0 → both_present d w ≢ none
both_present-taken d w p q = ground arith

both_present-free : (d w : ℕ) → present d ≡ 1 → both_present d w ≡ none → present w ≡ 0
both_present-free d w p q = ground arith

-- The free slot with the lowest linear address, from directory entry `low` on.
pub record IsLowest (s : Vm) (dir low linear : ℕ) : Type 0 where
  pub user_area : low ≤ page_dir_index linear
  pub bound : linear < 2 ^ 32
  pub aligned : linear % page_size ≡ 0
  pub free : walk s.mem dir linear ≡ none
  pub below :
      (k l : ℕ)
      → low ≤ k
      → l < 1024
      → k * 1024 + l < linear / page_size
      → mapping s.mem dir k l ≢ none

-- The first free entry of a table whose directory entry is the first to have one.
module _ (s s₁ : Vm) (dir i phys us rw_ j : ℕ) (h : HasTable s s₁ dir i us) (hi : i < 1024)
    (hj : j < 1024) (al : phys % page_size ≡ 0) (small : phys < 2 ^ 32)
    (empty : present (entry s₁.mem (table_at s₁.mem dir i) j) ≡ 0)
    (full : (l : ℕ) → l < j → present (entry s₁.mem (table_at s₁.mem dir i) l) ≢ 0) where
  abbrev pub linear_of : ℕ
  linear_of = i * 2 ^ 22 + j * 2 ^ 12

  dir_index : page_dir_index linear_of ≡ i
  dir_index = omega arith

  table_index : page_table_index linear_of ≡ j
  table_index = omega arith

  slot_free : mapping s.mem dir i j ≡ none
  slot_free =
      sym (h.kept i j hi hj)
      ∙ none_of (entry s₁.mem dir i) (entry s₁.mem (table_at s₁.mem dir i) j) empty
    where
      none_of : (d w : ℕ) → present w ≡ 0 → both_present d w ≡ none
      none_of d w e = ground arith

  slot-IsLowest : IsLowest s dir i linear_of
  slot-IsLowest = record {
    user_area = omega arith;
    bound = omega arith;
    aligned = omega arith;
    free = rw (dir_index, table_index) slot_free;
    below = λ k l a b c.
        let hl : l < j = omega arith in
        let e : k ≡ i = omega arith in
        λ n.
          both_present-taken (entry s₁.mem dir i) (entry s₁.mem (table_at s₁.mem dir i) l) h.here
            (full l hl) (h.kept i l hi b ∙ subst (λ z. mapping s.mem dir z l ≡ none) e n);
  }

  slot-IsMapped :
      IsMapped s (fill_entry (table_at s₁.mem dir i) j phys us rw_ s₁) dir linear_of phys us rw_
  slot-IsMapped =
      fill_entry-IsMapped s s₁ dir i j phys us rw_ linear_of h hi hj al small dir_index table_index

IsLowest-earlier :
    (s : Vm) (dir i linear : ℕ)
    → IsLowest s dir (i + 1) linear
    → ((l : ℕ) → l < 1024 → mapping s.mem dir i l ≢ none)
    → IsLowest s dir i linear
IsLowest-earlier s dir i linear is full = record {
  user_area = omega (arith, is.user_area);
  bound = is.bound;
  aligned = is.aligned;
  free = is.free;
  below = λ k l a b c. elim (ℕ_discrete k i) [
    | yes e ↦ subst (λ z. mapping s.mem dir z l ≢ none) (sym e) (full l b)
    | no ne ↦ is.below k l (omega arith) b c
  ];
}

abbrev pub Maps : Vm → ℕ → ℕ → ℕ → ℕ → ℕ → ℕ → Type 0
Maps s left i dir phys us rw_ =
    (linear : ℕ) × (s' : Vm) × (map_from left i dir phys us rw_ s ≡ ok (linear, s'))
    × IsLowest s dir i linear
    × IsMapped s s' dir linear phys us rw_

ensure_table-present :
    (s : Vm) (dir i us : ℕ) → present (entry s.mem dir i) ≢ 0 → ensure_table dir i us s ≡ ok s
unfolding ensure_table
ensure_table-present s dir i us h =
    let e : (present (entry s.mem dir i) == 0) ≡ false = ground arith in rw e

-- When the directory's entry has no free slot, it was there already and nothing is changed.
ensure_table-full :
    (s s₁ : Vm) (dir i us : ℕ)
    → i < 1024
    → ensure_table dir i us s ≡ ok s₁
    → HasTable s s₁ dir i us
    → ((l : ℕ) → l < 1024 → present (entry s₁.mem (table_at s₁.mem dir i) l) ≢ 0)
    → (ensure_table dir i us s ≡ ok s) × ((l : ℕ) → l < 1024 → mapping s.mem dir i l ≢ none)
ensure_table-full s s₁ dir i us hi e h full = (ensure_table-present s dir i us there, taken)
  where
    taken : (l : ℕ) → l < 1024 → mapping s.mem dir i l ≢ none
    taken l hl n =
        both_present-taken (entry s₁.mem dir i) (entry s₁.mem (table_at s₁.mem dir i) l) h.here
          (full l hl) (h.kept i l hi hl ∙ n)

    there : present (entry s.mem dir i) ≢ 0
    there z = taken 0 (omega arith) (mapping-absent s.mem dir i 0 z)

map_from-lowest :
    (left i : ℕ) (s : Vm) (dir phys us rw_ k l : ℕ) (c : Cell) (cs : List Cell)
    → IsSpace s dir (c ∷ cs)
    → i + left ≡ 1024
    → i ≤ k
    → k < 1024
    → l < 1024
    → mapping s.mem dir k l ≡ none
    → phys % page_size ≡ 0
    → phys < 2 ^ 32
    → Maps s left i dir phys us rw_
unfolding map_from
map_from-lowest zero i s dir phys us rw_ k l c cs is all low hk hl free al small =
    absurd (omega arith)
map_from-lowest (suc left) i s dir phys us rw_ k l c cs is all low hk hl free al small =
    let (s₁, e, h) = ensure_table-HasTable s dir i us c cs is (omega arith) in
    let table = table_at s₁.mem dir i in
    let (_, _, full, stop) = find_free_entry_lem 1024 0 table s₁.mem in
    let j = find_free_entry 1024 0 table s₁.mem in
    elim (Bool-cases (ltb j 1024)) [
      | inl here ↦
          let hj : j < 1024 = ground arith in
          (
            i * 2 ^ 22 + j * 2 ^ 12,
            fill_entry table j phys us rw_ s₁,
            rw (e, ◌>>=◌) (rw here),
            slot-IsLowest s s₁ dir i phys us rw_ j h (omega arith) hj al small (stop hj)
                (λ m. full m (omega arith)),
            slot-IsMapped s s₁ dir i phys us rw_ j h (omega arith) hj al small (stop hj)
                (λ m. full m (omega arith)),
          )
      | inr later ↦
          let (keep, taken) =
            ensure_table-full s s₁ dir i us (omega arith) e h
              (λ m b. full m (omega arith) (ground arith)) in
          let past : i + 1 ≤ k = past_full s dir i k l low hl taken free in
          let (linear, s', e', first, mapped) =
            map_from-lowest left (i + 1) s dir phys us rw_ k l c cs is (omega arith) past hk hl free
              al small in
          let same : s₁ ≡ s = ok-injective (sym e ∙ keep) in
          let later' =
            subst (λ z. ltb (find_free_entry 1024 0 (table_at z.mem dir i) z.mem) 1024 ≡ false) same
              later in
          (
            linear,
            s',
            rw (keep, ◌>>=◌) (rw later' e'),
            IsLowest-earlier s dir i linear first taken,
            mapped,
          )
    ]
  where
    past_full :
        (s : Vm) (dir i k l : ℕ)
        → i ≤ k
        → l < 1024
        → ((m : ℕ) → m < 1024 → mapping s.mem dir i m ≢ none)
        → mapping s.mem dir k l ≡ none
        → i + 1 ≤ k
    past_full s dir i k l low hl taken free = elim (ℕ_discrete k i) [
      | yes e ↦ absurd (taken l hl (subst (λ z. mapping s.mem dir z l ≡ none) e free))
      | no ne ↦ omega arith
    ]

    ok-injective : {s₁ s : Vm} → ok s₁ ≡ ok s → s₁ ≡ s
    ok-injective {s₁} {s} e = ap (returned s) e
      where
        returned : Vm → Outcome Vm → Vm
        returned s (ok s₁) = s₁
        returned s _ = s

-- In a directory that is not NULL and whose tables are pages of their own, none of them free, with a
-- free page left, and for a nonzero page-aligned 32-bit physical address, if some 32-bit linear address of
-- the user area is not mapped, then `map_physical_page` returns. The address it returns is the lowest one
-- in the user area that the walk did not map, and the walk leads from it to the given page then, with the
-- given user and write bits as far as the directory's entry, if it was present before, gives these rights.
-- Every linear address of another page is mapped, or not, as before, with the same rights, and the
-- directory and its tables are still pages of their own that are not free.
pub map_physical_page-IsLowest :
    (s : Vm) (dir phys us rw_ free : ℕ) (c : Cell) (cs : List Cell)
    → IsSpace s dir (c ∷ cs)
    → dir ≢ 0
    → phys ≢ 0
    → phys % page_size ≡ 0
    → phys < 2 ^ 32
    → s.end_index ≤ page_dir_index free
    → free < 2 ^ 32
    → walk s.mem dir free ≡ none
    → (linear : ℕ) × (s' : Vm) × (map_physical_page dir phys us rw_ s ≡ ok (linear, s'))
      × IsLowest s dir s.end_index linear
      × IsMapped s s' dir linear phys us rw_
unfolding map_physical_page
map_physical_page-IsLowest s dir phys us rw_ free c cs is nd np al small user low none_ =
    let d : (dir == null) ≡ false = ground arith in
    let p : (phys == 0) ≡ false = ground arith in
    let found =
      map_from-lowest (1024 - s.end_index) s.end_index s dir phys us rw_ (page_dir_index free)
        (page_table_index free) c cs is (omega arith) user (omega arith) (omega arith) none_ al
        small in
    rw (d, p) found

-- `map_physical_page_to_linear` panics if the directory, the physical or the linear address is 0,
-- if the linear address lies in the kernel's area, or if the walk maps it already.
pub map_physical_page_to_linear-panic :
    (s : Vm) (dir phys linear us rw_ : ℕ)
    → (dir ≡ 0)
      ⊎ ((phys ≡ 0)
          ⊎ ((linear ≡ 0)
              ⊎ ((page_dir_index linear < s.end_index) ⊎ (walk s.mem dir linear ≢ none))))
    → map_physical_page_to_linear dir phys linear us rw_ s ≡ panic
unfolding map_physical_page_to_linear
map_physical_page_to_linear-panic s dir phys linear us rw_ h = elim (Bool-cases (dir == null)) [
  | inl d ↦ rw d refl
  | inr d ↦ elim (Bool-cases (phys == 0)) [
    | inl p ↦ rw (d, p) refl
    | inr p ↦ elim (Bool-cases (linear == 0)) [
      | inl l ↦ rw (d, p, l) refl
      | inr l ↦ elim (Bool-cases (ltb (page_dir_index linear) s.end_index)) [
        | inl k ↦ rw (d, p, l, k) refl
        | inr k ↦
            let (there, taken) =
              slot_of (entry s.mem dir (page_dir_index linear))
                (entry s.mem (table_at s.mem dir (page_dir_index linear)) (page_table_index linear))
                (mapped d p l k h) in
            let e = ensure_table-present s dir (page_dir_index linear) us there in
            rw (d, p, l, k, e, ◌>>=◌) (rw taken refl)
      ]
    ]
  ]
]
  where
    mapped :
        (dir == null) ≡ false
        → (phys == 0) ≡ false
        → (linear == 0) ≡ false
        → ltb (page_dir_index linear) s.end_index ≡ false
        → (dir ≡ 0)
          ⊎ ((phys ≡ 0)
              ⊎ ((linear ≡ 0)
                  ⊎ ((page_dir_index linear < s.end_index) ⊎ (walk s.mem dir linear ≢ none))))
        → walk s.mem dir linear ≢ none
    mapped d p l k (inl h) = absurd (ground arith)
    mapped d p l k (inr (inl h)) = absurd (ground arith)
    mapped d p l k (inr (inr (inl h))) = absurd (ground arith)
    mapped d p l k (inr (inr (inr (inl h)))) = absurd (ground arith)
    mapped d p l k (inr (inr (inr (inr h)))) = h

    slot_of : (d w : ℕ) → both_present d w ≢ none → (present d ≢ 0) × ((present w == 0) ≡ false)
    slot_of d w h = elim (Bool-cases (present d == 0)) [
      | inl z ↦ absurd (h (rw z refl))
      | inr here ↦ elim (Bool-cases (present w == 0)) [
        | inl z ↦ absurd (h (rw (here, z) refl))
        | inr e ↦ (λ n. absurd (ground arith), e)
      ]
    ]
