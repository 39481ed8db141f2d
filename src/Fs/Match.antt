-- ===== src/Fs/Match.antt =====
-- `fat_name_cmp` against the 8.3 name that a directory entry stands for.
use fi_rststep.Prelude.{
  ℕ, zero, suc, ◌+◌, ◌-◌, ◌≤◌, ◌<◌, ◌≡◌, ◌≢◌, ◌⊎◌, ◌↔◌, inl, inr, refl, ap, sym, subst, true, false,
  not, List, [], ◌∷◌, ◌++◌, ◌==◌, if◌then◌else◌, arith, Bool-cases, append-nil, ◌∙◌,
}
use fi_rststep.Ata.{Bytes}
use fi_rststep.Fs.{DirEntry}
use fi_rststep.Fs.Name.{blank, toupper, trim, agree, from, fat_name_cmp}

-- A field of `n` bytes holds `k` bytes, the last of them no blank, and then blanks.
pub record IsPadded (n : ℕ) (field : Bytes) (k : ℕ) : Type 0 where
  pub fits : k ≤ n
  pub blanks : (i : ℕ) → k ≤ i → i < n → field i ≡ blank
  pub full : (k ≡ 0) ⊎ (field (k - 1) ≢ blank)

-- the bytes of a field from `i` on
abbrev pub slice : ℕ → ℕ → Bytes → List ℕ
slice zero i field = []
slice (suc n) i field = field i ∷ slice n (i + 1) field

-- the name of an entry as it is written: a dot before the extension if there is one
abbrev pub written_name : ℕ → ℕ → DirEntry → List ℕ
written_name n m entry = slice n 0 entry.name ++ (if m == 0 then [] else b'.' ∷ slice m 0 entry.ext)

-- From `i` on, `name` is the string `cs`, but for capitals.
abbrev pub IsName : List ℕ → ℕ → Bytes → Type 0
IsName [] i name = name i ≡ 0
IsName (c ∷ cs) i name = (toupper c ≡ toupper (name i)) × IsName cs (i + 1) name

trim-IsPadded : (n : ℕ) (field : Bytes) (k : ℕ) → IsPadded n field k → trim n field ≡ k
unfolding trim
trim-IsPadded zero field k p = omega (arith, p.fits)
trim-IsPadded (suc n) field k p = elim (Bool-cases (field n == blank)) [
  | inl e ↦
      let last : field n ≡ blank = ground arith in
      let shorter : k ≤ n = ground (arith, p.fits, p.full) in
      rw e (
        trim-IsPadded n field k (record {
          fits = shorter;
          blanks = λ i lo hi. p.blanks i lo (omega arith);
          full = p.full;
        }))
  | inr e ↦ let other : field n ≢ blank = ground arith in rw e (ground (arith, p.fits, p.blanks n))
]

false-true : false ≢ true
false-true h = cc

module _ (field name name' : Bytes) (rest : List ℕ) (k : ℕ)
    (same : (j : ℕ) → name' j ≡ name (k + j)) where
  agree-IsName :
      (n i : ℕ)
      → ((agree n i field name' ≡ true) × IsName rest (k + (i + n)) name)
        ↔ IsName (slice n i field ++ rest) (k + i) name
  unfolding agree
  agree-IsName zero i =
      let e : k + (i + 0) ≡ k + i = omega arith in
      (
        λ h. subst (λ z. IsName rest z name) e h.1,
        λ h. (refl, subst (λ z. IsName rest z name) (sym e) h),
      )
  agree-IsName (suc n) i =
      let ih = agree-IsName n (i + 1) in
      let e : k + (i + suc n) ≡ k + (i + 1 + n) = omega arith in
      let f : k + (i + 1) ≡ k + i + 1 = omega arith in
      elim (Bool-cases (toupper (field i) == toupper (name' i))) [
        | inl alike ↦
            let first : toupper (field i) ≡ toupper (name (k + i)) =
              ground (arith, ap toupper (same i)) in
            rw (alike, e)
              (
                λ h. (first, subst (λ z. IsName (slice n (i + 1) field ++ rest) z name) f (ih.0 h)),
                λ h. ih.1 (subst (λ z. IsName (slice n (i + 1) field ++ rest) z name) (sym f) h.1),
              )
        | inr other ↦
            let differ : toupper (field i) ≢ toupper (name (k + i)) =
              ground (arith, ap toupper (same i)) in
            rw other (λ h. absurd (false-true h.0), λ h. absurd (differ h.0))
      ]

dot-toupper : (c : ℕ) → (toupper b'.' ≡ toupper c) ↔ (c ≡ b'.')
unfolding toupper
dot-toupper c = (λ h. ground arith, λ h. ground arith)

module _ (entry : DirEntry) (n : ℕ) (name : Bytes) where
  front :
      (rest : List ℕ)
      → ((agree n 0 entry.name name ≡ true) × IsName rest n name)
        ↔ IsName (slice n 0 entry.name ++ rest) 0 name
  front rest =
      let e : 0 + (0 + n) ≡ n = omega arith in
      let same = agree-IsName entry.name name name rest 0 (λ j. ground arith) n 0 in
      (
        λ h. same.0 (h.0, subst (λ z. IsName rest z name) (sym e) h.1),
        λ h. ((same.1 h).0, subst (λ z. IsName rest z name) e (same.1 h).1),
      )

  extension :
      (m : ℕ)
      → ((agree m 0 entry.ext (from (n + 1) name) ≡ true) × (name (n + 1 + m + 0) ≡ 0))
        ↔ IsName (slice m 0 entry.ext) (n + 1) name
  extension m =
      let same = agree-IsName entry.ext name (from (n + 1) name) [] (n + 1) (λ j. refl) m 0 in
      let e : n + 1 + 0 ≡ n + 1 = omega arith in
      let f : n + 1 + (0 + m) ≡ n + 1 + m + 0 = omega arith in
      let all = append-nil (slice m 0 entry.ext) in
      (
        λ h.
            subst (λ z. IsName (slice m 0 entry.ext) z name) e
              (subst (λ z. IsName z (n + 1 + 0) name) all (same.0 (h.0, ap name f ∙ h.1))),
        λ h.
            let p = same.1 (
              subst (λ z. IsName z (n + 1 + 0) name) (sym all)
                (subst (λ z. IsName (slice m 0 entry.ext) z name) (sym e) h)) in
            (p.0, ap name (sym f) ∙ p.1),
      )

  dotless :
      ((if not (agree n 0 entry.name name) then false else name (n + 0) == 0) ≡ true)
      ↔ IsName (slice n 0 entry.name ++ []) 0 name
  dotless = (λ h. (front []).0 (ground arith), λ h. let p = (front []).1 h in ground (arith, p))

  dotted :
      (m : ℕ)
      → ((if not (agree n 0 entry.name name)
            then false
            else (if not (name (n + 0) == b'.')
                then false
                else (if not (agree m 0 entry.ext (from (n + 1) name))
                    then false
                    else name (n + 1 + m + 0) == 0)))
          ≡ true)
        ↔ IsName (slice n 0 entry.name ++ (b'.' ∷ slice m 0 entry.ext)) 0 name
  dotted m =
      let rest = b'.' ∷ slice m 0 entry.ext in
      (
        λ h. (front rest).0 (
          ground arith,
          (ground (arith, (dot-toupper (name n)).1), (extension m).0 (ground arith)),
        ),
        λ h.
            let (p, (d, q)) = (front rest).1 h in
            let (b, z) = (extension m).1 q in
            let dot : name n ≡ b'.' = (dot-toupper (name n)).0 d in ground arith,
      )

-- If the first `n` bytes of an entry's name and the first `m` of its extension are what stands
-- before the blanks that fill them up, `fat_name_cmp` returns 0 exactly if the string is the name
-- followed, for a nonempty extension, by a dot and the extension, the case of letters aside.
pub fat_name_cmp-IsName :
    (entry : DirEntry) (n m : ℕ) (name : Bytes)
    → IsPadded 8 entry.name n
    → IsPadded 3 entry.ext m
    → (fat_name_cmp entry name ≡ true) ↔ IsName (written_name n m entry) 0 name
unfolding fat_name_cmp
fat_name_cmp-IsName entry n m name pn pm =
    rw (trim-IsPadded 8 entry.name n pn, trim-IsPadded 3 entry.ext m pm)
      (elim (Bool-cases (m == 0)) [
        | inl bare ↦ rw bare (dotless entry n name)
        | inr more ↦ rw more (dotted entry n name m)
      ])
