-- ===== src/Hardware/Vectors.antt =====
-- The interrupt table that kernel/idt.c loads, vector by vector.
use fi_rststep.Prelude.{
  ℕ, zero, suc, ◌+◌, ◌-◌, ◌*◌, ◌^◌, ◌≤◌, ◌<◌, ◌≡◌, ◌≢◌, ◌⊎◌, inl, inr, refl, sym, ap, subst, ◌∙◌,
  true, false, ◌==◌, leb, if◌then◌else◌, arith, List, [], ◌∷◌, length, get_or, replicate,
  Bool-cases, ℕ_discrete,
}
use fi_rststep.Process.{ker_code_selector}
use fi_rststep.Hardware.Gates.{
  GateDescriptor, Idt, Isr, isr_de, isr_db, isr_nmi, isr_bp, isr_of, isr_br, isr_ud, isr_nm, isr_df,
  isr_cso, isr_ts, isr_np, isr_ss, isr_gp, isr_pf, isr_reserved, isr_mf, isr_ac, isr_mc, isr_xm,
  isr_ve, isr_cp, isr_default, isr_timer, isr_spurious_irq, isr_syscall, gt_int, set_gate, gate,
  set_gates, set_exceptions, allow_user, idt_init,
}

-- The handlers of the processor's own exceptions, in order.
abbrev pub exceptions : List Isr
exceptions =
    isr_de ∷ isr_db ∷ isr_nmi ∷ isr_bp ∷ isr_of ∷ isr_br ∷ isr_ud ∷ isr_nm ∷ isr_df ∷ isr_cso
    ∷ isr_ts ∷ isr_np ∷ isr_ss ∷ isr_gp ∷ isr_pf ∷ isr_reserved ∷ isr_mf ∷ isr_ac ∷ isr_mc ∷ isr_xm
    ∷ isr_ve ∷ isr_cp ∷ []

-- the handler of a vector
abbrev pub handler : ℕ → Isr
handler i =
    if i == 0x80
    then isr_syscall
    else (if i == 47
        then isr_spurious_irq
        else (if i == 39
            then isr_spurious_irq
            else (if i == 32
                then isr_timer
                else (if leb 32 i
                    then isr_default
                    else (if leb 22 i then isr_reserved else get_or exceptions i isr_reserved)))))

-- An interrupt gate into the kernel's code segment, for a caller of the given privilege.
pub record IsGate (g : GateDescriptor) (addr dpl : ℕ) : Type 0 where
  pub kind : g.gate_type ≡ gt_int
  pub target : g.offset_lo + g.offset_hi * 65536 ≡ addr
  pub kernel : g.selector ≡ ker_code_selector
  pub caller : g.dpl ≡ dpl
  pub there : g.present ≡ 1
  pub zeroed : g.zero_bit ≡ 0

module _ (address : Isr → ℕ) (small : (isr : Isr) → address isr < 2 ^ 32) where
  gate-IsGate : (i : ℕ) (isr : Isr) (idt : Idt) → IsGate (gate address i isr idt i) (address isr) 0
  unfolding set_gate
  gate-IsGate i isr idt =
      let here : (i == i) ≡ true = ground arith in
      rw here (record {
        kind = refl;
        target = omega (arith, small isr);
        kernel = refl;
        caller = refl;
        there = refl;
        zeroed = refl;
      })

  gate_other : (i j : ℕ) (isr : Isr) (idt : Idt) → i ≢ j → gate address j isr idt i ≡ idt i
  unfolding set_gate
  gate_other i j isr idt ne = let out : (i == j) ≡ false = ground arith in rw out refl

  -- the gates from `from` on, one for each routine of a list
  abbrev set_list : ℕ → List Isr → Idt → Idt
  set_list from [] idt = idt
  set_list from (x ∷ xs) idt = set_list (from + 1) xs (gate address from x idt)

  set_list_other :
      (from i : ℕ) (xs : List Isr) (idt : Idt)
      → (i < from) ⊎ (from + length xs ≤ i)
      → set_list from xs idt i ≡ idt i
  set_list_other from i [] idt out = refl
  set_list_other from i (x ∷ xs) idt out =
      set_list_other (from + 1) i xs (gate address from x idt) (further out)
      ∙ gate_other i from x idt (apart out)
    where
      further :
          (i < from) ⊎ (from + length (x ∷ xs) ≤ i) → (i < from + 1) ⊎ (from + 1 + length xs ≤ i)
      further (inl h) = inl (omega arith)
      further (inr h) = inr (omega arith)

      apart : (i < from) ⊎ (from + length (x ∷ xs) ≤ i) → i ≢ from
      apart (inl h) e = omega arith
      apart (inr h) e = omega arith

  set_list-IsGate :
      (from k : ℕ) (xs : List Isr) (idt : Idt) (d : Isr)
      → k < length xs
      → IsGate (set_list from xs idt (from + k)) (address (get_or xs k d)) 0
  set_list-IsGate from k [] idt d h = absurd (omega arith)
  set_list-IsGate from zero (x ∷ xs) idt d h =
      let at : from + 0 ≡ from = omega arith in
      rw at (
        subst (λ g. IsGate g (address x) 0)
          (sym (set_list_other (from + 1) from xs (gate address from x idt) (inl (omega arith))))
          (gate-IsGate from x idt))
  set_list-IsGate from (suc k) (x ∷ xs) idt d h =
      let at : from + suc k ≡ from + 1 + k = omega arith in
      rw at (set_list-IsGate (from + 1) k xs (gate address from x idt) d (omega arith))

  set_gates-eq-set_list :
      (left from : ℕ) (isr : Isr) (idt : Idt)
      → set_gates address left from isr idt ≡ set_list from (replicate left isr) idt
  unfolding set_gates
  set_gates-eq-set_list zero from isr idt = refl
  set_gates-eq-set_list (suc left) from isr idt =
      set_gates-eq-set_list left (from + 1) isr (gate address from isr idt)

  set_exceptions-eq-set_list : (idt : Idt) → set_exceptions address idt ≡ set_list 0 exceptions idt
  unfolding set_exceptions
  set_exceptions-eq-set_list idt = refl

  get_or-replicate : (n k : ℕ) (x d : Isr) → k < n → get_or (replicate n x) k d ≡ x
  get_or-replicate zero k x d h = absurd (omega arith)
  get_or-replicate (suc n) zero x d h = refl
  get_or-replicate (suc n) (suc k) x d h = get_or-replicate n k x d (omega arith)

  length-replicate : (n : ℕ) (x : Isr) → length (replicate n x) ≡ n
  length-replicate zero x = refl
  length-replicate (suc n) x = ap suc (length-replicate n x)

  -- A loop sets its own gates and no other.
  set_gates-IsGate :
      (left from i : ℕ) (isr : Isr) (idt : Idt)
      → from ≤ i
      → i < from + left
      → IsGate (set_gates address left from isr idt i) (address isr) 0
  set_gates-IsGate left from i isr idt low high =
      let split : from + (i - from) ≡ i = omega arith in
      let n : length (replicate left isr) ≡ left = length-replicate left isr in
      let one = get_or-replicate left (i - from) isr isr (omega arith) in
      let found : IsGate (set_list from (replicate left isr) idt (from + (i - from)))
          (address (get_or (replicate left isr) (i - from) isr)) 0 =
        set_list-IsGate from (i - from) (replicate left isr) idt isr (omega (arith, n)) in
      let moved =
        subst
          (λ j.
            IsGate (set_list from (replicate left isr) idt j)
              (address (get_or (replicate left isr) (i - from) isr)) 0)
          split found in
      let named =
        subst (λ x. IsGate (set_list from (replicate left isr) idt i) (address x) 0) one moved in
      subst (λ t. IsGate (t i) (address isr) 0) (sym (set_gates-eq-set_list left from isr idt))
        named

  set_gates_other :
      (left from i : ℕ) (isr : Isr) (idt : Idt)
      → i < from
      → set_gates address left from isr idt i ≡ idt i
  set_gates_other left from i isr idt low =
      ap (λ t. t i) (set_gates-eq-set_list left from isr idt)
      ∙ set_list_other from i (replicate left isr) idt (inl low)

  set_exceptions-IsGate :
      (i : ℕ) (idt : Idt)
      → i < 22
      → IsGate (set_exceptions address idt i) (address (get_or exceptions i isr_reserved)) 0
  set_exceptions-IsGate i idt h =
      let from0 : 0 + i ≡ i = omega arith in
      let found =
        subst
          (λ j. IsGate (set_list 0 exceptions idt j) (address (get_or exceptions i isr_reserved)) 0)
          from0 (set_list-IsGate 0 i exceptions idt isr_reserved h) in
      subst (λ t. IsGate (t i) (address (get_or exceptions i isr_reserved)) 0)
        (sym (set_exceptions-eq-set_list idt)) found

  -- One more gate on top.
  gate-step :
      (i j : ℕ) (isr h : Isr) (idt : Idt)
      → IsGate (idt i) (address h) 0
      → IsGate (gate address j isr idt i) (address (if i == j then isr else h)) 0
  gate-step i j isr h idt is = elim (ℕ_discrete i j) [
    | yes e ↦
        let same : (i == j) ≡ true = ground arith in
        rw same (
          subst (λ k. IsGate (gate address j isr idt k) (address isr) 0) (sym e)
            (gate-IsGate j isr idt))
    | no ne ↦
        let other : (i == j) ≡ false = ground arith in
        rw other (subst (λ g. IsGate g (address h) 0) (sym (gate_other i j isr idt ne)) is)
  ]

  -- The table before the four gates that are set last.
  abbrev plain : Idt → Idt
  plain idt =
      set_gates address 224 32 isr_default
        (set_gates address 10 22 isr_reserved (set_exceptions address idt))

  plain-IsGate :
      (i : ℕ) (idt : Idt)
      → i < 256
      → IsGate
          (plain idt i)
          (address (
            if leb 32 i
            then isr_default
            else (if leb 22 i then isr_reserved else get_or exceptions i isr_reserved)))
          0
  plain-IsGate i idt h = elim (Bool-cases (leb 32 i)) [
    | inl high ↦ rw high (set_gates-IsGate 224 32 i isr_default _ (ground arith) (omega arith))
    | inr low ↦
        let out =
          set_gates_other 224 32 i isr_default
            (set_gates address 10 22 isr_reserved (set_exceptions address idt)) (ground arith) in
        elim (Bool-cases (leb 22 i)) [
          | inl mid ↦
              rw (low, mid)
                (subst (λ g. IsGate g (address isr_reserved) 0) (sym out)
                  (set_gates-IsGate 10 22 i isr_reserved (set_exceptions address idt) (ground arith)
                    (ground arith)))
          | inr first ↦
              rw (low, first)
                (subst (λ g. IsGate g (address (get_or exceptions i isr_reserved)) 0)
                  (sym (
                    out
                    ∙ set_gates_other 10 22 i isr_reserved (set_exceptions address idt)
                        (ground arith)))
                  (set_exceptions-IsGate i idt (ground arith)))
        ]
  ]

  user-IsGate :
      (i : ℕ) (addr : ℕ) (idt : Idt)
      → IsGate (idt i) addr 0
      → IsGate (allow_user address 0x80 idt i) addr (if i == 0x80 then 3 else 0)
  user-IsGate i addr idt is = elim (Bool-cases (i == 0x80)) [
    | inl user ↦ rw user (record {
      kind = is.kind;
      target = is.target;
      kernel = is.kernel;
      caller = refl;
      there = is.there;
      zeroed = is.zeroed;
    })
    | inr kernel ↦ rw kernel is
  ]

-- If the service routines lie below 2 ^ 32, then in the table that `idt_init` loads each of the
-- 256 vectors is a present interrupt gate into the kernel's code segment. Vectors 0 to 21 lead to
-- the routines of their exceptions, 22 to 31 to the reserved one, 32 to the timer, 39 and 47 to
-- the spurious interrupts, 0x80 to the system calls and the others to the default, and only 0x80
-- can be called by user programs.
pub idt_init-IsGate :
    (address : Isr → ℕ) (idt : Idt) (i : ℕ)
    → ((isr : Isr) → address isr < 2 ^ 32)
    → i < 256
    → IsGate (idt_init address idt i) (address (handler i)) (if i == 0x80 then 3 else 0)
unfolding idt_init
idt_init-IsGate address idt i small h =
    let t₀ = plain address small idt in
    let t₁ = gate address 32 isr_timer t₀ in
    let t₂ = gate address 39 isr_spurious_irq t₁ in
    let t₃ = gate address 47 isr_spurious_irq t₂ in
    let t₄ = gate address 0x80 isr_syscall t₃ in
    let is₁ = gate-step address small i 32 isr_timer _ t₀ (plain-IsGate address small i idt h) in
    let is₂ = gate-step address small i 39 isr_spurious_irq _ t₁ is₁ in
    let is₃ = gate-step address small i 47 isr_spurious_irq _ t₂ is₂ in
    let is₄ = gate-step address small i 0x80 isr_syscall _ t₃ is₃ in
    user-IsGate address small i (address (handler i)) t₄ is₄
