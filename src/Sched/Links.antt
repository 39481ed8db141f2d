-- ===== src/Sched/Links.antt =====
-- What a doubly linked chain of task structures stands for: the tasks in it, in order.
use fi_rststep.Prelude.{
  ℕ, Bool, true, false, List, [], ◌∷◌, ◌++◌, ◌≡◌, ◌≢◌, refl, ◌||◌, ◌==◌, arith,
}
use fi_rststep.Prelude.Words.{null}
use fi_rststep.Task.{Tasks, set_prev, set_next}
use fi_rststep.Sched.{TaskList}

abbrev pub has : ℕ → List ℕ → Bool
has a [] = false
has a (x ∷ xs) = (a == x) || has a xs

abbrev pub Distinct : List ℕ → Type 0
Distinct [] = Unit
Distinct (x ∷ xs) = (has x xs ≡ false) × Distinct xs

-- From `p`, whose predecessor is `pr`, the chain runs through `xs` to `q`; `last` is its last task.
abbrev pub Seg : Tasks → (pr p : ℕ) → List ℕ → (q last : ℕ) → Type 0
Seg t pr p [] q last = (p ≡ q) × (last ≡ pr)
Seg t pr p (x ∷ xs) q last = (p ≡ x) × (x ≢ null) × ((t x).prev ≡ pr) × Seg t x (t x).next xs q last

pub record IsList (l : TaskList) (t : Tasks) (xs : List ℕ) : Type 0 where
  pub chain : Seg t null l.head xs null l.tail
  pub distinct : Distinct xs

-- the same links at every task of the chain
abbrev pub SameLinks : List ℕ → Tasks → Tasks → Type 0
SameLinks xs t u = (y : ℕ) → has y xs ≡ true → ((u y).prev ≡ (t y).prev) × ((u y).next ≡ (t y).next)

pub Seg-frame :
    (t u : Tasks) (pr p : ℕ) (xs : List ℕ) (q last : ℕ)
    → SameLinks xs t u
    → Seg t pr p xs q last
    → Seg u pr p xs q last
Seg-frame t u pr p [] q last same s = s
Seg-frame t u pr p (x ∷ xs) q last same (e, ne, back, rest) = (
  e,
  ne,
  ground (arith, same x),
  rw (same x (ground arith)).1
      (Seg-frame t u x (t x).next xs q last (λ y h. same y (ground arith)) rest),
)

pub Seg-append :
    (t : Tasks) (pr p : ℕ) (xs ys : List ℕ) (q last q' last' : ℕ)
    → Seg t pr p xs q last
    → Seg t last q ys q' last'
    → Seg t pr p (xs ++ ys) q' last'
Seg-append t pr p [] ys q last q' last' (e, f) s = rw (e, ← f) s
Seg-append t pr p (x ∷ xs) ys q last q' last' (e, ne, back, rest) s =
    (e, ne, back, Seg-append t x (t x).next xs ys q last q' last' rest s)

pub Seg-split :
    (t : Tasks) (pr p : ℕ) (xs ys : List ℕ) (q' last' : ℕ)
    → Seg t pr p (xs ++ ys) q' last'
    → (q : ℕ) × (last : ℕ) × Seg t pr p xs q last × Seg t last q ys q' last'
Seg-split t pr p [] ys q' last' s = (p, pr, (refl, refl), s)
Seg-split t pr p (x ∷ xs) ys q' last' (e, ne, back, rest) =
    let (q, last, a, b) = Seg-split t x (t x).next xs ys q' last' rest in
    (q, last, (e, ne, back, a), b)

-- the last task of a chain that is not empty is one of it
pub last-mem :
    (t : Tasks) (pr p x : ℕ) (xs : List ℕ) (q last : ℕ)
    → Seg t pr p (x ∷ xs) q last
    → has last (x ∷ xs) ≡ true
last-mem t pr p x [] q last s = ground arith
last-mem t pr p x (y ∷ ys) q last (e, ne, back, rest) =
    ground (arith, last-mem t x (t x).next y ys q last rest)

-- writing the last task's `next` moves the end of the chain
pub Seg-set_next :
    (t : Tasks) (pr p x : ℕ) (xs : List ℕ) (q last r : ℕ)
    → Distinct (x ∷ xs)
    → Seg t pr p (x ∷ xs) q last
    → Seg (set_next last r t) pr p (x ∷ xs) r last
Seg-set_next t pr p x [] q last r d s = ground arith
Seg-set_next t pr p x (y ∷ ys) q last r d (e, ne, back, rest) =
    let inside : has last (y ∷ ys) ≡ true = last-mem t x (t x).next y ys q last rest in
    let apart : x ≢ last = ground arith in
    let keep : (set_next last r t x).next ≡ (t x).next = ground arith in
    (e, ne, ground arith, rw keep (Seg-set_next t x (t x).next y ys q last r d.1 rest))

-- writing the first task's `prev` moves the start of the chain
pub Seg-set_prev :
    (t : Tasks) (pr p x : ℕ) (xs : List ℕ) (q last r : ℕ)
    → Distinct (x ∷ xs)
    → Seg t pr p (x ∷ xs) q last
    → Seg (set_prev x r t) r p (x ∷ xs) q last
Seg-set_prev t pr p x xs q last r d (e, ne, back, rest) =
    let keep : (set_prev x r t x).next ≡ (t x).next = ground arith in
    let outside : SameLinks xs t (set_prev x r t) = λ y h. (ground arith, ground arith) in
    (
      e,
      ne,
      ground arith,
      rw keep (Seg-frame t (set_prev x r t) x (t x).next xs q last outside rest),
    )

pub head-eq :
    (t : Tasks) (pr p x : ℕ) (xs : List ℕ) (q last : ℕ) → Seg t pr p (x ∷ xs) q last → p ≡ x
head-eq t pr p x xs q last s = s.0

pub has-append : (a : ℕ) (xs ys : List ℕ) → has a (xs ++ ys) ≡ (has a xs || has a ys)
has-append a [] ys = refl
has-append a (x ∷ xs) ys = ground (arith, has-append a xs ys)

pub Distinct-snoc :
    (xs : List ℕ) (a : ℕ) → Distinct xs → has a xs ≡ false → Distinct (xs ++ (a ∷ []))
Distinct-snoc [] a d out = (refl, tt)
Distinct-snoc (x ∷ xs) a d out =
    (ground (arith, has-append x xs (a ∷ [])), Distinct-snoc xs a d.1 (ground arith))

pub Seg-ne_null :
    (t : Tasks) (pr p : ℕ) (xs : List ℕ) (q last : ℕ) → Seg t pr p xs q last → has null xs ≡ false
Seg-ne_null t pr p [] q last s = refl
Seg-ne_null t pr p (x ∷ xs) q last (e, ne, back, rest) =
    ground (arith, Seg-ne_null t x (t x).next xs q last rest)

pub Distinct-append_left : (xs ys : List ℕ) → Distinct (xs ++ ys) → Distinct xs
Distinct-append_left [] ys d = tt
Distinct-append_left (x ∷ xs) ys d =
    (ground (arith, has-append x xs ys), Distinct-append_left xs ys d.1)

pub Distinct-append_right : (xs ys : List ℕ) → Distinct (xs ++ ys) → Distinct ys
Distinct-append_right [] ys d = d
Distinct-append_right (x ∷ xs) ys d = Distinct-append_right xs ys d.1

pub Distinct-apart :
    (a : ℕ) (xs ys : List ℕ) → Distinct (xs ++ ys) → has a ys ≡ true → has a xs ≡ false
Distinct-apart a [] ys d h = refl
Distinct-apart a (x ∷ xs) ys d h = ground (arith, has-append x xs ys, Distinct-apart a xs ys d.1 h)

-- a distinct list without one of its members
pub Distinct-remove :
    (xs : List ℕ) (a : ℕ) (ys : List ℕ) → Distinct (xs ++ (a ∷ ys)) → Distinct (xs ++ ys)
Distinct-remove [] a ys d = d.1
Distinct-remove (x ∷ xs) a ys d =
    (ground (arith, has-append x xs (a ∷ ys), has-append x xs ys), Distinct-remove xs a ys d.1)
