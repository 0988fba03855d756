-- ===== src/Base/Sets.antt =====
-- Laws of sets of values and of ranges.
use Prim.Native.Nat.{ℕ, zero, suc, ◌+◌, ◌≤◌, ◌<◌}
use mathlib.Core.Path.{◌≡◌, refl, ap, ◌∙◌}
use mathlib.Core.Logic.{inl, inr}
use mathlib.Core.Bool.{true, false}
use mathlib.Core.List.{List, [], ◌∷◌, ◌++◌, append-nil}
use native.Mathlib.Nat.{add-zero, zero-add, suc-add}
use native.Mathlib.Omega.{arith}
use lm_resiliency.Base.Tests.{Bool-cases, Eq, ◌==◌, nat_eq, beq_refl}
use lm_resiliency.Base.Lists.{length, all, All, range_from}
use lm_resiliency.Base.Membership.{contains, set_of, Distinct, contains-append}

module _ {ℓ} {A : Type ℓ} ⦃e : Eq A⦄ where
  pub contains-All {κ} :
      (P : A → Type κ) (xs : List A) (a : A) → contains xs a ≡ true → All P xs → P a
  contains-All P [] a h p = cc
  contains-All P (x ∷ xs) a h p = elim (Bool-cases (x == a)) [
    | inl hit ↦ rw ((e.equal_iff x a).0 hit) at (p.0)
    | inr miss ↦ contains-All P xs a (ground arith) p.1
  ]

  pub all-contains :
      (xs ys : List A) (a : A)
      → all (contains ys) xs ≡ true
      → contains xs a ≡ true
      → contains ys a ≡ true
  all-contains [] ys a h m = cc
  all-contains (x ∷ xs) ys a h m = ground (arith, e.equal_iff x a, all-contains xs ys a)

  pub length-set_of_zero : (xs : List A) → length (set_of xs) ≡ 0 → xs ≡ []
  length-set_of_zero [] h = refl
  length-set_of_zero (x ∷ xs) h = elim (Bool-cases (contains xs x)) [
    | inl m ↦
        let e : xs ≡ [] = length-set_of_zero xs (ground arith) in
        absurd (ground (arith, ap (λ l. contains l x) e))
    | inr new ↦ absurd (ground (arith, rw new at h))
  ]

  -- A set of one value, and a member of it.
  pub set_of_one :
      (xs : List A) (a : A) → length (set_of xs) ≡ 1 → contains xs a ≡ true → All (λ x. x ≡ a) xs
  set_of_one [] a h m = tt
  set_of_one (x ∷ xs) a h m = elim (Bool-cases (contains xs x)) [
    | inl again ↦
        let rest : contains xs a ≡ true → All (λ x. x ≡ a) xs = set_of_one xs a (ground arith) in
        elim (Bool-cases (x == a)) [
          | inl hit ↦ let same : x ≡ a = (e.equal_iff x a).0 hit in (same, rest (rw same at again))
          | inr miss ↦
              let all_same = rest (ground arith) in
              (contains-All (λ x. x ≡ a) xs x again all_same, all_same)
        ]
    | inr new ↦
        let none_left : xs ≡ [] = length-set_of_zero xs (ground arith) in
        rw none_left (ground (arith, e.equal_iff x a, ap (λ l. contains l a) none_left), tt)
  ]

  pub set_of-All_one : (x : A) (xs : List A) → All (λ y. y ≡ x) xs → length (set_of (x ∷ xs)) ≡ 1
  set_of-All_one x [] h = refl
  set_of-All_one x (y ∷ ys) h = rw (h.0) (ground (arith, beq_refl x, set_of-All_one x ys h.1))

  pub insert-Distinct :
      (xs ys : List A) (a : A)
      → Distinct (xs ++ ys)
      → contains (xs ++ ys) a ≡ false
      → Distinct (xs ++ a ∷ ys)
  insert-Distinct [] ys a d h = (h, d)
  insert-Distinct (x ∷ xs) ys a d h = ground (
    arith,
    contains-append xs ys x,
    contains-append xs (a ∷ ys) x,
    insert-Distinct xs ys a d.1,
    e.equal_iff x a,
    e.equal_iff a x,
  )

  pub append-Distinct :
      (xs : List A) (a : A) → Distinct xs → contains xs a ≡ false → Distinct (xs ++ a ∷ [])
  append-Distinct xs a d h = insert-Distinct xs [] a (rw (append-nil xs) d) (rw (append-nil xs) h)

  pub swap-Distinct : (xs ys : List A) → Distinct (xs ++ ys) → Distinct (ys ++ xs)
  swap-Distinct [] ys d = rw (append-nil ys) d
  swap-Distinct (x ∷ xs) ys d =
      insert-Distinct ys xs x (swap-Distinct xs ys d.1)
        (ground (arith, contains-append xs ys x, contains-append ys xs x, d.0))

-- Strictly rising from a bound on.
abbrev pub Rising : ℕ → List ℕ → Type 0
Rising k [] = Unit {0}
Rising k (x ∷ xs) = (k ≤ x) × Rising (suc x) xs

Rising-weaken : (k j : ℕ) (xs : List ℕ) → j ≤ k → Rising k xs → Rising j xs
Rising-weaken k j [] h r = tt
Rising-weaken k j (x ∷ xs) h r = (omega arith, r.1)

All-lt_mono : (m n : ℕ) (xs : List ℕ) → m ≤ n → All (λ x. x < m) xs → All (λ x. x < n) xs
All-lt_mono m n [] h b = tt
All-lt_mono m n (x ∷ xs) h b = (omega arith, All-lt_mono m n xs h b.1)

-- A rising list with all values below its length on is the range.
pub Rising-range :
    (k : ℕ) (xs : List ℕ)
    → Rising k xs
    → All (λ x. x < k + length xs) xs
    → xs ≡ range_from k (length xs)
Rising-range k [] r b = refl
Rising-range k (x ∷ []) r b = ground arith
Rising-range k (x ∷ y ∷ ys) r b =
    let below : All (λ z. z < suc k + length (y ∷ ys)) (y ∷ ys) =
      All-lt_mono _ _ (y ∷ ys) (omega arith) b.1 in
    let rest : y ∷ ys ≡ range_from (suc k) (length (y ∷ ys)) =
      Rising-range (suc k) (y ∷ ys) (Rising-weaken (suc x) (suc k) (y ∷ ys) (omega arith) r.1)
        below in
    ground (arith, rest)

pub contains-range_from : (k n x : ℕ) → contains (range_from k n) x ≡ true → (k ≤ x) × (x < k + n)
contains-range_from k zero x h = cc
contains-range_from k (suc n) x h = ground (arith, contains-range_from (suc k) n x)

pub range_from-contains : (k n x : ℕ) → k ≤ x → x < k + n → contains (range_from k n) x ≡ true
range_from-contains k zero x h g = absurd (omega arith)
range_from-contains k (suc n) x h g = ground (arith, range_from-contains (suc k) n x)

pub all-contains-range_from :
    (k n : ℕ) (xs : List ℕ) → all (contains (range_from k n)) xs ≡ true → All (λ x. x < k + n) xs
all-contains-range_from k n [] h = tt
all-contains-range_from k n (x ∷ xs) h = elim (Bool-cases (contains (range_from k n) x)) [
  | inl m ↦ ((contains-range_from k n x m).1, all-contains-range_from k n xs (ground arith))
  | inr m ↦ absurd (ground arith)
]

pub range_from-append : (k m n : ℕ) → range_from k (m + n) ≡ range_from k m ++ range_from (k + m) n
range_from-append k zero n = rw (add-zero, zero-add)
range_from-append k (suc m) n = rw (suc-add) (
    ap (λ l. k ∷ l)
      (range_from-append (suc k) m n
        ∙ ap (λ j. range_from (suc k) m ++ range_from j n) (omega arith)))

pub range_from-Distinct : (k n : ℕ) → Distinct (range_from k n)
range_from-Distinct k zero = tt
range_from-Distinct k (suc n) = elim (Bool-cases (contains (range_from (suc k) n) k)) [
  | inl m ↦ absurd (omega (arith, contains-range_from (suc k) n k m))
  | inr m ↦ (m, range_from-Distinct (suc k) n)
]
