-- ===== src/Base/Membership.antt =====
-- Membership, sets and distinctness by an equality test.
use Prim.Native.Nat.{◌≤◌}
use mathlib.Core.Path.{◌≡◌, refl}
use mathlib.Core.Bool.{Bool, true, false, ◌&&◌, ◌||◌}
use mathlib.Core.List.{List, [], ◌∷◌, ◌++◌}
use native.Mathlib.Omega.{arith}
use lm_resiliency.Base.Tests.{if◌then◌else◌, Eq, ◌==◌, nat_eq}
use lm_resiliency.Base.Lists.{length, all, any}

module _ {ℓ} {A : Type ℓ} ⦃e : Eq A⦄ where
  -- `a in xs`
  abbrev pub contains : List A → A → Bool
  contains [] a = false
  contains (x ∷ xs) a = x == a || contains xs a

  -- `set(xs)`, as a list without repetitions.
  abbrev pub set_of : List A → List A
  set_of [] = []
  set_of (x ∷ xs) = let rest = set_of xs in if contains xs x then rest else x ∷ rest

  -- `len(xs) == len(set(xs))`
  abbrev pub unique : List A → Bool
  unique xs = length xs == length (set_of xs)

  -- `set(xs) == set(ys)`
  abbrev pub same_set : List A → List A → Bool
  same_set xs ys = all (contains ys) xs && all (contains xs) ys

  -- `set(xs) & set(ys)` is not empty.
  abbrev pub overlaps : List A → List A → Bool
  overlaps xs ys = any (contains ys) xs

  abbrev pub Distinct : List A → Type 0
  Distinct [] = Unit {0}
  Distinct (x ∷ xs) = (contains xs x ≡ false) × Distinct xs

  pub length-set_of-le : (xs : List A) → length (set_of xs) ≤ length xs
  length-set_of-le [] = omega arith
  length-set_of-le (x ∷ xs) = ground (arith, length-set_of-le xs)

  pub unique→Distinct : (xs : List A) → unique xs ≡ true → Distinct xs
  unique→Distinct [] h = tt
  unique→Distinct (x ∷ xs) h = ground (arith, length-set_of-le xs, unique→Distinct xs)

  pub Distinct→length : (xs : List A) → Distinct xs → length (set_of xs) ≡ length xs
  Distinct→length [] h = refl
  Distinct→length (x ∷ xs) h = ground (arith, Distinct→length xs h.1)

  pub Distinct→unique : (xs : List A) → Distinct xs → unique xs ≡ true
  Distinct→unique xs h = ground (arith, Distinct→length xs h)

  pub contains-append :
      (xs ys : List A) (a : A) → contains (xs ++ ys) a ≡ (contains xs a || contains ys a)
  contains-append [] ys a = refl
  contains-append (x ∷ xs) ys a = ground (arith, contains-append xs ys a)
