-- ===== src/Base/Lists.antt =====
-- Lists measured and indexed by native numbers, under the library's names.
use Prim.Native.Nat.{ℕ, zero, suc, ◌+◌, ◌-◌, ◌<◌, ◌≤◌}
use mathlib.Core.Path.{◌≡◌, refl, ap, ◌∙◌}
use mathlib.Core.Bool.{Bool, true, false, ◌&&◌, ◌||◌}
use mathlib.Core.List.{List, [], ◌∷◌, ◌++◌, map}
use mathlib.Core.Option.{Option, none, some}
use native.Mathlib.Nat.{zero-add, suc-add}
use native.Mathlib.Omega.{arith}

module _ {ℓ} {A : Type ℓ} where
  abbrev pub length : List A → ℕ
  length [] = 0
  length (x ∷ xs) = suc (length xs)

  abbrev pub get_elem? : List A → ℕ → Option A
  get_elem? [] i = none
  get_elem? (x ∷ xs) zero = some x
  get_elem? (x ∷ xs) (suc i) = get_elem? xs i

  -- A write out of bounds changes nothing.
  abbrev pub set : List A → ℕ → A → List A
  set [] i v = []
  set (x ∷ xs) zero v = v ∷ xs
  set (x ∷ xs) (suc i) v = x ∷ set xs i v

  abbrev pub take : ℕ → List A → List A
  take zero xs = []
  take (suc n) [] = []
  take (suc n) (x ∷ xs) = x ∷ take n xs

  abbrev pub drop : ℕ → List A → List A
  drop zero xs = xs
  drop (suc n) [] = []
  drop (suc n) (x ∷ xs) = drop n xs

  pub length-append : (xs ys : List A) → length (xs ++ ys) ≡ length xs + length ys
  length-append [] ys = omega arith
  length-append (x ∷ xs) ys = omega (arith, length-append xs ys)

  pub length-set : (xs : List A) (i : ℕ) (v : A) → length (set xs i v) ≡ length xs
  length-set [] i v = refl
  length-set (x ∷ xs) zero v = refl
  length-set (x ∷ xs) (suc i) v = ap suc (length-set xs i v)

  -- Python's `all` and `any` over a generator.
  abbrev pub all : (A → Bool) → List A → Bool
  all p [] = true
  all p (x ∷ xs) = p x && all p xs

  abbrev pub any : (A → Bool) → List A → Bool
  any p [] = false
  any p (x ∷ xs) = p x || any p xs

  abbrev pub All {κ} : (A → Type κ) → List A → Type κ
  All P [] = Unit
  All P (x ∷ xs) = P x × All P xs

  pub get_elem?-All {κ} :
      (P : A → Type κ) (xs : List A) (i : ℕ) {a : A} → All P xs → get_elem? xs i ≡ some a → P a
  get_elem?-All P [] i h e = absurd (cc)
  get_elem?-All P (x ∷ xs) zero {a} h e = let same : x ≡ a = cc in rw (← same) (h.0)
  get_elem?-All P (x ∷ xs) (suc i) h e = get_elem?-All P xs i h.1 e

  pub drop-append : (xs ys : List A) → drop (length xs) (xs ++ ys) ≡ ys
  drop-append [] ys = refl
  drop-append (x ∷ xs) ys = drop-append xs ys

  pub take-drop : (i : ℕ) (xs : List A) → take i xs ++ drop i xs ≡ xs
  take-drop zero xs = refl
  take-drop (suc i) [] = refl
  take-drop (suc i) (x ∷ xs) = ap (λ l. x ∷ l) (take-drop i xs)

  pub length-drop : (n : ℕ) (xs : List A) → length (drop n xs) ≡ length xs - n
  length-drop zero xs = omega arith
  length-drop (suc n) [] = omega arith
  length-drop (suc n) (x ∷ xs) = omega (arith, length-drop n xs)

  pub take-all : (n : ℕ) (xs : List A) → length xs ≤ n → take n xs ≡ xs
  take-all zero [] h = refl
  take-all zero (x ∷ xs) h = absurd (omega arith)
  take-all (suc n) [] h = refl
  take-all (suc n) (x ∷ xs) h = ap (λ l. x ∷ l) (take-all n xs (omega arith))

  -- A position in a list, what stands there, and what follows.
  pub drop_step :
      (p : ℕ) (xs : List A)
      → p < length xs
      → (x : A) × (get_elem? xs p ≡ some x) × (drop p xs ≡ x ∷ drop (suc p) xs)
  drop_step p [] h = absurd (omega arith)
  drop_step zero (x ∷ xs) h = (x, refl, refl)
  drop_step (suc p) (x ∷ xs) h = drop_step p xs (omega arith)

  pub get_elem?-lt : (xs : List A) (p : ℕ) {x : A} → get_elem? xs p ≡ some x → p < length xs
  get_elem?-lt [] p h = cc
  get_elem?-lt (y ∷ ys) zero h = omega arith
  get_elem?-lt (y ∷ ys) (suc p) h = omega (arith, get_elem?-lt ys p h)

  pub get_elem?-append :
      (xs ys : List A) (i : ℕ) → i < length xs → get_elem? (xs ++ ys) i ≡ get_elem? xs i
  get_elem?-append [] ys i h = absurd (omega arith)
  get_elem?-append (x ∷ xs) ys zero h = refl
  get_elem?-append (x ∷ xs) ys (suc i) h = get_elem?-append xs ys i (omega arith)

  pub get_elem?-behind :
      (xs ys : List A) (i : ℕ) → get_elem? (xs ++ ys) (length xs + i) ≡ get_elem? ys i
  get_elem?-behind [] ys i = ap (get_elem? ys) (zero-add i)
  get_elem?-behind (x ∷ xs) ys i =
      ap (get_elem? (x ∷ (xs ++ ys))) (suc-add (length xs) i) ∙ get_elem?-behind xs ys i

  pub drop-append_left :
      (n : ℕ) (xs ys : List A) → n ≤ length xs → drop n (xs ++ ys) ≡ drop n xs ++ ys
  drop-append_left zero xs ys h = refl
  drop-append_left (suc n) [] ys h = absurd (omega arith)
  drop-append_left (suc n) (x ∷ xs) ys h = drop-append_left n xs ys (omega arith)

  pub take-append_right :
      (n : ℕ) (xs ys : List A) → take (length xs + n) (xs ++ ys) ≡ xs ++ take n ys
  take-append_right n [] ys = ap (λ k. take k ys) (zero-add n)
  take-append_right n (x ∷ xs) ys =
      ap (λ k. take k (x ∷ (xs ++ ys))) (suc-add (length xs) n)
      ∙ ap (λ l. x ∷ l) (take-append_right n xs ys)

-- `range(start, start + n)`
abbrev pub range_from : ℕ → ℕ → List ℕ
range_from start zero = []
range_from start (suc n) = start ∷ range_from (suc start) n

pub length-range_from : (k n : ℕ) → length (range_from k n) ≡ n
length-range_from k zero = refl
length-range_from k (suc n) = ap suc (length-range_from (suc k) n)

pub length-map {ℓ κ} :
    {A : Type ℓ} {B : Type κ} (f : A → B) (xs : List A) → length (map f xs) ≡ length xs
length-map f [] = refl
length-map f (x ∷ xs) = ap suc (length-map f xs)
