-- ===== src/Base/Tests.antt =====
-- Boolean tests, the conditional, and equality tests as an interface.
use Prim.Native.Nat.{◌≤◌, ℕ, compare, Ordering}
use Prim.Native.String.{String}
use text.Mathlib.Text.{◌==◌ as str_eq}
use text.Mathlib.TextEquality.{eq_iff}
use mathlib.Core.Path.{◌≡◌, refl}
use mathlib.Core.Logic.{◌≢◌, ◌↔◌, ◌⊎◌, inl, inr}
use mathlib.Core.Bool.{Bool, true, false}
use mathlib.Core.Option.{Option, none, some}
use native.Mathlib.Omega.{arith}

abbrev pub ltb : ℕ → ℕ → Bool
ltb a b = elim (compare a b) [ Ordering.lt ↦ true | _ ↦ false ]

abbrev pub leb : ℕ → ℕ → Bool
leb a b = elim (compare a b) [ Ordering.gt ↦ false | _ ↦ true ]

abbrev pub nat_beq : ℕ → ℕ → Bool
nat_beq a b = elim (compare a b) [ Ordering.eq ↦ true | _ ↦ false ]

infix 1 if◌then◌else◌
abbrev pub if◌then◌else◌ {ℓ} : {A : Type ℓ} → Bool → A → A → A
if true then x else y = x
if false then x else y = y

pub nat_beq_iff : (a b : ℕ) → (nat_beq a b ≡ true) ↔ (a ≡ b)
nat_beq_iff a b = ground arith

pub le→leb : (a b : ℕ) → a ≤ b → leb a b ≡ true
le→leb a b h = ground arith

-- A type whose values can be compared by a test.
pub record Eq {ℓ} (T : Type ℓ) : Type ℓ where
  pub equal : T → T → Bool
  pub equal_iff : (x y : T) → (equal x y ≡ true) ↔ (x ≡ y)

abbrev pub ◌==◌ {ℓ} : {T : Type ℓ} ⦃i : Eq T⦄ (x y : T) → Bool
◌==◌ ⦃i⦄ x y = i.equal x y

infix 50 ◌==◌
instance abbrev pub nat_eq : Eq ℕ
nat_eq = record { equal = nat_beq; equal_iff = nat_beq_iff }

instance abbrev pub string_eq : Eq String
string_eq = record { equal_iff = eq_iff; equal = str_eq }

pub Bool-cases : (b : Bool) → (b ≡ true) ⊎ (b ≡ false)
Bool-cases true = inl refl
Bool-cases false = inr refl

pub Option-cases {ℓ} : {A : Type ℓ} (o : Option A) → (o ≡ none) ⊎ ((a : A) × (o ≡ some a))
Option-cases none = inl refl
Option-cases (some a) = inr (a, refl)

module _ {ℓ} {A : Type ℓ} ⦃e : Eq A⦄ where
  pub beq_refl : (a : A) → (a == a) ≡ true
  beq_refl a = (e.equal_iff a a).1 refl

  pub beq_ne : (a b : A) → a ≢ b → (a == b) ≡ false
  beq_ne a b h = elim (Bool-cases (a == b)) [
    | inl t ↦ absurd (h ((e.equal_iff a b).0 t))
    | inr f ↦ f
  ]
