-- ===== src/Consensus/Verdict.antt =====
-- detection/c3.py: `classify_evidence` in its exact mode, on the values that the peers gathered.
use Prim.Native.Nat.{◌/◌}
use lm_resiliency.Base.{
  ℕ, suc, List, [], ◌∷◌, map, Option, some, none, if◌then◌else◌, leb, ◌==◌, Eq, length, set_of,
}
use lm_resiliency.Durable.Record.{C3Status, agree, attributed, inconclusive}

pub record C3Result {ℓ} (A : Type ℓ) : Type ℓ where
  pub status : C3Status
  pub bitmap : List ℕ
  pub evidence : List A

module _ {ℓ} {A : Type ℓ} ⦃e : Eq A⦄ where
  -- `Counter(values)[value]`
  abbrev pub count : List A → A → ℕ
  count [] a = 0
  count (x ∷ xs) a = let rest = count xs a in if x == a then suc rest else rest

  -- `Counter(values).most_common(1)`: of the values with the highest count the one that comes first.
  abbrev pub most_common : List A → A → List A → A
  most_common values x [] = x
  most_common values x (y ∷ ys) =
      let best = most_common values y ys in
      if leb (count values best) (count values x) then x else best

  abbrev pub verdict : C3Status → List ℕ → List A → C3Result A
  verdict s bits values = record { status = s; bitmap = bits; evidence = values }

  abbrev pub no_bits : List A → List ℕ
  no_bits = map λ v. 0

  abbrev pub outliers : A → List A → List ℕ
  outliers majority = map λ v. if v == majority then 0 else 1

  abbrev pub vote : A → List A → C3Result A
  vote majority values =
      if leb (count values majority) (length values / 2)
      then verdict inconclusive (no_bits values) values
      else verdict attributed (outliers majority values) values

  -- `none` stands for the refusal of an empty list.
  unfoldable pub classify_evidence : List A → Option (C3Result A)
  classify_evidence [] = none
  classify_evidence (v ∷ vs) = some (
      if leb (length (set_of (v ∷ vs))) 1
      then verdict agree (no_bits (v ∷ vs)) (v ∷ vs)
      else vote (most_common (v ∷ vs) v vs) (v ∷ vs))
