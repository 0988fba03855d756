-- ===== src/Durable/Agreement.antt =====
-- The ranks of a checkpoint group draw the same conclusion from the evidence that they gather.
use lm_resiliency.Base.{
  ℕ, ◌≡◌, refl, sym, ◌∙◌, inl, inr, false, List, [], ◌∷◌, some, none, String, All, get_elem?,
  get_elem?-All, arith, Bool-cases, Option-cases,
}
use lm_resiliency.Durable.Rotation.{same_names_iff}
use lm_resiliency.Durable.Candidate.{Observation}
use lm_resiliency.Durable.Evaluation.{first_reason, differ, rejection}

differ-false :
    (os : List Observation) (checked : List String)
    → differ os checked ≡ false
    → All (λ o. o.checked ≡ checked) os
differ-false [] checked h = tt
differ-false (o ∷ os) checked h =
    ((same_names_iff o.checked checked).0 (ground arith), differ-false os checked (ground arith))

first_reason-none : (os : List Observation) → first_reason os ≡ none → All (λ o. o.reason ≡ none) os
first_reason-none [] h = tt
first_reason-none (o ∷ os) h = elim (Option-cases o.reason) [
  | inl e ↦ (e, first_reason-none os (ground (arith, e)))
  | inr (r, e) ↦ absurd (ground (arith, e))
]

same_verdict :
    (os : List Observation) (a b : List String)
    → differ os a ≡ false
    → (i : ℕ) {o : Observation} → get_elem? os i ≡ some o
    → o.checked ≡ b
    → a ≡ b
same_verdict os a b h i e same =
    sym (get_elem?-All (λ o. o.checked ≡ a) os i (differ-false os a h) e) ∙ same

-- Two ranks whose observations stand in the same gathered list either both reject the candidate, for
-- the same reason, or both accept the evidence.
pub ranks_agree :
    (os : List Observation) (i j : ℕ) {a b : Observation}
    → get_elem? os i ≡ some a
    → get_elem? os j ≡ some b
    → rejection os a.checked ≡ rejection os b.checked
unfolding rejection
ranks_agree os i j {a} {b} ha hb = elim (Bool-cases (differ os a.checked)) [
  | inl da ↦ elim (Bool-cases (differ os b.checked)) [
    | inl db ↦ rw (da, db) refl
    | inr db ↦ rw (same_verdict os b.checked a.checked db i ha refl) refl
  ]
  | inr da ↦ rw (same_verdict os a.checked b.checked da j hb refl) refl
]

-- Evidence that rejects nothing.
pub record IsUnanimous (os : List Observation) (checked : List String) : Type 0 where
  pub no_reason : All (λ o. o.reason ≡ none) os
  pub same_shapes : All (λ o. o.checked ≡ checked) os

pub rejection-none :
    (os : List Observation) (checked : List String)
    → rejection os checked ≡ none
    → IsUnanimous os checked
unfolding rejection
rejection-none os checked h = elim (Option-cases (first_reason os)) [
  | inr (r, e) ↦ absurd (ground (arith, e))
  | inl e ↦ elim (Bool-cases (differ os checked)) [
    | inl d ↦ absurd (ground (arith, e, d))
    | inr d ↦ record { no_reason = first_reason-none os e; same_shapes = differ-false os checked d }
  ]
]
