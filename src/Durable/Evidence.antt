-- ===== src/Durable/Evidence.antt =====
-- What a candidate and a certified checkpoint have gone through.
use lm_resiliency.Base.{
  ℕ, ◌≡◌, refl, sym, ap, ◌∙◌, inl, inr, true, List, [], ◌∷◌, ◌++◌, map, Option, some, none, String,
  nat_eq, string_eq, take, drop, take-drop, drop-append, length, length-map, get_elem?, arith,
  Bool-cases,
}
use mathlib.Core.List.{append_assoc, map-append}
use lm_resiliency.Base.Int.{ℤ}
use lm_resiliency.Durable.Record.{
  ShapeValidation, DurableCheckpointRecord, ReplayResult, checked_shape_ids, same_names, complete,
  replay_result_has_sdc,
}
use lm_resiliency.Durable.Rotation.{same_names_iff, IsRotation}
use lm_resiliency.Durable.Candidate.{Group, Observation}
use lm_resiliency.Durable.Evaluation.{
  observation, clean_observation, awaited, extended, certified, is_verified,
}

-- Every rank hears itself in what it gathers.
pub record Hears (g : Group) : Type 0 where
  pub rank : ℕ
  pub own : (o : Observation) → get_elem? (g.gather_observations o) rank ≡ some o

-- The shapes that were checked are the first ones of a rotation of the plan.
pub record IsCandidate (ids : List String) (r : DurableCheckpointRecord) : Type 0 where
  pub first : String
  pub expected : IsRotation ids first r.expected_shape_ids
  pub rest : List String
  pub so_far : r.expected_shape_ids ≡ checked_shape_ids r ++ rest

-- All shapes of a rotation of the plan were checked, in its order.
pub record IsCertified (ids : List String) (r : DurableCheckpointRecord) : Type 0 where
  pub first : String
  pub expected : IsRotation ids first r.expected_shape_ids
  pub all_checked : checked_shape_ids r ≡ r.expected_shape_ids
  pub verified : is_verified r ≡ true

clean_shapes :
    (r : DurableCheckpointRecord) (shapes : List String)
    → (clean_observation r shapes).reason ≡ none
    → shapes ≡ awaited r (length shapes)
clean_shapes r [] h = cc
clean_shapes r (x ∷ xs) h = elim (Bool-cases (same_names (x ∷ xs) (awaited r (length (x ∷ xs))))) [
  | inl same ↦ (same_names_iff (x ∷ xs) (awaited r (length (x ∷ xs)))).0 same
  | inr other ↦ absurd (ground (arith, rw other at h))
]

clean_checked :
    (r : DurableCheckpointRecord) (shapes : List String)
    → (clean_observation r shapes).checked ≡ shapes
clean_checked r [] = refl
clean_checked r (x ∷ xs) = refl

-- A rank that gives no reason has replayed the shapes that the candidate waits for.
pub own_shapes :
    (r : DurableCheckpointRecord) (result : Option ReplayResult)
    → (observation r result).reason ≡ none
    → (observation r result).checked ≡ awaited r (length (observation r result).checked)
unfolding observation
own_shapes r none h = cc
own_shapes r (some result) h = elim (Bool-cases (replay_result_has_sdc result)) [
  | inl bad ↦ absurd (ground (arith, bad))
  | inr good ↦
      rw (good, clean_checked r result.checked_shape_ids)
        (clean_shapes r result.checked_shape_ids (rw good at h))
]

map-shape_id :
    (shapes : List String) (step : ℤ)
    → map
        (λ (v : ShapeValidation). v.shape_id)
        (map (λ s. record { shape_id = s; step = step }) shapes)
      ≡ shapes
map-shape_id [] step = refl
map-shape_id (s ∷ ss) step = ap (λ l. s ∷ l) (map-shape_id ss step)

pub checked-extended :
    (r : DurableCheckpointRecord) (shapes : List String) (step : ℤ)
    → checked_shape_ids (extended r shapes step) ≡ checked_shape_ids r ++ shapes
checked-extended r shapes step =
    map-append (λ (v : ShapeValidation). v.shape_id) r.checked_shapes _
    ∙ ap (λ l. checked_shape_ids r ++ l) (map-shape_id shapes step)

pub awaited_rest :
    (r : DurableCheckpointRecord) (n : ℕ) (rest : List String)
    → r.expected_shape_ids ≡ checked_shape_ids r ++ rest
    → awaited r n ≡ take n rest
awaited_rest r n rest e = ap (take n) (
    ap (drop (length r.checked_shapes)) e
    ∙ ap (λ k. drop k (checked_shape_ids r ++ rest))
        (sym (length-map (λ (v : ShapeValidation). v.shape_id) r.checked_shapes))
    ∙ drop-append (checked_shape_ids r) rest)

-- Evidence in order keeps a candidate a candidate.
pub extended-IsCandidate :
    (ids : List String) (r : DurableCheckpointRecord) (shapes : List String) (step : ℤ)
    → IsCandidate ids r
    → shapes ≡ awaited r (length shapes)
    → IsCandidate ids (extended r shapes step)
extended-IsCandidate ids r shapes step c h = record {
  first = c.first;
  expected = c.expected;
  rest = drop (length shapes) c.rest;
  so_far =
      c.so_far
      ∙ ap (λ l. checked_shape_ids r ++ l)
          (sym (take-drop (length shapes) c.rest)
            ∙ ap (λ l. l ++ drop (length shapes) c.rest)
                (sym (h ∙ awaited_rest r (length shapes) c.rest c.so_far)))
      ∙ sym (append_assoc (checked_shape_ids r) shapes (drop (length shapes) c.rest))
      ∙ ap (λ l. l ++ drop (length shapes) c.rest) (sym (checked-extended r shapes step));
}

pub complete-IsCertified :
    (ids : List String) (r : DurableCheckpointRecord) (step : ℤ)
    → IsCandidate ids r
    → complete r ≡ true
    → IsCertified ids (certified r step)
complete-IsCertified ids r step c h = record {
  first = c.first;
  expected = c.expected;
  all_checked = (same_names_iff (checked_shape_ids r) r.expected_shape_ids).0 h;
  verified = refl;
}
