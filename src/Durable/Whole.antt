-- ===== src/Durable/Whole.antt =====
-- One replay of all shapes that a candidate waits for.
use lm_resiliency.Base.{
  take-all, arith, ◌≡◌, refl, sym, ap, ◌∙◌, true, false, List, [], ◌∷◌, ◌++◌, some, none, String,
  nat_eq, string_eq, All, length,
}
use lm_resiliency.Base.Int.{ℤ}
use lm_resiliency.Durable.Record.{
  DurableCheckpointRecord, ReplayResult, checked_shape_ids, same_names, complete,
  replay_result_has_sdc,
}
use lm_resiliency.Durable.Rotation.{same_names_iff}
use lm_resiliency.Durable.Evidence.{awaited_rest, checked-extended}
use lm_resiliency.Durable.Progress.{IsUniform}
use lm_resiliency.Durable.Candidate.{DurableCheckpointCoordinator, committed, Group, Observation}
use lm_resiliency.Durable.Evaluation.{
  observation, rejection, judge, observe, observe_pending, extended, awaited,
}

abbrev seen_all : List String → Observation
seen_all ids = record { reason = none; checked = ids }

uniform_accepts :
    (os : List Observation) (ids : List String)
    → All (λ x. x ≡ seen_all ids) os
    → rejection os ids ≡ none
unfolding rejection
uniform_accepts [] ids h = refl
uniform_accepts (o ∷ os) ids h =
    let same : same_names ids ids ≡ true = (same_names_iff ids ids).1 refl in
    rw (h.0) (rw same (uniform_accepts os ids h.1))

observation_all :
    (r : DurableCheckpointRecord) (x : String) (xs : List String) (result : ReplayResult)
    → r.expected_shape_ids ≡ checked_shape_ids r ++ x ∷ xs
    → result.checked_shape_ids ≡ x ∷ xs
    → replay_result_has_sdc result ≡ false
    → observation r (some result) ≡ seen_all (x ∷ xs)
unfolding observation
observation_all r x xs result e checked clean =
    let all : same_names (x ∷ xs) (awaited r (length (x ∷ xs))) ≡ true =
      (same_names_iff (x ∷ xs) (awaited r (length (x ∷ xs)))).1 (
        sym (
          awaited_rest r (length (x ∷ xs)) (x ∷ xs) e
          ∙ take-all (length (x ∷ xs)) (x ∷ xs) (omega arith))) in
    rw (clean, checked, all) refl

judged :
    (g : Group) (r : DurableCheckpointRecord) (x : String) (xs : List String) (step : ℤ)
    (c : DurableCheckpointCoordinator)
    → IsUniform g
    → r.expected_shape_ids ≡ checked_shape_ids r ++ x ∷ xs
    → (judge (rejection (g.gather_observations (seen_all (x ∷ xs))) (x ∷ xs)) r (x ∷ xs) step c).0
      ≡ committed
judged g r x xs step c u e =
    let ids = x ∷ xs in
    let next = extended r ids step in
    let whole : complete next ≡ true =
      (same_names_iff (checked_shape_ids next) r.expected_shape_ids).1
        (checked-extended r ids step ∙ sym e) in
    rw (uniform_accepts (g.gather_observations (seen_all ids)) ids (u.same (seen_all ids)), whole)
      refl

-- If all ranks see the same, then one clean result that names all shapes that the pending candidate
-- waits for, of which there is at least one, in their order, commits it.
pub whole_cycle_commits :
    (g : Group) (r : DurableCheckpointRecord) (x : String) (xs : List String)
    (result : ReplayResult) (step : ℤ) (c : DurableCheckpointCoordinator)
    → IsUniform g
    → c.pending ≡ some r
    → r.expected_shape_ids ≡ checked_shape_ids r ++ x ∷ xs
    → result.checked_shape_ids ≡ x ∷ xs
    → replay_result_has_sdc result ≡ false
    → (observe g (some result) step c).0 ≡ committed
unfolding observe
whole_cycle_commits g r x xs result step c u p e checked clean =
    ap (λ o. (observe_pending g (some result) step c o).0) p
    ∙ ap (λ o. (judge (rejection (g.gather_observations o) o.checked) r o.checked step c).0)
        (observation_all r x xs result e checked clean)
    ∙ judged g r x xs step c u e
