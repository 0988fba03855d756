-- ===== src/Durable/Progress.antt =====
-- A clean cycle certifies its candidate.
use lm_resiliency.Base.{
  ◌≡◌, refl, sym, ap, ◌∙◌, inl, inr, true, false, List, [], ◌∷◌, ◌++◌, some, none, String, nat_eq,
  string_eq, All, length, length-append, arith, beq_refl, Bool-cases,
}
use mathlib.Core.List.{append_assoc}
use lm_resiliency.Base.Int.{ℤ}
use lm_resiliency.Durable.Record.{
  DurableCheckpointRecord, ReplayResult, checked_shape_ids, complete, replay_result_has_sdc,
}
use lm_resiliency.Durable.Rotation.{same_names_iff}
use lm_resiliency.Durable.Evidence.{awaited_rest, checked-extended}
use lm_resiliency.Durable.Candidate.{
  DurableCheckpointCoordinator, no_event, committed, Group, Observation,
}
use lm_resiliency.Durable.Evaluation.{
  Observed, observation, rejection, conclude, observe, observe_pending, extended,
}

-- A clean replay of one shape.
abbrev pub clean_replay : String → ReplayResult
clean_replay s = record {
  sdc_bitmap = [];
  c3_statuses = [];
  checked_shape_ids = s ∷ [];
  completed_shape_cycle = false;
  completed_scheduled_cycle = false;
  dense_replay = false;
}

-- All ranks of the group see what this rank sees.
pub record IsUniform (g : Group) : Type 0 where
  pub same : (o : Observation) → All (λ x. x ≡ o) (g.gather_observations o)

-- Clean replays of these shapes, one after the other; the last one's event.
abbrev pub replay_each : Group → List String → ℤ → DurableCheckpointCoordinator → Observed
replay_each g [] step c = (no_event, c)
replay_each g (s ∷ []) step c = observe g (some (clean_replay s)) step c
replay_each g (s ∷ t ∷ rest) step c =
    replay_each g (t ∷ rest) step (observe g (some (clean_replay s)) step c).1

abbrev seen : String → Observation
seen s = record { reason = none; checked = s ∷ [] }

uniform_rejection :
    (os : List Observation) (s : String) → All (λ x. x ≡ seen s) os → rejection os (s ∷ []) ≡ none
unfolding rejection
uniform_rejection [] s h = refl
uniform_rejection (o ∷ os) s h = rw (h.0) (ground (arith, beq_refl s, uniform_rejection os s h.1))

observation-seen :
    (r : DurableCheckpointRecord) (s : String) (rest : List String)
    → r.expected_shape_ids ≡ checked_shape_ids r ++ s ∷ rest
    → observation r (some (clean_replay s)) ≡ seen s
unfolding observation replay_result_has_sdc
observation-seen r s rest e = rw (awaited_rest r 1 (s ∷ rest) e) (ground (arith, beq_refl s))

pending_one :
    (g : Group) (r : DurableCheckpointRecord) (s : String) (rest : List String) (step : ℤ)
    (c : DurableCheckpointCoordinator)
    → IsUniform g
    → r.expected_shape_ids ≡ checked_shape_ids r ++ s ∷ rest
    → observe_pending g (some (clean_replay s)) step c (some r)
      ≡ conclude
          (complete (extended r (s ∷ []) step))
          (extended r (s ∷ []) step)
          step
          (record c { pending = some (extended r (s ∷ []) step) })
pending_one g r s rest step c u e =
    rw
      (
        observation-seen r s rest e,
        uniform_rejection (g.gather_observations (seen s)) s (u.same (seen s)),
      )
      refl

observe_one :
    (g : Group) (r : DurableCheckpointRecord) (s : String) (rest : List String) (step : ℤ)
    (c : DurableCheckpointCoordinator)
    → IsUniform g
    → c.pending ≡ some r
    → r.expected_shape_ids ≡ checked_shape_ids r ++ s ∷ rest
    → observe g (some (clean_replay s)) step c
      ≡ conclude
          (complete (extended r (s ∷ []) step))
          (extended r (s ∷ []) step)
          step
          (record c { pending = some (extended r (s ∷ []) step) })
unfolding observe
observe_one g r s rest step c u p e =
    ap (observe_pending g (some (clean_replay s)) step c) p ∙ pending_one g r s rest step c u e

complete_last :
    (r : DurableCheckpointRecord) (s : String) (step : ℤ)
    → r.expected_shape_ids ≡ checked_shape_ids r ++ s ∷ []
    → complete (extended r (s ∷ []) step) ≡ true
complete_last r s step e =
    (same_names_iff (checked_shape_ids (extended r (s ∷ []) step)) r.expected_shape_ids).1
      (checked-extended r (s ∷ []) step ∙ sym e)

incomplete_before :
    (r : DurableCheckpointRecord) (s t : String) (rest : List String) (step : ℤ)
    → r.expected_shape_ids ≡ checked_shape_ids r ++ s ∷ t ∷ rest
    → complete (extended r (s ∷ []) step) ≡ false
incomplete_before r s t rest step e = elim (Bool-cases (complete (extended r (s ∷ []) step))) [
  | inr f ↦ f
  | inl h ↦
      let same : checked_shape_ids r ++ s ∷ [] ≡ checked_shape_ids r ++ s ∷ t ∷ rest =
        sym (checked-extended r (s ∷ []) step)
        ∙ (same_names_iff (checked_shape_ids (extended r (s ∷ []) step)) r.expected_shape_ids).0 h
        ∙ e in
      absurd (
        omega (
          arith,
          ap length same,
          length-append (checked_shape_ids r) (s ∷ []),
          length-append (checked_shape_ids r) (s ∷ t ∷ rest),
        ))
]

-- If all ranks see the same, then clean replays of the shapes that a pending candidate waits for, of
-- which there is at least one, commit it at the last of them.
pub clean_cycle_commits :
    (g : Group) (r : DurableCheckpointRecord) (s : String) (rest : List String) (step : ℤ)
    (c : DurableCheckpointCoordinator)
    → IsUniform g
    → c.pending ≡ some r
    → r.expected_shape_ids ≡ checked_shape_ids r ++ s ∷ rest
    → (replay_each g (s ∷ rest) step c).0 ≡ committed
clean_cycle_commits g r s [] step c u p e =
    rw (observe_one g r s [] step c u p e, complete_last r s step e) refl
clean_cycle_commits g r s (t ∷ rest) step c u p e =
    let next = extended r (s ∷ []) step in
    let waiting = record c { pending = some next } in
    ap (λ (o : Observed). (replay_each g (t ∷ rest) step o.1).0)
      (observe_one g r s (t ∷ rest) step c u p e
        ∙ ap (λ b. conclude b next step waiting) (incomplete_before r s t rest step e))
    ∙ clean_cycle_commits g next t rest step (conclude false next step waiting).1 u refl (
        e
        ∙ sym (append_assoc (checked_shape_ids r) (s ∷ []) (t ∷ rest))
        ∙ ap (λ l. l ++ t ∷ rest) (sym (checked-extended r (s ∷ []) step)))
