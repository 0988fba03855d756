-- ===== src/Durable/Commit.antt =====
-- When evidence commits a candidate, and what a commit is good for.
use lm_resiliency.Base.{
  ◌≡◌, ◌≢◌, refl, sym, ap, ◌∙◌, inl, inr, Bool, true, false, List, [], ◌∷◌, ◌++◌, Option, some,
  none, String, nat_eq, string_eq, arith, Option-cases, Bool-cases, get_elem?-All,
}
use lm_resiliency.Base.Int.{ℤ}
use lm_resiliency.Durable.Record.{
  DurableCheckpointRecord, ReplayResult, checked_shape_ids, complete, replay_result_has_sdc,
}
use lm_resiliency.Durable.Manifests.{write_pending, reject}
use lm_resiliency.Durable.Rotation.{same_names_iff}
use lm_resiliency.Durable.Agreement.{IsUnanimous, rejection-none}
use lm_resiliency.Durable.Evidence.{Hears, checked-extended}
use lm_resiliency.Durable.Cycle.{save_manifest-latest}
use lm_resiliency.Durable.Candidate.{
  DurableCheckpointCoordinator, committed, Group, Observation, rejected_record,
}
use lm_resiliency.Durable.Evaluation.{
  observation, clean_observation, rejection, conclude, observe, observe_pending, extended,
  certified, commit_candidate, reject_candidate, reject_pending,
}

abbrev pub no_reason_for : List String → Observation
no_reason_for shapes = record { reason = none; checked = shapes }

-- What a commit rests on: the pending candidate, this rank's result without divergence, which names at
-- least one shape, no reason against the candidate on any rank, and on all ranks the same shapes, which
-- are the ones that the candidate waits for.
pub record IsEarned (g : Group) (result : Option ReplayResult) (step : ℤ)
    (c d : DurableCheckpointCoordinator) : Type 0 where
  pub candidate : DurableCheckpointRecord
  pub was_pending : c.pending ≡ some candidate
  pub evidence : ReplayResult
  pub replayed : result ≡ some evidence
  pub clean : replay_result_has_sdc evidence ≡ false
  pub some_shape : evidence.checked_shape_ids ≢ []
  pub unanimous :
      IsUnanimous
        (g.gather_observations (no_reason_for evidence.checked_shape_ids))
        evidence.checked_shape_ids
  pub cycle :
      checked_shape_ids candidate ++ evidence.checked_shape_ids ≡ candidate.expected_shape_ids
  pub latest_lem :
      d.latest ≡ some (certified (extended candidate evidence.checked_shape_ids step) step)
  pub none_pending : d.pending ≡ none

-- Evidence that is heard and to which no rank has a reason against.
record IsClean (r : DurableCheckpointRecord) (result : Option ReplayResult) : Type 0 where
  evidence : ReplayResult
  replayed : result ≡ some evidence
  clean : replay_result_has_sdc evidence ≡ false
  some_shape : evidence.checked_shape_ids ≢ []
  seen : observation r result ≡ no_reason_for evidence.checked_shape_ids

clean_names :
    (r : DurableCheckpointRecord) (shapes : List String)
    → (clean_observation r shapes).reason ≡ none
    → (shapes ≢ []) × (clean_observation r shapes ≡ no_reason_for shapes)
clean_names r [] h = cc
clean_names r (x ∷ xs) h =
    (λ e. cc, ap (λ (o : Option String). record { reason = o; checked = x ∷ xs }) h)

observation-IsClean :
    (r : DurableCheckpointRecord) (result : Option ReplayResult)
    → (observation r result).reason ≡ none
    → IsClean r result
unfolding observation
observation-IsClean r none h = cc
observation-IsClean r (some evidence) h = elim (Bool-cases (replay_result_has_sdc evidence)) [
  | inl bad ↦ absurd (ground (arith, bad))
  | inr good ↦
      let (some_shape, seen) = clean_names r evidence.checked_shape_ids (rw good at h) in
      record {
        evidence = evidence;
        replayed = refl;
        clean = good;
        some_shape = some_shape;
        seen = rw good seen;
      }
]

conclude-committed :
    (b : Bool) (r : DurableCheckpointRecord) (step : ℤ) (c : DurableCheckpointCoordinator)
    {d : DurableCheckpointCoordinator}
    → conclude b r step c ≡ (committed, d)
    → (b ≡ true) × (d.latest ≡ some (certified r step)) × (d.pending ≡ none)
unfolding commit_candidate
conclude-committed true r step c h =
    (refl, rw (← (ap (λ o. o.1) h)) refl, rw (← (ap (λ o. o.1) h)) refl)
conclude-committed false r step c h = absurd (ground (arith, ap (λ o. o.0) h))

pending_commit :
    (g : Group) (result : Option ReplayResult) (step : ℤ) (c : DurableCheckpointCoordinator)
    (o : Option DurableCheckpointRecord) {d : DurableCheckpointCoordinator}
    → Hears g
    → c.pending ≡ o
    → observe_pending g result step c o ≡ (committed, d)
    → IsEarned g result step c d
pending_commit g result step c none k p h = absurd (ground (arith, ap (λ o. o.0) h))
pending_commit g result step c (some r) k p h =
    let own = observation r result in
    elim (Option-cases (rejection (g.gather_observations own) own.checked)) [
      | inr (reason, e) ↦ absurd (ground (arith, ap (λ o. o.0) (rw e at h)))
      | inl e ↦
          let next = extended r own.checked step in
          let (whole, now, gone) = conclude-committed (complete next) next step _ (rw e at h) in
          let unanimous = rejection-none (g.gather_observations own) own.checked e in
          let k_clean = observation-IsClean r result (
            get_elem?-All (λ o. o.reason ≡ none) (g.gather_observations own) k.rank
              unanimous.no_reason (k.own own)) in
          let names : own.checked ≡ k_clean.evidence.checked_shape_ids =
            ap (λ o. o.checked) k_clean.seen in
          record {
            candidate = r;
            was_pending = p;
            evidence = k_clean.evidence;
            replayed = k_clean.replayed;
            clean = k_clean.clean;
            some_shape = k_clean.some_shape;
            unanimous = rw k_clean.seen at unanimous;
            cycle =
                ap (λ l. checked_shape_ids r ++ l) (sym names)
                ∙ sym (checked-extended r own.checked step)
                ∙ (same_names_iff (checked_shape_ids next) r.expected_shape_ids).0 whole;
            latest_lem = now ∙ ap (λ l. some (certified (extended r l step) step)) names;
            none_pending = gone;
          }
    ]

-- If a rank hears itself in what is gathered, a replay commits there only if a candidate was pending, the
-- rank's replay returned a result without divergence that names some shapes, no rank gave a reason
-- against the candidate, all ranks checked these same shapes, and they are all that the candidate still
-- waited for, in its order. The candidate is then the validated checkpoint, and none is pending.
pub commit_is_unanimous :
    (g : Group) (result : Option ReplayResult) (step : ℤ) (c : DurableCheckpointCoordinator)
    {d : DurableCheckpointCoordinator}
    → Hears g
    → observe g result step c ≡ (committed, d)
    → IsEarned g result step c d
unfolding observe
commit_is_unanimous g result step c k h = pending_commit g result step c c.pending k refl h

-- The pointer, in memory and in the folder.
pub record SamePointer (c d : DurableCheckpointCoordinator) : Type 0 where
  pub same_latest : d.latest ≡ c.latest
  pub same_file : d.folder.latest ≡ c.folder.latest

pub reject_pending-SamePointer :
    (reason : String) (o : Option DurableCheckpointRecord) (c : DurableCheckpointCoordinator)
    → SamePointer c (reject_pending reason o c)
unfolding reject
reject_pending-SamePointer reason none c = record { same_latest = refl; same_file = refl }
reject_pending-SamePointer reason (some r) c = record {
  same_latest = refl;
  same_file = save_manifest-latest c (λ f. reject f (rejected_record r reason)) (λ f. refl);
}

conclude-SamePointer :
    (b : Bool) (r : DurableCheckpointRecord) (step : ℤ) (c : DurableCheckpointCoordinator)
    → (conclude b r step c).0 ≢ committed
    → SamePointer c (conclude b r step c).1
unfolding write_pending
conclude-SamePointer true r step c h = absurd (h refl)
conclude-SamePointer false r step c h = record {
  same_latest = refl;
  same_file = save_manifest-latest c (λ f. write_pending f r) (λ f. refl);
}

pending-SamePointer :
    (g : Group) (result : Option ReplayResult) (step : ℤ) (c : DurableCheckpointCoordinator)
    (o : Option DurableCheckpointRecord)
    → (observe_pending g result step c o).0 ≢ committed
    → SamePointer c (observe_pending g result step c o).1
unfolding reject_candidate
pending-SamePointer g result step c none h = record { same_latest = refl; same_file = refl }
pending-SamePointer g result step c (some r) h =
    let own = observation r result in
    elim (Option-cases (rejection (g.gather_observations own) own.checked)) [
      | inr (reason, e) ↦ rw e (reject_pending-SamePointer reason c.pending c)
      | inl e ↦
          let next = extended r own.checked step in
          let moved : SamePointer (record c { pending = some next })
              (conclude (complete next) next step (record c { pending = some next })).1 =
            conclude-SamePointer (complete next) next step (record c { pending = some next })
              (rw e at h) in
          rw e (record { same_latest = moved.same_latest; same_file = moved.same_file })
    ]

-- A replay that does not commit leaves the validated checkpoint and the folder's pointer to it.
pub pointer_waits_for_commit :
    (g : Group) (result : Option ReplayResult) (step : ℤ) (c : DurableCheckpointCoordinator)
    → (observe g result step c).0 ≢ committed
    → SamePointer c (observe g result step c).1
unfolding observe
pointer_waits_for_commit g result step c h = pending-SamePointer g result step c c.pending h
