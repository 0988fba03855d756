-- ===== src/Durable/Evaluation.antt =====
-- durable.py: evidence, rejection, commit, load and restart of `DurableCheckpointCoordinator`.
use lm_resiliency.Base.{
  ℕ, Bool, true, false, ◌&&◌, not, List, [], ◌∷◌, ◌++◌, map, Option, some, none, String,
  if◌then◌else◌, ◌==◌, nat_eq, string_eq, any, contains, take, drop, length, Result, return, raise,
}
use lm_resiliency.Base.Int.{ℤ}
use lm_resiliency.Base.Discrete.{ℤ-discrete}
use lm_resiliency.Durable.Record.{
  DurableCheckpointRecord, ReplayResult, same_names, complete, replay_result_has_sdc,
}
use lm_resiliency.Durable.Manifests.{
  Folder, write_pending, commit, reject, clear_pending, next_validation_epoch,
}
use lm_resiliency.Durable.Candidate.{
  DurableCheckpointCoordinator, DurableCheckpointEvent, Failure, Group, Observation, reject_record,
  rejected_record, save_manifest, no_event, progress, committed, rejected, not_verified, incomplete,
  no_step, other_step,
}

-- The shapes that the candidate waits for.
abbrev pub awaited : DurableCheckpointRecord → ℕ → List String
awaited r n = take n (drop (length r.checked_shapes) r.expected_shape_ids)

abbrev refuse : String → Observation
refuse reason = record { reason = some reason; checked = [] }

abbrev pub clean_observation : DurableCheckpointRecord → List String → Observation
clean_observation r [] = refuse "SCOUT result did not identify any checked replay shape"
clean_observation r (x ∷ xs) = record {
  reason =
      if same_names (x ∷ xs) (awaited r (length (x ∷ xs)))
      then none
      else some "SCOUT replay shape order differs from the candidate validation plan";
  checked = x ∷ xs;
}

-- This rank's part of the evidence.
unfoldable pub observation : DurableCheckpointRecord → Option ReplayResult → Observation
observation r none = refuse "scheduled SCOUT replay did not produce evidence"
observation r (some result) =
    if replay_result_has_sdc result
    then refuse "SCOUT detected numerical divergence"
    else clean_observation r result.checked_shape_ids

-- The first reason that a rank gives.
abbrev pub first_reason : List Observation → Option String
first_reason [] = none
first_reason (o ∷ os) = elim o.reason [ none ↦ first_reason os | some r ↦ some r ]

abbrev pub differ : List Observation → List String → Bool
differ os checked = any (λ o. not (same_names o.checked checked)) os

abbrev pub agreed_reason : Bool → Option String
agreed_reason true = some "SCOUT checked different replay shapes across checkpoint ranks"
agreed_reason false = none

abbrev pub reason_or : Option String → Option String → Option String
reason_or none r = r
reason_or (some r) _ = some r

-- Why the gathered evidence rejects the candidate, if it does.
unfoldable pub rejection : List Observation → List String → Option String
rejection os checked = reason_or (first_reason os) (agreed_reason (differ os checked))

abbrev pub reject_pending :
    String
    → Option DurableCheckpointRecord
    → DurableCheckpointCoordinator
    → DurableCheckpointCoordinator
reject_pending reason none c = c
reject_pending reason (some r) c = record (reject_record r reason c) { pending = none }

unfoldable pub reject_candidate :
    String → DurableCheckpointCoordinator → DurableCheckpointCoordinator
reject_candidate reason c = reject_pending reason c.pending c

abbrev pub certified : DurableCheckpointRecord → ℤ → DurableCheckpointRecord
certified r step = record r {
  status = "recovery_verified";
  verdict = some "clean";
  completed_step = some step;
}

unfoldable pub commit_candidate :
    DurableCheckpointRecord → ℤ → DurableCheckpointCoordinator → DurableCheckpointCoordinator
commit_candidate r step c = record c {
  folder = save_manifest c (λ f. commit f (certified r step));
  latest = some (certified r step);
  pending = none;
}

abbrev pub extended : DurableCheckpointRecord → List String → ℤ → DurableCheckpointRecord
extended r checked step = record r {
  checked_shapes = r.checked_shapes ++ map (λ s. record { shape_id = s; step = step }) checked;
}

abbrev pub Observed : Type 0
Observed = DurableCheckpointEvent × DurableCheckpointCoordinator

abbrev pub conclude : Bool → DurableCheckpointRecord → ℤ → DurableCheckpointCoordinator → Observed
conclude true r step c = (committed, commit_candidate r step c)
conclude false r step c = (progress, record c { folder = save_manifest c (λ f. write_pending f r) })

abbrev pub judge :
    Option String
    → DurableCheckpointRecord
    → List String
    → ℤ
    → DurableCheckpointCoordinator
    → Observed
judge (some reason) r checked step c = (rejected, reject_candidate reason c)
judge none r checked step c =
    let next = extended r checked step in
    conclude (complete next) next step (record c { pending = some next })

abbrev pub observe_pending :
    Group
    → Option ReplayResult
    → ℤ
    → DurableCheckpointCoordinator
    → Option DurableCheckpointRecord
    → Observed
observe_pending g result step c none = (no_event, c)
observe_pending g result step c (some r) =
    let own = observation r result in
    judge (rejection (g.gather_observations own) own.checked) r own.checked step c

unfoldable pub observe : Group → Option ReplayResult → ℤ → DurableCheckpointCoordinator → Observed
observe g result step c = observe_pending g result step c c.pending

-- `checkpoint.status in ("recovery_verified", "validated") and verdict == "clean"`
abbrev pub is_clean : Option String → Bool
is_clean none = false
is_clean (some s) = s == "clean"

abbrev pub is_verified : DurableCheckpointRecord → Bool
is_verified r = contains ("recovery_verified" ∷ "validated" ∷ []) r.status && is_clean r.verdict

abbrev pub matched {ℓ} : {P : Type ℓ} → ℤ → Dec P → Result Failure (Option ℤ)
matched z (yes e) = return (some z)
matched z (no n) = raise other_step

-- The loader may answer nothing, or another step.
abbrev pub same_step : ℤ → Option ℤ → Result Failure (Option ℤ)
same_step step none = raise no_step
same_step step (some loaded) = matched loaded (ℤ-discrete loaded step)

abbrev pub load_manifest : Group → Option DurableCheckpointRecord → Result Failure (Option ℤ)
load_manifest g none = return none
load_manifest g (some r) =
    if is_verified r
    then (if complete r then same_step r.step (g.load_checkpoint r) else raise incomplete)
    else raise not_verified

unfoldable pub load_latest_validated :
    Group → DurableCheckpointCoordinator → Result Failure (Option ℤ)
load_latest_validated g c = load_manifest g c.folder.latest

-- The constructor, whose checks of its arguments are left out, on a folder that an earlier process may have
-- left: an interrupted candidate is rejected, unless its commit had already moved the validated pointer. The
-- folder is the writer's; another rank keeps the one that it opened.
abbrev pub already_committed : DurableCheckpointRecord → Option DurableCheckpointRecord → Bool
already_committed stale none = false
already_committed stale (some r) = r.checkpoint_id == stale.checkpoint_id && is_verified r

abbrev pub recovered : Bool → Option DurableCheckpointRecord → Folder → Folder
recovered true (some stale) f =
    if already_committed stale f.latest
    then clear_pending f
    else reject f
        (rejected_record stale "validation incomplete when the checkpoint coordinator restarted")
recovered _ _ f = f

unfoldable pub open_coordinator :
    String → List String → String → Bool → Folder → DurableCheckpointCoordinator
open_coordinator plan_id ids environment writer folder =
    let f = recovered writer folder.pending folder in
    record {
      shape_plan_id = plan_id;
      shape_ids = ids;
      environment_id = environment;
      is_writer = writer;
      pending = none;
      latest = f.latest;
      next_epoch = next_validation_epoch f;
      folder = f;
    }
