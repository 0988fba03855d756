-- ===== src/Certification/Workflow.antt =====
-- integrations/_checkpoint_certification.py: `CheckpointCertificationCoordinator` on one rank.
use lm_resiliency.Base.{
  ℕ, Bool, true, false, ◌&&◌, ◌||◌, not, List, Option, some, none, String, if◌then◌else◌, any,
  Result, return, raise,
}
use lm_resiliency.Base.Int.{pos}
use lm_resiliency.Durable.Record.{DurableCheckpointRecord, ReplayResult, replay_result_has_sdc}
use lm_resiliency.Durable.Candidate.{
  DurableCheckpointCoordinator, DurableCheckpointEvent, no_event, committed, rejected, Failure,
  Group, begin_candidate,
}
use lm_resiliency.Durable.Evaluation.{observe, reject_candidate}
use lm_resiliency.Certification.Cadence.{ResiliencyCadence, checkpoint_due, detection_due}
use lm_resiliency.Certification.Roles.{
  CheckpointStatus, RecoveryMode, latest_gemini, recovery_verified, set_recovery_mode,
  clear_candidate, reject_role, persist_boundary,
}

-- `FailureKind`
pub data FailureKind : Type 0 where
  hang sdc straggler uncertain machine_unavailable : FailureKind

-- `_ReplayConsensus`
pub record ReplayConsensus : Type 0 where
  pub all_results_available : Bool
  pub any_sdc : Bool
  pub scheduled_cycles_agree : Bool
  pub scheduled_cycle_complete : Bool
  pub all_shape_cycles_complete : Bool

-- One flag of a rank, where its result is available.
abbrev pub flag : (ReplayResult → Bool) → Option ReplayResult → Bool
flag f none = false
flag f (some r) = f r

abbrev pub is_missing : Option ReplayResult → Bool
is_missing none = true
is_missing (some r) = false

-- The maximum over the results of all ranks, of which this rank's is one.
unfoldable pub global_replay_consensus : List (Option ReplayResult) → ReplayConsensus
global_replay_consensus results = record {
  all_results_available = not (any is_missing results);
  any_sdc = any (flag replay_result_has_sdc) results;
  scheduled_cycles_agree = not (
      any (flag (λ r. r.completed_scheduled_cycle)) results
      && any (flag (λ r. not r.completed_scheduled_cycle)) results);
  scheduled_cycle_complete =
      any (flag (λ r. r.completed_scheduled_cycle)) results
      && not (any (flag (λ r. not r.completed_scheduled_cycle)) results);
  all_shape_cycles_complete =
      any (flag (λ r. r.completed_shape_cycle)) results
      && not (any (flag (λ r. not r.completed_shape_cycle)) results);
}

-- A part that is absent is one that the job does not use.
pub record Workflow : Type 0 where
  pub cadence : ResiliencyCadence
  pub manager : Option CheckpointStatus
  pub durable : Option DurableCheckpointCoordinator

pub data Stop : Type 0 where
  schedulers_disagree no_result no_harness boundary_incomplete not_immediate : Stop
  durable_failed : Failure → Stop

-- The other ranks: the results of the job, whether the manager holds a step on all of them, and the
-- shape that the replay harness comes to next.
pub record Job : Type 0 where
  pub group : Group
  pub results : Option ReplayResult → List (Option ReplayResult)
  pub boundary_complete : ℕ → Bool
  pub next_shape : Option String

abbrev pub with_manager :
    (CheckpointStatus → CheckpointStatus) → Option CheckpointStatus → Option CheckpointStatus
with_manager f none = none
with_manager f (some s) = some (f s)

abbrev pub with_durable :
    (DurableCheckpointCoordinator → DurableCheckpointCoordinator)
    → Option DurableCheckpointCoordinator
    → Option DurableCheckpointCoordinator
with_durable f none = none
with_durable f (some c) = some (f c)

-- `_reject_candidate`
unfoldable pub reject_both : String → Workflow → Workflow
reject_both reason w = record w {
  durable = with_durable (reject_candidate reason) w.durable;
  manager = with_manager reject_role w.manager;
}

abbrev pub Applied : Type 0
Applied = Result Stop (Unit {0}) × Workflow

abbrev pub is_there {ℓ} : {A : Type ℓ} → Option A → Bool
is_there none = false
is_there (some a) = true

abbrev pub waits : Option DurableCheckpointCoordinator → Bool
waits none = false
waits (some c) = is_there c.pending

-- The candidate's share of the evidence: the event, and the durable coordinator after it.
abbrev pub observed :
    Job
    → ℕ
    → ReplayResult
    → Option DurableCheckpointCoordinator
    → DurableCheckpointEvent × Option DurableCheckpointCoordinator
observed job step r none = (no_event, none)
observed job step r (some c) =
    let (event, d) = observe job.group (some r) (pos step) c in
    if is_there c.pending then (event, some d) else (no_event, some c)

abbrev is_rejected : DurableCheckpointEvent → Bool
is_rejected rejected = true
is_rejected _ = false

abbrev is_committed : DurableCheckpointEvent → Bool
is_committed committed = true
is_committed _ = false

abbrev drop_candidate : Workflow → Workflow
drop_candidate w = record w { manager = with_manager clear_candidate w.manager }

-- A dense replay has checked all shapes of the new candidate already.
abbrev dense_commit : DurableCheckpointEvent × DurableCheckpointCoordinator → Workflow → Applied
dense_commit (event, c) w =
    let after = record w { durable = some c } in
    if is_committed event then (return tt, after) else (raise not_immediate, drop_candidate after)

abbrev begun_durable :
    Job
    → ℕ
    → ReplayResult
    → Result Failure DurableCheckpointRecord × DurableCheckpointCoordinator
    → Workflow
    → Applied
begun_durable job step r (raise e, c) w =
    (raise (durable_failed e), drop_candidate (record w { durable = some c }))
begun_durable job step r (return candidate, c) w =
    if r.dense_replay
    then dense_commit (observe job.group (some r) (pos step) c) w
    else (return tt, record w { durable = some c })

abbrev start_with :
    Job → ℕ → ReplayResult → Option String → DurableCheckpointCoordinator → Workflow → Applied
start_with job step r none c w = (raise no_harness, w)
start_with job step r (some shape) c w =
    begun_durable job step r (begin_candidate job.group (pos step) shape c) w

abbrev start_durable :
    Job → ℕ → ReplayResult → Bool → Option DurableCheckpointCoordinator → Workflow → Applied
start_durable job step r wanted none w = (return tt, w)
start_durable job step r wanted (some c) w =
    if wanted then start_with job step r job.next_shape c w else (return tt, w)

abbrev wants_durable : ℕ → Bool → ResiliencyCadence → Bool
wants_durable step force c = force || (not c.checkpoint_enabled || checkpoint_due c step)

abbrev cross_boundary : Job → ℕ → ReplayResult → Bool → Option CheckpointStatus → Workflow → Applied
cross_boundary job step r saved none w = (return tt, w)
cross_boundary job step r saved (some s) w =
    if not saved
    then (return tt, w)
    else if job.boundary_complete step
    then (return tt, record w { manager = some (persist_boundary r.dense_replay step s) })
    else (raise boundary_incomplete, w)

abbrev then_start : Job → ℕ → ReplayResult → Bool → Applied → Applied
then_start job step r force (raise e, w) = (raise e, w)
then_start job step r force (return done, w) =
    start_durable job step r (wants_durable step force w.cadence) w.durable w

abbrev end_cycle : Job → ℕ → ReplayResult → Bool → DurableCheckpointEvent → Workflow → Applied
end_cycle job step r force event w =
    if waits w.durable && not (is_committed event)
    then (
      return tt,
      reject_both "SCOUT scheduled cycle ended without complete candidate evidence" w,
    )
    else then_start job step r force
        (cross_boundary job step r (force || checkpoint_due w.cadence step) w.manager w)

abbrev after_event :
    Job
    → ℕ
    → ReplayResult
    → Bool
    → Bool
    → DurableCheckpointEvent × Option DurableCheckpointCoordinator
    → Workflow
    → Applied
after_event job step r force ended (event, d) w =
    let next = record w { durable = d } in
    if is_rejected event
    then (return tt, record next { manager = with_manager reject_role w.manager })
    else if not ended
    then (return tt, next)
    else end_cycle job step r force event next

-- Clean evidence of all ranks.
unfoldable pub certify : Job → ℕ → Option ReplayResult → Bool → Bool → Workflow → Applied
certify job step none force ended w = (raise no_result, w)
certify job step (some r) force ended w =
    after_event job step r force ended (observed job step r w.durable) w

unfoldable pub apply_result : Job → ℕ → Option ReplayResult → Bool → Bool → Workflow → Applied
apply_result job step result force full w =
    let consensus = global_replay_consensus (job.results result) in
    if not consensus.all_results_available
    then (return tt, w)
    else if consensus.any_sdc
    then (return tt, reject_both "SCOUT detected numerical divergence" w)
    else if full && not consensus.all_shape_cycles_complete
    then (return tt, w)
    else if not consensus.scheduled_cycles_agree
    then (raise schedulers_disagree, w)
    else certify job step result force consensus.scheduled_cycle_complete w

abbrev pub replayed_mode : ReplayConsensus → RecoveryMode
replayed_mode c =
    if not c.all_results_available || (not c.all_shape_cycles_complete || c.any_sdc)
    then recovery_verified
    else latest_gemini

-- The mode of a failure; `results` are those of the full replay where one is run.
unfoldable pub recovery_choice : FailureKind → Bool → List (Option ReplayResult) → RecoveryMode
recovery_choice kind false results = recovery_verified
recovery_choice machine_unavailable true results = recovery_verified
recovery_choice sdc true results = recovery_verified
recovery_choice straggler true results = latest_gemini
recovery_choice hang true results = replayed_mode (global_replay_consensus results)
recovery_choice uncertain true results = replayed_mode (global_replay_consensus results)

abbrev pub choose : String → RecoveryMode → Workflow → RecoveryMode × Workflow
choose reason recovery_verified w = (recovery_verified, reject_both reason w)
choose reason latest_gemini w =
    (latest_gemini, record w { manager = with_manager (set_recovery_mode latest_gemini) w.manager })

-- `reason` is the text of the rejection, which names the failure.
unfoldable pub prepare_recovery :
    FailureKind → Bool → List (Option ReplayResult) → String → Workflow → RecoveryMode × Workflow
prepare_recovery kind accessible results reason w =
    choose reason (recovery_choice kind accessible results) w

-- A replay on demand: a complete shape cycle counts as a scheduled one.
abbrev as_scheduled : Option ReplayResult → Option ReplayResult
as_scheduled none = none
as_scheduled (some r) =
    if r.completed_shape_cycle then some (record r { completed_scheduled_cycle = true }) else some r

unfoldable pub save_now : Job → ℕ → Option ReplayResult → Workflow → Applied
save_now job step result w =
    if is_there w.manager || is_there w.durable
    then apply_result job step (as_scheduled result) true true w
    else (return tt, w)

-- The capture of tensors changes no role and is left out.
-- After a training step, with the scheduled replay's result where there is one.
unfoldable pub post_step : Job → ℕ → Option ReplayResult → Workflow → Applied
post_step job step result w =
    if w.cadence.detection_enabled && (detection_due w.cadence step || is_there result)
    then apply_result job step result false false w
    else (return tt, w)
