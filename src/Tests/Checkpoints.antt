-- ===== src/Tests/Checkpoints.antt =====
-- A plan of three shapes on a group of one rank, which is its own writer.
use lm_resiliency.Base.{
  ◌≡◌, ◌≢◌, refl, inl, true, List, [], ◌∷◌, some, none, String, Distinct, string_eq, return,
}
use lm_resiliency.Base.Int.{pos}
use lm_resiliency.Protocol.Value.{end}
use lm_resiliency.Durable.Record.{
  DurableCheckpointRecord, ReplayResult, rotate_shape_ids, replay_result_has_sdc,
}
use lm_resiliency.Durable.Manifests.{Folder, write_pending, commit, next_validation_epoch}
use lm_resiliency.Durable.Rotation.{IsRotation, rotate_shape_ids-IsRotation}
use lm_resiliency.Durable.Agreement.{ranks_agree}
use lm_resiliency.Durable.Evidence.{Hears}
use lm_resiliency.Durable.Cycle.{IsSound}
use lm_resiliency.Durable.Runs.{started, began, observed, refused, reachable-IsSound}
use lm_resiliency.Durable.Commit.{
  IsEarned, SamePointer, commit_is_unanimous, pointer_waits_for_commit,
}
use lm_resiliency.Durable.Loaded.{IsLoadable, load_latest_validated-IsLoadable}
use lm_resiliency.Durable.Progress.{clean_replay, IsUniform, replay_each, clean_cycle_commits}
use lm_resiliency.Durable.Candidate.{
  DurableCheckpointCoordinator, committed, Group, Observation, saved, begin_candidate,
}
use lm_resiliency.Durable.Evaluation.{
  observation, rejection, observe, reject_candidate, commit_candidate, certified, open_coordinator,
  load_latest_validated,
}

abbrev pub shapes : List String
shapes = "s0" ∷ "s1" ∷ "s2" ∷ []

abbrev turned : List String
turned = "s1" ∷ "s2" ∷ "s0" ∷ []

pub shapes-Distinct : Distinct shapes
shapes-Distinct = (refl, (refl, (refl, tt)))

rotated : rotate_shape_ids shapes "s1" ≡ some turned
unfolding rotate_shape_ids
rotated = refl

rotate_shape_ids-IsRotation_example : IsRotation shapes "s1" turned
rotate_shape_ids-IsRotation_example =
    rotate_shape_ids-IsRotation shapes "s1" shapes-Distinct rotated

abbrev seen_s1 : Observation
seen_s1 = record { reason = none; checked = "s1" ∷ [] }

abbrev seen_s2 : Observation
seen_s2 = record { reason = none; checked = "s2" ∷ [] }

ranks_agree_example :
    rejection (seen_s1 ∷ seen_s2 ∷ []) ("s1" ∷ []) ≡ rejection (seen_s1 ∷ seen_s2 ∷ []) ("s2" ∷ [])
ranks_agree_example = ranks_agree (seen_s1 ∷ seen_s2 ∷ []) 0 1 refl refl

abbrev pub alone : Group
alone = record {
  gather_starts = λ s. s ∷ [];
  gather_observations = λ o. o ∷ [];
  all_saved = λ b. b;
  all_written = λ b. b;
  checkpoint_name = λ step epoch plan. plan;
  save_candidate = λ r. saved end;
  load_checkpoint = λ r. some r.step;
}

alone-Hears : Hears alone
alone-Hears = record { rank = 0; own = λ o. refl }

pub alone-IsUniform : IsUniform alone
alone-IsUniform = record { same = λ o. (refl, tt) }

abbrev pub empty_folder : Folder
empty_folder = record { latest = none; pending = none; records = [] }

abbrev opened : DurableCheckpointCoordinator
opened = open_coordinator "plan" shapes "env" true empty_folder

abbrev pub begun : DurableCheckpointCoordinator
begun = (begin_candidate alone (pos 10) "s1" opened).1

reachable-IsSound_example :
    IsSound none
      (reject_candidate "stop" (observe alone (some (clean_replay "s1")) (pos 11) begun).1)
reachable-IsSound_example =
    reachable-IsSound "plan" shapes "env" true empty_folder shapes-Distinct (
      refused "stop" (
        observed alone (some (clean_replay "s1")) (pos 11) alone-Hears
          (began alone (pos 10) "s1" started)))

abbrev candidate : DurableCheckpointRecord
candidate = record {
  checkpoint_id = "plan";
  step = pos 10;
  validation_epoch = 1;
  shape_plan_id = "plan";
  environment_id = "env";
  expected_shape_ids = turned;
  checked_shapes = [];
  status = "candidate";
  verdict = none;
  completed_step = none;
  artifacts = end;
}

begun_pending : begun.pending ≡ some candidate
unfolding begin_candidate open_coordinator next_validation_epoch write_pending rotate_shape_ids
begun_pending = refl

clean_cycle_commits_example : (replay_each alone turned (pos 12) begun).0 ≡ committed
clean_cycle_commits_example =
    clean_cycle_commits alone candidate "s1" ("s2" ∷ "s0" ∷ []) (pos 12) begun alone-IsUniform
      begun_pending refl

abbrev dense : ReplayResult
dense = record (clean_replay "s1") { checked_shape_ids = turned; dense_replay = true }

abbrev after : DurableCheckpointCoordinator
after = (observe alone (some dense) (pos 12) begun).1

observed_dense : observe alone (some dense) (pos 12) begun ≡ (committed, after)
unfolding observe observation replay_result_has_sdc rejection begin_candidate open_coordinator
    next_validation_epoch write_pending rotate_shape_ids commit_candidate
observed_dense = refl

commit_is_unanimous_example : IsEarned alone (some dense) (pos 12) begun after
commit_is_unanimous_example =
    commit_is_unanimous alone (some dense) (pos 12) begun alone-Hears observed_dense

refused_event : (observe alone none (pos 12) begun).0 ≢ committed
unfolding observe observation rejection begin_candidate open_coordinator next_validation_epoch
    write_pending rotate_shape_ids
refused_event e = cc

pointer_waits_for_commit_example : SamePointer begun (observe alone none (pos 12) begun).1
pointer_waits_for_commit_example = pointer_waits_for_commit alone none (pos 12) begun refused_event

abbrev kept : DurableCheckpointRecord
kept =
    certified
      (record candidate {
        checked_shapes =
            record { shape_id = "s1"; step = pos 12 }
            ∷ record { shape_id = "s2"; step = pos 12 }
            ∷ record { shape_id = "s0"; step = pos 12 }
            ∷ [];
      })
      (pos 12)

after_named : after.folder.latest ≡ some kept
unfolding observe observation replay_result_has_sdc rejection begin_candidate open_coordinator
    next_validation_epoch write_pending rotate_shape_ids commit_candidate commit
after_named = refl

load_latest_validated-IsLoadable_example :
    ((load_latest_validated alone after ≡ return (some (pos 10)) → IsLoadable alone after (pos 10))
      × (IsLoadable alone after (pos 10)
          → load_latest_validated alone after ≡ return (some (pos 10))))
    × ((load_latest_validated alone after ≡ return none → after.folder.latest ≡ none)
        × (after.folder.latest ≡ none → load_latest_validated alone after ≡ return none))
load_latest_validated-IsLoadable_example = load_latest_validated-IsLoadable alone after (pos 10)

-- The checkpoint that was committed is loaded.
loaded_again : load_latest_validated alone after ≡ return (some (pos 10))
loaded_again = load_latest_validated-IsLoadable_example.0.1 (record {
  named = kept;
  latest_lem = after_named;
  status_lem = inl refl;
  verdict_lem = refl;
  whole = refl;
  loaded = refl;
  own_step = refl;
})
