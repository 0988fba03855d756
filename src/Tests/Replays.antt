-- ===== src/Tests/Replays.antt =====
-- A plan of three shapes, a scheduler on its second, and replays that find nothing.
use lm_resiliency.Base.{
  ℕ, ap, zero, suc, ◌≡◌, refl, true, false, [], ◌∷◌, some, none, String, arith, string_eq, return,
  raise,
}
use lm_resiliency.Base.Int.{pos}
use lm_resiliency.Protocol.Value.{Value, end}
use lm_resiliency.Durable.Record.{
  agree, DurableCheckpointRecord, ReplayResult, replay_result_has_sdc, rotate_shape_ids,
}
use lm_resiliency.Durable.Manifests.{write_pending, next_validation_epoch}
use lm_resiliency.Durable.Candidate.{DurableCheckpointCoordinator, begin_candidate, committed}
use lm_resiliency.Durable.Evaluation.{observe, open_coordinator}
use lm_resiliency.Durable.Progress.{replay_each}
use lm_resiliency.Replay.Shapes.{
  ReplayShape, ReplayShapePlan, shape_ids, captured, dense, replay_shape_plan, repeated_shape,
}
use lm_resiliency.Replay.Scheduler.{
  ReplayShapeScheduler, SchedulerState, advance, state_dict, load_state_dict,
}
use lm_resiliency.Replay.Turns.{visit, advance_times}
use lm_resiliency.Replay.Counter.{Refines, ticked, counter, scheduler-Refines}
use lm_resiliency.Replay.Saved.{IsRestored, state_round_trip, load_state_dict-IsRestored}
use lm_resiliency.Replay.Sweep.{Measured, Replay, sweep, aggregate_shape_cycle, check_shape_cycle}
use lm_resiliency.Replay.Cycle.{IsSweep, preserved_schedule, check_shape_cycle-IsSweep}
use lm_resiliency.Replay.AllToAll.{
  Comparison, MatrixOutcome, RecipeOutcome, AllToAll, merge_source, attach_all_to_all_replay,
}
use lm_resiliency.Replay.Attached.{FindsAgreement, IsHealthyOutcome, IsHealthyRecipe, AreHealthy}
use lm_resiliency.Replay.Healthy.{IsHealthy, healthy_sweep_returns}
use lm_resiliency.Replay.Certifies.{scheduled_cycle_certifies, clean_sweep_certifies}
use lm_resiliency.Replay.Moe.{MoEReplayScheduler, detection_bound_steps}
use lm_resiliency.Replay.Windows.{run_steps}
use lm_resiliency.Replay.Bound.{detection_bound}
use lm_resiliency.Tests.Checkpoints.{alone, shapes, empty_folder, alone-IsUniform, shapes-Distinct}

abbrev shape : String → ReplayShape
shape id = record { shape_id = id; dimensions = some (pos 4 ∷ []) }

abbrev plan : ReplayShapePlan
plan = record { shapes = shape "s0" ∷ shape "s1" ∷ shape "s2" ∷ []; source_id = "test" }

abbrev second : ReplayShapeScheduler
second = record { plan = plan; position = 1; cycle = 0 }

-- A digest for tests: the same for all documents.
abbrev digest : Value → String
digest v = "d"

abbrev quiet : Replay
quiet i s = return (record { bits = 0 ∷ 0 ∷ []; stragglers = 0 ∷ 0 ∷ []; statuses = [] })

-- The second replay of a sweep finds corruption on the first peer.
abbrev bad : ℕ → Measured
bad (suc zero) = record { bits = 1 ∷ 0 ∷ []; stragglers = 0 ∷ 0 ∷ []; statuses = [] }
bad i = record { bits = 0 ∷ 0 ∷ []; stragglers = 0 ∷ 0 ∷ []; statuses = [] }

abbrev corrupted : Replay
corrupted i s = return (bad i)

dense_is_captured : dense ≡ return (record { shapes = captured ∷ []; source_id = "dense-captured" })
dense_is_captured = refl

repeated : replay_shape_plan (shape "s" ∷ shape "s" ∷ []) "x" ≡ raise repeated_shape
repeated = refl

-- Two peers that agree, on one recipe with one matrix.
abbrev both_agree : Comparison
both_agree = return (record { status = agree; bits = 0 ∷ 0 ∷ [] })

abbrev matrix : MatrixOutcome
matrix = record { contract = both_agree; output = both_agree; timing = return tt }

abbrev recipe : RecipeOutcome
recipe = record { execution = both_agree; matrix_count = both_agree; outcomes = matrix ∷ [] }

abbrev exchange : AllToAll
exchange = record { recipe_count = both_agree; recipes = recipe ∷ [] }

abbrev swept : ReplayResult
swept = record {
  sdc_bitmap = 0 ∷ 0 ∷ [];
  c3_statuses = agree ∷ agree ∷ agree ∷ agree ∷ agree ∷ [];
  checked_shape_ids = "s1" ∷ "s2" ∷ "s0" ∷ [];
  completed_shape_cycle = true;
  completed_scheduled_cycle = true;
  dense_replay = false;
}

quiet_sweep :
    check_shape_cycle digest quiet (some exchange) true false second
    ≡ (return swept, record { plan = plan; position = 1; cycle = 1 })
unfolding check_shape_cycle sweep aggregate_shape_cycle advance replay_result_has_sdc
    attach_all_to_all_replay merge_source
quiet_sweep = refl

abbrev stopped : ReplayResult
stopped = record {
  sdc_bitmap = 1 ∷ 0 ∷ [];
  c3_statuses = [];
  checked_shape_ids = "s1" ∷ "s2" ∷ [];
  completed_shape_cycle = false;
  completed_scheduled_cycle = true;
  dense_replay = false;
}

corrupted_sweep :
    check_shape_cycle digest corrupted none true false second
    ≡ (return stopped, record { plan = plan; position = 0; cycle = 1 })
unfolding check_shape_cycle sweep aggregate_shape_cycle advance replay_result_has_sdc
    attach_all_to_all_replay
corrupted_sweep = refl

preserved_schedule_example : (check_shape_cycle digest corrupted none true true second).1 ≡ second
preserved_schedule_example = preserved_schedule digest corrupted none true second (omega arith)

returned : (check_shape_cycle digest quiet (some exchange) true false second).0 ≡ return swept
returned = ap (λ c. c.0) quiet_sweep

check_shape_cycle-IsSweep_example : IsSweep second swept
check_shape_cycle-IsSweep_example =
    check_shape_cycle-IsSweep digest quiet (some exchange) true false second returned

quiet-IsHealthy : IsHealthy 2 quiet
quiet-IsHealthy = record {
  answer = λ i s. record { bits = 0 ∷ 0 ∷ []; stragglers = 0 ∷ 0 ∷ []; statuses = [] };
  returns = λ i s. refl;
  nothing =
      λ i s. record { bits_fit = refl; stragglers_fit = refl; no_bit = refl; no_doubt = refl };
}

both_FindsAgreement : FindsAgreement 2 both_agree
both_FindsAgreement = record {
  found = record { status = agree; bits = 0 ∷ 0 ∷ [] };
  compared = refl;
  agreed = refl;
  fits = refl;
  no_bit = refl;
}

matrix-IsHealthy : IsHealthyOutcome 2 matrix
matrix-IsHealthy = record {
  contract = both_FindsAgreement;
  output = both_FindsAgreement;
  timed = refl;
}

recipe-IsHealthy : IsHealthyRecipe 2 recipe
recipe-IsHealthy = record {
  execution = both_FindsAgreement;
  matrix_count = both_FindsAgreement;
  outcomes = (matrix-IsHealthy, tt);
}

exchange-IsHealthy : AreHealthy 2 (some exchange)
unfolding AreHealthy
exchange-IsHealthy = record { recipe_count = both_FindsAgreement; recipes = (recipe-IsHealthy, tt) }

healthy_sweep_returns_example :
    (out : ReplayResult) × ((check_shape_cycle digest quiet (some exchange) true true second).0
      ≡ return out)
    × (replay_result_has_sdc out ≡ false)
healthy_sweep_returns_example =
    healthy_sweep_returns digest 2 quiet (some exchange) true second quiet-IsHealthy
      exchange-IsHealthy (omega arith)

abbrev opened : DurableCheckpointCoordinator
opened = open_coordinator "plan" shapes "env" true empty_folder

abbrev candidate : DurableCheckpointRecord
candidate = record {
  checkpoint_id = "plan";
  step = pos 10;
  validation_epoch = 1;
  shape_plan_id = "plan";
  environment_id = "env";
  expected_shape_ids = "s1" ∷ "s2" ∷ "s0" ∷ [];
  checked_shapes = [];
  status = "candidate";
  verdict = none;
  completed_step = none;
  artifacts = end;
}

begins : (begin_candidate alone (pos 10) "s1" opened).0 ≡ return candidate
unfolding begin_candidate open_coordinator next_validation_epoch write_pending rotate_shape_ids
begins = refl

same_plan : opened.shape_ids ≡ shape_ids plan.shapes
unfolding open_coordinator
same_plan = refl

clean_sweep_certifies_example :
    (observe alone (some swept) (pos 12) (begin_candidate alone (pos 10) "s1" opened).1).0
    ≡ committed
unfolding replay_result_has_sdc
clean_sweep_certifies_example =
    clean_sweep_certifies second alone (pos 10) (pos 12) opened digest quiet (some exchange) true
      false shapes-Distinct refl same_plan alone-IsUniform begins returned refl

scheduled_cycle_certifies_example :
    (replay_each alone
      (shape_ids (visit 3 second))
      (pos 12)
      (begin_candidate alone (pos 10) "s1" opened).1).0
    ≡ committed
scheduled_cycle_certifies_example =
    scheduled_cycle_certifies second alone (pos 10) (pos 12) opened shapes-Distinct refl same_plan
      alone-IsUniform begins

scheduler-Refines_example : Refines (advance_times 5 second) (ticked 5 (counter second))
scheduler-Refines_example = scheduler-Refines 5 second (omega arith)

state_round_trip_example :
    load_state_dict digest (some (state_dict digest second)) second ≡ return second
state_round_trip_example = state_round_trip digest second second refl (omega arith)

abbrev saved : SchedulerState
saved = record { plan_id = some "d"; position = some (pos 2); cycle = some (pos 7) }

restored :
    load_state_dict digest (some saved) second
    ≡ return (record { plan = plan; position = 2; cycle = 7 })
unfolding load_state_dict
restored = refl

load_state_dict-IsRestored_example :
    IsRestored digest saved second (record { plan = plan; position = 2; cycle = 7 })
load_state_dict-IsRestored_example = load_state_dict-IsRestored digest saved second restored

abbrev moe : MoEReplayScheduler String
moe = record {
  catalog_id = "c";
  replay_recipes = "a" ∷ "b" ∷ "c" ∷ [];
  replay_interval = 2;
  first_replay_step = 4;
  position = 1;
  cycle = 0;
}

detection_bound_example : (run_steps (detection_bound_steps moe) 5 moe).0 ≡ "b" ∷ "c" ∷ "a" ∷ []
detection_bound_example = detection_bound moe 5 (omega arith) (omega arith) (omega arith)
