-- ===== src/Tests/Failures.antt =====
-- A job of two ranks: one clean replay, and one that shows divergence.
use lm_resiliency.Base.{◌≡◌, refl, true, false, List, [], ◌∷◌, Option, some, nat_eq}
use lm_resiliency.Base.Int.{pos}
use lm_resiliency.Durable.Record.{ReplayResult, replay_result_has_sdc}
use lm_resiliency.Durable.Progress.{clean_replay}
use lm_resiliency.Certification.Cadence.{
  ResiliencyCadence, from_component_intervals, checked_cadence, checkpoint_due, detection_due, due,
  one_cadence_serves_both,
}
use lm_resiliency.Certification.Roles.{latest_gemini, recovery_verified}
use lm_resiliency.Certification.Workflow.{
  hang, sdc, Workflow, Job, apply_result, prepare_recovery, recovery_choice,
  global_replay_consensus,
}
use lm_resiliency.Certification.Recovery.{
  IsCautious, IsHarmless, divergence_blocks, latest_needs_clean_evidence,
  verified_recovery-IsCautious,
}
use lm_resiliency.Tests.Checkpoints.{alone, begun}

abbrev both : ResiliencyCadence
both = record { interval = 10; checkpoint_enabled = true; detection_enabled = true }

merged_intervals : from_component_intervals (pos 10) (pos 10) ≡ some both
unfolding from_component_intervals checked_cadence
merged_intervals = refl

one_cadence_serves_both_example :
    (checkpoint_due both 30 ≡ due 10 30) × (detection_due both 30 ≡ due 10 30)
one_cadence_serves_both_example = one_cadence_serves_both (pos 10) (pos 10) 30 merged_intervals

abbrev whole : ReplayResult
whole = record (clean_replay "s1") { completed_shape_cycle = true }

abbrev diverged : ReplayResult
diverged = record whole { sdc_bitmap = 0 ∷ 1 ∷ [] }

abbrev job : Job
job = record {
  group = alone;
  results = λ own. own ∷ some diverged ∷ [];
  boundary_complete = λ step. true;
  next_shape = some "s1";
}

abbrev running : Workflow
running = record {
  cadence = both;
  manager = some (record {
    candidate_step = pos 20;
    recovery_verified_step = pos 10;
    recovery_verified_steps = 10 ∷ [];
    recovery_mode = latest_gemini;
  });
  durable = some begun;
}

diverged_sdc : replay_result_has_sdc diverged ≡ true
unfolding replay_result_has_sdc
diverged_sdc = refl

divergence_blocks_example :
    IsCautious running (apply_result job 30 (some whole) false false running).1
divergence_blocks_example =
    divergence_blocks job 30 (some whole) false false running 1 diverged refl refl diverged_sdc

abbrev clean_results : List (Option ReplayResult)
clean_results = some whole ∷ some whole ∷ []

clean_hang : (prepare_recovery hang true clean_results "hang" running).0 ≡ latest_gemini
unfolding prepare_recovery recovery_choice global_replay_consensus replay_result_has_sdc
clean_hang = refl

latest_needs_clean_evidence_example : (true ≡ true) × IsHarmless clean_results hang
latest_needs_clean_evidence_example =
    latest_needs_clean_evidence hang true clean_results "hang" running clean_hang

sdc_mode : (prepare_recovery sdc true clean_results "sdc" running).0 ≡ recovery_verified
unfolding prepare_recovery recovery_choice
sdc_mode = refl

verified_recovery-IsCautious_example :
    IsCautious running (prepare_recovery sdc true clean_results "sdc" running).1
verified_recovery-IsCautious_example =
    verified_recovery-IsCautious sdc true clean_results "sdc" running sdc_mode
