-- ===== src/Certification/Recovery.antt =====
-- Divergence anywhere in the job leaves only verified checkpoints to recover from.
use lm_resiliency.Base.{
  ℕ, ◌≡◌, refl, sym, ap, ◌∙◌, Bool, true, false, ◌&&◌, ◌||◌, not, List, [], ◌∷◌, Option, some, none,
  String, if◌then◌else◌, any, All, get_elem?, arith, zero, suc,
}
use lm_resiliency.Base.Int.{minus_one}
use mathlib.Core.Path.{subst}
use lm_resiliency.Durable.Record.{DurableCheckpointRecord, ReplayResult, replay_result_has_sdc}
use lm_resiliency.Durable.Candidate.{DurableCheckpointCoordinator}
use lm_resiliency.Durable.Evaluation.{reject_candidate, reject_pending}
use lm_resiliency.Durable.Commit.{SamePointer, reject_pending-SamePointer}
use lm_resiliency.Certification.Roles.{
  CheckpointStatus, RecoveryMode, latest_gemini, recovery_verified, reject_role, set_recovery_mode,
  checkpoint_status,
}
use lm_resiliency.Certification.Workflow.{
  FailureKind, hang, sdc, straggler, uncertain, machine_unavailable, global_replay_consensus, flag,
  is_missing, Workflow, Job, with_manager, with_durable, reject_both, waits, apply_result,
  replayed_mode, recovery_choice, choose, prepare_recovery,
}

-- What a rejection leaves: no pending candidate, the same validated checkpoint, and roles without a
-- candidate that ask for the verified step, which is the same.
pub record IsCautious (w v : Workflow) : Type 0 where
  pub idle : waits v.durable ≡ false
  pub pointer :
      (d : DurableCheckpointCoordinator)
      → v.durable ≡ some d
      → (c : DurableCheckpointCoordinator) × (w.durable ≡ some c) × SamePointer c d
  pub roles :
      (t : CheckpointStatus)
      → v.manager ≡ some t
      → (s : CheckpointStatus) × (w.manager ≡ some s)
        × (t.candidate_step ≡ minus_one)
        × (t.recovery_mode ≡ recovery_verified)
        × (t.recovery_verified_step ≡ s.recovery_verified_step)

pending-idle :
    (reason : String) (o : Option DurableCheckpointRecord) (c : DurableCheckpointCoordinator)
    → c.pending ≡ o
    → waits (some (reject_pending reason o c)) ≡ false
pending-idle reason none c e = rw e refl
pending-idle reason (some r) c e = refl

waits-with_durable :
    (reason : String) (o : Option DurableCheckpointCoordinator)
    → waits (with_durable (reject_candidate reason) o) ≡ false
unfolding reject_candidate
waits-with_durable reason none = refl
waits-with_durable reason (some c) = pending-idle reason c.pending c refl

durable_pointer :
    (reason : String) (o : Option DurableCheckpointCoordinator) (d : DurableCheckpointCoordinator)
    → with_durable (reject_candidate reason) o ≡ some d
    → (c : DurableCheckpointCoordinator) × (o ≡ some c) × SamePointer c d
unfolding reject_candidate
durable_pointer reason none d h = cc
durable_pointer reason (some c) d h =
    let same : reject_pending reason c.pending c ≡ d = cc in
    (c, refl, subst (SamePointer c) same (reject_pending-SamePointer reason c.pending c))

manager_roles :
    (o : Option CheckpointStatus) (t : CheckpointStatus)
    → with_manager reject_role o ≡ some t
    → (s : CheckpointStatus) × (o ≡ some s)
      × (t.candidate_step ≡ minus_one)
      × (t.recovery_mode ≡ recovery_verified)
      × (t.recovery_verified_step ≡ s.recovery_verified_step)
unfolding reject_role set_recovery_mode checkpoint_status
manager_roles none t h = cc
manager_roles (some s) t h =
    let same : set_recovery_mode recovery_verified s ≡ t = cc in
    (
      s,
      refl,
      sym (ap (λ x. x.candidate_step) same),
      sym (ap (λ x. x.recovery_mode) same),
      sym (ap (λ x. x.recovery_verified_step) same),
    )

reject_both-IsCautious : (reason : String) (w : Workflow) → IsCautious w (reject_both reason w)
unfolding reject_both
reject_both-IsCautious reason w = record {
  idle = waits-with_durable reason w.durable;
  pointer = durable_pointer reason w.durable;
  roles = manager_roles w.manager;
}

any-get_elem? :
    (f : Option ReplayResult → Bool) (os : List (Option ReplayResult)) (i : ℕ)
    {o : Option ReplayResult}
    → get_elem? os i ≡ some o
    → f o ≡ true
    → any f os ≡ true
any-get_elem? f [] i e h = cc
any-get_elem? f (x ∷ xs) zero {o} e h = let same : x ≡ o = cc in rw (same, h) refl
any-get_elem? f (x ∷ xs) (suc i) {o} e h = ground (arith, any-get_elem? f xs i {o = o} e h)

-- If all ranks returned a result and that of one rank shows divergence, then applying this rank's
-- result leaves no pending candidate and no candidate role, asks for verified recovery, and moves
-- neither the validated checkpoint nor the verified step.
pub divergence_blocks :
    (job : Job) (step : ℕ) (own : Option ReplayResult) (force full : Bool) (w : Workflow) (rank : ℕ)
    (r : ReplayResult)
    → any is_missing (job.results own) ≡ false
    → get_elem? (job.results own) rank ≡ some (some r)
    → replay_result_has_sdc r ≡ true
    → IsCautious w (apply_result job step own force full w).1
unfolding apply_result global_replay_consensus
divergence_blocks job step own force full w rank r present at_rank bad =
    rw (present, any-get_elem? (flag replay_result_has_sdc) (job.results own) rank at_rank bad)
      (reject_both-IsCautious "SCOUT detected numerical divergence" w)

-- A result that shows no divergence, from all of the plan's shapes.
pub data IsClean : Option ReplayResult → Type 0 where
  clean :
      (r : ReplayResult)
      → replay_result_has_sdc r ≡ false
      → r.completed_shape_cycle ≡ true
      → IsClean (some r)

All-IsClean :
    (os : List (Option ReplayResult))
    → any is_missing os ≡ false
    → any (flag replay_result_has_sdc) os ≡ false
    → any (flag (λ r. not r.completed_shape_cycle)) os ≡ false
    → All IsClean os
All-IsClean [] a b c = tt
All-IsClean (none ∷ os) a b c = absurd (cc)
All-IsClean (some r ∷ os) a b c = (
  clean r (ground arith) (ground arith),
  All-IsClean os (ground arith) (ground arith) (ground arith),
)

latest_flags :
    (missing complete diverged incomplete : Bool)
    → (if not (not missing) || (not (complete && not incomplete) || diverged)
        then recovery_verified
        else latest_gemini)
      ≡ latest_gemini
    → (missing ≡ false) × (diverged ≡ false) × (incomplete ≡ false)
latest_flags missing complete diverged incomplete h = (ground arith, ground arith, ground arith)

replayed_mode-latest :
    (os : List (Option ReplayResult))
    → replayed_mode (global_replay_consensus os) ≡ latest_gemini
    → All IsClean os
unfolding global_replay_consensus
replayed_mode-latest os h =
    let (a, b, c) =
      latest_flags (any is_missing os) (any (flag (λ r. r.completed_shape_cycle)) os)
        (any (flag replay_result_has_sdc) os) (any (flag (λ r. not r.completed_shape_cycle)) os)
        h in
    All-IsClean os a b c

-- What the latest checkpoint may be resumed after: a straggler, or a full replay without divergence.
pub data IsHarmless (results : List (Option ReplayResult)) : FailureKind → Type 0 where
  slow : IsHarmless results straggler
  replayed_hang : All IsClean results → IsHarmless results hang
  replayed_uncertain : All IsClean results → IsHarmless results uncertain

choice-latest :
    (kind : FailureKind) (accessible : Bool) (results : List (Option ReplayResult))
    → recovery_choice kind accessible results ≡ latest_gemini
    → (accessible ≡ true) × IsHarmless results kind
unfolding recovery_choice
choice-latest kind false results h = absurd (cc)
choice-latest machine_unavailable true results h = absurd (cc)
choice-latest sdc true results h = absurd (cc)
choice-latest straggler true results h = (refl, slow)
choice-latest hang true results h = (refl, replayed_hang (replayed_mode-latest results h))
choice-latest uncertain true results h = (refl, replayed_uncertain (replayed_mode-latest results h))

choose-mode : (reason : String) (m : RecoveryMode) (w : Workflow) → (choose reason m w).0 ≡ m
choose-mode reason latest_gemini w = refl
choose-mode reason recovery_verified w = refl

-- The latest checkpoint is chosen only if all ranks are accessible and the failure is a straggler, or
-- a hang or an uncertain failure after which every rank's replay was there, covered the full shape
-- cycle and showed no divergence.
pub latest_needs_clean_evidence :
    (kind : FailureKind) (accessible : Bool) (results : List (Option ReplayResult))
    (reason : String) (w : Workflow)
    → (prepare_recovery kind accessible results reason w).0 ≡ latest_gemini
    → (accessible ≡ true) × IsHarmless results kind
unfolding prepare_recovery
latest_needs_clean_evidence kind accessible results reason w h =
    choice-latest kind accessible results
      (sym (choose-mode reason (recovery_choice kind accessible results) w) ∙ h)

choose-IsCautious :
    (reason : String) (m : RecoveryMode) (w : Workflow)
    → (choose reason m w).0 ≡ recovery_verified
    → IsCautious w (choose reason m w).1
choose-IsCautious reason latest_gemini w h = absurd (cc)
choose-IsCautious reason recovery_verified w h = reject_both-IsCautious reason w

-- Where verified recovery is chosen, no candidate is left, pending or in the roles, and neither the
-- validated checkpoint nor the verified step has moved.
pub verified_recovery-IsCautious :
    (kind : FailureKind) (accessible : Bool) (results : List (Option ReplayResult))
    (reason : String) (w : Workflow)
    → (prepare_recovery kind accessible results reason w).0 ≡ recovery_verified
    → IsCautious w (prepare_recovery kind accessible results reason w).1
unfolding prepare_recovery
verified_recovery-IsCautious kind accessible results reason w h =
    choose-IsCautious reason (recovery_choice kind accessible results) w h
