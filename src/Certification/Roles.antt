-- ===== src/Certification/Roles.antt =====
-- checkpointing/disk.py and manager.py: the roles of GEMINI checkpoints that a restart reads.
use lm_resiliency.Base.{ℕ, Bool, true, false, List, [], ◌∷◌, if◌then◌else◌, ◌==◌, nat_eq, ltb}
use lm_resiliency.Base.Int.{ℤ, pos, negsuc, minus_one}

pub data RecoveryMode : Type 0 where
  latest_gemini recovery_verified : RecoveryMode

-- The verified steps are positive numbers.
pub record CheckpointStatus : Type 0 where
  pub candidate_step : ℤ
  pub recovery_verified_step : ℤ
  pub recovery_verified_steps : List ℕ
  pub recovery_mode : RecoveryMode

abbrev insert_step : ℕ → List ℕ → List ℕ
insert_step n [] = n ∷ []
insert_step n (x ∷ xs) =
    let rest = insert_step n xs in
    if n == x then x ∷ xs else if ltb n x then n ∷ x ∷ xs else x ∷ rest

-- `tuple(sorted(set(steps)))`
abbrev pub sorted_steps : List ℕ → List ℕ
sorted_steps [] = []
sorted_steps (x ∷ xs) = insert_step x (sorted_steps xs)

abbrev with_verified : ℤ → List ℕ → List ℕ
with_verified (pos n) steps = if n == 0 then steps else n ∷ steps
with_verified (negsuc n) steps = steps

-- The constructor adds the verified step to the verified steps and sorts them. Its refusal of a step below 1
-- is left out: all operations pass on the steps of another status.
unfoldable pub checkpoint_status : ℤ → ℤ → List ℕ → RecoveryMode → CheckpointStatus
checkpoint_status candidate verified steps mode = record {
  candidate_step = candidate;
  recovery_verified_step = verified;
  recovery_verified_steps = sorted_steps (with_verified verified steps);
  recovery_mode = mode;
}

abbrev pub mode_candidate : RecoveryMode → ℤ → ℤ
mode_candidate recovery_verified candidate = minus_one
mode_candidate latest_gemini candidate = candidate

unfoldable pub set_recovery_mode : RecoveryMode → CheckpointStatus → CheckpointStatus
unfolding checkpoint_status
set_recovery_mode mode s =
    checkpoint_status (mode_candidate mode s.candidate_step) s.recovery_verified_step
      s.recovery_verified_steps mode

unfoldable pub clear_candidate : CheckpointStatus → CheckpointStatus
unfolding checkpoint_status
clear_candidate s =
    checkpoint_status minus_one s.recovery_verified_step s.recovery_verified_steps s.recovery_mode

unfoldable pub reject_role : CheckpointStatus → CheckpointStatus
unfolding set_recovery_mode
reject_role s = set_recovery_mode recovery_verified s

abbrev promoted : ℤ → ℤ → ℤ
promoted (pos n) verified = if n == 0 then verified else pos n
promoted (negsuc n) verified = verified

-- The roles after a boundary: the earlier candidate is verified and the step is the candidate, or
-- the step is verified at once.
unfoldable pub persist_boundary : Bool → ℕ → CheckpointStatus → CheckpointStatus
unfolding checkpoint_status
persist_boundary true step s =
    checkpoint_status minus_one (pos step) s.recovery_verified_steps latest_gemini
persist_boundary false step s =
    checkpoint_status (pos step) (promoted s.candidate_step s.recovery_verified_step)
      s.recovery_verified_steps latest_gemini
