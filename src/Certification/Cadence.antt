-- ===== src/Certification/Cadence.antt =====
-- lm_resiliency/cadence.py: one interval for detection and capture.
use lm_resiliency.Base.{
  ℕ, ◌%◌, ◌≡◌, refl, ap, nat_beq_iff, Bool, false, ◌&&◌, ◌||◌, not, Option, some, none,
  if◌then◌else◌, ◌==◌, nat_eq, arith, Bool-cases, inl, inr,
}
use lm_resiliency.Base.Int.{ℤ, pos_part}

-- An interval below zero never survives the constructor where something is enabled.
pub record ResiliencyCadence : Type 0 where
  pub interval : ℕ
  pub checkpoint_enabled : Bool
  pub detection_enabled : Bool

-- `__post_init__`
unfoldable pub checked_cadence : ResiliencyCadence → Option ResiliencyCadence
checked_cadence c =
    if (c.checkpoint_enabled || c.detection_enabled) && c.interval == 0 then none else some c

abbrev pub merged : ℕ → ℕ → ResiliencyCadence
merged checkpoint detection = record {
  interval = if not (checkpoint == 0) then checkpoint else detection;
  checkpoint_enabled = not (checkpoint == 0);
  detection_enabled = not (detection == 0);
}

abbrev pub from_parts : ℕ → ℕ → Option ResiliencyCadence
from_parts checkpoint detection =
    if not (checkpoint == 0) && (not (detection == 0) && not (checkpoint == detection))
    then none
    else checked_cadence (merged checkpoint detection)

-- At most one interval above zero, or twice the same.
unfoldable pub from_component_intervals : ℤ → ℤ → Option ResiliencyCadence
from_component_intervals checkpoint detection =
    from_parts (pos_part checkpoint) (pos_part detection)

unfoldable pub detection_due : ResiliencyCadence → ℕ → Bool
detection_due c step = c.detection_enabled && step % c.interval == 0

unfoldable pub checkpoint_due : ResiliencyCadence → ℕ → Bool
checkpoint_due c step = if not c.checkpoint_enabled then false else step % c.interval == 0

checked-same : (c : ResiliencyCadence) {d : ResiliencyCadence} → checked_cadence c ≡ some d → c ≡ d
unfolding checked_cadence
checked-same c h = ground arith

abbrev pub due : ℕ → ℕ → Bool
due interval step = not (interval == 0) && step % interval == 0

merged-due :
    (p d step : ℕ)
    → (not (p == 0) && (not (d == 0) && not (p == d))) ≡ false
    → (checkpoint_due (merged p d) step ≡ due p step)
      × (detection_due (merged p d) step ≡ due d step)
unfolding checkpoint_due detection_due
merged-due p d step h = elim (Bool-cases (p == 0)) [
  | inl e ↦ rw e (refl, refl)
  | inr e ↦ elim (Bool-cases (d == 0)) [
    | inl z ↦ rw (e, z) (refl, refl)
    | inr y ↦
        let same : p ≡ d = (nat_beq_iff p d).0 (ground (arith, e, y)) in
        rw (e, y) (refl, ap (λ i. step % i == 0) same)
  ]
]

-- Where the two intervals have one cadence, each component that has an interval above zero is due on
-- the multiples of its own interval, and one that has none is never due.
pub one_cadence_serves_both :
    (checkpoint detection : ℤ) (step : ℕ) {c : ResiliencyCadence}
    → from_component_intervals checkpoint detection ≡ some c
    → (checkpoint_due c step ≡ due (pos_part checkpoint) step)
      × (detection_due c step ≡ due (pos_part detection) step)
unfolding from_component_intervals
one_cadence_serves_both checkpoint detection step {c} h =
    let p = pos_part checkpoint in
    let d = pos_part detection in
    elim (Bool-cases (not (p == 0) && (not (d == 0) && not (p == d)))) [
      | inl differ ↦ absurd (ground (arith, rw differ at h))
      | inr fit ↦ rw (← (checked-same (merged p d) (rw fit at h))) (merged-due p d step fit)
    ]
