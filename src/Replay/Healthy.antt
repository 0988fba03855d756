-- ===== src/Replay/Healthy.antt =====
-- A sweep over replays that find nothing returns, and shows nothing.
use lm_resiliency.Base.{
  drop_step, String, Option, ℕ, zero, suc, ◌<◌, ◌≡◌, refl, sym, ap, ◌∙◌, Bool, true, false, not,
  List, [], ◌∷◌, map, some, arith, length, nat_eq, string_eq, any, return, ◌>>=◌, range_from,
  if◌then◌else◌,
}
use lm_resiliency.Protocol.Value.{Value}
use lm_resiliency.Durable.Record.{ReplayResult, replay_result_has_sdc, is_inconclusive}
use lm_resiliency.Replay.Shapes.{ReplayShape, identifier}
use lm_resiliency.Replay.Scheduler.{
  ReplayShapeScheduler, current_shape, advance, state_dict, load_state_dict,
}
use lm_resiliency.Replay.Turns.{size, advance-AfterTurns}
use lm_resiliency.Replay.Saved.{state_round_trip}
use lm_resiliency.Replay.Sweep.{
  Measured, Replay, Round, round_of, Swept, then_rest, checked_shape, sweep, is_set, set_at, column,
  fits, unfit, merged, aggregate_shape_cycle, finish, check_shape_cycle, attached,
}
use lm_resiliency.Replay.AllToAll.{AllToAll, attach_all_to_all_replay}
use lm_resiliency.Replay.Attached.{IsQuietResult, AreHealthy, attach_all_to_all_replay-quiet}
use lm_resiliency.Replay.Coverage.{faulty}
use lm_resiliency.Replay.Evidence.{any-inconclusive, doubtful, at_bit}
use lm_resiliency.Replay.Cycle.{sweep-plan}

-- A replay of any shape returns bits for this many peers, none of which is set, and no verdict without
-- a majority.
pub record FindsNothing (width : ℕ) (m : Measured) : Type 0 where
  pub bits_fit : length m.bits ≡ width
  pub stragglers_fit : length m.stragglers ≡ width
  pub no_bit : any is_set m.bits ≡ false
  pub no_doubt : any is_inconclusive m.statuses ≡ false

pub record IsHealthy (width : ℕ) (replay : Replay) : Type 0 where
  pub answer : ℕ → ReplayShape → Measured
  pub returns : (index : ℕ) (shape : ReplayShape) → replay index shape ≡ return (answer index shape)
  pub nothing : (index : ℕ) (shape : ReplayShape) → FindsNothing width (answer index shape)

-- The rounds that a sweep returns.
record IsQuiet (width left : ℕ) (swept : Swept) : Type 0 where
  rounds : List Round
  returned : swept.0 ≡ return rounds
  counted : length rounds ≡ left
  widths : any (λ r. not (fits width r)) rounds ≡ false
  no_fault : any faulty rounds ≡ false

current_some :
    (s : ReplayShapeScheduler)
    → s.position < size s
    → (shape : ReplayShape) × (current_shape s ≡ some shape)
current_some s h = let step = drop_step s.position s.plan.shapes h in (step.0, step.1)

then_rest-IsQuiet :
    (width left : ℕ) (shape : ReplayShape) (m : Measured) (s : ReplayShapeScheduler) (rest : Swept)
    → FindsNothing width m
    → IsQuiet width left rest
    → IsQuiet width (suc left) (then_rest (checked_shape shape (return m) s) rest)
unfolding replay_result_has_sdc
then_rest-IsQuiet width left shape m s (out, u) f q =
    rw (f.no_bit, f.no_doubt, q.returned)
      (record {
        rounds = round_of shape m s (advance s) ∷ q.rounds;
        returned = refl;
        counted = ap suc q.counted;
        widths = ground (arith, f.bits_fit, f.stragglers_fit, q.widths);
        no_fault = ground (arith, f.no_bit, f.no_doubt, q.no_fault);
      })

sweep-IsQuiet :
    (width left index : ℕ) (replay : Replay) (s : ReplayShapeScheduler)
    → IsHealthy width replay
    → s.position < size s
    → IsQuiet width left (sweep replay left index s)
unfolding sweep
sweep-IsQuiet width zero index replay s k h = record {
  rounds = [];
  returned = refl;
  counted = refl;
  widths = refl;
  no_fault = refl;
}
sweep-IsQuiet width (suc left) index replay s k h =
    let (shape, now) = current_some s h in
    let m = k.answer index shape in
    let next =
      sweep-IsQuiet width left (suc index) replay (advance s) k (advance-AfterTurns s h).in_range in
    rw (now, k.returns index shape)
      (then_rest-IsQuiet width left shape m s (sweep replay left (suc index) (advance s))
        (k.nothing index shape) next)

unset_at : (bits : List ℕ) (i : ℕ) → any is_set bits ≡ false → set_at bits i ≡ false
unset_at [] i h = refl
unset_at (b ∷ bits) zero h = ground arith
unset_at (b ∷ bits) (suc i) h = unset_at bits i (ground arith)

quiet_bits : (rs : List Round) (i : ℕ) → any faulty rs ≡ false → any (at_bit i) rs ≡ false
unfolding replay_result_has_sdc
quiet_bits [] i h = refl
quiet_bits (r ∷ rs) i h =
    ground (arith, unset_at r.result.sdc_bitmap i (ground arith), quiet_bits rs i (ground arith))

quiet_verdicts : (rs : List Round) → any faulty rs ≡ false → any doubtful rs ≡ false
unfolding replay_result_has_sdc
quiet_verdicts [] h = refl
quiet_verdicts (r ∷ rs) h = ground (arith, quiet_verdicts rs)

quiet_columns :
    (rs : List Round) (k n : ℕ)
    → any faulty rs ≡ false
    → any is_set (map (column rs) (range_from k n)) ≡ false
quiet_columns rs k zero h = refl
quiet_columns rs k (suc n) h = rw (quiet_bits rs k h) (quiet_columns rs (suc k) n h)

merged-quiet :
    (expected : ℕ) (r : Round) (rs : List Round)
    → any faulty (r ∷ rs) ≡ false
    → replay_result_has_sdc (merged expected r rs) ≡ false
unfolding replay_result_has_sdc
merged-quiet expected r rs h =
    rw
      (
        quiet_columns (r ∷ rs) 0 (length r.result.sdc_bitmap) h,
        any-inconclusive (λ x. x.result.c3_statuses) (r ∷ rs),
      )
      (quiet_verdicts (r ∷ rs) h)

length-columns : (rs : List Round) (k n : ℕ) → length (map (column rs) (range_from k n)) ≡ n
length-columns rs k zero = refl
length-columns rs k (suc n) = ap suc (length-columns rs (suc k) n)

quiet_aggregate :
    (width expected : ℕ) (rs : List Round)
    → 0 < length rs
    → any (λ r. not (fits width r)) rs ≡ false
    → any faulty rs ≡ false
    → (out : ReplayResult) × (aggregate_shape_cycle expected rs ≡ return out)
      × IsQuietResult width out
unfolding aggregate_shape_cycle
quiet_aggregate width expected [] p fit quiet = absurd (omega arith)
quiet_aggregate width expected (r ∷ rs) p fit quiet =
    let own : width ≡ length r.result.sdc_bitmap = ground arith in
    let same : unfit r rs ≡ false = ap (λ w. any (λ x. not (fits w x)) (r ∷ rs)) (sym own) ∙ fit in
    (
      merged expected r rs,
      rw same refl,
      record {
        width_lem = length-columns (r ∷ rs) 0 (length r.result.sdc_bitmap) ∙ sym own;
        no_fault = merged-quiet expected r rs quiet;
      },
    )

restore_any :
    (digest : Value → String) (preserve : Bool) (s : ReplayShapeScheduler) (swept : Swept)
    → s.position < size s
    → swept.1.plan ≡ s.plan
    → (u : ReplayShapeScheduler) × ((if preserve
          then load_state_dict digest (some (state_dict digest s)) swept.1
          else return swept.1)
        ≡ return u)
restore_any digest false s swept h plan = (swept.1, refl)
restore_any digest true s swept h plan =
    (_, state_round_trip digest s swept.1 (ap (identifier digest) (sym plan)) (rw plan h))

-- If no replay of any shape raises or finds anything, all have the same number of peers, and so do the
-- exchanges, if there are any, on all of whose comparisons the ranks agree, then a sweep from a position
-- in the plan returns a result, and it shows no divergence.
pub healthy_sweep_returns :
    (digest : Value → String) (width : ℕ) (replay : Replay) (exchanges : Option AllToAll)
    (preserve : Bool) (s : ReplayShapeScheduler)
    → IsHealthy width replay
    → AreHealthy width exchanges
    → s.position < size s
    → (out : ReplayResult) × ((check_shape_cycle digest replay exchanges true preserve s).0
        ≡ return out)
      × (replay_result_has_sdc out ≡ false)
unfolding check_shape_cycle
healthy_sweep_returns digest width replay exchanges preserve s k a h =
    let swept = sweep replay (size s) 0 s in
    let quiet = sweep-IsQuiet width (size s) 0 replay s k h in
    let (u, restored) = restore_any digest preserve s swept h (sweep-plan replay (size s) 0 s) in
    let (aggregate, made, clean) =
      quiet_aggregate width (size s) quiet.rounds (omega (arith, quiet.counted)) quiet.widths
        quiet.no_fault in
    let (out, attached_lem, still) =
      attach_all_to_all_replay-quiet width exchanges aggregate a clean in
    (
      out,
      ap (λ r. (attached exchanges (finish (size s) swept r)).0) restored
          ∙ ap (λ r. (r >>= aggregate_shape_cycle (size s)) >>= attach_all_to_all_replay exchanges)
              quiet.returned
          ∙ ap (λ r. r >>= attach_all_to_all_replay exchanges) made
          ∙ attached_lem,
      still.no_fault,
    )
