-- ===== src/Replay/Cycle.antt =====
-- A returned sweep, what it leaves of the schedule, and the checkpoint that it certifies.
use lm_resiliency.Base.{
  ℕ, zero, suc, ◌+◌, ◌<◌, ◌≤◌, ◌≡◌, refl, sym, ap, ◌∙◌, inl, inr, Bool, true, false, List, ◌∷◌,
  Option, some, none, String, length, ◌==◌, nat_eq, string_eq, Bool-cases, Result, return, raise,
  ◌>>=◌, >>=-eq-return,
}
use lm_resiliency.Protocol.Value.{Value}
use lm_resiliency.Durable.Record.{ReplayResult, replay_result_has_sdc}
use lm_resiliency.Replay.Shapes.{ShapeError, ReplayShape, ReplayShapePlan, shape_ids, identifier}
use lm_resiliency.Replay.Scheduler.{ReplayShapeScheduler, current_shape, advance}
use lm_resiliency.Replay.Turns.{visit, size}
use lm_resiliency.Replay.Saved.{state_round_trip}
use lm_resiliency.Replay.Sweep.{
  Measured, Replay, Round, Swept, merged, sweep, aggregate_shape_cycle, finish, check_shape_cycle,
  check_current_shape, check_shape, checked_shape, then_rest, prepend, Checked,
}
use lm_resiliency.Replay.AllToAll.{AllToAll, attach_all_to_all_replay}
use lm_resiliency.Replay.Merged.{Adds, attach_all_to_all_replay-Adds}
use lm_resiliency.Replay.Coverage.{faulty, IsSwept, sweep-IsSwept}
use lm_resiliency.Replay.Evidence.{IsMerged, merge, aggregate-IsMerged, merged-faulty}

advance-plan : (s : ReplayShapeScheduler) → (advance s).plan ≡ s.plan
unfolding advance
advance-plan s = elim (Bool-cases (s.position + 1 == size s)) [
  | inl last ↦ rw last refl
  | inr before ↦ rw before refl
]

-- The plan of the scheduler stays through a sweep.
then_rest-plan :
    (c : Checked) (rest : Swept) (plan : ReplayShapePlan)
    → c.1.plan ≡ plan
    → rest.1.plan ≡ plan
    → (then_rest c rest).1.plan ≡ plan
then_rest-plan (raise e, t) rest plan h g = h
then_rest-plan (return r, t) rest plan h g = elim (Bool-cases (faulty r)) [
  | inl fault ↦ rw fault h
  | inr clean ↦ rw clean (after rest g)
]
  where
    after : (rest : Swept) → rest.1.plan ≡ plan → (prepend r rest).1.plan ≡ plan
    after (raise e, u) g = g
    after (return rs, u) g = g

check_shape-plan :
    (replay : Replay) (index : ℕ) (o : Option ReplayShape) (s : ReplayShapeScheduler)
    → (check_shape replay index o s).1.plan ≡ s.plan
check_shape-plan replay index none s = refl
check_shape-plan replay index (some shape) s = go (replay index shape)
  where
    go : (m : Result ShapeError Measured) → (checked_shape shape m s).1.plan ≡ s.plan
    go (raise e) = refl
    go (return m) = advance-plan s

pub sweep-plan :
    (replay : Replay) (left index : ℕ) (s : ReplayShapeScheduler)
    → (sweep replay left index s).1.plan ≡ s.plan
unfolding sweep
sweep-plan replay zero index s = refl
sweep-plan replay (suc left) index s =
    let checked = check_current_shape replay index s in
    let same = check_shape-plan replay index (current_shape s) s in
    then_rest-plan checked (sweep replay left (suc index) checked.1) s.plan same
      (sweep-plan replay left (suc index) checked.1 ∙ same)

-- An emergency sweep, which preserves the scheduler, leaves it as it was, whatever the replays and
-- exchanges answer and whether they raise.
pub preserved_schedule :
    (digest : Value → String) (replay : Replay) (exchanges : Option AllToAll) (captured : Bool)
    (s : ReplayShapeScheduler)
    → s.position < size s
    → (check_shape_cycle digest replay exchanges captured true s).1 ≡ s
unfolding check_shape_cycle
preserved_schedule digest replay exchanges false s h = refl
preserved_schedule digest replay exchanges true s h =
    let swept = sweep replay (size s) 0 s in
    let plan : swept.1.plan ≡ s.plan = sweep-plan replay (size s) 0 s in
    ap (λ r. (finish (size s) swept r).1)
      (state_round_trip digest s swept.1 (ap (identifier digest) (sym plan)) (rw plan h))
    ∙ ap (λ p. record s { plan = p }) plan

-- A returned result is about the next turns, of which there are as many as the plan has shapes, unless
-- it shows a divergence. It says of itself whether these are all.
pub record IsSweep (s : ReplayShapeScheduler) (r : ReplayResult) : Type 0 where
  pub turns : ℕ
  pub checked : r.checked_shape_ids ≡ shape_ids (visit turns s)
  pub within : turns ≤ size s
  pub completed : r.completed_shape_cycle ≡ (turns == size s)
  pub clean_is_complete : replay_result_has_sdc r ≡ false → turns ≡ size s

merged-IsSweep :
    (s : ReplayShapeScheduler) (rs : List Round) (r : ReplayResult)
    → IsSwept (size s) s rs
    → IsMerged (size s) rs r
    → IsSweep s r
merged-IsSweep s _ _ swept (merge r rs fit) = record {
  turns = length (r ∷ rs);
  checked = swept.visited;
  within = swept.within;
  completed = refl;
  clean_is_complete = λ clean. elim swept.stopped [
    | inl all ↦ all
    | inr fault ↦
        let dirty = merged-faulty (size s) (r ∷ rs) (merged (size s) r rs) (merge r rs fit) fault in
        absurd (cc)
  ];
}

added-IsSweep :
    (s : ReplayShapeScheduler) (r out : ReplayResult) → IsSweep s r → Adds r out → IsSweep s out
added-IsSweep s r out k adds = record {
  turns = k.turns;
  checked = adds.same_shapes ∙ k.checked;
  within = k.within;
  completed = adds.same_cycle ∙ k.completed;
  clean_is_complete = λ clean. elim (Bool-cases (replay_result_has_sdc r)) [
    | inl fault ↦ let dirty = adds.keeps_faults fault in absurd (cc)
    | inr no_fault ↦ k.clean_is_complete no_fault
  ];
}

finish-eq-return :
    (expected : ℕ) (swept : Swept) (restored : Result ShapeError ReplayShapeScheduler)
    {r : ReplayResult}
    → (finish expected swept restored).0 ≡ return r
    → (swept.0 >>= aggregate_shape_cycle expected) ≡ return r
finish-eq-return expected swept (raise e) h = cc
finish-eq-return expected swept (return u) h = h

-- A sweep that returns a result has replayed the scheduler's next shapes in their order, and its result
-- names these and says whether they are the whole plan. If it shows no divergence, they are.
pub check_shape_cycle-IsSweep :
    (digest : Value → String) (replay : Replay) (exchanges : Option AllToAll)
    (captured preserve : Bool) (s : ReplayShapeScheduler) {r : ReplayResult}
    → (check_shape_cycle digest replay exchanges captured preserve s).0 ≡ return r
    → IsSweep s r
unfolding check_shape_cycle
check_shape_cycle-IsSweep digest replay exchanges false preserve s h = cc
check_shape_cycle-IsSweep digest replay exchanges true preserve s {r} h =
    let (aggregate, made, added) =
      >>=-eq-return (finish (size s) (sweep replay (size s) 0 s) _).0
        (attach_all_to_all_replay exchanges) h in
    let (rs, swept, out) =
      >>=-eq-return (sweep replay (size s) 0 s).0 (aggregate_shape_cycle (size s))
        (finish-eq-return (size s) (sweep replay (size s) 0 s) _ made) in
    added-IsSweep s aggregate r
      (merged-IsSweep s rs aggregate (sweep-IsSwept (size s) replay 0 s rs swept)
        (aggregate-IsMerged (size s) rs aggregate out))
      (attach_all_to_all_replay-Adds exchanges aggregate added)
