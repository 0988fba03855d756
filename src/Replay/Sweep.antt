-- ===== src/Replay/Sweep.antt =====
-- detection/replay_harness.py: `_check_current_shape`, `check_shape_cycle` where the workload has a plan
-- of shapes, and `_aggregate_shape_cycle`, as far as certification reads the result. What a replay of
-- one shape measures, or that it raises, is an argument.
use lm_resiliency.Base.{
  ℕ, zero, suc, Bool, true, false, ◌&&◌, not, List, [], ◌∷◌, ◌++◌, map, Option, some, none, String,
  if◌then◌else◌, ◌==◌, nat_eq, string_eq, length, ltb, any, Result, return, raise, ◌>>=◌,
  range_from, get_elem?,
}
use lm_resiliency.Protocol.Value.{Value}
use lm_resiliency.Durable.Record.{C3Status, ReplayResult, replay_result_has_sdc}
use lm_resiliency.Replay.Shapes.{
  ShapeError, out_of_range, nothing_captured, no_results, different_widths, ReplayShape,
}
use lm_resiliency.Replay.AllToAll.{AllToAll, attach_all_to_all_replay}
use lm_resiliency.Replay.Scheduler.{
  ReplayShapeScheduler, current_shape, advance, state_dict, load_state_dict,
}

-- What a replay measures: for each peer a bit of corruption and one of delay, and the verdicts of the
-- sources of evidence.
pub record Measured : Type 0 where
  pub bits : List ℕ
  pub stragglers : List ℕ
  pub statuses : List C3Status

-- The answer of a replay of a shape, which is the first of its sweep or a later one.
abbrev pub Replay : Type 0
Replay = ℕ → ReplayShape → Result ShapeError Measured

-- The part of a result that certification reads, and the delays.
pub record Round : Type 0 where
  pub result : ReplayResult
  pub straggler_bitmap : List ℕ

abbrev pub Checked : Type 0
Checked = Result ShapeError Round × ReplayShapeScheduler

abbrev pub round_of : ReplayShape → Measured → ReplayShapeScheduler → ReplayShapeScheduler → Round
round_of shape found s t = record {
  result = record {
    sdc_bitmap = found.bits;
    c3_statuses = found.statuses;
    checked_shape_ids = shape.shape_id ∷ [];
    completed_shape_cycle = length s.plan.shapes == 1;
    completed_scheduled_cycle = ltb s.cycle t.cycle;
    dense_replay = false;
  };
  straggler_bitmap = found.stragglers;
}

-- The scheduler advances after the replay, and only if it did not raise.
abbrev pub checked_shape : ReplayShape → Result ShapeError Measured → ReplayShapeScheduler → Checked
checked_shape shape (raise e) s = (raise e, s)
checked_shape shape (return found) s = (return (round_of shape found s (advance s)), advance s)

abbrev pub check_shape : Replay → ℕ → Option ReplayShape → ReplayShapeScheduler → Checked
check_shape replay index none s = (raise out_of_range, s)
check_shape replay index (some shape) s = checked_shape shape (replay index shape) s

abbrev pub check_current_shape : Replay → ℕ → ReplayShapeScheduler → Checked
check_current_shape replay index s = check_shape replay index (current_shape s) s

abbrev pub Swept : Type 0
Swept = Result ShapeError (List Round) × ReplayShapeScheduler

abbrev pub prepend : Round → Swept → Swept
prepend r (raise e, s) = (raise e, s)
prepend r (return rs, s) = (return (r ∷ rs), s)

-- After a round: an exception or a fault ends the sweep, and else the rest follows.
abbrev pub then_rest : Checked → Swept → Swept
then_rest (raise e, t) rest = (raise e, t)
then_rest (return r, t) rest =
    if replay_result_has_sdc r.result then (return (r ∷ []), t) else prepend r rest

-- The loop over `range(expected)`, with the rounds that are left and the index of the next.
unfoldable pub sweep : Replay → ℕ → ℕ → ReplayShapeScheduler → Swept
sweep replay zero index s = (return [], s)
sweep replay (suc left) index s =
    let checked = check_current_shape replay index s in
    let rest = sweep replay left (suc index) checked.1 in then_rest checked rest

abbrev pub is_set : ℕ → Bool
is_set bit = not (bit == 0)

abbrev pub set_at : List ℕ → ℕ → Bool
set_at bits index = elim (get_elem? bits index) [ none ↦ false | some bit ↦ is_set bit ]

-- `int(any(result.sdc_bitmap[index] for result in results))`
abbrev pub column : List Round → ℕ → ℕ
column rs index = if any (λ r. set_at r.result.sdc_bitmap index) rs then 1 else 0

abbrev pub joined {ℓ} : {A : Type ℓ} → (Round → List A) → List Round → List A
joined f [] = []
joined f (r ∷ rs) = f r ++ joined f rs

abbrev pub fits : ℕ → Round → Bool
fits width r = length r.result.sdc_bitmap == width && length r.straggler_bitmap == width

abbrev pub unfit : Round → List Round → Bool
unfit r rs = let width = length r.result.sdc_bitmap in any (λ x. not (fits width x)) (r ∷ rs)

-- The source names each verdict by its shape and its source; shapes are distinct, so none replaces another.
abbrev pub merged : ℕ → Round → List Round → ReplayResult
merged expected r rs = record {
  sdc_bitmap = map (column (r ∷ rs)) (range_from 0 (length r.result.sdc_bitmap));
  c3_statuses = joined (λ x. x.result.c3_statuses) (r ∷ rs);
  checked_shape_ids = joined (λ x. x.result.checked_shape_ids) (r ∷ rs);
  completed_shape_cycle = length (r ∷ rs) == expected;
  completed_scheduled_cycle = any (λ x. x.result.completed_scheduled_cycle) (r ∷ rs);
  dense_replay = r.result.dense_replay;
}

unfoldable pub aggregate_shape_cycle : ℕ → List Round → Result ShapeError ReplayResult
aggregate_shape_cycle expected [] = raise no_results
aggregate_shape_cycle expected (r ∷ rs) =
    if unfit r rs then raise different_widths else return (merged expected r rs)

abbrev pub Cycled : Type 0
Cycled = Result ShapeError ReplayResult × ReplayShapeScheduler

-- The `finally` clause restores the scheduler, or raises itself.
abbrev pub finish : ℕ → Swept → Result ShapeError ReplayShapeScheduler → Cycled
finish expected swept (raise e) = (raise e, swept.1)
finish expected swept (return u) = (swept.0 >>= aggregate_shape_cycle expected, u)

abbrev pub attached : Option AllToAll → Cycled → Cycled
attached a c = (c.0 >>= attach_all_to_all_replay a, c.1)

-- What is measured of the exchanges, if there is a policy for them; and the flags: whether an invocation
-- has been captured, and `preserve_scheduler`. The choice of the next layer is left out.
unfoldable pub check_shape_cycle :
    (Value → String) → Replay → Option AllToAll → Bool → Bool → ReplayShapeScheduler → Cycled
check_shape_cycle digest replay exchanges false preserve s = (raise nothing_captured, s)
check_shape_cycle digest replay exchanges true preserve s =
    let expected = length s.plan.shapes in
    let swept = sweep replay expected 0 s in
    attached exchanges (
      finish expected swept (
        if preserve
        then load_state_dict digest (some (state_dict digest s)) swept.1
        else return swept.1))
