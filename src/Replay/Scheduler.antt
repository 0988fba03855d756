-- ===== src/Replay/Scheduler.antt =====
-- detection/replay_shapes.py: `ReplayShapeScheduler`.
use lm_resiliency.Base.{
  ℕ, ◌+◌, Bool, false, ◌&&◌, ◌||◌, not, Option, some, none, String, if◌then◌else◌, ◌==◌, nat_eq,
  string_eq, get_elem?, length, Result, return, raise, require, ◌>>=◌, ◌>>◌,
}
use lm_resiliency.Base.Int.{ℤ, pos, ltb_ℤ, pos_part}
use lm_resiliency.Protocol.Value.{Value}
use lm_resiliency.Replay.Shapes.{
  ShapeError, plan_mismatch, missing_position, missing_cycle, invalid_state, ReplayShape,
  ReplayShapePlan, identifier,
}

pub record ReplayShapeScheduler : Type 0 where
  pub plan : ReplayShapePlan
  pub position : ℕ
  pub cycle : ℕ

abbrev pub scheduler : ReplayShapePlan → ReplayShapeScheduler
scheduler plan = record { plan = plan; position = 0; cycle = 0 }

-- `none` for an index out of range.
abbrev pub current_shape : ReplayShapeScheduler → Option ReplayShape
current_shape s = get_elem? s.plan.shapes s.position

unfoldable pub advance : ReplayShapeScheduler → ReplayShapeScheduler
advance s =
    if s.position + 1 == length s.plan.shapes
    then record s { position = 0; cycle = s.cycle + 1 }
    else record s { position = s.position + 1 }

-- A saved state; `none` is a key that is not there.
pub record SchedulerState : Type 0 where
  pub plan_id : Option String
  pub position : Option ℤ
  pub cycle : Option ℤ

abbrev pub state_dict : (Value → String) → ReplayShapeScheduler → SchedulerState
state_dict digest s = record {
  plan_id = some (identifier digest s.plan);
  position = some (pos s.position);
  cycle = some (pos s.cycle);
}

abbrev pub key {ℓ} : {A : Type ℓ} → Option A → ShapeError → Result ShapeError A
key none e = raise e
key (some a) e = return a

abbrev pub names : Option String → String → Bool
names none id = false
names (some x) id = x == id

-- `not 0 <= position < len(self.plan.shapes) or cycle < 0`
abbrev pub is_invalid : ℤ → ℤ → ℕ → Bool
is_invalid position cycle size =
    not (not (ltb_ℤ position (pos 0)) && ltb_ℤ position (pos size)) || ltb_ℤ cycle (pos 0)

-- The empty state, `none`, is taken for no state.
unfoldable pub load_state_dict :
    (Value → String)
    → Option SchedulerState
    → ReplayShapeScheduler
    → Result ShapeError ReplayShapeScheduler
load_state_dict digest none s = return s
load_state_dict digest (some state) s =
    require (names state.plan_id (identifier digest s.plan)) plan_mismatch
    >> (key state.position missing_position >>= λ position.
        key state.cycle missing_cycle >>= λ cycle.
        require (not (is_invalid position cycle (length s.plan.shapes))) invalid_state
        >> return (record s { position = pos_part position; cycle = pos_part cycle }))
