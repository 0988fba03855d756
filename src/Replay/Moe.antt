-- ===== src/Replay/Moe.antt =====
-- detection/moe_regimes.py: `MoEReplayScheduler`, on the recipes of its catalog. Steps are counted from 0;
-- a step below 0 is before the first replay as 0 is.
use lm_resiliency.Base.{
  ℕ, ◌+◌, ◌-◌, ◌*◌, ◌%◌, Bool, not, List, Option, some, none, String, if◌then◌else◌, ◌==◌, nat_eq,
  string_eq, get_elem?, length, ltb, Result, return, require, ◌>>=◌, ◌>>◌,
}
use lm_resiliency.Base.Int.{pos, pos_part}
use lm_resiliency.Replay.Scheduler.{SchedulerState, key, names, is_invalid}
use lm_resiliency.Replay.Shapes.{
  ShapeError, plan_mismatch, missing_position, missing_cycle, invalid_state,
}

pub data ScheduleError : Type 0 where
  interval_not_positive first_step_not_positive : ScheduleError

pub record MoEReplayScheduler {ℓ} (A : Type ℓ) : Type ℓ where
  pub catalog_id : String
  pub replay_recipes : List A
  pub replay_interval : ℕ
  pub first_replay_step : ℕ
  pub position : ℕ
  pub cycle : ℕ

pub record ScheduledReplay {ℓ} (A : Type ℓ) : Type ℓ where
  pub recipe : A
  pub position : ℕ
  pub cycle : ℕ
  pub completes_cycle : Bool

abbrev or_else : Option ℕ → ℕ → ℕ
or_else none n = n
or_else (some k) n = k

abbrev pub Scheduled {ℓ} : Type ℓ → Type ℓ
Scheduled A = Option (ScheduledReplay A) × MoEReplayScheduler A

module _ {ℓ} {A : Type ℓ} where
  abbrev pub moe_scheduler :
      String → List A → ℕ → Option ℕ → Result ScheduleError (MoEReplayScheduler A)
  moe_scheduler id recipes interval first =
      require (not (ltb interval 1)) interval_not_positive
      >> require (not (ltb (or_else first interval) 1)) first_step_not_positive
      >> return (record {
        catalog_id = id;
        replay_recipes = recipes;
        replay_interval = interval;
        first_replay_step = or_else first interval;
        position = 0;
        cycle = 0;
      })

  abbrev pub detection_bound_steps : MoEReplayScheduler A → ℕ
  detection_bound_steps s = length s.replay_recipes * s.replay_interval

  abbrev pub scheduled : MoEReplayScheduler A → Option A → Scheduled A
  scheduled s none = (none, s)
  scheduled s (some recipe) =
      let completes = s.position + 1 == length s.replay_recipes in
      (
        some (record {
          recipe = recipe;
          position = s.position;
          cycle = s.cycle;
          completes_cycle = completes;
        }),
        record s {
          position = (s.position + 1) % length s.replay_recipes;
          cycle = if completes then s.cycle + 1 else s.cycle;
        },
      )

  -- The first part is `none` for an index out of range.
  unfoldable pub next_recipe : MoEReplayScheduler A → Scheduled A
  next_recipe s = scheduled s (get_elem? s.replay_recipes s.position)

  unfoldable pub recipe_for_step : ℕ → MoEReplayScheduler A → Scheduled A
  recipe_for_step step s =
      if ltb step s.first_replay_step
      then (none, s)
      else if not ((step - s.first_replay_step) % s.replay_interval == 0)
      then (none, s)
      else next_recipe s

  abbrev pub moe_state_dict : MoEReplayScheduler A → SchedulerState
  moe_state_dict s = record {
    plan_id = some s.catalog_id;
    position = some (pos s.position);
    cycle = some (pos s.cycle);
  }

  unfoldable pub load_moe_state :
      SchedulerState → MoEReplayScheduler A → Result ShapeError (MoEReplayScheduler A)
  load_moe_state state s =
      require (names state.plan_id s.catalog_id) plan_mismatch
      >> (key state.position missing_position >>= λ position.
          key state.cycle missing_cycle >>= λ cycle.
          require (not (is_invalid position cycle (length s.replay_recipes))) invalid_state
          >> return (record s { position = pos_part position; cycle = pos_part cycle }))
