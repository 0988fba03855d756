-- ===== src/Replay/Saved.antt =====
-- Saved states of the scheduler, and the identity of a plan.
use lm_resiliency.Base.{
  ℕ, ◌<◌, ◌≡◌, refl, ap, ◌∙◌, true, false, Option, some, none, String, arith, nat_eq, string_eq,
  beq_refl, return, require-eq-return, >>=-eq-return, not,
}
use text.Mathlib.TextEquality.{eq_iff}
use lm_resiliency.Base.Int.{ℤ, pos, negsuc, pos_part}
use lm_resiliency.Protocol.Value.{Value}
use lm_resiliency.Replay.Shapes.{
  ShapeError, plan_mismatch, missing_position, missing_cycle, invalid_state, identifier,
}
use lm_resiliency.Replay.Scheduler.{
  ReplayShapeScheduler, SchedulerState, state_dict, load_state_dict, key, names, is_invalid,
}
use lm_resiliency.Replay.Turns.{size}

valid_position : (p n c : ℕ) → p < n → is_invalid (pos p) (pos c) n ≡ false
valid_position p n c h = ground arith

-- The state that a scheduler saved is restored by any scheduler whose plan has the same identity and
-- at least the position's shapes.
pub state_round_trip :
    (digest : Value → String) (s t : ReplayShapeScheduler)
    → identifier digest s.plan ≡ identifier digest t.plan
    → s.position < size t
    → load_state_dict digest (some (state_dict digest s)) t
      ≡ return (record t { position = s.position; cycle = s.cycle })
unfolding load_state_dict
state_round_trip digest s t same h =
    rw (same, beq_refl (identifier digest t.plan), valid_position s.position (size t) s.cycle h)
      refl

-- What a restored scheduler has of the state.
pub record IsRestored (digest : Value → String) (state : SchedulerState)
    (s t : ReplayShapeScheduler) : Type 0 where
  pub same_plan : t.plan ≡ s.plan
  pub in_range : t.position < size s
  pub named : state.plan_id ≡ some (identifier digest s.plan)
  pub position : state.position ≡ some (pos t.position)
  pub cycle : state.cycle ≡ some (pos t.cycle)

valid_bounds :
    (p c : ℤ) (n : ℕ)
    → not (is_invalid p c n) ≡ true
    → (p ≡ pos (pos_part p)) × (pos_part p < n) × (c ≡ pos (pos_part c))
valid_bounds (pos p) (pos c) n h = (refl, ground arith, refl)
valid_bounds (pos p) (negsuc c) n h = absurd (ground arith)
valid_bounds (negsuc p) c n h = absurd (ground arith)

key-eq-return {ℓ} :
    {A : Type ℓ} (o : Option A) (e : ShapeError) {a : A} → key o e ≡ return a → o ≡ some a
key-eq-return none e h = cc
key-eq-return (some b) e {a} h = let same : b ≡ a = cc in ap some same

names-some : (o : Option String) (id : String) → names o id ≡ true → o ≡ some id
names-some none id h = cc
names-some (some x) id h = ap some ((eq_iff x id).0 h)

-- A state that is restored, and not refused, has the identity of the scheduler's plan, a position in
-- this plan and a cycle, and these are what the scheduler has then. Its plan stays.
pub load_state_dict-IsRestored :
    (digest : Value → String) (state : SchedulerState) (s : ReplayShapeScheduler)
    {t : ReplayShapeScheduler}
    → load_state_dict digest (some state) s ≡ return t
    → IsRestored digest state s t
unfolding load_state_dict
load_state_dict-IsRestored digest state s {t} h =
    let (named, rest) = require-eq-return _ plan_mismatch _ h in
    let (p, has_p, rest1) = >>=-eq-return (key state.position missing_position) _ rest in
    let (c, has_c, rest2) = >>=-eq-return (key state.cycle missing_cycle) _ rest1 in
    let (valid, done) = require-eq-return _ invalid_state _ rest2 in
    let bounds = valid_bounds p c (size s) valid in
    let same : record s { position = pos_part p; cycle = pos_part c } ≡ t = cc in
    rw (← same) (record {
      same_plan = refl;
      in_range = bounds.1;
      named = names-some state.plan_id (identifier digest s.plan) named;
      position = key-eq-return state.position missing_position has_p ∙ ap some bounds.0;
      cycle = key-eq-return state.cycle missing_cycle has_c ∙ ap some bounds.2;
    })
