-- ===== src/PlanStore/Publish.antt =====
-- `SimpleRecoveryPlanStore`: the current generation, reading, publishing and renewing plans.
use lm_resiliency.Base.{
  ℕ, ◌+◌, ◌≡◌, refl, Bool, true, false, ◌&&◌, ◌||◌, List, Option, some, none, String, if◌then◌else◌,
  ◌==◌, nat_eq, string_eq, Result, return, raise, ltb, leb,
}
use lm_resiliency.Base.Int.{ℤ, pos, negsuc}
use lm_resiliency.Base.Discrete.{String-discrete, ℤ-discrete}
use native.Mathlib.Decide.{ℕ_discrete}
use lm_resiliency.Protocol.Value.{Value, Fields, Items, object, field, end, int, mapping}
use lm_resiliency.Protocol.Assignment.{SlotAssignment}
use lm_resiliency.Protocol.Plan.{RestartPlan, plan_to_dict, plan_from_dict}
use lm_resiliency.PlanStore.Platform.{
  Platform, Key, generation, plan_key, lease_key, lease_sequence_key, closed,
}
use lm_resiliency.PlanStore.Actions.{
  Problem, Action, missing_key, corrupt_generation, corrupt_plan, corrupt_lease, invalid_argument,
  wrong_run, conflict, pure, throw, lift, ensure, present, ◌>>=◌,
}
pub mod Immutable
pub mod Commit
pub mod Progress
pub mod Trusted

SlotAssignment-discrete : Discrete SlotAssignment
SlotAssignment-discrete = hlevel (ℕ_discrete, String-discrete)

unfoldable pub RestartPlan-discrete : Discrete RestartPlan
unfolding SlotAssignment-discrete
RestartPlan-discrete = hlevel (ℕ_discrete, String-discrete, ℤ-discrete, SlotAssignment-discrete)

abbrev pub decided {ℓ} : {A : Type ℓ} → Dec A → Bool
decided (yes a) = true
decided (no n) = false

abbrev pub or_else {ℓ} : {A : Type ℓ} → Option A → A → A
or_else none d = d
or_else (some a) d = a

-- A plan that is there and is this one.
abbrev pub is_plan : Option RestartPlan → RestartPlan → Bool
is_plan none plan = false
is_plan (some p) plan = decided (RestartPlan-discrete p plan)

module _ (p : Platform) (run_id : String) where
  open p use {Bytes, bytes_discrete, empty, dumps, loads, ascii, int_of, State, view}

  -- The value after the exchange; a missing key that was not created answers with the expectation.
  abbrev pub exchange : Key → Bytes → Bytes → Action State Bytes
  exchange k expected new s =
      let after = p.compare_set s k expected new in
      (return (or_else (view after k) expected), after)

  abbrev pub natural : Option ℤ → Result Problem ℕ
  natural (some (pos n)) = return n
  natural _ = raise corrupt_generation

  unfoldable pub decode_generation : Bytes → Result Problem ℕ
  decode_generation encoded = natural (int_of encoded)

  -- `self._store.get(key)` times out on a key that is never set.
  abbrev pub generation_in : Option Bytes → Result Problem ℕ
  generation_in none = raise missing_key
  generation_in (some encoded) = decode_generation encoded

  unfoldable pub current_generation : Action State ℕ
  current_generation s = (generation_in (view s generation), s)

  abbrev pub identified : ℕ → Bytes → RestartPlan → Result Problem RestartPlan
  identified expected encoded plan =
      if decided (bytes_discrete (dumps (plan_to_dict plan)) encoded)
        && (plan.run_id == run_id && plan.to_generation == expected)
      then return plan
      else raise corrupt_plan

  abbrev pub parse_plan : Value → Option RestartPlan
  parse_plan v = elim (mapping v "RestartPlan") [
    | raise _ ↦ none
    | return fields ↦ elim (plan_from_dict fields) [ raise _ ↦ none | return plan ↦ some plan ]
  ]

  abbrev pub parsed : ℕ → Bytes → Option RestartPlan → Result Problem RestartPlan
  parsed expected encoded none = raise corrupt_plan
  parsed expected encoded (some plan) = identified expected encoded plan

  abbrev pub document : ℕ → Bytes → Option Value → Result Problem RestartPlan
  document expected encoded none = raise corrupt_plan
  document expected encoded (some v) = parsed expected encoded (parse_plan v)

  -- A persisted plan is refused unless it is canonical JSON with this run and generation.
  unfoldable pub decode_plan : Bytes → ℕ → Result Problem RestartPlan
  decode_plan encoded expected = document expected encoded (loads encoded)

  abbrev pub found : Result Problem RestartPlan → Result Problem (Option RestartPlan)
  found (return plan) = return (some plan)
  found (raise e) = raise e

  abbrev pub read_encoded : Option Bytes → ℕ → Result Problem (Option RestartPlan)
  read_encoded none g = return none
  read_encoded (some encoded) g = found (decode_plan encoded g)

  unfoldable pub read : ℕ → Action State (Option RestartPlan)
  read g s = (if ltb g 1 then return none else read_encoded (view s (plan_key g)) g, s)

  abbrev pub agrees : RestartPlan → Result Problem RestartPlan → Result Problem (Unit {0})
  agrees plan (raise e) = raise e
  agrees plan (return existing) = if is_plan (some existing) plan then return tt else raise conflict

  -- The plan that stands under its generation's key, which this call or an earlier one created.
  unfoldable pub confirm_plan : RestartPlan → Bytes → Result Problem (Unit {0})
  confirm_plan plan stored =
      if decided (bytes_discrete stored (dumps (plan_to_dict plan)))
      then return tt
      else agrees plan (decode_plan stored plan.to_generation)

  unfoldable pub commit_plan : RestartPlan → Action State (Unit {0})
  commit_plan plan = do
    stored ← exchange (plan_key plan.to_generation) empty (dumps (plan_to_dict plan))
    lift (confirm_plan plan stored)

  abbrev pub reached : RestartPlan → Result Problem ℕ → Result Problem (Unit {0})
  reached plan (raise e) = raise e
  reached plan (return observed) =
      if observed == plan.to_generation then return tt else raise conflict

  unfoldable pub confirm_generation : RestartPlan → Bytes → Result Problem (Unit {0})
  confirm_generation plan current = reached plan (decode_generation current)

  unfoldable pub advance : RestartPlan → Action State (Unit {0})
  advance plan = do
    current ← exchange generation (ascii plan.from_generation) (ascii plan.to_generation)
    lift (confirm_generation plan current)

  unfoldable pub publish_at : ℕ → RestartPlan → Action State (Unit {0})
  publish_at current plan =
      if current == plan.to_generation
      then (do
        committed ← read plan.to_generation
        ensure (is_plan committed plan) conflict (pure tt))
      else ensure (current == plan.from_generation) conflict
          (do done ← commit_plan plan; advance plan)

  unfoldable pub publish : RestartPlan → Action State (Unit {0})
  publish plan =
      ensure (plan.run_id == run_id) wrong_run
        (do current ← current_generation; publish_at current plan)

  abbrev pub lease_document : ℕ → ℕ → Value
  lease_document remaining sequence = object (
      field "remaining_ms" (int (pos remaining))
        (field "schema_version" (int (pos 1)) (field "sequence" (int (pos sequence)) end)))

  -- `self._store.add(key, 1)` and `self._store.set(key, value)`
  abbrev pub next_number : Key → Action State ℕ
  next_number k s = let (after, n) = p.add s k 1 in (return n, after)

  abbrev pub write : Key → Bytes → ℕ → Action State ℕ
  write k b n s = (return n, p.set s k b)

  -- The lease of a committed plan: the next number of its sequence, and the time that is left.
  unfoldable pub renew_plan_lease : (String → String) → RestartPlan → ℤ → Action State ℕ
  renew_plan_lease key plan (negsuc n) =
      ensure (plan.run_id == run_id) wrong_run (throw invalid_argument)
  renew_plan_lease key plan (pos remaining) = ensure (plan.run_id == run_id) wrong_run do
    committed ← read plan.to_generation
    ensure (is_plan committed plan) conflict do
      sequence ← next_number (lease_sequence_key plan.to_generation (key plan.plan_id))
      ensure (leb 1 sequence) corrupt_lease (
          write (lease_key plan.to_generation (key plan.plan_id))
            (dumps (lease_document remaining sequence)) sequence)

  unfoldable pub close_run : State → State
  close_run s = p.set s closed (ascii 1)
