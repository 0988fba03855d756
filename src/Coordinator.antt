-- ===== src/Coordinator.antt =====
-- lm_resiliency/integrations/torchrun/coordinator.py: `TorchrunRecoveryCoordinator`.
use lm_resiliency.Base.{
  ℕ, suc, ◌+◌, ◌-◌, ◌*◌, ◌≡◌, Bool, true, false, ◌&&◌, ◌||◌, not, List, [], ◌∷◌, ◌++◌, map, Option,
  some, none, String, if◌then◌else◌, ◌==◌, nat_eq, string_eq, Result, return, raise, ltb, leb,
  length, set, get_elem?, all, unique, contains, overlaps,
}
use lm_resiliency.Base.Int.{ℤ, pos, negsuc, ltb_ℤ}
use lm_resiliency.Protocol.Value.{Error, is_blank}
use lm_resiliency.Protocol.Assignment.{SlotAssignment, slot_assignment, node_ids}
use lm_resiliency.Protocol.Plan.{RestartPlan, restart_plan}
use lm_resiliency.PlanStore.Platform.{Platform}
use lm_resiliency.PlanStore.Actions.{
  Problem, Action, invalid_argument, stale_generation, uncommitted_placement, placement_mismatch,
  quarantine_mismatch, topology_mismatch, deadline_passed, bad_replacement, invalid_plan,
  wrong_placement, unhealthy, pure, throw, lift, ensure, present, ◌>>=◌,
}
use lm_resiliency.PlanStore.Publish.{decided, current_generation, read, publish, renew_plan_lease}
use lm_resiliency.PlanStore.Registry.{List_String-discrete, read_initial_nodes, registered_nodes}
pub mod Placement
pub mod History
pub mod Planning

pub record Request : Type 0 where
  pub plan_id : String
  pub intent_id : String
  pub reason_code : String
  pub recovery_mode : String
  pub checkpoint_source : String
  pub checkpoint_step : ℤ
  pub checkpoint_manifest_id : String
  pub topology_digest : String
  pub restart_deadline_unix_ms : ℤ
  pub checkpoint_id : Option String

pub record SuccessorPlacement : Type 0 where
  pub generation : ℕ
  pub active_node_ids : List String
  pub quarantined_node_ids : List String

pub record InitialPlacement : Type 0 where
  pub active_node_ids : List String
  pub standby_node_ids : List String

-- An integer argument that is at least a minimum.
abbrev pub at_least : ℕ → ℤ → Option ℕ
at_least minimum (pos n) = if leb minimum n then some n else none
at_least minimum (negsuc n) = none

abbrev pub non_empty : List String → Bool
non_empty [] = false
non_empty (n ∷ ns) = true

-- The argument checks that need no store.
unfoldable pub check_nodes : List String → List String → Bool
check_nodes active quarantined =
    (non_empty active && unique active) && (unique quarantined && not (overlaps active quarantined))

-- The nodes of the successor: `active[slot] = replacement; quarantined.append(failed)`.
abbrev pub replaced :
    List String → List String → ℕ → String → Option String → Option (List String × List String)
replaced active quarantined slot node none = none
replaced active quarantined slot node (some failed) =
    if contains active node || contains quarantined node
    then none
    else some (set active slot node, quarantined ++ failed ∷ [])

unfoldable pub replace_node :
    List String → List String → ℕ → String → Option (List String × List String)
replace_node active quarantined slot node =
    replaced active quarantined slot node (get_elem? active slot)

-- `for slot, node_id in enumerate(active)`
abbrev pub assignment_at : ℕ → ℕ → String → SlotAssignment
assignment_at size slot node = record {
  logical_node_slot = slot;
  node_id = node;
  first_global_rank = slot * size;
  local_world_size = size;
}

abbrev pub and_then :
    Result Error SlotAssignment
    → Result Error (List SlotAssignment)
    → Result Error (List SlotAssignment)
and_then (return a) (return rest) = return (a ∷ rest)
and_then (raise e) _ = raise e
and_then (return a) (raise e) = raise e

unfoldable pub slot_assignments : ℕ → ℕ → List String → Result Error (List SlotAssignment)
slot_assignments size slot [] = return []
slot_assignments size slot (n ∷ ns) =
    and_then (slot_assignment (assignment_at size slot n)) (slot_assignments size (suc slot) ns)

abbrev pub plan_for : String → Request → ℕ → ℕ → List SlotAssignment → ℕ → List String → RestartPlan
plan_for run_id request generation size slots count quarantined = record {
  plan_id = request.plan_id;
  intent_id = request.intent_id;
  run_id = run_id;
  from_generation = generation;
  to_generation = generation + 1;
  incident_ids = request.intent_id ∷ [];
  reason_code = request.reason_code;
  recovery_mode = request.recovery_mode;
  checkpoint_source = request.checkpoint_source;
  checkpoint_step = request.checkpoint_step;
  checkpoint_id = request.checkpoint_id;
  checkpoint_manifest_id = request.checkpoint_manifest_id;
  slot_assignments = slots;
  quarantined_node_ids = quarantined;
  expected_world_size = count * size;
  topology_digest = request.topology_digest;
  restart_deadline_unix_ms = request.restart_deadline_unix_ms;
}

abbrev pub planned :
    String
    → Request
    → ℕ
    → ℕ
    → ℕ
    → List String
    → Result Error (List SlotAssignment)
    → Result Error RestartPlan
planned run_id request generation size count quarantined (raise e) = raise e
planned run_id request generation size count quarantined (return slots) =
    restart_plan (plan_for run_id request generation size slots count quarantined)

-- The plan of lines 193 to 220.
unfoldable pub build_plan :
    String → Request → ℕ → ℕ → List String → List String → Result Error RestartPlan
build_plan run_id request generation size active quarantined =
    planned run_id request generation size (length active) quarantined
      (slot_assignments size 0 active)

-- What a committed plan says of the placement and the topology.
abbrev pub first_size : List SlotAssignment → ℕ
first_size [] = 0
first_size (a ∷ rest) = a.local_world_size

abbrev as_problem : Result Error RestartPlan → Result Problem RestartPlan
as_problem (return p) = return p
as_problem (raise e) = raise invalid_plan

module _ (p : Platform) (run_id : String) where
  open p use {State}

  abbrev committed_plan :
      Request → ℕ → Option RestartPlan → Result Problem (List String × List String)
  committed_plan request size none = raise uncommitted_placement
  committed_plan request size (some plan) =
      if size == first_size plan.slot_assignments && request.topology_digest == plan.topology_digest
      then return (node_ids plan.slot_assignments, plan.quarantined_node_ids)
      else raise topology_mismatch

  abbrev initial_nodes : Option (List String) → Result Problem (List String × List String)
  initial_nodes none = raise uncommitted_placement
  initial_nodes (some ns) = return (ns, [])

  -- The placement that the store holds for a generation, and the quarantine history with it.
  unfoldable pub committed_placement : Request → ℕ → ℕ → Action State (List String × List String)
  committed_placement request generation size =
      if generation == 0
      then (do ns ← read_initial_nodes p run_id; lift (initial_nodes ns))
      else (do plan ← read p run_id generation; lift (committed_plan request size plan))

  unfoldable pub successor_nodes :
      List String → List String → Option (ℤ × String) → Action State (List String × List String)
  successor_nodes active quarantined none = pure (active, quarantined)
  successor_nodes active quarantined (some (slot, node)) = do
    slot ← present (at_least 0 slot) bad_replacement
    ensure (ltb slot (length active) && not (is_blank node)) bad_replacement do
      next ← present (replace_node active quarantined slot node) bad_replacement
      known ← registered_nodes p run_id none
      ensure (contains known node) bad_replacement (pure next)

  -- The first lease is published at once; a failure is left to the renewal thread.
  unfoldable pub start_plan_lease :
      (String → String) → RestartPlan → ℤ → ℕ → Action State (Unit {0})
  start_plan_lease key plan (pos deadline) now s =
      (return tt, (renew_plan_lease p run_id key plan (pos (deadline - now)) s).1)
  start_plan_lease key plan (negsuc d) now s = (return tt, s)

  unfoldable pub commit_successor :
      (String → String)
      → ℕ
      → Request
      → ℕ
      → ℕ
      → List String × List String
      → Action State SuccessorPlacement
  commit_successor key now request generation size (active, quarantined) = do
    plan ← lift (as_problem (build_plan run_id request generation size active quarantined))
    published ← publish p run_id plan
    leased ← start_plan_lease key plan request.restart_deadline_unix_ms now
    pure (record {
      generation = plan.to_generation;
      active_node_ids = active;
      quarantined_node_ids = quarantined;
    })

  -- `key` hashes a plan's identity, `now` is the wall clock in ms, and `failed` is the lease thread's error.
  unfoldable pub publish_successor :
      (String → String)
      → ℕ
      → Bool
      → ℤ
      → List String
      → List String
      → Request
      → ℤ
      → Option (ℤ × String)
      → Action State SuccessorPlacement
  publish_successor key now failed given active quarantined request workers replacement =
      ensure (not failed) unhealthy do
        generation ← present (at_least 0 given) invalid_argument
        size ← present (at_least 1 workers) invalid_argument
        ensure (check_nodes active quarantined) invalid_argument do
          current ← current_generation p run_id
          ensure (current == generation) stale_generation do
            (nodes, history) ← committed_placement request generation size
            ensure (decided (List_String-discrete active nodes)) placement_mismatch (
                ensure (decided (List_String-discrete quarantined history)) quarantine_mismatch (
                  ensure (ltb_ℤ (pos now) request.restart_deadline_unix_ms) deadline_passed do
                    next ← successor_nodes active quarantined replacement
                    commit_successor key now request generation size next))

  abbrev standbys : List String → List String → List String
  standbys active [] = []
  standbys active (n ∷ ns) =
      let rest = standbys active ns in if contains active n then rest else n ∷ rest

  unfoldable pub initial_placement : Bool → ℤ → ℤ → Action State (Option InitialPlacement)
  initial_placement failed active_count allocated_count = ensure (not failed) unhealthy do
    wanted ← present (at_least 1 active_count) invalid_argument
    allocated ← present (at_least wanted allocated_count) invalid_argument
    active ← read_initial_nodes p run_id
    placement_of wanted allocated active
    where
      complete : ℕ → ℕ → List String → List String → Action State (Option InitialPlacement)
      complete wanted allocated active registered =
          if ltb (length registered) allocated
          then pure none
          else ensure (length active == wanted) wrong_placement (
              ensure (length (standbys active registered) == allocated - wanted) wrong_placement (
                pure (
                  some (record {
                    active_node_ids = active;
                    standby_node_ids = standbys active registered;
                  }))))

      placement_of : ℕ → ℕ → Option (List String) → Action State (Option InitialPlacement)
      placement_of wanted allocated none = pure none
      placement_of wanted allocated (some active) = do
        registered ← registered_nodes p run_id (some allocated)
        complete wanted allocated active registered
