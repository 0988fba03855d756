-- ===== src/Protocol/Context.antt =====
-- _protocol.py: `RestartContext`, the node-local part of one committed plan.
use lm_resiliency.Base.{
  ℕ, ◌+◌, ◌*◌, ◌%◌, ◌≡◌, Bool, true, false, not, List, [], ◌∷◌, Option, none, some, String, leb,
  if◌then◌else◌, ◌==◌, nat_eq, string_eq, Result, return, raise, require, ◌>>=◌, ◌>>◌,
}
use lm_resiliency.Base.Int.{ℤ, pos}
use lm_resiliency.Protocol.Value.{
  Value, Fields, int, str, object, end, field, at, string, optional_string, integer, choice,
  record_fields, Error, invalid, durable_needs_id, gemini_has_id, first_rank_mismatch,
  incomplete_slots, rank_range_exceeds, not_assigned,
}
use lm_resiliency.Protocol.Assignment.{SlotAssignment}
use lm_resiliency.Protocol.Plan.{
  RestartPlan, check_text, check_number, check_choice, check_optional, optional, is_none, modes,
  sources,
}
pub mod Accepted
pub mod Derivation

pub record RestartContext : Type 0 where
  pub plan_id : String
  pub run_id : String
  pub generation : ℕ
  pub node_id : String
  pub logical_node_slot : ℕ
  pub first_global_rank : ℕ
  pub local_world_size : ℕ
  pub expected_world_size : ℕ
  pub topology_digest : String
  pub recovery_mode : String
  pub checkpoint_source : String
  pub checkpoint_step : ℤ
  pub checkpoint_id : Option String
  pub checkpoint_manifest_id : String
  pub reason_code : String
  pub restart_deadline_monotonic_ns : ℤ

-- `__post_init__`, lines 437 to 466: the node and its ranks.
unfoldable pub check_ranks : RestartContext → Result Error (Unit {0})
check_ranks c = do
  check_text c.plan_id "RestartContext.plan_id"
  check_text c.run_id "RestartContext.run_id"
  check_number (pos c.generation) "RestartContext.generation" 1
  check_text c.node_id "RestartContext.node_id"
  check_number (pos c.logical_node_slot) "RestartContext.logical_node_slot" 0
  check_number (pos c.first_global_rank) "RestartContext.first_global_rank" 0
  check_number (pos c.local_world_size) "RestartContext.local_world_size" 1
  require (c.first_global_rank == c.logical_node_slot * c.local_world_size)
      (invalid "RestartContext.first_global_rank" first_rank_mismatch)
  check_number (pos c.expected_world_size) "RestartContext.expected_world_size" 1
  require (c.expected_world_size % c.local_world_size == 0)
      (invalid "RestartContext.expected_world_size" incomplete_slots)
  require (leb (c.first_global_rank + c.local_world_size) c.expected_world_size)
      (invalid "RestartContext" rank_range_exceeds)
  check_text c.topology_digest "RestartContext.topology_digest"

-- Lines 467 to 493: the checkpoint, the reason and the deadline.
unfoldable pub check_recovery : RestartContext → Result Error (Unit {0})
check_recovery c = do
  check_choice c.recovery_mode "RestartContext.recovery_mode" modes
  check_choice c.checkpoint_source "RestartContext.checkpoint_source" sources
  check_number c.checkpoint_step "RestartContext.checkpoint_step" 1
  check_optional c.checkpoint_id "RestartContext.checkpoint_id"
  require (if c.checkpoint_source == "durable" then not (is_none c.checkpoint_id) else true)
      (invalid "RestartContext.checkpoint_id" durable_needs_id)
  require (if c.checkpoint_source == "gemini" then is_none c.checkpoint_id else true)
      (invalid "RestartContext.checkpoint_id" gemini_has_id)
  check_text c.checkpoint_manifest_id "RestartContext.checkpoint_manifest_id"
  check_text c.reason_code "RestartContext.reason_code"
  check_number c.restart_deadline_monotonic_ns "RestartContext.restart_deadline_monotonic_ns" 1

unfoldable pub restart_context : RestartContext → Result Error RestartContext
restart_context c = do check_ranks c; check_recovery c; return c

-- The first assignment of a node.
abbrev pub find_node : List SlotAssignment → String → Option SlotAssignment
find_node [] node = none
find_node (a ∷ rest) node = if a.node_id == node then some a else find_node rest node

abbrev pub context_of : RestartPlan → SlotAssignment → ℤ → RestartContext
context_of p a deadline = record {
  plan_id = p.plan_id;
  run_id = p.run_id;
  generation = p.to_generation;
  node_id = a.node_id;
  logical_node_slot = a.logical_node_slot;
  first_global_rank = a.first_global_rank;
  local_world_size = a.local_world_size;
  expected_world_size = p.expected_world_size;
  topology_digest = p.topology_digest;
  recovery_mode = p.recovery_mode;
  checkpoint_source = p.checkpoint_source;
  checkpoint_step = p.checkpoint_step;
  checkpoint_id = p.checkpoint_id;
  checkpoint_manifest_id = p.checkpoint_manifest_id;
  reason_code = p.reason_code;
  restart_deadline_monotonic_ns = deadline;
}

unfoldable pub from_plan : RestartPlan → String → ℤ → Result Error RestartContext
from_plan p node deadline = elim (find_node p.slot_assignments node) [
  | none ↦ raise (invalid "RestartContext" not_assigned)
  | some a ↦ restart_context (context_of p a deadline)
]

unfoldable pub context_to_dict : RestartContext → Value
context_to_dict c = object (
    field "schema_version" (int (pos 1)) (
      field "plan_id" (str c.plan_id) (
        field "run_id" (str c.run_id) (
          field "generation" (int (pos c.generation)) (
            field "node_id" (str c.node_id) (
              field "logical_node_slot" (int (pos c.logical_node_slot)) (
                field "first_global_rank" (int (pos c.first_global_rank)) (
                  field "local_world_size" (int (pos c.local_world_size)) (
                    field "expected_world_size" (int (pos c.expected_world_size)) (
                      field "topology_digest" (str c.topology_digest) (
                        field "recovery_mode" (str c.recovery_mode) (
                          field "checkpoint_source" (str c.checkpoint_source) (
                            field "checkpoint_step" (int c.checkpoint_step) (
                              field "checkpoint_id" (optional c.checkpoint_id) (
                                field "checkpoint_manifest_id" (str c.checkpoint_manifest_id) (
                                  field "reason_code" (str c.reason_code) (
                                    field "restart_deadline_monotonic_ns"
                                      (int c.restart_deadline_monotonic_ns) end)))))))))))))))))

abbrev context_fields : List String
context_fields =
    "plan_id" ∷ "run_id" ∷ "generation" ∷ "node_id" ∷ "logical_node_slot" ∷ "first_global_rank"
    ∷ "local_world_size" ∷ "expected_world_size" ∷ "topology_digest" ∷ "recovery_mode"
    ∷ "checkpoint_source" ∷ "checkpoint_step" ∷ "checkpoint_id" ∷ "checkpoint_manifest_id"
    ∷ "reason_code" ∷ "restart_deadline_monotonic_ns" ∷ []

unfoldable pub context_from_dict : Fields → Result Error RestartContext
context_from_dict value = do
  record_fields value "RestartContext" context_fields
  plan_id ← string (at value "plan_id") "RestartContext.plan_id"
  run_id ← string (at value "run_id") "RestartContext.run_id"
  generation ← integer (at value "generation") "RestartContext.generation" 1
  node_id ← string (at value "node_id") "RestartContext.node_id"
  slot ← integer (at value "logical_node_slot") "RestartContext.logical_node_slot" 0
  first ← integer (at value "first_global_rank") "RestartContext.first_global_rank" 0
  size ← integer (at value "local_world_size") "RestartContext.local_world_size" 1
  world ← integer (at value "expected_world_size") "RestartContext.expected_world_size" 1
  topology ← string (at value "topology_digest") "RestartContext.topology_digest"
  mode ← choice (at value "recovery_mode") "RestartContext.recovery_mode" modes
  source ← choice (at value "checkpoint_source") "RestartContext.checkpoint_source" sources
  step ← integer (at value "checkpoint_step") "RestartContext.checkpoint_step" 1
  identity ← optional_string (at value "checkpoint_id") "RestartContext.checkpoint_id"
  manifest ← string (at value "checkpoint_manifest_id") "RestartContext.checkpoint_manifest_id"
  reason ← string (at value "reason_code") "RestartContext.reason_code"
  deadline ←
      integer (at value "restart_deadline_monotonic_ns")
        "RestartContext.restart_deadline_monotonic_ns" 1
  restart_context (record {
    plan_id = plan_id;
    run_id = run_id;
    generation = generation;
    node_id = node_id;
    logical_node_slot = slot;
    first_global_rank = first;
    local_world_size = size;
    expected_world_size = world;
    topology_digest = topology;
    recovery_mode = mode;
    checkpoint_source = source;
    checkpoint_step = pos step;
    checkpoint_id = identity;
    checkpoint_manifest_id = manifest;
    reason_code = reason;
    restart_deadline_monotonic_ns = pos deadline;
  })
