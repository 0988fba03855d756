-- ===== src/Protocol/Plan.antt =====
-- _protocol.py: `RestartPlan`.
use lm_resiliency.Base.{
  ℕ, ◌+◌, ◌≡◌, Bool, true, false, not, List, [], ◌∷◌, Option, none, some, String, ltb,
  if◌then◌else◌, ◌==◌, nat_eq, string_eq, length, overlaps, Result, return, raise, require, ◌>>=◌,
  ◌>>◌,
}
use lm_resiliency.Base.Int.{ℤ, pos}
use lm_resiliency.Protocol.Value.{
  Value, Fields, null, int, str, array, object, end, field, array_of, at, string, optional_string,
  integer, choice, strings, record_fields, Error, invalid, not_successor, no_incident,
  durable_needs_id, gemini_has_id, quarantined_assigned, wrong_world_size,
}
use lm_resiliency.Protocol.Assignment.{
  SlotAssignment, node_ids, assignments, assignments_from_dict, slot_to_dict,
}
use lm_resiliency.Protocol.Assignment.Canonical.{world_size}
pub mod Validity
pub mod Wire

-- Numbers that the coordinator takes from a request are integers; the others are derived.
pub record RestartPlan : Type 0 where
  pub plan_id : String
  pub intent_id : String
  pub run_id : String
  pub from_generation : ℕ
  pub to_generation : ℕ
  pub incident_ids : List String
  pub reason_code : String
  pub recovery_mode : String
  pub checkpoint_source : String
  pub checkpoint_step : ℤ
  pub checkpoint_id : Option String
  pub checkpoint_manifest_id : String
  pub slot_assignments : List SlotAssignment
  pub quarantined_node_ids : List String
  pub expected_world_size : ℕ
  pub topology_digest : String
  pub restart_deadline_unix_ms : ℤ

-- `_string` and `_integer` where only the refusal matters.
unfoldable pub check_text : String → String → Result Error (Unit {0})
check_text s path = string (str s) path >>= λ _. return tt

unfoldable pub check_number : ℤ → String → ℕ → Result Error (Unit {0})
check_number z path minimum = integer (int z) path minimum >>= λ _. return tt

unfoldable pub check_names : List String → String → Result Error (Unit {0})
check_names xs path = strings (array (array_of str xs)) path >>= λ _. return tt

unfoldable pub check_choice : String → String → List String → Result Error (Unit {0})
check_choice s path choices = choice (str s) path choices >>= λ _. return tt

abbrev pub optional : Option String → Value
optional none = null
optional (some s) = str s

unfoldable pub check_optional : Option String → String → Result Error (Unit {0})
check_optional o path = optional_string (optional o) path >>= λ _. return tt

abbrev pub is_none : Option String → Bool
is_none none = true
is_none (some s) = false

abbrev pub modes : List String
modes = "latest" ∷ "recovery_verified" ∷ []

abbrev pub sources : List String
sources = "gemini" ∷ "durable" ∷ []

-- `__post_init__`, lines 235 to 254: identity, generations and incidents.
unfoldable pub check_identity : RestartPlan → Result Error (Unit {0})
check_identity p = do
  check_text p.plan_id "RestartPlan.plan_id"
  check_text p.intent_id "RestartPlan.intent_id"
  check_text p.run_id "RestartPlan.run_id"
  check_number (pos p.from_generation) "RestartPlan.from_generation" 0
  check_number (pos p.to_generation) "RestartPlan.to_generation" 1
  require (p.to_generation == p.from_generation + 1)
      (invalid "RestartPlan.to_generation" not_successor)
  check_names p.incident_ids "RestartPlan.incident_ids"
  require (ltb 0 (length p.incident_ids)) (invalid "RestartPlan.incident_ids" no_incident)
  check_text p.reason_code "RestartPlan.reason_code"

-- Lines 255 to 275: the checkpoint to restore, and when an identity belongs to it.
unfoldable pub check_checkpoint : RestartPlan → Result Error (Unit {0})
check_checkpoint p = do
  check_choice p.recovery_mode "RestartPlan.recovery_mode" modes
  check_choice p.checkpoint_source "RestartPlan.checkpoint_source" sources
  check_number p.checkpoint_step "RestartPlan.checkpoint_step" 1
  check_optional p.checkpoint_id "RestartPlan.checkpoint_id"
  require (if p.checkpoint_source == "durable" then not (is_none p.checkpoint_id) else true)
      (invalid "RestartPlan.checkpoint_id" durable_needs_id)
  require (if p.checkpoint_source == "gemini" then is_none p.checkpoint_id else true)
      (invalid "RestartPlan.checkpoint_id" gemini_has_id)
  check_text p.checkpoint_manifest_id "RestartPlan.checkpoint_manifest_id"

-- Lines 276 to 300: the placement; the plan keeps the assignments in slot order.
unfoldable pub check_placement : RestartPlan → Result Error RestartPlan
check_placement p = do
  placed ← assignments p.slot_assignments "RestartPlan.slot_assignments"
  check_names p.quarantined_node_ids "RestartPlan.quarantined_node_ids"
  require (not (overlaps (node_ids placed) p.quarantined_node_ids))
      (invalid "RestartPlan" quarantined_assigned)
  check_number (pos p.expected_world_size) "RestartPlan.expected_world_size" 1
  require (p.expected_world_size == world_size placed)
      (invalid "RestartPlan.expected_world_size" wrong_world_size)
  check_text p.topology_digest "RestartPlan.topology_digest"
  check_number p.restart_deadline_unix_ms "RestartPlan.restart_deadline_unix_ms" 1
  return (record p { slot_assignments = placed })

-- The constructor: `__post_init__` on the given fields.
unfoldable pub restart_plan : RestartPlan → Result Error RestartPlan
restart_plan p = do check_identity p; check_checkpoint p; check_placement p

unfoldable pub plan_to_dict : RestartPlan → Value
unfolding slot_to_dict
plan_to_dict p = object (
    field "schema_version" (int (pos 1)) (
      field "plan_id" (str p.plan_id) (
        field "intent_id" (str p.intent_id) (
          field "run_id" (str p.run_id) (
            field "from_generation" (int (pos p.from_generation)) (
              field "to_generation" (int (pos p.to_generation)) (
                field "incident_ids" (array (array_of str p.incident_ids)) (
                  field "reason_code" (str p.reason_code) (
                    field "recovery_mode" (str p.recovery_mode) (
                      field "checkpoint_source" (str p.checkpoint_source) (
                        field "checkpoint_step" (int p.checkpoint_step) (
                          field "checkpoint_id" (optional p.checkpoint_id) (
                            field "checkpoint_manifest_id" (str p.checkpoint_manifest_id) (
                              field "slot_assignments"
                                (array (array_of slot_to_dict p.slot_assignments))
                                (field "quarantined_node_ids"
                                  (array (array_of str p.quarantined_node_ids))
                                  (field "expected_world_size" (int (pos p.expected_world_size)) (
                                    field "topology_digest" (str p.topology_digest) (
                                      field "restart_deadline_unix_ms"
                                        (int p.restart_deadline_unix_ms) end))))))))))))))))))

abbrev pub plan_fields : List String
plan_fields =
    "plan_id" ∷ "intent_id" ∷ "run_id" ∷ "from_generation" ∷ "to_generation" ∷ "incident_ids"
    ∷ "reason_code" ∷ "recovery_mode" ∷ "checkpoint_source" ∷ "checkpoint_step" ∷ "checkpoint_id"
    ∷ "checkpoint_manifest_id" ∷ "slot_assignments" ∷ "quarantined_node_ids" ∷ "expected_world_size"
    ∷ "topology_digest" ∷ "restart_deadline_unix_ms" ∷ []

unfoldable pub plan_from_dict : Fields → Result Error RestartPlan
plan_from_dict value = do
  record_fields value "RestartPlan" plan_fields
  plan_id ← string (at value "plan_id") "RestartPlan.plan_id"
  intent_id ← string (at value "intent_id") "RestartPlan.intent_id"
  run_id ← string (at value "run_id") "RestartPlan.run_id"
  from_generation ← integer (at value "from_generation") "RestartPlan.from_generation" 0
  to_generation ← integer (at value "to_generation") "RestartPlan.to_generation" 1
  incident_ids ← strings (at value "incident_ids") "RestartPlan.incident_ids"
  reason_code ← string (at value "reason_code") "RestartPlan.reason_code"
  recovery_mode ← choice (at value "recovery_mode") "RestartPlan.recovery_mode" modes
  checkpoint_source ← choice (at value "checkpoint_source") "RestartPlan.checkpoint_source" sources
  checkpoint_step ← integer (at value "checkpoint_step") "RestartPlan.checkpoint_step" 1
  checkpoint_id ← optional_string (at value "checkpoint_id") "RestartPlan.checkpoint_id"
  manifest_id ← string (at value "checkpoint_manifest_id") "RestartPlan.checkpoint_manifest_id"
  slots ← assignments_from_dict (at value "slot_assignments") "RestartPlan.slot_assignments"
  quarantined ← strings (at value "quarantined_node_ids") "RestartPlan.quarantined_node_ids"
  world ← integer (at value "expected_world_size") "RestartPlan.expected_world_size" 1
  topology ← string (at value "topology_digest") "RestartPlan.topology_digest"
  deadline ← integer (at value "restart_deadline_unix_ms") "RestartPlan.restart_deadline_unix_ms" 1
  restart_plan (record {
    plan_id = plan_id;
    intent_id = intent_id;
    run_id = run_id;
    from_generation = from_generation;
    to_generation = to_generation;
    incident_ids = incident_ids;
    reason_code = reason_code;
    recovery_mode = recovery_mode;
    checkpoint_source = checkpoint_source;
    checkpoint_step = pos checkpoint_step;
    checkpoint_id = checkpoint_id;
    checkpoint_manifest_id = manifest_id;
    slot_assignments = slots;
    quarantined_node_ids = quarantined;
    expected_world_size = world;
    topology_digest = topology;
    restart_deadline_unix_ms = pos deadline;
  })
