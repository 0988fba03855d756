-- ===== src/Tests/Plans.antt =====
-- A plan for two nodes of four workers each, given in the wrong order.
use lm_resiliency.Base.{
  ℕ, ◌≡◌, refl, List, [], ◌∷◌, some, arith, All, range_from, return, ◌>>=◌, string_eq,
}
use lm_resiliency.Base.Int.{pos}
use lm_resiliency.Protocol.Value.{
  mapping, string, integer, choice, strings, optional_string, is_blank, sequence,
}
use lm_resiliency.Protocol.Assignment.{SlotAssignment, assignments, insert_slot, sort_slots}
use lm_resiliency.Protocol.Assignment.Wire.{IsSlot}
use lm_resiliency.Protocol.Assignment.Canonical.{
  Canonical, assignments-Canonical, assignments_again, assignments_cover, global_ranks, world_size,
}
use lm_resiliency.Protocol.Plan.{
  RestartPlan, restart_plan, check_identity, check_checkpoint, check_placement, check_text,
  check_number, check_names, check_choice, check_optional, plan_to_dict, plan_from_dict,
}
use lm_resiliency.Protocol.Plan.Validity.{IsValid, restart_plan-IsValid}
use lm_resiliency.Protocol.Plan.Wire.{plan_wire}
use lm_resiliency.Protocol.Context.{RestartContext, from_plan}
use lm_resiliency.Protocol.Context.Derivation.{IsPartOf, from_plan_total}

abbrev first_node : SlotAssignment
first_node = record {
  logical_node_slot = 0;
  node_id = "node-a";
  first_global_rank = 0;
  local_world_size = 4;
}

abbrev second_node : SlotAssignment
second_node = record {
  logical_node_slot = 1;
  node_id = "node-b";
  first_global_rank = 4;
  local_world_size = 4;
}

abbrev swapped : List SlotAssignment
swapped = second_node ∷ first_node ∷ []

abbrev pub in_order : List SlotAssignment
in_order = first_node ∷ second_node ∷ []

pub in_order-IsSlot : All IsSlot in_order
unfolding is_blank
in_order-IsSlot = (
  record { named = refl; some_worker = omega arith },
  (record { named = refl; some_worker = omega arith }, tt),
)

assignments-swapped : assignments swapped "slots" ≡ return in_order
unfolding assignments insert_slot sort_slots
assignments-swapped = refl

abbrev plan_of : List SlotAssignment → RestartPlan
plan_of slots = record {
  plan_id = "plan-7";
  intent_id = "intent-7";
  run_id = "run-1";
  from_generation = 0;
  to_generation = 1;
  incident_ids = "intent-7" ∷ [];
  reason_code = "hard_failure";
  recovery_mode = "recovery_verified";
  checkpoint_source = "durable";
  checkpoint_step = pos 120;
  checkpoint_id = some "step-120";
  checkpoint_manifest_id = "manifest-120";
  slot_assignments = slots;
  quarantined_node_ids = "node-c" ∷ [];
  expected_world_size = 8;
  topology_digest = "digest";
  restart_deadline_unix_ms = pos 1000;
}

abbrev pub given : RestartPlan
given = plan_of swapped

abbrev pub plan : RestartPlan
plan = plan_of in_order

pub plan_given : restart_plan given ≡ return plan
unfolding restart_plan check_identity check_checkpoint check_placement check_text check_number
    check_names check_choice check_optional string integer choice strings optional_string sequence
    assignments insert_slot sort_slots is_blank
plan_given = refl

assignments-Canonical_example : (size : ℕ) × Canonical size in_order
assignments-Canonical_example = assignments-Canonical swapped "slots" assignments-swapped

assignments_cover_example : global_ranks in_order ≡ range_from 0 (world_size in_order)
assignments_cover_example = assignments_cover swapped "slots" assignments-swapped

in_order-Canonical : Canonical 4 in_order
in_order-Canonical = record {
  occupied = omega arith;
  in_order = refl;
  nodes = (refl, (refl, tt));
  sizes = (refl, (refl, tt));
  ranks = (refl, (refl, tt));
}

assignments_again_example : assignments in_order "other" ≡ return in_order
assignments_again_example = assignments_again in_order "other" in_order-Canonical

restart_plan-IsValid_example : IsValid plan
restart_plan-IsValid_example = restart_plan-IsValid given plan_given

plan_wire_example : (mapping (plan_to_dict plan) "plan" >>= plan_from_dict) ≡ return plan
plan_wire_example = plan_wire given plan "plan" plan_given in_order-IsSlot

from_plan_total_example :
    (c : RestartContext) × (from_plan plan "node-b" (pos 99) ≡ return c)
    × IsPartOf plan "node-b" (pos 99) c
from_plan_total_example =
    from_plan_total given plan "node-b" (pos 99) plan_given in_order-IsSlot (omega arith) refl
