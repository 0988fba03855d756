-- ===== src/Rendezvous/Group.antt =====
-- `SimpleRendezvousHandler`: the assignment of a generation, and a poll of `next_rendezvous` up to the
-- node's slot. A closed run and a failed heartbeat end the agent before a poll and are left out.
use lm_resiliency.Base.{
  ℕ, ◌+◌, Bool, true, false, List, [], ◌∷◌, map, Option, none, some, String, if◌then◌else◌, leb,
  ◌==◌, nat_eq, string_eq, length,
}
use lm_resiliency.Protocol.Assignment.{SlotAssignment}
use lm_resiliency.Protocol.Plan.{RestartPlan}
use lm_resiliency.PlanStore.Platform.{Platform}
use lm_resiliency.PlanStore.Actions.{Action, missing_plan, deadline_passed, pure, throw, ◌>>=◌}
use lm_resiliency.PlanStore.Publish.{current_generation, read}
use lm_resiliency.PlanStore.Registry.{ensure_initial_nodes}

-- `_NodeAssignment`
pub record NodeAssignment : Type 0 where
  pub logical_node_slot : ℕ
  pub node_id : String

abbrev pub enumerated : ℕ → List String → List NodeAssignment
enumerated slot [] = []
enumerated slot (n ∷ ns) =
    record { logical_node_slot = slot; node_id = n } ∷ enumerated (slot + 1) ns

abbrev pub planned : List SlotAssignment → List NodeAssignment
planned = map λ a. record { logical_node_slot = a.logical_node_slot; node_id = a.node_id }

abbrev pub initial : Option (List String) → Option (List NodeAssignment)
initial none = none
initial (some nodes) = some (enumerated 0 nodes)

-- The slot of the first entry of the node.
abbrev pub slot_of : List NodeAssignment → String → Option ℕ
slot_of [] node = none
slot_of (a ∷ rest) node = if a.node_id == node then some a.logical_node_slot else slot_of rest node

-- What a poll finds: a generation that is no newer than the last, too few registered nodes, no slot for
-- the node, or its rank and the world size.
pub data Placement : Type 0 where
  superseded unregistered parked : Placement
  placed : ℕ → ℕ → ℕ → Placement

abbrev pub placement_of : ℕ → String → Option (List NodeAssignment) → Placement
placement_of generation node none = unregistered
placement_of generation node (some group) = elim (slot_of group node) [
  | none ↦ parked
  | some slot ↦ placed generation slot (length group)
]

abbrev pub is_old : Option ℕ → ℕ → Bool
is_old none generation = false
is_old (some last) generation = leb generation last

module _ (p : Platform) (run_id : String) (min_nodes max_nodes : ℕ) where
  open p use {State}

  abbrev pub successor_assignment : Option RestartPlan → Action State (Option (List NodeAssignment))
  successor_assignment none = throw missing_plan
  successor_assignment (some plan) = pure (some (planned plan.slot_assignments))

  unfoldable pub assignment : ℕ → Option RestartPlan → Action State (Option (List NodeAssignment))
  assignment generation plan =
      if generation == 0
      then (do nodes ← ensure_initial_nodes p run_id min_nodes max_nodes; pure (initial nodes))
      else successor_assignment plan

  -- Waiting for a newer generation and for registrations ends at the admission deadline; waiting for a
  -- slot does not.
  abbrev pub unless_late : Bool → Placement → Action State Placement
  unless_late true superseded = throw deadline_passed
  unless_late true unregistered = throw deadline_passed
  unless_late late found = pure found

  abbrev pub poll_generation : Bool → ℕ → String → Action State Placement
  poll_generation late generation node = do
    plan ← read p run_id generation
    group ← assignment generation plan
    unless_late late (placement_of generation node group)

  -- Whether the deadline has passed, the agent's last generation, and its node.
  unfoldable pub poll_placement : Bool → Option ℕ → String → Action State Placement
  poll_placement late last node = do
    generation ← current_generation p run_id
    (if is_old last generation
        then unless_late late superseded
        else poll_generation late generation node)
