-- ===== src/Protocol/Assignment.antt =====
-- _protocol.py: `SlotAssignment` and `_assignments`.
use lm_resiliency.Base.{
  ℕ, ◌*◌, Bool, List, [], ◌∷◌, map, String, leb, if◌then◌else◌, ◌==◌, nat_eq, string_eq, length,
  all, range_from, set_of, unique, same_set, Result, raise, return, require, ◌>>=◌, ◌>>◌,
}
use lm_resiliency.Base.Int.{pos}
use lm_resiliency.Protocol.Value.{
  Value, Items, Fields, int, str, object, end, field, at, mapping, string, integer, exact_fields,
  Error, invalid, sequence, no_assignment, slots_repeat, slots_sparse, nodes_repeat,
  local_sizes_differ, wrong_first_rank,
}
pub mod Order
pub mod Canonical
pub mod Wire

pub record SlotAssignment : Type 0 where
  pub logical_node_slot : ℕ
  pub node_id : String
  pub first_global_rank : ℕ
  pub local_world_size : ℕ

-- `SlotAssignment.__post_init__`: the constructor refuses or keeps the fields as given.
unfoldable pub slot_assignment : SlotAssignment → Result Error SlotAssignment
slot_assignment a = do
  integer (int (pos a.logical_node_slot)) "SlotAssignment.logical_node_slot" 0 >>= λ _. return tt
  string (str a.node_id) "SlotAssignment.node_id" >>= λ _. return tt
  integer (int (pos a.first_global_rank)) "SlotAssignment.first_global_rank" 0 >>= λ _. return tt
  integer (int (pos a.local_world_size)) "SlotAssignment.local_world_size" 1 >>= λ _. return tt
  return a

unfoldable pub slot_to_dict : SlotAssignment → Value
slot_to_dict a = object (
    field "logical_node_slot" (int (pos a.logical_node_slot)) (
      field "node_id" (str a.node_id) (
        field "first_global_rank" (int (pos a.first_global_rank))
          (field "local_world_size" (int (pos a.local_world_size)) end))))

abbrev slot_fields : List String
slot_fields = "logical_node_slot" ∷ "node_id" ∷ "first_global_rank" ∷ "local_world_size" ∷ []

unfoldable pub slot_from_dict : Fields → Result Error SlotAssignment
slot_from_dict value = do
  exact_fields value "SlotAssignment" slot_fields
  slot ← integer (at value "logical_node_slot") "SlotAssignment.logical_node_slot" 0
  node ← string (at value "node_id") "SlotAssignment.node_id"
  rank ← integer (at value "first_global_rank") "SlotAssignment.first_global_rank" 0
  size ← integer (at value "local_world_size") "SlotAssignment.local_world_size" 1
  slot_assignment (record {
    logical_node_slot = slot;
    node_id = node;
    first_global_rank = rank;
    local_world_size = size;
  })

abbrev pub slots : List SlotAssignment → List ℕ
slots = map λ a. a.logical_node_slot

abbrev pub node_ids : List SlotAssignment → List String
node_ids = map λ a. a.node_id

abbrev pub local_sizes : List SlotAssignment → List ℕ
local_sizes = map λ a. a.local_world_size

unfoldable pub insert_slot : SlotAssignment → List SlotAssignment → List SlotAssignment
insert_slot a [] = a ∷ []
insert_slot a (b ∷ bs) =
    if leb a.logical_node_slot b.logical_node_slot then a ∷ b ∷ bs else b ∷ insert_slot a bs

-- `sorted(assignments, key=...)`, which keeps the order of equal keys.
unfoldable pub sort_slots : List SlotAssignment → List SlotAssignment
unfolding insert_slot
sort_slots [] = []
sort_slots (a ∷ rest) = insert_slot a (sort_slots rest)

abbrev pub starts_at_slot : ℕ → SlotAssignment → Bool
starts_at_slot size a = a.first_global_rank == a.logical_node_slot * size

-- `_assignments` on records.
unfoldable pub assignments : List SlotAssignment → String → Result Error (List SlotAssignment)
assignments [] path = raise (invalid path no_assignment)
assignments (a ∷ rest) path = do
  let given = a ∷ rest
  require (unique (slots given)) (invalid path slots_repeat)
  require (same_set (slots given) (range_from 0 (length (slots given)))) (invalid path slots_sparse)
  require (unique (node_ids given)) (invalid path nodes_repeat)
  require (length (set_of (local_sizes given)) == 1) (invalid path local_sizes_differ)
  require (all (starts_at_slot a.local_world_size) given) (invalid path wrong_first_rank)
  return (sort_slots given)

assignments_of : List Value → String → Result Error (List SlotAssignment)
unfolding slot_from_dict
assignments_of [] path = return []
assignments_of (v ∷ vs) path = do
  fields ← mapping v path
  a ← slot_from_dict fields
  rest ← assignments_of vs path
  return (a ∷ rest)

-- `_assignments` on a JSON array.
unfoldable pub assignments_from_dict : Value → String → Result Error (List SlotAssignment)
unfolding assignments_of
assignments_from_dict value path = do
  vs ← sequence value path
  given ← assignments_of vs path
  assignments given path
