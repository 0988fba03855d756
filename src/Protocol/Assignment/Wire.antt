-- ===== src/Protocol/Assignment/Wire.antt =====
-- Slot assignments survive the JSON document.
use lm_resiliency.Base.{ℕ, ◌≤◌, ◌≡◌, refl, false, List, [], ◌∷◌, arith, String, All, return, ◌>>=◌}
use lm_resiliency.Protocol.Value.{
  items, array_of, array, string, is_blank, integer, mapping, exact_fields, sequence, string_str,
  integer_pos,
}
use lm_resiliency.Protocol.Assignment.{
  SlotAssignment, slot_assignment, slot_to_dict, slot_from_dict, assignments_of,
  assignments_from_dict,
}
use lm_resiliency.Protocol.Assignment.Canonical.{Canonical, assignments_again}

-- What the constructor of `SlotAssignment` accepts.
pub record IsSlot (a : SlotAssignment) : Type 0 where
  pub named : is_blank a.node_id ≡ false
  pub some_worker : 1 ≤ a.local_world_size

pub slot_assignment-IsSlot :
    (a : SlotAssignment) {b : SlotAssignment} → slot_assignment a ≡ return b → IsSlot a × (a ≡ b)
unfolding slot_assignment string integer
slot_assignment-IsSlot a h = ground arith

pub slot_assignment_again : (a : SlotAssignment) → IsSlot a → slot_assignment a ≡ return a
unfolding slot_assignment string integer
slot_assignment_again a s = ground arith

slot_wire :
    (a : SlotAssignment) (path : String)
    → IsSlot a
    → (mapping (slot_to_dict a) path >>= slot_from_dict) ≡ return a
unfolding slot_from_dict slot_to_dict mapping exact_fields
slot_wire a path s =
    rw
      (
        integer_pos a.logical_node_slot 0 "SlotAssignment.logical_node_slot" (omega arith),
        string_str a.node_id "SlotAssignment.node_id" s.named,
        integer_pos a.first_global_rank 0 "SlotAssignment.first_global_rank" (omega arith),
        integer_pos a.local_world_size 1 "SlotAssignment.local_world_size" s.some_worker,
      )
      (slot_assignment_again a s)

assignments_of-array :
    (xs : List SlotAssignment) (path : String)
    → All IsSlot xs
    → assignments_of (items (array_of slot_to_dict xs)) path ≡ return xs
unfolding assignments_of
assignments_of-array [] path h = refl
assignments_of-array (x ∷ xs) path h =
    ground (arith, slot_wire x path h.0, assignments_of-array xs path h.1)

pub assignments_wire :
    {size : ℕ} (xs : List SlotAssignment) (path : String)
    → Canonical size xs
    → All IsSlot xs
    → assignments_from_dict (array (array_of slot_to_dict xs)) path ≡ return xs
unfolding assignments_from_dict sequence
assignments_wire xs path c h = rw (assignments_of-array xs path h) (assignments_again xs path c)
