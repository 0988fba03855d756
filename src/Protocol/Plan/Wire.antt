-- ===== src/Protocol/Plan/Wire.antt =====
-- A recovery plan survives the JSON document.
use lm_resiliency.Base.{
  ℕ, ◌+◌, ◌≡◌, refl, true, false, not, List, Option, none, some, String, arith, ltb, if◌then◌else◌,
  ◌==◌, nat_eq, string_eq, nat_beq_iff, length, All, contains, overlaps, return, ◌>>=◌,
}
use lm_resiliency.Base.Int.{ℤ, pos, negsuc, pos_part}
use lm_resiliency.Protocol.Value.{
  int, str, array, array_of, is_blank, optional_string, integer, choice, strings, strings-array,
  string_str, integer_pos, mapping, record_fields,
}
use lm_resiliency.Protocol.Assignment.{node_ids}
use lm_resiliency.Protocol.Assignment.Wire.{IsSlot, assignments_wire}
use lm_resiliency.Protocol.Assignment.Canonical.{world_size, assignments_again}
use lm_resiliency.Protocol.Plan.{
  RestartPlan, check_text, check_number, check_names, check_choice, check_optional, optional,
  is_none, modes, sources, check_identity, check_checkpoint, check_placement, restart_plan,
  plan_to_dict, plan_from_dict,
}
use lm_resiliency.Protocol.Plan.Validity.{
  AtLeast, Named, HasSource, gemini, durable, IsIdentified, IsRestorable, IsPlaced, IsValid,
  restart_plan-IsValid,
}

pub check_text_passes : (s path : String) → is_blank s ≡ false → check_text s path ≡ return tt
unfolding check_text
check_text_passes s path h = rw (string_str s path h)

pub integer-AtLeast :
    (z : ℤ) (path : String) (minimum : ℕ)
    → AtLeast minimum z
    → integer (int z) path minimum ≡ return (pos_part z)
integer-AtLeast (pos n) path minimum h = integer_pos n minimum path h
integer-AtLeast (negsuc n) path minimum h = absurd h

pub pos-AtLeast : (z : ℤ) (minimum : ℕ) → AtLeast minimum z → pos (pos_part z) ≡ z
pos-AtLeast (pos n) minimum h = refl
pos-AtLeast (negsuc n) minimum h = absurd h

pub check_number_passes :
    (z : ℤ) (path : String) (minimum : ℕ)
    → AtLeast minimum z
    → check_number z path minimum ≡ return tt
unfolding check_number
check_number_passes z path minimum h = rw (integer-AtLeast z path minimum h)

names_read :
    (xs : List String) (path : String)
    → Named xs
    → strings (array (array_of str xs)) path ≡ return xs
names_read xs path n = strings-array xs path n.0 n.1

check_names_passes : (xs : List String) (path : String) → Named xs → check_names xs path ≡ return tt
unfolding check_names
check_names_passes xs path n = rw (names_read xs path n)

pub choice_read :
    (s path : String) (choices : List String)
    → is_blank s ≡ false
    → contains choices s ≡ true
    → choice (str s) path choices ≡ return s
unfolding choice
choice_read s path choices b c = rw (string_str s path b, c)

pub check_choice_passes :
    (s path : String) (choices : List String)
    → is_blank s ≡ false
    → contains choices s ≡ true
    → check_choice s path choices ≡ return tt
unfolding check_choice
check_choice_passes s path choices b c = rw (choice_read s path choices b c)

pub optional_read :
    (s path : String) (i : Option String)
    → HasSource s i
    → optional_string (optional i) path ≡ return i
unfolding optional_string
optional_read s path none h = refl
optional_read s path (some i) (durable _ _ e b) = rw (string_str i path b)

pub source_passes :
    (s path : String) (i : Option String)
    → HasSource s i
    → (contains sources s ≡ true)
      × (check_optional i path ≡ return tt)
      × ((if s == "durable" then not (is_none i) else true) ≡ true)
      × ((if s == "gemini" then is_none i else true) ≡ true)
unfolding check_optional
source_passes s path none (gemini _ e) =
    rw e (refl, rw (optional_read "gemini" path none (gemini "gemini" refl)), refl, refl)
source_passes s path (some i) (durable _ _ e b) =
    rw e (refl, rw (optional_read "durable" path (some i) (durable "durable" i refl b)), refl, refl)

check_identity_passes : (p : RestartPlan) → IsIdentified p → check_identity p ≡ return tt
unfolding check_identity
check_identity_passes p v =
    let next : (p.to_generation == p.from_generation + 1) ≡ true =
      (nat_beq_iff _ _).1 v.successor in
    let incident : ltb 0 (length p.incident_ids) ≡ true = ground (arith, v.some_incident) in
    rw
      (
        check_text_passes p.plan_id "RestartPlan.plan_id" v.plan_named,
        check_text_passes p.intent_id "RestartPlan.intent_id" v.intent_named,
        check_text_passes p.run_id "RestartPlan.run_id" v.run_named,
        check_number_passes (pos p.from_generation) "RestartPlan.from_generation" 0 (omega arith),
        check_number_passes (pos p.to_generation) "RestartPlan.to_generation" 1
            (omega (arith, v.successor)),
        next,
        check_names_passes p.incident_ids "RestartPlan.incident_ids" v.incidents,
        incident,
      )
      (check_text_passes p.reason_code "RestartPlan.reason_code" v.reason_named)

check_checkpoint_passes : (p : RestartPlan) → IsRestorable p → check_checkpoint p ≡ return tt
unfolding check_checkpoint
check_checkpoint_passes p v =
    let (known, optional_ok, durable_ok, gemini_ok) =
      source_passes p.checkpoint_source "RestartPlan.checkpoint_id" p.checkpoint_id v.source in
    rw
      (
        check_choice_passes p.recovery_mode "RestartPlan.recovery_mode" modes v.mode_named v.mode,
        check_choice_passes p.checkpoint_source "RestartPlan.checkpoint_source" sources
            v.source_named known,
        check_number_passes p.checkpoint_step "RestartPlan.checkpoint_step" 1 v.step,
        optional_ok,
        durable_ok,
        gemini_ok,
      )
      (check_text_passes p.checkpoint_manifest_id "RestartPlan.checkpoint_manifest_id"
        v.manifest_named)

check_placement_passes : (p : RestartPlan) → IsPlaced p → check_placement p ≡ return p
unfolding check_placement
check_placement_passes p v =
    let free : not (overlaps (node_ids p.slot_assignments) p.quarantined_node_ids) ≡ true =
      rw v.disjoint in
    let total : (p.expected_world_size == world_size p.slot_assignments) ≡ true =
      (nat_beq_iff _ _).1 v.world in
    rw (
      assignments_again p.slot_assignments "RestartPlan.slot_assignments" v.canonical,
      check_names_passes p.quarantined_node_ids "RestartPlan.quarantined_node_ids" v.quarantined,
      free,
      check_number_passes (pos p.expected_world_size) "RestartPlan.expected_world_size" 1
          v.some_rank,
      total,
      check_text_passes p.topology_digest "RestartPlan.topology_digest" v.topology_named,
      check_number_passes p.restart_deadline_unix_ms "RestartPlan.restart_deadline_unix_ms" 1
          v.deadline,
    )

pub restart_plan_again : (p : RestartPlan) → IsValid p → restart_plan p ≡ return p
unfolding restart_plan
restart_plan_again p v =
    rw (check_identity_passes p v.identified, check_checkpoint_passes p v.restorable)
      (check_placement_passes p v.placed)

-- The plan read back from the fields of a valid plan.
valid_wire :
    (p : RestartPlan) (path : String)
    → IsValid p
    → All IsSlot p.slot_assignments
    → (mapping (plan_to_dict p) path >>= plan_from_dict) ≡ return p
unfolding plan_to_dict plan_from_dict mapping record_fields
valid_wire p path v slots =
    let (known, _, _, _) =
      source_passes p.checkpoint_source "RestartPlan.checkpoint_id" p.checkpoint_id
        v.restorable.source in
    rw
      (
        string_str p.plan_id "RestartPlan.plan_id" v.identified.plan_named,
        string_str p.intent_id "RestartPlan.intent_id" v.identified.intent_named,
        string_str p.run_id "RestartPlan.run_id" v.identified.run_named,
        integer_pos p.from_generation 0 "RestartPlan.from_generation" (omega arith),
        integer_pos p.to_generation 1 "RestartPlan.to_generation"
            (omega (arith, v.identified.successor)),
        names_read p.incident_ids "RestartPlan.incident_ids" v.identified.incidents,
        string_str p.reason_code "RestartPlan.reason_code" v.identified.reason_named,
        choice_read p.recovery_mode "RestartPlan.recovery_mode" modes v.restorable.mode_named
            v.restorable.mode,
        choice_read p.checkpoint_source "RestartPlan.checkpoint_source" sources
            v.restorable.source_named known,
        integer-AtLeast p.checkpoint_step "RestartPlan.checkpoint_step" 1 v.restorable.step,
        optional_read p.checkpoint_source "RestartPlan.checkpoint_id" p.checkpoint_id
            v.restorable.source,
        string_str p.checkpoint_manifest_id "RestartPlan.checkpoint_manifest_id"
            v.restorable.manifest_named,
        assignments_wire p.slot_assignments "RestartPlan.slot_assignments" v.placed.canonical slots,
        names_read p.quarantined_node_ids "RestartPlan.quarantined_node_ids" v.placed.quarantined,
        integer_pos p.expected_world_size 1 "RestartPlan.expected_world_size" v.placed.some_rank,
        string_str p.topology_digest "RestartPlan.topology_digest" v.placed.topology_named,
        integer-AtLeast p.restart_deadline_unix_ms "RestartPlan.restart_deadline_unix_ms" 1
            v.placed.deadline,
        pos-AtLeast p.checkpoint_step 1 v.restorable.step,
        pos-AtLeast p.restart_deadline_unix_ms 1 v.placed.deadline,
      )
      (restart_plan_again p v)

-- A plan that the constructor returned, written as a JSON document and read back, is the same plan,
-- whichever path the reader reports. The assignments are such as the constructor of `SlotAssignment` accepts.
pub plan_wire :
    (p q : RestartPlan) (path : String)
    → restart_plan p ≡ return q
    → All IsSlot q.slot_assignments
    → (mapping (plan_to_dict q) path >>= plan_from_dict) ≡ return q
plan_wire p q path h slots = valid_wire q path (restart_plan-IsValid p h) slots
