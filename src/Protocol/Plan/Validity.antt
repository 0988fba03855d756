-- ===== src/Protocol/Plan/Validity.antt =====
-- What the constructor of `RestartPlan` accepts.
use lm_resiliency.Base.{
  ℕ, ◌+◌, ◌<◌, ◌≤◌, ◌≡◌, true, false, not, List, Option, none, some, String, arith, ltb,
  if◌then◌else◌, ◌==◌, nat_eq, string_eq, length, all, contains, unique, overlaps, return,
  check-eq-return, require-eq-return, >>=-eq-return,
}
use text.Mathlib.TextEquality.{eq_iff}
use mathlib.Core.Path.{subst}
use lm_resiliency.Base.Int.{ℤ, pos, negsuc}
use lm_resiliency.Protocol.Value.{
  str, array, array_of, string, is_blank, optional_string, integer, choice, strings,
  strings-array-eq-return,
}
use lm_resiliency.Protocol.Assignment.{SlotAssignment, node_ids, assignments}
use lm_resiliency.Protocol.Assignment.Canonical.{Canonical, world_size, assignments-Canonical}
use lm_resiliency.Protocol.Plan.{
  RestartPlan, check_text, check_number, check_names, check_choice, check_optional, is_none, modes,
  sources, check_identity, check_checkpoint, check_placement, restart_plan,
}

-- At least the minimum.
abbrev pub AtLeast : ℕ → ℤ → Type 0
AtLeast minimum (pos n) = minimum ≤ n
AtLeast minimum (negsuc n) = ⊥

abbrev pub Named : List String → Type 0
Named xs = (all (λ s. not (is_blank s)) xs ≡ true) × (unique xs ≡ true)

-- A GEMINI checkpoint has no identity; a durable one has one that is not blank.
pub data HasSource : String → Option String → Type 0 where
  gemini : (s : String) → s ≡ "gemini" → HasSource s none
  durable : (s i : String) → s ≡ "durable" → is_blank i ≡ false → HasSource s (some i)

pub record IsIdentified (p : RestartPlan) : Type 0 where
  pub plan_named : is_blank p.plan_id ≡ false
  pub intent_named : is_blank p.intent_id ≡ false
  pub run_named : is_blank p.run_id ≡ false
  pub successor : p.to_generation ≡ p.from_generation + 1
  pub incidents : Named p.incident_ids
  pub some_incident : 0 < length p.incident_ids
  pub reason_named : is_blank p.reason_code ≡ false

pub record IsRestorable (p : RestartPlan) : Type 0 where
  pub mode : contains modes p.recovery_mode ≡ true
  pub mode_named : is_blank p.recovery_mode ≡ false
  pub source_named : is_blank p.checkpoint_source ≡ false
  pub step : AtLeast 1 p.checkpoint_step
  pub source : HasSource p.checkpoint_source p.checkpoint_id
  pub manifest_named : is_blank p.checkpoint_manifest_id ≡ false

pub record IsPlaced (p : RestartPlan) : Type 0 where
  pub size : ℕ
  pub canonical : Canonical size p.slot_assignments
  pub quarantined : Named p.quarantined_node_ids
  pub disjoint : overlaps (node_ids p.slot_assignments) p.quarantined_node_ids ≡ false
  pub some_rank : 0 < p.expected_world_size
  pub world : p.expected_world_size ≡ world_size p.slot_assignments
  pub topology_named : is_blank p.topology_digest ≡ false
  pub deadline : AtLeast 1 p.restart_deadline_unix_ms

pub record IsValid (p : RestartPlan) : Type 0 where
  pub identified : IsIdentified p
  pub restorable : IsRestorable p
  pub placed : IsPlaced p

check_text-eq-return : (s path : String) → check_text s path ≡ return tt → is_blank s ≡ false
unfolding check_text string
check_text-eq-return s path h = ground arith

check_number-eq-return :
    (z : ℤ) (path : String) (minimum : ℕ)
    → check_number z path minimum ≡ return tt
    → AtLeast minimum z
unfolding check_number integer
check_number-eq-return (pos n) path minimum h = ground arith
check_number-eq-return (negsuc n) path minimum h = cc

names-eq-return : (xs : List String) (path : String) → check_names xs path ≡ return tt → Named xs
unfolding check_names
names-eq-return xs path h =
    let (ys, found, _) = >>=-eq-return (strings (array (array_of str xs)) path) _ h in
    let (_, good, u) = strings-array-eq-return xs path found in (good, u)

choice-eq-return :
    (s path : String) (choices : List String)
    → check_choice s path choices ≡ return tt
    → (contains choices s ≡ true) × (is_blank s ≡ false)
unfolding check_choice choice string
choice-eq-return s path choices h = ground arith

check_identity-IsIdentified : (p : RestartPlan) → check_identity p ≡ return tt → IsIdentified p
unfolding check_identity
check_identity-IsIdentified p h =
    let (c1, h1) = check-eq-return (check_text p.plan_id _) _ h in
    let (c2, h2) = check-eq-return (check_text p.intent_id _) _ h1 in
    let (c3, h3) = check-eq-return (check_text p.run_id _) _ h2 in
    let (c4, h4) = check-eq-return (check_number (pos p.from_generation) _ 0) _ h3 in
    let (c5, h5) = check-eq-return (check_number (pos p.to_generation) _ 1) _ h4 in
    let (c6, h6) = require-eq-return (p.to_generation == p.from_generation + 1) _ _ h5 in
    let (c7, h7) = check-eq-return (check_names p.incident_ids _) _ h6 in
    let (c8, c9) = require-eq-return (ltb 0 (length p.incident_ids)) _ _ h7 in
    record {
      plan_named = check_text-eq-return _ _ c1;
      intent_named = check_text-eq-return _ _ c2;
      run_named = check_text-eq-return _ _ c3;
      successor = ground arith;
      incidents = names-eq-return _ _ c7;
      some_incident = ground arith;
      reason_named = check_text-eq-return _ _ c9;
    }

source_cases :
    (s : String) (i : Option String) (path : String)
    → contains sources s ≡ true
    → check_optional i path ≡ return tt
    → (if s == "durable" then not (is_none i) else true) ≡ true
    → (if s == "gemini" then is_none i else true) ≡ true
    → HasSource s i
unfolding check_optional optional_string string
source_cases s none path c o d g =
    gemini s (ground (arith, eq_iff "gemini" s, eq_iff "durable" s, eq_iff s "durable"))
source_cases s (some i) path c o d g =
    durable s i (ground (arith, eq_iff "gemini" s, eq_iff "durable" s, eq_iff s "gemini"))
      (ground arith)

check_checkpoint-IsRestorable : (p : RestartPlan) → check_checkpoint p ≡ return tt → IsRestorable p
unfolding check_checkpoint
check_checkpoint-IsRestorable p h =
    let (c1, h1) = check-eq-return (check_choice p.recovery_mode _ modes) _ h in
    let (c2, h2) = check-eq-return (check_choice p.checkpoint_source _ sources) _ h1 in
    let (c3, h3) = check-eq-return (check_number p.checkpoint_step _ 1) _ h2 in
    let (c4, h4) =
      check-eq-return (check_optional p.checkpoint_id "RestartPlan.checkpoint_id") _ h3 in
    let (c5, h5) = require-eq-return _ _ _ h4 in
    let (c6, c7) = require-eq-return _ _ _ h5 in
    let (m, n) = choice-eq-return _ _ modes c1 in
    let (k, l) = choice-eq-return _ _ sources c2 in
    record {
      mode = m;
      mode_named = n;
      source_named = l;
      step = check_number-eq-return _ _ 1 c3;
      source =
          source_cases p.checkpoint_source p.checkpoint_id "RestartPlan.checkpoint_id" k c4 c5 c6;
      manifest_named = check_text-eq-return _ _ c7;
    }

-- The constructor keeps every field but the assignments, which it sorts.
check_placement-IsPlaced :
    (p : RestartPlan) {q : RestartPlan}
    → check_placement p ≡ return q
    → (placed : List SlotAssignment) × IsPlaced (record p { slot_assignments = placed })
      × (record p { slot_assignments = placed } ≡ q)
unfolding check_placement
check_placement-IsPlaced p {q} h =
    let (placed, found, h1) = >>=-eq-return (assignments p.slot_assignments _) _ h in
    let (c2, h2) = check-eq-return (check_names p.quarantined_node_ids _) _ h1 in
    let (c3, h3) =
      require-eq-return (not (overlaps (node_ids placed) p.quarantined_node_ids)) _ _ h2 in
    let (c4, h4) = check-eq-return (check_number (pos p.expected_world_size) _ 1) _ h3 in
    let (c5, h5) = require-eq-return (p.expected_world_size == world_size placed) _ _ h4 in
    let (c6, h6) = check-eq-return (check_text p.topology_digest _) _ h5 in
    let (c7, h7) = check-eq-return (check_number p.restart_deadline_unix_ms _ 1) _ h6 in
    let (size, canonical) = assignments-Canonical p.slot_assignments _ found in
    (
      placed,
      record {
        size = size;
        canonical = canonical;
        quarantined = names-eq-return _ _ c2;
        disjoint = ground arith;
        some_rank = check_number-eq-return _ _ 1 c4;
        world = ground arith;
        topology_named = check_text-eq-return _ _ c6;
        deadline = check_number-eq-return _ _ 1 c7;
      },
      cc,
    )

-- Every plan that the constructor returns is valid: its fields pass all checks, it is for the
-- successor generation, a durable checkpoint and no other has an identity, its nodes are in slot
-- order with ranks that fit, none of them is quarantined, and its world size counts all workers.
pub restart_plan-IsValid :
    (p : RestartPlan) {q : RestartPlan} → restart_plan p ≡ return q → IsValid q
unfolding restart_plan
restart_plan-IsValid p {q} h =
    let (c1, h1) = check-eq-return (check_identity p) _ h in
    let (c2, h2) = check-eq-return (check_checkpoint p) _ h1 in
    let (placed, d, e) = check_placement-IsPlaced p h2 in
    let a = check_identity-IsIdentified p c1 in
    let b = check_checkpoint-IsRestorable p c2 in
    let valid : IsValid (record p { slot_assignments = placed }) = record {
      identified = record {
        plan_named = a.plan_named;
        intent_named = a.intent_named;
        run_named = a.run_named;
        successor = a.successor;
        incidents = a.incidents;
        some_incident = a.some_incident;
        reason_named = a.reason_named;
      };
      restorable = record {
        mode = b.mode;
        mode_named = b.mode_named;
        source_named = b.source_named;
        step = b.step;
        source = b.source;
        manifest_named = b.manifest_named;
      };
      placed = d;
    } in
    subst IsValid e valid
