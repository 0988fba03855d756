-- ===== src/Protocol/Context/Derivation.antt =====
-- Every assigned node of a valid plan gets its context, and the context survives the JSON document.
use lm_resiliency.Base.{
  ℕ, zero, suc, refl, get_elem?, ◌+◌, ◌≤◌, ◌≡◌, ◌∙◌, inl, inr, true, List, [], ◌∷◌, some, String,
  arith, ◌==◌, nat_eq, string_eq, length, All, contains, range_from, return, Bool-cases,
}
use text.Mathlib.TextEquality.{eq_iff}
use lm_resiliency.Base.Int.{ℤ}
use lm_resiliency.Protocol.Assignment.{SlotAssignment, node_ids, slots}
use lm_resiliency.Protocol.Assignment.Wire.{IsSlot}
use lm_resiliency.Protocol.Plan.{RestartPlan, restart_plan}
use lm_resiliency.Protocol.Plan.Validity.{AtLeast, restart_plan-IsValid}
use lm_resiliency.Protocol.Context.{
  RestartContext, restart_context, find_node, context_of, from_plan,
}
use lm_resiliency.Protocol.Context.Accepted.{
  find_node-All, find_node-Fits, check_ranks_passes, check_recovery_passes, restart_context_passes,
}

find_node-contains :
    (xs : List SlotAssignment) (node : String)
    → contains (node_ids xs) node ≡ true
    → (a : SlotAssignment) × (find_node xs node ≡ some a) × (a.node_id ≡ node)
find_node-contains [] node h = cc
find_node-contains (x ∷ xs) node h = elim (Bool-cases (x.node_id == node)) [
  | inl hit ↦ (x, rw hit, (eq_iff x.node_id node).0 hit)
  | inr miss ↦
      let (a, found, same) = find_node-contains xs node (ground (arith, miss)) in
      (a, rw miss found, same)
]

from_plan_found :
    (p : RestartPlan) (node : String) (deadline : ℤ) {a : SlotAssignment}
    → find_node p.slot_assignments node ≡ some a
    → from_plan p node deadline ≡ restart_context (context_of p a deadline)
unfolding from_plan
from_plan_found p node deadline e = rw (e, from_plan)

find_node-get_elem? :
    (xs : List SlotAssignment) (node : String) {a : SlotAssignment}
    → find_node xs node ≡ some a
    → (i : ℕ) × (get_elem? xs i ≡ some a)
find_node-get_elem? [] node h = cc
find_node-get_elem? (x ∷ xs) node h = elim (Bool-cases (x.node_id == node)) [
  | inl hit ↦ (0, rw hit at h)
  | inr miss ↦ let (i, there) = find_node-get_elem? xs node (rw miss at h) in (suc i, there)
]

-- The part of a plan that is local to one of its nodes.
pub record IsPartOf (p : RestartPlan) (node : String) (deadline : ℤ) (c : RestartContext)
    : Type 0 where
  pub slot : ℕ
  pub own : SlotAssignment
  pub assigned : get_elem? p.slot_assignments slot ≡ some own
  pub own_name : own.node_id ≡ node
  pub same_node : c.node_id ≡ node
  pub same_slot : (c.logical_node_slot ≡ slot) × (own.logical_node_slot ≡ slot)
  pub same_first_rank : c.first_global_rank ≡ own.first_global_rank
  pub same_size : c.local_world_size ≡ own.local_world_size
  pub in_world : c.first_global_rank + c.local_world_size ≤ c.expected_world_size
  pub same_world : c.expected_world_size ≡ p.expected_world_size
  pub same_plan : (c.plan_id ≡ p.plan_id) × (c.run_id ≡ p.run_id)
  pub same_generation : c.generation ≡ p.to_generation
  pub same_topology : c.topology_digest ≡ p.topology_digest
  pub same_mode : c.recovery_mode ≡ p.recovery_mode
  pub same_checkpoint :
      (c.checkpoint_source ≡ p.checkpoint_source)
      × (c.checkpoint_step ≡ p.checkpoint_step)
      × (c.checkpoint_id ≡ p.checkpoint_id)
      × (c.checkpoint_manifest_id ≡ p.checkpoint_manifest_id)
  pub same_reason : c.reason_code ≡ p.reason_code
  pub same_deadline : c.restart_deadline_monotonic_ns ≡ deadline

slot_at :
    (k i : ℕ) (xs : List SlotAssignment) {a : SlotAssignment}
    → slots xs ≡ range_from k (length xs)
    → get_elem? xs i ≡ some a
    → a.logical_node_slot ≡ k + i
slot_at k i [] d h = cc
slot_at k zero (x ∷ xs) {a} d h =
    let head : x.logical_node_slot ≡ k = cc in
    let same : x.logical_node_slot ≡ a.logical_node_slot = cc in omega (arith, head, same)
slot_at k (suc i) (x ∷ xs) {a} d h =
    let rest : a.logical_node_slot ≡ suc k + i = slot_at (suc k) i xs (cc) h in omega (arith, rest)

-- For a plan that the constructor returned, whose assignments the constructor of `SlotAssignment`
-- accepts, and a deadline of at least 1, every node that the plan assigns gets a context: it has the
-- slot and the ranks of the node's entry in the plan, which stands at this slot, the ranks lie inside
-- the world, and all else is the plan's.
pub from_plan_total :
    (given p : RestartPlan) (node : String) (deadline : ℤ)
    → restart_plan given ≡ return p
    → All IsSlot p.slot_assignments
    → AtLeast 1 deadline
    → contains (node_ids p.slot_assignments) node ≡ true
    → (c : RestartContext) × (from_plan p node deadline ≡ return c) × IsPartOf p node deadline c
from_plan_total given p node deadline h made d m =
    let v = restart_plan-IsValid given h in
    let (a, found, same) = find_node-contains p.slot_assignments node m in
    let (i, there) = find_node-get_elem? p.slot_assignments node found in
    let at_slot = slot_at 0 i p.slot_assignments v.placed.canonical.in_order there in
    let slot : a.logical_node_slot ≡ i = omega (arith, at_slot) in
    let is_slot = find_node-All IsSlot p.slot_assignments node found made in
    let fits = find_node-Fits v.placed.size p.slot_assignments node v.placed.canonical found in
    (
      context_of p a deadline,
      from_plan_found p node deadline found
          ∙ restart_context_passes (context_of p a deadline)
              (check_ranks_passes p a deadline v is_slot fits)
              (check_recovery_passes p a deadline v d),
      record {
        slot = i;
        own = a;
        assigned = there;
        own_name = same;
        same_node = same;
        same_slot = (slot, slot);
        same_first_rank = refl;
        same_size = refl;
        in_world = omega (arith, fits.same_size, v.placed.world, fits.inside);
        same_world = refl;
        same_plan = (refl, refl);
        same_generation = refl;
        same_topology = refl;
        same_mode = refl;
        same_checkpoint = (refl, refl, refl, refl);
        same_reason = refl;
        same_deadline = refl;
      },
    )
