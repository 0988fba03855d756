-- ===== src/Protocol/Context/Accepted.antt =====
-- What makes the constructor of a context accept the part of a valid plan.
use lm_resiliency.Base.{
  ℕ, suc, ◌+◌, ◌*◌, ◌%◌, ◌<◌, ◌≤◌, ◌≡◌, ◌∙◌, inl, inr, true, List, [], ◌∷◌, some, String, arith,
  leb, ◌==◌, nat_eq, string_eq, nat_beq_iff, le→leb, length, All, range_from, return, Bool-cases,
}
use native.Mathlib.Nat.{mul-mod_left}
use lm_resiliency.Base.Int.{ℤ, pos}
use lm_resiliency.Protocol.Assignment.{SlotAssignment, slots}
use lm_resiliency.Protocol.Assignment.Wire.{IsSlot}
use lm_resiliency.Protocol.Assignment.Canonical.{Canonical, world_size}
use lm_resiliency.Protocol.Plan.{RestartPlan, modes, sources}
use lm_resiliency.Protocol.Plan.Validity.{AtLeast, IsValid}
use lm_resiliency.Protocol.Plan.Wire.{
  check_text_passes, check_number_passes, check_choice_passes, source_passes,
}
use lm_resiliency.Protocol.Context.{
  RestartContext, check_ranks, check_recovery, restart_context, find_node, context_of,
}

module _ (P : SlotAssignment → Type 0) where
  pub find_node-All :
      (xs : List SlotAssignment) (node : String) {a : SlotAssignment}
      → find_node xs node ≡ some a
      → All P xs
      → P a
  find_node-All [] node h p = cc
  find_node-All (x ∷ xs) node {a} h p = elim (Bool-cases (x.node_id == node)) [
    | inl hit ↦ let e : x ≡ a = ground (arith, hit) in rw e at (p.0)
    | inr miss ↦ find_node-All xs node (ground (arith, miss)) p.1
  ]

world_size_lem :
    (size : ℕ) (xs : List SlotAssignment)
    → All (λ b. b.local_world_size ≡ size) xs
    → world_size xs ≡ length xs * size
world_size_lem size [] h = omega arith
world_size_lem size (x ∷ xs) h = grind (arith, world_size_lem size xs h.1)

slots_below :
    (k n : ℕ) (xs : List SlotAssignment)
    → k + length xs ≤ n
    → slots xs ≡ range_from k (length xs)
    → All (λ b. b.logical_node_slot < n) xs
slots_below k n [] bound h = tt
slots_below k n (x ∷ xs) bound h =
    let first : x.logical_node_slot ≡ k = cc in
    (omega arith, slots_below (suc k) n xs (omega arith) (cc))

-- What one assignment of a canonical list satisfies.
pub record Fits (size world : ℕ) (a : SlotAssignment) : Type 0 where
  pub same_size : a.local_world_size ≡ size
  pub starts : a.first_global_rank ≡ a.logical_node_slot * size
  pub inside : a.first_global_rank + size ≤ world

pub find_node-Fits :
    (size : ℕ) (xs : List SlotAssignment) (node : String) {a : SlotAssignment}
    → Canonical size xs
    → find_node xs node ≡ some a
    → Fits size (world_size xs) a
find_node-Fits size xs node {a} c h =
    let same = find_node-All (λ b. b.local_world_size ≡ size) xs node h c.sizes in
    let starts =
      find_node-All (λ b. b.first_global_rank ≡ b.logical_node_slot * size) xs node h c.ranks in
    let below =
      find_node-All (λ b. b.logical_node_slot < length xs) xs node h
        (slots_below 0 (length xs) xs (omega arith) c.in_order) in
    record {
      same_size = same;
      starts = starts;
      inside =
          rank_bound a.logical_node_slot (length xs) size below starts
            (world_size_lem size xs c.sizes);
    }
  where
    rank_bound : (s n z : ℕ) → s < n → {f w : ℕ} → f ≡ s * z → w ≡ n * z → f + z ≤ w
    rank_bound s n z h e g = grind arith

pub check_ranks_passes :
    (p : RestartPlan) (a : SlotAssignment) (deadline : ℤ) (v : IsValid p)
    → IsSlot a
    → Fits v.placed.size (world_size p.slot_assignments) a
    → check_ranks (context_of p a deadline) ≡ return tt
unfolding check_ranks
check_ranks_passes p a deadline v slot fits =
    let size = v.placed.size in
    let total : p.expected_world_size ≡ length p.slot_assignments * size =
      v.placed.world ∙ world_size_lem size p.slot_assignments v.placed.canonical.sizes in
    let starts : (a.first_global_rank == a.logical_node_slot * a.local_world_size) ≡ true =
      (nat_beq_iff _ _).1 (rw (fits.same_size) (fits.starts)) in
    let complete : (p.expected_world_size % a.local_world_size == 0) ≡ true =
      (nat_beq_iff _ _).1
        (rw (fits.same_size, total) (mul-mod_left (length p.slot_assignments) size)) in
    let inside : leb (a.first_global_rank + a.local_world_size) p.expected_world_size ≡ true =
      rw (fits.same_size, v.placed.world) (le→leb _ _ fits.inside) in
    rw
      (
        check_text_passes p.plan_id "RestartContext.plan_id" v.identified.plan_named,
        check_text_passes p.run_id "RestartContext.run_id" v.identified.run_named,
        check_number_passes (pos p.to_generation) "RestartContext.generation" 1
            (omega (arith, v.identified.successor)),
        check_text_passes a.node_id "RestartContext.node_id" slot.named,
        check_number_passes (pos a.logical_node_slot) "RestartContext.logical_node_slot" 0
            (omega arith),
        check_number_passes (pos a.first_global_rank) "RestartContext.first_global_rank" 0
            (omega arith),
        check_number_passes (pos a.local_world_size) "RestartContext.local_world_size" 1
            slot.some_worker,
        starts,
        check_number_passes (pos p.expected_world_size) "RestartContext.expected_world_size" 1
            v.placed.some_rank,
        complete,
        inside,
      )
      (check_text_passes p.topology_digest "RestartContext.topology_digest" v.placed.topology_named)

pub check_recovery_passes :
    (p : RestartPlan) (a : SlotAssignment) (deadline : ℤ)
    → IsValid p
    → AtLeast 1 deadline
    → check_recovery (context_of p a deadline) ≡ return tt
unfolding check_recovery
check_recovery_passes p a deadline v d =
    let r = v.restorable in
    let (known, optional_ok, durable_ok, gemini_ok) =
      source_passes p.checkpoint_source "RestartContext.checkpoint_id" p.checkpoint_id r.source in
    rw
      (
        check_choice_passes p.recovery_mode "RestartContext.recovery_mode" modes r.mode_named
            r.mode,
        check_choice_passes p.checkpoint_source "RestartContext.checkpoint_source" sources
            r.source_named known,
        check_number_passes p.checkpoint_step "RestartContext.checkpoint_step" 1 r.step,
        optional_ok,
        durable_ok,
        gemini_ok,
        check_text_passes p.checkpoint_manifest_id "RestartContext.checkpoint_manifest_id"
            r.manifest_named,
        check_text_passes p.reason_code "RestartContext.reason_code" v.identified.reason_named,
      )
      (check_number_passes deadline "RestartContext.restart_deadline_monotonic_ns" 1 d)

pub restart_context_passes :
    (c : RestartContext)
    → check_ranks c ≡ return tt
    → check_recovery c ≡ return tt
    → restart_context c ≡ return c
unfolding restart_context
restart_context_passes c h g = rw (h, g)
