-- ===== src/Coordinator/Planning.antt =====
-- The plan of a legal placement is one that the protocol accepts.
use lm_resiliency.Base.{
  ℕ, zero, suc, ◌*◌, ◌≡◌, ◌<◌, ◌≤◌, refl, ap, true, false, not, List, [], ◌∷◌, String, nat_eq,
  string_eq, length, All, all, contains, range_from, Distinct→unique, return, arith,
}
use lm_resiliency.Protocol.Value.{is_blank}
use lm_resiliency.Protocol.Assignment.{SlotAssignment, slots, node_ids}
use lm_resiliency.Protocol.Assignment.Canonical.{Canonical, world_size}
use lm_resiliency.Protocol.Assignment.Wire.{slot_assignment_again}
use lm_resiliency.Protocol.Plan.{RestartPlan, modes}
use lm_resiliency.Protocol.Plan.Validity.{AtLeast, HasSource, IsValid}
use lm_resiliency.Protocol.Plan.Wire.{restart_plan_again}
use lm_resiliency.Coordinator.{
  Request, non_empty, assignment_at, slot_assignments, plan_for, build_plan,
}
use lm_resiliency.Coordinator.Placement.{IsLegal, All-overlaps}

-- The assignments of consecutive slots.
abbrev pub assigned : ℕ → ℕ → List String → List SlotAssignment
assigned size slot [] = []
assigned size slot (n ∷ ns) = assignment_at size slot n ∷ assigned size (suc slot) ns

abbrev pub Named : List String → Type 0
Named = All (λ n. is_blank n ≡ false)

slot_assignments-assigned :
    (size slot : ℕ) (ns : List String)
    → 1 ≤ size
    → Named ns
    → slot_assignments size slot ns ≡ return (assigned size slot ns)
unfolding slot_assignments
slot_assignments-assigned size slot [] h b = refl
slot_assignments-assigned size slot (n ∷ ns) h b = rw (
  slot_assignment_again (assignment_at size slot n) (record { named = b.0; some_worker = h }),
  slot_assignments-assigned size (suc slot) ns h b.1,
)

length-assigned : (size slot : ℕ) (ns : List String) → length (assigned size slot ns) ≡ length ns
length-assigned size slot [] = refl
length-assigned size slot (n ∷ ns) = ap suc (length-assigned size (suc slot) ns)

slots-assigned :
    (size slot : ℕ) (ns : List String)
    → slots (assigned size slot ns) ≡ range_from slot (length (assigned size slot ns))
slots-assigned size slot [] = refl
slots-assigned size slot (n ∷ ns) = ap (λ l. slot ∷ l) (slots-assigned size (suc slot) ns)

node_ids-assigned : (size slot : ℕ) (ns : List String) → node_ids (assigned size slot ns) ≡ ns
node_ids-assigned size slot [] = refl
node_ids-assigned size slot (n ∷ ns) = ap (λ l. n ∷ l) (node_ids-assigned size (suc slot) ns)

assigned-All :
    (P : SlotAssignment → Type 0) (size : ℕ)
    → ((slot : ℕ) (n : String) → P (assignment_at size slot n))
    → (slot : ℕ) (ns : List String) → All P (assigned size slot ns)
assigned-All P size h slot [] = tt
assigned-All P size h slot (n ∷ ns) = (h slot n, assigned-All P size h (suc slot) ns)

world_size-assigned :
    (size slot : ℕ) (ns : List String) → length ns * size ≡ world_size (assigned size slot ns)
world_size-assigned size slot [] = omega arith
world_size-assigned size slot (n ∷ ns) = grind (arith, world_size-assigned size (suc slot) ns)

non_empty_lem : (ms : List String) → non_empty ms ≡ true → 0 < length ms
non_empty_lem [] h = cc
non_empty_lem (m ∷ ms) h = omega arith

some_rank : (n size : ℕ) → 0 < n → 1 ≤ size → 0 < n * size
some_rank zero size h w = omega arith
some_rank (suc n) size h w = grind arith

assigned-Canonical :
    (size : ℕ) (ns : List String) {q : List String}
    → IsLegal ns q
    → Canonical size (assigned size 0 ns)
assigned-Canonical size ns v = record {
  occupied = rw (length-assigned size 0 ns) (non_empty_lem ns v.occupied);
  in_order = slots-assigned size 0 ns;
  nodes = rw (node_ids-assigned size 0 ns) v.active_distinct;
  sizes = assigned-All (λ b. b.local_world_size ≡ size) size (λ slot n. refl) 0 ns;
  ranks =
      assigned-All (λ b. b.first_global_rank ≡ b.logical_node_slot * size) size (λ slot n. refl) 0
        ns;
}

-- The manager's part of a request: what the protocol asks of it.
pub record IsSound (run_id : String) (r : Request) : Type 0 where
  pub run_named : is_blank run_id ≡ false
  pub plan_named : is_blank r.plan_id ≡ false
  pub intent_named : is_blank r.intent_id ≡ false
  pub reason_named : is_blank r.reason_code ≡ false
  pub mode : contains modes r.recovery_mode ≡ true
  pub mode_named : is_blank r.recovery_mode ≡ false
  pub source_named : is_blank r.checkpoint_source ≡ false
  pub step : AtLeast 1 r.checkpoint_step
  pub source : HasSource r.checkpoint_source r.checkpoint_id
  pub manifest_named : is_blank r.checkpoint_manifest_id ≡ false
  pub topology_named : is_blank r.topology_digest ≡ false
  pub deadline : AtLeast 1 r.restart_deadline_unix_ms

all-not_blank : (ns : List String) → Named ns → all (λ s. not (is_blank s)) ns ≡ true
all-not_blank [] h = refl
all-not_blank (n ∷ ns) h = ground (arith, all-not_blank ns h.1)

module _ (run_id : String) (request : Request) (generation size : ℕ)
    (active quarantined : List String) (sound : IsSound run_id request)
    (legal : IsLegal active quarantined) (workers : 1 ≤ size) (active_named : Named active)
    (quarantined_named : Named quarantined) where
  abbrev the_plan : RestartPlan
  the_plan =
      plan_for run_id request generation size (assigned size 0 active) (length active) quarantined

  the_plan-IsValid : IsValid the_plan
  the_plan-IsValid = record {
    identified = record {
      plan_named = sound.plan_named;
      intent_named = sound.intent_named;
      run_named = sound.run_named;
      successor = refl;
      incidents = (rw sound.intent_named, refl);
      some_incident = omega arith;
      reason_named = sound.reason_named;
    };
    restorable = record {
      mode = sound.mode;
      mode_named = sound.mode_named;
      source_named = sound.source_named;
      step = sound.step;
      source = sound.source;
      manifest_named = sound.manifest_named;
    };
    placed = record {
      size = size;
      canonical = assigned-Canonical size active legal;
      quarantined = (
        all-not_blank quarantined quarantined_named,
        Distinct→unique quarantined legal.quarantined_distinct,
      );
      disjoint =
          rw (node_ids-assigned size 0 active) (All-overlaps active quarantined legal.disjoint);
      some_rank = some_rank (length active) size (non_empty_lem active legal.occupied) workers;
      world = world_size-assigned size 0 active;
      topology_named = sound.topology_named;
      deadline = sound.deadline;
    };
  }

  -- For a legal placement of named nodes, at least one worker each, and a sound request, the
  -- coordinator's plan is never refused: it assigns the nodes in their order to slots 0, 1, ...,
  -- and its world size counts all workers.
  pub build_plan_total :
      build_plan run_id request generation size active quarantined ≡ return the_plan
  unfolding build_plan
  build_plan_total =
      rw (slot_assignments-assigned size 0 active workers active_named)
        (restart_plan_again the_plan the_plan-IsValid)
