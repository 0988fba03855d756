-- ===== src/Rendezvous/Members.antt =====
-- The nodes of a generation, and the place of a node among them.
use text.Mathlib.TextEquality.{eq_iff}
use lm_resiliency.Base.{
  ℕ, suc, ◌+◌, ◌<◌, ◌≡◌, ◌⊎◌, refl, ap, ◌∙◌, inl, inr, Bool, true, false, List, [], ◌∷◌, map,
  Option, none, some, String, if◌then◌else◌, ◌==◌, nat_eq, string_eq, length, length-map, get_elem?,
  get_elem?-lt, arith, return, range_from,
}
use lm_resiliency.Protocol.Assignment.{SlotAssignment, slots, node_ids}
use lm_resiliency.Protocol.Plan.{RestartPlan}
use lm_resiliency.PlanStore.Platform.{Platform}
use lm_resiliency.PlanStore.Publish.{current_generation, read}
use lm_resiliency.PlanStore.Publish.Trusted.{IsTrusted}
use lm_resiliency.PlanStore.Registry.{ensure_initial_nodes}
use lm_resiliency.Rendezvous.Group.{NodeAssignment, enumerated, planned, slot_of, parked, placed}

abbrev pub names : List NodeAssignment → List String
names = map λ a. a.node_id

abbrev pub places : List NodeAssignment → List ℕ
places = map λ a. a.logical_node_slot

-- The slots of the group are 0, 1, ... in this order.
abbrev pub IsDense : ℕ → List NodeAssignment → Type 0
IsDense k group = places group ≡ range_from k (length group)

pub enumerated-IsDense : (k : ℕ) (ns : List String) → IsDense k (enumerated k ns)
enumerated-IsDense k [] = refl
enumerated-IsDense k (n ∷ ns) =
    ap (λ l. k ∷ l)
      (enumerated-IsDense (k + 1) ns ∙ ap (λ j. range_from j (length (enumerated (k + 1) ns))) next)
  where
    next : k + 1 ≡ suc k
    next = omega arith

pub places-planned : (xs : List SlotAssignment) → places (planned xs) ≡ slots xs
places-planned [] = refl
places-planned (x ∷ xs) = ap (λ l. x.logical_node_slot ∷ l) (places-planned xs)

pub either :
    (b : Bool) (slot : ℕ) (o : Option ℕ) {r : ℕ}
    → (if b then some slot else o) ≡ some r
    → ((b ≡ true) × (slot ≡ r)) ⊎ (o ≡ some r)
either true slot o {r} h = let same : slot ≡ r = cc in inl (refl, same)
either false slot o h = inr h

pub slot_of_lem :
    (k : ℕ) (group : List NodeAssignment) (node : String) (r : ℕ)
    → IsDense k group
    → slot_of group node ≡ some r
    → (i : ℕ) × (r ≡ k + i) × (get_elem? (names group) i ≡ some node)
slot_of_lem k [] node r d h = cc
slot_of_lem k (a ∷ rest) node r d h =
    let head : a.logical_node_slot ≡ k = cc in
    let tail : places rest ≡ range_from (suc k) (length rest) = cc in
    elim (either (a.node_id == node) a.logical_node_slot (slot_of rest node) h) [
      | inl (hit, slot) ↦ (0, omega (arith, head, slot), ap some ((eq_iff a.node_id node).0 hit))
      | inr later ↦
          let (i, at, there) = slot_of_lem (suc k) rest node r tail later in
          (suc i, omega (arith, at), there)
    ]

-- Whose nodes form the generation that a poll in this state reads: in generation 0 the nodes that the
-- registration returns, in its order, and else the nodes of the plan that the store holds, in the
-- order of its slots.
pub data AreMembers (p : Platform) (run_id : String) (min_nodes max_nodes : ℕ) (s : p.State) (g : ℕ)
    : List String → Type 0 where
  registered :
      (nodes : List String) (o : Option RestartPlan) (u v w : p.State)
      → g ≡ 0
      → current_generation p run_id s ≡ (return g, u)
      → read p run_id g u ≡ (return o, v)
      → ensure_initial_nodes p run_id min_nodes max_nodes v ≡ (return (some nodes), w)
      → AreMembers p run_id min_nodes max_nodes s g nodes
  from_plan :
      (plan : RestartPlan) (u v : p.State)
      → current_generation p run_id s ≡ (return g, u)
      → read p run_id g u ≡ (return (some plan), v)
      → IsTrusted p run_id g plan
      → AreMembers p run_id min_nodes max_nodes s g (node_ids plan.slot_assignments)

-- A rank is the place of the node among the nodes of its generation.
pub record IsRanked (p : Platform) (run_id : String) (min_nodes max_nodes : ℕ) (s : p.State)
    (node : String) (g rank world : ℕ) : Type 0 where
  pub nodes : List String
  pub members : AreMembers p run_id min_nodes max_nodes s g nodes
  pub size : length nodes ≡ world
  pub at_rank : get_elem? nodes rank ≡ some node
  pub in_world : rank < world

pub names-enumerated : (k : ℕ) (ns : List String) → names (enumerated k ns) ≡ ns
names-enumerated k [] = refl
names-enumerated k (n ∷ ns) = ap (λ l. n ∷ l) (names-enumerated (k + 1) ns)

pub names-planned : (xs : List SlotAssignment) → names (planned xs) ≡ node_ids xs
names-planned [] = refl
names-planned (x ∷ xs) = ap (λ l. x.node_id ∷ l) (names-planned xs)

-- The group of a generation: its slots are dense, and its names are the members.
pub record IsGroup (M : List String → Type 0) (group : List NodeAssignment) : Type 0 where
  pub dense : IsDense 0 group
  pub members : M (names group)

pub placed_at :
    (generation : ℕ) (node : String) (group : List NodeAssignment) (o : Option ℕ) {g rank world : ℕ}
    → IsDense 0 group
    → slot_of group node ≡ o
    → (elim o [ none ↦ parked | some slot ↦ placed generation slot (length group) ])
      ≡ placed g rank world
    → (generation ≡ g)
      × (length (names group) ≡ world)
      × (get_elem? (names group) rank ≡ some node)
      × (rank < world)
placed_at generation node group none d e h = cc
placed_at generation node group (some slot) {g} {rank} {world} d e h =
    let same_rank : slot ≡ rank = cc in
    let same_world : length group ≡ world = cc in
    let (i, at, there) = slot_of_lem 0 group node slot d e in
    let place : i ≡ rank = omega (arith, at, same_rank) in
    let found_there : get_elem? (names group) rank ≡ some node = rw place at there in
    let size : length (names group) ≡ world =
      length-map (λ (a : NodeAssignment). a.node_id) group ∙ same_world in
    let below = get_elem?-lt (names group) rank found_there in
    (cc, size, found_there, omega (arith, below, size))
