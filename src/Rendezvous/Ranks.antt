-- ===== src/Rendezvous/Ranks.antt =====
-- The rank that a poll finds.
use lm_resiliency.Base.{
  ℕ, ◌≡◌, refl, sym, ap, ◌∙◌, inl, inr, Bool, true, false, List, Option, none, some, String, ◌==◌,
  nat_eq, string_eq, length-map, arith, Bool-cases, return, range_from,
}
use lm_resiliency.Protocol.Assignment.{node_ids}
use lm_resiliency.Protocol.Plan.{RestartPlan}
use lm_resiliency.PlanStore.Platform.{Platform}
use lm_resiliency.PlanStore.Actions.{pure, >>=-eq-return}
use lm_resiliency.PlanStore.Publish.{current_generation, read}
use lm_resiliency.PlanStore.Publish.Trusted.{IsTrusted, read-IsTrusted}
use lm_resiliency.PlanStore.Registry.{ensure_initial_nodes}
use lm_resiliency.Rendezvous.Group.{
  Placement, unregistered, NodeAssignment, enumerated, planned, initial, slot_of, superseded,
  parked, placed, placement_of, is_old, successor_assignment, assignment, unless_late,
  poll_generation, poll_placement,
}
use lm_resiliency.Rendezvous.Members.{
  names, enumerated-IsDense, places-planned, AreMembers, IsRanked, names-enumerated, names-planned,
  IsGroup, placed_at, registered, from_plan,
}

module _ (p : Platform) (run_id : String) (min_nodes max_nodes : ℕ) where
  open p use {State}

  pure_value : {A : Type 0} (a b : A) (u t : State) → pure a u ≡ (return b, t) → a ≡ b
  pure_value a b u t h = cc

  initial-IsGroup :
      (M : List String → Type 0) (o : Option (List String)) (group : List NodeAssignment)
      → ((nodes : List String) → o ≡ some nodes → M nodes)
      → initial o ≡ some group
      → IsGroup M group
  initial-IsGroup M none group m h = cc
  initial-IsGroup M (some nodes) group m h =
      let same : enumerated 0 nodes ≡ group = cc in
      rw (← same) (record {
        dense = enumerated-IsDense 0 nodes;
        members = rw (names-enumerated 0 nodes) (m nodes refl);
      })

  successor-IsGroup :
      (M : List String → Type 0) (g : ℕ) (o : Option RestartPlan) (v w : State)
      (got : Option (List NodeAssignment)) (group : List NodeAssignment)
      → ((plan : RestartPlan)
          → o ≡ some plan
          → IsTrusted p run_id g plan × M (node_ids plan.slot_assignments))
      → successor_assignment p run_id min_nodes max_nodes o v ≡ (return got, w)
      → got ≡ some group
      → IsGroup M group
  successor-IsGroup M g none v w got group t h e = cc
  successor-IsGroup M g (some plan) v w got group t h e =
      let same : planned plan.slot_assignments ≡ group = cc in
      let (trusted, m) = t plan refl in
      rw (← same) (record {
        dense =
            places-planned plan.slot_assignments
            ∙ trusted.valid.placed.canonical.in_order
            ∙ ap (range_from 0) (sym (length-map _ plan.slot_assignments));
        members = rw (names-planned plan.slot_assignments) m;
      })

  assignment-IsGroup :
      (s : State) (g : ℕ) (o : Option RestartPlan) (u v w : State)
      (got : Option (List NodeAssignment)) (group : List NodeAssignment)
      → current_generation p run_id s ≡ (return g, u)
      → read p run_id g u ≡ (return o, v)
      → assignment p run_id min_nodes max_nodes g o v ≡ (return got, w)
      → got ≡ some group
      → IsGroup (AreMembers p run_id min_nodes max_nodes s g) group
  unfolding assignment
  assignment-IsGroup s g o u v w got group now has_plan h e = elim (Bool-cases (g == 0)) [
    | inl first ↦
        let (nodes, t, made, done) =
          >>=-eq-return (ensure_initial_nodes p run_id min_nodes max_nodes) _ v w (rw first at h) in
        let same : initial nodes ≡ got = pure_value (initial nodes) got t w done in
        initial-IsGroup _ nodes group
          (λ ns here.
            registered ns o u v t (ground (arith, first)) now has_plan
              (made ∙ ap (λ (x : Option (List String)). (return x, t)) here))
          (same ∙ e)
    | inr later ↦
        successor-IsGroup _ g o v w got group
          (λ plan same.
            let found : read p run_id g u ≡ (return (some plan), v) =
              has_plan ∙ ap (λ (x : Option RestartPlan). (return x, v)) same in
            let trusted = (read-IsTrusted p run_id g u plan (ap (λ r. r.0) found)).0 in
            (trusted, from_plan plan u v now found trusted))
          (rw later at h) e
  ]

  in_time_or_raised :
      (late : Bool) (found q : Placement) (u t : State)
      → unless_late p run_id min_nodes max_nodes late found u ≡ (return q, t)
      → found ≡ q
  in_time_or_raised true superseded q u t h = cc
  in_time_or_raised true unregistered q u t h = cc
  in_time_or_raised true parked q u t h = cc
  in_time_or_raised true (placed g r n) q u t h = cc
  in_time_or_raised false superseded q u t h = cc
  in_time_or_raised false unregistered q u t h = cc
  in_time_or_raised false parked q u t h = cc
  in_time_or_raised false (placed g r n) q u t h = cc

  placement-IsRanked :
      (s : State) (generation : ℕ) (node : String) (o : Option (List NodeAssignment))
      {g rank world : ℕ}
      → ((group : List NodeAssignment)
          → o ≡ some group
          → IsGroup (AreMembers p run_id min_nodes max_nodes s generation) group)
      → placement_of generation node o ≡ placed g rank world
      → IsRanked p run_id min_nodes max_nodes s node g rank world
  placement-IsRanked s generation node none k h = cc
  placement-IsRanked s generation node (some group) k h =
      let (same, size, there, below) =
        placed_at generation node group (slot_of group node) (k group refl).dense refl h in
      record {
        nodes = names group;
        members = rw same at (k group refl).members;
        size = size;
        at_rank = there;
        in_world = below;
      }

  poll_generation-IsRanked :
      (late : Bool) (generation : ℕ) (node : String) (s u s' : State) {g rank world : ℕ}
      → current_generation p run_id s ≡ (return generation, u)
      → poll_generation p run_id min_nodes max_nodes late generation node u
        ≡ (return (placed g rank world), s')
      → IsRanked p run_id min_nodes max_nodes s node g rank world
  poll_generation-IsRanked late generation node s u s' {g} {rank} {world} now h =
      let (plan, v, has_plan, rest) = >>=-eq-return (read p run_id generation) _ u s' h in
      let (got, w, has_group, done) =
        >>=-eq-return (assignment p run_id min_nodes max_nodes generation plan) _ v s' rest in
      placement-IsRanked s generation node got
        (λ group e. assignment-IsGroup s generation plan u v w got group now has_plan has_group e)
        (in_time_or_raised late (placement_of generation node got) (placed g rank world) w s' done)

  -- A poll that finds a rank for the node, whatever stands in the store: in generation 0 the members are the
  -- nodes that the registration returned to the poll, in its order; in a later one they are the nodes of
  -- the plan that the store held for this generation, by slot, and the plan is valid and of this run and
  -- generation. The world's size is the number of the members, and the node is the one at its rank.
  pub poll_placement-IsRanked :
      (late : Bool) (last : Option ℕ) (node : String) (s s' : State) {g rank world : ℕ}
      → poll_placement p run_id min_nodes max_nodes late last node s
        ≡ (return (placed g rank world), s')
      → IsRanked p run_id min_nodes max_nodes s node g rank world
  unfolding poll_placement
  poll_placement-IsRanked late last node s s' {g} {rank} {world} h =
      let (generation, u, now, rest) = >>=-eq-return (current_generation p run_id) _ s s' h in
      elim (Bool-cases (is_old last generation)) [
        | inl old ↦
            let wrong : superseded ≡ placed g rank world =
              in_time_or_raised late superseded (placed g rank world) u s' (rw old at rest) in
            absurd (cc)
        | inr new ↦ poll_generation-IsRanked late generation node s u s' now (rw new at rest)
      ]
