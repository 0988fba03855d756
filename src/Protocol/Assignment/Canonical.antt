-- ===== src/Protocol/Assignment/Canonical.antt =====
-- The assignments that `_assignments` returns: slots in order from 0, ranks without gap or overlap.
use lm_resiliency.Base.{
  ℕ, zero, suc, ◌+◌, ◌*◌, ◌≤◌, ◌<◌, ◌≡◌, refl, sym, ap, ◌∙◌, true, List, [], ◌∷◌, ◌++◌, map, arith,
  String, ◌==◌, nat_eq, string_eq, Eq, beq_refl, Rising, Rising-range, all-contains-range_from,
  set_of_one, set_of-All_one, range_from-contains, range_from-Distinct, range_from-append, length,
  All, all, range_from, contains, set_of, same_set, Distinct, unique→Distinct, Distinct→unique,
  return, length-map, nat_beq_iff,
}
use lm_resiliency.Protocol.Assignment.{
  SlotAssignment, slots, node_ids, local_sizes, insert_slot, sort_slots, starts_at_slot,
  assignments,
}
use lm_resiliency.Protocol.Assignment.Order.{
  Passed, assignments-Passed, sort_slots-Distinct, sort_slots-All, length-sort_slots,
  sort_slots-Rising,
}

-- The global ranks of the workers on one node, and those of a list of nodes in its order.
abbrev pub node_ranks : SlotAssignment → List ℕ
node_ranks a = range_from a.first_global_rank a.local_world_size

abbrev pub global_ranks : List SlotAssignment → List ℕ
global_ranks [] = []
global_ranks (a ∷ rest) = node_ranks a ++ global_ranks rest

-- `sum(assignment.local_world_size for assignment in assignments)`
abbrev pub world_size : List SlotAssignment → ℕ
world_size [] = 0
world_size (a ∷ rest) = a.local_world_size + world_size rest

pub record Canonical (size : ℕ) (out : List SlotAssignment) : Type 0 where
  pub occupied : 0 < length out
  pub in_order : slots out ≡ range_from 0 (length out)
  pub nodes : Distinct (node_ids out)
  pub sizes : All (λ b. b.local_world_size ≡ size) out
  pub ranks : All (λ b. b.first_global_rank ≡ b.logical_node_slot * size) out

all-starts_at_slot :
    (size : ℕ) (xs : List SlotAssignment)
    → all (starts_at_slot size) xs ≡ true
    → All (λ b. b.first_global_rank ≡ b.logical_node_slot * size) xs
all-starts_at_slot size [] h = tt
all-starts_at_slot size (x ∷ xs) h = ground (arith, all-starts_at_slot size xs)

All-starts_at_slot :
    (size : ℕ) (xs : List SlotAssignment)
    → All (λ b. b.first_global_rank ≡ b.logical_node_slot * size) xs
    → all (starts_at_slot size) xs ≡ true
All-starts_at_slot size [] h = refl
All-starts_at_slot size (x ∷ xs) h = ground (arith, All-starts_at_slot size xs h.1)

All-map {κ} :
    {B : Type 0} (f : SlotAssignment → B) (P : B → Type κ) (xs : List SlotAssignment)
    → All P (map f xs)
    → All (λ x. P (f x)) xs
All-map f P [] h = tt
All-map f P (x ∷ xs) h = (h.0, All-map f P xs h.1)

map-All {κ} :
    {B : Type 0} (f : SlotAssignment → B) (P : B → Type κ) (xs : List SlotAssignment)
    → All (λ x. P (f x)) xs
    → All P (map f xs)
map-All f P [] h = tt
map-All f P (x ∷ xs) h = (h.0, map-All f P xs h.1)

abbrev slot_of : SlotAssignment → ℕ
slot_of a = a.logical_node_slot

sort_slots-in_order :
    (xs : List SlotAssignment)
    → Distinct (slots xs)
    → all (contains (range_from 0 (length (slots xs)))) (slots xs) ≡ true
    → slots (sort_slots xs) ≡ range_from 0 (length (sort_slots xs))
sort_slots-in_order xs d h =
    let sorted = sort_slots xs in
    let total : length (slots xs) ≡ length (slots sorted) =
      length-map slot_of xs ∙ sym (length-sort_slots xs) ∙ sym (length-map slot_of sorted) in
    let below = all-contains-range_from 0 (length (slots xs)) (slots xs) h in
    let kept =
      sort_slots-All (λ a. a.logical_node_slot < 0 + length (slots xs)) xs
        (All-map slot_of (λ s. s < 0 + length (slots xs)) xs below) in
    let bound : All (λ s. s < 0 + length (slots sorted)) (slots sorted) =
      rw total at (map-All slot_of (λ s. s < 0 + length (slots xs)) sorted kept) in
    Rising-range 0 (slots sorted) (sort_slots-Rising xs d) bound
    ∙ ap (range_from 0) (length-map slot_of sorted)

Passed-Canonical :
    (a : SlotAssignment) (rest : List SlotAssignment)
    → Passed a.local_world_size (a ∷ rest)
    → Canonical a.local_world_size (sort_slots (a ∷ rest))
Passed-Canonical a rest p =
    let given = a ∷ rest in
    let size = a.local_world_size in
    record {
      occupied = omega (arith, length-sort_slots given);
      in_order =
          sort_slots-in_order given (unique→Distinct (slots given) p.slots_unique)
            (ground (arith, p.slots_dense));
      nodes =
          sort_slots-Distinct (λ b. b.node_id) given
            (unique→Distinct (node_ids given) p.nodes_unique);
      sizes =
          sort_slots-All (λ b. b.local_world_size ≡ size) given
            (All-map (λ b. b.local_world_size) (λ s. s ≡ size) given
              (set_of_one (local_sizes given) size ((nat_beq_iff _ 1).0 p.one_size)
                (ground (arith, beq_refl size))));
      ranks =
          sort_slots-All (λ b. b.first_global_rank ≡ b.logical_node_slot * size) given
            (all-starts_at_slot size given p.ranks);
    }

-- Whatever list of assignments `_assignments` accepts, the list that it returns has at least one
-- node, holds the slots 0, 1, ... in this order, assigns no node twice, gives every node the same
-- number of workers, and starts the node in slot s at rank s times that number.
pub assignments-Canonical :
    (given : List SlotAssignment) (path : String) {out : List SlotAssignment}
    → assignments given path ≡ return out
    → (size : ℕ) × Canonical size out
unfolding assignments
assignments-Canonical [] path h = cc
assignments-Canonical (a ∷ rest) path h =
    let (passed, sorted) = assignments-Passed a rest path h in
    (a.local_world_size, rw sorted at (Passed-Canonical a rest passed))

insert_slot_first :
    (a : SlotAssignment) (xs : List SlotAssignment)
    → Rising (suc a.logical_node_slot) (slots xs)
    → insert_slot a xs ≡ a ∷ xs
unfolding insert_slot
insert_slot_first a [] r = refl
insert_slot_first a (b ∷ bs) r = ground arith

sort_slots_sorted : (k : ℕ) (xs : List SlotAssignment) → Rising k (slots xs) → sort_slots xs ≡ xs
unfolding sort_slots
sort_slots_sorted k [] r = refl
sort_slots_sorted k (a ∷ rest) r =
    rw (sort_slots_sorted (suc a.logical_node_slot) rest r.1) (insert_slot_first a rest r.1)

range_from-Rising : (k n : ℕ) → Rising k (range_from k n)
range_from-Rising k zero = tt
range_from-Rising k (suc n) = (omega arith, range_from-Rising (suc k) n)

all-contains_self {ℓ} :
    {A : Type ℓ} ⦃e : Eq A⦄ (ys xs : List A)
    → All (λ x. contains ys x ≡ true) xs
    → all (contains ys) xs ≡ true
all-contains_self ys [] h = refl
all-contains_self ys (x ∷ xs) h = ground (arith, all-contains_self ys xs h.1)

range_from-All :
    (j m k n : ℕ)
    → j ≤ k
    → k + n ≤ j + m
    → All (λ x. contains (range_from j m) x ≡ true) (range_from k n)
range_from-All j m k zero h g = tt
range_from-All j m k (suc n) h g = (
  range_from-contains j m k h (omega arith),
  range_from-All j m (suc k) n (omega arith) (omega arith),
)

range_same_set : (n : ℕ) → same_set (range_from 0 n) (range_from 0 n) ≡ true
range_same_set n = ground (
  arith,
  all-contains_self (range_from 0 n) (range_from 0 n)
      (range_from-All 0 n 0 n (omega arith) (omega arith)),
)

one_local_size :
    (size : ℕ) (xs : List SlotAssignment)
    → 0 < length xs
    → All (λ b. b.local_world_size ≡ size) xs
    → (length (set_of (local_sizes xs)) == 1) ≡ true
one_local_size size [] n h = absurd (omega arith)
one_local_size size (a ∷ rest) n h = (nat_beq_iff _ 1).1 (
    rw h.0 (
      set_of-All_one size (local_sizes rest)
        (map-All (λ b. b.local_world_size) (λ s. s ≡ size) rest h.1)))

Canonical-Passed : (size : ℕ) (xs : List SlotAssignment) → Canonical size xs → Passed size xs
Canonical-Passed size xs c = record {
  slots_unique = Distinct→unique (slots xs) (rw c.in_order (range_from-Distinct 0 (length xs)));
  slots_dense = rw (length-map slot_of xs) (rw c.in_order (range_same_set (length xs)));
  nodes_unique = Distinct→unique (node_ids xs) c.nodes;
  one_size = one_local_size size xs c.occupied c.sizes;
  ranks = All-starts_at_slot size xs c.ranks;
}

Rising-slots : (size : ℕ) (xs : List SlotAssignment) → Canonical size xs → Rising 0 (slots xs)
Rising-slots size xs c = rw c.in_order (range_from-Rising 0 (length xs))

-- `_assignments` returns a list as it is, whichever path it reports, if the list has a node, holds the
-- slots 0, 1, ... in this order, no node twice, one number of workers, and ranks that fit.
pub assignments_again :
    {size : ℕ} (out : List SlotAssignment) (path : String)
    → Canonical size out
    → assignments out path ≡ return out
unfolding assignments
assignments_again [] path c = absurd (omega (arith, c.occupied))
assignments_again {size} (a ∷ rest) path c =
    let passed = Canonical-Passed size (a ∷ rest) c in
    let sorted = sort_slots_sorted 0 (a ∷ rest) (Rising-slots size (a ∷ rest) c) in
    ground (
      arith,
      passed.slots_unique,
      passed.slots_dense,
      passed.nodes_unique,
      passed.one_size,
      ap (λ s. all (starts_at_slot s) (a ∷ rest)) c.sizes.0,
      passed.ranks,
      sorted,
    )

-- From slot k on, consecutive slots of one size own consecutive ranks.
global_ranks_from :
    (size k : ℕ) (xs : List SlotAssignment)
    → slots xs ≡ range_from k (length xs)
    → All (λ b. b.local_world_size ≡ size) xs
    → All (λ b. b.first_global_rank ≡ b.logical_node_slot * size) xs
    → global_ranks xs ≡ range_from (k * size) (world_size xs)
global_ranks_from size k [] o s r = refl
global_ranks_from size k (x ∷ xs) o s r =
    let slot : x.logical_node_slot ≡ k = cc in
    let first : x.first_global_rank ≡ k * size = r.0 ∙ ap (λ j. j * size) slot in
    let rest = global_ranks_from size (suc k) xs (cc) s.1 r.1 in
    rw (first, s.0, rest, range_from-append (k * size) size (world_size xs))
      (ap (λ j. range_from (k * size) size ++ range_from j (world_size xs)) (grind arith))

-- The ranks of the returned nodes, node after node, are 0, 1, ... up to the world size: every
-- global rank below the world size is on exactly one node.
pub assignments_cover :
    (given : List SlotAssignment) (path : String) {out : List SlotAssignment}
    → assignments given path ≡ return out
    → global_ranks out ≡ range_from 0 (world_size out)
assignments_cover given path {out} h =
    let (size, c) = assignments-Canonical given path h in
    global_ranks_from size 0 out c.in_order c.sizes c.ranks
    ∙ ap (λ j. range_from j (world_size out)) (omega arith)
