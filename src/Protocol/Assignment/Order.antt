-- ===== src/Protocol/Assignment/Order.antt =====
-- What `_assignments` establishes.
use lm_resiliency.Base.{
  ℕ, suc, ◌≤◌, ◌≡◌, refl, ap, ◌∙◌, inl, inr, true, false, ◌||◌, List, [], ◌∷◌, map, arith, String,
  leb, ◌==◌, nat_eq, string_eq, Bool-cases, Eq, beq_refl, Rising, length, All, all, range_from,
  contains, set_of, unique, same_set, Distinct, return, require-eq-return,
}
use lm_resiliency.Protocol.Value.{
  invalid, slots_repeat, slots_sparse, nodes_repeat, local_sizes_differ, wrong_first_rank,
}
use lm_resiliency.Protocol.Assignment.{
  SlotAssignment, slots, node_ids, local_sizes, insert_slot, sort_slots, starts_at_slot,
  assignments,
}

-- What the checks of `_assignments` say, once they are passed.
pub record Passed (size : ℕ) (given : List SlotAssignment) : Type 0 where
  pub slots_unique : unique (slots given) ≡ true
  pub slots_dense : same_set (slots given) (range_from 0 (length (slots given))) ≡ true
  pub nodes_unique : unique (node_ids given) ≡ true
  pub one_size : (length (set_of (local_sizes given)) == 1) ≡ true
  pub ranks : all (starts_at_slot size) given ≡ true

pub assignments-Passed :
    (a : SlotAssignment) (rest : List SlotAssignment) (path : String) {out : List SlotAssignment}
    → assignments (a ∷ rest) path ≡ return out
    → Passed a.local_world_size (a ∷ rest) × (sort_slots (a ∷ rest) ≡ out)
unfolding assignments
assignments-Passed a rest path h =
    let given = a ∷ rest in
    let (c1, h1) = require-eq-return (unique (slots given)) (invalid path slots_repeat) _ h in
    let (c2, h2) = require-eq-return _ (invalid path slots_sparse) _ h1 in
    let (c3, h3) = require-eq-return _ (invalid path nodes_repeat) _ h2 in
    let (c4, h4) = require-eq-return _ (invalid path local_sizes_differ) _ h3 in
    let (c5, h5) = require-eq-return _ (invalid path wrong_first_rank) _ h4 in
    (
      record { slots_unique = c1; slots_dense = c2; nodes_unique = c3; one_size = c4; ranks = c5 },
      cc,
    )

module _ {B : Type 0} ⦃e : Eq B⦄ (key : SlotAssignment → B) where
  contains-insert_slot :
      (a : SlotAssignment) (xs : List SlotAssignment) (y : B)
      → contains (map key (insert_slot a xs)) y ≡ (key a == y || contains (map key xs) y)
  unfolding insert_slot
  contains-insert_slot a [] y = refl
  contains-insert_slot a (b ∷ bs) y = ground (arith, contains-insert_slot a bs y)

  contains-sort_slots :
      (xs : List SlotAssignment) (y : B)
      → contains (map key (sort_slots xs)) y ≡ contains (map key xs) y
  unfolding sort_slots
  contains-sort_slots [] y = refl
  contains-sort_slots (a ∷ rest) y =
      rw (contains-insert_slot a (sort_slots rest) y, contains-sort_slots rest y)

  insert_slot-Distinct :
      (a : SlotAssignment) (xs : List SlotAssignment)
      → contains (map key xs) (key a) ≡ false
      → Distinct (map key xs)
      → Distinct (map key (insert_slot a xs))
  unfolding insert_slot
  insert_slot-Distinct a [] h d = (refl, tt)
  insert_slot-Distinct a (b ∷ bs) h d = elim (Bool-cases (key a == key b)) [
    | inl same ↦ absurd (ground (arith, e.equal_iff (key a) (key b), beq_refl (key a)))
    | inr other ↦
        ground
          (arith, contains-insert_slot a bs (key b), insert_slot-Distinct a bs (ground arith) d.1)
  ]

  pub sort_slots-Distinct :
      (xs : List SlotAssignment) → Distinct (map key xs) → Distinct (map key (sort_slots xs))
  unfolding sort_slots
  sort_slots-Distinct [] d = tt
  sort_slots-Distinct (a ∷ rest) d =
      insert_slot-Distinct a (sort_slots rest) (contains-sort_slots rest (key a) ∙ d.0)
        (sort_slots-Distinct rest d.1)

module _ (P : SlotAssignment → Type 0) where
  insert_slot-All :
      (a : SlotAssignment) (xs : List SlotAssignment) → P a → All P xs → All P (insert_slot a xs)
  unfolding insert_slot
  insert_slot-All a [] h p = (h, tt)
  insert_slot-All a (b ∷ bs) h p = elim (Bool-cases (leb a.logical_node_slot b.logical_node_slot)) [
    | inl before ↦ rw before (h, p)
    | inr behind ↦ rw behind (p.0, insert_slot-All a bs h p.1)
  ]

  pub sort_slots-All : (xs : List SlotAssignment) → All P xs → All P (sort_slots xs)
  unfolding sort_slots
  sort_slots-All [] p = tt
  sort_slots-All (a ∷ rest) p = insert_slot-All a (sort_slots rest) p.0 (sort_slots-All rest p.1)

length-insert_slot :
    (a : SlotAssignment) (xs : List SlotAssignment) → length (insert_slot a xs) ≡ suc (length xs)
unfolding insert_slot
length-insert_slot a [] = refl
length-insert_slot a (b ∷ bs) = ground (arith, length-insert_slot a bs)

pub length-sort_slots : (xs : List SlotAssignment) → length (sort_slots xs) ≡ length xs
unfolding sort_slots
length-sort_slots [] = refl
length-sort_slots (a ∷ rest) =
    length-insert_slot a (sort_slots rest) ∙ ap suc (length-sort_slots rest)

insert_slot-Rising :
    (k : ℕ) (a : SlotAssignment) (xs : List SlotAssignment)
    → k ≤ a.logical_node_slot
    → contains (slots xs) a.logical_node_slot ≡ false
    → Rising k (slots xs)
    → Rising k (slots (insert_slot a xs))
unfolding insert_slot
insert_slot-Rising k a [] h c r = (h, tt)
insert_slot-Rising k a (b ∷ bs) h c r =
    ground (arith, insert_slot-Rising (suc b.logical_node_slot) a bs)

pub sort_slots-Rising :
    (xs : List SlotAssignment) → Distinct (slots xs) → Rising 0 (slots (sort_slots xs))
unfolding sort_slots
sort_slots-Rising [] d = tt
sort_slots-Rising (a ∷ rest) d =
    insert_slot-Rising 0 a (sort_slots rest) (omega arith)
      (contains-sort_slots (λ x. x.logical_node_slot) rest a.logical_node_slot ∙ d.0)
      (sort_slots-Rising rest d.1)
