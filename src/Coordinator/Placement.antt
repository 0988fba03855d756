-- ===== src/Coordinator/Placement.antt =====
-- A replacement keeps the placement legal.
use text.Mathlib.TextEquality.{eq_iff}
use lm_resiliency.Base.{
  ℕ, zero, suc, ◌≡◌, refl, inl, inr, true, false, List, [], ◌∷◌, ◌++◌, some, String, ◌==◌, nat_eq,
  string_eq, length, length-set, set, get_elem?, All, contains, overlaps, Distinct, append-Distinct,
  unique→Distinct, Distinct→unique, contains-append, contains-All, Option-cases, arith, beq_refl,
}
use lm_resiliency.Coordinator.{non_empty, check_nodes, replace_node}

-- Active nodes are there and differ, quarantined nodes differ, and no node is both.
pub record IsLegal (active quarantined : List String) : Type 0 where
  pub occupied : non_empty active ≡ true
  pub active_distinct : Distinct active
  pub quarantined_distinct : Distinct quarantined
  pub disjoint : All (λ n. contains quarantined n ≡ false) active

overlaps-All : (xs ys : List String) → overlaps xs ys ≡ false → All (λ n. contains ys n ≡ false) xs
overlaps-All [] ys h = tt
overlaps-All (x ∷ xs) ys h = ground (arith, overlaps-All xs ys)

pub All-overlaps :
    (xs ys : List String) → All (λ n. contains ys n ≡ false) xs → overlaps xs ys ≡ false
All-overlaps [] ys h = refl
All-overlaps (x ∷ xs) ys h = ground (arith, All-overlaps xs ys h.1)

pub check_nodes-IsLegal :
    (active quarantined : List String)
    → check_nodes active quarantined ≡ true
    → IsLegal active quarantined
unfolding check_nodes
check_nodes-IsLegal active quarantined h = record {
  occupied = ground arith;
  active_distinct = unique→Distinct active (ground arith);
  quarantined_distinct = unique→Distinct quarantined (ground arith);
  disjoint = overlaps-All active quarantined (ground arith);
}

pub IsLegal-check_nodes :
    (active quarantined : List String)
    → IsLegal active quarantined
    → check_nodes active quarantined ≡ true
unfolding check_nodes
IsLegal-check_nodes active quarantined v = ground (
  arith,
  v.occupied,
  Distinct→unique active v.active_distinct,
  Distinct→unique quarantined v.quarantined_distinct,
  All-overlaps active quarantined v.disjoint,
)

set-All {ℓ} :
    (P : String → Type ℓ) (xs : List String) (i : ℕ) (v : String)
    → All P xs
    → P v
    → All P (set xs i v)
set-All P [] i v h p = tt
set-All P (x ∷ xs) zero v h p = (p, h.1)
set-All P (x ∷ xs) (suc i) v h p = (h.0, set-All P xs i v h.1 p)

contains-set :
    (xs : List String) (i : ℕ) (v y : String)
    → contains xs y ≡ false
    → (v == y) ≡ false
    → contains (set xs i v) y ≡ false
contains-set [] i v y h n = refl
contains-set (x ∷ xs) zero v y h n = ground arith
contains-set (x ∷ xs) (suc i) v y h n = ground (arith, contains-set xs i v y)

set-Distinct :
    (xs : List String) (i : ℕ) (v : String)
    → Distinct xs
    → contains xs v ≡ false
    → Distinct (set xs i v)
set-Distinct [] i v d n = tt
set-Distinct (x ∷ xs) zero v d n = (ground arith, d.1)
set-Distinct (x ∷ xs) (suc i) v d n =
    ground (arith, contains-set xs i v x d.0, set-Distinct xs i v d.1, eq_iff x v, eq_iff v x)

get_elem?-contains :
    (xs : List String) (i : ℕ) {f : String} → get_elem? xs i ≡ some f → contains xs f ≡ true
get_elem?-contains [] i h = cc
get_elem?-contains (x ∷ xs) zero {f} h = let e : x ≡ f = cc in rw (← e) (ground (arith, beq_refl x))
get_elem?-contains (x ∷ xs) (suc i) {f} h = ground (arith, get_elem?-contains xs i {f = f} h)

-- The node that is replaced is not active any more.
contains-set_replaced :
    (xs : List String) (i : ℕ) (v : String) {f : String}
    → Distinct xs
    → contains xs v ≡ false
    → get_elem? xs i ≡ some f
    → contains (set xs i v) f ≡ false
contains-set_replaced [] i v d n h = cc
contains-set_replaced (x ∷ xs) zero v {f} d n h =
    let e : x ≡ f = cc in rw (← e) (ground (arith, eq_iff x v, eq_iff v x, d.0))
contains-set_replaced (x ∷ xs) (suc i) v {f} d n h = ground (
  arith,
  contains-set_replaced xs i v {f = f} d.1,
  get_elem?-contains xs i {f = f} h,
  eq_iff x f,
  d.0,
)

-- What a replacement gives.
record IsReplacement (active quarantined : List String) (node : String) (next history : List String)
    : Type 0 where
  failed : String
  was_active : contains active failed ≡ true
  nodes_fresh : (contains active node ≡ false) × (contains quarantined node ≡ false)
  slot : ℕ
  in_slot : get_elem? active slot ≡ some failed
  next_lem : next ≡ set active slot node
  history_lem : history ≡ quarantined ++ failed ∷ []

replaced-IsReplacement :
    (active quarantined : List String) (slot : ℕ) (node : String) {next history : List String}
    → replace_node active quarantined slot node ≡ some (next, history)
    → IsReplacement active quarantined node next history
unfolding replace_node
replaced-IsReplacement active quarantined slot node h =
    elim (Option-cases (get_elem? active slot)) [
      | inl absent ↦ absurd (ground (arith, absent))
      | inr (f, there) ↦ record {
        failed = f;
        was_active = get_elem?-contains active slot there;
        nodes_fresh = (ground (arith, there), ground (arith, there));
        slot = slot;
        in_slot = there;
        next_lem = ground (arith, there);
        history_lem = ground (arith, there);
      }
    ]

snoc-All :
    (f : String) (q xs : List String)
    → contains xs f ≡ false
    → All (λ n. contains q n ≡ false) xs
    → All (λ n. contains (q ++ f ∷ []) n ≡ false) xs
snoc-All f q [] h p = tt
snoc-All f q (x ∷ xs) h p = ground (
  arith,
  contains-append q (f ∷ []) x,
  snoc-All f q xs (ground arith) p.1,
  eq_iff x f,
  eq_iff f x,
)

non_empty-set :
    (xs : List String) (i : ℕ) (v : String) → non_empty xs ≡ true → non_empty (set xs i v) ≡ true
non_empty-set [] i v h = cc
non_empty-set (x ∷ xs) zero v h = refl
non_empty-set (x ∷ xs) (suc i) v h = refl

-- A replacement in a legal placement gives a legal placement of as many nodes. The node that it
-- takes out was active, is quarantined behind the earlier history, and is not active any more; the
-- node that it puts in was neither active nor quarantined.
pub replace_node-IsLegal :
    (active quarantined : List String) (slot : ℕ) (node : String) {next history : List String}
    → IsLegal active quarantined
    → replace_node active quarantined slot node ≡ some (next, history)
    → IsLegal next history
      × (length next ≡ length active)
      × (contains active node ≡ false)
      × (contains quarantined node ≡ false)
      × ((failed : String) × (contains active failed ≡ true)
          × (history ≡ quarantined ++ failed ∷ [])
          × (contains next failed ≡ false))
replace_node-IsLegal active quarantined slot node {next} {history} v h =
    let r = replaced-IsReplacement active quarantined slot node h in
    let gone : contains (set active r.slot node) r.failed ≡ false =
      contains-set_replaced active r.slot node v.active_distinct r.nodes_fresh.0 r.in_slot in
    let was_free : contains quarantined r.failed ≡ false =
      contains-All (λ n. contains quarantined n ≡ false) active r.failed r.was_active v.disjoint in
    let legal : IsLegal (set active r.slot node) (quarantined ++ r.failed ∷ []) = record {
      occupied = non_empty-set active r.slot node v.occupied;
      active_distinct = set-Distinct active r.slot node v.active_distinct r.nodes_fresh.0;
      quarantined_distinct = append-Distinct quarantined r.failed v.quarantined_distinct was_free;
      disjoint = snoc-All r.failed quarantined (set active r.slot node) gone (
          set-All (λ n. contains quarantined n ≡ false) active r.slot node v.disjoint
            r.nodes_fresh.1);
    } in
    (
      rw (r.next_lem, r.history_lem) legal,
      rw (r.next_lem) (length-set active r.slot node),
      r.nodes_fresh.0,
      r.nodes_fresh.1,
      (r.failed, r.was_active, r.history_lem, rw (r.next_lem) gone),
    )
