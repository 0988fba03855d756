-- ===== src/Coordinator/History.antt =====
-- Successive placements of one run: a quarantined node never comes back.
use lm_resiliency.Base.{
  ℕ, ◌≡◌, refl, ◌∙◌, true, false, List, [], ◌∷◌, some, String, length, contains, contains-append,
  contains-All, arith, Bool-cases, inl, inr, string_eq,
}
use lm_resiliency.Coordinator.{replace_node}
use lm_resiliency.Coordinator.Placement.{IsLegal, replace_node-IsLegal}

-- Each successor keeps the placement or replaces one node.
pub data Succession (active quarantined : List String) : List String → List String → Type 0 where
  initial : Succession active quarantined active quarantined
  restarted :
      {b q : List String} → Succession active quarantined b q → Succession active quarantined b q
  moved :
      {b q c r : List String} (slot : ℕ) (node : String)
      → Succession active quarantined b q
      → replace_node b q slot node ≡ some (c, r)
      → Succession active quarantined c r

-- What a succession of placements has led to.
pub record IsAfter (active quarantined next history : List String) : Type 0 where
  pub legal : IsLegal next history
  pub same_size : length next ≡ length active
  pub kept : (n : String) → contains quarantined n ≡ true → contains history n ≡ true

-- From a legal placement, after any number of restarts and replacements the placement is legal, has
-- as many nodes, and every node that was quarantined at first still is.
pub Succession-IsAfter :
    {active quarantined next history : List String}
    → IsLegal active quarantined
    → Succession active quarantined next history
    → IsAfter active quarantined next history
Succession-IsAfter v initial = record { legal = v; same_size = refl; kept = λ n h. h }
Succession-IsAfter v (restarted s) = Succession-IsAfter v s
Succession-IsAfter {active} {quarantined} v (moved {b = b} {q = q} {r = r} slot node s e) =
    let before = Succession-IsAfter v s in
    let (legal, size, _, _, (failed, _, history, _)) =
      replace_node-IsLegal b q slot node before.legal e in
    record {
      legal = legal;
      same_size = size ∙ before.same_size;
      kept = λ n h. rw (history, contains-append q (failed ∷ []) n, before.kept n h);
    }

-- In every placement that follows a legal one, over any restarts and replacements, a node that was
-- quarantined at first is not active and is still quarantined.
pub quarantined_stays_out :
    {active quarantined next history : List String} (n : String)
    → IsLegal active quarantined
    → Succession active quarantined next history
    → contains quarantined n ≡ true
    → (contains next n ≡ false) × (contains history n ≡ true)
quarantined_stays_out {next = next} {history = history} n v s h =
    let after = Succession-IsAfter v s in
    elim (Bool-cases (contains next n)) [
      | inl active ↦ absurd (
          ground (
            arith,
            contains-All (λ m. contains history m ≡ false) next n active after.legal.disjoint,
            after.kept n h,
          ))
      | inr out ↦ (out, after.kept n h)
    ]
