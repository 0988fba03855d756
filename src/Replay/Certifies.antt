-- ===== src/Replay/Certifies.antt =====
-- The scheduler's turns and the shapes that a checkpoint candidate waits for.
use text.Mathlib.TextEquality.{eq_iff}
use lm_resiliency.Base.{
  get_elem?-lt, ℕ, zero, suc, ◌-◌, ◌<◌, ◌≡◌, refl, sym, ap, ◌∙◌, inl, inr, Bool, true, false, List,
  Option, [], ◌∷◌, ◌++◌, some, String, arith, get_elem?, take, drop, ◌==◌, nat_eq, string_eq,
  return, Bool-cases, Distinct, contains, beq_refl,
}
use mathlib.Core.List.{map-append}
use mathlib.Core.Option.{some_inj}
use lm_resiliency.Durable.Record.{index_of, rotate_at, rotate_shape_ids}
use lm_resiliency.Base.Int.{ℤ}
use lm_resiliency.Durable.Record.{DurableCheckpointRecord}
use lm_resiliency.Durable.Candidate.{
  DurableCheckpointCoordinator, Group, begin_candidate, committed,
}
use lm_resiliency.Durable.Begun.{begin_candidate-IsFresh}
use lm_resiliency.Durable.Progress.{IsUniform, replay_each, clean_cycle_commits}
use lm_resiliency.Protocol.Value.{Value}
use lm_resiliency.Durable.Record.{ReplayResult, replay_result_has_sdc}
use lm_resiliency.Durable.Evaluation.{observe}
use lm_resiliency.Durable.Whole.{whole_cycle_commits}
use lm_resiliency.Replay.AllToAll.{AllToAll}
use lm_resiliency.Replay.Sweep.{Replay, check_shape_cycle}
use lm_resiliency.Replay.Cycle.{check_shape_cycle-IsSweep}
use lm_resiliency.Replay.Shapes.{ReplayShape, shape_ids}
use lm_resiliency.Replay.Scheduler.{ReplayShapeScheduler, current_shape, advance}
use lm_resiliency.Replay.Turns.{found, visit, size, visit-cycle}

get_elem?-contains :
    (ids : List String) (p : ℕ) {x : String} → get_elem? ids p ≡ some x → contains ids x ≡ true
get_elem?-contains [] p h = cc
get_elem?-contains (i ∷ ids) zero {x} h =
    let same : i ≡ x = cc in rw same (ground (arith, beq_refl x))
get_elem?-contains (i ∷ ids) (suc p) h = ground (arith, get_elem?-contains ids p h)

index_of-Distinct :
    (ids : List String) (p : ℕ) {x : String}
    → Distinct ids
    → get_elem? ids p ≡ some x
    → index_of ids x ≡ some p
index_of-Distinct [] p d h = cc
index_of-Distinct (i ∷ ids) zero {x} d h =
    let same : i ≡ x = cc in rw same (ground (arith, beq_refl x))
index_of-Distinct (i ∷ ids) (suc p) {x} d h = elim (Bool-cases (i == x)) [
  | inl hit ↦
      let same : i ≡ x = (eq_iff i x).0 hit in
      let there : contains ids i ≡ true = ap (contains ids) same ∙ get_elem?-contains ids p h in
      absurd (ground (arith, d.0, there))
  | inr miss ↦ rw (miss, index_of-Distinct ids p d.1 h) refl
]

map-take : (n : ℕ) (xs : List ReplayShape) → shape_ids (take n xs) ≡ take n (shape_ids xs)
map-take zero xs = refl
map-take (suc n) [] = refl
map-take (suc n) (x ∷ xs) = ap (λ l. x.shape_id ∷ l) (map-take n xs)

map-drop : (n : ℕ) (xs : List ReplayShape) → shape_ids (drop n xs) ≡ drop n (shape_ids xs)
map-drop zero xs = refl
map-drop (suc n) [] = refl
map-drop (suc n) (x ∷ xs) = map-drop n xs

get_elem?-shape_ids :
    (xs : List ReplayShape) (p : ℕ) {x : ReplayShape}
    → get_elem? xs p ≡ some x
    → get_elem? (shape_ids xs) p ≡ some x.shape_id
get_elem?-shape_ids [] p h = cc
get_elem?-shape_ids (y ∷ ys) zero {x} h = let same : y ≡ x = cc in rw same refl
get_elem?-shape_ids (y ∷ ys) (suc p) h = get_elem?-shape_ids ys p h

-- For a plan of distinct shapes, the next turns, one for each shape, are on the very shapes, in the
-- very order, that a candidate which begins at the current shape waits for.
pub cycle_is_awaited :
    (s : ReplayShapeScheduler) {now : ReplayShape}
    → Distinct (shape_ids s.plan.shapes)
    → current_shape s ≡ some now
    → rotate_shape_ids (shape_ids s.plan.shapes) now.shape_id ≡ some (shape_ids (visit (size s) s))
unfolding rotate_shape_ids
cycle_is_awaited s {now} d h =
    let shapes = s.plan.shapes in
    let ids = shape_ids shapes in
    let turned : shape_ids (visit (size s) s) ≡ drop s.position ids ++ take s.position ids =
      ap shape_ids (visit-cycle s (get_elem?-lt shapes s.position h))
      ∙ map-append (λ x. x.shape_id) (drop s.position shapes) (take s.position shapes)
      ∙ ap (λ l. l ++ shape_ids (take s.position shapes)) (map-drop s.position shapes)
      ∙ ap (λ l. drop s.position ids ++ l) (map-take s.position shapes) in
    ap (rotate_at ids)
      (index_of-Distinct ids s.position d (get_elem?-shape_ids shapes s.position h))
    ∙ ap some (sym turned)

suc_of : (n : ℕ) {p : ℕ} → p < n → n ≡ suc (n - 1)
suc_of n h = omega arith

first_turn :
    (s : ReplayShapeScheduler) {now : ReplayShape}
    → current_shape s ≡ some now
    → shape_ids (visit (size s) s) ≡ now.shape_id ∷ shape_ids (visit (size s - 1) (advance s))
first_turn s h =
    ap (λ n. shape_ids (visit n s)) (suc_of (size s) (get_elem?-lt s.plan.shapes s.position h))
    ∙ ap (λ o. shape_ids (found o ++ visit (size s - 1) (advance s))) h

awaits_cycle :
    (g : Group) (s : ReplayShapeScheduler) (step : ℤ) (c : DurableCheckpointCoordinator)
    {now : ReplayShape} {r : DurableCheckpointRecord}
    → Distinct (shape_ids s.plan.shapes)
    → current_shape s ≡ some now
    → c.shape_ids ≡ shape_ids s.plan.shapes
    → (begin_candidate g step now.shape_id c).0 ≡ return r
    → r.expected_shape_ids ≡ shape_ids (visit (size s) s)
awaits_cycle g s step c {now} d h same b = some_inj.0 (
    sym (begin_candidate-IsFresh g step now.shape_id c b).awaits
    ∙ ap (λ l. rotate_shape_ids l now.shape_id) same
    ∙ cycle_is_awaited s d h)

-- A candidate that begins at the scheduler's current shape, in a group whose ranks all see the same, is
-- committed by clean replays of the scheduler's next turns, one for each shape of the plan.
pub scheduled_cycle_certifies :
    (s : ReplayShapeScheduler) {now : ReplayShape} (g : Group) (step later_step : ℤ)
    (c : DurableCheckpointCoordinator) {r : DurableCheckpointRecord}
    → Distinct (shape_ids s.plan.shapes)
    → current_shape s ≡ some now
    → c.shape_ids ≡ shape_ids s.plan.shapes
    → IsUniform g
    → (begin_candidate g step now.shape_id c).0 ≡ return r
    → (replay_each g
        (shape_ids (visit (size s) s))
        later_step
        (begin_candidate g step now.shape_id c).1).0
      ≡ committed
scheduled_cycle_certifies s {now} g step later_step c {r} d h same u b =
    let began = begin_candidate g step now.shape_id c in
    let fresh = begin_candidate-IsFresh g step now.shape_id c b in
    let turns = first_turn s h in
    let rest = shape_ids (visit (size s - 1) (advance s)) in
    ap (λ l. (replay_each g l later_step began.1).0) turns
    ∙ clean_cycle_commits g r now.shape_id rest later_step began.1 u fresh.is_pending (
        awaits_cycle g s step c d h same b
        ∙ turns
        ∙ ap (λ l. l ++ now.shape_id ∷ rest) (sym fresh.unchecked))

-- If a candidate has begun at the scheduler's current shape, in a group whose ranks all see the same, and
-- a sweep returns a result without divergence, then this one result commits the candidate.
pub clean_sweep_certifies :
    (s : ReplayShapeScheduler) {now : ReplayShape} (g : Group) (step later_step : ℤ)
    (c : DurableCheckpointCoordinator) {r : DurableCheckpointRecord} (digest : Value → String)
    (replay : Replay) (exchanges : Option AllToAll) (captured preserve : Bool)
    {result : ReplayResult}
    → Distinct (shape_ids s.plan.shapes)
    → current_shape s ≡ some now
    → c.shape_ids ≡ shape_ids s.plan.shapes
    → IsUniform g
    → (begin_candidate g step now.shape_id c).0 ≡ return r
    → (check_shape_cycle digest replay exchanges captured preserve s).0 ≡ return result
    → replay_result_has_sdc result ≡ false
    → (observe g (some result) later_step (begin_candidate g step now.shape_id c).1).0 ≡ committed
clean_sweep_certifies s {now} g step later_step c {r} digest replay exchanges captured preserve
      {result} d h same u b swept clean =
    let began = begin_candidate g step now.shape_id c in
    let fresh = begin_candidate-IsFresh g step now.shape_id c b in
    let turns = first_turn s h in
    let waits = awaits_cycle g s step c d h same b in
    let is_sweep = check_shape_cycle-IsSweep digest replay exchanges captured preserve s swept in
    whole_cycle_commits g r now.shape_id (shape_ids (visit (size s - 1) (advance s))) result
      later_step began.1 u fresh.is_pending
      (waits
        ∙ turns
        ∙ ap (λ l. l ++ now.shape_id ∷ shape_ids (visit (size s - 1) (advance s)))
            (sym fresh.unchecked))
      (is_sweep.checked
        ∙ ap (λ n. shape_ids (visit n s)) (is_sweep.clean_is_complete clean)
        ∙ turns)
      clean
