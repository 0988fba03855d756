-- ===== src/Replay/Turns.antt =====
-- The scheduler turns through its plan without end.
use lm_resiliency.Base.{
  length-drop, take-all, drop_step, ℕ, zero, suc, ◌+◌, ◌-◌, ◌*◌, ◌<◌, ◌≤◌, ◌≡◌, refl, sym, ap, ◌∙◌,
  inl, inr, true, false, List, [], ◌∷◌, ◌++◌, Option, some, none, arith, take, drop, length, ◌==◌,
  nat_eq, string_eq, Bool-cases,
}
use mathlib.Core.List.{append_assoc}
use native.Mathlib.Nat.{zero-add, suc-add}
use lm_resiliency.Replay.Shapes.{ReplayShape}
use lm_resiliency.Replay.Scheduler.{ReplayShapeScheduler, current_shape, advance}

abbrev pub advance_times : ℕ → ReplayShapeScheduler → ReplayShapeScheduler
advance_times zero s = s
advance_times (suc n) s = advance_times n (advance s)

abbrev pub found : Option ReplayShape → List ReplayShape
found none = []
found (some x) = x ∷ []

-- The shapes of the next turns.
abbrev pub visit : ℕ → ReplayShapeScheduler → List ReplayShape
visit zero s = []
visit (suc n) s = found (current_shape s) ++ visit n (advance s)

abbrev pub size : ReplayShapeScheduler → ℕ
size s = length s.plan.shapes

-- All turns since the plan's first.
abbrev pub turns : ReplayShapeScheduler → ℕ
turns s = s.cycle * size s + s.position

pub record AfterTurns (n : ℕ) (s t : ReplayShapeScheduler) : Type 0 where
  pub same_plan : t.plan ≡ s.plan
  pub in_range : t.position < size t
  pub counted : turns t ≡ turns s + n

wrapped : (c l p : ℕ) → p + 1 ≡ l → (c + 1) * l + 0 ≡ c * l + p + 1
wrapped c l p h = grind arith

pub advance-AfterTurns :
    (s : ReplayShapeScheduler) → s.position < size s → AfterTurns 1 s (advance s)
unfolding advance
advance-AfterTurns s p = elim (Bool-cases (s.position + 1 == size s)) [
  | inl last ↦ rw last (record {
    same_plan = refl;
    in_range = omega arith;
    counted = wrapped s.cycle (size s) s.position (ground (arith, last));
  })
  | inr before ↦
      rw before (record { same_plan = refl; in_range = ground arith; counted = omega arith })
]

-- From a position in the plan, any number of turns leads to a position in the plan, and the cycles
-- and the position count all turns.
pub advance_times-AfterTurns :
    (n : ℕ) (s : ReplayShapeScheduler) → s.position < size s → AfterTurns n s (advance_times n s)
advance_times-AfterTurns zero s p = record { same_plan = refl; in_range = p; counted = omega arith }
advance_times-AfterTurns (suc n) s p =
    let one = advance-AfterTurns s p in
    let rest = advance_times-AfterTurns n (advance s) one.in_range in
    record {
      same_plan = rest.same_plan ∙ one.same_plan;
      in_range = rest.in_range;
      counted = rest.counted ∙ ap (λ k. k + n) one.counted ∙ omega arith;
    }

append-visit :
    (m n : ℕ) (s : ReplayShapeScheduler)
    → visit (m + n) s ≡ visit m s ++ visit n (advance_times m s)
append-visit zero n s = rw (zero-add) refl
append-visit (suc m) n s = rw (suc-add) (
    ap (λ l. found (current_shape s) ++ l) (append-visit m n (advance s))
    ∙ sym (append_assoc (found (current_shape s)) (visit m (advance s)) _))

advance_last :
    (s : ReplayShapeScheduler)
    → s.position + 1 ≡ size s
    → advance s ≡ record s { position = 0; cycle = s.cycle + 1 }
unfolding advance
advance_last s h = let last : (s.position + 1 == size s) ≡ true = ground (arith, h) in rw last refl

advance_before :
    (s : ReplayShapeScheduler)
    → s.position + 1 < size s
    → advance s ≡ record s { position = suc s.position }
unfolding advance
advance_before s h =
    let before : (s.position + 1 == size s) ≡ false = ground (arith, h) in
    rw before (ap (λ p. record s { position = p }) (omega arith))

visit_step :
    (k : ℕ) (s : ReplayShapeScheduler)
    → s.position < size s
    → visit k (advance s) ≡ take k (drop (suc s.position) s.plan.shapes)
    → visit (suc k) s ≡ take (suc k) (drop s.position s.plan.shapes)
visit_step k s h rest =
    let step = drop_step s.position s.plan.shapes h in
    ap (λ o. found o ++ visit k (advance s)) step.1
    ∙ ap (λ l. step.0 ∷ l) rest
    ∙ ap (take (suc k)) (sym step.2)

-- Turns that stay in the plan.
visit-ahead :
    (k : ℕ) (s : ReplayShapeScheduler)
    → s.position + k ≤ size s
    → visit k s ≡ take k (drop s.position s.plan.shapes)
visit-ahead zero s h = refl
visit-ahead (suc zero) s h = visit_step zero s (omega arith) refl
visit-ahead (suc (suc k)) s h = visit_step (suc k) s (omega arith) (
    ap (visit (suc k)) (advance_before s (omega arith))
    ∙ visit-ahead (suc k) (record s { position = suc s.position }) (omega arith))

advance_times-wrap :
    (k : ℕ) (s : ReplayShapeScheduler)
    → s.position + suc k ≡ size s
    → advance_times (suc k) s ≡ record s { position = 0; cycle = s.cycle + 1 }
advance_times-wrap zero s h = advance_last s (omega arith)
advance_times-wrap (suc k) s h =
    ap (advance_times (suc k)) (advance_before s (omega arith))
    ∙ advance_times-wrap k (record s { position = suc s.position }) (omega arith)

-- The next turns, one for each shape of the plan, go from the current shape to the end, and then on
-- from the start.
pub visit-cycle :
    (s : ReplayShapeScheduler)
    → s.position < size s
    → visit (size s) s ≡ drop s.position s.plan.shapes ++ take s.position s.plan.shapes
visit-cycle s h =
    let left = size s - s.position - 1 in
    let start = record s { position = 0; cycle = s.cycle + 1 } in
    ap (λ n. visit n s) (omega arith)
    ∙ append-visit (suc left) s.position s
    ∙ ap (λ t. visit (suc left) s ++ visit s.position t) (advance_times-wrap left s (omega arith))
    ∙ ap (λ l. visit (suc left) s ++ l) (visit-ahead s.position start (omega arith))
    ∙ ap (λ l. l ++ take s.position s.plan.shapes)
        (visit-ahead (suc left) s (omega arith)
          ∙ take-all (suc left) (drop s.position s.plan.shapes)
              (omega (arith, length-drop s.position s.plan.shapes)))
