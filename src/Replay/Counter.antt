-- ===== src/Replay/Counter.antt =====
-- The abstract schedule: a counter of turns, which shows the shapes of its list over and over.
use Prim.Native.Nat.{◌/◌}
use native.Mathlib.Nat.{
  add-zero, add_comm, mod-eq_of_lt, add-mul-mod_self_right, mul-add-div_right, div-eq_of_lt,
}
use lm_resiliency.Base.{
  ℕ, ◌+◌, ◌*◌, ◌%◌, ◌<◌, ◌≡◌, refl, sym, ap, ◌∙◌, List, Option, arith, get_elem?, length,
}
use lm_resiliency.Replay.Shapes.{ReplayShape}
use lm_resiliency.Replay.Scheduler.{ReplayShapeScheduler, current_shape}
use lm_resiliency.Replay.Turns.{size, turns, advance_times, advance_times-AfterTurns}

pub record Counter : Type 0 where
  pub shapes : List ReplayShape
  pub turns : ℕ

abbrev pub ticked : ℕ → Counter → Counter
ticked n c = record c { turns = c.turns + n }

abbrev pub shown : Counter → Option ReplayShape
shown c = get_elem? c.shapes (c.turns % length c.shapes)

abbrev pub cycles : Counter → ℕ
cycles c = c.turns / length c.shapes

-- What a scheduler stands for.
abbrev pub counter : ReplayShapeScheduler → Counter
counter s = record { shapes = s.plan.shapes; turns = turns s }

-- A scheduler shows what its counter shows, and has completed as many cycles.
pub record Refines (s : ReplayShapeScheduler) (c : Counter) : Type 0 where
  pub stands_for : counter s ≡ c
  pub same_shape : current_shape s ≡ shown c
  pub same_cycles : s.cycle ≡ cycles c

turns_left : (c n p : ℕ) → p < n → (c * n + p) % n ≡ p
turns_left c n p h =
    ap (λ k. k % n) (add_comm (c * n) p) ∙ add-mul-mod_self_right p c n ∙ mod-eq_of_lt h

turns_over : (c n p : ℕ) → p < n → c ≡ (c * n + p) / n
turns_over c n p h =
    let positive : 0 < n = omega arith in
    sym (mul-add-div_right positive c p ∙ ap (λ k. c + k) (div-eq_of_lt h) ∙ add-zero c)

refined_counter : (s : ReplayShapeScheduler) → s.position < size s → Refines s (counter s)
refined_counter s h = record {
  stands_for = refl;
  same_shape = ap (get_elem? s.plan.shapes) (sym (turns_left s.cycle (size s) s.position h));
  same_cycles = turns_over s.cycle (size s) s.position h;
}

-- From a position in its plan, and after any number of turns, a scheduler shows the shape that a counter
-- with as many ticks more shows, the one at the remainder of the turns by the number of shapes, and has
-- completed as many cycles.
pub scheduler-Refines :
    (n : ℕ) (s : ReplayShapeScheduler)
    → s.position < size s
    → Refines (advance_times n s) (ticked n (counter s))
scheduler-Refines n s h =
    let after = advance_times-AfterTurns n s h in
    let t = advance_times n s in
    let same : counter t ≡ ticked n (counter s) =
      ap (λ (l : List ReplayShape). record (counter t) { shapes = l })
        (ap (λ q. q.shapes) after.same_plan)
      ∙ ap (λ (k : ℕ). record (counter s) { turns = k }) after.counted in
    rw same at (refined_counter t after.in_range)
