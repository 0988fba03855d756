-- ===== src/Replay/Coverage.antt =====
-- What a returned sweep has checked.
use lm_resiliency.Base.{
  ℕ, zero, suc, ◌≤◌, ◌≡◌, ◌⊎◌, refl, sym, ap, ◌∙◌, inl, inr, Bool, true, false, List, [], ◌∷◌, ◌++◌,
  Option, some, none, String, arith, length, nat_eq, string_eq, any, Result, return, raise,
  if◌then◌else◌,
}
use mathlib.Core.List.{map-append}
use lm_resiliency.Durable.Record.{replay_result_has_sdc}
use lm_resiliency.Replay.Shapes.{ShapeError, ReplayShape, shape_ids}
use lm_resiliency.Replay.Scheduler.{ReplayShapeScheduler, current_shape, advance}
use lm_resiliency.Replay.Turns.{found, visit}
use lm_resiliency.Replay.Sweep.{
  Measured, Replay, Round, Checked, checked_shape, check_shape, check_current_shape, Swept, prepend,
  then_rest, sweep, joined, round_of,
}

abbrev pub faulty : Round → Bool
faulty r = replay_result_has_sdc r.result

abbrev pub checked_ids : List Round → List String
checked_ids = joined λ r. r.result.checked_shape_ids

-- The rounds of a sweep of at most this many turns.
pub record IsSwept (left : ℕ) (s : ReplayShapeScheduler) (rs : List Round) : Type 0 where
  pub visited : checked_ids rs ≡ shape_ids (visit (length rs) s)
  pub within : length rs ≤ left
  pub stopped : (length rs ≡ left) ⊎ (any faulty rs ≡ true)

-- A round that returned is of the current shape, and the scheduler has advanced.
record IsRound (s : ReplayShapeScheduler) (r : Round) (t : ReplayShapeScheduler) : Type 0 where
  of_current : r.result.checked_shape_ids ≡ shape_ids (found (current_shape s))
  advanced : t ≡ advance s

checked_shape-IsRound :
    (o : Option ReplayShape) (replay : Replay) (index : ℕ) (s : ReplayShapeScheduler) {r : Round}
    → current_shape s ≡ o
    → (check_shape replay index o s).0 ≡ return r
    → IsRound s r (check_shape replay index o s).1
checked_shape-IsRound none replay index s e h = cc
checked_shape-IsRound (some shape) replay index s {r} e h = go (replay index shape) h
  where
    go :
        (m : Result ShapeError Measured)
        → (checked_shape shape m s).0 ≡ return r
        → IsRound s r (checked_shape shape m s).1
    go (raise e) h = cc
    go (return m) h =
        let same : round_of shape m s (advance s) ≡ r = cc in
        record {
          of_current =
              sym (ap (λ x. x.result.checked_shape_ids) same)
              ∙ ap (λ o. shape_ids (found o)) (sym e);
          advanced = refl;
        }

-- One more round before those of a sweep.
after_round :
    (left : ℕ) (s t : ReplayShapeScheduler) (r : Round) (rs : List Round)
    → IsRound s r t
    → IsSwept left t rs
    → IsSwept (suc left) s (r ∷ rs)
after_round left s t r rs one rest = record {
  visited =
      ap (λ l. l ++ checked_ids rs) one.of_current
      ∙ ap (λ l. shape_ids (found (current_shape s)) ++ l)
          (rest.visited ∙ ap (λ u. shape_ids (visit (length rs) u)) one.advanced)
      ∙ sym
          (map-append (λ x. x.shape_id) (found (current_shape s)) (visit (length rs) (advance s)));
  within = omega (arith, rest.within);
  stopped = elim rest.stopped [
    | inl all ↦ inl (ap suc all)
    | inr fault ↦ inr (ground (arith, fault))
  ];
}

stop_or_go :
    (left : ℕ) (s t : ReplayShapeScheduler) (r : Round) (rest : Swept) (b : Bool) {rs : List Round}
    → faulty r ≡ b
    → IsRound s r t
    → ((xs : List Round) → rest.0 ≡ return xs → IsSwept left t xs)
    → (if b then (return (r ∷ []), t) else prepend r rest).0 ≡ return rs
    → IsSwept (suc left) s rs
stop_or_go left s t r rest true {rs} fault one g h =
    let same : r ∷ [] ≡ rs = cc in
    rw (← same) (record {
      visited =
          (after_round zero s t r [] one
            (record { visited = refl; within = omega arith; stopped = inl refl })).visited;
      within = omega arith;
      stopped = inr (ground (arith, fault));
    })
stop_or_go left s t r (raise e, u) false fault one g h = cc
stop_or_go left s t r (return xs, u) false {rs} fault one g h =
    let same : r ∷ xs ≡ rs = cc in rw (← same) (after_round left s t r xs one (g xs refl))

then_rest-IsSwept :
    (left : ℕ) (s : ReplayShapeScheduler) (c : Checked) (rest : Swept) {rs : List Round}
    → ((r : Round) → c.0 ≡ return r → IsRound s r c.1)
    → ((xs : List Round) → rest.0 ≡ return xs → IsSwept left c.1 xs)
    → (then_rest c rest).0 ≡ return rs
    → IsSwept (suc left) s rs
then_rest-IsSwept left s (raise e, t) rest f g h = cc
then_rest-IsSwept left s (return r, t) rest f g h =
    stop_or_go left s t r rest (faulty r) refl (f r refl) g h

pub sweep-IsSwept :
    (left : ℕ) (replay : Replay) (index : ℕ) (s : ReplayShapeScheduler) (rs : List Round)
    → (sweep replay left index s).0 ≡ return rs
    → IsSwept left s rs
unfolding sweep
sweep-IsSwept zero replay index s rs h =
    let same : [] ≡ rs = cc in
    rw (← same) (record { visited = refl; within = omega arith; stopped = inl refl })
sweep-IsSwept (suc left) replay index s rs h =
    let checked = check_current_shape replay index s in
    then_rest-IsSwept left s checked (sweep replay left (suc index) checked.1)
      (λ r e. checked_shape-IsRound (current_shape s) replay index s {r = r} refl e)
      (sweep-IsSwept left replay (suc index) checked.1) h
