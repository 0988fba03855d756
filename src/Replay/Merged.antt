-- ===== src/Replay/Merged.antt =====
-- Attached evidence only adds to a result.
use lm_resiliency.Base.{
  ℕ, suc, ◌≡◌, refl, ap, ◌∙◌, inl, inr, true, ◌||◌, List, [], ◌∷◌, ◌++◌, Option, some, none, ◌==◌,
  nat_eq, length, any, arith, Bool-cases, Result, return, >>=-eq-return,
}
use lm_resiliency.Durable.Record.{C3Status, ReplayResult, replay_result_has_sdc, is_inconclusive}
use lm_resiliency.Replay.Shapes.{ShapeError}
use lm_resiliency.Replay.Sweep.{is_set}
use lm_resiliency.Replay.AllToAll.{
  Compared, Comparison, MatrixOutcome, RecipeOutcome, AllToAll, merge_bits, merge_source, agrees,
  compare_then, attach_output, attach_outcomes, attach_recipe, attach_recipes,
  attach_all_to_all_replay,
}

-- The same shapes, and no fault is lost.
pub record Adds (r out : ReplayResult) : Type 0 where
  pub same_shapes : out.checked_shape_ids ≡ r.checked_shape_ids
  pub same_cycle : out.completed_shape_cycle ≡ r.completed_shape_cycle
  pub keeps_faults : replay_result_has_sdc r ≡ true → replay_result_has_sdc out ≡ true

pub Adds-refl : (r : ReplayResult) → Adds r r
Adds-refl r = record { same_shapes = refl; same_cycle = refl; keeps_faults = λ h. h }

pub Adds-trans : {a b c : ReplayResult} → Adds a b → Adds b c → Adds a c
Adds-trans h g = record {
  same_shapes = g.same_shapes ∙ h.same_shapes;
  same_cycle = g.same_cycle ∙ h.same_cycle;
  keeps_faults = λ f. g.keeps_faults (h.keeps_faults f);
}

pub any-merge_bits :
    (ls rs : List ℕ)
    → length rs ≡ length ls
    → any is_set (merge_bits ls rs) ≡ (any is_set ls || any is_set rs)
any-merge_bits [] [] h = refl
any-merge_bits [] (b ∷ rs) h = absurd (omega arith)
any-merge_bits (a ∷ ls) [] h = absurd (omega arith)
any-merge_bits (a ∷ ls) (b ∷ rs) h = ground (arith, any-merge_bits ls rs (omega arith))

pub length-merge_bits :
    (ls rs : List ℕ) → length rs ≡ length ls → length (merge_bits ls rs) ≡ length ls
length-merge_bits [] rs h = refl
length-merge_bits (a ∷ ls) [] h = absurd (omega arith)
length-merge_bits (a ∷ ls) (b ∷ rs) h = ap suc (length-merge_bits ls rs (omega arith))

pub any-last :
    (xs : List C3Status) (x : C3Status)
    → any is_inconclusive (xs ++ x ∷ []) ≡ (any is_inconclusive xs || is_inconclusive x)
any-last [] x = ground arith
any-last (y ∷ ys) x = ground (arith, any-last ys x)

-- What a merge makes of a result.
pub record IsMergedIn (m : Compared) (r out : ReplayResult) : Type 0 where
  pub fits : length m.bits ≡ length r.sdc_bitmap
  pub adds : Adds r out
  pub width : length out.sdc_bitmap ≡ length r.sdc_bitmap
  pub faults : replay_result_has_sdc out ≡ (
      (any is_set r.sdc_bitmap || any is_set m.bits)
      || (any is_inconclusive r.c3_statuses || is_inconclusive m.status))

pub merged_in :
    (m : Compared) (r : ReplayResult)
    → length m.bits ≡ length r.sdc_bitmap
    → IsMergedIn m r (record r {
      sdc_bitmap = merge_bits r.sdc_bitmap m.bits;
      c3_statuses = r.c3_statuses ++ m.status ∷ [];
    })
unfolding replay_result_has_sdc
merged_in m r h =
    let bits = any-merge_bits r.sdc_bitmap m.bits h in
    let statuses = any-last r.c3_statuses m.status in
    record {
      fits = h;
      adds = record {
        same_shapes = refl;
        same_cycle = refl;
        keeps_faults = λ f. rw (bits, statuses) (ground (arith, f));
      };
      width = length-merge_bits r.sdc_bitmap m.bits h;
      faults = rw (bits, statuses) refl;
    }

abbrev pub the_answer : ReplayResult → Result ShapeError ReplayResult
the_answer a = return a

pub return_inj : {a b : ReplayResult} → the_answer a ≡ return b → a ≡ b
return_inj h = cc

pub merge_source-IsMergedIn :
    (m : Compared) (r : ReplayResult) {out : ReplayResult}
    → merge_source m r ≡ return out
    → IsMergedIn m r out
unfolding merge_source
merge_source-IsMergedIn m r {out} h = elim (Bool-cases (length m.bits == length r.sdc_bitmap)) [
  | inl fit ↦
      let same : record r {
        sdc_bitmap = merge_bits r.sdc_bitmap m.bits;
        c3_statuses = r.c3_statuses ++ m.status ∷ [];
      }
          ≡ out =
        return_inj (rw fit at h) in
      rw (← same) (merged_in m r (ground (arith, fit)))
  | inr unfit ↦ absurd (ground (arith, rw unfit at h))
]

-- What one step of the attachment promises.
unfoldable pub AddsTo : (ReplayResult → Result ShapeError ReplayResult) → Type 0
AddsTo next = (r out : ReplayResult) → next r ≡ return out → Adds r out

pub compare_then-AddsTo :
    (m : Comparison) (next : ReplayResult → Result ShapeError ReplayResult)
    → AddsTo next
    → AddsTo (compare_then m next)
unfolding AddsTo
compare_then-AddsTo m next k r out h =
    let (found, _, rest) = >>=-eq-return m _ h in
    let (merged, one, last) = >>=-eq-return (merge_source found r) _ rest in
    let first = (merge_source-IsMergedIn found r one).adds in
    elim (Bool-cases (agrees found.status)) [
      | inl yes_ ↦ Adds-trans first (k merged out (rw yes_ at last))
      | inr no_ ↦ let same : merged ≡ out = return_inj (rw no_ at last) in rw (← same) first
    ]

pub attach_output-AddsTo : (o : MatrixOutcome) → AddsTo (attach_output o)
unfolding AddsTo
attach_output-AddsTo o r out h =
    let (found, _, rest) = >>=-eq-return o.output _ h in
    let (merged, one, timed) = >>=-eq-return (merge_source found r) _ rest in
    let (_, _, last) = >>=-eq-return o.timing _ timed in
    let same : merged ≡ out = return_inj last in
    rw (← same) (merge_source-IsMergedIn found r one).adds

pub attach_outcomes-AddsTo : (os : List MatrixOutcome) → AddsTo (attach_outcomes os)
unfolding AddsTo
attach_outcomes-AddsTo [] r out h = let same = return_inj h in rw (← same) (Adds-refl r)
attach_outcomes-AddsTo (o ∷ os) r out h =
    let (next, one, rest) = >>=-eq-return (compare_then o.contract (attach_output o) r) _ h in
    Adds-trans
      (compare_then-AddsTo o.contract (attach_output o) (attach_output-AddsTo o) r next one)
      (attach_outcomes-AddsTo os next out rest)

pub attach_recipe-AddsTo : (x : RecipeOutcome) → AddsTo (attach_recipe x)
attach_recipe-AddsTo x =
    compare_then-AddsTo x.execution _
      (compare_then-AddsTo x.matrix_count _ (attach_outcomes-AddsTo x.outcomes))

pub attach_recipes-AddsTo : (xs : List RecipeOutcome) → AddsTo (attach_recipes xs)
unfolding AddsTo
attach_recipes-AddsTo [] r out h = let same = return_inj h in rw (← same) (Adds-refl r)
attach_recipes-AddsTo (x ∷ xs) r out h =
    let (next, one, rest) = >>=-eq-return (attach_recipe x r) _ h in
    Adds-trans (attach_recipe-AddsTo x r next one) (attach_recipes-AddsTo xs next out rest)

-- What is attached keeps the shapes that were checked, and loses no fault.
pub attach_all_to_all_replay-Adds :
    (a : Option AllToAll) (r : ReplayResult) {out : ReplayResult}
    → attach_all_to_all_replay a r ≡ return out
    → Adds r out
unfolding attach_all_to_all_replay AddsTo
attach_all_to_all_replay-Adds none r h = let same = return_inj h in rw (← same) (Adds-refl r)
attach_all_to_all_replay-Adds (some a) r h =
    compare_then-AddsTo a.recipe_count _ (attach_recipes-AddsTo a.recipes) r _ h
