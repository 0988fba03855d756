-- ===== src/Replay/AllToAll.antt =====
-- detection/replay_harness.py: `_attach_all_to_all_replay`, and `merge_sdc_source_bitmaps` of
-- detection/replay_analysis.py. What the ranks compare is an argument: the verdict and bits of a comparison,
-- or that it raises. A result's bitmap is the disjunction of its sources' bitmaps, and the names of the
-- sources here are new, so a merge adds to the bitmap. Timings enter only where they raise.
use lm_resiliency.Base.{
  ℕ, Bool, true, false, ◌||◌, not, List, [], ◌∷◌, ◌++◌, Option, some, none, if◌then◌else◌, ◌==◌,
  nat_eq, length, Result, return, raise, ◌>>=◌, ◌>>◌,
}
use lm_resiliency.Durable.Record.{C3Status, agree, ReplayResult}
use lm_resiliency.Replay.Shapes.{ShapeError, different_widths}

-- The part of a `C3Result` that is merged.
pub record Compared : Type 0 where
  pub status : C3Status
  pub bits : List ℕ

abbrev pub Comparison : Type 0
Comparison = Result ShapeError Compared

-- One matrix of a recipe: its contract, its output, and its timing.
pub record MatrixOutcome : Type 0 where
  pub contract : Comparison
  pub output : Comparison
  pub timing : Result ShapeError (Unit {0})

-- One recipe: whether it could be replayed, the number of its outcomes, and these.
pub record RecipeOutcome : Type 0 where
  pub execution : Comparison
  pub matrix_count : Comparison
  pub outcomes : List MatrixOutcome

pub record AllToAll : Type 0 where
  pub recipe_count : Comparison
  pub recipes : List RecipeOutcome

abbrev pub either_bit : ℕ → ℕ → ℕ
either_bit a b = if not (a == 0) || not (b == 0) then 1 else 0

abbrev pub merge_bits : List ℕ → List ℕ → List ℕ
merge_bits (a ∷ ls) (b ∷ rs) = either_bit a b ∷ merge_bits ls rs
merge_bits _ _ = []

unfoldable pub merge_source : Compared → ReplayResult → Result ShapeError ReplayResult
merge_source m r =
    if length m.bits == length r.sdc_bitmap
    then return (record r {
      sdc_bitmap = merge_bits r.sdc_bitmap m.bits;
      c3_statuses = r.c3_statuses ++ m.status ∷ [];
    })
    else raise different_widths

abbrev pub agrees : C3Status → Bool
agrees agree = true
agrees _ = false

-- A comparison is merged, and what follows it is done only if the ranks agree.
abbrev pub compare_then :
    Comparison
    → (ReplayResult → Result ShapeError ReplayResult)
    → ReplayResult
    → Result ShapeError ReplayResult
compare_then m next r = do
  found ← m
  merged ← merge_source found r
  (if agrees found.status then next merged else return merged)

abbrev pub attach_output : MatrixOutcome → ReplayResult → Result ShapeError ReplayResult
attach_output o r = do found ← o.output; merged ← merge_source found r; o.timing; return merged

abbrev pub attach_outcomes : List MatrixOutcome → ReplayResult → Result ShapeError ReplayResult
attach_outcomes [] r = return r
attach_outcomes (o ∷ os) r = do
  next ← compare_then o.contract (attach_output o) r
  attach_outcomes os next

abbrev pub attach_recipe : RecipeOutcome → ReplayResult → Result ShapeError ReplayResult
attach_recipe x =
    compare_then x.execution (compare_then x.matrix_count (attach_outcomes x.outcomes))

abbrev pub attach_recipes : List RecipeOutcome → ReplayResult → Result ShapeError ReplayResult
attach_recipes [] r = return r
attach_recipes (x ∷ xs) r = do next ← attach_recipe x r; attach_recipes xs next

-- Without a policy or without recipes there is nothing to attach.
unfoldable pub attach_all_to_all_replay :
    Option AllToAll → ReplayResult → Result ShapeError ReplayResult
attach_all_to_all_replay none r = return r
attach_all_to_all_replay (some a) r = compare_then a.recipe_count (attach_recipes a.recipes) r
