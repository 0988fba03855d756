-- ===== src/Replay/Attached.antt =====
-- Where all ranks agree, attached evidence shows nothing.
use lm_resiliency.Base.{
  ℕ, ◌≡◌, refl, ap, ◌∙◌, sym, true, false, List, [], ◌∷◌, ◌++◌, Option, some, none, ◌==◌, nat_eq,
  length, any, All, arith, Result, return, ◌>>=◌,
}
use lm_resiliency.Durable.Record.{agree, ReplayResult, replay_result_has_sdc, is_inconclusive}
use lm_resiliency.Replay.Shapes.{ShapeError}
use lm_resiliency.Replay.Sweep.{is_set}
use lm_resiliency.Replay.AllToAll.{
  Compared, Comparison, MatrixOutcome, RecipeOutcome, AllToAll, merge_bits, merge_source,
  compare_then, attach_output, attach_outcomes, attach_recipe, attach_recipes,
  attach_all_to_all_replay,
}
use lm_resiliency.Replay.Merged.{merged_in}

-- The ranks agree, for this many peers, and no bit is set.
pub record FindsAgreement (width : ℕ) (m : Comparison) : Type 0 where
  pub found : Compared
  pub compared : m ≡ return found
  pub agreed : found.status ≡ agree
  pub fits : length found.bits ≡ width
  pub no_bit : any is_set found.bits ≡ false

pub record IsHealthyOutcome (width : ℕ) (o : MatrixOutcome) : Type 0 where
  pub contract : FindsAgreement width o.contract
  pub output : FindsAgreement width o.output
  pub timed : o.timing ≡ return tt

pub record IsHealthyRecipe (width : ℕ) (x : RecipeOutcome) : Type 0 where
  pub execution : FindsAgreement width x.execution
  pub matrix_count : FindsAgreement width x.matrix_count
  pub outcomes : All (IsHealthyOutcome width) x.outcomes

pub record IsHealthyExchange (width : ℕ) (a : AllToAll) : Type 0 where
  pub recipe_count : FindsAgreement width a.recipe_count
  pub recipes : All (IsHealthyRecipe width) a.recipes

-- No policy, or an exchange in which all ranks agree.
unfoldable pub AreHealthy : ℕ → Option AllToAll → Type 0
AreHealthy width none = Unit
AreHealthy width (some a) = IsHealthyExchange width a

-- A result for this many peers without a fault.
pub record IsQuietResult (width : ℕ) (r : ReplayResult) : Type 0 where
  pub width_lem : length r.sdc_bitmap ≡ width
  pub no_fault : replay_result_has_sdc r ≡ false

StaysQuiet : ℕ → (ReplayResult → Result ShapeError ReplayResult) → Type 0
StaysQuiet width next =
    (r : ReplayResult)
    → IsQuietResult width r
    → (out : ReplayResult) × (next r ≡ return out) × IsQuietResult width out

merge_source-StaysQuiet :
    (width : ℕ) (m : Compared)
    → m.status ≡ agree
    → length m.bits ≡ width
    → any is_set m.bits ≡ false
    → StaysQuiet width (merge_source m)
unfolding StaysQuiet merge_source replay_result_has_sdc
merge_source-StaysQuiet width m a f n r q =
    let fit : length m.bits ≡ length r.sdc_bitmap = f ∙ sym q.width_lem in
    let out = record r {
      sdc_bitmap = merge_bits r.sdc_bitmap m.bits;
      c3_statuses = r.c3_statuses ++ m.status ∷ [];
    } in
    let made = merged_in m r fit in
    let equal : (length m.bits == length r.sdc_bitmap) ≡ true = ground (arith, fit) in
    let clean : is_inconclusive m.status ≡ false = ap is_inconclusive a in
    (
      out,
      rw equal refl,
      record {
        width_lem = made.width ∙ q.width_lem;
        no_fault = made.faults ∙ ground (arith, n, clean, q.no_fault);
      },
    )

compare_then-StaysQuiet :
    (width : ℕ) (m : Comparison) (next : ReplayResult → Result ShapeError ReplayResult)
    → FindsAgreement width m
    → StaysQuiet width next
    → StaysQuiet width (compare_then m next)
unfolding StaysQuiet
compare_then-StaysQuiet width m next k n r q =
    let (merged, one, quiet) = merge_source-StaysQuiet width k.found k.agreed k.fits k.no_bit r q in
    let (out, last, still) = n merged quiet in (out, rw (k.compared, one, k.agreed) last, still)

attach_output-StaysQuiet :
    (width : ℕ) (o : MatrixOutcome) → IsHealthyOutcome width o → StaysQuiet width (attach_output o)
unfolding StaysQuiet
attach_output-StaysQuiet width o k r q =
    let c = k.output in
    let (merged, one, quiet) = merge_source-StaysQuiet width c.found c.agreed c.fits c.no_bit r q in
    (merged, rw (c.compared, one, k.timed) refl, quiet)

attach_outcomes-StaysQuiet :
    (width : ℕ) (os : List MatrixOutcome)
    → All (IsHealthyOutcome width) os
    → StaysQuiet width (attach_outcomes os)
unfolding StaysQuiet
attach_outcomes-StaysQuiet width [] k r q = (r, refl, q)
attach_outcomes-StaysQuiet width (o ∷ os) k r q =
    let (next, one, quiet) =
      compare_then-StaysQuiet width o.contract (attach_output o) k.0.contract
        (attach_output-StaysQuiet width o k.0) r q in
    let (out, last, still) = attach_outcomes-StaysQuiet width os k.1 next quiet in
    (out, ap (λ m. m >>= attach_outcomes os) one ∙ last, still)

attach_recipe-StaysQuiet :
    (width : ℕ) (x : RecipeOutcome) → IsHealthyRecipe width x → StaysQuiet width (attach_recipe x)
attach_recipe-StaysQuiet width x k = compare_then-StaysQuiet width x.execution _ k.execution (
    compare_then-StaysQuiet width x.matrix_count _ k.matrix_count
      (attach_outcomes-StaysQuiet width x.outcomes k.outcomes))

attach_recipes-StaysQuiet :
    (width : ℕ) (xs : List RecipeOutcome)
    → All (IsHealthyRecipe width) xs
    → StaysQuiet width (attach_recipes xs)
unfolding StaysQuiet
attach_recipes-StaysQuiet width [] k r q = (r, refl, q)
attach_recipes-StaysQuiet width (x ∷ xs) k r q =
    let (next, one, quiet) = attach_recipe-StaysQuiet width x k.0 r q in
    let (out, last, still) = attach_recipes-StaysQuiet width xs k.1 next quiet in
    (out, ap (λ m. m >>= attach_recipes xs) one ∙ last, still)

-- Where all ranks agree, what is attached shows nothing.
pub attach_all_to_all_replay-quiet :
    (width : ℕ) (a : Option AllToAll) (r : ReplayResult)
    → AreHealthy width a
    → IsQuietResult width r
    → (out : ReplayResult) × (attach_all_to_all_replay a r ≡ return out) × IsQuietResult width out
unfolding attach_all_to_all_replay AreHealthy StaysQuiet
attach_all_to_all_replay-quiet width none r k q = (r, refl, q)
attach_all_to_all_replay-quiet width (some a) r k q =
    compare_then-StaysQuiet width a.recipe_count _ k.recipe_count
      (attach_recipes-StaysQuiet width a.recipes k.recipes) r q
