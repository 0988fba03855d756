-- ===== src/PlanStore/Publish/Immutable.antt =====
-- No publication changes what stands under a plan's key.
use lm_resiliency.Base.{
  ℕ, ◌≡◌, ◌≢◌, ◌∙◌, inl, inr, Bool, true, false, some, String, ◌==◌, nat_eq, string_eq, Result,
  return, raise, Bool-cases,
}
use native.Mathlib.Decide.{ℕ_discrete}
use lm_resiliency.Protocol.Plan.{RestartPlan, plan_to_dict}
use lm_resiliency.PlanStore.Platform.{Platform, Documented, Key, generation, plan_key}
use lm_resiliency.PlanStore.Actions.{
  Problem, Action, wrong_run, conflict, pure, ensure, continue, ◌>>=◌,
}
use lm_resiliency.PlanStore.Publish.{
  is_plan, exchange, current_generation, read, commit_plan, advance, publish_at, publish,
}

module _ (p : Platform) (d : Documented p) (run_id : String) where
  open p use {Bytes, bytes_discrete, empty, dumps, loads, ascii, int_of, State, view}

  -- An action keeps the value of a key, whether it returns or raises.
  abbrev pub Keeps : Key → Bytes → {A : Type 0} → Action State A → Type 0
  Keeps j b m = (s : State) → view s j ≡ some b → view (m s).1 j ≡ some b

  module _ (j : Key) (b : Bytes) where
    Keeps-bind :
        {A B : Type 0} (m : Action State A) (f : A → Action State B)
        → Keeps j b m
        → ((a : A) → Keeps j b (f a))
        → Keeps j b (m >>= f)
    Keeps-bind {A} m f km kf s e = go (m s) (km s e)
      where
        go : (r : Result Problem A × State) → view r.1 j ≡ some b → view (continue r f).1 j ≡ some b
        go (return a, t) h = kf a t h
        go (raise x, t) h = h

    Keeps-ensure :
        {A : Type 0} (t : Bool) (e : Problem) (k : Action State A)
        → Keeps j b k
        → Keeps j b (ensure t e k)
    Keeps-ensure true e k h = h
    Keeps-ensure false e k h = λ s v. v

  module _ (g : ℕ) (b : Bytes) (written : b ≢ empty) where
    -- An exchange that expects an empty value keeps what stands under a key.
    creation-Keeps :
        (h : ℕ) (new : Bytes) → Keeps (plan_key g) b (exchange p run_id (plan_key h) empty new)
    creation-Keeps h new s e = elim (ℕ_discrete g h) [
      | yes same ↦ rw same (d.keeps s (plan_key h) b empty new (rw same at e) written)
      | no other ↦ d.elsewhere s (plan_key h) (plan_key g) empty new (λ q. other (cc)) ∙ e
    ]

    Keeps-commit_plan : (plan : RestartPlan) → Keeps (plan_key g) b (commit_plan p run_id plan)
    unfolding commit_plan
    Keeps-commit_plan plan = creation-Keeps plan.to_generation (dumps (plan_to_dict plan))

    Keeps-advance : (plan : RestartPlan) → Keeps (plan_key g) b (advance p run_id plan)
    unfolding advance
    Keeps-advance plan s e = d.elsewhere s generation (plan_key g) _ _ (λ q. cc) ∙ e

    Keeps-publish_at :
        (current : ℕ) (plan : RestartPlan) → Keeps (plan_key g) b (publish_at p run_id current plan)
    unfolding publish_at read
    Keeps-publish_at current plan = elim (Bool-cases (current == plan.to_generation)) [
      | inl done ↦ rw done (
          Keeps-bind (plan_key g) b (read p run_id plan.to_generation) _ (λ s e. e)
            (λ committed.
              Keeps-ensure (plan_key g) b (is_plan committed plan) conflict (pure tt) (λ s e. e)))
      | inr ahead ↦ rw ahead (
          Keeps-ensure (plan_key g) b (current == plan.from_generation) conflict _ (
            Keeps-bind (plan_key g) b (commit_plan p run_id plan) _ (Keeps-commit_plan plan)
              (λ _. Keeps-advance plan)))
    ]

    Keeps-publish : (plan : RestartPlan) → Keeps (plan_key g) b (publish p run_id plan)
    unfolding publish current_generation
    Keeps-publish plan = Keeps-ensure (plan_key g) b (plan.run_id == run_id) wrong_run _ (
        Keeps-bind (plan_key g) b (current_generation p run_id) _ (λ s e. e)
          (λ current. Keeps-publish_at current plan))

  -- If the store keeps its documented behaviour, a value that is not empty and stands under the plan key
  -- of any generation stands there after a publication of any plan too, whether it returns or raises.
  pub published_plans_stay :
      (g : ℕ) (b : Bytes) (plan : RestartPlan) (s : State)
      → b ≢ empty
      → view s (plan_key g) ≡ some b
      → view (publish p run_id plan s).1 (plan_key g) ≡ some b
  published_plans_stay g b plan s written e = Keeps-publish g b written plan s e
