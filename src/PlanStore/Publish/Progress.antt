-- ===== src/PlanStore/Publish/Progress.antt =====
-- A publication of a successor returns.
use text.Mathlib.TextEquality.{eq_iff}
use lm_resiliency.Base.{
  ◌+◌, ◌≡◌, refl, ◌∙◌, some, none, String, nat_eq, string_eq, arith, beq_refl, beq_ne, return,
}
use lm_resiliency.Protocol.Plan.{RestartPlan, plan_to_dict}
use lm_resiliency.PlanStore.Platform.{Platform, Documented, generation, plan_key}
use lm_resiliency.PlanStore.Publish.{
  decode_generation, current_generation, confirm_plan, confirm_generation, commit_plan, advance,
  publish_at, publish,
}
use lm_resiliency.PlanStore.Publish.Commit.{decided-true}

module _ (p : Platform) (d : Documented p) (run_id : String) where
  open p use {Bytes, bytes_discrete, empty, dumps, loads, ascii, int_of, State, view, compare_set}

  module _ (plan : RestartPlan) (s : State) (run : plan.run_id ≡ run_id)
      (successor : plan.to_generation ≡ plan.from_generation + 1)
      (current : view s generation ≡ some (ascii plan.from_generation))
      (fresh : view s (plan_key plan.to_generation) ≡ none) where
    abbrev pub with_plan : State
    with_plan = compare_set s (plan_key plan.to_generation) empty (dumps (plan_to_dict plan))

    abbrev pub with_generation : State
    with_generation =
        compare_set with_plan generation (ascii plan.from_generation) (ascii plan.to_generation)

    committed_now : commit_plan p run_id plan s ≡ (return tt, with_plan)
    unfolding commit_plan confirm_plan
    committed_now =
        rw
          (
            d.creates s (plan_key plan.to_generation) (dumps (plan_to_dict plan)) fresh,
            decided-true (bytes_discrete (dumps (plan_to_dict plan)) (dumps (plan_to_dict plan)))
                refl,
          )
          refl

    advanced_now : advance p run_id plan with_plan ≡ (return tt, with_generation)
    unfolding advance confirm_generation decode_generation
    advanced_now =
        rw
          (
            d.replaces with_plan generation (ascii plan.from_generation) (ascii plan.to_generation)
                (d.elsewhere s (plan_key plan.to_generation) generation empty
                    (dumps (plan_to_dict plan)) (λ e. cc)
                  ∙ current),
            d.int_of-ascii plan.to_generation,
            beq_refl plan.to_generation,
          )
          refl

    -- If the store keeps its documented behaviour, names the generation before the plan's as the current
    -- one and holds no plan of the plan's generation, and the plan belongs to the run, then a
    -- publication of the plan returns, with the plan and its generation written.
    pub publish_returns : publish p run_id plan s ≡ (return tt, with_generation)
    unfolding publish publish_at current_generation decode_generation
    publish_returns =
        rw
          (
            (eq_iff plan.run_id run_id).1 run,
            current,
            d.int_of-ascii plan.from_generation,
            beq_ne plan.from_generation plan.to_generation (λ e. omega (arith, e, successor)),
            beq_refl plan.from_generation,
            committed_now,
            advanced_now,
          )
          refl
