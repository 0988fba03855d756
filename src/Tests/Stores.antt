-- ===== src/Tests/Stores.antt =====
-- The store in memory, before and after a publication.
use lm_resiliency.Base.{◌≡◌, refl, List, [], ◌∷◌, ◌++◌, some, none, return}
use native.Mathlib.Decide.{ℕ_discrete}
use lm_resiliency.Base.Discrete.{String-discrete, ℤ-discrete}
use lm_resiliency.Protocol.Value.{strip, is_blank}
use lm_resiliency.Protocol.Plan.{plan_to_dict}
use lm_resiliency.PlanStore.Platform.{generation, plan_key}
use lm_resiliency.PlanStore.Publish.{
  current_generation, read, publish, publish_at, commit_plan, advance, confirm_plan,
  confirm_generation, decode_generation,
}
use lm_resiliency.PlanStore.Publish.Immutable.{published_plans_stay}
use lm_resiliency.PlanStore.Publish.Commit.{publish_commits}
use lm_resiliency.PlanStore.Publish.Progress.{publish_returns, with_generation}
use lm_resiliency.PlanStore.Registry.{Registration, decode_lines, admit, registration_document}
use lm_resiliency.PlanStore.Registry.Order.{registrations_keep_order, IsPaired}
use lm_resiliency.Tests.Memory.{
  tree-ne-blank, Tree, digits, tree, Memory, memory, memory-Documented, Tree-discrete, Key-discrete,
}
use lm_resiliency.Tests.Plans.{given, plan, plan_given, in_order-IsSlot}

abbrev pub start : Memory
start generation = some (digits 0)
start _ = none

abbrev pub after : Memory
after = (publish memory "run-1" plan start).1

pub published : publish memory "run-1" plan start ≡ (return tt, after)
unfolding publish publish_at current_generation decode_generation commit_plan advance confirm_plan
    confirm_generation Tree-discrete Key-discrete ℕ_discrete plan_to_dict String-discrete ℤ-discrete
published = refl

publish_commits_example :
    (current_generation memory "run-1" after ≡ (return plan.to_generation, after))
    × (read memory "run-1" plan.to_generation after ≡ (return (some plan), after))
publish_commits_example =
    publish_commits memory memory-Documented "run-1" given plan start after plan_given
      in_order-IsSlot published

publish_returns_example :
    publish memory "run-1" plan start
    ≡ (return tt, with_generation memory memory-Documented "run-1" plan start refl refl refl refl)
publish_returns_example =
    publish_returns memory memory-Documented "run-1" plan start refl refl refl refl

abbrev held : Memory
held (plan_key g) = some (tree (plan_to_dict plan))
held k = start k

published_plans_stay_example :
    (publish memory "run-1" plan held).1 (plan_key 4) ≡ some (tree (plan_to_dict plan))
published_plans_stay_example =
    published_plans_stay memory memory-Documented "run-1" 4 (tree (plan_to_dict plan)) plan held
      (tree-ne-blank (plan_to_dict plan)) refl

abbrev first_line : List Tree
first_line = tree (registration_document (record { node = "node-a"; agent = "agent-1" })) ∷ []

abbrev next_lines : List Tree
next_lines =
    tree (registration_document (record { node = "node-b"; agent = "agent-2" })) ∷ first_line

abbrev registered : List Registration
registered =
    record { node = "node-a"; agent = "agent-1" }
    ∷ record { node = "node-b"; agent = "agent-2" }
    ∷ []

decoded : decode_lines memory "run-1" [] (first_line ++ next_lines) ≡ some registered
unfolding decode_lines admit strip is_blank Tree-discrete String-discrete ℤ-discrete ℕ_discrete
decoded = refl

registrations_keep_order_example :
    (earlier : List Registration) × (rest : List Registration) × (decode_lines memory "run-1" []
        first_line
      ≡ some earlier)
    × (registered ≡ earlier ++ rest)
    × IsPaired earlier
    × IsPaired registered
registrations_keep_order_example =
    registrations_keep_order memory "run-1" first_line next_lines decoded
