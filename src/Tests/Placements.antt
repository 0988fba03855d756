-- ===== src/Tests/Placements.antt =====
-- Three nodes, of which one fails.
use lm_resiliency.Base.{
  ◌≡◌, refl, true, false, List, [], ◌∷◌, ◌++◌, some, String, arith, length, contains, return,
  string_eq,
}
use lm_resiliency.Base.Int.{pos}
use lm_resiliency.Protocol.Value.{is_blank}
use lm_resiliency.Coordinator.{Request, replace_node, build_plan, plan_for}
use lm_resiliency.Protocol.Plan.Validity.{durable}
use lm_resiliency.Coordinator.Placement.{IsLegal, replace_node-IsLegal}
use lm_resiliency.Coordinator.History.{initial, restarted, moved, quarantined_stays_out}
use lm_resiliency.Coordinator.Planning.{IsSound, Named, assigned, build_plan_total}

abbrev active : List String
active = "node-a" ∷ "node-b" ∷ []

abbrev quarantined : List String
quarantined = "node-c" ∷ []

abbrev next : List String
next = "node-d" ∷ "node-b" ∷ []

abbrev history : List String
history = "node-c" ∷ "node-a" ∷ []

legal : IsLegal active quarantined
legal = record {
  occupied = refl;
  active_distinct = (refl, (refl, tt));
  quarantined_distinct = (refl, tt);
  disjoint = (refl, (refl, tt));
}

replaced_first : replace_node active quarantined 0 "node-d" ≡ some (next, history)
unfolding replace_node
replaced_first = refl

replace_node-IsLegal_example :
    IsLegal next history
    × (length next ≡ length active)
    × (contains active "node-d" ≡ false)
    × (contains quarantined "node-d" ≡ false)
    × ((failed : String) × (contains active failed ≡ true)
        × (history ≡ quarantined ++ failed ∷ [])
        × (contains next failed ≡ false))
replace_node-IsLegal_example =
    replace_node-IsLegal active quarantined 0 "node-d" legal replaced_first

quarantined_stays_out_example :
    (contains next "node-c" ≡ false) × (contains history "node-c" ≡ true)
quarantined_stays_out_example =
    quarantined_stays_out "node-c" legal (moved 0 "node-d" (restarted initial) replaced_first) refl

abbrev request : Request
request = record {
  plan_id = "plan-7";
  intent_id = "intent-7";
  reason_code = "hard_failure";
  recovery_mode = "recovery_verified";
  checkpoint_source = "durable";
  checkpoint_step = pos 120;
  checkpoint_manifest_id = "manifest-120";
  topology_digest = "digest";
  restart_deadline_unix_ms = pos 1000;
  checkpoint_id = some "step-120";
}

sound : IsSound "run-1" request
unfolding is_blank
sound = record {
  run_named = refl;
  plan_named = refl;
  intent_named = refl;
  reason_named = refl;
  mode = refl;
  mode_named = refl;
  source_named = refl;
  step = omega arith;
  source = durable "durable" "step-120" refl refl;
  manifest_named = refl;
  topology_named = refl;
  deadline = omega arith;
}

active_named : Named active
unfolding is_blank
active_named = (refl, (refl, tt))

quarantined_named : Named quarantined
unfolding is_blank
quarantined_named = (refl, tt)

build_plan_total_example :
    build_plan "run-1" request 0 4 active quarantined
    ≡ return (plan_for "run-1" request 0 4 (assigned 4 0 active) (length active) quarantined)
build_plan_total_example =
    build_plan_total "run-1" request 0 4 active quarantined sound legal (omega arith) active_named
      quarantined_named
