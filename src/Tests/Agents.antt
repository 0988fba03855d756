-- ===== src/Tests/Agents.antt =====
-- Polls of leases and heartbeats, and a published plan that two agents read.
use lm_resiliency.Base.{
  ℕ, ◌≡◌, refl, ap, true, false, List, [], ◌∷◌, Option, some, none, String, return, Result,
}
use lm_resiliency.Base.Int.{pos}
use lm_resiliency.Protocol.Plan.{plan_to_dict}
use lm_resiliency.PlanStore.Actions.{Problem}
use lm_resiliency.PlanStore.Platform.{plan_key}
use lm_resiliency.PlanStore.Publish.{
  read, current_generation, renew_plan_lease, RestartPlan-discrete,
}
use lm_resiliency.PlanStore.Publish.Trusted.{IsTrusted, read-IsTrusted}
use lm_resiliency.PlanStore.Lease.{Written, read_plan_lease, renewed_lease_is_read}
use lm_resiliency.Rendezvous.Lease.{LeasePoll, plan_lease_is_live, watched}
use lm_resiliency.Rendezvous.Heartbeat.{Beat, heartbeat_is_live, heard_so_far}
use lm_resiliency.Rendezvous.Freshness.{IsFresh, live_lease-IsFresh}
use lm_resiliency.Rendezvous.Beats.{is_expected, taken, IsAlive}
use lm_resiliency.Rendezvous.Alive.{live_heartbeat-IsAlive}
use lm_resiliency.Rendezvous.Group.{placed, poll_placement, assignment}
use lm_resiliency.Rendezvous.Members.{IsRanked}
use lm_resiliency.Rendezvous.Ranks.{poll_placement-IsRanked}
use lm_resiliency.Tests.Memory.{tree, Memory, memory, memory-Documented, Key-discrete, pick-yes}
use lm_resiliency.PlanStore.Publish.Commit.{publish_commits, decided-true, decode_dumps}
use lm_resiliency.Tests.Stores.{start, after, published}
use lm_resiliency.Tests.Plans.{plan, given, plan_given, in_order-IsSlot}

abbrev poll : ℕ → ℕ → LeasePoll
poll n now = record { sequence = n; remaining_ms = 60_000; now = now }

-- The second number was read at 100; at 350 it still counts, at 400 it does not.
abbrev polls : List (Option LeasePoll)
polls = some (poll 2 100) ∷ none ∷ some (poll 1 0) ∷ []

live : (plan_lease_is_live 300 (some (poll 2 350)) (watched 300 polls)).0 ≡ return true
unfolding plan_lease_is_live
live = refl

stale : (plan_lease_is_live 300 (some (poll 2 400)) (watched 300 polls)).0 ≡ return false
unfolding plan_lease_is_live
stale = refl

live_lease-IsFresh_example : IsFresh 300 (some (poll 2 350) ∷ polls) (poll 2 350)
live_lease-IsFresh_example = live_lease-IsFresh 300 (poll 2 350) polls live

abbrev beat : ℕ → ℕ → Beat
beat n now = record { agent_id = "agent-1"; sequence = n; now = now }

abbrev beats : List (Option String × Option Beat)
beats = (none, some (beat 5 100)) ∷ (none, some (beat 4 0)) ∷ []

alive :
    (heartbeat_is_live 300 (some "agent-1") (some (beat 5 399)) (heard_so_far 300 beats)).0 ≡ true
unfolding heartbeat_is_live
alive = refl

dead : (heartbeat_is_live 300 none (some (beat 5 400)) (heard_so_far 300 beats)).0 ≡ false
unfolding heartbeat_is_live
dead = refl

live_heartbeat-IsAlive_example :
    (is_expected (some "agent-1") "agent-1" ≡ true)
    × IsAlive 300 (beat 5 399 ∷ taken beats) (beat 5 399)
live_heartbeat-IsAlive_example =
    live_heartbeat-IsAlive 300 (some "agent-1") (beat 5 399) beats alive

commits :
    (current_generation memory "run-1" after ≡ (return 1, after))
    × (read memory "run-1" 1 after ≡ (return (some plan), after))
commits =
    publish_commits memory memory-Documented "run-1" given plan start after plan_given
      in_order-IsSlot published

read-IsTrusted_example : IsTrusted memory "run-1" 1 plan × ((read memory "run-1" 1 after).1 ≡ after)
read-IsTrusted_example = read-IsTrusted memory "run-1" 1 after plan (ap (λ r. r.0) commits.1)

second_rank :
    poll_placement memory "run-1" 2 3 false (some 0) "node-b" after ≡ (return (placed 1 1 2), after)
unfolding poll_placement assignment
second_rank = rw (commits.0, commits.1) refl

poll_placement-IsRanked_example : IsRanked memory "run-1" 2 3 after "node-b" 1 1 2
poll_placement-IsRanked_example =
    poll_placement-IsRanked memory "run-1" 2 3 false (some 0) "node-b" after after second_rank

memory-Written : Written memory
memory-Written = record { sets = λ s k b. pick-yes (Key-discrete k k) (some b) (s k) refl }

abbrev same : String → String
same s = s

-- A store that holds the plan and nothing else.
abbrev simple : Memory
simple (plan_key g) = some (tree (plan_to_dict plan))
simple k = none

simple_plan : read memory "run-1" 1 simple ≡ (return (some plan), simple)
unfolding read
simple_plan =
    rw (decode_dumps memory memory-Documented "run-1" given plan plan_given in_order-IsSlot refl)
      refl

abbrev renewed : Memory
renewed = (renew_plan_lease memory "run-1" same plan (pos 5000) simple).1

first_number : (renew_plan_lease memory "run-1" same plan (pos 5000) simple).0 ≡ return 1
unfolding renew_plan_lease
first_number = rw (simple_plan, decided-true (RestartPlan-discrete plan plan) refl) refl

renews : renew_plan_lease memory "run-1" same plan (pos 5000) simple ≡ (return 1, renewed)
renews = ap (λ (x : Result Problem ℕ). (x, renewed)) first_number

renewed_lease_is_read_example :
    read_plan_lease memory "run-1" same plan renewed ≡ (return (some (1, 5000)), renewed)
renewed_lease_is_read_example =
    renewed_lease_is_read memory memory-Documented memory-Written "run-1" same plan 5000 simple
      renewed renews
