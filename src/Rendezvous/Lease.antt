-- ===== src/Rendezvous/Lease.antt =====
-- `SimpleRendezvousHandler._plan_lease_is_live` and `_plan_lease_deadline_ns`, for one plan. The clock and
-- the intervals are whole milliseconds.
use lm_resiliency.Base.{
  ℕ, ◌+◌, ◌*◌, Bool, false, ◌&&◌, List, [], ◌∷◌, Option, none, some, if◌then◌else◌, leb, ltb,
  Result, return, raise,
}

pub data LeaseProblem : Type 0 where
  moved_backwards not_observed_live : LeaseProblem

-- What a poll reads of the manager's lease, and the time of the poll.
pub record LeasePoll : Type 0 where
  pub sequence : ℕ
  pub remaining_ms : ℕ
  pub now : ℕ

-- `_plan_lease_observations[key]`
pub record LeaseObservation : Type 0 where
  pub sequence : ℕ
  pub freshness_deadline : ℕ
  pub manager_deadline : ℕ
  pub live : Bool

abbrev pub renew_interval_ms : ℕ
renew_interval_ms = 100

abbrev pub least : ℕ → ℕ → ℕ
least a b = if leb a b then a else b

abbrev pub greatest : ℕ → ℕ → ℕ
greatest a b = if leb a b then b else a

-- How long a poll's news counts, for this heartbeat timeout.
abbrev pub freshness : ℕ → LeasePoll → ℕ
freshness timeout p = least p.remaining_ms (greatest timeout (renew_interval_ms * 3))

abbrev pub noted : ℕ → LeasePoll → Bool → LeaseObservation
noted timeout p live = record {
  sequence = p.sequence;
  freshness_deadline = p.now + freshness timeout p;
  manager_deadline = p.now + p.remaining_ms;
  live = live;
}

abbrev pub Judged : Type 0
Judged = Result LeaseProblem Bool × Option LeaseObservation

abbrev pub judge_again : ℕ → LeasePoll → LeaseObservation → Judged
judge_again timeout p o =
    if ltb p.sequence o.sequence
    then (raise moved_backwards, some o)
    else if ltb o.sequence p.sequence
    then (let live = ltb 0 p.remaining_ms && ltb p.now (p.now + freshness timeout p) in
        (return live, some (noted timeout p live)))
    else (return (o.live && ltb p.now o.freshness_deadline), some o)

-- A poll that finds a lease; one that finds none is not live and changes nothing.
unfoldable pub plan_lease_is_live : ℕ → Option LeasePoll → Option LeaseObservation → Judged
plan_lease_is_live timeout none o = (return false, o)
plan_lease_is_live timeout (some p) none = (return false, some (noted timeout p false))
plan_lease_is_live timeout (some p) (some o) = judge_again timeout p o

-- The deadline that a worker is given.
abbrev pub plan_lease_deadline_ns : Option LeaseObservation → Result LeaseProblem ℕ
plan_lease_deadline_ns none = raise not_observed_live
plan_lease_deadline_ns (some o) =
    if o.live then return (o.manager_deadline * 1_000_000) else raise not_observed_live

-- The observation after these polls, the newest first.
abbrev pub watched : ℕ → List (Option LeasePoll) → Option LeaseObservation
watched timeout [] = none
watched timeout (p ∷ ps) = (plan_lease_is_live timeout p (watched timeout ps)).1
