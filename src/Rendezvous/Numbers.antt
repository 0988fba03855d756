-- ===== src/Rendezvous/Numbers.antt =====
-- What the number of a lease decides.
use lm_resiliency.Base.{ℕ, ◌+◌, ◌*◌, ◌<◌, ◌≡◌, refl, true, false, some, ltb, return, raise, arith}
use lm_resiliency.Rendezvous.Lease.{
  moved_backwards, LeasePoll, LeaseObservation, freshness, plan_lease_is_live,
  plan_lease_deadline_ns,
}

lt_ltb : (a b : ℕ) → a < b → ltb a b ≡ true
lt_ltb a b h = ground (arith, h)

freshness-positive : (timeout : ℕ) (p : LeasePoll) → 0 < p.remaining_ms → 0 < freshness timeout p
freshness-positive timeout p h = ground (arith, h)

-- Where a lease has been observed: a poll with a larger number and time left finds it live, and the worker's
-- deadline is then the manager's, in nanoseconds; and a poll with a smaller number raises, and the
-- observation stays.
pub lease_numbers_decide :
    (timeout : ℕ) (p : LeasePoll) (o : LeaseObservation)
    → (o.sequence < p.sequence
        → 0 < p.remaining_ms
        → ((plan_lease_is_live timeout (some p) (some o)).0 ≡ return true)
          × (plan_lease_deadline_ns (plan_lease_is_live timeout (some p) (some o)).1
              ≡ return ((p.now + p.remaining_ms) * 1_000_000)))
      × (p.sequence < o.sequence
          → plan_lease_is_live timeout (some p) (some o) ≡ (raise moved_backwards, some o))
unfolding plan_lease_is_live
lease_numbers_decide timeout p o = (
  λ newer left.
      let forwards : ltb p.sequence o.sequence ≡ false = ground (arith, newer) in
      let advanced : ltb o.sequence p.sequence ≡ true = ground (arith, newer) in
      let some_left : ltb 0 p.remaining_ms ≡ true = ground (arith, left) in
      let in_time : ltb p.now (p.now + freshness timeout p) ≡ true =
        lt_ltb p.now _ (omega (arith, freshness-positive timeout p left)) in
      rw (forwards, advanced, some_left, in_time) (refl, refl),
  λ older.
      let backwards : ltb p.sequence o.sequence ≡ true = ground (arith, older) in rw backwards refl,
)
