-- ===== src/PlanStore/Lease.antt =====
-- `SimpleRecoveryPlanStore.read_plan_lease`, and what it reads after a renewal.
use lm_resiliency.Base.{
  ℕ, ◌≡◌, refl, ap, ◌∙◌, Bool, true, false, ◌&&◌, List, [], ◌∷◌, Option, some, none, String,
  if◌then◌else◌, ◌==◌, nat_eq, string_eq, same_set, leb, Result, return, raise,
}
use lm_resiliency.Base.Int.{pos}
use lm_resiliency.Protocol.Value.{Value, object, int, keys, at}
use lm_resiliency.Protocol.Plan.{RestartPlan}
use lm_resiliency.PlanStore.Platform.{Platform, Key, Documented, lease_key, lease_sequence_key}
use lm_resiliency.PlanStore.Actions.{
  Problem, Action, corrupt_lease, wrong_run, conflict, ensure, ◌>>=◌, ensure-eq-return,
  >>=-eq-return,
}
use lm_resiliency.PlanStore.Publish.{
  decided, is_plan, read, renew_plan_lease, lease_document, next_number, write,
}
use lm_resiliency.PlanStore.Publish.Commit.{decided-true}

abbrev is_version : Value → Bool
is_version (int (pos n)) = n == 1
is_version _ = false

-- An integer of at least 0.
abbrev natural_in : Value → Option ℕ
natural_in (int (pos n)) = some n
natural_in _ = none

abbrev lease_fields : List String
lease_fields = "remaining_ms" ∷ "schema_version" ∷ "sequence" ∷ []

abbrev pub lease_numbers : Bool → Option ℕ → Option ℕ → Result Problem (ℕ × ℕ)
lease_numbers sound (some sequence) (some remaining) =
    if sound && leb 1 sequence then return (sequence, remaining) else raise corrupt_lease
lease_numbers sound _ _ = raise corrupt_lease

module _ (p : Platform) (run_id : String) where
  open p use {Bytes, bytes_discrete, dumps, loads, State, view}

  abbrev pub lease_in : Bytes → Option Value → Result Problem (ℕ × ℕ)
  lease_in encoded (some (object fs)) =
      lease_numbers
        (same_set (keys fs) lease_fields
          && (is_version (at fs "schema_version")
              && decided (bytes_discrete (dumps (object fs)) encoded)))
        (natural_in (at fs "sequence")) (natural_in (at fs "remaining_ms"))
  lease_in encoded _ = raise corrupt_lease

  abbrev pub found_lease : Result Problem (ℕ × ℕ) → Result Problem (Option (ℕ × ℕ))
  found_lease (return l) = return (some l)
  found_lease (raise e) = raise e

  abbrev pub lease_of : Option Bytes → Result Problem (Option (ℕ × ℕ))
  lease_of none = return none
  lease_of (some encoded) = found_lease (lease_in encoded (loads encoded))

  -- The sequence number and the milliseconds that are left; nothing where no lease was ever written.
  unfoldable pub read_plan_lease : (String → String) → RestartPlan → Action State (Option (ℕ × ℕ))
  read_plan_lease key plan =
      ensure (plan.run_id == run_id) wrong_run
        (λ s. (lease_of (view s (lease_key plan.to_generation (key plan.plan_id))), s))

-- What the store documents of `set`.
pub record Written (p : Platform) : Type 0 where
  pub sets : (s : p.State) (k : Key) (b : p.Bytes) → p.view (p.set s k b) k ≡ some b

module _ (p : Platform) (d : Documented p) (w : Written p) (run_id : String) where
  open p use {Bytes, bytes_discrete, dumps, loads, State, view}

  written_number :
      (k : Key) (b : Bytes) (n m : ℕ) (s s' : State)
      → write p run_id k b n s ≡ (return m, s')
      → (n ≡ m) × (s' ≡ p.set s k b)
  written_number k b n m s s' h =
      let same : n ≡ m = cc in let state : s' ≡ p.set s k b = cc in (same, state)

  sound_lease :
      (n remaining : ℕ)
      → leb 1 n ≡ true
      → lease_of p run_id (some (dumps (lease_document p run_id remaining n)))
        ≡ return (some (n, remaining))
  sound_lease n remaining h =
      rw
        (
          d.loads-dumps (lease_document p run_id remaining n),
          decided-true
              (bytes_discrete (dumps (lease_document p run_id remaining n))
                (dumps (lease_document p run_id remaining n)))
              refl,
          h,
        )
        refl

  -- If the store keeps its documented behaviour, then after a renewal that returns a sequence number, a
  -- reader of the plan's lease gets this number and the time that was written, and nothing changes by it.
  pub renewed_lease_is_read :
      (key : String → String) (plan : RestartPlan) (remaining : ℕ) (s s' : State) {n : ℕ}
      → renew_plan_lease p run_id key plan (pos remaining) s ≡ (return n, s')
      → read_plan_lease p run_id key plan s' ≡ (return (some (n, remaining)), s')
  unfolding renew_plan_lease read_plan_lease
  renewed_lease_is_read key plan remaining s s' {n} h =
      let k = lease_key plan.to_generation (key plan.plan_id) in
      let put = λ (q : ℕ). write p run_id k (dumps (lease_document p run_id remaining q)) q in
      let number_then_put =
        next_number p run_id (lease_sequence_key plan.to_generation (key plan.plan_id)) >>= λ q.
        ensure (leb 1 q) corrupt_lease (put q) in
      let (run, h1) = ensure-eq-return (plan.run_id == run_id) wrong_run _ s s' h in
      let (committed, t, _, h2) =
        >>=-eq-return (read p run_id plan.to_generation)
          (λ o. ensure (is_plan o plan) conflict number_then_put) s s' h1 in
      let (_, h3) = ensure-eq-return (is_plan committed plan) conflict number_then_put t s' h2 in
      let (sequence, u, _, h4) =
        >>=-eq-return
          (next_number p run_id (lease_sequence_key plan.to_generation (key plan.plan_id)))
          (λ q. ensure (leb 1 q) corrupt_lease (put q)) t s' h3 in
      let (positive, h5) = ensure-eq-return (leb 1 sequence) corrupt_lease (put sequence) u s' h4 in
      let (number, state) =
        written_number k (dumps (lease_document p run_id remaining sequence)) sequence n u s' h5 in
      let there : view s' k ≡ some (dumps (lease_document p run_id remaining n)) =
        ap (λ x. view x k) state
        ∙ w.sets u k (dumps (lease_document p run_id remaining sequence))
        ∙ ap (λ m. some (dumps (lease_document p run_id remaining m))) number in
      rw (run, there, sound_lease n remaining (rw number at positive)) refl
