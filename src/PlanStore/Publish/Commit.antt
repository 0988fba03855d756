-- ===== src/PlanStore/Publish/Commit.antt =====
-- What a publication that returns has committed.
use lm_resiliency.Base.{
  ℕ, ◌≡◌, refl, sym, ap, ◌∙◌, inl, inr, true, Option, some, none, String, ◌==◌, nat_eq, string_eq,
  Result, return, raise, arith, Bool-cases, Option-cases, nat_beq_iff, All, beq_refl,
}
use text.Mathlib.TextEquality.{eq_iff}
use lm_resiliency.Protocol.Value.{Value}
use lm_resiliency.Protocol.Assignment.Wire.{IsSlot}
use lm_resiliency.Protocol.Plan.{RestartPlan, restart_plan, plan_to_dict}
use lm_resiliency.Protocol.Plan.Wire.{plan_wire}
use lm_resiliency.Protocol.Plan.Validity.{restart_plan-IsValid}
use lm_resiliency.PlanStore.Platform.{Platform, Documented, Key, generation, plan_key}
use lm_resiliency.PlanStore.Actions.{
  Problem, wrong_run, conflict, pure, ensure, ◌>>=◌, >>=-eq-return, ensure-eq-return,
}
use lm_resiliency.PlanStore.Publish.{
  RestartPlan-discrete, decided, is_plan, or_else, natural, agrees, reached, read_encoded,
  confirm_plan, confirm_generation, generation_in, decode_generation, current_generation,
  parse_plan, decode_plan, read, commit_plan, advance, publish_at, publish,
}

pub decided-true {ℓ} : {A : Type ℓ} (t : Dec A) → A → decided t ≡ true
decided-true (yes a) h = refl
decided-true (no n) h = absurd (n h)

decided-eq-true {ℓ} : {A : Type ℓ} (t : Dec A) → decided t ≡ true → A
decided-eq-true (yes a) h = a
decided-eq-true (no n) h = absurd (cc)

module _ (p : Platform) (d : Documented p) (run_id : String) where
  open p use {Bytes, bytes_discrete, empty, dumps, loads, ascii, int_of, State, view}

  module _ (given plan : RestartPlan) (built : restart_plan given ≡ return plan)
      (made : All IsSlot plan.slot_assignments) (run : plan.run_id ≡ run_id) where
    parse_dict : parse_plan p run_id (plan_to_dict plan) ≡ some plan
    parse_dict = ground (arith, plan_wire given plan "RestartPlan" built made)

    pub decode_dumps :
        decode_plan p run_id (dumps (plan_to_dict plan)) plan.to_generation ≡ return plan
    unfolding decode_plan
    decode_dumps = rw (
      d.loads-dumps (plan_to_dict plan),
      parse_dict,
      decided-true (bytes_discrete (dumps (plan_to_dict plan)) (dumps (plan_to_dict plan))) refl,
      (eq_iff plan.run_id run_id).1 run,
      beq_refl plan.to_generation,
    )

    agrees-eq-return :
        (r : Result Problem RestartPlan) → agrees p run_id plan r ≡ return tt → r ≡ return plan
    agrees-eq-return (raise e) h = cc
    agrees-eq-return (return existing) h =
        elim (Bool-cases (decided (RestartPlan-discrete existing plan))) [
          | inl same ↦ ap return (decided-eq-true (RestartPlan-discrete existing plan) same)
          | inr other ↦ cc (rw other at h)
        ]

    confirm_plan-decode :
        (stored : Bytes)
        → confirm_plan p run_id plan stored ≡ return tt
        → decode_plan p run_id stored plan.to_generation ≡ return plan
    unfolding confirm_plan
    confirm_plan-decode stored h =
        elim (Bool-cases (decided (bytes_discrete stored (dumps (plan_to_dict plan))))) [
          | inl same ↦
              rw (decided-eq-true (bytes_discrete stored (dumps (plan_to_dict plan))) same)
                decode_dumps
          | inr other ↦
              agrees-eq-return (decode_plan p run_id stored plan.to_generation) (rw other at h)
        ]

    -- After the exchange a document stands under the plan's key, and it is what the exchange answers.
    created :
        (s : State) (k : Key) (v : Value)
        → (b : Bytes) × (view (p.compare_set s k empty (dumps v)) k ≡ some b)
    created s k v = elim (Option-cases (view s k)) [
      | inl absent ↦ (dumps v, d.creates s k (dumps v) absent)
      | inr (old, there) ↦ elim (bytes_discrete old empty) [
        | yes blank ↦ (dumps v, d.replaces s k empty (dumps v) (rw blank at there))
        | no written ↦ (old, d.keeps s k old empty (dumps v) there written)
      ]
    ]

    commit_plan-view :
        (s s' : State)
        → commit_plan p run_id plan s ≡ (return tt, s')
        → (b : Bytes) × (view s' (plan_key plan.to_generation) ≡ some b)
          × (decode_plan p run_id b plan.to_generation ≡ return plan)
    unfolding commit_plan
    commit_plan-view s s' h =
        let k = plan_key plan.to_generation in
        let after = p.compare_set s k empty (dumps (plan_to_dict plan)) in
        let (b, there) = created s k (plan_to_dict plan) in
        let same : after ≡ s' = ap (λ r. r.1) h in
        let confirmed : confirm_plan p run_id plan (or_else (view after k) empty) ≡ return tt =
          ap (λ r. r.0) h in
        (b, rw same at there, confirm_plan-decode b (rw there at confirmed))

    reached-eq-return :
        (r : Result Problem ℕ) → reached p run_id plan r ≡ return tt → r ≡ return plan.to_generation
    reached-eq-return (raise e) h = cc
    reached-eq-return (return observed) h = ground (arith, nat_beq_iff observed plan.to_generation)

    generation_observed :
        (o : Option Bytes)
        → decode_generation p run_id (or_else o (ascii plan.from_generation))
          ≡ return plan.to_generation
        → generation_in p run_id o ≡ return plan.to_generation
    unfolding decode_generation
    generation_observed (some v) h = h
    generation_observed none h =
        let from : natural p run_id (int_of (ascii plan.from_generation))
            ≡ return plan.from_generation =
          rw (d.int_of-ascii plan.from_generation) in
        absurd (ground (arith, from, h, (restart_plan-IsValid given built).identified.successor))

    advance-view :
        (s s' : State)
        → advance p run_id plan s ≡ (return tt, s')
        → (generation_in p run_id (view s' generation) ≡ return plan.to_generation)
          × ((g : ℕ) → view s' (plan_key g) ≡ view s (plan_key g))
    unfolding advance confirm_generation
    advance-view s s' h =
        let after =
          p.compare_set s generation (ascii plan.from_generation) (ascii plan.to_generation) in
        let same : after ≡ s' = ap (λ r. r.1) h in
        let confirmed : reached p run_id plan (
              decode_generation p run_id
                (or_else (view after generation) (ascii plan.from_generation)))
            ≡ return tt =
          ap (λ r. r.0) h in
        let observed =
          reached-eq-return
            (decode_generation p run_id
              (or_else (view after generation) (ascii plan.from_generation)))
            confirmed in
        (
          rw same at (generation_observed (view after generation) observed),
          λ g. rw same at (
              d.elsewhere s generation (plan_key g) (ascii plan.from_generation)
                (ascii plan.to_generation) (λ q. cc)),
        )

    read_committed :
        (s : State)
        → read p run_id plan.to_generation s
          ≡ (read_encoded p run_id (view s (plan_key plan.to_generation)) plan.to_generation, s)
    unfolding read
    read_committed s = ground (arith, (restart_plan-IsValid given built).identified.successor)

    is_plan-eq-true : (o : Option RestartPlan) → is_plan o plan ≡ true → o ≡ some plan
    is_plan-eq-true none h = cc
    is_plan-eq-true (some q) h = ap some (decided-eq-true (RestartPlan-discrete q plan) h)

    -- The plan is what the generation and the plan's key stand for.
    abbrev IsCommitted : State → Type 0
    IsCommitted s =
        (generation_in p run_id (view s generation) ≡ return plan.to_generation)
        × (read_encoded p run_id (view s (plan_key plan.to_generation)) plan.to_generation
            ≡ return (some plan))

    already_committed :
        (t s' : State)
        → generation_in p run_id (view t generation) ≡ return plan.to_generation
        → (read p run_id plan.to_generation >>= λ o. ensure (is_plan o plan) conflict (pure tt)) t
          ≡ (return tt, s')
        → IsCommitted s'
    already_committed t s' now h =
        let (o, u, e, h1) =
          >>=-eq-return (read p run_id plan.to_generation)
            (λ o. ensure (is_plan o plan) conflict (pure tt)) t s' h in
        let (same, h2) = ensure-eq-return (is_plan o plan) conflict (pure tt) u s' h1 in
        let seen = sym (read_committed t) ∙ e in
        let at_end : t ≡ s' = ap (λ r. r.1) seen ∙ ap (λ r. r.1) h2 in
        (rw at_end at now, rw at_end at (ap (λ r. r.0) seen ∙ ap return (is_plan-eq-true o same)))

    newly_committed :
        (t s' : State)
        → (commit_plan p run_id plan >>= λ done. advance p run_id plan) t ≡ (return tt, s')
        → IsCommitted s'
    newly_committed t s' h =
        let (done, u, e, h1) =
          >>=-eq-return (commit_plan p run_id plan) (λ done. advance p run_id plan) t s' h in
        let (b, there, decoded) = commit_plan-view t u e in
        let (now, kept) = advance-view u s' h1 in
        (now, rw (kept plan.to_generation, there, decoded))

    publish_at_commits :
        (current : ℕ) (t s' : State)
        → generation_in p run_id (view t generation) ≡ return current
        → publish_at p run_id current plan t ≡ (return tt, s')
        → IsCommitted s'
    unfolding publish_at
    publish_at_commits current t s' now h = elim (Bool-cases (current == plan.to_generation)) [
      | inl done ↦
          already_committed t s' (now ∙ ap return ((nat_beq_iff _ _).0 done)) (rw done at h)
      | inr ahead ↦
          newly_committed t s'
            (ensure-eq-return (current == plan.from_generation) conflict
              (commit_plan p run_id plan >>= λ done. advance p run_id plan) t s' (rw ahead at h)).1
    ]

  -- If the store keeps its documented behaviour, and the plan is one that the constructor returned, of
  -- assignments that the constructor of `SlotAssignment` accepts, then after a publication that returns
  -- the plan's generation is the current one, and a reader of that generation gets the plan.
  pub publish_commits :
      (given plan : RestartPlan) (s s' : State)
      → restart_plan given ≡ return plan
      → All IsSlot plan.slot_assignments
      → publish p run_id plan s ≡ (return tt, s')
      → (current_generation p run_id s' ≡ (return plan.to_generation, s'))
        × (read p run_id plan.to_generation s' ≡ (return (some plan), s'))
  unfolding publish current_generation
  publish_commits given plan s s' built made h =
      let (run, h1) = ensure-eq-return (plan.run_id == run_id) wrong_run _ s s' h in
      let (current, t, now, h2) =
        >>=-eq-return (current_generation p run_id) (λ c. publish_at p run_id c plan) s s' h1 in
      let same : s ≡ t = ap (λ r. r.1) now in
      let (done, kept) =
        publish_at_commits given plan built made ((eq_iff _ _).0 run) current t s'
          (rw (← same) (ap (λ r. r.0) now)) h2 in
      (
        rw done,
        read_committed given plan built made ((eq_iff _ _).0 run) s' ∙ ap (λ r. (r, s')) kept,
      )
