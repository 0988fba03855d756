-- ===== src/PlanStore/Publish/Trusted.antt =====
-- What a plan that is read from the store has passed.
use text.Mathlib.TextEquality.{eq_iff}
use lm_resiliency.Base.{
  ℕ, ◌≡◌, refl, ap, inl, inr, Bool, true, false, ◌&&◌, Option, some, none, String, nat_eq,
  string_eq, ◌==◌, Result, return, raise, arith, ltb, Bool-cases, if◌then◌else◌, >>=-eq-return,
}
use lm_resiliency.Protocol.Value.{
  Error, Value, Fields, mapping, record_fields, string, optional_string, integer, choice, strings,
  at,
}
use lm_resiliency.Protocol.Assignment.{assignments_from_dict}
use lm_resiliency.Protocol.Plan.{
  RestartPlan, plan_fields, modes, sources, plan_from_dict, plan_to_dict,
}
use lm_resiliency.Protocol.Plan.Validity.{IsValid, restart_plan-IsValid}
use lm_resiliency.PlanStore.Platform.{Platform, plan_key}
use lm_resiliency.PlanStore.Actions.{Problem, corrupt_plan}
use lm_resiliency.PlanStore.Publish.{
  decided, identified, parse_plan, parsed, document, decode_plan, found, read_encoded, read,
}

-- A document that is read as a plan is a valid plan.
pub plan_from_dict-IsValid :
    (fields : Fields) (plan : RestartPlan) → plan_from_dict fields ≡ return plan → IsValid plan
unfolding plan_from_dict
plan_from_dict-IsValid fields plan h =
    let (_, _, h1) = >>=-eq-return (record_fields fields "RestartPlan" plan_fields) _ h in
    let (plan_id, _, h2) =
      >>=-eq-return (string (at fields "plan_id") "RestartPlan.plan_id") _ h1 in
    let (intent_id, _, h3) =
      >>=-eq-return (string (at fields "intent_id") "RestartPlan.intent_id") _ h2 in
    let (run_id, _, h4) = >>=-eq-return (string (at fields "run_id") "RestartPlan.run_id") _ h3 in
    let (from_generation, _, h5) =
      >>=-eq-return (integer (at fields "from_generation") "RestartPlan.from_generation" 0) _ h4 in
    let (to_generation, _, h6) =
      >>=-eq-return (integer (at fields "to_generation") "RestartPlan.to_generation" 1) _ h5 in
    let (incident_ids, _, h7) =
      >>=-eq-return (strings (at fields "incident_ids") "RestartPlan.incident_ids") _ h6 in
    let (reason_code, _, h8) =
      >>=-eq-return (string (at fields "reason_code") "RestartPlan.reason_code") _ h7 in
    let (recovery_mode, _, h9) =
      >>=-eq-return (choice (at fields "recovery_mode") "RestartPlan.recovery_mode" modes) _ h8 in
    let (checkpoint_source, _, h10) =
      >>=-eq-return (choice (at fields "checkpoint_source") "RestartPlan.checkpoint_source" sources)
        _ h9 in
    let (checkpoint_step, _, h11) =
      >>=-eq-return (integer (at fields "checkpoint_step") "RestartPlan.checkpoint_step" 1) _ h10 in
    let (checkpoint_id, _, h12) =
      >>=-eq-return (optional_string (at fields "checkpoint_id") "RestartPlan.checkpoint_id") _
        h11 in
    let (manifest_id, _, h13) =
      >>=-eq-return
        (string (at fields "checkpoint_manifest_id") "RestartPlan.checkpoint_manifest_id") _ h12 in
    let (slots, _, h14) =
      >>=-eq-return
        (assignments_from_dict (at fields "slot_assignments") "RestartPlan.slot_assignments") _
        h13 in
    let (quarantined, _, h15) =
      >>=-eq-return (strings (at fields "quarantined_node_ids") "RestartPlan.quarantined_node_ids")
        _ h14 in
    let (world, _, h16) =
      >>=-eq-return (integer (at fields "expected_world_size") "RestartPlan.expected_world_size" 1)
        _ h15 in
    let (topology, _, h17) =
      >>=-eq-return (string (at fields "topology_digest") "RestartPlan.topology_digest") _ h16 in
    let (deadline, _, h18) =
      >>=-eq-return
        (integer (at fields "restart_deadline_unix_ms") "RestartPlan.restart_deadline_unix_ms" 1) _
        h17 in
    restart_plan-IsValid _ h18

abbrev the_plan : Bool → RestartPlan → Problem → Result Problem RestartPlan
the_plan b q e = if b then return q else raise e

abbrev the_none : Result Problem (Option RestartPlan)
the_none = return none

module _ (p : Platform) (run_id : String) where
  open p use {Bytes, bytes_discrete, empty, dumps, loads, ascii, int_of, State, view, compare_set}

  -- A plan of the run and of the generation that was asked for.
  pub record IsTrusted (g : ℕ) (plan : RestartPlan) : Type 0 where
    pub valid : IsValid plan
    pub of_run : plan.run_id ≡ run_id
    pub of_generation : plan.to_generation ≡ g

  kept_plan :
      (r : Result Error RestartPlan) (plan : RestartPlan)
      → (elim r [ raise e ↦ none | return q ↦ some q ]) ≡ some plan
      → r ≡ return plan
  kept_plan (raise e) plan h = cc
  kept_plan (return q) plan h = let same : q ≡ plan = cc in ap return same

  parsed_fields :
      (m : Result Error Fields) (plan : RestartPlan)
      → (elim m [
        | raise e ↦ none
        | return fields ↦ elim (plan_from_dict fields) [ raise e ↦ none | return q ↦ some q ]
      ])
        ≡ some plan
      → IsValid plan
  parsed_fields (raise e) plan h = cc
  parsed_fields (return fields) plan h =
      plan_from_dict-IsValid fields plan (kept_plan (plan_from_dict fields) plan h)

  accepted :
      (b : Bool) (q plan : RestartPlan) (e : Problem)
      → the_plan b q e ≡ return plan
      → (b ≡ true) × (q ≡ plan)
  accepted true q plan e h = let same : q ≡ plan = cc in (refl, same)
  accepted false q plan e h = cc

  identified-IsTrusted :
      (g : ℕ) (encoded : Bytes) (q plan : RestartPlan)
      → IsValid q
      → identified p run_id g encoded q ≡ return plan
      → IsTrusted g plan
  identified-IsTrusted g encoded q plan v h =
      let whole = decided (bytes_discrete (dumps (plan_to_dict q)) encoded) in
      let (good, same) =
        accepted (whole && (q.run_id == run_id && q.to_generation == g)) q plan corrupt_plan h in
      rw (← same) (record {
        valid = v;
        of_run = (eq_iff q.run_id run_id).0 (ground (arith, good));
        of_generation = ground (arith, good);
      })

  parsed-IsTrusted :
      (g : ℕ) (encoded : Bytes) (o : Option RestartPlan) (plan : RestartPlan)
      → ((q : RestartPlan) → o ≡ some q → IsValid q)
      → parsed p run_id g encoded o ≡ return plan
      → IsTrusted g plan
  parsed-IsTrusted g encoded none plan v h = cc
  parsed-IsTrusted g encoded (some q) plan v h = identified-IsTrusted g encoded q plan (v q refl) h

  document-IsTrusted :
      (g : ℕ) (encoded : Bytes) (o : Option Value) (plan : RestartPlan)
      → document p run_id g encoded o ≡ return plan
      → IsTrusted g plan
  document-IsTrusted g encoded none plan h = cc
  document-IsTrusted g encoded (some v) plan h =
      parsed-IsTrusted g encoded (parse_plan p run_id v) plan
        (λ q. parsed_fields (mapping v "RestartPlan") q) h

  found-some :
      (r : Result Problem RestartPlan) (plan : RestartPlan)
      → found p run_id r ≡ return (some plan)
      → r ≡ return plan
  found-some (raise e) plan h = cc
  found-some (return q) plan h = let same : q ≡ plan = cc in ap return same

  read_encoded-IsTrusted :
      (o : Option Bytes) (g : ℕ) (plan : RestartPlan)
      → read_encoded p run_id o g ≡ return (some plan)
      → IsTrusted g plan
  unfolding decode_plan
  read_encoded-IsTrusted none g plan h = cc
  read_encoded-IsTrusted (some encoded) g plan h =
      document-IsTrusted g encoded (loads encoded) plan
        (found-some (decode_plan p run_id encoded g) plan h)

  -- Whatever stands in the store: a plan that is read for a generation is a valid plan of this run and of
  -- this generation, and the store is left as it is.
  pub read-IsTrusted :
      (g : ℕ) (s : State) (plan : RestartPlan)
      → (read p run_id g s).0 ≡ return (some plan)
      → IsTrusted g plan × ((read p run_id g s).1 ≡ s)
  unfolding read
  read-IsTrusted g s plan h = (
    elim (Bool-cases (ltb g 1)) [
      | inl low ↦ absurd (no_plan (rw low at h))
      | inr high ↦ read_encoded-IsTrusted (view s (plan_key g)) g plan (rw high at h)
    ],
    refl,
  )
    where
      no_plan : the_none ≡ return (some plan) → ⊥
      no_plan e = cc
