-- ===== src/Durable/Loaded.antt =====
-- durable.py: what `load_latest_validated` may answer.
use text.Mathlib.TextEquality.{eq_iff}
use lm_resiliency.Base.{
  ◌≡◌, ◌⊎◌, refl, sym, ap, ◌∙◌, inl, inr, Bool, true, ◌&&◌, [], ◌∷◌, Option, some, none, String,
  nat_eq, string_eq, ◌==◌, contains, arith, Bool-cases, return,
}
use lm_resiliency.Base.Int.{ℤ}
use lm_resiliency.Base.Discrete.{ℤ-discrete}
use lm_resiliency.Durable.Record.{DurableCheckpointRecord, checked_shape_ids, complete}
use lm_resiliency.Durable.Rotation.{same_names_iff}
use lm_resiliency.Durable.Candidate.{DurableCheckpointCoordinator, Group}
use lm_resiliency.Durable.Evaluation.{
  is_clean, is_verified, matched, same_step, load_manifest, load_latest_validated,
}

-- A checkpoint that the folder's pointer names, which is certified with a clean verdict, whose shapes
-- were all checked in the order of its cycle, and which the framework's loader loads at its own step.
pub record IsLoadable (g : Group) (c : DurableCheckpointCoordinator) (z : ℤ) : Type 0 where
  pub named : DurableCheckpointRecord
  pub latest_lem : c.folder.latest ≡ some named
  pub status_lem : (named.status ≡ "recovery_verified") ⊎ (named.status ≡ "validated")
  pub verdict_lem : named.verdict ≡ some "clean"
  pub whole : checked_shape_ids named ≡ named.expected_shape_ids
  pub loaded : g.load_checkpoint named ≡ some z
  pub own_step : named.step ≡ z

matched_step :
    (a z : ℤ) (t : Dec (a ≡ z)) {o : Option ℤ} → matched a t ≡ return o → (a ≡ z) × (o ≡ some a)
matched_step a z (yes e) {o} h = let same : some a ≡ o = cc in (e, sym same)
matched_step a z (no n) h = cc

same_step-eq-return :
    (step : ℤ) (l : Option ℤ) {o : Option ℤ}
    → same_step step l ≡ return o
    → (l ≡ some step) × (o ≡ some step)
same_step-eq-return step none h = cc
same_step-eq-return step (some a) h =
    let (same, out) = matched_step a step (ℤ-discrete a step) h in
    (ap some same, out ∙ ap some same)

clean_verdict : (o : Option String) → is_clean o ≡ true → o ≡ some "clean"
clean_verdict none h = cc
clean_verdict (some v) h = ap some ((eq_iff v "clean").0 h)

both_true : (a b : Bool) → (a && b) ≡ true → (a ≡ true) × (b ≡ true)
both_true a b h = ground (arith, h)

both : (a b : Bool) → a ≡ true → b ≡ true → (a && b) ≡ true
both a b h g = ground (arith, h, g)

a_status :
    (s : String)
    → contains ("recovery_verified" ∷ "validated" ∷ []) s ≡ true
    → (s ≡ "recovery_verified") ⊎ (s ≡ "validated")
a_status s h = elim (Bool-cases ("recovery_verified" == s)) [
  | inl e ↦ inl (sym ((eq_iff "recovery_verified" s).0 e))
  | inr n ↦ inr (sym ((eq_iff "validated" s).0 (ground (arith, n))))
]

status_listed :
    (s : String)
    → (s ≡ "recovery_verified") ⊎ (s ≡ "validated")
    → contains ("recovery_verified" ∷ "validated" ∷ []) s ≡ true
status_listed s (inl e) = rw e refl
status_listed s (inr e) = rw e refl

load_manifest-IsLoadable :
    (g : Group) (c : DurableCheckpointCoordinator) (o : Option DurableCheckpointRecord) {z : ℤ}
    → c.folder.latest ≡ o
    → load_manifest g o ≡ return (some z)
    → IsLoadable g c z
load_manifest-IsLoadable g c none e h = cc
load_manifest-IsLoadable g c (some r) {z} e h = elim (Bool-cases (is_verified r)) [
  | inr n ↦ absurd (ground (arith, rw n at h))
  | inl v ↦ elim (Bool-cases (complete r)) [
    | inr n ↦ absurd (ground (arith, rw (v, n) at h))
    | inl w ↦
        let (answered, out) = same_step-eq-return r.step (g.load_checkpoint r) (rw (v, w) at h) in
        let (status, verdict) = both_true _ (is_clean r.verdict) v in
        let step : r.step ≡ z = cc in
        record {
          named = r;
          latest_lem = e;
          status_lem = a_status r.status status;
          verdict_lem = clean_verdict r.verdict verdict;
          whole = (same_names_iff (checked_shape_ids r) r.expected_shape_ids).0 w;
          loaded = answered ∙ ap some step;
          own_step = step;
        }
  ]
]

matched-same : (z : ℤ) (t : Dec (z ≡ z)) → matched z t ≡ return (some z)
matched-same z (yes e) = refl
matched-same z (no n) = absurd (n refl)

IsLoadable-loads :
    (g : Group) (c : DurableCheckpointCoordinator) {z : ℤ}
    → IsLoadable g c z
    → load_latest_validated g c ≡ return (some z)
unfolding load_latest_validated
IsLoadable-loads g c {z} k =
    let verified : is_verified k.named ≡ true =
      both _ _ (status_listed k.named.status k.status_lem) (ap is_clean k.verdict_lem) in
    rw
      (
        k.latest_lem,
        verified,
        (same_names_iff (checked_shape_ids k.named) k.named.expected_shape_ids).1 k.whole,
        k.loaded,
        k.own_step,
      )
      (matched-same z (ℤ-discrete z z))

no_answer :
    (g : Group) (o : Option DurableCheckpointRecord) → load_manifest g o ≡ return none → o ≡ none
no_answer g none h = refl
no_answer g (some r) h = elim (Bool-cases (is_verified r)) [
  | inr n ↦ absurd (ground (arith, rw n at h))
  | inl v ↦ elim (Bool-cases (complete r)) [
    | inr n ↦ absurd (ground (arith, rw (v, n) at h))
    | inl w ↦
        let (_, out) = same_step-eq-return r.step (g.load_checkpoint r) (rw (v, w) at h) in
        absurd (cc)
  ]
]

-- A load answers a step exactly if the folder's pointer names a checkpoint that has been certified with a
-- clean verdict, all of whose shapes were checked in order, and which the framework's loader loads at
-- this step, its own. It answers nothing exactly if the pointer names none. In all other cases it raises.
pub load_latest_validated-IsLoadable :
    (g : Group) (c : DurableCheckpointCoordinator) (z : ℤ)
    → ((load_latest_validated g c ≡ return (some z) → IsLoadable g c z)
        × (IsLoadable g c z → load_latest_validated g c ≡ return (some z)))
      × ((load_latest_validated g c ≡ return none → c.folder.latest ≡ none)
          × (c.folder.latest ≡ none → load_latest_validated g c ≡ return none))
unfolding load_latest_validated
load_latest_validated-IsLoadable g c z = (
  (load_manifest-IsLoadable g c c.folder.latest refl, IsLoadable-loads g c),
  (no_answer g c.folder.latest, λ e. rw e refl),
)
