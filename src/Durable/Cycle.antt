-- ===== src/Durable/Cycle.antt =====
-- The invariant of a coordinator.
use lm_resiliency.Base.{
  ◌≡◌, refl, ◌∙◌, inl, inr, Bool, true, false, List, Option, some, none, String, nat_eq, string_eq,
  Distinct, get_elem?-All, Bool-cases, Option-cases,
}
use lm_resiliency.Base.Int.{ℤ}
use lm_resiliency.Durable.Record.{DurableCheckpointRecord, ReplayResult, complete}
use lm_resiliency.Durable.Manifests.{Folder, write_pending, commit, reject}
use lm_resiliency.Durable.Agreement.{rejection-none}
use lm_resiliency.Durable.Evidence.{
  Hears, IsCandidate, IsCertified, own_shapes, extended-IsCandidate, complete-IsCertified,
}
use lm_resiliency.Durable.Candidate.{
  save_manifest, rejected_record, DurableCheckpointCoordinator, Group,
}
use lm_resiliency.Durable.Evaluation.{
  reject_pending, observation, rejection, conclude, observe, extended, certified, commit_candidate,
  observe_pending, reject_candidate,
}

-- The validated checkpoint is the one that was there at first, or it is certified.
pub data IsTrusted (ids : List String) (first : Option DurableCheckpointRecord)
    : Option DurableCheckpointRecord → Type 0 where
  earlier : IsTrusted ids first first
  later_one : (r : DurableCheckpointRecord) → IsCertified ids r → IsTrusted ids first (some r)

pub data IsWaiting (ids : List String) : Option DurableCheckpointRecord → Type 0 where
  idle : IsWaiting ids none
  waiting : (r : DurableCheckpointRecord) → IsCandidate ids r → IsWaiting ids (some r)

pub record IsSound (start : Option DurableCheckpointRecord) (c : DurableCheckpointCoordinator)
    : Type 0 where
  pub plan : Distinct c.shape_ids
  pub pending_lem : IsWaiting c.shape_ids c.pending
  pub latest_lem : IsTrusted c.shape_ids start c.latest
  pub pointer : c.is_writer ≡ true → c.folder.latest ≡ c.latest

-- A manifest write that keeps the pointer.
pub save_manifest-latest :
    (c : DurableCheckpointCoordinator) (write : Folder → Folder)
    → ((f : Folder) → (write f).latest ≡ f.latest)
    → (save_manifest c write).latest ≡ c.folder.latest
save_manifest-latest c write h = elim (Bool-cases c.is_writer) [
  | inl w ↦ rw w (h c.folder)
  | inr w ↦ rw w refl
]

reject_pending-IsSound :
    {start : Option DurableCheckpointRecord} (reason : String) (o : Option DurableCheckpointRecord)
    (c : DurableCheckpointCoordinator)
    → IsSound start c
    → IsSound start (reject_pending reason o c)
unfolding reject
reject_pending-IsSound reason none c v = v
reject_pending-IsSound reason (some r) c v = record {
  plan = v.plan;
  pending_lem = idle;
  latest_lem = v.latest_lem;
  pointer = λ w.
      save_manifest-latest c (λ f. reject f (rejected_record r reason)) (λ f. refl) ∙ v.pointer w;
}

pub reject_candidate-IsSound :
    {start : Option DurableCheckpointRecord} (reason : String) (c : DurableCheckpointCoordinator)
    → IsSound start c
    → IsSound start (reject_candidate reason c)
unfolding reject_candidate
reject_candidate-IsSound reason c v = reject_pending-IsSound reason c.pending c v

conclude-IsSound :
    {start : Option DurableCheckpointRecord} (b : Bool) (r : DurableCheckpointRecord) (step : ℤ)
    (c : DurableCheckpointCoordinator)
    → IsSound start c
    → IsCandidate c.shape_ids r
    → complete r ≡ b
    → IsSound start (conclude b r step (record c { pending = some r })).1
unfolding commit_candidate commit write_pending
conclude-IsSound true r step c v k h = record {
  plan = v.plan;
  pending_lem = idle;
  latest_lem = later_one (certified r step) (complete-IsCertified c.shape_ids r step k h);
  pointer = λ w. rw (w) refl;
}
conclude-IsSound false r step c v k h = record {
  plan = v.plan;
  pending_lem = waiting r k;
  latest_lem = v.latest_lem;
  pointer = λ w. save_manifest-latest c (λ f. write_pending f r) (λ f. refl) ∙ v.pointer w;
}

observe_pending-IsSound :
    {start : Option DurableCheckpointRecord} (g : Group) (result : Option ReplayResult) (step : ℤ)
    (c : DurableCheckpointCoordinator) (o : Option DurableCheckpointRecord)
    → Hears g
    → IsSound start c
    → IsWaiting c.shape_ids o
    → IsSound start (observe_pending g result step c o).1
observe_pending-IsSound g result step c none hears v w = v
observe_pending-IsSound {start} g result step c (some r) hears v (waiting _ k) =
    let own = observation r result in
    elim (Option-cases (rejection (g.gather_observations own) own.checked)) [
      | inr (reason, e) ↦ rw e (reject_candidate-IsSound reason c v)
      | inl e ↦
          let clean = rejection-none (g.gather_observations own) own.checked e in
          let mine : own.reason ≡ none =
            get_elem?-All (λ x. x.reason ≡ none) (g.gather_observations own) hears.rank
              clean.no_reason (hears.own own) in
          rw e (
            conclude-IsSound (complete (extended r own.checked step)) (extended r own.checked step)
              step c v
              (extended-IsCandidate c.shape_ids r own.checked step k (own_shapes r result mine))
              refl)
    ]

pub observe-IsSound :
    {start : Option DurableCheckpointRecord} (g : Group) (result : Option ReplayResult) (step : ℤ)
    (c : DurableCheckpointCoordinator)
    → Hears g
    → IsSound start c
    → IsSound start (observe g result step c).1
unfolding observe
observe-IsSound g result step c hears v =
    observe_pending-IsSound g result step c c.pending hears v v.pending_lem
