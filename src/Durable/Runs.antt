-- ===== src/Durable/Runs.antt =====
-- Every run of the coordinator: candidates, evidence and rejections in any order.
use lm_resiliency.Base.{
  ◌≡◌, refl, ◌∙◌, inl, inr, Bool, true, false, List, Option, some, none, String, if◌then◌else◌,
  string_eq, Distinct, Bool-cases,
}
use lm_resiliency.Base.Int.{ℤ}
use lm_resiliency.Protocol.Value.{end}
use lm_resiliency.Durable.Record.{DurableCheckpointRecord, ReplayResult, rotate_shape_ids}
use lm_resiliency.Durable.Manifests.{Folder, write_pending, reject, clear_pending}
use lm_resiliency.Durable.Rotation.{rotate_shape_ids-IsRotation}
use lm_resiliency.Durable.Evidence.{Hears, IsCandidate}
use lm_resiliency.Durable.Cycle.{
  IsSound, earlier, idle, waiting, save_manifest-latest, reject_candidate-IsSound, observe-IsSound,
}
use lm_resiliency.Durable.Candidate.{
  DurableCheckpointCoordinator, Group, Saved, save_manifest, rejected_record, reject_record,
  begin_candidate, new_record, write_candidate, keep_saved, keep_candidate, is_pending,
  starts_differ, stored, is_json, start_of, artifacts_of,
}
use lm_resiliency.Durable.Evaluation.{
  reject_candidate, observe, open_coordinator, recovered, already_committed,
}

wrote-IsSound :
    {start : Option DurableCheckpointRecord} (c : DurableCheckpointCoordinator)
    (write : Folder → Folder)
    → ((f : Folder) → (write f).latest ≡ f.latest)
    → IsSound start c
    → IsSound start (record c { folder = save_manifest c write })
wrote-IsSound c write h v = record {
  plan = v.plan;
  pending_lem = v.pending_lem;
  latest_lem = v.latest_lem;
  pointer = λ w. save_manifest-latest c write h ∙ v.pointer w;
}

reject_record-IsSound :
    {start : Option DurableCheckpointRecord} (r : DurableCheckpointRecord) (reason : String)
    (c : DurableCheckpointCoordinator)
    → IsSound start c
    → IsSound start (reject_record r reason c)
unfolding reject
reject_record-IsSound r reason c v =
    wrote-IsSound c (λ f. reject f (rejected_record r reason)) (λ f. refl) v

keep_candidate-IsSound :
    {start : Option DurableCheckpointRecord} (b : Bool) (r : DurableCheckpointRecord)
    (c : DurableCheckpointCoordinator)
    → IsCandidate c.shape_ids r
    → IsSound start c
    → IsSound start (keep_candidate b r c).1
keep_candidate-IsSound true r c k v = record {
  plan = v.plan;
  pending_lem = waiting r k;
  latest_lem = v.latest_lem;
  pointer = v.pointer;
}
keep_candidate-IsSound false r c k v = reject_record-IsSound (record r { artifacts = end }) _ c v

stored-IsSound :
    {start : Option DurableCheckpointRecord} (s : Saved) (r : DurableCheckpointRecord)
    (c : DurableCheckpointCoordinator)
    → IsSound start c
    → (IsSound start (stored s r c)) × ((stored s r c).shape_ids ≡ c.shape_ids)
unfolding write_pending
stored-IsSound s r c v = elim (Bool-cases (is_json s)) [
  | inl j ↦ rw j (wrote-IsSound c (λ f. write_pending f r) (λ f. refl) v, refl)
  | inr j ↦ rw j (v, refl)
]

keep_saved-IsSound :
    {start : Option DurableCheckpointRecord} (g : Group) (b : Bool) (s : Saved)
    (r : DurableCheckpointRecord) (c : DurableCheckpointCoordinator)
    → IsCandidate c.shape_ids r
    → IsSound start c
    → IsSound start (keep_saved g b s r c).1
keep_saved-IsSound g true s r c k v =
    let candidate = record r {
      status = "candidate";
      artifacts = if c.is_writer then artifacts_of s else end;
    } in
    let (w, same) = stored-IsSound s candidate c v in
    keep_candidate-IsSound _ candidate (stored s candidate c)
      (rw same
        (record { first = k.first; expected = k.expected; rest = k.rest; so_far = k.so_far }))
      w
keep_saved-IsSound g false s r c k v = reject_record-IsSound r _ c v

write_candidate-IsSound :
    {start : Option DurableCheckpointRecord} (g : Group) (step : ℤ) (first : String)
    (o : Option (List String)) (c : DurableCheckpointCoordinator)
    → rotate_shape_ids c.shape_ids first ≡ o
    → IsSound start c
    → IsSound start (write_candidate g step o c).1
unfolding write_pending
write_candidate-IsSound g step first none c e v = v
write_candidate-IsSound g step first (some expected) c e v =
    let r = new_record g step expected c in
    keep_saved-IsSound g _ (g.save_candidate r) r _
      (record {
        first = first;
        expected = rotate_shape_ids-IsRotation c.shape_ids first v.plan e;
        rest = expected;
        so_far = refl;
      })
      (wrote-IsSound c (λ f. write_pending f r) (λ f. refl) v)

pub begin_candidate-IsSound :
    {start : Option DurableCheckpointRecord} (g : Group) (step : ℤ) (first : String)
    (c : DurableCheckpointCoordinator)
    → IsSound start c
    → IsSound start (begin_candidate g step first c).1
unfolding begin_candidate
begin_candidate-IsSound g step first c v = elim (Bool-cases (is_pending c.pending)) [
  | inl p ↦ rw p v
  | inr p ↦ elim (Bool-cases (starts_differ (g.gather_starts (start_of first c)))) [
    | inl d ↦ rw (p, d) v
    | inr d ↦
        rw (p, d)
          (write_candidate-IsSound g step first (rotate_shape_ids c.shape_ids first) c refl v)
  ]
]

-- Candidates, evidence and rejections in any order, each with its own answers of the group.
pub data Run : DurableCheckpointCoordinator → DurableCheckpointCoordinator → Type 0 where
  started : {c : DurableCheckpointCoordinator} → Run c c
  began :
      {c d : DurableCheckpointCoordinator} (g : Group) (step : ℤ) (first : String)
      → Run c d
      → Run c (begin_candidate g step first d).1
  observed :
      {c d : DurableCheckpointCoordinator} (g : Group) (result : Option ReplayResult) (step : ℤ)
      → Hears g
      → Run c d
      → Run c (observe g result step d).1
  refused :
      {c d : DurableCheckpointCoordinator} (reason : String)
      → Run c d
      → Run c (reject_candidate reason d)

Run-IsSound :
    {start : Option DurableCheckpointRecord} {c d : DurableCheckpointCoordinator}
    → IsSound start c
    → Run c d
    → IsSound start d
Run-IsSound v started = v
Run-IsSound v (began {d = d} g step first s) =
    begin_candidate-IsSound g step first d (Run-IsSound v s)
Run-IsSound v (observed {d = d} g result step hears s) =
    observe-IsSound g result step d hears (Run-IsSound v s)
Run-IsSound v (refused {d = d} reason s) = reject_candidate-IsSound reason d (Run-IsSound v s)

recovered-latest :
    (writer : Bool) (o : Option DurableCheckpointRecord) (f : Folder)
    → (recovered writer o f).latest ≡ f.latest
unfolding clear_pending reject
recovered-latest false o f = refl
recovered-latest true none f = refl
recovered-latest true (some stale) f = elim (Bool-cases (already_committed stale f.latest)) [
  | inl e ↦ rw e refl
  | inr e ↦ rw e refl
]

-- A coordinator as its constructor leaves it: no candidate, and the pointer's record.
open_coordinator-IsSound :
    (plan_id : String) (ids : List String) (environment : String) (writer : Bool) (folder : Folder)
    → Distinct ids
    → IsSound folder.latest (open_coordinator plan_id ids environment writer folder)
unfolding open_coordinator
open_coordinator-IsSound plan_id ids environment writer folder d = record {
  plan = d;
  pending_lem = idle;
  latest_lem = rw (recovered-latest writer folder.pending folder) earlier;
  pointer = λ w. refl;
}

-- Over a plan of distinct shapes, after the constructor and any run, in which every rank hears itself
-- in the evidence, the validated checkpoint is the one that the folder named at first, or one whose
-- checked shapes are all shapes of the plan, once each and in the order of the plan from its first
-- shape on; a pending candidate has checked a first part of such a cycle; and the writer's folder
-- names the validated checkpoint.
pub reachable-IsSound :
    (plan_id : String) (ids : List String) (environment : String) (writer : Bool) (folder : Folder)
    {c : DurableCheckpointCoordinator}
    → Distinct ids
    → Run (open_coordinator plan_id ids environment writer folder) c
    → IsSound folder.latest c
reachable-IsSound plan_id ids environment writer folder d run =
    Run-IsSound (open_coordinator-IsSound plan_id ids environment writer folder d) run
