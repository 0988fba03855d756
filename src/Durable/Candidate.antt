-- ===== src/Durable/Candidate.antt =====
-- durable.py: the state of `DurableCheckpointCoordinator` on one rank, and the start of a candidate.
use lm_resiliency.Base.{
  ℕ, ◌+◌, Bool, true, false, ◌&&◌, ◌||◌, not, List, [], ◌∷◌, Option, some, none, String,
  if◌then◌else◌, ◌==◌, nat_eq, string_eq, any, Result, return, raise,
}
use lm_resiliency.Base.Int.{ℤ}
use lm_resiliency.Protocol.Value.{Fields, end}
use lm_resiliency.Durable.Record.{DurableCheckpointRecord, same_names, rotate_shape_ids}
use lm_resiliency.Durable.Manifests.{Folder, write_pending, reject}

pub record DurableCheckpointCoordinator : Type 0 where
  pub shape_plan_id : String
  pub shape_ids : List String
  pub environment_id : String
  pub is_writer : Bool
  pub pending : Option DurableCheckpointRecord
  pub latest : Option DurableCheckpointRecord
  pub next_epoch : ℕ
  pub folder : Folder

pub data DurableCheckpointEvent : Type 0 where
  no_event progress committed rejected : DurableCheckpointEvent

pub data Failure : Type 0 where
  already_pending plans_differ unknown_shape write_failed metadata_failed : Failure
  not_verified incomplete no_step other_step : Failure

-- What every rank gathers before a candidate: its plan, its first shape and its environment.
pub record Start : Type 0 where
  pub plan_id : String
  pub ids : List String
  pub first : String
  pub environment : String

-- What every rank gathers of a replay: a reason to refuse it, or the shapes that it checked.
pub record Observation : Type 0 where
  pub reason : Option String
  pub checked : List String

-- What the framework's save answers: an exception, artifacts that are no JSON, or artifacts.
pub data Saved : Type 0 where
  save_failed not_json : Saved
  saved : Fields → Saved

-- The other ranks and the framework: collectives as functions of this rank's part.
pub record Group : Type 0 where
  pub gather_starts : Start → List Start
  pub gather_observations : Observation → List Observation
  pub all_saved : Bool → Bool
  pub all_written : Bool → Bool
  pub checkpoint_name : ℤ → ℕ → String → String
  pub save_candidate : DurableCheckpointRecord → Saved
  pub load_checkpoint : DurableCheckpointRecord → Option ℤ

abbrev pub save_manifest : DurableCheckpointCoordinator → (Folder → Folder) → Folder
save_manifest c write = if c.is_writer then write c.folder else c.folder

-- `_reject_record` on the writer: the notification of the framework changes nothing here.
abbrev pub rejected_record : DurableCheckpointRecord → String → DurableCheckpointRecord
rejected_record r reason = record r { status = "rejected"; verdict = some reason }

abbrev pub reject_record :
    DurableCheckpointRecord → String → DurableCheckpointCoordinator → DurableCheckpointCoordinator
reject_record r reason c = record c {
  folder = save_manifest c (λ f. reject f (rejected_record r reason));
}

abbrev pub same_start : Start → Start → Bool
same_start a b =
    (a.plan_id == b.plan_id && same_names a.ids b.ids)
    && (a.first == b.first && a.environment == b.environment)

-- `any(item != starts[0] for item in starts[1:])`
abbrev pub starts_differ : List Start → Bool
starts_differ [] = false
starts_differ (s ∷ rest) = any (λ t. not (same_start t s)) rest

abbrev pub is_saved : Saved → Bool
is_saved save_failed = false
is_saved _ = true

abbrev pub is_json : Saved → Bool
is_json not_json = false
is_json _ = true

abbrev pub artifacts_of : Saved → Fields
artifacts_of (saved fs) = fs
artifacts_of _ = end

abbrev pub Begun : Type 0
Begun = Result Failure DurableCheckpointRecord × DurableCheckpointCoordinator

-- The writer stores the artifacts, if they are JSON.
abbrev pub stored :
    Saved → DurableCheckpointRecord → DurableCheckpointCoordinator → DurableCheckpointCoordinator
stored s r c =
    if is_json s then record c { folder = save_manifest c (λ f. write_pending f r) } else c

abbrev pub keep_candidate : Bool → DurableCheckpointRecord → DurableCheckpointCoordinator → Begun
keep_candidate true r c =
    (return r, record c { pending = some r; next_epoch = r.validation_epoch + 1 })
keep_candidate false r c = (
  raise metadata_failed,
  reject_record (record r { artifacts = end }) "candidate artifact metadata could not be persisted"
      c,
)

abbrev pub keep_saved :
    Group → Bool → Saved → DurableCheckpointRecord → DurableCheckpointCoordinator → Begun
keep_saved g true s r c =
    let candidate = record r {
      status = "candidate";
      artifacts = if c.is_writer then artifacts_of s else end;
    } in
    keep_candidate (g.all_written (not c.is_writer || is_json s)) candidate (stored s candidate c)
keep_saved g false s r c =
    (raise write_failed, reject_record r "framework candidate checkpoint write failed" c)

abbrev pub new_record :
    Group → ℤ → List String → DurableCheckpointCoordinator → DurableCheckpointRecord
new_record g step expected c = record {
  checkpoint_id = g.checkpoint_name step c.next_epoch c.shape_plan_id;
  step = step;
  validation_epoch = c.next_epoch;
  shape_plan_id = c.shape_plan_id;
  environment_id = c.environment_id;
  expected_shape_ids = expected;
  checked_shapes = [];
  status = "writing";
  verdict = none;
  completed_step = none;
  artifacts = end;
}

-- The candidate is written down, saved by the framework on every rank, and written down again.
abbrev pub write_candidate : Group → ℤ → Option (List String) → DurableCheckpointCoordinator → Begun
write_candidate g step none c = (raise unknown_shape, c)
write_candidate g step (some expected) c =
    let r = new_record g step expected c in
    keep_saved g (g.all_saved (is_saved (g.save_candidate r))) (g.save_candidate r) r
      (record c { folder = save_manifest c (λ f. write_pending f r) })

abbrev pub is_pending : Option DurableCheckpointRecord → Bool
is_pending none = false
is_pending (some r) = true

abbrev pub start_of : String → DurableCheckpointCoordinator → Start
start_of first c = record {
  plan_id = c.shape_plan_id;
  ids = c.shape_ids;
  first = first;
  environment = c.environment_id;
}

unfoldable pub begin_candidate : Group → ℤ → String → DurableCheckpointCoordinator → Begun
begin_candidate g step first c =
    if is_pending c.pending
    then (raise already_pending, c)
    else if starts_differ (g.gather_starts (start_of first c))
    then (raise plans_differ, c)
    else write_candidate g step (rotate_shape_ids c.shape_ids first) c
