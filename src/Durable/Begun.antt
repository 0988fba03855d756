-- ===== src/Durable/Begun.antt =====
-- What `begin_candidate` leaves when it returns a record.
use lm_resiliency.Base.{
  ◌≡◌, refl, Bool, true, false, List, [], Option, some, none, String, string_eq, if◌then◌else◌,
  return, raise, not, ◌||◌,
}
use lm_resiliency.Base.Int.{ℤ}
use lm_resiliency.Protocol.Value.{end}
use lm_resiliency.Durable.Record.{DurableCheckpointRecord, checked_shape_ids, rotate_shape_ids}
use lm_resiliency.Durable.Candidate.{
  already_pending, plans_differ, DurableCheckpointCoordinator, Begun, Group, Saved, begin_candidate,
  new_record, write_candidate, keep_saved, keep_candidate, is_pending, starts_differ, stored,
  is_json, start_of, artifacts_of, save_manifest, is_saved,
}
use lm_resiliency.Durable.Manifests.{write_pending}

-- The record is the pending one, and it waits for all of these shapes.
pub record IsFresh (expected : Option (List String)) (r : DurableCheckpointRecord) (b : Begun)
    : Type 0 where
  pub is_pending : b.1.pending ≡ some r
  pub awaits : expected ≡ some r.expected_shape_ids
  pub unchecked : checked_shape_ids r ≡ []

keep_candidate-IsFresh :
    (b : Bool) (r : DurableCheckpointRecord) (c : DurableCheckpointCoordinator)
    {out : DurableCheckpointRecord}
    → checked_shape_ids r ≡ []
    → (keep_candidate b r c).0 ≡ return out
    → IsFresh (some r.expected_shape_ids) out (keep_candidate b r c)
keep_candidate-IsFresh true r c {out} e h =
    let same : r ≡ out = cc in
    rw (← same) (record { is_pending = refl; awaits = refl; unchecked = e })
keep_candidate-IsFresh false r c e h = cc

keep_saved-IsFresh :
    (g : Group) (b : Bool) (s : Saved) (r : DurableCheckpointRecord)
    (c : DurableCheckpointCoordinator) {out : DurableCheckpointRecord}
    → checked_shape_ids r ≡ []
    → (keep_saved g b s r c).0 ≡ return out
    → IsFresh (some r.expected_shape_ids) out (keep_saved g b s r c)
keep_saved-IsFresh g true s r c e h =
    let candidate = record r {
      status = "candidate";
      artifacts = if c.is_writer then artifacts_of s else end;
    } in
    keep_candidate-IsFresh (g.all_written (not c.is_writer || is_json s)) candidate
      (stored s candidate c) e h
keep_saved-IsFresh g false s r c e h = cc

write_candidate-IsFresh :
    (g : Group) (step : ℤ) (o : Option (List String)) (c : DurableCheckpointCoordinator)
    {out : DurableCheckpointRecord}
    → (write_candidate g step o c).0 ≡ return out
    → IsFresh o out (write_candidate g step o c)
write_candidate-IsFresh g step none c h = cc
write_candidate-IsFresh g step (some expected) c h =
    let r = new_record g step expected c in
    keep_saved-IsFresh g (g.all_saved (is_saved (g.save_candidate r))) (g.save_candidate r) r
      (record c { folder = save_manifest c (λ f. write_pending f r) }) refl h

-- The two guards before the candidate is written.
guarded :
    (busy other : Bool) (o : Option (List String)) (c : DurableCheckpointCoordinator) (k : Begun)
    {out : DurableCheckpointRecord}
    → (k.0 ≡ return out → IsFresh o out k)
    → (if busy then (raise already_pending, c) else if other then (raise plans_differ, c) else k).0
      ≡ return out
    → IsFresh o out
        (if busy then (raise already_pending, c) else if other then (raise plans_differ, c) else k)
guarded true other o c k f h = cc
guarded false true o c k f h = cc
guarded false false o c k f h = f h

pub begin_candidate-IsFresh :
    (g : Group) (step : ℤ) (first : String) (c : DurableCheckpointCoordinator)
    {out : DurableCheckpointRecord}
    → (begin_candidate g step first c).0 ≡ return out
    → IsFresh (rotate_shape_ids c.shape_ids first) out (begin_candidate g step first c)
unfolding begin_candidate
begin_candidate-IsFresh g step first c h =
    guarded (is_pending c.pending) (starts_differ (g.gather_starts (start_of first c)))
      (rotate_shape_ids c.shape_ids first) c _
      (write_candidate-IsFresh g step (rotate_shape_ids c.shape_ids first) c) h
