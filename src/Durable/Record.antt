-- ===== src/Durable/Record.antt =====
-- durable.py: a candidate's record and its plan of shapes; layer_replay.py: a replay's evidence.
use lm_resiliency.Base.{
  ℕ, suc, Bool, true, false, ◌&&◌, ◌||◌, not, List, [], ◌∷◌, ◌++◌, map, Option, some, none, String,
  if◌then◌else◌, ◌==◌, nat_eq, string_eq, any, take, drop,
}
use lm_resiliency.Base.Int.{ℤ}
use lm_resiliency.Protocol.Value.{Fields}

-- `ShapeValidation`
pub record ShapeValidation : Type 0 where
  pub shape_id : String
  pub step : ℤ

-- The artifacts are a JSON object.
pub record DurableCheckpointRecord : Type 0 where
  pub checkpoint_id : String
  pub step : ℤ
  pub validation_epoch : ℕ
  pub shape_plan_id : String
  pub environment_id : String
  pub expected_shape_ids : List String
  pub checked_shapes : List ShapeValidation
  pub status : String
  pub verdict : Option String
  pub completed_step : Option ℤ
  pub artifacts : Fields

abbrev pub checked_shape_ids : DurableCheckpointRecord → List String
checked_shape_ids r = map (λ v. v.shape_id) r.checked_shapes

-- Equality of tuples of names.
abbrev pub same_names : List String → List String → Bool
same_names [] [] = true
same_names (x ∷ xs) (y ∷ ys) = x == y && same_names xs ys
same_names _ _ = false

abbrev pub complete : DurableCheckpointRecord → Bool
complete r = same_names (checked_shape_ids r) r.expected_shape_ids

abbrev pub later : Option ℕ → Option ℕ
later none = none
later (some i) = some (suc i)

-- `shape_ids.index(first)`
abbrev pub index_of : List String → String → Option ℕ
index_of [] first = none
index_of (x ∷ xs) first =
    let rest = later (index_of xs first) in if x == first then some 0 else rest

abbrev pub rotate_at : List String → Option ℕ → Option (List String)
rotate_at ids none = none
rotate_at ids (some i) = some (drop i ids ++ take i ids)

-- The plan from its first shape on, and then from the start; `none` for a shape that is not in it.
unfoldable pub rotate_shape_ids : List String → String → Option (List String)
rotate_shape_ids ids first = rotate_at ids (index_of ids first)

pub data C3Status : Type 0 where
  agree attributed inconclusive : C3Status

-- The part of `ReplayResult` that certification reads.
pub record ReplayResult : Type 0 where
  pub sdc_bitmap : List ℕ
  pub c3_statuses : List C3Status
  pub checked_shape_ids : List String
  pub completed_shape_cycle : Bool
  pub completed_scheduled_cycle : Bool
  pub dense_replay : Bool

abbrev pub is_inconclusive : C3Status → Bool
is_inconclusive inconclusive = true
is_inconclusive _ = false

unfoldable pub replay_result_has_sdc : ReplayResult → Bool
replay_result_has_sdc r =
    any (λ bit. not (bit == 0)) r.sdc_bitmap || any is_inconclusive r.c3_statuses
