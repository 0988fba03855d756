-- ===== src/Replay/Shapes.antt =====
-- detection/replay_shapes.py: `ReplayShape` and `ReplayShapePlan`.
use lm_resiliency.Base.{
  Bool, false, not, List, [], ◌∷◌, map, Option, some, none, String, ◌==◌, nat_eq, string_eq, any,
  unique, Result, return, require, ◌>>◌, length,
}
use lm_resiliency.Base.Int.{ℤ, pos, ltb_ℤ}
use lm_resiliency.Protocol.Value.{Value, field, end, null, str, int, array, object, array_of}

pub data ShapeError : Type 0 where
  empty_shape_id negative_dimension empty_plan repeated_shape empty_source : ShapeError
  plan_mismatch missing_position missing_cycle invalid_state : ShapeError
  out_of_range nothing_captured shapes_disagree no_results different_widths : ShapeError

-- No dimensions stand for the captured invocation.
pub record ReplayShape : Type 0 where
  pub shape_id : String
  pub dimensions : Option (List ℤ)

abbrev is_negative : ℤ → Bool
is_negative d = ltb_ℤ d (pos 0)

abbrev has_negative : Option (List ℤ) → Bool
has_negative none = false
has_negative (some ds) = any is_negative ds

-- `ReplayShape(shape_id, dimensions)`
abbrev pub replay_shape : String → Option (List ℤ) → Result ShapeError ReplayShape
replay_shape id dims =
    require (not (id == "")) empty_shape_id
    >> require (not (has_negative dims)) negative_dimension
    >> return (record { shape_id = id; dimensions = dims })

pub record ReplayShapePlan : Type 0 where
  pub shapes : List ReplayShape
  pub source_id : String

abbrev pub shape_ids : List ReplayShape → List String
shape_ids = map λ s. s.shape_id

-- `ReplayShapePlan(shapes, source_id)`
abbrev pub replay_shape_plan : List ReplayShape → String → Result ShapeError ReplayShapePlan
replay_shape_plan shapes source =
    require (not (length shapes == 0)) empty_plan
    >> require (unique (shape_ids shapes)) repeated_shape
    >> require (not (source == "")) empty_source
    >> return (record { shapes = shapes; source_id = source })

-- `ReplayShapePlan.dense()`
abbrev pub captured : ReplayShape
captured = record { shape_id = "captured"; dimensions = none }

abbrev pub dense : Result ShapeError ReplayShapePlan
dense = replay_shape_plan (captured ∷ []) "dense-captured"

abbrev pub dimensions_value : Option (List ℤ) → Value
dimensions_value none = null
dimensions_value (some ds) = array (array_of int ds)

abbrev pub shape_value : ReplayShape → Value
shape_value s =
    object
      (field "shape_id" (str s.shape_id) (field "dimensions" (dimensions_value s.dimensions) end))

-- The document whose digest identifies a plan.
abbrev pub payload : ReplayShapePlan → Value
payload p = object (
    field "source_id" (str p.source_id)
      (field "shapes" (array (array_of shape_value p.shapes)) end))

-- `hashlib.sha256(json.dumps(payload).encode()).hexdigest()` is the parameter.
abbrev pub identifier : (Value → String) → ReplayShapePlan → String
identifier digest p = digest (payload p)
