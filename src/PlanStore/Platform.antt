-- ===== src/PlanStore/Platform.antt =====
-- What `SimpleRecoveryPlanStore` uses and does not implement: a `torch.distributed.Store`, and the
-- texts that `json` and `str` make. The store's keys are the formats of `_plan_key` and its like.
use lm_resiliency.Base.{ℕ, ◌≡◌, ◌≢◌, List, Option, some, none, String}
use lm_resiliency.Base.Int.{ℤ, pos}
use lm_resiliency.Protocol.Value.{Value}

pub data Key : Type 0 where
  generation registrations initial_nodes max_nodes closed : Key
  plan_key : ℕ → Key
  lease_key lease_sequence_key : ℕ → String → Key

pub record Platform : Type 1 where
  -- A byte string, its length and its lines.
  pub Bytes : Type 0
  pub bytes_discrete : Discrete Bytes
  pub empty : Bytes
  pub size : Bytes → ℕ
  pub splitlines : Bytes → List Bytes
  -- `json.dumps` and `json.loads`, which refuses a text that is no document, or in which an object has a
  -- field twice (`_reject_duplicate_fields`). The order in which fields come back is the written one here;
  -- the source sorts them, and no reader depends on it.
  pub dumps : Value → Bytes
  pub loads : Bytes → Option Value
  -- `str(n).encode("ascii")` and `int(text)`.
  pub ascii : ℕ → Bytes
  pub int_of : Bytes → Option ℤ
  -- The store: `get` sees `none` where a key was never set.
  pub State : Type 0
  pub view : State → Key → Option Bytes
  pub compare_set : State → Key → Bytes → Bytes → State
  pub set : State → Key → Bytes → State
  pub append : State → Key → Bytes → State
  pub add : State → Key → ℕ → State × ℕ

-- What the libraries document of these operations.
module _ (p : Platform) where
  open p use {Bytes, empty, dumps, loads, ascii, int_of, State, view, compare_set}

  pub record Documented : Type 0 where
    pub loads-dumps : (v : Value) → loads (dumps v) ≡ some v
    pub int_of-ascii : (n : ℕ) → int_of (ascii n) ≡ some (pos n)
    pub dumps-ne-empty : (v : Value) → dumps v ≢ empty
    -- An empty expectation creates a missing key.
    pub creates :
        (s : State) (k : Key) (new : Bytes)
        → view s k ≡ none
        → view (compare_set s k empty new) k ≡ some new
    -- A matching expectation replaces the value, and any other leaves it.
    pub replaces :
        (s : State) (k : Key) (old new : Bytes)
        → view s k ≡ some old
        → view (compare_set s k old new) k ≡ some new
    pub keeps :
        (s : State) (k : Key) (old expected new : Bytes)
        → view s k ≡ some old
        → old ≢ expected
        → view (compare_set s k expected new) k ≡ some old
    pub misses :
        (s : State) (k : Key) (expected new : Bytes)
        → view s k ≡ none
        → expected ≢ empty
        → view (compare_set s k expected new) k ≡ none
    -- Other keys are left alone.
    pub elsewhere :
        (s : State) (k j : Key) (expected new : Bytes)
        → j ≢ k
        → view (compare_set s k expected new) j ≡ view s j
