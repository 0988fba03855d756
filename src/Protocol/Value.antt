-- ===== src/Protocol/Value.antt =====
-- _protocol.py: what a JSON document holds, and the checks of single fields.
use Prim.Native.Char.{code}
use lm_resiliency.Base.{
  ℕ, ◌≤◌, ◌≡◌, refl, Bool, true, false, not, ◌&&◌, ◌||◌, List, [], ◌∷◌, Option, none, some, String,
  arith, leb, if◌then◌else◌, ◌==◌, nat_eq, string_eq, contains, unique, all, Result, return, raise,
  require, ◌>>=◌, ◌>>◌, >>=-eq-return, require-eq-return, Bool-cases, inl, inr, ◌∙◌,
}
use lm_resiliency.Base.Int.{ℤ, pos, negsuc}

-- What a field may be refused for. The text beside it is the path that the message names.
pub data Problem : Type 0 where
  expected_object expected_string expected_integer below_minimum unsupported_value : Problem
  expected_array not_unique unsupported_schema missing_fields unknown_fields : Problem
  no_assignment slots_repeat slots_sparse nodes_repeat local_sizes_differ wrong_first_rank : Problem
  not_successor no_incident durable_needs_id gemini_has_id quarantined_assigned : Problem
  wrong_world_size first_rank_mismatch incomplete_slots rank_range_exceeds not_assigned : Problem

-- `ProtocolValidationError`
pub data Error : Type 0 where
  invalid : String → Problem → Error

-- A float is kept as the text that spells it.
mutual
  pub data Value : Type 0 where
    null : Value
    boolean : Bool → Value
    int : ℤ → Value
    float : String → Value
    str : String → Value
    array : Items → Value
    object : Fields → Value

  pub data Items : Type 0 where
    nil : Items
    cons : Value → Items → Items

  pub data Fields : Type 0 where
    end : Fields
    field : String → Value → Fields → Fields

abbrev pub items : Items → List Value
items nil = []
items (cons v vs) = v ∷ items vs

abbrev pub array_of {ℓ} : {A : Type ℓ} → (A → Value) → List A → Items
array_of f [] = nil
array_of f (x ∷ xs) = cons (f x) (array_of f xs)

abbrev pub keys : Fields → List String
keys end = []
keys (field k v fs) = k ∷ keys fs

-- `value.get(key)`
abbrev pub get : Fields → String → Option Value
get end k = none
get (field j v fs) k = if j == k then some v else get fs k

-- `value[key]`, which the checks for missing fields precede.
abbrev pub at : Fields → String → Value
at end k = null
at (field j v fs) k = if j == k then v else at fs k

-- The characters that `str.strip` removes.
is_space : ℕ → Bool
is_space c =
    leb 9 c && leb c 13
    || leb 28 c && leb c 32
    || c == 133
    || c == 160
    || c == 5760
    || leb 8192 c && leb c 8202
    || c == 8232
    || c == 8233
    || c == 8239
    || c == 8287
    || c == 12288

-- `not value.strip()`
unfoldable pub is_blank : String → Bool
unfolding is_space
is_blank String.[] = true
is_blank (String.◌∷◌ c s) = is_space (code c) && is_blank s

abbrev trim_left : String → String
trim_left String.[] = String.[]
trim_left (String.◌∷◌ c s) = if is_space (code c) then trim_left s else String.◌∷◌ c s

abbrev is_empty : String → Bool
is_empty String.[] = true
is_empty (String.◌∷◌ c s) = false

abbrev trim_right : String → String
trim_right String.[] = String.[]
trim_right (String.◌∷◌ c s) =
    let rest = trim_right s in
    if is_empty rest && is_space (code c) then String.[] else String.◌∷◌ c rest

-- `value.strip()`
unfoldable pub strip : String → String
unfolding is_space
strip s = trim_right (trim_left s)

unfoldable pub mapping : Value → String → Result Error Fields
mapping (object fs) path = return fs
mapping _ path = raise (invalid path expected_object)

unfoldable pub string : Value → String → Result Error String
string (str s) path = if is_blank s then raise (invalid path expected_string) else return s
string _ path = raise (invalid path expected_string)

unfoldable pub optional_string : Value → String → Result Error (Option String)
optional_string null path = return none
optional_string v path = string v path >>= λ s. return (some s)

-- Every caller's minimum is at least 0, so the result is a natural number.
unfoldable pub integer : Value → String → ℕ → Result Error ℕ
integer (int (pos n)) path minimum =
    if leb minimum n then return n else raise (invalid path below_minimum)
integer (int (negsuc n)) path minimum = raise (invalid path below_minimum)
integer _ path minimum = raise (invalid path expected_integer)

unfoldable pub choice : Value → String → List String → Result Error String
choice v path choices = do
  selected ← string v path
  require (contains choices selected) (invalid path unsupported_value)
  return selected

unfoldable pub sequence : Value → String → Result Error (List Value)
sequence (array vs) path = return (items vs)
sequence _ path = raise (invalid path expected_array)

strings_of : List Value → String → Result Error (List String)
strings_of [] path = return []
strings_of (v ∷ vs) path = do s ← string v path; rest ← strings_of vs path; return (s ∷ rest)

-- Both callers pass `unique=True`.
unfoldable pub strings : Value → String → Result Error (List String)
unfolding strings_of
strings v path = do
  vs ← sequence v path
  result ← strings_of vs path
  require (unique result) (invalid path not_unique)
  return result

is_schema : Option Value → Bool
is_schema (some (int (pos n))) = n == 1
is_schema _ = false

-- The fields of a versioned record: all of those required and no others.
unfoldable pub record_fields : Fields → String → List String → Result Error (Unit {0})
unfolding is_schema
record_fields value path required = do
  require (is_schema (get value "schema_version")) (invalid path unsupported_schema)
  require (all (contains (keys value)) required) (invalid path missing_fields)
  require (all (contains ("schema_version" ∷ required)) (keys value)) (invalid path unknown_fields)

-- The fields of a slot assignment, which carries no version.
unfoldable pub exact_fields : Fields → String → List String → Result Error (Unit {0})
exact_fields value path required = do
  require (all (contains (keys value)) required) (invalid path missing_fields)
  require (all (contains required) (keys value)) (invalid path unknown_fields)

pub string_str : (s path : String) → is_blank s ≡ false → string (str s) path ≡ return s
unfolding string
string_str s path h = rw h

pub integer_pos :
    (n minimum : ℕ) (path : String) → minimum ≤ n → integer (int (pos n)) path minimum ≡ return n
unfolding integer
integer_pos n minimum path h = ground arith

-- The JSON array of texts that are not blank and do not repeat is read back.
strings_of-array :
    (xs : List String) (path : String)
    → all (λ s. not (is_blank s)) xs ≡ true
    → strings_of (items (array_of str xs)) path ≡ return xs
unfolding strings_of string
strings_of-array [] path h = refl
strings_of-array (x ∷ xs) path h = ground (arith, strings_of-array xs path)

pub strings-array :
    (xs : List String) (path : String)
    → all (λ s. not (is_blank s)) xs ≡ true
    → unique xs ≡ true
    → strings (array (array_of str xs)) path ≡ return xs
unfolding strings sequence
strings-array xs path h u = rw (strings_of-array xs path h, u)

strings_of-array-eq-return :
    (xs : List String) (path : String) {ys : List String}
    → strings_of (items (array_of str xs)) path ≡ return ys
    → (xs ≡ ys) × (all (λ s. not (is_blank s)) xs ≡ true)
unfolding strings_of string
strings_of-array-eq-return [] path h = (cc, refl)
strings_of-array-eq-return (x ∷ xs) path {ys} h = elim (Bool-cases (is_blank x)) [
  | inl blank ↦ absurd (ground (arith, blank))
  | inr kept ↦
      let h' : (strings_of (items (array_of str xs)) path >>= λ rest. return (x ∷ rest))
          ≡ return ys =
        rw kept at h in
      let (rest, found, e) =
        >>=-eq-return (strings_of (items (array_of str xs)) path) (λ rest. return (x ∷ rest)) h' in
      let (same, good) = strings_of-array-eq-return xs path found in (cc, rw (kept, good))
]

pub strings-array-eq-return :
    (xs : List String) (path : String) {ys : List String}
    → strings (array (array_of str xs)) path ≡ return ys
    → (xs ≡ ys) × (all (λ s. not (is_blank s)) xs ≡ true) × (unique xs ≡ true)
unfolding strings sequence
strings-array-eq-return xs path h =
    let (result, found, more) = >>=-eq-return (strings_of (items (array_of str xs)) path) _ h in
    let (u, e) = require-eq-return (unique result) (invalid path not_unique) _ more in
    let (same, good) = strings_of-array-eq-return xs path found in
    (same ∙ ground (arith, e), good, rw (← same) at u)
