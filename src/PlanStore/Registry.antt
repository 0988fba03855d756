-- ===== src/PlanStore/Registry.antt =====
-- `SimpleRecoveryPlanStore`: registration of nodes, and the initial placement.
use lm_resiliency.Base.{
  ℕ, ◌+◌, ◌≡◌, Bool, true, false, ◌&&◌, ◌||◌, not, List, [], ◌∷◌, ◌++◌, map, Option, some, none,
  String, if◌then◌else◌, ◌==◌, nat_eq, string_eq, Result, return, raise, ltb, leb, length, take,
  all, unique, contains, same_set,
}
use lm_resiliency.Base.Int.{ℤ, pos, negsuc}
use lm_resiliency.Base.Discrete.{String-discrete}
use lm_resiliency.Protocol.Value.{
  Value, Fields, Items, object, array, field, end, int, str, array_of, at, keys, items, is_blank,
  strip,
}
use lm_resiliency.PlanStore.Platform.{Platform, Key, registrations, initial_nodes, max_nodes}
use lm_resiliency.PlanStore.Actions.{
  Problem, Action, missing_key, corrupt_registration, corrupt_initial_nodes, corrupt_max_nodes,
  invalid_argument, pure, throw, lift, ensure, ◌>>=◌,
}
pub mod Order
use lm_resiliency.PlanStore.Publish.{decided, or_else, exchange}

-- A node and the agent that registered it.
pub record Registration : Type 0 where
  pub node : String
  pub agent : String

abbrev pub registration_document : Registration → Value
registration_document r = object (
    field "agent_id" (str r.agent)
      (field "node_id" (str r.node) (field "schema_version" (int (pos 1)) end)))

abbrev pub initial_document : List String → Value
initial_document nodes =
    object
      (field "node_ids" (array (array_of str nodes)) (field "schema_version" (int (pos 1)) end))

abbrev pub is_one : Value → Bool
is_one (int (pos n)) = n == 1
is_one _ = false

-- `_nonempty`
abbrev pub named : Value → Option String
named (str s) = if is_blank s then none else some (strip s)
named _ = none

abbrev pub registration_of : Option String → Option String → Option Registration
registration_of (some n) (some a) = some (record { node = n; agent = a })
registration_of _ _ = none

abbrev pub registration_fields : Value → Option Registration
registration_fields (object fs) =
    if unique (keys fs)
      && same_set (keys fs) ("agent_id" ∷ "node_id" ∷ "schema_version" ∷ [])
      && is_one (at fs "schema_version")
    then registration_of (named (at fs "node_id")) (named (at fs "agent_id"))
    else none
registration_fields _ = none

-- `node_agents.get(node_id)` and `agent_nodes.get(agent_id)`, over the registrations kept so far.
abbrev pub agent_of : List Registration → String → Option String
agent_of [] n = none
agent_of (r ∷ rs) n = if r.node == n then some r.agent else agent_of rs n

abbrev pub node_of : List Registration → String → Option String
node_of [] a = none
node_of (r ∷ rs) a = if r.agent == a then some r.node else node_of rs a

-- Nothing is known, or what is known is this name.
abbrev pub consistent : Option String → String → Bool
consistent none s = true
consistent (some t) s = t == s

abbrev pub is_new : Option String → Bool
is_new none = true
is_new (some s) = false

-- One line of the loop: a repeated registration is dropped, a conflicting one is refused.
unfoldable pub admit : List Registration → Registration → Option (List Registration)
admit kept r =
    if consistent (agent_of kept r.node) r.agent && consistent (node_of kept r.agent) r.node
    then some (if is_new (agent_of kept r.node) then kept ++ r ∷ [] else kept)
    else none

abbrev max_registration_bytes : ℕ
max_registration_bytes = 1048576

unfoldable pub List_String-discrete : Discrete (List String)
List_String-discrete = hlevel String-discrete

abbrev both : Option String → Option (List String) → Option (List String)
both (some n) (some ns) = some (n ∷ ns)
both _ _ = none

abbrev names_in : List Value → Option (List String)
names_in [] = some []
names_in (v ∷ vs) = both (named v) (names_in vs)

abbrev is_array : Value → Option (List Value)
is_array (array vs) = some (items vs)
is_array _ = none

abbrev names_of : Option (List Value) → Option (List String)
names_of none = none
names_of (some vs) = names_in vs

-- The members of an initial placement document.
abbrev initial_names : Value → Option (List String)
initial_names (object fs) =
    if unique (keys fs)
      && (same_set (keys fs) ("node_ids" ∷ "schema_version" ∷ [])
          && is_one (at fs "schema_version"))
    then names_of (is_array (at fs "node_ids"))
    else none
initial_names _ = none

abbrev non_empty : List String → Bool
non_empty [] = false
non_empty (n ∷ ns) = true

abbrev expected_size : Option ℕ → ℕ → Bool
expected_size none n = true
expected_size (some expected) n = n == expected

abbrev pub nodes : List Registration → List String
nodes = map λ r. r.node

module _ (p : Platform) (run_id : String) where
  open p use {
    Bytes, bytes_discrete, empty, size, splitlines, dumps, loads, ascii, int_of, State, view,
  }

  abbrev pub parsed_registration : Bytes → Option Value → Option Registration
  parsed_registration line none = none
  parsed_registration line (some v) =
      if decided (bytes_discrete (dumps v) line) then registration_fields v else none

  abbrev pub admit_parsed : List Registration → Option Registration → Option (List Registration)
  admit_parsed kept none = none
  admit_parsed kept (some r) = admit kept r

  unfoldable pub decode_lines : List Registration → List Bytes → Option (List Registration)
  decode_lines kept [] = some kept
  decode_lines kept (line ∷ lines) =
      elim (admit_parsed kept (parsed_registration line (loads line))) [
        | none ↦ none
        | some more ↦ decode_lines more lines
      ]

  abbrev within : ℕ → Option (List Registration) → Result Problem (List Registration)
  within maximum none = raise corrupt_registration
  within maximum (some rs) =
      if leb (length rs) maximum then return rs else raise corrupt_registration

  abbrev registrations_in : ℕ → Option Bytes → Result Problem (List Registration)
  registrations_in maximum none = raise missing_key
  registrations_in maximum (some encoded) =
      if leb (size encoded) max_registration_bytes
      then within maximum (decode_lines [] (splitlines encoded))
      else raise corrupt_registration

  unfoldable pub decode_registrations : ℕ → Action State (List Registration)
  decode_registrations maximum s = (registrations_in maximum (view s registrations), s)

  abbrev append : Key → Bytes → Action State (Unit {0})
  append k b s = (return tt, p.append s k b)

  -- `register_node`; the newline that separates the lines belongs to `line`.
  unfoldable pub register_node : (Bytes → Bytes) → String → String → ℕ → Action State (Unit {0})
  register_node line node agent maximum =
      ensure (not (is_blank node) && (not (is_blank agent) && leb 1 maximum)) invalid_argument do
        stored ← exchange p run_id max_nodes empty (ascii maximum)
        ensure (decided (bytes_discrete stored (ascii maximum))) corrupt_max_nodes do
          done ← append registrations (
              line
                (dumps (registration_document (record { node = strip node; agent = strip agent }))))
          kept ← decode_registrations maximum
          pure tt

  abbrev placed : Option ℕ → Bytes → Option Value → Result Problem (List String)
  placed expected encoded none = raise corrupt_initial_nodes
  placed expected encoded (some v) = checked (initial_names v)
    where
      checked : Option (List String) → Result Problem (List String)
      checked none = raise corrupt_initial_nodes
      checked (some ns) =
          if (non_empty ns && unique ns)
            && (expected_size expected (length ns) && decided (bytes_discrete (dumps v) encoded))
          then return ns
          else raise corrupt_initial_nodes

  unfoldable pub decode_initial_nodes : Option ℕ → Bytes → Result Problem (List String)
  decode_initial_nodes expected encoded = placed expected encoded (loads encoded)

  abbrev pub initial_in : Option Bytes → Result Problem (Option (List String))
  initial_in none = return none
  initial_in (some encoded) = elim (decode_initial_nodes none encoded) [
    | return ns ↦ return (some ns)
    | raise e ↦ raise e
  ]

  unfoldable pub read_initial_nodes : Action State (Option (List String))
  read_initial_nodes s = (initial_in (view s initial_nodes), s)

  -- The first `min_nodes` nodes to register, once there are so many.
  unfoldable pub ensure_initial_nodes : ℕ → ℕ → Action State (Option (List String))
  ensure_initial_nodes minimum maximum =
      ensure (leb 1 minimum && (leb 1 maximum && leb minimum maximum)) invalid_argument do
        registered ← decode_registrations maximum
        let expected = take minimum (nodes registered)
        if ltb (length registered) minimum then pure none else do
          stored ← exchange p run_id initial_nodes empty (dumps (initial_document expected))
          selected ← lift (decode_initial_nodes (some minimum) stored)
          ensure (decided (List_String-discrete selected expected)) corrupt_initial_nodes
              (pure (some selected))

  abbrev positive : Option ℤ → Result Problem ℕ
  positive (some (pos n)) = if leb 1 n then return n else raise corrupt_max_nodes
  positive _ = raise corrupt_max_nodes

  abbrev agrees_with : Option ℕ → ℕ → Bool
  agrees_with none n = true
  agrees_with (some m) n = m == n

  -- The limit that the agents agreed on, which a manager that knows it may commit first.
  abbrev committed_limit : Option ℕ → Action State ℕ
  committed_limit given s = elim (view s max_nodes) [
    | some encoded ↦ (positive (p.int_of encoded), s)
    | none ↦ elim given [
      | none ↦ (raise corrupt_max_nodes, s)
      | some m ↦
          if leb 1 m
          then (return m, p.compare_set s max_nodes empty (ascii m))
          else (raise invalid_argument, s)
    ]
  ]

  unfoldable pub registered_nodes : Option ℕ → Action State (List String)
  registered_nodes given = do
    limit ← committed_limit given
    ensure (agrees_with given limit) corrupt_max_nodes
        do registered ← decode_registrations limit; pure (nodes registered)
