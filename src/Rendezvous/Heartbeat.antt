-- ===== src/Rendezvous/Heartbeat.antt =====
-- `SimpleRendezvousHandler._heartbeat_is_live`, for one node. The clock and the timeout are whole
-- milliseconds.
use lm_resiliency.Base.{
  ℕ, ◌-◌, Bool, true, false, ◌&&◌, ◌||◌, not, List, [], ◌∷◌, Option, none, some, String,
  if◌then◌else◌, leb, ltb, ◌==◌, nat_eq, string_eq,
}

-- What a poll reads of a well-formed heartbeat of the node, and the time of the poll.
pub record Beat : Type 0 where
  pub agent_id : String
  pub sequence : ℕ
  pub now : ℕ

-- `_heartbeat_observations[node_id]`
pub record HeartbeatObservation : Type 0 where
  pub agent_id : String
  pub sequence : ℕ
  pub seen : ℕ
  pub live : Bool

abbrev pub Heard : Type 0
Heard = Bool × Option HeartbeatObservation

abbrev pub heard : Beat → Bool → HeartbeatObservation
heard b live = record { agent_id = b.agent_id; sequence = b.sequence; seen = b.now; live = live }

abbrev pub hear_again : ℕ → Beat → HeartbeatObservation → Heard
hear_again timeout b o =
    if not (o.agent_id == b.agent_id) || ltb b.sequence o.sequence
    then (false, some (heard b false))
    else if ltb o.sequence b.sequence
    then (true, some (heard b true))
    else (o.live && (leb o.seen b.now && ltb (b.now - o.seen) timeout), some o)

abbrev pub hear : ℕ → Beat → Option HeartbeatObservation → Heard
hear timeout b none = (false, some (heard b false))
hear timeout b (some o) = hear_again timeout b o

abbrev pub other_agent : Option String → Beat → Bool
other_agent none b = false
other_agent (some agent) b = not (b.agent_id == agent)

-- The agent that the caller expects, if any, and the beat, if there is a well-formed one.
unfoldable pub heartbeat_is_live :
    ℕ → Option String → Option Beat → Option HeartbeatObservation → Heard
heartbeat_is_live timeout expected none o = (false, o)
heartbeat_is_live timeout expected (some b) o =
    if other_agent expected b then (false, o) else hear timeout b o

-- The observation after these polls, the newest first.
abbrev pub heard_so_far : ℕ → List (Option String × Option Beat) → Option HeartbeatObservation
heard_so_far timeout [] = none
heard_so_far timeout (p ∷ ps) = (heartbeat_is_live timeout p.0 p.1 (heard_so_far timeout ps)).1
