-- ===== src/Rendezvous/Beats.antt =====
-- What the polls so far tell of the heartbeats of a node.
use lm_resiliency.Base.{
  ℕ, ◌+◌, ◌<◌, ◌≤◌, ◌≡◌, ◌⊎◌, refl, ◌∙◌, Bool, true, List, [], ◌∷◌, ◌++◌, All, Option, none, some,
  String, ◌==◌, string_eq, arith, if◌then◌else◌,
}
use lm_resiliency.Rendezvous.Heartbeat.{Beat, HeartbeatObservation, Heard, heard}

abbrev pub Poll : Type 0
Poll = Option String × Option Beat

-- Whether a caller takes this agent for the node's: it expects none, or this one.
abbrev pub is_expected : Option String → String → Bool
is_expected none agent = true
is_expected (some expected) agent = agent == expected

-- The beats that the polls took, the newest first.
abbrev pub taken : List Poll → List Beat
taken [] = []
taken ((e, none) ∷ ps) = taken ps
taken ((e, some b) ∷ ps) =
    let rest = taken ps in if is_expected e b.agent_id then b ∷ rest else rest

abbrev pub SameNumber : Beat → Beat → Type 0
SameNumber first q = (q.agent_id ≡ first.agent_id) × (q.sequence ≡ first.sequence)

-- The beat before it is of the same agent and has a smaller number.
pub record IsProgress (before : List Beat) (q : Beat) : Type 0 where
  pub old : Beat
  pub older : List Beat
  pub split : before ≡ old ∷ older
  pub same_agent : old.agent_id ≡ q.agent_id
  pub smaller : old.sequence < q.sequence

-- The newest beats repeat the number of the first of them, which the observation holds; it is live only on
-- progress.
pub record IsHeard (bs : List Beat) (o : HeartbeatObservation) : Type 0 where
  pub repeats : List Beat
  pub first : Beat
  pub before : List Beat
  pub split : bs ≡ repeats ++ first ∷ before
  pub repeated : All (SameNumber first) repeats
  pub as_read : o ≡ heard first o.live
  pub on_progress : o.live ≡ true → IsProgress before first

-- Of the beats that were taken, this one and the newest others repeat the number of a first one, which came
-- directly after a smaller number of the same agent. If there are repetitions, the beat comes less than the
-- timeout after that first one.
pub record IsAlive (timeout : ℕ) (bs : List Beat) (b : Beat) : Type 0 where
  pub repeats : List Beat
  pub first : Beat
  pub before : List Beat
  pub split : bs ≡ repeats ++ first ∷ before
  pub repeated : All (SameNumber first) repeats
  pub present : SameNumber first b
  pub in_time : (repeats ≡ []) ⊎ ((first.now ≤ b.now) × (b.now < first.now + timeout))
  pub progress : IsProgress before first

pub record IsAnswered (timeout : ℕ) (bs : List Beat) (b : Beat) (h : Heard) : Type 0 where
  pub keeps : (out : HeartbeatObservation) → h.1 ≡ some out → IsHeard bs out
  pub earned : h.0 ≡ true → IsAlive timeout bs b

pub heard_now :
    (b : Beat) (bs : List Beat) (live : Bool)
    → (live ≡ true → IsProgress bs b)
    → IsHeard (b ∷ bs) (heard b live)
heard_now b bs live progress = record {
  repeats = [];
  first = b;
  before = bs;
  split = refl;
  repeated = tt;
  as_read = refl;
  on_progress = progress;
}

-- A larger number than the newest beat's, of the same agent.
pub larger-IsProgress :
    (repeats : List Beat) (first : Beat) (before : List Beat) (b : Beat)
    → All (SameNumber first) repeats
    → first.agent_id ≡ b.agent_id
    → first.sequence < b.sequence
    → IsProgress (repeats ++ first ∷ before) b
larger-IsProgress [] first before b h a n = record {
  old = first;
  older = before;
  split = refl;
  same_agent = a;
  smaller = n;
}
larger-IsProgress (r ∷ rs) first before b h a n = record {
  old = r;
  older = rs ++ first ∷ before;
  split = refl;
  same_agent = h.0.0 ∙ a;
  smaller = let same = h.0.1 in omega (arith, same, n);
}
