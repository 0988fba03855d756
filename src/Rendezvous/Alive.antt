-- ===== src/Rendezvous/Alive.antt =====
-- A node counts as alive only while its agent's heartbeat goes on.
use text.Mathlib.TextEquality.{eq_iff}
use lm_resiliency.Base.{
  ℕ, ◌+◌, ◌-◌, ◌<◌, ◌≤◌, ◌≡◌, refl, sym, ap, ◌∙◌, inl, inr, Bool, true, false, ◌&&◌, ◌||◌, not,
  List, [], ◌∷◌, Option, none, some, String, leb, ltb, ◌==◌, string_eq, arith, Bool-cases,
}
use lm_resiliency.Rendezvous.Heartbeat.{
  Beat, HeartbeatObservation, heard, hear_again, hear, other_agent, heartbeat_is_live, heard_so_far,
}
use lm_resiliency.Rendezvous.Beats.{
  Poll, is_expected, taken, SameNumber, IsProgress, IsHeard, IsAlive, IsAnswered, heard_now,
  larger-IsProgress,
}

kept_only :
    (bs : List Beat) (o : HeartbeatObservation)
    → IsHeard bs o
    → (out : HeartbeatObservation) → some o ≡ some out
    → IsHeard bs out
kept_only bs o n out e = let same : o ≡ out = cc in rw (← same) n

both_true : (a b : Bool) → (a && b) ≡ true → (a ≡ true) × (b ≡ true)
both_true a b h = ground (arith, h)

neither : (a b : Bool) → (not a || b) ≡ false → (a ≡ true) × (b ≡ false)
neither a b h = ground (arith, h)

window :
    (seen now timeout : ℕ)
    → (leb seen now && ltb (now - seen) timeout) ≡ true
    → (seen ≤ now) × (now < seen + timeout)
window seen now timeout h = ground (arith, h)

hear_again-IsAnswered :
    (timeout : ℕ) (b : Beat) (bs : List Beat) (o : HeartbeatObservation)
    → IsHeard bs o
    → IsAnswered timeout (b ∷ bs) b (hear_again timeout b o)
hear_again-IsAnswered timeout b bs o n =
    let q = n.first in
    let agent : o.agent_id ≡ q.agent_id = ap (λ x. x.agent_id) n.as_read in
    let number : o.sequence ≡ q.sequence = ap (λ x. x.sequence) n.as_read in
    let seen : o.seen ≡ q.now = ap (λ x. x.seen) n.as_read in
    elim (Bool-cases (not (o.agent_id == b.agent_id) || ltb b.sequence o.sequence)) [
      | inl restarted ↦ rw restarted (record {
        keeps = kept_only (b ∷ bs) (heard b false) (heard_now b bs false (λ x. cc));
        earned = λ x. cc;
      })
      | inr going ↦
          let (same, forwards) = neither _ _ going in
          let same_agent : q.agent_id ≡ b.agent_id =
            sym agent ∙ (eq_iff o.agent_id b.agent_id).0 same in
          elim (Bool-cases (ltb o.sequence b.sequence)) [
            | inl advanced ↦
                let progress : IsProgress bs b = rw (← (sym n.split)) (
                  larger-IsProgress n.repeats q n.before b n.repeated same_agent
                    (less_than o.sequence b.sequence q.sequence number advanced)) in
                rw (going, advanced)
                  (record {
                    keeps = kept_only (b ∷ bs) (heard b true) (heard_now b bs true (λ x. progress));
                    earned = λ x. record {
                      repeats = [];
                      first = b;
                      before = bs;
                      split = refl;
                      repeated = tt;
                      present = (refl, refl);
                      in_time = inl refl;
                      progress = progress;
                    };
                  })
            | inr again ↦
                let present : SameNumber q b = (
                  sym same_agent,
                  sym (no_change o.sequence b.sequence q.sequence number forwards again),
                ) in
                rw (going, again)
                  (record {
                    keeps = kept_only (b ∷ bs) o (record {
                      repeats = b ∷ n.repeats;
                      first = q;
                      before = n.before;
                      split = ap (λ l. b ∷ l) n.split;
                      repeated = (present, n.repeated);
                      as_read = n.as_read;
                      on_progress = n.on_progress;
                    });
                    earned = λ x.
                        let (was_live, recent) = both_true o.live _ x in
                        record {
                          repeats = b ∷ n.repeats;
                          first = q;
                          before = n.before;
                          split = ap (λ l. b ∷ l) n.split;
                          repeated = (present, n.repeated);
                          present = present;
                          in_time = inr (rw seen at (window o.seen b.now timeout recent));
                          progress = n.on_progress was_live;
                        };
                  })
          ]
    ]
  where
    less_than : (o b q : ℕ) → o ≡ q → ltb o b ≡ true → q < b
    less_than o b q h g = ground arith

    no_change : (o b q : ℕ) → o ≡ q → ltb b o ≡ false → ltb o b ≡ false → q ≡ b
    no_change o b q h f g = ground arith

hear-IsAnswered :
    (timeout : ℕ) (b : Beat) (bs : List Beat) (o : Option HeartbeatObservation)
    → ((out : HeartbeatObservation) → o ≡ some out → IsHeard bs out)
    → IsAnswered timeout (b ∷ bs) b (hear timeout b o)
hear-IsAnswered timeout b bs none n = record {
  keeps = kept_only (b ∷ bs) (heard b false) (heard_now b bs false (λ x. cc));
  earned = λ x. cc;
}
hear-IsAnswered timeout b bs (some o) n = hear_again-IsAnswered timeout b bs o (n o refl)

other_or_expected :
    (e : Option String) (b : Beat) → other_agent e b ≡ not (is_expected e b.agent_id)
other_or_expected none b = refl
other_or_expected (some agent) b = refl

heartbeat_is_live-IsAnswered :
    (timeout : ℕ) (e : Option String) (b : Beat) (ps : List Poll) (o : Option HeartbeatObservation)
    → ((out : HeartbeatObservation) → o ≡ some out → IsHeard (taken ps) out)
    → IsAnswered timeout (taken ((e, some b) ∷ ps)) b (heartbeat_is_live timeout e (some b) o)
unfolding heartbeat_is_live
heartbeat_is_live-IsAnswered timeout e b ps o n = elim (Bool-cases (is_expected e b.agent_id)) [
  | inl same ↦ rw (other_or_expected e b, same) (hear-IsAnswered timeout b (taken ps) o n)
  | inr other ↦ rw (other_or_expected e b, other) (record { keeps = n; earned = λ x. cc })
]

heard_so_far-IsHeard :
    (timeout : ℕ) (ps : List Poll) (out : HeartbeatObservation)
    → heard_so_far timeout ps ≡ some out
    → IsHeard (taken ps) out
unfolding heartbeat_is_live
heard_so_far-IsHeard timeout [] out h = cc
heard_so_far-IsHeard timeout ((e, none) ∷ ps) out h = heard_so_far-IsHeard timeout ps out h
heard_so_far-IsHeard timeout ((e, some b) ∷ ps) out h =
    (heartbeat_is_live-IsAnswered timeout e b ps (heard_so_far timeout ps)
        (heard_so_far-IsHeard timeout ps)).keeps
      out h

-- After any polls, a beat is found live only if the caller takes its agent for the node's, and the beat
-- repeats, with the newest of the beats that were taken, the number of a first one, which came directly
-- after a smaller number of the same agent; and the beat is this first one itself, or comes no earlier
-- and less than the timeout after it.
pub live_heartbeat-IsAlive :
    (timeout : ℕ) (e : Option String) (b : Beat) (ps : List Poll)
    → (heartbeat_is_live timeout e (some b) (heard_so_far timeout ps)).0 ≡ true
    → (is_expected e b.agent_id ≡ true) × IsAlive timeout (b ∷ taken ps) b
unfolding heartbeat_is_live
live_heartbeat-IsAlive timeout e b ps h = elim (Bool-cases (is_expected e b.agent_id)) [
  | inl same ↦ (
    same,
    (hear-IsAnswered timeout b (taken ps) (heard_so_far timeout ps)
          (heard_so_far-IsHeard timeout ps)).earned
        (rw (other_or_expected e b, same) at h),
  )
  | inr other ↦ absurd (ground (arith, rw (other_or_expected e b, other) at h))
]
