-- ===== src/Rendezvous/Freshness.antt =====
-- A lease counts as live only on fresh news of the manager.
use lm_resiliency.Base.{
  ℕ, zero, suc, ◌+◌, ◌<◌, ◌≤◌, ◌≡◌, ◌≢◌, refl, ap, inl, inr, Bool, true, false, ◌&&◌, List, [], ◌∷◌,
  Option, none, some, ltb, Result, return, get_elem?, arith, Bool-cases,
}
use lm_resiliency.Rendezvous.Lease.{
  LeaseProblem, LeasePoll, LeaseObservation, freshness, noted, Judged, judge_again,
  plan_lease_is_live, watched,
}
use lm_resiliency.Rendezvous.News.{
  IsNews, AreBelow, IsFirstOf, IsNoted, later-IsNews, later-IsFirstOf, now-IsFirstOf,
  later-AreBelow, wider-AreBelow, later-IsNoted, newer-IsNews,
}

-- One of the polls was the first to read the lease's present number, all before it that found a lease had
-- read smaller ones, of which there is one, and its news still counts.
pub record IsFresh (timeout : ℕ) (ps : List (Option LeasePoll)) (p : LeasePoll) : Type 0 where
  pub at : ℕ
  pub renewal : LeasePoll
  pub there : get_elem? ps at ≡ some (some renewal)
  pub present : renewal.sequence ≡ p.sequence
  pub in_time : p.now < renewal.now + freshness timeout renewal
  pub is_first : IsFirstOf ps at p.sequence
  pub news : IsNews ps at renewal

record IsJudged (timeout : ℕ) (ps : List (Option LeasePoll)) (p : LeasePoll) (j : Judged)
    : Type 0 where
  keeps : (out : LeaseObservation) → j.1 ≡ some out → IsNoted timeout ps out
  earned : j.0 ≡ return true → IsFresh timeout ps p

the_same : (p q : LeasePoll) → some p ≡ some q → q.sequence < suc p.sequence
the_same p q h = let same : p.sequence ≡ q.sequence = cc in omega (arith, same)

not_larger :
    (n : ℕ) (p : LeasePoll)
    → ltb n p.sequence ≡ false
    → (q : LeasePoll) → some p ≡ some q
    → q.sequence < suc n
not_larger n p h q e =
    let same : p.sequence ≡ q.sequence = cc in
    let below : p.sequence ≤ n = at_most n p.sequence h in omega (arith, same, below)
  where
    at_most : (n m : ℕ) → ltb n m ≡ false → m ≤ n
    at_most n m h = ground (arith, h)

noted_now :
    (timeout : ℕ) (p : LeasePoll) (ps : List (Option LeasePoll)) (live : Bool)
    → AreBelow ps p.sequence
    → (live ≡ true → IsNews (some p ∷ ps) 0 p)
    → IsNoted timeout (some p ∷ ps) (noted timeout p live)
noted_now timeout p ps live below news = record {
  at = 0;
  poll = p;
  there = refl;
  as_read = refl;
  on_news = news;
  is_first = now-IsFirstOf p ps below;
  most =
      later-AreBelow (some p) ps (suc p.sequence) (the_same p)
        (wider-AreBelow ps p.sequence (suc p.sequence) (omega arith) below);
}

kept_only :
    (timeout : ℕ) (ps : List (Option LeasePoll)) (o : LeaseObservation)
    → IsNoted timeout ps o
    → (out : LeaseObservation) → some o ≡ some out
    → IsNoted timeout ps out
kept_only timeout ps o n out e = let same : o ≡ out = cc in rw (← same) n

abbrev the_answer : Bool → Result LeaseProblem Bool
the_answer b = return b

answer : (b : Bool) → the_answer b ≡ return true → b ≡ true
answer b e = cc

both_true : (a b : Bool) → (a && b) ≡ true → (a ≡ true) × (b ≡ true)
both_true a b h = ground (arith, h)

ltb_lt : (a b : ℕ) → ltb a b ≡ true → a < b
ltb_lt a b h = ground arith

not_newer : (a b : ℕ) → ltb a b ≡ true → ltb b a ≡ false
not_newer a b h = ground (arith, h)

no_change : (o p q : ℕ) → o ≡ q → ltb p o ≡ false → ltb o p ≡ false → q ≡ p
no_change o p q e f g = ground arith

judge_again-IsJudged :
    (timeout : ℕ) (p : LeasePoll) (ps : List (Option LeasePoll)) (o : LeaseObservation)
    → IsNoted timeout ps o
    → IsJudged timeout (some p ∷ ps) p (judge_again timeout p o)
judge_again-IsJudged timeout p ps o n = elim (Bool-cases (ltb p.sequence o.sequence)) [
  | inl backwards ↦ rw backwards (record {
    keeps = kept_only timeout (some p ∷ ps) o (
        later-IsNoted timeout (some p) ps o
          (not_larger o.sequence p (not_newer p.sequence o.sequence backwards)) n);
    earned = λ e. cc;
  })
  | inr forwards ↦ elim (Bool-cases (ltb o.sequence p.sequence)) [
    | inl advanced ↦
        let news : IsNews (some p ∷ ps) 0 p =
          newer-IsNews timeout p ps o n (ltb_lt o.sequence p.sequence advanced) in
        let below : AreBelow ps p.sequence =
          wider-AreBelow ps (suc o.sequence) p.sequence (ltb_lt o.sequence p.sequence advanced)
            n.most in
        rw (forwards, advanced)
          (record {
            keeps =
                kept_only timeout (some p ∷ ps) _ (noted_now timeout p ps _ below (λ live. news));
            earned = λ e. record {
              at = 0;
              renewal = p;
              there = refl;
              present = refl;
              in_time = ltb_lt p.now _ (both_true _ _ (answer _ e)).1;
              is_first = now-IsFirstOf p ps below;
              news = news;
            };
          })
    | inr same ↦
        rw (forwards, same)
          (record {
            keeps =
                kept_only timeout (some p ∷ ps) o
                  (later-IsNoted timeout (some p) ps o (not_larger o.sequence p same) n);
            earned = λ e.
                let (was_live, in_time) =
                  both_true o.live (ltb p.now o.freshness_deadline) (answer _ e) in
                let q = n.poll in
                let read : o.sequence ≡ q.sequence = ap (λ x. x.sequence) n.as_read in
                let present : q.sequence ≡ p.sequence =
                  no_change o.sequence p.sequence q.sequence read forwards same in
                record {
                  at = suc n.at;
                  renewal = q;
                  there = n.there;
                  present = present;
                  in_time =
                      let until : o.freshness_deadline ≡ q.now + freshness timeout q =
                        ap (λ x. x.freshness_deadline) n.as_read in
                      let before : p.now < o.freshness_deadline =
                        ltb_lt p.now o.freshness_deadline in_time in
                      rw until at before;
                  is_first = rw present at (later-IsFirstOf (some p) ps n.at q.sequence n.is_first);
                  news = later-IsNews (some p) ps n.at q (n.on_news was_live);
                };
          })
  ]
]

plan_lease_is_live-IsJudged :
    (timeout : ℕ) (p : LeasePoll) (ps : List (Option LeasePoll)) (o : Option LeaseObservation)
    → (o ≡ none → AreBelow ps p.sequence)
    → ((out : LeaseObservation) → o ≡ some out → IsNoted timeout ps out)
    → IsJudged timeout (some p ∷ ps) p (plan_lease_is_live timeout (some p) o)
unfolding plan_lease_is_live
plan_lease_is_live-IsJudged timeout p ps none first n = record {
  keeps =
      kept_only timeout (some p ∷ ps) (noted timeout p false)
        (noted_now timeout p ps false (first refl) (λ e. cc));
  earned = λ e. cc;
}
plan_lease_is_live-IsJudged timeout p ps (some o) first n =
    judge_again-IsJudged timeout p ps o (n o refl)

-- Without an observation no poll has found a lease.
judge_again-some :
    (timeout : ℕ) (p : LeasePoll) (o : LeaseObservation) → (judge_again timeout p o).1 ≢ none
judge_again-some timeout p o h = elim (Bool-cases (ltb p.sequence o.sequence)) [
  | inl backwards ↦ absurd (ground (arith, rw backwards at h))
  | inr forwards ↦ elim (Bool-cases (ltb o.sequence p.sequence)) [
    | inl advanced ↦ absurd (ground (arith, rw (forwards, advanced) at h))
    | inr same ↦ absurd (ground (arith, rw (forwards, same) at h))
  ]
]

judged-some :
    (timeout : ℕ) (p : LeasePoll) (o : Option LeaseObservation)
    → (plan_lease_is_live timeout (some p) o).1 ≢ none
unfolding plan_lease_is_live
judged-some timeout p none h = cc
judged-some timeout p (some o) h = judge_again-some timeout p o h

unwatched :
    (timeout n : ℕ) (ps : List (Option LeasePoll)) → watched timeout ps ≡ none → AreBelow ps n
unfolding AreBelow plan_lease_is_live
unwatched timeout n [] h i q there = cc
unwatched timeout n (none ∷ ps) h zero q there = cc
unwatched timeout n (none ∷ ps) h (suc i) q there = unwatched timeout n ps h i q there
unwatched timeout n (some p ∷ ps) h i q there =
    absurd (judged-some timeout p (watched timeout ps) h)

watched-IsNoted :
    (timeout : ℕ) (ps : List (Option LeasePoll)) (out : LeaseObservation)
    → watched timeout ps ≡ some out
    → IsNoted timeout ps out
unfolding plan_lease_is_live
watched-IsNoted timeout [] out h = cc
watched-IsNoted timeout (none ∷ ps) out h =
    later-IsNoted timeout none ps out (λ q e. cc) (watched-IsNoted timeout ps out h)
watched-IsNoted timeout (some p ∷ ps) out h =
    (plan_lease_is_live-IsJudged timeout p ps (watched timeout ps) (unwatched timeout p.sequence ps)
        (watched-IsNoted timeout ps)).keeps
      out h

-- After any polls, a poll finds the lease live only if the news of the first poll that read its number, of
-- these polls and itself, still counts by the clock, and all polls before that one which found a lease,
-- of which there is at least one, had read smaller numbers.
pub live_lease-IsFresh :
    (timeout : ℕ) (p : LeasePoll) (ps : List (Option LeasePoll))
    → (plan_lease_is_live timeout (some p) (watched timeout ps)).0 ≡ return true
    → IsFresh timeout (some p ∷ ps) p
live_lease-IsFresh timeout p ps h =
    (plan_lease_is_live-IsJudged timeout p ps (watched timeout ps) (unwatched timeout p.sequence ps)
        (watched-IsNoted timeout ps)).earned
      h
