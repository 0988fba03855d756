-- ===== src/Rendezvous/News.antt =====
-- What the polls so far tell of the lease's numbers.
use lm_resiliency.Base.{
  ℕ, zero, suc, ◌<◌, ◌≤◌, ◌≡◌, ap, true, List, ◌∷◌, Option, some, get_elem?, arith,
}
use lm_resiliency.Rendezvous.Lease.{LeasePoll, LeaseObservation, noted}

-- An older poll read a smaller number.
pub record IsNews (ps : List (Option LeasePoll)) (at : ℕ) (q : LeasePoll) : Type 0 where
  pub index : ℕ
  pub old : LeasePoll
  pub there : get_elem? ps index ≡ some (some old)
  pub behind : at < index
  pub smaller : old.sequence < q.sequence

-- All polls that found a lease read a smaller number.
unfoldable pub AreBelow : List (Option LeasePoll) → ℕ → Type 0
AreBelow ps n = (i : ℕ) (q : LeasePoll) → get_elem? ps i ≡ some (some q) → q.sequence < n

-- All polls before this one that found a lease read a smaller number.
unfoldable pub IsFirstOf : List (Option LeasePoll) → ℕ → ℕ → Type 0
IsFirstOf ps at n =
    (i : ℕ) (q : LeasePoll) → at < i → get_elem? ps i ≡ some (some q) → q.sequence < n

pub later-IsFirstOf :
    (p : Option LeasePoll) (ps : List (Option LeasePoll)) (at n : ℕ)
    → IsFirstOf ps at n
    → IsFirstOf (p ∷ ps) (suc at) n
unfolding IsFirstOf
later-IsFirstOf p ps at n h zero q behind there = absurd (omega (arith, behind))
later-IsFirstOf p ps at n h (suc i) q behind there = h i q (omega (arith, behind)) there

pub now-IsFirstOf :
    (p : LeasePoll) (ps : List (Option LeasePoll))
    → AreBelow ps p.sequence
    → IsFirstOf (some p ∷ ps) 0 p.sequence
unfolding IsFirstOf AreBelow
now-IsFirstOf p ps h zero q behind there = absurd (omega (arith, behind))
now-IsFirstOf p ps h (suc i) q behind there = h i q there

pub later-AreBelow :
    (p : Option LeasePoll) (ps : List (Option LeasePoll)) (n : ℕ)
    → ((q : LeasePoll) → p ≡ some q → q.sequence < n)
    → AreBelow ps n
    → AreBelow (p ∷ ps) n
unfolding AreBelow
later-AreBelow p ps n one h zero q there = one q (cc)
later-AreBelow p ps n one h (suc i) q there = h i q there

pub wider-AreBelow :
    (ps : List (Option LeasePoll)) (m n : ℕ) → m ≤ n → AreBelow ps m → AreBelow ps n
unfolding AreBelow
wider-AreBelow ps m n w h i q there = let below = h i q there in omega (arith, w, below)

-- An observation is what one of the polls read, the first with its number, and it is live only on news; no
-- poll has read a larger number.
pub record IsNoted (timeout : ℕ) (ps : List (Option LeasePoll)) (o : LeaseObservation)
    : Type 0 where
  pub at : ℕ
  pub poll : LeasePoll
  pub there : get_elem? ps at ≡ some (some poll)
  pub as_read : o ≡ noted timeout poll o.live
  pub on_news : o.live ≡ true → IsNews ps at poll
  pub is_first : IsFirstOf ps at poll.sequence
  pub most : AreBelow ps (suc o.sequence)

pub later-IsNews :
    (p : Option LeasePoll) (ps : List (Option LeasePoll)) (at : ℕ) (q : LeasePoll)
    → IsNews ps at q
    → IsNews (p ∷ ps) (suc at) q
later-IsNews p ps at q n = record {
  index = suc n.index;
  old = n.old;
  there = n.there;
  behind = omega (arith, n.behind);
  smaller = n.smaller;
}

pub later-IsNoted :
    (timeout : ℕ) (p : Option LeasePoll) (ps : List (Option LeasePoll)) (o : LeaseObservation)
    → ((q : LeasePoll) → p ≡ some q → q.sequence < suc o.sequence)
    → IsNoted timeout ps o
    → IsNoted timeout (p ∷ ps) o
later-IsNoted timeout p ps o one n = record {
  at = suc n.at;
  poll = n.poll;
  there = n.there;
  as_read = n.as_read;
  on_news = λ live. later-IsNews p ps n.at n.poll (n.on_news live);
  is_first = later-IsFirstOf p ps n.at n.poll.sequence n.is_first;
  most = later-AreBelow p ps (suc o.sequence) one n.most;
}

-- A poll with a larger number than the observation's is news.
pub newer-IsNews :
    (timeout : ℕ) (p : LeasePoll) (ps : List (Option LeasePoll)) (o : LeaseObservation)
    → IsNoted timeout ps o
    → o.sequence < p.sequence
    → IsNews (some p ∷ ps) 0 p
newer-IsNews timeout p ps o n h = record {
  index = suc n.at;
  old = n.poll;
  there = n.there;
  behind = omega arith;
  smaller =
      let same : o.sequence ≡ n.poll.sequence = ap (λ x. x.sequence) n.as_read in
      omega (arith, same);
}
