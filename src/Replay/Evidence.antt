-- ===== src/Replay/Evidence.antt =====
-- The aggregate of a sweep shows a fault if a round does.
use lm_resiliency.Base.{
  ℕ, zero, suc, ◌+◌, ◌<◌, ◌≤◌, ◌≡◌, ◌⊎◌, refl, ap, ◌∙◌, inl, inr, Bool, true, false, not, ◌||◌,
  List, [], ◌∷◌, ◌++◌, map, arith, length, ◌==◌, nat_eq, any, Bool-cases, return, raise, range_from,
  if◌then◌else◌,
}
use lm_resiliency.Durable.Record.{ReplayResult, C3Status, replay_result_has_sdc, is_inconclusive}
use lm_resiliency.Replay.Shapes.{different_widths}
use lm_resiliency.Replay.Sweep.{
  merged, unfit, Round, is_set, set_at, column, joined, fits, aggregate_shape_cycle,
}
use lm_resiliency.Replay.Coverage.{faulty}

-- A bit that is set stands somewhere.
set_somewhere :
    (bits : List ℕ) → any is_set bits ≡ true → (i : ℕ) × (i < length bits) × (set_at bits i ≡ true)
set_somewhere [] h = cc
set_somewhere (b ∷ bits) h = elim (Bool-cases (is_set b)) [
  | inl here ↦ (0, omega arith, here)
  | inr not_here ↦
      let (i, below, there) = set_somewhere bits (ground (arith, not_here)) in
      (suc i, omega arith, there)
]

any-range_from :
    (rs : List Round) (i k n : ℕ)
    → k ≤ i
    → i < k + n
    → any (λ r. set_at r.result.sdc_bitmap i) rs ≡ true
    → any is_set (map (column rs) (range_from k n)) ≡ true
any-range_from rs i k zero low high h = absurd (omega arith)
any-range_from rs i k (suc n) low high h = elim (Bool-cases (k == i)) [
  | inl here ↦ let same : k ≡ i = ground arith in rw same (rw h refl)
  | inr not_here ↦ ground (arith, any-range_from rs i (suc k) n (ground arith) (omega arith) h)
]

pub any-inconclusive :
    (f : Round → List C3Status) (rs : List Round)
    → any is_inconclusive (joined f rs) ≡ any (λ r. any is_inconclusive (f r)) rs
any-inconclusive f [] = refl
any-inconclusive f (r ∷ rs) =
    any-append (f r) (joined f rs)
    ∙ ap (λ b. any is_inconclusive (f r) || b) (any-inconclusive f rs)
  where
    any-append :
        (xs ys : List C3Status)
        → any is_inconclusive (xs ++ ys) ≡ (any is_inconclusive xs || any is_inconclusive ys)
    any-append [] ys = refl
    any-append (x ∷ xs) ys = ground (arith, any-append xs ys)

abbrev pub doubtful : Round → Bool
doubtful r = any is_inconclusive r.result.c3_statuses

abbrev pub at_bit : ℕ → Round → Bool
at_bit i r = set_at r.result.sdc_bitmap i

or_true : (a b : Bool) → b ≡ true → (a || b) ≡ true
or_true a b h = ground (arith, h)

-- A faulty round of the right width has a bit in the columns, or a verdict without a majority.
fault_found :
    (rs : List Round) (width : ℕ)
    → any (λ r. not (fits width r)) rs ≡ false
    → any faulty rs ≡ true
    → ((i : ℕ) × (i < width) × (any (at_bit i) rs ≡ true)) ⊎ (any doubtful rs ≡ true)
unfolding replay_result_has_sdc
fault_found [] width fit h = cc
fault_found (r ∷ rs) width fit h = elim (Bool-cases (any is_set r.result.sdc_bitmap)) [
  | inl set ↦
      let (i, below, there) = set_somewhere r.result.sdc_bitmap set in
      let same : length r.result.sdc_bitmap ≡ width = ground arith in
      inl (i, omega (arith, same), ground (arith, there))
  | inr unset ↦ elim (Bool-cases (doubtful r)) [
    | inl doubt ↦ inr (ground (arith, doubt))
    | inr clear ↦ elim (fault_found rs width (ground arith) (ground (arith, unset, clear))) [
      | inl (i, below, there) ↦ inl (i, below, ground (arith, there))
      | inr doubt ↦ inr (ground (arith, doubt))
    ]
  ]
]

-- An aggregate that is returned.
pub data IsMerged (expected : ℕ) : List Round → ReplayResult → Type 0 where
  merge :
      (r : Round) (rs : List Round)
      → unfit r rs ≡ false
      → IsMerged expected (r ∷ rs) (merged expected r rs)

merged_or_not :
    (expected : ℕ) (r : Round) (rs : List Round) (out : ReplayResult) (b : Bool)
    → unfit r rs ≡ b
    → (if b then raise different_widths else return (merged expected r rs)) ≡ return out
    → IsMerged expected (r ∷ rs) out
merged_or_not expected r rs out true e h = cc
merged_or_not expected r rs out false e h =
    let same : merged expected r rs ≡ out = cc in rw (← same) (merge r rs e)

pub aggregate-IsMerged :
    (expected : ℕ) (rs : List Round) (out : ReplayResult)
    → aggregate_shape_cycle expected rs ≡ return out
    → IsMerged expected rs out
unfolding aggregate_shape_cycle
aggregate-IsMerged expected [] out h = cc
aggregate-IsMerged expected (r ∷ rs) out h = merged_or_not expected r rs out (unfit r rs) refl h

-- The aggregate of rounds, one of which is faulty, is faulty.
pub merged-faulty :
    (expected : ℕ) (rs : List Round) (out : ReplayResult)
    → IsMerged expected rs out
    → any faulty rs ≡ true
    → replay_result_has_sdc out ≡ true
unfolding replay_result_has_sdc
merged-faulty expected _ _ (merge r rs fit) f =
    let width = length r.result.sdc_bitmap in
    let statuses = joined (λ x. x.result.c3_statuses) (r ∷ rs) in
    elim (fault_found (r ∷ rs) width fit f) [
      | inl (i, below, there) ↦
          ap (λ b. b || any is_inconclusive statuses)
            (any-range_from (r ∷ rs) i 0 width (omega arith) (omega arith) there)
      | inr doubt ↦
          or_true (any is_set (map (column (r ∷ rs)) (range_from 0 width))) _
            (any-inconclusive (λ x. x.result.c3_statuses) (r ∷ rs) ∙ doubt)
    ]
