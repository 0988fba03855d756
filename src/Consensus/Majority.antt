-- ===== src/Consensus/Majority.antt =====
-- The verdict is what the counts of the values say.
use Prim.Native.Nat.{◌/◌}
use lm_resiliency.Base.{
  ℕ, ◌+◌, ◌*◌, ◌≤◌, ◌<◌, ◌≡◌, ◌≢◌, Bool, refl, sym, ap, ◌∙◌, inl, inr, true, false, List, [], ◌∷◌,
  some, leb, ◌==◌, Eq, length, set_of, set_of_one, set_of-All_one, length-set_of_zero, All,
  contains, arith, Bool-cases, beq_refl,
}
use lm_resiliency.Durable.Record.{agree, attributed, inconclusive}
use lm_resiliency.Consensus.Verdict.{
  count, most_common, C3Result, verdict, no_bits, outliers, vote, classify_evidence,
}

-- The number of marked peers.
abbrev pub marked : List ℕ → ℕ
marked [] = 0
marked (b ∷ bs) = b + marked bs

half_above : (c n : ℕ) → leb c (n / 2) ≡ true → 2 * c ≤ n
half_above c n h = ground arith

half_below : (c n : ℕ) → leb c (n / 2) ≡ false → n < 2 * c
half_below c n h = ground arith

module _ {ℓ} {A : Type ℓ} ⦃e : Eq A⦄ where
  -- One bit for each value, in their order: 0 for the majority's and 1 for any other.
  pub data Marks (v : A) : List A → List ℕ → Type ℓ where
    end_marks : Marks v [] []
    with_majority :
        (w : A) (ws : List A) (bits : List ℕ)
        → w ≡ v
        → Marks v ws bits
        → Marks v (w ∷ ws) (0 ∷ bits)
    against :
        (w : A) (ws : List A) (bits : List ℕ)
        → w ≢ v
        → Marks v ws bits
        → Marks v (w ∷ ws) (1 ∷ bits)

  -- What each verdict says of the values.
  pub data IsVerdict (values : List A) : C3Result A → Type ℓ where
    all_agree :
        (v : A) → All (λ w. w ≡ v) values → IsVerdict values (verdict agree (no_bits values) values)
    no_majority :
        ((v : A) → 2 * count values v ≤ length values)
        → IsVerdict values (verdict inconclusive (no_bits values) values)
    minority :
        (v : A)
        → length values < 2 * count values v
        → (bits : List ℕ) → Marks v values bits
        → 0 < marked bits
        → IsVerdict values (verdict attributed bits values)

  count_absent : (xs : List A) (a : A) → contains xs a ≡ false → count xs a ≡ 0
  count_absent [] a h = refl
  count_absent (x ∷ xs) a h = ground (arith, count_absent xs a)

  -- No member of the list is more frequent.
  most_common_lem :
      (values : List A) (x : A) (xs : List A) (a : A)
      → contains (x ∷ xs) a ≡ true
      → count values a ≤ count values (most_common values x xs)
  most_common_lem values x [] a h =
      let same : x ≡ a = (e.equal_iff x a).0 (ground arith) in rw same (omega arith)
  most_common_lem values x (y ∷ ys) a h =
      let best = most_common values y ys in
      elim (Bool-cases (x == a)) [
        | inl hit ↦
            let same : x ≡ a = (e.equal_iff x a).0 hit in
            let at_least : count values x ≤ count values (most_common values x (y ∷ ys)) =
              ground arith in
            rw (← same) at_least
        | inr miss ↦
            let rest : count values a ≤ count values best =
              most_common_lem values y ys a (ground (arith, miss)) in
            ground arith
      ]

  marked-outliers : (v : A) (xs : List A) → marked (outliers v xs) + count xs v ≡ length xs
  marked-outliers v [] = refl
  marked-outliers v (x ∷ xs) = ground (arith, marked-outliers v xs)

  outliers-Marks : (v : A) (xs : List A) → Marks v xs (outliers v xs)
  outliers-Marks v [] = end_marks
  outliers-Marks v (x ∷ xs) = elim (Bool-cases (x == v)) [
    | inl hit ↦
        rw hit (with_majority x xs (outliers v xs) ((e.equal_iff x v).0 hit) (outliers-Marks v xs))
    | inr miss ↦ rw miss (
        against x xs (outliers v xs) (λ same. differs miss ((e.equal_iff x v).1 same))
          (outliers-Marks v xs))
  ]
    where
      differs : {b : Bool} → b ≡ false → b ≢ true
      differs h g = cc

  count-le : (xs : List A) (v : A) → count xs v ≤ length xs
  count-le [] v = omega arith
  count-le (x ∷ xs) v = ground (arith, count-le xs v)

  count-All : (xs : List A) (v : A) → count xs v ≡ length xs → All (λ w. w ≡ v) xs
  count-All [] v h = tt
  count-All (x ∷ xs) v h = elim (Bool-cases (x == v)) [
    | inl hit ↦ ((e.equal_iff x v).0 hit, count-All xs v (ground (arith, rw hit at h)))
    | inr miss ↦ absurd (ground (arith, count-le xs v, rw miss at h))
  ]

  no_majority_lem :
      (x : A) (xs : List A) (v : A)
      → 2 * count (x ∷ xs) (most_common (x ∷ xs) x xs) ≤ length (x ∷ xs)
      → 2 * count (x ∷ xs) v ≤ length (x ∷ xs)
  no_majority_lem x xs v low = elim (Bool-cases (contains (x ∷ xs) v)) [
    | inl there ↦ let most = most_common_lem (x ∷ xs) x xs v there in omega (arith, most, low)
    | inr absent ↦ let none_there = count_absent (x ∷ xs) v absent in omega (arith, none_there)
  ]

  All-same : (x v : A) (xs : List A) → x ≡ v → All (λ w. w ≡ v) xs → All (λ w. w ≡ x) xs
  All-same x v [] e h = tt
  All-same x v (y ∷ ys) e h = (h.0 ∙ sym e, All-same x v ys e h.1)

  some_marked :
      (x : A) (xs : List A) (v : A)
      → leb (length (set_of (x ∷ xs))) 1 ≡ false
      → 0 < marked (outliers v (x ∷ xs))
  some_marked x xs v several = elim (Bool-cases (leb (marked (outliers v (x ∷ xs))) 0)) [
    | inr there ↦ ground arith
    | inl none_there ↦
        let everyone : count (x ∷ xs) v ≡ length (x ∷ xs) =
          let sum = marked-outliers v (x ∷ xs) in ground arith in
        let same = count-All (x ∷ xs) v everyone in
        let one = set_of-All_one x xs (All-same x v xs same.0 same.1) in
        absurd (ground (arith, rw one at several))
  ]

  everyone_agrees :
      (x : A) (xs : List A) → leb (length (set_of (x ∷ xs))) 1 ≡ true → All (λ w. w ≡ x) (x ∷ xs)
  everyone_agrees x xs one =
      let size : length (set_of (x ∷ xs)) ≡ 1 =
        elim (Bool-cases (leb (length (set_of (x ∷ xs))) 0)) [
          | inl empty ↦
              let nothing : x ∷ xs ≡ [] = length-set_of_zero (x ∷ xs) (ground arith) in absurd (cc)
          | inr some_there ↦ ground arith
        ] in
      set_of_one (x ∷ xs) x size (ground (arith, beq_refl x))

  vote-IsVerdict :
      (x : A) (xs : List A)
      → leb (length (set_of (x ∷ xs))) 1 ≡ false
      → IsVerdict (x ∷ xs) (vote (most_common (x ∷ xs) x xs) (x ∷ xs))
  vote-IsVerdict x xs several =
      let values = x ∷ xs in
      let best = most_common values x xs in
      elim (Bool-cases (leb (count values best) (length values / 2))) [
        | inl low ↦ rw low (
            no_majority
              (λ v. no_majority_lem x xs v (half_above (count values best) (length values) low)))
        | inr high ↦ rw high (
            minority best (half_below (count values best) (length values) high)
              (outliers best values) (outliers-Marks best values) (some_marked x xs best several))
      ]

  -- Of any list with a value there is a verdict: that all values agree, where they do; that no value
  -- has a majority, where none has; or else that some value has the majority, and exactly the peers
  -- that hold another are marked, of which there is one at least.
  pub classify_evidence-IsVerdict :
      (x : A) (xs : List A)
      → (r : C3Result A) × (classify_evidence (x ∷ xs) ≡ some r) × IsVerdict (x ∷ xs) r
  unfolding classify_evidence
  classify_evidence-IsVerdict x xs = elim (Bool-cases (leb (length (set_of (x ∷ xs))) 1)) [
    | inl one ↦ (_, ap some (rw one refl), all_agree x (everyone_agrees x xs one))
    | inr several ↦ (_, ap some (rw several refl), vote-IsVerdict x xs several)
  ]
