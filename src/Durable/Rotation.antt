-- ===== src/Durable/Rotation.antt =====
-- `_rotate_shape_ids` starts a plan elsewhere and loses nothing of it.
use mathlib.Core.Path.{subst}
use text.Mathlib.TextEquality.{eq_iff}
use lm_resiliency.Base.{
  ℕ, zero, suc, ◌≡◌, ◌↔◌, refl, ap, inl, inr, true, List, [], ◌∷◌, ◌++◌, some, String, ◌==◌,
  string_eq, contains, contains-append, Distinct, swap-Distinct, take, drop, take-drop, length,
  length-append, get_elem?, arith, Bool-cases, Option-cases,
}
use lm_resiliency.Durable.Record.{rotate_shape_ids, index_of, same_names}

pub same_names_iff : (xs ys : List String) → (same_names xs ys ≡ true) ↔ (xs ≡ ys)
same_names_iff [] [] = (λ h. refl, λ h. refl)
same_names_iff [] (y ∷ ys) = (λ h. cc, λ h. cc)
same_names_iff (x ∷ xs) [] = (λ h. cc, λ h. cc)
same_names_iff (x ∷ xs) (y ∷ ys) = (
  λ h.
      let head : x ≡ y = (eq_iff x y).0 (ground arith) in
      let tail : xs ≡ ys = (same_names_iff xs ys).0 (ground arith) in cc,
  λ h.
      let head : x ≡ y = cc in
      let tail : xs ≡ ys = cc in ground (arith, (eq_iff x y).1 head, (same_names_iff xs ys).1 tail),
)

index_of-some :
    (xs : List String) (first : String) (i : ℕ)
    → index_of xs first ≡ some i
    → get_elem? (drop i xs) 0 ≡ some first
index_of-some [] first i h = cc
index_of-some (x ∷ xs) first zero h = elim (Bool-cases (x == first)) [
  | inl hit ↦ ap some ((eq_iff x first).0 hit)
  | inr miss ↦ elim (Option-cases (index_of xs first)) [
    | inl e ↦ absurd (ground (arith, miss, e))
    | inr (j, e) ↦ absurd (ground (arith, miss, e))
  ]
]
index_of-some (x ∷ xs) first (suc i) h = elim (Bool-cases (x == first)) [
  | inl hit ↦ absurd (ground (arith, hit))
  | inr miss ↦ index_of-some xs first i (elim (Option-cases (index_of xs first)) [
    | inl e ↦ absurd (ground (arith, miss, e))
    | inr (j, e) ↦ ground (arith, miss, e)
  ])
]

head_append :
    (xs ys : List String) {a : String} → get_elem? xs 0 ≡ some a → get_elem? (xs ++ ys) 0 ≡ some a
head_append [] ys h = cc
head_append (x ∷ xs) ys h = h

-- The same shapes in the same cyclic order, from one of them on.
pub record IsRotation (ids : List String) (first : String) (out : List String) : Type 0 where
  pub starts : get_elem? out 0 ≡ some first
  pub same_length : length out ≡ length ids
  pub same_shapes : (s : String) → contains out s ≡ contains ids s
  pub distinct : Distinct out
  pub before : List String
  pub after : List String
  pub split : ids ≡ before ++ after
  pub turned : out ≡ after ++ before

turn-IsRotation :
    (before after : List String) {first : String}
    → Distinct (before ++ after)
    → get_elem? after 0 ≡ some first
    → IsRotation (before ++ after) first (after ++ before)
turn-IsRotation before after d h = record {
  starts = head_append after before h;
  same_length = omega (arith, length-append before after, length-append after before);
  same_shapes = λ s. ground (arith, contains-append before after s, contains-append after before s);
  distinct = swap-Distinct before after d;
  before = before;
  after = after;
  split = refl;
  turned = refl;
}

-- Of a plan of distinct shapes, the rotation to one of them starts with it, holds the same shapes,
-- each once, and is the end of the plan followed by its beginning.
pub rotate_shape_ids-IsRotation :
    (ids : List String) (first : String) {out : List String}
    → Distinct ids
    → rotate_shape_ids ids first ≡ some out
    → IsRotation ids first out
unfolding rotate_shape_ids
rotate_shape_ids-IsRotation ids first {out} d h = elim (Option-cases (index_of ids first)) [
  | inl e ↦ absurd (ground (arith, e))
  | inr (i, e) ↦
      let turned : drop i ids ++ take i ids ≡ out = ground (arith, e) in
      subst (λ o. IsRotation ids first o) turned
        (subst (λ l. IsRotation l first (drop i ids ++ take i ids)) (take-drop i ids)
          (turn-IsRotation (take i ids) (drop i ids) (rw (take-drop i ids) d)
            (index_of-some ids first i e)))
]
