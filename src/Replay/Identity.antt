-- ===== src/Replay/Identity.antt =====
-- The document of a plan tells plans apart.
use lm_resiliency.Base.{◌≡◌, refl, ap, ◌∙◌, List, [], ◌∷◌, Option, some, none}
use lm_resiliency.Base.Int.{ℤ}
use lm_resiliency.Protocol.Value.{Value, array_of, int}
use lm_resiliency.Replay.Shapes.{
  ReplayShape, ReplayShapePlan, payload, shape_value, dimensions_value,
}

array_of-injective {ℓ} :
    {A : Type ℓ} (f : A → Value) (xs ys : List A)
    → ((x y : A) → f x ≡ f y → x ≡ y)
    → array_of f xs ≡ array_of f ys
    → xs ≡ ys
array_of-injective f [] [] inj h = refl
array_of-injective f [] (y ∷ ys) inj h = cc
array_of-injective f (x ∷ xs) [] inj h = cc
array_of-injective f (x ∷ xs) (y ∷ ys) inj h =
    let head : x ≡ y = inj x y (cc) in
    let tail : xs ≡ ys = array_of-injective f xs ys inj (cc) in cc

dimensions_value-injective :
    (d e : Option (List ℤ)) → dimensions_value d ≡ dimensions_value e → d ≡ e
dimensions_value-injective none none h = refl
dimensions_value-injective none (some e) h = cc
dimensions_value-injective (some d) none h = cc
dimensions_value-injective (some d) (some e) h =
    ap some (array_of-injective int d e (λ x y same. cc) (cc))

shape_value-injective : (s t : ReplayShape) → shape_value s ≡ shape_value t → s ≡ t
shape_value-injective s t h =
    let id : s.shape_id ≡ t.shape_id = cc in
    let dims : s.dimensions ≡ t.dimensions =
      dimensions_value-injective s.dimensions t.dimensions (cc) in
    ap (λ n. record s { shape_id = n }) id ∙ ap (λ d. record t { dimensions = d }) dims

-- Two plans with one document are the same: the source, and of each shape, in its order, the name and
-- the dimensions.
pub payload-injective : (p q : ReplayShapePlan) → payload p ≡ payload q → p ≡ q
payload-injective p q h =
    let source : p.source_id ≡ q.source_id = cc in
    let shapes : p.shapes ≡ q.shapes =
      array_of-injective shape_value p.shapes q.shapes shape_value-injective (cc) in
    ap (λ l. record p { shapes = l }) shapes ∙ ap (λ n. record q { source_id = n }) source
