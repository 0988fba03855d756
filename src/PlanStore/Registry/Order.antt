-- ===== src/PlanStore/Registry/Order.antt =====
-- Registrations keep their order, and no node and no agent is kept twice.
use lm_resiliency.Base.{
  ◌≡◌, refl, sym, ap, ◌∙◌, inl, inr, true, false, List, [], ◌∷◌, ◌++◌, map, Option, some, none,
  String, nat_eq, string_eq, contains, Distinct, append-Distinct, Option-cases, arith, beq_refl,
}
use mathlib.Core.List.{append_assoc, append-nil, map-append}
use mathlib.Core.Path.{subst}
use text.Mathlib.TextEquality.{eq_iff}
use lm_resiliency.PlanStore.Platform.{Platform}
use lm_resiliency.PlanStore.Registry.{admit_parsed}
use lm_resiliency.PlanStore.Registry.{
  Registration, nodes, agent_of, node_of, consistent, admit, parsed_registration, decode_lines,
}

abbrev agents : List Registration → List String
agents = map λ r. r.agent

-- Nodes and agents are paired one to one.
pub record IsPaired (rs : List Registration) : Type 0 where
  pub nodes_distinct : Distinct (nodes rs)
  pub agents_distinct : Distinct (agents rs)

agent_of-none :
    (rs : List Registration) (n : String) → agent_of rs n ≡ none → contains (nodes rs) n ≡ false
agent_of-none [] n h = refl
agent_of-none (r ∷ rs) n h = ground (arith, agent_of-none rs n)

node_of-none :
    (rs : List Registration) (a : String) → node_of rs a ≡ none → contains (agents rs) a ≡ false
node_of-none [] a h = refl
node_of-none (r ∷ rs) a h = ground (arith, node_of-none rs a)

node_of-some :
    (rs : List Registration) (a : String) {n : String}
    → node_of rs a ≡ some n
    → contains (nodes rs) n ≡ true
node_of-some [] a h = cc
node_of-some (r ∷ rs) a {n} h = ground (arith, node_of-some rs a {n = n}, beq_refl r.node)

-- What one admitted registration does: nothing, or it comes last.
data Admitted (kept : List Registration) (r : Registration) : List Registration → Type 0 where
  known : Admitted kept r kept
  added :
      contains (nodes kept) r.node ≡ false
      → contains (agents kept) r.agent ≡ false
      → Admitted kept r (kept ++ r ∷ [])

new_agent :
    (kept : List Registration) (r : Registration)
    → agent_of kept r.node ≡ none
    → consistent (node_of kept r.agent) r.node ≡ true
    → contains (agents kept) r.agent ≡ false
new_agent kept r absent c = elim (Option-cases (node_of kept r.agent)) [
  | inl e ↦ node_of-none kept r.agent e
  | inr (n, e) ↦
      let same : n ≡ r.node = (eq_iff n r.node).0 (rw e at c) in
      absurd (ground (arith, agent_of-none kept r.node absent, node_of-some kept r.agent e, same))
]

admit-Admitted :
    (kept : List Registration) (r : Registration) {out : List Registration}
    → admit kept r ≡ some out
    → Admitted kept r out
unfolding admit
admit-Admitted kept r {out} h = elim (Option-cases (agent_of kept r.node)) [
  | inl absent ↦
      let e : kept ++ r ∷ [] ≡ out = ground (arith, absent) in
      subst (Admitted kept r) e
        (added (agent_of-none kept r.node absent) (new_agent kept r absent (ground arith)))
  | inr (a, there) ↦ let e : kept ≡ out = ground (arith, there) in subst (Admitted kept r) e known
]

Admitted-IsPaired :
    {kept out : List Registration} {r : Registration}
    → Admitted kept r out
    → IsPaired kept
    → IsPaired out
Admitted-IsPaired known v = v
Admitted-IsPaired {kept} {r = r} (added n a) v = record {
  nodes_distinct =
      rw (map-append _ kept (r ∷ [])) (append-Distinct (nodes kept) r.node v.nodes_distinct n);
  agents_distinct =
      rw (map-append _ kept (r ∷ [])) (append-Distinct (agents kept) r.agent v.agents_distinct a);
}

Admitted-prefix :
    {kept out : List Registration} {r : Registration}
    → Admitted kept r out
    → (rest : List Registration) × (out ≡ kept ++ rest)
Admitted-prefix {kept} known = ([], sym (append-nil kept))
Admitted-prefix {r = r} (added n a) = (r ∷ [], refl)

module _ (p : Platform) (run_id : String) where
  open p use {Bytes, loads}

  admit_parsed-Admitted :
      (kept : List Registration) (o : Option Registration) {out : List Registration}
      → admit_parsed p run_id kept o ≡ some out
      → (r : Registration) × Admitted kept r out
  admit_parsed-Admitted kept none h = cc
  admit_parsed-Admitted kept (some r) h = (r, admit-Admitted kept r h)

  -- The registrations kept so far stay in front, and the pairing is kept.
  decode_lines-extends :
      (kept : List Registration) (lines : List Bytes) {out : List Registration}
      → decode_lines p run_id kept lines ≡ some out
      → IsPaired kept
      → IsPaired out × ((rest : List Registration) × (out ≡ kept ++ rest))
  unfolding decode_lines
  decode_lines-extends kept [] {out} h v =
      let e : kept ≡ out = cc in (subst IsPaired e v, ([], sym e ∙ sym (append-nil kept)))
  decode_lines-extends kept (line ∷ lines) h v =
      elim (Option-cases
        (admit_parsed p run_id kept (parsed_registration p run_id line (loads line)))) [
          | inl bad ↦ absurd (ground (arith, bad))
          | inr (more, good) ↦
              let (r, a) =
                admit_parsed-Admitted kept (parsed_registration p run_id line (loads line)) good in
              let (first, e) = Admitted-prefix a in
              let (paired, (rest, f)) =
                decode_lines-extends more lines (ground (arith, good)) (Admitted-IsPaired a v) in
              (paired, (first ++ rest, f ∙ ap (λ l. l ++ rest) e ∙ append_assoc kept first rest))
        ]

  decode_lines-append :
      (kept : List Registration) (xs ys : List Bytes) {out : List Registration}
      → decode_lines p run_id kept (xs ++ ys) ≡ some out
      → (mid : List Registration) × (decode_lines p run_id kept xs ≡ some mid)
        × (decode_lines p run_id mid ys ≡ some out)
  unfolding decode_lines
  decode_lines-append kept [] ys h = (kept, refl, h)
  decode_lines-append kept (line ∷ xs) ys h =
      elim (Option-cases
        (admit_parsed p run_id kept (parsed_registration p run_id line (loads line)))) [
          | inl bad ↦ absurd (ground (arith, bad))
          | inr (more, good) ↦
              let (mid, e, f) = decode_lines-append more xs ys (ground (arith, good)) in
              (mid, ground (arith, good, e), f)
        ]

  -- If the registrations decode, then those of any first part of the lines decode too, the nodes and
  -- agents of each are paired one to one, and later lines only add registrations behind the earlier ones.
  pub registrations_keep_order :
      (xs ys : List Bytes) {out : List Registration}
      → decode_lines p run_id [] (xs ++ ys) ≡ some out
      → (earlier : List Registration) × (rest : List Registration) × (decode_lines p run_id [] xs
          ≡ some earlier)
        × (out ≡ earlier ++ rest)
        × IsPaired earlier
        × IsPaired out
  registrations_keep_order xs ys h =
      let (mid, e, f) = decode_lines-append [] xs ys h in
      let (paired, _) =
        decode_lines-extends [] xs e (record { nodes_distinct = tt; agents_distinct = tt }) in
      let (all_paired, (rest, g)) = decode_lines-extends mid ys f paired in
      (mid, rest, e, g, paired, all_paired)
