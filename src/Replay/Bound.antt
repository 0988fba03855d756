-- ===== src/Replay/Bound.antt =====
-- Within its detection bound the scheduler of a catalog runs every recipe.
use lm_resiliency.Base.{
  ℕ, zero, suc, ◌+◌, ◌-◌, ◌%◌, ◌<◌, ◌≤◌, ◌≡◌, refl, sym, ap, ◌∙◌, inl, inr, List, ◌∷◌, ◌++◌, some,
  arith, nat_eq, get_elem?, length, take, drop, ltb, drop_step, length-drop, length-append,
  get_elem?-append, get_elem?-behind, drop-append_left, take-append_right, Bool-cases,
}
use native.Mathlib.Nat.{mod-add-mod, mod-eq_of_lt, mod-eq-sub-mod}
use lm_resiliency.Replay.Moe.{MoEReplayScheduler, scheduled, next_recipe, detection_bound_steps}
use lm_resiliency.Replay.Windows.{run_steps, turn_times, windows}

module _ {ℓ} {A : Type ℓ} where
  -- A position of the catalog written twice.
  get_elem?-twice :
      (rs : List A) (v : ℕ)
      → v < length rs + length rs
      → get_elem? (rs ++ rs) v ≡ get_elem? rs (v % length rs)
  get_elem?-twice rs v h = elim (Bool-cases (ltb v (length rs))) [
    | inl first ↦
        let low : v < length rs = ground (arith, first) in
        get_elem?-append rs rs v low ∙ ap (get_elem? rs) (sym (mod-eq_of_lt low))
    | inr second ↦
        let high : length rs ≤ v = ground (arith, second) in
        let behind : v ≡ length rs + (v - length rs) = omega arith in
        ap (get_elem? (rs ++ rs)) behind
        ∙ get_elem?-behind rs rs (v - length rs)
        ∙ ap (get_elem? rs) (sym (mod-eq-sub-mod high ∙ mod-eq_of_lt (omega arith)))
  ]

  turns_through :
      (k v : ℕ) (s : MoEReplayScheduler A) (rs : List A)
      → s.replay_recipes ≡ rs
      → s.position ≡ v % length rs
      → v + k ≤ length rs + length rs
      → (turn_times k s).0 ≡ take k (drop v (rs ++ rs))
  unfolding next_recipe
  turns_through zero v s rs same at h = refl
  turns_through (suc k) v s rs same at h =
      let (x, there, rest) = drop_step v (rs ++ rs) (omega (arith, length-append rs rs)) in
      let here : get_elem? s.replay_recipes s.position ≡ some x =
        ap (λ l. get_elem? l s.position) same
        ∙ ap (get_elem? rs) at
        ∙ sym (get_elem?-twice rs v (omega arith))
        ∙ there in
      let next : (s.position + 1) % length s.replay_recipes ≡ suc v % length rs =
        ap (λ l. (s.position + 1) % length l) same
        ∙ ap (λ p. (p + 1) % length rs) at
        ∙ mod-add-mod v (length rs) 1
        ∙ ap (λ n. n % length rs) (omega arith) in
      rw (here, rest)
        (ap (λ l. x ∷ l)
          (turns_through k (suc v) (scheduled s (some x)).1 rs same next (omega arith)))

  -- Of as many steps as the detection bound has, from the first replay step on or later, each recipe of the
  -- catalog is run at one: those from the scheduler's position on, and then those before it.
  pub detection_bound :
      (s : MoEReplayScheduler A) (step : ℕ)
      → 0 < s.replay_interval
      → s.first_replay_step ≤ step
      → s.position < length s.replay_recipes
      → (run_steps (detection_bound_steps s) step s).0
        ≡ drop s.position s.replay_recipes ++ take s.position s.replay_recipes
  detection_bound s step positive low h =
      let rs = s.replay_recipes in
      let ahead = length (drop s.position rs) in
      let split : length rs ≡ ahead + s.position = omega (arith, length-drop s.position rs) in
      ap (λ o. o.0) (windows (length rs) s.replay_interval s step refl positive low)
      ∙ turns_through (length rs) s.position s rs refl (sym (mod-eq_of_lt h)) (omega arith)
      ∙ ap (take (length rs)) (drop-append_left s.position rs rs (omega arith))
      ∙ ap (λ k. take k (drop s.position rs ++ rs)) split
      ∙ take-append_right s.position (drop s.position rs) rs
