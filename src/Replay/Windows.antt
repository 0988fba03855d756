-- ===== src/Replay/Windows.antt =====
-- Of as many steps as the interval has, the scheduler of a catalog runs one recipe.
use lm_resiliency.Base.{
  ℕ, zero, suc, ◌+◌, ◌-◌, ◌*◌, ◌%◌, ◌<◌, ◌≤◌, ◌≡◌, refl, sym, ap, ◌∙◌, inl, inr, false, List, [],
  ◌∷◌, ◌++◌, Option, some, none, arith, ◌==◌, nat_eq, get_elem?, ltb, Bool-cases,
}
use mathlib.Core.List.{append_assoc, append-nil}
use native.Mathlib.Nat.{
  mod-add-mod, mod-lt, mod_self, mod-eq_of_lt, zero-add, add-zero, suc-add, zero-mul, suc-mul,
  add_comm,
}
use lm_resiliency.Replay.Moe.{
  MoEReplayScheduler, ScheduledReplay, Scheduled, scheduled, next_recipe, recipe_for_step,
}

module _ {ℓ} {A : Type ℓ} where
  abbrev pub recipes_of : Option (ScheduledReplay A) → List A
  recipes_of none = []
  recipes_of (some r) = r.recipe ∷ []

  -- The recipes that these many steps run, and the scheduler after them.
  abbrev pub run_steps : ℕ → ℕ → MoEReplayScheduler A → List A × MoEReplayScheduler A
  run_steps zero step s = ([], s)
  run_steps (suc k) step s =
      let here = recipe_for_step step s in
      let rest = run_steps k (step + 1) here.1 in (recipes_of here.0 ++ rest.0, rest.1)

  abbrev pub joined_run :
      List A × MoEReplayScheduler A
      → (MoEReplayScheduler A → List A × MoEReplayScheduler A)
      → List A × MoEReplayScheduler A
  joined_run (xs, s) f = (xs ++ (f s).0, (f s).1)

  abbrev pub prefixed : List A → List A × MoEReplayScheduler A → List A × MoEReplayScheduler A
  prefixed xs o = (xs ++ o.0, o.1)

  append-run_steps :
      (m n step : ℕ) (s : MoEReplayScheduler A)
      → run_steps (m + n) step s ≡ joined_run (run_steps m step s) (run_steps n (step + m))
  append-run_steps zero n step s = rw (zero-add, add-zero) refl
  append-run_steps (suc m) n step s =
      let here = recipe_for_step step s in
      let first = run_steps m (step + 1) here.1 in
      let shift : step + 1 + m ≡ step + suc m = omega arith in
      ap (λ k. run_steps k step s) (suc-add m n)
      ∙ ap (prefixed (recipes_of here.0)) (append-run_steps m n (step + 1) here.1)
      ∙ ap (λ t. prefixed (recipes_of here.0) (joined_run first (run_steps n t))) shift
      ∙ ap (λ l. (l, (run_steps n (step + suc m) first.1).1))
          (sym (append_assoc (recipes_of here.0) first.0 (run_steps n (step + suc m) first.1).0))

  -- Where a step stands between two replays.
  abbrev phase : MoEReplayScheduler A → ℕ → ℕ
  phase s step = (step - s.first_replay_step) % s.replay_interval

  next_phase :
      (s : MoEReplayScheduler A) (step k : ℕ)
      → s.first_replay_step ≤ step
      → phase s (step + k) ≡ (phase s step + k) % s.replay_interval
  next_phase s step k low =
      ap (λ n. n % s.replay_interval) (omega arith)
      ∙ sym (mod-add-mod (step - s.first_replay_step) s.replay_interval k)

  idle_step :
      (s : MoEReplayScheduler A) (step : ℕ) → 0 < phase s step → recipe_for_step step s ≡ (none, s)
  unfolding recipe_for_step
  idle_step s step h =
      let off : (phase s step == 0) ≡ false = ground (arith, h) in
      elim (Bool-cases (ltb step s.first_replay_step)) [
        | inl early ↦ rw early refl
        | inr late ↦ rw (late, off) refl
      ]

  due_step :
      (s : MoEReplayScheduler A) (step : ℕ)
      → s.first_replay_step ≤ step
      → phase s step ≡ 0
      → recipe_for_step step s ≡ next_recipe s
  unfolding recipe_for_step
  due_step s step low h =
      let late : ltb step s.first_replay_step ≡ false = ground (arith, low) in rw (late, h) refl

  -- Steps between two replays run nothing.
  idle_steps :
      (k : ℕ) (s : MoEReplayScheduler A) (step : ℕ)
      → s.first_replay_step ≤ step
      → 0 < phase s step
      → phase s step + k ≤ s.replay_interval
      → run_steps k step s ≡ ([], s)
  idle_steps zero s step low h fits = refl
  idle_steps (suc zero) s step low h fits = rw (idle_step s step h) refl
  idle_steps (suc (suc k)) s step low h fits =
      let next : phase s (step + 1) ≡ phase s step + 1 =
        next_phase s step 1 low ∙ mod-eq_of_lt (omega arith) in
      rw (idle_step s step h)
        (idle_steps (suc k) s (step + 1) (omega arith) (omega (arith, next)) (omega (arith, next)))

  -- The recipes and the times of the schedule stay.
  scheduled-times :
      (s : MoEReplayScheduler A) (o : Option A)
      → ((scheduled s o).1.replay_interval ≡ s.replay_interval)
        × ((scheduled s o).1.first_replay_step ≡ s.first_replay_step)
        × ((scheduled s o).1.replay_recipes ≡ s.replay_recipes)
  scheduled-times s none = (refl, refl, refl)
  scheduled-times s (some a) = (refl, refl, refl)

  next_recipe-times :
      (s : MoEReplayScheduler A)
      → ((next_recipe s).1.replay_interval ≡ s.replay_interval)
        × ((next_recipe s).1.first_replay_step ≡ s.first_replay_step)
        × ((next_recipe s).1.replay_recipes ≡ s.replay_recipes)
  unfolding next_recipe
  next_recipe-times s = scheduled-times s (get_elem? s.replay_recipes s.position)

  abbrev pub turn : MoEReplayScheduler A → List A × MoEReplayScheduler A
  turn s = (recipes_of (next_recipe s).0, (next_recipe s).1)

  after_turn :
      (k : ℕ) (t : MoEReplayScheduler A) (step : ℕ)
      → t.first_replay_step ≤ step
      → phase t step ≡ 0
      → k < t.replay_interval
      → run_steps k (step + 1) t ≡ ([], t)
  after_turn zero t step low h below = refl
  after_turn (suc k) t step low h below =
      let next : phase t (step + 1) ≡ 1 =
        next_phase t step 1 low
        ∙ ap (λ n. (n + 1) % t.replay_interval) h
        ∙ mod-eq_of_lt (omega arith) in
      idle_steps (suc k) t (step + 1) (omega arith) (omega (arith, next)) (omega (arith, next))

  due_then_idle :
      (k : ℕ) (s : MoEReplayScheduler A) (step : ℕ)
      → s.first_replay_step ≤ step
      → phase s step ≡ 0
      → k < s.replay_interval
      → run_steps (suc k) step s ≡ turn s
  due_then_idle k s step low h below =
      let t = (next_recipe s).1 in
      let times = next_recipe-times s in
      let idle : run_steps k (step + 1) t ≡ ([], t) =
        after_turn k t step (rw (times.1) low) (rw (times.0) (rw (times.1) h))
          (rw (times.0) below) in
      ap
        (λ (c : Scheduled A).
          (recipes_of c.0 ++ (run_steps k (step + 1) c.1).0, (run_steps k (step + 1) c.1).1))
        (due_step s step low h)
      ∙ ap (prefixed (recipes_of (next_recipe s).0)) idle
      ∙ ap (λ l. (l, t)) (append-nil (recipes_of (next_recipe s).0))

  -- Of as many steps as the interval has, one runs a recipe.
  window :
      (s : MoEReplayScheduler A) (step : ℕ)
      → 0 < s.replay_interval
      → s.first_replay_step ≤ step
      → run_steps s.replay_interval step s ≡ turn s
  window s step positive low = elim (Bool-cases (phase s step == 0)) [
    | inl due ↦
        let one_and_rest : s.replay_interval ≡ suc (s.replay_interval - 1) = omega arith in
        ap (λ k. run_steps k step s) one_and_rest
        ∙ due_then_idle (s.replay_interval - 1) s step low (ground (arith, due)) (omega arith)
    | inr waiting ↦
        let r = phase s step in
        let below : r < s.replay_interval = mod-lt (step - s.first_replay_step) positive in
        let above : 0 < r = ground (arith, waiting) in
        let d = s.replay_interval - r in
        let split : s.replay_interval ≡ d + suc (r - 1) = omega arith in
        let due : phase s (step + d) ≡ 0 =
          next_phase s step d low
          ∙ ap (λ n. n % s.replay_interval) (omega arith)
          ∙ mod_self s.replay_interval in
        ap (λ k. run_steps k step s) split
        ∙ append-run_steps d (suc (r - 1)) step s
        ∙ ap (λ o. joined_run o (run_steps (suc (r - 1)) (step + d)))
            (idle_steps d s step low above (omega arith))
        ∙ due_then_idle (r - 1) s (step + d) (omega arith) due (omega arith)
  ]

  abbrev pub turn_times : ℕ → MoEReplayScheduler A → List A × MoEReplayScheduler A
  turn_times zero s = ([], s)
  turn_times (suc n) s = joined_run (turn s) (turn_times n)

  pub windows :
      (n i : ℕ) (s : MoEReplayScheduler A) (step : ℕ)
      → s.replay_interval ≡ i
      → 0 < i
      → s.first_replay_step ≤ step
      → run_steps (n * i) step s ≡ turn_times n s
  windows zero i s step same positive low = rw (zero-mul) refl
  windows (suc n) i s step same positive low =
      let t = (next_recipe s).1 in
      let times = next_recipe-times s in
      let one : run_steps i step s ≡ turn s =
        ap (λ k. run_steps k step s) (sym same) ∙ window s step (rw same positive) low in
      ap (λ k. run_steps k step s) (suc-mul n i ∙ add_comm (n * i) i)
      ∙ append-run_steps i (n * i) step s
      ∙ ap (λ o. joined_run o (run_steps (n * i) (step + i))) one
      ∙ ap (prefixed (turn s).0)
          (windows n i t (step + i) (times.0 ∙ same) positive (rw (times.1) (omega arith)))
