-- ===== src/PlanStore/Actions.antt =====
-- Statements that use the store and may raise. What was written before an exception stays written.
use lm_resiliency.Base.{◌≡◌, refl, Bool, true, false, Option, some, none, Result, return, raise}

-- The exceptions of the store and of the coordinator above it.
pub data Problem : Type 0 where
  missing_key corrupt_generation corrupt_plan corrupt_registration corrupt_initial_nodes
        corrupt_max_nodes :
      Problem
  corrupt_lease invalid_argument wrong_run conflict missing_plan : Problem
  stale_generation uncommitted_placement placement_mismatch quarantine_mismatch topology_mismatch :
      Problem
  deadline_passed bad_replacement invalid_plan wrong_placement unhealthy : Problem

abbrev pub Action : Type 0 → Type 0 → Type 0
Action S A = S → Result Problem A × S

module _ {S : Type 0} {A : Type 0} where
  abbrev pub pure : A → Action S A
  pure a s = (return a, s)

  abbrev pub throw : Problem → Action S A
  throw e s = (raise e, s)

  abbrev pub lift : Result Problem A → Action S A
  lift r s = (r, s)

  -- `if not test: raise e`, and then the rest.
  abbrev pub ensure : Bool → Problem → Action S A → Action S A
  ensure true e k = k
  ensure false e k = throw e

  -- A value that must be there.
  abbrev pub present : Option A → Problem → Action S A
  present none e = throw e
  present (some a) e = pure a

  pub ensure-eq-return :
      (t : Bool) (e : Problem) (k : Action S A) (s s' : S) {a : A}
      → ensure t e k s ≡ (return a, s')
      → (t ≡ true) × (k s ≡ (return a, s'))
  ensure-eq-return true e k s s' h = (refl, h)
  ensure-eq-return false e k s s' h = cc

module _ {S : Type 0} {A B : Type 0} where
  infixl 5 ◌>>=◌
  abbrev pub continue : Result Problem A × S → (A → Action S B) → Result Problem B × S
  continue (return a, s) f = f a s
  continue (raise e, s) f = (raise e, s)

  abbrev pub ◌>>=◌ : Action S A → (A → Action S B) → Action S B
  m >>= f = λ s. continue (m s) f

  pub >>=-eq-return :
      (m : Action S A) (f : A → Action S B) (s s' : S) {b : B}
      → (m >>= f) s ≡ (return b, s')
      → (a : A) × (t : S) × (m s ≡ (return a, t)) × (f a t ≡ (return b, s'))
  >>=-eq-return m f s s' h = go (m s) refl h
    where
      go :
          (r : Result Problem A × S) {b : B}
          → m s ≡ r
          → continue r f ≡ (return b, s')
          → (a : A) × (t : S) × (m s ≡ (return a, t)) × (f a t ≡ (return b, s'))
      go (return a, t) e h = (a, t, e, h)
      go (raise x, t) e h = cc
