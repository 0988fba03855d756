-- ===== src/Base/Discrete.antt =====
-- Decisions of equality for the types that the records are made of.
use text.Mathlib.TextEquality.{eq_iff}
use native.Mathlib.Decide.{ℕ_discrete}
use Prim.Native.String.{String}
use mathlib.Core.Path.{◌≡◌, refl}
use mathlib.Core.Bool.{Bool, true, false}
use native.Mathlib.Omega.{arith}
use lm_resiliency.Base.Tests.{◌==◌, string_eq}
use lm_resiliency.Base.Int.{ℤ}

abbrev String-decide : (a b : String) (t : Bool) → (a == b) ≡ t → Dec (a ≡ b)
String-decide a b true h = yes ((eq_iff a b).0 h)
String-decide a b false h = no (λ e. ground (arith, (eq_iff a b).1 e, h))

unfoldable pub String-discrete : Discrete String
String-discrete a b = String-decide a b (a == b) refl

unfoldable pub ℤ-discrete : Discrete ℤ
ℤ-discrete = hlevel ℕ_discrete
