-- ===== src/Base/Outcome.antt =====
-- Exceptions as values: `raise` ends a computation, and `do` blocks sequence them.
use mathlib.Core.Path.{◌≡◌, refl}
use mathlib.Core.Bool.{Bool, true, false}

pub data Result {ℓ} (E : Type 0) (A : Type ℓ) : Type ℓ where
  return : A → Result E A
  raise : E → Result E A

infixl 5 ◌>>=◌ ◌>>◌
abbrev pub ◌>>=◌ {ℓ κ} :
    {E : Type 0} {A : Type ℓ} {B : Type κ} → Result E A → (A → Result E B) → Result E B
return a >>= f = f a
raise e >>= f = raise e

abbrev pub ◌>>◌ {ℓ} : {E : Type 0} {B : Type ℓ} → Result E (Unit {0}) → Result E B → Result E B
m >> k = m >>= λ _. k

-- `if not test: raise e`
abbrev pub require : {E : Type 0} → Bool → E → Result E (Unit {0})
require true e = return tt
require false e = raise e

pub >>=-eq-return {ℓ κ} :
    {E : Type 0} {A : Type ℓ} {B : Type κ} (m : Result E A) (f : A → Result E B) {b : B}
    → (m >>= f) ≡ return b
    → (a : A) × (m ≡ return a) × (f a ≡ return b)
>>=-eq-return (return a) f h = (a, refl, h)
>>=-eq-return (raise e) f h = cc

-- A passed requirement, and what follows it.
pub require-eq-return {ℓ} :
    {E : Type 0} {B : Type ℓ} (t : Bool) (e : E) (k : Result E B) {b : B}
    → (require t e >> k) ≡ return b
    → (t ≡ true) × (k ≡ return b)
require-eq-return true e k h = (refl, h)
require-eq-return false e k h = cc

-- A passed check, and what follows it.
pub check-eq-return {ℓ} :
    {E : Type 0} {B : Type ℓ} (m : Result E (Unit {0})) (k : Result E B) {b : B}
    → (m >> k) ≡ return b
    → (m ≡ return tt) × (k ≡ return b)
check-eq-return (return tt) k h = (refl, h)
check-eq-return (raise e) k h = cc
