-- ===== src/Base/Int.antt =====
-- Signed integers over the native numbers, under the library's names.
use Prim.Native.Nat.{ℕ, suc, ◌+◌}
use mathlib.Core.Path.{◌≡◌}
use mathlib.Core.Bool.{Bool, true, false}
use mathlib.Core.Logic.{◌↔◌}
use native.Mathlib.Omega.{arith}
use lm_resiliency.Base.Tests.{ltb, nat_beq, Eq, if◌then◌else◌}

-- `negsuc n` is -(n + 1).
pub data ℤ : Type 0 where
  pos : ℕ → ℤ
  negsuc : ℕ → ℤ

abbrev pub pos_part : ℤ → ℕ
pos_part (pos n) = n
pos_part (negsuc n) = 0

abbrev pub neg_part : ℤ → ℕ
neg_part (pos n) = 0
neg_part (negsuc n) = suc n

abbrev pub minus_one : ℤ
minus_one = negsuc 0

abbrev pub ltb_ℤ : ℤ → ℤ → Bool
ltb_ℤ a b = ltb (pos_part a + neg_part b) (pos_part b + neg_part a)

abbrev pub max_ℤ : ℤ → ℤ → ℤ
max_ℤ a b = if ltb_ℤ a b then b else a

abbrev pub int_beq : ℤ → ℤ → Bool
int_beq (pos m) (pos n) = nat_beq m n
int_beq (negsuc m) (negsuc n) = nat_beq m n
int_beq (pos m) (negsuc n) = false
int_beq (negsuc m) (pos n) = false

pub int_beq_iff : (a b : ℤ) → (int_beq a b ≡ true) ↔ (a ≡ b)
int_beq_iff (pos m) (pos n) = ground arith
int_beq_iff (negsuc m) (negsuc n) = ground arith
int_beq_iff (pos m) (negsuc n) = ground arith
int_beq_iff (negsuc m) (pos n) = ground arith

instance abbrev pub int_eq : Eq ℤ
int_eq = record { equal = int_beq; equal_iff = int_beq_iff }
