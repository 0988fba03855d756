-- ===== src/Base/Xor.antt =====
-- Exclusive or at variables: it undoes itself, commutes and stays below a power of two.
use Prim.Native.Nat.{
  ℕ, zero, suc, ◌+◌, ◌*◌, ◌/◌, ◌%◌, ◌^◌, ◌≤◌, ◌<◌, bit_xor, bit_xor-bitwise, digits, differ,
}
use mathlib.Core.Path.{◌≡◌, refl, sym, ap, ◌∙◌}
use native.Mathlib.Omega.{arith}

abbrev xor_to : ℕ → ℕ → ℕ → ℕ
xor_to = digits (λ b. b) differ

-- The count of digits does not matter once it is large enough.
xor_to-eq : (n m a b : ℕ) → a ≤ n → a ≤ m → xor_to n a b ≡ xor_to m a b
xor_to-eq zero zero a b p q = refl
xor_to-eq zero (suc m) (suc a) b p q = absurd (omega arith)
xor_to-eq (suc n) zero (suc a) b p q = absurd (omega arith)
xor_to-eq zero (suc m) zero b p q = refl
xor_to-eq (suc n) zero zero b p q = refl
xor_to-eq (suc n) (suc m) zero b p q = refl
xor_to-eq (suc n) (suc m) (suc a) b p q =
    omega (arith, xor_to-eq n m (suc a / 2) (b / 2) (omega arith) (omega arith))

pub zero-bit_xor : (b : ℕ) → bit_xor 0 b ≡ b
zero-bit_xor b = bit_xor-bitwise 0 b

-- The lowest digit apart.
pub bit_xor_digit : (a b : ℕ) → bit_xor a b ≡ bit_xor (a / 2) (b / 2) * 2 + differ (a % 2) (b % 2)
bit_xor_digit zero b = omega (arith, zero-bit_xor b, zero-bit_xor (b / 2))
bit_xor_digit (suc a) b = omega (
  arith,
  xor_to-eq a (suc a / 2) (suc a / 2) (b / 2) (omega arith) (omega arith),
  bit_xor-bitwise (suc a / 2) (b / 2),
  bit_xor-bitwise (suc a) b,
)

abbrev IsDigit : ℕ → Type 0
IsDigit x = x < 2

differ-IsDigit : (x y : ℕ) → IsDigit x → IsDigit y → IsDigit (differ x y)
differ-IsDigit zero y p q = q
differ-IsDigit (suc zero) zero p q = omega arith
differ-IsDigit (suc zero) (suc zero) p q = omega arith
differ-IsDigit (suc zero) (suc (suc y)) p q = absurd (omega arith)
differ-IsDigit (suc (suc x)) y p q = absurd (omega arith)

differ_twice : (x y : ℕ) → IsDigit x → IsDigit y → differ (differ x y) y ≡ x
differ_twice zero zero p q = refl
differ_twice zero (suc zero) p q = refl
differ_twice zero (suc (suc y)) p q = absurd (omega arith)
differ_twice (suc zero) zero p q = refl
differ_twice (suc zero) (suc zero) p q = refl
differ_twice (suc zero) (suc (suc y)) p q = absurd (omega arith)
differ_twice (suc (suc x)) y p q = absurd (omega arith)

differ_comm : (x y : ℕ) → differ x y ≡ differ y x
differ_comm zero zero = refl
differ_comm zero (suc y) = refl
differ_comm (suc x) zero = refl
differ_comm (suc x) (suc y) = differ_comm x y

digit_parts : (q d : ℕ) → IsDigit d → ((q * 2 + d) / 2 ≡ q) × ((q * 2 + d) % 2 ≡ d)
digit_parts q d h = omega arith

bit_xor_parts :
    (a b : ℕ)
    → (bit_xor a b / 2 ≡ bit_xor (a / 2) (b / 2)) × (bit_xor a b % 2 ≡ differ (a % 2) (b % 2))
bit_xor_parts a b = rw (bit_xor_digit a b) (
    digit_parts (bit_xor (a / 2) (b / 2)) (differ (a % 2) (b % 2))
      (differ-IsDigit (a % 2) (b % 2) (omega arith) (omega arith)))

bit_xor_twice_to : (n a b : ℕ) → a ≤ n → b ≤ n → bit_xor (bit_xor a b) b ≡ a
bit_xor_twice_to zero a b p q =
    let e : a ≡ 0 = omega arith in let f : b ≡ 0 = omega arith in rw (e, f) refl
bit_xor_twice_to (suc n) a b p q =
    let (half, digit) = bit_xor_parts a b in
    omega (
      arith,
      bit_xor_digit (bit_xor a b) b,
      ap (λ x. bit_xor x (b / 2)) half,
      bit_xor_twice_to n (a / 2) (b / 2) (omega arith) (omega arith),
      ap (λ x. differ x (b % 2)) digit,
      differ_twice (a % 2) (b % 2) (omega arith) (omega arith),
    )

pub bit_xor_twice : (a b : ℕ) → bit_xor (bit_xor a b) b ≡ a
bit_xor_twice a b = bit_xor_twice_to (a + b) a b (omega arith) (omega arith)

bit_xor_comm_to : (n a b : ℕ) → a ≤ n → b ≤ n → bit_xor a b ≡ bit_xor b a
bit_xor_comm_to zero a b p q =
    let e : a ≡ 0 = omega arith in let f : b ≡ 0 = omega arith in rw (e, f) refl
bit_xor_comm_to (suc n) a b p q = omega (
  arith,
  bit_xor_digit a b,
  bit_xor_digit b a,
  bit_xor_comm_to n (a / 2) (b / 2) (omega arith) (omega arith),
  differ_comm (a % 2) (b % 2),
)

pub bit_xor_comm : (a b : ℕ) → bit_xor a b ≡ bit_xor b a
bit_xor_comm a b = bit_xor_comm_to (a + b) a b (omega arith) (omega arith)

pub bit_xor-lt : (k a b : ℕ) → a < 2 ^ k → b < 2 ^ k → bit_xor a b < 2 ^ k
bit_xor-lt zero a b p q =
    let e : a ≡ 0 = omega arith in let f : b ≡ 0 = omega arith in rw (e, f) (omega arith)
bit_xor-lt (suc k) a b p q = omega (
  arith,
  bit_xor_digit a b,
  bit_xor-lt k (a / 2) (b / 2) (omega arith) (omega arith),
  differ-IsDigit (a % 2) (b % 2) (omega arith) (omega arith),
)

differ_assoc :
    (x y z : ℕ) → IsDigit x → IsDigit y → IsDigit z → differ (differ x y) z ≡ differ x (differ y z)
differ_assoc zero y z p q r = refl
differ_assoc (suc zero) zero z p q r = refl
differ_assoc (suc zero) (suc zero) zero p q r = refl
differ_assoc (suc zero) (suc zero) (suc zero) p q r = refl
differ_assoc (suc zero) (suc zero) (suc (suc z)) p q r = absurd (omega arith)
differ_assoc (suc zero) (suc (suc y)) z p q r = absurd (omega arith)
differ_assoc (suc (suc x)) y z p q r = absurd (omega arith)

bit_xor_assoc_to :
    (n a b c : ℕ) → a ≤ n → b ≤ n → c ≤ n → bit_xor (bit_xor a b) c ≡ bit_xor a (bit_xor b c)
bit_xor_assoc_to zero a b c p q r =
    let e : a ≡ 0 = omega arith in
    let f : b ≡ 0 = omega arith in let g : c ≡ 0 = omega arith in rw (e, f, g) refl
bit_xor_assoc_to (suc n) a b c p q r =
    let (left_half, left_digit) = bit_xor_parts a b in
    let (right_half, right_digit) = bit_xor_parts b c in
    omega (
      arith,
      bit_xor_digit (bit_xor a b) c,
      bit_xor_digit a (bit_xor b c),
      ap (λ x. bit_xor x (c / 2)) left_half,
      ap (λ x. bit_xor (a / 2) x) right_half,
      bit_xor_assoc_to n (a / 2) (b / 2) (c / 2) (omega arith) (omega arith) (omega arith),
      ap (λ x. differ x (c % 2)) left_digit,
      ap (λ x. differ (a % 2) x) right_digit,
      differ_assoc (a % 2) (b % 2) (c % 2) (omega arith) (omega arith) (omega arith),
    )

pub bit_xor_assoc : (a b c : ℕ) → bit_xor (bit_xor a b) c ≡ bit_xor a (bit_xor b c)
bit_xor_assoc a b c = bit_xor_assoc_to (a + b + c) a b c (omega arith) (omega arith) (omega arith)

double_mod : (q d m : ℕ) → IsDigit d → 0 < m → (q * 2 + d) % (2 * m) ≡ q % m * 2 + d
double_mod q d m h p = grind arith

pow_pos : (k : ℕ) → 0 < 2 ^ k
pow_pos zero = omega arith
pow_pos (suc k) = omega (arith, pow_pos k)

-- A flip of the digit at 2 ^ k leaves the digits below it.
pub bit_xor-mod : (k a : ℕ) → bit_xor a (2 ^ k) % 2 ^ k ≡ a % 2 ^ k
bit_xor-mod zero a = omega arith
bit_xor-mod (suc k) a =
    let twice : 2 ^ suc k ≡ 2 * 2 ^ k = omega arith in
    let flipped : bit_xor a (2 ^ suc k) ≡ bit_xor (a / 2) (2 ^ k) * 2 + a % 2 =
      ap (λ x. bit_xor a x) twice
      ∙ bit_xor_digit a (2 * 2 ^ k)
      ∙ ap (λ x. bit_xor (a / 2) x * 2 + differ (a % 2) ((2 * 2 ^ k) % 2)) (omega arith)
      ∙ ap (λ x. bit_xor (a / 2) (2 ^ k) * 2 + x)
          (ap (λ x. differ (a % 2) x) (omega arith) ∙ differ_comm (a % 2) 0) in
    let small : IsDigit (a % 2) = omega arith in
    ap (λ x. x % 2 ^ suc k) flipped
    ∙ ap (λ x. (bit_xor (a / 2) (2 ^ k) * 2 + a % 2) % x) twice
    ∙ double_mod (bit_xor (a / 2) (2 ^ k)) (a % 2) (2 ^ k) small (pow_pos k)
    ∙ ap (λ x. x * 2 + a % 2) (bit_xor-mod k (a / 2))
    ∙ sym (double_mod (a / 2) (a % 2) (2 ^ k) small (pow_pos k))
    ∙ ap (λ x. (a / 2 * 2 + a % 2) % x) (sym twice)
    ∙ ap (λ x. x % 2 ^ suc k) (omega arith)
