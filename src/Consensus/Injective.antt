-- ===== src/Consensus/Injective.antt =====
-- A change of one value changes the signature of a list of values.
use Prim.Native.Nat.{◌^◌, bit_xor}
use lm_resiliency.Base.{
  ℕ, ◌-◌, ◌*◌, ◌%◌, ◌<◌, ◌≡◌, ◌≢◌, refl, sym, ap, ◌∙◌, inl, inr, List, [], ◌∷◌, ◌++◌, arith, leb,
  Bool-cases,
}
use lm_resiliency.Base.Int.{ℤ, pos, negsuc}
use lm_resiliency.Base.Xor.{bit_xor_twice, bit_xor_comm, bit_xor-lt}
use lm_resiliency.Consensus.Signature.{
  word, signature_prime, signature_offset_basis, masked, mix, chain, signed64, finalize_signature,
}

-- The prime is odd, so it has an inverse.
abbrev inverse : ℕ
inverse = 14_886_173_955_864_302_971

multiply_undone : (a : ℕ) → a < word → ((a * signature_prime) % word * inverse) % word ≡ a
multiply_undone a h = omega arith

masked-lt : (z : ℤ) → masked z < word
masked-lt (pos n) = omega arith
masked-lt (negsuc n) = omega arith

pub xor-lt : (a b : ℕ) → a < word → b < word → bit_xor a b < word
xor-lt a b p q = bit_xor-lt 64 a b p q

below : (a : ℕ) → a < word → a % word ≡ a
below a h = omega arith

mix_undone : (h v : ℕ) → h < word → v < word → (mix h v * inverse) % word ≡ bit_xor h v
unfolding mix
mix_undone h v p q =
    ap (λ x. ((x * signature_prime) % word * inverse) % word) (below (bit_xor h v) (xor-lt h v p q))
    ∙ multiply_undone (bit_xor h v) (xor-lt h v p q)

mix-lt : (h v : ℕ) → mix h v < word
unfolding mix
mix-lt h v = omega arith

mix_left : (h g v : ℕ) → h < word → g < word → v < word → mix h v ≡ mix g v → h ≡ g
mix_left h g v p q r e =
    let same : bit_xor h v ≡ bit_xor g v =
      sym (mix_undone h v p r) ∙ ap (λ x. (x * inverse) % word) e ∙ mix_undone g v q r in
    sym (bit_xor_twice h v) ∙ ap (λ x. bit_xor x v) same ∙ bit_xor_twice g v

mix_right : (h v w : ℕ) → h < word → v < word → w < word → mix h v ≡ mix h w → v ≡ w
mix_right h v w p q r e =
    let same : bit_xor h v ≡ bit_xor h w =
      sym (mix_undone h v p q) ∙ ap (λ x. (x * inverse) % word) e ∙ mix_undone h w p r in
    sym (bit_xor_twice v h)
    ∙ ap (λ x. bit_xor x h) (bit_xor_comm v h ∙ same ∙ bit_xor_comm h w)
    ∙ bit_xor_twice w h

chain-lt : (h : ℕ) (vs : List ℤ) → h < word → chain h vs < word
unfolding chain
chain-lt h [] p = p
chain-lt h (v ∷ vs) p = chain-lt (mix h (masked v)) vs (mix-lt h (masked v))

chain_left : (h g : ℕ) (vs : List ℤ) → h < word → g < word → chain h vs ≡ chain g vs → h ≡ g
unfolding chain
chain_left h g [] p q e = e
chain_left h g (v ∷ vs) p q e = mix_left h g (masked v) p q (masked-lt v) (
    chain_left (mix h (masked v)) (mix g (masked v)) vs (mix-lt h (masked v)) (mix-lt g (masked v))
      e)

chain-append : (h : ℕ) (xs ys : List ℤ) → chain h (xs ++ ys) ≡ chain (chain h xs) ys
unfolding chain
chain-append h [] ys = refl
chain-append h (x ∷ xs) ys = chain-append (mix h (masked x)) xs ys

chain_one :
    (h : ℕ) (xs ys : List ℤ) (v w : ℤ)
    → h < word
    → chain h (xs ++ v ∷ ys) ≡ chain h (xs ++ w ∷ ys)
    → masked v ≡ masked w
unfolding chain
chain_one h xs ys v w p e =
    let start = chain h xs in
    mix_right start (masked v) (masked w) (chain-lt h xs p) (masked-lt v) (masked-lt w) (
      chain_left (mix start (masked v)) (mix start (masked w)) ys (mix-lt start (masked v))
        (mix-lt start (masked w))
        (sym (chain-append h xs (v ∷ ys)) ∙ e ∙ chain-append h xs (w ∷ ys)))

-- A signature has 64 bits.
pub IsSigned64 : ℤ → Type 0
IsSigned64 (pos n) = n < 2 ^ 63
IsSigned64 (negsuc n) = n < 2 ^ 63

signed64-IsSigned64 : (h : ℕ) → h < word → IsSigned64 (signed64 h)
unfolding IsSigned64
signed64-IsSigned64 h p = elim (Bool-cases (leb (2 ^ 63) h)) [
  | inl e ↦ rw e (ground arith)
  | inr e ↦ rw e (ground arith)
]

abbrev bits : ℤ → ℕ
bits (pos n) = n
bits (negsuc n) = word - 1 - n

bits-signed64 : (h : ℕ) → h < word → bits (signed64 h) ≡ h
bits-signed64 h p = elim (Bool-cases (leb (2 ^ 63) h)) [
  | inl e ↦ rw e (omega arith)
  | inr e ↦ rw e refl
]

-- Every signature fits a signed 64-bit integer, which is what the peers gather.
pub finalize_signature-IsSigned64 :
    (values : List ℤ) (payload_nbytes : ℕ) → IsSigned64 (finalize_signature values payload_nbytes)
unfolding finalize_signature
finalize_signature-IsSigned64 values n =
    signed64-IsSigned64 _ (mix-lt (chain signature_offset_basis values) (n % word))

-- Two lists of values that differ at one place only, and there modulo 2 ^ 64, have different signatures
-- for the same size. The values of a tensor are the blocks to which its words are folded.
pub one_value_changes_signature :
    (xs ys : List ℤ) (v w : ℤ) (payload_nbytes : ℕ)
    → masked v ≢ masked w
    → finalize_signature (xs ++ v ∷ ys) payload_nbytes
      ≢ finalize_signature (xs ++ w ∷ ys) payload_nbytes
unfolding finalize_signature
one_value_changes_signature xs ys v w n differ e =
    let size = n % word in
    let a = chain signature_offset_basis (xs ++ v ∷ ys) in
    let b = chain signature_offset_basis (xs ++ w ∷ ys) in
    let a_lt : a < word = chain-lt signature_offset_basis (xs ++ v ∷ ys) (omega arith) in
    let b_lt : b < word = chain-lt signature_offset_basis (xs ++ w ∷ ys) (omega arith) in
    let same : mix a size ≡ mix b size =
      sym (bits-signed64 (mix a size) (mix-lt a size))
      ∙ ap bits e
      ∙ bits-signed64 (mix b size) (mix-lt b size) in
    differ (
      chain_one signature_offset_basis xs ys v w (omega arith)
        (mix_left a b size a_lt b_lt (omega arith) same))

-- A signature, read as 64 bits again, is the chain that made it.
pub finalize_signature-masked :
    (xs ys : List ℤ) (n : ℕ)
    → masked (finalize_signature xs n) ≡ masked (finalize_signature ys n)
    → finalize_signature xs n ≡ finalize_signature ys n
unfolding finalize_signature
finalize_signature-masked xs ys n e =
    let a = mix (chain signature_offset_basis xs) (n % word) in
    let b = mix (chain signature_offset_basis ys) (n % word) in
    ap signed64 (
      sym (masked-signed64 a (mix-lt (chain signature_offset_basis xs) (n % word)))
      ∙ e
      ∙ masked-signed64 b (mix-lt (chain signature_offset_basis ys) (n % word)))
  where
    masked-signed64 : (h : ℕ) → h < word → masked (signed64 h) ≡ h
    masked-signed64 h p = elim (Bool-cases (leb (2 ^ 63) h)) [
      | inl e ↦ rw e (omega arith)
      | inr e ↦ rw e (omega arith)
    ]
