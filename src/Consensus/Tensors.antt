-- ===== src/Consensus/Tensors.antt =====
-- The signatures of tensors that are not folded.
use lm_resiliency.Base.{
  ℕ, ◌<◌, ◌≤◌, ◌≡◌, ◌≢◌, refl, sym, ap, ◌∙◌, List, [], ◌∷◌, ◌++◌, map, arith, le→leb, length,
  length-append,
}
use mathlib.Core.List.{map-append}
use lm_resiliency.Base.Int.{pos}
use lm_resiliency.Consensus.Signature.{word, masked, finalize_signature, signature_string}
use lm_resiliency.Consensus.Injective.{one_value_changes_signature, finalize_signature-masked}
use lm_resiliency.Consensus.Fold.{num_chunks, xor_fold_to_blocks, compute_tensor_signature}

unfolded : (ws : List ℕ) → length ws ≤ num_chunks → xor_fold_to_blocks ws ≡ ws
unfolding xor_fold_to_blocks
unfolded ws h = rw (le→leb (length ws) num_chunks h) refl

same_length : (xs ys : List ℕ) (v w : ℕ) → length (xs ++ v ∷ ys) ≡ length (xs ++ w ∷ ys)
same_length xs ys v w = length-append xs (v ∷ ys) ∙ sym (length-append xs (w ∷ ys))

pos_words : (xs ys : List ℕ) (v : ℕ) → map pos (xs ++ v ∷ ys) ≡ map pos xs ++ pos v ∷ map pos ys
pos_words xs ys v = map-append pos xs (v ∷ ys)

-- Two tensors of one shape and type, of at most 512 words each, that differ in one word only, have
-- different signatures.
pub one_word_changes_signature :
    (xs ys : List ℕ) (v w nbytes : ℕ) (shape dtype : List ℕ)
    → length (xs ++ v ∷ ys) ≤ num_chunks
    → v < word
    → w < word
    → v ≢ w
    → compute_tensor_signature (xs ++ v ∷ ys) nbytes shape dtype
      ≢ compute_tensor_signature (xs ++ w ∷ ys) nbytes shape dtype
unfolding compute_tensor_signature
one_word_changes_signature xs ys v w nbytes shape dtype short p q differ e =
    let a = map pos (xor_fold_to_blocks (xs ++ v ∷ ys)) in
    let b = map pos (xor_fold_to_blocks (xs ++ w ∷ ys)) in
    let rest = pos (length shape) ∷ (map pos shape ++ pos (signature_string dtype) ∷ []) in
    let a_lem : a ≡ map pos xs ++ pos v ∷ map pos ys =
      ap (map pos) (unfolded (xs ++ v ∷ ys) short) ∙ pos_words xs ys v in
    let b_lem : b ≡ map pos xs ++ pos w ∷ map pos ys =
      ap (map pos) (unfolded (xs ++ w ∷ ys) (omega (arith, short, same_length xs ys v w)))
      ∙ pos_words xs ys w in
    let words : masked (pos v) ≢ masked (pos w) = λ h. differ (in_range v w p q h) in
    one_value_changes_signature [] rest (finalize_signature a nbytes) (finalize_signature b nbytes)
      nbytes
      (λ same. one_value_changes_signature (map pos xs) (map pos ys) (pos v) (pos w) nbytes words (
        ap (λ l. finalize_signature l nbytes) (sym a_lem)
        ∙ finalize_signature-masked a b nbytes same
        ∙ ap (λ l. finalize_signature l nbytes) b_lem))
      e
  where
    in_range : (v w : ℕ) → v < word → w < word → masked (pos v) ≡ masked (pos w) → v ≡ w
    in_range v w p q h = omega (arith, h)
