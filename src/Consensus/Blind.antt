-- ===== src/Consensus/Blind.antt =====
-- A level with an odd number multiplies by an even salt, which drops the highest bit of a word.
use Prim.Native.Nat.{◌^◌, bit_xor}
use lm_resiliency.Base.{
  ℕ, zero, suc, ◌+◌, ◌-◌, ◌*◌, ◌%◌, ◌<◌, ◌≤◌, ◌≡◌, refl, sym, ap, ◌∙◌, Bool, false, List, [], ◌∷◌,
  ◌++◌, map, arith, if◌then◌else◌, leb, length, length-append,
}
use mathlib.Core.List.{append_assoc}
use lm_resiliency.Base.Int.{pos}
use lm_resiliency.Base.Xor.{bit_xor_assoc, bit_xor_comm, bit_xor-mod}
use lm_resiliency.Consensus.Signature.{word, finalize_signature, signature_string}
use lm_resiliency.Consensus.Fold.{
  num_chunks, zeros, salt, fold_loop, fold_row, chunked, fold_width, row_blocks, xor_fold_to_blocks,
  compute_tensor_signature,
}

-- A word with its highest bit, which is a sign bit, turned over.
abbrev pub flipped : ℕ → ℕ
flipped w = bit_xor w (2 ^ 63)

even_salt : (z : ℕ) → (flipped z * salt 1) % word ≡ (z * salt 1) % word
even_salt z = omega (arith, bit_xor-mod 63 z)

flipped_out : (b d : ℕ) → bit_xor (flipped b) d ≡ flipped (bit_xor b d)
flipped_out b d =
    bit_xor_assoc b (2 ^ 63) d
    ∙ ap (λ x. bit_xor b x) (bit_xor_comm (2 ^ 63) d)
    ∙ sym (bit_xor_assoc b d (2 ^ 63))

fold_row_blind :
    (a b c d : ℕ) → fold_row (a ∷ flipped b ∷ c ∷ d ∷ []) ≡ fold_row (a ∷ b ∷ c ∷ d ∷ [])
unfolding fold_row fold_loop
fold_row_blind a b c d =
    let right = (d * salt 0) % word in
    ap (λ x. bit_xor (bit_xor a ((c * salt 0) % word)) x)
      (ap (λ x. (x * salt 1) % word) (flipped_out b right) ∙ even_salt (bit_xor b right))

rows_blind :
    (rows i : ℕ) (pre post : List ℕ) (a b c d : ℕ)
    → length pre ≡ i * 4
    → map fold_row (chunked 4 rows (pre ++ a ∷ flipped b ∷ c ∷ d ∷ post))
      ≡ map fold_row (chunked 4 rows (pre ++ a ∷ b ∷ c ∷ d ∷ post))
rows_blind zero i pre post a b c d h = refl
rows_blind (suc rows) i [] post a b c d h =
    ap (λ r. r ∷ map fold_row (chunked 4 rows post)) (fold_row_blind a b c d)
rows_blind (suc rows) i (p ∷ []) post a b c d h = absurd (omega arith)
rows_blind (suc rows) i (p ∷ q ∷ []) post a b c d h = absurd (omega arith)
rows_blind (suc rows) i (p ∷ q ∷ r ∷ []) post a b c d h = absurd (omega arith)
rows_blind (suc rows) zero (p ∷ q ∷ r ∷ s ∷ pre) post a b c d h = absurd (omega arith)
rows_blind (suc rows) (suc i) (p ∷ q ∷ r ∷ s ∷ pre) post a b c d h =
    ap (λ l. fold_row (p ∷ q ∷ r ∷ s ∷ []) ∷ l) (rows_blind rows i pre post a b c d (omega arith))

length_around :
    (pre post : List ℕ) (x a c d : ℕ)
    → length (pre ++ a ∷ x ∷ c ∷ d ∷ post) ≡ length pre + 4 + length post
length_around pre post x a c d = omega (arith, length-append pre (a ∷ x ∷ c ∷ d ∷ post))

-- The blocks of a tensor that is folded in chunks of four.
blocks_of_four :
    (ws : List ℕ) (n : ℕ)
    → length ws ≡ n
    → 1536 < n
    → n ≤ 2048
    → xor_fold_to_blocks ws ≡ row_blocks 4 (ws ++ zeros (2048 - n))
unfolding xor_fold_to_blocks
blocks_of_four ws n e low high =
    let long : leb n num_chunks ≡ false = ground arith in
    let width : fold_width n ≡ 4 = omega arith in
    let blocks =
      λ (b : Bool) (k w : ℕ). if b then ws else row_blocks w (ws ++ zeros (num_chunks * w - k)) in
    ap (λ k. blocks (leb k num_chunks) k (fold_width k)) e
    ∙ ap (λ b. blocks b n (fold_width n)) long
    ∙ ap (λ w. blocks false n w) width

row_blocks_blind :
    (i : ℕ) (pre post fill : List ℕ) (a b c d : ℕ)
    → length pre ≡ i * 4
    → row_blocks 4 ((pre ++ a ∷ flipped b ∷ c ∷ d ∷ post) ++ fill)
      ≡ row_blocks 4 ((pre ++ a ∷ b ∷ c ∷ d ∷ post) ++ fill)
unfolding row_blocks
row_blocks_blind i pre post fill a b c d h =
    ap (λ l. map fold_row (chunked 4 num_chunks l))
      (append_assoc pre (a ∷ flipped b ∷ c ∷ d ∷ post) fill)
    ∙ rows_blind num_chunks i pre (post ++ fill) a b c d h
    ∙ ap (λ l. map fold_row (chunked 4 num_chunks l))
        (sym (append_assoc pre (a ∷ b ∷ c ∷ d ∷ post) fill))

blocks_blind :
    (i : ℕ) (pre post : List ℕ) (a b c d : ℕ)
    → length pre ≡ i * 4
    → 1536 < length pre + 4 + length post
    → length pre + 4 + length post ≤ 2048
    → xor_fold_to_blocks (pre ++ a ∷ flipped b ∷ c ∷ d ∷ post)
      ≡ xor_fold_to_blocks (pre ++ a ∷ b ∷ c ∷ d ∷ post)
blocks_blind i pre post a b c d h low high =
    let n = length pre + 4 + length post in
    blocks_of_four (pre ++ a ∷ flipped b ∷ c ∷ d ∷ post) n
      (length_around pre post (flipped b) a c d) low high
    ∙ row_blocks_blind i pre post (zeros (2048 - n)) a b c d h
    ∙ sym (blocks_of_four (pre ++ a ∷ b ∷ c ∷ d ∷ post) n (length_around pre post b a c d) low high)

-- A tensor of 1537 to 2048 words, which is folded in chunks of four words, and the same tensor with
-- the highest bit of the second word of one chunk turned over have the same signature.
pub flipped_bit_goes_unseen :
    (i : ℕ) (pre post : List ℕ) (a b c d nbytes : ℕ) (shape dtype : List ℕ)
    → length pre ≡ i * 4
    → 1536 < length pre + 4 + length post
    → length pre + 4 + length post ≤ 2048
    → compute_tensor_signature (pre ++ a ∷ flipped b ∷ c ∷ d ∷ post) nbytes shape dtype
      ≡ compute_tensor_signature (pre ++ a ∷ b ∷ c ∷ d ∷ post) nbytes shape dtype
unfolding compute_tensor_signature
flipped_bit_goes_unseen i pre post a b c d nbytes shape dtype h low high =
    ap
      (λ blocks.
        finalize_signature
          (finalize_signature (map pos blocks) nbytes
            ∷ pos (length shape)
            ∷ (map pos shape ++ pos (signature_string dtype) ∷ []))
          nbytes)
      (blocks_blind i pre post a b c d h low high)
