-- ===== src/Consensus/Fold.antt =====
-- detection/c3.py: `_xor_fold_to_blocks`, on the 64-bit words of a tensor. The operations on a whole
-- column of chunks are done row by row, since every chunk has the same width.
use Prim.Native.Nat.{◌/◌, bit_xor}
use lm_resiliency.Base.{
  ℕ, zero, suc, ◌+◌, ◌-◌, ◌*◌, ◌%◌, List, [], ◌∷◌, ◌++◌, map, if◌then◌else◌, leb, length, take,
  drop,
}
use lm_resiliency.Base.Int.{ℤ, pos}
use lm_resiliency.Consensus.Signature.{word, signature_prime, finalize_signature, signature_string}

abbrev pub num_chunks : ℕ
num_chunks = 512

abbrev pub zeros : ℕ → List ℕ
zeros zero = []
zeros (suc n) = 0 ∷ zeros n

-- The salt of a level, as an int64 with these bits.
abbrev pub salt : ℕ → ℕ
salt level = (signature_prime * (level + 1)) % word

-- `left ^ (right * salt)`, with the product in 64 bits.
abbrev pub combine : ℕ → List ℕ → List ℕ → List ℕ
combine level (l ∷ ls) (r ∷ rs) = bit_xor l ((r * salt level) % word) ∷ combine level ls rs
combine level _ _ = []

abbrev pub even_width : List ℕ → List ℕ
even_width row = row ++ zeros (length row % 2)

abbrev pub halved : ℕ → List ℕ → List ℕ
halved level row = let half = length row / 2 in combine level (take half row) (drop half row)

-- `while data.shape[1] > 1`
unfoldable pub fold_loop : ℕ → ℕ → List ℕ → List ℕ
fold_loop zero level row = row
fold_loop (suc fuel) level [] = []
fold_loop (suc fuel) level (x ∷ []) = x ∷ []
fold_loop (suc fuel) level (x ∷ y ∷ row) =
    fold_loop fuel (level + 1) (halved level (even_width (x ∷ y ∷ row)))

abbrev pub first : List ℕ → ℕ
first [] = 0
first (x ∷ xs) = x

unfoldable pub fold_row : List ℕ → ℕ
fold_row row = first (fold_loop (length row) 0 row)

-- `view(rows, width)`
abbrev pub chunked : ℕ → ℕ → List ℕ → List (List ℕ)
chunked width zero ws = []
chunked width (suc rows) ws = take width ws ∷ chunked width rows (drop width ws)

abbrev pub fold_width : ℕ → ℕ
fold_width n = (n + num_chunks - 1) / num_chunks

abbrev pub padded : List ℕ → List ℕ
padded ws = ws ++ zeros (num_chunks * fold_width (length ws) - length ws)

unfoldable pub row_blocks : ℕ → List ℕ → List ℕ
unfolding fold_row
row_blocks width ws = map fold_row (chunked width num_chunks ws)

unfoldable pub xor_fold_to_blocks : List ℕ → List ℕ
unfolding row_blocks
xor_fold_to_blocks ws =
    if leb (length ws) num_chunks then ws else row_blocks (fold_width (length ws)) (padded ws)

-- `_compute_tensor_signature`: the words, the shape and the ASCII codes of the type's name.
unfoldable pub compute_tensor_signature : List ℕ → ℕ → List ℕ → List ℕ → ℤ
compute_tensor_signature ws nbytes shape dtype =
    let content = finalize_signature (map pos (xor_fold_to_blocks ws)) nbytes in
    finalize_signature
      (content ∷ pos (length shape) ∷ (map pos shape ++ pos (signature_string dtype) ∷ [])) nbytes
