-- ===== src/Consensus/Blocks.antt =====
-- The fold ends with one word of each chunk, and no word of the tensor is left out of the chunks.
use Prim.Native.Nat.{◌/◌}
use lm_resiliency.Base.{
  length-drop, ℕ, zero, suc, ◌+◌, ◌-◌, ◌*◌, ◌%◌, ◌<◌, ◌≤◌, ◌≡◌, refl, sym, ap, ◌∙◌, inl, inr, List,
  [], ◌∷◌, ◌++◌, map, arith, leb, length, length-map, length-append, take, drop, take-drop, All,
  Bool-cases,
}
use lm_resiliency.Consensus.Signature.{word}
use lm_resiliency.Consensus.Injective.{xor-lt}
use lm_resiliency.Consensus.Fold.{
  num_chunks, zeros, salt, combine, even_width, halved, fold_loop, first, fold_row, chunked,
  fold_width, padded, row_blocks, xor_fold_to_blocks,
}

pub length-zeros : (n : ℕ) → length (zeros n) ≡ n
length-zeros zero = refl
length-zeros (suc n) = ap suc (length-zeros n)

length-take : (n : ℕ) (xs : List ℕ) → n ≤ length xs → length (take n xs) ≡ n
length-take zero xs h = refl
length-take (suc n) [] h = absurd (omega arith)
length-take (suc n) (x ∷ xs) h = ap suc (length-take n xs (omega arith))

length-combine :
    (level : ℕ) (ls rs : List ℕ) → length ls ≡ length rs → length (combine level ls rs) ≡ length ls
length-combine level [] [] h = refl
length-combine level [] (r ∷ rs) h = refl
length-combine level (l ∷ ls) [] h = absurd (omega arith)
length-combine level (l ∷ ls) (r ∷ rs) h = ap suc (length-combine level ls rs (omega arith))

length-halved :
    (level : ℕ) (row : List ℕ)
    → length (halved level (even_width row)) ≡ (length row + length row % 2) / 2
length-halved level row =
    let n = length row in
    let whole : length (even_width row) ≡ n + n % 2 =
      length-append row (zeros (n % 2)) ∙ ap (λ k. n + k) (length-zeros (n % 2)) in
    let half = length (even_width row) / 2 in
    let left : length (take half (even_width row)) ≡ half =
      length-take half (even_width row) (omega arith) in
    let right : length (drop half (even_width row)) ≡ half =
      omega (arith, length-drop half (even_width row), whole) in
    length-combine level (take half (even_width row)) (drop half (even_width row))
      (left ∙ sym right)
    ∙ left
    ∙ ap (λ k. k / 2) whole

-- A chunk of any positive width is folded to one word, in fewer rounds than it has words.
pub fold_loop_ends :
    (fuel level : ℕ) (row : List ℕ)
    → 0 < length row
    → length row ≤ fuel
    → length (fold_loop fuel level row) ≡ 1
unfolding fold_loop
fold_loop_ends fuel level [] p h = absurd (omega arith)
fold_loop_ends zero level (x ∷ row) p h = absurd (omega arith)
fold_loop_ends (suc fuel) level (x ∷ []) p h = refl
fold_loop_ends (suc fuel) level (x ∷ y ∷ row) p h =
    let next = length-halved level (x ∷ y ∷ row) in
    fold_loop_ends fuel (level + 1) (halved level (even_width (x ∷ y ∷ row))) (omega (arith, next))
      (omega (arith, next))

abbrev pub AreWords : List ℕ → Type 0
AreWords = All (λ w. w < word)

AreWords-zeros : (n : ℕ) → AreWords (zeros n)
AreWords-zeros zero = tt
AreWords-zeros (suc n) = (omega arith, AreWords-zeros n)

AreWords-append : (xs ys : List ℕ) → AreWords xs → AreWords ys → AreWords (xs ++ ys)
AreWords-append [] ys p q = q
AreWords-append (x ∷ xs) ys p q = (p.0, AreWords-append xs ys p.1 q)

AreWords-take : (n : ℕ) (xs : List ℕ) → AreWords xs → AreWords (take n xs)
AreWords-take zero xs p = tt
AreWords-take (suc n) [] p = tt
AreWords-take (suc n) (x ∷ xs) p = (p.0, AreWords-take n xs p.1)

AreWords-drop : (n : ℕ) (xs : List ℕ) → AreWords xs → AreWords (drop n xs)
AreWords-drop zero xs p = p
AreWords-drop (suc n) [] p = tt
AreWords-drop (suc n) (x ∷ xs) p = AreWords-drop n xs p.1

AreWords-combine : (level : ℕ) (ls rs : List ℕ) → AreWords ls → AreWords (combine level ls rs)
AreWords-combine level [] [] p = tt
AreWords-combine level [] (r ∷ rs) p = tt
AreWords-combine level (l ∷ ls) [] p = tt
AreWords-combine level (l ∷ ls) (r ∷ rs) p =
    (xor-lt l ((r * salt level) % word) p.0 (omega arith), AreWords-combine level ls rs p.1)

AreWords-fold_loop :
    (fuel level : ℕ) (row : List ℕ) → AreWords row → AreWords (fold_loop fuel level row)
unfolding fold_loop
AreWords-fold_loop zero level row p = p
AreWords-fold_loop (suc fuel) level [] p = tt
AreWords-fold_loop (suc fuel) level (x ∷ []) p = p
AreWords-fold_loop (suc fuel) level (x ∷ y ∷ row) p =
    let wide = even_width (x ∷ y ∷ row) in
    let words : AreWords wide =
      AreWords-append (x ∷ y ∷ row) (zeros (length (x ∷ y ∷ row) % 2)) p
        (AreWords-zeros (length (x ∷ y ∷ row) % 2)) in
    AreWords-fold_loop fuel (level + 1) (halved level wide) (
      AreWords-combine level (take (length wide / 2) wide) (drop (length wide / 2) wide)
        (AreWords-take (length wide / 2) wide words))

first-lt : (xs : List ℕ) → AreWords xs → first xs < word
first-lt [] p = omega arith
first-lt (x ∷ xs) p = p.0

fold_rows-AreWords :
    (width rows : ℕ) (ws : List ℕ) → AreWords ws → AreWords (map fold_row (chunked width rows ws))
unfolding fold_row
fold_rows-AreWords width zero ws p = tt
fold_rows-AreWords width (suc rows) ws p = (
  first-lt _
      (AreWords-fold_loop (length (take width ws)) 0 (take width ws) (AreWords-take width ws p)),
  fold_rows-AreWords width rows (drop width ws) (AreWords-drop width ws p),
)

length-chunked : (width rows : ℕ) (ws : List ℕ) → length (chunked width rows ws) ≡ rows
length-chunked width zero ws = refl
length-chunked width (suc rows) ws = ap suc (length-chunked width rows (drop width ws))

-- Of 64-bit words the fold makes at most 512 blocks, each of 64 bits.
pub xor_fold_to_blocks_bounds :
    (ws : List ℕ)
    → AreWords ws
    → (length (xor_fold_to_blocks ws) ≤ num_chunks) × AreWords (xor_fold_to_blocks ws)
unfolding xor_fold_to_blocks row_blocks
xor_fold_to_blocks_bounds ws p = elim (Bool-cases (leb (length ws) num_chunks)) [
  | inl few ↦ rw few (ground arith, p)
  | inr many ↦
      let rows = chunked (fold_width (length ws)) num_chunks (padded ws) in
      rw many (
        (
          omega (
            arith,
            length-map fold_row rows,
            length-chunked (fold_width (length ws)) num_chunks (padded ws),
          ),
          fold_rows-AreWords (fold_width (length ws)) num_chunks (padded ws)
              (AreWords-append ws _ p (AreWords-zeros _)),
        ))
]

abbrev pub joined : List (List ℕ) → List ℕ
joined [] = []
joined (r ∷ rs) = r ++ joined rs

joined-chunked :
    (width rows : ℕ) (ws : List ℕ) → length ws ≡ rows * width → joined (chunked width rows ws) ≡ ws
joined-chunked width zero [] h = refl
joined-chunked width zero (w ∷ ws) h = absurd (omega arith)
joined-chunked width (suc rows) ws h =
    ap (λ r. take width ws ++ r)
      (joined-chunked width rows (drop width ws) (grind (arith, length-drop width ws)))
    ∙ take-drop width ws

-- The chunks of a tensor hold all of its words in order, and then only zeros.
pub chunks_hold_all_words :
    (ws : List ℕ)
    → (pad : ℕ) × (joined (chunked (fold_width (length ws)) num_chunks (padded ws))
        ≡ ws ++ zeros pad)
chunks_hold_all_words ws =
    let n = length ws in
    (
      num_chunks * fold_width n - n,
      joined-chunked (fold_width n) num_chunks (padded ws) (
          length-append ws (zeros (num_chunks * fold_width n - n))
          ∙ ap (λ k. n + k) (length-zeros (num_chunks * fold_width n - n))
          ∙ omega arith),
    )
