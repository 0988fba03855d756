-- ===== src/Tests/Signatures.antt =====
-- Words, a tensor of 1604 of them, and the values of three peers.
use lm_resiliency.Base.{ℕ, ◌+◌, ◌<◌, ◌≤◌, ◌≡◌, ◌≢◌, refl, [], ◌∷◌, some, arith, length, nat_eq}
use lm_resiliency.Consensus.Tensors.{one_word_changes_signature}
use lm_resiliency.Consensus.Fold.{zeros, compute_tensor_signature}
use lm_resiliency.Consensus.Blocks.{length-zeros}
use lm_resiliency.Consensus.Blind.{flipped, flipped_bit_goes_unseen}
use lm_resiliency.Consensus.Verdict.{C3Result, verdict, classify_evidence}
use lm_resiliency.Consensus.Majority.{IsVerdict, classify_evidence-IsVerdict}
use lm_resiliency.Durable.Record.{attributed, inconclusive}

differ : ◌≢◌ {A = ℕ} 8 9
differ e = omega arith

one_word_changes_signature_example :
    compute_tensor_signature (7 ∷ 8 ∷ 5 ∷ []) 24 (3 ∷ []) (105 ∷ [])
    ≢ compute_tensor_signature (7 ∷ 9 ∷ 5 ∷ []) 24 (3 ∷ []) (105 ∷ [])
one_word_changes_signature_example =
    one_word_changes_signature (7 ∷ []) (5 ∷ []) 8 9 24 (3 ∷ []) (105 ∷ []) (omega arith)
      (omega arith) (omega arith) differ

-- The second of 1604 words differs in its sign bit.
long : 1536 < 4 + length (zeros 1600)
long = omega (arith, length-zeros 1600)

short : 4 + length (zeros 1600) ≤ 2048
short = omega (arith, length-zeros 1600)

flipped_bit_goes_unseen_example :
    compute_tensor_signature (1 ∷ flipped 2 ∷ 3 ∷ 4 ∷ zeros 1600) 12832 (1604 ∷ []) (105 ∷ [])
    ≡ compute_tensor_signature (1 ∷ 2 ∷ 3 ∷ 4 ∷ zeros 1600) 12832 (1604 ∷ []) (105 ∷ [])
flipped_bit_goes_unseen_example =
    flipped_bit_goes_unseen 0 [] (zeros 1600) 1 2 3 4 12832 (1604 ∷ []) (105 ∷ []) refl long short

-- The second of three peers is marked.
marks_second :
    classify_evidence {A = ℕ} (4 ∷ 5 ∷ 4 ∷ [])
    ≡ some (verdict attributed (0 ∷ 1 ∷ 0 ∷ []) (4 ∷ 5 ∷ 4 ∷ []))
unfolding classify_evidence
marks_second = refl

split_vote :
    classify_evidence {A = ℕ} (4 ∷ 5 ∷ []) ≡ some (verdict inconclusive (0 ∷ 0 ∷ []) (4 ∷ 5 ∷ []))
unfolding classify_evidence
split_vote = refl

classify_evidence-IsVerdict_example :
    (r : C3Result ℕ) × (classify_evidence (4 ∷ 5 ∷ 4 ∷ []) ≡ some r) × IsVerdict (4 ∷ 5 ∷ 4 ∷ []) r
classify_evidence-IsVerdict_example = classify_evidence-IsVerdict 4 (5 ∷ 4 ∷ [])
