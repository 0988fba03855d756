-- ===== src/Consensus.antt =====
-- lm_resiliency/detection/c3.py: signatures of tensors, and the verdict over what the peers gather.
pub mod Signature
pub mod Injective
pub mod Fold
pub mod Tensors
pub mod Blocks
pub mod Blind
pub mod Verdict
pub mod Majority
