-- ===== src/Durable.antt =====
-- lm_resiliency/checkpointing/durable.py: checkpoints that a following clean replay cycle certifies.
pub mod Record
pub mod Manifests
pub mod Candidate
pub mod Evaluation
pub mod Rotation
pub mod Agreement
pub mod Evidence
pub mod Cycle
pub mod Runs
pub mod Commit
pub mod Progress
pub mod Loaded
pub mod Begun
pub mod Whole
