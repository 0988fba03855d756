-- ===== src/Tests.antt =====
-- Concrete placements, plans and stores, at which the theorems are applied.
pub mod Memory
pub mod Plans
pub mod Stores
pub mod Placements
pub mod Checkpoints
pub mod Failures
pub mod Signatures
pub mod Replays
pub mod Agents
