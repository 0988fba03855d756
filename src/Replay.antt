-- ===== src/Replay.antt =====
-- Which shapes a replay runs on, and what a sweep over all shapes says.
pub mod Shapes
pub mod Scheduler
pub mod Turns
pub mod Certifies
pub mod Saved
pub mod Identity
pub mod AllToAll
pub mod Sweep
pub mod Merged
pub mod Attached
pub mod Coverage
pub mod Evidence
pub mod Cycle
pub mod Healthy
pub mod Moe
pub mod Windows
pub mod Bound
pub mod Counter
