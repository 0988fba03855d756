-- ===== src/Rendezvous.antt =====
-- integrations/torchrun/_simple_runtime.py: how an agent judges leases and heartbeats, and its rank.
pub mod Lease
pub mod Heartbeat
pub mod News
pub mod Numbers
pub mod Freshness
pub mod Beats
pub mod Alive
pub mod Group
pub mod Members
pub mod Ranks
