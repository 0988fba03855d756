-- ===== src/Protocol.antt =====
-- lm_resiliency/integrations/torchrun/_protocol.py: the records exchanged by manager and agents.
pub mod Value
pub mod Assignment
pub mod Plan
pub mod Context
