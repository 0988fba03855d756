-- ===== src/PlanStore.antt =====
-- lm_resiliency/integrations/torchrun/_simple_runtime.py: `SimpleRecoveryPlanStore`.
pub mod Platform
pub mod Actions
pub mod Registry
pub mod Publish
pub mod Lease
