-- ===== src/Certification.antt =====
-- What a job-wide replay does to checkpoints: integrations/_checkpoint_certification.py, cadence.py and
-- the checkpoint roles of checkpointing/manager.py.
pub mod Cadence
pub mod Roles
pub mod Workflow
pub mod Recovery
