-- ===== src/Lib.antt =====
-- Verification of LM Resiliency: recovery of distributed training jobs.
--
-- A manager watches a training job. When a node fails, it publishes a plan for the next generation
-- of workers through a key-value store (integrations/torchrun); the agents of the nodes read the
-- plan and derive each node's context from it. Checkpoints that a later cycle of clean replays has
-- certified are what a recovery may load (checkpointing/durable.py). Paths below are under
-- lm_resiliency/.
--
-- Base: shared types and lemmas: tests, lists, sets of values, ranges, exceptions as values
--   (`Result`).
-- Protocol: integrations/torchrun/_protocol.py. Value: JSON documents and the checks of one field
--   (`_string`, `_integer`, ...). Assignment, Plan, Context: the records, with the constructor's
--   `__post_init__` as a function that refuses or returns the record, and `to_dict` and `from_dict`
--   on documents. A Python value of the wrong type is a document that is refused; in the records
--   the types rule it out.
-- PlanStore: `SimpleRecoveryPlanStore` of integrations/torchrun/_simple_runtime.py. Platform: the
--   store and the texts of `json` and `int`, as a record of operations, and what their
--   documentation promises of them. Actions: statements that use the store and may raise. Publish:
--   plans, generations and leases. Registry: registered nodes and the initial placement. Lease: the
--   reading of a lease.
-- Rendezvous: `SimpleRendezvousHandler` of the same file. Lease and Heartbeat: how an agent judges
--   the manager's lease and another agent's heartbeat, for one plan and one node, over any sequence
--   of polls. Group: the assignment of a generation, and a poll of `next_rendezvous` up to the
--   node's slot. News, Numbers, Freshness, Beats, Alive, Members and Ranks are the proofs.
-- Coordinator: `TorchrunRecoveryCoordinator` of integrations/torchrun/coordinator.py. Placement,
--   History and Planning prove what replacements and plans keep.
-- Durable: checkpointing/durable.py. Record: manifests, shape plans and a replay's evidence
--   (detection/layer_replay.py). Manifests: the folder of manifests. Candidate and Evaluation:
--   `DurableCheckpointCoordinator` on one rank; the collectives are functions of this rank's part,
--   and the framework's saves and loads are functions of the record. Rotation, Agreement, Evidence,
--   Cycle, Begun, Runs, Whole, Commit, Progress and Loaded are the proofs.
-- Certification: integrations/_checkpoint_certification.py. Cadence: cadence.py. Roles: the
--   checkpoint roles of checkpointing/manager.py and `CheckpointStatus` of checkpointing/disk.py.
--   Workflow: what a job-wide replay and a failure do to both kinds of checkpoint. Recovery holds
--   the proofs.
-- Replay: which shapes a replay runs on. Shapes and Scheduler: detection/replay_shapes.py, with the
--   SHA-256 of a plan's document as a parameter. Sweep: `check_shape_cycle` of
--   detection/replay_harness.py, with the replay of one shape as a parameter. AllToAll:
--   `_attach_all_to_all_replay` of the same file, with the comparisons of the ranks as a parameter.
--   Moe: the scheduler of detection/moe_regimes.py. Turns, Counter, Saved, Identity, Coverage,
--   Evidence, Merged, Attached, Cycle, Healthy, Windows and Bound are the proofs; Certifies ties
--   schedules and sweeps to the candidates of Durable.
-- Consensus: detection/c3.py. Signature and Fold: the signature of a tensor's 64-bit words.
--   Verdict: the exact mode of `classify_evidence`. Injective, Tensors, Blocks, Blind and Majority
--   are the proofs.
-- Tests: a store in memory and concrete plans, placements, checkpoints, replays and agents.
--
-- Numbers whose check has a minimum of 0 or more are natural numbers; those that a caller gives
-- freely are integers. The loop that folds a chunk has the chunk's length as fuel, and
-- `fold_loop_ends` shows that this is enough; all other recursion is on lists or on the number of
-- rounds that the source gives. The order of the characters in a JSON text, the SHA-256 of plan
-- identities and `str` are the platform's. Notifications of the framework adapter that cannot fail
-- the caller are left out, and so are logging, threads (the renewal of a lease after its first
-- publication), file renames and fsync. A manifest file is the record that it holds. The
-- rendezvous' clock counts whole milliseconds where the source has fractions of a second. Not
-- modelled: the waiting loops of the rendezvous and its context file, the worker adapter, the
-- buffers of the in-memory checkpoint manager, the rotation of the replayed layer, statistics on
-- floating point values, the localisation of faults, fault injection, and the framework
-- integrations.
pub mod Base
pub mod Protocol
pub mod PlanStore
pub mod Coordinator
pub mod Tests
pub mod Durable
pub mod Certification
pub mod Consensus
pub mod Replay
pub mod Rendezvous
