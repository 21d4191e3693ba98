-- ===== src/Verbs.antt =====
-- src/fm_robot_agent/verbs.py: one query on the fabric becomes one call of the adapter and one
-- reply. The children below `Router` hold the proofs.
pub mod Key
pub mod Reply
pub mod Values
pub mod Checks
pub mod Handlers
pub mod Equipment
pub mod Router
