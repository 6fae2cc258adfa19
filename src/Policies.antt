-- ===== src/Policies.antt =====
-- The policies of scylla/src/policies.
pub mod Plans
pub mod Retry
pub mod Timestamps
