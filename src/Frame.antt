-- ===== src/Frame.antt =====
-- The CQL binary protocol: scylla-cql/src/frame.
pub mod Consistency
pub mod DbError
pub mod ErrorResponse
pub mod Wire
