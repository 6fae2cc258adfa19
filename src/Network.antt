-- ===== src/Network.antt =====
-- One connection's bookkeeping: scylla/src/network/connection.rs.
pub mod StreamIdSet
pub mod Orphanage
pub mod HandlerMap
mod Examples
