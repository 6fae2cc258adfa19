-- ===== src/Routing.antt =====
-- Routing of requests to nodes and shards: scylla/src/routing.
pub mod Partitioners
pub mod Replication
pub mod Ring
pub mod Sharding
pub mod Tablets
