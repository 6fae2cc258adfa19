-- ===== src/Routing/Tablets.antt =====
-- Tablets: `Tablet`, `TableTablets` and `TabletsInfo` of scylla/src/routing/locator/tablets.rs.
-- Tokens are integers; a table's name is left out, since only log lines read it.
pub mod Replicas
pub mod Table
pub mod Maintenance
pub mod Ranges
pub mod Adding
pub mod Upkeep
pub mod Grouping
pub mod Info
mod Examples
