-- ===== src/NodeCache.antt =====
-- The cache of nodes (pkg/commons/managedNode.go).
pub mod Types
pub mod Ids
pub mod Reads
pub mod Writes
pub mod Process
pub mod Clients
pub mod Covering
pub mod Consistent
pub mod Runs
pub mod ReadBack
mod Tests
