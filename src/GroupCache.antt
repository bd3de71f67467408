-- ===== src/GroupCache.antt =====
-- The cache of channel groups (pkg/commons/managedChannelGroup.go).
pub mod Process
pub mod Included
mod Tests
