-- ===== src/ChannelCache.antt =====
-- The cache of all channels (pkg/commons/managedChannel.go).
pub mod Types
pub mod Reads
pub mod Process
pub mod Clients
pub mod Names
pub mod Consistent
pub mod Closing
pub mod ReadBack
mod Tests
