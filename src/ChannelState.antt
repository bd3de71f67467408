-- ===== src/ChannelState.antt =====
-- The channel state cache (pkg/commons/managedChannelState.go).
pub mod Types
pub mod Reads
pub mod Writes
pub mod Htlcs
pub mod Process
pub mod Find
pub mod Clients
pub mod Frame
pub mod Pending
pub mod Each
pub mod Timed
pub mod Invariant
pub mod Faults
pub mod Balances
pub mod HtlcEvents
pub mod Readiness
pub mod Samples
mod Tests
