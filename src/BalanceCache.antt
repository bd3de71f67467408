-- ===== src/BalanceCache.antt =====
-- The maintenance of the channel balances (pkg/lnd/channelBalanceCache.go).
pub mod Types
pub mod Dispatch
pub mod Deliver
pub mod Frame
pub mod Answers
pub mod Forwards
pub mod Initial
pub mod Sync
pub mod Rounds
pub mod Counters
pub mod Loaded
pub mod Unknown
mod Tests
