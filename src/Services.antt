-- ===== src/Services.antt =====
-- The services of a node and their streams (pkg/commons/services.go).
pub mod Types
pub mod Reads
pub mod Operations
pub mod Calls
pub mod Merge
pub mod Status
pub mod Follow
pub mod Replay
pub mod Activation
pub mod BootSteps
pub mod BootTimes
pub mod Stopping
mod Tests
