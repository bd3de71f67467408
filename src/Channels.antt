-- ===== src/Channels.antt =====
-- The requests on channels (internal/channels).
pub mod Update
pub mod Policy
pub mod Opening
pub mod Closing
pub mod Closed
pub mod Batch
pub mod Accepted
pub mod Opened
mod Tests
