-- ===== src/Broadcast.antt =====
-- The broadcaster (pkg/broadcast/broadcast.go).
pub mod Serve
pub mod Counting
pub mod Tidy
pub mod Delivery
pub mod Closing
pub mod Received
mod Tests
