-- ===== src/Corridors.antt =====
-- Corridors (internal/corridors/corridor.go): the cache that gives a flag to a route.
pub mod Types
pub mod Priority
pub mod Cache
pub mod Staging
pub mod Search
pub mod Fits
pub mod Best
mod Tests
