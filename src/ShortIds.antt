-- ===== src/ShortIds.antt =====
-- Short channel ids and channel points (pkg/commons/functions.go).
pub mod Text
pub mod Bits
pub mod Decimal
pub mod Convert
mod Tests
