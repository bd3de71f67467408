-- ===== src/QueryParser.antt =====
-- Filters and orders of a table view (internal/query_parser).
pub mod Types
pub mod Parse
pub mod Safety
pub mod Errors
pub mod Orders
mod Tests
