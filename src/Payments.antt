-- ===== src/Payments.antt =====
-- The payment of an invoice (internal/payments/new_payment.go).
pub mod Request
pub mod Response
pub mod Sending
pub mod Attempts
pub mod Stream
mod Tests
