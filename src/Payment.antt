-- ===== src/Payment.antt =====
-- services/payment-service
pub mod Domain
pub mod Store
pub mod Repository
pub mod RefundRules
pub mod Refunds
pub mod Transfers
pub mod Runs
pub mod Window
pub mod Tests
