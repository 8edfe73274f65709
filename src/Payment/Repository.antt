-- ===== src/Payment/Repository.antt =====
-- services/payment-service/internal/repository/implementations: the statements on payments and on
-- refunds.
pub mod Refunds
pub mod Selection
pub mod Coverage
pub mod Payments
