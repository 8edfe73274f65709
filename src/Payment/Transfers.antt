-- ===== src/Payment/Transfers.antt =====
-- services/payment-service/internal/service: the refund worker (refund_worker.go) and the confirmation
-- of its transfers (payout_confirmation.go and payout_reconciler.go, the part on refunds).
-- FedaPay, booking-service, user-service and Redis answer calls: `Clients` has their answers. The
-- journal keeps what FedaPay was told and what it reported: a transfer that it accepted to start, and
-- each status of a transfer that was read, the latest first. Notifications are left out. A handler
-- reads the clock once.
pub mod Journal
pub mod Invariant
pub mod Worker
pub mod Confirmation
