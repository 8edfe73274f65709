-- ===== src/Booking/Repository.antt =====
-- services/booking-service/internal/repository/implementations/booking_write_repository.go:
pub mod Creation
-- the methods that change the bookings.
pub mod Guards
pub mod Approval
pub mod NoShow
pub mod Payment
pub mod Bulk
pub mod RefundDemands
