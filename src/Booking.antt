-- ===== src/Booking.antt =====
-- services/booking-service
pub mod Domain
pub mod Store
pub mod Seats
pub mod Waypoints
pub mod Repository
pub mod Request
pub mod Creation
pub mod Handlers
pub mod Reconciliation
pub mod Commands
pub mod Lifecycle
pub mod Tests
