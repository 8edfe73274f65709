-- ===== src/Booking/Domain/RefundReason.antt =====
-- services/booking-service/internal/domain/booking.go: the motives of a refund, as they are sent to
-- payment-service.
use tissi_mah.Prelude.{String}

abbrev pub booking_rejected : String
booking_rejected = "bookingRejected"

abbrev pub cancelled_by_driver : String
cancelled_by_driver = "cancelledByDriver"

abbrev pub cancelled_by_passenger : String
cancelled_by_passenger = "cancelledByPassenger"

abbrev pub no_show_driver : String
no_show_driver = "noShowDriver"

abbrev pub no_show_passenger : String
no_show_passenger = "noShowPassenger"

abbrev pub trip_cancelled : String
trip_cancelled = "tripCancelled"

abbrev pub waypoint_cancelled : String
waypoint_cancelled = "waypointCancelled"
