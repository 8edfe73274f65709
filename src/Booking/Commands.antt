-- ===== src/Booking/Commands.antt =====
-- The calls of services/booking-service/internal/repository/interfaces/booking_repository_write.go
-- that change bookings, as data, and their sequences.
use tissi_mah.Prelude.{ℤ, String, Bool, List, [], ◌∷◌, if◌then◌else◌}
use tissi_mah.Booking.Domain.{Segment, payment_pending, payment_failed, pending_approval, approved}
use tissi_mah.Booking.Store.{Db}
use tissi_mah.Booking.Request.{CreateBookingInput, TripDetails, new_booking, creation_entry}
use tissi_mah.Booking.Repository.Creation
use tissi_mah.Booking.Repository.Approval
use tissi_mah.Booking.Repository.NoShow
use tissi_mah.Booking.Repository.Payment
use tissi_mah.Booking.Repository.Bulk

-- The calls that the service makes. CreateBooking makes the booking from its input, the trip, the
-- orders of the stops and the price. ConfirmPayment is only called for a booking that waits for its
-- payment, or (`late`) whose payment failed, and makes it approved (`auto`) or pending.
pub data Command : Type 0 where
  create :
      ℤ → String → String → CreateBookingInput → TripDetails → ℤ × ℤ → ℤ → List Segment → Command
  approve : String → String → Command
  reject : String → String → String → Command
  cancel : String → String → String → Command
  report_no_show : String → String → String → String → Command
  contest_no_show : String → String → String → ℤ → Command
  resolve_no_show_contest : String → String → String → String → Command
  confirm_payment : String → Bool → Bool → Command
  fail_payment : String → String → Command
  start_bookings_for_waypoint : String → String → Command
  complete_bookings_for_waypoint : String → String → Command
  cancel_bookings_for_trip : String → Command
  cancel_bookings_for_waypoint : String → String → Command
  mark_payment_released : String → Command
  mark_refund_requested : String → Command
  increment_refund_request_attempts : String → Command

-- the database after a call at the time `now`
unfoldable pub call : ℤ → Command → Db → Db
call now (Command.create fee id reference input trip orders price segments) db =
    (Creation.create now (new_booking now fee id reference input trip orders price) segments
      (creation_entry id input trip) db).1
call now (Command.approve id driver) db = (Approval.approve now id driver db).1
call now (Command.reject id driver reason) db = (Approval.reject now id driver reason db).1
call now (Command.cancel id canceller reason) db = (Approval.cancel now id canceller reason db).1
call now (Command.report_no_show id reporter no_show_type description) db =
    (NoShow.report_no_show now id reporter no_show_type description db).1
call now (Command.contest_no_show id contester reason window) db =
    (NoShow.contest_no_show now id contester reason window db).1
call now (Command.resolve_no_show_contest id support refund_reason note) db =
    (NoShow.resolve_no_show_contest now id support refund_reason note db).1
call now (Command.confirm_payment id late auto) db =
    (Payment.confirm_payment now id (if late then payment_failed else payment_pending)
      (if auto then approved else pending_approval) db).1
call now (Command.fail_payment id reason) db = (Payment.fail_payment now id reason db).1
call now (Command.start_bookings_for_waypoint trip waypoint) db =
    (Bulk.start_bookings_for_waypoint now trip waypoint db).1
call now (Command.complete_bookings_for_waypoint trip waypoint) db =
    (Bulk.complete_bookings_for_waypoint now trip waypoint db).1
call now (Command.cancel_bookings_for_trip trip) db = (Bulk.cancel_bookings_for_trip now trip db).1
call now (Command.cancel_bookings_for_waypoint trip waypoint) db =
    (Bulk.cancel_bookings_for_waypoint now trip waypoint db).1
call now (Command.mark_payment_released id) db = (Payment.mark_payment_released now id db).1
call now (Command.mark_refund_requested id) db = (Payment.mark_refund_requested now id db).1
call now (Command.increment_refund_request_attempts id) db =
    (Payment.increment_refund_request_attempts now id db).1

-- calls one after the other, each at its own time
unfoldable pub run : List (ℤ × Command) → Db → Db
run [] db = db
run ((now, c) ∷ cs) db = run cs (call now c db)
