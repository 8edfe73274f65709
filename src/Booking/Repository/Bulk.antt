-- ===== src/Booking/Repository/Bulk.antt =====
-- services/booking-service/internal/repository/implementations/booking_write_repository.go:
-- the methods on all bookings of a trip or of a waypoint.
pub mod Effect
pub mod Sweep
pub mod Cancellation
pub mod Journey
use tissi_mah.Prelude.{
  ℤ, pos, ◌+ℤ◌, ◌-ℤ◌, leb_ℤ, String, str_eq, Bool, true, false, not, ◌&&◌, ◌||◌, Option, none, some,
  List, [], ◌∷◌, map, is_some, if◌then◌else◌,
}
use tissi_mah.Prelude.Result.{Result, ok, err}
use tissi_mah.Booking.Domain.{
  BookingStatus, PaymentMethod, Booking, StatusHistoryEntry, Error, created, payment_pending,
  payment_failed, pending_approval, approved, rejected, cancelled, in_progress, completed, no_show,
  expired,
}
use tissi_mah.Booking.Domain.RefundReason
use tissi_mah.Booking.Store.{
  Tables, Db, Action, Change, change_booking, change_bookings, next_call, find_row, write_row,
  ◌>>=◌, ◌>>◌, lift, exec,
}
use tissi_mah.Booking.Repository.Guards.{
  same_status, is_cash, refund_reason_if_paid, entry, system_entry,
}

-- the rows of a trip with a waypoint and a status
unfoldable pub at_waypoint : (Booking → String) → String → String → BookingStatus → Booking → Bool
at_waypoint waypoint_of trip waypoint status b =
    str_eq b.trip_id trip && str_eq (waypoint_of b) waypoint && same_status b.status status

-- an entry that the system writes, with no reason
abbrev by_system : Booking → BookingStatus → BookingStatus → StatusHistoryEntry
by_system b previous new_status = record {
  booking_id = b.booking_id;
  previous_status = previous;
  new_status = new_status;
  changed_by = "system";
  changed_by_type = "system";
  change_reason = none;
}

unfoldable pub starts_at : String → String → Booking → Bool
unfolding at_waypoint
starts_at = λ trip waypoint. at_waypoint (λ b. b.pickup_waypoint_id) trip waypoint approved

unfoldable pub start_change : Booking → Change
start_change b = record {
  set = λ r. record r { status = in_progress };
  log = some (by_system b approved in_progress);
}

-- StartBookingsForWaypoint: the passengers whose bookings are started.
unfoldable pub start_bookings_for_waypoint : ℤ → String → String → Action (List String)
start_bookings_for_waypoint now trip waypoint =
    change_bookings now (starts_at trip waypoint) start_change >>= λ bs.
    lift (ok (map (λ b. b.passenger_id) bs))

unfoldable pub completes_at : String → String → Booking → Bool
unfolding at_waypoint
completes_at = λ trip waypoint. at_waypoint (λ b. b.dropoff_waypoint_id) trip waypoint in_progress

unfoldable pub complete_change : ℤ → Booking → Change
complete_change now b = record {
  set = λ r. record r { status = completed; completed_at = some now };
  log = some (by_system b in_progress completed);
}

-- CompleteBookingsForWaypoint: the passengers whose bookings are completed.
unfoldable pub complete_bookings_for_waypoint : ℤ → String → String → Action (List String)
complete_bookings_for_waypoint now trip waypoint =
    change_bookings now (completes_at trip waypoint) (complete_change now) >>= λ bs.
    lift (ok (map (λ b. b.passenger_id) bs))

-- `status IN ('paymentPending', 'pendingApproval', 'approved')`
abbrev pub is_bulk_cancellable : BookingStatus → Bool
is_bulk_cancellable payment_pending = true
is_bulk_cancellable pending_approval = true
is_bulk_cancellable approved = true
is_bulk_cancellable _ = false

-- the UPDATE and the entry of a bulk cancellation
unfoldable pub bulk_cancel_change : ℤ → String → String → Booking → Change
bulk_cancel_change now cancel_reason refund_reason b = record {
  set = λ r. record r {
    status = cancelled;
    cancelled_at = some now;
    canceller_id = some "system";
    cancellation_reason = some cancel_reason;
    refund_reason = refund_reason_if_paid refund_reason r;
  };
  log = system_entry b.booking_id b cancelled cancel_reason;
}

unfoldable pub cancelled_with_trip : String → Booking → Bool
cancelled_with_trip trip b = str_eq b.trip_id trip && is_bulk_cancellable b.status

-- CancelBookingsForTrip: the bookings, as they were before. The code fetches only the columns that its
-- callers read, the model whole rows.
unfoldable pub cancel_bookings_for_trip : ℤ → String → Action (List Booking)
cancel_bookings_for_trip now trip =
    change_bookings now (cancelled_with_trip trip)
      (bulk_cancel_change now "Trajet annulé par le chauffeur" RefundReason.trip_cancelled)

unfoldable pub cancelled_with_waypoint : String → String → Booking → Bool
cancelled_with_waypoint trip waypoint b =
    str_eq b.trip_id trip
    && (str_eq b.pickup_waypoint_id waypoint || str_eq b.dropoff_waypoint_id waypoint)
    && is_bulk_cancellable b.status

-- CancelBookingsForWaypoint: the bookings, as they were before.
unfoldable pub cancel_bookings_for_waypoint : ℤ → String → String → Action (List Booking)
cancel_bookings_for_waypoint now trip waypoint =
    change_bookings now (cancelled_with_waypoint trip waypoint)
      (bulk_cancel_change now "Arrêt supprimé par le chauffeur" RefundReason.waypoint_cancelled)
