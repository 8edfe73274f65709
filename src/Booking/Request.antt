-- ===== src/Booking/Request.antt =====
-- services/booking-service/internal/service/booking_service_impl.go: what CreateBooking makes of its
-- inputs (`CreateBookingInput` of service/interfaces, `TripDetails` of internal/client/interfaces.go):
-- validateCreateInput, the checks on the trip and on the passenger, the booking, its segments and its
-- first entry of the history. The answers of the other services, the fresh identifiers and the clock are
-- arguments.
use tissi_mah.Prelude.{
  ℤ, pos, ◌+ℤ◌, ◌*ℤ◌, ltb_ℤ, eqb_ℤ, int64, int16, quot100, String, str_eq, Bool, true, false, not,
  ◌&&◌, ◌||◌, Option, none, some, List, [], ◌∷◌, if◌then◌else◌,
}
use tissi_mah.Prelude.Result.{Result, ok, err}
use tissi_mah.Booking.Domain.{
  BookingStatus, PaymentMethod, Booking, Segment, StatusHistoryEntry, Error, created,
  payment_pending, pending_approval, approved,
}
use tissi_mah.Booking.Waypoints.{TripWaypoint, calculate_price_from_waypoints}
use tissi_mah.Booking.Repository.Guards.{is_cash}

-- The fields that only describe the segment are left out, as in `Segment`.
pub record SegmentInput : Type 0 where
  pub pickup_waypoint_id : String
  pub dropoff_waypoint_id : String

pub record CreateBookingInput : Type 0 where
  pub passenger_id : String
  pub trip_id : String
  pub pickup_waypoint_id : String
  pub dropoff_waypoint_id : String
  pub seats_booked : ℤ
  pub payment_method : PaymentMethod
  pub segments : List SegmentInput
  pub passenger_message : String
  pub extra_minutes_detour : ℤ
  pub extra_detour_price : ℤ

pub record TripDetails : Type 0 where
  pub driver_id : String
  pub status : String
  pub available_seats : ℤ
  pub total_seats : ℤ
  pub auto_approve_enabled : Bool
  pub waypoints : List TripWaypoint

-- `validMethods`
abbrev pub is_valid_method : PaymentMethod → Bool
is_valid_method (PaymentMethod.unknown _) = false
is_valid_method _ = true

abbrev is_empty {ℓ} : {A : Type ℓ} → List A → Bool
is_empty [] = true
is_empty (_ ∷ _) = false

-- validateCreateInput
unfoldable pub validate_create_input : CreateBookingInput → Result Error (Unit {0})
validate_create_input input =
    if str_eq input.passenger_id ""
    then err Error.invalid_input
    else if str_eq input.trip_id ""
    then err Error.invalid_input
    else if str_eq input.pickup_waypoint_id "" || str_eq input.dropoff_waypoint_id ""
    then err Error.invalid_input
    else if ltb_ℤ input.seats_booked (pos 1)
    then err Error.invalid_input
    else if not (is_valid_method input.payment_method)
    then err Error.invalid_input
    else if is_empty input.segments
    then err Error.invalid_input
    else ok tt

-- the two statuses of a trip that takes bookings
abbrev pub is_open_trip : String → Bool
is_open_trip status = str_eq status "scheduled" || str_eq status "inProgress"

-- steps 2 to 4: the answers of GetTripDetails and of IsPassengerVerified
unfoldable pub check_trip :
    CreateBookingInput
    → Result (Unit {0}) (Option TripDetails)
    → Result (Unit {0}) Bool
    → Result Error TripDetails
check_trip input (err _) verified = err Error.internal_server
check_trip input (ok none) verified = err Error.trip_not_found
check_trip input (ok (some trip)) verified =
    if not (is_open_trip trip.status)
    then err Error.trip_not_available
    else if str_eq input.passenger_id trip.driver_id
    then err Error.passenger_is_driver
    else elim verified [
      | err _ ↦ err Error.internal_server
      | ok true ↦ ok trip
      | ok false ↦ err Error.passenger_not_verified
    ]

-- step 9
abbrev pub initial_status : PaymentMethod → Bool → BookingStatus
initial_status method auto_approve =
    if is_cash method
    then (if auto_approve then approved else pending_approval)
    else payment_pending

abbrev pub when {ℓ} : {A : Type ℓ} → Bool → A → Option A
when true a = some a
when false a = none

-- steps 8 to 10
unfoldable pub new_booking :
    ℤ → ℤ → String → String → CreateBookingInput → TripDetails → ℤ × ℤ → ℤ → Booking
new_booking now service_fee id reference input trip orders price =
    let subtotal = int64 (input.seats_booked *ℤ price) in
    let fee = quot100 (int64 (subtotal *ℤ service_fee)) in
    record {
      booking_id = id;
      booking_reference = reference;
      trip_id = input.trip_id;
      passenger_id = input.passenger_id;
      driver_id = trip.driver_id;
      pickup_waypoint_id = input.pickup_waypoint_id;
      dropoff_waypoint_id = input.dropoff_waypoint_id;
      pickup_sequencer_order = int16 orders.0;
      dropoff_sequencer_order = int16 orders.1;
      seats_booked = int16 input.seats_booked;
      price_per_seat = price;
      subtotal = subtotal;
      service_fee = fee;
      total_amount = int64 (subtotal +ℤ fee);
      payment_method = input.payment_method;
      status = initial_status input.payment_method trip.auto_approve_enabled;
      payment_completed_at = none;
      approved_at = when (is_cash input.payment_method && trip.auto_approve_enabled) now;
      rejected_at = none;
      cancelled_at = none;
      completed_at = none;
      canceller_id = none;
      cancellation_reason = none;
      no_show_type = none;
      no_show_reported_by = none;
      no_show_reported_at = none;
      no_show_description = none;
      payment_released_at = none;
      created_at = pos 0;
      updated_at = pos 0;
      passenger_message = when (not (str_eq input.passenger_message "")) input.passenger_message;
      extra_minutes_detour =
          when (not (eqb_ℤ input.extra_minutes_detour (pos 0))) (int16 input.extra_minutes_detour);
      extra_detour_price =
          when (not (eqb_ℤ input.extra_detour_price (pos 0))) input.extra_detour_price;
      refund_reason = none;
      refund_requested_at = none;
      refund_request_attempts = pos 0;
      no_show_contested_at = none;
      no_show_contested_by = none;
      no_show_contest_reason = none;
      no_show_resolved_at = none;
      no_show_resolved_by = none;
      no_show_resolution = none;
      no_show_resolution_note = none;
    }

-- the loop over the segments of the input
unfoldable pub new_segments :
    String → List TripWaypoint → List SegmentInput → Result Error (List Segment)
new_segments id waypoints [] = ok []
new_segments id waypoints (seg ∷ segs) =
    elim (calculate_price_from_waypoints waypoints seg.pickup_waypoint_id seg.dropoff_waypoint_id) [
      | err e ↦ err e
      | ok price ↦ elim (new_segments id waypoints segs) [
        | err e ↦ err e
        | ok rest ↦ ok (
            record {
              booking_id = id;
              pickup_waypoint_id = seg.pickup_waypoint_id;
              dropoff_waypoint_id = seg.dropoff_waypoint_id;
              segment_price = some price;
            }
            ∷ rest)
      ]
    ]

-- the first entry of the history
unfoldable pub creation_entry : String → CreateBookingInput → TripDetails → StatusHistoryEntry
creation_entry id input trip = record {
  booking_id = id;
  previous_status = created;
  new_status = initial_status input.payment_method trip.auto_approve_enabled;
  changed_by = input.passenger_id;
  changed_by_type = "passenger";
  change_reason = none;
}
