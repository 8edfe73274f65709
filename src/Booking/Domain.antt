-- ===== src/Booking/Domain.antt =====
-- services/booking-service/internal/domain: a booking, its segments and its status history, and the
-- sentinel errors of services/booking-service/pkg/errors.
-- An instant (`time.Time`) is an integer, the nanoseconds from a fixed origin; a pointer that may be
-- nil is an `Option`; `int` and `int16` are integers, and arithmetic wraps where the code computes.
pub mod RefundReason
use tissi_mah.Prelude.{ℤ, pos, String, Option, Bool, true, false, ◌≡◌}

pub data BookingStatus : Type 0 where
  created payment_pending payment_failed pending_approval approved : BookingStatus
  rejected cancelled in_progress completed no_show expired : BookingStatus

pub BookingStatus-discrete : Discrete BookingStatus
BookingStatus-discrete = hlevel

-- A string that names no method is `unknown`.
pub data PaymentMethod : Type 0 where
  mobile_money card paypal cash : PaymentMethod
  unknown : String → PaymentMethod

-- 48 hours
abbrev pub no_show_contest_window : ℤ
no_show_contest_window = pos 172_800_000_000_000

pub record Booking : Type 0 where
  pub booking_id : String
  pub booking_reference : String
  pub trip_id : String
  pub passenger_id : String
  pub driver_id : String
  pub pickup_waypoint_id : String
  pub dropoff_waypoint_id : String
  pub pickup_sequencer_order : ℤ
  pub dropoff_sequencer_order : ℤ
  pub seats_booked : ℤ
  pub price_per_seat : ℤ
  pub subtotal : ℤ
  pub service_fee : ℤ
  pub total_amount : ℤ
  pub payment_method : PaymentMethod
  pub status : BookingStatus
  pub payment_completed_at : Option ℤ
  pub approved_at : Option ℤ
  pub rejected_at : Option ℤ
  pub cancelled_at : Option ℤ
  pub completed_at : Option ℤ
  pub canceller_id : Option String
  pub cancellation_reason : Option String
  pub no_show_type : Option String
  pub no_show_reported_by : Option String
  pub no_show_reported_at : Option ℤ
  pub no_show_description : Option String
  pub payment_released_at : Option ℤ
  pub created_at : ℤ
  pub updated_at : ℤ
  pub passenger_message : Option String
  pub extra_minutes_detour : Option ℤ
  pub extra_detour_price : Option ℤ
  pub refund_reason : Option String
  pub refund_requested_at : Option ℤ
  pub refund_request_attempts : ℤ
  pub no_show_contested_at : Option ℤ
  pub no_show_contested_by : Option String
  pub no_show_contest_reason : Option String
  pub no_show_resolved_at : Option ℤ
  pub no_show_resolved_by : Option String
  pub no_show_resolution : Option String
  pub no_show_resolution_note : Option String

-- A segment of a booking. The places, times and distances that the code only copies are left out.
pub record Segment : Type 0 where
  pub booking_id : String
  pub pickup_waypoint_id : String
  pub dropoff_waypoint_id : String
  pub segment_price : Option ℤ

-- An entry of the status history. Its identifier, a fresh UUID, and its metadata, which no code
-- sets, are left out.
pub record StatusHistoryEntry : Type 0 where
  pub booking_id : String
  pub previous_status : BookingStatus
  pub new_status : BookingStatus
  pub changed_by : String
  pub changed_by_type : String
  pub change_reason : Option String

-- `driver_error` is an error of the database driver that is passed on as it is.
pub data Error : Type 0 where
  internal_server invalid_input booking_not_found trip_not_found trip_not_available : Error
  no_seats_available unauthorized invalid_status_transition booking_already_cancelled : Error
  booking_not_pending passenger_is_driver duplicate_booking : Error
  payment_already_confirmed payment_already_failed data_retrieval_failed : Error
  invalid_waypoints passenger_not_verified : Error
  no_show_too_early no_show_report_closed no_show_already_contested : Error
  no_show_contest_closed no_show_not_contested no_show_already_resolved : Error
  driver_error : Error
