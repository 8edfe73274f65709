-- ===== src/Booking/Tests.antt =====
-- Concrete runs of the operations on bookings, and uses of the theorems at concrete inputs.
pub mod Seats
pub mod Handlers
pub mod Bulk
use tissi_mah.Prelude.{
  ℕ, ℤ, pos, negsuc, ◌+ℤ◌, ◌-ℤ◌, ◌≤ℤ◌, int64, String, str_eq, eq_iff, Bool, true, false, Option,
  none, some, List, [], ◌∷◌, ◌++◌, map, ◌≡◌, refl, arith, if◌then◌else◌,
}
use tissi_mah.Prelude.Result.{Result, ok, err}
use tissi_mah.Booking.Domain.{
  BookingStatus, PaymentMethod, Booking, StatusHistoryEntry, Error, created, pending_approval,
  approved, payment_pending, cancelled, no_show, no_show_contest_window,
}
use tissi_mah.Booking.Domain.RefundReason
use tissi_mah.Booking.Store.{
  Tables, Db, Change, find_row, filter_rows, update_row, change_booking, change_bookings,
  transaction,
}
use tissi_mah.Booking.Store.Transaction.{
  Outcome, effect, changed_all, change_booking-Outcome, change_bookings-Outcome,
}
use tissi_mah.Booking.Repository.Guards.{same_status}
use tissi_mah.Booking.Repository.Approval.{decide_cancel, cancel}
use tissi_mah.Booking.Repository.NoShow.{decide_contest_no_show}
use tissi_mah.Booking.Repository.Bulk.{
  starts_at, start_change, start_bookings_for_waypoint, completes_at, complete_change,
  complete_bookings_for_waypoint, bulk_cancel_change, cancelled_with_trip, cancel_bookings_for_trip,
  cancelled_with_waypoint, cancel_bookings_for_waypoint,
}
use tissi_mah.Booking.Repository.Creation.{accepts, create, insert_booking, insert_segments}
use tissi_mah.Booking.Repository.Creation.Outcome.{with_booking, create-Outcome}
use tissi_mah.Booking.Repository.RefundDemands.{is_refund_due}
use tissi_mah.Booking.Repository.RefundDemands.Contests.{
  failed, due_uncontestable, contested_not_due,
}
use tissi_mah.Booking.Commands.{Command, call, run}
use tissi_mah.Booking.Lifecycle.{IsValid, last_status, ◌⟶◌}
use tissi_mah.Booking.Lifecycle.Runs.{run-IsValid}
use tissi_mah.Booking.Lifecycle.Paths.{◌⟶*◌, run_follows, run_final}

-- a booking that was paid online and waits for the driver
abbrev pub paid : Booking
paid = record {
  booking_id = "b1";
  booking_reference = "RES-1";
  trip_id = "t";
  passenger_id = "p";
  driver_id = "d";
  pickup_waypoint_id = "w1";
  dropoff_waypoint_id = "w3";
  pickup_sequencer_order = pos 1;
  dropoff_sequencer_order = pos 3;
  seats_booked = pos 2;
  price_per_seat = pos 1_000;
  subtotal = pos 2_000;
  service_fee = pos 200;
  total_amount = pos 2_200;
  payment_method = PaymentMethod.mobile_money;
  status = pending_approval;
  payment_completed_at = some (pos 10);
  approved_at = none;
  rejected_at = none;
  cancelled_at = none;
  completed_at = none;
  canceller_id = none;
  cancellation_reason = none;
  no_show_type = none;
  no_show_reported_by = none;
  no_show_reported_at = none;
  no_show_description = none;
  payment_released_at = none;
  created_at = pos 1;
  updated_at = pos 10;
  passenger_message = none;
  extra_minutes_detour = none;
  extra_detour_price = none;
  refund_reason = none;
  refund_requested_at = none;
  refund_request_attempts = pos 0;
  no_show_contested_at = none;
  no_show_contested_by = none;
  no_show_contest_reason = none;
  no_show_resolved_at = none;
  no_show_resolved_by = none;
  no_show_resolution = none;
  no_show_resolution_note = none;
}

abbrev step : BookingStatus → BookingStatus → StatusHistoryEntry
step a b = record {
  booking_id = "b1";
  previous_status = a;
  new_status = b;
  changed_by = "system";
  changed_by_type = "system";
  change_reason = none;
}

abbrev first_entry : StatusHistoryEntry
first_entry = step created pending_approval

abbrev pub tables_of : Booking → Tables
tables_of b = record { bookings = b ∷ []; segments = []; history = step created b.status ∷ [] }

abbrev pub db_of : Booking → Db
db_of b = record { tables = tables_of b; faults = [] }

-- a booking that its passenger cancelled
abbrev pub ended : Booking
ended = record paid {
  status = cancelled;
  cancelled_at = some (pos 20);
  canceller_id = some "p";
  refund_reason = some RefundReason.cancelled_by_passenger;
}

-- a passenger who was reported absent at the time 100
abbrev absentee : Booking
absentee = record paid {
  status = no_show;
  no_show_type = some "passenger";
  no_show_reported_at = some (pos 100);
  refund_reason = some RefundReason.no_show_passenger;
}

unlogged_elsewhere :
    (b : Booking) (s : BookingStatus)
    → b.booking_id ≡ "b1"
    → (id : String) → find_row id (b ∷ []) ≡ none
    → last_status id (step created s ∷ []) ≡ none
unlogged_elsewhere b s e id n = ground arith

paid-IsValid : IsValid [] (tables_of paid)
paid-IsValid = record {
  unique = (refl, tt);
  logged = (refl, tt);
  unlogged = unlogged_elsewhere paid pending_approval refl;
  consistent = ((refl, refl), tt);
  chained = (step created pending_approval ∷ [], refl, (refl, ◌⟶◌.book_cash, tt));
}

ended-IsValid : IsValid [] (tables_of ended)
ended-IsValid = record {
  unique = (refl, tt);
  logged = (refl, tt);
  unlogged = unlogged_elsewhere ended cancelled refl;
  consistent = ((refl, refl), tt);
  chained = (step created cancelled ∷ [], refl, (refl, ◌⟶◌.cancel_created, tt));
}

-- as if the history before were cut off
absentee-IsValid : IsValid (step created no_show ∷ []) (tables_of absentee)
absentee-IsValid = record {
  unique = (refl, tt);
  logged = (refl, tt);
  unlogged = unlogged_elsewhere absentee no_show refl;
  consistent = ((refl, refl), tt);
  chained = ([], refl, tt);
}

abbrev passenger_cancels : List (ℤ × Command)
passenger_cancels = (pos 20, Command.cancel "b1" "p" "changed plans") ∷ []

run-IsValid_example : IsValid [] (run passenger_cancels (db_of paid)).tables
run-IsValid_example = run-IsValid [] passenger_cancels (db_of paid) paid-IsValid

abbrev cancelled_row : Booking
cancelled_row = record paid {
  status = cancelled;
  cancelled_at = some (pos 20);
  canceller_id = some "p";
  cancellation_reason = some "changed plans";
  refund_reason = some RefundReason.cancelled_by_passenger;
  updated_at = pos 20;
}

run_follows_example : pending_approval ⟶* cancelled
unfolding run call cancel change_booking decide_cancel transaction
run_follows_example =
    run_follows [] passenger_cancels (db_of paid) "b1" paid cancelled_row paid-IsValid refl refl

run_final_example : cancelled ≡ cancelled
unfolding run call cancel change_booking decide_cancel transaction
run_final_example =
    run_final [] passenger_cancels (db_of ended) "b1" ended ended ended-IsValid refl refl refl

change_booking-Outcome_example :
    Outcome
      (tables_of paid)
      (λ _ t. effect (pos 20) "b1" (decide_cancel (pos 20) "b1" "p" "late") (tables_of paid) ≡ ok t)
      (change_booking (pos 20) "b1" (decide_cancel (pos 20) "b1" "p" "late") (db_of paid))
change_booking-Outcome_example =
    change_booking-Outcome (pos 20) "b1" (decide_cancel (pos 20) "b1" "p" "late") (db_of paid)

abbrev pub ready : Booking
ready = record paid { status = approved }

abbrev pub riding : Booking
riding = record paid { status = BookingStatus.in_progress }

abbrev pub no_rows : Db
no_rows = record { tables = record { bookings = []; segments = []; history = [] }; faults = [] }

create-Outcome_example :
    Outcome no_rows.tables
      (λ _ t.
        (accepts no_rows.tables paid ≡ true)
        × (t ≡ with_booking (pos 1) paid [] first_entry no_rows.tables))
      (create (pos 1) paid [] first_entry no_rows)
create-Outcome_example = create-Outcome (pos 1) paid [] first_entry no_rows

-- two days later
abbrev late : ℤ
late = pos 200_000_000_000_000

due_uncontestable_example :
    failed (decide_contest_no_show late "p" "I was there" no_show_contest_window absentee) ≡ true
unfolding is_refund_due ◌-ℤ◌
due_uncontestable_example =
    due_uncontestable (step created no_show ∷ []) (tables_of absentee) "b1" absentee late late late
      (pos 5) no_show_contest_window "p" "I was there" absentee-IsValid refl refl (omega arith)

abbrev contested_change : Change
contested_change = record {
  set = λ r. record r {
    no_show_contested_at = some (pos 200);
    no_show_contested_by = some "p";
    no_show_contest_reason = some "I was there";
  };
  log = none;
}

contested_not_due_example :
    is_refund_due late late (pos 5) no_show_contest_window (contested_change.set absentee) ≡ false
unfolding decide_contest_no_show ◌-ℤ◌
contested_not_due_example =
    contested_not_due (step created no_show ∷ []) (tables_of absentee) "b1" absentee
      contested_change (pos 200) late late (pos 5) no_show_contest_window no_show_contest_window "p"
      "I was there" absentee-IsValid refl refl
