-- ===== src/Booking/Tests/Seats.antt =====
-- Concrete reservations, fares and bookings, and uses of the theorems at concrete inputs.
use tissi_mah.Prelude.{
  ℕ, ℤ, pos, ◌+ℤ◌, ◌-ℤ◌, ◌≤ℤ◌, int64, String, true, false, some, List, [], ◌∷◌, ◌≡◌, refl, arith,
}
use tissi_mah.Prelude.Result.{ok}
use tissi_mah.Booking.Domain.{PaymentMethod}
use tissi_mah.Booking.Store.{update_row}
use tissi_mah.Booking.Seats.{
  Counters, Redis, covers, segment_occupancy, reserve_segment_seats, reserve_segment_seats_script,
  restore_segment_seats, get_min_segment_seats, all_have, legs,
}
use tissi_mah.Booking.Seats.Reservation.{
  ReserveOutcome, reserve_segment_seats-Outcome, restore-reserve,
}
use tissi_mah.Booking.Seats.Minimum.{answers, get_min_segment_seats-answers}
use tissi_mah.Booking.Seats.Balance.{
  Balanced, Holds, reserve_segment_seats-Balanced, restore_segment_seats-Balanced,
}
use tissi_mah.Booking.Waypoints.{
  TripWaypoint, calculate_price_from_waypoints, get_max_waypoint_order,
}
use tissi_mah.Booking.Waypoints.Fares.{calculate_price_from_waypoints-add}
use tissi_mah.Booking.Request.{CreateBookingInput, TripDetails}
use tissi_mah.Booking.Creation.{World, create_booking}
use tissi_mah.Booking.Creation.Outcome.{CreateOutcome, create_booking-Outcome}
use tissi_mah.Booking.Reconciliation.{reconcile_trip}
use tissi_mah.Booking.Reconciliation.Repair.{calm, counters_of, reconcile_trip-Balanced}
use tissi_mah.Booking.Tests.{paid, ended, no_rows}

-- four free seats on every leg of every trip
abbrev pub four_free : Redis
four_free = record {
  counters = λ t k. some (pos 4);
  deadlines = λ t k. some (pos 10);
  clock = pos 1;
  faults = [];
}

reserve_segment_seats-Outcome_example :
    ReserveOutcome "t"
      (pos 1)
      (pos 3)
      (pos 2)
      four_free
      (reserve_segment_seats "t" (pos 1) (pos 3) (pos 2) four_free)
reserve_segment_seats-Outcome_example =
    reserve_segment_seats-Outcome "t" (pos 1) (pos 3) (pos 2) four_free

restore-reserve_example :
    (restore_segment_seats "t"
        (pos 1)
        (pos 3)
        (pos 2)
        (reserve_segment_seats "t" (pos 1) (pos 3) (pos 2) four_free).1).1.counters
      "t"
      (pos 1)
    ≡ some (pos 4)
unfolding reserve_segment_seats reserve_segment_seats_script ◌-ℤ◌ ◌+ℤ◌
restore-reserve_example =
    restore-reserve "t" (pos 1) (pos 3) (pos 2) four_free (omega arith) refl refl "t" (pos 1)

free_for_all :
    (k : ℤ)
    → covers (pos 1) (pos 3) k ≡ true
    → some (pos 4) ≡ some (pos 4 -ℤ segment_occupancy "t" k [])
unfolding segment_occupancy ◌-ℤ◌
free_for_all k i = refl

paid-Holds : Holds "t" (pos 1) (pos 3) (pos 2) paid
paid-Holds = record {
  of_trip = refl;
  from_stop = refl;
  to_stop = refl;
  seats = refl;
  active = refl;
}

reserve_segment_seats-Balanced_example :
    Balanced "t"
      (pos 4)
      (pos 3)
      (reserve_segment_seats "t" (pos 1) (pos 3) (pos 2) four_free).1.counters
      (paid ∷ [])
    × ((k : ℤ)
        → covers (pos 1) (pos 3) k ≡ true
        → covers (pos 1) (pos 3) k ≡ true
        → segment_occupancy "t" k (paid ∷ []) ≤ℤ pos 4)
unfolding reserve_segment_seats reserve_segment_seats_script ◌-ℤ◌ ◌+ℤ◌
reserve_segment_seats-Balanced_example =
    reserve_segment_seats-Balanced "t" (pos 4) (pos 3) (pos 1) (pos 3) (pos 2) [] paid four_free
      paid-Holds free_for_all refl

abbrev left_over : Counters
left_over = λ t k. some (pos 4 -ℤ segment_occupancy t k (paid ∷ []))

restore_segment_seats-Balanced_example :
    Balanced "t"
      (pos 4)
      (pos 3)
      (restore_segment_seats "t"
        (pos 1)
        (pos 3)
        (pos 2)
        (record four_free { counters = left_over; faults = [] })).1.counters
      (update_row "b1" (λ _. ended) (paid ∷ []))
restore_segment_seats-Balanced_example =
    restore_segment_seats-Balanced "t" (pos 4) (pos 3) (pos 1) (pos 3) (pos 2) (paid ∷ []) "b1" paid
      (λ _. ended) four_free left_over paid-Holds refl refl (λ k i. refl)

abbrev stop : String → ℕ → ℕ → TripWaypoint
stop id order price = record {
  waypoint_id = id;
  sequencer_order = pos order;
  price_from_previous = pos price;
}

abbrev route : List TripWaypoint
route = stop "w1" 1 0 ∷ stop "w2" 2 700 ∷ stop "w3" 3 300 ∷ []

calculate_price_from_waypoints-add_example :
    calculate_price_from_waypoints route "w1" "w3" ≡ ok (int64 (pos 700 +ℤ pos 300))
unfolding calculate_price_from_waypoints int64 ◌+ℤ◌
calculate_price_from_waypoints-add_example =
    calculate_price_from_waypoints-add route "w1" "w2" "w3" (pos 700) (pos 300) refl refl

abbrev pub trip : TripDetails
trip = record {
  driver_id = "d";
  status = "scheduled";
  available_seats = pos 4;
  total_seats = pos 4;
  auto_approve_enabled = false;
  waypoints = route;
}

abbrev request : CreateBookingInput
request = record {
  passenger_id = "p";
  trip_id = "t";
  pickup_waypoint_id = "w1";
  dropoff_waypoint_id = "w3";
  seats_booked = pos 2;
  payment_method = PaymentMethod.mobile_money;
  segments = record { pickup_waypoint_id = "w1"; dropoff_waypoint_id = "w3" } ∷ [];
  passenger_message = "";
  extra_minutes_detour = pos 0;
  extra_detour_price = pos 0;
}

abbrev world : World
world = record { db = no_rows; cache = some four_free }

create_booking-Outcome_example :
    CreateOutcome
      (pos 1)
      (pos 10)
      "b1"
      "RES-1"
      request
      (ok (some trip))
      (ok true)
      no_rows.tables
      (create_booking (pos 1) (pos 10) "b1" "RES-1" request (ok (some trip)) (ok true) world)
create_booking-Outcome_example =
    create_booking-Outcome (pos 1) (pos 10) "b1" "RES-1" request (ok (some trip)) (ok true) world

reconcile_trip-Balanced_example :
    Balanced "t"
      (pos 4)
      (get_max_waypoint_order route)
      (counters_of (reconcile_trip "t" (ok (some trip)) (calm no_rows.tables four_free)).1)
      []
reconcile_trip-Balanced_example = reconcile_trip-Balanced "t" trip no_rows.tables four_free

get_min_segment_seats-answers_example :
    answers
      (pos 2)
      (get_min_segment_seats "t"
        (pos 1)
        (pos 3)
        (record four_free { counters = λ t k. some (pos 4); faults = [] })).0
    ≡ all_have "t" (pos 2) (legs (pos 1) (pos 3)) (λ t k. some (pos 4))
unfolding ◌-ℤ◌ ◌+ℤ◌
get_min_segment_seats-answers_example =
    get_min_segment_seats-answers "t" four_free (λ t k. some (pos 4)) (pos 1) (pos 3) (pos 2)
      (omega arith) ((4, refl), ((4, refl), tt))
