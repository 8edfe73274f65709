-- ===== src/Booking/Creation.antt =====
-- services/booking-service/internal/service/booking_service_impl.go: the steps of CreateBooking. The
-- notification, the invalidation of cached pages and the copy of the booked seats to trips-service,
-- whose failure is only logged, are left out: they change neither the tables nor the counters.
pub mod Outcome
use tissi_mah.Prelude.{
  ℤ, pos, negsuc, ◌+ℤ◌, ◌*ℤ◌, ltb_ℤ, eqb_ℤ, int64, int16, quot100, String, str_eq, Bool, true,
  false, not, ◌&&◌, ◌||◌, Option, none, some, List, [], ◌∷◌, any, if◌then◌else◌,
}
use tissi_mah.Prelude.Result.{Result, ok, err, ◌>>◌}
use tissi_mah.Booking.Domain.{
  BookingStatus, PaymentMethod, Booking, Segment, StatusHistoryEntry, Error, created,
  payment_pending, pending_approval, approved,
}
use tissi_mah.Booking.Store.{Db, Action, next_call}
use tissi_mah.Booking.Seats.{
  Redis, CacheError, is_active, init_segment_seat_counters, reserve_segment_seats,
  restore_segment_seats,
}
use tissi_mah.Booking.Waypoints.{
  TripWaypoint, resolve_waypoint_orders, get_max_waypoint_order, calculate_price_from_waypoints,
}
use tissi_mah.Booking.Repository.Guards.{is_cash}
use tissi_mah.Booking.Repository.Creation.{create}
use tissi_mah.Booking.Request.{
  SegmentInput, CreateBookingInput, TripDetails, validate_create_input, check_trip, new_booking,
  new_segments, creation_entry,
}

abbrev pub is_active_booking_of : String → String → Booking → Bool
is_active_booking_of passenger trip b =
    str_eq b.passenger_id passenger && str_eq b.trip_id trip && is_active b.status

-- HasActiveBooking of booking_read_repository.go
abbrev pub has_active_booking : String → String → Action Bool
has_active_booking passenger trip db =
    let (fails, rest) = next_call db.faults in
    let db' : Db = record db { faults = rest } in
    if fails
    then (err Error.data_retrieval_failed, db')
    else (ok (any (is_active_booking_of passenger trip) db.tables.bookings), db')

-- the database, and the cache where one is configured
pub record World : Type 0 where
  pub db : Db
  pub cache : Option Redis

-- An error of the service, or a panic that ends the call.
pub data Failure : Type 0 where
  refused : Error → Failure
  panicked : Failure

pub record CreateBookingResult : Type 0 where
  pub booking_id : String
  pub booking_reference : String
  pub status : BookingStatus
  pub total_amount : ℤ

abbrev reserved : Result CacheError (Unit {0}) × Redis → Result Failure (Unit {0}) × Option Redis
reserved (ok _, r) = (ok tt, some r)
reserved (err CacheError.panicked, r) = (err Failure.panicked, some r)
reserved (err CacheError.command_failed, r) =
    (err (Failure.refused Error.no_seats_available), some r)
reserved (err CacheError.no_seats_available, r) =
    (err (Failure.refused Error.no_seats_available), some r)

-- step 7: with no counters, the booking goes on without a check
unfoldable pub reserve_seats :
    CreateBookingInput
    → TripDetails
    → ℤ × ℤ
    → Option Redis
    → Result Failure (Unit {0}) × Option Redis
reserve_seats input trip orders none =
    if ltb_ℤ trip.available_seats input.seats_booked
    then (err (Failure.refused Error.no_seats_available), none)
    else (ok tt, none)
reserve_seats input trip orders (some r) =
    let (init, r') =
      init_segment_seat_counters input.trip_id trip.total_seats
        (get_max_waypoint_order trip.waypoints) r in
    elim init [
      | err _ ↦ (ok tt, some r')
      | ok _ ↦
          reserved (reserve_segment_seats input.trip_id orders.0 orders.1 input.seats_booked r')
    ]

-- the compensation of step 11
abbrev restored : CreateBookingInput → ℤ × ℤ → Option Redis → Option Redis
restored input orders none = none
restored input orders (some r) =
    some (restore_segment_seats input.trip_id orders.0 orders.1 input.seats_booked r).1

abbrev pub persisted :
    CreateBookingInput
    → ℤ × ℤ
    → Booking
    → World
    → Result Error (Unit {0}) × Db
    → Result Failure CreateBookingResult × World
persisted input orders b w (err e, db) =
    (err (Failure.refused e), record { db = db; cache = restored input orders w.cache })
persisted input orders b w (ok _, db) = (
  ok (record {
    booking_id = b.booking_id;
    booking_reference = b.booking_reference;
    status = b.status;
    total_amount = b.total_amount;
  }),
  record w { db = db },
)

-- step 11
unfoldable pub persist :
    ℤ
    → CreateBookingInput
    → TripDetails
    → ℤ × ℤ
    → Booking
    → List Segment
    → World
    → Result Failure CreateBookingResult × World
persist now input trip orders b segments w =
    persisted input orders b w (create now b segments (creation_entry b.booking_id input trip) w.db)

-- steps 8 to 11, from the price and from the segments
abbrev pub book_at :
    ℤ
    → ℤ
    → String
    → String
    → CreateBookingInput
    → TripDetails
    → ℤ × ℤ
    → World
    → Result Error ℤ
    → Result Error (List Segment)
    → Result Failure CreateBookingResult × World
book_at now service_fee id reference input trip orders w (err e) segments =
    (err (Failure.refused e), w)
book_at now service_fee id reference input trip orders w (ok price) (err e) =
    (err (Failure.refused e), w)
book_at now service_fee id reference input trip orders w (ok price) (ok segments) =
    persist now input trip orders (new_booking now service_fee id reference input trip orders price)
      segments w

unfoldable pub book :
    ℤ
    → ℤ
    → String
    → String
    → CreateBookingInput
    → TripDetails
    → ℤ × ℤ
    → World
    → Result Failure CreateBookingResult × World
book now service_fee id reference input trip orders w =
    book_at now service_fee id reference input trip orders w
      (calculate_price_from_waypoints trip.waypoints input.pickup_waypoint_id
        input.dropoff_waypoint_id)
      (new_segments id trip.waypoints input.segments)

abbrev pub if_held :
    {A : Type 0}
    → World
    → (World → Result Failure A × World)
    → Result Failure (Unit {0}) × Option Redis
    → Result Failure A × World
if_held w next (err e, cache) = (err e, record w { cache = cache })
if_held w next (ok _, cache) = next (record w { cache = cache })

-- steps 6 to 11
unfoldable pub reserve_and_book :
    ℤ
    → ℤ
    → String
    → String
    → CreateBookingInput
    → TripDetails
    → ℤ × ℤ
    → World
    → Result Failure CreateBookingResult × World
reserve_and_book now service_fee id reference input trip orders w =
    if eqb_ℤ orders.0 (negsuc 0) || eqb_ℤ orders.1 (negsuc 0)
    then (err (Failure.refused Error.invalid_waypoints), w)
    else if_held w (book now service_fee id reference input trip orders)
        (reserve_seats input trip orders w.cache)

abbrev pub if_alone :
    {A : Type 0}
    → World
    → (World → Result Failure A × World)
    → Result Error Bool × Db
    → Result Failure A × World
if_alone w next (err e, db) = (err (Failure.refused e), record w { db = db })
if_alone w next (ok true, db) =
    (err (Failure.refused Error.duplicate_booking), record w { db = db })
if_alone w next (ok false, db) = next (record w { db = db })

-- steps 5 to 11, from the outcome of the checks before
abbrev pub create_checked :
    ℤ
    → ℤ
    → String
    → String
    → CreateBookingInput
    → World
    → Result Error TripDetails
    → Result Failure CreateBookingResult × World
create_checked now service_fee id reference input w (err e) = (err (Failure.refused e), w)
create_checked now service_fee id reference input w (ok trip) =
    if_alone w
      (reserve_and_book now service_fee id reference input trip
        (resolve_waypoint_orders trip.waypoints input.pickup_waypoint_id input.dropoff_waypoint_id))
      (has_active_booking input.passenger_id input.trip_id w.db)

-- CreateBooking
unfoldable pub create_booking :
    ℤ
    → ℤ
    → String
    → String
    → CreateBookingInput
    → Result (Unit {0}) (Option TripDetails)
    → Result (Unit {0}) Bool
    → World
    → Result Failure CreateBookingResult × World
create_booking now service_fee id reference input details verified w =
    create_checked now service_fee id reference input w
      (validate_create_input input >> check_trip input details verified)
