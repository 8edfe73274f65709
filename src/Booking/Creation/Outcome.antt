-- ===== src/Booking/Creation/Outcome.antt =====
-- What CreateBooking does to the tables.
use tissi_mah.Prelude.{
  ℤ, negsuc, eqb_ℤ, String, Bool, true, false, ◌||◌, Option, List, any, ◌≡◌, refl, if◌then◌else◌,
}
use mathlib.Core.Path.{subst}
use tissi_mah.Prelude.Result.{Result, ok, err, ◌>>◌}
use tissi_mah.Booking.Domain.{Booking, Segment, Error}
use tissi_mah.Booking.Store.{Tables, Db, next_call}
use tissi_mah.Booking.Store.Transaction.{Outcome}
use tissi_mah.Booking.Seats.{Redis}
use tissi_mah.Booking.Waypoints.{resolve_waypoint_orders, calculate_price_from_waypoints}
use tissi_mah.Booking.Repository.Creation.{accepts, create}
use tissi_mah.Booking.Repository.Creation.Outcome.{with_booking, create-Outcome}
use tissi_mah.Booking.Request.{
  CreateBookingInput, TripDetails, validate_create_input, check_trip, new_booking, new_segments,
  creation_entry,
}
use tissi_mah.Booking.Creation.{
  World, Failure, CreateBookingResult, is_active_booking_of, persist, persisted, book, book_at,
  if_held, if_alone, create_checked, reserve_seats, reserve_and_book, create_booking,
}

module _ (now service_fee : ℤ) (id reference : String) (input : CreateBookingInput)
    (trip : TripDetails) (before : Tables) where
  -- the booking that the input and the trip determine is written, and reported
  pub record Booked (orders : ℤ × ℤ) (result : CreateBookingResult) (after : Tables) : Type 0 where
    pub price : ℤ
    pub segments : List Segment
    pub priced :
        calculate_price_from_waypoints trip.waypoints input.pickup_waypoint_id
          input.dropoff_waypoint_id
        ≡ ok price
    pub split : new_segments id trip.waypoints input.segments ≡ ok segments
    pub accepted :
        accepts before (new_booking now service_fee id reference input trip orders price) ≡ true
    pub written :
        after
        ≡ with_booking now
            (new_booking now service_fee id reference input trip orders price)
            segments
            (creation_entry id input trip)
            before
    pub reported :
        result.total_amount
        ≡ (new_booking now service_fee id reference input trip orders price).total_amount

  -- a call that is refused, or panics, leaves the tables as they were
  abbrev pub BookOutcome : ℤ × ℤ → Result Failure CreateBookingResult × World → Type 0
  BookOutcome orders (ok result, w) = Booked orders result w.db.tables
  BookOutcome orders (err e, w) = w.db.tables ≡ before

  persisted-Outcome :
      (orders : ℤ × ℤ) (price : ℤ) (segments : List Segment) (w : World)
      (reply : Result Error (Unit {0}) × Db)
      → calculate_price_from_waypoints trip.waypoints input.pickup_waypoint_id
          input.dropoff_waypoint_id
        ≡ ok price
      → new_segments id trip.waypoints input.segments ≡ ok segments
      → Outcome before
          (λ _ t.
            (accepts before (new_booking now service_fee id reference input trip orders price)
              ≡ true)
            × (t
                ≡ with_booking now
                    (new_booking now service_fee id reference input trip orders price)
                    segments
                    (creation_entry id input trip)
                    before))
          reply
      → BookOutcome orders (
          persisted input orders
            (new_booking now service_fee id reference input trip orders price)
            w
            reply)
  persisted-Outcome orders price segments w (err e, db) priced split o = o
  persisted-Outcome orders price segments w (ok _, db) priced split o = record {
    price = price;
    segments = segments;
    priced = priced;
    split = split;
    accepted = o.0;
    written = o.1;
    reported = refl;
  }

  book_at-Outcome :
      (orders : ℤ × ℤ) (w : World) (p : Result Error ℤ) (q : Result Error (List Segment))
      → w.db.tables ≡ before
      → calculate_price_from_waypoints trip.waypoints input.pickup_waypoint_id
          input.dropoff_waypoint_id
        ≡ p
      → new_segments id trip.waypoints input.segments ≡ q
      → BookOutcome orders (book_at now service_fee id reference input trip orders w p q)
  unfolding persist new_booking
  book_at-Outcome orders w (err e) q same hp hq = same
  book_at-Outcome orders w (ok price) (err e) same hp hq = same
  book_at-Outcome orders w (ok price) (ok segments) same hp hq =
      persisted-Outcome orders price segments w
        (create now b segments (creation_entry id input trip) w.db) hp hq
        (subst
          (λ (t : Tables).
            Outcome t
              (λ _ u.
                (accepts t b ≡ true)
                × (u ≡ with_booking now b segments (creation_entry id input trip) t))
              (create now b segments (creation_entry id input trip) w.db))
          same (create-Outcome now b segments (creation_entry id input trip) w.db))
    where
      b : Booking
      b = new_booking now service_fee id reference input trip orders price

  reserve_and_book-Outcome :
      (orders : ℤ × ℤ) (w : World)
      → w.db.tables ≡ before
      → BookOutcome orders (reserve_and_book now service_fee id reference input trip orders w)
  unfolding reserve_and_book book
  reserve_and_book-Outcome orders w same =
      by_test (eqb_ℤ orders.0 (negsuc 0) || eqb_ℤ orders.1 (negsuc 0))
    where
      held_first :
          (h : Result Failure (Unit {0}) × Option Redis)
          → BookOutcome orders (if_held w (book now service_fee id reference input trip orders) h)
      held_first (err e, cache) = same
      held_first (ok _, cache) =
          book_at-Outcome orders (record w { cache = cache })
            (calculate_price_from_waypoints trip.waypoints input.pickup_waypoint_id
              input.dropoff_waypoint_id)
            (new_segments id trip.waypoints input.segments) same refl refl

      by_test :
          (unknown : Bool)
          → BookOutcome orders (
              if unknown
              then (err (Failure.refused Error.invalid_waypoints), w)
              else if_held w
                  (book now service_fee id reference input trip orders)
                  (reserve_seats input trip orders w.cache))
      by_test true = same
      by_test false = held_first (reserve_seats input trip orders w.cache)

-- What a call of CreateBooking that returns a booking has checked and written.
pub record Created (now service_fee : ℤ) (id reference : String) (input : CreateBookingInput)
    (details : Result (Unit {0}) (Option TripDetails)) (verified : Result (Unit {0}) Bool)
    (before : Tables) (result : CreateBookingResult) (after : Tables) : Type 0 where
  pub trip : TripDetails
  pub checked : (validate_create_input input >> check_trip input details verified) ≡ ok trip
  pub alone : any (is_active_booking_of input.passenger_id input.trip_id) before.bookings ≡ false
  pub booked :
      Booked now service_fee id reference input trip before
        (resolve_waypoint_orders trip.waypoints input.pickup_waypoint_id input.dropoff_waypoint_id)
        result
        after

abbrev pub CreateOutcome :
    (now service_fee : ℤ) (id reference : String) (input : CreateBookingInput)
    (details : Result (Unit {0}) (Option TripDetails)) (verified : Result (Unit {0}) Bool)
    (before : Tables)
    → Result Failure CreateBookingResult × World
    → Type 0
CreateOutcome now service_fee id reference input details verified before (ok result, w) =
    Created now service_fee id reference input details verified before result w.db.tables
CreateOutcome now service_fee id reference input details verified before (err e, w) =
    w.db.tables ≡ before

module _ (now service_fee : ℤ) (id reference : String) (input : CreateBookingInput)
    (details : Result (Unit {0}) (Option TripDetails)) (verified : Result (Unit {0}) Bool) where
  checked-Outcome :
      (w : World) (c : Result Error TripDetails)
      → (validate_create_input input >> check_trip input details verified) ≡ c
      → CreateOutcome now service_fee id reference input details verified w.db.tables
          (create_checked now service_fee id reference input w c)
  checked-Outcome w (err e) h = refl
  checked-Outcome w (ok trip) h =
      by_answer (next_call w.db.faults).0
        (any (is_active_booking_of input.passenger_id input.trip_id) w.db.tables.bookings) refl
    where
      orders : ℤ × ℤ
      orders =
          resolve_waypoint_orders trip.waypoints input.pickup_waypoint_id input.dropoff_waypoint_id

      from_booking :
          (reply : Result Failure CreateBookingResult × World)
          → any (is_active_booking_of input.passenger_id input.trip_id) w.db.tables.bookings ≡ false
          → BookOutcome now service_fee id reference input trip w.db.tables orders reply
          → CreateOutcome now service_fee id reference input details verified w.db.tables reply
      from_booking (ok result, w') alone o = record {
        trip = trip;
        checked = h;
        alone = alone;
        booked = o;
      }
      from_booking (err e, w') alone o = o

      after : Db
      after = record w.db { faults = (next_call w.db.faults).1 }

      by_answer :
          (fails active : Bool)
          → any (is_active_booking_of input.passenger_id input.trip_id) w.db.tables.bookings
            ≡ active
          → CreateOutcome now service_fee id reference input details verified w.db.tables (
              if_alone w
                (reserve_and_book now service_fee id reference input trip orders)
                (if fails then (err Error.data_retrieval_failed, after) else (ok active, after)))
      by_answer true active a = refl
      by_answer false true a = refl
      by_answer false false a =
          from_booking
            (reserve_and_book now service_fee id reference input trip orders
              (record w { db = after }))
            a
            (reserve_and_book-Outcome now service_fee id reference input trip w.db.tables orders
              (record w { db = after }) refl)

  -- A call of CreateBooking that returns a booking has passed the checks of the input, of the trip and of
  -- the passenger, has found no active booking of the passenger on the trip, and has written exactly the
  -- priced booking, its segments and its first entry of the history, of a row that the constraints of the
  -- table accept. A call that returns an error or panics leaves the tables as they were.
  pub create_booking-Outcome :
      (w : World)
      → CreateOutcome now service_fee id reference input details verified w.db.tables
          (create_booking now service_fee id reference input details verified w)
  unfolding create_booking
  create_booking-Outcome w =
      checked-Outcome w (validate_create_input input >> check_trip input details verified) refl
