-- ===== src/Booking/Handlers/Outcome.antt =====
-- What an answer or an error of ConfirmPayment says of the tables
-- (services/booking-service/internal/service/booking_service_impl.go).
use tissi_mah.Prelude.{
  ℤ, ltb_ℤ, String, str_eq, Bool, true, false, not, ◌&&◌, ◌||◌, Option, none, some, is_some, ◌≡◌,
  refl, sym, ap, ◌∙◌, if_rule, if_cases,
}
use tissi_mah.Prelude.Result.{Result, ok, err, next_call}
use tissi_mah.Booking.Domain.{Booking, BookingStatus, Error, payment_pending, payment_failed}
use tissi_mah.Booking.Store.{Tables, Db, find_row, touch, update_row}
use tissi_mah.Booking.Seats.{Redis, CacheError, is_active}
use tissi_mah.Booking.Request.{TripDetails}
use tissi_mah.Booking.Creation.{World, Failure, has_active_booking}
use tissi_mah.Booking.Repository.Guards.{same_status}
use tissi_mah.Booking.Repository.Payment
use tissi_mah.Booking.Repository.Payment.{confirmed}
use tissi_mah.Booking.Handlers.{
  found, get_by_id, Reply, with_booking, status_after_payment, enough_seats, seats_taken,
  counters_ready, take_seats, if_not_rebooked, reserve_seats_for_reactivation, confirm_after,
  confirm_at, if_taken, trip_of, confirm_read, confirm_payment_once, is_invalid_transition,
  attempted, confirm_payment,
}
use tissi_mah.Booking.Handlers.Writes.{
  status_after_active, Written, written_rows, confirm_payment_writes,
}

-- a handler of a booking that was read
pub read_rule :
    {A : Type 0} (R : Reply A → Type 0) (w : World) (next : Booking → World → Reply A) (id : String)
    → ((e : Failure) (w' : World) → w'.db.tables ≡ w.db.tables → R (err e, w'))
    → ((b : Booking) (w' : World)
        → find_row id w.db.tables.bookings ≡ some b
        → w'.db.tables ≡ w.db.tables
        → R (next b w'))
    → R (with_booking w next (get_by_id id w.db))
read_rule {A} R w next id fails step =
    if_rule (λ (r : Result Error Booking × Db). R (with_booking w next r)) (next_call w.db.faults).0
      (fails (Failure.refused Error.data_retrieval_failed) (record w { db = later }) refl)
      (by_row (find_row id w.db.tables.bookings) refl)
  where
    later : Db
    later = record (w.db) { faults = (next_call w.db.faults).1 }

    by_row :
        (o : Option Booking)
        → find_row id w.db.tables.bookings ≡ o
        → R (with_booking w next (found (record (w.db) { faults = (next_call w.db.faults).1 }) o))
    by_row none e = fails (Failure.refused Error.booking_not_found) (record w { db = later }) refl
    by_row (some b) e = step b (record w { db = later }) e refl

-- the reservation for a late payment writes no table
abbrev Untouched : Tables → Reply (Unit {0}) → Type 0
Untouched t r = r.1.db.tables ≡ t

seats_taken-Untouched :
    (w : World) (reply : Result CacheError (Unit {0}) × Redis)
    → Untouched w.db.tables (seats_taken w reply)
seats_taken-Untouched w (err CacheError.panicked, r) = refl
seats_taken-Untouched w (err CacheError.command_failed, r) = refl
seats_taken-Untouched w (err CacheError.no_seats_available, r) = refl
seats_taken-Untouched w (ok _, r) = refl

enough_seats-Untouched :
    (b : Booking) (details : TripDetails) (w : World)
    → Untouched w.db.tables (enough_seats b details w)
enough_seats-Untouched b details w =
    if_rule (Untouched w.db.tables) (ltb_ℤ details.available_seats b.seats_booked) refl refl

counters_ready-Untouched :
    (b : Booking) (details : TripDetails) (w : World) (reply : Result CacheError (Unit {0}) × Redis)
    → Untouched w.db.tables (counters_ready b details w reply)
counters_ready-Untouched b details w (err e, r) =
    enough_seats-Untouched b details (record w { cache = some r })
counters_ready-Untouched b details w (ok _, r) = seats_taken-Untouched w _

take_seats-Untouched :
    (b : Booking) (details : TripDetails) (w : World) (cache : Option Redis)
    → Untouched w.db.tables (take_seats b details w cache)
take_seats-Untouched b details w none = enough_seats-Untouched b details w
take_seats-Untouched b details w (some r) = counters_ready-Untouched b details w _

if_not_rebooked-Untouched :
    (b : Booking) (details : TripDetails) (w : World) (reply : Result Error Bool × Db)
    → reply.1.tables ≡ w.db.tables
    → Untouched w.db.tables (if_not_rebooked b details w reply)
if_not_rebooked-Untouched b details w (err e, db) same = same
if_not_rebooked-Untouched b details w (ok true, db) same = same
if_not_rebooked-Untouched b details w (ok false, db) same =
    take_seats-Untouched b details (record w { db = db }) w.cache ∙ same

reactivation-Untouched :
    (b : Booking) (details : Option TripDetails) (w : World)
    → Untouched w.db.tables (reserve_seats_for_reactivation b details w)
unfolding reserve_seats_for_reactivation
reactivation-Untouched b none w = refl
reactivation-Untouched b (some details) w =
    if_rule (Untouched w.db.tables)
      (not (str_eq details.status "scheduled") && not (str_eq details.status "inProgress")) refl
      (if_not_rebooked-Untouched b details w (has_active_booking b.passenger_id b.trip_id w.db) (
        if_rule (λ (r : Result Error Bool × Db). r.1.tables ≡ w.db.tables) (next_call w.db.faults).0
          refl refl))

-- An error leaves the tables as they were; an answer is the status of the booking from now on, which
-- holds its seats and waited for its payment, in time or late.
abbrev pub Confirmed : ℤ → String → Tables → Reply BookingStatus → Type 0
Confirmed now id t (err e, w) = w.db.tables ≡ t
Confirmed now id t (ok status, w) =
    (b : Booking) × (find_row id t.bookings ≡ some b)
    × ((same_status b.status payment_pending || same_status b.status payment_failed) ≡ true)
    × (is_active status ≡ true)
    × (w.db.tables.bookings ≡ update_row id (touch now (confirmed now status)) t.bookings)

module _ (get_trip_details : String → Result (Unit {0}) (Option TripDetails)) (now : ℤ)
    (id : String) where
  written :
      (b : Booking) (status : BookingStatus) (t : Tables) (reactivate : Bool) (w : World)
      (reply : Result Error (Unit {0}) × Db)
      → find_row id t.bookings ≡ some b
      → (same_status b.status payment_pending || same_status b.status payment_failed) ≡ true
      → is_active status ≡ true
      → w.db.tables ≡ t
      → Written now id b status w reply
      → Confirmed now id t (confirm_after reactivate b status w reply)
  written b status t reactivate w (err e, db) here waits active same done = done ∙ same
  written b status t reactivate w (ok _, db) here waits active same done = (
    b,
    here,
    waits,
    active,
    written_rows now id b status w db (ap (λ (u : Tables). find_row id u.bookings) same ∙ here) done
        ∙ ap (λ (u : Tables). update_row id (touch now (confirmed now status)) u.bookings) same,
  )

  confirm_at-Confirmed :
      (b : Booking) (details : Option TripDetails) (t : Tables) (reactivate : Bool) (w : World)
      → find_row id t.bookings ≡ some b
      → (same_status b.status payment_pending || same_status b.status payment_failed) ≡ true
      → w.db.tables ≡ t
      → Confirmed now id t (confirm_at now id reactivate b (status_after_payment details) w)
  confirm_at-Confirmed b details t reactivate w here waits same =
      written b (status_after_payment details) t reactivate w
        (Payment.confirm_payment now id b.status (status_after_payment details) w.db) here waits
        (status_after_active details) same
        (confirm_payment_writes now id b (status_after_payment details) w)

  late :
      (b : Booking) (details : Option TripDetails) (t : Tables) (reply : Reply (Unit {0}))
      → find_row id t.bookings ≡ some b
      → (same_status b.status payment_pending || same_status b.status payment_failed) ≡ true
      → Untouched t reply
      → Confirmed now id t
          (if_taken (confirm_at now id true b (status_after_payment details)) reply)
  late b details t (err e, w) here waits same = same
  late b details t (ok _, w) here waits same =
      confirm_at-Confirmed b details t true w here waits same

  confirm_read-Confirmed :
      (b : Booking) (t : Tables) (w : World)
      → find_row id t.bookings ≡ some b
      → w.db.tables ≡ t
      → Confirmed now id t (confirm_read get_trip_details now id b w)
  confirm_read-Confirmed b t w here same =
      let details = trip_of (get_trip_details b.trip_id) in
      if_cases (Confirmed now id t) (same_status b.status payment_pending)
        (λ pending. confirm_at-Confirmed b details t false w here (rw pending refl) same)
        (λ timely.
          if_cases (Confirmed now id t) (same_status b.status payment_failed)
            (λ failed.
              late b details t (reserve_seats_for_reactivation b details w) here
                (rw (timely, failed) refl) (reactivation-Untouched b details w ∙ same))
            (λ _. if_rule (Confirmed now id t) (is_some b.payment_completed_at) same same))

  once-Confirmed :
      (t : Tables) (w : World)
      → w.db.tables ≡ t
      → Confirmed now id t (confirm_payment_once get_trip_details now id w)
  unfolding confirm_payment_once
  once-Confirmed t w same =
      read_rule (Confirmed now id t) w (confirm_read get_trip_details now id) id
        (λ e w' still. still ∙ same)
        (λ b w' here still.
          confirm_read-Confirmed b t w'
            (ap (λ (u : Tables). find_row id u.bookings) (sym same) ∙ here) (still ∙ same))

  -- ConfirmPayment, with its second attempt: an error leaves the tables as they were; an answer is of a
  -- booking whose payment was pending or had failed, and is the status, which holds the seats, that
  -- exactly this booking is updated to.
  pub confirm_payment-Confirmed :
      (transaction : String) (w : World)
      → Confirmed now id w.db.tables (confirm_payment get_trip_details now id transaction w)
  unfolding confirm_payment
  confirm_payment-Confirmed transaction w =
      if_rule (Confirmed now id w.db.tables) (str_eq id "" || str_eq transaction "") refl
        (again (confirm_payment_once get_trip_details now id w) (once-Confirmed w.db.tables w refl))
    where
      again :
          (r : Reply BookingStatus)
          → Confirmed now id w.db.tables r
          → Confirmed now id w.db.tables
              (attempted (confirm_payment_once get_trip_details now id) r)
      again (ok s, w') k = k
      again (err e, w') k =
          if_rule (Confirmed now id w.db.tables) (is_invalid_transition e)
            (once-Confirmed w.db.tables w' k) k
