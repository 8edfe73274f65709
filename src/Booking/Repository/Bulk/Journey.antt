-- ===== src/Booking/Repository/Bulk/Journey.antt =====
-- What the starts and completions of
-- services/booking-service/internal/repository/implementations/booking_write_repository.go do to each
-- booking of a waypoint.
use tissi_mah.Prelude.{
  ℤ, String, str_eq, eq_iff, true, some, none, List, map, ◌≡◌, refl, and_all, Bool-clash, arith,
}
use tissi_mah.Booking.Domain.{
  BookingStatus, Booking, StatusHistoryEntry, approved, in_progress, completed,
}
use tissi_mah.Booking.Store.{Tables, Db, change_bookings}
use tissi_mah.Booking.Store.Transaction.{Outcome}
use tissi_mah.Booking.Store.Rows.{UniqueIds}
use tissi_mah.Booking.Repository.Guards.{same_status}
use tissi_mah.Booking.Repository.Bulk.{
  at_waypoint, starts_at, start_change, start_bookings_for_waypoint, completes_at, complete_change,
  complete_bookings_for_waypoint,
}
use tissi_mah.Booking.Repository.Bulk.Effect.{returning}
use tissi_mah.Booking.Repository.Bulk.Sweep.{Swept, change_bookings-Swept}

-- an entry that the system writes with no reason, from one status to another
abbrev pub LogsStep : BookingStatus → BookingStatus → Booking → StatusHistoryEntry → Type 0
LogsStep previous new_status b e = e ≡ record {
  booking_id = b.booking_id;
  previous_status = previous;
  new_status = new_status;
  changed_by = "system";
  changed_by_type = "system";
  change_reason = none;
}

-- the passengers of the picked bookings
abbrev pub Passengers : (List Booking → Tables → Type 0) → List String → Tables → Type 0
Passengers Done passengers u =
    (picked : List Booking) × (passengers ≡ map (λ b. b.passenger_id) picked) × Done picked u

status_is : (s t : BookingStatus) → same_status s t ≡ true → s ≡ t
status_is s t e = ground arith

at_waypoint_iff :
    (waypoint_of : Booking → String) (trip waypoint : String) (status : BookingStatus) (b : Booking)
    → (at_waypoint waypoint_of trip waypoint status b ≡ true
        → (b.trip_id ≡ trip) × (waypoint_of b ≡ waypoint) × (b.status ≡ status))
      × ((b.trip_id ≡ trip) × (waypoint_of b ≡ waypoint) × (b.status ≡ status)
          → same_status status status ≡ true
          → at_waypoint waypoint_of trip waypoint status b ≡ true)
unfolding at_waypoint
at_waypoint_iff waypoint_of trip waypoint status b = (
  λ e.
      let h = and_all (str_eq b.trip_id trip) _ _ e in
      (
        (eq_iff b.trip_id trip).0 h.0,
        (eq_iff (waypoint_of b) waypoint).0 h.1,
        status_is b.status status h.2,
      ),
  λ k same. rw ((eq_iff b.trip_id trip).1 k.0, (eq_iff (waypoint_of b) waypoint).1 k.1, k.2) same,
)

-- On a table with unique identifiers, StartBookingsForWaypoint fails and leaves the tables as they were, or
-- gives each approved booking of the trip that begins at the waypoint the status inProgress, with one
-- entry, and returns their passengers; every other row and the segments stay.
pub start_bookings_for_waypoint-Swept :
    (now : ℤ) (trip waypoint : String) (db : Db)
    → UniqueIds db.tables.bookings
    → Outcome db.tables
        (Passengers (
          Swept
            (λ b. (b.trip_id ≡ trip) × (b.pickup_waypoint_id ≡ waypoint) × (b.status ≡ approved))
            (λ b b'. b' ≡ record b { status = in_progress; updated_at = now })
            (LogsStep approved in_progress)
            db.tables))
        (start_bookings_for_waypoint now trip waypoint db)
unfolding start_bookings_for_waypoint starts_at start_change
start_bookings_for_waypoint-Swept now trip waypoint db unique =
    returning db.tables (map (λ b. b.passenger_id)) _ _
      (change_bookings now (starts_at trip waypoint) start_change db) (λ bs u h. (bs, refl, h))
      (change_bookings-Swept
        (λ b. (b.trip_id ≡ trip) × (b.pickup_waypoint_id ≡ waypoint) × (b.status ≡ approved))
        (λ b b'. b' ≡ record b { status = in_progress; updated_at = now })
        (LogsStep approved in_progress) now (starts_at trip waypoint) start_change db
        (λ b e. (
          (at_waypoint_iff (λ b. b.pickup_waypoint_id) trip waypoint approved b).0 e,
          refl,
          (_, refl, refl),
        ))
        (λ b e k.
          Bool-clash (starts_at trip waypoint b)
            ((at_waypoint_iff (λ b. b.pickup_waypoint_id) trip waypoint approved b).1 k refl) e)
        (λ b r. refl) unique)

-- On a table with unique identifiers, CompleteBookingsForWaypoint fails and leaves the tables as they were,
-- or gives each booking in progress of the trip that ends at the waypoint the status completed, at this
-- time and with one entry, and returns their passengers; every other row and the segments stay.
pub complete_bookings_for_waypoint-Swept :
    (now : ℤ) (trip waypoint : String) (db : Db)
    → UniqueIds db.tables.bookings
    → Outcome db.tables
        (Passengers (
          Swept
            (λ b.
              (b.trip_id ≡ trip) × (b.dropoff_waypoint_id ≡ waypoint) × (b.status ≡ in_progress))
            (λ b b'.
              b' ≡ record b { status = completed; completed_at = some now; updated_at = now })
            (LogsStep in_progress completed)
            db.tables))
        (complete_bookings_for_waypoint now trip waypoint db)
unfolding complete_bookings_for_waypoint completes_at complete_change
complete_bookings_for_waypoint-Swept now trip waypoint db unique =
    returning db.tables (map (λ b. b.passenger_id)) _ _
      (change_bookings now (completes_at trip waypoint) (complete_change now) db)
      (λ bs u h. (bs, refl, h))
      (change_bookings-Swept
        (λ b. (b.trip_id ≡ trip) × (b.dropoff_waypoint_id ≡ waypoint) × (b.status ≡ in_progress))
        (λ b b'. b' ≡ record b { status = completed; completed_at = some now; updated_at = now })
        (LogsStep in_progress completed) now (completes_at trip waypoint) (complete_change now) db
        (λ b e. (
          (at_waypoint_iff (λ b. b.dropoff_waypoint_id) trip waypoint in_progress b).0 e,
          refl,
          (_, refl, refl),
        ))
        (λ b e k.
          Bool-clash (completes_at trip waypoint b)
            ((at_waypoint_iff (λ b. b.dropoff_waypoint_id) trip waypoint in_progress b).1 k refl) e)
        (λ b r. refl) unique)
