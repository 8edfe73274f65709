-- ===== src/Booking/Tests/Bulk.antt =====
-- Uses of the theorems on the methods on several bookings at concrete inputs.
use tissi_mah.Prelude.{pos, some, ◌≡◌, refl, ◌⊎◌}
use tissi_mah.Booking.Domain.{approved, in_progress, completed}
use tissi_mah.Booking.Store.Transaction.{Outcome}
use tissi_mah.Booking.Repository.Bulk.{
  start_bookings_for_waypoint, complete_bookings_for_waypoint, cancel_bookings_for_trip,
  cancel_bookings_for_waypoint,
}
use tissi_mah.Booking.Repository.Bulk.Sweep.{Swept}
use tissi_mah.Booking.Repository.Bulk.Cancellation.{
  IsToStart, IsCancelledAs, LogsCancellation, cancel_bookings_for_trip-Swept,
  cancel_bookings_for_waypoint-Swept,
}
use tissi_mah.Booking.Repository.Bulk.Journey.{
  LogsStep, Passengers, start_bookings_for_waypoint-Swept, complete_bookings_for_waypoint-Swept,
}
use tissi_mah.Booking.Tests.{paid, ready, riding, tables_of, db_of}

cancel_bookings_for_trip-Swept_example :
    Outcome
      (tables_of paid)
      (Swept
        (λ b. (b.trip_id ≡ "t") × IsToStart b.status)
        (IsCancelledAs (pos 20) "Trajet annulé par le chauffeur" "tripCancelled")
        (LogsCancellation "Trajet annulé par le chauffeur")
        (tables_of paid))
      (cancel_bookings_for_trip (pos 20) "t" (db_of paid))
cancel_bookings_for_trip-Swept_example =
    cancel_bookings_for_trip-Swept (pos 20) "t" (db_of paid) (refl, tt)

cancel_bookings_for_waypoint-Swept_example :
    Outcome
      (tables_of paid)
      (Swept
        (λ b.
          (b.trip_id ≡ "t")
          × ((b.pickup_waypoint_id ≡ "w3") ⊎ (b.dropoff_waypoint_id ≡ "w3"))
          × IsToStart b.status)
        (IsCancelledAs (pos 20) "Arrêt supprimé par le chauffeur" "waypointCancelled")
        (LogsCancellation "Arrêt supprimé par le chauffeur")
        (tables_of paid))
      (cancel_bookings_for_waypoint (pos 20) "t" "w3" (db_of paid))
cancel_bookings_for_waypoint-Swept_example =
    cancel_bookings_for_waypoint-Swept (pos 20) "t" "w3" (db_of paid) (refl, tt)

start_bookings_for_waypoint-Swept_example :
    Outcome
      (tables_of ready)
      (Passengers (
        Swept
          (λ b. (b.trip_id ≡ "t") × (b.pickup_waypoint_id ≡ "w1") × (b.status ≡ approved))
          (λ b b'. b' ≡ record b { status = in_progress; updated_at = pos 20 })
          (LogsStep approved in_progress)
          (tables_of ready)))
      (start_bookings_for_waypoint (pos 20) "t" "w1" (db_of ready))
start_bookings_for_waypoint-Swept_example =
    start_bookings_for_waypoint-Swept (pos 20) "t" "w1" (db_of ready) (refl, tt)

complete_bookings_for_waypoint-Swept_example :
    Outcome
      (tables_of riding)
      (Passengers (
        Swept
          (λ b. (b.trip_id ≡ "t") × (b.dropoff_waypoint_id ≡ "w3") × (b.status ≡ in_progress))
          (λ b b'.
            b' ≡ record b { status = completed; completed_at = some (pos 20); updated_at = pos 20 })
          (LogsStep in_progress completed)
          (tables_of riding)))
      (complete_bookings_for_waypoint (pos 20) "t" "w3" (db_of riding))
complete_bookings_for_waypoint-Swept_example =
    complete_bookings_for_waypoint-Swept (pos 20) "t" "w3" (db_of riding) (refl, tt)
