-- ===== src/Booking/Reconciliation.antt =====
-- services/booking-service/internal/service/booking_service_impl.go: reconcileTrip, which sets the
-- counters of a trip from its bookings (GetSegmentOccupancy of booking_read_repository.go,
-- SetSegmentSeatCounter of booking_cache.go). The answer of trips-service is an argument, and the legs
-- that the code sends to it are the result.
pub mod Repair
use tissi_mah.Prelude.{
  ℤ, pos, ◌-ℤ◌, leb_ℤ, String, Bool, true, false, Option, none, some, List, [], ◌∷◌, if◌then◌else◌,
}
use tissi_mah.Prelude.Result.{Result, ok, err}
use tissi_mah.Booking.Domain.{Error}
use tissi_mah.Booking.Store.{Db, Action, next_call}
use tissi_mah.Booking.Seats.{Redis, CacheError, put_expiring, legs, segment_occupancy}
use tissi_mah.Booking.Waypoints.{get_max_waypoint_order}
use tissi_mah.Booking.Request.{TripDetails}
use tissi_mah.Booking.Creation.{World}

-- GetSegmentOccupancy
unfoldable pub get_segment_occupancy : String → ℤ → Action ℤ
get_segment_occupancy trip order db =
    if (next_call db.faults).0
    then (err Error.data_retrieval_failed, record db { faults = (next_call db.faults).1 })
    else (
      ok (segment_occupancy trip order db.tables.bookings),
      record db { faults = (next_call db.faults).1 },
    )

-- SetSegmentSeatCounter
unfoldable pub set_segment_seat_counter :
    String → ℤ → ℤ → Redis → Result CacheError (Unit {0}) × Redis
set_segment_seat_counter trip order seats r =
    if (next_call r.faults).0
    then (err CacheError.command_failed, record r { faults = (next_call r.faults).1 })
    else (ok tt, record (put_expiring trip order seats r) { faults = (next_call r.faults).1 })

abbrev set_if_cached : String → ℤ → ℤ → Option Redis → Option Redis
set_if_cached trip order seats none = none
set_if_cached trip order seats (some r) = some (set_segment_seat_counter trip order seats r).1

-- one round of the loop: the leg to send, if its occupancy was read
abbrev pub reconcile_leg : String → ℤ → ℤ → World → Result Error ℤ × Db → Option (ℤ × ℤ) × World
reconcile_leg trip total order w (err e, db) = (none, record w { db = db })
reconcile_leg trip total order w (ok occupancy, db) = (
  some (order, occupancy),
  record { db = db; cache = set_if_cached trip order (total -ℤ occupancy) w.cache },
)

abbrev add_leg : Option (ℤ × ℤ) → List (ℤ × ℤ) → List (ℤ × ℤ)
add_leg none ls = ls
add_leg (some l) ls = l ∷ ls

abbrev pub reconcile_legs : String → ℤ → List ℤ → World → List (ℤ × ℤ) × World
reconcile_legs trip total [] w = ([], w)
reconcile_legs trip total (order ∷ orders) w =
    let (leg, w') = reconcile_leg trip total order w (get_segment_occupancy trip order w.db) in
    let (rest, w'') = reconcile_legs trip total orders w' in (add_leg leg rest, w'')

-- reconcileTrip
unfoldable pub reconcile_trip :
    String → Result (Unit {0}) (Option TripDetails) → World → List (ℤ × ℤ) × World
reconcile_trip trip (err _) w = ([], w)
reconcile_trip trip (ok none) w = ([], w)
reconcile_trip trip (ok (some details)) w =
    if leb_ℤ (get_max_waypoint_order details.waypoints) (pos 1)
    then ([], w)
    else reconcile_legs trip details.total_seats
        (legs (pos 1) (get_max_waypoint_order details.waypoints)) w
