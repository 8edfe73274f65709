-- ===== src/Booking/Waypoints.antt =====
-- services/booking-service/internal/service/booking_service_impl.go: the orders of the stops of a trip,
-- and the price between two of them (`TripWaypoint` is in internal/client/interfaces.go).
pub mod Fares
use tissi_mah.Prelude.{
  ℤ, pos, negsuc, ◌+ℤ◌, leb_ℤ, ltb_ℤ, eqb_ℤ, int64, String, str_eq, Bool, true, false, ◌&&◌, ◌||◌,
  List, [], ◌∷◌, if◌then◌else◌,
}
use tissi_mah.Prelude.Result.{Result, ok, err}
use tissi_mah.Booking.Domain.{Error, invalid_waypoints}

-- The fields that the code below reads.
pub record TripWaypoint : Type 0 where
  pub waypoint_id : String
  pub sequencer_order : ℤ
  pub price_from_previous : ℤ

-- the loop of resolveWaypointOrders, which is also the first of calculatePriceFromWaypoints, from
-- the orders that were found before
abbrev pub resolve_from : String → String → List TripWaypoint → ℤ → ℤ → ℤ × ℤ
resolve_from pickup_id dropoff_id [] pickup dropoff = (pickup, dropoff)
resolve_from pickup_id dropoff_id (wp ∷ wps) pickup dropoff =
    resolve_from pickup_id dropoff_id wps
      (if str_eq wp.waypoint_id pickup_id then wp.sequencer_order else pickup)
      (if str_eq wp.waypoint_id dropoff_id then wp.sequencer_order else dropoff)

-- resolveWaypointOrders
unfoldable pub resolve_waypoint_orders : List TripWaypoint → String → String → ℤ × ℤ
resolve_waypoint_orders waypoints pickup_id dropoff_id =
    resolve_from pickup_id dropoff_id waypoints (negsuc 0) (negsuc 0)

abbrev pub max_from : List TripWaypoint → ℤ → ℤ
max_from [] max = max
max_from (wp ∷ wps) max =
    max_from wps (if ltb_ℤ max wp.sequencer_order then wp.sequencer_order else max)

-- getMaxWaypointOrder
unfoldable pub get_max_waypoint_order : List TripWaypoint → ℤ
get_max_waypoint_order waypoints = max_from waypoints (pos 0)

-- the second loop of calculatePriceFromWaypoints, from the sum before
abbrev pub price_from : ℤ → ℤ → List TripWaypoint → ℤ → ℤ
price_from pickup dropoff [] price = price
price_from pickup dropoff (wp ∷ wps) price = price_from pickup dropoff wps (
    if ltb_ℤ pickup wp.sequencer_order && leb_ℤ wp.sequencer_order dropoff
    then int64 (price +ℤ wp.price_from_previous)
    else price)

abbrev pub price_between : List TripWaypoint → ℤ × ℤ → Result Error ℤ
price_between waypoints (pickup, dropoff) =
    if eqb_ℤ pickup (negsuc 0) || eqb_ℤ dropoff (negsuc 0)
    then err invalid_waypoints
    else if leb_ℤ dropoff pickup
    then err invalid_waypoints
    else ok (price_from pickup dropoff waypoints (pos 0))

-- calculatePriceFromWaypoints
unfoldable pub calculate_price_from_waypoints : List TripWaypoint → String → String → Result Error ℤ
calculate_price_from_waypoints waypoints pickup_id dropoff_id =
    price_between waypoints (resolve_from pickup_id dropoff_id waypoints (negsuc 0) (negsuc 0))
