-- ===== src/Booking/Reconciliation/Repair.antt =====
-- Reconciliation repairs the counters.
use text.Mathlib.TextPositions.{eq_refl}
use tissi_mah.Prelude.{
  ℕ, zero, suc, ℤ, pos, pos_part, ◌+ℤ◌, ◌-ℤ◌, leb_ℤ, eqb_ℤ, String, Bool, true, false, none, some,
  List, [], ◌∷◌, ◌≡◌, refl, sym, ◌∙◌, inl, inr, Bool-cases, arith, if◌then◌else◌,
}
use tissi_mah.Prelude.Result.{ok}
use tissi_mah.Booking.Store.{Tables}
use tissi_mah.Booking.Seats.{
  Counters, Redis, put, put_expiring, legs, legs_from, covers, segment_occupancy,
}
use tissi_mah.Booking.Seats.Counters.{
  eqb→≡, covers_first, covers_rest_first, covers_rest, covers_none, covers_legs, eqb_refl,
}
use tissi_mah.Booking.Seats.Balance.{Balanced}
use tissi_mah.Booking.Waypoints.{get_max_waypoint_order}
use tissi_mah.Booking.Request.{TripDetails}
use tissi_mah.Booking.Creation.{World}
use tissi_mah.Booking.Reconciliation.{
  reconcile_trip, reconcile_legs, get_segment_occupancy, set_segment_seat_counter,
}

abbrev set_each : String → (ℤ → ℤ) → List ℤ → Redis → Redis
set_each trip v [] r = r
set_each trip v (order ∷ orders) r = set_each trip v orders (put_expiring trip order (v order) r)

set_first :
    (trip : String) (v : ℤ → ℤ) (o : ℤ) (m : ℕ) (c : Counters) (k : ℤ)
    → (if covers (o +ℤ pos 1) ((o +ℤ pos 1) +ℤ pos m) k
        then some (v k)
        else put trip o (v o) c trip k)
      ≡ (if covers o (o +ℤ pos (suc m)) k then some (v k) else c trip k)
set_first trip v o m c k = elim (Bool-cases (eqb_ℤ k o)) [
  | inr apart ↦ rw (eq_refl trip, apart, covers_rest o m k apart) refl
  | inl here ↦ first_leg (eqb→≡ k o here)
]
  where
    first_leg :
        k ≡ o
        → (if covers (o +ℤ pos 1) ((o +ℤ pos 1) +ℤ pos m) k
            then some (v k)
            else put trip o (v o) c trip k)
          ≡ (if covers o (o +ℤ pos (suc m)) k then some (v k) else c trip k)
    first_leg q =
        rw
          (
            q,
            eq_refl trip,
            covers_rest_first o ((o +ℤ pos 1) +ℤ pos m),
            covers_first o m,
            eqb_refl o,
          )
          refl

set_each-at :
    (trip : String) (v : ℤ → ℤ) (m : ℕ) (o : ℤ) (r : Redis) (k : ℤ)
    → (set_each trip v (legs_from m o) r).counters trip k
      ≡ (if covers o (o +ℤ pos m) k then some (v k) else r.counters trip k)
set_each-at trip v zero o r k = rw (covers_none o k) refl
set_each-at trip v (suc m) o r k =
    set_each-at trip v m (o +ℤ pos 1) (put_expiring trip o (v o) r) k
    ∙ set_first trip v o m r.counters k

-- a world where nothing fails
abbrev pub calm : Tables → Redis → World
calm t r = record {
  db = record { tables = t; faults = [] };
  cache = some (record r { faults = [] });
}

reconcile_legs-calm :
    (trip : String) (total : ℤ) (orders : List ℤ) (t : Tables) (r : Redis)
    → (reconcile_legs trip total orders (calm t r)).1
      ≡ calm t (set_each trip (λ o. total -ℤ segment_occupancy trip o t.bookings) orders r)
unfolding get_segment_occupancy set_segment_seat_counter
reconcile_legs-calm trip total [] t r = refl
reconcile_legs-calm trip total (order ∷ orders) t r =
    reconcile_legs-calm trip total orders t
      (put_expiring trip order (total -ℤ segment_occupancy trip order t.bookings) r)

abbrev pub counters_of : World → Counters
counters_of w = elim w.cache [ none ↦ λ _ _. none | some r ↦ r.counters ]

legs-Balanced :
    (trip : String) (total last : ℤ) (t : Tables) (r : Redis)
    → Balanced trip total last
        (counters_of (reconcile_legs trip total (legs (pos 1) last) (calm t r)).1)
        t.bookings
legs-Balanced trip total last t r k i =
    rw
      (
        reconcile_legs-calm trip total (legs (pos 1) last) t r,
        set_each-at trip (λ o. total -ℤ segment_occupancy trip o t.bookings)
            (pos_part (last -ℤ pos 1)) (pos 1) r k,
        covers_legs (pos 1) last k,
        i,
      )
      refl

no_legs : (last k : ℤ) → leb_ℤ last (pos 1) ≡ true → covers (pos 1) last k ≡ false
no_legs last k h = ground arith

-- Whatever the counters of a trip hold, a reconciliation in which no call fails makes them agree with
-- the bookings on every leg of the trip.
pub reconcile_trip-Balanced :
    (trip : String) (details : TripDetails) (t : Tables) (r : Redis)
    → Balanced trip details.total_seats
        (get_max_waypoint_order details.waypoints)
        (counters_of (reconcile_trip trip (ok (some details)) (calm t r)).1)
        t.bookings
unfolding reconcile_trip
reconcile_trip-Balanced trip details t r =
    by_test (leb_ℤ (get_max_waypoint_order details.waypoints) (pos 1)) refl
  where
    open details use {total_seats as total}

    last : ℤ
    last = get_max_waypoint_order details.waypoints

    by_test :
        (few : Bool)
        → leb_ℤ last (pos 1) ≡ few
        → Balanced trip total last
            (counters_of
              (if few
                then ([], calm t r)
                else reconcile_legs trip total (legs (pos 1) last) (calm t r)).1)
            t.bookings
    by_test true h k i = let p : false ≡ true = sym (no_legs last k h) ∙ i in cc
    by_test false h k i = legs-Balanced trip total last t r k i
