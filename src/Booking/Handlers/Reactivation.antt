-- ===== src/Booking/Handlers/Reactivation.antt =====
-- reserveSeatsForReactivation of services/booking-service/internal/service/booking_service_impl.go takes
-- the seats of a booking again, or leaves the counters in agreement with the bookings.
use mathlib.Core.Path.{subst}
use tissi_mah.Prelude.{
  ℤ, pos, ◌+ℤ◌, ◌-ℤ◌, ltb_ℤ, eqb_ℤ, String, str_eq, eq_iff, Bool, true, false, not, ◌&&◌, Option,
  none, some, List, [], ◌∷◌, ◌≡◌, refl, sym, ap, ◌∙◌, if_rule, if_cases, Bool-cases, inl, inr,
  eqb_ℤ→eq, and_left, and_right,
}
use tissi_mah.Prelude.Result.{Result, ok, err, next_call}
use tissi_mah.Booking.Domain.{Booking, Error}
use tissi_mah.Booking.Store.{Db}
use tissi_mah.Booking.Seats.{
  Counters, has_passed, seat_counter_ttl, put_expiring, Redis, CacheError, each_leg, legs, put,
  set_absent, segment_occupancy, covers, reserve_segment_seats, reserve_segment_seats_script,
  init_segment_seat_counters,
}
use tissi_mah.Booking.Seats.Reservation.{
  Updated, ReserveOutcome, reserve_segment_seats-Outcome, restore-Updated, add_back,
}
use tissi_mah.Booking.Seats.Balance.{Balanced}
use tissi_mah.Booking.Request.{TripDetails}
use tissi_mah.Booking.Waypoints.{get_max_waypoint_order}
use tissi_mah.Booking.Creation.{World, has_active_booking}
use tissi_mah.Booking.Handlers.{
  Reply, released, seats_taken, counters_ready, take_seats, if_not_rebooked,
  reserve_seats_for_reactivation,
}
use tissi_mah.Booking.Handlers.Balance.{Agrees, IsCalm, as_calm, restore-IsCalm, after}

-- a command for each leg, none of which fails
each_leg_keeps :
    (P : Redis → Type 0) (write : ℤ → Redis → Redis)
    → ((k : ℤ) (r : Redis) → P r → P (record (write k r) { faults = [] }))
    → (orders : List ℤ) (r : Redis) → P (record r { faults = [] })
    → let reply = each_leg write orders (record r { faults = [] }) in (reply.0 ≡ ok tt) × P reply.1
each_leg_keeps P write keeps [] r h = (refl, h)
each_leg_keeps P write keeps (k ∷ ks) r h =
    each_leg_keeps P write keeps ks (write k (record r { faults = [] }))
      (keeps k (record r { faults = [] }) h)

module _ (trip : String) (total last until : ℤ) (rows : List Booking) where
  put_absent :
      (t : String) (n k k' : ℤ) (c d : Counters)
      → c t k ≡ none
      → covers (pos 1) last k' ≡ true
      → Balanced trip total last c rows
      → put t k n d trip k' ≡ d trip k'
  put_absent t n k k' c d absent inside h =
      if_cases (λ (o : Option ℤ). o ≡ d trip k') (str_eq trip t && eqb_ℤ k' k)
        (λ same.
          let of_trip = (eq_iff trip t).0 (and_left (str_eq trip t) _ same) in
          let of_leg = eqb_ℤ→eq k' k (and_right (str_eq trip t) _ same) in
          let here : c trip k' ≡ none = rw (of_trip, of_leg) absent in
          let f : none ≡ some (total -ℤ segment_occupancy trip k' rows) = sym here ∙ h k' inside in
          cc)
        (λ _. refl)

  set_absent_keeps :
      (t : String) (n k : ℤ) (r : Redis)
      → Agrees trip total last until rows (some r)
      → Agrees trip total last until rows (some (record (set_absent t n k r) { faults = [] }))
  set_absent_keeps t n k r h = by_counter (r.counters t k) refl
    where
      by_counter :
          (o : Option ℤ)
          → r.counters t k ≡ o
          → Agrees trip total last until rows
              (some (record (elim o [ some _ ↦ r | none ↦ put_expiring t k n r ]) { faults = [] }))
      by_counter (some x) e = ((refl, h.0.1), h.1)
      by_counter none e = (
        (
          refl,
          λ k' inside.
              ap (has_passed until) (
                put_absent t (r.clock +ℤ seat_counter_ttl) k k' r.counters r.deadlines e inside h.1)
              ∙ h.0.1 k' inside,
        ),
        λ k' inside. put_absent t n k k' r.counters r.counters e inside h.1 ∙ h.1 k' inside,
      )

  -- the cache after a reservation for `b`, or as it was
  abbrev pub HeldFor : Booking → Option Redis → Type 0
  HeldFor b none = Unit
  HeldFor b (some r) =
      IsCalm trip last until r
      × (before : Counters) × Balanced trip total last before rows
      × Updated b.trip_id b.pickup_sequencer_order b.dropoff_sequencer_order
          (λ s. s -ℤ b.seats_booked) before r.counters

  reserve-IsCalm :
      (t : String) (p d n : ℤ) (r : Redis)
      → IsCalm trip last until r
      → IsCalm trip last until (reserve_segment_seats t p d n (record r { faults = [] })).1
  unfolding reserve_segment_seats reserve_segment_seats_script
  reserve-IsCalm t p d n r h =
      if_rule (λ (x : Result CacheError (Unit {0}) × Redis). IsCalm trip last until x.1) (ltb_ℤ d p)
        (refl, h.1)
        (if_rule (λ (x : Result CacheError (Unit {0}) × Redis). IsCalm trip last until x.1)
          (reserve_segment_seats_script t n (legs p d) r.counters).0 (refl, h.1) (refl, h.1))

  -- What the reservation for a late payment leaves: an error, and the counters in agreement, or the seats.
  abbrev pub Reserved : Booking → Db → Reply (Unit {0}) → Type 0
  Reserved b db (err e, w) = (w.db.tables ≡ db.tables) × Agrees trip total last until rows w.cache
  Reserved b db (ok _, w) = (w.db.tables ≡ db.tables) × HeldFor b w.cache

  seats_taken-Reserved :
      (b : Booking) (w : World) (r : Redis) (reply : Result CacheError (Unit {0}) × Redis)
      → Balanced trip total last r.counters rows
      → IsCalm trip last until reply.1
      → ReserveOutcome b.trip_id b.pickup_sequencer_order b.dropoff_sequencer_order b.seats_booked r
          reply
      → Reserved b w.db (seats_taken w reply)
  seats_taken-Reserved b w r (ok _, r') h calm o = (refl, (calm, r.counters, h, o.1))
  seats_taken-Reserved b w r (err CacheError.no_seats_available, r') h calm o =
      (refl, (calm, subst (λ c. Balanced trip total last c rows) (sym o.1) h))
  seats_taken-Reserved b w r (err CacheError.command_failed, r') h calm o =
      (refl, (calm, subst (λ c. Balanced trip total last c rows) (sym o) h))
  seats_taken-Reserved b w r (err CacheError.panicked, r') h calm o =
      (refl, (calm, subst (λ c. Balanced trip total last c rows) (sym o.1) h))

  counters_ready-Reserved :
      (b : Booking) (details : TripDetails) (w : World)
      (reply : Result CacheError (Unit {0}) × Redis)
      → reply.0 ≡ ok tt
      → Agrees trip total last until rows (some reply.1)
      → Reserved b w.db (counters_ready b details w reply)
  counters_ready-Reserved b details w (err e, r) done h = cc
  counters_ready-Reserved b details w (ok _, r) done h =
      seats_taken-Reserved b w r
        (reserve_segment_seats b.trip_id b.pickup_sequencer_order b.dropoff_sequencer_order
          b.seats_booked r)
        h.1
        (subst
          (λ (x : Redis).
            IsCalm trip last until
              (reserve_segment_seats b.trip_id b.pickup_sequencer_order b.dropoff_sequencer_order
                b.seats_booked x).1)
          (sym (as_calm r h.0.0))
          (reserve-IsCalm b.trip_id b.pickup_sequencer_order b.dropoff_sequencer_order
            b.seats_booked r h.0))
        (reserve_segment_seats-Outcome b.trip_id b.pickup_sequencer_order b.dropoff_sequencer_order
          b.seats_booked r)

  take_seats-Reserved :
      (b : Booking) (details : TripDetails) (w : World) (cache : Option Redis)
      → w.cache ≡ cache
      → Agrees trip total last until rows cache
      → Reserved b w.db (take_seats b details w cache)
  unfolding init_segment_seat_counters
  take_seats-Reserved b details w none same h =
      if_rule (Reserved b w.db) (ltb_ℤ details.available_seats b.seats_booked) (refl, rw same tt)
        (refl, rw same tt)
  take_seats-Reserved b details w (some r) same h =
      let kept =
        each_leg_keeps (λ x. Agrees trip total last until rows (some x))
          (set_absent b.trip_id details.total_seats)
          (set_absent_keeps b.trip_id details.total_seats)
          (legs (pos 1) (get_max_waypoint_order details.waypoints)) r ((refl, h.0.1), h.1) in
      subst (λ (x : Redis). Reserved b w.db (take_seats b details w (some x)))
        (sym (as_calm r h.0.0))
        (counters_ready-Reserved b details w
          (each_leg (set_absent b.trip_id details.total_seats)
            (legs (pos 1) (get_max_waypoint_order details.waypoints)) (record r { faults = [] }))
          kept.0 kept.1)

  if_not_rebooked-Reserved :
      (b : Booking) (details : TripDetails) (w : World) (reply : Result Error Bool × Db)
      → reply.1.tables ≡ w.db.tables
      → Agrees trip total last until rows w.cache
      → Reserved b w.db (if_not_rebooked b details w reply)
  if_not_rebooked-Reserved b details w (err e, db) same h = (same, h)
  if_not_rebooked-Reserved b details w (ok true, db) same h = (same, h)
  if_not_rebooked-Reserved b details w (ok false, db) same h =
      moved b db w.db same (take_seats b details (record w { db = db }) w.cache)
        (take_seats-Reserved b details (record w { db = db }) w.cache refl h)
    where
      moved :
          (b : Booking) (db db0 : Db)
          → db.tables ≡ db0.tables
          → (r : Reply (Unit {0})) → Reserved b db r
          → Reserved b db0 r
      moved b db db0 same (err e, w') k = (k.0 ∙ same, k.1)
      moved b db db0 same (ok _, w') k = (k.0 ∙ same, k.1)

  pub reactivation-Reserved :
      (b : Booking) (details : Option TripDetails) (w : World)
      → Agrees trip total last until rows w.cache
      → Reserved b w.db (reserve_seats_for_reactivation b details w)
  unfolding reserve_seats_for_reactivation
  reactivation-Reserved b none w h = (refl, h)
  reactivation-Reserved b (some details) w h =
      if_rule (Reserved b w.db)
        (not (str_eq details.status "scheduled") && not (str_eq details.status "inProgress"))
        (refl, h)
        (if_not_rebooked-Reserved b details w (has_active_booking b.passenger_id b.trip_id w.db)
          (if_rule (λ (r : Result Error Bool × Db). r.1.tables ≡ w.db.tables)
            (next_call w.db.faults).0 refl refl)
          h)

  -- seats that are given back after a write that failed
  given_back_seats :
      (b : Booking) (before held later : Counters)
      → Balanced trip total last before rows
      → Updated b.trip_id b.pickup_sequencer_order b.dropoff_sequencer_order
          (λ s. s -ℤ b.seats_booked)
          before
          held
      → Updated b.trip_id b.pickup_sequencer_order b.dropoff_sequencer_order
          (λ s. s +ℤ b.seats_booked)
          held
          later
      → Balanced trip total last later rows
  given_back_seats b before held later h low high k i =
      elim (Bool-cases
        (str_eq trip b.trip_id && covers b.pickup_sequencer_order b.dropoff_sequencer_order k)) [
          | inl inside ↦
              rw (high trip k, inside, low trip k, inside, h k i)
                (ap some (add_back (total -ℤ segment_occupancy trip k rows) b.seats_booked))
          | inr outside ↦ rw (high trip k, outside, low trip k, outside) (h k i)
        ]

  pub HeldFor-released :
      (b : Booking) (cache : Option Redis)
      → HeldFor b cache
      → Agrees trip total last until rows (released b cache)
  HeldFor-released b none h = tt
  HeldFor-released b (some r) (calm, before, balanced, low) =
      subst (λ (x : Redis). Agrees trip total last until rows (released b (some x)))
        (sym (as_calm r calm.0))
        (
          restore-IsCalm trip last until b r calm,
          given_back_seats b before r.counters (after b r).counters balanced low (
              restore-Updated b.trip_id b.pickup_sequencer_order b.dropoff_sequencer_order
                b.seats_booked r r.counters),
        )
