-- ===== src/Booking/Seats.antt =====
-- services/booking-service/internal/cache/booking_cache.go: the counters of free seats, one for each
-- leg of a trip, and the helpers on waypoints and the reconciliation of
-- services/booking-service/internal/service/booking_service_impl.go that feed them.
-- Redis is not part of the repository. What the code relies on is written out: a key is absent or
-- holds a number, DECRBY and INCRBY read an absent key as 0, SETNX writes only an absent key, a script
-- runs as a whole, and a command that fails changes nothing. A key that SETNX or SET writes with a time to
-- live is absent from its deadline on; DECRBY and INCRBY keep the deadline of a key, and create an absent
-- key with none. `faults` says which commands fail, `clock` is the time at which they run.
pub mod Counters
pub mod Reservation
pub mod Balance
pub mod Minimum
use tissi_mah.Prelude.{
  ℕ, zero, suc, ℤ, pos, pos_part, ◌+ℤ◌, ◌-ℤ◌, leb_ℤ, ltb_ℤ, eqb_ℤ, String, str_eq, Bool, true,
  false, ◌&&◌, Option, none, some, List, [], ◌∷◌, if◌then◌else◌,
}
use tissi_mah.Prelude.Result.{Result, ok, err}
use tissi_mah.Booking.Domain.{
  BookingStatus, Booking, created, payment_pending, pending_approval, approved, in_progress,
}
use tissi_mah.Booking.Store.{next_call}

-- The counter of a leg, or its deadline, by trip and order.
abbrev pub Counters : Type 0
Counters = String → ℤ → Option ℤ

-- An absent counter has no deadline, nor has one that does not expire.
pub record Redis : Type 0 where
  pub counters : Counters
  pub deadlines : Counters
  pub clock : ℤ
  pub faults : List Bool

-- `panicked` is a run-time panic of Go.
pub data CacheError : Type 0 where
  command_failed no_seats_available panicked : CacheError

abbrev pub put : String → ℤ → ℤ → Counters → Counters
put trip order seats c = λ t k. if str_eq t trip && eqb_ℤ k order then some seats else c t k

-- `tonumber(redis.call('GET', key) or '0')`
abbrev pub seats_of : Option ℤ → ℤ
seats_of none = pos 0
seats_of (some n) = n

abbrev pub legs_from : ℕ → ℤ → List ℤ
legs_from zero order = []
legs_from (suc n) order = order ∷ legs_from n (order +ℤ pos 1)

-- `for order := first; order < last; order++`
abbrev pub legs : ℤ → ℤ → List ℤ
legs first last = legs_from (pos_part (last -ℤ first)) first

-- one command for each leg, until one fails
abbrev pub each_leg : (ℤ → Redis → Redis) → List ℤ → Redis → Result CacheError (Unit {0}) × Redis
each_leg write [] r = (ok tt, r)
each_leg write (order ∷ orders) r = elim (next_call r.faults).0 [
  | true ↦ (err command_failed, record r { faults = (next_call r.faults).1 })
  | false ↦ each_leg write orders (record (write order r) { faults = (next_call r.faults).1 })
]

-- seatCounterTTL
abbrev pub seat_counter_ttl : ℤ
seat_counter_ttl = pos 86_400_000_000_000

-- `SET key seats EX seatCounterTTL`
abbrev pub put_expiring : String → ℤ → ℤ → Redis → Redis
put_expiring trip order seats r = record r {
  counters = put trip order seats r.counters;
  deadlines = put trip order (r.clock +ℤ seat_counter_ttl) r.deadlines;
}

-- `SET key seats NX EX seatCounterTTL`
abbrev pub set_absent : String → ℤ → ℤ → Redis → Redis
set_absent trip seats order r = elim (r.counters trip order) [
  | some _ ↦ r
  | none ↦ put_expiring trip order seats r
]

abbrev pub has_passed : ℤ → Option ℤ → Bool
has_passed now none = false
has_passed now (some deadline) = leb_ℤ deadline now

-- Time goes by: the counters whose deadline has passed are gone.
unfoldable pub at_time : ℤ → Redis → Redis
at_time now r = record r {
  counters = λ t k. if has_passed now (r.deadlines t k) then none else r.counters t k;
  deadlines = λ t k. if has_passed now (r.deadlines t k) then none else r.deadlines t k;
  clock = now;
}

-- InitSegmentSeatCounters
unfoldable pub init_segment_seat_counters :
    String → ℤ → ℤ → Redis → Result CacheError (Unit {0}) × Redis
init_segment_seat_counters trip total_seats max_order =
    each_leg (set_absent trip total_seats) (legs (pos 1) max_order)

-- the first loop of the script
abbrev pub all_have : String → ℤ → List ℤ → Counters → Bool
all_have trip seats [] c = true
all_have trip seats (order ∷ orders) c =
    if ltb_ℤ (seats_of (c trip order)) seats then false else all_have trip seats orders c

abbrev pub update_each : String → (ℤ → ℤ) → List ℤ → Counters → Counters
update_each trip f [] c = c
update_each trip f (order ∷ orders) c =
    update_each trip f orders (put trip order (f (seats_of (c trip order))) c)

-- reserveSegmentSeatsScript: the result and the counters after it.
unfoldable pub reserve_segment_seats_script : String → ℤ → List ℤ → Counters → Bool × Counters
reserve_segment_seats_script trip seats orders c =
    if all_have trip seats orders c
    then (true, update_each trip (λ n. n -ℤ seats) orders c)
    else (false, c)

-- ReserveSegmentSeats: `make` panics on a negative capacity.
unfoldable pub reserve_segment_seats :
    String → ℤ → ℤ → ℤ → Redis → Result CacheError (Unit {0}) × Redis
reserve_segment_seats trip pickup dropoff seats r =
    if ltb_ℤ dropoff pickup then (err panicked, r) else elim (next_call r.faults).0 [
      | true ↦ (err command_failed, record r { faults = (next_call r.faults).1 })
      | false ↦
          let (done, c) =
            reserve_segment_seats_script trip seats (legs pickup dropoff) r.counters in
          if done
          then (ok tt, record r { counters = c; faults = (next_call r.faults).1 })
          else (err no_seats_available, record r { counters = c; faults = (next_call r.faults).1 })
    ]

-- RestoreSegmentSeats
unfoldable pub restore_segment_seats :
    String → ℤ → ℤ → ℤ → Redis → Result CacheError (Unit {0}) × Redis
restore_segment_seats trip pickup dropoff seats =
    each_leg
      (λ order r. record r {
        counters = put trip order (seats_of (r.counters trip order) +ℤ seats) r.counters;
      })
      (legs pickup dropoff)

-- the loop of GetMinSegmentSeats, from the minimum of the legs before
abbrev pub min_over : String → List ℤ → ℤ → Redis → Result CacheError ℤ × Redis
min_over trip [] low r = (ok low, r)
min_over trip (order ∷ orders) low r = elim (next_call r.faults).0 [
  | true ↦ (err command_failed, record r { faults = (next_call r.faults).1 })
  | false ↦ elim (r.counters trip order) [
    | none ↦ (ok (ℤ.negsuc 0), record r { faults = (next_call r.faults).1 })
    | some seats ↦
        min_over trip orders
          (if eqb_ℤ low (ℤ.negsuc 0) then seats else if ltb_ℤ seats low then seats else low)
          (record r { faults = (next_call r.faults).1 })
  ]
]

-- GetMinSegmentSeats: -1 where a counter is absent
unfoldable pub get_min_segment_seats : String → ℤ → ℤ → Redis → Result CacheError ℤ × Redis
get_min_segment_seats trip pickup dropoff = min_over trip (legs pickup dropoff) (ℤ.negsuc 0)

-- a status of the list in HasActiveBooking and GetSegmentOccupancy
abbrev pub is_active : BookingStatus → Bool
is_active created = true
is_active payment_pending = true
is_active pending_approval = true
is_active approved = true
is_active in_progress = true
is_active _ = false

-- the leg `order` lies between these stops
abbrev pub covers : ℤ → ℤ → ℤ → Bool
covers pickup dropoff order = leb_ℤ pickup order && ltb_ℤ order dropoff

abbrev pub occupies : String → ℤ → Booking → Bool
occupies trip order b =
    str_eq b.trip_id trip
    && covers b.pickup_sequencer_order b.dropoff_sequencer_order order
    && is_active b.status

-- the sum of GetSegmentOccupancy
unfoldable pub segment_occupancy : String → ℤ → List Booking → ℤ
segment_occupancy trip order [] = pos 0
segment_occupancy trip order (b ∷ bs) =
    (if occupies trip order b then b.seats_booked else pos 0) +ℤ segment_occupancy trip order bs
