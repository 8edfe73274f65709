-- ===== src/Booking/Seats/Balance.antt =====
-- The counters against the bookings: on every leg, what is free and what the active bookings occupy.
use mathlib.Core.Path.{subst}
use text.Mathlib.TextPositions.{eq_refl}
use tissi_mah.Prelude.{
  ℤ, pos, pos_part, neg_part, ◌+ℤ◌, ◌-ℤ◌, ◌≤ℤ◌, int_laws, arith, String, str_eq, Bool, true, false,
  ◌&&◌, some, List, [], ◌∷◌, if◌then◌else◌, ◌≡◌, refl, Bool-cases, inl, inr, +ℤ_parts, -ℤ_parts,
  eq_of_parts, ap,
}
use tissi_mah.Prelude.Result.{Result, ok, err}
use tissi_mah.Booking.Domain.{Booking}
use tissi_mah.Booking.Store.{find_row, update_row}
use tissi_mah.Booking.Seats.{
  Counters, Redis, CacheError, seats_of, covers, is_active, occupies, segment_occupancy,
  reserve_segment_seats, restore_segment_seats,
}
use tissi_mah.Booking.Seats.Reservation.{
  Updated, ReserveOutcome, reserve_segment_seats-Outcome, restore-Updated,
}

-- The legs of the trip, 1 to `last` - 1, have the counters that the bookings leave of `total` seats.
abbrev pub Balanced : String → ℤ → ℤ → Counters → List Booking → Type 0
Balanced trip total last c rows =
    (k : ℤ)
    → covers (pos 1) last k ≡ true
    → c trip k ≡ some (total -ℤ segment_occupancy trip k rows)

-- an active booking of these seats between these stops
pub record Holds (trip : String) (p d n : ℤ) (b : Booking) : Type 0 where
  pub of_trip : b.trip_id ≡ trip
  pub from_stop : b.pickup_sequencer_order ≡ p
  pub to_stop : b.dropoff_sequencer_order ≡ d
  pub seats : b.seats_booked ≡ n
  pub active : is_active b.status ≡ true

abbrev pub share : String → ℤ → Booking → ℤ
share trip k b = if occupies trip k b then b.seats_booked else pos 0

share-Holds :
    (trip : String) (p d n : ℤ) (b : Booking) (k : ℤ)
    → Holds trip p d n b
    → share trip k b ≡ (if covers p d k then n else pos 0)
share-Holds trip p d n b k h =
    rw (h.of_trip, h.from_stop, h.to_stop, h.seats, h.active, eq_refl trip) (by_case (covers p d k))
  where
    by_case : (q : Bool) → (if q && true then n else pos 0) ≡ (if q then n else pos 0)
    by_case true = refl
    by_case false = refl

taken : (total n occ : ℤ) → (total -ℤ occ) -ℤ n ≡ total -ℤ (n +ℤ occ)
taken total n occ = omega int_laws

unchanged : (occ : ℤ) → occ ≡ pos 0 +ℤ occ
unchanged occ = omega int_laws

room : (total n occ : ℤ) → n ≤ℤ total -ℤ occ → n +ℤ occ ≤ℤ total
room total n occ h = omega (arith, -ℤ_parts total occ, +ℤ_parts n occ)

module _ (trip : String) (total last p d n : ℤ) (rows : List Booking) (b : Booking)
    (holds : Holds trip p d n b) (before : Counters)
    (balanced : Balanced trip total last before rows) where
  booked-Balanced :
      (after : Counters)
      → Updated trip p d (λ s. s -ℤ n) before after
      → Balanced trip total last after (b ∷ rows)
  unfolding segment_occupancy
  booked-Balanced after u k i = elim (Bool-cases (covers p d k)) [
    | inl inside ↦
        rw (u trip k, eq_refl trip, inside, balanced k i, share-Holds trip p d n b k holds, inside)
          (ap some (taken total n (segment_occupancy trip k rows)))
    | inr outside ↦
        rw
          (
            u trip k,
            eq_refl trip,
            outside,
            share-Holds trip p d n b k holds,
            outside,
            ← unchanged (segment_occupancy trip k rows),
          )
          (balanced k i)
  ]

  booked_within :
      ((k : ℤ) → covers p d k ≡ true → n ≤ℤ seats_of (before trip k))
      → (k : ℤ) → covers (pos 1) last k ≡ true
      → covers p d k ≡ true
      → segment_occupancy trip k (b ∷ rows) ≤ℤ total
  unfolding segment_occupancy
  booked_within enough k i inside =
      rw (share-Holds trip p d n b k holds, inside)
        (room total n (segment_occupancy trip k rows) (rw (balanced k i) at (enough k inside)))

reserved-Balanced :
    (trip : String) (total last p d n : ℤ) (rows : List Booking) (b : Booking) (r : Redis)
    (reply : Result CacheError (Unit {0}) × Redis)
    → Holds trip p d n b
    → Balanced trip total last r.counters rows
    → ReserveOutcome trip p d n r reply
    → reply.0 ≡ ok tt
    → Balanced trip total last reply.1.counters (b ∷ rows)
      × ((k : ℤ)
          → covers (pos 1) last k ≡ true
          → covers p d k ≡ true
          → segment_occupancy trip k (b ∷ rows) ≤ℤ total)
reserved-Balanced trip total last p d n rows b r (ok _, r') h v o done = (
  booked-Balanced trip total last p d n rows b h r.counters v r'.counters o.1,
  booked_within trip total last p d n rows b h r.counters v o.0,
)
reserved-Balanced trip total last p d n rows b r (err e, r') h v o done = cc

-- Where the counters of a trip agree with its bookings, a reservation that succeeds makes room for the
-- booking it is for: the counters agree with the bookings that include this one, and no leg of the
-- trip between its stops has more seats occupied than the trip has.
pub reserve_segment_seats-Balanced :
    (trip : String) (total last p d n : ℤ) (rows : List Booking) (b : Booking) (r : Redis)
    → Holds trip p d n b
    → Balanced trip total last r.counters rows
    → (reserve_segment_seats trip p d n r).0 ≡ ok tt
    → Balanced trip total last (reserve_segment_seats trip p d n r).1.counters (b ∷ rows)
      × ((k : ℤ)
          → covers (pos 1) last k ≡ true
          → covers p d k ≡ true
          → segment_occupancy trip k (b ∷ rows) ≤ℤ total)
reserve_segment_seats-Balanced trip total last p d n rows b r h v =
    reserved-Balanced trip total last p d n rows b r (reserve_segment_seats trip p d n r) h v
      (reserve_segment_seats-Outcome trip p d n r)

module _ (trip : String) (k : ℤ) (id : String) (f : Booking → Booking) where
  found_share :
      (r : Booking) (rows : List Booking) {b : Booking}
      → str_eq r.booking_id id ≡ true
      → find_row id (r ∷ rows) ≡ some b
      → r ≡ b
  found_share r rows {b} same e = let p : some r ≡ some b = rw same at e in cc

  exchange : (x y z : ℤ) → (x +ℤ y) +ℤ z ≡ (z +ℤ y) +ℤ x
  exchange x y z = omega int_laws

  carry : (x s s' u v : ℤ) → s' +ℤ u ≡ s +ℤ v → (x +ℤ s') +ℤ u ≡ (x +ℤ s) +ℤ v
  carry x s s' u v h = eq_of_parts ((x +ℤ s') +ℤ u) ((x +ℤ s) +ℤ v) ground (
    arith,
    ap pos_part h,
    ap neg_part h,
    +ℤ_parts (x +ℤ s') u,
    +ℤ_parts x s',
    +ℤ_parts (x +ℤ s) v,
    +ℤ_parts x s,
    +ℤ_parts s' u,
    +ℤ_parts s v,
  )

  -- a change of one row exchanges its share
  pub occupancy-update_row :
      (rows : List Booking) (b : Booking)
      → find_row id rows ≡ some b
      → segment_occupancy trip k (update_row id f rows) +ℤ share trip k b
        ≡ segment_occupancy trip k rows +ℤ share trip k (f b)
  unfolding segment_occupancy
  occupancy-update_row [] b e = cc
  occupancy-update_row (r ∷ rows) b e = elim (Bool-cases (str_eq r.booking_id id)) [
    | inl same ↦ rw same (
        subst
          (λ (x : Booking).
            (share trip k (f r) +ℤ segment_occupancy trip k rows) +ℤ share trip k x
            ≡ (share trip k r +ℤ segment_occupancy trip k rows) +ℤ share trip k (f x))
          (found_share r rows same e)
          (exchange (share trip k (f r)) (segment_occupancy trip k rows) (share trip k r)))
    | inr other ↦ rw other (
        carry (share trip k r) (segment_occupancy trip k rows)
          (segment_occupancy trip k (update_row id f rows)) (share trip k b) (share trip k (f b))
          (occupancy-update_row rows b (rw other at e)))
  ]

pub share_inactive :
    (trip : String) (k : ℤ) (b : Booking) → is_active b.status ≡ false → share trip k b ≡ pos 0
share_inactive trip k b h =
    rw h (
      by_case (str_eq b.trip_id trip) (covers b.pickup_sequencer_order b.dropoff_sequencer_order k))
  where
    by_case : (p q : Bool) → (if p && q && false then b.seats_booked else pos 0) ≡ pos 0
    by_case true true = refl
    by_case true false = refl
    by_case false q = refl

pub given_back :
    (total n occ occ' : ℤ) → occ' +ℤ n ≡ occ +ℤ pos 0 → (total -ℤ occ) +ℤ n ≡ total -ℤ occ'
given_back total n occ occ' h = eq_of_parts ((total -ℤ occ) +ℤ n) (total -ℤ occ') ground (
  arith,
  ap pos_part h,
  ap neg_part h,
  +ℤ_parts occ' n,
  +ℤ_parts occ (pos 0),
  -ℤ_parts total occ,
  -ℤ_parts total occ',
  +ℤ_parts (total -ℤ occ) n,
)

pub left_alone : (total occ occ' : ℤ) → occ' +ℤ pos 0 ≡ occ +ℤ pos 0 → total -ℤ occ ≡ total -ℤ occ'
left_alone total occ occ' h = eq_of_parts (total -ℤ occ) (total -ℤ occ') ground (
  arith,
  ap pos_part h,
  ap neg_part h,
  +ℤ_parts occ' (pos 0),
  +ℤ_parts occ (pos 0),
  -ℤ_parts total occ,
  -ℤ_parts total occ',
)

-- Where the counters of a trip agree with its bookings and one of them ends, the restoration of its
-- seats on its legs, with no failing command, makes the counters agree with the bookings after it.
pub restore_segment_seats-Balanced :
    (trip : String) (total last p d n : ℤ) (rows : List Booking) (id : String) (b : Booking)
    (f : Booking → Booking) (r : Redis) (c : Counters)
    → Holds trip p d n b
    → find_row id rows ≡ some b
    → is_active (f b).status ≡ false
    → Balanced trip total last c rows
    → Balanced trip total last
        (restore_segment_seats trip p d n (record r { counters = c; faults = [] })).1.counters
        (update_row id f rows)
restore_segment_seats-Balanced trip total last p d n rows id b f r c h e q v k i =
    let u = restore-Updated trip p d n r c trip k in
    let x = occupancy-update_row trip k id f rows b e in
    elim (Bool-cases (covers p d k)) [
      | inl inside ↦
          rw (u, eq_refl trip, inside, v k i)
            (ap some (
              given_back total n (segment_occupancy trip k rows)
                (segment_occupancy trip k (update_row id f rows))
                (rw (share-Holds trip p d n b k h, inside, share_inactive trip k (f b) q) at x)))
      | inr outside ↦
          rw (u, eq_refl trip, outside, v k i)
            (ap some (
              left_alone total (segment_occupancy trip k rows)
                (segment_occupancy trip k (update_row id f rows))
                (rw (share-Holds trip p d n b k h, outside, share_inactive trip k (f b) q) at x)))
    ]
