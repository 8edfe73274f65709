-- ===== src/Booking/Handlers/Seats.antt =====
-- Seats that a change of one booking gives back or takes, on every trip.
use tissi_mah.Prelude.{
  ℤ, pos, pos_part, neg_part, ◌+ℤ◌, ◌-ℤ◌, +ℤ_parts, -ℤ_parts, eq_of_parts, String, str_eq,
  str_eq_sym, Bool, true, false, ◌&&◌, some, List, ◌≡◌, refl, ap, ◌∙◌, Bool-cases, inl, inr, arith,
  if◌then◌else◌,
}
use tissi_mah.Booking.Domain.{Booking}
use tissi_mah.Booking.Store.{find_row, update_row}
use tissi_mah.Booking.Seats.{Counters, covers, is_active, segment_occupancy}
use tissi_mah.Booking.Seats.Reservation.{Updated}
use tissi_mah.Booking.Seats.Balance.{
  Balanced, share, occupancy-update_row, share_inactive, given_back, left_alone,
}

-- the leg `k` of the trip is one of the booking's
abbrev on_way : String → ℤ → Booking → Bool
on_way trip k b =
    str_eq trip b.trip_id && covers b.pickup_sequencer_order b.dropoff_sequencer_order k

share_active :
    (trip : String) (k : ℤ) (b : Booking)
    → is_active b.status ≡ true
    → share trip k b ≡ (if on_way trip k b then b.seats_booked else pos 0)
share_active trip k b active =
    rw (active, str_eq_sym b.trip_id trip)
      (by_case (str_eq trip b.trip_id)
        (covers b.pickup_sequencer_order b.dropoff_sequencer_order k))
  where
    by_case :
        (p q : Bool)
        → (if p && q && true then b.seats_booked else pos 0)
          ≡ (if p && q then b.seats_booked else pos 0)
    by_case true true = refl
    by_case true false = refl
    by_case false q = refl

taken_away : (total n occ occ' : ℤ) → occ' +ℤ pos 0 ≡ occ +ℤ n → (total -ℤ occ) -ℤ n ≡ total -ℤ occ'
taken_away total n occ occ' h = eq_of_parts ((total -ℤ occ) -ℤ n) (total -ℤ occ') ground (
  arith,
  ap pos_part h,
  ap neg_part h,
  +ℤ_parts occ' (pos 0),
  +ℤ_parts occ n,
  -ℤ_parts total occ,
  -ℤ_parts total occ',
  -ℤ_parts (total -ℤ occ) n,
)

module _ (trip : String) (total last : ℤ) (rows : List Booking) (id : String) (b : Booking)
    (f : Booking → Booking) (here : find_row id rows ≡ some b) (before after : Counters)
    (balanced : Balanced trip total last before rows) where
  -- An active booking ends, and its seats are added to its legs.
  pub ended-Balanced :
      is_active b.status ≡ true
      → is_active (f b).status ≡ false
      → Updated b.trip_id b.pickup_sequencer_order b.dropoff_sequencer_order
          (λ s. s +ℤ b.seats_booked)
          before
          after
      → Balanced trip total last after (update_row id f rows)
  ended-Balanced active ends update k i =
      let x = occupancy-update_row trip k id f rows b here in
      elim (Bool-cases (on_way trip k b)) [
        | inl inside ↦
            rw (update trip k, inside, balanced k i)
              (ap some (
                given_back total b.seats_booked (segment_occupancy trip k rows)
                  (segment_occupancy trip k (update_row id f rows))
                  (rw (share_active trip k b active, inside, share_inactive trip k (f b) ends) at
                    x)))
        | inr outside ↦
            rw (update trip k, outside, balanced k i)
              (ap some (
                left_alone total (segment_occupancy trip k rows)
                  (segment_occupancy trip k (update_row id f rows))
                  (rw (share_active trip k b active, outside, share_inactive trip k (f b) ends) at
                    x)))
      ]

  -- A booking becomes active, and its seats are taken from its legs.
  pub revived-Balanced :
      is_active b.status ≡ false
      → is_active (f b).status ≡ true
      → ((k : ℤ) → on_way trip k (f b) ≡ on_way trip k b)
      → (f b).seats_booked ≡ b.seats_booked
      → Updated b.trip_id b.pickup_sequencer_order b.dropoff_sequencer_order
          (λ s. s -ℤ b.seats_booked)
          before
          after
      → Balanced trip total last after (update_row id f rows)
  revived-Balanced idle revives way seats update k i =
      let x = occupancy-update_row trip k id f rows b here in
      let after_share = share_active trip k (f b) revives in
      elim (Bool-cases (on_way trip k b)) [
        | inl inside ↦
            rw (update trip k, inside, balanced k i)
              (ap some (
                taken_away total b.seats_booked (segment_occupancy trip k rows)
                  (segment_occupancy trip k (update_row id f rows))
                  (rw (share_inactive trip k b idle, after_share, way k, inside, seats) at x)))
        | inr outside ↦
            rw (update trip k, outside, balanced k i)
              (ap some (
                left_alone total (segment_occupancy trip k rows)
                  (segment_occupancy trip k (update_row id f rows))
                  (rw (share_inactive trip k b idle, after_share, way k, outside) at x)))
      ]

  -- The booking stays active on the same seats, or inactive.
  pub kept-Balanced :
      ((k : ℤ) → share trip k (f b) ≡ share trip k b)
      → Balanced trip total last before (update_row id f rows)
  kept-Balanced same k i =
      let x = occupancy-update_row trip k id f rows b here in
      balanced k i
      ∙ ap some (
          still total (segment_occupancy trip k rows)
            (segment_occupancy trip k (update_row id f rows)) (share trip k b) (rw (same k) at x))
    where
      still : (total occ occ' s : ℤ) → occ' +ℤ s ≡ occ +ℤ s → total -ℤ occ ≡ total -ℤ occ'
      still total occ occ' s h = eq_of_parts (total -ℤ occ) (total -ℤ occ') ground (
        arith,
        ap pos_part h,
        ap neg_part h,
        +ℤ_parts occ' s,
        +ℤ_parts occ s,
        -ℤ_parts total occ,
        -ℤ_parts total occ',
      )
