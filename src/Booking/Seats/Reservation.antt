-- ===== src/Booking/Seats/Reservation.antt =====
-- Reservation and restoration of seats on the legs of a trip.
use tissi_mah.Prelude.{
  ℤ, pos, ◌+ℤ◌, ◌-ℤ◌, ◌≤ℤ◌, ◌<ℤ◌, ltb_ℤ, arith, String, str_eq, eq_iff, Bool, true, ◌&&◌, Option,
  none, some, List, [], ◌∷◌, if◌then◌else◌, ◌≡◌, refl, sym, Bool-cases, inl, inr, +ℤ_parts,
  -ℤ_parts, eq_of_parts, ap,
}
use tissi_mah.Prelude.Result.{Result, ok, err}
use tissi_mah.Booking.Store.{next_call}
use tissi_mah.Booking.Seats.{
  Counters, Redis, CacheError, put, seats_of, legs, covers, update_each, all_have, each_leg,
  reserve_segment_seats, reserve_segment_seats_script, restore_segment_seats,
}
use tissi_mah.Booking.Seats.Counters.{update_legs-at, all_have_legs, lacking_leg}

-- the counters of the legs between the stops, each changed by `f`, and the others as they were
abbrev pub Updated : String → ℤ → ℤ → (ℤ → ℤ) → Counters → Counters → Type 0
Updated trip p d f before after =
    (t : String) (k : ℤ)
    → after t k
      ≡ (if str_eq t trip && covers p d k then some (f (seats_of (before t k))) else before t k)

-- What a reservation reports, and what it leaves in the counters.
abbrev pub ReserveOutcome :
    String → ℤ → ℤ → ℤ → Redis → Result CacheError (Unit {0}) × Redis → Type 0
ReserveOutcome trip p d n r (ok _, r') =
    ((k : ℤ) → covers p d k ≡ true → n ≤ℤ seats_of (r.counters trip k))
    × Updated trip p d (λ s. s -ℤ n) r.counters r'.counters
ReserveOutcome trip p d n r (err CacheError.no_seats_available, r') =
    ((k : ℤ) × (covers p d k ≡ true) × (seats_of (r.counters trip k) <ℤ n))
    × (r'.counters ≡ r.counters)
ReserveOutcome trip p d n r (err CacheError.command_failed, r') = r'.counters ≡ r.counters
ReserveOutcome trip p d n r (err CacheError.panicked, r') = (d <ℤ p) × (r'.counters ≡ r.counters)

-- A reservation is all or nothing: it succeeds where every leg has the seats, and takes them from each
-- of these legs and from no other; it reports that seats are missing only where some leg lacks them,
-- and then, as on a failing command, no counter changes; it panics only on stops in the wrong order.
pub reserve_segment_seats-Outcome :
    (trip : String) (p d n : ℤ) (r : Redis)
    → ReserveOutcome trip p d n r (reserve_segment_seats trip p d n r)
unfolding reserve_segment_seats reserve_segment_seats_script
reserve_segment_seats-Outcome trip p d n r = elim (Bool-cases (ltb_ℤ d p)) [
  | inl swapped ↦ rw swapped (ground arith, refl)
  | inr ordered ↦ elim (Bool-cases (next_call r.faults).0) [
    | inl fails ↦ rw (ordered, fails) refl
    | inr runs ↦ elim (Bool-cases (all_have trip n (legs p d) r.counters)) [
      | inl enough ↦
          rw (ordered, runs, enough)
            (
              all_have_legs trip n p d r.counters enough,
              update_legs-at trip (λ s. s -ℤ n) p d r.counters,
            )
      | inr few ↦ rw (ordered, runs, few) (lacking_leg trip n p d r.counters few, refl)
    ]
  ]
]

pub each_leg_runs :
    (trip : String) (f : ℤ → ℤ) (orders : List ℤ) (r : Redis) (c : Counters)
    → each_leg
        (λ order r. record r {
          counters = put trip order (f (seats_of (r.counters trip order))) r.counters;
        })
        orders
        (record r { counters = c; faults = [] })
      ≡ (ok tt, record r { counters = update_each trip f orders c; faults = [] })
each_leg_runs trip f [] r c = refl
each_leg_runs trip f (order ∷ orders) r c =
    each_leg_runs trip f orders r (put trip order (f (seats_of (c trip order))) c)

pub restore-Updated :
    (trip : String) (p d n : ℤ) (r : Redis) (c : Counters)
    → Updated trip p d
        (λ s. s +ℤ n)
        c
        (restore_segment_seats trip p d n (record r { counters = c; faults = [] })).1.counters
unfolding restore_segment_seats
restore-Updated trip p d n r c t k =
    rw (each_leg_runs trip (λ s. s +ℤ n) (legs p d) r c)
      (update_legs-at trip (λ s. s +ℤ n) p d c t k)

present : (o : Option ℤ) (n : ℤ) → pos 1 ≤ℤ n → n ≤ℤ seats_of o → o ≡ some (seats_of o)
present none n h l = ground arith
present (some s) n h l = refl

pub add_back : (s n : ℤ) → (s -ℤ n) +ℤ n ≡ s
add_back s n = eq_of_parts ((s -ℤ n) +ℤ n) s ground (arith, -ℤ_parts s n, +ℤ_parts (s -ℤ n) n)

-- counters that a reservation lowered and a restoration raised are those from before
module _ (trip : String) (p d n : ℤ) (before lowered after : Counters)
    (enough : (k : ℤ) → covers p d k ≡ true → n ≤ℤ seats_of (before trip k))
    (some_seat : pos 1 ≤ℤ n) (low : Updated trip p d (λ s. s -ℤ n) before lowered)
    (high : Updated trip p d (λ s. s +ℤ n) lowered after) where
  pub restored : (t : String) (k : ℤ) → after t k ≡ before t k
  restored t k = elim (Bool-cases (str_eq t trip)) [
    | inr other ↦ rw (high t k, other, low t k, other) refl
    | inl same ↦ elim (Bool-cases (covers p d k)) [
      | inr outside ↦ rw (high t k, same, outside, low t k, same, outside) refl
      | inl inside ↦
          rw (high t k, same, inside, low t k, same, inside, add_back (seats_of (before t k)) n)
            (sym (present (before t k) n some_seat (rw ((eq_iff t trip).0 same) (enough k inside))))
    ]
  ]

reserved-restore :
    (trip : String) (p d n : ℤ) (r : Redis) (reply : Result CacheError (Unit {0}) × Redis)
    → ReserveOutcome trip p d n r reply
    → pos 1 ≤ℤ n
    → reply.0 ≡ ok tt
    → reply.1.faults ≡ []
    → (t : String) (k : ℤ)
    → (restore_segment_seats trip p d n reply.1).1.counters t k ≡ r.counters t k
reserved-restore trip p d n r (ok _, r') o h done calm t k =
    restored trip p d n r.counters r'.counters (restore_segment_seats trip p d n r').1.counters o.0
      h o.1 (rw (as_calm calm) (restore-Updated trip p d n r' r'.counters)) t k
  where
    with_faults : List Bool → Redis
    with_faults fs = record r' { counters = r'.counters; faults = fs }

    as_calm : r'.faults ≡ [] → r' ≡ record r' { counters = r'.counters; faults = [] }
    as_calm e = ap with_faults e
reserved-restore trip p d n r (err e, r') o h done calm t k = cc

-- A reservation of at least one seat that succeeds, and the restoration of the same seats on the same
-- legs with no failing command, leave every counter as it was before.
pub restore-reserve :
    (trip : String) (p d n : ℤ) (r : Redis)
    → pos 1 ≤ℤ n
    → (reserve_segment_seats trip p d n r).0 ≡ ok tt
    → (reserve_segment_seats trip p d n r).1.faults ≡ []
    → (t : String) (k : ℤ)
    → (restore_segment_seats trip p d n (reserve_segment_seats trip p d n r).1).1.counters t k
      ≡ r.counters t k
restore-reserve trip p d n r =
    reserved-restore trip p d n r (reserve_segment_seats trip p d n r)
      (reserve_segment_seats-Outcome trip p d n r)
