-- ===== src/Booking/Seats/Minimum.antt =====
-- The minimum of the counters against the test of the reservation script.
use tissi_mah.Prelude.{
  ℤ, pos, negsuc, ltb_ℤ, leb_ℤ, eqb_ℤ, ◌<ℤ◌, -ℤ_parts, arith, String, Bool, true, false, ◌&&◌, some,
  List, [], ◌∷◌, All, ◌≢◌, ◌<◌, Bool-cases, inl, inr, ◌≡◌, refl, ◌∙◌, if◌then◌else◌, pos_part, ◌-ℤ◌,
  ℕ, zero, suc,
}
use tissi_mah.Prelude.Result.{Result, ok, err}
use tissi_mah.Booking.Seats.{
  Counters, Redis, CacheError, legs, legs_from, all_have, min_over, get_min_segment_seats,
}

abbrev calm_redis : Redis → Counters → Redis
calm_redis r c = record r { counters = c; faults = [] }

-- every leg has a counter, and it is not negative
abbrev pub Counted : String → Counters → List ℤ → Type 0
Counted trip c = All (λ k. (n : ℕ) × (c trip k ≡ some (pos n)))

-- the enough-seats answer of a minimum
abbrev pub answers : ℤ → Result CacheError ℤ → Bool
answers n (ok low) = leb_ℤ n low
answers n (err e) = false

smaller :
    (n : ℤ) (s low : ℕ) (q : Bool)
    → ltb_ℤ (pos s) (pos low) ≡ true
    → (leb_ℤ n (pos s) && q) ≡ (leb_ℤ n (pos low) && (if ltb_ℤ (pos s) n then false else q))
smaller n s low q h = ground arith

larger :
    (n : ℤ) (s low : ℕ) (q : Bool)
    → ltb_ℤ (pos s) (pos low) ≡ false
    → (leb_ℤ n (pos low) && q) ≡ (leb_ℤ n (pos low) && (if ltb_ℤ (pos s) n then false else q))
larger n s low q h = ground arith

first_test :
    (n : ℤ) (s : ℕ) (q : Bool) → (leb_ℤ n (pos s) && q) ≡ (if ltb_ℤ (pos s) n then false else q)
first_test n s q = ground arith

not_absent : (low : ℕ) → eqb_ℤ (pos low) (negsuc 0) ≡ false
not_absent low = ground arith

min_over-answers :
    (trip : String) (r : Redis) (c : Counters) (n : ℤ) (orders : List ℤ) (low : ℕ)
    → Counted trip c orders
    → answers n (min_over trip orders (pos low) (calm_redis r c)).0
      ≡ (leb_ℤ n (pos low) && all_have trip n orders c)
min_over-answers trip r c n [] low h = ground arith
min_over-answers trip r c n (o ∷ os) low ((s, e), h) = elim (Bool-cases (ltb_ℤ (pos s) (pos low))) [
  | inl less ↦
      rw (e, not_absent low, less)
        (min_over-answers trip r c n os s h ∙ smaller n s low (all_have trip n os c) less)
  | inr more ↦
      rw (e, not_absent low, more)
        (min_over-answers trip r c n os low h ∙ larger n s low (all_have trip n os c) more)
]

min_from-answers :
    (trip : String) (r : Redis) (c : Counters) (n : ℤ) (orders : List ℤ)
    → orders ≢ []
    → Counted trip c orders
    → answers n (min_over trip orders (negsuc 0) (calm_redis r c)).0 ≡ all_have trip n orders c
min_from-answers trip r c n [] k h = absurd (k refl)
min_from-answers trip r c n (o ∷ os) k ((s, e), h) =
    rw e (min_over-answers trip r c n os s h ∙ first_test n s (all_have trip n os c))

-- Where every leg between two stops has a counter that is not negative, and no command fails, the
-- minimum that GetMinSegmentSeats returns for a way of at least one leg is at least a number of seats
-- exactly when the reservation script finds that many on every leg.
pub get_min_segment_seats-answers :
    (trip : String) (r : Redis) (c : Counters) (p d n : ℤ)
    → p <ℤ d
    → Counted trip c (legs p d)
    → answers n (get_min_segment_seats trip p d (record r { counters = c; faults = [] })).0
      ≡ all_have trip n (legs p d) c
unfolding get_min_segment_seats
get_min_segment_seats-answers trip r c p d n l h =
    min_from-answers trip r c n (legs p d)
      (some_leg (pos_part (d -ℤ p)) ground (arith, -ℤ_parts d p)) h
  where
    some_leg : (m : ℕ) → 0 < m → legs_from m p ≢ []
    some_leg zero i = ground arith
    some_leg (suc m) i = λ e. cc
