-- ===== src/Payment/Window.antt =====
-- services/payment-service/internal/service/payment_window.go: the daily window in which the payout
-- and refund workers run. `t.In(loc).Hour()` is Go's library: a parameter, the hour of an instant in
-- a location, which lies between 0 and 23.
use tissi_mah.Prelude.{
  ℕ, ◌+◌, ◌-◌, ◌%◌, ◌≤◌, ◌<◌, ◌≡◌, ◌↔◌, arith, Bool, true, false, not, ◌&&◌, ◌||◌, Option, none,
  some, ltb, ℤ, pos, ltb_ℤ, leb_ℤ, eqb_ℤ, if◌then◌else◌,
}

pub record PaymentWindow (Location : Type 0) : Type 0 where
  pub enabled : Bool
  pub location : Option Location
  pub start_hour : ℤ
  pub end_hour : ℤ

-- the tests that follow the conversion to the local hour
open_at : ℤ → ℤ → ℤ → Bool
open_at start end h =
    if eqb_ℤ start end
    then false
    else if ltb_ℤ start end
    then leb_ℤ start h && ltb_ℤ h end
    else leb_ℤ start h || ltb_ℤ h end

module _ {Location Time : Type 0} (hour_in : Location → Time → ℤ) where
  open_in : PaymentWindow Location → Option Location → Time → Bool
  open_in w none t = true
  open_in w (some location) t = open_at w.start_hour w.end_hour (hour_in location t)

  unfoldable pub is_open : PaymentWindow Location → Time → Bool
  unfolding open_in open_at
  is_open w t = if not w.enabled then true else open_in w w.location t

-- How many hours the window lasts each day.
abbrev pub window_length : ℕ → ℕ → ℕ
window_length start end =
    if ltb start end then end - start else if ltb end start then 24 - start + end else 0

-- the window of a configuration with hours that are not negative
abbrev pub daily : {Location : Type 0} → Location → ℕ → ℕ → PaymentWindow Location
daily location start end = record {
  enabled = true;
  location = some location;
  start_hour = pos start;
  end_hour = pos end;
}

open_at_iff :
    (start end h : ℕ)
    → start < 24
    → end ≤ 24
    → h < 24
    → (open_at (pos start) (pos end) (pos h) ≡ true)
      ↔ ((h + 24 - start) % 24 < window_length start end)
unfolding open_at
open_at_iff start end h hs he hh = (λ e. ground arith, λ e. ground arith)

module _ {Location Time : Type 0} (hour_in : Location → Time → ℤ) where
  -- An enabled window with a location is open exactly when fewer hours than its length have passed
  -- since it last started, midnight included, for a start from 0 to 23, an end from 0 to 24 and a
  -- local hour from 0 to 23.
  pub is_open_iff :
      (location : Location) (t : Time) (start end h : ℕ)
      → hour_in location t ≡ pos h
      → start < 24
      → end ≤ 24
      → h < 24
      → (is_open hour_in (daily location start end) t ≡ true)
        ↔ ((h + 24 - start) % 24 < window_length start end)
  unfolding is_open
  is_open_iff location t start end h k hs he hh = rw k (open_at_iff start end h hs he hh)
