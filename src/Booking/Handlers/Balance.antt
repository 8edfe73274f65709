-- ===== src/Booking/Handlers/Balance.antt =====
-- The handlers keep the counters of the seats in agreement with the bookings.
use mathlib.Core.Path.{subst}
use tissi_mah.Prelude.{
  ℤ, pos, ◌+ℤ◌, String, str_eq, Bool, true, false, not, ◌&&◌, ◌||◌, Option, none, some, List, [],
  ◌≡◌, refl, sym, ap, if_rule, arith,
}
use tissi_mah.Prelude.Result.{Result, ok, err}
use tissi_mah.Booking.Domain.{Booking, Error}
use tissi_mah.Booking.Store.{
  Tables, Db, Change, find_row, touch, update_row, change_booking, next_call,
}
use tissi_mah.Booking.Store.Transaction.{
  Outcome, effect, effect_of, changed, change_booking-Outcome,
}
use tissi_mah.Booking.Seats.{
  Redis, CacheError, legs, is_active, restore_segment_seats, covers, has_passed,
}
use tissi_mah.Booking.Seats.Reservation.{restore-Updated, each_leg_runs}
use tissi_mah.Booking.Seats.Balance.{Balanced}
use tissi_mah.Booking.Creation.{World}
use tissi_mah.Booking.Repository.Approval.{decide_approve, decide_reject, decide_cancel}
use tissi_mah.Booking.Repository.Approval
use tissi_mah.Booking.Repository.NoShow
use tissi_mah.Booking.Repository.NoShow.{decide_report_no_show}
use tissi_mah.Booking.Repository.Payment
use tissi_mah.Booking.Repository.Payment.{decide_fail_payment, decide_confirm_payment}
use tissi_mah.Booking.Handlers.{
  found, get_by_id, Reply, with_booking, given, released, release_after, change_and_release,
  reject_booking, can_report_no_show, check_no_show_reportable, if_reportable, reported,
  report_no_show, fail_after, fail_payment,
}
use tissi_mah.Booking.Handlers.Seats.{ended-Balanced}

-- No command of the cache fails, and no counter of the legs of a trip expires before the time `until`.
abbrev pub IsCalm : String → ℤ → ℤ → Redis → Type 0
IsCalm trip last until r =
    (r.faults ≡ [])
    × ((k : ℤ) → covers (pos 1) last k ≡ true → has_passed until (r.deadlines trip k) ≡ false)

-- The counters of a cache, whose commands do not fail, agree with the bookings on a trip, and none of them
-- expires before the time `until`.
abbrev pub Agrees : String → ℤ → ℤ → ℤ → List Booking → Option Redis → Type 0
Agrees trip total last until rows none = Unit
Agrees trip total last until rows (some r) =
    IsCalm trip last until r × Balanced trip total last r.counters rows

abbrev pub InStep : String → ℤ → ℤ → ℤ → World → Type 0
InStep trip total last until w = Agrees trip total last until w.db.tables.bookings w.cache

-- a decision that ends an active booking
abbrev pub Ends : (Booking → Result Error Change) → Type 0
Ends decide =
    (b : Booking) (c : Change)
    → decide b ≡ ok c
    → (is_active b.status ≡ true) × (is_active (c.set b).status ≡ false)

reject-Ends : (now : ℤ) (id driver reason : String) → Ends (decide_reject now id driver reason)
unfolding decide_reject
reject-Ends now id driver reason b c e = ground arith

pub cancel-Ends : (now : ℤ) (id user reason : String) → Ends (decide_cancel now id user reason)
unfolding decide_cancel
cancel-Ends now id user reason b c e = ground arith

report_no_show-Ends :
    (now : ℤ) (id reporter kind description : String)
    → Ends (decide_report_no_show now id reporter kind description)
unfolding decide_report_no_show
report_no_show-Ends now id reporter kind description b c e = ground arith

fail_payment-Ends : (id reason : String) → Ends (decide_fail_payment id reason)
unfolding decide_fail_payment
fail_payment-Ends id reason b c e = ground arith

-- the change that a successful method has made
pub made :
    (now : ℤ) (id : String) (t t' : Tables) (d : Result Error Change)
    → effect_of now id t d ≡ ok t'
    → (c : Change) × (d ≡ ok c) × (t' ≡ changed now id c t)
made now id t t' (ok c) e = (c, refl, cc)
made now id t t' (err x) e = cc

pub as_calm : (r : Redis) → r.faults ≡ [] → r ≡ record r { faults = [] }
as_calm r e = ap (λ (fs : List Bool). with_faults fs) e
  where
    with_faults : List Bool → Redis
    with_faults fs = record r { faults = fs }

abbrev pub after : Booking → Redis → Redis
after b r =
    (restore_segment_seats b.trip_id b.pickup_sequencer_order b.dropoff_sequencer_order
      b.seats_booked (record r { faults = [] })).1

pub restore-IsCalm :
    (trip : String) (last until : ℤ) (b : Booking) (r : Redis)
    → IsCalm trip last until r
    → IsCalm trip last until (after b r)
unfolding restore_segment_seats
restore-IsCalm trip last until b r h =
    subst (λ (x : Result CacheError (Unit {0}) × Redis). IsCalm trip last until x.1)
      (sym (
        each_leg_runs b.trip_id (λ s. s +ℤ b.seats_booked)
          (legs b.pickup_sequencer_order b.dropoff_sequencer_order) r r.counters))
      (refl, h.1)

module _ (trip : String) (total last until : ℤ) where
  release-Agrees :
      (b : Booking) (rows : List Booking) (id : String) (f : Booking → Booking)
      (cache : Option Redis)
      → find_row id rows ≡ some b
      → is_active b.status ≡ true
      → is_active (f b).status ≡ false
      → Agrees trip total last until rows cache
      → Agrees trip total last until (update_row id f rows) (released b cache)
  release-Agrees b rows id f none here active ends h = tt
  release-Agrees b rows id f (some r) here active ends h =
      subst
        (λ (r' : Redis). Agrees trip total last until (update_row id f rows) (released b (some r')))
        (sym (as_calm r h.0.0))
        (
          restore-IsCalm trip last until b r h.0,
          ended-Balanced trip total last rows id b f here r.counters (after b r).counters h.1 active
              ends
              (restore-Updated b.trip_id b.pickup_sequencer_order b.dropoff_sequencer_order
                b.seats_booked r r.counters),
        )

  module _ (now : ℤ) (id : String) (decide : Booking → Result Error Change)
      (ends : Ends decide) where
    released-InStep :
        (b : Booking) (w : World) (reply : Result Error (Unit {0}) × Db)
        → find_row id w.db.tables.bookings ≡ some b
        → Outcome w.db.tables (λ _ t. effect now id decide w.db.tables ≡ ok t) reply
        → InStep trip total last until w
        → InStep trip total last until (release_after b w reply).1
    released-InStep b w (err e, db) here same h =
        subst (λ (t : Tables). Agrees trip total last until t.bookings w.cache) (sym same) h
    released-InStep b w (ok _, db) here done h =
        let m = made now id w.db.tables db.tables (decide b) (rw here at done) in
        let e = ends b m.0 m.1 in
        subst (λ (t : Tables). Agrees trip total last until t.bookings (released b w.cache))
          (sym m.2)
          (release-Agrees b w.db.tables.bookings id (touch now (m.0).set) w.cache here e.0 e.1 h)

    pub change_and_release-InStep :
        (b : Booking) (w : World)
        → find_row id w.db.tables.bookings ≡ some b
        → InStep trip total last until w
        → InStep trip total last until (change_and_release (change_booking now id decide) b w).1
    change_and_release-InStep b w here h =
        released-InStep b w (change_booking now id decide w.db) here
          (change_booking-Outcome now id decide w.db) h

  -- a handler of a booking that was read
  pub read-InStep :
      {A : Type 0} (w : World) (next : Booking → World → Reply A) (id : String)
      → ((b : Booking) (w' : World)
          → find_row id w'.db.tables.bookings ≡ some b
          → InStep trip total last until w'
          → InStep trip total last until (next b w').1)
      → InStep trip total last until w
      → InStep trip total last until (with_booking w next (get_by_id id w.db)).1
  read-InStep {A} w next id step h =
      if_rule
        (λ (r : Result Error Booking × Db). InStep trip total last until (with_booking w next r).1)
        (next_call w.db.faults).0 h (found_step (find_row id w.db.tables.bookings) refl)
    where
      found_step :
          (o : Option Booking)
          → find_row id w.db.tables.bookings ≡ o
          → InStep trip total last until
              (with_booking w next
                (found (record (w.db) { faults = (next_call w.db.faults).1 }) o)).1
      found_step none e = h
      found_step (some b) e =
          step b (record w { db = record (w.db) { faults = (next_call w.db.faults).1 } }) e h

  pub given-InStep :
      {A : Type 0} (missing : Bool) (w : World) (next : Reply A)
      → InStep trip total last until w
      → InStep trip total last until next.1
      → InStep trip total last until (given missing w next).1
  given-InStep {A} missing w next h n =
      if_rule (λ (r : Reply A). InStep trip total last until r.1) missing h n

  -- RejectBooking keeps the counters in agreement, whether it succeeds or not.
  pub reject_booking-InStep :
      (now : ℤ) (driver id reason : String) (w : World)
      → InStep trip total last until w
      → InStep trip total last until (reject_booking now driver id reason w).1
  unfolding reject_booking Approval.reject
  reject_booking-InStep now driver id reason w h =
      given-InStep (str_eq driver "" || str_eq id "") w _ h (
        read-InStep w (change_and_release (Approval.reject now id driver reason)) id
          (change_and_release-InStep now id (decide_reject now id driver reason)
            (reject-Ends now id driver reason))
          h)

  -- FailPayment does so.
  pub fail_payment-InStep :
      (now : ℤ) (id reason : String) (w : World)
      → InStep trip total last until w
      → InStep trip total last until (fail_payment now id reason w).1
  unfolding fail_payment Payment.fail_payment
  fail_payment-InStep now id reason w h = given-InStep (str_eq id "") w _ h (
      read-InStep w (λ b w'. fail_after b w' (Payment.fail_payment now id reason w'.db)) id
        (λ b w' here h'. fail_after-InStep b w' (Payment.fail_payment now id reason w'.db) (
          change_and_release-InStep now id (decide_fail_payment id reason)
            (fail_payment-Ends id reason) b w' here h'))
        h)
    where
      fail_after-InStep :
          (b : Booking) (w : World) (reply : Result Error (Unit {0}) × Db)
          → InStep trip total last until (release_after b w reply).1
          → InStep trip total last until (fail_after b w reply).1
      fail_after-InStep b w (err e, db) k = k
      fail_after-InStep b w (ok _, db) k = k

  -- ReportNoShow does so, whatever trips-service says of the pickup.
  pub report_no_show-InStep :
      (pickup_of : Booking → Option ℤ) (now : ℤ) (id reporter kind description : String) (w : World)
      → InStep trip total last until w
      → InStep trip total last until (report_no_show pickup_of now id reporter kind description w).1
  unfolding report_no_show NoShow.report_no_show
  report_no_show-InStep pickup_of now id reporter kind description w h =
      given-InStep (str_eq id "" || str_eq reporter "" || str_eq kind "") w _ h (
        given-InStep (not (str_eq kind "driver") && not (str_eq kind "passenger")) w _ h (
          read-InStep w (reported pickup_of now id reporter kind description) id
            (λ b w' here h'.
              if_rule (λ (r : Reply (Unit {0})). InStep trip total last until r.1)
                (can_report_no_show b reporter kind)
                (reportable w'
                  (change_and_release (NoShow.report_no_show now id reporter kind description) b w')
                  (check_no_show_reportable now (pickup_of b)) h'
                  (change_and_release-InStep now id
                    (decide_report_no_show now id reporter kind description)
                    (report_no_show-Ends now id reporter kind description) b w' here h'))
                h')
            h))
    where
      reportable :
          (w : World) (next : Reply (Unit {0})) (check : Result Error (Unit {0}))
          → InStep trip total last until w
          → InStep trip total last until next.1
          → InStep trip total last until (if_reportable w next check).1
      reportable w next (err e) k n = k
      reportable w next (ok _) k n = n
