-- ===== src/Booking/Handlers/Confirmation.antt =====
-- ApproveBooking and ConfirmPayment keep the counters in agreement with the bookings; a payment that
-- comes late takes its seats again, or changes nothing.
use mathlib.Core.Path.{subst}
use tissi_mah.Prelude.{
  ℤ, String, str_eq, true, false, ◌||◌, Option, none, some, is_some, List, ◌≡◌, refl, sym, ap, ◌∙◌,
  if_rule, if_cases, arith,
}
use tissi_mah.Prelude.Result.{Result, ok, err}
use tissi_mah.Booking.Domain.{Booking, BookingStatus, Error, payment_pending, payment_failed}
use tissi_mah.Booking.Store.{Tables, Db, find_row, touch, update_row, change_booking}
use tissi_mah.Booking.Store.Transaction.{Outcome, effect, change_booking-Outcome}
use tissi_mah.Booking.Seats.{Redis, is_active}
use tissi_mah.Booking.Seats.Balance.{share}
use tissi_mah.Booking.Request.{TripDetails}
use tissi_mah.Booking.Creation.{World}
use tissi_mah.Booking.Repository.Guards.{same_status}
use tissi_mah.Booking.Repository.Approval.{decide_approve}
use tissi_mah.Booking.Repository.Approval
use tissi_mah.Booking.Repository.Payment.{decide_confirm_payment, confirmed}
use tissi_mah.Booking.Repository.Payment
use tissi_mah.Booking.Handlers.{
  Reply, released, on_db, approve_booking, status_after_payment, reserve_seats_for_reactivation,
  confirm_after, confirm_at, if_taken, trip_of, confirm_read, confirm_payment_once,
  is_invalid_transition, attempted, confirm_payment,
}
use tissi_mah.Booking.Handlers.Seats.{revived-Balanced, kept-Balanced}
use tissi_mah.Booking.Handlers.Balance.{Agrees, InStep, made, read-InStep, given-InStep}
use tissi_mah.Booking.Handlers.Reactivation.{
  HeldFor, Reserved, reactivation-Reserved, HeldFor-released,
}
use tissi_mah.Booking.Handlers.Writes.{
  approve_keeps, status_after_active, SameSeats, confirmed-SameSeats, confirmed_status, Written,
  written_rows, confirm_payment_writes,
}

module _ (trip : String) (total last until : ℤ) where
  share_same :
      (k : ℤ) (x y : Booking)
      → SameSeats x y
      → is_active x.status ≡ is_active y.status
      → share trip k x ≡ share trip k y
  share_same k x y same active =
      rw (same.trip, same.from_stop, same.to_stop, same.seats, active) refl

  -- ApproveBooking keeps the counters in agreement.
  pub approve_booking-InStep :
      (now : ℤ) (driver id : String) (w : World)
      → InStep trip total last until w
      → InStep trip total last until (approve_booking now driver id w).1
  unfolding approve_booking Approval.approve
  approve_booking-InStep now driver id w h =
      given-InStep trip total last until (str_eq driver "" || str_eq id "") w _ h (
        read-InStep trip total last until w
          (λ b w'. on_db w' (Approval.approve now id driver w'.db)) id
          (λ b w' here k.
            kept b w' (change_booking now id (decide_approve now id driver) w'.db) here k
              (change_booking-Outcome now id (decide_approve now id driver) w'.db))
          h)
    where
      same_counters :
          (rows : List Booking) (b : Booking) (f : Booking → Booking) (cache : Option Redis)
          → find_row id rows ≡ some b
          → ((k : ℤ) → share trip k (f b) ≡ share trip k b)
          → Agrees trip total last until rows cache
          → Agrees trip total last until (update_row id f rows) cache
      same_counters rows b f none here same k = tt
      same_counters rows b f (some r) here same k =
          (k.0, kept-Balanced trip total last rows id b f here r.counters r.counters k.1 same)

      kept :
          (b : Booking) (w : World) (reply : Result Error (Unit {0}) × Db)
          → find_row id w.db.tables.bookings ≡ some b
          → InStep trip total last until w
          → Outcome w.db.tables
              (λ _ t. effect now id (decide_approve now id driver) w.db.tables ≡ ok t)
              reply
          → InStep trip total last until (on_db w reply).1
      kept b w (err e, db) here k same =
          subst (λ (t : Tables). Agrees trip total last until t.bookings w.cache) (sym same) k
      kept b w (ok _, db) here k done =
          let m =
            made now id w.db.tables db.tables (decide_approve now id driver b) (rw here at done) in
          subst (λ (t : Tables). Agrees trip total last until t.bookings w.cache) (sym m.2)
            (same_counters w.db.tables.bookings b (touch now (m.0).set) w.cache here
              (approve_keeps now id driver b m.0 m.1 trip) k)

  module _ (now : ℤ) (id : String) (b : Booking) (status : BookingStatus)
      (active : is_active status ≡ true) where
    active_after : (x : Booking) → is_active (confirmed now status x).status ≡ true
    active_after x = rw (confirmed_status now status x) active

    -- a payment in time: the seats are held already
    in_time-InStep :
        (w : World) (reply : Result Error (Unit {0}) × Db)
        → find_row id w.db.tables.bookings ≡ some b
        → is_active b.status ≡ true
        → InStep trip total last until w
        → Written now id b status w reply
        → InStep trip total last until (confirm_after false b status w reply).1
    in_time-InStep w (err e, db) here held h same =
        subst (λ (t : Tables). Agrees trip total last until t.bookings w.cache) (sym same) h
    in_time-InStep w (ok _, db) here held h done =
        subst (λ (rows : List Booking). Agrees trip total last until rows w.cache)
          (sym (written_rows now id b status w db here done)) (same_counters w.cache h)
      where
        same_counters :
            (cache : Option Redis)
            → Agrees trip total last until w.db.tables.bookings cache
            → Agrees trip total last until
                (update_row id (touch now (confirmed now status)) w.db.tables.bookings)
                cache
        same_counters none k = tt
        same_counters (some r) k = (
          k.0,
          kept-Balanced trip total last w.db.tables.bookings id b (touch now (confirmed now status))
              here r.counters r.counters k.1
              (λ leg.
                share_same leg (touch now (confirmed now status) b) b
                  (let same = confirmed-SameSeats now status b in
                    record {
                      trip = same.trip;
                      from_stop = same.from_stop;
                      to_stop = same.to_stop;
                      seats = same.seats;
                    })
                  (active_after b ∙ sym held)),
        )

    -- a late payment: the seats have been taken again
    late-InStep :
        (w : World) (reply : Result Error (Unit {0}) × Db)
        → find_row id w.db.tables.bookings ≡ some b
        → is_active b.status ≡ false
        → HeldFor trip total last until w.db.tables.bookings b w.cache
        → Written now id b status w reply
        → InStep trip total last until (confirm_after true b status w reply).1
    late-InStep w (err e, db) here idle h same =
        subst (λ (t : Tables). Agrees trip total last until t.bookings (released b w.cache))
          (sym same) (HeldFor-released trip total last until w.db.tables.bookings b w.cache h)
    late-InStep w (ok _, db) here idle h done =
        subst (λ (rows : List Booking). Agrees trip total last until rows w.cache)
          (sym (written_rows now id b status w db here done)) (revived w.cache h)
      where
        revived :
            (cache : Option Redis)
            → HeldFor trip total last until w.db.tables.bookings b cache
            → Agrees trip total last until
                (update_row id (touch now (confirmed now status)) w.db.tables.bookings)
                cache
        revived none k = tt
        revived (some r) (calm, before, balanced, low) =
            let same = confirmed-SameSeats now status b in
            (
              calm,
              revived-Balanced trip total last w.db.tables.bookings id b
                  (touch now (confirmed now status)) here before r.counters balanced idle
                  (active_after b) (λ leg. rw (same.trip, same.from_stop, same.to_stop) refl)
                  (same.seats) low,
            )

  module _ (get_trip_details : String → Result (Unit {0}) (Option TripDetails)) (now : ℤ)
      (id : String) where
    late :
        (b : Booking) (details : Option TripDetails) (w : World) (reply : Reply (Unit {0}))
        → find_row id w.db.tables.bookings ≡ some b
        → is_active b.status ≡ false
        → Reserved trip total last until w.db.tables.bookings b w.db reply
        → InStep trip total last until
            (if_taken (confirm_at now id true b (status_after_payment details)) reply).1
    late b details w (err e, w') here idle (same, k) =
        subst (λ (t : Tables). Agrees trip total last until t.bookings w'.cache) (sym same) k
    late b details w (ok _, w') here idle (same, k) =
        late-InStep now id b (status_after_payment details) (status_after_active details) w'
          (Payment.confirm_payment now id b.status (status_after_payment details) w'.db)
          (ap (λ (t : Tables). find_row id t.bookings) same ∙ here) idle
          (subst (λ (t : Tables). HeldFor trip total last until t.bookings b w'.cache) (sym same) k)
          (confirm_payment_writes now id b (status_after_payment details) w')

    confirm_read-InStep :
        (b : Booking) (w : World)
        → find_row id w.db.tables.bookings ≡ some b
        → InStep trip total last until w
        → InStep trip total last until (confirm_read get_trip_details now id b w).1
    confirm_read-InStep b w here h =
        let details = trip_of (get_trip_details b.trip_id) in
        if_cases Kept (same_status b.status payment_pending)
          (λ pending.
            in_time-InStep now id b (status_after_payment details) (status_after_active details) w
              (Payment.confirm_payment now id b.status (status_after_payment details) w.db) here
              (pending_holds b.status pending) h
              (confirm_payment_writes now id b (status_after_payment details) w))
          (λ _.
            if_cases Kept (same_status b.status payment_failed)
              (λ failed.
                late b details w (reserve_seats_for_reactivation b details w) here
                  (failed_idle b.status failed)
                  (reactivation-Reserved trip total last until w.db.tables.bookings b details w h))
              (λ _. if_rule Kept (is_some b.payment_completed_at) h h))
      where
        Kept : Reply BookingStatus → Type 0
        Kept r = InStep trip total last until r.1

        pending_holds :
            (s : BookingStatus) → same_status s payment_pending ≡ true → is_active s ≡ true
        pending_holds s e = ground arith

        failed_idle :
            (s : BookingStatus) → same_status s payment_failed ≡ true → is_active s ≡ false
        failed_idle s e = ground arith

    confirm_payment_once-InStep :
        (w : World)
        → InStep trip total last until w
        → InStep trip total last until (confirm_payment_once get_trip_details now id w).1
    unfolding confirm_payment_once
    confirm_payment_once-InStep w h =
        read-InStep trip total last until w (confirm_read get_trip_details now id) id
          confirm_read-InStep h

    -- ConfirmPayment keeps the counters in agreement.
    pub confirm_payment-InStep :
        (transaction : String) (w : World)
        → InStep trip total last until w
        → InStep trip total last until (confirm_payment get_trip_details now id transaction w).1
    unfolding confirm_payment
    confirm_payment-InStep transaction w h =
        given-InStep trip total last until (str_eq id "" || str_eq transaction "") w _ h
          (again (confirm_payment_once get_trip_details now id w) (confirm_payment_once-InStep w h))
      where
        again :
            (r : Reply BookingStatus)
            → InStep trip total last until r.1
            → InStep trip total last until
                (attempted (confirm_payment_once get_trip_details now id) r).1
        again (ok s, w') k = k
        again (err e, w') k =
            if_rule (λ (r : Reply BookingStatus). InStep trip total last until r.1)
              (is_invalid_transition e) (confirm_payment_once-InStep w' k) k
