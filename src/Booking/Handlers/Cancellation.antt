-- ===== src/Booking/Handlers/Cancellation.antt =====
-- CancelBooking of services/booking-service/internal/service/booking_service_impl.go, with the call of
-- payment-service, keeps the counters in agreement with the bookings.
use tissi_mah.Prelude.{
  ℤ, String, str_eq, false, not, ◌&&◌, ◌||◌, Option, none, some, ◌≡◌, ap, ◌∙◌, if_rule, if_cases,
}
use tissi_mah.Prelude.Result.{Result, ok, err}
use tissi_mah.Booking.Domain.{Booking}
use tissi_mah.Booking.Store.{find_row}
use tissi_mah.Booking.Creation.{World}
use tissi_mah.Booking.Repository.Approval.{decide_approve, decide_reject, decide_cancel}
use tissi_mah.Booking.Repository.Approval
use tissi_mah.Booking.Handlers.{
  Reply, change_and_release, PaymentClient, payment_cancelled, cancel_read, cancel_booking,
  has_pending_payment,
}
use tissi_mah.Booking.Handlers.Balance.{
  InStep, cancel-Ends, change_and_release-InStep, read-InStep, given-InStep,
}

module _ (trip : String) (total last until : ℤ) where
  -- What CancelBooking relies on: payment-service keeps the counters in agreement with the bookings, and
  -- changes no booking unless it answers that the payment is held.
  abbrev Untouched : World → Result String String × World → Type 0
  Untouched w (err e, w') = Unit
  Untouched w (ok status, w') =
      str_eq status "held" ≡ false → w'.db.tables.bookings ≡ w.db.tables.bookings

  abbrev pub IsSteady : Option PaymentClient → Type 0
  IsSteady none = Unit
  IsSteady (some client) =
      (id : String) (w : World)
      → (InStep trip total last until w → InStep trip total last until (client id w).1)
        × Untouched w (client id w)

  -- CancelBooking keeps the counters in agreement.
  pub cancel_booking-InStep :
      (client : Option PaymentClient) (now : ℤ) (user id reason : String) (w : World)
      → IsSteady client
      → InStep trip total last until w
      → InStep trip total last until (cancel_booking client now user id reason w).1
  unfolding cancel_booking Approval.cancel
  cancel_booking-InStep client now user id reason w lawful h =
      given-InStep trip total last until (str_eq user "" || str_eq id "") w _ h (
        read-InStep trip total last until w (cancel_read client now user id reason) id
          (read client lawful) h)
    where
      cancel : Booking → World → Reply (Unit {0})
      cancel = change_and_release (Approval.cancel now id user reason)

      step :
          (b : Booking) (w' : World)
          → find_row id w'.db.tables.bookings ≡ some b
          → InStep trip total last until w'
          → InStep trip total last until
              (change_and_release (Approval.cancel now id user reason) b w').1
      step =
          change_and_release-InStep trip total last until now id (decide_cancel now id user reason)
            (cancel-Ends now id user reason)

      cancelled :
          (b : Booking) (w' : World) (reply : Result String String × World)
          → find_row id w'.db.tables.bookings ≡ some b
          → InStep trip total last until reply.1
          → Untouched w' reply
          → InStep trip total last until
              (payment_cancelled
                (change_and_release (Approval.cancel now id user reason))
                id
                b
                reply).1
      cancelled b w' (err e, w2) here k same = k
      cancelled b w' (ok status, w2) here k same =
          if_cases (λ (r : Reply (Unit {0})). InStep trip total last until r.1)
            (str_eq status "held")
            (λ _.
              read-InStep trip total last until w2
                (change_and_release (Approval.cancel now id user reason)) id step k)
            (λ other. step b w2 (ap (find_row id) (same other) ∙ here) k)

      read :
          (client : Option PaymentClient)
          → IsSteady client
          → (b : Booking) (w' : World) → find_row id w'.db.tables.bookings ≡ some b
          → InStep trip total last until w'
          → InStep trip total last until (cancel_read client now user id reason b w').1
      read none lawful b w' here k = step b w' here k
      read (some client) lawful b w' here k =
          let law = lawful id w' in
          if_rule (λ (r : Reply (Unit {0})). InStep trip total last until r.1)
            (has_pending_payment b)
            (if_rule (λ (r : Reply (Unit {0})). InStep trip total last until r.1)
              (not (str_eq user b.passenger_id) && not (str_eq user b.driver_id)) k
              (cancelled b w' (client id w') here (law.0 k) law.1))
            (step b w' here k)
