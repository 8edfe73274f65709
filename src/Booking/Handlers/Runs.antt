-- ===== src/Booking/Handlers/Runs.antt =====
-- Runs of calls of the handlers of services/booking-service/internal/service/booking_service_impl.go,
-- in any order: the counters of the seats stay in agreement with the bookings.
use tissi_mah.Prelude.{
  leb_ℤ, true, false, none, some, All, ◌≡◌, refl, arith, ℤ, String, Option, List, [], ◌∷◌,
}
use tissi_mah.Prelude.Result.{Result}
use tissi_mah.Booking.Domain.{Booking}
use tissi_mah.Booking.Request.{TripDetails}
use tissi_mah.Booking.Seats.{Redis, at_time, has_passed}
use tissi_mah.Booking.Creation.{World}
use tissi_mah.Booking.Handlers.{
  PaymentClient, reject_booking, cancel_booking, report_no_show, fail_payment, approve_booking,
  confirm_payment,
}
use tissi_mah.Booking.Handlers.Balance.{
  Agrees, InStep, reject_booking-InStep, report_no_show-InStep, fail_payment-InStep,
}
use tissi_mah.Booking.Handlers.Cancellation.{IsSteady, cancel_booking-InStep}
use tissi_mah.Booking.Handlers.Confirmation.{approve_booking-InStep, confirm_payment-InStep}

-- A call of a handler, with what the other services answer to it.
pub data HandlerCall : Type 0 where
  reject : String → String → String → HandlerCall
  cancel : String → String → String → HandlerCall
  report : (Booking → Option ℤ) → String → String → String → String → HandlerCall
  fail : String → String → HandlerCall
  approve : String → String → HandlerCall
  confirm : (String → Result (Unit {0}) (Option TripDetails)) → String → String → HandlerCall

-- time goes by for the counters
abbrev pub tick : ℤ → World → World
tick now w = record w { cache = elim w.cache [ none ↦ none | some r ↦ some (at_time now r) ] }

-- the world after a call at a time
abbrev pub handle : Option PaymentClient → ℤ → HandlerCall → World → World
handle client now (reject driver id reason) w = (reject_booking now driver id reason w).1
handle client now (cancel user id reason) w = (cancel_booking client now user id reason w).1
handle client now (report pickup_of id reporter no_show_type description) w =
    (report_no_show pickup_of now id reporter no_show_type description w).1
handle client now (fail id reason) w = (fail_payment now id reason w).1
handle client now (approve driver id) w = (approve_booking now driver id w).1
handle client now (confirm get_trip_details id transaction) w =
    (confirm_payment get_trip_details now id transaction w).1

abbrev pub handle_all : Option PaymentClient → List (ℤ × HandlerCall) → World → World
handle_all client [] w = w
handle_all client ((now, r) ∷ rs) w = handle_all client rs (handle client now r (tick now w))

module _ (trip : String) (total last until : ℤ) (client : Option PaymentClient)
    (steady : IsSteady trip total last until client) where
  handle-InStep :
      (now : ℤ) (r : HandlerCall) (w : World)
      → InStep trip total last until w
      → InStep trip total last until (handle client now r w)
  handle-InStep now (reject driver id reason) w h =
      reject_booking-InStep trip total last until now driver id reason w h
  handle-InStep now (cancel user id reason) w h =
      cancel_booking-InStep trip total last until client now user id reason w steady h
  handle-InStep now (report pickup_of id reporter no_show_type description) w h =
      report_no_show-InStep trip total last until pickup_of now id reporter no_show_type description
        w h
  handle-InStep now (fail id reason) w h =
      fail_payment-InStep trip total last until now id reason w h
  handle-InStep now (approve driver id) w h =
      approve_booking-InStep trip total last until now driver id w h
  handle-InStep now (confirm get_trip_details id transaction) w h =
      confirm_payment-InStep trip total last until get_trip_details now id transaction w h

  -- a counter that lasts until a later time is there still
  tick-InStep :
      (now : ℤ) (w : World)
      → leb_ℤ now until ≡ true
      → InStep trip total last until w
      → InStep trip total last until (tick now w)
  unfolding at_time
  tick-InStep now w early h = cached w.cache h
    where
      in_time : (d : Option ℤ) → has_passed until d ≡ false → has_passed now d ≡ false
      in_time none p = refl
      in_time (some d) p = ground arith

      cached :
          (cache : Option Redis)
          → Agrees trip total last until w.db.tables.bookings cache
          → Agrees trip total last until w.db.tables.bookings
              (elim cache [ none ↦ none | some r ↦ some (at_time now r) ])
      cached none k = tt
      cached (some r) k = (
        (
          k.0.0,
          λ leg inside. rw (in_time (r.deadlines trip leg) (k.0.1 leg inside)) (k.0.1 leg inside),
        ),
        λ leg inside. rw (in_time (r.deadlines trip leg) (k.0.1 leg inside)) (k.1 leg inside),
      )

  -- Let no command of Redis fail, and let payment-service keep the counters of a trip in agreement with the
  -- bookings, with no earlier expiry, and change no booking where it does not answer that a payment is held. Then every run of
  -- RejectBooking, CancelBooking, ReportNoShow, FailPayment, ApproveBooking and ConfirmPayment, in any
  -- order and whichever calls of the database fail, that starts with the counters in agreement with the
  -- bookings ends with them in agreement, if all calls come before any counter of the legs of the trip
  -- expires.
  pub handle_all-InStep :
      (rs : List (ℤ × HandlerCall)) (w : World)
      → All (λ c. leb_ℤ c.0 until ≡ true) rs
      → InStep trip total last until w
      → InStep trip total last until (handle_all client rs w)
  handle_all-InStep [] w early h = h
  handle_all-InStep ((now, r) ∷ rs) w (first, rest) h =
      handle_all-InStep rs (handle client now r (tick now w)) rest
        (handle-InStep now r (tick now w) (tick-InStep now w first h))
