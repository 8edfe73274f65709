-- ===== src/Booking/Repository/Approval.antt =====
-- services/booking-service/internal/repository/implementations/booking_write_repository.go:
-- Approve, Reject and Cancel. `now` is `NOW()`, the time of the transaction.
use tissi_mah.Prelude.{ℤ, String, str_eq, Bool, true, false, not, ◌&&◌, some, if◌then◌else◌}
use tissi_mah.Prelude.Result.{Result, ok, err}
use tissi_mah.Booking.Domain.{
  BookingStatus, Booking, Error, created, payment_pending, pending_approval, approved, rejected,
  cancelled,
}
use tissi_mah.Booking.Domain.RefundReason
use tissi_mah.Booking.Store.{Action, Change, change_booking}
use tissi_mah.Booking.Repository.Guards.{same_status, refund_reason_if_paid, entry}

unfoldable pub decide_approve : ℤ → String → String → Booking → Result Error Change
decide_approve now id driver b =
    if not (str_eq b.driver_id driver)
    then err Error.unauthorized
    else if not (same_status b.status pending_approval)
    then err Error.booking_not_pending
    else ok (record {
      set = λ r. record r { status = approved; approved_at = some now };
      log = entry id b approved driver "driver";
    })

unfoldable pub approve : ℤ → String → String → Action (Unit {0})
approve now id driver = change_booking now id (decide_approve now id driver)

unfoldable pub decide_reject : ℤ → String → String → String → Booking → Result Error Change
decide_reject now id driver reason b =
    if not (str_eq b.driver_id driver)
    then err Error.unauthorized
    else if not (same_status b.status pending_approval)
    then err Error.booking_not_pending
    else ok (record {
      set = λ r. record r {
        status = rejected;
        rejected_at = some now;
        cancellation_reason = some reason;
        refund_reason = refund_reason_if_paid RefundReason.booking_rejected r;
      };
      log = entry id b rejected driver "driver";
    })

unfoldable pub reject : ℤ → String → String → String → Action (Unit {0})
reject now id driver reason = change_booking now id (decide_reject now id driver reason)

-- `cancellableStatuses`
abbrev pub is_cancellable : BookingStatus → Bool
is_cancellable created = true
is_cancellable payment_pending = true
is_cancellable pending_approval = true
is_cancellable approved = true
is_cancellable _ = false

unfoldable pub decide_cancel : ℤ → String → String → String → Booking → Result Error Change
decide_cancel now id canceller reason b =
    if not (str_eq canceller b.passenger_id) && not (str_eq canceller b.driver_id)
    then err Error.unauthorized
    else if not (is_cancellable b.status)
    then err Error.booking_already_cancelled
    else ok (record {
      set = λ r. record r {
        status = cancelled;
        cancelled_at = some now;
        canceller_id = some canceller;
        cancellation_reason = some reason;
        refund_reason =
            refund_reason_if_paid
              (if str_eq canceller b.driver_id
                then RefundReason.cancelled_by_driver
                else RefundReason.cancelled_by_passenger)
              r;
      };
      log =
          entry id b cancelled canceller
            (if str_eq canceller b.driver_id then "driver" else "passenger");
    })

unfoldable pub cancel : ℤ → String → String → String → Action (Unit {0})
cancel now id canceller reason = change_booking now id (decide_cancel now id canceller reason)
