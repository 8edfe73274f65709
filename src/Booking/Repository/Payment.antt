-- ===== src/Booking/Repository/Payment.antt =====
-- services/booking-service/internal/repository/implementations/booking_write_repository.go:
-- ConfirmPayment, FailPayment and the marks of released payments and refund demands.
use tissi_mah.Prelude.{
  ℤ, pos, ◌+ℤ◌, String, Bool, true, not, Option, none, some, is_some, if◌then◌else◌,
}
use tissi_mah.Prelude.Result.{Result, ok, err}
use tissi_mah.Booking.Domain.{
  BookingStatus, Booking, Error, payment_pending, payment_failed, approved,
}
use tissi_mah.Booking.Store.{Db, Action, Change, change_booking, next_call, find_row, write_row}
use tissi_mah.Booking.Repository.Guards.{same_status, system_entry}

-- the two UPDATE statements of ConfirmPayment
abbrev pub confirmed : ℤ → BookingStatus → Booking → Booking
confirmed now new_status r =
    let paid : Booking = record r {
      status = new_status;
      payment_completed_at = some now;
      cancellation_reason = none;
    } in
    if same_status new_status approved then record paid { approved_at = some now } else paid

unfoldable pub decide_confirm_payment :
    ℤ → String → BookingStatus → BookingStatus → Booking → Result Error Change
decide_confirm_payment now id expected new_status b =
    if not (same_status b.status expected)
    then (if is_some b.payment_completed_at
        then err Error.payment_already_confirmed
        else err Error.invalid_status_transition)
    else ok (record {
      set = confirmed now new_status;
      log = system_entry id b new_status (
          if same_status expected payment_failed
          then "Paiement confirmé tardivement — places re-réservées"
          else "Paiement confirmé");
    })

unfoldable pub confirm_payment : ℤ → String → BookingStatus → BookingStatus → Action (Unit {0})
confirm_payment now id expected new_status =
    change_booking now id (decide_confirm_payment now id expected new_status)

unfoldable pub decide_fail_payment : String → String → Booking → Result Error Change
decide_fail_payment id reason b =
    if not (same_status b.status payment_pending)
    then (if same_status b.status payment_failed
        then err Error.payment_already_failed
        else err Error.invalid_status_transition)
    else ok (record {
      set = λ r. record r { status = payment_failed; cancellation_reason = some reason };
      log = system_entry id b payment_failed reason;
    })

unfoldable pub fail_payment : ℤ → String → String → Action (Unit {0})
fail_payment now id reason = change_booking now id (decide_fail_payment id reason)

-- `UPDATE bookings SET … WHERE booking_id = $1 AND guard` with no transaction of its own: what `seen`
-- says of the number of rows that were updated, none or one.
unfoldable pub update_where :
    {A : Type 0}
    → ℤ
    → String
    → (Booking → Bool)
    → (Booking → Booking)
    → (Option Booking → Result Error A)
    → Action A
update_where now id guard set seen db =
    let (fails, rest) = next_call db.faults in
    let db' : Db = record db { faults = rest } in
    if fails then (err Error.internal_server, db') else elim (find_row id db.tables.bookings) [
      | none ↦ (seen none, db')
      | some b ↦
          if guard b
          then (seen (some (set b)), record db' { tables = write_row now id set db.tables })
          else (seen none, db')
    ]

unfoldable pub row_required : {A : Type 0} → (Booking → A) → Option Booking → Result Error A
row_required value none = err Error.booking_not_found
row_required value (some b) = ok (value b)

-- MarkPaymentReleased
unfoldable pub mark_payment_released : ℤ → String → Action (Unit {0})
mark_payment_released now id =
    update_where now id (λ _. true) (λ r. record r { payment_released_at = some now })
      (row_required (λ _. tt))

-- MarkRefundRequested: a demand that is marked already is left as it is, with no error.
unfoldable pub mark_refund_requested : ℤ → String → Action (Unit {0})
mark_refund_requested now id =
    update_where now id (λ r. not (is_some r.refund_requested_at))
      (λ r. record r { refund_requested_at = some now }) (λ _. ok tt)

-- IncrementRefundRequestAttempts: the number of attempts, this one included.
unfoldable pub increment_refund_request_attempts : ℤ → String → Action ℤ
increment_refund_request_attempts now id =
    update_where now id (λ _. true)
      (λ r. record r { refund_request_attempts = r.refund_request_attempts +ℤ pos 1 })
      (row_required (λ b. b.refund_request_attempts))
