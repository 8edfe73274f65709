-- ===== src/Booking/Repository/Guards.antt =====
-- services/booking-service/internal/repository/implementations/booking_write_repository.go:
-- the helpers that several methods share.
use tissi_mah.Prelude.{
  String, Bool, true, false, not, ◌&&◌, Option, none, some, is_some, if◌then◌else◌,
}
use tissi_mah.Booking.Domain.{
  BookingStatus, PaymentMethod, Booking, StatusHistoryEntry, created, payment_pending,
  payment_failed, pending_approval, approved, rejected, cancelled, in_progress, completed, no_show,
  expired,
}

abbrev pub same_status : BookingStatus → BookingStatus → Bool
same_status created created = true
same_status payment_pending payment_pending = true
same_status payment_failed payment_failed = true
same_status pending_approval pending_approval = true
same_status approved approved = true
same_status rejected rejected = true
same_status cancelled cancelled = true
same_status in_progress in_progress = true
same_status completed completed = true
same_status no_show no_show = true
same_status expired expired = true
same_status _ _ = false

abbrev pub is_cash : PaymentMethod → Bool
is_cash PaymentMethod.cash = true
is_cash _ = false

-- refundReasonIfPaid
abbrev pub refund_reason_if_paid : String → Booking → Option String
refund_reason_if_paid reason b =
    if not (is_cash b.payment_method) && is_some b.payment_completed_at then some reason else none

-- an entry of the history with no reason
abbrev pub entry : String → Booking → BookingStatus → String → String → Option StatusHistoryEntry
entry id b new_status changed_by changed_by_type = some (record {
  booking_id = id;
  previous_status = b.status;
  new_status = new_status;
  changed_by = changed_by;
  changed_by_type = changed_by_type;
  change_reason = none;
})

-- an entry that the system writes, with a reason
abbrev pub system_entry : String → Booking → BookingStatus → String → Option StatusHistoryEntry
system_entry id b new_status reason = some (record {
  booking_id = id;
  previous_status = b.status;
  new_status = new_status;
  changed_by = "system";
  changed_by_type = "system";
  change_reason = some reason;
})
