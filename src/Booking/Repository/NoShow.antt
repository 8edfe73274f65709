-- ===== src/Booking/Repository/NoShow.antt =====
-- services/booking-service/internal/repository/implementations/booking_write_repository.go:
-- ReportNoShow, ContestNoShow and ResolveNoShowContest.
use tissi_mah.Prelude.{
  ℤ, ◌-ℤ◌, leb_ℤ, String, str_eq, Bool, false, not, ◌&&◌, ◌||◌, Option, none, some, is_some,
  if◌then◌else◌,
}
use tissi_mah.Prelude.Result.{Result, ok, err}
use tissi_mah.Booking.Domain.{Booking, Error, approved, in_progress, no_show}
use tissi_mah.Booking.Domain.RefundReason
use tissi_mah.Booking.Store.{Action, Change, change_booking}
use tissi_mah.Booking.Repository.Guards.{same_status, refund_reason_if_paid, entry}

unfoldable pub decide_report_no_show :
    ℤ → String → String → String → String → Booking → Result Error Change
decide_report_no_show now id reporter no_show_type description b =
    if not (same_status b.status approved) && not (same_status b.status in_progress)
    then err Error.invalid_status_transition
    else if str_eq no_show_type "driver" && same_status b.status in_progress
    then err Error.invalid_status_transition
    else ok (record {
      set = λ r. record r {
        status = no_show;
        no_show_type = some no_show_type;
        no_show_reported_by = some reporter;
        no_show_reported_at = some now;
        no_show_description = some description;
        refund_reason =
            refund_reason_if_paid
              (if str_eq no_show_type "driver"
                then RefundReason.no_show_driver
                else RefundReason.no_show_passenger)
              r;
      };
      log = entry id b no_show reporter no_show_type;
    })

-- ReportNoShow
unfoldable pub report_no_show : ℤ → String → String → String → String → Action (Unit {0})
report_no_show now id reporter no_show_type description =
    change_booking now id (decide_report_no_show now id reporter no_show_type description)

-- `COALESCE(no_show_reported_at >= NOW() - window, false)`
abbrev pub within_window : Option ℤ → ℤ → ℤ → Bool
within_window none now window = false
within_window (some reported) now window = leb_ℤ (now -ℤ window) reported

unfoldable pub decide_contest_no_show : ℤ → String → String → ℤ → Booking → Result Error Change
decide_contest_no_show now contester reason window b =
    if not (same_status b.status no_show)
    then err Error.invalid_status_transition
    else if is_some b.no_show_contested_at
    then err Error.no_show_already_contested
    else if not (within_window b.no_show_reported_at now window) || is_some b.refund_requested_at
    then err Error.no_show_contest_closed
    else ok (record {
      set = λ r. record r {
        no_show_contested_at = some now;
        no_show_contested_by = some contester;
        no_show_contest_reason = some reason;
      };
      log = none;
    })

unfoldable pub contest_no_show : ℤ → String → String → String → ℤ → Action (Unit {0})
contest_no_show now id contester reason window =
    change_booking now id (decide_contest_no_show now contester reason window)

unfoldable pub decide_resolve_no_show_contest :
    ℤ → String → String → String → Booking → Result Error Change
decide_resolve_no_show_contest now support refund_reason note b =
    if not (same_status b.status no_show) || not (is_some b.no_show_contested_at)
    then err Error.no_show_not_contested
    else if is_some b.no_show_resolved_at
    then err Error.no_show_already_resolved
    else ok (record {
      set = λ r. record r {
        no_show_resolved_at = some now;
        no_show_resolved_by = some support;
        no_show_resolution = some refund_reason;
        no_show_resolution_note = some note;
        refund_reason = refund_reason_if_paid refund_reason r;
      };
      log = none;
    })

unfoldable pub resolve_no_show_contest : ℤ → String → String → String → String → Action (Unit {0})
resolve_no_show_contest now id support refund_reason note =
    change_booking now id (decide_resolve_no_show_contest now support refund_reason note)
