-- ===== src/Booking/Lifecycle/Lawful.antt =====
-- The decisions of the repository's methods are lawful changes.
use tissi_mah.Prelude.{ℤ, String, str_eq, eq_iff, Bool, true, false, ◌≡◌, arith, if◌then◌else◌}
use tissi_mah.Prelude.Result.{Result, ok}
use tissi_mah.Booking.Domain.{
  Booking, Error, payment_pending, payment_failed, pending_approval, approved,
}
use tissi_mah.Booking.Store.{Change}
use tissi_mah.Booking.Repository.Approval.{decide_approve, decide_reject, decide_cancel}
use tissi_mah.Booking.Repository.NoShow.{
  decide_report_no_show, decide_contest_no_show, decide_resolve_no_show_contest,
}
use tissi_mah.Booking.Repository.Payment.{decide_confirm_payment, decide_fail_payment}
use tissi_mah.Booking.Repository.Bulk.{
  starts_at, start_change, completes_at, complete_change, is_bulk_cancellable, bulk_cancel_change,
  cancelled_with_trip, cancelled_with_waypoint,
}
use tissi_mah.Booking.Lifecycle.{IsLawful, ◌⟶◌}

-- a decision that succeeds on a booking with this identifier is lawful
abbrev pub Decides : String → (Booking → Result Error Change) → Type 0
Decides id decide =
    (b : Booking) (c : Change) → str_eq b.booking_id id ≡ true → decide b ≡ ok c → IsLawful b c

pub approve-Decides : (now : ℤ) (id driver : String) → Decides id (decide_approve now id driver)
unfolding decide_approve
approve-Decides now id driver b c same e = ground (arith, eq_iff b.booking_id id, ◌⟶◌.approve)

pub reject-Decides :
    (now : ℤ) (id driver reason : String) → Decides id (decide_reject now id driver reason)
unfolding decide_reject
reject-Decides now id driver reason b c same e = ground (arith, eq_iff b.booking_id id, ◌⟶◌.reject)

pub cancel-Decides :
    (now : ℤ) (id canceller reason : String) → Decides id (decide_cancel now id canceller reason)
unfolding decide_cancel
cancel-Decides now id canceller reason b c same e = ground (
  arith,
  eq_iff b.booking_id id,
  ◌⟶◌.cancel_created,
  ◌⟶◌.cancel_payment_pending,
  ◌⟶◌.cancel_pending_approval,
  ◌⟶◌.cancel_approved,
)

pub report_no_show-Decides :
    (now : ℤ) (id reporter no_show_type description : String)
    → Decides id (decide_report_no_show now id reporter no_show_type description)
unfolding decide_report_no_show
report_no_show-Decides now id reporter no_show_type description b c same e =
    ground (arith, eq_iff b.booking_id id, ◌⟶◌.miss_departure, ◌⟶◌.miss_trip)

pub contest_no_show-Decides :
    (now : ℤ) (id contester reason : String) (window : ℤ)
    → Decides id (decide_contest_no_show now contester reason window)
unfolding decide_contest_no_show
contest_no_show-Decides now id contester reason window b c same e = ground arith

pub resolve_no_show_contest-Decides :
    (now : ℤ) (id support refund_reason note : String)
    → Decides id (decide_resolve_no_show_contest now support refund_reason note)
unfolding decide_resolve_no_show_contest
resolve_no_show_contest-Decides now id support refund_reason note b c same e = ground arith

pub confirm_payment-Decides :
    (now : ℤ) (id : String) (late auto : Bool)
    → Decides id (
        decide_confirm_payment now id
          (if late then payment_failed else payment_pending)
          (if auto then approved else pending_approval))
unfolding decide_confirm_payment
confirm_payment-Decides now id true true b c same e =
    ground (arith, eq_iff b.booking_id id, ◌⟶◌.pay_late_approved)
confirm_payment-Decides now id true false b c same e =
    ground (arith, eq_iff b.booking_id id, ◌⟶◌.pay_late)
confirm_payment-Decides now id false true b c same e =
    ground (arith, eq_iff b.booking_id id, ◌⟶◌.pay_approved)
confirm_payment-Decides now id false false b c same e =
    ground (arith, eq_iff b.booking_id id, ◌⟶◌.pay)

pub fail_payment-Decides :
    (now : ℤ) (id reason : String) → Decides id (decide_fail_payment id reason)
unfolding decide_fail_payment
fail_payment-Decides now id reason b c same e = ground (arith, eq_iff b.booking_id id, ◌⟶◌.fail)

pub start-IsLawful :
    (trip waypoint : String) (b : Booking)
    → starts_at trip waypoint b ≡ true
    → IsLawful b (start_change b)
unfolding starts_at start_change
start-IsLawful trip waypoint b h = ground (arith, ◌⟶◌.start)

pub complete-IsLawful :
    (now : ℤ) (trip waypoint : String) (b : Booking)
    → completes_at trip waypoint b ≡ true
    → IsLawful b (complete_change now b)
unfolding completes_at complete_change
complete-IsLawful now trip waypoint b h = ground (arith, ◌⟶◌.complete)

bulk_cancel-IsLawful :
    (now : ℤ) (reason refund : String) (b : Booking)
    → is_bulk_cancellable b.status ≡ true
    → IsLawful b (bulk_cancel_change now reason refund b)
unfolding bulk_cancel_change
bulk_cancel-IsLawful now reason refund b h =
    ground (arith, ◌⟶◌.cancel_payment_pending, ◌⟶◌.cancel_pending_approval, ◌⟶◌.cancel_approved)

pub cancelled_with_trip-IsLawful :
    (now : ℤ) (reason refund trip : String) (b : Booking)
    → cancelled_with_trip trip b ≡ true
    → IsLawful b (bulk_cancel_change now reason refund b)
unfolding cancelled_with_trip
cancelled_with_trip-IsLawful now reason refund trip b h =
    bulk_cancel-IsLawful now reason refund b (ground arith)

pub cancelled_with_waypoint-IsLawful :
    (now : ℤ) (reason refund trip waypoint : String) (b : Booking)
    → cancelled_with_waypoint trip waypoint b ≡ true
    → IsLawful b (bulk_cancel_change now reason refund b)
unfolding cancelled_with_waypoint
cancelled_with_waypoint-IsLawful now reason refund trip waypoint b h =
    bulk_cancel-IsLawful now reason refund b (ground arith)
