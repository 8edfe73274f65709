-- ===== src/Booking/Repository/RefundDemands/Contests.antt =====
-- A refund is demanded for a no-show only when it can be contested no more.
use tissi_mah.Prelude.{ℤ, ◌≤ℤ◌, -ℤ_parts, arith, String, Bool, true, false, some, List, ◌≡◌}
use tissi_mah.Prelude.Result.{Result, ok, err}
use tissi_mah.Booking.Domain.{Booking, StatusHistoryEntry}
use tissi_mah.Booking.Store.{Tables, Change, find_row}
use tissi_mah.Booking.Store.Rows.{All-find_row}
use tissi_mah.Booking.Repository.NoShow.{decide_contest_no_show}
use tissi_mah.Booking.Repository.RefundDemands.{is_refund_due}
use tissi_mah.Booking.Lifecycle.{IsValid, ResolvedContested, Consistent}

abbrev pub failed {ℓ κ} : {E : Type ℓ} {A : Type κ} → Result E A → Bool
failed (ok _) = false
failed (err _) = true

due-contest :
    (now now' before attempts window : ℤ) (contester reason : String) (b : Booking)
    → ResolvedContested b
    → is_refund_due now before attempts window b ≡ true
    → now ≤ℤ now'
    → failed (decide_contest_no_show now' contester reason window b) ≡ true
unfolding is_refund_due decide_contest_no_show
due-contest now now' before attempts window contester reason b r due later =
    ground (arith, -ℤ_parts now window, -ℤ_parts now' window)

contest-due :
    (now now' before attempts window window' : ℤ) (contester reason : String) (b : Booking)
    (c : Change)
    → ResolvedContested b
    → decide_contest_no_show now contester reason window b ≡ ok c
    → is_refund_due now' before attempts window' (c.set b) ≡ false
unfolding is_refund_due decide_contest_no_show
contest-due now now' before attempts window window' contester reason b c r done = ground arith

-- In valid tables, a booking whose refund is due for demand at some time can from then on be
-- contested no more: ContestNoShow with the same window refuses every contest.
pub due_uncontestable :
    (base : List StatusHistoryEntry) (t : Tables) (id : String) (b : Booking)
    (now now' before attempts window : ℤ) (contester reason : String)
    → IsValid base t
    → find_row id t.bookings ≡ some b
    → is_refund_due now before attempts window b ≡ true
    → now ≤ℤ now'
    → failed (decide_contest_no_show now' contester reason window b) ≡ true
due_uncontestable base t id b now now' before attempts window contester reason v e =
    due-contest now now' before attempts window contester reason b
      (All-find_row Consistent id t.bookings v.consistent e).1

-- In valid tables, the row that a successful ContestNoShow writes is not due for a refund demand, at no
-- time and for no window.
pub contested_not_due :
    (base : List StatusHistoryEntry) (t : Tables) (id : String) (b : Booking) (c : Change)
    (now now' before attempts window window' : ℤ) (contester reason : String)
    → IsValid base t
    → find_row id t.bookings ≡ some b
    → decide_contest_no_show now contester reason window b ≡ ok c
    → is_refund_due now' before attempts window' (c.set b) ≡ false
contested_not_due base t id b c now now' before attempts window window' contester reason v e =
    contest-due now now' before attempts window window' contester reason b c
      (All-find_row Consistent id t.bookings v.consistent e).1
