-- ===== src/Booking/Handlers/Reports.antt =====
-- What an answer or an error of ReportNoShow says of the tables
-- (services/booking-service/internal/service/booking_service_impl.go).
use tissi_mah.Prelude.{
  ℤ, ◌+ℤ◌, ltb_ℤ, String, str_eq, true, false, not, ◌&&◌, ◌||◌, Option, none, some, ◌≡◌, refl, sym,
  ap, ◌∙◌, if_rule, if_cases,
}
use tissi_mah.Prelude.Result.{Result, ok, err}
use tissi_mah.Booking.Domain.{Booking, Error}
use tissi_mah.Booking.Store.{Tables, Db, find_row}
use tissi_mah.Booking.Store.Transaction.{Outcome, effect, change_booking-Outcome}
use tissi_mah.Booking.Creation.{World}
use tissi_mah.Booking.Repository.NoShow
use tissi_mah.Booking.Repository.NoShow.{decide_report_no_show}
use tissi_mah.Booking.Handlers.{
  Reply, release_after, change_and_release, can_report_no_show, no_show_report_delay,
  no_show_report_window, check_no_show_reportable, if_reportable, reported, report_no_show,
}
use tissi_mah.Booking.Handlers.Outcome.{read_rule}

-- a report in the window after the pickup
abbrev InTime : ℤ → Option ℤ → Type 0
InTime now o =
    (pickup : ℤ) × (o ≡ some pickup)
    × (ltb_ℤ now (pickup +ℤ no_show_report_delay) ≡ false)
    × (ltb_ℤ (pickup +ℤ no_show_report_window) now ≡ false)

check-InTime : (now : ℤ) (o : Option ℤ) → check_no_show_reportable now o ≡ ok tt → InTime now o
unfolding check_no_show_reportable
check-InTime now none e = cc
check-InTime now (some pickup) e =
    if_cases Passes (ltb_ℤ now (pickup +ℤ no_show_report_delay)) (λ _ f. cc)
      (λ begun.
        if_cases Passes (ltb_ℤ (pickup +ℤ no_show_report_window) now) (λ _ f. cc)
          (λ open_still f. (pickup, refl, begun, open_still)))
      e
  where
    Passes : Result Error (Unit {0}) → Type 0
    Passes r = r ≡ ok tt → InTime now (some pickup)

-- An error leaves the tables as they were; an answer is of a booking that the reporter takes part in,
-- as the other party, within the window after its pickup, and the tables are as the report makes them.
abbrev pub Reported :
    (Booking → Option ℤ)
    → ℤ
    → String
    → String
    → String
    → String
    → Tables
    → Reply (Unit {0})
    → Type 0
Reported pickup_of now id reporter no_show_type description t (err e, w) = w.db.tables ≡ t
Reported pickup_of now id reporter no_show_type description t (ok _, w) =
    (b : Booking) × (find_row id t.bookings ≡ some b)
    × (can_report_no_show b reporter no_show_type ≡ true)
    × InTime now (pickup_of b)
    × (effect now id (decide_report_no_show now id reporter no_show_type description) t
        ≡ ok w.db.tables)

module _ (pickup_of : Booking → Option ℤ) (now : ℤ)
    (id reporter no_show_type description : String) where
  written :
      (b : Booking) (t : Tables) (w : World) (reply : Result Error (Unit {0}) × Db)
      → find_row id t.bookings ≡ some b
      → can_report_no_show b reporter no_show_type ≡ true
      → InTime now (pickup_of b)
      → w.db.tables ≡ t
      → Outcome w.db.tables
          (λ _ u.
            effect now id
              (decide_report_no_show now id reporter no_show_type description)
              w.db.tables
            ≡ ok u)
          reply
      → Reported pickup_of now id reporter no_show_type description t (release_after b w reply)
  written b t w (err e, db) here other timely same done = done ∙ same
  written b t w (ok _, db) here other timely same done = (
    b,
    here,
    other,
    timely,
    ap (effect now id (decide_report_no_show now id reporter no_show_type description)) (sym same)
        ∙ done,
  )

  checked :
      (b : Booking) (t : Tables) (w : World) (next : Reply (Unit {0}))
      (check : Result Error (Unit {0}))
      → w.db.tables ≡ t
      → (check ≡ ok tt → Reported pickup_of now id reporter no_show_type description t next)
      → Reported pickup_of now id reporter no_show_type description t (if_reportable w next check)
  checked b t w next (err e) same k = same
  checked b t w next (ok _) same k = k refl

  -- ReportNoShow: an error leaves the tables as they were; after an answer the booking was there, its
  -- driver has reported the passenger or its passenger the driver, no less than 15 minutes and no more than
  -- three hours after the pickup, whose time trips-service knows, and the tables are exactly as the
  -- decision on this booking says.
  pub report_no_show-Reported :
      (w : World)
      → Reported pickup_of now id reporter no_show_type description w.db.tables
          (report_no_show pickup_of now id reporter no_show_type description w)
  unfolding report_no_show NoShow.report_no_show
  report_no_show-Reported w =
      if_rule R (str_eq id "" || str_eq reporter "" || str_eq no_show_type "") refl (
        if_rule R (not (str_eq no_show_type "driver") && not (str_eq no_show_type "passenger")) refl
          (read_rule R w (reported pickup_of now id reporter no_show_type description) id
            (λ e w' same. same)
            (λ b w' here same.
              if_cases R (can_report_no_show b reporter no_show_type)
                (λ other.
                  checked b w.db.tables w'
                    (change_and_release
                      (NoShow.report_no_show now id reporter no_show_type description) b w')
                    (check_no_show_reportable now (pickup_of b)) same
                    (λ passed.
                      written b w.db.tables w'
                        (NoShow.report_no_show now id reporter no_show_type description w'.db) here
                        other (check-InTime now (pickup_of b) passed) same
                        (change_booking-Outcome now id
                          (decide_report_no_show now id reporter no_show_type description) w'.db)))
                (λ _. same))))
    where
      R : Reply (Unit {0}) → Type 0
      R = Reported pickup_of now id reporter no_show_type description w.db.tables
