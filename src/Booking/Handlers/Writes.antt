-- ===== src/Booking/Handlers/Writes.antt =====
-- What ApproveBooking and ConfirmPayment of services/booking-service/internal/service write to a booking.
use tissi_mah.Prelude.{
  ℤ, String, true, not, Option, none, some, is_some, ◌≡◌, refl, sym, ap, ◌∙◌, if_rule, arith,
}
use tissi_mah.Prelude.Result.{Result, ok, err}
use tissi_mah.Booking.Domain.{Booking, BookingStatus, Error, approved}
use tissi_mah.Booking.Store.{Tables, Db, Change, find_row, touch, update_row}
use tissi_mah.Booking.Store.Transaction.{Outcome, effect, change_booking-Outcome}
use tissi_mah.Booking.Seats.{is_active}
use tissi_mah.Booking.Seats.Balance.{share}
use tissi_mah.Booking.Request.{TripDetails}
use tissi_mah.Booking.Creation.{World}
use tissi_mah.Booking.Repository.Guards.{same_status}
use tissi_mah.Booking.Repository.Approval.{decide_approve}
use tissi_mah.Booking.Repository.Payment.{decide_confirm_payment, confirmed}
use tissi_mah.Booking.Repository.Payment
use tissi_mah.Booking.Handlers.{status_after_payment}
use tissi_mah.Booking.Handlers.Balance.{made}

-- the decisions of ApproveBooking and ConfirmPayment
pub approve_keeps :
    (now : ℤ) (id driver : String) (b : Booking) (c : Change)
    → decide_approve now id driver b ≡ ok c
    → (trip : String) (k : ℤ) → share trip k (touch now c.set b) ≡ share trip k b
unfolding decide_approve
approve_keeps now id driver b c e trip k = ground arith

pub status_after_active :
    (details : Option TripDetails) → is_active (status_after_payment details) ≡ true
status_after_active none = refl
status_after_active (some details) =
    if_rule (λ (s : BookingStatus). is_active s ≡ true) details.auto_approve_enabled refl refl

-- What the UPDATE of ConfirmPayment keeps of a booking.
pub record SameSeats (x y : Booking) : Type 0 where
  pub trip : x.trip_id ≡ y.trip_id
  pub from_stop : x.pickup_sequencer_order ≡ y.pickup_sequencer_order
  pub to_stop : x.dropoff_sequencer_order ≡ y.dropoff_sequencer_order
  pub seats : x.seats_booked ≡ y.seats_booked

pub confirmed-SameSeats :
    (now : ℤ) (s : BookingStatus) (b : Booking) → SameSeats (confirmed now s b) b
confirmed-SameSeats now s b =
    if_rule (λ (x : Booking). SameSeats x b) (same_status s approved)
      (record { trip = refl; from_stop = refl; to_stop = refl; seats = refl })
      (record { trip = refl; from_stop = refl; to_stop = refl; seats = refl })

pub confirmed_status : (now : ℤ) (s : BookingStatus) (b : Booking) → (confirmed now s b).status ≡ s
confirmed_status now s b =
    if_rule (λ (x : Booking). x.status ≡ s) (same_status s approved) refl refl

confirm_sets :
    (now : ℤ) (id : String) (expected status : BookingStatus) (b : Booking) (c : Change)
    → decide_confirm_payment now id expected status b ≡ ok c
    → c.set ≡ confirmed now status
unfolding decide_confirm_payment
confirm_sets now id expected status b c =
    if_rule Sets (not (same_status b.status expected))
      (if_rule Sets (is_some b.payment_completed_at) (λ f. cc) (λ f. cc)) (λ f. ap set_of (sym f))
  where
    Sets : Result Error Change → Type 0
    Sets r = r ≡ ok c → c.set ≡ confirmed now status

    set_of : Result Error Change → Booking → Booking
    set_of (ok x) = x.set
    set_of (err x) = λ y. y

module _ (now : ℤ) (id : String) (b : Booking) (status : BookingStatus) where
  abbrev pub Written : World → Result Error (Unit {0}) × Db → Type 0
  Written w reply =
      Outcome w.db.tables
        (λ _ t. effect now id (decide_confirm_payment now id b.status status) w.db.tables ≡ ok t)
        reply

  -- the row after the payment, where it is written
  pub written_rows :
      (w : World) (db : Db)
      → find_row id w.db.tables.bookings ≡ some b
      → effect now id (decide_confirm_payment now id b.status status) w.db.tables ≡ ok db.tables
      → db.tables.bookings ≡ update_row id (touch now (confirmed now status)) w.db.tables.bookings
  written_rows w db here done =
      let m =
        made now id w.db.tables db.tables (decide_confirm_payment now id b.status status b)
          (rw here at done) in
      ap (λ (t : Tables). t.bookings) m.2
      ∙ ap (λ (f : Booking → Booking). update_row id (touch now f) w.db.tables.bookings)
          (confirm_sets now id b.status status b m.0 m.1)

  pub confirm_payment_writes :
      (w : World) → Written w (Payment.confirm_payment now id b.status status w.db)
  unfolding Payment.confirm_payment
  confirm_payment_writes w =
      change_booking-Outcome now id (decide_confirm_payment now id b.status status) w.db
