-- ===== src/Booking/Lifecycle/Creation.antt =====
-- A new booking keeps the tables valid.
use tissi_mah.Prelude.{
  ℤ, String, str_eq, eq_iff, true, false, none, some, List, [], ◌∷◌, ◌++◌, ◌≡◌, refl, sym, ◌∙◌,
  arith, inl, inr, Bool-cases, Option-cases, All,
}
use mathlib.Core.Path.{subst}
use mathlib.Core.List.{append_assoc}
use text.Mathlib.TextPositions.{eq_refl}
use tissi_mah.Booking.Domain.{Booking, Segment, StatusHistoryEntry, created}
use tissi_mah.Booking.Store.{Tables, find_row}
use tissi_mah.Booking.Store.Rows.{absent, All_others}
use tissi_mah.Booking.Repository.Creation.{accepts, inserted}
use tissi_mah.Booking.Repository.Creation.Outcome.{with_booking}
use tissi_mah.Booking.Request.{CreateBookingInput, TripDetails, new_booking, creation_entry}
use tissi_mah.Booking.Lifecycle.{IsValid, Chained, last_status, status_after, is_unserved, ◌⟶◌}
use tissi_mah.Booking.Lifecycle.History.{last_status-append_one, Chained-append_one}

-- an entry that begins the booking, at one of the three first statuses
pub record Begins (b : Booking) (e : StatusHistoryEntry) : Type 0 where
  pub same_booking : e.booking_id ≡ b.booking_id
  pub from_created : e.previous_status ≡ created
  pub to_status : e.new_status ≡ b.status
  pub step : created ⟶ b.status
  pub awaits : is_unserved b.status ≡ false

module _ (base : List StatusHistoryEntry) (now : ℤ) (b : Booking) (segments : List Segment)
    (e : StatusHistoryEntry) (t : Tables) (begins : Begins b e) (valid : IsValid base t)
    (accepted : accepts t b ≡ true) where
  fresh : find_row b.booking_id t.bookings ≡ none
  fresh = elim (Option-cases (find_row b.booking_id t.bookings)) [
    | inl missing ↦ missing
    | inr (r, found) ↦ let p : false ≡ true = rw found at accepted in cc
  ]

  others : All (λ r. str_eq r.booking_id b.booking_id ≡ false) t.bookings
  others = absent b.booking_id t.bookings fresh

  -- the entry is the last of the new booking, and of no other
  last_status_new : last_status b.booking_id (t.history ++ e ∷ []) ≡ some b.status
  last_status_new =
      rw
        (
          last_status-append_one b.booking_id t.history e,
          begins.same_booking,
          eq_refl b.booking_id,
          begins.to_status,
        )
        refl

  last_status_other :
      (j : String)
      → str_eq b.booking_id j ≡ false
      → last_status j (t.history ++ e ∷ []) ≡ last_status j t.history
  last_status_other j ne = rw (last_status-append_one j t.history e, begins.same_booking, ne) refl

  logged_after :
      All (λ r. last_status r.booking_id (t.history ++ e ∷ []) ≡ some r.status) t.bookings
  logged_after =
      All_others (λ r. last_status r.booking_id t.history ≡ some r.status)
        (λ r. last_status r.booking_id (t.history ++ e ∷ []) ≡ some r.status) b.booking_id
        t.bookings valid.logged others
        (λ r ne p.
          last_status_other r.booking_id ground
            (arith, eq_iff r.booking_id b.booking_id, eq_iff b.booking_id r.booking_id)
          ∙ p)

  unlogged_after :
      (j : String)
      → find_row j (inserted now b ∷ t.bookings) ≡ none
      → last_status j (t.history ++ e ∷ []) ≡ none
  unlogged_after j n = elim (Bool-cases (str_eq b.booking_id j)) [
    | inl same ↦ let p : some (inserted now b) ≡ none = rw same at n in cc
    | inr other ↦ last_status_other j other ∙ valid.unlogged j (rw other at n)
  ]

  began : status_after e.booking_id t.history ≡ e.previous_status
  began =
      subst (λ (j : String). status_after j t.history ≡ e.previous_status) (sym begins.same_booking)
        (rw (valid.unlogged b.booking_id fresh, begins.from_created, status_after) refl)

  Chained-after :
      (es : List StatusHistoryEntry) × (t.history ++ e ∷ [] ≡ base ++ es) × Chained base es
  Chained-after =
      let (es, h, c) = valid.chained in
      (
        es ++ e ∷ [],
        rw (h, append_assoc) refl,
        Chained-append_one base es e c (rw (← h) began)
            (rw (begins.from_created, begins.to_status) begins.step),
      )

  pub with_booking-IsValid : IsValid base (with_booking now b segments e t)
  with_booking-IsValid = record {
    unique = (fresh, valid.unique);
    logged = (last_status_new, logged_after);
    unlogged = unlogged_after;
    consistent = ((rw begins.awaits refl, refl), valid.consistent);
    chained = Chained-after;
  }

-- what CreateBooking makes begins a booking
pub new_booking-Begins :
    (now fee : ℤ) (id reference : String) (input : CreateBookingInput) (trip : TripDetails)
    (orders : ℤ × ℤ) (price : ℤ)
    → Begins
        (new_booking now fee id reference input trip orders price)
        (creation_entry id input trip)
unfolding new_booking creation_entry
new_booking-Begins now fee id reference input trip orders price =
    ground (arith, ◌⟶◌.book_online, ◌⟶◌.book_cash, ◌⟶◌.book_approved)
