-- ===== src/Booking/Repository/Bulk/Cancellation.antt =====
-- What the bulk cancellations of
-- services/booking-service/internal/repository/implementations/booking_write_repository.go do to each
-- booking.
use tissi_mah.Prelude.{
  ℤ, String, str_eq, eq_iff, true, false, ◌||◌, Option, none, some, is_some, ◌≡◌, ◌≢◌, refl, ◌⊎◌,
  inl, inr, Bool-cases, and_left, and_right, and_all, Bool-clash, arith, if◌then◌else◌,
}
use tissi_mah.Booking.Domain.{
  BookingStatus, PaymentMethod, Booking, StatusHistoryEntry, payment_pending, pending_approval,
  approved, cancelled,
}
use tissi_mah.Booking.Domain.RefundReason
use tissi_mah.Booking.Store.{Db, touch}
use tissi_mah.Booking.Store.Transaction.{Outcome}
use tissi_mah.Booking.Store.Rows.{UniqueIds, KeepsId}
use tissi_mah.Booking.Repository.Guards.{is_cash, refund_reason_if_paid}
use tissi_mah.Booking.Repository.Bulk.{
  is_bulk_cancellable, bulk_cancel_change, cancelled_with_trip, cancel_bookings_for_trip,
  cancelled_with_waypoint, cancel_bookings_for_waypoint,
}
use tissi_mah.Booking.Repository.Bulk.Sweep.{Swept, change_bookings-Swept}

-- a booking that has still to start and is not cancelled
pub data IsToStart : BookingStatus → Type 0 where
  waits_for_payment : IsToStart payment_pending
  waits_for_driver : IsToStart pending_approval
  agreed : IsToStart approved

-- the reason of the refund that is owed for a booking, or none
pub data Owes (reason : String) (b : Booking) : Option String → Type 0 where
  paid_online :
      {t : ℤ}
      → b.payment_method ≢ PaymentMethod.cash
      → b.payment_completed_at ≡ some t
      → Owes reason b (some reason)
  in_cash : b.payment_method ≡ PaymentMethod.cash → Owes reason b none
  not_paid : b.payment_completed_at ≡ none → Owes reason b none

-- The booking is cancelled by the system now, with the refund that is owed, and nothing else changes.
abbrev pub IsCancelledAs : ℤ → String → String → Booking → Booking → Type 0
IsCancelledAs now reason refund b b' =
    (owed : Option String) × Owes refund b owed
    × (b' ≡ record b {
      status = cancelled;
      cancelled_at = some now;
      canceller_id = some "system";
      cancellation_reason = some reason;
      refund_reason = owed;
      updated_at = now;
    })

-- The entry says that the system has cancelled the booking, from the status that it had.
abbrev pub LogsCancellation : String → Booking → StatusHistoryEntry → Type 0
LogsCancellation reason b e = e ≡ record {
  booking_id = b.booking_id;
  previous_status = b.status;
  new_status = cancelled;
  changed_by = "system";
  changed_by_type = "system";
  change_reason = some reason;
}

to_start : (s : BookingStatus) → is_bulk_cancellable s ≡ true → IsToStart s
to_start payment_pending e = waits_for_payment
to_start pending_approval e = waits_for_driver
to_start approved e = agreed
to_start _ e = cc

of_start : (s : BookingStatus) → IsToStart s → is_bulk_cancellable s ≡ true
of_start _ waits_for_payment = refl
of_start _ waits_for_driver = refl
of_start _ agreed = refl

cash_known :
    (m : PaymentMethod)
    → (is_cash m ≡ true → m ≡ PaymentMethod.cash) × (is_cash m ≡ false → m ≢ PaymentMethod.cash)
cash_known PaymentMethod.mobile_money = ((λ e. cc), λ e f. cc)
cash_known PaymentMethod.card = ((λ e. cc), λ e f. cc)
cash_known PaymentMethod.paypal = ((λ e. cc), λ e f. cc)
cash_known PaymentMethod.cash = ((λ e. refl), λ e f. cc)
cash_known (PaymentMethod.unknown s) = ((λ e. cc), λ e f. cc)

refund-Owes : (reason : String) (b : Booking) → Owes reason b (refund_reason_if_paid reason b)
refund-Owes reason b = elim (Bool-cases (is_cash b.payment_method)) [
  | inl cash ↦ rw cash (in_cash ((cash_known b.payment_method).0 cash))
  | inr online ↦
      rw online (by_date b.payment_completed_at refl ((cash_known b.payment_method).1 online))
]
  where
    by_date :
        (o : Option ℤ)
        → b.payment_completed_at ≡ o
        → b.payment_method ≢ PaymentMethod.cash
        → Owes reason b (if is_some o then some reason else none)
    by_date none e online = not_paid e
    by_date (some t) e online = paid_online online e

module _ (now : ℤ) (reason refund : String) where
  change-IsCancelledAs :
      (b : Booking)
      → IsCancelledAs now reason refund b (touch now (bulk_cancel_change now reason refund b).set b)
        × ((e : StatusHistoryEntry) × ((bulk_cancel_change now reason refund b).log ≡ some e)
            × LogsCancellation reason b e)
  unfolding bulk_cancel_change
  change-IsCancelledAs b =
      ((refund_reason_if_paid refund b, refund-Owes refund b, refl), (_, refl, refl))

  with_change :
      {P : Type 0} (b : Booking)
      → P
      → P
        × IsCancelledAs now reason refund b
            (touch now (bulk_cancel_change now reason refund b).set b)
        × ((e : StatusHistoryEntry) × ((bulk_cancel_change now reason refund b).log ≡ some e)
            × LogsCancellation reason b e)
  with_change b h = (h, (change-IsCancelledAs b).0, (change-IsCancelledAs b).1)

  change_keeps : (b : Booking) → KeepsId (bulk_cancel_change now reason refund b).set
  unfolding bulk_cancel_change
  change_keeps b r = refl

-- On a table with unique identifiers, CancelBookingsForTrip fails and leaves the tables as they were, or
-- cancels each booking of the trip whose status is paymentPending, pendingApproval or approved, as the
-- system and at this time, with a refund reason exactly if the booking was paid and not in cash, and one
-- entry from its status before; it returns these bookings as they were, and every other row and the
-- segments stay.
pub cancel_bookings_for_trip-Swept :
    (now : ℤ) (trip : String) (db : Db)
    → UniqueIds db.tables.bookings
    → Outcome db.tables
        (Swept
          (λ b. (b.trip_id ≡ trip) × IsToStart b.status)
          (IsCancelledAs now "Trajet annulé par le chauffeur" "tripCancelled")
          (LogsCancellation "Trajet annulé par le chauffeur")
          db.tables)
        (cancel_bookings_for_trip now trip db)
unfolding cancel_bookings_for_trip cancelled_with_trip
cancel_bookings_for_trip-Swept now trip db =
    change_bookings-Swept _ _ _ now (cancelled_with_trip trip)
      (bulk_cancel_change now "Trajet annulé par le chauffeur" RefundReason.trip_cancelled) db
      (λ b e. with_change now _ _ b (
        (eq_iff b.trip_id trip).0 (and_left (str_eq b.trip_id trip) _ e),
        to_start b.status (and_right (str_eq b.trip_id trip) _ e),
      ))
      (λ b e k.
        Bool-clash (cancelled_with_trip trip b)
          (rw ((eq_iff b.trip_id trip).1 k.0, of_start b.status k.1) refl) e)
      (change_keeps now _ _)

-- On a table with unique identifiers, CancelBookingsForWaypoint fails and leaves the tables as they were,
-- or cancels each booking of the trip that begins or ends at the waypoint and whose status is
-- paymentPending, pendingApproval or approved, as the system and at this time, with a refund reason
-- exactly if the booking was paid and not in cash, and one entry from its status before; it returns these
-- bookings as they were, and every other row and the segments stay.
pub cancel_bookings_for_waypoint-Swept :
    (now : ℤ) (trip waypoint : String) (db : Db)
    → UniqueIds db.tables.bookings
    → Outcome db.tables
        (Swept
          (λ b.
            (b.trip_id ≡ trip)
            × ((b.pickup_waypoint_id ≡ waypoint) ⊎ (b.dropoff_waypoint_id ≡ waypoint))
            × IsToStart b.status)
          (IsCancelledAs now "Arrêt supprimé par le chauffeur" "waypointCancelled")
          (LogsCancellation "Arrêt supprimé par le chauffeur")
          db.tables)
        (cancel_bookings_for_waypoint now trip waypoint db)
unfolding cancel_bookings_for_waypoint cancelled_with_waypoint
cancel_bookings_for_waypoint-Swept now trip waypoint db =
    change_bookings-Swept _ _ _ now (cancelled_with_waypoint trip waypoint)
      (bulk_cancel_change now "Arrêt supprimé par le chauffeur" RefundReason.waypoint_cancelled) db
      (λ b e.
        let h = and_all (str_eq b.trip_id trip) _ _ e in
        with_change now _ _ b
          ((eq_iff b.trip_id trip).0 h.0, one_stop b h.1, to_start b.status h.2))
      (λ b e k.
        Bool-clash (cancelled_with_waypoint trip waypoint b)
          (rw ((eq_iff b.trip_id trip).1 k.0, stop_one b k.1, of_start b.status k.2) refl) e)
      (change_keeps now _ _)
  where
    one_stop :
        (b : Booking)
        → (str_eq b.pickup_waypoint_id waypoint || str_eq b.dropoff_waypoint_id waypoint) ≡ true
        → (b.pickup_waypoint_id ≡ waypoint) ⊎ (b.dropoff_waypoint_id ≡ waypoint)
    one_stop b e =
        ground (arith, eq_iff b.pickup_waypoint_id waypoint, eq_iff b.dropoff_waypoint_id waypoint)

    stop_one :
        (b : Booking)
        → (b.pickup_waypoint_id ≡ waypoint) ⊎ (b.dropoff_waypoint_id ≡ waypoint)
        → (str_eq b.pickup_waypoint_id waypoint || str_eq b.dropoff_waypoint_id waypoint) ≡ true
    stop_one b k =
        ground (arith, eq_iff b.pickup_waypoint_id waypoint, eq_iff b.dropoff_waypoint_id waypoint)
