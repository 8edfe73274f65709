-- ===== src/Booking/Handlers.antt =====
-- services/booking-service/internal/service/booking_service_impl.go: the handlers that change one
-- booking and give its seats back, or take them again: RejectBooking, CancelBooking, ReportNoShow,
-- FailPayment, ApproveBooking and ConfirmPayment. Notifications, cached pages, the demands for refunds
-- and the copy of the seats to trips-service, whose failure is only logged, are left out.
pub mod Seats
pub mod Balance
pub mod Cancellation
pub mod Reactivation
pub mod Writes
pub mod Confirmation
pub mod Runs
pub mod Outcome
pub mod Reports
use tissi_mah.Prelude.{
  ℤ, pos, ◌+ℤ◌, ltb_ℤ, ℕ, String, str_eq, Bool, true, false, not, ◌&&◌, ◌||◌, Option, none, some,
  is_some, if◌then◌else◌,
}
use tissi_mah.Prelude.Result.{Result, ok, err}
use tissi_mah.Booking.Domain.{
  BookingStatus, Booking, Error, payment_pending, payment_failed, pending_approval, approved,
}
use tissi_mah.Booking.Store.{Tables, Db, Action, find_row, next_call}
use tissi_mah.Booking.Seats.{
  Redis, CacheError, init_segment_seat_counters, reserve_segment_seats, restore_segment_seats,
}
use tissi_mah.Booking.Waypoints.{get_max_waypoint_order}
use tissi_mah.Booking.Request.{TripDetails}
use tissi_mah.Booking.Creation.{World, Failure, has_active_booking}
use tissi_mah.Booking.Repository.Guards.{same_status, is_cash}
use tissi_mah.Booking.Repository.Approval
use tissi_mah.Booking.Repository.NoShow
use tissi_mah.Booking.Repository.Payment

abbrev pub found : Db → Option Booking → Result Error Booking × Db
found db none = (err Error.booking_not_found, db)
found db (some b) = (ok b, db)

-- GetByID
abbrev pub get_by_id : String → Action Booking
get_by_id id db =
    let (fails, rest) = next_call db.faults in
    let db' : Db = record db { faults = rest } in
    if fails
    then (err Error.data_retrieval_failed, db')
    else found db' (find_row id db.tables.bookings)

-- the answer of a handler, an error or a panic, and the world after it
abbrev pub Reply : Type 0 → Type 0
Reply A = Result Failure A × World

abbrev pub with_booking :
    {A : Type 0} → World → (Booking → World → Reply A) → Result Error Booking × Db → Reply A
with_booking w next (err e, db) = (err (Failure.refused e), record w { db = db })
with_booking w next (ok b, db) = next b (record w { db = db })

-- `if err := ValidateInput(...); err != nil`
abbrev pub given : {A : Type 0} → Bool → World → Reply A → Reply A
given missing w next = if missing then (err (Failure.refused Error.invalid_input), w) else next

-- RestoreSegmentSeats of the seats of a booking, whose error is ignored
abbrev pub released : Booking → Option Redis → Option Redis
released b none = none
released b (some r) =
    some
      (restore_segment_seats b.trip_id b.pickup_sequencer_order b.dropoff_sequencer_order
        b.seats_booked r).1

-- a change of the repository, and the restoration after its success
abbrev pub release_after : Booking → World → Result Error (Unit {0}) × Db → Reply (Unit {0})
release_after b w (err e, db) = (err (Failure.refused e), record w { db = db })
release_after b w (ok _, db) = (ok tt, record { db = db; cache = released b w.cache })

abbrev pub change_and_release : Action (Unit {0}) → Booking → World → Reply (Unit {0})
change_and_release change b w = release_after b w (change w.db)

-- RejectBooking
unfoldable pub reject_booking : ℤ → String → String → String → World → Reply (Unit {0})
reject_booking now driver id reason w =
    given (str_eq driver "" || str_eq id "") w (
      with_booking w (change_and_release (Approval.reject now id driver reason))
        (get_by_id id w.db))

-- a payment that waits at the provider
abbrev pub has_pending_payment : Booking → Bool
has_pending_payment b = same_status b.status payment_pending && not (is_cash b.payment_method)

-- CancelPaymentForBooking of payment-service, which may call ConfirmPayment before it answers with the
-- status of the payment
abbrev pub PaymentClient : Type 0
PaymentClient = String → World → Result String String × World

abbrev pub payment_cancelled :
    (Booking → World → Reply (Unit {0}))
    → String
    → Booking
    → Result String String × World
    → Reply (Unit {0})
payment_cancelled cancel id b (err e, w) = (err (Failure.refused Error.internal_server), w)
payment_cancelled cancel id b (ok status, w) =
    if str_eq status "held" then with_booking w cancel (get_by_id id w.db) else cancel b w

abbrev pub cancel_read :
    Option PaymentClient → ℤ → String → String → String → Booking → World → Reply (Unit {0})
cancel_read none now user id reason b w =
    change_and_release (Approval.cancel now id user reason) b w
cancel_read (some client) now user id reason b w =
    if has_pending_payment b
    then if not (str_eq user b.passenger_id) && not (str_eq user b.driver_id)
      then (err (Failure.refused Error.unauthorized), w)
      else payment_cancelled (change_and_release (Approval.cancel now id user reason)) id b
          (client id w)
    else change_and_release (Approval.cancel now id user reason) b w

-- CancelBooking
unfoldable pub cancel_booking :
    Option PaymentClient → ℤ → String → String → String → World → Reply (Unit {0})
cancel_booking client now user id reason w =
    given (str_eq user "" || str_eq id "") w
      (with_booking w (cancel_read client now user id reason) (get_by_id id w.db))

-- canReportNoShow
unfoldable pub can_report_no_show : Booking → String → String → Bool
can_report_no_show b reporter no_show_type =
    if str_eq reporter b.driver_id
    then str_eq no_show_type "passenger"
    else if str_eq reporter b.passenger_id
    then str_eq no_show_type "driver"
    else false

-- noShowReportDelay and noShowReportWindow
abbrev pub no_show_report_delay : ℤ
no_show_report_delay = pos 900_000_000_000

abbrev pub no_show_report_window : ℤ
no_show_report_window = pos 10_800_000_000_000

-- checkNoShowReportable: the time of the pickup is the parsed answer of trips-service
unfoldable pub check_no_show_reportable : ℤ → Option ℤ → Result Error (Unit {0})
check_no_show_reportable now none = err Error.data_retrieval_failed
check_no_show_reportable now (some pickup) =
    if ltb_ℤ now (pickup +ℤ no_show_report_delay)
    then err Error.no_show_too_early
    else if ltb_ℤ (pickup +ℤ no_show_report_window) now
    then err Error.no_show_report_closed
    else ok tt

abbrev pub if_reportable : World → Reply (Unit {0}) → Result Error (Unit {0}) → Reply (Unit {0})
if_reportable w next (err e) = (err (Failure.refused e), w)
if_reportable w next (ok _) = next

abbrev pub reported :
    (Booking → Option ℤ)
    → ℤ
    → String
    → String
    → String
    → String
    → Booking
    → World
    → Reply (Unit {0})
reported pickup_of now id reporter no_show_type description b w =
    if can_report_no_show b reporter no_show_type
    then if_reportable w
        (change_and_release (NoShow.report_no_show now id reporter no_show_type description) b w)
        (check_no_show_reportable now (pickup_of b))
    else (err (Failure.refused Error.unauthorized), w)

-- ReportNoShow: `pickup_of` is the parsed time of the pickup, where trips-service knows it
unfoldable pub report_no_show :
    (Booking → Option ℤ) → ℤ → String → String → String → String → World → Reply (Unit {0})
report_no_show pickup_of now id reporter no_show_type description w =
    given (str_eq id "" || str_eq reporter "" || str_eq no_show_type "") w (
      given (not (str_eq no_show_type "driver") && not (str_eq no_show_type "passenger")) w (
        with_booking w (reported pickup_of now id reporter no_show_type description)
          (get_by_id id w.db)))

-- FailPayment: a payment that has failed already is no error
abbrev pub already_failed : Error → Result Failure (Unit {0})
already_failed Error.payment_already_failed = ok tt
already_failed e = err (Failure.refused e)

abbrev pub fail_after : Booking → World → Result Error (Unit {0}) × Db → Reply (Unit {0})
fail_after b w (err e, db) = (already_failed e, record w { db = db })
fail_after b w (ok _, db) = (ok tt, record { db = db; cache = released b w.cache })

unfoldable pub fail_payment : ℤ → String → String → World → Reply (Unit {0})
fail_payment now id reason w = given (str_eq id "") w (
    with_booking w (λ b w'. fail_after b w' (Payment.fail_payment now id reason w'.db))
      (get_by_id id w.db))

abbrev pub on_db : World → Result Error (Unit {0}) × Db → Reply (Unit {0})
on_db w (err e, db) = (err (Failure.refused e), record w { db = db })
on_db w (ok _, db) = (ok tt, record w { db = db })

-- ApproveBooking
unfoldable pub approve_booking : ℤ → String → String → World → Reply (Unit {0})
approve_booking now driver id w =
    given (str_eq driver "" || str_eq id "") w
      (with_booking w (λ b w'. on_db w' (Approval.approve now id driver w'.db)) (get_by_id id w.db))

-- the status after a payment: trips-service may be unreachable
abbrev pub status_after_payment : Option TripDetails → BookingStatus
status_after_payment none = pending_approval
status_after_payment (some trip) = if trip.auto_approve_enabled then approved else pending_approval

abbrev pub enough_seats : Booking → TripDetails → World → Reply (Unit {0})
enough_seats b trip w =
    if ltb_ℤ trip.available_seats b.seats_booked
    then (err (Failure.refused Error.no_seats_available), w)
    else (ok tt, w)

abbrev pub seats_taken : World → Result CacheError (Unit {0}) × Redis → Reply (Unit {0})
seats_taken w (err CacheError.panicked, r) = (err Failure.panicked, record w { cache = some r })
seats_taken w (err CacheError.command_failed, r) =
    (err (Failure.refused Error.no_seats_available), record w { cache = some r })
seats_taken w (err CacheError.no_seats_available, r) =
    (err (Failure.refused Error.no_seats_available), record w { cache = some r })
seats_taken w (ok _, r) = (ok tt, record w { cache = some r })

abbrev pub counters_ready :
    Booking → TripDetails → World → Result CacheError (Unit {0}) × Redis → Reply (Unit {0})
counters_ready b trip w (err e, r) = enough_seats b trip (record w { cache = some r })
counters_ready b trip w (ok _, r) = seats_taken w (
    reserve_segment_seats b.trip_id b.pickup_sequencer_order b.dropoff_sequencer_order
      b.seats_booked r)

abbrev pub take_seats : Booking → TripDetails → World → Option Redis → Reply (Unit {0})
take_seats b trip w none = enough_seats b trip w
take_seats b trip w (some r) = counters_ready b trip w (
    init_segment_seat_counters b.trip_id trip.total_seats (get_max_waypoint_order trip.waypoints) r)

abbrev pub if_not_rebooked :
    Booking → TripDetails → World → Result Error Bool × Db → Reply (Unit {0})
if_not_rebooked b trip w (err e, db) = (err (Failure.refused e), record w { db = db })
if_not_rebooked b trip w (ok true, db) =
    (err (Failure.refused Error.no_seats_available), record w { db = db })
if_not_rebooked b trip w (ok false, db) = take_seats b trip (record w { db = db }) w.cache

-- reserveSeatsForReactivation
unfoldable pub reserve_seats_for_reactivation :
    Booking → Option TripDetails → World → Reply (Unit {0})
reserve_seats_for_reactivation b none w = (err (Failure.refused Error.internal_server), w)
reserve_seats_for_reactivation b (some trip) w =
    if not (str_eq trip.status "scheduled") && not (str_eq trip.status "inProgress")
    then (err (Failure.refused Error.no_seats_available), w)
    else if_not_rebooked b trip w (has_active_booking b.passenger_id b.trip_id w.db)

-- ConfirmPayment of the repository, with the restoration of seats that were taken again
abbrev pub confirm_after :
    Bool → Booking → BookingStatus → World → Result Error (Unit {0}) × Db → Reply BookingStatus
confirm_after reactivate b status w (err e, db) = (
  err (Failure.refused e),
  record { db = db; cache = if reactivate then released b w.cache else w.cache },
)
confirm_after reactivate b status w (ok _, db) = (ok status, record w { db = db })

abbrev pub confirm_at : ℤ → String → Bool → Booking → BookingStatus → World → Reply BookingStatus
confirm_at now id reactivate b status w =
    confirm_after reactivate b status w (Payment.confirm_payment now id b.status status w.db)

abbrev pub if_taken : (World → Reply BookingStatus) → Reply (Unit {0}) → Reply BookingStatus
if_taken next (err e, w) = (err e, w)
if_taken next (ok _, w) = next w

abbrev pub trip_of : Result (Unit {0}) (Option TripDetails) → Option TripDetails
trip_of (err _) = none
trip_of (ok details) = details

abbrev pub confirm_read :
    (String → Result (Unit {0}) (Option TripDetails))
    → ℤ
    → String
    → Booking
    → World
    → Reply BookingStatus
confirm_read get_trip_details now id b w =
    let trip = trip_of (get_trip_details b.trip_id) in
    let status = status_after_payment trip in
    if same_status b.status payment_pending
    then confirm_at now id false b status w
    else if same_status b.status payment_failed
    then if_taken (confirm_at now id true b status) (reserve_seats_for_reactivation b trip w)
    else if is_some b.payment_completed_at
    then (err (Failure.refused Error.payment_already_confirmed), w)
    else (err (Failure.refused Error.invalid_status_transition), w)

-- confirmPaymentOnce
unfoldable pub confirm_payment_once :
    (String → Result (Unit {0}) (Option TripDetails)) → ℤ → String → World → Reply BookingStatus
confirm_payment_once get_trip_details now id w =
    with_booking w (confirm_read get_trip_details now id) (get_by_id id w.db)

abbrev pub is_invalid_transition : Failure → Bool
is_invalid_transition (Failure.refused Error.invalid_status_transition) = true
is_invalid_transition _ = false

-- the second attempt, where the status has changed between the read and the lock
abbrev pub attempted : (World → Reply BookingStatus) → Reply BookingStatus → Reply BookingStatus
attempted again (ok status, w) = (ok status, w)
attempted again (err e, w) = if is_invalid_transition e then again w else (err e, w)

-- ConfirmPayment
unfoldable pub confirm_payment :
    (String → Result (Unit {0}) (Option TripDetails))
    → ℤ
    → String
    → String
    → World
    → Reply BookingStatus
confirm_payment get_trip_details now id transaction w =
    given (str_eq id "" || str_eq transaction "") w (
      attempted (confirm_payment_once get_trip_details now id)
        (confirm_payment_once get_trip_details now id w))
