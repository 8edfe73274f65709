-- ===== src/Lib.antt =====
-- Tissi Mah is a ride-sharing back end in Go: services that share no memory and call each other, each with
-- its own database. This library models the core of two of them.
--
-- booking-service (services/booking-service). A passenger books seats between two stops of a trip. The
-- seats are reserved in Redis counters, one for each leg of the trip; the booking, its segments and a
-- status history are rows of Postgres tables; payment-service, trips-service and user-service answer calls.
--  - Booking/Domain: internal/domain. Statuses, bookings, segments, history entries, errors.
--  - Booking/Store: the tables and the shape of the transactions of
--    internal/repository/implementations/booking_write_repository.go. An action takes the tables and a
--    list that says which calls of the driver fail. Store/Transaction says what a transaction leaves
--    behind, Store/Rows has the lemmas on rows.
--  - Booking/Repository: the methods of that file. Approval has Approve, Reject and Cancel; NoShow has
--    ReportNoShow, ContestNoShow and ResolveNoShowContest; Payment has ConfirmPayment, FailPayment and the
--    marks; Bulk has the methods on all bookings of a trip or of a waypoint (its
--    modules Sweep, Cancellation and Journey are about each row); Creation has Create. Each
--    method is its decision (`decide_cancel` for Cancel: the guards in their order, the assignments of the
--    UPDATE and the history entry) in the frame that the methods share (`change_booking`,
--    `change_bookings`). RefundDemands has GetBookingsPendingRefundRequest of booking_read_repository.go.
--  - Booking/Seats: the counters by leg of internal/cache/booking_cache.go. A counter has a deadline,
--    24 hours after it was set; `at_time` removes those that have passed. A call runs at one time, so its
--    commands see no expiry between them, and time goes by between the calls. Reservation, Balance and Minimum have
--    their theorems; Booking/Reconciliation has reconcileTrip.
--  - Booking/Waypoints: resolveWaypointOrders, getMaxWaypointOrder and calculatePriceFromWaypoints of
--    internal/service/booking_service_impl.go.
--  - Booking/Request and Booking/Creation: CreateBooking of the same file, on the database and the cache.
--  - Booking/Handlers: RejectBooking, CancelBooking, ReportNoShow, FailPayment, ApproveBooking and
--    ConfirmPayment of the same file: the row that is read, the method of the repository, and the seats that
--    are given back or, for a late payment, taken again. Seats, Balance, Cancellation, Reactivation, Writes,
--    Confirmation and Runs are about the counters; Outcome and Reports say what an answer means. What
--    payment-service does when a booking is cancelled is an argument, as are the answers of trips-service.
--  - Booking/Commands: the calls of the repository as data, and runs of them. Booking/Lifecycle: the
--    diagram of the statuses and the invariant of tables and history; Lawful and Creation are about the
--    decisions, Preserve about single changes of the tables, Runs and Paths about runs of calls.
--
-- payment-service (services/payment-service). Collects payments, refunds passengers and pays drivers.
--  - Payment/RefundRules: internal/service/refund_rules.go. Payment/Window: payment_window.go.
--  - Payment/Domain: internal/domain and the errors. Payment/Store: the tables of payments and refunds and
--    their histories, with the statements on them. Payment/Repository: the methods of
--    internal/repository/implementations on refunds and payments that the service calls.
--  - Payment/Refunds: RequestRefund of payment_service_impl.go, with createRefundForPayment.
--  - Payment/Transfers: refund_worker.go (Worker), payout_confirmation.go and, for refunds,
--    payout_reconciler.go (Confirmation). The journal of a transfer records what FedaPay accepted to start
--    and what it reported since. The goroutines of a batch are read one after the other: they work on
--    different refunds, each under its lock. A handler reads the clock once.
--  - Payment/Runs: runs of requests, batches, webhooks and reconciliations in any order, with any answers of
--    FedaPay and the other services. Health has their invariant, Replay what follows for a refund that is
--    asked for again, Settling that the retries come to an end.
--
-- Prelude has the shared tests, integers, lists and results. Go's `int` is an integer whose wrap-around
-- is written out (`int64`, `int16`); an instant is a number of nanoseconds. No definition needs fuel: every
-- loop of the modelled code runs over a list or a range.
--
-- What the code relies on outside the repository is written out where it is used: Postgres runs the
-- statements of a transaction one after the other on the tables, rows that are locked are not changed by
-- others, a transaction that does not commit leaves no trace, keys are unique and CHECK constraints hold for
-- inserted rows; a command of Redis that fails changes nothing and a script runs as a whole. The answers of
-- the other services, fresh identifiers and the clock are arguments. The CHECK constraints on updated rows,
-- the lengths of text columns, the texts of the history of refunds, logging, notifications and cached pages
-- are not modelled, nor are the payouts to drivers, the collection of payments and the other services,
-- and the copy of the occupied seats that booking-service sends to trips-service.
pub mod Prelude
pub mod Payment
pub mod Booking
