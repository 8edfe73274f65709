-- ===== src/Booking/Lifecycle.antt =====
-- What the invariant says of the bookings and of their history between two calls of the repository
-- (services/booking-service/internal/repository/implementations/booking_write_repository.go): the
-- diagram of the statuses, the agreement of table and history, and the refunds that are owed.
pub mod History
pub mod Preserve
pub mod Lawful
pub mod Creation
pub mod Runs
pub mod Paths
use tissi_mah.Prelude.{
  String, str_eq, Bool, true, false, not, ◌&&◌, ◌||◌, Option, none, some, List, [], ◌∷◌, ◌++◌, ◌≡◌,
  ◌⊎◌, All, is_some, if◌then◌else◌,
}
use tissi_mah.Booking.Domain.{
  BookingStatus, Booking, StatusHistoryEntry, created, payment_pending, payment_failed,
  pending_approval, approved, rejected, cancelled, in_progress, completed, no_show,
}
use tissi_mah.Booking.Store.{Tables, Change, find_row}
use tissi_mah.Booking.Store.Rows.{UniqueIds, KeepsId}
use tissi_mah.Booking.Repository.Guards.{is_cash}

-- The diagram of the statuses.
infix 40 ◌⟶◌
pub data ◌⟶◌ : BookingStatus → BookingStatus → Type 0 where
  book_online : created ⟶ payment_pending
  book_cash : created ⟶ pending_approval
  book_approved : created ⟶ approved
  approve : pending_approval ⟶ approved
  reject : pending_approval ⟶ rejected
  cancel_created : created ⟶ cancelled
  cancel_payment_pending : payment_pending ⟶ cancelled
  cancel_pending_approval : pending_approval ⟶ cancelled
  cancel_approved : approved ⟶ cancelled
  start : approved ⟶ in_progress
  complete : in_progress ⟶ completed
  miss_departure : approved ⟶ no_show
  miss_trip : in_progress ⟶ no_show
  pay : payment_pending ⟶ pending_approval
  pay_approved : payment_pending ⟶ approved
  pay_late : payment_failed ⟶ pending_approval
  pay_late_approved : payment_failed ⟶ approved
  fail : payment_pending ⟶ payment_failed

pub ruleset edges = (
  book_online, book_cash, book_approved, approve, reject, cancel_created, cancel_payment_pending,
  cancel_pending_approval, cancel_approved, start, complete, miss_departure, miss_trip, pay,
  pay_approved, pay_late, pay_late_approved, fail,
)

-- A booking that ended without the trip: a passenger who paid online is owed a decision on a refund.
abbrev pub is_unserved : BookingStatus → Bool
is_unserved rejected = true
is_unserved cancelled = true
is_unserved no_show = true
is_unserved _ = false

-- The predicate that a refund is recorded exactly for the bookings that ended without the trip and were paid online.
abbrev pub RefundRecorded : Booking → Type 0
RefundRecorded b =
    is_some b.refund_reason
    ≡ (is_unserved b.status && (not (is_cash b.payment_method) && is_some b.payment_completed_at))

-- The predicate that support resolved only a contest that was filed.
abbrev pub ResolvedContested : Booking → Type 0
ResolvedContested b = (not (is_some b.no_show_resolved_at) || is_some b.no_show_contested_at) ≡ true

abbrev pub Consistent : Booking → Type 0
Consistent b = RefundRecorded b × ResolvedContested b

-- the status that the last entry of a booking says, if there is one
abbrev pub last_status : String → List StatusHistoryEntry → Option BookingStatus
last_status id [] = none
last_status id (e ∷ es) = elim (last_status id es) [
  | some s ↦ some s
  | none ↦ if str_eq e.booking_id id then some e.new_status else none
]

-- the status of a booking after these entries: a booking begins as `created`
abbrev pub status_after : String → List StatusHistoryEntry → BookingStatus
status_after id h = elim (last_status id h) [ some s ↦ s | none ↦ created ]

-- Each entry is a step of the diagram from the status that the entries before it left.
abbrev pub Chained : List StatusHistoryEntry → List StatusHistoryEntry → Type 0
Chained seen [] = Unit
Chained seen (e ∷ es) =
    (status_after e.booking_id seen ≡ e.previous_status)
    × (e.previous_status ⟶ e.new_status)
    × Chained (seen ++ e ∷ []) es

pub record IsValid (base : List StatusHistoryEntry) (t : Tables) : Type 0 where
  pub unique : UniqueIds t.bookings
  pub logged : All (λ b. last_status b.booking_id t.history ≡ some b.status) t.bookings
  pub unlogged : (id : String) → find_row id t.bookings ≡ none → last_status id t.history ≡ none
  pub consistent : All Consistent t.bookings
  pub chained : (es : List StatusHistoryEntry) × (t.history ≡ base ++ es) × Chained base es

-- A change either logs nothing and keeps the status, or logs the step that it takes.
abbrev pub LogsStep : Booking → Change → Type 0
LogsStep b c =
    ((c.log ≡ none) × ((c.set b).status ≡ b.status))
    ⊎ ((e : StatusHistoryEntry) × (c.log ≡ some e)
        × (e.booking_id ≡ b.booking_id)
        × (e.previous_status ≡ b.status)
        × (e.new_status ≡ (c.set b).status)
        × (b.status ⟶ (c.set b).status))

-- What a change of the booking `b` has to respect.
pub record IsLawful (b : Booking) (c : Change) : Type 0 where
  pub keeps_id : KeepsId c.set
  pub logs_step : LogsStep b c
  pub keeps_consistent : Consistent b → Consistent (c.set b)
