-- ===== src/Booking/Repository/RefundDemands.antt =====
-- services/booking-service/internal/repository/implementations/booking_read_repository.go:
-- GetBookingsPendingRefundRequest, the bookings whose refund is to be demanded from payment-service.
-- `deleted_at`, which no code sets, is left out; rows of the same `updated_at` come in table order.
pub mod Contests
use tissi_mah.Prelude.{
  ℕ, zero, suc, ℤ, ◌-ℤ◌, ltb_ℤ, leb_ℤ, Bool, true, false, not, ◌&&◌, ◌||◌, Option, none, some, List,
  [], ◌∷◌, is_some, if◌then◌else◌,
}
use tissi_mah.Prelude.Result.{Result, ok, err}
use tissi_mah.Booking.Domain.{Booking, Error, no_show}
use tissi_mah.Booking.Store.{Db, Action, next_call, filter_rows}
use tissi_mah.Booking.Repository.Guards.{same_status}

-- `no_show_reported_at < NOW() - window`, where NULL is not
abbrev pub window_over : Option ℤ → ℤ → ℤ → Bool
window_over none now window = false
window_over (some reported) now window = ltb_ℤ reported (now -ℤ window)

-- the WHERE clause
unfoldable pub is_refund_due : ℤ → ℤ → ℤ → ℤ → Booking → Bool
is_refund_due now updated_before max_attempts window b =
    is_some b.refund_reason
    && not (is_some b.refund_requested_at)
    && ltb_ℤ b.refund_request_attempts max_attempts
    && ltb_ℤ b.updated_at updated_before
    && (not (same_status b.status no_show)
        || is_some b.no_show_resolved_at
        || (not (is_some b.no_show_contested_at) && window_over b.no_show_reported_at now window))

abbrev insert_by_update : Booking → List Booking → List Booking
insert_by_update b [] = b ∷ []
insert_by_update b (c ∷ cs) =
    if leb_ℤ b.updated_at c.updated_at then b ∷ c ∷ cs else c ∷ insert_by_update b cs

-- ORDER BY updated_at ASC
abbrev pub sort_by_update : List Booking → List Booking
sort_by_update [] = []
sort_by_update (b ∷ bs) = insert_by_update b (sort_by_update bs)

-- LIMIT
abbrev pub take {ℓ} : {A : Type ℓ} → ℕ → List A → List A
take zero xs = []
take (suc n) [] = []
take (suc n) (x ∷ xs) = x ∷ take n xs

unfoldable pub get_bookings_pending_refund_request : ℤ → ℤ → ℤ → ℕ → ℤ → Action (List Booking)
get_bookings_pending_refund_request now updated_before max_attempts limit window db =
    let (fails, rest) = next_call db.faults in
    let db' : Db = record db { faults = rest } in
    if fails then (err Error.data_retrieval_failed, db') else (
      ok (
          take limit (
            sort_by_update (
              filter_rows (is_refund_due now updated_before max_attempts window)
                db.tables.bookings))),
      db',
    )
