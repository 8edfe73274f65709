-- ===== src/Payment/Repository/Payments.antt =====
-- services/payment-service/internal/repository/implementations: payment_read_repository.go and
-- UpdatePaymentStatus of payment_write_repository.go.
use tissi_mah.Prelude.{
  ℤ, ltb_ℤ, String, str_eq, Bool, true, false, ◌&&◌, Option, none, some, List, [], ◌∷◌, any,
  if◌then◌else◌,
}
use tissi_mah.Prelude.Result.{Result, ok, err, next_call}
use tissi_mah.Payment.Domain.{Payment, PaymentStatus, Error}
use tissi_mah.Payment.Store.{Db, Action, query_row, find_where, update_where}

abbrev pub is_payment : String → Payment → Bool
is_payment id p = str_eq p.payment_id id

abbrev pub of_booking : String → Payment → Bool
of_booking id p = str_eq p.booking_id id

-- `ORDER BY created_at DESC LIMIT 1`
abbrev pub latest : Option Payment → List Payment → Option Payment
latest best [] = best
latest none (p ∷ ps) = latest (some p) ps
latest (some q) (p ∷ ps) = latest (some (if ltb_ℤ q.created_at p.created_at then p else q)) ps

abbrev pub get_payment_by_id : String → Action Payment
get_payment_by_id id =
    query_row Error.payment_not_found (λ t. find_where (is_payment id) t.payments)

abbrev pub payments_of : String → List Payment → List Payment
payments_of id [] = []
payments_of id (p ∷ ps) = if of_booking id p then p ∷ payments_of id ps else payments_of id ps

abbrev pub get_payment_by_booking_id : String → Action Payment
get_payment_by_booking_id id =
    query_row Error.payment_not_found (λ t. latest none (payments_of id t.payments))

-- the statuses that UpdatePaymentStatus may leave, for the one that it is to reach
unfoldable pub allowed_current : PaymentStatus → PaymentStatus → Bool
allowed_current PaymentStatus.held PaymentStatus.pending = true
allowed_current PaymentStatus.held _ = false
allowed_current PaymentStatus.released PaymentStatus.held = true
allowed_current PaymentStatus.released _ = false
allowed_current PaymentStatus.refunded PaymentStatus.held = true
allowed_current PaymentStatus.refunded PaymentStatus.released = true
allowed_current PaymentStatus.refunded _ = false
allowed_current _ PaymentStatus.pending = true
allowed_current _ _ = false

abbrev pub is_held_status : PaymentStatus → Bool
is_held_status PaymentStatus.held = true
is_held_status _ = false

-- the assignments: an empty transaction leaves the one that is stored, and `held` dates the payment
unfoldable pub set_payment_status : ℤ → PaymentStatus → String → Payment → Payment
set_payment_status now status transaction p = record p {
  status = status;
  external_transaction_id =
      if str_eq transaction "" then p.external_transaction_id else transaction;
  completed_at = if is_held_status status then some now else p.completed_at;
  updated_at = now;
}

abbrev pub may_become : PaymentStatus → String → Payment → Bool
may_become status id p = is_payment id p && allowed_current status p.status

abbrev pub not_updated : String → Db → Result Error (Unit {0}) × Db
not_updated id db =
    let (fails, rest) = next_call db.faults in
    let db' : Db = record db { faults = rest } in
    if fails
    then (err Error.internal_server, db')
    else if any (is_payment id) db.tables.payments
    then (err Error.payment_already_processed, db')
    else (err Error.payment_not_found, db')

-- UpdatePaymentStatus
unfoldable pub update_payment_status : ℤ → String → PaymentStatus → String → Action (Unit {0})
update_payment_status now id status transaction db =
    let (fails, rest) = next_call db.faults in
    let db' : Db = record db { faults = rest } in
    let t = db.tables in
    if fails
    then (err Error.internal_server, db')
    else if any (may_become status id) t.payments
    then (
      ok tt,
      record db' {
        tables = record t {
          payments =
              update_where (may_become status id) (set_payment_status now status transaction)
                t.payments;
        };
      },
    )
    else not_updated id db'
