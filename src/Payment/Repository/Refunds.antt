-- ===== src/Payment/Repository/Refunds.antt =====
-- services/payment-service/internal/repository/implementations: refund_write_repository.go and
-- refund_read_repository.go.
use text.Mathlib.Text.{is_lt}
use Prim.Native.String.{compare}
use tissi_mah.Prelude.{
  ℤ, pos, negsuc, ◌+ℤ◌, leb_ℤ, ltb_ℤ, eqb_ℤ, ℕ, zero, suc, String, str_eq, Bool, true, false, ◌&&◌,
  ◌||◌, Option, none, some, List, [], ◌∷◌, any, is_some, if◌then◌else◌,
}
use tissi_mah.Prelude.Result.{ok, err, next_call}
use tissi_mah.Payment.Domain.{Payment, Refund, RefundStatus, RefundRule, Error, is_valid}
use tissi_mah.Payment.Store.{
  Tables, Db, Action, update_refunds, query_row, find_where, filter_where,
}

abbrev pub same_refund : String → Refund → Bool
same_refund id r = str_eq r.refund_id id

abbrev pub same_payment : String → Refund → Bool
same_payment id r = str_eq r.payment_id id

abbrev pub same_reference : String → Refund → Bool
same_reference reference r = str_eq r.refund_reference reference

abbrev pub is_pending : RefundStatus → Bool
is_pending RefundStatus.pending = true
is_pending _ = false

abbrev pub is_processing : RefundStatus → Bool
is_processing RefundStatus.processing = true
is_processing _ = false

-- `WHERE refund_id = $1 AND status = 'pending'`, and the same for 'processing'
abbrev pub pending_refund : String → Refund → Bool
pending_refund id r = same_refund id r && is_pending r.status

abbrev pub processing_refund : String → Refund → Bool
processing_refund id r = same_refund id r && is_processing r.status

-- an INTEGER column with `CHECK (… >= 0)`
abbrev pub is_amount : ℤ → Bool
is_amount a = leb_ℤ (pos 0) a && ltb_ℤ a (pos 2_147_483_648)

abbrev pub is_rule : RefundRule → Bool
is_rule (RefundRule.custom _) = false
is_rule _ = true

-- the types of the columns of refunds, and its CHECK constraints
abbrev pub accepts_refund : Refund → Bool
accepts_refund r =
    is_valid r.refund_reason
    && is_rule r.refund_rule_applied
    && leb_ℤ (negsuc 2_147_483_647) r.original_amount
    && ltb_ℤ r.original_amount (pos 2_147_483_648)
    && leb_ℤ (pos 0) r.refund_percentage
    && leb_ℤ r.refund_percentage (pos 100)
    && is_amount r.refund_amount
    && is_amount r.amount_to_passenger
    && is_amount r.amount_to_driver
    && is_amount r.amount_to_platform

-- the unique keys of refunds: refund_id, refund_reference and, by migration 000009, payment_id
abbrev pub duplicates : Refund → List Refund → Bool
duplicates r rows =
    any (same_refund r.refund_id) rows
    || any (same_reference r.refund_reference) rows
    || any (same_payment r.payment_id) rows

abbrev pub insert_refund : Refund → Tables → Tables
insert_refund r t = record t { refunds = r ∷ t.refunds }

-- CreateRefund
unfoldable pub create_refund : Refund → Action (Unit {0})
create_refund r db =
    let (fails, rest) = next_call db.faults in
    let db' : Db = record db { faults = rest } in
    if fails
    then (err Error.internal_server, db')
    else if accepts_refund r
    then if duplicates r db.tables.refunds
      then (err Error.refund_already_processed, db')
      else if any (λ (p : Payment). str_eq p.payment_id r.payment_id) db.tables.payments
      then (ok tt, record db' { tables = insert_refund r db.tables })
      else (err Error.internal_server, db')
    else (err Error.internal_server, db')

-- `COALESCE(processed_at, $2)`
abbrev pub coalesce {ℓ} : {A : Type ℓ} → Option A → A → Option A
coalesce none a = some a
coalesce (some b) a = some b

abbrev pub to_processing : ℤ → Refund → Refund
to_processing now r = record r {
  status = RefundStatus.processing;
  processed_at = coalesce r.processed_at now;
}

abbrev pub to_completed : ℤ → ℤ → Refund → Refund
to_completed now reference r = record r {
  status = RefundStatus.completed;
  completed_at = some now;
  payment_provider_reference = some reference;
  failure_reason = none;
}

abbrev pub to_retry : ℤ → String → Refund → Refund
to_retry now reason r = record r {
  status = RefundStatus.pending;
  failure_reason = some reason;
  retry_count = r.retry_count +ℤ pos 1;
  last_retry_at = some now;
}

abbrev pub to_failed : ℤ → String → Refund → Refund
to_failed now reason r = record r {
  status = RefundStatus.failed;
  failure_reason = some reason;
  last_retry_at = some now;
}

-- MarkRefundProcessing
abbrev pub mark_refund_processing : ℤ → String → Action (Unit {0})
mark_refund_processing now id =
    update_refunds now Error.refund_already_processed (pending_refund id) (to_processing now)

abbrev pub with_reference : ℤ → Refund → Refund
with_reference reference r = record r { payment_provider_reference = some reference }

-- SetRefundProviderReference
abbrev pub set_refund_provider_reference : ℤ → String → ℤ → Action (Unit {0})
set_refund_provider_reference now id reference =
    update_refunds now Error.refund_already_processed (processing_refund id)
      (with_reference reference)

-- MarkRefundCompleted, whose callers pass the reference of the payout
abbrev pub mark_refund_completed : ℤ → String → ℤ → Action (Unit {0})
mark_refund_completed now id reference =
    update_refunds now Error.refund_already_processed (processing_refund id)
      (to_completed now reference)

-- MarkRefundPayoutFailed
abbrev pub mark_refund_payout_failed : ℤ → String → String → Action (Unit {0})
mark_refund_payout_failed now id reason =
    update_refunds now Error.refund_already_processed (processing_refund id) (to_retry now reason)

-- MarkRefundFailed
abbrev pub mark_refund_failed : ℤ → String → String → Bool → Action (Unit {0})
mark_refund_failed now id reason increment_retry =
    update_refunds now Error.refund_not_found (same_refund id)
      (if increment_retry then to_retry now reason else to_failed now reason)

-- GetByPaymentID and GetByProviderReference
abbrev pub get_refund_by_payment_id : String → Action Refund
get_refund_by_payment_id id =
    query_row Error.refund_not_found (λ t. find_where (same_payment id) t.refunds)

abbrev pub matches : ℤ → Option ℤ → Bool
matches reference none = false
matches reference (some p) = eqb_ℤ p reference

abbrev pub has_reference : ℤ → Refund → Bool
has_reference reference r = matches reference r.payment_provider_reference

abbrev pub get_refund_by_provider_reference : ℤ → Action Refund
get_refund_by_provider_reference reference =
    query_row Error.refund_not_found (λ t. find_where (has_reference reference) t.refunds)

-- `ORDER BY`, `LIMIT`
abbrev pub insert_by {ℓ} : {A : Type ℓ} → (A → A → Bool) → A → List A → List A
insert_by before x [] = x ∷ []
insert_by before x (y ∷ ys) = if before y x then y ∷ insert_by before x ys else x ∷ y ∷ ys

abbrev pub sort_by {ℓ} : {A : Type ℓ} → (A → A → Bool) → List A → List A
sort_by before [] = []
sort_by before (x ∷ xs) = insert_by before x (sort_by before xs)

abbrev pub take {ℓ} : {A : Type ℓ} → ℕ → List A → List A
take zero xs = []
take (suc n) [] = []
take (suc n) (x ∷ xs) = x ∷ take n xs

-- the time of the payment of a refund; a foreign key says that there is one
abbrev pub paid_at : List Payment → Refund → ℤ
paid_at [] r = pos 0
paid_at (p ∷ ps) r = if str_eq p.payment_id r.payment_id then p.created_at else paid_at ps r

-- `ORDER BY (SELECT created_at …) ASC, refund_id ASC`
abbrev pub by_payment_time : List Payment → Refund → Refund → Bool
by_payment_time ps a b =
    ltb_ℤ (paid_at ps a) (paid_at ps b)
    || eqb_ℤ (paid_at ps a) (paid_at ps b) && is_lt (compare a.refund_id b.refund_id)

-- `WHERE status = 'pending' AND amount_to_passenger > 0`
abbrev pub is_due : Refund → Bool
is_due r = is_pending r.status && ltb_ℤ (pos 0) r.amount_to_passenger

-- GetPendingRefundsForPayout, of a limit above 0
abbrev pub due_refunds : ℕ → Tables → List Refund
due_refunds limit t =
    take limit (sort_by (by_payment_time t.payments) (filter_where is_due t.refunds))

abbrev pub select_refunds : (Tables → List Refund) → Action (List Refund)
select_refunds select db =
    let (fails, rest) = next_call db.faults in
    let db' : Db = record db { faults = rest } in
    if fails then (err Error.data_retrieval_failed, db') else (ok (select db.tables), db')

abbrev pub get_pending_refunds_for_payout : ℕ → Action (List Refund)
get_pending_refunds_for_payout limit = select_refunds (due_refunds limit)

abbrev pub is_stale : ℤ → Refund → Bool
is_stale updated_before r =
    is_processing r.status
    && is_some r.payment_provider_reference
    && ltb_ℤ r.updated_at updated_before

abbrev pub by_update : Refund → Refund → Bool
by_update a b = ltb_ℤ a.updated_at b.updated_at

-- GetProcessingRefundsToReconcile
abbrev pub get_processing_refunds_to_reconcile : ℤ → ℕ → Action (List Refund)
get_processing_refunds_to_reconcile updated_before limit =
    select_refunds
      (λ t. take limit (sort_by by_update (filter_where (is_stale updated_before) t.refunds)))
