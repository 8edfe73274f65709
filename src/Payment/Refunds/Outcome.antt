-- ===== src/Payment/Refunds/Outcome.antt =====
-- What RequestRefund does to the tables.
use tissi_mah.Prelude.{
  ℤ, pos, String, str_eq, Bool, true, false, Option, none, some, List, [], ◌∷◌, any, ◌≡◌, refl, ap,
  ◌∙◌, ◌⊎◌, inl, inr, if_rule, if_cases,
}
use mathlib.Core.Path.{subst}
use tissi_mah.Prelude.Result.{Result, ok, err, next_call}
use tissi_mah.Payment.Domain.{
  Payment, PaymentStatus, Refund, RefundEvent, PaymentStatusHistory, RefundStatusHistory, Error,
  is_valid,
}
use tissi_mah.Payment.RefundRules.{RefundConfig}
use tissi_mah.Payment.Store.{
  Tables, Db, find_where, update_where, write_refund_history, write_payment_history,
}
use tissi_mah.Payment.Store.Statements.{Selected, query_row-Selected}
use tissi_mah.Payment.Repository.Refunds.{
  create_refund, get_refund_by_payment_id, same_payment, accepts_refund, duplicates, insert_refund,
}
use tissi_mah.Payment.Repository.Payments.{
  get_payment_by_booking_id, update_payment_status, latest, payments_of, not_updated, may_become,
  is_payment, set_payment_status,
}
use tissi_mah.Payment.Refunds.{
  RequestRefundInput, RequestRefundResult, Dates, refund_result, is_refundable, payment_refunded,
  refund_payment, is_not_found, is_already_processed, found_refund, existing_refund_result,
  parse_dates, new_refund, winner, refund_created, create_dated, if_not_refunded,
  create_refund_for_payment, for_payment, request_refund,
}

-- what no operation changes of the payments
pub record PaymentKey : Type 0 where
  pub payment_id : String
  pub booking_id : String
  pub created_at : ℤ

abbrev pub payment_key : Payment → PaymentKey
payment_key p = record {
  payment_id = p.payment_id;
  booking_id = p.booking_id;
  created_at = p.created_at;
}

abbrev pub payment_keys : List Payment → List PaymentKey
payment_keys [] = []
payment_keys (p ∷ ps) = payment_key p ∷ payment_keys ps

-- the refund of a payment
abbrev pub refund_for : Payment → Tables → Option Refund
refund_for p t = find_where (same_payment p.payment_id) t.refunds

-- An answer that repeats a refund that is there.
pub record Repeated (t : Tables) (p : Payment) (result : RequestRefundResult) (after : Tables)
    : Type 0 where
  pub refund : Refund
  pub there : refund_for p t ≡ some refund
  pub answered : result ≡ refund_result refund
  pub kept : after.refunds ≡ t.refunds
  pub payers : payment_keys after.payments ≡ payment_keys t.payments

abbrev ExistingOutcome : Tables → Payment → Result Error (Option RequestRefundResult) × Db → Type 0
ExistingOutcome t p (err e, db) = db.tables ≡ t
ExistingOutcome t p (ok none, db) = db.tables ≡ t
ExistingOutcome t p (ok (some result), db) = Repeated t p result db.tables

not_updated-tables : (id : String) (db : Db) → (not_updated id db).1.tables ≡ db.tables
not_updated-tables id db =
    if_rule (λ (r : Result Error (Unit {0}) × Db). r.1.tables ≡ db.tables) (next_call db.faults).0
      refl
      (if_rule (λ (r : Result Error (Unit {0}) × Db). r.1.tables ≡ db.tables)
        (any (is_payment id) db.tables.payments) refl refl)

payment_keys-update_where :
    (q : Payment → Bool) (f : Payment → Payment)
    → ((p : Payment) → payment_key (f p) ≡ payment_key p)
    → (ps : List Payment) → payment_keys (update_where q f ps) ≡ payment_keys ps
payment_keys-update_where q f same [] = refl
payment_keys-update_where q f same (p ∷ ps) = rw (payment_keys-update_where q f same ps) (
    ap (λ (k : PaymentKey). k ∷ payment_keys ps)
      (if_rule (λ (x : Payment). payment_key x ≡ payment_key p) (q p) (same p) refl))

-- The refunds and the keys of the payments are as in `t`.
abbrev IsKept : Tables → Tables → Type 0
IsKept t u = (u.refunds ≡ t.refunds) × (payment_keys u.payments ≡ payment_keys t.payments)

IsKept-same : (t u : Tables) → u ≡ t → IsKept t u
IsKept-same t u e =
    (ap (λ (v : Tables). v.refunds) e, ap (λ (v : Tables). payment_keys v.payments) e)

set_payment_status-key :
    (now : ℤ) (status : PaymentStatus) (transaction : String) (p : Payment)
    → payment_key (set_payment_status now status transaction p) ≡ payment_key p
unfolding set_payment_status
set_payment_status-key now status transaction p = refl

update_payment_status-IsKept :
    (now : ℤ) (id : String) (status : PaymentStatus) (transaction : String) (db : Db)
    → IsKept db.tables (update_payment_status now id status transaction db).1.tables
unfolding update_payment_status
update_payment_status-IsKept now id status transaction db =
    if_rule Kept (next_call db.faults).0 (refl, refl)
      (if_rule Kept (any (may_become status id) db.tables.payments)
        (
          refl,
          payment_keys-update_where (may_become status id)
              (set_payment_status now status transaction)
              (set_payment_status-key now status transaction) db.tables.payments,
        )
        (IsKept-same db.tables _
          (not_updated-tables id (record db { faults = (next_call db.faults).1 }))))
  where
    Kept : Result Error (Unit {0}) × Db → Type 0
    Kept r = IsKept db.tables r.1.tables

write_payment_history-IsKept :
    (e : PaymentStatusHistory) (db : Db) → IsKept db.tables (write_payment_history e db).tables
unfolding write_payment_history
write_payment_history-IsKept e db =
    if_rule (λ (d : Db). IsKept db.tables d.tables) (next_call db.faults).0 (refl, refl)
      (refl, refl)

write_refund_history-IsKept :
    (e : RefundStatusHistory) (db : Db) → IsKept db.tables (write_refund_history e db).tables
unfolding write_refund_history
write_refund_history-IsKept e db =
    if_rule (λ (d : Db). IsKept db.tables d.tables) (next_call db.faults).0 (refl, refl)
      (refl, refl)

IsKept-trans : (t u v : Tables) → IsKept t u → IsKept u v → IsKept t v
IsKept-trans t u v h k = (k.0 ∙ h.0, k.1 ∙ h.1)

payment_refunded-IsKept :
    (id : String) (reply : Result Error (Unit {0}) × Db)
    → IsKept reply.1.tables (payment_refunded id reply).tables
payment_refunded-IsKept id (err e, db) = (refl, refl)
payment_refunded-IsKept id (ok _, db) =
    write_payment_history-IsKept (record { payment_id = id; status = PaymentStatus.refunded }) db

refund_payment-IsKept :
    (now : ℤ) (p : Payment) (db : Db) → IsKept db.tables (refund_payment now p db).tables
unfolding refund_payment
refund_payment-IsKept now p db =
    let reply = update_payment_status now p.payment_id PaymentStatus.refunded "" db in
    IsKept-trans db.tables reply.1.tables (payment_refunded p.payment_id reply).tables
      (update_payment_status-IsKept now p.payment_id PaymentStatus.refunded "" db)
      (payment_refunded-IsKept p.payment_id reply)

found_refund-Outcome :
    (now : ℤ) (p : Payment) (t : Tables) (reply : Result Error Refund × Db)
    → Selected t (λ r. refund_for p t ≡ some r) reply
    → ExistingOutcome t p (found_refund now p reply)
found_refund-Outcome now p t (err e, db) h = if_rule (ExistingOutcome t p) (is_not_found e) h h
found_refund-Outcome now p t (ok r, db) h =
    let same = IsKept-same t db.tables h.1 in
    let after =
      if_rule (λ (d : Db). IsKept t d.tables) (is_refundable p.status)
        (IsKept-trans t db.tables (refund_payment now p db).tables same
          (refund_payment-IsKept now p db))
        same in
    record { refund = r; there = h.0; answered = refl; kept = after.0; payers = after.1 }

existing_refund_result-Outcome :
    (now : ℤ) (p : Payment) (db : Db)
    → ExistingOutcome db.tables p (existing_refund_result now p db)
unfolding existing_refund_result
existing_refund_result-Outcome now p db =
    found_refund-Outcome now p db.tables (get_refund_by_payment_id p.payment_id db) (
      query_row-Selected (λ r. refund_for p db.tables ≡ some r) Error.refund_not_found
        (refund_for p) db (λ r e. e))

-- CreateRefund inserts a row that the table accepts, or changes nothing.
abbrev pub InsertOutcome : Tables → Refund → Result Error (Unit {0}) × Db → Type 0
InsertOutcome t r (ok _, db) =
    (accepts_refund r ≡ true) × (duplicates r t.refunds ≡ false) × (db.tables ≡ insert_refund r t)
InsertOutcome t r (err e, db) = db.tables ≡ t

create_refund-Outcome : (r : Refund) (db : Db) → InsertOutcome db.tables r (create_refund r db)
unfolding create_refund
create_refund-Outcome r db = if_rule (InsertOutcome db.tables r) (next_call db.faults).0 refl (
    if_cases (InsertOutcome db.tables r) (accepts_refund r)
      (λ accepted.
        if_cases (InsertOutcome db.tables r) (duplicates r db.tables.refunds) (λ _. refl)
          (λ fresh.
            if_rule (InsertOutcome db.tables r)
              (any (λ (p : Payment). str_eq p.payment_id r.payment_id) db.tables.payments)
              (accepted, fresh, refl) refl))
      (λ _. refl))

module _ (parse : String → Option ℤ) (cfg : RefundConfig) (now : ℤ) (id reference : String)
    (input : RequestRefundInput) where
  -- An answer that reports a new refund, of a payment that is held or released.
  pub record Created (t : Tables) (p : Payment) (result : RequestRefundResult) (after : Tables)
      : Type 0 where
    pub dates : Dates
    pub dated : parse_dates parse input ≡ ok dates
    pub refundable : is_refundable p.status ≡ true
    pub accepted : accepts_refund (new_refund cfg now id reference p input dates) ≡ true
    pub fresh : duplicates (new_refund cfg now id reference p input dates) t.refunds ≡ false
    pub answered : result ≡ refund_result (new_refund cfg now id reference p input dates)
    pub inserted : after.refunds ≡ new_refund cfg now id reference p input dates ∷ t.refunds
    pub payers : payment_keys after.payments ≡ payment_keys t.payments

  abbrev pub PaymentOutcome : Tables → Payment → Result Error RequestRefundResult × Db → Type 0
  PaymentOutcome t p (err e, db) = db.tables ≡ t
  PaymentOutcome t p (ok result, db) = Repeated t p result db.tables ⊎ Created t p result db.tables

  winner-Outcome :
      (t : Tables) (p : Payment) (reply : Result Error (Option RequestRefundResult) × Db)
      → ExistingOutcome t p reply
      → PaymentOutcome t p (winner reply)
  winner-Outcome t p (err e, db) h = h
  winner-Outcome t p (ok none, db) h = h
  winner-Outcome t p (ok (some result), db) h = inl h

  refund_created-Outcome :
      (t : Tables) (p : Payment) (d : Dates) (reply : Result Error (Unit {0}) × Db)
      → parse_dates parse input ≡ ok d
      → is_refundable p.status ≡ true
      → InsertOutcome t (new_refund cfg now id reference p input d) reply
      → PaymentOutcome t p (refund_created now p (new_refund cfg now id reference p input d) reply)
  refund_created-Outcome t p d (err e, db) dated held h =
      if_rule (PaymentOutcome t p) (is_already_processed e)
        (winner-Outcome t p (existing_refund_result now p db) (
          subst (λ (u : Tables). ExistingOutcome u p (existing_refund_result now p db)) h
            (existing_refund_result-Outcome now p db)))
        h
  refund_created-Outcome t p d (ok _, db) dated held h =
      let r = new_refund cfg now id reference p input d in
      let e : RefundStatusHistory = record {
        refund_id = r.refund_id;
        status = RefundEvent.reached r.status;
        retry_count = pos 0;
      } in
      let logged = write_refund_history e db in
      let after =
        IsKept-trans db.tables logged.tables (refund_payment now p logged).tables
          (write_refund_history-IsKept e db) (refund_payment-IsKept now p logged) in
      inr (record {
        dates = d;
        dated = dated;
        refundable = held;
        accepted = h.0;
        fresh = h.1;
        answered = refl;
        inserted = after.0 ∙ ap (λ (u : Tables). u.refunds) h.2;
        payers = after.1 ∙ ap (λ (u : Tables). payment_keys u.payments) h.2;
      })

  create_dated-Outcome :
      (p : Payment) (dates : Result Error Dates) (db : Db)
      → parse_dates parse input ≡ dates
      → is_refundable p.status ≡ true
      → PaymentOutcome db.tables p (create_dated cfg now id reference p input dates db)
  create_dated-Outcome p (err e) db dated held = refl
  create_dated-Outcome p (ok d) db dated held =
      refund_created-Outcome db.tables p d
        (create_refund (new_refund cfg now id reference p input d) db) dated held
        (create_refund-Outcome (new_refund cfg now id reference p input d) db)

  if_not_refunded-Outcome :
      (t : Tables) (p : Payment) (reply : Result Error (Option RequestRefundResult) × Db)
      → ExistingOutcome t p reply
      → PaymentOutcome t p (if_not_refunded parse cfg now id reference input p reply)
  if_not_refunded-Outcome t p (err e, db) h = h
  if_not_refunded-Outcome t p (ok (some result), db) h = inl h
  if_not_refunded-Outcome t p (ok none, db) h =
      if_cases (PaymentOutcome t p) (is_refundable p.status)
        (λ held.
          subst
            (λ (u : Tables).
              PaymentOutcome u p
                (create_dated cfg now id reference p input (parse_dates parse input) db))
            h (create_dated-Outcome p (parse_dates parse input) db refl held))
        (λ _. h)

  -- RequestRefund of the payment of the booking: an error leaves the tables as they were, an answer
  -- repeats the refund of the payment, or reports the new one.
  abbrev pub RequestOutcome : Tables → Result Error RequestRefundResult × Db → Type 0
  RequestOutcome t (err e, db) = db.tables ≡ t
  RequestOutcome t (ok result, db) =
      (p : Payment) × (latest none (payments_of input.booking_id t.payments) ≡ some p)
      × (Repeated t p result db.tables ⊎ Created t p result db.tables)

  of_payment :
      (t : Tables) (p : Payment) (reply : Result Error RequestRefundResult × Db)
      → latest none (payments_of input.booking_id t.payments) ≡ some p
      → PaymentOutcome t p reply
      → RequestOutcome t reply
  of_payment t p (err e, db) found h = h
  of_payment t p (ok result, db) found h = (p, found, h)

  for_payment-Outcome :
      (t : Tables) (reply : Result Error Payment × Db)
      → Selected t (λ p. latest none (payments_of input.booking_id t.payments) ≡ some p) reply
      → RequestOutcome t (for_payment parse cfg now id reference input reply)
  unfolding create_refund_for_payment
  for_payment-Outcome t (err e, db) h = h
  for_payment-Outcome t (ok p, db) h = of_payment t p _ h.0 (
      if_not_refunded-Outcome t p (existing_refund_result now p db) (
        subst (λ (u : Tables). ExistingOutcome u p (existing_refund_result now p db)) h.1
          (existing_refund_result-Outcome now p db)))

  pub request_refund-Outcome :
      (db : Db) → RequestOutcome db.tables (request_refund parse cfg now id reference input db)
  unfolding request_refund
  request_refund-Outcome db =
      if_rule (RequestOutcome db.tables) (is_valid input.refund_reason)
        (for_payment-Outcome db.tables (get_payment_by_booking_id input.booking_id db) (
          query_row-Selected
            (λ p. latest none (payments_of input.booking_id db.tables.payments) ≡ some p)
            Error.payment_not_found (λ t. latest none (payments_of input.booking_id t.payments)) db
            (λ p e. e)))
        refl
