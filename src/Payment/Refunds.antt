-- ===== src/Payment/Refunds.antt =====
-- services/payment-service/internal/service/payment_service_impl.go: RequestRefund, which booking-service
-- calls again until it gets an answer. The repositories are configured; the notification and the
-- invalidation of cached pages are left out. `parse` is time.Parse of RFC 3339 texts, and the
-- identifiers of a new refund are arguments. The origin of the instants is Go's zero time.
pub mod Outcome
use tissi_mah.Prelude.{
  ℤ, pos, eqb_ℤ, String, str_eq, Bool, true, false, not, ◌||◌, Option, none, some, if◌then◌else◌,
}
use tissi_mah.Prelude.Result.{Result, ok, err}
use tissi_mah.Payment.Domain.{
  Payment, PaymentStatus, Refund, RefundReason, RefundRule, RefundStatus, RefundEvent,
  RefundStatusHistory, PaymentStatusHistory, Error, is_valid,
}
use tissi_mah.Payment.RefundRules.{
  RefundConfig, RefundCalculation, determine_refund_rule, calculate_refund,
}
use tissi_mah.Payment.Store.{Db, Action, write_refund_history, write_payment_history}
use tissi_mah.Payment.Repository.Refunds.{create_refund, get_refund_by_payment_id}
use tissi_mah.Payment.Repository.Payments.{get_payment_by_booking_id, update_payment_status}

pub record RequestRefundInput : Type 0 where
  pub booking_id : String
  pub refund_reason : RefundReason
  pub original_amount : ℤ
  pub service_fee : ℤ
  pub departure_datetime : String
  pub cancelled_at : String
  pub approved_at : String

pub record RequestRefundResult : Type 0 where
  pub refund_id : String
  pub refund_reference : String
  pub status : RefundStatus
  pub refund_amount : ℤ

abbrev pub refund_result : Refund → RequestRefundResult
refund_result r = record {
  refund_id = r.refund_id;
  refund_reference = r.refund_reference;
  status = r.status;
  refund_amount = r.refund_amount;
}

-- the status held or released
abbrev pub is_refundable : PaymentStatus → Bool
is_refundable PaymentStatus.held = true
is_refundable PaymentStatus.released = true
is_refundable _ = false

abbrev pub payment_refunded : String → Result Error (Unit {0}) × Db → Db
payment_refunded id (err e, db) = db
payment_refunded id (ok _, db) =
    write_payment_history (record { payment_id = id; status = PaymentStatus.refunded }) db

-- the payment becomes `refunded`; a failure is only logged
unfoldable pub refund_payment : ℤ → Payment → Db → Db
refund_payment now p db =
    payment_refunded p.payment_id
      (update_payment_status now p.payment_id PaymentStatus.refunded "" db)

-- `errors.Is(err, ErrorRefundNotFound)` and `errors.Is(err, ErrorRefundAlreadyProcessed)`
abbrev pub is_not_found : Error → Bool
is_not_found Error.refund_not_found = true
is_not_found _ = false

abbrev pub is_already_processed : Error → Bool
is_already_processed Error.refund_already_processed = true
is_already_processed _ = false

abbrev pub found_refund :
    ℤ → Payment → Result Error Refund × Db → Result Error (Option RequestRefundResult) × Db
found_refund now p (err e, db) = if is_not_found e then (ok none, db) else (err e, db)
found_refund now p (ok r, db) =
    (ok (some (refund_result r)), if is_refundable p.status then refund_payment now p db else db)

-- existingRefundResult
unfoldable pub existing_refund_result : ℤ → Payment → Action (Option RequestRefundResult)
existing_refund_result now p db = found_refund now p (get_refund_by_payment_id p.payment_id db)

abbrev needs_departure : RefundReason → Bool
needs_departure RefundReason.cancelled_by_passenger = true
needs_departure _ = false

abbrev valid_date : Option ℤ → Result Error ℤ
valid_date none = err Error.invalid_input
valid_date (some t) = ok t

-- the dates of a request: departure, cancellation, approval
pub record Dates : Type 0 where
  pub departure : ℤ
  pub cancelled : ℤ
  pub approved : Option ℤ

abbrev dated : Result Error ℤ → Result Error ℤ → Result Error (Option ℤ) → Result Error Dates
dated (err e) c a = err e
dated (ok d) (err e) a = err e
dated (ok d) (ok c) (err e) = err e
dated (ok d) (ok c) (ok a) = ok (record { departure = d; cancelled = c; approved = a })

abbrev optional_date : (String → Option ℤ) → String → Result Error (Option ℤ)
optional_date parse text =
    if str_eq text ""
    then ok none
    else elim (parse text) [ none ↦ err Error.invalid_input | some t ↦ ok (some t) ]

unfoldable pub parse_dates : (String → Option ℤ) → RequestRefundInput → Result Error Dates
parse_dates parse input =
    dated
      (if not (str_eq input.departure_datetime "") || needs_departure input.refund_reason
        then valid_date (parse input.departure_datetime)
        else ok (pos 0))
      (valid_date (parse input.cancelled_at)) (optional_date parse input.approved_at)

-- The refund that a request creates. Nothing is transferred where the passenger receives nothing.
abbrev pub initial_status : ℤ → RefundStatus
initial_status to_passenger =
    if eqb_ℤ to_passenger (pos 0) then RefundStatus.completed else RefundStatus.pending

abbrev pub refund_of :
    ℤ → String → String → Payment → RequestRefundInput → RefundRule → RefundCalculation → Refund
refund_of now id reference p input rule calc = record {
  refund_id = id;
  refund_reference = reference;
  payment_id = p.payment_id;
  booking_id = input.booking_id;
  refund_reason = input.refund_reason;
  refund_rule_applied = rule;
  original_amount = input.original_amount;
  refund_percentage = calc.refund_percentage;
  refund_amount = calc.refund_amount;
  service_fee_refunded = calc.service_fee_refunded;
  amount_to_passenger = calc.amount_to_passenger;
  amount_to_driver = calc.amount_to_driver;
  amount_to_platform = calc.amount_to_platform;
  status = initial_status calc.amount_to_passenger;
  refund_method = p.payment_method;
  processed_at = some now;
  completed_at = if eqb_ℤ calc.amount_to_passenger (pos 0) then some now else none;
  payout_destination = p.passenger_phone_number;
  payment_provider = "fedapay";
  payment_provider_reference = none;
  failure_reason = none;
  retry_count = pos 0;
  last_retry_at = none;
  updated_at = now;
}

abbrev pub rule_of : RefundConfig → RequestRefundInput → Dates → RefundRule
rule_of cfg input d =
    determine_refund_rule input.refund_reason d.departure d.approved d.cancelled cfg

abbrev pub new_refund :
    RefundConfig → ℤ → String → String → Payment → RequestRefundInput → Dates → Refund
new_refund cfg now id reference p input d =
    refund_of now id reference p input (rule_of cfg input d)
      (calculate_refund input.original_amount input.service_fee (rule_of cfg input d))

-- a concurrent request has created the refund: its result is returned
abbrev pub winner :
    Result Error (Option RequestRefundResult) × Db → Result Error RequestRefundResult × Db
winner (err e, db) = (err e, db)
winner (ok none, db) = (err Error.refund_already_processed, db)
winner (ok (some result), db) = (ok result, db)

abbrev pub refund_created :
    ℤ → Payment → Refund → Result Error (Unit {0}) × Db → Result Error RequestRefundResult × Db
refund_created now p r (err e, db) =
    if is_already_processed e then winner (existing_refund_result now p db) else (err e, db)
refund_created now p r (ok _, db) = (
  ok (refund_result r),
  refund_payment now p (
      write_refund_history
        (record {
          refund_id = r.refund_id;
          status = RefundEvent.reached r.status;
          retry_count = pos 0;
        })
        db),
)

-- from the dates of the request on
abbrev pub create_dated :
    RefundConfig
    → ℤ
    → String
    → String
    → Payment
    → RequestRefundInput
    → Result Error Dates
    → Action RequestRefundResult
create_dated cfg now id reference p input (err e) db = (err e, db)
create_dated cfg now id reference p input (ok d) db =
    let r = new_refund cfg now id reference p input d in refund_created now p r (create_refund r db)

module _ (parse : String → Option ℤ) (cfg : RefundConfig) (now : ℤ) (id reference : String)
    (input : RequestRefundInput) where
  abbrev pub if_not_refunded :
      Payment
      → Result Error (Option RequestRefundResult) × Db
      → Result Error RequestRefundResult × Db
  if_not_refunded p (err e, db) = (err e, db)
  if_not_refunded p (ok (some result), db) = (ok result, db)
  if_not_refunded p (ok none, db) =
      if is_refundable p.status
      then create_dated cfg now id reference p input (parse_dates parse input) db
      else (err Error.invalid_payment_status, db)

  -- createRefundForPayment
  unfoldable pub create_refund_for_payment : Payment → Action RequestRefundResult
  create_refund_for_payment p db = if_not_refunded p (existing_refund_result now p db)

  abbrev pub for_payment : Result Error Payment × Db → Result Error RequestRefundResult × Db
  for_payment (err e, db) = (err e, db)
  for_payment (ok p, db) = create_refund_for_payment p db

  -- RequestRefund
  unfoldable pub request_refund : Action RequestRefundResult
  request_refund db =
      if is_valid input.refund_reason
      then for_payment (get_payment_by_booking_id input.booking_id db)
      else (err Error.invalid_input, db)
