-- ===== src/Payment/Domain.antt =====
-- services/payment-service/internal/domain/payment.go: payments, refunds and their histories, and the
-- sentinel errors of services/payment-service/pkg/errors.
-- Go's enumerations are strings; a value that no constant names is `custom`.
use tissi_mah.Prelude.{ℤ, String, Bool, true, false, Option}

pub data PaymentStatus : Type 0 where
  pending held released paid_out failed refunded : PaymentStatus

pub data RefundReason : Type 0 where
  cancelled_by_driver cancelled_by_passenger : RefundReason
  no_show_driver no_show_passenger : RefundReason
  trip_cancelled waypoint_cancelled booking_rejected : RefundReason
  dispute seats_unavailable booking_unavailable other : RefundReason
  custom : String → RefundReason

-- `IsValid`: the reason is one of `refundReasons`.
unfoldable pub is_valid : RefundReason → Bool
is_valid (custom _) = false
is_valid _ = true

pub data RefundRule : Type 0 where
  cancelled_24h_before cancelled_30min_after_approval : RefundRule
  cancelled_over_30min_after_approval driver_cancellation : RefundRule
  no_show_driver no_show_passenger : RefundRule
  custom : String → RefundRule

pub data PaymentMethod : Type 0 where
  mobile_money card paypal : PaymentMethod

-- The texts that the code only copies to the provider's page are left out.
pub record Payment : Type 0 where
  pub payment_id : String
  pub booking_id : String
  pub trip_id : String
  pub amount : ℤ
  pub payment_method : PaymentMethod
  pub status : PaymentStatus
  pub external_transaction_id : String
  pub passenger_phone_number : String
  pub created_at : ℤ
  pub completed_at : Option ℤ
  pub updated_at : ℤ

pub data RefundStatus : Type 0 where
  pending processing completed failed : RefundStatus

pub RefundStatus-discrete : Discrete RefundStatus
RefundStatus-discrete = hlevel

-- The reference of the provider's payout is the decimal text of its number: the number stands for
-- it, and no number for the empty text.
pub record Refund : Type 0 where
  pub refund_id : String
  pub refund_reference : String
  pub payment_id : String
  pub booking_id : String
  pub refund_reason : RefundReason
  pub refund_rule_applied : RefundRule
  pub original_amount : ℤ
  pub refund_percentage : ℤ
  pub refund_amount : ℤ
  pub service_fee_refunded : Bool
  pub amount_to_passenger : ℤ
  pub amount_to_driver : ℤ
  pub amount_to_platform : ℤ
  pub status : RefundStatus
  pub refund_method : PaymentMethod
  pub processed_at : Option ℤ
  pub completed_at : Option ℤ
  pub payout_destination : String
  pub payment_provider : String
  pub payment_provider_reference : Option ℤ
  pub failure_reason : Option String
  pub retry_count : ℤ
  pub last_retry_at : Option ℤ
  pub updated_at : ℤ

-- What no operation changes of a refund: its identity, and who receives what.
pub record Terms : Type 0 where
  pub refund_id : String
  pub refund_reference : String
  pub payment_id : String
  pub booking_id : String
  pub refund_amount : ℤ
  pub amount_to_passenger : ℤ
  pub amount_to_driver : ℤ
  pub amount_to_platform : ℤ

abbrev pub terms : Refund → Terms
terms r = record {
  refund_id = r.refund_id;
  refund_reference = r.refund_reference;
  payment_id = r.payment_id;
  booking_id = r.booking_id;
  refund_amount = r.refund_amount;
  amount_to_passenger = r.amount_to_passenger;
  amount_to_driver = r.amount_to_driver;
  amount_to_platform = r.amount_to_platform;
}

-- the events of the history of a refund
pub data RefundEvent : Type 0 where
  reached : RefundStatus → RefundEvent
  retry_scheduled payout_started : RefundEvent

-- The identifiers, the origins, the times and the notes of the entries of a history are left out.
pub record RefundStatusHistory : Type 0 where
  pub refund_id : String
  pub status : RefundEvent
  pub retry_count : ℤ

pub record PaymentStatusHistory : Type 0 where
  pub payment_id : String
  pub status : PaymentStatus

-- The errors of the modelled code.
pub data Error : Type 0 where
  internal_server invalid_input data_retrieval_failed : Error
  payment_not_found payment_already_processed invalid_payment_status : Error
  refund_not_found refund_already_processed : Error
  payout_not_found payout_already_processed : Error
  feda_pay_api_error : Error
