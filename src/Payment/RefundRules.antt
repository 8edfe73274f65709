-- ===== src/Payment/RefundRules.antt =====
-- services/payment-service/internal/service/refund_rules.go: which rule a refund follows, and how
-- the amount that was paid is split between passenger, driver and platform.
-- Amounts are Go's 64-bit `int`, with their wrap-around; an instant (`time.Time`) is an integer, the
-- nanoseconds from a fixed origin, and a `time.Duration` is an `int64` of nanoseconds.
pub mod Conservation
pub mod Choice
use tissi_mah.Prelude.{
  ℤ, pos, ◌+ℤ◌, ◌-ℤ◌, ◌*ℤ◌, int64, ltb_ℤ, quot2, ℕ, Bool, true, false, Option, none, some,
  if◌then◌else◌,
}
use tissi_mah.Payment.Domain.{RefundReason, RefundRule}

-- The fields of `config.RefundConfig` that the rules read.
pub record RefundConfig : Type 0 where
  pub cancellation_full_refund_hours : ℤ
  pub cancellation_grace_period_minutes : ℤ

pub record RefundCalculation : Type 0 where
  pub refund_percentage : ℤ
  pub refund_amount : ℤ
  pub service_fee_refunded : Bool
  pub amount_to_passenger : ℤ
  pub amount_to_driver : ℤ
  pub amount_to_platform : ℤ

-- time.Hour and time.Minute
abbrev pub hour : ℤ
hour = pos 3_600_000_000_000

abbrev pub minute : ℤ
minute = pos 60_000_000_000

-- `departureDatetime.Add(-time.Duration(h) * time.Hour)`
unfoldable pub full_refund_deadline : ℤ → RefundConfig → ℤ
full_refund_deadline departure cfg =
    departure +ℤ int64 (int64 (pos 0 -ℤ cfg.cancellation_full_refund_hours) *ℤ hour)

-- `approvedAt.Add(time.Duration(m) * time.Minute)`
unfoldable pub grace_period_end : ℤ → RefundConfig → ℤ
grace_period_end approved cfg = approved +ℤ int64 (cfg.cancellation_grace_period_minutes *ℤ minute)

-- the part of the passenger's case that follows the 24 hours' test
within_grace : Option ℤ → ℤ → RefundConfig → RefundRule
within_grace none cancelled cfg = RefundRule.cancelled_over_30min_after_approval
within_grace (some approved) cancelled cfg =
    if ltb_ℤ cancelled (grace_period_end approved cfg)
    then RefundRule.cancelled_30min_after_approval
    else RefundRule.cancelled_over_30min_after_approval

unfoldable pub determine_refund_rule : RefundReason → ℤ → Option ℤ → ℤ → RefundConfig → RefundRule
unfolding within_grace
determine_refund_rule RefundReason.cancelled_by_driver _ _ _ _ = RefundRule.driver_cancellation
determine_refund_rule RefundReason.no_show_driver _ _ _ _ = RefundRule.no_show_driver
determine_refund_rule RefundReason.no_show_passenger _ _ _ _ = RefundRule.no_show_passenger
determine_refund_rule RefundReason.cancelled_by_passenger departure approved cancelled cfg =
    if ltb_ℤ cancelled (full_refund_deadline departure cfg)
    then RefundRule.cancelled_24h_before
    else within_grace approved cancelled cfg
determine_refund_rule _ _ _ _ _ = RefundRule.driver_cancellation

full_refund : ℤ → RefundCalculation
full_refund total = record {
  refund_percentage = pos 100;
  refund_amount = total;
  service_fee_refunded = true;
  amount_to_passenger = total;
  amount_to_driver = pos 0;
  amount_to_platform = pos 0;
}

amount_refund : ℤ → ℤ → RefundCalculation
amount_refund original fee = record {
  refund_percentage = pos 100;
  refund_amount = original;
  service_fee_refunded = false;
  amount_to_passenger = original;
  amount_to_driver = pos 0;
  amount_to_platform = fee;
}

half_refund : ℤ → ℤ → ℤ → RefundCalculation
half_refund original fee half = record {
  refund_percentage = pos 50;
  refund_amount = half;
  service_fee_refunded = false;
  amount_to_passenger = half;
  amount_to_driver = int64 (original -ℤ half);
  amount_to_platform = fee;
}

no_refund : ℤ → ℤ → RefundCalculation
no_refund driver platform = record {
  refund_percentage = pos 0;
  refund_amount = pos 0;
  service_fee_refunded = false;
  amount_to_passenger = pos 0;
  amount_to_driver = driver;
  amount_to_platform = platform;
}

unfoldable pub calculate_refund : ℤ → ℤ → RefundRule → RefundCalculation
unfolding full_refund amount_refund half_refund no_refund
calculate_refund original fee RefundRule.driver_cancellation = full_refund (int64 (original +ℤ fee))
calculate_refund original fee RefundRule.no_show_driver = full_refund (int64 (original +ℤ fee))
calculate_refund original fee RefundRule.cancelled_24h_before = amount_refund original fee
calculate_refund original fee RefundRule.cancelled_30min_after_approval = amount_refund original fee
calculate_refund original fee RefundRule.cancelled_over_30min_after_approval =
    half_refund original fee (quot2 original)
calculate_refund original fee RefundRule.no_show_passenger = no_refund original fee
calculate_refund original fee _ = no_refund (pos 0) (int64 (original +ℤ fee))
