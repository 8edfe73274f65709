-- ===== src/Payment/RefundRules/Choice.antt =====
-- Which rule determine_refund_rule picks, and what the passenger then receives.
use tissi_mah.Prelude.{
  ℤ, pos, ◌≤ℤ◌, ltb_ℤ, quot2, quot2_bounds, ◌≡◌, ◌≢◌, ◌↔◌, ℕ, arith, Bool, true, false, Option,
  none, some, ◌||◌, if◌then◌else◌,
}
use tissi_mah.Payment.Domain.{RefundReason}
use tissi_mah.Payment.RefundRules.{
  RefundConfig, RefundCalculation, full_refund_deadline, grace_period_end, determine_refund_rule,
  calculate_refund,
}

-- What a refund request leads to, as createRefundForPayment chains the two functions.
pub settle : RefundReason → ℤ → Option ℤ → ℤ → RefundConfig → ℤ → ℤ → RefundCalculation
settle reason departure approved cancelled cfg original fee =
    calculate_refund original fee (determine_refund_rule reason departure approved cancelled cfg)

-- The service fee is refunded exactly when the passenger did neither cancel nor fail to show up.
pub settle-fee_refunded :
    (reason : RefundReason) (departure : ℤ) (approved : Option ℤ) (cancelled : ℤ)
    (cfg : RefundConfig) (original fee : ℤ)
    → ((settle reason departure approved cancelled cfg original fee).service_fee_refunded ≡ true)
      ↔ ((reason ≢ RefundReason.cancelled_by_passenger) × (reason ≢ RefundReason.no_show_passenger))
unfolding settle determine_refund_rule calculate_refund
settle-fee_refunded r d none c cfg o f = ground arith
settle-fee_refunded r d (some a) c cfg o f = ground arith

abbrev pub in_grace : Option ℤ → ℤ → RefundConfig → Bool
in_grace none cancelled cfg = false
in_grace (some approved) cancelled cfg = ltb_ℤ cancelled (grace_period_end approved cfg)

-- A passenger who cancels receives the amount before the 24 hours' deadline or within the grace
-- period after the driver's approval, and half of it otherwise.
pub settle-cancelled_by_passenger :
    (departure : ℤ) (approved : Option ℤ) (cancelled : ℤ) (cfg : RefundConfig) (original fee : ℤ)
    → (settle RefundReason.cancelled_by_passenger departure approved cancelled cfg original
        fee).amount_to_passenger
      ≡ (if ltb_ℤ cancelled (full_refund_deadline departure cfg) || in_grace approved cancelled cfg
          then original
          else quot2 original)
unfolding settle determine_refund_rule calculate_refund
settle-cancelled_by_passenger d none c cfg o f = ground arith
settle-cancelled_by_passenger d (some a) c cfg o f = ground arith

-- For an amount that is not negative, a passenger who cancels later never receives more.
pub settle_antitone :
    (departure : ℤ) (approved : Option ℤ) (c₁ c₂ : ℤ) (cfg : RefundConfig) (original : ℕ) (fee : ℤ)
    → c₁ ≤ℤ c₂
    → (settle RefundReason.cancelled_by_passenger departure approved c₂ cfg
        (pos original)
        fee).amount_to_passenger
      ≤ℤ (settle RefundReason.cancelled_by_passenger departure approved c₁ cfg
          (pos original)
          fee).amount_to_passenger
unfolding settle determine_refund_rule calculate_refund
settle_antitone d none c₁ c₂ cfg o f h = ground (arith, quot2_bounds o)
settle_antitone d (some a) c₁ c₂ cfg o f h = ground (arith, quot2_bounds o)
