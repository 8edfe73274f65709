-- ===== src/Payment/RefundRules/Conservation.antt =====
-- What calculate_refund does with the money.
use tissi_mah.Prelude.{
  ℤ, pos, ◌+ℤ◌, ◌-ℤ◌, ◌≤ℤ◌, int64, wrap_laws, quot2, ◌≡◌, ℕ, ◌+◌, ◌-◌, ◌/◌, ◌<◌, ◌^◌, ◌≤◌, arith,
}
use tissi_mah.Payment.Domain.{RefundRule}
use tissi_mah.Payment.RefundRules.{RefundCalculation, calculate_refund}

-- the three shares, added up as Go adds
abbrev pub shares : RefundCalculation → ℤ
shares c = int64 (int64 (c.amount_to_passenger +ℤ c.amount_to_driver) +ℤ c.amount_to_platform)

-- Under every rule, the shares of passenger, driver and platform add up to the amount and the fee
-- that were paid, for all inputs, those whose sum overflows a 64-bit `int` included.
pub shares-calculate_refund :
    (original fee : ℤ) (rule : RefundRule)
    → shares (calculate_refund original fee rule) ≡ int64 (original +ℤ fee)
unfolding calculate_refund
shares-calculate_refund o f RefundRule.driver_cancellation = simp wrap_laws
shares-calculate_refund o f _ = simp wrap_laws

-- What a calculation has to satisfy to be paid out: no share is negative, the refund that is
-- announced is what the passenger receives, and the shares add up with no wrap-around.
pub record IsSound (original fee : ℤ) (c : RefundCalculation) : Type 0 where
  pub passenger_nonneg : pos 0 ≤ℤ c.amount_to_passenger
  pub driver_nonneg : pos 0 ≤ℤ c.amount_to_driver
  pub platform_nonneg : pos 0 ≤ℤ c.amount_to_platform
  pub announced : c.refund_amount ≡ c.amount_to_passenger
  pub complete :
      c.amount_to_passenger +ℤ c.amount_to_driver +ℤ c.amount_to_platform ≡ original +ℤ fee

int64-add_fits : (a b : ℕ) → a + b < 2 ^ 63 → int64 (pos a +ℤ pos b) ≡ pos (a + b)
unfolding int64 ◌+ℤ◌
int64-add_fits a b h = ground arith

int64-sub_fits : (a b : ℕ) → b ≤ a → a < 2 ^ 63 → int64 (pos a -ℤ pos b) ≡ pos (a - b)
unfolding int64 ◌-ℤ◌
int64-sub_fits a b h k = ground arith

-- For an amount and a fee that are not negative and whose sum fits a 64-bit `int`, every rule gives
-- shares that are not negative and add up exactly, and announces what the passenger receives.
pub calculate_refund-IsSound :
    (o f : ℕ) (rule : RefundRule)
    → o + f < 2 ^ 63
    → IsSound (pos o) (pos f) (calculate_refund (pos o) (pos f) rule)
unfolding calculate_refund quot2 ◌+ℤ◌
calculate_refund-IsSound o f RefundRule.driver_cancellation h = ground (arith, int64-add_fits o f h)
calculate_refund-IsSound o f RefundRule.cancelled_over_30min_after_approval h =
    ground (arith, int64-sub_fits o (o / 2))
calculate_refund-IsSound o f _ h = ground (arith, int64-add_fits o f h)
