-- ===== src/Payment/Tests.antt =====
-- Concrete refunds and payment windows, and uses of the theorems at concrete inputs.
mod Refunds
use tissi_mah.Prelude.{
  ℕ, ℤ, pos, ◌+ℤ◌, ◌≤ℤ◌, ltb_ℤ, int64, quot2, true, ◌||◌, none, some, ◌≡◌, ◌≢◌, ◌↔◌, refl, ◌<◌, ◌+◌,
  ◌-◌, ◌%◌, arith, if◌then◌else◌,
}
use tissi_mah.Payment.Domain.{RefundReason, RefundRule}
use tissi_mah.Payment.RefundRules.{RefundConfig, calculate_refund, full_refund_deadline}
use tissi_mah.Payment.RefundRules.Conservation.{
  shares, shares-calculate_refund, IsSound, calculate_refund-IsSound,
}
use tissi_mah.Payment.RefundRules.Choice.{
  settle, settle-fee_refunded, in_grace, settle-cancelled_by_passenger, settle_antitone,
}
use tissi_mah.Payment.Window.{is_open, daily, window_length, is_open_iff}

abbrev config : RefundConfig
config = record {
  cancellation_full_refund_hours = pos 24;
  cancellation_grace_period_minutes = pos 30;
}

shares-calculate_refund_example :
    shares (calculate_refund (pos 2_001) (pos 200) RefundRule.cancelled_over_30min_after_approval)
    ≡ int64 (pos 2_001 +ℤ pos 200)
shares-calculate_refund_example =
    shares-calculate_refund (pos 2_001) (pos 200) RefundRule.cancelled_over_30min_after_approval

calculate_refund-IsSound_example :
    IsSound
      (pos 2_001)
      (pos 200)
      (calculate_refund (pos 2_001) (pos 200) RefundRule.cancelled_over_30min_after_approval)
calculate_refund-IsSound_example =
    calculate_refund-IsSound 2_001 200 RefundRule.cancelled_over_30min_after_approval (omega arith)

-- a departure two days after the origin of time
abbrev departure : ℤ
departure = pos 172_800_000_000_000

abbrev noon : ℤ
noon = pos 43_200_000_000_000

settle-fee_refunded_example :
    ((settle RefundReason.no_show_driver departure none noon config
        (pos 2_001)
        (pos 200)).service_fee_refunded
      ≡ true)
    ↔ ((RefundReason.no_show_driver ≢ RefundReason.cancelled_by_passenger)
        × (RefundReason.no_show_driver ≢ RefundReason.no_show_passenger))
settle-fee_refunded_example =
    settle-fee_refunded RefundReason.no_show_driver departure none noon config (pos 2_001) (pos 200)

settle-cancelled_by_passenger_example :
    (settle RefundReason.cancelled_by_passenger departure
      (some noon)
      noon
      config
      (pos 2_001)
      (pos 200)).amount_to_passenger
    ≡ (if ltb_ℤ noon (full_refund_deadline departure config) || in_grace (some noon) noon config
        then pos 2_001
        else quot2 (pos 2_001))
settle-cancelled_by_passenger_example =
    settle-cancelled_by_passenger departure (some noon) noon config (pos 2_001) (pos 200)

settle_antitone_example :
    (settle RefundReason.cancelled_by_passenger departure none departure config
      (pos 2_001)
      (pos 200)).amount_to_passenger
    ≤ℤ (settle RefundReason.cancelled_by_passenger departure none noon config
        (pos 2_001)
        (pos 200)).amount_to_passenger
settle_antitone_example =
    settle_antitone departure none noon departure config 2_001 (pos 200) (omega arith)

-- a clock in whole hours, in one place
abbrev clock : Unit {0} → ℕ → ℤ
clock _ t = pos (t % 24)

-- from 22 h to 6 h, at 3 h
is_open_iff_example :
    (is_open clock (daily tt 22 6) 27 ≡ true) ↔ ((3 + 24 - 22) % 24 < window_length 22 6)
is_open_iff_example = is_open_iff clock tt 27 22 6 3 refl (omega arith) (omega arith) (omega arith)
