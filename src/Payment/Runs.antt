-- ===== src/Payment/Runs.antt =====
-- Runs of payment-service: the calls that change refunds, one after the other, in any order, each with
-- any arguments, answers of other services and failing calls of the driver.
pub mod Health
pub mod Replay
pub mod Settling
use tissi_mah.Prelude.{ℤ, ℕ, String, Bool, Option, List, [], ◌∷◌}
use tissi_mah.Payment.RefundRules.{RefundConfig}
use tissi_mah.Payment.Refunds.{RequestRefundInput, RequestRefundResult, request_refund}
use tissi_mah.Payment.Store.{Action}
use tissi_mah.Payment.Transfers.Journal.{Clients, State}
use tissi_mah.Payment.Transfers.Worker.{process_pending_refunds}
use tissi_mah.Payment.Transfers.Confirmation.{confirm_provider_payout, reconcile_provider_payouts}

-- a call of RequestRefund, with time.Parse, the clock and the identifiers of a new refund
pub record Request : Type 0 where
  pub parse : String → Option ℤ
  pub cfg : RefundConfig
  pub now : ℤ
  pub refund_id : String
  pub refund_reference : String
  pub input : RequestRefundInput

abbrev pub ask : Request → Action RequestRefundResult
ask q = request_refund q.parse q.cfg q.now q.refund_id q.refund_reference q.input

pub data Command : Type 0 where
  request : Request → Command
  process : ℤ → Clients → ℕ → Command
  confirm : ℤ → Clients → ℤ → Command
  reconcile : ℤ → Clients → Command

pub record Call : Type 0 where
  pub faults : List Bool
  pub command : Command

abbrev pub with_faults : List Bool → State → State
with_faults fs s = record s { db = record (s.db) { faults = fs } }

-- `configured` is REFUND_MAX_RETRIES.
abbrev pub execute : ℤ → Command → State → State
execute configured (request q) s = record s { db = (ask q s.db).1 }
execute configured (process now k limit) s = process_pending_refunds now k configured limit s
execute configured (confirm now k p) s = (confirm_provider_payout now k p s).1
execute configured (reconcile now k) s = reconcile_provider_payouts now k s

unfoldable pub run : ℤ → List Call → State → State
run configured [] s = s
run configured (c ∷ cs) s =
    run configured cs (execute configured c.command (with_faults c.faults s))
