-- ===== src/Payment/Transfers/Confirmation.antt =====
-- services/payment-service/internal/service: payout_confirmation.go and the part on refunds of
-- payout_reconciler.go. A payout that is no refund's is a driver's: its part is left out.
pub mod Effect
pub mod Sound
pub mod Traced
use tissi_mah.Prelude.{
  ℤ, pos, negsuc, ◌+ℤ◌, ◌-ℤ◌, leb_ℤ, ℕ, int16, String, Bool, true, false, Option, none, some, List,
  [], ◌∷◌, ◌==◌, if◌then◌else◌,
}
use tissi_mah.Prelude.Result.{Result, ok, err}
use tissi_mah.Payment.Domain.{Refund, RefundStatus, RefundEvent, Error}
use tissi_mah.Payment.Store.{Db, write_refund_history}
use tissi_mah.Payment.Repository.Refunds.{
  mark_refund_completed, mark_refund_payout_failed, get_refund_by_provider_reference,
  get_processing_refunds_to_reconcile,
}
use tissi_mah.Payment.Transfers.Journal.{
  PayoutItem, PayoutItemStatus, Transfer, reported, Clients, State,
}
use tissi_mah.Payment.Transfers.Worker.{entry}

-- ErrorRefundAlreadyProcessed is no error
abbrev pub tolerated : Error → Result Error (Unit {0})
tolerated Error.refund_already_processed = ok tt
tolerated e = err e

-- The history is written after a success.
abbrev pub applied :
    Refund → RefundEvent → ℤ → Result Error (Unit {0}) × Db → Result Error (Unit {0}) × Db
applied r event retries (err e, db) = (tolerated e, db)
applied r event retries (ok _, db) = (ok tt, write_refund_history (entry r event retries) db)

abbrev pub apply_status :
    ℤ → Refund → ℤ → String → PayoutItemStatus → Db → Result Error (Unit {0}) × Db
apply_status now r p reason PayoutItemStatus.sent db =
    applied r (RefundEvent.reached RefundStatus.completed) r.retry_count
      (mark_refund_completed now r.refund_id p db)
apply_status now r p reason PayoutItemStatus.failed db =
    applied r RefundEvent.retry_scheduled (int16 (r.retry_count +ℤ pos 1))
      (mark_refund_payout_failed now r.refund_id reason db)
apply_status now r p reason (PayoutItemStatus.other _) db = (ok tt, db)

-- applyRefundPayoutStatus
unfoldable pub apply_refund_payout_status :
    ℤ → Refund → PayoutItem → Db → Result Error (Unit {0}) × Db
apply_refund_payout_status now r item db =
    apply_status now r item.id item.fail_reason item.status db

abbrev pub journaled :
    List Transfer → Result Error (Unit {0}) × Db → Result Error (Unit {0}) × State
journaled j (answer, db) = (answer, record { db = db; journal = j })

module _ (now : ℤ) (k : Clients) where
  -- the transfer is read at FedaPay, and what it reports is applied
  abbrev pub item_read :
      Refund → ℤ → State → Result String PayoutItem → Result Error (Unit {0}) × State
  item_read r p s (err e) = (err Error.feda_pay_api_error, s)
  item_read r p s (ok item) =
      journaled (reported p item.status ∷ s.journal) (apply_refund_payout_status now r item s.db)

  abbrev pub if_refund : Error → Result Error (Unit {0})
  if_refund Error.refund_not_found = ok tt
  if_refund e = err e

  abbrev pub refund_found :
      ℤ → List Transfer → Result Error Refund × Db → Result Error (Unit {0}) × State
  refund_found p j (err e, db) = (if_refund e, record { db = db; journal = j })
  refund_found p j (ok r, db) = item_read r p (record { db = db; journal = j }) (k.get_payout p)

  -- confirmProviderPayout
  unfoldable pub confirm_provider_payout : ℤ → State → Result Error (Unit {0}) × State
  confirm_provider_payout p s =
      if leb_ℤ p (pos 0)
      then (ok tt, s)
      else refund_found p s.journal (get_refund_by_provider_reference p s.db)

  abbrev pub reconcile_at : Refund → Option ℤ → State → State
  reconcile_at r none s = s
  reconcile_at r (some p) s = (item_read r p s (k.get_payout p)).1

  -- reconcileRefund
  abbrev pub reconcile_refund : Refund → State → State
  reconcile_refund r s = reconcile_at r r.payment_provider_reference s

  abbrev pub reconcile_all : List Refund → State → State
  reconcile_all [] s = s
  reconcile_all (r ∷ rs) s = reconcile_all rs (reconcile_refund r s)

  abbrev pub reconcile_batch : List Transfer → Result Error (List Refund) × Db → State
  reconcile_batch j (err e, db) = record { db = db; journal = j }
  reconcile_batch j (ok rs, db) = reconcile_all rs (record { db = db; journal = j })

  -- the part on refunds of ReconcileProviderPayouts, with its lock taken: 50 refunds whose row has not
  -- changed for 10 minutes
  unfoldable pub reconcile_provider_payouts : State → State
  reconcile_provider_payouts s =
      reconcile_batch s.journal
        (get_processing_refunds_to_reconcile (now -ℤ pos 600_000_000_000) 50 s.db)
