-- ===== src/Payment/Transfers/Confirmation/Traced.antt =====
-- The confirmation of transfers starts none.
use tissi_mah.Prelude.{ℤ, pos, ◌-ℤ◌, leb_ℤ, String, Option, none, some, List, [], ◌∷◌, if_rule}
use tissi_mah.Prelude.Result.{Result, ok, err}
use tissi_mah.Payment.Domain.{Refund, Terms, Error}
use tissi_mah.Payment.Store.{Db}
use tissi_mah.Payment.Repository.Refunds.{
  get_refund_by_provider_reference, get_processing_refunds_to_reconcile,
}
use tissi_mah.Payment.Transfers.Journal.{Transfer, PayoutItem, Clients, State}
use tissi_mah.Payment.Transfers.Invariant.{IsTraced, live_report_none}
use tissi_mah.Payment.Transfers.Confirmation.{
  item_read, refund_found, confirm_provider_payout, reconcile_at, reconcile_refund, reconcile_all,
  reconcile_batch, reconcile_provider_payouts,
}

module _ (ids : List Terms) (now : ℤ) (k : Clients) where
  item_read-IsTraced :
      (r : Refund) (p : ℤ) (s : State) (answer : Result String PayoutItem)
      → IsTraced ids s.journal
      → IsTraced ids (item_read now k r p s answer).1.journal
  item_read-IsTraced r p s (err e) h = h
  item_read-IsTraced r p s (ok item) h =
      λ id absent. live_report_none id p item.status s.journal (h id absent)

  reconcile_at-IsTraced :
      (r : Refund) (reference : Option ℤ) (s : State)
      → IsTraced ids s.journal
      → IsTraced ids (reconcile_at now k r reference s).journal
  reconcile_at-IsTraced r none s h = h
  reconcile_at-IsTraced r (some p) s h = item_read-IsTraced r p s (k.get_payout p) h

  reconcile_all-IsTraced :
      (rs : List Refund) (s : State)
      → IsTraced ids s.journal
      → IsTraced ids (reconcile_all now k rs s).journal
  reconcile_all-IsTraced [] s h = h
  reconcile_all-IsTraced (r ∷ rs) s h =
      reconcile_all-IsTraced rs (reconcile_refund now k r s)
        (reconcile_at-IsTraced r r.payment_provider_reference s h)

  reconcile_batch-IsTraced :
      (j : List Transfer) (reply : Result Error (List Refund) × Db)
      → IsTraced ids j
      → IsTraced ids (reconcile_batch now k j reply).journal
  reconcile_batch-IsTraced j (err e, db) h = h
  reconcile_batch-IsTraced j (ok rs, db) h =
      reconcile_all-IsTraced rs (record { db = db; journal = j }) h

  pub reconcile_provider_payouts-IsTraced :
      (s : State)
      → IsTraced ids s.journal
      → IsTraced ids (reconcile_provider_payouts now k s).journal
  unfolding reconcile_provider_payouts
  reconcile_provider_payouts-IsTraced s h =
      reconcile_batch-IsTraced s.journal
        (get_processing_refunds_to_reconcile (now -ℤ pos 600_000_000_000) 50 s.db) h

  refund_found-IsTraced :
      (p : ℤ) (j : List Transfer) (reply : Result Error Refund × Db)
      → IsTraced ids j
      → IsTraced ids (refund_found now k p j reply).1.journal
  refund_found-IsTraced p j (err e, db) h = h
  refund_found-IsTraced p j (ok r, db) h =
      item_read-IsTraced r p (record { db = db; journal = j }) (k.get_payout p) h

  pub confirm_provider_payout-IsTraced :
      (p : ℤ) (s : State)
      → IsTraced ids s.journal
      → IsTraced ids (confirm_provider_payout now k p s).1.journal
  unfolding confirm_provider_payout
  confirm_provider_payout-IsTraced p s h =
      if_rule (λ (a : Result Error (Unit {0}) × State). IsTraced ids a.1.journal) (leb_ℤ p (pos 0))
        h (refund_found-IsTraced p s.journal (get_refund_by_provider_reference p s.db) h)
