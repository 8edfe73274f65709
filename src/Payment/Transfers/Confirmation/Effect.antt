-- ===== src/Payment/Transfers/Confirmation/Effect.antt =====
-- What the confirmation of a transfer does to the refunds.
use tissi_mah.Prelude.{
  ℤ, pos, +ℤ_parts, String, true, Option, some, List, [], ◌∷◌, ◌≡◌, refl, sym, ◌∙◌, ◌⊎◌, inl, inr,
  and_left, and_right, arith,
}
use tissi_mah.Prelude.Result.{Result, ok, err}
use tissi_mah.Payment.Domain.{Payment, Terms, Refund, RefundStatus, RefundEvent, Error}
use tissi_mah.Payment.Store.{Db, stamped}
use tissi_mah.Payment.Store.Statements.{RowsAfter, Table, Table-mono}
use tissi_mah.Payment.Repository.Refunds.{
  same_refund, processing_refund, is_processing, to_completed, to_retry, mark_refund_completed,
  mark_refund_payout_failed,
}
use tissi_mah.Payment.Transfers.Journal.{
  Transfer, reported, live, PayoutItem, PayoutItemStatus, Clients,
}
use tissi_mah.Payment.Transfers.Invariant.{
  IsSound, LiveFor, Within, IsSound-report, at_most_one, within_limit, live-failed,
}
use tissi_mah.Payment.Transfers.Worker.Row.{On, update-On, after_history}
use tissi_mah.Payment.Transfers.Worker.{entry}
use tissi_mah.Payment.Transfers.Confirmation.{
  applied, apply_status, apply_refund_payout_status, item_read,
}

status_of : (s : RefundStatus) → is_processing s ≡ true → s ≡ RefundStatus.processing
status_of RefundStatus.processing e = refl
status_of RefundStatus.pending e = cc
status_of RefundStatus.completed e = cc
status_of RefundStatus.failed e = cc

known_reference :
    (p : ℤ) (reference : Option ℤ) (l : List ℤ)
    → reference ≡ some p
    → LiveFor RefundStatus.processing reference l
    → (l ≡ []) ⊎ (l ≡ p ∷ [])
known_reference p reference l e (inl none_left) = inl none_left
known_reference p reference l e (inr (q, known, left)) =
    let same : some q ≡ some p = sym known ∙ e in
    let q_is_p : q ≡ p = cc in inr (rw (sym q_is_p) left)

module _ (fixed : List Terms × List Payment) (max now : ℤ) (j : List Transfer) (r : Refund) (p : ℤ)
    (O : Refund → Type 0) where
  -- the rows of the refund that has the reference of the transfer
  abbrev pub IsReferred : Refund → Type 0
  IsReferred x = IsSound max j x × (x.payment_provider_reference ≡ some p)

  reported-IsSound :
      (s : PayoutItemStatus) (x : Refund) → IsReferred x → IsSound max (reported p s ∷ j) x
  reported-IsSound s x h = IsSound-report max p s j x h.0

  abbrev After : PayoutItemStatus → Db → Type 0
  After s db = Table fixed (On r.refund_id (IsSound max (reported p s ∷ j)) O) db

  unchanged :
      (s : PayoutItemStatus) (db : Db) → Table fixed (On r.refund_id IsReferred O) db → After s db
  unchanged s =
      Table-mono fixed (On r.refund_id IsReferred O)
        (On r.refund_id (IsSound max (reported p s ∷ j)) O)
        (λ x hx. (λ e. reported-IsSound s x (hx.0 e), hx.1))

  applied-After :
      (s : PayoutItemStatus) (event : RefundEvent) (retries : ℤ)
      (reply : Result Error (Unit {0}) × Db)
      → RowsAfter fixed
          (On r.refund_id IsReferred O)
          (On r.refund_id (IsSound max (reported p s ∷ j)) O)
          reply
      → After s (applied r event retries reply).1
  applied-After s event retries (ok _, db) h =
      after_history fixed (On r.refund_id (IsSound max (reported p s ∷ j)) O)
        (entry r event retries) db h
  applied-After s event retries (err e, db) h = unchanged s db h

  completed-IsSound :
      (reference : ℤ) (x : Refund)
      → IsReferred x
      → IsSound max
          (reported p PayoutItemStatus.sent ∷ j)
          (stamped now (to_completed now reference) x)
  completed-IsSound reference x h =
      let sound = reported-IsSound PayoutItemStatus.sent x h in
      (
        at_most_one x.status x.payment_provider_reference (live x.refund_id j) h.0.0,
        within_limit max x.status x.retry_count sound.1,
      )

  retry-IsSound :
      (reason : String) (x : Refund)
      → IsReferred x
      → processing_refund r.refund_id x ≡ true
      → IsSound max (reported p PayoutItemStatus.failed ∷ j) (stamped now (to_retry now reason) x)
  retry-IsSound reason x h e =
      let status : x.status ≡ RefundStatus.processing =
        status_of x.status (and_right (same_refund r.refund_id x) _ e) in
      let sound : LiveFor RefundStatus.processing x.payment_provider_reference (live x.refund_id j)
          × Within max RefundStatus.processing x.retry_count =
        rw status at h.0 in
      (
        live-failed x.refund_id p j (live x.refund_id j) refl
            (known_reference p x.payment_provider_reference (live x.refund_id j) h.1 sound.0),
        let below = sound.1 in ground (arith, +ℤ_parts x.retry_count (pos 1)),
      )

  apply_status-After :
      (s : PayoutItemStatus) (reference : ℤ) (reason : String) (db : Db)
      → Table fixed (On r.refund_id IsReferred O) db
      → After s (apply_status now r reference reason s db).1
  apply_status-After PayoutItemStatus.sent reference reason db h =
      applied-After PayoutItemStatus.sent _ _ (mark_refund_completed now r.refund_id reference db) (
        update-On fixed r.refund_id IsReferred (IsSound max (reported p PayoutItemStatus.sent ∷ j))
          O now Error.refund_already_processed (processing_refund r.refund_id)
          (to_completed now reference) (λ x. refl) (λ x e. and_left (same_refund r.refund_id x) _ e)
          (λ x hx e. completed-IsSound reference x hx)
          (λ x hx s e. reported-IsSound PayoutItemStatus.sent x hx) db h)
  apply_status-After PayoutItemStatus.failed reference reason db h =
      applied-After PayoutItemStatus.failed _ _
        (mark_refund_payout_failed now r.refund_id reason db)
        (update-On fixed r.refund_id IsReferred
          (IsSound max (reported p PayoutItemStatus.failed ∷ j)) O now
          Error.refund_already_processed (processing_refund r.refund_id) (to_retry now reason)
          (λ x. refl) (λ x e. and_left (same_refund r.refund_id x) _ e)
          (λ x hx e. retry-IsSound reason x hx e)
          (λ x hx s e. reported-IsSound PayoutItemStatus.failed x hx) db h)
  apply_status-After (PayoutItemStatus.other text) reference reason db h =
      unchanged (PayoutItemStatus.other text) db h

  -- A transfer that is read at FedaPay: the rows of its refund stay sound, the others as they were.
  pub item_read-IsSound :
      (k : Clients) (db : Db) (answer : Result String PayoutItem)
      → Table fixed (On r.refund_id IsReferred O) db
      → let s' = (item_read now k r p (record { db = db; journal = j }) answer).1 in
        Table fixed (On r.refund_id (IsSound max s'.journal) O) s'.db
        × ((s'.journal ≡ j) ⊎ ((s : PayoutItemStatus) × (s'.journal ≡ reported p s ∷ j)))
  unfolding apply_refund_payout_status
  item_read-IsSound k db (err e) h = (
    Table-mono fixed (On r.refund_id IsReferred O) (On r.refund_id (IsSound max j) O)
        (λ x hx. (λ e. (hx.0 e).0, hx.1)) db h,
    inl refl,
  )
  item_read-IsSound k db (ok item) h =
      (apply_status-After item.status item.id item.fail_reason db h, inr (item.status, refl))
