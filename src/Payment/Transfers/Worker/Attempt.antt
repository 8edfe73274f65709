-- ===== src/Payment/Transfers/Worker/Attempt.antt =====
-- What processRefund does to the row that it was given, and to the others.
use tissi_mah.Prelude.{
  ℤ, ◌≤ℤ◌, leb_ℤ, String, str_eq, eq_iff, Bool, true, false, Option, none, some, List, [], ◌∷◌, ◌≡◌,
  refl, sym, ap, ◌∙◌, inl, inr, All, Bool-cases, Bool-clash, and_left, arith, if_rule,
}
use mathlib.Core.Path.{subst}
use tissi_mah.Prelude.Result.{Result, ok, err}
use tissi_mah.Payment.Domain.{Terms, Payment, Refund, RefundStatus, Error, RefundEvent}
use tissi_mah.Payment.Store.{Tables, Db, find_where, write_refund_history}
use tissi_mah.Payment.Store.Statements.{RowsAfter, query_row-tables, Table, Table-mono, kept}
use tissi_mah.Payment.Repository.Refunds.{
  same_refund, pending_refund, processing_refund, to_processing, to_retry, to_failed,
  with_reference, mark_refund_failed, mark_refund_processing, set_refund_provider_reference,
}
use tissi_mah.Payment.Repository.Payments.{get_payment_by_id, is_payment}
use tissi_mah.Payment.Transfers.Journal.{Transfer, started, live, Clients, UserDetails}
use tissi_mah.Payment.Transfers.Invariant.{
  IsSound, IsIdle, LiveFor, Within, IsIdle-IsSound, live_started,
}
use tissi_mah.Payment.Transfers.Worker.{
  max_retries, mark_failed, retry, on_db, start_result, reference_stored, payout_created,
  processing, user_found, booking_found, phone_of, with_phone, payment_found, with_lock, locked,
  lock_taken, process_refund, entry,
}
use tissi_mah.Payment.Transfers.Worker.Row.{
  On, Done, update-On, after_history, On-mono, idle-Done, to_retry-IsSound, failure_logged-Done,
}

module _ (fixed : List Terms × List Payment) (max now : ℤ) (j : List Transfer) (r : Refund)
    (O : Refund → Type 0) where
  abbrev Rows : (Refund → Type 0) → Db → Type 0
  Rows P db = Table fixed (On r.refund_id P O) db

  -- a failure that is retried
  retry-Done :
      (k : Clients) (reason : String) (db : Db)
      → Rows (IsIdle max j) db
      → Done fixed max j r.refund_id O (retry now k r reason (record { db = db; journal = j }))
  unfolding mark_failed
  retry-Done k reason db h =
      failure_logged-Done fixed max j r.refund_id O r true (IsIdle max j)
        (mark_refund_failed now r.refund_id reason true db) (IsIdle-IsSound max j)
        (update-On fixed r.refund_id (IsIdle max j) (IsSound max j) O now Error.refund_not_found
          (same_refund r.refund_id) (to_retry now reason) (λ x. refl) (λ x e. e)
          (λ x hx e. to_retry-IsSound fixed max j r.refund_id O now reason x hx)
          (λ x hx s e. Bool-clash (same_refund r.refund_id x) s e) db h)

  -- a refund that waits for a transfer
  abbrev IsWaiting : Refund → Type 0
  IsWaiting x =
      (x.status ≡ RefundStatus.pending) × (live x.refund_id j ≡ []) × (x.retry_count ≤ℤ max)

  IsWaiting-IsSound : (x : Refund) → IsWaiting x → IsSound max j x
  IsWaiting-IsSound x h = (rw h.0 h.1, rw h.0 h.2)

  -- a failure that is final
  give_up-Done :
      (reason : String) (db : Db)
      → Rows IsWaiting db
      → Done fixed max j r.refund_id O
          (on_db (mark_failed now r reason false) (record { db = db; journal = j }))
  unfolding mark_failed
  give_up-Done reason db h =
      failure_logged-Done fixed max j r.refund_id O r false IsWaiting
        (mark_refund_failed now r.refund_id reason false db) IsWaiting-IsSound
        (update-On fixed r.refund_id IsWaiting (IsSound max j) O now Error.refund_not_found
          (same_refund r.refund_id) (to_failed now reason) (λ x. refl) (λ x e. e)
          (λ x hx e. (hx.1, hx.2)) (λ x hx s e. Bool-clash (same_refund r.refund_id x) s e) db h)

  -- the refund while a transfer is created, and once its reference is stored
  abbrev IsProcessing : Refund → Type 0
  IsProcessing x = (x.status ≡ RefundStatus.processing) × IsIdle max j x

  abbrev IsReferred : ℤ → Refund → Type 0
  IsReferred p x = IsProcessing x × (x.payment_provider_reference ≡ some p)

  started-IsSound :
      (p : ℤ) (x : Refund)
      → same_refund r.refund_id x ≡ true
      → IsReferred p x
      → IsSound max (started r.refund_id p ∷ j) x
  started-IsSound p x same h =
      let e : live x.refund_id (started r.refund_id p ∷ j) ≡ p ∷ [] =
        live_started x.refund_id p j r.refund_id
          (ground (arith, eq_iff x.refund_id r.refund_id, eq_iff r.refund_id x.refund_id))
        ∙ ap (λ l. p ∷ l) h.0.1.0 in
      (rw h.0.0 (inr (p, h.1, e)), rw h.0.0 h.0.1.1)

  module _ (k : Clients) where
    start_result-Done :
        (p : ℤ) (db : Db) (answer : Result String (Unit {0}))
        → Rows (IsReferred p) db
        → Done fixed max j r.refund_id O
            (start_result now k r p (record { db = db; journal = j }) answer)
    start_result-Done p db (err e) h =
        retry-Done k e db
          (On-mono fixed r.refund_id (IsReferred p) (IsIdle max j) O (λ x hx. hx.0.1) db h)
    start_result-Done p db (ok _) h = (
      after_history fixed (On r.refund_id (IsSound max (started r.refund_id p ∷ j)) O)
          (entry r RefundEvent.payout_started r.retry_count) db
          (Table-mono fixed (On r.refund_id (IsReferred p) O)
            (On r.refund_id (IsSound max (started r.refund_id p ∷ j)) O)
            (λ x hx. (λ s. started-IsSound p x s (hx.0 s), hx.1)) db h),
      inr (p, refl),
    )

    reference_stored-Done :
        (p : ℤ) (reply : Result Error (Unit {0}) × Db)
        → RowsAfter fixed (On r.refund_id IsProcessing O) (On r.refund_id (IsReferred p) O) reply
        → Done fixed max j r.refund_id O (reference_stored now k r p j reply)
    reference_stored-Done p (err e, db) h =
        retry-Done k "store fedapay reference" db
          (On-mono fixed r.refund_id IsProcessing (IsIdle max j) O (λ x hx. hx.1) db h)
    reference_stored-Done p (ok _, db) h = start_result-Done p db (k.start_payouts p) h

    payout_created-Done :
        (db : Db) (answer : Result String ℤ)
        → Rows IsProcessing db
        → Done fixed max j r.refund_id O
            (payout_created now k r (record { db = db; journal = j }) answer)
    payout_created-Done db (err e) h =
        retry-Done k e db
          (On-mono fixed r.refund_id IsProcessing (IsIdle max j) O (λ x hx. hx.1) db h)
    payout_created-Done db (ok p) h =
        reference_stored-Done p (set_refund_provider_reference now r.refund_id p db) (
          update-On fixed r.refund_id IsProcessing (IsReferred p) O now
            Error.refund_already_processed (processing_refund r.refund_id) (with_reference p)
            (λ x. refl) (λ x e. and_left (same_refund r.refund_id x) _ e) (λ x hx e. (hx, refl))
            (λ x hx s e. Bool-clash (processing_refund r.refund_id x) (rw (s, hx.0) refl) e) db h)

    -- the refund as it was read from the table
    abbrev IsDue : Refund → Type 0
    IsDue x = (x.status ≡ RefundStatus.pending) × IsIdle max j x

    due-IsIdle : (db : Db) → Rows IsDue db → Rows (IsIdle max j) db
    due-IsIdle db = On-mono fixed r.refund_id IsDue (IsIdle max j) O (λ x hx. hx.1) db

    processing-Done :
        (phone : String) (user : UserDetails) (reply : Result Error (Unit {0}) × Db)
        → RowsAfter fixed (On r.refund_id IsDue O) (On r.refund_id IsProcessing O) reply
        → Done fixed max j r.refund_id O (processing now k r phone user j reply)
    processing-Done phone user (err e, db) h =
        idle-Done fixed max j r.refund_id O db (due-IsIdle db h)
    processing-Done phone user (ok _, db) h =
        payout_created-Done
          (write_refund_history
            (entry r (RefundEvent.reached RefundStatus.processing) r.retry_count) db)
          (k.create_payout r.amount_to_passenger "togocel" phone user)
          (after_history fixed (On r.refund_id IsProcessing O)
            (entry r (RefundEvent.reached RefundStatus.processing) r.retry_count) db h)

    user_found-Done :
        (phone : String) (db : Db) (answer : Result String UserDetails)
        → Rows IsDue db
        → Done fixed max j r.refund_id O
            (user_found now k r phone (record { db = db; journal = j }) answer)
    user_found-Done phone db (err e) h = retry-Done k e db (due-IsIdle db h)
    user_found-Done phone db (ok user) h =
        processing-Done phone user (mark_refund_processing now r.refund_id db) (
          update-On fixed r.refund_id IsDue IsProcessing O now Error.refund_already_processed
            (pending_refund r.refund_id) (to_processing now) (λ x. refl)
            (λ x e. and_left (same_refund r.refund_id x) _ e) (λ x hx e. (refl, hx.1))
            (λ x hx s e. Bool-clash (pending_refund r.refund_id x) (rw (s, hx.0) refl) e) db h)

    booking_found-Done :
        (phone : String) (db : Db) (answer : Result String String)
        → Rows IsDue db
        → Done fixed max j r.refund_id O
            (booking_found now k r phone (record { db = db; journal = j }) answer)
    booking_found-Done phone db (err e) h = retry-Done k e db (due-IsIdle db h)
    booking_found-Done phone db (ok passenger) h =
        user_found-Done phone db (k.get_user_by_user_id passenger) h

    waiting : (db : Db) → Rows IsDue db → Rows IsWaiting db
    waiting db =
        On-mono fixed r.refund_id IsDue IsWaiting O (λ x hx. (hx.0, hx.1.0, ground arith)) db

    with_phone-Done :
        (phone : String) (db : Db)
        → Rows IsDue db
        → Done fixed max j r.refund_id O
            (with_phone now k r phone (record { db = db; journal = j }))
    with_phone-Done phone db h =
        if_rule (Done fixed max j r.refund_id O) (str_eq phone "")
          (give_up-Done "missing passenger phone number" db (waiting db h))
          (booking_found-Done phone db (k.get_booking_details r.booking_id) h)

    payment_found-Done :
        (reply : Result Error Payment × Db)
        → Rows IsDue reply.1
        → Done fixed max j r.refund_id O (payment_found now k r j reply)
    payment_found-Done (err e, db) h = retry-Done k "payment not found" db (due-IsIdle db h)
    payment_found-Done (ok p, db) h = with_phone-Done (phone_of now k r p) db h

  -- A pending row that has been read, with the count of its retries.
  abbrev pub IsRead : Refund → Type 0
  IsRead x = (x.status ≡ RefundStatus.pending) × (x.retry_count ≡ r.retry_count) × IsSound max j x

  IsRead-IsWaiting : (x : Refund) → IsRead x → IsWaiting x
  IsRead-IsWaiting x h =
      let sound : LiveFor RefundStatus.pending x.payment_provider_reference (live x.refund_id j)
          × Within max RefundStatus.pending x.retry_count =
        rw h.0 at h.2 in
      (h.0, sound.0, sound.1)

module _ (fixed : List Terms × List Payment) (configured now : ℤ) (j : List Transfer) (r : Refund)
    (O : Refund → Type 0) (k : Clients) where
  abbrev max : ℤ
  max = max_retries configured

  below_limit :
      leb_ℤ max r.retry_count ≡ false
      → (x : Refund) → IsRead fixed max now j r O x
      → IsDue fixed max now j r O k x
  below_limit below x h =
      let waiting = IsRead-IsWaiting fixed max now j r O x h in
      let same = h.1 in (h.0, (waiting.1, ground arith))

  with_lock-Done :
      (db : Db)
      → Table fixed (On r.refund_id (IsRead fixed max now j r O) O) db
      → Done fixed max j r.refund_id O
          (with_lock now k r configured (record { db = db; journal = j }))
  with_lock-Done db h = elim (Bool-cases (leb_ℤ max r.retry_count)) [
    | inl reached ↦ rw reached (
        give_up-Done fixed max now j r O "max retries exceeded" db (
          On-mono fixed r.refund_id (IsRead fixed max now j r O) (IsWaiting fixed max now j r O) O
            (IsRead-IsWaiting fixed max now j r O) db h))
    | inr below ↦ rw below (
        payment_found-Done fixed max now j r O k (get_payment_by_id r.payment_id db)
          (read below db h))
  ]
    where
      Due : Refund → Type 0
      Due = On r.refund_id (IsDue fixed max now j r O k) O

      read :
          leb_ℤ max r.retry_count ≡ false
          → (db : Db) → Table fixed (On r.refund_id (IsRead fixed max now j r O) O) db
          → Table fixed Due (get_payment_by_id r.payment_id db).1
      read below db h =
          subst (λ (t : Tables). All Due t.refunds × (kept t ≡ fixed))
            (sym (
              query_row-tables Error.payment_not_found
                (λ t. find_where (is_payment r.payment_id) t.payments) db))
            (Table-mono fixed (On r.refund_id (IsRead fixed max now j r O) O) Due
              (λ x hx. (λ s. below_limit below x (hx.0 s), hx.1)) db h)

  untouched :
      (db : Db)
      → Table fixed (On r.refund_id (IsRead fixed max now j r O) O) db
      → Done fixed max j r.refund_id O (record { db = db; journal = j })
  untouched db h = (
    On-mono fixed r.refund_id (IsRead fixed max now j r O) (IsSound max j) O (λ x hx. hx.2) db h,
    inl refl,
  )

  locked-Done :
      (db : Db) (answer : Result String Bool)
      → Table fixed (On r.refund_id (IsRead fixed max now j r O) O) db
      → Done fixed max j r.refund_id O
          (locked now k r configured (record { db = db; journal = j }) answer)
  locked-Done db (err e) h = untouched db h
  locked-Done db (ok false) h = untouched db h
  locked-Done db (ok true) h = with_lock-Done db h

  lock_taken-Done :
      (db : Db) (lock : Option (String → Result String Bool))
      → Table fixed (On r.refund_id (IsRead fixed max now j r O) O) db
      → Done fixed max j r.refund_id O
          (lock_taken now k r configured (record { db = db; journal = j }) lock)
  lock_taken-Done db none h = with_lock-Done db h
  lock_taken-Done db (some lock) h = locked-Done db (lock r.refund_id) h

  -- processRefund of a pending refund as it was read leaves its row sound, and the others as they
  -- were.
  pub process_refund-Done :
      (db : Db)
      → Table fixed (On r.refund_id (IsRead fixed max now j r O) O) db
      → Done fixed max j r.refund_id O
          (process_refund now k r configured (record { db = db; journal = j }))
  unfolding process_refund
  process_refund-Done db h = lock_taken-Done db k.refund_lock h
