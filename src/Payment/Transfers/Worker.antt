-- ===== src/Payment/Transfers/Worker.antt =====
-- services/payment-service/internal/service/refund_worker.go. The goroutines of a batch work on
-- different refunds: they run one after the other here. An error text stands for `err.Error()`.
pub mod Row
pub mod Attempt
pub mod Batch
pub mod Progress
pub mod Liveness
use tissi_mah.Prelude.{
  ℤ, pos, ◌+ℤ◌, leb_ℤ, ℕ, int16, String, str_eq, Bool, true, false, ◌&&◌, Option, none, some, List,
  [], ◌∷◌, if◌then◌else◌,
}
use tissi_mah.Prelude.Result.{Result, ok, err}
use tissi_mah.Payment.Domain.{
  Payment, Refund, RefundStatus, RefundEvent, RefundStatusHistory, Error,
}
use tissi_mah.Payment.Store.{Db, write_refund_history}
use tissi_mah.Payment.Repository.Refunds.{
  mark_refund_processing, set_refund_provider_reference, mark_refund_failed,
  get_pending_refunds_for_payout,
}
use tissi_mah.Payment.Repository.Payments.{get_payment_by_id}
use tissi_mah.Payment.Transfers.Journal.{Transfer, started, Clients, UserDetails, State}

abbrev pub entry : Refund → RefundEvent → ℤ → RefundStatusHistory
entry r event retries = record { refund_id = r.refund_id; status = event; retry_count = retries }

abbrev pub failure_entry : Refund → Bool → RefundStatusHistory
failure_entry r true = entry r RefundEvent.retry_scheduled (int16 (r.retry_count +ℤ pos 1))
failure_entry r false = entry r (RefundEvent.reached RefundStatus.failed) r.retry_count

abbrev pub failure_logged : Refund → Bool → Result Error (Unit {0}) × Db → Db
failure_logged r increment_retry (err e, db) = db
failure_logged r increment_retry (ok _, db) =
    write_refund_history (failure_entry r increment_retry) db

-- markRefundFailed, whose error no caller acts on
unfoldable pub mark_failed : ℤ → Refund → String → Bool → Db → Db
mark_failed now r reason increment_retry db =
    failure_logged r increment_retry (mark_refund_failed now r.refund_id reason increment_retry db)

abbrev pub on_db : (Db → Db) → State → State
on_db f s = record s { db = f s.db }

-- REFUND_MAX_RETRIES as an int16, or 3
abbrev pub max_retries : ℤ → ℤ
max_retries configured = if leb_ℤ (int16 configured) (pos 0) then pos 3 else int16 configured

module _ (now : ℤ) (k : Clients) (r : Refund) where
  abbrev pub retry : String → State → State
  retry reason s = on_db (mark_failed now r reason true) s

  -- steps 8 and 9
  abbrev pub start_result : ℤ → State → Result String (Unit {0}) → State
  start_result p s (err e) = retry e s
  start_result p s (ok _) = record {
    db = write_refund_history (entry r RefundEvent.payout_started r.retry_count) s.db;
    journal = started r.refund_id p ∷ s.journal;
  }

  abbrev pub reference_stored : ℤ → List Transfer → Result Error (Unit {0}) × Db → State
  reference_stored p j (err e, db) =
      retry "store fedapay reference" (record { db = db; journal = j })
  reference_stored p j (ok _, db) =
      start_result p (record { db = db; journal = j }) (k.start_payouts p)

  -- steps 7 to 9
  abbrev pub payout_created : State → Result String ℤ → State
  payout_created s (err e) = retry e s
  payout_created s (ok p) =
      reference_stored p s.journal (set_refund_provider_reference now r.refund_id p s.db)

  -- step 6 on
  abbrev pub processing :
      String → UserDetails → List Transfer → Result Error (Unit {0}) × Db → State
  processing phone user j (err e, db) = record { db = db; journal = j }
  processing phone user j (ok _, db) =
      payout_created
        (record {
          db =
              write_refund_history
                (entry r (RefundEvent.reached RefundStatus.processing) r.retry_count) db;
          journal = j;
        })
        (k.create_payout r.amount_to_passenger "togocel" phone user)

  -- step 5 on
  abbrev pub user_found : String → State → Result String UserDetails → State
  user_found phone s (err e) = retry e s
  user_found phone s (ok user) =
      processing phone user s.journal (mark_refund_processing now r.refund_id s.db)

  abbrev pub booking_found : String → State → Result String String → State
  booking_found phone s (err e) = retry e s
  booking_found phone s (ok passenger) = user_found phone s (k.get_user_by_user_id passenger)

  abbrev pub phone_of : Payment → String
  phone_of p =
      if str_eq p.passenger_phone_number "" then r.payout_destination else p.passenger_phone_number

  -- step 4 on
  abbrev pub with_phone : String → State → State
  with_phone phone s =
      if str_eq phone ""
      then on_db (mark_failed now r "missing passenger phone number" false) s
      else booking_found phone s (k.get_booking_details r.booking_id)

  abbrev pub payment_found : List Transfer → Result Error Payment × Db → State
  payment_found j (err e, db) = retry "payment not found" (record { db = db; journal = j })
  payment_found j (ok p, db) = with_phone (phone_of p) (record { db = db; journal = j })

  -- steps 2 and 3 on
  abbrev pub with_lock : ℤ → State → State
  with_lock configured s =
      if leb_ℤ (max_retries configured) r.retry_count
      then on_db (mark_failed now r "max retries exceeded" false) s
      else payment_found s.journal (get_payment_by_id r.payment_id s.db)

  abbrev pub locked : ℤ → State → Result String Bool → State
  locked configured s (err e) = s
  locked configured s (ok false) = s
  locked configured s (ok true) = with_lock configured s

  abbrev pub lock_taken : ℤ → State → Option (String → Result String Bool) → State
  lock_taken configured s none = with_lock configured s
  lock_taken configured s (some lock) = locked configured s (lock r.refund_id)

  -- processRefund
  unfoldable pub process_refund : ℤ → State → State
  process_refund configured s = lock_taken configured s k.refund_lock

abbrev pub process_all : ℤ → Clients → ℤ → List Refund → State → State
process_all now k configured [] s = s
process_all now k configured (r ∷ rs) s =
    process_all now k configured rs (process_refund now k r configured s)

abbrev pub batch : ℤ → Clients → ℤ → List Transfer → Result Error (List Refund) × Db → State
batch now k configured j (err e, db) = record { db = db; journal = j }
batch now k configured j (ok rs, db) =
    process_all now k configured rs (record { db = db; journal = j })

-- ProcessPendingRefunds, of a batch size above 0
unfoldable pub process_pending_refunds : ℤ → Clients → ℤ → ℕ → State → State
process_pending_refunds now k configured batch_size s =
    batch now k configured s.journal (get_pending_refunds_for_payout batch_size s.db)
