-- ===== src/Payment/Transfers/Worker/Progress.antt =====
-- Without a failure of the database, an attempt on a refund brings it closer to an end.
use tissi_mah.Prelude.{
  ℤ, pos, ◌+ℤ◌, leb_ℤ, String, str_eq, Bool, true, false, Option, none, some, List, [], any, ◌≡◌,
  refl, ap, All, All_mono, All_both, any_none, Bool-clash, and_left, if_rule, if_cases,
}
use tissi_mah.Prelude.Result.{Result, ok, err, next_call}
use tissi_mah.Payment.Domain.{
  Payment, Refund, RefundStatus, RefundEvent, RefundStatusHistory, Error,
}
use tissi_mah.Payment.Store.{
  Tables, Db, find_where, stamped, scanned, query_row, update_refunds, write_refund_history,
}
use tissi_mah.Payment.Store.Statements.{update_where-All}
use tissi_mah.Payment.Repository.Refunds.{
  same_refund, pending_refund, processing_refund, is_due, to_processing, to_retry, to_failed,
  with_reference, mark_refund_failed, mark_refund_processing, set_refund_provider_reference,
}
use tissi_mah.Payment.Repository.Payments.{get_payment_by_id, is_payment}
use tissi_mah.Payment.Transfers.Journal.{Transfer, Clients, UserDetails, State}
use tissi_mah.Payment.Transfers.Worker.{
  max_retries, mark_failed, failure_logged, failure_entry, start_result, reference_stored,
  payout_created, processing, user_found, booking_found, phone_of, with_phone, payment_found,
  with_lock, locked, lock_taken, process_refund, entry,
}
use tissi_mah.Payment.Transfers.Worker.Row.{On}

-- no other worker holds the lock of a refund
abbrev pub Acquires : Option (String → Result String Bool) → Type 0
Acquires none = Unit
Acquires (some lock) = (id : String) → lock id ≡ ok true

module _ (r : Refund) (O : Refund → Type 0) where
  -- no call fails, and `P` holds of the rows of the refund
  abbrev pub Good : (Refund → Type 0) → Db → Type 0
  Good P db = All (On r.refund_id P O) db.tables.refunds × (db.faults ≡ [])

  Good-mono :
      (P Q : Refund → Type 0) → ((x : Refund) → P x → Q x) → (db : Db) → Good P db → Good Q db
  Good-mono P Q f db h = (
    All_mono (On r.refund_id P O) (On r.refund_id Q O) (λ x hx. (λ s. f x (hx.0 s), hx.1))
        db.tables.refunds h.0,
    h.1,
  )

  Good-history :
      (P : Refund → Type 0) (e : RefundStatusHistory) (db : Db)
      → Good P db
      → Good P (write_refund_history e db)
  unfolding write_refund_history
  Good-history P e db h =
      let rest = ap (λ (fs : List Bool). (next_call fs).1) h.1 in
      if_rule (Good P) (next_call db.faults).0 (h.0, rest) (h.0, rest)

  -- an UPDATE of the rows of the refund that `P` says are all there are
  Good-update :
      (P Q : Refund → Type 0) (now : ℤ) (e : Error) (p : Refund → Bool) (set : Refund → Refund)
      → ((x : Refund) → (set x).refund_id ≡ x.refund_id)
      → ((x : Refund) → p x ≡ true → same_refund r.refund_id x ≡ true)
      → ((x : Refund) → P x → Q (stamped now set x))
      → ((x : Refund) → P x → same_refund r.refund_id x ≡ true → p x ≡ false → Q x)
      → (db : Db) → Good P db
      → Good Q (update_refunds now e p set db).1
  unfolding update_refunds
  Good-update P Q now e p set keeps own hit miss db h =
      if_cases Reply (next_call db.faults).0
        (λ fails.
          Bool-clash (next_call db.faults).0 fails (ap (λ (fs : List Bool). (next_call fs).0) h.1))
        (λ _.
          if_cases Reply (any p db.tables.refunds)
            (λ _. (
              update_where-All (On r.refund_id P O) (On r.refund_id Q O) p (stamped now set) on_hit
                  on_miss db.tables.refunds h.0,
              rest,
            ))
            (λ nothing. (
              All_mono Unmatched (On r.refund_id Q O) (λ x hx. on_miss x hx.0 hx.1)
                  db.tables.refunds
                  (All_both (On r.refund_id P O) (λ x. p x ≡ false) db.tables.refunds h.0
                    (any_none p db.tables.refunds nothing)),
              rest,
            )))
    where
      Reply : Result Error (Unit {0}) × Db → Type 0
      Reply reply = Good Q reply.1

      Unmatched : Refund → Type 0
      Unmatched x = On r.refund_id P O x × (p x ≡ false)

      rest : (next_call db.faults).1 ≡ []
      rest = ap (λ (fs : List Bool). (next_call fs).1) h.1

      on_hit :
          (x : Refund) → On r.refund_id P O x → p x ≡ true → On r.refund_id Q O (stamped now set x)
      on_hit x hx holds = (
        λ _. hit x (hx.0 (own x holds)),
        λ other. Bool-clash (same_refund r.refund_id x) (own x holds) (rw (keeps x) at other),
      )

      on_miss : (x : Refund) → On r.refund_id P O x → p x ≡ false → On r.refund_id Q O x
      on_miss x hx fails = (λ same. miss x (hx.0 same) same fails, hx.1)

  -- the count of the retries is as it was read
  abbrev Tried : Refund → Type 0
  Tried x = x.retry_count ≡ r.retry_count

  abbrev TriedAt : RefundStatus → Refund → Type 0
  TriedAt s x = (x.status ≡ s) × Tried x

  -- The refund is not due, or has one retry more.
  abbrev pub IsSpent : Refund → Type 0
  IsSpent x = is_due x ≡ true → x.retry_count ≡ r.retry_count +ℤ pos 1

  processing-IsSpent : (x : Refund) → TriedAt RefundStatus.processing x → IsSpent x
  processing-IsSpent x h due = let f : false ≡ true = rw h.0 at due in cc

  Good-scanned :
      {A : Type 0} (P : Refund → Type 0) (e : Error) (db : Db) (o : Option A)
      → Good P db
      → Good P (scanned e db o).1
  Good-scanned P e db none h = h
  Good-scanned P e db (some a) h = h

  Good-query :
      {A : Type 0} (P : Refund → Type 0) (e : Error) (select : Tables → Option A) (db : Db)
      → Good P db
      → Good P (query_row e select db).1
  Good-query {A} P e select db h =
      let rest = ap (λ (fs : List Bool). (next_call fs).1) h.1 in
      if_rule (λ (reply : Result Error A × Db). Good P reply.1) (next_call db.faults).0 (h.0, rest)
        (Good-scanned P e (record db { faults = (next_call db.faults).1 }) (select db.tables)
          (h.0, rest))

  logged-Good :
      (increment_retry : Bool) (reply : Result Error (Unit {0}) × Db)
      → Good IsSpent reply.1
      → Good IsSpent (failure_logged r increment_retry reply)
  logged-Good b (err e, db) h = h
  logged-Good b (ok _, db) h = Good-history IsSpent (failure_entry r b) db h

  module _ (now : ℤ) where
    retry-Good :
        (reason : String) (db : Db)
        → Good Tried db
        → Good IsSpent (mark_failed now r reason true db)
    unfolding mark_failed
    retry-Good reason db h = logged-Good true (mark_refund_failed now r.refund_id reason true db) (
        Good-update Tried IsSpent now Error.refund_not_found (same_refund r.refund_id)
          (to_retry now reason) (λ x. refl) (λ x e. e) (λ x hx due. ap (λ n. n +ℤ pos 1) hx)
          (λ x hx s e. Bool-clash (same_refund r.refund_id x) s e) db h)

    give_up-Good :
        (reason : String) (db : Db)
        → Good Tried db
        → Good IsSpent (mark_failed now r reason false db)
    unfolding mark_failed
    give_up-Good reason db h =
        logged-Good false (mark_refund_failed now r.refund_id reason false db) (
          Good-update Tried IsSpent now Error.refund_not_found (same_refund r.refund_id)
            (to_failed now reason) (λ x. refl) (λ x e. e) (λ x hx due. cc)
            (λ x hx s e. Bool-clash (same_refund r.refund_id x) s e) db h)

  module _ (now : ℤ) (k : Clients) where
    tried : (s : RefundStatus) (db : Db) → Good (TriedAt s) db → Good Tried db
    tried s = Good-mono (TriedAt s) Tried (λ x hx. hx.1)

    start_result-Good :
        (p : ℤ) (s : State) (answer : Result String (Unit {0}))
        → Good (TriedAt RefundStatus.processing) s.db
        → Good IsSpent (start_result now k r p s answer).db
    start_result-Good p s (err e) h = retry-Good now e s.db (tried RefundStatus.processing s.db h)
    start_result-Good p s (ok _) h =
        Good-history IsSpent (entry r RefundEvent.payout_started r.retry_count) s.db
          (Good-mono (TriedAt RefundStatus.processing) IsSpent processing-IsSpent s.db h)

    reference_stored-Good :
        (p : ℤ) (j : List Transfer) (reply : Result Error (Unit {0}) × Db)
        → Good (TriedAt RefundStatus.processing) reply.1
        → Good IsSpent (reference_stored now k r p j reply).db
    reference_stored-Good p j (err e, db) h =
        retry-Good now "store fedapay reference" db (tried RefundStatus.processing db h)
    reference_stored-Good p j (ok _, db) h =
        start_result-Good p (record { db = db; journal = j }) (k.start_payouts p) h

    payout_created-Good :
        (s : State) (answer : Result String ℤ)
        → Good (TriedAt RefundStatus.processing) s.db
        → Good IsSpent (payout_created now k r s answer).db
    payout_created-Good s (err e) h = retry-Good now e s.db (tried RefundStatus.processing s.db h)
    payout_created-Good s (ok p) h =
        reference_stored-Good p s.journal (set_refund_provider_reference now r.refund_id p s.db) (
          Good-update (TriedAt RefundStatus.processing) (TriedAt RefundStatus.processing) now
            Error.refund_already_processed (processing_refund r.refund_id) (with_reference p)
            (λ x. refl) (λ x e. and_left (same_refund r.refund_id x) _ e) (λ x hx. hx)
            (λ x hx s e. hx) s.db h)

    processing-Good :
        (phone : String) (user : UserDetails) (j : List Transfer)
        (reply : Result Error (Unit {0}) × Db)
        → Good (TriedAt RefundStatus.processing) reply.1
        → Good IsSpent (processing now k r phone user j reply).db
    processing-Good phone user j (err e, db) h =
        Good-mono (TriedAt RefundStatus.processing) IsSpent processing-IsSpent db h
    processing-Good phone user j (ok _, db) h =
        let e = entry r (RefundEvent.reached RefundStatus.processing) r.retry_count in
        payout_created-Good (record { db = write_refund_history e db; journal = j })
          (k.create_payout r.amount_to_passenger "togocel" phone user)
          (Good-history (TriedAt RefundStatus.processing) e db h)

    user_found-Good :
        (phone : String) (s : State) (answer : Result String UserDetails)
        → Good (TriedAt RefundStatus.pending) s.db
        → Good IsSpent (user_found now k r phone s answer).db
    user_found-Good phone s (err e) h = retry-Good now e s.db (tried RefundStatus.pending s.db h)
    user_found-Good phone s (ok user) h =
        processing-Good phone user s.journal (mark_refund_processing now r.refund_id s.db) (
          Good-update (TriedAt RefundStatus.pending) (TriedAt RefundStatus.processing) now
            Error.refund_already_processed (pending_refund r.refund_id) (to_processing now)
            (λ x. refl) (λ x e. and_left (same_refund r.refund_id x) _ e) (λ x hx. (refl, hx.1))
            (λ x hx s e. Bool-clash (pending_refund r.refund_id x) (rw (s, hx.0) refl) e) s.db h)

    booking_found-Good :
        (phone : String) (s : State) (answer : Result String String)
        → Good (TriedAt RefundStatus.pending) s.db
        → Good IsSpent (booking_found now k r phone s answer).db
    booking_found-Good phone s (err e) h = retry-Good now e s.db (tried RefundStatus.pending s.db h)
    booking_found-Good phone s (ok passenger) h =
        user_found-Good phone s (k.get_user_by_user_id passenger) h

    with_phone-Good :
        (phone : String) (s : State)
        → Good (TriedAt RefundStatus.pending) s.db
        → Good IsSpent (with_phone now k r phone s).db
    with_phone-Good phone s h =
        if_rule (λ (s' : State). Good IsSpent s'.db) (str_eq phone "")
          (give_up-Good now "missing passenger phone number" s.db
            (tried RefundStatus.pending s.db h))
          (booking_found-Good phone s (k.get_booking_details r.booking_id) h)

    payment_found-Good :
        (j : List Transfer) (reply : Result Error Payment × Db)
        → Good (TriedAt RefundStatus.pending) reply.1
        → Good IsSpent (payment_found now k r j reply).db
    payment_found-Good j (err e, db) h =
        retry-Good now "payment not found" db (tried RefundStatus.pending db h)
    payment_found-Good j (ok p, db) h =
        with_phone-Good (phone_of now k r p) (record { db = db; journal = j }) h

    with_lock-Good :
        (configured : ℤ) (s : State)
        → Good (TriedAt RefundStatus.pending) s.db
        → Good IsSpent (with_lock now k r configured s).db
    with_lock-Good configured s h =
        if_rule (λ (s' : State). Good IsSpent s'.db) (leb_ℤ (max_retries configured) r.retry_count)
          (give_up-Good now "max retries exceeded" s.db (tried RefundStatus.pending s.db h))
          (payment_found-Good s.journal (get_payment_by_id r.payment_id s.db) (
            Good-query (TriedAt RefundStatus.pending) Error.payment_not_found
              (λ t. find_where (is_payment r.payment_id) t.payments) s.db h))

    locked-Good :
        (configured : ℤ) (s : State) (answer : Result String Bool)
        → answer ≡ ok true
        → Good (TriedAt RefundStatus.pending) s.db
        → Good IsSpent (locked now k r configured s answer).db
    locked-Good configured s (err e) acquired h = cc
    locked-Good configured s (ok false) acquired h = let f : false ≡ true = cc in cc
    locked-Good configured s (ok true) acquired h = with_lock-Good configured s h

    lock_taken-Good :
        (configured : ℤ) (s : State) (lock : Option (String → Result String Bool))
        → Acquires lock
        → Good (TriedAt RefundStatus.pending) s.db
        → Good IsSpent (lock_taken now k r configured s lock).db
    lock_taken-Good configured s none acquired h = with_lock-Good configured s h
    lock_taken-Good configured s (some lock) acquired h =
        locked-Good configured s (lock r.refund_id) (acquired r.refund_id) h

    -- An attempt on a pending refund ends its wait, or counts a retry.
    pub process_refund-Good :
        (configured : ℤ) (s : State)
        → Acquires k.refund_lock
        → Good (λ x. (x.status ≡ RefundStatus.pending) × (x.retry_count ≡ r.retry_count)) s.db
        → Good IsSpent (process_refund now k r configured s).db
    unfolding process_refund
    process_refund-Good configured s acquired h =
        lock_taken-Good configured s k.refund_lock acquired h
