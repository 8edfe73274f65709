-- ===== src/Payment/Transfers/Worker/Liveness.antt =====
-- No refund waits forever: each batch that has all of the due refunds, and meets no failure of the
-- database, ends the wait of each of them or counts a retry of it.
use tissi_mah.Prelude.{
  ℕ, suc, ℤ, pos, ◌+ℤ◌, +ℤ_parts, ◌<ℤ◌, ◌≤◌, Bool, true, false, List, [], ◌∷◌, length, ◌≡◌, refl,
  ap, ◌∙◌, inl, inr, All, All_mono, All-flip, All_both, All_diagonal, Bool-cases, Bool-clash,
  and_left, arith, if_cases,
}
use text.Mathlib.TextPositions.{eq_refl}
use tissi_mah.Prelude.Result.{Result, next_call}
use tissi_mah.Payment.Domain.{Refund, RefundStatus, Error}
use tissi_mah.Payment.Store.{Tables, Db, filter_where}
use tissi_mah.Payment.Repository.Refunds.{
  same_refund, is_due, is_pending, due_refunds, by_payment_time,
}
use tissi_mah.Payment.Repository.Selection.{
  IsOther, Distinct, Distinct-page, Distinct-agree, Agrees, All-page, All-filter_where,
  filter_where-holds,
}
use tissi_mah.Payment.Repository.Coverage.{of_page}
use tissi_mah.Payment.Transfers.Journal.{Clients, State}
use tissi_mah.Payment.Transfers.Worker.{process_refund, process_all, process_pending_refunds, batch}
use tissi_mah.Payment.Transfers.Worker.Row.{On}
use tissi_mah.Payment.Transfers.Worker.Batch.{other_of_same, is_pending_iff}
use tissi_mah.Payment.Transfers.Worker.Progress.{Acquires, IsSpent, process_refund-Good}

-- `n` more failures exceed the limit of a refund that is due.
abbrev pub IsBounded : ℤ → ℕ → Refund → Type 0
IsBounded max n x = is_due x ≡ true → max <ℤ x.retry_count +ℤ pos n

module _ (max : ℤ) where
  IsBounded-spent :
      (n : ℕ) (r x : Refund)
      → is_due r ≡ true
      → IsBounded max (suc n) r
      → IsSpent r (λ _. Unit) x
      → IsBounded max n x
  IsBounded-spent n r x due bounded spent due' =
      let e = spent due' in
      let b = bounded due in
      ground (
        arith,
        +ℤ_parts r.retry_count (pos 1),
        +ℤ_parts r.retry_count (pos (suc n)),
        +ℤ_parts x.retry_count (pos n),
      )

  IsBounded-more : (n : ℕ) (x : Refund) → IsBounded max n x → IsBounded max (suc n) x
  IsBounded-more n x h due =
      let b = h due in
      ground (arith, +ℤ_parts x.retry_count (pos (suc n)), +ℤ_parts x.retry_count (pos n))

  -- The row of a refund that is still to come in a batch, or one that it has brought closer.
  abbrev IsBatched : ℕ → List Refund → Refund → Type 0
  IsBatched n rs x =
      IsBounded max (suc n) x
      × (All (λ r. same_refund r.refund_id x ≡ false) rs → IsBounded max n x)
      × All (λ r. same_refund r.refund_id x ≡ true → x ≡ r) rs

  module _ (configured now : ℤ) (k : Clients) (acquired : Acquires k.refund_lock) where
    brought_closer :
        (n : ℕ) (r : Refund) (rs : List Refund) (x : Refund)
        → is_due r ≡ true
        → IsBounded max (suc n) r
        → All (IsOther r.refund_id) rs
        → On r.refund_id (IsSpent r (IsBatched n rs)) (IsBatched n rs) x
        → IsBatched n rs x
    brought_closer n r rs x due bounded others h = elim (Bool-cases (same_refund r.refund_id x)) [
      | inl same ↦
          let closer = IsBounded-spent n r x due bounded (h.0 same) in
          (
            IsBounded-more n x closer,
            λ _. closer,
            All_mono (IsOther r.refund_id) (λ r'. same_refund r'.refund_id x ≡ true → x ≡ r')
                (λ r' o e. Bool-clash (same_refund r'.refund_id x) e (other_of_same r r' x same o))
                rs others,
          )
      | inr other ↦ h.1 other
    ]

    IsRead-row :
        (n : ℕ) (r : Refund) (rs : List Refund) (x : Refund)
        → r.status ≡ RefundStatus.pending
        → IsBatched n (r ∷ rs) x
        → On r.refund_id
            (λ y. (y.status ≡ RefundStatus.pending) × (y.retry_count ≡ r.retry_count))
            (IsBatched n rs)
            x
    IsRead-row n r rs x pending h = (
      λ same.
          let e = h.2.0 same in
          (ap (λ (y : Refund). y.status) e ∙ pending, ap (λ (y : Refund). y.retry_count) e),
      λ other. (h.0, (λ apart. h.1 (other, apart)), h.2.1),
    )

    process_all-closer :
        (n : ℕ) (rs : List Refund) (s : State)
        → All (λ r. (is_due r ≡ true) × IsBounded max (suc n) r) rs
        → Distinct rs
        → s.db.faults ≡ []
        → All (IsBatched n rs) s.db.tables.refunds
        → All (IsBounded max n) (process_all now k configured rs s).db.tables.refunds
    process_all-closer n [] s due distinct quiet h =
        All_mono (IsBatched n []) (IsBounded max n) (λ x hx. hx.1 tt) s.db.tables.refunds h
    process_all-closer n (r ∷ rs) s due distinct quiet h =
        let pending = is_pending_iff r.status (and_left (is_pending r.status) _ due.0.0) in
        let done = process_refund-Good r (IsBatched n rs) now k configured s acquired (
          All_mono (IsBatched n (r ∷ rs))
              (On r.refund_id
                (λ y. (y.status ≡ RefundStatus.pending) × (y.retry_count ≡ r.retry_count))
                (IsBatched n rs))
              (λ x hx. IsRead-row n r rs x pending hx) s.db.tables.refunds h,
          quiet,
        ) in
        let s' = process_refund now k r configured s in
        process_all-closer n rs s' due.1 distinct.1 done.1 (
          All_mono (On r.refund_id (IsSpent r (IsBatched n rs)) (IsBatched n rs)) (IsBatched n rs)
            (λ x hx. brought_closer n r rs x due.0.0 due.0.1 distinct.0 hx) s'.db.tables.refunds
            done.0)

    abbrev Same : Refund → Refund → Type 0
    Same r x = x ≡ r

    self : (r : Refund) → Same r r
    self r = refl

    covered :
        (n limit : ℕ) (t : Tables)
        → length t.refunds ≤ limit
        → All
            (λ x.
              All (λ r. same_refund r.refund_id x ≡ false) (due_refunds limit t)
              → IsBounded max n x)
            t.refunds
    covered n limit t enough =
        All_mono (λ x. All (Other x) t.refunds → Other x x)
          (λ x.
            All (λ r. same_refund r.refund_id x ≡ false) (due_refunds limit t) → IsBounded max n x)
          (λ x f apart due. Bool-clash (same_refund x.refund_id x) (eq_refl x.refund_id) (
            f
              (of_page (λ r. same_refund r.refund_id x ≡ false) (by_payment_time t.payments) is_due
                limit t.refunds enough apart)
              due))
          t.refunds (All_diagonal Other t.refunds)
      where
        Other : Refund → Refund → Type 0
        Other x y = is_due y ≡ true → same_refund y.refund_id x ≡ false

    batched :
        (n limit : ℕ) (t : Tables)
        → Distinct t.refunds
        → length t.refunds ≤ limit
        → All (IsBounded max (suc n)) t.refunds
        → All (IsBatched n (due_refunds limit t)) t.refunds
    batched n limit t distinct enough bounded =
        All_mono (λ x. IsBounded max (suc n) x × (Covered x × Unchanged x))
          (IsBatched n (due_refunds limit t)) (λ x hx. (hx.0, hx.1.0, hx.1.1)) t.refunds
          (All_both (IsBounded max (suc n)) (λ x. Covered x × Unchanged x) t.refunds bounded
            (All_both Covered Unchanged t.refunds (covered n limit t enough) (
              All-flip (λ x r. same_refund r.refund_id x ≡ true → x ≡ r) t.refunds
                (due_refunds limit t)
                (All-page (Agrees Same self t.refunds) (by_payment_time t.payments) is_due limit
                  t.refunds
                  (All-filter_where (Agrees Same self t.refunds) is_due t.refunds
                    (Distinct-agree Same self t.refunds distinct))))))
      where
        Covered : Refund → Type 0
        Covered x =
            All (λ r. same_refund r.refund_id x ≡ false) (due_refunds limit t) → IsBounded max n x

        Unchanged : Refund → Type 0
        Unchanged x = All (λ r. same_refund r.refund_id x ≡ true → x ≡ r) (due_refunds limit t)

    -- A batch that has all of the due refunds, with no failure of the database.
    pub process_pending_refunds-closer :
        (n limit : ℕ) (s : State)
        → s.db.faults ≡ []
        → Distinct s.db.tables.refunds
        → length s.db.tables.refunds ≤ limit
        → All (IsBounded max (suc n)) s.db.tables.refunds
        → All (IsBounded max n) (process_pending_refunds now k configured limit s).db.tables.refunds
    unfolding process_pending_refunds
    process_pending_refunds-closer n limit s quiet distinct enough bounded =
        if_cases
          (λ (reply : Result Error (List Refund) × Db).
            All (IsBounded max n) (batch now k configured s.journal reply).db.tables.refunds)
          (next_call s.db.faults).0
          (λ fails.
            Bool-clash (next_call s.db.faults).0 fails
              (ap (λ (fs : List Bool). (next_call fs).0) quiet))
          (λ _.
            process_all-closer n (due_refunds limit t) _
              (All-page (λ r. (is_due r ≡ true) × IsBounded max (suc n) r)
                (by_payment_time t.payments) is_due limit t.refunds
                (All_both (λ r. is_due r ≡ true) (IsBounded max (suc n))
                  (filter_where is_due t.refunds) (filter_where-holds is_due t.refunds)
                  (All-filter_where (IsBounded max (suc n)) is_due t.refunds bounded)))
              (Distinct-page (by_payment_time t.payments) is_due limit t.refunds distinct)
              (ap (λ (fs : List Bool). (next_call fs).1) quiet)
              (batched n limit t distinct enough bounded))
      where
        t : Tables
        t = s.db.tables
