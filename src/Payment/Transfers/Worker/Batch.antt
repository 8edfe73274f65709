-- ===== src/Payment/Transfers/Worker/Batch.antt =====
-- What ProcessPendingRefunds does to the refunds.
use tissi_mah.Prelude.{
  ℕ, ℤ, String, str_eq, eq_iff, true, false, List, [], ◌∷◌, ◌≡◌, refl, sym, ap, ◌∙◌, ◌⊎◌, inl, inr,
  All, All_mono, All-flip, All_both, Bool-cases, Bool-clash, and_left, arith, if_rule,
}
use mathlib.Core.Path.{subst}
use tissi_mah.Prelude.Result.{Result, next_call}
use tissi_mah.Payment.Domain.{Payment, Terms, Refund, RefundStatus, Error}
use tissi_mah.Payment.Store.{Tables, Db, filter_where}
use tissi_mah.Payment.Store.Statements.{Table, Table-mono, kept, all_terms}
use tissi_mah.Payment.Repository.Refunds.{
  same_refund, is_due, is_pending, due_refunds, by_payment_time,
}
use tissi_mah.Payment.Repository.Selection.{
  IsOther, Distinct, Distinct-page, Distinct-agree, Agrees, All-page, All-filter_where,
  filter_where-holds,
}
use tissi_mah.Payment.Transfers.Journal.{Transfer, started, Clients, State}
use tissi_mah.Payment.Transfers.Invariant.{
  IsSound, live_other, IsTraced, IsAmong, IsTraced-started, ids-IsAmong,
}
use tissi_mah.Payment.Transfers.Worker.{
  max_retries, process_refund, process_all, process_pending_refunds, batch,
}
use tissi_mah.Payment.Transfers.Worker.Attempt.{IsRead, process_refund-Done}
use tissi_mah.Payment.Transfers.Worker.Row.{On}

-- A row is the one that was read.
abbrev SameState : Refund → Refund → Type 0
SameState r x = (x.status ≡ r.status) × (x.retry_count ≡ r.retry_count)

-- The row of a refund of a batch is as it was read.
abbrev IsUnchanged : Refund → Refund → Type 0
IsUnchanged x r = same_refund r.refund_id x ≡ true → SameState r x

pub is_pending_iff : (s : RefundStatus) → is_pending s ≡ true → s ≡ RefundStatus.pending
is_pending_iff RefundStatus.pending e = refl
is_pending_iff RefundStatus.processing e = cc
is_pending_iff RefundStatus.completed e = cc
is_pending_iff RefundStatus.failed e = cc

pub other_of_same :
    (r r' x : Refund)
    → same_refund r.refund_id x ≡ true
    → IsOther r.refund_id r'
    → same_refund r'.refund_id x ≡ false
other_of_same r r' x same other = ground (
  arith,
  eq_iff x.refund_id r.refund_id,
  eq_iff r'.refund_id r.refund_id,
  eq_iff x.refund_id r'.refund_id,
)

IsSound-other :
    (max : ℤ) (j j' : List Transfer) (id : String) (x : Refund)
    → same_refund id x ≡ false
    → (j' ≡ j) ⊎ ((p : ℤ) × (j' ≡ started id p ∷ j))
    → IsSound max j x
    → IsSound max j' x
IsSound-other max j j' id x other (inl e) h = rw e h
IsSound-other max j j' id x other (inr (p, e)) h =
    (rw (e, live_other x.refund_id id p j (other_id ∙ other)) h.0, h.1)
  where
    other_id : str_eq id x.refund_id ≡ str_eq x.refund_id id
    other_id = ground (arith, eq_iff id x.refund_id, eq_iff x.refund_id id)

module _ (fixed : List Terms × List Payment) (configured now : ℤ) (k : Clients) where
  abbrev max : ℤ
  max = max_retries configured

  abbrev IsReady : List Transfer → List Refund → Refund → Type 0
  IsReady j rs x = IsSound max j x × All (IsUnchanged x) rs

  still-IsReady :
      (j j' : List Transfer) (r : Refund) (rs : List Refund) (x : Refund)
      → All (IsOther r.refund_id) rs
      → (j' ≡ j) ⊎ ((p : ℤ) × (j' ≡ started r.refund_id p ∷ j))
      → On r.refund_id (IsSound max j') (IsReady j rs) x
      → IsReady j' rs x
  still-IsReady j j' r rs x others journal h = elim (Bool-cases (same_refund r.refund_id x)) [
    | inl same ↦ (
      h.0 same,
      All_mono (IsOther r.refund_id) (IsUnchanged x)
          (λ r' o e. Bool-clash (same_refund r'.refund_id x) e (other_of_same r r' x same o)) rs
          others,
    )
    | inr other ↦
        let ready = h.1 other in
        (IsSound-other max j j' r.refund_id x other journal ready.0, ready.1)
  ]

  IsRead-row :
      (j : List Transfer) (r : Refund) (rs : List Refund) (x : Refund)
      → r.status ≡ RefundStatus.pending
      → IsReady j (r ∷ rs) x
      → On r.refund_id (IsRead fixed max now j r (IsReady j rs)) (IsReady j rs) x
  IsRead-row j r rs x pending h =
      (λ same. let e = h.1.0 same in (e.0 ∙ pending, e.1, h.0), λ other. (h.0, h.1.1))

  -- the refunds `fixed` are sound, and no other has a live transfer
  abbrev pub AllSound : State → Type 0
  AllSound s = Table fixed (IsSound max s.journal) s.db × IsTraced fixed.0 s.journal

  process_all_sound :
      (rs : List Refund) (s : State)
      → All (λ r. r.status ≡ RefundStatus.pending) rs
      → Distinct rs
      → All (λ r. IsAmong fixed.0 r.refund_id) rs
      → IsTraced fixed.0 s.journal
      → Table fixed (IsReady s.journal rs) s.db
      → AllSound (process_all now k configured rs s)
  process_all_sound [] s pending distinct among traced h = (
    Table-mono fixed (IsReady s.journal []) (IsSound max s.journal) (λ x hx. hx.0) s.db h,
    traced,
  )
  process_all_sound (r ∷ rs) s pending distinct among traced h =
      let done =
        process_refund-Done fixed configured now s.journal r (IsReady s.journal rs) k s.db (
          Table-mono fixed (IsReady s.journal (r ∷ rs))
            (On r.refund_id (IsRead fixed max now s.journal r (IsReady s.journal rs))
              (IsReady s.journal rs))
            (λ x hx. IsRead-row s.journal r rs x pending.0 hx) s.db h) in
      let s' = process_refund now k r configured s in
      process_all_sound rs s' pending.1 distinct.1 among.1
        (IsTraced-started fixed.0 r.refund_id s.journal s'.journal among.0 done.1 traced)
        (Table-mono fixed (On r.refund_id (IsSound max s'.journal) (IsReady s.journal rs))
          (IsReady s'.journal rs)
          (λ x hx. still-IsReady s.journal s'.journal r rs x distinct.0 done.1 hx) s'.db done.0)

  same_state : (r : Refund) → SameState r r
  same_state r = (refl, refl)

  due_pending :
      (limit : ℕ) (t : Tables) → All (λ r. r.status ≡ RefundStatus.pending) (due_refunds limit t)
  due_pending limit t =
      All-page (λ r. r.status ≡ RefundStatus.pending) (by_payment_time t.payments) is_due limit
        t.refunds
        (All_mono (λ r. is_due r ≡ true) (λ r. r.status ≡ RefundStatus.pending)
          (λ r e. is_pending_iff r.status (and_left (is_pending r.status) _ e))
          (filter_where is_due t.refunds) (filter_where-holds is_due t.refunds))

  due-IsUnchanged :
      (limit : ℕ) (t : Tables)
      → Distinct t.refunds
      → All (λ x. All (IsUnchanged x) (due_refunds limit t)) t.refunds
  due-IsUnchanged limit t distinct = All-flip IsUnchanged t.refunds (due_refunds limit t) (
      All-page (Agrees SameState same_state t.refunds) (by_payment_time t.payments) is_due limit
        t.refunds
        (All-filter_where (Agrees SameState same_state t.refunds) is_due t.refunds
          (Distinct-agree SameState same_state t.refunds distinct)))

  rows-IsAmong :
      (rows : List Refund)
      → All (λ (i : Terms). IsAmong fixed.0 i.refund_id) (all_terms rows)
      → All (λ r. IsAmong fixed.0 r.refund_id) rows
  rows-IsAmong [] h = tt
  rows-IsAmong (r ∷ rows) h = (h.0, rows-IsAmong rows h.1)

  among :
      (limit : ℕ) (t : Tables)
      → kept t ≡ fixed
      → All (λ r. IsAmong fixed.0 r.refund_id) (due_refunds limit t)
  among limit t e =
      All-page (λ r. IsAmong fixed.0 r.refund_id) (by_payment_time t.payments) is_due limit
        t.refunds
        (All-filter_where (λ r. IsAmong fixed.0 r.refund_id) is_due t.refunds
          (rows-IsAmong t.refunds (
            subst (All (λ (i : Terms). IsAmong fixed.0 i.refund_id))
              (ap (λ (f : List Terms × List Payment). f.0) (sym e)) (ids-IsAmong fixed.0))))

  -- Refunds with distinct identifiers stay sound in a batch.
  pub process_pending_refunds_sound :
      (limit : ℕ) (s : State)
      → Distinct s.db.tables.refunds
      → AllSound s
      → AllSound (process_pending_refunds now k configured limit s)
  unfolding process_pending_refunds
  process_pending_refunds_sound limit s distinct h =
      if_rule
        (λ (reply : Result Error (List Refund) × Db).
          AllSound (batch now k configured s.journal reply))
        (next_call s.db.faults).0 h
        (process_all_sound due _ (due_pending limit t)
          (Distinct-page (by_payment_time t.payments) is_due limit t.refunds distinct)
          (among limit t h.0.1) h.1
          (
            All_both (IsSound max s.journal) (λ x. All (IsUnchanged x) due) t.refunds h.0.0
                (due-IsUnchanged limit t distinct),
            h.0.1,
          ))
    where
      t : Tables
      t = s.db.tables

      due : List Refund
      due = due_refunds limit t
