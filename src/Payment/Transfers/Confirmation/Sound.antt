-- ===== src/Payment/Transfers/Confirmation/Sound.antt =====
-- The entry points of the confirmation keep every refund sound.
use tissi_mah.Prelude.{
  ℤ, pos, ◌-ℤ◌, eqb_ℤ→eq, leb_ℤ, true, Option, none, some, List, [], ◌∷◌, ◌≡◌, refl, sym, ap, ◌∙◌,
  ◌⊎◌, inl, inr, All, All_mono, All-flip, All_both, Bool-cases, Bool-clash, if_rule,
}
use mathlib.Core.Path.{subst}
use tissi_mah.Prelude.Result.{Result, ok, err, next_call}
use tissi_mah.Payment.Domain.{Payment, Terms, Refund, Error}
use tissi_mah.Payment.Store.{Tables, Db, find_where}
use tissi_mah.Payment.Store.Statements.{
  Table, Table-mono, Selected, query_row-Selected, find_where-All, kept,
}
use tissi_mah.Payment.Repository.Refunds.{
  same_refund, has_reference, matches, get_refund_by_provider_reference, is_stale, by_update,
}
use tissi_mah.Payment.Repository.Selection.{
  IsOther, Distinct, Distinct-page, Distinct-agree, Agrees, All-page, All-filter_where, page,
}
use tissi_mah.Payment.Transfers.Journal.{Transfer, reported, Clients, State, PayoutItemStatus}
use tissi_mah.Payment.Transfers.Invariant.{IsSound, IsSound-report}
use tissi_mah.Payment.Transfers.Worker.Row.{On}
use tissi_mah.Payment.Transfers.Worker.Batch.{other_of_same}
use tissi_mah.Payment.Transfers.Confirmation.{
  item_read, refund_found, confirm_provider_payout, reconcile_refund, reconcile_at, reconcile_all,
  reconcile_batch, reconcile_provider_payouts,
}
use tissi_mah.Payment.Transfers.Confirmation.Effect.{IsReferred, item_read-IsSound}

abbrev SameReference : Refund → Refund → Type 0
SameReference r x = x.payment_provider_reference ≡ r.payment_provider_reference

known : (p : ℤ) (reference : Option ℤ) → matches p reference ≡ true → reference ≡ some p
known p none h = cc
known p (some q) h = ap some (eqb_ℤ→eq q p h)

module _ (fixed : List Terms × List Payment) (max now : ℤ) (k : Clients) where
  -- what a report on one refund leaves of the others
  others-IsSound :
      (j j' : List Transfer) (p : ℤ) (x : Refund)
      → (j' ≡ j) ⊎ ((s : PayoutItemStatus) × (j' ≡ reported p s ∷ j))
      → IsSound max j x
      → IsSound max j' x
  others-IsSound j j' p x (inl e) h = rw e h
  others-IsSound j j' p x (inr (s, e)) h = rw e (IsSound-report max p s j x h)

  -- The row of a refund of a batch has the reference that was read.
  abbrev IsUnchanged : Refund → Refund → Type 0
  IsUnchanged x r = same_refund r.refund_id x ≡ true → SameReference r x

  abbrev IsReady : List Transfer → List Refund → Refund → Type 0
  IsReady j rs x = IsSound max j x × All (IsUnchanged x) rs

  still-IsReady :
      (j j' : List Transfer) (r : Refund) (p : ℤ) (rs : List Refund) (x : Refund)
      → All (IsOther r.refund_id) rs
      → (j' ≡ j) ⊎ ((s : PayoutItemStatus) × (j' ≡ reported p s ∷ j))
      → On r.refund_id (IsSound max j') (IsReady j rs) x
      → IsReady j' rs x
  still-IsReady j j' r p rs x others journal h = elim (Bool-cases (same_refund r.refund_id x)) [
    | inl same ↦ (
      h.0 same,
      All_mono (IsOther r.refund_id) (IsUnchanged x)
          (λ r' o e. Bool-clash (same_refund r'.refund_id x) e (other_of_same r r' x same o)) rs
          others,
    )
    | inr other ↦ let ready = h.1 other in (others-IsSound j j' p x journal ready.0, ready.1)
  ]

  reconcile_one :
      (r : Refund) (rs : List Refund) (reference : Option ℤ) (s : State)
      → r.payment_provider_reference ≡ reference
      → All (IsOther r.refund_id) rs
      → Table fixed (IsReady s.journal (r ∷ rs)) s.db
      → let s' = reconcile_at now k r reference s in Table fixed (IsReady s'.journal rs) s'.db
  reconcile_one r rs none s e others h =
      Table-mono fixed (IsReady s.journal (r ∷ rs)) (IsReady s.journal rs) (λ x hx. (hx.0, hx.1.1))
        s.db h
  reconcile_one r rs (some p) s e others h =
      let read =
        item_read-IsSound fixed max now s.journal r p (IsReady s.journal rs) k s.db (k.get_payout p)
          (Table-mono fixed (IsReady s.journal (r ∷ rs))
            (On r.refund_id (IsReferred fixed max now s.journal r p (IsReady s.journal rs))
              (IsReady s.journal rs))
            (λ x hx. (λ same. (hx.0, hx.1.0 same ∙ e), λ other. (hx.0, hx.1.1))) s.db h) in
      let s' = (item_read now k r p s (k.get_payout p)).1 in
      Table-mono fixed (On r.refund_id (IsSound max s'.journal) (IsReady s.journal rs))
        (IsReady s'.journal rs)
        (λ x hx. still-IsReady s.journal s'.journal r p rs x others read.1 hx) s'.db read.0

  reconcile_all-IsSound :
      (rs : List Refund) (s : State)
      → Distinct rs
      → Table fixed (IsReady s.journal rs) s.db
      → let s' = reconcile_all now k rs s in Table fixed (IsSound max s'.journal) s'.db
  reconcile_all-IsSound [] s distinct h =
      Table-mono fixed (IsReady s.journal []) (IsSound max s.journal) (λ x hx. hx.0) s.db h
  reconcile_all-IsSound (r ∷ rs) s distinct h =
      reconcile_all-IsSound rs (reconcile_refund now k r s) distinct.1
        (reconcile_one r rs r.payment_provider_reference s refl distinct.0 h)

  same_reference : (r : Refund) → SameReference r r
  same_reference r = refl

  agree : (rows : List Refund) → Distinct rows → All (Agrees SameReference same_reference rows) rows
  agree rows = Distinct-agree SameReference same_reference rows

  -- ReconcileProviderPayouts keeps refunds with distinct identifiers sound.
  pub reconcile_provider_payouts-IsSound :
      (s : State)
      → Distinct s.db.tables.refunds
      → Table fixed (IsSound max s.journal) s.db
      → let s' = reconcile_provider_payouts now k s in Table fixed (IsSound max s'.journal) s'.db
  unfolding reconcile_provider_payouts
  reconcile_provider_payouts-IsSound s distinct h =
      if_rule
        (λ (reply : Result Error (List Refund) × Db).
          let s' = reconcile_batch now k s.journal reply in
          Table fixed (IsSound max s'.journal) s'.db)
        (next_call s.db.faults).0 h
        (reconcile_all-IsSound stale _ (Distinct-page by_update (is_stale before) 50 rows distinct)
          (
            All_both (IsSound max s.journal) (λ x. All (IsUnchanged x) stale) rows h.0
                (All-flip IsUnchanged rows stale (
                  All-page (Agrees SameReference same_reference rows) by_update (is_stale before) 50
                    rows
                    (All-filter_where (Agrees SameReference same_reference rows) (is_stale before)
                      rows (agree rows distinct)))),
            h.1,
          ))
    where
      before : ℤ
      before = now -ℤ pos 600_000_000_000

      rows : List Refund
      rows = s.db.tables.refunds

      stale : List Refund
      stale = page by_update (is_stale before) 50 rows

  abbrev Found : ℤ → List Refund → Refund → Type 0
  Found p rows r = Agrees SameReference same_reference rows r × (has_reference p r ≡ true)

  refund_found-IsSound :
      (p : ℤ) (j : List Transfer) (t : Tables) (reply : Result Error Refund × Db)
      → Selected t (Found p t.refunds) reply
      → All (IsSound max j) t.refunds × (kept t ≡ fixed)
      → let s' = (refund_found now k p j reply).1 in Table fixed (IsSound max s'.journal) s'.db
  refund_found-IsSound p j t (err e, db) same h =
      subst (λ (u : Tables). All (IsSound max j) u.refunds × (kept u ≡ fixed)) (sym same) h
  refund_found-IsSound p j t (ok r, db) found h =
      let rows =
        subst
          (λ (u : Tables).
            All (λ x. IsSound max j x × (same_refund r.refund_id x ≡ true → SameReference r x))
              u.refunds
            × (kept u ≡ fixed))
          (sym found.1)
          (
            All_both (IsSound max j) (λ x. same_refund r.refund_id x ≡ true → SameReference r x)
                t.refunds h.0 found.0.0,
            h.1,
          ) in
      let read = item_read-IsSound fixed max now j r p (IsSound max j) k db (k.get_payout p) (
        Table-mono fixed
          (λ x. IsSound max j x × (same_refund r.refund_id x ≡ true → SameReference r x))
          (On r.refund_id (IsReferred fixed max now j r p (IsSound max j)) (IsSound max j))
          (λ x hx. (
            λ same. (hx.0, hx.1 same ∙ known p r.payment_provider_reference found.0.1),
            λ other. hx.0,
          ))
          db rows) in
      let s' = (item_read now k r p (record { db = db; journal = j }) (k.get_payout p)).1 in
      Table-mono fixed (On r.refund_id (IsSound max s'.journal) (IsSound max j))
        (IsSound max s'.journal) (λ x hx. all_sound r s'.journal x read.1 hx) s'.db read.0
    where
      all_sound :
          (r : Refund) (j' : List Transfer) (x : Refund)
          → (j' ≡ j) ⊎ ((s : PayoutItemStatus) × (j' ≡ reported p s ∷ j))
          → On r.refund_id (IsSound max j') (IsSound max j) x
          → IsSound max j' x
      all_sound r j' x journal h = elim (Bool-cases (same_refund r.refund_id x)) [
        | inl same ↦ h.0 same
        | inr other ↦ others-IsSound j j' p x journal (h.1 other)
      ]

  -- confirmProviderPayout keeps refunds with distinct identifiers sound.
  pub confirm_provider_payout-IsSound :
      (p : ℤ) (s : State)
      → Distinct s.db.tables.refunds
      → Table fixed (IsSound max s.journal) s.db
      → let s' = (confirm_provider_payout now k p s).1 in Table fixed (IsSound max s'.journal) s'.db
  unfolding confirm_provider_payout
  confirm_provider_payout-IsSound p s distinct h =
      if_rule
        (λ (a : Result Error (Unit {0}) × State). Table fixed (IsSound max a.1.journal) a.1.db)
        (leb_ℤ p (pos 0)) h
        (refund_found-IsSound p s.journal s.db.tables (get_refund_by_provider_reference p s.db)
          (query_row-Selected (Found p s.db.tables.refunds) Error.refund_not_found
            (λ t. find_where (has_reference p) t.refunds) s.db
            (λ r e.
              find_where-All (Agrees SameReference same_reference s.db.tables.refunds)
                (has_reference p) s.db.tables.refunds (agree s.db.tables.refunds distinct) e))
          h)
