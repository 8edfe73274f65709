-- ===== src/Payment/Transfers/Worker/Row.antt =====
-- The rows of one refund during an attempt, and the others.
use tissi_mah.Prelude.{
  ℤ, pos, +ℤ_parts, String, Bool, true, false, List, ◌∷◌, ◌≡◌, refl, ap, ◌⊎◌, inl, Bool-clash,
  arith, if_rule,
}
use tissi_mah.Prelude.Result.{Result, ok, err, next_call}
use tissi_mah.Payment.Domain.{Terms, terms, Payment, Refund, RefundStatusHistory, Error}
use tissi_mah.Payment.Store.{Db, update_refunds, write_refund_history, stamped}
use tissi_mah.Payment.Store.Statements.{RowsAfter, update_refunds-RowsAfter, Table, Table-mono}
use tissi_mah.Payment.Repository.Refunds.{same_refund, to_retry}
use tissi_mah.Payment.Transfers.Journal.{Transfer, started, State}
use tissi_mah.Payment.Transfers.Invariant.{IsSound, IsIdle, IsIdle-IsSound}
use tissi_mah.Payment.Transfers.Worker.{failure_logged, failure_entry}

-- `P` of the rows of a refund, and `O` of the others
abbrev pub On {ℓ} : String → (Refund → Type ℓ) → (Refund → Type ℓ) → Refund → Type ℓ
On id P O x = (same_refund id x ≡ true → P x) × (same_refund id x ≡ false → O x)

pub after_history {ℓ} :
    (fixed : List Terms × List Payment) (P : Refund → Type ℓ) (e : RefundStatusHistory) (db : Db)
    → Table fixed P db
    → Table fixed P (write_refund_history e db)
unfolding write_refund_history
after_history fixed P e db h = if_rule (Table fixed P) (next_call db.faults).0 h h

-- An UPDATE of some of the rows of one refund.
module _ {ℓ} (fixed : List Terms × List Payment) (id : String) (P Q O : Refund → Type ℓ) (now : ℤ)
    (e : Error) (p : Refund → Bool) (set : Refund → Refund) where
  pub update-On :
      ((x : Refund) → terms (set x) ≡ terms x)
      → ((x : Refund) → p x ≡ true → same_refund id x ≡ true)
      → ((x : Refund) → P x → p x ≡ true → Q (stamped now set x))
      → ((x : Refund) → P x → same_refund id x ≡ true → p x ≡ false → Q x)
      → (db : Db) → Table fixed (On id P O) db
      → RowsAfter fixed (On id P O) (On id Q O) (update_refunds now e p set db)
  update-On keeps own hit miss db h =
      update_refunds-RowsAfter fixed (On id P O) (On id Q O) now e p set keeps on_hit on_miss db h
    where
      on_hit : (x : Refund) → On id P O x → p x ≡ true → On id Q O (stamped now set x)
      on_hit x hx e = (
        λ _. hit x (hx.0 (own x e)) e,
        λ other.
            Bool-clash (same_refund id x) (own x e)
              (rw (ap (λ (t : Terms). t.refund_id) (keeps x)) at other),
      )

      on_miss : (x : Refund) → On id P O x → p x ≡ false → On id Q O x
      on_miss x hx e = (λ same. miss x (hx.0 same) same e, hx.1)

pub On-mono {ℓ} :
    (fixed : List Terms × List Payment) (id : String) (P Q O : Refund → Type ℓ)
    → ((x : Refund) → P x → Q x)
    → (db : Db) → Table fixed (On id P O) db
    → Table fixed (On id Q O) db
On-mono fixed id P Q O f =
    Table-mono fixed (On id P O) (On id Q O) (λ x hx. (λ s. f x (hx.0 s), hx.1))

module _ (fixed : List Terms × List Payment) (max : ℤ) (j : List Transfer) (id : String)
    (O : Refund → Type 0) where
  -- What an attempt leaves: sound rows of its refund, and the others as they were.
  abbrev pub Done : State → Type 0
  Done s =
      Table fixed (On id (IsSound max s.journal) O) s.db
      × ((s.journal ≡ j) ⊎ ((p : ℤ) × (s.journal ≡ started id p ∷ j)))

  pub idle-Done :
      (db : Db) → Table fixed (On id (IsIdle max j) O) db → Done (record { db = db; journal = j })
  idle-Done db h =
      (On-mono fixed id (IsIdle max j) (IsSound max j) O (IsIdle-IsSound max j) db h, inl refl)

  pub to_retry-IsSound :
      (now : ℤ) (reason : String) (x : Refund)
      → IsIdle max j x
      → IsSound max j (stamped now (to_retry now reason) x)
  to_retry-IsSound now reason x h = (h.0, ground (arith, +ℤ_parts x.retry_count (pos 1)))

  module _ (r : Refund) (increment_retry : Bool) (P : Refund → Type 0) where
    pub failure_logged-Done :
        (reply : Result Error (Unit {0}) × Db)
        → ((x : Refund) → P x → IsSound max j x)
        → RowsAfter fixed (On id P O) (On id (IsSound max j) O) reply
        → Done (record { db = failure_logged r increment_retry reply; journal = j })
    failure_logged-Done (err e, db) sound h =
        (On-mono fixed id P (IsSound max j) O sound db h, inl refl)
    failure_logged-Done (ok _, db) sound h = (
      after_history fixed (On id (IsSound max j) O) (failure_entry r increment_retry) db h,
      inl refl,
    )
