-- ===== src/Payment/Store/Statements.antt =====
-- What the statements leave in the table of refunds.
use tissi_mah.Prelude.{
  ℤ, Bool, true, false, Option, none, some, List, [], ◌∷◌, any, ◌≡◌, refl, inl, inr, Bool-cases,
  All, All_mono, ap, ◌∙◌, if◌then◌else◌, if_rule,
}
use mathlib.Core.Path.{subst}
use tissi_mah.Prelude.Result.{Result, ok, err, next_call}
use tissi_mah.Payment.Domain.{Payment, Refund, Terms, terms, Error}
use tissi_mah.Payment.Store.{
  Tables, Db, update_where, stamped, update_refunds, scanned, query_row, find_where,
}

abbrev pub all_terms : List Refund → List Terms
all_terms [] = []
all_terms (r ∷ rows) = terms r ∷ all_terms rows

-- what the statements on refunds leave as it is: the terms of the refunds, and the payments
abbrev pub kept : Tables → List Terms × List Payment
kept t = (all_terms t.refunds, t.payments)

-- tables that agree with `fixed`, with `P` of each refund
abbrev pub Table {ℓ} : List Terms × List Payment → (Refund → Type ℓ) → Db → Type ℓ
Table fixed P db = All P db.tables.refunds × (kept db.tables ≡ fixed)

pub Table-mono {ℓ} :
    (fixed : List Terms × List Payment) (P Q : Refund → Type ℓ)
    → ((x : Refund) → P x → Q x)
    → (db : Db) → Table fixed P db
    → Table fixed Q db
Table-mono fixed P Q f db h = (All_mono P Q f db.tables.refunds h.0, h.1)

-- `Q` of the rows after a success, `P` after an error
abbrev pub RowsAfter {ℓ} :
    {A : Type 0}
    → List Terms × List Payment
    → (Refund → Type ℓ)
    → (Refund → Type ℓ)
    → Result Error A × Db
    → Type ℓ
RowsAfter fixed P Q (ok _, db) = Table fixed Q db
RowsAfter fixed P Q (err _, db) = Table fixed P db

module _ {ℓ} (P Q : Refund → Type ℓ) (p : Refund → Bool) (f : Refund → Refund) where
  pub update_where-All :
      ((x : Refund) → P x → p x ≡ true → Q (f x))
      → ((x : Refund) → P x → p x ≡ false → Q x)
      → (rows : List Refund) → All P rows
      → All Q (update_where p f rows)
  update_where-All hit miss [] h = tt
  update_where-All hit miss (x ∷ rows) h = (here (p x) refl, update_where-All hit miss rows h.1)
    where
      here : (b : Bool) → p x ≡ b → Q (if b then f x else x)
      here true e = hit x h.0 e
      here false e = miss x h.0 e

pub all_terms-update_where :
    (p : Refund → Bool) (f : Refund → Refund)
    → ((x : Refund) → terms (f x) ≡ terms x)
    → (rows : List Refund) → all_terms (update_where p f rows) ≡ all_terms rows
all_terms-update_where p f keeps [] = refl
all_terms-update_where p f keeps (x ∷ rows) = rw (all_terms-update_where p f keeps rows) (
    ap (λ (id : Terms). id ∷ all_terms rows)
      (if_rule (λ (y : Refund). terms y ≡ terms x) (p x) (keeps x) refl))

module _ {ℓ} (fixed : List Terms × List Payment) (P Q : Refund → Type ℓ) (now : ℤ) (e : Error)
    (p : Refund → Bool) (set : Refund → Refund) where
  pub update_refunds-RowsAfter :
      ((x : Refund) → terms (set x) ≡ terms x)
      → ((x : Refund) → P x → p x ≡ true → Q (stamped now set x))
      → ((x : Refund) → P x → p x ≡ false → Q x)
      → (db : Db) → Table fixed P db
      → RowsAfter fixed P Q (update_refunds now e p set db)
  unfolding update_refunds
  update_refunds-RowsAfter keeps hit miss db h =
      if_rule (RowsAfter fixed P Q) (next_call db.faults).0 h (
        if_rule (RowsAfter fixed P Q) (any p db.tables.refunds)
          (
            update_where-All P Q p (stamped now set) hit miss db.tables.refunds h.0,
            ap (λ (ts : List Terms). (ts, db.tables.payments))
                  (all_terms-update_where p (stamped now set) keeps db.tables.refunds)
                ∙ h.1,
          )
          h)

scanned-tables :
    {A : Type 0} (e : Error) (db : Db) (o : Option A) → (scanned e db o).1.tables ≡ db.tables
scanned-tables e db none = refl
scanned-tables e db (some a) = refl

pub query_row-tables :
    {A : Type 0} (e : Error) (select : Tables → Option A) (db : Db)
    → (query_row e select db).1.tables ≡ db.tables
query_row-tables {A} e select db =
    if_rule (λ (r : Result Error A × Db). r.1.tables ≡ db.tables) (next_call db.faults).0 refl
      (scanned-tables e _ (select db.tables))

-- A query returns what it selects, from the tables as they are.
abbrev pub Selected : {A : Type 0} → Tables → (A → Type 0) → Result Error A × Db → Type 0
Selected t P (ok a, db) = P a × (db.tables ≡ t)
Selected t P (err _, db) = db.tables ≡ t

scanned-Selected :
    {A : Type 0} (P : A → Type 0) (e : Error) (db : Db) (o : Option A)
    → ((a : A) → o ≡ some a → P a)
    → Selected db.tables P (scanned e db o)
scanned-Selected P e db none h = refl
scanned-Selected P e db (some a) h = (h a refl, refl)

pub query_row-Selected :
    {A : Type 0} (P : A → Type 0) (e : Error) (select : Tables → Option A) (db : Db)
    → ((a : A) → select db.tables ≡ some a → P a)
    → Selected db.tables P (query_row e select db)
query_row-Selected {A} P e select db h =
    if_rule (Selected db.tables P) (next_call db.faults).0 refl
      (scanned-Selected P e _ (select db.tables) h)

pub find_where-All {ℓ κ} :
    {A : Type ℓ} (P : A → Type κ) (q : A → Bool) (xs : List A) {a : A}
    → All P xs
    → find_where q xs ≡ some a
    → P a × (q a ≡ true)
find_where-All P q [] h e = cc
find_where-All P q (x ∷ xs) {a = a} h e = elim (Bool-cases (q x)) [
  | inl holds ↦
      let same : some x ≡ some a = rw holds at e in
      let x_is_a : x ≡ a = cc in subst (λ y. P y × (q y ≡ true)) x_is_a (h.0, holds)
  | inr fails ↦ find_where-All P q xs h.1 (rw fails at e)
]
