-- ===== src/Payment/Store.antt =====
-- The tables of payment-service and the statements of
-- services/payment-service/internal/repository/implementations on payments and refunds.
-- Postgres and its driver are not part of the repository. What the code relies on is written out:
-- each statement runs as a whole, or fails and changes nothing; keys are unique; a trigger sets
-- `updated_at`. `faults` says which calls of the driver to come fail.
pub mod Statements
use tissi_mah.Prelude.{
  ℤ, pos, leb_ℤ, String, str_eq, Bool, true, false, ◌&&◌, ◌||◌, Option, none, some, List, [], ◌∷◌,
  ◌++◌, any, if◌then◌else◌,
}
use tissi_mah.Prelude.Result.{Result, ok, err, next_call}
use tissi_mah.Payment.Domain.{
  Payment, Refund, PaymentStatusHistory, RefundStatusHistory, Error, is_valid, RefundRule,
}

pub record Tables : Type 0 where
  pub payments : List Payment
  pub refunds : List Refund
  pub payment_history : List PaymentStatusHistory
  pub refund_history : List RefundStatusHistory

pub record Db : Type 0 where
  pub tables : Tables
  pub faults : List Bool

-- A call that reads and writes the database, and returns a value or an error.
abbrev pub Action : Type 0 → Type 0
Action A = Db → Result Error A × Db

-- `UPDATE … WHERE …`
abbrev pub update_where {ℓ} : {A : Type ℓ} → (A → Bool) → (A → A) → List A → List A
update_where p f [] = []
update_where p f (x ∷ xs) = (if p x then f x else x) ∷ update_where p f xs

abbrev pub find_where {ℓ} : {A : Type ℓ} → (A → Bool) → List A → Option A
find_where p [] = none
find_where p (x ∷ xs) = if p x then some x else find_where p xs

abbrev pub filter_where {ℓ} : {A : Type ℓ} → (A → Bool) → List A → List A
filter_where p [] = []
filter_where p (x ∷ xs) = if p x then x ∷ filter_where p xs else filter_where p xs

abbrev pub stamped : ℤ → (Refund → Refund) → Refund → Refund
stamped now set r = let r' = set r in record r' { updated_at = now }

abbrev pub write_refunds : ℤ → (Refund → Bool) → (Refund → Refund) → Tables → Tables
write_refunds now p set t = record t { refunds = update_where p (stamped now set) t.refunds }

-- An UPDATE of refunds: `none_left` where `RowsAffected` is 0.
unfoldable pub update_refunds : ℤ → Error → (Refund → Bool) → (Refund → Refund) → Action (Unit {0})
update_refunds now none_left p set db =
    let (fails, rest) = next_call db.faults in
    let db' : Db = record db { faults = rest } in
    if fails
    then (err Error.internal_server, db')
    else if any p db.tables.refunds
    then (ok tt, record db' { tables = write_refunds now p set db.tables })
    else (err none_left, db')

-- `QueryRow` and the scan of the row
abbrev pub scanned : {A : Type 0} → Error → Db → Option A → Result Error A × Db
scanned no_rows db none = (err no_rows, db)
scanned no_rows db (some a) = (ok a, db)

abbrev pub query_row : {A : Type 0} → Error → (Tables → Option A) → Action A
query_row no_rows select db =
    let (fails, rest) = next_call db.faults in
    let db' : Db = record db { faults = rest } in
    if fails then (err Error.data_retrieval_failed, db') else scanned no_rows db' (select db.tables)

-- the entries of the histories, whose failure is only logged
unfoldable pub write_refund_history : RefundStatusHistory → Db → Db
write_refund_history entry db =
    let (fails, rest) = next_call db.faults in
    let db' : Db = record db { faults = rest } in
    let t = db.tables in
    if fails
    then db'
    else record db' { tables = record t { refund_history = t.refund_history ++ entry ∷ [] } }

unfoldable pub write_payment_history : PaymentStatusHistory → Db → Db
write_payment_history entry db =
    let (fails, rest) = next_call db.faults in
    let db' : Db = record db { faults = rest } in
    let t = db.tables in
    if fails
    then db'
    else record db' { tables = record t { payment_history = t.payment_history ++ entry ∷ [] } }
