-- ===== src/Booking/Store.antt =====
-- The tables of booking-service and the transactions of
-- services/booking-service/internal/repository/implementations/booking_write_repository.go.
-- Postgres and its driver are not part of the repository. What the code relies on is written out: the
-- statements of the code run one after the other on the tables, `booking_id` is a primary key, a
-- trigger sets `updated_at`, a transaction that does not commit leaves no trace, and each call of the
-- driver may fail. `faults` says which calls to come fail: one entry for each call, and none left
-- means that all succeed.
pub mod Rows
pub mod Transaction
use tissi_mah.Prelude.{
  ℤ, String, str_eq, Bool, true, false, Option, none, some, List, [], ◌∷◌, ◌++◌, if◌then◌else◌,
}
use tissi_mah.Prelude.Result.{Result, ok, err}
pub use tissi_mah.Prelude.Result.{next_call}
use tissi_mah.Booking.Domain.{
  Booking, Segment, StatusHistoryEntry, Error, internal_server, driver_error, booking_not_found,
  data_retrieval_failed,
}

pub record Tables : Type 0 where
  pub bookings : List Booking
  pub segments : List Segment
  pub history : List StatusHistoryEntry

pub record Db : Type 0 where
  pub tables : Tables
  pub faults : List Bool

-- A call that reads and writes the database, and returns a value or an error.
abbrev pub Action : Type 0 → Type 0
Action A = Db → Result Error A × Db

infixl 5 ◌>>=◌ ◌>>◌
abbrev pub ◌>>=◌ : {A B : Type 0} → Action A → (A → Action B) → Action B
◌>>=◌ m f db = let (r, db') = m db in elim r [ ok a ↦ f a db' | err e ↦ (err e, db') ]

abbrev pub ◌>>◌ : {B : Type 0} → Action (Unit {0}) → Action B → Action B
m >> k = m >>= λ _. k

abbrev pub lift : {A : Type 0} → Result Error A → Action A
lift r db = (r, db)

-- A statement that writes: nothing is written where it fails.
abbrev pub exec : Error → (Tables → Tables) → Action (Unit {0})
exec e write db =
    let (fails, rest) = next_call db.faults in
    if fails
    then (err e, record db { faults = rest })
    else (ok tt, record { tables = write db.tables; faults = rest })

-- the deferred `tx.Rollback`, which does nothing after a commit
rollback : {A : Type 0} → Tables → Result Error A × Db → Result Error A × Db
rollback t (ok a, db) = (ok a, db)
rollback t (err e, db) = (err e, record db { tables = t })

-- `pool.Begin`, the body, and `tx.Commit`, whose error may depend on what the body returns.
unfoldable pub transaction : {A : Type 0} → (A → Error) → Action A → Action A
unfolding rollback
transaction commit_error body db = rollback db.tables (
    (exec internal_server (λ t. t) >> (body >>= λ a. exec (commit_error a) (λ t. t) >> lift (ok a)))
      db)

-- `WHERE booking_id = $1`
abbrev pub find_row : String → List Booking → Option Booking
find_row id [] = none
find_row id (b ∷ bs) = if str_eq b.booking_id id then some b else find_row id bs

abbrev pub update_row : String → (Booking → Booking) → List Booking → List Booking
update_row id f [] = []
update_row id f (b ∷ bs) = if str_eq b.booking_id id then f b ∷ bs else b ∷ update_row id f bs

-- `SELECT … WHERE booking_id = $1 FOR UPDATE`, and the scan of the row
abbrev pub select_for_update : String → Action Booking
select_for_update id db =
    let (fails, rest) = next_call db.faults in
    let db' : Db = record db { faults = rest } in
    if fails then (err data_retrieval_failed, db') else elim (find_row id db.tables.bookings) [
      | none ↦ (err booking_not_found, db')
      | some b ↦ (ok b, db')
    ]

-- `UPDATE bookings SET … WHERE booking_id = $1`, with the trigger on `updated_at`
abbrev pub touch : ℤ → (Booking → Booking) → Booking → Booking
touch now set b = let b' = set b in record b' { updated_at = now }

abbrev pub write_row : ℤ → String → (Booking → Booking) → Tables → Tables
write_row now id set t = record t { bookings = update_row id (touch now set) t.bookings }

abbrev pub write_history : StatusHistoryEntry → Tables → Tables
write_history entry t = record t { history = t.history ++ entry ∷ [] }

-- insertHistory and insertHistoryInTx
abbrev pub insert_history : Option StatusHistoryEntry → Action (Unit {0})
insert_history none = lift (ok tt)
insert_history (some entry) = exec internal_server (write_history entry)

abbrev pub filter_rows : (Booking → Bool) → List Booking → List Booking
filter_rows p [] = []
filter_rows p (b ∷ bs) = if p b then b ∷ filter_rows p bs else filter_rows p bs

-- `SELECT … FOR UPDATE` of several rows
abbrev pub select_rows : (Booking → Bool) → Action (List Booking)
select_rows p db =
    let (fails, rest) = next_call db.faults in
    let db' : Db = record db { faults = rest } in
    if fails then (err internal_server, db') else (ok (filter_rows p db.tables.bookings), db')

-- What a method does to the row that it has locked: the assignments, and the entry of the history.
pub record Change : Type 0 where
  pub set : Booking → Booking
  pub log : Option StatusHistoryEntry

-- The frame that the methods on one booking share: begin, lock the row, decide, update it, log,
-- commit.
unfoldable pub change_booking : ℤ → String → (Booking → Result Error Change) → Action (Unit {0})
change_booking now id decide =
    transaction (λ _. driver_error)
      do
        b ← select_for_update id
        c ← lift (decide b)
        exec internal_server (write_row now id c.set)
        insert_history c.log

-- The loop of the methods on several bookings.
unfoldable pub change_all : ℤ → (Booking → Change) → List Booking → Action (Unit {0})
change_all now per [] = lift (ok tt)
change_all now per (b ∷ bs) = do
  exec internal_server (write_row now b.booking_id (per b).set)
  insert_history (per b).log
  change_all now per bs

-- An empty selection returns the driver's error of the commit, the others an internal error.
abbrev pub bulk_commit_error : List Booking → Error
bulk_commit_error [] = driver_error
bulk_commit_error (_ ∷ _) = internal_server

-- The frame that the methods on several bookings share: begin, lock the rows, update and log each,
-- commit, and return the rows as they were.
unfoldable pub change_bookings : ℤ → (Booking → Bool) → (Booking → Change) → Action (List Booking)
change_bookings now p per =
    transaction bulk_commit_error do bs ← select_rows p; change_all now per bs; lift (ok bs)
