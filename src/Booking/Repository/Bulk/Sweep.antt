-- ===== src/Booking/Repository/Bulk/Sweep.antt =====
-- The methods on several bookings as a walk over the table: each row is picked, changed and logged, or it
-- is passed.
use tissi_mah.Prelude.{ℤ, Bool, true, false, some, List, [], ◌∷◌, ◌++◌, ◌≡◌, Bool-cases, inl, inr}
use tissi_mah.Booking.Domain.{Booking, StatusHistoryEntry}
use tissi_mah.Booking.Store.{Tables, Db, Change, filter_rows, touch, change_bookings}
use tissi_mah.Booking.Store.Transaction.{Outcome}
use tissi_mah.Booking.Store.Rows.{UniqueIds, KeepsId, logs, map_where}
use tissi_mah.Booking.Repository.Bulk.Effect.{ChangedWhere, change_bookings-ChangedWhere, weaken}

-- The rows before, the rows after, the picked rows as they were, and an entry for each of these.
pub data Sweep (Picks : Booking → Type 0) (Becomes : Booking → Booking → Type 0)
    (Logs : Booking → StatusHistoryEntry → Type 0)
    : List Booking → List Booking → List Booking → List StatusHistoryEntry → Type 0 where
  at_end : Sweep Picks Becomes Logs [] [] [] []
  pick :
      {b b' : Booking} {e : StatusHistoryEntry} {bs bs' picked : List Booking}
      {es : List StatusHistoryEntry}
      → Picks b
      → Becomes b b'
      → Logs b e
      → Sweep Picks Becomes Logs bs bs' picked es
      → Sweep Picks Becomes Logs (b ∷ bs) (b' ∷ bs') (b ∷ picked) (e ∷ es)
  pass :
      {b : Booking} {bs bs' picked : List Booking} {es : List StatusHistoryEntry}
      → ¬ Picks b
      → Sweep Picks Becomes Logs bs bs' picked es
      → Sweep Picks Becomes Logs (b ∷ bs) (b ∷ bs') picked es

-- A sweep over the bookings, with its entries at the end of the history and the segments as they were.
abbrev pub Swept :
    (Booking → Type 0)
    → (Booking → Booking → Type 0)
    → (Booking → StatusHistoryEntry → Type 0)
    → Tables
    → List Booking
    → Tables
    → Type 0
Swept Picks Becomes Logs before picked after =
    (es : List StatusHistoryEntry) × Sweep Picks Becomes Logs before.bookings after.bookings picked
      es
    × (after.history ≡ before.history ++ es)
    × (after.segments ≡ before.segments)

module _ (Picks : Booking → Type 0) (Becomes : Booking → Booking → Type 0)
    (Logs : Booking → StatusHistoryEntry → Type 0) (now : ℤ) (p : Booking → Bool)
    (per : Booking → Change) where
  -- what a picked row comes to
  abbrev pub Hits : Type 0
  Hits =
      (b : Booking)
      → p b ≡ true
      → Picks b
        × Becomes b (touch now (per b).set b)
        × ((e : StatusHistoryEntry) × ((per b).log ≡ some e) × Logs b e)

  abbrev pub Misses : Type 0
  Misses = (b : Booking) → p b ≡ false → ¬ Picks b

  map_where-Sweep :
      Hits
      → Misses
      → (rows : List Booking)
      → Sweep Picks Becomes Logs rows
          (map_where p (λ b. touch now (per b).set b) rows)
          (filter_rows p rows)
          (logs per (filter_rows p rows))
  map_where-Sweep hits misses [] = at_end
  map_where-Sweep hits misses (b ∷ bs) = elim (Bool-cases (p b)) [
    | inl chosen ↦
        let h = hits b chosen in
        rw (chosen, h.2.1) (pick h.0 h.1 h.2.2 (map_where-Sweep hits misses bs))
    | inr passed ↦ rw passed (pass (misses b passed) (map_where-Sweep hits misses bs))
  ]

  pub change_bookings-Swept :
      (db : Db)
      → Hits
      → Misses
      → ((b : Booking) → KeepsId (per b).set)
      → UniqueIds db.tables.bookings
      → Outcome db.tables (Swept Picks Becomes Logs db.tables) (change_bookings now p per db)
  change_bookings-Swept db hits misses keeps unique =
      weaken db.tables
        (λ bs u. (bs ≡ filter_rows p db.tables.bookings) × ChangedWhere now p per db.tables u)
        (Swept Picks Becomes Logs db.tables) (change_bookings now p per db)
        (λ bs u h. (
          logs per (filter_rows p db.tables.bookings),
          rw (h.0, h.1.0) (map_where-Sweep hits misses db.tables.bookings),
          h.1.1,
          h.1.2,
        ))
        (change_bookings-ChangedWhere now p per db keeps unique)
