-- ===== src/Booking/Repository/Creation/Outcome.antt =====
-- What Create does to the tables.
use mathlib.Core.List.{append-nil, append_assoc}
use mathlib.Core.Path.{subst}
use tissi_mah.Prelude.{ℤ, true, List, [], ◌∷◌, ◌++◌, some, ◌≡◌, refl, sym, Bool-cases, inl, inr}
use tissi_mah.Booking.Domain.{Booking, Segment, StatusHistoryEntry, internal_server}
use tissi_mah.Booking.Store.{Tables, Db, insert_history, ◌>>◌}
use tissi_mah.Booking.Store.Transaction.{
  Outcome, Triple, Triple->>=, Triple-exec, Triple_write, Triple-insert_history,
  transaction-Outcome,
}
use tissi_mah.Booking.Repository.Creation.{
  accepts, inserted, insert_booking, insert_segments, create,
}

-- the tables with the booking, its segments and the entry
abbrev pub with_booking : ℤ → Booking → List Segment → StatusHistoryEntry → Tables → Tables
with_booking now b segments entry t = record {
  bookings = inserted now b ∷ t.bookings;
  segments = t.segments ++ segments;
  history = t.history ++ entry ∷ [];
}

Triple-insert_segments :
    (Q : Unit {0} → Tables → Type 0) (segments : List Segment) (t : Tables)
    → Q tt (record t { segments = t.segments ++ segments })
    → Triple t (insert_segments segments) Q
unfolding insert_segments
Triple-insert_segments Q [] t q fs = rw append-nil at q
Triple-insert_segments Q (s ∷ ss) t q fs =
    Triple_write Q t internal_server (λ u. record u { segments = u.segments ++ s ∷ [] })
      (insert_segments ss)
      (Triple-insert_segments Q ss (record t { segments = t.segments ++ s ∷ [] })
        (rw append_assoc q))
      fs

Triple-insert_booking :
    (now : ℤ) (b : Booking) (t : Tables)
    → Triple t
        (insert_booking now b)
        (λ _ u. (accepts t b ≡ true) × (u ≡ record t { bookings = inserted now b ∷ t.bookings }))
unfolding insert_booking
Triple-insert_booking now b t fs = elim (Bool-cases (accepts t b)) [
  | inr refused ↦ rw refused tt
  | inl fine ↦ rw fine (
      Triple-exec (λ _ u. (true ≡ true) × (u ≡ record t { bookings = inserted now b ∷ t.bookings }))
        t internal_server (λ u. record u { bookings = inserted now b ∷ u.bookings }) (refl, refl)
        fs)
]

-- Create writes the booking, all of its segments and the entry of the history, of a row that the
-- table accepts, or it fails and leaves the tables as they were.
pub create-Outcome :
    (now : ℤ) (b : Booking) (segments : List Segment) (entry : StatusHistoryEntry) (db : Db)
    → Outcome db.tables
        (λ _ t. (accepts db.tables b ≡ true) × (t ≡ with_booking now b segments entry db.tables))
        (create now b segments entry db)
unfolding create
create-Outcome now b segments entry db =
    transaction-Outcome Done (λ _. internal_server)
      (insert_booking now b >> (insert_segments segments >> insert_history (some entry))) db
      (Triple->>= (λ _ u. (accepts t b ≡ true) × (u ≡ with_row)) Done t (insert_booking now b)
        (λ _. insert_segments segments >> insert_history (some entry))
        (Triple-insert_booking now b t)
        (λ _ u h.
          subst
            (λ (v : Tables).
              Triple v (insert_segments segments >> insert_history (some entry)) Done)
            (sym h.1) (rest h.0)))
  where
    open db use {tables as t}

    Done : Unit {0} → Tables → Type 0
    Done _ u = (accepts t b ≡ true) × (u ≡ with_booking now b segments entry t)

    with_row : Tables
    with_row = record t { bookings = inserted now b ∷ t.bookings }

    with_segments : Tables
    with_segments = record with_row { segments = t.segments ++ segments }

    rest :
        accepts t b ≡ true
        → Triple with_row (insert_segments segments >> insert_history (some entry)) Done
    rest fine =
        Triple->>= (λ _ u. u ≡ with_segments) Done with_row (insert_segments segments)
          (λ _. insert_history (some entry))
          (Triple-insert_segments (λ _ u. u ≡ with_segments) segments with_row refl)
          (λ _ u h.
            subst (λ (v : Tables). Triple v (insert_history (some entry)) Done) (sym h)
              (Triple-insert_history Done with_segments (some entry) (fine, refl)))
