-- ===== src/Booking/Repository/Bulk/Effect.antt =====
-- What the methods on several bookings do to the tables.
use mathlib.Core.Path.{subst}
use tissi_mah.Prelude.{ℤ, Bool, ◌++◌, ◌≡◌, refl, sym, ◌∙◌}
use tissi_mah.Prelude.Result.{Result, ok, err}
use tissi_mah.Booking.Domain.{Booking, Error}
use tissi_mah.Booking.Store.{Tables, Db, Change, filter_rows, touch, change_bookings, ◌>>=◌, lift}
use tissi_mah.Booking.Store.Transaction.{Outcome, changed_all, change_bookings-Outcome}
use tissi_mah.Booking.Store.Rows.{
  UniqueIds, KeepsId, logs, map_where, changed_all_lem, update_all-filter_rows,
}

-- The selected bookings, each changed once in its place, and an entry for each at the end of the history;
-- all else is as it was.
abbrev pub ChangedWhere : ℤ → (Booking → Bool) → (Booking → Change) → Tables → Tables → Type 0
ChangedWhere now p per before after =
    (after.bookings ≡ map_where p (λ b. touch now (per b).set b) before.bookings)
    × (after.history ≡ before.history ++ logs per (filter_rows p before.bookings))
    × (after.segments ≡ before.segments)

pub weaken :
    {A : Type 0} (t : Tables) (P Q : A → Tables → Type 0) (r : Result Error A × Db)
    → ((a : A) (u : Tables) → P a u → Q a u)
    → Outcome t P r
    → Outcome t Q r
weaken t P Q (ok a, db) k h = k a db.tables h
weaken t P Q (err e, db) k h = h

pub returning :
    {A B : Type 0} (t : Tables) (f : A → B) (P : A → Tables → Type 0) (Q : B → Tables → Type 0)
    (r : Result Error A × Db)
    → ((a : A) (u : Tables) → P a u → Q (f a) u)
    → Outcome t P r
    → Outcome t Q (((λ (_ : Db). r) >>= λ a. lift (ok (f a))) r.1)
returning t f P Q (ok a, db) k h = k a db.tables h
returning t f P Q (err e, db) k h = h

changed_all-ChangedWhere :
    (now : ℤ) (p : Booking → Bool) (per : Booking → Change) (t u : Tables)
    → ((b : Booking) → KeepsId (per b).set)
    → UniqueIds t.bookings
    → u ≡ changed_all now per (filter_rows p t.bookings) t
    → ChangedWhere now p per t u
changed_all-ChangedWhere now p per t u k n e =
    subst (ChangedWhere now p per t)
      (sym (e ∙ changed_all_lem now per (filter_rows p t.bookings) t))
      (update_all-filter_rows (λ b. touch now (per b).set) k p t.bookings n, refl, refl)

pub change_bookings-ChangedWhere :
    (now : ℤ) (p : Booking → Bool) (per : Booking → Change) (db : Db)
    → ((b : Booking) → KeepsId (per b).set)
    → UniqueIds db.tables.bookings
    → Outcome db.tables
        (λ bs u. (bs ≡ filter_rows p db.tables.bookings) × ChangedWhere now p per db.tables u)
        (change_bookings now p per db)
change_bookings-ChangedWhere now p per db k n =
    weaken db.tables _ _ (change_bookings now p per db)
      (λ bs u h. (h.0, changed_all-ChangedWhere now p per db.tables u k n h.1))
      (change_bookings-Outcome now p per db)
