-- ===== src/Booking/Lifecycle/Preserve.antt =====
-- Lawful changes keep the tables valid.
use mathlib.Core.Path.{subst}
use mathlib.Core.List.{append-nil, append_assoc}
use text.Mathlib.TextPositions.{eq_refl}
use tissi_mah.Prelude.{
  ℤ, String, str_eq, eq_iff, Bool, true, false, none, some, List, [], ◌∷◌, ◌++◌, ◌≡◌, refl, sym,
  ◌∙◌, arith, All, Bool-cases, inl, inr,
}
use tissi_mah.Booking.Domain.{Booking, StatusHistoryEntry}
use tissi_mah.Booking.Store.{Tables, Change, find_row, update_row, filter_rows, touch}
use tissi_mah.Booking.Store.Transaction.{changed, changed_all, logged}
use tissi_mah.Booking.Store.Rows.{
  UniqueIds, KeepsId, All-update_row, All-find_row, id_of_find_row, update_row-UniqueIds,
  find_row-update_row_ne, find_row-none-update_row, filter_absent,
}
use tissi_mah.Booking.Lifecycle.{
  last_status, Chained, IsValid, IsLawful, LogsStep, Consistent, status_after,
}
use tissi_mah.Booking.Lifecycle.History.{last_status-append_one, Chained-append_one}

module _ (base : List StatusHistoryEntry) (now : ℤ) (id : String) (t : Tables) (b : Booking)
    (c : Change) (valid : IsValid base t) (found : find_row id t.bookings ≡ some b)
    (lawful : IsLawful b c) where
  same_id : b.booking_id ≡ id
  same_id = (eq_iff _ _).0 (id_of_find_row id t.bookings found)

  b_logged : last_status id t.history ≡ some b.status
  b_logged =
      subst (λ (j : String). last_status j t.history ≡ some b.status) same_id
        (All-find_row (λ r. last_status r.booking_id t.history ≡ some r.status) id t.bookings
          valid.logged found)

  b_status : status_after id t.history ≡ b.status
  b_status = rw (b_logged, status_after) refl

  -- the changed booking has the status that the history says
  status_logged : LogsStep b c → last_status id (t.history ++ logged c.log) ≡ some (c.set b).status
  status_logged (inl (quiet, same)) = rw (quiet, append-nil, same) b_logged
  status_logged (inr (e, log, ids, old, new, step)) =
      rw log
        (rw (last_status-append_one id t.history e) ground (arith, same_id, eq_iff e.booking_id id))

  -- the other bookings have no new entry
  other_logged :
      LogsStep b c
      → (j : String) → str_eq j id ≡ false
      → last_status j (t.history ++ logged c.log) ≡ last_status j t.history
  other_logged (inl (quiet, same)) j ne = rw (quiet, append-nil) refl
  other_logged (inr (e, log, ids, old, new, step)) j ne = rw log (
      rw (last_status-append_one j t.history e) ground
        (arith, same_id, eq_iff e.booking_id j, eq_iff j id))

  logged_after :
      All
        (λ r. last_status r.booking_id (changed now id c t).history ≡ some r.status)
        (changed now id c t).bookings
  logged_after =
      All-update_row (λ r. last_status r.booking_id t.history ≡ some r.status)
        (λ r. last_status r.booking_id (t.history ++ logged c.log) ≡ some r.status) id
        (touch now c.set) t.bookings valid.unique valid.logged found
        (λ _.
          subst (λ (j : String). last_status j (t.history ++ logged c.log) ≡ some (c.set b).status)
            (sym (lawful.keeps_id b ∙ same_id)) (status_logged lawful.logs_step))
        (λ r ne p. other_logged lawful.logs_step r.booking_id ne ∙ p)

  not_found : (j : String) → find_row j t.bookings ≡ none → str_eq j id ≡ false
  not_found j n = ground (arith, eq_iff j id)

  unlogged_after :
      (j : String)
      → find_row j (changed now id c t).bookings ≡ none
      → last_status j (changed now id c t).history ≡ none
  unlogged_after j n =
      let before = find_row-none-update_row id j (touch now c.set) t.bookings lawful.keeps_id n in
      other_logged lawful.logs_step j (not_found j before) ∙ valid.unlogged j before

  Consistent-after : All Consistent (changed now id c t).bookings
  Consistent-after =
      All-update_row Consistent Consistent id (touch now c.set) t.bookings valid.unique
        valid.consistent found (λ p. lawful.keeps_consistent p) (λ r n p. p)

  extend :
      LogsStep b c
      → (es : List StatusHistoryEntry) → t.history ≡ base ++ es
      → Chained base es
      → (fs : List StatusHistoryEntry) × (t.history ++ logged c.log ≡ base ++ fs) × Chained base fs
  extend (inl (quiet, same)) es e h = (es, rw (quiet, append-nil) e, h)
  extend (inr (x, log, ids, old, new, step)) es e h = (
    es ++ x ∷ [],
    rw (log, e, append_assoc) refl,
    Chained-append_one base es x h (rw (← e, ids ∙ same_id) (b_status ∙ sym old))
        (rw (old, new) step),
  )

  Chained-after :
      (es : List StatusHistoryEntry) × ((changed now id c t).history ≡ base ++ es) × Chained base es
  Chained-after = extend lawful.logs_step valid.chained.0 valid.chained.1 valid.chained.2

  pub changed-IsValid : IsValid base (changed now id c t)
  changed-IsValid = record {
    unique = update_row-UniqueIds id (touch now c.set) t.bookings lawful.keeps_id valid.unique;
    logged = logged_after;
    unlogged = unlogged_after;
    consistent = Consistent-after;
    chained = Chained-after;
  }

-- bookings to change one after the other: each is in the table, and none comes twice
abbrev pub Pending : List Booking → List Booking → Type 0
Pending [] rows = Unit
Pending (b ∷ bs) rows =
    (find_row b.booking_id rows ≡ some b)
    × All (λ r. str_eq b.booking_id r.booking_id ≡ false) bs
    × Pending bs rows

Pending-update_row :
    (b : Booking) (f : Booking → Booking) (bs rows : List Booking)
    → KeepsId f
    → All (λ r. str_eq b.booking_id r.booking_id ≡ false) bs
    → Pending bs rows
    → Pending bs (update_row b.booking_id f rows)
Pending-update_row b f [] rows k n p = tt
Pending-update_row b f (r ∷ bs) rows k n p = (
  find_row-update_row_ne b.booking_id r.booking_id f rows k n.0 ∙ p.0,
  p.1,
  Pending-update_row b f bs rows k n.1 p.2,
)

Pending-cons :
    (r : Booking) (bs rows : List Booking)
    → All (λ c. str_eq r.booking_id c.booking_id ≡ false) bs
    → Pending bs rows
    → Pending bs (r ∷ rows)
Pending-cons r [] rows n p = tt
Pending-cons r (b ∷ bs) rows n p = (rw (n.0) p.0, p.1, Pending-cons r bs rows n.1 p.2)

pub Pending-filter_rows :
    (p : Booking → Bool) (rows : List Booking) → UniqueIds rows → Pending (filter_rows p rows) rows
Pending-filter_rows p [] u = tt
Pending-filter_rows p (r ∷ rows) u =
    let rest =
      Pending-cons r (filter_rows p rows) rows (filter_absent r.booking_id p rows u.0)
        (Pending-filter_rows p rows u.1) in
    elim (Bool-cases (p r)) [
      | inl chosen ↦
          rw chosen (rw (eq_refl r.booking_id), filter_absent r.booking_id p rows u.0, rest)
      | inr passed ↦ rw passed rest
    ]

All-filter_rows :
    {P : Booking → Type 0} (p : Booking → Bool) (rows : List Booking)
    → ((b : Booking) → p b ≡ true → P b)
    → All P (filter_rows p rows)
All-filter_rows p [] k = tt
All-filter_rows p (r ∷ rows) k = elim (Bool-cases (p r)) [
  | inl chosen ↦ rw chosen (k r chosen, All-filter_rows p rows k)
  | inr passed ↦ rw passed (All-filter_rows p rows k)
]

module _ (base : List StatusHistoryEntry) (now : ℤ) (per : Booking → Change) where
  changed_all-IsValid :
      (bs : List Booking) (t : Tables)
      → IsValid base t
      → Pending bs t.bookings
      → All (λ b. IsLawful b (per b)) bs
      → IsValid base (changed_all now per bs t)
  changed_all-IsValid [] t v p l = v
  changed_all-IsValid (b ∷ bs) t v p l =
      changed_all-IsValid bs (changed now b.booking_id (per b) t)
        (changed-IsValid base now b.booking_id t b (per b) v p.0 l.0)
        (Pending-update_row b (touch now (per b).set) bs t.bookings l.0.keeps_id p.1 p.2) l.1

  pub changed_all_filtered-IsValid :
      (p : Booking → Bool) (t : Tables)
      → IsValid base t
      → ((b : Booking) → p b ≡ true → IsLawful b (per b))
      → IsValid base (changed_all now per (filter_rows p t.bookings) t)
  changed_all_filtered-IsValid p t v k =
      changed_all-IsValid (filter_rows p t.bookings) t v (Pending-filter_rows p t.bookings v.unique)
        (All-filter_rows p t.bookings k)
