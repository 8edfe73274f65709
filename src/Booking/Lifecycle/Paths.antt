-- ===== src/Booking/Lifecycle/Paths.antt =====
-- The way that a booking takes through the statuses in a run.
use mathlib.Core.List.{append-nil, append_assoc}
use mathlib.Core.Path.{subst}
use tissi_mah.Prelude.{
  ℤ, String, str_eq, eq_iff, Bool, true, false, some, List, [], ◌∷◌, ◌++◌, ◌≡◌, refl, sym, ◌∙◌, inl,
  inr, Bool-cases,
}
use tissi_mah.Booking.Domain.{
  BookingStatus, Booking, StatusHistoryEntry, rejected, cancelled, completed, no_show,
}
use tissi_mah.Booking.Store.{Tables, Db, find_row}
use tissi_mah.Booking.Store.Rows.{id_of_find_row, All-find_row}
use tissi_mah.Booking.Commands.{Command, run}
use tissi_mah.Booking.Lifecycle.{IsValid, Chained, last_status, status_after, ◌⟶◌}
use tissi_mah.Booking.Lifecycle.History.{last_status-append_one}
use tissi_mah.Booking.Lifecycle.Runs.{run-IsValid}

-- some steps of the diagram, or none
infix 40 ◌⟶*◌
pub data ◌⟶*◌ : BookingStatus → BookingStatus → Type 0 where
  stop : {a : BookingStatus} → a ⟶* a
  go : {a b c : BookingStatus} → a ⟶ b → b ⟶* c → a ⟶* c

-- the statuses that no step leaves
abbrev pub is_final : BookingStatus → Bool
is_final rejected = true
is_final cancelled = true
is_final completed = true
is_final no_show = true
is_final _ = false

status_after-append_one :
    (id : String) (h : List StatusHistoryEntry) (e : StatusHistoryEntry)
    → status_after id (h ++ e ∷ [])
      ≡ elim (str_eq e.booking_id id) [ true ↦ e.new_status | false ↦ status_after id h ]
status_after-append_one id h e = elim (Bool-cases (str_eq e.booking_id id)) [
  | inl same ↦ rw (same, last_status-append_one id h e, same, status_after) refl
  | inr other ↦ rw (other, last_status-append_one id h e, other, status_after) refl
]

-- one more entry takes each booking at most one step along the diagram
follow :
    (id : String) (seen : List StatusHistoryEntry) (e : StatusHistoryEntry) (last : BookingStatus)
    → status_after e.booking_id seen ≡ e.previous_status
    → e.previous_status ⟶ e.new_status
    → status_after id (seen ++ e ∷ []) ⟶* last
    → status_after id seen ⟶* last
follow id seen e last from step rest = elim (Bool-cases (str_eq e.booking_id id)) [
  | inl same ↦
      let p : status_after id (seen ++ e ∷ []) ≡ e.new_status =
        status_after-append_one id seen e ∙ rw same refl in
      let q : status_after id seen ≡ e.previous_status =
        subst (λ (j : String). status_after j seen ≡ e.previous_status)
          ((eq_iff e.booking_id id).0 same) from in
      subst (λ (s : BookingStatus). s ⟶* last) (sym q)
        (go step (subst (λ (s : BookingStatus). s ⟶* last) p rest))
  | inr other ↦
      let p : status_after id (seen ++ e ∷ []) ≡ status_after id seen =
        status_after-append_one id seen e ∙ rw other refl in
      subst (λ (s : BookingStatus). s ⟶* last) p rest
]

-- entries that continue a history take each booking along the diagram
Chained-⟶* :
    (id : String) (seen es : List StatusHistoryEntry)
    → Chained seen es
    → status_after id seen ⟶* status_after id (seen ++ es)
Chained-⟶* id seen [] c = rw append-nil stop
Chained-⟶* id seen (e ∷ es) (from, step, c) =
    follow id seen e (status_after id (seen ++ e ∷ es)) from step (
      subst (λ (h : List StatusHistoryEntry). status_after id (seen ++ e ∷ []) ⟶* status_after id h)
        (append_assoc seen (e ∷ []) es) (Chained-⟶* id (seen ++ e ∷ []) es c))

-- the row of a booking has the status that the history says
status_of_row :
    (base : List StatusHistoryEntry) (t : Tables) (id : String) (b : Booking)
    → IsValid base t
    → find_row id t.bookings ≡ some b
    → status_after id t.history ≡ b.status
status_of_row base t id b v e =
    let logged : last_status id t.history ≡ some b.status =
      subst (λ (j : String). last_status j t.history ≡ some b.status)
        ((eq_iff b.booking_id id).0 (id_of_find_row id t.bookings e))
        (All-find_row (λ r. last_status r.booking_id t.history ≡ some r.status) id t.bookings
          v.logged e) in
    rw (logged, status_after) refl

-- valid tables are valid from their own history on
rebase : (base : List StatusHistoryEntry) (t : Tables) → IsValid base t → IsValid t.history t
rebase base t v = record {
  unique = v.unique;
  logged = v.logged;
  unlogged = v.unlogged;
  consistent = v.consistent;
  chained = ([], rw append-nil refl, tt);
}

-- From valid tables (identifiers unique, each booking with the status of its last entry in the history, the
-- recorded refunds and contests consistent), in a run of the calls that the service makes of the
-- repository, in any order, at any times and with any failures, a booking that is there before and after
-- has gone from the one status to the other along the diagram.
pub run_follows :
    (base : List StatusHistoryEntry) (cs : List (ℤ × Command)) (db : Db) (id : String)
    (b b' : Booking)
    → IsValid base db.tables
    → find_row id db.tables.bookings ≡ some b
    → find_row id (run cs db).tables.bookings ≡ some b'
    → b.status ⟶* b'.status
run_follows base cs db id b b' v e e' =
    let v' : IsValid db.tables.history (run cs db).tables =
      run-IsValid db.tables.history cs db (rebase base db.tables v) in
    let (es, h, c) = v'.chained in
    subst (λ (s : BookingStatus). s ⟶* b'.status) (status_of_row base db.tables id b v e)
      (subst (λ (s : BookingStatus). status_after id db.tables.history ⟶* s)
        (status_of_row db.tables.history (run cs db).tables id b' v' e')
        (subst
          (λ (l : List StatusHistoryEntry). status_after id db.tables.history ⟶* status_after id l)
          (sym h) (Chained-⟶* id db.tables.history es c)))

step_from_open : {a b : BookingStatus} → a ⟶ b → is_final a ≡ false
step_from_open ◌⟶◌.book_online = refl
step_from_open ◌⟶◌.book_cash = refl
step_from_open ◌⟶◌.book_approved = refl
step_from_open ◌⟶◌.approve = refl
step_from_open ◌⟶◌.reject = refl
step_from_open ◌⟶◌.cancel_created = refl
step_from_open ◌⟶◌.cancel_payment_pending = refl
step_from_open ◌⟶◌.cancel_pending_approval = refl
step_from_open ◌⟶◌.cancel_approved = refl
step_from_open ◌⟶◌.start = refl
step_from_open ◌⟶◌.complete = refl
step_from_open ◌⟶◌.miss_departure = refl
step_from_open ◌⟶◌.miss_trip = refl
step_from_open ◌⟶◌.pay = refl
step_from_open ◌⟶◌.pay_approved = refl
step_from_open ◌⟶◌.pay_late = refl
step_from_open ◌⟶◌.pay_late_approved = refl
step_from_open ◌⟶◌.fail = refl

final_stays : {a b : BookingStatus} → is_final a ≡ true → a ⟶* b → b ≡ a
final_stays f stop = refl
final_stays f (go s r) = let p : true ≡ false = sym f ∙ step_from_open s in cc

-- From valid tables (identifiers unique, each booking with the status of its last entry in the history, the
-- recorded refunds and contests consistent), in a run of the calls that the service makes of the
-- repository, a booking that is rejected, cancelled, completed or a no-show keeps this status as long as
-- it is there.
pub run_final :
    (base : List StatusHistoryEntry) (cs : List (ℤ × Command)) (db : Db) (id : String)
    (b b' : Booking)
    → IsValid base db.tables
    → find_row id db.tables.bookings ≡ some b
    → is_final b.status ≡ true
    → find_row id (run cs db).tables.bookings ≡ some b'
    → b'.status ≡ b.status
run_final base cs db id b b' v e f e' = final_stays f (run_follows base cs db id b b' v e e')
