-- ===== src/Booking/Lifecycle/Runs.antt =====
-- Sequences of calls of the repository, in any order, with any arguments and any failures.
use mathlib.Core.List.{append-nil}
use mathlib.Core.Path.{subst}
use tissi_mah.Prelude.{
  ℤ, pos, ◌+ℤ◌, not, is_some, String, Bool, true, Option, none, some, List, [], ◌∷◌, ◌≡◌, refl, sym,
  arith, inl, inr, Bool-cases, Option-cases,
}
use tissi_mah.Prelude.Result.{Result, ok, err}
use tissi_mah.Booking.Domain.{Booking, StatusHistoryEntry, Error}
use tissi_mah.Booking.Store.{
  Tables, Db, Change, find_row, filter_rows, change_booking, change_bookings, next_call, write_row,
  touch, update_row, ◌>>=◌, lift,
}
use tissi_mah.Booking.Store.Transaction.{
  Outcome, change_booking-Outcome, change_bookings-Outcome, effect, effect_on, effect_of, changed,
  changed_all,
}
use tissi_mah.Booking.Store.Rows.{id_of_find_row}
use tissi_mah.Booking.Repository.Approval.{approve, reject, cancel}
use tissi_mah.Booking.Repository.NoShow.{report_no_show, contest_no_show, resolve_no_show_contest}
use tissi_mah.Booking.Repository.Payment.{
  confirm_payment, fail_payment, mark_payment_released, mark_refund_requested,
  increment_refund_request_attempts, update_where, row_required,
}
use tissi_mah.Booking.Repository.Bulk.{
  start_bookings_for_waypoint, complete_bookings_for_waypoint, cancel_bookings_for_trip,
  cancel_bookings_for_waypoint,
}
use tissi_mah.Booking.Request.{new_booking, creation_entry}
use tissi_mah.Booking.Repository.Creation.{accepts, create}
use tissi_mah.Booking.Repository.Creation.Outcome.{with_booking, create-Outcome}
use tissi_mah.Booking.Lifecycle.Creation.{with_booking-IsValid, new_booking-Begins}
use tissi_mah.Booking.Commands.{Command, call, run}
use tissi_mah.Booking.Lifecycle.{IsValid, IsLawful}
use tissi_mah.Booking.Lifecycle.Preserve.{changed-IsValid, changed_all_filtered-IsValid}
use tissi_mah.Booking.Lifecycle.Lawful.{
  Decides, approve-Decides, reject-Decides, cancel-Decides, report_no_show-Decides,
  contest_no_show-Decides, resolve_no_show_contest-Decides, confirm_payment-Decides,
  fail_payment-Decides, start-IsLawful, complete-IsLawful, cancelled_with_trip-IsLawful,
  cancelled_with_waypoint-IsLawful,
}

ok_injective : (a b : Tables) → ◌≡◌ {A = Result Error Tables} (ok a) (ok b) → a ≡ b
ok_injective a b e = cc

module _ (base : List StatusHistoryEntry) where
  effect_of-IsValid :
      (now : ℤ) (id : String) (t t' : Tables) (b : Booking) (r : Result Error Change)
      → ((c : Change) → r ≡ ok c → IsLawful b c)
      → IsValid base t
      → find_row id t.bookings ≡ some b
      → effect_of now id t r ≡ ok t'
      → IsValid base t'
  effect_of-IsValid now id t t' b (ok c) d v f e =
      subst (IsValid base) (ok_injective (changed now id c t) t' e)
        (changed-IsValid base now id t b c v f (d c refl))
  effect_of-IsValid now id t t' b (err x) d v f e = cc

  effect-IsValid :
      (now : ℤ) (id : String) (decide : Booking → Result Error Change) (t t' : Tables)
      (o : Option Booking)
      → Decides id decide
      → IsValid base t
      → find_row id t.bookings ≡ o
      → effect_on now id decide t o ≡ ok t'
      → IsValid base t'
  effect-IsValid now id decide t t' none d v f e = cc
  effect-IsValid now id decide t t' (some b) d v f e =
      effect_of-IsValid now id t t' b (decide b) (λ c. d b c (id_of_find_row id t.bookings f)) v f e

  Outcome-IsValid :
      {A : Type 0} (Q : A → Tables → Type 0) (t : Tables) (r : Result Error A × Db)
      → IsValid base t
      → ((a : A) (t' : Tables) → Q a t' → IsValid base t')
      → Outcome t Q r
      → IsValid base r.1.tables
  Outcome-IsValid Q t (ok a, db) v k h = k a db.tables h
  Outcome-IsValid Q t (err e, db) v k h = subst (IsValid base) (sym h) v

  single :
      (now : ℤ) (id : String) (decide : Booking → Result Error Change) (db : Db)
      → Decides id decide
      → IsValid base db.tables
      → IsValid base (change_booking now id decide db).1.tables
  single now id decide db d v =
      Outcome-IsValid (λ _ t. effect now id decide db.tables ≡ ok t) db.tables
        (change_booking now id decide db) v
        (λ _ t e.
          effect-IsValid now id decide db.tables t (find_row id db.tables.bookings) d v refl e)
        (change_booking-Outcome now id decide db)

  several :
      (now : ℤ) (p : Booking → Bool) (per : Booking → Change) (db : Db)
      → ((b : Booking) → p b ≡ true → IsLawful b (per b))
      → IsValid base db.tables
      → IsValid base (change_bookings now p per db).1.tables
  several now p per db l v =
      Outcome-IsValid
        (λ bs t.
          (bs ≡ filter_rows p db.tables.bookings)
          × (t ≡ changed_all now per (filter_rows p db.tables.bookings) db.tables))
        db.tables (change_bookings now p per db) v
        (λ bs t e.
          subst (IsValid base) (sym e.1)
            (changed_all_filtered-IsValid base now per p db.tables v l))
        (change_bookings-Outcome now p per db)

  -- what a call returns does not matter to the tables
  returned :
      {A B : Type 0} (f : A → B) (r : Result Error A × Db)
      → IsValid base r.1.tables
      → IsValid base (((λ (_ : Db). r) >>= λ a. lift (ok (f a))) r.1).1.tables
  returned f (ok a, db) v = v
  returned f (err e, db) v = v

  marked :
      {A : Type 0} (now : ℤ) (id : String) (guard : Booking → Bool) (set : Booking → Booking)
      (seen : Option Booking → Result Error A) (db : Db)
      → ((b : Booking) → IsLawful b (record { set = set; log = none }))
      → IsValid base db.tables
      → IsValid base (update_where now id guard set seen db).1.tables
  unfolding update_where
  marked now id guard set seen db l v = elim (Bool-cases (next_call db.faults).0) [
    | inl fails ↦ rw fails v
    | inr runs ↦ elim (Option-cases (find_row id db.tables.bookings)) [
      | inl missing ↦ rw (runs, missing) v
      | inr (b, found) ↦ elim (Bool-cases (guard b)) [
        | inl passes ↦ rw (runs, found, passes) (written b found)
        | inr fails ↦ rw (runs, found, fails) v
      ]
    ]
  ]
    where
      written :
          (b : Booking)
          → find_row id db.tables.bookings ≡ some b
          → IsValid base (write_row now id set db.tables)
      written b found =
          subst
            (λ (h : List StatusHistoryEntry). IsValid base (record db.tables {
              bookings = update_row id (touch now set) db.tables.bookings;
              history = h;
            }))
            (append-nil db.tables.history)
            (changed-IsValid base now id db.tables b (record { set = set; log = none }) v found
              (l b))

  call-IsValid :
      (now : ℤ) (c : Command) (db : Db)
      → IsValid base db.tables
      → IsValid base (call now c db).tables
  unfolding call approve reject cancel report_no_show contest_no_show resolve_no_show_contest
      confirm_payment fail_payment start_bookings_for_waypoint complete_bookings_for_waypoint
      cancel_bookings_for_trip cancel_bookings_for_waypoint mark_payment_released
      mark_refund_requested increment_refund_request_attempts
  call-IsValid now (Command.create fee id reference input trip orders price segments) db v =
      let b : Booking = new_booking now fee id reference input trip orders price in
      let e : StatusHistoryEntry = creation_entry id input trip in
      Outcome-IsValid
        (λ _ t. (accepts db.tables b ≡ true) × (t ≡ with_booking now b segments e db.tables))
        db.tables (create now b segments e db) v
        (λ _ t h. subst (IsValid base) (sym h.1) (
          with_booking-IsValid base now b segments e db.tables
            (new_booking-Begins now fee id reference input trip orders price) v h.0))
        (create-Outcome now b segments e db)
  call-IsValid now (Command.approve id driver) db v =
      single now id _ db (approve-Decides now id driver) v
  call-IsValid now (Command.reject id driver reason) db v =
      single now id _ db (reject-Decides now id driver reason) v
  call-IsValid now (Command.cancel id canceller reason) db v =
      single now id _ db (cancel-Decides now id canceller reason) v
  call-IsValid now (Command.report_no_show id reporter kind description) db v =
      single now id _ db (report_no_show-Decides now id reporter kind description) v
  call-IsValid now (Command.contest_no_show id contester reason window) db v =
      single now id _ db (contest_no_show-Decides now id contester reason window) v
  call-IsValid now (Command.resolve_no_show_contest id support refund_reason note) db v =
      single now id _ db (resolve_no_show_contest-Decides now id support refund_reason note) v
  call-IsValid now (Command.confirm_payment id late auto) db v =
      single now id _ db (confirm_payment-Decides now id late auto) v
  call-IsValid now (Command.fail_payment id reason) db v =
      single now id _ db (fail_payment-Decides now id reason) v
  call-IsValid now (Command.start_bookings_for_waypoint trip waypoint) db v =
      returned _ (change_bookings now _ _ db) (several now _ _ db (start-IsLawful trip waypoint) v)
  call-IsValid now (Command.complete_bookings_for_waypoint trip waypoint) db v =
      returned _ (change_bookings now _ _ db)
        (several now _ _ db (complete-IsLawful now trip waypoint) v)
  call-IsValid now (Command.cancel_bookings_for_trip trip) db v =
      several now _ _ db (cancelled_with_trip-IsLawful now _ _ trip) v
  call-IsValid now (Command.cancel_bookings_for_waypoint trip waypoint) db v =
      several now _ _ db (cancelled_with_waypoint-IsLawful now _ _ trip waypoint) v
  call-IsValid now (Command.mark_payment_released id) db v =
      marked now id (λ _. true) (λ r. record r { payment_released_at = some now })
        (row_required (λ _. tt)) db (λ b. ground arith) v
  call-IsValid now (Command.mark_refund_requested id) db v =
      marked now id (λ r. not (is_some r.refund_requested_at))
        (λ r. record r { refund_requested_at = some now }) (λ _. ok tt) db (λ b. ground arith) v
  call-IsValid now (Command.increment_refund_request_attempts id) db v =
      marked now id (λ _. true)
        (λ r. record r { refund_request_attempts = r.refund_request_attempts +ℤ pos 1 })
        (row_required (λ b. b.refund_request_attempts)) db (λ b. ground arith) v

-- The calls are those that the service makes of the repository to change bookings, at any times and with
-- any failing driver calls, AnonymizeUserRefs apart: Create of a booking that CreateBooking makes,
-- ConfirmPayment that expects paymentPending or paymentFailed and sets approved or pendingApproval, and
-- the other methods with any arguments. In every run of them, in any order, valid tables stay valid: each
-- booking has the status of its last entry in the history, and a missing one has no entry; every entry
-- that the run adds is a step of the diagram from the status before it; identifiers are unique; support
-- resolves only contests that were filed; a refund is recorded exactly for the bookings that ended
-- unserved and were paid online.
pub run-IsValid :
    (base : List StatusHistoryEntry) (cs : List (ℤ × Command)) (db : Db)
    → IsValid base db.tables
    → IsValid base (run cs db).tables
unfolding run
run-IsValid base [] db v = v
run-IsValid base ((now, c) ∷ cs) db v =
    run-IsValid base cs (call now c db) (call-IsValid base now c db v)
