-- ===== src/Booking/Store/Transaction.antt =====
-- What a transaction leaves behind: all of its writes, or none.
use mathlib.Core.List.{append-nil}
use mathlib.Core.Path.{subst}
use tissi_mah.Prelude.{
  ℤ, String, Bool, true, false, Option, none, some, List, [], ◌∷◌, ◌++◌, ◌≡◌, refl, sym,
}
use tissi_mah.Prelude.Result.{Result, ok, err}
use tissi_mah.Booking.Domain.{Booking, StatusHistoryEntry, Error}
use tissi_mah.Booking.Store.{
  Tables, Db, Action, Change, find_row, touch, update_row, transaction, change_booking, ◌>>=◌, ◌>>◌,
  exec, select_for_update, lift, insert_history, write_history, rollback, write_row, change_all,
  change_bookings, select_rows, filter_rows, bulk_commit_error,
}

abbrev pub logged : Option StatusHistoryEntry → List StatusHistoryEntry
logged none = []
logged (some e) = e ∷ []

abbrev pub changed : ℤ → String → Change → Tables → Tables
changed now id c t = record t {
  bookings = update_row id (touch now c.set) t.bookings;
  history = t.history ++ logged c.log;
}

-- What a method on one booking does to the tables if no call of the driver fails.
abbrev pub effect_of : ℤ → String → Tables → Result Error Change → Result Error Tables
effect_of now id t (ok c) = ok (changed now id c t)
effect_of now id t (err e) = err e

abbrev pub effect_on :
    ℤ → String → (Booking → Result Error Change) → Tables → Option Booking → Result Error Tables
effect_on now id decide t none = err Error.booking_not_found
effect_on now id decide t (some b) = effect_of now id t (decide b)

abbrev pub effect : ℤ → String → (Booking → Result Error Change) → Tables → Result Error Tables
effect now id decide t = effect_on now id decide t (find_row id t.bookings)

-- An error leaves the tables as they were; a value comes with what `Done` says of the new tables.
abbrev pub Outcome : {A : Type 0} → Tables → (A → Tables → Type 0) → Result Error A × Db → Type 0
Outcome t Done (ok a, db') = Done a db'.tables
Outcome t Done (err e, db') = db'.tables ≡ t

-- A successful call establishes `Q`.
abbrev Ensures : {A : Type 0} → (A → Tables → Type 0) → Result Error A × Db → Type 0
Ensures Q (ok a, db') = Q a db'.tables
Ensures Q (err e, db') = Unit

-- From the tables `t`, whichever calls fail, the action establishes `Q` if it succeeds.
abbrev pub Triple : {A : Type 0} → Tables → Action A → (A → Tables → Type 0) → Type 0
Triple t m Q = (fs : List Bool) → Ensures Q (m (record { tables = t; faults = fs }))

module _ {A B : Type 0} (R : A → Tables → Type 0) (Q : B → Tables → Type 0) where
  bind_from :
      (r : Result Error A × Db) (f : A → Action B)
      → Ensures R r
      → ((a : A) (t' : Tables) → R a t' → Triple t' (f a) Q)
      → Ensures Q (let (r', db') = r in elim r' [ ok a ↦ f a db' | err e ↦ (err e, db') ])
  bind_from (ok a, db') f h k = k a db'.tables h db'.faults
  bind_from (err e, db') f h k = tt

pub Triple->>= :
    {A B : Type 0} (R : A → Tables → Type 0) (Q : B → Tables → Type 0) (t : Tables) (m : Action A)
    (f : A → Action B)
    → Triple t m R
    → ((a : A) (t' : Tables) → R a t' → Triple t' (f a) Q)
    → Triple t (m >>= f) Q
Triple->>= R Q t m f h k fs = bind_from R Q (m (record { tables = t; faults = fs })) f (h fs) k

pub Triple-exec :
    (Q : Unit {0} → Tables → Type 0) (t : Tables) (e : Error) (write : Tables → Tables)
    → Q tt (write t)
    → Triple t (exec e write) Q
Triple-exec Q t e write q [] = q
Triple-exec Q t e write q (true ∷ fs) = tt
Triple-exec Q t e write q (false ∷ fs) = q

-- An action that only reads: it hands a value with `R` on, from the tables as they are.
pub Triple_read :
    {A B : Type 0} (R : A → Type 0) (Q : B → Tables → Type 0) (t : Tables) (m : Action A)
    (f : A → Action B)
    → Triple t m (λ a t'. R a × (t' ≡ t))
    → ((a : A) → R a → Triple t (f a) Q)
    → Triple t (m >>= f) Q
Triple_read R Q t m f h k =
    Triple->>= (λ a t'. R a × (t' ≡ t)) Q t m f h
      (λ a t' e. subst (λ (u : Tables). Triple u (f a) Q) (sym e.1) (k a e.0))

-- A statement that writes, and what follows it.
pub Triple_write :
    {B : Type 0} (Q : B → Tables → Type 0) (t : Tables) (e : Error) (write : Tables → Tables)
    (k : Action B)
    → Triple (write t) k Q
    → Triple t (exec e write >> k) Q
Triple_write Q t e write k h =
    Triple->>= (λ _ t'. t' ≡ write t) Q t (exec e write) (λ _. k)
      (Triple-exec (λ _ t'. t' ≡ write t) t e write refl)
      (λ _ t' p. subst (λ (u : Tables). Triple u k Q) (sym p) h)

pub Triple-lift :
    {A : Type 0} (t : Tables) (r : Result Error A)
    → Triple t (lift r) (λ a t'. (r ≡ ok a) × (t' ≡ t))
Triple-lift t (ok a) fs = (refl, refl)
Triple-lift t (err e) fs = tt

scan :
    (t : Tables) (o : Option Booking) (fs : List Bool)
    → Ensures
        (λ b t'. (o ≡ some b) × (t' ≡ t))
        (elim o [
          | none ↦ (err Error.booking_not_found, record { tables = t; faults = fs })
          | some b ↦ (ok b, record { tables = t; faults = fs })
        ])
scan t none fs = tt
scan t (some b) fs = (refl, refl)

pub Triple-select_for_update :
    (t : Tables) (id : String)
    → Triple t (select_for_update id) (λ b t'. (find_row id t.bookings ≡ some b) × (t' ≡ t))
Triple-select_for_update t id [] = scan t (find_row id t.bookings) []
Triple-select_for_update t id (true ∷ fs) = tt
Triple-select_for_update t id (false ∷ fs) = scan t (find_row id t.bookings) fs

pub Triple-insert_history :
    (Q : Unit {0} → Tables → Type 0) (t : Tables) (log : Option StatusHistoryEntry)
    → Q tt (record t { history = t.history ++ logged log })
    → Triple t (insert_history log) Q
Triple-insert_history Q t none q fs = rw append-nil at q
Triple-insert_history Q t (some e) q fs =
    Triple-exec Q t Error.internal_server (write_history e) q fs

rollback-Outcome :
    {A : Type 0} (Q : A → Tables → Type 0) (t : Tables) (r : Result Error A × Db)
    → Ensures Q r
    → Outcome t Q (rollback t r)
unfolding rollback
rollback-Outcome Q t (ok a, db') h = h
rollback-Outcome Q t (err e, db') h = refl

-- A transaction whose body establishes `Q` establishes it, or leaves the tables as they were.
pub transaction-Outcome :
    {A : Type 0} (Q : A → Tables → Type 0) (commit_error : A → Error) (body : Action A) (db : Db)
    → Triple db.tables body Q
    → Outcome db.tables Q (transaction commit_error body db)
unfolding transaction
transaction-Outcome {A} Q ce body db h = rollback-Outcome Q db.tables _ (
    Triple_write Q db.tables Error.internal_server (λ t. t) (body >>= commit)
      (Triple->>= Q Q db.tables body commit h committed) db.faults)
  where
    commit : A → Action A
    commit a = exec (ce a) (λ t. t) >> lift (ok a)

    committed : (a : A) (t : Tables) → Q a t → Triple t (commit a) Q
    committed a t q = Triple_write Q t (ce a) (λ t. t) (lift (ok a)) (λ fs. q)

-- A method on one booking does what `effect` says, or fails and leaves the tables as they were.
pub change_booking-Outcome :
    (now : ℤ) (id : String) (decide : Booking → Result Error Change) (db : Db)
    → Outcome db.tables
        (λ _ t. effect now id decide db.tables ≡ ok t)
        (change_booking now id decide db)
unfolding change_booking
change_booking-Outcome now id decide db =
    transaction-Outcome Done (λ _. Error.driver_error)
      (select_for_update id >>= λ b. lift (decide b) >>= write) db
      (Triple_read (λ b. find_row id t.bookings ≡ some b) Done t (select_for_update id)
        (λ b. lift (decide b) >>= write) (Triple-select_for_update t id) decided)
  where
    open db use {tables as t}

    Done : Unit {0} → Tables → Type 0
    Done _ t' = effect now id decide t ≡ ok t'

    write : Change → Action (Unit {0})
    write c = exec Error.internal_server (write_row now id c.set) >> insert_history c.log

    written :
        (b : Booking) (c : Change)
        → find_row id t.bookings ≡ some b
        → decide b ≡ ok c
        → Triple t (write c) Done
    written b c found p =
        Triple_write Done t Error.internal_server (write_row now id c.set) (insert_history c.log)
          (Triple-insert_history Done (write_row now id c.set t) c.log (rw (found, p) refl))

    decided :
        (b : Booking) → find_row id t.bookings ≡ some b → Triple t (lift (decide b) >>= write) Done
    decided b found =
        Triple_read (λ c. decide b ≡ ok c) Done t (lift (decide b)) write (Triple-lift t (decide b))
          (λ c. written b c found)

abbrev pub changed_all : ℤ → (Booking → Change) → List Booking → Tables → Tables
changed_all now per [] t = t
changed_all now per (b ∷ bs) t = changed_all now per bs (changed now b.booking_id (per b) t)

Triple-change_all :
    (now : ℤ) (per : Booking → Change) (Q : Unit {0} → Tables → Type 0) (bs : List Booking)
    (t : Tables)
    → Q tt (changed_all now per bs t)
    → Triple t (change_all now per bs) Q
unfolding change_all
Triple-change_all now per Q [] t q fs = q
Triple-change_all now per Q (b ∷ bs) t q fs =
    Triple_write Q t Error.internal_server (write_row now b.booking_id (per b).set)
      (insert_history (per b).log >> change_all now per bs)
      (Triple->>= (λ _ u. u ≡ changed now b.booking_id (per b) t) Q
        (write_row now b.booking_id (per b).set t) (insert_history (per b).log)
        (λ _. change_all now per bs)
        (Triple-insert_history (λ _ u. u ≡ changed now b.booking_id (per b) t) _ (per b).log refl)
        (λ _ u e.
          subst (λ (v : Tables). Triple v (change_all now per bs) Q) (sym e)
            (Triple-change_all now per Q bs (changed now b.booking_id (per b) t) q)))
      fs

Triple-select_rows :
    (t : Tables) (p : Booking → Bool)
    → Triple t (select_rows p) (λ bs t'. (filter_rows p t.bookings ≡ bs) × (t' ≡ t))
Triple-select_rows t p [] = (refl, refl)
Triple-select_rows t p (true ∷ fs) = tt
Triple-select_rows t p (false ∷ fs) = (refl, refl)

-- A method on several bookings changes each of the selected rows and returns them as they were, or
-- fails and leaves the tables as they were.
pub change_bookings-Outcome :
    (now : ℤ) (p : Booking → Bool) (per : Booking → Change) (db : Db)
    → Outcome db.tables
        (λ bs t.
          (bs ≡ filter_rows p db.tables.bookings)
          × (t ≡ changed_all now per (filter_rows p db.tables.bookings) db.tables))
        (change_bookings now p per db)
unfolding change_bookings
change_bookings-Outcome now p per db =
    transaction-Outcome Done bulk_commit_error (select_rows p >>= change) db (
      Triple_read (λ bs. filter_rows p t.bookings ≡ bs) Done t (select_rows p) change
        (Triple-select_rows t p) selected)
  where
    open db use {tables as t}

    Done : List Booking → Tables → Type 0
    Done bs t' =
        (bs ≡ filter_rows p t.bookings) × (t' ≡ changed_all now per (filter_rows p t.bookings) t)

    change : List Booking → Action (List Booking)
    change bs = change_all now per bs >> lift (ok bs)

    selected : (bs : List Booking) → filter_rows p t.bookings ≡ bs → Triple t (change bs) Done
    selected bs e =
        Triple->>= (λ _ t'. t' ≡ changed_all now per bs t) Done t (change_all now per bs)
          (λ _. lift (ok bs))
          (Triple-change_all now per (λ _ t'. t' ≡ changed_all now per bs t) bs t refl)
          (λ _ t' q fs. (sym e, rw e q))
