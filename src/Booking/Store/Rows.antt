-- ===== src/Booking/Store/Rows.antt =====
-- The rows of the table of bookings: finding, changing one, changing several.
use mathlib.Core.List.{append-nil, append_assoc}
use text.Mathlib.TextPositions.{eq_refl}
use mathlib.Core.Path.{subst}
use tissi_mah.Prelude.{
  ℤ, String, str_eq, eq_iff, Bool, true, false, none, some, List, [], ◌∷◌, ◌++◌, ◌≡◌, refl, sym, ap,
  ◌∙◌, arith, inl, inr, Bool-cases, All, if◌then◌else◌,
}
use tissi_mah.Booking.Domain.{Booking, StatusHistoryEntry}
use tissi_mah.Booking.Store.{Tables, Change, find_row, update_row, filter_rows, touch}
use tissi_mah.Booking.Store.Transaction.{changed_all, changed, logged}

-- `booking_id` is a primary key.
abbrev pub UniqueIds : List Booking → Type 0
UniqueIds [] = Unit
UniqueIds (b ∷ bs) = (find_row b.booking_id bs ≡ none) × UniqueIds bs

pub absent :
    (id : String) (rows : List Booking)
    → find_row id rows ≡ none
    → All (λ r. str_eq r.booking_id id ≡ false) rows
absent id [] h = tt
absent id (r ∷ rows) h = ground (arith, absent id rows)

found_here :
    (id : String) (r : Booking) (rows : List Booking) {b : Booking}
    → str_eq r.booking_id id ≡ true
    → find_row id (r ∷ rows) ≡ some b
    → r ≡ b
found_here id r rows {b} same e = let p : some r ≡ some b = rw same at e in cc

pub id_of_find_row :
    (id : String) (rows : List Booking) {b : Booking}
    → find_row id rows ≡ some b
    → str_eq b.booking_id id ≡ true
id_of_find_row id [] e = cc
id_of_find_row id (r ∷ rows) e = elim (Bool-cases (str_eq r.booking_id id)) [
  | inl same ↦
      subst (λ (x : Booking). str_eq x.booking_id id ≡ true) (found_here id r rows same e) same
  | inr other ↦ id_of_find_row id rows (rw other at e)
]

module _ {ℓ} (P : Booking → Type ℓ) where
  pub All-find_row :
      (id : String) (rows : List Booking) {b : Booking}
      → All P rows
      → find_row id rows ≡ some b
      → P b
  All-find_row id [] h e = cc
  All-find_row id (r ∷ rows) h e = elim (Bool-cases (str_eq r.booking_id id)) [
    | inl same ↦ subst P (found_here id r rows same e) h.0
    | inr other ↦ All-find_row id rows h.1 (rw other at e)
  ]

  pub All_mono {κ} :
      (Q : Booking → Type κ) (rows : List Booking)
      → ((b : Booking) → P b → Q b)
      → All P rows
      → All Q rows
  All_mono Q [] k h = tt
  All_mono Q (r ∷ rows) k h = (k r h.0, All_mono Q rows k h.1)

  pub All_others {κ} :
      (Q : Booking → Type κ) (id : String) (rows : List Booking)
      → All P rows
      → All (λ r. str_eq r.booking_id id ≡ false) rows
      → ((b : Booking) → str_eq b.booking_id id ≡ false → P b → Q b)
      → All Q rows
  All_others Q id [] h n k = tt
  All_others Q id (r ∷ rows) h n k = (k r n.0 h.0, All_others Q id rows h.1 n.1 k)

  -- Changing one row takes what held of all rows to what holds of all rows then, if it does so for
  -- the row that is found, changed, and for the rows of other bookings, as they are.
  pub All-update_row {κ} :
      (Q : Booking → Type κ) (id : String) (f : Booking → Booking) (rows : List Booking)
      {b : Booking}
      → UniqueIds rows
      → All P rows
      → find_row id rows ≡ some b
      → (P b → Q (f b))
      → ((r : Booking) → str_eq r.booking_id id ≡ false → P r → Q r)
      → All Q (update_row id f rows)
  All-update_row Q id f [] u h e k o = tt
  All-update_row Q id f (r ∷ rows) {b} u h e k o = elim (Bool-cases (str_eq r.booking_id id)) [
    | inl same ↦ rw same (
      subst (λ (x : Booking). P x → Q (f x)) (sym (found_here id r rows same e)) k h.0,
      All_others Q id rows h.1
          (subst (λ j. All (λ c. str_eq c.booking_id j ≡ false) rows) ((eq_iff _ _).0 same)
            (absent r.booking_id rows u.0))
          o,
    )
    | inr other ↦ rw other (o r other h.0, All-update_row Q id f rows u.1 h.1 (rw other at e) k o)
  ]

abbrev pub KeepsId : (Booking → Booking) → Type 0
KeepsId f = (b : Booking) → (f b).booking_id ≡ b.booking_id

pub find_row-update_row_ne :
    (id j : String) (f : Booking → Booking) (rows : List Booking)
    → KeepsId f
    → str_eq id j ≡ false
    → find_row j (update_row id f rows) ≡ find_row j rows
find_row-update_row_ne id j f [] k n = refl
find_row-update_row_ne id j f (r ∷ rows) k n = ground (
  arith,
  k r,
  eq_iff r.booking_id id,
  eq_iff r.booking_id j,
  eq_iff id j,
  find_row-update_row_ne id j f rows k n,
)

pub find_row-update_row-none :
    (id j : String) (f : Booking → Booking) (rows : List Booking)
    → KeepsId f
    → find_row j rows ≡ none
    → find_row j (update_row id f rows) ≡ none
find_row-update_row-none id j f [] k n = refl
find_row-update_row-none id j f (r ∷ rows) k n =
    ground (arith, k r, find_row-update_row-none id j f rows k)

pub find_row-none-update_row :
    (id j : String) (f : Booking → Booking) (rows : List Booking)
    → KeepsId f
    → find_row j (update_row id f rows) ≡ none
    → find_row j rows ≡ none
find_row-none-update_row id j f [] k n = refl
find_row-none-update_row id j f (r ∷ rows) k n =
    ground (arith, k r, find_row-none-update_row id j f rows k)

pub update_row-UniqueIds :
    (id : String) (f : Booking → Booking) (rows : List Booking)
    → KeepsId f
    → UniqueIds rows
    → UniqueIds (update_row id f rows)
update_row-UniqueIds id f [] k u = tt
update_row-UniqueIds id f (r ∷ rows) k u = ground (
  arith,
  k r,
  update_row-UniqueIds id f rows k u.1,
  find_row-update_row-none id r.booking_id f rows k u.0,
)

-- The loop over several rows, on the rows alone.
abbrev pub update_all : (Booking → Booking → Booking) → List Booking → List Booking → List Booking
update_all f [] rows = rows
update_all f (b ∷ bs) rows = update_all f bs (update_row b.booking_id (f b) rows)

abbrev pub logs : (Booking → Change) → List Booking → List StatusHistoryEntry
logs per [] = []
logs per (b ∷ bs) = logged (per b).log ++ logs per bs

pub changed_all_lem :
    (now : ℤ) (per : Booking → Change) (bs : List Booking) (t : Tables)
    → changed_all now per bs t ≡ record t {
      bookings = update_all (λ b. touch now (per b).set) bs t.bookings;
      history = t.history ++ logs per bs;
    }
changed_all_lem now per [] t = rw append-nil
changed_all_lem now per (b ∷ bs) t =
    rw (changed_all_lem now per bs (changed now b.booking_id (per b) t), append_assoc)

-- the rows with a property changed, the others as they are
abbrev pub map_where : (Booking → Bool) → (Booking → Booking) → List Booking → List Booking
map_where p f [] = []
map_where p f (b ∷ bs) = (if p b then f b else b) ∷ map_where p f bs

pub filter_absent :
    (id : String) (p : Booking → Bool) (bs : List Booking)
    → find_row id bs ≡ none
    → All (λ c. str_eq id c.booking_id ≡ false) (filter_rows p bs)
filter_absent id p [] h = tt
filter_absent id p (b ∷ bs) h =
    ground (arith, eq_iff b.booking_id id, eq_iff id b.booking_id, filter_absent id p bs)

module _ (f : Booking → Booking → Booking) (keeps : (b : Booking) → KeepsId (f b)) where
  update_all-skip :
      (b : Booking) (bs rows : List Booking)
      → All (λ c. str_eq b.booking_id c.booking_id ≡ false) bs
      → update_all f bs (b ∷ rows) ≡ b ∷ update_all f bs rows
  update_all-skip b [] rows h = refl
  update_all-skip b (c ∷ bs) rows h =
      rw (h.0) (update_all-skip b bs (update_row c.booking_id (f c) rows) h.1)

  update_all-take :
      (b : Booking) (bs rows : List Booking)
      → update_all f (b ∷ bs) (b ∷ rows) ≡ update_all f bs (f b b ∷ rows)
  update_all-take b bs rows = ap (update_all f bs) (rw (eq_refl b.booking_id))

  -- Under a primary key, changing the selected rows one after the other changes exactly them.
  pub update_all-filter_rows :
      (p : Booking → Bool) (rows : List Booking)
      → UniqueIds rows
      → update_all f (filter_rows p rows) rows ≡ map_where p (λ b. f b b) rows
  update_all-filter_rows p [] u = refl
  update_all-filter_rows p (b ∷ bs) u = elim (Bool-cases (p b)) [
    | inl chosen ↦ rw chosen (
        update_all-take b (filter_rows p bs) bs
        ∙ (update_all-skip (f b b) (filter_rows p bs) bs
              (rw (keeps b b) (filter_absent b.booking_id p bs u.0))
            ∙ ap (λ l. f b b ∷ l) (update_all-filter_rows p bs u.1)))
    | inr passed ↦ rw passed (
        update_all-skip b (filter_rows p bs) bs (filter_absent b.booking_id p bs u.0)
        ∙ ap (λ l. b ∷ l) (update_all-filter_rows p bs u.1))
  ]
