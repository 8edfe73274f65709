-- ===== src/Booking/Seats/Counters.antt =====
-- What the operations do to each counter.
use text.Mathlib.TextPositions.{eq_refl}
use tissi_mah.Prelude.{
  ℕ, zero, suc, ℤ, pos, pos_part, ◌+ℤ◌, ◌-ℤ◌, ◌≤ℤ◌, ◌<ℤ◌, ltb_ℤ, eqb_ℤ, arith, String, str_eq,
  eq_iff, Bool, true, false, ◌&&◌, some, if◌then◌else◌, ◌≡◌, refl, sym, ◌∙◌, Bool-cases, inl, inr,
  +ℤ_parts, -ℤ_parts, eq_of_parts,
}
use tissi_mah.Booking.Seats.{
  Counters, put, seats_of, legs_from, legs, covers, update_each, all_have,
}

pub eqb→≡ : (a b : ℤ) → eqb_ℤ a b ≡ true → a ≡ b
eqb→≡ a b h = eq_of_parts a b (ground arith)

pub covers_first : (o : ℤ) (m : ℕ) → covers o (o +ℤ pos (suc m)) o ≡ true
covers_first o m = ground (arith, +ℤ_parts o (pos (suc m)))

pub covers_rest_first : (o : ℤ) (d : ℤ) → covers (o +ℤ pos 1) d o ≡ false
covers_rest_first o d = ground (arith, +ℤ_parts o (pos 1))

pub covers_rest :
    (o : ℤ) (m : ℕ) (k : ℤ)
    → eqb_ℤ k o ≡ false
    → covers (o +ℤ pos 1) ((o +ℤ pos 1) +ℤ pos m) k ≡ covers o (o +ℤ pos (suc m)) k
covers_rest o m k h =
    ground (arith, +ℤ_parts o (pos 1), +ℤ_parts (o +ℤ pos 1) (pos m), +ℤ_parts o (pos (suc m)))

pub eqb_refl : (a : ℤ) → eqb_ℤ a a ≡ true
eqb_refl a = ground arith

pub covers_none : (o k : ℤ) → covers o (o +ℤ pos 0) k ≡ false
covers_none o k = ground (arith, +ℤ_parts o (pos 0))

-- the update of the first leg, then of the others
put-at :
    (trip : String) (f : ℤ → ℤ) (o : ℤ) (m : ℕ) (c : Counters) (t : String) (k : ℤ)
    → (if str_eq t trip && covers (o +ℤ pos 1) ((o +ℤ pos 1) +ℤ pos m) k
        then some (f (seats_of (put trip o (f (seats_of (c trip o))) c t k)))
        else put trip o (f (seats_of (c trip o))) c t k)
      ≡ (if str_eq t trip && covers o (o +ℤ pos (suc m)) k
          then some (f (seats_of (c t k)))
          else c t k)
put-at trip f o m c t k = elim (Bool-cases (str_eq t trip)) [
  | inr other ↦ rw other refl
  | inl same ↦ elim (Bool-cases (eqb_ℤ k o)) [
    | inr apart ↦ rw (same, apart, covers_rest o m k apart) refl
    | inl here ↦ first_leg ((eq_iff t trip).0 same) (eqb→≡ k o here)
  ]
]
  where
    first_leg :
        t ≡ trip
        → k ≡ o
        → (if str_eq t trip && covers (o +ℤ pos 1) ((o +ℤ pos 1) +ℤ pos m) k
            then some (f (seats_of (put trip o (f (seats_of (c trip o))) c t k)))
            else put trip o (f (seats_of (c trip o))) c t k)
          ≡ (if str_eq t trip && covers o (o +ℤ pos (suc m)) k
              then some (f (seats_of (c t k)))
              else c t k)
    first_leg p q =
        rw
          (
            p,
            q,
            eq_refl trip,
            covers_rest_first o ((o +ℤ pos 1) +ℤ pos m),
            covers_first o m,
            eqb_refl o,
          )
          refl

pub update_each-at :
    (trip : String) (f : ℤ → ℤ) (m : ℕ) (o : ℤ) (c : Counters) (t : String) (k : ℤ)
    → update_each trip f (legs_from m o) c t k
      ≡ (if str_eq t trip && covers o (o +ℤ pos m) k then some (f (seats_of (c t k))) else c t k)
update_each-at trip f zero o c t k = elim (Bool-cases (str_eq t trip)) [
  | inl same ↦ rw (same, covers_none o k) refl
  | inr other ↦ rw other refl
]
update_each-at trip f (suc m) o c t k =
    update_each-at trip f m (o +ℤ pos 1) (put trip o (f (seats_of (c trip o))) c) t k
    ∙ put-at trip f o m c t k

pub covers_legs : (p d k : ℤ) → covers p (p +ℤ pos (pos_part (d -ℤ p))) k ≡ covers p d k
covers_legs p d k = ground (arith, -ℤ_parts d p, +ℤ_parts p (pos (pos_part (d -ℤ p))))

pub update_legs-at :
    (trip : String) (f : ℤ → ℤ) (p d : ℤ) (c : Counters) (t : String) (k : ℤ)
    → update_each trip f (legs p d) c t k
      ≡ (if str_eq t trip && covers p d k then some (f (seats_of (c t k))) else c t k)
update_legs-at trip f p d c t k =
    rw (← covers_legs p d k) (update_each-at trip f (pos_part (d -ℤ p)) p c t k)

all_have_from :
    (trip : String) (n : ℤ) (m : ℕ) (o : ℤ) (c : Counters)
    → all_have trip n (legs_from m o) c ≡ true
    → (k : ℤ) → covers o (o +ℤ pos m) k ≡ true
    → n ≤ℤ seats_of (c trip k)
all_have_from trip n zero o c h k i = let p : false ≡ true = rw (covers_none o k) at i in cc
all_have_from trip n (suc m) o c h k i = elim (Bool-cases (eqb_ℤ k o)) [
  | inl here ↦ rw (eqb→≡ k o here) (at_first (seats_of (c trip o)) h)
  | inr apart ↦
      all_have_from trip n m (o +ℤ pos 1) c (of_rest (ltb_ℤ (seats_of (c trip o)) n) h) k
        (covers_rest o m k apart ∙ i)
]
  where
    at_first :
        (s : ℤ)
        → (if ltb_ℤ s n then false else all_have trip n (legs_from m (o +ℤ pos 1)) c) ≡ true
        → n ≤ℤ s
    at_first s h = ground arith

    of_rest :
        (b : Bool)
        → (if b then false else all_have trip n (legs_from m (o +ℤ pos 1)) c) ≡ true
        → all_have trip n (legs_from m (o +ℤ pos 1)) c ≡ true
    of_rest true h = cc
    of_rest false h = h

pub all_have_legs :
    (trip : String) (n p d : ℤ) (c : Counters)
    → all_have trip n (legs p d) c ≡ true
    → (k : ℤ) → covers p d k ≡ true
    → n ≤ℤ seats_of (c trip k)
all_have_legs trip n p d c h k i =
    all_have_from trip n (pos_part (d -ℤ p)) p c h k (covers_legs p d k ∙ i)

lacking_from :
    (trip : String) (n : ℤ) (m : ℕ) (o : ℤ) (c : Counters)
    → all_have trip n (legs_from m o) c ≡ false
    → (k : ℤ) × (covers o (o +ℤ pos m) k ≡ true) × (seats_of (c trip k) <ℤ n)
lacking_from trip n zero o c h = cc
lacking_from trip n (suc m) o c h = elim (Bool-cases (ltb_ℤ (seats_of (c trip o)) n)) [
  | inl few ↦ (o, covers_first o m, ground arith)
  | inr enough ↦ wider (lacking_from trip n m (o +ℤ pos 1) c (rw enough at h))
]
  where
    wider :
        (k : ℤ) × (covers (o +ℤ pos 1) ((o +ℤ pos 1) +ℤ pos m) k ≡ true)
          × (seats_of (c trip k) <ℤ n)
        → (k : ℤ) × (covers o (o +ℤ pos (suc m)) k ≡ true) × (seats_of (c trip k) <ℤ n)
    wider (k, i, l) = elim (Bool-cases (eqb_ℤ k o)) [
      | inl here ↦ (k, rw (eqb→≡ k o here) (covers_first o m), l)
      | inr apart ↦ (k, sym (covers_rest o m k apart) ∙ i, l)
    ]

pub lacking_leg :
    (trip : String) (n p d : ℤ) (c : Counters)
    → all_have trip n (legs p d) c ≡ false
    → (k : ℤ) × (covers p d k ≡ true) × (seats_of (c trip k) <ℤ n)
lacking_leg trip n p d c h =
    let (k, i, l) = lacking_from trip n (pos_part (d -ℤ p)) p c h in
    (k, sym (covers_legs p d k) ∙ i, l)
