-- ===== src/Payment/Repository/Coverage.antt =====
-- A page whose limit is not below the number of the rows has every row that the query selects.
use tissi_mah.Prelude.{
  ℕ, zero, suc, ◌≤◌, Bool, true, List, [], ◌∷◌, length, ◌≡◌, All, Bool-cases, Bool-clash, inl, inr,
  if_rule, arith,
}
use tissi_mah.Payment.Domain.{Refund}
use tissi_mah.Payment.Store.{filter_where}
use tissi_mah.Payment.Repository.Refunds.{insert_by, sort_by, take}
use tissi_mah.Payment.Repository.Selection.{page}

module _ {ℓ} {A : Type ℓ} (before : A → A → Bool) where
  length-insert_by : (x : A) (xs : List A) → length (insert_by before x xs) ≡ suc (length xs)
  length-insert_by x [] = omega arith
  length-insert_by x (y ∷ ys) =
      let rest = length-insert_by x ys in
      if_rule (λ (zs : List A). length zs ≡ suc (suc (length ys))) (before y x) (omega arith)
        (omega arith)

  length-sort_by : (xs : List A) → length (sort_by before xs) ≡ length xs
  length-sort_by [] = omega arith
  length-sort_by (x ∷ xs) =
      let rest = length-sort_by xs in
      let here = length-insert_by x (sort_by before xs) in omega arith

length-filter_where {ℓ} :
    {A : Type ℓ} (q : A → Bool) (xs : List A) → length (filter_where q xs) ≤ length xs
length-filter_where q [] = omega arith
length-filter_where {A} q (x ∷ xs) =
    let rest = length-filter_where q xs in
    if_rule (λ (ys : List A). length ys ≤ suc (length xs)) (q x) (omega arith) (omega arith)

module _ {ℓ κ} {A : Type ℓ} (P : A → Type κ) where
  of_insert_by :
      (before : A → A → Bool) (x : A) (xs : List A) → All P (insert_by before x xs) → P x × All P xs
  of_insert_by before x [] h = h
  of_insert_by before x (y ∷ ys) h = elim (Bool-cases (before y x)) [
    | inl first ↦
        let h' : P y × All P (insert_by before x ys) = rw first at h in
        let rest = of_insert_by before x ys h'.1 in (rest.0, (h'.0, rest.1))
    | inr last ↦ let h' : P x × All P (y ∷ ys) = rw last at h in h'
  ]

  of_sort_by : (before : A → A → Bool) (xs : List A) → All P (sort_by before xs) → All P xs
  of_sort_by before [] h = tt
  of_sort_by before (x ∷ xs) h =
      let rest = of_insert_by before x (sort_by before xs) h in
      (rest.0, of_sort_by before xs rest.1)

  of_take : (n : ℕ) (xs : List A) → length xs ≤ n → All P (take n xs) → All P xs
  of_take zero [] enough h = tt
  of_take zero (x ∷ xs) enough h = absurd (omega arith)
  of_take (suc n) [] enough h = tt
  of_take (suc n) (x ∷ xs) enough h = (h.0, of_take n xs (omega arith) h.1)

  of_filter_where :
      (q : A → Bool) (xs : List A) → All P (filter_where q xs) → All (λ x. q x ≡ true → P x) xs
  of_filter_where q [] h = tt
  of_filter_where q (x ∷ xs) h = elim (Bool-cases (q x)) [
    | inl holds ↦
        let h' : P x × All P (filter_where q xs) = rw holds at h in
        (λ _. h'.0, of_filter_where q xs h'.1)
    | inr fails ↦ (λ holds. Bool-clash (q x) holds fails, of_filter_where q xs (rw fails at h))
  ]

module _ {ℓ} (P : Refund → Type ℓ) where
  -- What holds of the page holds of every row that the query selects.
  pub of_page :
      (before : Refund → Refund → Bool) (q : Refund → Bool) (n : ℕ) (rows : List Refund)
      → length rows ≤ n
      → All P (page before q n rows)
      → All (λ x. q x ≡ true → P x) rows
  of_page before q n rows enough h =
      let kept = length-filter_where q rows in
      let sorted = length-sort_by before (filter_where q rows) in
      of_filter_where P q rows (
        of_sort_by P before (filter_where q rows)
          (of_take P n (sort_by before (filter_where q rows)) (omega arith) h))
