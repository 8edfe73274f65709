-- ===== src/Payment/Repository/Selection.antt =====
-- What a selection of rows keeps: predicates of the rows, and their distinct keys.
use tissi_mah.Prelude.{
  ℕ, zero, suc, String, str_eq, str_eq_sym, Bool, true, false, List, [], ◌∷◌, ◌≡◌, sym, ◌∙◌, All,
  Bool-cases, inl, inr, if_rule, Bool-clash,
}
use mathlib.Core.Path.{subst}
use tissi_mah.Payment.Domain.{Terms, Refund}
use tissi_mah.Payment.Store.{filter_where}
use tissi_mah.Payment.Store.Statements.{all_terms}
use tissi_mah.Payment.Repository.Refunds.{insert_by, sort_by, take, same_refund}

module _ {ℓ κ} {A : Type ℓ} (P : A → Type κ) where
  pub All-filter_where : (q : A → Bool) (xs : List A) → All P xs → All P (filter_where q xs)
  All-filter_where q [] h = tt
  All-filter_where q (x ∷ xs) h =
      let rest = All-filter_where q xs h.1 in if_rule (All P) (q x) (h.0, rest) rest

  All-insert_by :
      (before : A → A → Bool) (x : A) (xs : List A) → P x → All P xs → All P (insert_by before x xs)
  All-insert_by before x [] px h = (px, tt)
  All-insert_by before x (y ∷ ys) px h =
      let rest = All-insert_by before x ys px h.1 in
      if_rule (All P) (before y x) (h.0, rest) (px, h)

  pub All-sort_by : (before : A → A → Bool) (xs : List A) → All P xs → All P (sort_by before xs)
  All-sort_by before [] h = tt
  All-sort_by before (x ∷ xs) h =
      All-insert_by before x (sort_by before xs) h.0 (All-sort_by before xs h.1)

  pub All-take : (n : ℕ) (xs : List A) → All P xs → All P (take n xs)
  All-take zero xs h = tt
  All-take (suc n) [] h = tt
  All-take (suc n) (x ∷ xs) h = (h.0, All-take n xs h.1)

pub filter_where-holds {ℓ} :
    {A : Type ℓ} (q : A → Bool) (xs : List A) → All (λ x. q x ≡ true) (filter_where q xs)
filter_where-holds q [] = tt
filter_where-holds q (x ∷ xs) = elim (Bool-cases (q x)) [
  | inl holds ↦ rw holds (holds, filter_where-holds q xs)
  | inr fails ↦ rw fails (filter_where-holds q xs)
]

abbrev pub IsOther : String → Refund → Type 0
IsOther id x = same_refund id x ≡ false

abbrev pub Distinct : List Refund → Type 0
Distinct [] = Unit
Distinct (r ∷ rows) = All (IsOther r.refund_id) rows × Distinct rows

pub IsOther-sym : (r x : Refund) → IsOther r.refund_id x → IsOther x.refund_id r
IsOther-sym r x h = str_eq_sym r.refund_id x.refund_id ∙ h

Distinct-filter_where :
    (q : Refund → Bool) (rows : List Refund) → Distinct rows → Distinct (filter_where q rows)
Distinct-filter_where q [] h = tt
Distinct-filter_where q (x ∷ rows) h =
    let rest = Distinct-filter_where q rows h.1 in
    if_rule Distinct (q x) (All-filter_where (IsOther x.refund_id) q rows h.0, rest) rest

Distinct-insert_by :
    (before : Refund → Refund → Bool) (x : Refund) (rows : List Refund)
    → All (IsOther x.refund_id) rows
    → Distinct rows
    → Distinct (insert_by before x rows)
Distinct-insert_by before x [] other h = (tt, tt)
Distinct-insert_by before x (y ∷ rows) other h =
    let rest = Distinct-insert_by before x rows other.1 h.1 in
    if_rule Distinct (before y x)
      (All-insert_by (IsOther y.refund_id) before x rows (IsOther-sym x y other.0) h.0, rest)
      (other, h)

Distinct-sort_by :
    (before : Refund → Refund → Bool) (rows : List Refund)
    → Distinct rows
    → Distinct (sort_by before rows)
Distinct-sort_by before [] h = tt
Distinct-sort_by before (x ∷ rows) h =
    Distinct-insert_by before x (sort_by before rows)
      (All-sort_by (IsOther x.refund_id) before rows h.0) (Distinct-sort_by before rows h.1)

Distinct-take : (n : ℕ) (rows : List Refund) → Distinct rows → Distinct (take n rows)
Distinct-take zero rows h = tt
Distinct-take (suc n) [] h = tt
Distinct-take (suc n) (x ∷ rows) h =
    (All-take (IsOther x.refund_id) n rows h.0, Distinct-take n rows h.1)

-- a page of a query: the rows that it selects, in order, up to its limit
abbrev pub page : (Refund → Refund → Bool) → (Refund → Bool) → ℕ → List Refund → List Refund
page before q n rows = take n (sort_by before (filter_where q rows))

pub Distinct-page :
    (before : Refund → Refund → Bool) (q : Refund → Bool) (n : ℕ) (rows : List Refund)
    → Distinct rows
    → Distinct (page before q n rows)
Distinct-page before q n rows h =
    Distinct-take n (sort_by before (filter_where q rows))
      (Distinct-sort_by before (filter_where q rows) (Distinct-filter_where q rows h))

module _ {ℓ} (P : Refund → Type ℓ) where
  pub All-page :
      (before : Refund → Refund → Bool) (q : Refund → Bool) (n : ℕ) (rows : List Refund)
      → All P (filter_where q rows)
      → All P (page before q n rows)
  All-page before q n rows h =
      All-take P n (sort_by before (filter_where q rows))
        (All-sort_by P before (filter_where q rows) h)

-- The identifiers alone say whether rows are distinct.
abbrev pub DistinctTerms : List Terms → Type 0
DistinctTerms [] = Unit
DistinctTerms (id ∷ ids) =
    All (λ (i : Terms). str_eq i.refund_id id.refund_id ≡ false) ids × DistinctTerms ids

others_of_ids :
    (id : String) (rows : List Refund)
    → All (λ (i : Terms). str_eq i.refund_id id ≡ false) (all_terms rows)
    → All (IsOther id) rows
others_of_ids id [] h = tt
others_of_ids id (r ∷ rows) h = (h.0, others_of_ids id rows h.1)

all_terms_others :
    (id : String) (rows : List Refund)
    → All (IsOther id) rows
    → All (λ (i : Terms). str_eq i.refund_id id ≡ false) (all_terms rows)
all_terms_others id [] h = tt
all_terms_others id (r ∷ rows) h = (h.0, all_terms_others id rows h.1)

Distinct-of_ids : (rows : List Refund) → DistinctTerms (all_terms rows) → Distinct rows
Distinct-of_ids [] h = tt
Distinct-of_ids (r ∷ rows) h = (others_of_ids r.refund_id rows h.0, Distinct-of_ids rows h.1)

all_terms-Distinct : (rows : List Refund) → Distinct rows → DistinctTerms (all_terms rows)
all_terms-Distinct [] h = tt
all_terms-Distinct (r ∷ rows) h =
    (all_terms_others r.refund_id rows h.0, all_terms-Distinct rows h.1)

pub same_terms-Distinct :
    (rows rows' : List Refund) → all_terms rows' ≡ all_terms rows → Distinct rows → Distinct rows'
same_terms-Distinct rows rows' e h =
    Distinct-of_ids rows' (subst DistinctTerms (sym e) (all_terms-Distinct rows h))

-- Rows with the identifier of a row are that row: what it agrees with.
module _ {ℓ} (R : Refund → Refund → Type ℓ) (same : (r : Refund) → R r r) where
  abbrev pub Agrees : List Refund → Refund → Type ℓ
  Agrees rows r = All (λ x. same_refund r.refund_id x ≡ true → R r x) rows

  others_agree : (r : Refund) (rows : List Refund) → All (IsOther r.refund_id) rows → Agrees rows r
  others_agree r [] h = tt
  others_agree r (x ∷ rows) h =
      (λ e. Bool-clash (same_refund r.refund_id x) e h.0, others_agree r rows h.1)

  head-Agrees :
      (r : Refund) (rows0 rows : List Refund)
      → All (IsOther r.refund_id) rows
      → All (Agrees rows0) rows
      → All (Agrees (r ∷ rows0)) rows
  head-Agrees r rows0 [] other h = tt
  head-Agrees r rows0 (x ∷ rows) other h = (
    (λ e. Bool-clash (same_refund x.refund_id r) e (IsOther-sym r x other.0), h.0),
    head-Agrees r rows0 rows other.1 h.1,
  )

  pub Distinct-agree : (rows : List Refund) → Distinct rows → All (Agrees rows) rows
  Distinct-agree [] h = tt
  Distinct-agree (r ∷ rows) h = (
    (λ _. same r, others_agree r rows h.0),
    head-Agrees r rows rows h.0 (Distinct-agree rows h.1),
  )
