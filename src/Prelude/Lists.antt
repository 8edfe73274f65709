-- ===== src/Prelude/Lists.antt =====
-- Predicates, membership tests and sums over lists.
use Prim.Native.Nat.{ℕ, suc}
use mathlib.Core.Bool.{Bool, false, ◌||◌}
use mathlib.Core.Path.{◌≡◌}
use tissi_mah.Prelude.Tests.{or_left, or_right}
use mathlib.Core.List.{List, [], ◌∷◌, ◌++◌}

module _ {ℓ} {A : Type ℓ} where
  abbrev pub length : List A → ℕ
  length [] = 0
  length (x ∷ xs) = suc (length xs)

  abbrev pub any : (A → Bool) → List A → Bool
  any p [] = false
  any p (x ∷ xs) = p x || any p xs

module _ {ℓ κ} {A : Type ℓ} (P : A → Type κ) where
  abbrev pub All : List A → Type κ
  All [] = Unit
  All (x ∷ xs) = P x × All xs

  pub All-append : (xs ys : List A) → All xs → All ys → All (xs ++ ys)
  All-append [] ys hx hy = hy
  All-append (x ∷ xs) ys hx hy = (hx.0, All-append xs ys hx.1 hy)

pub All_mono {ℓ κ μ} :
    {A : Type ℓ} (P : A → Type κ) (Q : A → Type μ)
    → ((x : A) → P x → Q x)
    → (xs : List A) → All P xs
    → All Q xs
All_mono P Q f [] h = tt
All_mono P Q f (x ∷ xs) h = (f x h.0, All_mono P Q f xs h.1)

pub All-flip {ℓ κ μ} :
    {A : Type ℓ} {B : Type κ} (R : A → B → Type μ) (xs : List A) (ys : List B)
    → All (λ y. All (λ x. R x y) xs) ys
    → All (λ x. All (R x) ys) xs
All-flip R [] ys h = tt
All-flip {A} {B} R (x ∷ xs) ys h = (
  heads ys h,
  All-flip R xs ys
      (All_mono (λ y. All (λ z. R z y) (x ∷ xs)) (λ y. All (λ z. R z y) xs) (λ y hy. hy.1) ys h),
)
  where
    heads : (ys : List B) → All (λ y. All (λ z. R z y) (x ∷ xs)) ys → All (R x) ys
    heads [] h = tt
    heads (y ∷ ys) h = (h.0.0, heads ys h.1)

pub All_both {ℓ κ μ} :
    {A : Type ℓ} (P : A → Type κ) (Q : A → Type μ) (xs : List A)
    → All P xs
    → All Q xs
    → All (λ x. P x × Q x) xs
All_both P Q [] hp hq = tt
All_both P Q (x ∷ xs) hp hq = ((hp.0, hq.0), All_both P Q xs hp.1 hq.1)

pub any_none {ℓ} :
    {A : Type ℓ} (p : A → Bool) (xs : List A) → any p xs ≡ false → All (λ x. p x ≡ false) xs
any_none p [] h = tt
any_none p (x ∷ xs) h = (or_left (p x) (any p xs) h, any_none p xs (or_right (p x) (any p xs) h))

-- What holds between an element and all of them holds between it and itself.
pub All_diagonal {ℓ κ} :
    {A : Type ℓ} (R : A → A → Type κ) (xs : List A) → All (λ x. All (R x) xs → R x x) xs
All_diagonal R [] = tt
All_diagonal R (x ∷ xs) = (
  λ h. h.0,
  All_mono (λ y. All (R y) xs → R y y) (λ y. All (R y) (x ∷ xs) → R y y) (λ y f h. f h.1) xs
      (All_diagonal R xs),
)
