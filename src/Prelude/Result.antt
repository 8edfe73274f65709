-- ===== src/Prelude/Result.antt =====
-- Go's `(T, error)` results, and the calls of a database driver, which may fail.
use mathlib.Core.Bool.{Bool, false}
use mathlib.Core.List.{List, [], ◌∷◌}

-- a value or one of the package's sentinel errors
pub data Result {ℓ κ} (E : Type κ) (A : Type ℓ) : Type (ℓ ⊔ κ) where
  ok : A → Result E A
  err : E → Result E A

-- `if err := check; err != nil { return err }`, and what follows
infixl 5 ◌>>◌
abbrev pub ◌>>◌ {ℓ κ} : {E : Type κ} {A : Type ℓ} → Result E (Unit {0}) → Result E A → Result E A
err e >> rest = err e
ok _ >> rest = rest

-- A list of faults says which calls to come fail: one entry for each call, and none left means that
-- all succeed. One call: whether it fails, and the calls that are left.
abbrev pub next_call : List Bool → Bool × List Bool
next_call [] = (false, [])
next_call (b ∷ bs) = (b, bs)
