-- ===== src/Prelude/Int.antt =====
-- Signed integers over the native numbers, and the wrap-around of the machine integers of Go.
use Prim.Native.Nat.{ℕ, suc, ◌+◌, ◌-◌, ◌*◌, ◌/◌, ◌%◌, ◌^◌, ◌≤◌, ◌<◌}
use mathlib.Core.Path.{◌≡◌, refl, ap}
use mathlib.Core.Bool.{Bool, true}
use native.Mathlib.Omega.{arith}
use tissi_mah.Prelude.Tests.{ltb, leb, ◌==◌, if◌then◌else◌}

-- `negsuc n` is -(n + 1).
pub data ℤ : Type 0 where
  pos : ℕ → ℤ
  negsuc : ℕ → ℤ

abbrev pub pos_part : ℤ → ℕ
pos_part (pos n) = n
pos_part (negsuc n) = 0

abbrev pub neg_part : ℤ → ℕ
neg_part (pos n) = 0
neg_part (negsuc n) = suc n

-- a - b, as an integer.
abbrev pub sub_ℕ : ℕ → ℕ → ℤ
sub_ℕ a b = if leb b a then pos (a - b) else negsuc (b - a - 1)

infixl 65 ◌+ℤ◌ ◌-ℤ◌
infixl 70 ◌*ℤ◌
infix 50 ◌≤ℤ◌ ◌<ℤ◌
unfoldable pub ◌+ℤ◌ : ℤ → ℤ → ℤ
a +ℤ b = sub_ℕ (pos_part a + pos_part b) (neg_part a + neg_part b)

unfoldable pub ◌-ℤ◌ : ℤ → ℤ → ℤ
a -ℤ b = sub_ℕ (pos_part a + neg_part b) (neg_part a + pos_part b)

unfoldable pub ◌*ℤ◌ : ℤ → ℤ → ℤ
a *ℤ b =
    sub_ℕ (pos_part a * pos_part b + neg_part a * neg_part b)
      (pos_part a * neg_part b + neg_part a * pos_part b)

abbrev pub ◌≤ℤ◌ : ℤ → ℤ → Type 0
a ≤ℤ b = pos_part a + neg_part b ≤ pos_part b + neg_part a

abbrev pub ◌<ℤ◌ : ℤ → ℤ → Type 0
a <ℤ b = pos_part a + neg_part b < pos_part b + neg_part a

abbrev pub ltb_ℤ : ℤ → ℤ → Bool
ltb_ℤ a b = ltb (pos_part a + neg_part b) (pos_part b + neg_part a)

abbrev pub leb_ℤ : ℤ → ℤ → Bool
leb_ℤ a b = leb (pos_part a + neg_part b) (pos_part b + neg_part a)

abbrev pub eqb_ℤ : ℤ → ℤ → Bool
eqb_ℤ a b = (pos_part a + neg_part b) == (pos_part b + neg_part a)

pub +ℤ_parts :
    (a b : ℤ)
    → pos_part (a +ℤ b) + neg_part a + neg_part b ≡ neg_part (a +ℤ b) + pos_part a + pos_part b
unfolding ◌+ℤ◌
+ℤ_parts a b = ground arith

pub -ℤ_parts :
    (a b : ℤ)
    → pos_part (a -ℤ b) + neg_part a + pos_part b ≡ neg_part (a -ℤ b) + pos_part a + neg_part b
unfolding ◌-ℤ◌
-ℤ_parts a b = ground arith

pub eq_of_parts : (a b : ℤ) → pos_part a + neg_part b ≡ pos_part b + neg_part a → a ≡ b
eq_of_parts a b h = ground arith

pub ruleset int_laws = (arith, +ℤ_parts, -ℤ_parts, eq_of_parts)

-- The value of an integer modulo 2^64, as a bit pattern.
abbrev pub residue : ℤ → ℕ
residue (pos n) = n % 2 ^ 64
residue (negsuc n) = 2 ^ 64 - 1 - n % 2 ^ 64

-- The `int` that a bit pattern below 2^64 stands for.
abbrev pub signed : ℕ → ℤ
signed m = if ltb m (2 ^ 63) then pos m else negsuc (2 ^ 64 - 1 - m)

-- The conversion of a result to Go's 64-bit `int`: two's complement wrap-around.
unfoldable pub int64 : ℤ → ℤ
int64 z = signed (residue z)

-- An `int`.
abbrev pub InInt64 : ℤ → Type 0
InInt64 z = (pos_part z < 2 ^ 63) × (neg_part z ≤ 2 ^ 63)

pub int64_self : (z : ℤ) → InInt64 z → int64 z ≡ z
unfolding int64
int64_self (pos n) h = ground arith
int64_self (negsuc n) h = ground arith

pub int64-InInt64 : (z : ℤ) → InInt64 (int64 z)
unfolding int64
int64-InInt64 (pos n) = ground arith
int64-InInt64 (negsuc n) = ground arith

pub int64-add_left : (a b : ℤ) → int64 (int64 a +ℤ b) ≡ int64 (a +ℤ b)
unfolding int64 ◌+ℤ◌
int64-add_left (pos a) (pos b) = ground arith
int64-add_left (pos a) (negsuc b) = ground arith
int64-add_left (negsuc a) (pos b) = ground arith
int64-add_left (negsuc a) (negsuc b) = ground arith

-- Go's `z / 2`, which rounds towards zero.
unfoldable pub quot2 : ℤ → ℤ
quot2 (pos n) = pos (n / 2)
quot2 (negsuc n) = sub_ℕ 0 ((n + 1) / 2)

pub quot2_bounds : (n : ℕ) → (pos 0 ≤ℤ quot2 (pos n)) × (quot2 (pos n) ≤ℤ pos n)
unfolding quot2
quot2_bounds n = omega arith

pub +ℤ_comm : (a b : ℤ) → a +ℤ b ≡ b +ℤ a
+ℤ_comm a b = omega int_laws

pub +ℤ-zero : (a : ℤ) → a +ℤ pos 0 ≡ a
+ℤ-zero a = omega int_laws

pub zero-+ℤ : (a : ℤ) → pos 0 +ℤ a ≡ a
zero-+ℤ a = omega int_laws

pub +ℤ-sub_cancel : (a b : ℤ) → a +ℤ (b -ℤ a) ≡ b
+ℤ-sub_cancel a b = omega int_laws

pub int64-add_right : (a b : ℤ) → int64 (a +ℤ int64 b) ≡ int64 (a +ℤ b)
int64-add_right a b = rw (+ℤ_comm a (int64 b), int64-add_left b a, +ℤ_comm b a) refl

pub int64_idem : (a : ℤ) → int64 (int64 a) ≡ int64 a
int64_idem a = int64_self (int64 a) (int64-InInt64 a)

-- rewriting a sum of Go integers to the wrap of the exact sum
pub ruleset wrap_laws =
    (int64_idem, int64-add_left, int64-add_right, +ℤ-zero, zero-+ℤ, +ℤ-sub_cancel)

-- The conversion of an `int` to `int16`, which drops the high bits.
unfoldable pub int16 : ℤ → ℤ
int16 (pos n) =
    if ltb (n % 2 ^ 16) (2 ^ 15) then pos (n % 2 ^ 16) else negsuc (2 ^ 16 - 1 - n % 2 ^ 16)
int16 (negsuc n) =
    if ltb (n % 2 ^ 16) (2 ^ 15) then negsuc (n % 2 ^ 16) else pos (2 ^ 16 - 1 - n % 2 ^ 16)

-- Go's `z / 100`, which rounds towards zero.
unfoldable pub quot100 : ℤ → ℤ
quot100 (pos n) = pos (n / 100)
quot100 (negsuc n) = sub_ℕ 0 ((n + 1) / 100)

pub eqb_ℤ→eq : (a b : ℤ) → eqb_ℤ a b ≡ true → a ≡ b
eqb_ℤ→eq (pos m) (pos n) h = ap pos (ground arith)
eqb_ℤ→eq (pos m) (negsuc n) h = ground arith
eqb_ℤ→eq (negsuc m) (pos n) h = ground arith
eqb_ℤ→eq (negsuc m) (negsuc n) h = ap negsuc (ground arith)
