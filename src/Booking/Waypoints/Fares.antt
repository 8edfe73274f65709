-- ===== src/Booking/Waypoints/Fares.antt =====
-- The price between two stops.
use tissi_mah.Prelude.{
  ℤ, pos, negsuc, ◌+ℤ◌, leb_ℤ, ltb_ℤ, eqb_ℤ, ◌<ℤ◌, int64, int64-add_left, int64-add_right, int_laws,
  arith, String, str_eq, false, ◌&&◌, List, [], ◌∷◌, if◌then◌else◌, ◌≡◌, refl, sym, ap, Bool-cases,
  inl, inr,
}
use tissi_mah.Prelude.Result.{Result, ok}
use tissi_mah.Booking.Domain.{Error}
use tissi_mah.Booking.Waypoints.{
  TripWaypoint, resolve_from, price_from, price_between, calculate_price_from_waypoints,
}

-- the order of one stop: that of the last one with the identifier
abbrev order_of : String → List TripWaypoint → ℤ → ℤ
order_of id [] order = order
order_of id (wp ∷ wps) order =
    order_of id wps (if str_eq wp.waypoint_id id then wp.sequencer_order else order)

resolve-order_of :
    (a b : String) (wps : List TripWaypoint) (x y : ℤ)
    → resolve_from a b wps x y ≡ (order_of a wps x, order_of b wps y)
resolve-order_of a b [] x y = refl
resolve-order_of a b (wp ∷ wps) x y =
    resolve-order_of a b wps (if str_eq wp.waypoint_id a then wp.sequencer_order else x)
      (if str_eq wp.waypoint_id b then wp.sequencer_order else y)

swap_right : (x y z : ℤ) → (x +ℤ y) +ℤ z ≡ (x +ℤ z) +ℤ y
swap_right x y z = omega int_laws

assoc : (x y z : ℤ) → (x +ℤ y) +ℤ z ≡ x +ℤ (y +ℤ z)
assoc x y z = omega int_laws

add_to_left : (x y z : ℤ) → int64 (int64 (x +ℤ y) +ℤ z) ≡ int64 (int64 (x +ℤ z) +ℤ y)
add_to_left x y z = rw (int64-add_left (x +ℤ y) z, int64-add_left (x +ℤ z) y, swap_right x y z) refl

add_to_right : (x y z : ℤ) → int64 (int64 (x +ℤ y) +ℤ z) ≡ int64 (x +ℤ int64 (y +ℤ z))
add_to_right x y z = rw (int64-add_left (x +ℤ y) z, int64-add_right x (y +ℤ z), assoc x y z) refl

module _ (p d e : ℤ) (pd : p <ℤ d) (de : d <ℤ e) where
  price_from-split :
      (wps : List TripWaypoint) (all left right : ℤ)
      → all ≡ int64 (left +ℤ right)
      → price_from p e wps all ≡ int64 (price_from p d wps left +ℤ price_from d e wps right)
  price_from-split [] all left right h = h
  price_from-split (wp ∷ wps) all left right h =
      price_from-split wps _ _ _ (step wp.sequencer_order wp.price_from_previous)
    where
      step :
          (o z : ℤ)
          → (if ltb_ℤ p o && leb_ℤ o e then int64 (all +ℤ z) else all)
            ≡ int64 (
                (if ltb_ℤ p o && leb_ℤ o d then int64 (left +ℤ z) else left)
                +ℤ (if ltb_ℤ d o && leb_ℤ o e then int64 (right +ℤ z) else right))
      step o z = ground (arith, h, add_to_left left right z, add_to_right left right z)

-- the price of a trip between stops of these orders, if they are known and in order
abbrev Priced : List TripWaypoint → ℤ → ℤ → ℤ → Type 0
Priced wps p d x =
    (eqb_ℤ p (negsuc 0) ≡ false)
    × (eqb_ℤ d (negsuc 0) ≡ false)
    × (p <ℤ d)
    × (x ≡ price_from p d wps (pos 0))

ok_injective : (x y : ℤ) → ◌≡◌ {A = Result Error ℤ} (ok x) (ok y) → x ≡ y
ok_injective x y e = cc

price_between-Priced :
    (wps : List TripWaypoint) (p d x : ℤ) → price_between wps (p, d) ≡ ok x → Priced wps p d x
price_between-Priced wps p d x h = elim (Bool-cases (eqb_ℤ p (negsuc 0))) [
  | inl unknown ↦ ground arith
  | inr known ↦ elim (Bool-cases (eqb_ℤ d (negsuc 0))) [
    | inl unknown ↦ ground arith
    | inr both ↦ elim (Bool-cases (leb_ℤ d p)) [
      | inl swapped ↦ ground arith
      | inr ordered ↦
          (known, both, ground arith, sym (ok_injective _ x (rw (known, both, ordered) at h)))
    ]
  ]
]

zero_sum : pos 0 ≡ int64 (pos 0 +ℤ pos 0)
unfolding int64 ◌+ℤ◌
zero_sum = refl

Priced-add :
    (wps : List TripWaypoint) (p d e x y : ℤ)
    → Priced wps p d x
    → Priced wps d e y
    → price_between wps (p, e) ≡ ok (int64 (x +ℤ y))
Priced-add wps p d e x y (kp, kd, pd, hx) (kd', ke, de, hy) =
    let ordered : leb_ℤ e p ≡ false = ground arith in
    rw (kp, ke, ordered, hx, hy)
      (ap ok (price_from-split p d e pd de wps (pos 0) (pos 0) (pos 0) zero_sum))

-- If the code prices the way from a stop to a second one, and from there to a third, then it prices
-- the way from the first to the third, at the sum of the two prices (on 64-bit integers, which wrap).
pub calculate_price_from_waypoints-add :
    (wps : List TripWaypoint) (a b c : String) (x y : ℤ)
    → calculate_price_from_waypoints wps a b ≡ ok x
    → calculate_price_from_waypoints wps b c ≡ ok y
    → calculate_price_from_waypoints wps a c ≡ ok (int64 (x +ℤ y))
unfolding calculate_price_from_waypoints
calculate_price_from_waypoints-add wps a b c x y hx hy =
    rw (resolve-order_of a c wps (negsuc 0) (negsuc 0)) (
      Priced-add wps (order_of a wps (negsuc 0)) (order_of b wps (negsuc 0))
        (order_of c wps (negsuc 0)) x y
        (price_between-Priced wps (order_of a wps (negsuc 0)) (order_of b wps (negsuc 0)) x
          (rw (resolve-order_of a b wps (negsuc 0) (negsuc 0)) at hx))
        (price_between-Priced wps (order_of b wps (negsuc 0)) (order_of c wps (negsuc 0)) y
          (rw (resolve-order_of b c wps (negsuc 0) (negsuc 0)) at hy)))
