-- ===== src/Payment/Transfers/Journal.antt =====
-- The transfers of refunds by FedaPay.
use tissi_mah.Prelude.{ℤ, eqb_ℤ, String, str_eq, Bool, Option, List, [], ◌∷◌, if◌then◌else◌}
use tissi_mah.Prelude.Result.{Result}
use tissi_mah.Payment.Store.{Db}

-- PayoutItem.Status: `sent` and `failed` are final.
pub data PayoutItemStatus : Type 0 where
  sent failed : PayoutItemStatus
  other : String → PayoutItemStatus

pub record PayoutItem : Type 0 where
  pub id : ℤ
  pub status : PayoutItemStatus
  pub fail_reason : String

pub data Transfer : Type 0 where
  started : String → ℤ → Transfer
  reported : ℤ → PayoutItemStatus → Transfer

-- the payouts without one of them
abbrev pub remove : ℤ → List ℤ → List ℤ
remove p [] = []
remove p (q ∷ qs) = if eqb_ℤ q p then remove p qs else q ∷ remove p qs

-- The payouts that were started for a refund and have not been reported as failed since: each of them
-- has paid the passenger, or may still pay.
abbrev pub live : String → List Transfer → List ℤ
live id [] = []
live id (started refund p ∷ j) = if str_eq refund id then p ∷ live id j else live id j
live id (reported p PayoutItemStatus.failed ∷ j) = remove p (live id j)
live id (reported p PayoutItemStatus.sent ∷ j) = live id j
live id (reported p (PayoutItemStatus.other _) ∷ j) = live id j

pub record UserDetails : Type 0 where
  pub first_name : String
  pub name : String

-- The calls of other services, which answer or fail with a text. `refund_lock` is AcquireRefundLock
-- where a cache is configured, and a booking is known by its passenger.
pub record Clients : Type 0 where
  pub refund_lock : Option (String → Result String Bool)
  pub get_booking_details : String → Result String String
  pub get_user_by_user_id : String → Result String UserDetails
  pub create_payout : ℤ → String → String → UserDetails → Result String ℤ
  pub start_payouts : ℤ → Result String (Unit {0})
  pub get_payout : ℤ → Result String PayoutItem

pub record State : Type 0 where
  pub db : Db
  pub journal : List Transfer
