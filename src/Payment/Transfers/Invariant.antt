-- ===== src/Payment/Transfers/Invariant.antt =====
-- What holds of every refund between the calls that change refunds: at most one transfer of a refund
-- is live, none while it waits for a transfer, and the count of its retries stays within the limit.
use tissi_mah.Prelude.{
  ℤ, ◌<ℤ◌, ◌≤ℤ◌, ◌≤◌, String, str_eq, true, false, Option, some, List, [], ◌∷◌, length, All,
  All_mono, ◌≡◌, refl, ◌⊎◌, inl, inr, arith, eqb_ℤ, if_rule,
}
use tissi_mah.Payment.Domain.{Terms, Refund, RefundStatus}
use tissi_mah.Payment.Transfers.Journal.{
  Transfer, started, reported, PayoutItemStatus, remove, live,
}

abbrev pub LiveFor : RefundStatus → Option ℤ → List ℤ → Type 0
LiveFor RefundStatus.pending reference l = l ≡ []
LiveFor RefundStatus.failed reference l = l ≡ []
LiveFor RefundStatus.processing reference l =
    (l ≡ []) ⊎ ((p : ℤ) × (reference ≡ some p) × (l ≡ p ∷ []))
LiveFor RefundStatus.completed reference l = length l ≤ 1

abbrev pub Within : ℤ → RefundStatus → ℤ → Type 0
Within max RefundStatus.processing n = n <ℤ max
Within max RefundStatus.pending n = n ≤ℤ max
Within max RefundStatus.completed n = n ≤ℤ max
Within max RefundStatus.failed n = n ≤ℤ max

abbrev pub IsSound : ℤ → List Transfer → Refund → Type 0
IsSound max j r =
    LiveFor r.status r.payment_provider_reference (live r.refund_id j)
    × Within max r.status r.retry_count

-- Without a live transfer and below the limit, every status is sound.
abbrev pub IsIdle : ℤ → List Transfer → Refund → Type 0
IsIdle max j r = (live r.refund_id j ≡ []) × (r.retry_count <ℤ max)

LiveFor-none :
    (s : RefundStatus) (reference : Option ℤ) (l : List ℤ) → l ≡ [] → LiveFor s reference l
LiveFor-none RefundStatus.pending reference l e = e
LiveFor-none RefundStatus.failed reference l e = e
LiveFor-none RefundStatus.processing reference l e = inl e
LiveFor-none RefundStatus.completed reference l e = rw e omega arith

Within-below : (max : ℤ) (s : RefundStatus) (n : ℤ) → n <ℤ max → Within max s n
Within-below max RefundStatus.pending n h = omega arith
Within-below max RefundStatus.failed n h = omega arith
Within-below max RefundStatus.processing n h = h
Within-below max RefundStatus.completed n h = omega arith

pub IsIdle-IsSound : (max : ℤ) (j : List Transfer) (r : Refund) → IsIdle max j r → IsSound max j r
IsIdle-IsSound max j r h = (
  LiveFor-none r.status r.payment_provider_reference (live r.refund_id j) h.0,
  Within-below max r.status r.retry_count h.1,
)

pub at_most_one :
    (s : RefundStatus) (reference : Option ℤ) (l : List ℤ) → LiveFor s reference l → length l ≤ 1
at_most_one RefundStatus.pending reference l h = rw h omega arith
at_most_one RefundStatus.failed reference l h = rw h omega arith
at_most_one RefundStatus.processing reference l (inl h) = rw h omega arith
at_most_one RefundStatus.processing reference l (inr h) = rw h.2 omega arith
at_most_one RefundStatus.completed reference l h = h

pub within_limit : (max : ℤ) (s : RefundStatus) (n : ℤ) → Within max s n → n ≤ℤ max
within_limit max RefundStatus.pending n h = h
within_limit max RefundStatus.failed n h = h
within_limit max RefundStatus.processing n h = omega arith
within_limit max RefundStatus.completed n h = h

-- a transfer that is started for another refund
pub live_other :
    (id other : String) (p : ℤ) (j : List Transfer)
    → str_eq other id ≡ false
    → live id (started other p ∷ j) ≡ live id j
live_other id other p j e = rw e refl

pub live_started :
    (id : String) (p : ℤ) (j : List Transfer) (other : String)
    → str_eq other id ≡ true
    → live id (started other p ∷ j) ≡ p ∷ live id j
live_started id p j other e = rw e refl

length-remove : (p : ℤ) (l : List ℤ) → length (remove p l) ≤ length l
length-remove p [] = omega arith
length-remove p (q ∷ l) = ground (arith, length-remove p l)

-- A report removes a transfer at most.
pub live_report_none :
    (id : String) (p : ℤ) (s : PayoutItemStatus) (j : List Transfer)
    → live id j ≡ []
    → live id (reported p s ∷ j) ≡ []
live_report_none id p PayoutItemStatus.sent j e = e
live_report_none id p PayoutItemStatus.failed j e = rw e refl
live_report_none id p (PayoutItemStatus.other x) j e = e

live_report_one :
    (id : String) (p q : ℤ) (s : PayoutItemStatus) (j : List Transfer)
    → live id j ≡ q ∷ []
    → (live id (reported p s ∷ j) ≡ []) ⊎ (live id (reported p s ∷ j) ≡ q ∷ [])
live_report_one id p q PayoutItemStatus.sent j e = inr e
live_report_one id p q PayoutItemStatus.failed j e =
    rw e (if_rule (λ (l : List ℤ). (l ≡ []) ⊎ (l ≡ q ∷ [])) (eqb_ℤ q p) (inl refl) (inr refl))
live_report_one id p q (PayoutItemStatus.other x) j e = inr e

live_report_length :
    (id : String) (p : ℤ) (s : PayoutItemStatus) (j : List Transfer)
    → length (live id j) ≤ 1
    → length (live id (reported p s ∷ j)) ≤ 1
live_report_length id p PayoutItemStatus.sent j h = h
live_report_length id p PayoutItemStatus.failed j h =
    let l = length-remove p (live id j) in omega arith
live_report_length id p (PayoutItemStatus.other x) j h = h

LiveFor-report :
    (status : RefundStatus) (reference : Option ℤ) (id : String) (p : ℤ) (s : PayoutItemStatus)
    (j : List Transfer)
    → LiveFor status reference (live id j)
    → LiveFor status reference (live id (reported p s ∷ j))
LiveFor-report RefundStatus.pending reference id p s j h = live_report_none id p s j h
LiveFor-report RefundStatus.failed reference id p s j h = live_report_none id p s j h
LiveFor-report RefundStatus.processing reference id p s j (inl e) =
    inl (live_report_none id p s j e)
LiveFor-report RefundStatus.processing reference id p s j (inr (q, known, e)) =
    elim (live_report_one id p q s j e) [
      | inl none_left ↦ inl none_left
      | inr left ↦ inr (q, known, left)
    ]
LiveFor-report RefundStatus.completed reference id p s j h = live_report_length id p s j h

-- Refunds stay sound when a status is read.
pub IsSound-report :
    (max : ℤ) (p : ℤ) (s : PayoutItemStatus) (j : List Transfer) (r : Refund)
    → IsSound max j r
    → IsSound max (reported p s ∷ j) r
IsSound-report max p s j r h =
    (LiveFor-report r.status r.payment_provider_reference r.refund_id p s j h.0, h.1)

eqb_self : (p : ℤ) → eqb_ℤ p p ≡ true
eqb_self p = ground arith

-- the live transfer of a refund is reported as failed
pub live-failed :
    (id : String) (p : ℤ) (j : List Transfer) (l : List ℤ)
    → live id j ≡ l
    → (l ≡ []) ⊎ (l ≡ p ∷ [])
    → live id (reported p PayoutItemStatus.failed ∷ j) ≡ []
live-failed id p j l e (inl none_left) = rw (e, none_left) refl
live-failed id p j l e (inr left) = rw (e, left, eqb_self p) refl

-- No transfer is live but those of the refunds with the identifiers `ids`.
abbrev pub IsTraced : List Terms → List Transfer → Type 0
IsTraced ids j =
    (id : String) → All (λ (i : Terms). str_eq i.refund_id id ≡ false) ids → live id j ≡ []

-- `id` is one of the identifiers.
abbrev pub IsAmong : List Terms → String → Type 0
IsAmong ids id =
    (other : String)
    → All (λ (i : Terms). str_eq i.refund_id other ≡ false) ids
    → str_eq id other ≡ false

pub IsTraced-started :
    (ids : List Terms) (id : String) (j j' : List Transfer)
    → IsAmong ids id
    → (j' ≡ j) ⊎ ((p : ℤ) × (j' ≡ started id p ∷ j))
    → IsTraced ids j
    → IsTraced ids j'
IsTraced-started ids id j j' among (inl e) h = rw e h
IsTraced-started ids id j j' among (inr (p, e)) h =
    λ other absent. rw (e, live_other other id p j (among other absent)) (h other absent)

pub ids-IsAmong : (ids : List Terms) → All (λ (i : Terms). IsAmong ids i.refund_id) ids
ids-IsAmong [] = tt
ids-IsAmong (i ∷ ids) = (
  λ other absent. absent.0,
  All_mono (λ (x : Terms). IsAmong ids x.refund_id) (λ (x : Terms). IsAmong (i ∷ ids) x.refund_id)
      (λ x h other absent. h other absent.1) ids (ids-IsAmong ids),
)
