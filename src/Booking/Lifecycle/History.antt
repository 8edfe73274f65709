-- ===== src/Booking/Lifecycle/History.antt =====
-- The last status of a booking in a history that grows.
use mathlib.Core.List.{append-nil, append_assoc}
use tissi_mah.Prelude.{String, str_eq, some, List, [], ◌∷◌, ◌++◌, ◌≡◌, arith, if◌then◌else◌}
use tissi_mah.Booking.Domain.{StatusHistoryEntry}
use tissi_mah.Booking.Lifecycle.{last_status, status_after, Chained, ◌⟶◌}

pub last_status-append_one :
    (id : String) (h : List StatusHistoryEntry) (e : StatusHistoryEntry)
    → last_status id (h ++ e ∷ [])
      ≡ (if str_eq e.booking_id id then some e.new_status else last_status id h)
last_status-append_one id [] e = ground arith
last_status-append_one id (x ∷ h) e = ground (arith, last_status-append_one id h e)

pub Chained-append_one :
    (seen es : List StatusHistoryEntry) (e : StatusHistoryEntry)
    → Chained seen es
    → status_after e.booking_id (seen ++ es) ≡ e.previous_status
    → e.previous_status ⟶ e.new_status
    → Chained seen (es ++ e ∷ [])
Chained-append_one seen [] e h l s = (rw append-nil at l, s, tt)
Chained-append_one seen (x ∷ es) e h l s =
    (h.0, h.1, Chained-append_one (seen ++ x ∷ []) es e h.2 (rw append_assoc l) s)
