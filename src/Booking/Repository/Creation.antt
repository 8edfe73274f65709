-- ===== src/Booking/Repository/Creation.antt =====
-- services/booking-service/internal/repository/implementations/booking_write_repository.go: Create,
-- with the constraints of services/booking-service/migrations on the rows that it inserts.
pub mod Outcome
use tissi_mah.Prelude.{
  ℤ, pos, negsuc, ◌+ℤ◌, ◌*ℤ◌, leb_ℤ, eqb_ℤ, String, Bool, true, false, not, ◌&&◌, ◌||◌, Option,
  none, some, List, [], ◌∷◌, ◌++◌, is_some, any, str_eq, if◌then◌else◌,
}
use tissi_mah.Prelude.Result.{Result, ok, err}
use tissi_mah.Booking.Domain.{Booking, Segment, StatusHistoryEntry, Error, internal_server}
use tissi_mah.Booking.Store.{
  Tables, Db, Action, next_call, find_row, insert_history, transaction, exec, ◌>>=◌, ◌>>◌, lift,
}

abbrev pub in_range : ℤ → ℤ → ℤ → Bool
in_range low high n = leb_ℤ low n && leb_ℤ n high

-- a column that may be NULL
abbrev optional_in_range : ℤ → ℤ → Option ℤ → Bool
optional_in_range low high none = true
optional_in_range low high (some n) = in_range low high n

-- the columns of type SMALLINT and INTEGER
abbrev pub fits_columns : Booking → Bool
fits_columns b =
    in_range (negsuc 32_767) (pos 32_767) b.seats_booked
    && in_range (negsuc 2_147_483_647) (pos 2_147_483_647) b.price_per_seat
    && in_range (negsuc 2_147_483_647) (pos 2_147_483_647) b.subtotal
    && in_range (negsuc 2_147_483_647) (pos 2_147_483_647) b.service_fee
    && in_range (negsuc 2_147_483_647) (pos 2_147_483_647) b.total_amount
    && optional_in_range (negsuc 32_767) (pos 32_767) b.extra_minutes_detour
    && optional_in_range (negsuc 2_147_483_647) (pos 2_147_483_647) b.extra_detour_price

-- the constraints ck_bookings_… on the amounts of a row
abbrev pub satisfies_checks : Booking → Bool
satisfies_checks b =
    leb_ℤ (pos 1) b.seats_booked
    && leb_ℤ (pos 0) b.price_per_seat
    && leb_ℤ (pos 0) b.service_fee
    && eqb_ℤ b.subtotal (b.seats_booked *ℤ b.price_per_seat)
    && eqb_ℤ b.total_amount (b.subtotal +ℤ b.service_fee)

-- The row is not refused: the two unique columns are free, and the constraints hold.
abbrev pub accepts : Tables → Booking → Bool
accepts t b =
    not (is_some (find_row b.booking_id t.bookings))
    && not (any (λ r. str_eq r.booking_reference b.booking_reference) t.bookings)
    && fits_columns b
    && satisfies_checks b

-- The row that the INSERT writes: the columns that it does not name have their defaults.
abbrev pub inserted : ℤ → Booking → Booking
inserted now b = record b {
  rejected_at = none;
  cancelled_at = none;
  completed_at = none;
  canceller_id = none;
  cancellation_reason = none;
  no_show_type = none;
  no_show_reported_by = none;
  no_show_reported_at = none;
  no_show_description = none;
  payment_released_at = none;
  created_at = now;
  updated_at = now;
  refund_reason = none;
  refund_requested_at = none;
  refund_request_attempts = pos 0;
  no_show_contested_at = none;
  no_show_contested_by = none;
  no_show_contest_reason = none;
  no_show_resolved_at = none;
  no_show_resolved_by = none;
  no_show_resolution = none;
  no_show_resolution_note = none;
}

-- insertBooking
unfoldable pub insert_booking : ℤ → Booking → Action (Unit {0})
insert_booking now b db =
    if not (accepts db.tables b)
    then (err internal_server, record db { faults = (next_call db.faults).1 })
    else exec internal_server (λ t. record t { bookings = inserted now b ∷ t.bookings }) db

-- insertSegment, for each segment
unfoldable pub insert_segments : List Segment → Action (Unit {0})
insert_segments [] = lift (ok tt)
insert_segments (s ∷ ss) =
    exec internal_server (λ t. record t { segments = t.segments ++ s ∷ [] }) >> insert_segments ss

-- Create
unfoldable pub create : ℤ → Booking → List Segment → StatusHistoryEntry → Action (Unit {0})
create now b segments entry =
    transaction (λ _. internal_server)
      do insert_booking now b; insert_segments segments; insert_history (some entry)
