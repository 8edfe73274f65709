-- ===== src/Booking/Tests/Handlers.antt =====
-- Concrete runs of the handlers of bookings, and uses of the theorems at concrete inputs.
use tissi_mah.Prelude.{ℤ, pos, ◌-ℤ◌, none, some, List, [], ◌∷◌, refl}
use tissi_mah.Prelude.Result.{ok}
use tissi_mah.Booking.Domain.{Booking, payment_failed, payment_pending, approved}
use tissi_mah.Booking.Seats.{segment_occupancy}
use tissi_mah.Booking.Creation.{World}
use tissi_mah.Booking.Handlers.Runs.{HandlerCall, confirm, cancel, handle_all, handle_all-InStep}
use tissi_mah.Booking.Handlers.Balance.{InStep}
use tissi_mah.Booking.Handlers.{PaymentClient, confirm_payment, report_no_show}
use tissi_mah.Booking.Handlers.Cancellation.{IsSteady}
use tissi_mah.Booking.Handlers.Confirmation.{confirm_payment-InStep}
use tissi_mah.Booking.Handlers.Outcome.{Confirmed, confirm_payment-Confirmed}
use tissi_mah.Booking.Handlers.Reports.{Reported, report_no_show-Reported}
use tissi_mah.Booking.Tests.{paid, no_rows}
use tissi_mah.Booking.Tests.Seats.{trip}

-- a booking whose payment has failed, and the free seats of its trip
abbrev pub unpaid : Booking
unpaid = record paid { status = payment_failed }

abbrev pub late_world : World
late_world = record {
  db = record no_rows { tables = record (no_rows.tables) { bookings = unpaid ∷ [] } };
  cache = some (record {
    counters = λ t k. some (pos 4 -ℤ segment_occupancy t k (unpaid ∷ []));
    deadlines = λ t k. some (pos 10);
    clock = pos 1;
    faults = [];
  });
}

-- a booking whose payment is pending, and the other free seats of its trip
abbrev waiting : Booking
waiting = record paid { status = payment_pending }

abbrev waiting_world : World
waiting_world = record {
  db = record no_rows { tables = record (no_rows.tables) { bookings = waiting ∷ [] } };
  cache = some (record {
    counters = λ t k. some (pos 4 -ℤ segment_occupancy t k (waiting ∷ []));
    deadlines = λ t k. some (pos 10);
    clock = pos 1;
    faults = [];
  });
}

-- a payment-service that learns that FedaPay has approved the payment, and confirms the booking
abbrev paid_meanwhile : PaymentClient
paid_meanwhile id w = (ok "held", (confirm_payment (λ _. ok (some trip)) (pos 5) id "tx" w).1)

paid_meanwhile-IsSteady : IsSteady "t" (pos 4) (pos 3) (pos 9) (some paid_meanwhile)
paid_meanwhile-IsSteady id w = (
  confirm_payment-InStep "t" (pos 4) (pos 3) (pos 9) (λ _. ok (some trip)) (pos 5) id "tx" w,
  λ f. cc,
)

abbrev cancelled_then_paid : List (ℤ × HandlerCall)
cancelled_then_paid =
    (pos 5, cancel "p" "b1" "changed plans") ∷ (pos 6, confirm (λ _. ok (some trip)) "b1" "tx") ∷ []

handle_all-InStep_example :
    InStep "t"
      (pos 4)
      (pos 3)
      (pos 9)
      (handle_all (some paid_meanwhile) cancelled_then_paid waiting_world)
handle_all-InStep_example =
    handle_all-InStep "t" (pos 4) (pos 3) (pos 9) (some paid_meanwhile) paid_meanwhile-IsSteady
      cancelled_then_paid waiting_world (refl, (refl, tt)) ((refl, λ k i. refl), λ k i. refl)

confirm_payment-Confirmed_example :
    Confirmed
      (pos 5)
      "b1"
      late_world.db.tables
      (confirm_payment (λ _. ok (some trip)) (pos 5) "b1" "tx" late_world)
confirm_payment-Confirmed_example =
    confirm_payment-Confirmed (λ _. ok (some trip)) (pos 5) "b1" "tx" late_world

-- an approved booking, and its driver an hour after the pickup
abbrev ready : World
ready = record {
  db = record no_rows {
    tables = record (no_rows.tables) { bookings = record paid { status = approved } ∷ [] };
  };
  cache = none;
}

report_no_show-Reported_example :
    Reported
      (λ _. some (pos 0))
      (pos 3_600_000_000_000)
      "b1"
      "d"
      "passenger"
      "absent"
      ready.db.tables
      (report_no_show
        (λ _. some (pos 0))
        (pos 3_600_000_000_000)
        "b1"
        "d"
        "passenger"
        "absent"
        ready)
report_no_show-Reported_example =
    report_no_show-Reported (λ _. some (pos 0)) (pos 3_600_000_000_000) "b1" "d" "passenger"
      "absent" ready
