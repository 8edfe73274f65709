-- ===== src/Payment/Tests/Refunds.antt =====
-- Concrete runs of payment-service, and uses of the theorems on refunds at concrete inputs.
use tissi_mah.Prelude.{
  ℤ, pos, ◌≤ℤ◌, ◌≤◌, String, str_eq, Bool, true, false, Option, none, some, List, [], ◌∷◌, length,
  ◌≡◌, refl, All, arith, if◌then◌else◌, int64, int16, ◌+ℤ◌, ◌-ℤ◌,
}
use tissi_mah.Prelude.Result.{ok, err}
use tissi_mah.Payment.Domain.{
  Payment, PaymentMethod, PaymentStatus, Refund, RefundReason, RefundStatus, is_valid,
}
use tissi_mah.Payment.RefundRules.{RefundConfig, determine_refund_rule, calculate_refund}
use tissi_mah.Payment.Store.{update_refunds, write_refund_history, write_payment_history}
use tissi_mah.Payment.Store.Statements.{all_terms}
use tissi_mah.Payment.Repository.Refunds.{is_due, create_refund}
use tissi_mah.Payment.Repository.Payments.{
  update_payment_status, allowed_current, set_payment_status,
}
use tissi_mah.Payment.Refunds.{
  RequestRefundInput, RequestRefundResult, request_refund, create_refund_for_payment,
  existing_refund_result, parse_dates, refund_payment,
}
use tissi_mah.Payment.Refunds.Outcome.{RequestOutcome, request_refund-Outcome}
use tissi_mah.Payment.Transfers.Journal.{live, PayoutItemStatus, Clients, State}
use tissi_mah.Payment.Transfers.Worker.{
  max_retries, process_pending_refunds, process_refund, mark_failed,
}
use tissi_mah.Payment.Transfers.Confirmation.{confirm_provider_payout, apply_refund_payout_status}
use tissi_mah.Payment.Runs.{
  Call, Request, request, process, confirm, ask, with_faults, execute, run,
}
use tissi_mah.Payment.Runs.Health.{IsHealthy, OnePerPayment, Extends, run-IsHealthy}
use tissi_mah.Payment.Runs.Replay.{fresh, fresh-IsHealthy, run-pays_once, ask_again}
use tissi_mah.Payment.Runs.Settling.{Tick, batches, run-settles}

abbrev config : RefundConfig
config = record {
  cancellation_full_refund_hours = pos 24;
  cancellation_grace_period_minutes = pos 30;
}

abbrev payment : Payment
payment = record {
  payment_id = "p1";
  booking_id = "b1";
  trip_id = "t1";
  amount = pos 2_200;
  payment_method = PaymentMethod.mobile_money;
  status = PaymentStatus.held;
  external_transaction_id = "77";
  passenger_phone_number = "90000000";
  created_at = pos 5;
  completed_at = some (pos 6);
  updated_at = pos 6;
}

-- a parser that knows one date
abbrev parse : String → Option ℤ
parse text = if str_eq text "noon" then some (pos 43_200) else none

abbrev input : RequestRefundInput
input = record {
  booking_id = "b1";
  refund_reason = RefundReason.cancelled_by_driver;
  original_amount = pos 2_000;
  service_fee = pos 200;
  departure_datetime = "";
  cancelled_at = "noon";
  approved_at = "";
}

abbrev first_request : Request
first_request = record {
  parse = parse;
  cfg = config;
  now = pos 10;
  refund_id = "r1";
  refund_reference = "RMB-1";
  input = input;
}

abbrev second_request : Request
second_request = record {
  parse = parse;
  cfg = config;
  now = pos 20;
  refund_id = "r2";
  refund_reference = "RMB-2";
  input = input;
}

-- FedaPay accepts payout 7, whose status is `status`.
abbrev clients_with : PayoutItemStatus → Clients
clients_with status = record {
  refund_lock = some (λ id. ok true);
  get_booking_details = λ id. ok "u1";
  get_user_by_user_id = λ id. ok (record { first_name = "Ama"; name = "Kossi" });
  create_payout = λ amount mode phone user. ok (pos 7);
  start_payouts = λ p. ok tt;
  get_payout = λ p. ok (record { id = p; status = status; fail_reason = "unreachable" });
}

-- FedaPay refuses every payout.
abbrev refusing : Clients
refusing = record (clients_with PayoutItemStatus.sent) {
  create_payout = λ amount mode phone user. err "refused";
}

abbrev calls : List Call
calls =
    record { faults = []; command = request first_request }
    ∷ record { faults = []; command = process (pos 11) (clients_with PayoutItemStatus.failed) 20 }
    ∷ record {
      faults = false ∷ true ∷ [];
      command = confirm (pos 12) (clients_with PayoutItemStatus.failed) (pos 7);
    }
    ∷ record {
      faults = [];
      command = confirm (pos 13) (clients_with PayoutItemStatus.failed) (pos 7);
    }
    ∷ record { faults = []; command = process (pos 14) (clients_with PayoutItemStatus.sent) 20 }
    ∷ record {
      faults = [];
      command = confirm (pos 15) (clients_with PayoutItemStatus.sent) (pos 7);
    }
    ∷ []

abbrev statuses : List Refund → List (RefundStatus × ℤ)
statuses [] = []
statuses (r ∷ rows) = (r.status, r.retry_count) ∷ statuses rows

-- the transfer fails, is tried again, and reaches the passenger
calls_complete :
    statuses (run (pos 3) calls (fresh (payment ∷ []))).db.tables.refunds
    ≡ (RefundStatus.completed, pos 1) ∷ []
unfolding run request_refund is_valid create_refund_for_payment existing_refund_result parse_dates
    create_refund determine_refund_rule calculate_refund int64 int16 ◌+ℤ◌ ◌-ℤ◌ refund_payment
    update_payment_status allowed_current set_payment_status write_refund_history
    write_payment_history update_refunds process_pending_refunds process_refund mark_failed
    confirm_provider_payout apply_refund_payout_status
calls_complete = refl

run-IsHealthy_example :
    IsHealthy (pos 3) (run (pos 3) calls (fresh (payment ∷ [])))
    × Extends (fresh (payment ∷ [])).db.tables (run (pos 3) calls (fresh (payment ∷ []))).db.tables
run-IsHealthy_example =
    run-IsHealthy (pos 3) calls (fresh (payment ∷ [])) (fresh-IsHealthy (pos 3) (payment ∷ []))

run-pays_once_example :
    let s = run (pos 3) calls (fresh (payment ∷ [])) in
    All
      (λ r. (length (live r.refund_id s.journal) ≤ 1) × (r.retry_count ≤ℤ max_retries (pos 3)))
      s.db.tables.refunds
    × OnePerPayment (all_terms s.db.tables.refunds)
run-pays_once_example = run-pays_once (pos 3) (payment ∷ []) calls

abbrev answer : RequestRefundResult
answer = record {
  refund_id = "r1";
  refund_reference = "RMB-1";
  status = RefundStatus.pending;
  refund_amount = pos 2_200;
}

-- the request is made again after the transfer, whose payment was not marked as refunded before
abbrev between : List Call
between =
    record { faults = []; command = process (pos 11) (clients_with PayoutItemStatus.sent) 20 }
    ∷ record {
      faults = [];
      command = confirm (pos 12) (clients_with PayoutItemStatus.sent) (pos 7);
    }
    ∷ []

abbrev lost : List Bool
lost = false ∷ false ∷ false ∷ false ∷ true ∷ []

first_answer : (ask first_request (with_faults lost (fresh (payment ∷ []))).db).0 ≡ ok answer
unfolding run request_refund is_valid create_refund_for_payment existing_refund_result parse_dates
    create_refund determine_refund_rule calculate_refund int64 int16 ◌+ℤ◌ ◌-ℤ◌ refund_payment
    update_payment_status allowed_current set_payment_status write_refund_history
    write_payment_history update_refunds process_pending_refunds process_refund mark_failed
    confirm_provider_payout apply_refund_payout_status
first_answer = refl

abbrev answer_later : RequestRefundResult
answer_later = record answer { status = RefundStatus.completed }

second_answer :
    (ask second_request
      (with_faults [] (
        run (pos 3) between (
          execute (pos 3) (request first_request) (with_faults lost (fresh (payment ∷ [])))))).db).0
    ≡ ok answer_later
unfolding run request_refund is_valid create_refund_for_payment existing_refund_result parse_dates
    create_refund determine_refund_rule calculate_refund int64 int16 ◌+ℤ◌ ◌-ℤ◌ refund_payment
    update_payment_status allowed_current set_payment_status write_refund_history
    write_payment_history update_refunds process_pending_refunds process_refund mark_failed
    confirm_provider_payout apply_refund_payout_status
second_answer = refl

ask_again_example :
    (answer_later.refund_id ≡ answer.refund_id)
    × (answer_later.refund_reference ≡ answer.refund_reference)
    × (answer_later.refund_amount ≡ answer.refund_amount)
ask_again_example =
    ask_again (pos 3) (fresh (payment ∷ [])) first_request second_request between lost []
      (fresh-IsHealthy (pos 3) (payment ∷ [])) refl first_answer second_answer

request_refund-Outcome_example :
    RequestOutcome parse config
      (pos 10)
      "r1"
      "RMB-1"
      input
      (fresh (payment ∷ [])).db.tables
      (request_refund parse config (pos 10) "r1" "RMB-1" input (fresh (payment ∷ [])).db)
request_refund-Outcome_example =
    request_refund-Outcome parse config (pos 10) "r1" "RMB-1" input (fresh (payment ∷ [])).db

-- a service with one refund that waits
abbrev waiting : State
waiting = execute (pos 2) (request first_request) (fresh (payment ∷ []))

waiting-IsHealthy : IsHealthy (pos 2) waiting
unfolding run
waiting-IsHealthy =
    (run-IsHealthy (pos 2) (record { faults = []; command = request first_request } ∷ [])
      (fresh (payment ∷ [])) (fresh-IsHealthy (pos 2) (payment ∷ []))).0

abbrev ticks : List Tick
ticks =
    record { now = pos 21; clients = refusing }
    ∷ record { now = pos 22; clients = refusing }
    ∷ record { now = pos 23; clients = refusing }
    ∷ []

settled :
    statuses (run (pos 2) (batches 20 ticks) waiting).db.tables.refunds
    ≡ (RefundStatus.failed, pos 2) ∷ []
unfolding run request_refund is_valid create_refund_for_payment existing_refund_result parse_dates
    create_refund determine_refund_rule calculate_refund int64 int16 ◌+ℤ◌ ◌-ℤ◌ refund_payment
    update_payment_status allowed_current set_payment_status write_refund_history
    write_payment_history update_refunds process_pending_refunds process_refund mark_failed
    confirm_provider_payout apply_refund_payout_status
settled = refl

run-settles_example :
    All (λ x. is_due x ≡ false) (run (pos 2) (batches 20 ticks) waiting).db.tables.refunds
unfolding run request_refund is_valid create_refund_for_payment existing_refund_result parse_dates
    create_refund determine_refund_rule calculate_refund int64 int16 ◌+ℤ◌ ◌-ℤ◌ refund_payment
    update_payment_status allowed_current set_payment_status write_refund_history
    write_payment_history update_refunds process_pending_refunds process_refund mark_failed
    confirm_provider_payout apply_refund_payout_status
run-settles_example =
    run-settles (pos 2) 20 ticks waiting waiting-IsHealthy
      ((λ id. refl), ((λ id. refl), ((λ id. refl), tt))) (omega arith) ((λ due. omega arith), tt)
