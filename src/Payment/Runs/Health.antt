-- ===== src/Payment/Runs/Health.antt =====
-- The invariant of the runs: identifiers are distinct, no payment has two refunds, every refund is
-- sound, and only refunds that exist have live transfers.
use mathlib.Core.List.{append_assoc}
use mathlib.Core.Path.{subst}
use tissi_mah.Prelude.{
  ℤ, pos, ◌<ℤ◌, leb_ℤ, eqb_ℤ, int16, String, str_eq, Bool, false, ◌||◌, Option, List, [], ◌∷◌, ◌++◌,
  any, ◌≡◌, refl, sym, ap, ◌∙◌, ◌⊎◌, inl, inr, All, any_none, or_left, or_right, if_rule, if_cases,
  arith,
}
use tissi_mah.Prelude.Result.{Result, ok, err}
use tissi_mah.Payment.Domain.{Payment, Refund, RefundStatus, Terms, terms, Error}
use tissi_mah.Payment.RefundRules.{RefundConfig}
use tissi_mah.Payment.Store.{Tables, Db}
use tissi_mah.Payment.Store.Statements.{kept, all_terms}
use tissi_mah.Payment.Repository.Refunds.{same_refund, same_payment, same_reference, duplicates}
use tissi_mah.Payment.Repository.Selection.{IsOther, Distinct, same_terms-Distinct}
use tissi_mah.Payment.Refunds.{RequestRefundInput, RequestRefundResult, new_refund, initial_status}
use tissi_mah.Payment.Refunds.Outcome.{
  payment_keys, Repeated, Created, RequestOutcome, request_refund-Outcome,
}
use tissi_mah.Payment.Transfers.Journal.{Transfer, State, live}
use tissi_mah.Payment.Transfers.Invariant.{IsSound, IsTraced, LiveFor, Within}
use tissi_mah.Payment.Transfers.Worker.{max_retries}
use tissi_mah.Payment.Transfers.Worker.Batch.{process_pending_refunds_sound}
use tissi_mah.Payment.Transfers.Worker.{process_pending_refunds}
use tissi_mah.Payment.Transfers.Confirmation.{confirm_provider_payout, reconcile_provider_payouts}
use tissi_mah.Payment.Transfers.Confirmation.Traced.{
  confirm_provider_payout-IsTraced, reconcile_provider_payouts-IsTraced,
}
use tissi_mah.Payment.Transfers.Confirmation.Sound.{
  confirm_provider_payout-IsSound, reconcile_provider_payouts-IsSound,
}
use tissi_mah.Payment.Runs.{
  Command, request, ask, process, confirm, reconcile, Call, with_faults, execute, run,
}

abbrev pub IsOtherPayment : String → Terms → Type 0
IsOtherPayment id t = str_eq t.payment_id id ≡ false

abbrev pub OnePerPayment : List Terms → Type 0
OnePerPayment [] = Unit
OnePerPayment (t ∷ ts) = All (IsOtherPayment t.payment_id) ts × OnePerPayment ts

pub record IsHealthy (configured : ℤ) (s : State) : Type 0 where
  pub distinct : Distinct s.db.tables.refunds
  pub one_each : OnePerPayment (all_terms s.db.tables.refunds)
  pub sound : All (IsSound (max_retries configured) s.journal) s.db.tables.refunds
  pub traced : IsTraced (all_terms s.db.tables.refunds) s.journal

-- The refunds of `t` are still there in `u`, with the same terms, after newer ones; the payments are
-- the same.
pub record Extends (t u : Tables) : Type 0 where
  pub newer : List Terms
  pub older : all_terms u.refunds ≡ newer ++ all_terms t.refunds
  pub payers : payment_keys u.payments ≡ payment_keys t.payments

Extends-refl : (t : Tables) → Extends t t
Extends-refl t = record { newer = []; older = refl; payers = refl }

Extends-trans : (t u v : Tables) → Extends t u → Extends u v → Extends t v
Extends-trans t u v h k = record {
  newer = k.newer ++ h.newer;
  older =
      k.older
      ∙ ap (λ (ts : List Terms). k.newer ++ ts) h.older
      ∙ sym (append_assoc k.newer h.newer (all_terms t.refunds));
  payers = k.payers ∙ h.payers;
}

max_pos : (configured : ℤ) → pos 0 <ℤ max_retries configured
max_pos configured =
    if_cases (λ (m : ℤ). pos 0 <ℤ m) (leb_ℤ (int16 configured) (pos 0)) (λ _. omega arith)
      (λ above. ground arith)

module _ (configured : ℤ) (s : State) (h : IsHealthy configured s) where
  same_terms-IsHealthy :
      (s' : State)
      → kept s'.db.tables ≡ kept s.db.tables
      → All (IsSound (max_retries configured) s'.journal) s'.db.tables.refunds
      → IsTraced (all_terms s.db.tables.refunds) s'.journal
      → IsHealthy configured s' × Extends s.db.tables s'.db.tables
  same_terms-IsHealthy s' e sound traced =
      let same : all_terms s'.db.tables.refunds ≡ all_terms s.db.tables.refunds =
        ap (λ (f : List Terms × List Payment). f.0) e in
      (
        record {
          distinct = same_terms-Distinct s.db.tables.refunds s'.db.tables.refunds same h.distinct;
          one_each = subst OnePerPayment (sym same) h.one_each;
          sound = sound;
          traced = subst (λ (ts : List Terms). IsTraced ts s'.journal) (sym same) traced;
        },
        record {
          newer = [];
          older = same;
          payers = ap (λ (f : List Terms × List Payment). payment_keys f.1) e;
        },
      )

  new_refund_sound :
      (status : RefundStatus) (reference : Option ℤ) (id : String)
      → (status ≡ RefundStatus.pending) ⊎ (status ≡ RefundStatus.completed)
      → live id s.journal ≡ []
      → LiveFor status reference (live id s.journal)
        × Within (max_retries configured) status (pos 0)
  new_refund_sound status reference id (inl e) none_live =
      rw e (none_live, let m = max_pos configured in omega arith)
  new_refund_sound status reference id (inr e) none_live =
      rw e (rw none_live (omega arith), let m = max_pos configured in omega arith)

  initial_status-cases :
      (a : ℤ)
      → (initial_status a ≡ RefundStatus.pending) ⊎ (initial_status a ≡ RefundStatus.completed)
  initial_status-cases a =
      if_rule (λ (x : RefundStatus). (x ≡ RefundStatus.pending) ⊎ (x ≡ RefundStatus.completed))
        (eqb_ℤ a (pos 0)) (inr refl) (inl refl)

  others_of_rows :
      (id : String) (rows : List Refund)
      → All (λ r. same_payment id r ≡ false) rows
      → All (IsOtherPayment id) (all_terms rows)
  others_of_rows id [] h = tt
  others_of_rows id (r ∷ rows) h = (h.0, others_of_rows id rows h.1)

  absent_terms :
      (id : String) (rows : List Refund)
      → All (IsOther id) rows
      → All (λ (i : Terms). str_eq i.refund_id id ≡ false) (all_terms rows)
  absent_terms id [] h = tt
  absent_terms id (r ∷ rows) h = (h.0, absent_terms id rows h.1)

  -- a row that CreateRefund accepts
  inserted-IsHealthy :
      (r : Refund) (s' : State)
      → duplicates r s.db.tables.refunds ≡ false
      → (r.status ≡ RefundStatus.pending) ⊎ (r.status ≡ RefundStatus.completed)
      → r.retry_count ≡ pos 0
      → s'.journal ≡ s.journal
      → s'.db.tables.refunds ≡ r ∷ s.db.tables.refunds
      → IsHealthy configured s'
  inserted-IsHealthy r s' fresh status retries journal e =
      let rows = s.db.tables.refunds in
      let ids = any (same_refund r.refund_id) rows in
      let references = any (same_reference r.refund_reference) rows in
      let others =
        any_none (same_refund r.refund_id) rows
          (or_left ids references (or_left (ids || references) _ fresh)) in
      let payers =
        any_none (same_payment r.payment_id) rows (or_right (ids || references) _ fresh) in
      let none_live = h.traced r.refund_id (absent_terms r.refund_id rows others) in
      let first =
        new_refund_sound r.status r.payment_provider_reference r.refund_id status none_live in
      record {
        distinct = rw e (others, h.distinct);
        one_each = rw e (others_of_rows r.payment_id rows payers, h.one_each);
        sound =
            subst
              (λ (j : List Transfer). All (IsSound (max_retries configured) j) s'.db.tables.refunds)
              (sym journal) (rw e (rw retries first, h.sound));
        traced = rw (e, journal) (λ id absent. h.traced id absent.1);
      }

  module _ (parse : String → Option ℤ) (cfg : RefundConfig) (now : ℤ) (id reference : String)
      (input : RequestRefundInput) where
    answered-IsHealthy :
        (p : Payment) (result : RequestRefundResult) (s' : State)
        → s'.journal ≡ s.journal
        → Repeated s.db.tables p result s'.db.tables
          ⊎ Created parse cfg now id reference input s.db.tables p result s'.db.tables
        → IsHealthy configured s' × Extends s.db.tables s'.db.tables
    answered-IsHealthy p result s' journal (inl repeated) = (
      record {
        distinct = rw (repeated.kept) h.distinct;
        one_each = rw (repeated.kept) h.one_each;
        sound =
            subst
              (λ (j : List Transfer). All (IsSound (max_retries configured) j) s'.db.tables.refunds)
              (sym journal) (rw (repeated.kept) h.sound);
        traced = rw (repeated.kept, journal) h.traced;
      },
      record { newer = []; older = ap all_terms repeated.kept; payers = repeated.payers },
    )
    answered-IsHealthy p result s' journal (inr created) =
        let r = new_refund cfg now id reference p input created.dates in
        (
          inserted-IsHealthy r s' created.fresh (initial_status-cases r.amount_to_passenger) refl
              journal created.inserted,
          record {
            newer = terms r ∷ [];
            older = ap all_terms created.inserted;
            payers = created.payers;
          },
        )

    request-IsHealthy :
        (reply : Result Error RequestRefundResult × Db)
        → RequestOutcome parse cfg now id reference input s.db.tables reply
        → IsHealthy configured (record s { db = reply.1 }) × Extends s.db.tables reply.1.tables
    request-IsHealthy (err e, db) same =
        same_terms-IsHealthy (record s { db = db }) (ap kept same)
          (subst (λ (t : Tables). All (IsSound (max_retries configured) s.journal) t.refunds)
            (sym same) h.sound)
          h.traced
    request-IsHealthy (ok result, db) (p, found, outcome) =
        answered-IsHealthy p result (record s { db = db }) refl outcome

  pub execute-IsHealthy :
      (c : Command)
      → IsHealthy configured (execute configured c s)
        × Extends s.db.tables (execute configured c s).db.tables
  execute-IsHealthy (request q) =
      request-IsHealthy q.parse q.cfg q.now q.refund_id q.refund_reference q.input (ask q s.db)
        (request_refund-Outcome q.parse q.cfg q.now q.refund_id q.refund_reference q.input s.db)
  execute-IsHealthy (process now k limit) =
      let a =
        process_pending_refunds_sound (kept s.db.tables) configured now k limit s h.distinct
          ((h.sound, refl), h.traced) in
      same_terms-IsHealthy (process_pending_refunds now k configured limit s) a.0.1 a.0.0 a.1
  execute-IsHealthy (confirm now k p) =
      let a =
        confirm_provider_payout-IsSound (kept s.db.tables) (max_retries configured) now k p s
          h.distinct (h.sound, refl) in
      same_terms-IsHealthy (confirm_provider_payout now k p s).1 a.1 a.0
        (confirm_provider_payout-IsTraced (all_terms s.db.tables.refunds) now k p s h.traced)
  execute-IsHealthy (reconcile now k) =
      let a =
        reconcile_provider_payouts-IsSound (kept s.db.tables) (max_retries configured) now k s
          h.distinct (h.sound, refl) in
      same_terms-IsHealthy (reconcile_provider_payouts now k s) a.1 a.0
        (reconcile_provider_payouts-IsTraced (all_terms s.db.tables.refunds) now k s h.traced)

pub with_faults-IsHealthy :
    (configured : ℤ) (s : State) (fs : List Bool)
    → IsHealthy configured s
    → IsHealthy configured (with_faults fs s)
with_faults-IsHealthy configured s fs h = record {
  distinct = h.distinct;
  one_each = h.one_each;
  sound = h.sound;
  traced = h.traced;
}

-- In every run of requests, batches of the worker, webhooks and reconciliations, whichever calls fail
-- and whatever the other services answer, a healthy service stays healthy, and keeps its refunds.
pub run-IsHealthy :
    (configured : ℤ) (cs : List Call) (s : State)
    → IsHealthy configured s
    → IsHealthy configured (run configured cs s)
      × Extends s.db.tables (run configured cs s).db.tables
unfolding run
run-IsHealthy configured [] s h = (h, Extends-refl s.db.tables)
run-IsHealthy configured (c ∷ cs) s h =
    let s' = with_faults c.faults s in
    let step =
      execute-IsHealthy configured s' (with_faults-IsHealthy configured s c.faults h) c.command in
    let rest = run-IsHealthy configured cs (execute configured c.command s') step.0 in
    (
      rest.0,
      Extends-trans s.db.tables (execute configured c.command s').db.tables
          (run configured (c ∷ cs) s).db.tables step.1 rest.1,
    )
