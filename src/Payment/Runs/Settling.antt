-- ===== src/Payment/Runs/Settling.antt =====
-- Refunds that FedaPay, or the services on the way, keep refusing come to an end.
use tissi_mah.Prelude.{
  ℕ, suc, ℤ, pos, +ℤ_parts, ◌≤ℤ◌, ◌≤◌, false, List, [], ◌∷◌, length, ◌≡◌, refl, sym, ap, ◌∙◌, inl,
  inr, All, All_mono, All_both, Bool-cases, arith,
}
use tissi_mah.Payment.Domain.{Payment, Refund, Terms}
use tissi_mah.Payment.Store.Statements.{kept, all_terms}
use tissi_mah.Payment.Repository.Refunds.{is_due}
use tissi_mah.Payment.Transfers.Journal.{Clients, State}
use tissi_mah.Payment.Transfers.Invariant.{IsSound, within_limit}
use tissi_mah.Payment.Transfers.Worker.{max_retries, process_pending_refunds}
use tissi_mah.Payment.Transfers.Worker.Batch.{process_pending_refunds_sound}
use tissi_mah.Payment.Transfers.Worker.Progress.{Acquires}
use tissi_mah.Payment.Transfers.Worker.Liveness.{IsBounded, process_pending_refunds-closer}
use tissi_mah.Payment.Runs.{Call, process, with_faults, run}
use tissi_mah.Payment.Runs.Health.{IsHealthy, with_faults-IsHealthy, execute-IsHealthy}

-- a time, and what the other services answer then
pub record Tick : Type 0 where
  pub now : ℤ
  pub clients : Clients

-- batches of the worker in which no call of the driver fails
abbrev pub batches : ℕ → List Tick → List Call
batches limit [] = []
batches limit (t ∷ ts) =
    record { faults = []; command = process t.now t.clients limit } ∷ batches limit ts

length-all_terms : (rows : List Refund) → length (all_terms rows) ≡ length rows
length-all_terms [] = refl
length-all_terms (r ∷ rows) = ap suc (length-all_terms rows)

same_length :
    (rows rows' : List Refund) → all_terms rows' ≡ all_terms rows → length rows' ≡ length rows
same_length rows rows' e = sym (length-all_terms rows') ∙ ap length e ∙ length-all_terms rows

not_due : (max : ℤ) (x : Refund) → IsBounded max 0 x → x.retry_count ≤ℤ max → is_due x ≡ false
not_due max x bounded within = elim (Bool-cases (is_due x)) [
  | inl due ↦ let b = bounded due in ground (arith, +ℤ_parts x.retry_count (pos 0))
  | inr idle ↦ idle
]

module _ (configured : ℤ) (limit : ℕ) where
  -- Where the batch size covers the refunds, the locks are free and no call of the driver fails, after
  -- more batches than the retries that are left of any refund none waits for a transfer, whatever the
  -- other services answer: each is under way, completed, or failed.
  pub run-settles :
      (ticks : List Tick) (s : State)
      → IsHealthy configured s
      → All (λ (t : Tick). Acquires t.clients.refund_lock) ticks
      → length s.db.tables.refunds ≤ limit
      → All (IsBounded (max_retries configured) (length ticks)) s.db.tables.refunds
      → All (λ x. is_due x ≡ false) (run configured (batches limit ticks) s).db.tables.refunds
  unfolding run
  run-settles [] s h free enough bounded =
      All_mono
        (λ x. IsBounded (max_retries configured) 0 x × IsSound (max_retries configured) s.journal x)
        (λ x. is_due x ≡ false)
        (λ x hx.
          not_due (max_retries configured) x hx.0
            (within_limit (max_retries configured) x.status x.retry_count hx.1.1))
        s.db.tables.refunds
        (All_both (IsBounded (max_retries configured) 0)
          (IsSound (max_retries configured) s.journal) s.db.tables.refunds bounded h.sound)
  run-settles (t ∷ ts) s h free enough bounded =
      let quiet = with_faults [] s in
      let healthy = with_faults-IsHealthy configured s [] h in
      let s' = process_pending_refunds t.now t.clients configured limit quiet in
      let sound =
        process_pending_refunds_sound (kept s.db.tables) configured t.now t.clients limit quiet
          h.distinct ((h.sound, refl), h.traced) in
      let same =
        same_length s.db.tables.refunds s'.db.tables.refunds
          (ap (λ (f : List Terms × List Payment). f.0) sound.0.1) in
      run-settles ts s'
        (execute-IsHealthy configured quiet healthy (process t.now t.clients limit)).0 free.1
        (rw same enough)
        (process_pending_refunds-closer (max_retries configured) configured t.now t.clients free.0
          (length ts) limit quiet refl h.distinct enough bounded)
