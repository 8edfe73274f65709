-- ===== src/Payment/Runs/Replay.antt =====
-- Consequences for the callers: a passenger is paid once, and a request that is made again gets the
-- same refund.
use mathlib.Core.Path.{subst}
use text.Mathlib.TextPositions.{eq_refl}
use tissi_mah.Prelude.{
  ℤ, ◌≤ℤ◌, ◌≤◌, ltb_ℤ, String, str_eq, eq_iff, Bool, true, false, ◌||◌, Option, none, some, List,
  [], ◌∷◌, ◌++◌, any, length, ◌≡◌, refl, sym, ap, ◌∙◌, ◌⊎◌, inl, inr, All, All_mono, or_left,
  or_right, Bool-cases, arith, if◌then◌else◌,
}
use tissi_mah.Prelude.Result.{Result, ok, err}
use tissi_mah.Payment.Domain.{Payment, Refund, Terms, terms, Error}
use tissi_mah.Payment.Store.{Tables, Db, find_where}
use tissi_mah.Payment.Store.Statements.{all_terms, find_where-All}
use tissi_mah.Payment.Repository.Refunds.{same_payment, same_refund, same_reference}
use tissi_mah.Payment.Repository.Payments.{latest, payments_of, of_booking}
use tissi_mah.Payment.Refunds.{RequestRefundResult, new_refund, refund_result}
use tissi_mah.Payment.Refunds.Outcome.{
  PaymentKey, payment_key, payment_keys, Repeated, Created, RequestOutcome, request_refund-Outcome,
}
use tissi_mah.Payment.Transfers.Journal.{State, live}
use tissi_mah.Payment.Transfers.Invariant.{IsSound, at_most_one, within_limit}
use tissi_mah.Payment.Transfers.Worker.{max_retries}
use tissi_mah.Payment.Runs.{Call, Request, ask, with_faults, run, execute, request}
use tissi_mah.Payment.Runs.Health.{
  IsHealthy, OnePerPayment, IsOtherPayment, run-IsHealthy, execute-IsHealthy, with_faults-IsHealthy,
}

-- a service that has payments and no refund
abbrev pub fresh : List Payment → State
fresh ps = record {
  db = record {
    tables = record { payments = ps; refunds = []; payment_history = []; refund_history = [] };
    faults = [];
  };
  journal = [];
}

pub fresh-IsHealthy : (configured : ℤ) (ps : List Payment) → IsHealthy configured (fresh ps)
fresh-IsHealthy configured ps = record {
  distinct = tt;
  one_each = tt;
  sound = tt;
  traced = λ id absent. refl;
}

-- In every run from a service without refunds, whichever calls fail and whatever the other services
-- answer: of each refund, at most one transfer that FedaPay accepted to start has not been reported as
-- failed, the count of its retries is at most the limit, and no payment has two refunds.
pub run-pays_once :
    (configured : ℤ) (ps : List Payment) (cs : List Call)
    → let s = run configured cs (fresh ps) in
      All
        (λ r. (length (live r.refund_id s.journal) ≤ 1) × (r.retry_count ≤ℤ max_retries configured))
        s.db.tables.refunds
      × OnePerPayment (all_terms s.db.tables.refunds)
run-pays_once configured ps cs =
    let s = run configured cs (fresh ps) in
    let healthy = (run-IsHealthy configured cs (fresh ps) (fresh-IsHealthy configured ps)).0 in
    (
      All_mono (IsSound (max_retries configured) s.journal)
          (λ r.
            (length (live r.refund_id s.journal) ≤ 1) × (r.retry_count ≤ℤ max_retries configured))
          (λ r h. (
            at_most_one r.status r.payment_provider_reference (live r.refund_id s.journal) h.0,
            within_limit (max_retries configured) r.status r.retry_count h.1,
          ))
          s.db.tables.refunds healthy.sound,
      healthy.one_each,
    )

-- The payment of a booking, by the keys.
abbrev key_option : Option Payment → Option PaymentKey
key_option none = none
key_option (some p) = some (payment_key p)

latest_key : Option PaymentKey → List PaymentKey → Option PaymentKey
latest_key best [] = best
latest_key none (k ∷ ks) = latest_key (some k) ks
latest_key (some b) (k ∷ ks) =
    latest_key (some (if ltb_ℤ b.created_at k.created_at then k else b)) ks

keys_of : String → List PaymentKey → List PaymentKey
keys_of id [] = []
keys_of id (k ∷ ks) = if str_eq k.booking_id id then k ∷ keys_of id ks else keys_of id ks

latest-key :
    (best : Option Payment) (ps : List Payment)
    → key_option (latest best ps) ≡ latest_key (key_option best) (payment_keys ps)
unfolding latest_key
latest-key none [] = refl
latest-key (some q) [] = refl
latest-key none (p ∷ ps) = latest-key (some p) ps
latest-key (some q) (p ∷ ps) =
    latest-key (some (if ltb_ℤ q.created_at p.created_at then p else q)) ps
    ∙ ap (λ k. latest_key (some k) (payment_keys ps)) (key_if (ltb_ℤ q.created_at p.created_at))
  where
    key_if :
        (b : Bool) → payment_key (if b then p else q) ≡ (if b then payment_key p else payment_key q)
    key_if true = refl
    key_if false = refl

payments_of-keys :
    (id : String) (ps : List Payment)
    → payment_keys (payments_of id ps) ≡ keys_of id (payment_keys ps)
unfolding keys_of
payments_of-keys id [] = refl
payments_of-keys id (p ∷ ps) = elim (Bool-cases (of_booking id p)) [
  | inl same ↦ rw same (ap (λ ks. payment_key p ∷ ks) (payments_of-keys id ps))
  | inr other ↦ rw other (payments_of-keys id ps)
]

-- the same keys give the same payment of a booking
same_payer :
    (id : String) (ps ps' : List Payment) (p p' : Payment)
    → payment_keys ps' ≡ payment_keys ps
    → latest none (payments_of id ps) ≡ some p
    → latest none (payments_of id ps') ≡ some p'
    → payment_key p' ≡ payment_key p
same_payer id ps ps' p p' e found found' =
    let keys : (qs : List Payment)
        → key_option (latest none (payments_of id qs))
          ≡ latest_key none (keys_of id (payment_keys qs)) =
      λ qs. latest-key none (payments_of id qs) ∙ ap (latest_key none) (payments_of-keys id qs) in
    let same : some (payment_key p') ≡ some (payment_key p) =
      sym (ap key_option found')
      ∙ keys ps'
      ∙ ap (λ ks. latest_key none (keys_of id ks)) e
      ∙ sym (keys ps)
      ∙ ap key_option found in
    cc

abbrev term_for : String → List Terms → Option Terms
term_for id = find_where (λ (t : Terms). str_eq t.payment_id id)

abbrev terms_option : Option Refund → Option Terms
terms_option none = none
terms_option (some r) = some (terms r)

term_for-refund :
    (id : String) (rows : List Refund)
    → term_for id (all_terms rows) ≡ terms_option (find_where (same_payment id) rows)
term_for-refund id [] = refl
term_for-refund id (r ∷ rows) = elim (Bool-cases (same_payment id r)) [
  | inl same ↦ rw same refl
  | inr other ↦ rw other (term_for-refund id rows)
]

one_payment : (a b c : String) → str_eq a b ≡ false → str_eq a c ≡ true → str_eq b c ≡ false
one_payment a b c apart same = ground (arith, eq_iff a b, eq_iff a c, eq_iff b c)

-- newer refunds are of other payments
term_for-newer :
    (id : String) (newer ts : List Terms) {t : Terms}
    → OnePerPayment (newer ++ ts)
    → term_for id ts ≡ some t
    → term_for id (newer ++ ts) ≡ some t
term_for-newer id [] ts one_each e = e
term_for-newer id (n ∷ newer) ts {t = t} one_each e =
    let there = term_for-newer id newer ts one_each.1 e in
    let found =
      find_where-All (IsOtherPayment n.payment_id) (λ (x : Terms). str_eq x.payment_id id)
        (newer ++ ts) one_each.0 there in
    rw (one_payment t.payment_id n.payment_id id found.0 found.1) there

-- What the answer to a request says of a refund.
abbrev pub Reports : RequestRefundResult → Terms → Type 0
Reports result t =
    (result.refund_id ≡ t.refund_id)
    × (result.refund_reference ≡ t.refund_reference)
    × (result.refund_amount ≡ t.refund_amount)

refund-Reports :
    (r : Refund) {result : RequestRefundResult}
    → result ≡ refund_result r
    → Reports result (terms r)
refund-Reports r e = (
  ap (λ (x : RequestRefundResult). x.refund_id) e,
  ap (λ (x : RequestRefundResult). x.refund_reference) e,
  ap (λ (x : RequestRefundResult). x.refund_amount) e,
)

no_refund_for :
    (id : String) (rows : List Refund)
    → any (same_payment id) rows ≡ false
    → find_where (same_payment id) rows ≡ none
no_refund_for id [] e = refl
no_refund_for id (r ∷ rows) e =
    rw (or_left (same_payment id r) _ e) (no_refund_for id rows (or_right (same_payment id r) _ e))

module _ (q : Request) (t u : Tables) (p : Payment) (result : RequestRefundResult) where
  abbrev Answered : Type 0
  Answered =
      Repeated t p result u
      ⊎ Created q.parse q.cfg q.now q.refund_id q.refund_reference q.input t p result u

  -- an answer reports the refund of the payment
  answer-Reports :
      Answered
      → (x : Terms) × (term_for p.payment_id (all_terms u.refunds) ≡ some x) × Reports result x
  answer-Reports (inl repeated) = (
    terms repeated.refund,
    rw (repeated.kept) (term_for-refund p.payment_id t.refunds ∙ ap terms_option repeated.there),
    refund-Reports repeated.refund repeated.answered,
  )
  answer-Reports (inr created) =
      let r = new_refund q.cfg q.now q.refund_id q.refund_reference p q.input created.dates in
      (
        terms r,
        rw (created.inserted) (rw (eq_refl p.payment_id) refl),
        refund-Reports r created.answered,
      )

  -- and the one that was there before
  answer_again :
      (x : Terms)
      → term_for p.payment_id (all_terms t.refunds) ≡ some x
      → Answered
      → Reports result x
  answer_again x e (inl repeated) =
      let same : some (terms repeated.refund) ≡ some x =
        sym (term_for-refund p.payment_id t.refunds ∙ ap terms_option repeated.there) ∙ e in
      let same_terms : terms repeated.refund ≡ x = cc in
      subst (Reports result) same_terms (refund-Reports repeated.refund repeated.answered)
  answer_again x e (inr created) =
      let r = new_refund q.cfg q.now q.refund_id q.refund_reference p q.input created.dates in
      let absent = no_refund_for p.payment_id t.refunds (
        or_right
          (any (same_refund r.refund_id) t.refunds
            || any (same_reference r.refund_reference) t.refunds)
          _ created.fresh) in
      let f : none ≡ some x =
        sym (term_for-refund p.payment_id t.refunds ∙ ap terms_option absent) ∙ e in
      cc

answered :
    (q : Request) (t : Tables) (reply : Result Error RequestRefundResult × Db)
    {result : RequestRefundResult}
    → RequestOutcome q.parse q.cfg q.now q.refund_id q.refund_reference q.input t reply
    → reply.0 ≡ ok result
    → (p : Payment) × (latest none (payments_of q.input.booking_id t.payments) ≡ some p)
      × Answered q t reply.1.tables p result
answered q t (err e, db) h e' = cc
answered q t (ok result', db) {result = result} h e =
    let same : result' ≡ result = cc in
    subst
      (λ x.
        (p : Payment) × (latest none (payments_of q.input.booking_id t.payments) ≡ some p)
        × Answered q t db.tables p x)
      same h

answer_ask :
    (q : Request) (db : Db) {result : RequestRefundResult}
    → (ask q db).0 ≡ ok result
    → (p : Payment) × (latest none (payments_of q.input.booking_id db.tables.payments) ≡ some p)
      × Answered q db.tables (ask q db).1.tables p result
answer_ask q db =
    answered q db.tables (ask q db)
      (request_refund-Outcome q.parse q.cfg q.now q.refund_id q.refund_reference q.input db)

-- A request that is answered, and a later one for the same booking that is answered, report the same
-- refund, whatever the calls between them do, fail or answer.
pub ask_again :
    (configured : ℤ) (s : State) (q q' : Request) (cs : List Call) (fs fs' : List Bool)
    {result result' : RequestRefundResult}
    → IsHealthy configured s
    → q'.input.booking_id ≡ q.input.booking_id
    → (ask q (with_faults fs s).db).0 ≡ ok result
    → (ask q'
        (with_faults fs'
          (run configured cs (execute configured (request q) (with_faults fs s)))).db).0
      ≡ ok result'
    → (result'.refund_id ≡ result.refund_id)
      × (result'.refund_reference ≡ result.refund_reference)
      × (result'.refund_amount ≡ result.refund_amount)
ask_again configured s q q' cs fs fs' {result = result} {result' = result'} h same e e' =
    let before = with_faults fs s in
    let after = execute configured (request q) before in
    let later = with_faults fs' (run configured cs after) in
    let first = answer_ask q before.db e in
    let second = answer_ask q' later.db e' in
    let step =
      execute-IsHealthy configured before (with_faults-IsHealthy configured s fs h) (request q) in
    let rest = run-IsHealthy configured cs after step.0 in
    let found' : latest none (payments_of q.input.booking_id later.db.tables.payments)
        ≡ some second.0 =
      subst (λ id. latest none (payments_of id later.db.tables.payments) ≡ some second.0) same
        second.1 in
    let key =
      same_payer q.input.booking_id before.db.tables.payments later.db.tables.payments first.0
        second.0 (rest.1.payers ∙ step.1.payers) first.1 found' in
    let known = answer-Reports q before.db.tables after.db.tables first.0 result first.2 in
    let one_each = subst OnePerPayment rest.1.older rest.0.one_each in
    let still : term_for first.0.payment_id (all_terms later.db.tables.refunds) ≡ some known.0 =
      ap (term_for first.0.payment_id) rest.1.older
      ∙ term_for-newer first.0.payment_id rest.1.newer (all_terms after.db.tables.refunds) one_each
          known.1 in
    let again =
      answer_again q' later.db.tables (ask q' later.db).1.tables second.0 result' known.0
        (ap (λ (k : PaymentKey). term_for k.payment_id (all_terms later.db.tables.refunds)) key
          ∙ still)
        second.2 in
    (again.0 ∙ sym known.2.0, again.1 ∙ sym known.2.1, again.2 ∙ sym known.2.2)
