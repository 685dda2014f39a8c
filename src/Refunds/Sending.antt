-- ===== src/Refunds/Sending.antt =====
-- What dispatching an owed refund may change, however the provider behaves.
use ai_powered_market.Model.Db.{Db}
use ai_powered_market.Model.Keys.{refund_key}
use ai_powered_market.Model.Money.{PaymentRefund, ProviderStatus, RefundKey}
use ai_powered_market.Model.Status.{processing}
use ai_powered_market.Prelude.{
  Bool, List, Option, Option-cases, [], arith, false, get, get-key, get-put_self, inl, inr, none,
  refl, some, suc, ℕ, ◌+◌, ◌∷◌, ◌≡◌, ◌≢◌, ◌≤◌, ◌⊎◌,
}
use ai_powered_market.Refunds.{
  RefundPayload, apply_provider_refund_result, mark_failed, save_refund,
}
use ai_powered_market.Refunds.Dispatch.{
  Claim, DispatchStatus, DueOutcome, Provider, ProviderReply, after_claim, answered, call,
  claim_refund, claims_committed, count_outcome, dispatch_due_refunds, dispatch_each,
  dispatch_refund, done, due_refund_ids, is_dispatchable, max_refund_attempts, missing, no_outcome,
  now_at, settle_locked, settle_refund, try_dispatch_order_refund, unreachable,
}
use ai_powered_market.Refunds.Outcome.{refund_status_of, unprocessed_report_harmless}
use ai_powered_market.Session.{Result-cases, bind_ok, ok}

-- A refund that is not dispatchable, or has used its attempts, is left alone whatever the provider would
-- answer, and so is one that does not exist: the provider is not called.
pub undue_refund_untouched :
    (enabled : Bool) (provider : Provider) (now refund_id : ℕ) (db : Db)
    → ((r : PaymentRefund)
        → get refund_key refund_id db.refunds ≡ some r
        → (is_dispatchable r.status ≡ false) ⊎ (max_refund_attempts ≤ r.attempt_count))
    → (d : DispatchStatus) × (dispatch_refund enabled provider now refund_id db ≡ ok (d, db))
unfolding dispatch_refund claim_refund
undue_refund_untouched enabled provider now refund_id db h =
    elim (Option-cases (get refund_key refund_id db.refunds)) [
      | inl absent ↦ (missing, ground arith)
      | inr (r, found) ↦ (now_at r.status, ground (arith, h r found))
    ]

abbrev pub CalledFor : PaymentRefund → PaymentRefund → ℕ → ℕ → RefundKey → Type 0
CalledFor r r' payment amount key =
    (r'.status ≡ processing)
    × (r'.attempt_count ≡ r.attempt_count + 1)
    × (r'.attempt_count ≤ max_refund_attempts)
    × (r.provider_payment_id ≡ some payment)
    × (amount ≡ r.amount)
    × (key ≡ r.idempotency_key)

-- A claim that decides on a call writes no order, and stores the refund as `processing` with one more
-- attempt, of eight at most; the call is for the refund's own payment, amount and key.
pub claim_refund-call :
    (enabled : Bool) (now refund_id payment amount : ℕ) (key : RefundKey) (r : PaymentRefund)
    (db : Db) {db' : Db}
    → get refund_key refund_id db.refunds ≡ some r
    → claim_refund enabled now refund_id db ≡ ok (call payment amount key, db')
    → (r' : PaymentRefund) × (get refund_key refund_id db'.refunds ≡ some r')
      × (db'.orders ≡ db.orders)
      × CalledFor r r' payment amount key
unfolding claim_refund save_refund mark_failed
claim_refund-call enabled now refund_id payment amount key r db found e =
    let r' = record r { status = processing; attempt_count = r.attempt_count + 1 } in
    (
      r',
      ground (
        arith,
        get-key refund_key refund_id db.refunds r found,
        get-put_self refund_key r' r db.refunds,
      ),
      ground arith,
      ground arith,
    )

-- Where the process stops between the claim and the settling, no later dispatch of that refund, whoever
-- asks for it, does anything: it stays `processing`.
pub claimed_refund_stuck :
    (enabled enabled' : Bool) (provider : Provider) (now later refund_id payment amount : ℕ)
    (key : RefundKey) (r : PaymentRefund) (db : Db) {db' : Db}
    → get refund_key refund_id db.refunds ≡ some r
    → claim_refund enabled now refund_id db ≡ ok (call payment amount key, db')
    → (d : DispatchStatus) × (dispatch_refund enabled' provider later refund_id db' ≡ ok (d, db'))
      × (refund_status_of (get refund_key refund_id db'.refunds) ≡ some processing)
claimed_refund_stuck enabled enabled' provider now later refund_id payment amount key r db {db'}
      found e =
    let (r', found', same, called) =
      claim_refund-call enabled now refund_id payment amount key r db found e in
    let (d, idle) =
      undue_refund_untouched enabled' provider later refund_id db' (λ x h. ground arith) in
    (d, idle, ground arith)

-- The two tables that the customer's and the merchant's money is read from.
abbrev pub SameBooks : Db → Db → Type 0
SameBooks db db' = (db'.orders ≡ db.orders) × (db'.settlements ≡ db.settlements)

abbrev pub NeverProcessed : Provider → Type 0
NeverProcessed provider =
    (payment amount : ℕ) (key : RefundKey) (payload : RefundPayload)
    → provider payment amount key ≡ answered payload
    → payload.status ≢ some ProviderStatus.processed

claim_refund_same :
    (enabled : Bool) (now refund_id : ℕ) (db : Db) {c : Claim} {db' : Db}
    → claim_refund enabled now refund_id db ≡ ok (c, db')
    → SameBooks db db'
unfolding claim_refund save_refund mark_failed
claim_refund_same enabled now refund_id db e = ground arith

claims_committed_same :
    (enabled : Bool) (now : ℕ) (ids : List ℕ) (db : Db)
    → SameBooks db (claims_committed enabled now ids db)
claims_committed_same enabled now [] db = (refl, refl)
claims_committed_same enabled now (i ∷ ids) db =
    elim (Result-cases (claim_refund enabled now i db)) [
      | inr (x, raised) ↦ ground arith
      | inl (c, db1, claimed) ↦ ground (arith, claim_refund_same enabled now i db claimed)
    ]

settle_locked_same :
    (now : ℕ) (reply : ProviderReply) (row : Option PaymentRefund) (db : Db) {d : DispatchStatus}
    {db' : Db}
    → ((payload : RefundPayload)
        → reply ≡ answered payload
        → payload.status ≢ some ProviderStatus.processed)
    → settle_locked now reply row db ≡ ok (d, db')
    → SameBooks db db'
unfolding save_refund mark_failed
settle_locked_same now (unreachable message) none db h e = ground arith
settle_locked_same now (unreachable message) (some row) db h e = ground arith
settle_locked_same now (answered payload) none db h e = ground arith
settle_locked_same now (answered payload) (some row) db h e =
    elim (Result-cases (apply_provider_refund_result now row payload db)) [
      | inl (r, db1, folded) ↦
          let (orders, settlements, status) =
            unprocessed_report_harmless now row payload db (h payload refl) folded in
          ground arith
      | inr (x, raised) ↦ ground arith
    ]

after_claim_same :
    (provider : Provider) (now refund_id : ℕ) (c : Claim) (db : Db) {d : DispatchStatus} {db' : Db}
    → NeverProcessed provider
    → after_claim provider now refund_id c db ≡ ok (d, db')
    → SameBooks db db'
unfolding settle_refund
after_claim_same provider now refund_id (done s) db h e = ground arith
after_claim_same provider now refund_id (call payment amount key) db h e =
    settle_locked_same now (provider payment amount key) (get refund_key refund_id db.refunds) db
      (h payment amount key) e

-- Without a `processed` answer of the provider, a dispatch leaves every order and every settlement entry
-- as it is.
pub dispatch_refund_same :
    (enabled : Bool) (provider : Provider) (now refund_id : ℕ) (db : Db) {d : DispatchStatus}
    {db' : Db}
    → NeverProcessed provider
    → dispatch_refund enabled provider now refund_id db ≡ ok (d, db')
    → SameBooks db db'
unfolding dispatch_refund
dispatch_refund_same enabled provider now refund_id db {d} {db'} h e =
    elim (Result-cases (claim_refund enabled now refund_id db)) [
      | inl (c, db1, claimed) ↦ ground (
        arith,
        claim_refund_same enabled now refund_id db claimed,
        after_claim_same provider now refund_id c db1 h (
            bind_ok (claim_refund enabled now refund_id) (after_claim provider now refund_id) db
              claimed e),
      )
      | inr (x, raised) ↦ ground arith
    ]

abbrev outcome_after : DueOutcome → DispatchStatus → DueOutcome
outcome_after o d = count_outcome d (record o { considered = suc o.considered })

dispatch_each_same :
    (enabled : Bool) (provider : Provider) (now : ℕ) (ids : List ℕ) (o : DueOutcome) (db : Db)
    {o' : DueOutcome} {db' : Db}
    → NeverProcessed provider
    → dispatch_each enabled provider now ids o db ≡ ok (o', db')
    → SameBooks db db'
unfolding dispatch_each
dispatch_each_same enabled provider now [] o db h e = ground arith
dispatch_each_same enabled provider now (i ∷ ids) o db {o'} {db'} h e =
    elim (Result-cases (dispatch_refund enabled provider now i db)) [
      | inl (d, db1, sent) ↦
          let rest = dispatch_each_same enabled provider now ids (outcome_after o d) db1 h (
            bind_ok (dispatch_refund enabled provider now i)
              (λ d. dispatch_each enabled provider now ids (outcome_after o d)) db sent e) in
          ground (arith, dispatch_refund_same enabled provider now i db h sent, rest)
      | inr (x, raised) ↦ ground arith
    ]

-- The immediate dispatch after a cancellation never raises, and unless the provider confirms a refund it
-- leaves every order and every settlement entry as it is.
pub try_dispatch_same :
    (enabled : Bool) (provider : Provider) (now order_id : ℕ) (db : Db)
    → NeverProcessed provider
    → (db' : Db) × (try_dispatch_order_refund enabled provider now order_id db ≡ ok (tt, db'))
      × SameBooks db db'
unfolding try_dispatch_order_refund dispatch_due_refunds
try_dispatch_same enabled provider now order_id db h =
    elim (Result-cases
      (dispatch_each enabled provider now (due_refund_ids db 1 (some order_id)) no_outcome db)) [
        | inl (o, db', sent) ↦ (
          db',
          ground arith,
          dispatch_each_same enabled provider now (due_refund_ids db 1 (some order_id)) no_outcome
              db h sent,
        )
        | inr (x, raised) ↦ (
          claims_committed enabled now (due_refund_ids db 1 (some order_id)) db,
          ground arith,
          claims_committed_same enabled now (due_refund_ids db 1 (some order_id)) db,
        )
      ]
