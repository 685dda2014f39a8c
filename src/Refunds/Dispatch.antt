-- ===== src/Refunds/Dispatch.antt =====
-- backend/app/services/refunds.py, second half: owed refunds are claimed, sent to the provider, and
-- settled by its answer. The claim and the settling are two transactions, with the call between them.
use ai_powered_market.Model.Db.{Db}
use ai_powered_market.Model.Keys.{refund_key}
use ai_powered_market.Model.Money.{PaymentRefund, RefundKey}
use ai_powered_market.Model.Status.{
  RefundStatus, processing, refund_status_eq, requested, succeeded,
}
use ai_powered_market.Prelude.{
  Bool, List, Option, String, [], get, if◌then◌else◌, leb, ltb, map, nat_eq, none, not, select,
  some, sort_by, suc, take, true, ℕ, ◌&&◌, ◌+◌, ◌==◌, ◌||◌, ◌∷◌,
}
use ai_powered_market.Refunds.{
  RefundPayload, apply_provider_refund_result, mark_failed, save_refund,
}
use ai_powered_market.Session.{Action, err, gets, ok, pure, ◌>>=◌, ◌>>◌}

abbrev pub max_refund_attempts : ℕ
max_refund_attempts = 8

-- `DISPATCHABLE_REFUND_STATUSES`
abbrev pub is_dispatchable : RefundStatus → Bool
is_dispatchable s = s == requested || s == RefundStatus.failed

-- What `create_razorpay_refund` returns or raises; the message is that of either exception.
pub data ProviderReply : Type 0 where
  answered : RefundPayload → ProviderReply
  unreachable : String → ProviderReply

-- The text that `dispatch_refund` returns.
pub data DispatchStatus : Type 0 where
  missing : DispatchStatus
  now_at : RefundStatus → DispatchStatus

-- After the first transaction: done, or a call to make with a payment, an amount and a key.
pub data Claim : Type 0 where
  done : DispatchStatus → Claim
  call : ℕ → ℕ → RefundKey → Claim

abbrev claim_with : Bool → ℕ → PaymentRefund → Option ℕ → Action Claim
claim_with enabled now refund none db =
    (do
      no_payment ←
          mark_failed now refund
            "No captured provider payment id is recorded for this order; manual reconciliation required"
      spent ← save_refund (record no_payment { attempt_count = max_refund_attempts })
      pure (done (now_at spent.status)))
      db
claim_with enabled now refund (some payment) db =
    (if not enabled
        then (do
          unconfigured ← mark_failed now refund "Razorpay credentials are not configured"
          pure (done (now_at unconfigured.status)))
        else (do
          claimed ←
              save_refund
                (record refund { status = processing; attempt_count = refund.attempt_count + 1 })
          pure (call payment claimed.amount claimed.idempotency_key)))
      db

abbrev claim_found : Bool → ℕ → Option PaymentRefund → Action Claim
claim_found enabled now none db = pure (done missing) db
claim_found enabled now (some refund) db =
    (if not (is_dispatchable refund.status)
        then pure (done (now_at refund.status))
        else (if leb max_refund_attempts refund.attempt_count
            then pure (done (now_at refund.status))
            else claim_with enabled now refund refund.provider_payment_id))
      db

unfoldable pub claim_refund : Bool → ℕ → ℕ → Action Claim
claim_refund enabled now refund_id = do
  refund ← gets (λ db. get refund_key refund_id db.refunds)
  claim_found enabled now refund

abbrev pub settle_locked : ℕ → ProviderReply → Option PaymentRefund → Action DispatchStatus
settle_locked now (unreachable message) none db = pure (now_at RefundStatus.failed) db
settle_locked now (unreachable message) (some locked) db =
    (do mark_failed now locked message; pure (now_at RefundStatus.failed)) db
settle_locked now (answered payload) none db = pure missing db
settle_locked now (answered payload) (some locked) db =
    (do folded ← apply_provider_refund_result now locked payload; pure (now_at folded.status)) db

unfoldable pub settle_refund : ℕ → ℕ → ProviderReply → Action DispatchStatus
settle_refund now refund_id reply = do
  locked ← gets (λ db. get refund_key refund_id db.refunds)
  settle_locked now reply locked

-- The provider: its reply to a payment, an amount in paise and an idempotency key.
abbrev pub Provider : Type 0
Provider = ℕ → ℕ → RefundKey → ProviderReply

abbrev pub after_claim : Provider → ℕ → ℕ → Claim → Action DispatchStatus
after_claim provider now refund_id (done s) db = pure s db
after_claim provider now refund_id (call payment amount key) db =
    settle_refund now refund_id (provider payment amount key) db

unfoldable pub dispatch_refund : Bool → Provider → ℕ → ℕ → Action DispatchStatus
dispatch_refund enabled provider now refund_id = do
  claim ← claim_refund enabled now refund_id
  after_claim provider now refund_id claim

pub record DueOutcome : Type 0 where
  pub considered : ℕ
  pub succeeded_count : ℕ
  pub processing_count : ℕ
  pub failed_count : ℕ

abbrev pub no_outcome : DueOutcome
no_outcome = record { considered = 0; succeeded_count = 0; processing_count = 0; failed_count = 0 }

abbrev pub count_outcome : DispatchStatus → DueOutcome → DueOutcome
count_outcome (now_at succeeded) o = record o { succeeded_count = suc o.succeeded_count }
count_outcome (now_at processing) o = record o { processing_count = suc o.processing_count }
count_outcome (now_at RefundStatus.failed) o = record o { failed_count = suc o.failed_count }
count_outcome _ o = o

abbrev of_order : Option ℕ → PaymentRefund → Bool
of_order none r = true
of_order (some order_id) r = r.order_id == order_id

unfoldable pub due_refund_ids : Db → ℕ → Option ℕ → List ℕ
due_refund_ids db limit order_id = map refund_key (
    take limit (
      sort_by (λ (r : PaymentRefund). r.requested_at)
        (select
          (λ (r : PaymentRefund).
            is_dispatchable r.status
            && (ltb r.attempt_count max_refund_attempts && of_order order_id r))
          db.refunds)))

unfoldable pub dispatch_each : Bool → Provider → ℕ → List ℕ → DueOutcome → Action DueOutcome
dispatch_each enabled provider now [] outcome = pure outcome
dispatch_each enabled provider now (refund_id ∷ ids) outcome = do
  s ← dispatch_refund enabled provider now refund_id
  dispatch_each enabled provider now ids
      (count_outcome s (record outcome { considered = suc outcome.considered }))

unfoldable pub dispatch_due_refunds : Bool → Provider → ℕ → ℕ → Option ℕ → Action DueOutcome
unfolding dispatch_each
dispatch_due_refunds enabled provider now limit order_id = do
  ids ← gets (λ db. due_refund_ids db limit order_id)
  dispatch_each enabled provider now ids no_outcome

-- What the dispatch of the first due refund has committed before it calls the provider.
abbrev pub claims_committed : Bool → ℕ → List ℕ → Db → Db
claims_committed enabled now [] db = db
claims_committed enabled now (refund_id ∷ _) db = elim (claim_refund enabled now refund_id db) [
  | ok (c, claimed) ↦ claimed
  | err e ↦ db
]

-- The `try` swallows what the dispatch of one refund raises, and rolls back what it had not committed.
unfoldable pub try_dispatch_order_refund : Bool → Provider → ℕ → ℕ → Action (Unit {0})
try_dispatch_order_refund enabled provider now order_id db =
    elim (dispatch_due_refunds enabled provider now 1 (some order_id) db) [
      | ok (outcome, db') ↦ ok (tt, db')
      | err e ↦ ok (tt, claims_committed enabled now (due_refund_ids db 1 (some order_id)) db)
    ]
