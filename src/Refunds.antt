-- ===== src/Refunds.antt =====
-- backend/app/services/refunds.py, first half: the obligation to pay a customer back, and what a report
-- of the provider does to it. The race that the caught `IntegrityError` handles cannot occur in a
-- request that runs alone. The dispatch to the provider and the proofs are in child modules.
pub mod Dispatch
pub mod Administration
pub mod Retry
pub mod Obligation
pub mod Outcome
pub mod Sending
pub mod Overwriting
use ai_powered_market.Model.Db.{Db}
use ai_powered_market.Model.Keys.{order_key, refund_key}
use ai_powered_market.Model.Money.{
  PaymentAttempt, PaymentRefund, ProviderStatus, RefundKey, order_refund, refund_key_eq,
}
use ai_powered_market.Model.Orders.{Order}
use ai_powered_market.Model.Status.{
  AttemptStatus, PaymentStatus, RefundReason, RefundStatus, attempt_status_eq, method_eq,
  order_refunded, payment_status_eq, processing, refund_pending, refunded, requested, succeeded,
  upi,
}
use ai_powered_market.Prelude.{
  Bool, List, Option, String, [], find_by, get, if◌then◌else◌, insert, is_none, is_some, ltb,
  nat_eq, none, not, put, select, some, suc, ℕ, ◌!=◌, ◌&&◌, ◌==◌, ◌||◌, ◌∷◌,
}
use ai_powered_market.Session.{Action, gets, modify, pure, save_order, ◌>>=◌, ◌>>◌}
use ai_powered_market.Settlements.{void_settlement_for_refund}

-- `refund_idempotency_key`
abbrev pub refund_idempotency_key : ℕ → RefundKey
refund_idempotency_key order_id = order_refund order_id

abbrev pub keyed : RefundKey → PaymentRefund → Bool
keyed key r = r.idempotency_key == key

-- The row of the later `updated_at`; of two alike the first.
abbrev newer : PaymentAttempt → Option PaymentAttempt → PaymentAttempt
newer a none = a
newer a (some b) = if ltb a.updated_at b.updated_at then b else a

unfoldable pub latest : List PaymentAttempt → Option PaymentAttempt
latest [] = none
latest (a ∷ rest) = some (newer a (latest rest))

-- `_latest_captured_attempt`
unfoldable pub latest_captured_attempt : Db → ℕ → Option PaymentAttempt
latest_captured_attempt db order_id = latest (
    select
      (λ (a : PaymentAttempt).
        a.order_id == order_id && (a.status == AttemptStatus.paid && is_some a.provider_payment_id))
      db.attempts)

abbrev attempt_id : Option PaymentAttempt → Option ℕ
attempt_id none = none
attempt_id (some a) = some a.id

abbrev attempt_payment : Option PaymentAttempt → Option ℕ
attempt_payment none = none
attempt_payment (some a) = a.provider_payment_id

-- The new obligation, for the full total of the order. The currency is left out.
unfoldable pub new_refund : ℕ → ℕ → Order → Option PaymentAttempt → RefundReason → PaymentRefund
new_refund id now order attempt why = record {
  id = id;
  order_id = order.id;
  payment_attempt_id = attempt_id attempt;
  provider_payment_id = attempt_payment attempt;
  provider_refund_id = none;
  amount = order.total;
  status = requested;
  reason = why;
  idempotency_key = refund_idempotency_key order.id;
  provider_status = none;
  failure_reason = none;
  attempt_count = 0;
  requested_at = now;
  processed_at = none;
  failed_at = none;
}

record_obligation : ℕ → Order → RefundReason → Action (Option PaymentRefund × Order)
unfolding new_refund
record_obligation now order why = do
  attempt ← gets (λ db. latest_captured_attempt db order.id)
  id ← gets (λ db. db.next_id)
  let refund = new_refund id now order attempt why
  modify (λ db. record db { next_id = suc db.next_id; refunds = insert refund db.refunds })
  if order.payment_status == PaymentStatus.paid
      then (do
        owed ← save_order (record order { payment_status = refund_pending })
        pure (some refund, owed))
      else pure (some refund, order)

-- The obligation, if one is owed, and the order as it is afterwards.
unfoldable pub ensure_refund_request :
    ℕ → Order → RefundReason → Action (Option PaymentRefund × Order)
unfolding record_obligation
ensure_refund_request now order why =
    if order.payment_method != upi
    then pure (none, order)
    else (if not
          (order.payment_status == PaymentStatus.paid || order.payment_status == refund_pending)
        then pure (none, order)
        else (do
          existing ← gets (λ db. find_by (keyed (refund_idempotency_key order.id)) db.refunds)
          if is_some existing then pure (existing, order) else record_obligation now order why))

unfoldable pub save_refund : PaymentRefund → Action PaymentRefund
save_refund refund = do
  modify (λ db. record db { refunds = put refund_key refund db.refunds })
  pure refund

-- `settle_refunded_order`
unfoldable pub settle_refunded_order : ℕ → Order → Action (Unit {0})
settle_refunded_order now order = void_settlement_for_refund now order order_refunded

abbrev pub refund_order : ℕ → Option Order → Action (Unit {0})
refund_order now none db = pure tt db
refund_order now (some order) db =
    (if order.payment_status != refunded
        then (do
          paid_back ← save_order (record order { payment_status = refunded })
          settle_refunded_order now paid_back)
        else pure tt)
      db

-- `_mark_succeeded`
unfoldable pub mark_succeeded : ℕ → PaymentRefund → Option ProviderStatus → Action PaymentRefund
mark_succeeded now refund provider_status = do
  saved ← save_refund (record refund {
    status = succeeded;
    provider_status = provider_status;
    failure_reason = none;
    processed_at = some now;
  })
  order ← gets (λ db. get order_key refund.order_id db.orders)
  refund_order now order
  pure saved

-- `_mark_failed`; the messages are short of the limit of 300 characters.
unfoldable pub mark_failed : ℕ → PaymentRefund → String → Action PaymentRefund
mark_failed now refund message = save_refund (record refund {
  status = RefundStatus.failed;
  failure_reason = some message;
  failed_at = some now;
})

-- A refund object of the provider, as an answer or in a webhook; empty texts are `none`.
pub record RefundPayload : Type 0 where
  pub id : Option ℕ
  pub status : Option ProviderStatus

abbrev pub fold_report : ℕ → Option ProviderStatus → PaymentRefund → Action PaymentRefund
fold_report now (some ProviderStatus.processed) refund db =
    mark_succeeded now refund (some ProviderStatus.processed) db
fold_report now (some ProviderStatus.failed) refund db =
    mark_failed now refund "Razorpay reported the refund as failed" db
fold_report now _ refund db = save_refund (record refund { status = processing }) db

unfoldable pub apply_provider_refund_result :
    ℕ → PaymentRefund → RefundPayload → Action PaymentRefund
apply_provider_refund_result now refund payload = fold_report now payload.status (record refund {
  provider_refund_id =
      if is_some payload.id && is_none refund.provider_refund_id
      then payload.id
      else refund.provider_refund_id;
  provider_status = payload.status;
})
