-- ===== src/Refunds/Administration.antt =====
-- backend/app/api/v1/routes/refunds.py: a customer reads what is owed, an administrator retries a refund.
use ai_powered_market.Capabilities.{ensure_capability}
use ai_powered_market.Effects.{record_admin_action}
use ai_powered_market.Model.Db.{Db}
use ai_powered_market.Model.Keys.{order_key, refund_key}
use ai_powered_market.Model.Market.{User}
use ai_powered_market.Model.Money.{PaymentRefund}
use ai_powered_market.Model.Status.{
  RefundStatus, admin, refund_read, refund_status_eq, refund_write, role_eq,
}
use ai_powered_market.Prelude.{
  Bool, Option, find_by, get, if◌then◌else◌, ltb, nat_eq, none, some, ℕ, ◌!=◌, ◌&&◌, ◌==◌,
}
use ai_powered_market.Refunds.{keyed, refund_idempotency_key, save_refund}
use ai_powered_market.Refunds.Dispatch.{Provider, dispatch_refund}
use ai_powered_market.Session.{
  Action, Result, err, gets, http, ok, or_raise, raise_if, when, ◌>>=◌, ◌>>◌,
}

-- `get_refund_for_order`
unfoldable pub get_refund_for_order : Db → ℕ → Option PaymentRefund
get_refund_for_order db order_id = find_by (keyed (refund_idempotency_key order_id)) db.refunds

unfoldable pub my_order_refund : ℕ → User → Action PaymentRefund
my_order_refund order_id user = do
  found ← gets (λ db. get order_key order_id db.orders)
  order ← or_raise found (http 404 "Order not found")
  when (user.role == admin) (ensure_capability user refund_read)
  raise_if (order.user_id != user.id && user.role != admin) (http 403 "You cannot view this refund")
  refund ← gets (λ db. get_refund_for_order db order.id)
  or_raise refund (http 404 "No refund has been requested for this order")

-- A failed refund gets its attempts back.
unfoldable pub retried : PaymentRefund → PaymentRefund
retried r =
    if ltb 0 r.attempt_count && r.status == RefundStatus.failed
    then record r { attempt_count = 0 }
    else r

-- `admin_retry_refund` up to its commit.
unfoldable pub retry_transaction : ℕ → User → Action (Unit {0})
retry_transaction refund_id user = do
  ensure_capability user refund_write
  found ← gets (λ db. get refund_key refund_id db.refunds)
  refund ← or_raise found (http 404 "Refund not found")
  save_refund (retried refund)
  record_admin_action user "refund.retry_requested" refund_write refund.id
      (some "manual_refund_retry")

abbrev read_refund : ℕ → Action (Result PaymentRefund)
read_refund refund_id db = elim (get refund_key refund_id db.refunds) [
  | none ↦ ok (err (http 404 "Refund not found"), db)
  | some r ↦ ok (ok r, db)
]

-- What the dispatch raises comes after the commit of the request.
unfoldable pub admin_retry_refund : Bool → Provider → ℕ → ℕ → User → Action (Result PaymentRefund)
admin_retry_refund enabled provider now refund_id user = do
  retry_transaction refund_id user
  λ db. elim (dispatch_refund enabled provider now refund_id db) [
    | ok (s, sent) ↦ read_refund refund_id sent
    | err e ↦ ok (err e, db)
  ]
