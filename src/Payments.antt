-- ===== src/Payments.antt =====
-- backend/app/api/v1/routes/payment_hardening.py and the intent of payments.py: money is captured by the
-- provider, and a signed report of it changes the order. Signatures, the order that the provider
-- opens and the parsed body of a webhook are parameters. The race that the caught
-- `IntegrityError` handles cannot occur in a request that runs alone.
pub mod Intent
pub mod Webhook
pub mod Capture
pub mod Orphans
pub mod Replay
use ai_powered_market.Checkout.Inventory.{taken}
use ai_powered_market.Model.Db.{Db}
use ai_powered_market.Model.Keys.{attempt_key, order_key}
use ai_powered_market.Model.Market.{User}
use ai_powered_market.Model.Money.{PaymentAttempt}
use ai_powered_market.Model.Orders.{Order}
use ai_powered_market.Model.Status.{
  AttemptStatus, PaymentStatus, attempt_status_eq, cancelled, capture_after_cancellation,
  order_status_eq, payment_status_eq, refund_pending, refunded,
}
use ai_powered_market.Prelude.{
  Bool, Option, find_by, get, if◌then◌else◌, is_none, is_some, nat_eq, none, not, option_eq, put,
  some, true, ℕ, ◌!=◌, ◌&&◌, ◌==◌, ◌||◌,
}
use ai_powered_market.Refunds.{ensure_refund_request}
use ai_powered_market.Session.{
  Action, Result, err, gets, http, modify, ok, or_raise, pure, raise, raise_if, save_order, ◌>>=◌,
  ◌>>◌,
}
use ai_powered_market.Settlements.{ensure_settlement_entry}

unfoldable pub save_attempt : ℕ → PaymentAttempt → Action PaymentAttempt
save_attempt now attempt = do
  let row = record attempt { updated_at = now }
  modify (λ db. record db { attempts = put attempt_key row db.attempts })
  pure row

-- The three outcomes of `_lock_payment_context`.
pub data Context : Type 0 where
  no_attempt no_order : Context
  locked : PaymentAttempt → Order → Context

abbrev may_see : Option ℕ → Order → Bool
may_see none order = true
may_see (some user_id) order = order.user_id == user_id

abbrev context_order : Option ℕ → PaymentAttempt → Option Order → Context
context_order user_id attempt none = no_order
context_order user_id attempt (some order) =
    if may_see user_id order then locked attempt order else no_order

abbrev pub context_of : Db → Option ℕ → Option PaymentAttempt → Context
context_of db user_id none = no_attempt
context_of db user_id (some attempt) =
    context_order user_id attempt (get order_key attempt.order_id db.orders)

-- `_lock_payment_context`, of the attempt that its first query finds.
unfoldable pub lock_payment_context : Option ℕ → (Db → Option PaymentAttempt) → Action Context
lock_payment_context user_id identity = gets (λ db. context_of db user_id (identity db))

abbrev used_by_other : PaymentAttempt → ℕ → PaymentAttempt → Bool
used_by_other attempt payment_id a =
    a.provider_payment_id == some payment_id && (a.id != attempt.id)

-- The payment's identifier, which no other attempt may have.
abbrev pub take_payment_id : Option ℕ → PaymentAttempt → Action PaymentAttempt
take_payment_id none attempt db = pure attempt db
take_payment_id (some payment_id) attempt db =
    (do
      duplicate ← gets (λ db. find_by (used_by_other attempt payment_id) db.attempts)
      raise_if (is_some duplicate) (http 409 "Payment ID has already been used")
      pure (record attempt { provider_payment_id = some payment_id }))
      db

-- `order.payment_status in {REFUNDED, REFUND_PENDING}`
abbrev pub is_refunding : Order → Bool
is_refunding order = order.payment_status == refunded || order.payment_status == refund_pending

-- Money for a cancelled order: the debt is recorded.
unfoldable pub late_capture : ℕ → Order → Action Order
late_capture now order = do
  captured ← save_order (record order { payment_status = PaymentStatus.paid })
  refund ← ensure_refund_request now captured capture_after_cancellation
  pure refund.1

-- What a query reads of the attempt before the flush: it filters by the stored row, and returns the session's object.
unfoldable pub show_attempt : PaymentAttempt → PaymentAttempt → Action (Unit {0})
show_attempt attempt taken =
    if attempt.status == AttemptStatus.paid && is_some attempt.provider_payment_id
    then modify (λ db. record db {
      attempts =
          put attempt_key (record attempt { provider_payment_id = taken.provider_payment_id })
            db.attempts;
    })
    else pure tt

-- What a capture does to the order.
unfoldable pub capture_order : ℕ → Order → Action Order
capture_order now order =
    if order.status == cancelled || is_refunding order
    then (if order.status == cancelled && not (is_refunding order)
        then late_capture now order
        else pure order)
    else (do
      paid_for ← save_order (record order { payment_status = PaymentStatus.paid })
      ensure_settlement_entry paid_for
      pure paid_for)

-- `_apply_paid`. The session does not flush on a query, so the attempt's row is written last, as the commit does.
unfoldable pub apply_paid : ℕ → PaymentAttempt → Order → Option ℕ → Action Order
apply_paid now attempt order provider_payment_id = do
  taken ← take_payment_id provider_payment_id attempt
  show_attempt attempt taken
  after ← capture_order now order
  save_attempt now (record taken { status = AttemptStatus.paid })
  pure after

-- `_apply_failed`
unfoldable pub apply_failed : ℕ → PaymentAttempt → Order → Action (Unit {0})
apply_failed now attempt order =
    if order.status == cancelled
      || (order.payment_status == PaymentStatus.paid || is_refunding order)
    then pure tt
    else (do
      save_attempt now (record attempt { status = AttemptStatus.failed })
      save_order (record order { payment_status = PaymentStatus.failed })
      pure tt)

-- `PaymentVerifyRequest`; the signature is told by what the check of it says, `none` where the provider
-- is not configured.
pub record VerifyRequest : Type 0 where
  pub payment_attempt_id : ℕ
  pub razorpay_payment_id : ℕ

-- A bad signature marks the payment failed, commits, and raises after that.
abbrev verify_locked :
    Option Bool → ℕ → VerifyRequest → PaymentAttempt → Order → Action (Result PaymentStatus)
verify_locked valid now payload attempt order db =
    (do
      raise_if (is_none attempt.provider_order_id)
          (http 409 "Payment attempt has no provider order")
      if attempt.status == AttemptStatus.paid
            && attempt.provider_payment_id == some payload.razorpay_payment_id
          then (do
            if order.status == cancelled || is_refunding order
                then pure tt
                else (do ensure_settlement_entry order; pure tt)
            pure (ok order.payment_status))
          else (do
            checked ← or_raise valid (http 503 "Razorpay secret is not configured")
            if checked
                then (do
                  after ← apply_paid now attempt order (some payload.razorpay_payment_id)
                  pure (ok after.payment_status))
                else (do
                  apply_failed now attempt order
                  pure (err (http 400 "Invalid payment signature")))))
      db

abbrev verify_context : Option Bool → ℕ → VerifyRequest → Context → Action (Result PaymentStatus)
verify_context valid now payload no_attempt db = raise (http 404 "Payment attempt not found") db
verify_context valid now payload no_order db = raise (http 404 "Order not found") db
verify_context valid now payload (locked attempt order) db =
    verify_locked valid now payload attempt order db

unfoldable pub hardened_verify_payment :
    Option Bool → ℕ → VerifyRequest → User → Action (Result PaymentStatus)
hardened_verify_payment valid now payload user = do
  context ←
      lock_payment_context (some user.id)
        (λ db. get attempt_key payload.payment_attempt_id db.attempts)
  verify_context valid now payload context
