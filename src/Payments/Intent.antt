-- ===== src/Payments/Intent.antt =====
-- `create_payment_intent` of backend/app/api/v1/routes/payments.py. Amounts are in paise, which is what
-- `amount_to_subunits` makes of a `Numeric(10, 2)`.
use ai_powered_market.Model.Db.{Db}
use ai_powered_market.Model.Keys.{order_key}
use ai_powered_market.Model.Market.{User}
use ai_powered_market.Model.Money.{PaymentAttempt}
use ai_powered_market.Model.Orders.{Order}
use ai_powered_market.Model.Status.{
  PaymentStatus, attempt_status_eq, attempted, cancelled, created, method_eq, order_status_eq,
  payment_status_eq, upi,
}
use ai_powered_market.Payments.{save_attempt}
use ai_powered_market.Prelude.{
  Bool, List, Option, String, [], get, if◌then◌else◌, insert, is_some, ltb, nat_eq, none, not,
  select, some, suc, ℕ, ◌!=◌, ◌&&◌, ◌==◌, ◌||◌, ◌∷◌,
}
use ai_powered_market.Session.{
  Action, gets, http, modify, or_raise, pure, raise, raise_if, ◌>>=◌, ◌>>◌,
}

abbrev is_open : ℕ → PaymentAttempt → Bool
is_open order_id a =
    a.order_id == order_id
    && ((a.status == created || a.status == attempted) && is_some a.provider_order_id)

abbrev last_created : PaymentAttempt → Option PaymentAttempt → PaymentAttempt
last_created a none = a
last_created a (some b) = if ltb a.created_at b.created_at then b else a

-- `ORDER BY created_at DESC`, the first row.
unfoldable pub newest_attempt : List PaymentAttempt → Option PaymentAttempt
newest_attempt [] = none
newest_attempt (a ∷ rest) = some (last_created a (newest_attempt rest))

unfoldable pub open_attempt : Db → ℕ → Option PaymentAttempt
open_attempt db order_id = newest_attempt (select (is_open order_id) db.attempts)

-- What `create_razorpay_order` returns or raises.
pub data OpenReply : Type 0 where
  opened : ℕ → OpenReply
  refused : String → OpenReply
  unconfigured : OpenReply

abbrev opened_or_raise : OpenReply → Action ℕ
opened_or_raise (opened id) db = pure id db
opened_or_raise (refused message) db = raise (http 502 message) db
opened_or_raise unconfigured db = raise (http 503 "Razorpay credentials are not configured") db

abbrev attempt_row : ℕ → ℕ → Order → ℕ → PaymentAttempt
attempt_row id now order provider_order = record {
  id = id;
  order_id = order.id;
  provider_order_id = some provider_order;
  provider_payment_id = none;
  status = attempted;
  amount = order.total;
  created_at = now;
  updated_at = now;
}

-- The provider is asked only where no attempt is open.
abbrev open_or_reuse :
    Bool → (ℕ → OpenReply) → ℕ → Order → Option PaymentAttempt → Action PaymentAttempt
open_or_reuse key_set provider now order (some existing) db =
    (do
      raise_if (not key_set) (http 503 "Payment provider is not configured")
      save_attempt now (record existing { status = attempted }))
      db
open_or_reuse key_set provider now order none db =
    (do
      provider_order ← opened_or_raise (provider order.total)
      id ← gets (λ db. db.next_id)
      let attempt = attempt_row id now order provider_order
      modify (λ db. record db { next_id = suc db.next_id; attempts = insert attempt db.attempts })
      pure attempt)
      db

abbrev owned_by : User → Option Order → Option Order
owned_by user none = none
owned_by user (some order) = if order.user_id == user.id then some order else none

unfoldable pub create_payment_intent : Bool → (ℕ → OpenReply) → ℕ → ℕ → User → Action PaymentAttempt
create_payment_intent key_set provider now order_id user = do
  found ← gets (λ db. owned_by user (get order_key order_id db.orders))
  order ← or_raise found (http 404 "Order not found")
  raise_if (order.payment_method != upi)
      (http 409 "This order is not configured for online payment")
  raise_if (order.payment_status == PaymentStatus.paid) (http 409 "Order is already paid")
  raise_if (order.status == cancelled) (http 409 "Cancelled orders cannot be paid")
  existing ← gets (λ db. open_attempt db order.id)
  open_or_reuse key_set provider now order existing
