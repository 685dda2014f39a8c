-- ===== src/Orders.antt =====
-- backend/app/api/v1/routes/order_mutations.py: a customer cancels, a merchant or an administrator moves
-- an order on. Each handler is the transaction up to its commit, then the dispatch of the refund. The
-- answer is the row read again. The second read of a locked row is not told from the first.
pub mod Cancellation
pub mod Fulfilment
pub mod Undoing
use ai_powered_market.Capabilities.{ensure_capability, require_roles}
use ai_powered_market.Effects.{annotate_order_transition, enqueue_notification, record_admin_action}
use ai_powered_market.Model.Db.{Db}
use ai_powered_market.Model.Keys.{merchant_key, order_key, store_key}
use ai_powered_market.Model.Market.{Merchant, Store, User}
use ai_powered_market.Model.Money.{PaymentRefund}
use ai_powered_market.Model.Orders.{Order}
use ai_powered_market.Model.Status.{
  OrderStatus, UserRole, accepted, admin, approved, cancelled, merchant_status_eq, order_cancelled,
  order_operations, order_status_eq, preparing, ready, refund_write, role_eq,
}
use ai_powered_market.Prelude.{
  Bool, Option, String, [], contains, false, find_by, get, if◌then◌else◌, is_some, nat_eq, none,
  not, some, ℕ, ◌!=◌, ◌&&◌, ◌==◌, ◌∷◌,
}
use ai_powered_market.Refunds.{ensure_refund_request}
use ai_powered_market.Refunds.Dispatch.{Provider, try_dispatch_order_refund}
use ai_powered_market.Session.{Action, gets, http, or_raise, pure, raise_if, when, ◌>>=◌, ◌>>◌}
use ai_powered_market.Stock.{restore_order_stock_once}
use ai_powered_market.Transitions.{
  can_transition_order, merchant_assignable_statuses, payment_allows_fulfillment, transition_order,
}

abbrev pub notify_customer : Order → String → Action (Unit {0})
notify_customer order event_type db = enqueue_notification order.user_id event_type db

abbrev notify_owner : Option Merchant → String → Action (Unit {0})
notify_owner none event_type db = pure tt db
notify_owner (some m) event_type db = enqueue_notification m.owner_user_id event_type db

abbrev merchant_of : Db → Option Store → Option Merchant
merchant_of db none = none
merchant_of db (some s) = get merchant_key s.merchant_id db.merchants

-- `_notify_merchant`: nobody is told where the store or the merchant is missing.
unfoldable pub notify_merchant : Order → String → Action (Unit {0})
notify_merchant order event_type = do
  owner ← gets (λ db. merchant_of db (get store_key order.store_id db.stores))
  notify_owner owner event_type

-- `db.refresh(order)` and `return order`.
abbrev pub read_order : ℕ → Action (Option Order)
read_order order_id = gets (λ db. get order_key order_id db.orders)

-- `cancel_my_order_safely` up to `db.commit()`: the order and its refund, if one is owed.
unfoldable pub cancel_transaction : ℕ → ℕ → User → Action (Option PaymentRefund × Order)
cancel_transaction now order_id user = do
  found ← gets (λ db. get order_key order_id db.orders)
  order ← or_raise found (http 404 "Order not found")
  raise_if (order.user_id != user.id) (http 404 "Order not found")
  raise_if (not (can_transition_order order.status cancelled))
      (http 409 "Only newly placed orders can be cancelled")
  restored ← restore_order_stock_once now order
  closed ← transition_order restored.1 cancelled
  annotate_order_transition closed (some user.id) (some "customer_cancelled")
  refund ← ensure_refund_request now closed order_cancelled
  notify_customer closed "order.cancelled"
  notify_merchant closed "merchant.order_cancelled"
  pure refund

unfoldable pub cancel_my_order_safely : Bool → Provider → ℕ → ℕ → User → Action (Option Order)
cancel_my_order_safely enabled provider now order_id user = do
  refund ← cancel_transaction now order_id user
  when (is_some refund.0) (try_dispatch_order_refund enabled provider now order_id)
  read_order order_id

abbrev owns_store : Option Merchant → Option Store → Bool
owns_store (some m) (some s) = s.merchant_id == m.id
owns_store _ _ = false

abbrev is_approved : Option Merchant → Bool
is_approved none = false
is_approved (some m) = m.status == approved

-- Who may move the order at all.
unfoldable pub authorise_update : Order → User → Action (Unit {0})
authorise_update order user =
    if user.role != admin
    then (do
      owner ← gets (λ db. find_by (λ (m : Merchant). m.owner_user_id == user.id) db.merchants)
      store ← gets (λ db. get store_key order.store_id db.stores)
      raise_if (not (owns_store owner store)) (http 403 "Order does not belong to your store")
      raise_if (not (is_approved owner)) (http 403 "Merchant is not active"))
    else ensure_capability user order_operations

-- What a move brings with it, by its target.
unfoldable pub effects_of_update :
    ℕ → User → Order → OrderStatus → Action (Option PaymentRefund × Order)
effects_of_update now user order cancelled db =
    (do
      when (user.role == admin) (ensure_capability user refund_write)
      restored ← restore_order_stock_once now order
      refund ← ensure_refund_request now restored.1 order_cancelled
      notify_customer refund.1 "order.cancelled"
      pure refund)
      db
effects_of_update now user order accepted db =
    (do notify_customer order "order.accepted"; pure (none, order)) db
effects_of_update now user order preparing db =
    (do notify_customer order "order.preparing"; pure (none, order)) db
effects_of_update now user order ready db =
    (do notify_customer order "order.ready"; pure (none, order)) db
effects_of_update now user order _ db = pure (none, order) db

-- `update_order_status_safely` up to `db.commit()`.
unfoldable pub update_transaction :
    ℕ → ℕ → OrderStatus → User → Action (Option PaymentRefund × Order)
update_transaction now order_id target user = do
  require_roles (UserRole.merchant ∷ admin ∷ []) user
  found ← gets (λ db. get order_key order_id db.orders)
  order ← or_raise found (http 404 "Order not found")
  authorise_update order user
  raise_if (not (contains merchant_assignable_statuses target))
      (http 403 " is not a merchant-assignable order status")
  raise_if (not (can_transition_order order.status target)) (http 409 "Invalid transition from ")
  raise_if (target == ready && not (payment_allows_fulfillment order))
      (http 409 "Online payment must be confirmed before an order can be ready for delivery")
  refund ← effects_of_update now user order target
  moved ← transition_order refund.1 target
  annotate_order_transition moved (some user.id) (some "merchant_status_update")
  when (user.role == admin) (
      record_admin_action user "order.status_updated"
        (if target == cancelled then refund_write else order_operations) order_id
        (some
          (if target == cancelled then "admin_order_cancellation" else "admin_order_operations")))
  pure (refund.0, moved)

unfoldable pub update_order_status_safely :
    Bool → Provider → ℕ → ℕ → OrderStatus → User → Action (Option Order)
update_order_status_safely enabled provider now order_id target user = do
  refund ← update_transaction now order_id target user
  when (is_some refund.0) (try_dispatch_order_refund enabled provider now order_id)
  read_order order_id
