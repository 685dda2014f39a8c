-- ===== src/Deliveries/Completion.antt =====
-- `record_cod_collection` of backend/app/api/v1/routes/delivery_operations.py, and
-- backend/app/api/v1/routes/delivery_financials.py, whose `complete` is the one that is served: its
-- router comes before the other's.
use ai_powered_market.Capabilities.{require_roles}
use ai_powered_market.Deliveries.{collected_for, locked_delivery_order}
use ai_powered_market.Deliveries.Proofs.{proves}
use ai_powered_market.Effects.{enqueue_notification, record_admin_action}
use ai_powered_market.Model.Market.{User}
use ai_powered_market.Model.Money.{CodCollection}
use ai_powered_market.Model.Orders.{Delivery, DeliveryProof, Order}
use ai_powered_market.Model.Status.{
  DeliveryStatus, OrderStatus, PaymentStatus, UserRole, admin, cod, delivery_financial_write,
  delivery_status_eq, method_eq, order_status_eq, out_for_delivery, payment_status_eq, picked_up,
  role_eq,
}
use ai_powered_market.Prelude.{
  Bool, Option, [], false, find_by, if◌then◌else◌, insert, is_some, nat_eq, none, not, some, suc, ℕ,
  ◌!=◌, ◌&&◌, ◌==◌, ◌||◌, ◌∷◌,
}
use ai_powered_market.Riders.{require_assigned_rider}
use ai_powered_market.Session.{
  Action, gets, http, modify, or_raise, pure, raise_if, when, ◌>>=◌, ◌>>◌,
}
use ai_powered_market.Settlements.{ensure_settlement_entry}
use ai_powered_market.Transitions.{
  can_transition_delivery, can_transition_order, payment_allows_fulfillment, transition_delivery,
  transition_order,
}

-- The amount in the request is in paise; the unique row of the delivery is found by its key.
abbrev return_collection : Order → CodCollection → Action CodCollection
return_collection order existing db =
    (do
      raise_if (existing.amount != order.total || existing.order_id != order.id)
          (http 409 "A different COD collection is already recorded")
      pure existing)
      db

abbrev collection_row : ℕ → ℕ → User → Delivery → Order → CodCollection
collection_row id now user delivery order = record {
  id = id;
  delivery_id = delivery.id;
  order_id = order.id;
  amount = order.total;
  collected_by_user_id = some user.id;
  collected_at = now;
}

abbrev new_collection : ℕ → User → Delivery → Order → Action CodCollection
new_collection now user delivery order db =
    (do
      id ← gets (λ db. db.next_id)
      let collection = collection_row id now user delivery order
      modify (λ db. record db {
        next_id = suc db.next_id;
        collections = insert collection db.collections;
      })
      when (user.role == admin) (
          record_admin_action user "delivery.cod_collection_recorded" delivery_financial_write
            delivery.id (some "privileged_cod_collection_recording"))
      pure collection)
      db

abbrev collect_once : ℕ → User → Delivery → Order → Option CodCollection → Action CodCollection
collect_once now user delivery order none db = new_collection now user delivery order db
collect_once now user delivery order (some existing) db = return_collection order existing db

unfoldable pub record_cod_collection : ℕ → ℕ → ℕ → User → Action CodCollection
record_cod_collection now delivery_id amount user = do
  require_roles (UserRole.delivery ∷ admin ∷ []) user
  both ← locked_delivery_order delivery_id
  require_assigned_rider both.0 user delivery_financial_write
  raise_if (both.1.payment_method != cod) (http 409 "Cash collection is only valid for COD orders")
  raise_if (both.0.status != picked_up || both.1.status != out_for_delivery)
      (http 409 "COD collection can only be recorded after pickup")
  raise_if (amount != both.1.total) (http 422 "Collected COD amount must match the order total")
  existing ← gets (λ db. find_by (collected_for both.0.id) db.collections)
  collect_once now user both.0 both.1 existing

abbrev pub is_verified_proof : Option DeliveryProof → Bool
is_verified_proof none = false
is_verified_proof (some p) = is_some p.verified_at

abbrev pub matches_order : Order → CodCollection → Bool
matches_order order c = c.order_id == order.id && c.amount == order.total

-- The cash that an order to be paid in cash needs.
unfoldable pub require_cash : Delivery → Order → Action (Unit {0})
require_cash delivery order =
    if order.payment_method == cod
    then (do
      found ← gets (λ db. find_by (collected_for delivery.id) db.collections)
      collection ← or_raise found (http 409 "Recorded COD collection is required before completion")
      raise_if (not (matches_order order collection))
          (http 409 "Recorded COD collection does not match this order"))
    else pure tt

abbrev pub paid_on_delivery : Order → Order
paid_on_delivery order =
    if order.payment_method == cod
    then record order { payment_status = PaymentStatus.paid }
    else order

-- All guards of the completion.
unfoldable pub require_completable : Delivery → Order → User → Action (Unit {0})
require_completable delivery order user = do
  require_assigned_rider delivery user delivery_financial_write
  raise_if (not (can_transition_delivery delivery.status DeliveryStatus.delivered))
      (http 409 "Delivery cannot be completed from ")
  raise_if (not (can_transition_order order.status OrderStatus.delivered))
      (http 409 "Order cannot be delivered from ")
  raise_if (not (payment_allows_fulfillment order))
      (http 409 "Online payment must be confirmed before delivery completion")
  proof ← gets (λ db. find_by (proves delivery.id) db.proofs)
  raise_if (not (is_verified_proof proof)) (http 409 "Verified proof of delivery is required")
  require_cash delivery order

unfoldable pub settle_if_paid : Order → Action (Unit {0})
settle_if_paid order =
    if order.payment_status == PaymentStatus.paid
    then (do ensure_settlement_entry order; pure tt)
    else pure tt

unfoldable pub complete_delivery_with_financials : ℕ → ℕ → User → Action Delivery
complete_delivery_with_financials now delivery_id user = do
  require_roles (UserRole.delivery ∷ admin ∷ []) user
  both ← locked_delivery_order delivery_id
  require_completable both.0 both.1 user
  handed ← transition_delivery (record both.0 { delivered_at = some now }) DeliveryStatus.delivered
  over ← transition_order (paid_on_delivery both.1) OrderStatus.delivered
  settle_if_paid over
  enqueue_notification over.user_id "order.delivered"
  when (user.role == admin) (
      record_admin_action user "delivery.completed" delivery_financial_write delivery_id
        (some "privileged_delivery_completion"))
  pure handed
