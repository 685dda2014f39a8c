-- ===== src/Transitions.antt =====
-- backend/app/services/order_transitions.py: the state machines of an order and of its delivery.
-- Proofs are in the child module.
pub mod Lifecycle
use ai_powered_market.Model.Orders.{Delivery, Order}
use ai_powered_market.Model.Status.{
  DeliveryStatus, OrderStatus, PaymentStatus, accepted, assigned, cancelled, cod,
  delivery_status_eq, method_eq, order_status_eq, out_for_delivery, payment_status_eq, picked_up,
  placed, preparing, ready, returned, unassigned,
}
use ai_powered_market.Prelude.{Bool, List, [], contains, not, ◌==◌, ◌||◌, ◌∷◌}
use ai_powered_market.Session.{
  Action, raise_if, save_delivery, save_order, value_error, ◌>>=◌, ◌>>◌,
}

-- `ORDER_TRANSITIONS`, the empty set where the mapping has no key.
abbrev pub order_transitions : OrderStatus → List OrderStatus
order_transitions placed = accepted ∷ cancelled ∷ []
order_transitions accepted = preparing ∷ cancelled ∷ []
order_transitions preparing = ready ∷ []
order_transitions ready = out_for_delivery ∷ []
order_transitions out_for_delivery = OrderStatus.delivered ∷ returned ∷ []
order_transitions _ = []

-- `MERCHANT_ASSIGNABLE_STATUSES`
abbrev pub merchant_assignable_statuses : List OrderStatus
merchant_assignable_statuses = accepted ∷ preparing ∷ ready ∷ cancelled ∷ []

-- `DELIVERY_TRANSITIONS`
abbrev pub delivery_transitions : DeliveryStatus → List DeliveryStatus
delivery_transitions unassigned = assigned ∷ []
delivery_transitions assigned = unassigned ∷ picked_up ∷ DeliveryStatus.failed ∷ []
delivery_transitions picked_up = DeliveryStatus.delivered ∷ DeliveryStatus.failed ∷ []
delivery_transitions DeliveryStatus.failed = unassigned ∷ []
delivery_transitions _ = []

unfoldable pub can_transition_order : OrderStatus → OrderStatus → Bool
can_transition_order current target = contains (order_transitions current) target

unfoldable pub can_transition_delivery : DeliveryStatus → DeliveryStatus → Bool
can_transition_delivery current target = contains (delivery_transitions current) target

unfoldable pub payment_allows_fulfillment : Order → Bool
payment_allows_fulfillment order =
    order.payment_method == cod || order.payment_status == PaymentStatus.paid

-- The order as it is after the assignment to `order.status`.
unfoldable pub transition_order : Order → OrderStatus → Action Order
transition_order order target = do
  raise_if (not (can_transition_order order.status target)) value_error
  save_order (record order { status = target })

unfoldable pub transition_delivery : Delivery → DeliveryStatus → Action Delivery
transition_delivery delivery target = do
  raise_if (not (can_transition_delivery delivery.status target)) value_error
  save_delivery (record delivery { status = target })
