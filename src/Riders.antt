-- ===== src/Riders.antt =====
-- The rider's handlers of backend/app/api/v1/routes/orders.py: claiming a delivery, picking it up, and
-- stepping off it. Proofs are in the child module.
pub mod Exclusive
use ai_powered_market.Capabilities.{ensure_capability, has_capability, require_roles}
use ai_powered_market.Effects.{record_admin_action}
use ai_powered_market.Examples.Data.{rider}
use ai_powered_market.Model.Db.{Db}
use ai_powered_market.Model.Keys.{delivery_key, order_key, user_key}
use ai_powered_market.Model.Market.{User}
use ai_powered_market.Model.Orders.{Delivery, Order}
use ai_powered_market.Model.Status.{
  Capability, DeliveryStatus, UserRole, admin, assigned, delivery_status_eq, order_status_eq,
  out_for_delivery, picked_up, ready, rider_operations, role_eq, unassigned,
}
use ai_powered_market.Orders.{notify_customer}
use ai_powered_market.Prelude.{
  Bool, Option, [], arith, contains, false, find_by, get, if◌then◌else◌, is_some, nat_eq, none, not,
  option_eq, some, true, ℕ, ◌!=◌, ◌&&◌, ◌==◌, ◌||◌, ◌∷◌, ◌≡◌, ◌⊎◌,
}
use ai_powered_market.Session.{
  Action, gets, http, ok, or_raise, pure, raise_if, value_error, when, ◌>>=◌, ◌>>◌,
}
use ai_powered_market.Transitions.{
  can_transition_delivery, can_transition_order, payment_allows_fulfillment, transition_delivery,
  transition_order,
}

-- The rider's other active delivery, if any.
abbrev pub active_elsewhere : ℕ → ℕ → Delivery → Bool
active_elsewhere rider_id delivery_id d =
    d.delivery_partner_id == some rider_id
    && ((d.status == assigned || d.status == picked_up) && (d.id != delivery_id))

abbrev available : Option Order → Delivery → Bool
available none delivery = false
available (some order) delivery =
    order.status == ready
    && (payment_allows_fulfillment order && can_transition_delivery delivery.status assigned)

abbrev eligible : Option User → Bool
eligible none = false
eligible (some rider) = rider.is_active && rider.is_verified

unfoldable pub claim_delivery : ℕ → ℕ → User → Action Delivery
claim_delivery now delivery_id user = do
  require_roles (UserRole.delivery ∷ []) user
  found ← gets (λ db. get delivery_key delivery_id db.deliveries)
  delivery ← or_raise found (http 404 "Delivery not found")
  ordered ← gets (λ db. get order_key delivery.order_id db.orders)
  raise_if (not (available ordered delivery)) (http 409 "Delivery is not available")
  rider ← gets (λ db. get user_key user.id db.users)
  raise_if (not (eligible rider)) (http 403 "Delivery partner is not eligible")
  active ← gets (λ db. find_by (active_elsewhere user.id delivery.id) db.deliveries)
  raise_if (is_some active) (http 409 "Finish your current delivery before claiming another")
  claimed ←
      transition_delivery
        (record delivery { delivery_partner_id = some user.id; assigned_at = some now }) assigned
  order ← or_raise ordered value_error
  notify_customer order "delivery.assigned"
  pure claimed

-- `_require_assigned_rider`
unfoldable pub require_assigned_rider : Delivery → User → Capability → Action (Unit {0})
require_assigned_rider delivery user admin_capability =
    if user.role == admin
    then ensure_capability user admin_capability
    else raise_if (delivery.delivery_partner_id != some user.id)
        (http 403 "Delivery is not assigned to you")

-- The two branches on `payload.status`, and the delivery with its columns set.
unfoldable pub move_with_order : ℕ → Delivery → Order → DeliveryStatus → Action Delivery
move_with_order now delivery order picked_up db =
    (do
      raise_if (not (payment_allows_fulfillment order))
          (http 409 "Online payment must be confirmed before pickup")
      raise_if (not (can_transition_order order.status out_for_delivery))
          (http 409 "Order cannot be picked up from ")
      collected ← transition_order order out_for_delivery
      notify_customer collected "delivery.picked_up"
      pure (record delivery { picked_up_at = some now }))
      db
move_with_order now delivery order unassigned db =
    (do
      raise_if (order.status != ready)
          (http 409 "A delivery can only be released while the order is still ready for pickup")
      notify_customer order "delivery.reassignment"
      pure (record delivery { delivery_partner_id = none; assigned_at = none }))
      db
move_with_order now delivery order _ db = pure delivery db

-- `DeliveryStatusUpdate.require_controlled_terminal_endpoints`; the framework answers 422.
abbrev is_controlled : DeliveryStatus → Bool
is_controlled target = contains (DeliveryStatus.delivered ∷ DeliveryStatus.failed ∷ []) target

unfoldable pub update_delivery_status : ℕ → ℕ → DeliveryStatus → User → Action Delivery
update_delivery_status now delivery_id target user = do
  require_roles (UserRole.delivery ∷ admin ∷ []) user
  raise_if (is_controlled target)
      (http 422 "Use the controlled delivery completion or failure endpoint")
  found ← gets (λ db. get delivery_key delivery_id db.deliveries)
  delivery ← or_raise found (http 404 "Delivery not found")
  require_assigned_rider delivery user rider_operations
  raise_if (not (can_transition_delivery delivery.status target))
      (http 409 "Invalid delivery transition from ")
  ordered ← gets (λ db. get order_key delivery.order_id db.orders)
  order ← or_raise ordered (http 409 "Delivery order is missing")
  prepared ← move_with_order now delivery order target
  moved ← transition_delivery prepared target
  when (user.role == admin) (
      record_admin_action user "delivery.status_updated" rider_operations delivery.id
        (some "legacy_admin_delivery_operations"))
  pure moved

-- The guard writes nothing, and passes an administrator with the capability or the rider of the delivery.
pub require_assigned_rider_lem :
    (d : Delivery) (user : User) (c : Capability) (db : Db) {u : Unit {0}} {db' : Db}
    → require_assigned_rider d user c db ≡ ok (u, db')
    → (db' ≡ db)
      × (((user.role ≡ admin) × (has_capability user c ≡ true))
          ⊎ (d.delivery_partner_id ≡ some user.id))
unfolding require_assigned_rider ensure_capability
require_assigned_rider_lem d user c db h = ground arith
