-- ===== src/Assignment.antt =====
-- backend/app/api/v1/routes/dispatch.py (auto_assign_delivery) and backend/app/services/auto_dispatch.py: a
-- rider is chosen for a ready order. Parameters: the PostGIS query for the nearest eligible rider of a
-- store, and the delivery that the queue's `SKIP LOCKED` query yields beside the ones seen.
pub mod Fleet
use ai_powered_market.Capabilities.{ensure_capability}
use ai_powered_market.Deliveries.{locked_delivery_order}
use ai_powered_market.Effects.{
  annotate_delivery_transition, enqueue_notification, record_admin_action,
}
use ai_powered_market.Examples.Data.{rider}
use ai_powered_market.Model.Db.{Db}
use ai_powered_market.Model.Keys.{order_key, store_key, user_key}
use ai_powered_market.Model.Market.{Store, User}
use ai_powered_market.Model.Orders.{Delivery, Order}
use ai_powered_market.Model.Status.{
  assigned, delivery_status_eq, order_status_eq, picked_up, ready, rider_operations, unassigned,
}
use ai_powered_market.Payments.Webhook.{seen}
use ai_powered_market.Prelude.{
  Bool, List, Option, [], false, find_by, get, is_some, nat_eq, none, not, option_eq, some, suc,
  zero, ℕ, ◌&&◌, ◌==◌, ◌||◌, ◌∷◌,
}
use ai_powered_market.Session.{
  Action, Error, err, gets, http, ok, or_raise, pure, raise_if, value_error, ◌>>=◌, ◌>>◌,
}
use ai_powered_market.Transitions.{payment_allows_fulfillment, transition_delivery}

-- `nearest_eligible_rider`
abbrev pub Nearest : Type 0
Nearest = Db → Store → Option ℕ

abbrev has_location : Option Store → Bool
has_location none = false
has_location (some s) = is_some s.latitude && is_some s.longitude

-- The rider's active delivery, if any.
abbrev pub active_of : ℕ → Delivery → Bool
active_of rider_id d =
    d.delivery_partner_id == some rider_id && (d.status == assigned || d.status == picked_up)

abbrev is_waiting : Delivery → Order → Bool
is_waiting delivery order =
    delivery.status == unassigned && (order.status == ready && payment_allows_fulfillment order)

abbrev gone_error : Error
gone_error = http 409 "Selected delivery partner is no longer available"

-- From the rider on.
unfoldable pub assign_rider : ℕ → User → Delivery → Order → ℕ → Action Delivery
assign_rider now user delivery order rider_id = do
  found ← gets (λ db. get user_key rider_id db.users)
  rider ← or_raise found gone_error
  active ← gets (λ db. find_by (active_of rider.id) db.deliveries)
  raise_if (is_some active) gone_error
  taken ←
      transition_delivery
        (record delivery { delivery_partner_id = some rider.id; assigned_at = some now }) assigned
  enqueue_notification order.user_id "delivery.assigned"
  record_admin_action user "delivery.auto_assigned" rider_operations taken.id
      (some "automatic_dispatch_requested_by_admin")
  enqueue_notification rider.id "delivery.task_assigned"
  pure taken

unfoldable pub auto_assign_delivery : Nearest → ℕ → ℕ → User → Action Delivery
auto_assign_delivery nearest now delivery_id user = do
  ensure_capability user rider_operations
  both ← locked_delivery_order delivery_id
  raise_if (not (is_waiting both.0 both.1))
      (http 409 "Delivery is no longer available for dispatch")
  located ← gets (λ db. get store_key both.1.store_id db.stores)
  raise_if (not (has_location located))
      (http 409 "Store location is required for automatic dispatch")
  store ← or_raise located value_error
  candidate ← gets (λ db. nearest db store)
  rider_id ← or_raise candidate (http 409 "No eligible delivery partner is currently available")
  assign_rider now user both.0 both.1 rider_id

-- One turn of the worker's loop: `none` where the turn is skipped and rolled back, for whatever reason.
abbrev orderable : Option Order → Bool
orderable none = false
orderable (some order) = order.status == ready && payment_allows_fulfillment order

unfoldable pub take_task : ℕ → Delivery → Order → ℕ → Action Delivery
take_task now delivery order rider_id = do
  found ← gets (λ db. get user_key rider_id db.users)
  or_raise found value_error
  active ← gets (λ db. find_by (active_of rider_id) db.deliveries)
  raise_if (is_some active) value_error
  taken ←
      transition_delivery
        (record delivery { delivery_partner_id = some rider_id; assigned_at = some now }) assigned
  annotate_delivery_transition taken none (some "background_auto_dispatch")
  enqueue_notification rider_id "delivery.task_assigned"
  enqueue_notification order.user_id "delivery.assigned"
  pure taken

-- Every reason to skip is an error here: it rolls back and counts as skipped.
unfoldable pub dispatch_one : Nearest → ℕ → Delivery → Action Delivery
dispatch_one nearest now delivery = do
  ordered ← gets (λ db. get order_key delivery.order_id db.orders)
  raise_if (not (orderable ordered)) value_error
  order ← or_raise ordered value_error
  located ← gets (λ db. get store_key order.store_id db.stores)
  raise_if (not (has_location located)) value_error
  store ← or_raise located value_error
  candidate ← gets (λ db. nearest db store)
  rider_id ← or_raise candidate value_error
  take_task now delivery order rider_id

pub record Tally : Type 0 where
  pub assigned_count : ℕ
  pub skipped_count : ℕ

-- The next waiting delivery of the queue, beside the ones seen.
abbrev pub Queue : Type 0
Queue = Db → List ℕ → Option Delivery

-- The loop, over the turns that are left.
unfoldable pub dispatch_turns : Queue → Nearest → ℕ → ℕ → List ℕ → Tally → Db → Tally × Db
dispatch_turns queue nearest now zero seen tally db = (tally, db)
dispatch_turns queue nearest now (suc turns) seen tally db = elim (queue db seen) [
  | none ↦ (tally, db)
  | some delivery ↦ elim (dispatch_one nearest now delivery db) [
    | ok (taken, db') ↦
        dispatch_turns queue nearest now turns (delivery.id ∷ seen)
          (record tally { assigned_count = suc tally.assigned_count }) db'
    | err e ↦
        dispatch_turns queue nearest now turns (delivery.id ∷ seen)
          (record tally { skipped_count = suc tally.skipped_count }) db
  ]
]

unfoldable pub dispatch_ready_deliveries : Queue → Nearest → ℕ → ℕ → Db → Tally × Db
unfolding dispatch_turns
dispatch_ready_deliveries queue nearest now limit db =
    dispatch_turns queue nearest now limit [] (record { assigned_count = 0; skipped_count = 0 }) db
