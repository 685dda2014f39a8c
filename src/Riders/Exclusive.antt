-- ===== src/Riders/Exclusive.antt =====
-- Who carries what: a rider has one active delivery, and an order moves with its delivery.
use ai_powered_market.Capabilities.{ensure_capability, require_roles}
use ai_powered_market.Checkout.Inventory.{taken}
use ai_powered_market.Effects.{enqueue_notification, record_admin_action}
use ai_powered_market.Model.Db.{Db}
use ai_powered_market.Model.Keys.{delivery_key, order_key}
use ai_powered_market.Model.Market.{User}
use ai_powered_market.Model.Orders.{Delivery, Order}
use ai_powered_market.Model.Status.{
  DeliveryStatus, OrderStatus, admin, assigned, out_for_delivery, picked_up, ready, unassigned,
}
use ai_powered_market.Prelude.{
  List, Option, Option-cases, arith, find_by, find_by-get-none, get, get-key, get-put_ne,
  get-put_self, inl, inr, none, put, some, true, ℕ, ◌≡◌, ◌≢◌, ◌⊎◌,
}
use ai_powered_market.Riders.{
  active_elsewhere, claim_delivery, move_with_order, require_assigned_rider, update_delivery_status,
}
use ai_powered_market.Session.{
  Result-cases, ok, ordered_again, save_delivery, save_order, store_delivery-deliveries,
  store_delivery_same, store_order-orders, store_order_same,
}
use ai_powered_market.Transitions.{
  can_transition_delivery, can_transition_order, payment_allows_fulfillment, transition_delivery,
  transition_order,
}

-- The delivery is on its way in the hands of this rider.
abbrev pub Carries : ℕ → Delivery → Type 0
Carries rider d =
    (d.delivery_partner_id ≡ some rider) × ((d.status ≡ assigned) ⊎ (d.status ≡ picked_up))

-- No rider carries two deliveries.
abbrev pub IsExclusive : List Delivery → Type 0
IsExclusive ds =
    (rider i j : ℕ) (a b : Delivery)
    → get delivery_key i ds ≡ some a
    → get delivery_key j ds ≡ some b
    → Carries rider a
    → Carries rider b
    → i ≡ j

-- What a claim that succeeds found and wrote.
claim_delivery_lem :
    (now delivery_id : ℕ) (user : User) (db : Db) {d : Delivery} {db' : Db}
    → claim_delivery now delivery_id user db ≡ ok (d, db')
    → (old : Delivery) × (get delivery_key delivery_id db.deliveries ≡ some old)
      × (d.id ≡ old.id)
      × (db'.deliveries ≡ put delivery_key d db.deliveries)
      × (d.delivery_partner_id ≡ some user.id)
      × (find_by (active_elsewhere user.id old.id) db.deliveries ≡ none)
unfolding claim_delivery require_roles transition_delivery save_delivery enqueue_notification
claim_delivery_lem now delivery_id user db {d} h =
    elim (Option-cases (get delivery_key delivery_id db.deliveries)) [
      | inl absent ↦ absurd (ground arith)
      | inr (old, found) ↦ (
        old,
        found,
        ground arith,
        ground (arith, store_delivery-deliveries d db),
        ground arith,
        ground arith,
      )
    ]

-- Where no rider carries two deliveries, none does after a claim.
pub claim_delivery-IsExclusive :
    (now delivery_id : ℕ) (user : User) (db : Db) {d : Delivery} {db' : Db}
    → IsExclusive db.deliveries
    → claim_delivery now delivery_id user db ≡ ok (d, db')
    → IsExclusive db'.deliveries
claim_delivery-IsExclusive now delivery_id user db {d} x h rider i j a b ga gb ca cb =
    let (old, found, same, written, taken, free) = claim_delivery_lem now delivery_id user db h in
    let key = get-key delivery_key delivery_id db.deliveries old found in
    ground (
      arith,
      x rider i j a b,
      get-put_self delivery_key d old db.deliveries,
      get-put_ne delivery_key i d db.deliveries,
      get-put_ne delivery_key j d db.deliveries,
      get-key delivery_key i db.deliveries a,
      get-key delivery_key j db.deliveries b,
      find_by-get-none delivery_key (active_elsewhere user.id old.id) i a db.deliveries,
      find_by-get-none delivery_key (active_elsewhere user.id old.id) j b db.deliveries,
    )

abbrev pub order_status_of : Option Order → Option OrderStatus
order_status_of none = none
order_status_of (some o) = some o.status

move_with_order_lem :
    (now : ℕ) (delivery : Delivery) (order old : Order) (target : DeliveryStatus) (db : Db)
    {d : Delivery} {db' : Db}
    → get order_key order.id db.orders ≡ some old
    → move_with_order now delivery order target db ≡ ok (d, db')
    → (d.status ≡ delivery.status)
      × (d.id ≡ delivery.id)
      × (db'.deliveries ≡ db.deliveries)
      × ((target ≡ picked_up)
          → (can_transition_order order.status out_for_delivery ≡ true)
            × (payment_allows_fulfillment order ≡ true)
            × (order_status_of (get order_key order.id db'.orders) ≡ some out_for_delivery)
            × (d.picked_up_at ≡ some now))
      × ((target ≡ unassigned)
          → (order.status ≡ ready) × (db'.orders ≡ db.orders) × (d.delivery_partner_id ≡ none))
unfolding move_with_order transition_order save_order enqueue_notification
move_with_order_lem now delivery order old target db stored h =
    let out = record order { status = out_for_delivery } in
    ground (
      arith,
      store_order_same out db,
      store_order-orders out db,
      get-put_self order_key out old db.orders,
    )

-- The rider's status screen never completes or fails a delivery. A pickup that succeeds finds a delivery
-- assigned to its caller, unless that is an administrator, and an order that is ready and whose
-- payment allows it, and moves both: the stored order reads out-for-delivery, the stored delivery picked-up, at
-- this moment. A release that succeeds finds a ready order and leaves it, and the delivery has no
-- rider. No other move succeeds but an assignment.
pub update_delivery_status_cases :
    (now delivery_id : ℕ) (target : DeliveryStatus) (user : User) (db : Db) {d : Delivery}
    {db' : Db}
    → update_delivery_status now delivery_id target user db ≡ ok (d, db')
    → (old : Delivery) × (o : Order) × (get delivery_key delivery_id db.deliveries ≡ some old)
      × (get order_key old.order_id db.orders ≡ some o)
      × (can_transition_delivery old.status target ≡ true)
      × ((user.role ≡ admin) ⊎ (old.delivery_partner_id ≡ some user.id))
      × (d.status ≡ target)
      × (get delivery_key delivery_id db'.deliveries ≡ some d)
      × ((target ≡ picked_up)
          → (o.status ≡ ready)
            × (payment_allows_fulfillment o ≡ true)
            × (order_status_of (get order_key old.order_id db'.orders) ≡ some out_for_delivery)
            × (d.picked_up_at ≡ some now))
      × ((target ≡ unassigned)
          → (o.status ≡ ready) × (db'.orders ≡ db.orders) × (d.delivery_partner_id ≡ none))
      × (target ≢ DeliveryStatus.delivered)
      × (target ≢ DeliveryStatus.failed)
unfolding update_delivery_status ensure_capability require_roles require_assigned_rider
    transition_delivery save_delivery can_transition_order record_admin_action
update_delivery_status_cases now delivery_id target user db {d} {db'} h =
    elim (Option-cases (get delivery_key delivery_id db.deliveries)) [
      | inl absent ↦ absurd (ground arith)
      | inr (old, found) ↦ elim (Option-cases (get order_key old.order_id db.orders)) [
        | inl absent ↦ absurd (ground arith)
        | inr (o, ordered) ↦ elim (Result-cases (move_with_order now old o target db)) [
          | inl (p, db1, moved) ↦
              let same_id = get-key order_key old.order_id db.orders o ordered in
              let again = ordered_again o old.order_id db same_id ordered in
              let facts = move_with_order_lem now old o o target db again moved in
              let same = store_delivery_same d db1 in
              (
                old,
                o,
                found,
                ordered,
                ground arith,
                ground arith,
                ground arith,
                ground (
                  arith,
                  facts,
                  get-key delivery_key delivery_id db.deliveries old found,
                  get-put_self delivery_key d old db.deliveries,
                  store_delivery-deliveries d db1,
                ),
                λ t. ground (arith, facts, same, same_id),
                λ t. ground (arith, facts, same),
                ground arith,
                ground arith,
              )
          | inr (x, raised) ↦ absurd (ground arith)
        ]
      ]
    ]
