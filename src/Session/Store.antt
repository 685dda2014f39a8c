-- ===== src/Session/Store.antt =====
-- Writes of single rows: what the ORM's flush sends, with the audit triggers of
-- backend/alembic/versions/0007_delivery_operations.py on the two status columns.
use ai_powered_market.Model.Db.{Db}
use ai_powered_market.Model.Keys.{delivery_key, order_key}
use ai_powered_market.Model.Orders.{Delivery, Order, delivery_status, order_status}
use ai_powered_market.Model.Status.{DeliveryStatus, delivery_status_eq, order_status_eq}
use ai_powered_market.Prelude.{
  Option, arith, get, get-put_self, if◌then◌else◌, insert, none, put, some, suc, ℕ, ◌!=◌, ◌==◌, ◌≡◌,
}
use ai_powered_market.Session.Monad.{Action, ok}

-- `trg_audit_order_status`
unfoldable pub audit_order : Order → Order → Db → Db
unfolding insert
audit_order old new db =
    if old.status != new.status
    then record db {
      next_id = suc db.next_id;
      transitions =
          insert
            (record {
              id = db.next_id;
              entity_id = new.id;
              order_id = new.id;
              delivery_id = none;
              actor_user_id = none;
              from_status = order_status old.status;
              to_status = order_status new.status;
              reason = none;
            })
            db.transitions;
    }
    else db

-- `trg_audit_delivery_status`
unfoldable pub audit_delivery : Delivery → Delivery → Db → Db
unfolding insert
audit_delivery old new db =
    if old.status != new.status
    then record db {
      next_id = suc db.next_id;
      transitions =
          insert
            (record {
              id = db.next_id;
              entity_id = new.id;
              order_id = new.order_id;
              delivery_id = some new.id;
              actor_user_id = none;
              from_status = delivery_status old.status;
              to_status = delivery_status new.status;
              reason = if new.status == DeliveryStatus.failed then new.failure_reason else none;
            })
            db.transitions;
    }
    else db

-- An UPDATE that meets no row fires no trigger.
abbrev pub audit_stored : {A : Type 0} → (A → A → Db → Db) → Option A → A → Db → Db
audit_stored audit none new db = db
audit_stored audit (some old) new db = audit old new db

unfoldable pub store_order : Order → Db → Db
unfolding audit_order
store_order order db =
    audit_stored audit_order (get order_key order.id db.orders) order
      (record db { orders = put order_key order db.orders })

unfoldable pub store_delivery : Delivery → Db → Db
unfolding audit_delivery
store_delivery delivery db =
    audit_stored audit_delivery (get delivery_key delivery.id db.deliveries) delivery
      (record db { deliveries = put delivery_key delivery db.deliveries })

-- The order after the flush, which is the same row to all that hold it.
unfoldable pub save_order : Order → Action Order
save_order order db = ok (order, store_order order db)

unfoldable pub save_delivery : Delivery → Action Delivery
save_delivery delivery db = ok (delivery, store_delivery delivery db)

-- Two databases that differ in the orders and in the audit trail at most.
pub record SameButOrders (db db' : Db) : Type 0 where
  pub same_deliveries : db'.deliveries ≡ db.deliveries
  pub same_listings : db'.listings ≡ db.listings
  pub same_order_items : db'.order_items ≡ db.order_items
  pub same_stores : db'.stores ≡ db.stores
  pub same_attempts : db'.attempts ≡ db.attempts
  pub same_refunds : db'.refunds ≡ db.refunds
  pub same_settlements : db'.settlements ≡ db.settlements
  pub same_adjustments : db'.adjustments ≡ db.adjustments
  pub same_collections : db'.collections ≡ db.collections

pub store_order-orders :
    (order : Order) (db : Db) → (store_order order db).orders ≡ put order_key order db.orders
unfolding store_order
store_order-orders order db = ground arith

pub store_order_same : (order : Order) (db : Db) → SameButOrders db (store_order order db)
unfolding store_order
store_order_same order db = ground arith

pub store_delivery-deliveries :
    (delivery : Delivery) (db : Db)
    → (store_delivery delivery db).deliveries ≡ put delivery_key delivery db.deliveries
unfolding store_delivery
store_delivery-deliveries delivery db = ground arith

-- Two databases that differ in the deliveries and in the audit trail at most.
pub record SameButDeliveries (db db' : Db) : Type 0 where
  pub same_orders : db'.orders ≡ db.orders
  pub same_proofs : db'.proofs ≡ db.proofs
  pub same_stores : db'.stores ≡ db.stores
  pub same_refunds : db'.refunds ≡ db.refunds
  pub same_settlements : db'.settlements ≡ db.settlements
  pub same_collections : db'.collections ≡ db.collections

pub store_delivery_same :
    (delivery : Delivery) (db : Db) → SameButDeliveries db (store_delivery delivery db)
unfolding store_delivery
store_delivery_same delivery db = ground arith

-- A row is stored under its own key.
pub ordered_again :
    (o : Order) (k : ℕ) (db : Db)
    → o.id ≡ k
    → get order_key k db.orders ≡ some o
    → get order_key o.id db.orders ≡ some o
ordered_again o k db e h = cc

-- A row written under the key of one that is stored is found by it.
pub closed_stored :
    (o : Order) (k : ℕ) (closed : Order) (db db' : Db)
    → o.id ≡ k
    → closed.id ≡ o.id
    → get order_key k db.orders ≡ some o
    → db'.orders ≡ put order_key closed db.orders
    → get order_key closed.id db'.orders ≡ some closed
closed_stored o k closed db db' e c h w = ground (arith, get-put_self order_key closed o db.orders)
