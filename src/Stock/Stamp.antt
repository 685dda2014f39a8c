-- ===== src/Stock/Stamp.antt =====
-- What giving an order's stock back does to the order itself.
use ai_powered_market.Model.Db.{Db}
use ai_powered_market.Model.Keys.{listing_key, order_key}
use ai_powered_market.Model.Orders.{Order, OrderItem}
use ai_powered_market.Prelude.{
  Bool, List, Option, Option-cases, [], arith, find_by, get, get-put_self, inl, inr, nat_eq, none,
  put, select, some, ℕ, ◌==◌, ◌∷◌, ◌≡◌, ◌≢◌,
}
use ai_powered_market.Session.{Result-cases, ok, save_order, store_order-orders, store_order_same}
use ai_powered_market.Stock.{lists, restock, restore_items, restore_order_stock_once}

restore_items_same :
    (store_id : ℕ) (items : List OrderItem) (db : Db) {u : Unit {0}} {db' : Db}
    → restore_items store_id items db ≡ ok (u, db')
    → (db'.orders ≡ db.orders) × (db'.refunds ≡ db.refunds) × (db'.settlements ≡ db.settlements)
unfolding restore_items
restore_items_same store_id [] db h = ground arith
restore_items_same store_id (item ∷ items) db {u} {db'} h =
    elim (Option-cases (find_by (lists store_id item.product_id) db.listings)) [
      | inl absent ↦ absurd (ground arith)
      | inr (l, found) ↦
          let db1 = record db {
            listings = put listing_key (restock l item.quantity) db.listings;
          } in
          let rest : restore_items store_id items db1 ≡ ok (u, db') = ground arith in
          ground (arith, restore_items_same store_id items db1 rest)
    ]

abbrev pub restored_at : Option Order → Option ℕ
restored_at none = none
restored_at (some o) = o.stock_restored_at

-- The stored order is stamped, and is otherwise as it was; no refund and no entry is written.
pub restore_once_order :
    (now : ℕ) (order : Order) (db : Db) {restored : Bool} {o : Order} {db' : Db}
    → get order_key order.id db.orders ≡ some order
    → restore_order_stock_once now order db ≡ ok ((restored, o), db')
    → (get order_key order.id db'.orders ≡ some o)
      × (o ≡ record order { stock_restored_at = o.stock_restored_at })
      × (o.stock_restored_at ≢ none)
      × (db'.refunds ≡ db.refunds)
      × (db'.settlements ≡ db.settlements)
unfolding restore_order_stock_once save_order
restore_once_order now order db {restored} {o} {db'} stored h =
    let items = select (λ (i : OrderItem). i.order_id == order.id) db.order_items in
    let row = record order { stock_restored_at = some now } in
    elim (Result-cases (restore_items order.store_id items db)) [
      | inl (u, db1, given) ↦ ground (
        arith,
        restore_items_same order.store_id items db given,
        store_order-orders row db1,
        store_order_same row db1,
        get-put_self order_key row order db1.orders,
      )
      | inr (x, raised) ↦ ground arith
    ]
