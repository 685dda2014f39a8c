-- ===== src/Checkout/Receipt.antt =====
-- What `safe_checkout` of backend/app/api/v1/routes/checkout.py leaves in the database.
use ai_powered_market.Checkout.{Circumstances, in_cart, new_order, place_lines, subtotal_of}
use ai_powered_market.Checkout.Placing.{
  Basket, add_delivery, add_order, delivery_row, empty_cart, notify_store_owner, place_order,
}
use ai_powered_market.Checkout.Sale.{place_lines_only}
use ai_powered_market.Effects.{enqueue_notification}
use ai_powered_market.Model.Db.{Db}
use ai_powered_market.Model.Keys.{cart_key, merchant_key}
use ai_powered_market.Model.Market.{Address, User}
use ai_powered_market.Model.Orders.{CartItem, Order}
use ai_powered_market.Model.Status.{PaymentMethod}
use ai_powered_market.Prelude.{
  Option, Option-cases, String, arith, get, inl, inr, insert, none, not, put, select, suc, ℕ, ◌≡◌,
}
use ai_powered_market.Pricing.{resolve_delivery_fee}
use ai_powered_market.Session.{Action, Result-cases, bind_ok, gets, ok, pure, ◌>>=◌, ◌>>◌}

-- The fee that the order is charged.
abbrev pub fee_of : Circumstances → Basket → Db → ℕ
fee_of c basket db = resolve_delivery_fee c.default_fee basket.store db

module _ (c : Circumstances) (number : String) (user : User) (address : Address)
    (key : Option String) (method : PaymentMethod) (basket : Basket) where
  abbrev order_row : Db → Order
  order_row db =
      new_order db.next_id number user basket.store address key method (subtotal_of basket.lines)
        (fee_of c basket db)

  abbrev pub with_order : Db → Db
  with_order db = record db { next_id = suc db.next_id; orders = insert (order_row db) db.orders }

  -- The database between the lines and the commit.
  pub record Placed (db db' : Db) (order : Order) : Type 0 where
    pub is_new : order ≡ order_row db
    pub all_orders : db'.orders ≡ insert order db.orders
    pub lines_db : Db
    pub lines_placed : place_lines order.id basket.lines (with_order db) ≡ ok (tt, lines_db)
    pub last_listings : db'.listings ≡ lines_db.listings
    pub last_items : db'.order_items ≡ lines_db.order_items
    pub delivery_waits :
        db'.deliveries ≡ insert (delivery_row lines_db.next_id order.id) db.deliveries
    pub cart_forgets : db'.carts ≡ put cart_key (record basket.cart { store_id = none }) db.carts
    pub cart_is_empty :
        db'.cart_items ≡ select (λ (i : CartItem). not (in_cart basket.cart.id i)) db.cart_items

  abbrev finish : Db → Action Order
  finish db = do
    add_delivery db.next_id
    empty_cart basket.cart
    enqueue_notification user.id "order.placed"
    merchant_row ← gets (λ now. get merchant_key basket.store.merchant_id now.merchants)
    notify_store_owner merchant_row
    pure (order_row db)

  -- The database after the last statements but the messages.
  abbrev emptied : ℕ → Db → Db
  emptied order_id db = record db {
    next_id = suc db.next_id;
    deliveries = insert (delivery_row db.next_id order_id) db.deliveries;
    cart_items = select (λ (i : CartItem). not (in_cart basket.cart.id i)) db.cart_items;
    carts = put cart_key (record basket.cart { store_id = none }) db.carts;
  }

  finish_lem :
      (db before : Db) {order : Order} {db' : Db}
      → finish before db ≡ ok (order, db')
      → (order ≡ order_row before)
        × (db' ≡ record (emptied before.next_id db) { notifications = db'.notifications })
  unfolding add_delivery empty_cart enqueue_notification
  finish_lem db before {order} {db'} e =
      elim (Option-cases (get merchant_key basket.store.merchant_id db.merchants)) [
        | inl absent ↦ ground arith
        | inr (m, found) ↦ ground arith
      ]

  pub place_order_lem :
      (db : Db) {order : Order} {db' : Db}
      → place_order c number user address key method basket db ≡ ok (order, db')
      → Placed db db' order
  unfolding place_order new_order add_order
  place_order_lem db {order} {db'} e =
      elim (Result-cases (place_lines db.next_id basket.lines (with_order db))) [
        | inr (x, e1) ↦ absurd (ground arith)
        | inl (w, db1, e1) ↦
            let only = place_lines_only db.next_id basket.lines (with_order db) {db' = db1} e1 in
            let rest = finish_lem db1 db (
              bind_ok (place_lines db.next_id basket.lines) (λ _. finish db) (with_order db) e1
                e) in
            record {
              is_new = ground arith;
              all_orders = ground arith;
              lines_db = db1;
              lines_placed = ground arith;
              last_listings = ground arith;
              last_items = ground arith;
              delivery_waits = ground arith;
              cart_forgets = ground arith;
              cart_is_empty = ground arith;
            }
      ]
