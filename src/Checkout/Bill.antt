-- ===== src/Checkout/Bill.antt =====
-- What the orders of backend/app/api/v1/routes/checkout.py cost.
use ai_powered_market.Checkout.{
  Circumstances, Line, existing_idempotent_order, has_order_key, new_order, order_item, place_line,
  place_lines, sold, subtotal_of,
}
use ai_powered_market.Checkout.Outcome.{NewOrder, safe_checkout_lem}
use ai_powered_market.Checkout.Placing.{CheckoutRequest, safe_checkout}
use ai_powered_market.Checkout.Receipt.{fee_of, with_order}
use ai_powered_market.Checkout.Sale.{placed_items}
use ai_powered_market.Model.Db.{Db}
use ai_powered_market.Model.Keys.{listing_key, order_key, product_key}
use ai_powered_market.Model.Market.{Address, Store, User}
use ai_powered_market.Model.Orders.{Order, OrderItem}
use ai_powered_market.Model.Status.{PaymentMethod}
use ai_powered_market.Prelude.{
  List, Option, Option-cases, String, [], arith, find_by-insert-none, find_by-insert-some,
  found_present, get, get-key, has_key, if◌then◌else◌, inl, inr, insert, nat_eq, none, put, refl,
  select, some, subst, suc, sym, ℕ, ◌+◌, ◌==◌, ◌∷◌, ◌≡◌, ◌≢◌, ◌⊎◌,
}
use ai_powered_market.Pricing.{order_total}
use ai_powered_market.Refunds.{latest}
use ai_powered_market.Session.{ok}

-- The amounts that the items of an order come to.
abbrev pub line_totals : List OrderItem → ℕ
line_totals [] = 0
line_totals (i ∷ items) = i.line_total + line_totals items

-- The subtotal is the sum of the items' totals, and the fee comes on top.
abbrev pub Bills : Order → Db → Type 0
Bills o db =
    (o.subtotal ≡ line_totals (placed_items o.id db)) × (o.total ≡ o.subtotal + o.delivery_fee)

abbrev pub AllBilled : Db → Type 0
AllBilled db = (id : ℕ) (o : Order) → get order_key id db.orders ≡ some o → Bills o db

-- The next key is new to the orders and to their items.
abbrev pub IsFresh : Db → Type 0
IsFresh db = (get order_key db.next_id db.orders ≡ none) × (placed_items db.next_id db ≡ [])

line_totals-insert :
    (order_id : ℕ) (i : OrderItem) (items : List OrderItem)
    → line_totals (select (λ (j : OrderItem). j.order_id == order_id) (insert i items))
      ≡ line_totals (select (λ (j : OrderItem). j.order_id == order_id) items)
        + (if i.order_id == order_id then i.line_total else 0)
unfolding insert select
line_totals-insert order_id i [] = ground arith
line_totals-insert order_id i (j ∷ items) = ground (arith, line_totals-insert order_id i items)

-- The lines add their amounts to the items of their order, and nothing to those of another.
place_lines-line_totals :
    (order_id other_id : ℕ) (lines : List Line) (db : Db) {db' : Db}
    → place_lines order_id lines db ≡ ok (tt, db')
    → line_totals (placed_items other_id db')
      ≡ line_totals (placed_items other_id db)
        + (if order_id == other_id then subtotal_of lines else 0)
unfolding place_lines place_line order_item subtotal_of
place_lines-line_totals order_id other_id [] db e = ground arith
place_lines-line_totals order_id other_id (line ∷ lines) db {db'} e =
    elim (Option-cases (get product_key line.listing.product_id db.products)) [
      | inl absent ↦ absurd (ground arith)
      | inr (product, found) ↦
          let item = order_item db.next_id order_id product line in
          let db1 = record db {
            next_id = suc db.next_id;
            order_items = insert item db.order_items;
            listings = put listing_key (sold line.listing line.cart_item.quantity) db.listings;
          } in
          let rest : place_lines order_id lines db1 ≡ ok (tt, db') = ground arith in
          ground (
            arith,
            line_totals-insert other_id item db.order_items,
            place_lines-line_totals order_id other_id lines db1 {db' = db'} rest,
          )
    ]

get-insert :
    (id : ℕ) (row o : Order) (orders : List Order)
    → get order_key id (insert row orders) ≡ some o
    → (get order_key id orders ≡ some o) ⊎ ((row ≡ o) × (row.id ≡ id))
unfolding get
get-insert id row o orders h = elim (Option-cases (get order_key id orders)) [
  | inl absent ↦ inr (ground (arith, find_by-insert-none (has_key order_key id) row orders))
  | inr (x, found) ↦ inl (ground (arith, find_by-insert-some (has_key order_key id) row x orders))
]

pub new_order-amounts :
    (id : ℕ) (number : String) (user : User) (store : Store) (address : Address)
    (key : Option String) (method : PaymentMethod) (subtotal fee : ℕ)
    → let o = new_order id number user store address key method subtotal fee in
      (o.id ≡ id)
      × (o.subtotal ≡ subtotal)
      × (o.total ≡ o.subtotal + o.delivery_fee)
      × (o.delivery_fee ≡ fee)
unfolding new_order order_total
new_order-amounts id number user store address key method subtotal fee = (refl, refl, refl, refl)

-- A checkout keeps every order's bill right, that of the new order included: the subtotal is the sum of the
-- totals of the order's items and the total is the subtotal with the delivery fee, where the next key is new
-- to the orders and their items.
pub safe_checkout-AllBilled :
    (c : Circumstances) (number : String) (payload : CheckoutRequest) (user : User) (db : Db)
    {order : Order} {db' : Db}
    → AllBilled db
    → IsFresh db
    → safe_checkout c number payload user db ≡ ok (order, db')
    → AllBilled db'
safe_checkout-AllBilled c number payload user db {order} {db'} billed fresh e =
    elim (safe_checkout_lem c number payload user db {order = order} {db' = db'} e) [
      | inl again ↦ subst AllBilled (sym again.unchanged) billed
      | inr made ↦ λ id o h.
          let p = made.placed in
          let b = made.basket in
          let amounts =
            new_order-amounts db.next_id number user b.store made.address made.key
              payload.payment_method (subtotal_of b.lines) (fee_of c b db) in
          let db1 = with_order c number user made.address made.key payload.payment_method b db in
          let added =
            place_lines-line_totals order.id o.id b.lines db1 {db' = p.lines_db} p.lines_placed in
          let inserted = subst (λ t. get order_key id t ≡ some o) p.all_orders h in
          elim (get-insert id order o db.orders inserted) [
            | inl old ↦ ground (
              arith,
              p.is_new,
              p.last_items,
              billed id o old,
              get-key order_key id db.orders o old,
            )
            | inr latest ↦ ground (arith, p.is_new, p.last_items)
          ]
    ]

existing_stored :
    (db : Db) (user_id : ℕ) (key : Option String) {order : Order}
    → existing_idempotent_order db user_id key ≡ some order
    → get order_key order.id db.orders ≢ none
unfolding existing_idempotent_order
existing_stored db user_id none {order} e = absurd (ground arith)
existing_stored db user_id (some key) {order} e =
    ground (arith, found_present order_key (has_order_key user_id key) order db.orders)

-- An order under the next key was not there before.
pub is_made :
    (c : Circumstances) (number : String) (payload : CheckoutRequest) (user : User) (db : Db)
    {order : Order} {db' : Db}
    → IsFresh db
    → order.id ≡ db.next_id
    → safe_checkout c number payload user db ≡ ok (order, db')
    → NewOrder c number payload user db order db'
is_made c number payload user db {order} {db'} fresh latest e =
    elim (safe_checkout_lem c number payload user db {order = order} {db' = db'} e) [
      | inr made ↦ made
      | inl again ↦ absurd (ground (arith, existing_stored db user.id again.key again.exists))
    ]

new_order-stamp :
    (id : ℕ) (number : String) (user : User) (store : Store) (address : Address)
    (key : Option String) (method : PaymentMethod) (subtotal fee : ℕ)
    → (new_order id number user store address key method subtotal fee).stock_restored_at ≡ none
unfolding new_order
new_order-stamp id number user store address key method subtotal fee = refl

-- The new order stands in its table, its stock not given back yet.
pub made_stored :
    (c : Circumstances) (number : String) (payload : CheckoutRequest) (user : User) (db : Db)
    {order : Order} {db' : Db}
    → IsFresh db
    → order.id ≡ db.next_id
    → NewOrder c number payload user db order db'
    → (get order_key order.id db'.orders ≡ some order) × (order.stock_restored_at ≡ none)
unfolding get
made_stored c number payload user db {order} {db'} fresh latest made =
    let b = made.basket in
    let stamp =
      new_order-stamp db.next_id number user b.store made.address made.key payload.payment_method
        (subtotal_of b.lines) (fee_of c b db) in
    ground (
      arith,
      made.placed.all_orders,
      made.placed.is_new,
      find_by-insert-none (has_key order_key order.id) order db.orders,
    )
