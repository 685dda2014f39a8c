-- ===== src/Checkout/Conservation.antt =====
-- Units and money through `safe_checkout` of backend/app/api/v1/routes/checkout.py.
use ai_powered_market.Checkout.{Circumstances, in_cart, new_order, subtotal_of, wanted_ids}
use ai_powered_market.Checkout.Filling.{Filled, cart_rows, locked_rows}
use ai_powered_market.Checkout.Inventory.{IsListed, Sells}
use ai_powered_market.Checkout.Outcome.{safe_checkout_lem}
use ai_powered_market.Checkout.Placing.{Basket, CheckoutRequest, by_listing, safe_checkout}
use ai_powered_market.Checkout.Receipt.{fee_of, with_order}
use ai_powered_market.Checkout.Sale.{place_lines-takes, placed_items, validate-Sells}
use ai_powered_market.Model.Db.{Db}
use ai_powered_market.Model.Keys.{listing_key}
use ai_powered_market.Model.Market.{Address, Store, StoreProduct, User}
use ai_powered_market.Model.Orders.{CartItem, Order}
use ai_powered_market.Model.Status.{PaymentMethod}
use ai_powered_market.Prelude.{
  IsKeyed, IsKeyed-sort_by, List, Option, String, arith, contains, get-select, inl, inr, nat_eq,
  refl, select, ℕ, ◌+◌, ◌≡◌,
}
use ai_powered_market.Session.{ok}
use ai_powered_market.Stock.Restoration.{stock_at, units}

-- `uq_cart_product`: a cart holds a listing once.
abbrev pub IsOnce : List CartItem → Type 0
IsOnce items = (cart_id : ℕ) → IsKeyed by_listing (select (in_cart cart_id) items)

pub Filled-Sells :
    (c : Circumstances) (address : Address) (user : User) (db : Db) (basket : Basket)
    → IsKeyed listing_key db.listings
    → IsOnce db.cart_items
    → Filled c address user db basket db
    → Sells basket.store.id db.listings basket.lines
Filled-Sells c address user db basket k once filled =
    let ids = wanted_ids (cart_rows basket.cart db) in
    validate-Sells basket.store.id (locked_rows basket.cart db) db.listings
      (cart_rows basket.cart db)
      (λ id l h.
        get-select listing_key (λ (x : StoreProduct). contains ids x.id) id db.listings l k h)
      (IsKeyed-sort_by by_listing (select (in_cart basket.cart.id) db.cart_items)
        (once basket.cart.id))
      filled.validated

new_order-id :
    (id : ℕ) (number : String) (user : User) (store : Store) (address : Address)
    (key : Option String) (method : PaymentMethod) (subtotal fee : ℕ)
    → ((new_order id number user store address key method subtotal fee).id ≡ id)
      × ((new_order id number user store address key method subtotal fee).store_id ≡ store.id)
unfolding new_order
new_order-id id number user store address key method subtotal fee = (refl, refl)

-- A checkout moves units between the store and the order and makes or loses none: of each product, the store's
-- stock and the units of the order's items have the same sum before and after, when a new order is made and
-- when an old one comes back, in a database that holds a listing once for a store and a product, and once in
-- a cart.
pub safe_checkout_conserves :
    (c : Circumstances) (number : String) (payload : CheckoutRequest) (user : User) (q : ℕ)
    (db : Db) {order : Order} {db' : Db}
    → IsKeyed listing_key db.listings
    → IsListed db.listings
    → IsOnce db.cart_items
    → safe_checkout c number payload user db ≡ ok (order, db')
    → stock_at order.store_id q db + units q (placed_items order.id db)
      ≡ stock_at order.store_id q db' + units q (placed_items order.id db')
safe_checkout_conserves c number payload user q db {order} {db'} k u once e =
    elim (safe_checkout_lem c number payload user db {order = order} {db' = db'} e) [
      | inl again ↦ ground (arith, again.unchanged)
      | inr fresh ↦
          let p = fresh.placed in
          let s = fresh.basket.store.id in
          let sells = Filled-Sells c fresh.address user db fresh.basket k once fresh.filled in
          let db1 =
            with_order c number user fresh.address fresh.key payload.payment_method fresh.basket
              db in
          let took =
            place_lines-takes s q order.id fresh.basket.lines db1 {db' = p.lines_db} k u sells
              p.lines_placed in
          let made =
            new_order-id db.next_id number user fresh.basket.store fresh.address fresh.key
              payload.payment_method (subtotal_of fresh.basket.lines) (fee_of c fresh.basket db) in
          ground (arith, p.is_new, p.last_listings, p.last_items)
    ]
