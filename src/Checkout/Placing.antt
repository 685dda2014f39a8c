-- ===== src/Checkout/Placing.antt =====
-- `safe_checkout` of backend/app/api/v1/routes/checkout.py.
use ai_powered_market.Checkout.{
  Circumstances, Line, cart_of, cart_with_store, existing_idempotent_order, in_cart,
  inventory_error, locked_for, new_order, own_address, place_lines, require_serviceable,
  subtotal_of, trading, validate, wanted_ids,
}
use ai_powered_market.Effects.{enqueue_notification}
use ai_powered_market.Model.Keys.{address_key, cart_key, merchant_key, store_key}
use ai_powered_market.Model.Market.{Address, Merchant, Store, User}
use ai_powered_market.Model.Orders.{Cart, CartItem, Delivery, Order}
use ai_powered_market.Model.Status.{PaymentMethod, unassigned}
use ai_powered_market.Prelude.{
  List, Option, String, [], find_by, get, insert, length, ltb, nat_eq, none, not, put, select, some,
  sort_by, suc, ℕ, ◌!=◌, ◌||◌, ◌∷◌,
}
use ai_powered_market.Prelude.Text.{is_empty, strip, text_length}
use ai_powered_market.Pricing.{resolve_delivery_fee}
use ai_powered_market.Session.{
  Action, gets, http, modify, or_raise, pure, raise, raise_if, ◌>>=◌, ◌>>◌,
}

-- `CheckoutRequest`, with the header `Idempotency-Key`.
pub record CheckoutRequest : Type 0 where
  pub address_id : ℕ
  pub payment_method : PaymentMethod
  pub idempotency_key : Option String

-- The stripped key, which must have 1 to 128 characters.
unfoldable pub checked_key : Option String → Action (Option String)
unfolding strip
checked_key none = pure none
checked_key (some raw) = do
  let key = strip raw
  raise_if (is_empty key || ltb 128 (text_length key))
      (http 400 "Idempotency-Key must contain 1 to 128 characters")
  pure (some key)

-- All that the order is made of.
pub record Basket : Type 0 where
  pub cart : Cart
  pub store : Store
  pub lines : List Line

abbrev pub require_some : List CartItem → Action (Unit {0})
require_some [] db = raise (http 400 "Cart is empty") db
require_some (i ∷ items) db = pure tt db

abbrev pub by_listing : CartItem → ℕ
by_listing i = i.store_product_id

-- From the cart to the validated lines.
unfoldable pub fill_basket : Circumstances → Address → User → Action Basket
fill_basket c address user = do
  found ← gets (λ db. cart_with_store (find_by (cart_of user.id) db.carts))
  pair ← or_raise found (http 400 "Cart is empty")
  items ← gets (λ db. sort_by by_listing (select (in_cart pair.0.id) db.cart_items))
  require_some items
  here ← gets (λ db. trading db (get store_key pair.1 db.stores))
  store ← or_raise here (http 409 "Store is currently unavailable")
  require_serviceable c address store
  locked_listings ← gets (λ db. locked_for (wanted_ids items) db)
  raise_if (length locked_listings != length items) inventory_error
  lines ← or_raise (validate store.id locked_listings items) inventory_error
  pure (record { cart = pair.0; store = store; lines = lines })

abbrev pub delivery_row : ℕ → ℕ → Delivery
delivery_row id order_id = record {
  id = id;
  order_id = order_id;
  delivery_partner_id = none;
  status = unassigned;
  assigned_at = none;
  picked_up_at = none;
  delivered_at = none;
  failed_at = none;
  failure_reason = none;
  failure_notes = none;
  failure_evidence_url = none;
}

-- The order row, with the next number of the table as its key.
unfoldable pub add_order :
    Circumstances → String → User → Address → Option String → PaymentMethod → Basket → Action Order
add_order c number user address key method basket = do
  fee ← gets (λ db. resolve_delivery_fee c.default_fee basket.store db)
  id ← gets (λ db. db.next_id)
  let order =
      new_order id number user basket.store address key method (subtotal_of basket.lines) fee
  modify (λ db. record db { next_id = suc db.next_id; orders = insert order db.orders })
  pure order

unfoldable pub add_delivery : ℕ → Action (Unit {0})
add_delivery order_id = modify λ db. record db {
  next_id = suc db.next_id;
  deliveries = insert (delivery_row db.next_id order_id) db.deliveries;
}

-- The cart is emptied and forgets its store.
unfoldable pub empty_cart : Cart → Action (Unit {0})
empty_cart cart = modify λ db. record db {
  cart_items = select (λ (i : CartItem). not (in_cart cart.id i)) db.cart_items;
  carts = put cart_key (record cart { store_id = none }) db.carts;
}

abbrev pub notify_store_owner : Option Merchant → Action (Unit {0})
notify_store_owner none db = pure tt db
notify_store_owner (some m) db = enqueue_notification m.owner_user_id "merchant.order_received" db

-- From the order row to the commit.
unfoldable pub place_order :
    Circumstances → String → User → Address → Option String → PaymentMethod → Basket → Action Order
place_order c number user address key method basket = do
  order ← add_order c number user address key method basket
  place_lines order.id basket.lines
  add_delivery order.id
  empty_cart basket.cart
  enqueue_notification order.user_id "order.placed"
  merchant_row ← gets (λ db. get merchant_key basket.store.merchant_id db.merchants)
  notify_store_owner merchant_row
  pure order

abbrev pub checkout_cart :
    Circumstances
    → String
    → CheckoutRequest
    → User
    → Address
    → Option String
    → Option Order
    → Action Order
checkout_cart c number payload user address key (some existing) db = pure existing db
checkout_cart c number payload user address key none db =
    (do
      basket ← fill_basket c address user
      place_order c number user address key payload.payment_method basket)
      db

-- The second look for the key is made under the cart's lock.
abbrev pub checkout_new :
    Circumstances → String → CheckoutRequest → User → Option String → Option Order → Action Order
checkout_new c number payload user key (some existing) db = pure existing db
checkout_new c number payload user key none db =
    (do
      found ← gets (λ db. own_address user (get address_key payload.address_id db.addresses))
      address ← or_raise found (http 404 "Address not found")
      again ← gets (λ db. existing_idempotent_order db user.id key)
      checkout_cart c number payload user address key again)
      db

unfoldable pub safe_checkout : Circumstances → String → CheckoutRequest → User → Action Order
safe_checkout c number payload user = do
  key ← checked_key payload.idempotency_key
  existing ← gets (λ db. existing_idempotent_order db user.id key)
  checkout_new c number payload user key existing
