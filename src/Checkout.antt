-- ===== src/Checkout.antt =====
-- backend/app/api/v1/routes/checkout.py: a cart becomes an order. Parameters: the PostGIS test whether a
-- point lies in a service area, the local time of day, the default delivery fee, and the new order
-- number. Proofs are in child modules.
pub mod Quote
pub mod Inventory
pub mod Sale
pub mod Filling
pub mod Receipt
pub mod Outcome
pub mod Conservation
pub mod Bill
pub mod Placing
pub mod Locking
pub mod Sorting
pub mod Quoting
pub mod Promise
pub mod Replay
use ai_powered_market.Model.Db.{Db}
use ai_powered_market.Model.Keys.{listing_key, merchant_key, product_key, village_key}
use ai_powered_market.Model.Market.{Address, Merchant, Product, Store, StoreProduct, User, Village}
use ai_powered_market.Model.Orders.{AddressSnapshot, Cart, CartItem, Order, OrderItem}
use ai_powered_market.Model.Status.{
  PaymentMethod, PaymentStatus, approved, merchant_status_eq, placed,
}
use ai_powered_market.Prelude.{
  Bool, List, Option, String, [], contains, false, find_by, get, if◌then◌else◌, insert, is_none,
  leb, map, nat_eq, none, not, option_eq, put, select, some, suc, ℕ, ◌&&◌, ◌*◌, ◌+◌, ◌-◌, ◌==◌, ◌∷◌,
}
use ai_powered_market.Prelude.Text.{is_empty, string_eq}
use ai_powered_market.Pricing.{order_total}
use ai_powered_market.Session.{
  Action, Error, gets, http, modify, or_raise, pure, raise_if, value_error, ◌>>=◌, ◌>>◌,
}
use ai_powered_market.StoreHours.{store_is_open}

-- `point_is_in_service_area`: the area, the latitude and the longitude.
abbrev pub Serves : Type 0
Serves = Db → ℕ → ℕ → ℕ → Bool

-- What a request meets: the time of day, the settings and the PostGIS test.
pub record Circumstances : Type 0 where
  pub local_time : ℕ
  pub default_fee : ℕ
  pub serves : Serves

abbrev pub has_order_key : ℕ → String → Order → Bool
has_order_key user_id key o = o.user_id == user_id && o.idempotency_key == some key

-- `_existing_idempotent_order`
unfoldable pub existing_idempotent_order : Db → ℕ → Option String → Option Order
existing_idempotent_order db user_id none = none
existing_idempotent_order db user_id (some key) =
    if is_empty key then none else find_by (has_order_key user_id key) db.orders

-- `_address_snapshot`
unfoldable pub address_snapshot : Address → AddressSnapshot
address_snapshot address = record {
  recipient_name = address.recipient_name;
  phone = address.phone;
  house_details = address.house_details;
  landmark = some address.landmark;
  directions = address.directions;
  latitude = address.latitude;
  longitude = address.longitude;
  village_id = some address.village_id;
}

abbrev both : Option ℕ → Option ℕ → Option (ℕ × ℕ)
both (some latitude) (some longitude) = some (latitude, longitude)
both _ _ = none

abbrev village_point : Option Village → Option (ℕ × ℕ)
village_point none = none
village_point (some v) = both v.latitude v.longitude

-- `_address_point`
unfoldable pub address_point : Db → Address → Option (ℕ × ℕ)
address_point db address = elim (both address.latitude address.longitude) [
  | some point ↦ some point
  | none ↦ village_point (get village_key address.village_id db.villages)
]

abbrev pub own_address : User → Option Address → Option Address
own_address user none = none
own_address user (some a) = if a.user_id == user.id && is_none a.archived_at then some a else none

abbrev pub cart_of : ℕ → Cart → Bool
cart_of user_id c = c.user_id == user_id

abbrev pub in_cart : ℕ → CartItem → Bool
in_cart cart_id i = i.cart_id == cart_id

-- The cart and its store, unless the cart is missing or has no store.
abbrev pub cart_with_store : Option Cart → Option (Cart × ℕ)
cart_with_store none = none
cart_with_store (some c) = elim c.store_id [ some store_id ↦ some (c, store_id) | none ↦ none ]

abbrev pub merchant_for : Db → Store → Option Merchant
merchant_for db s = get merchant_key s.merchant_id db.merchants

abbrev pub approved_merchant : Option Merchant → Bool
approved_merchant none = false
approved_merchant (some m) = m.status == approved

-- The store, if it and its merchant trade.
abbrev pub trading : Db → Option Store → Option Store
trading db none = none
trading db (some s) = if s.is_active && approved_merchant (merchant_for db s) then some s else none

abbrev pub inventory_error : Error
inventory_error = http 409 "Cart inventory changed; review your cart"

-- A validated pair of the source: an item of the cart and its locked listing.
pub record Line : Type 0 where
  pub cart_item : CartItem
  pub listing : StoreProduct

abbrev pub can_sell : ℕ → CartItem → StoreProduct → Bool
can_sell store_id item listing =
    listing.store_id == store_id
    && (listing.is_available && leb item.quantity listing.stock_quantity)

-- The loop that validates; `none` where a listing is missing, elsewhere, off sale or short.
unfoldable pub validate : ℕ → List StoreProduct → List CartItem → Option (List Line)
validate store_id locked_listings [] = some []
validate store_id locked_listings (item ∷ items) =
    let rest = validate store_id locked_listings items in
    elim (get listing_key item.store_product_id locked_listings) [
      | none ↦ none
      | some l ↦
          if can_sell store_id item l
          then elim rest [
            | none ↦ none
            | some lines ↦ some (record { cart_item = item; listing = l } ∷ lines)
          ]
          else none
    ]

unfoldable pub subtotal_of : List Line → ℕ
subtotal_of [] = 0
subtotal_of (line ∷ lines) = line.listing.price * line.cart_item.quantity + subtotal_of lines

abbrev pub wanted_ids : List CartItem → List ℕ
wanted_ids items = map (λ (i : CartItem). i.store_product_id) items

abbrev pub locked_for : List ℕ → Db → List StoreProduct
locked_for ids db = select (λ (l : StoreProduct). contains ids l.id) db.listings

-- The guards on the store and on the way to the address.
unfoldable pub require_serviceable : Circumstances → Address → Store → Action (Unit {0})
require_serviceable c address store = do
  raise_if (not store.delivery_enabled) (http 409 "This store does not currently support delivery")
  raise_if (not (store_is_open store c.local_time)) (http 409 " is closed right now.")
  let unverified = http 409 "Delivery serviceability cannot be verified for this order"
  area_id ← or_raise store.service_area_id unverified
  point ← gets (λ db. address_point db address)
  at ← or_raise point unverified
  served ← gets (λ db. c.serves db area_id at.0 at.1)
  raise_if (not served) (http 409 "This store does not deliver to the selected address")

unfoldable pub new_order :
    ℕ → String → User → Store → Address → Option String → PaymentMethod → ℕ → ℕ → Order
unfolding order_total
new_order id number user store address key method subtotal fee = record {
  id = id;
  order_number = number;
  user_id = user.id;
  store_id = store.id;
  address_id = address.id;
  idempotency_key = key;
  stock_restored_at = none;
  delivery_address = address_snapshot address;
  status = placed;
  payment_method = method;
  payment_status = PaymentStatus.pending;
  subtotal = subtotal;
  delivery_fee = fee;
  total = order_total subtotal fee;
}

-- The listing after the sale; one that is sold out goes off sale.
unfoldable pub sold : StoreProduct → ℕ → StoreProduct
sold l quantity =
    let left = l.stock_quantity - quantity in
    record l { stock_quantity = left; is_available = if left == 0 then false else l.is_available }

unfoldable pub order_item : ℕ → ℕ → Product → Line → OrderItem
order_item id order_id product line = record {
  id = id;
  order_id = order_id;
  product_id = product.id;
  product_name = product.name;
  unit = product.unit;
  unit_price = line.listing.price;
  quantity = line.cart_item.quantity;
  line_total = line.listing.price * line.cart_item.quantity;
}

-- One turn of the second loop. The relationship `listing.product` is a foreign key.
unfoldable pub place_line : ℕ → Line → Action (Unit {0})
place_line order_id line = do
  found ← gets (λ db. get product_key line.listing.product_id db.products)
  product ← or_raise found value_error
  modify λ db. record db {
    next_id = suc db.next_id;
    order_items = insert (order_item db.next_id order_id product line) db.order_items;
    listings = put listing_key (sold line.listing line.cart_item.quantity) db.listings;
  }

unfoldable pub place_lines : ℕ → List Line → Action (Unit {0})
unfolding place_line
place_lines order_id [] = pure tt
place_lines order_id (line ∷ lines) = do place_line order_id line; place_lines order_id lines
