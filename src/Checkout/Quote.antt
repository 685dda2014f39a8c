-- ===== src/Checkout/Quote.antt =====
-- `cart_quote` of backend/app/api/v1/routes/checkout.py: the preview of a checkout, which only reads.
use ai_powered_market.Checkout.{
  Circumstances, Line, address_point, can_sell, cart_of, cart_with_store, in_cart, own_address,
  subtotal_of, trading,
}
use ai_powered_market.Model.Db.{Db}
use ai_powered_market.Model.Keys.{address_key, listing_key, store_key}
use ai_powered_market.Model.Market.{Address, Store, User}
use ai_powered_market.Model.Orders.{CartItem}
use ai_powered_market.Prelude.{
  Bool, List, Option, String, [], false, find_by, get, if◌then◌else◌, none, not, select, some, true,
  ℕ, ◌&&◌, ◌++◌, ◌∷◌,
}
use ai_powered_market.Pricing.{order_total, resolve_delivery_fee}
use ai_powered_market.Session.{Action, gets, http, or_raise, pure, raise, ◌>>=◌, ◌>>◌}
use ai_powered_market.StoreHours.{store_is_open}

-- A row of the query that joins the cart's items and their listings; an item without one has no row.
unfoldable pub quote_rows : Db → List CartItem → List Line
quote_rows db [] = []
quote_rows db (item ∷ items) =
    let rest = quote_rows db items in
    elim (get listing_key item.store_product_id db.listings) [
      | none ↦ rest
      | some l ↦ record { cart_item = item; listing = l } ∷ rest
    ]

abbrev pub row_valid : ℕ → Line → Bool
row_valid store_id line = can_sell store_id line.cart_item line.listing

unfoldable pub inventory_is_valid : ℕ → List Line → Bool
inventory_is_valid store_id [] = true
inventory_is_valid store_id (line ∷ lines) =
    let rest = inventory_is_valid store_id lines in if row_valid store_id line then rest else false

-- The point and the area that `point_is_in_service_area` is asked about, if both are known.
abbrev pub serves_point : Circumstances → Db → Option ℕ → Option (ℕ × ℕ) → Bool
serves_point c db (some area_id) (some at) = c.serves db area_id at.0 at.1
serves_point c db _ _ = false

unfoldable pub is_serviceable : Circumstances → Db → Address → Store → Bool
is_serviceable c db address store =
    store.delivery_enabled && serves_point c db store.service_area_id (address_point db address)

-- `CheckoutQuoteRead`, the blockers as texts in their order.
pub record QuoteRead : Type 0 where
  pub store_id : ℕ
  pub address_id : ℕ
  pub subtotal : ℕ
  pub delivery_fee : ℕ
  pub total : ℕ
  pub serviceable : Bool
  pub inventory_valid : Bool
  pub store_open : Bool
  pub checkout_ready : Bool
  pub blockers : List String

abbrev blocker_if : Bool → String → List String
blocker_if true text = text ∷ []
blocker_if false text = []

unfoldable pub blockers_of : Bool → Bool → Bool → Bool → List String
blockers_of inventory_valid delivery_enabled serviceable store_open =
    blocker_if (not inventory_valid) "Cart inventory changed; review your cart"
    ++ (if not delivery_enabled
        then "This store does not currently support delivery" ∷ []
        else blocker_if (not serviceable) "This store does not deliver to the selected address")
    ++ blocker_if (not store_open) "Store is currently closed"

unfoldable pub quote_of : Circumstances → Db → Address → Store → List Line → QuoteRead
unfolding order_total
quote_of c db address store rows =
    let subtotal = subtotal_of rows in
    let fee = resolve_delivery_fee c.default_fee store db in
    let serviceable = is_serviceable c db address store in
    let valid = inventory_is_valid store.id rows in
    let open_now = store_is_open store c.local_time in
    record {
      store_id = store.id;
      address_id = address.id;
      subtotal = subtotal;
      delivery_fee = fee;
      total = order_total subtotal fee;
      serviceable = serviceable;
      inventory_valid = valid;
      store_open = open_now;
      checkout_ready = serviceable && (valid && open_now);
      blockers = blockers_of valid store.delivery_enabled serviceable open_now;
    }

abbrev pub require_rows : List Line → Action (Unit {0})
require_rows [] db = raise (http 400 "Cart is empty") db
require_rows (l ∷ lines) db = pure tt db

unfoldable pub cart_quote : Circumstances → ℕ → User → Action QuoteRead
cart_quote c address_id user = do
  own ← gets (λ db. own_address user (get address_key address_id db.addresses))
  address ← or_raise own (http 404 "Address not found")
  found ← gets (λ db. cart_with_store (find_by (cart_of user.id) db.carts))
  pair ← or_raise found (http 400 "Cart is empty")
  here ← gets (λ db. trading db (get store_key pair.1 db.stores))
  store ← or_raise here (http 409 "Store is currently unavailable")
  rows ← gets (λ db. quote_rows db (select (in_cart pair.0.id) db.cart_items))
  require_rows rows
  gets (λ db. quote_of c db address store rows)
