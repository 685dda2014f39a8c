-- ===== src/Carts.antt =====
-- The cart of backend/app/api/v1/routes/orders.py, with the schema `CartItemUpsert` of
-- backend/app/schemas/orders.py. `uuid.uuid4` is the database's next number.
pub mod Homes
pub mod Opening
pub mod Shopping
pub mod Steps
pub mod Contents
pub mod Refinement
use ai_powered_market.Checkout.{cart_of, in_cart, subtotal_of, trading}
use ai_powered_market.Checkout.Quote.{quote_rows}
use ai_powered_market.Model.Keys.{cart_item_key, cart_key, listing_key, store_key}
use ai_powered_market.Model.Market.{StoreProduct, User}
use ai_powered_market.Model.Orders.{Cart, CartItem}
use ai_powered_market.Prelude.{
  Bool, List, Option, false, find_by, get, if◌then◌else◌, insert, leb, ltb, nat_eq, none, not, put,
  select, some, suc, ℕ, ◌!=◌, ◌&&◌, ◌==◌, ◌||◌,
}
use ai_powered_market.Session.{
  Action, gets, http, modify, ok, or_raise, pure, raise_if, ◌>>=◌, ◌>>◌,
}

-- `CartItemUpsert`
pub record CartItemUpsert : Type 0 where
  pub store_product_id : ℕ
  pub quantity : ℕ

-- `CartRead`
pub record CartRead : Type 0 where
  pub id : ℕ
  pub store_id : Option ℕ
  pub items : List CartItem
  pub subtotal : ℕ

abbrev pub fresh_cart : ℕ → ℕ → Cart
fresh_cart id user_id = record { id = id; user_id = user_id; store_id = none }

abbrev pub cart_or_new : ℕ → Option Cart → Action Cart
cart_or_new user_id (some cart) db = pure cart db
cart_or_new user_id none db = ok (
  fresh_cart db.next_id user_id,
  record db { next_id = suc db.next_id; carts = insert (fresh_cart db.next_id user_id) db.carts },
)

-- `_get_or_create_cart`
unfoldable pub get_or_create_cart : ℕ → Action Cart
get_or_create_cart user_id = do
  found ← gets (λ db. find_by (cart_of user_id) db.carts)
  cart_or_new user_id found

-- `_cart_payload`. The relationship `item.store_product` is a foreign key, so that each item has its row.
unfoldable pub cart_payload : ℕ → Option ℕ → Action CartRead
cart_payload id store_id = gets λ db.
    let items = select (in_cart id) db.cart_items in
    record {
      id = id;
      store_id = store_id;
      items = items;
      subtotal = subtotal_of (quote_rows db items);
    }

unfoldable pub get_cart : User → Action CartRead
get_cart user = do cart ← get_or_create_cart user.id; cart_payload cart.id cart.store_id

abbrev pub same_line : ℕ → ℕ → CartItem → Bool
same_line cart_id store_product_id i =
    i.cart_id == cart_id && i.store_product_id == store_product_id

-- The listing, if it is on sale with enough units.
abbrev pub in_stock : ℕ → Option StoreProduct → Option StoreProduct
in_stock quantity none = none
in_stock quantity (some l) =
    if l.is_available && leb quantity l.stock_quantity then some l else none

-- `cart.store_id and cart.store_id != listing.store_id`
abbrev pub is_elsewhere : Option ℕ → ℕ → Bool
is_elsewhere none store_id = false
is_elsewhere (some s) store_id = s != store_id

abbrev pub new_cart_item : ℕ → ℕ → ℕ → ℕ → CartItem
new_cart_item id cart_id store_product_id quantity = record {
  id = id;
  cart_id = cart_id;
  store_product_id = store_product_id;
  quantity = quantity;
}

abbrev pub set_item : ℕ → ℕ → ℕ → Option CartItem → Action (Unit {0})
set_item cart_id store_product_id quantity (some item) db = ok (
  tt,
  record db { cart_items = put cart_item_key (record item { quantity = quantity }) db.cart_items },
)
set_item cart_id store_product_id quantity none db = ok (
  tt,
  record db {
    next_id = suc db.next_id;
    cart_items = insert (new_cart_item db.next_id cart_id store_product_id quantity) db.cart_items;
  },
)

abbrev pub write_cart : Cart → Option ℕ → Action (Unit {0})
write_cart cart store_id =
    modify λ db. record db { carts = put cart_key (record cart { store_id = store_id }) db.carts }

-- The schema lets 1 to 99 units through.
unfoldable pub add_cart_item : CartItemUpsert → User → Action CartRead
add_cart_item payload user = do
  raise_if (payload.quantity == 0 || ltb 99 payload.quantity) (http 422 "quantity")
  stocked ←
      gets (λ db. in_stock payload.quantity (get listing_key payload.store_product_id db.listings))
  listing ← or_raise stocked (http 400 "Product is unavailable or insufficient stock")
  here ← gets (λ db. trading db (get store_key listing.store_id db.stores))
  store ← or_raise here (http 409 "Store is currently unavailable")
  cart ← get_or_create_cart user.id
  raise_if (is_elsewhere cart.store_id listing.store_id)
      (http 409 "Cart can contain products from only one store")
  write_cart cart (some listing.store_id)
  item ← gets (λ db. find_by (same_line cart.id listing.id) db.cart_items)
  set_item cart.id listing.id payload.quantity item
  cart_payload cart.id (some listing.store_id)

abbrev delete_items : (CartItem → Bool) → Action (Unit {0})
delete_items p =
    modify λ db. record db { cart_items = select (λ (i : CartItem). not (p i)) db.cart_items }

-- A cart with nothing left forgets its store.
abbrev pub keep_store : Cart → Option CartItem → Action (Option ℕ)
keep_store cart none db = (do write_cart cart none; pure none) db
keep_store cart (some item) db = pure cart.store_id db

unfoldable pub remove_cart_item : ℕ → User → Action CartRead
remove_cart_item store_product_id user = do
  cart ← get_or_create_cart user.id
  delete_items (same_line cart.id store_product_id)
  remaining ← gets (λ db. find_by (in_cart cart.id) db.cart_items)
  store_id ← keep_store cart remaining
  cart_payload cart.id store_id

unfoldable pub clear_cart : User → Action CartRead
clear_cart user = do
  cart ← get_or_create_cart user.id
  delete_items (in_cart cart.id)
  write_cart cart none
  cart_payload cart.id none
