-- ===== src/Catalogue/Shelf.antt =====
-- Listings of backend/app/api/v1/routes/commerce.py, written whole and field by field.
use ai_powered_market.Capabilities.{require_roles}
use ai_powered_market.Catalogue.{
  Field, StoreProductCreate, StoreProductUpdate, is_null, may_trade, require_store_owner, set_to,
  set_value,
}
use ai_powered_market.Effects.{record_admin_action}
use ai_powered_market.Model.Keys.{listing_key, product_key, store_key}
use ai_powered_market.Model.Market.{Store, StoreProduct, User}
use ai_powered_market.Model.Status.{UserRole, admin, catalog_manage, role_eq}
use ai_powered_market.Prelude.{
  Bool, Option, String, [], false, find_by, get, if◌then◌else◌, insert, is_none, nat_eq, none, not,
  put, some, suc, true, zero, ℕ, ◌==◌, ◌||◌, ◌∷◌,
}
use ai_powered_market.Session.{
  Action, gets, http, modify, or_raise, pure, raise_if, value_error, when, ◌>>=◌, ◌>>◌,
}
use ai_powered_market.Stock.{lists}

-- The store, for somebody who may change its listings.
unfoldable pub open_shelf : ℕ → User → Action Store
open_shelf store_id user = do
  require_roles (UserRole.merchant ∷ admin ∷ []) user
  found ← gets (λ db. get store_key store_id db.stores)
  store ← or_raise found (http 404 "Store not found")
  merchant ← require_store_owner store user catalog_manage
  raise_if (not (may_trade user merchant)) (http 403 "Merchant is not active")
  pure store

abbrev note_listing : User → String → ℕ → Action (Unit {0})
note_listing user action listing_id = when (user.role == admin) (
    record_admin_action user action catalog_manage listing_id
      (some "administrator_catalog_operations"))

abbrev pub listing_row : ℕ → ℕ → StoreProductCreate → StoreProduct
listing_row id store_id payload = record {
  id = id;
  store_id = store_id;
  product_id = payload.product_id;
  price = payload.price;
  stock_quantity = payload.stock_quantity;
  is_available = payload.is_available;
}

abbrev pub put_listing : ℕ → StoreProductCreate → Option StoreProduct → Action StoreProduct
put_listing store_id payload (some l) db =
    (do
      let new = listing_row l.id l.store_id payload
      modify (λ db. record db { listings = put listing_key new db.listings })
      pure new)
      db
put_listing store_id payload none db =
    (do
      id ← gets (λ db. db.next_id)
      let new = listing_row id store_id payload
      modify (λ db. record db { next_id = suc db.next_id; listings = insert new db.listings })
      pure new)
      db

-- The schema wants a positive price.
unfoldable pub upsert_store_product : ℕ → StoreProductCreate → User → Action StoreProduct
upsert_store_product store_id payload user = do
  raise_if (payload.price == 0) (http 422 "price")
  store ← open_shelf store_id user
  product ← gets (λ db. get product_key payload.product_id db.products)
  raise_if (is_none product) (http 404 "Product not found")
  existing ← gets (λ db. find_by (lists store_id payload.product_id) db.listings)
  listing ← put_listing store_id payload existing
  note_listing user "store_product.upserted" listing.id
  pure listing

abbrev is_zero : Field ℕ → Bool
is_zero (set_to zero) = true
is_zero _ = false

unfoldable pub updated_listing : StoreProduct → StoreProductUpdate → StoreProduct
updated_listing l u = record l {
  price = set_value u.price l.price;
  stock_quantity = set_value u.stock_quantity l.stock_quantity;
  is_available = set_value u.is_available l.is_available;
}

abbrev on_shelf : ℕ → Option StoreProduct → Option StoreProduct
on_shelf store_id none = none
on_shelf store_id (some l) = if l.store_id == store_id then some l else none

unfoldable pub update_store_product : ℕ → ℕ → StoreProductUpdate → User → Action StoreProduct
update_store_product store_id listing_id u user = do
  raise_if (is_zero u.price) (http 422 "price")
  store ← open_shelf store_id user
  found ← gets (λ db. on_shelf store_id (get listing_key listing_id db.listings))
  listing ← or_raise found (http 404 "Store product not found")
  raise_if (is_null u.price || (is_null u.stock_quantity || is_null u.is_available)) value_error
  let new = updated_listing listing u
  modify (λ db. record db { listings = put listing_key new db.listings })
  note_listing user "store_product.updated" listing.id
  pure new
