-- ===== src/Catalogue.antt =====
-- backend/app/api/v1/routes/commerce.py: merchants, their stores and their listings. The PostGIS test is an
-- argument. Columns that nothing modelled reads (the business name, `mrp`, the store's texts) are left out.
pub mod Shelf
pub mod Suspension
pub mod Listings
pub mod Shelves
pub mod Access
use ai_powered_market.Capabilities.{ensure_capability, require_roles}
use ai_powered_market.Checkout.{Serves, approved_merchant}
use ai_powered_market.Effects.{record_admin_action}
use ai_powered_market.Model.Db.{Db}
use ai_powered_market.Model.Keys.{merchant_key, store_key, user_key}
use ai_powered_market.Model.Market.{Merchant, Store, User}
use ai_powered_market.Model.Status.{
  Capability, MerchantStatus, UserRole, admin, approved, catalog_manage, merchant_manage,
  merchant_status_eq, role_eq,
}
use ai_powered_market.Prelude.{
  Bool, Option, String, [], false, find_by, get, if◌then◌else◌, insert, is_none, is_some, nat_eq,
  none, not, put, some, suc, true, ℕ, ◌!=◌, ◌&&◌, ◌==◌, ◌||◌, ◌∷◌,
}
use ai_powered_market.Session.{
  Action, gets, http, modify, or_raise, pure, raise_if, value_error, when, ◌>>=◌, ◌>>◌,
}

-- A field of a PATCH: absent, null, or a value.
pub data Field (A : Type 0) : Type 0 where
  unset null : Field A
  set_to : A → Field A

-- `StoreProductCreate`
pub record StoreProductCreate : Type 0 where
  pub product_id : ℕ
  pub price : ℕ
  pub stock_quantity : ℕ
  pub is_available : Bool

-- `StoreProductUpdate`
pub record StoreProductUpdate : Type 0 where
  pub price : Field ℕ
  pub stock_quantity : Field ℕ
  pub is_available : Field Bool

-- `StoreUpdate`
pub record StoreUpdate : Type 0 where
  pub name : Field String
  pub latitude : Field ℕ
  pub longitude : Field ℕ
  pub opens_at : Field ℕ
  pub closes_at : Field ℕ
  pub delivery_enabled : Field Bool
  pub is_active : Field Bool

-- `setattr` on a nullable column.
abbrev set_null : {A : Type 0} → Field A → Option A → Option A
set_null unset old = old
set_null null old = none
set_null (set_to a) old = some a

abbrev pub set_value : {A : Type 0} → Field A → A → A
set_value unset old = old
set_value null old = old
set_value (set_to a) old = a

abbrev pub is_null : {A : Type 0} → Field A → Bool
is_null null = true
is_null _ = false

abbrev is_present : {A : Type 0} → Field A → Bool
is_present unset = false
is_present _ = true

abbrev is_owned_by : User → Option Merchant → Bool
is_owned_by user none = false
is_owned_by user (some m) = m.owner_user_id == user.id

-- `_require_store_owner`
unfoldable pub require_store_owner : Store → User → Capability → Action (Option Merchant)
require_store_owner store user admin_capability = do
  merchant ← gets (λ db. get merchant_key store.merchant_id db.merchants)
  (if user.role == admin
      then ensure_capability user admin_capability
      else raise_if (not (is_owned_by user merchant)) (http 403 "You do not own this store"))
  pure merchant

-- `_set_merchant_status`, and the write of the row.
unfoldable pub set_merchant_status : Merchant → MerchantStatus → Action (Unit {0})
set_merchant_status merchant target = modify λ db. record db {
  merchants = put merchant_key (record merchant { status = target }) db.merchants;
}

abbrev owner_is : User → Merchant → Bool
owner_is user m = m.owner_user_id == user.id

-- A first application makes the user a merchant.
unfoldable pub apply_as_merchant : User → Action Merchant
apply_as_merchant user = do
  existing ← gets (λ db. find_by (owner_is user) db.merchants)
  raise_if (is_some existing) (http 409 "Merchant profile already exists")
  id ← gets (λ db. db.next_id)
  let merchant : Merchant = record {
    id = id;
    owner_user_id = user.id;
    status = MerchantStatus.pending;
  }
  modify λ db. record db {
    next_id = suc db.next_id;
    users = put user_key (record user { role = UserRole.merchant }) db.users;
    merchants = insert merchant db.merchants;
  }
  pure merchant

-- What both handlers of a merchant's status do.
unfoldable pub decide_merchant : ℕ → MerchantStatus → String → String → User → Action Merchant
decide_merchant merchant_id target action reason user = do
  ensure_capability user merchant_manage
  found ← gets (λ db. get merchant_key merchant_id db.merchants)
  merchant ← or_raise found (http 404 "Merchant not found")
  set_merchant_status merchant target
  record_admin_action user action merchant_manage merchant.id (some reason)
  pure (record merchant { status = target })

unfoldable pub approve_merchant : ℕ → User → Action Merchant
approve_merchant merchant_id user =
    decide_merchant merchant_id approved "merchant.approved" "merchant_onboarding_approval" user

unfoldable pub update_merchant_status : ℕ → MerchantStatus → User → Action Merchant
update_merchant_status merchant_id target user =
    decide_merchant merchant_id target "merchant.status_updated"
      "merchant_operational_status_change" user

-- A merchant that is not approved changes nothing; an administrator passes.
abbrev pub may_trade : User → Option Merchant → Bool
may_trade user merchant = user.role == admin || approved_merchant merchant

-- Whether the merchant is there and not approved.
abbrev is_inactive : Option Merchant → Bool
is_inactive none = false
is_inactive (some m) = m.status != approved

abbrev pub area_serves : Serves → Db → ℕ → Option ℕ → Option ℕ → Bool
area_serves serves db area_id (some latitude) (some longitude) =
    serves db area_id latitude longitude
area_serves serves db area_id _ _ = false

unfoldable pub updated_store : Store → StoreUpdate → Store
updated_store store u = record store {
  name = set_value u.name store.name;
  latitude = set_null u.latitude store.latitude;
  longitude = set_null u.longitude store.longitude;
  opens_at = set_null u.opens_at store.opens_at;
  closes_at = set_null u.closes_at store.closes_at;
  delivery_enabled = set_value u.delivery_enabled store.delivery_enabled;
  is_active = set_value u.is_active store.is_active;
}

-- A store that moves stays in the area that it serves.
abbrev pub check_area : Serves → Store → Option ℕ → Action (Unit {0})
check_area serves store none db = pure tt db
check_area serves store (some area_id) db =
    (do
      raise_if (is_none store.latitude || is_none store.longitude)
          (http 422 "A store with a service area must keep a pinned location")
      raise_if (not (area_serves serves db area_id store.latitude store.longitude))
          (http 422 "The new storefront location is outside this store's service area"))
      db

-- A null name or flag breaks a NOT NULL constraint when it is flushed.
unfoldable pub update_store : Serves → ℕ → StoreUpdate → User → Action Store
update_store serves store_id u user = do
  require_roles (UserRole.merchant ∷ admin ∷ []) user
  found ← gets (λ db. get store_key store_id db.stores)
  store ← or_raise found (http 404 "Store not found")
  merchant ← require_store_owner store user catalog_manage
  raise_if (user.role != admin && is_inactive merchant) (http 403 "Merchant is not active")
  let new = updated_store store u
  (if is_present u.latitude || is_present u.longitude
      then check_area serves new new.service_area_id
      else pure tt)
  raise_if (is_null u.name || (is_null u.delivery_enabled || is_null u.is_active)) value_error
  modify (λ db. record db { stores = put store_key new db.stores })
  when (user.role == admin) (
      record_admin_action user "store.updated" catalog_manage store.id
        (some "administrator_catalog_operations"))
  pure new
