-- ===== src/Catalogue/Access.antt =====
-- Who may write a store's listings: backend/app/api/v1/routes/commerce.py.
use ai_powered_market.Capabilities.{has_capability}
use ai_powered_market.Catalogue.{StoreProductCreate, StoreProductUpdate}
use ai_powered_market.Catalogue.Shelf.{update_store_product, upsert_store_product}
use ai_powered_market.Model.Db.{Db}
use ai_powered_market.Model.Keys.{merchant_key, store_key}
use ai_powered_market.Model.Market.{Merchant, Store, StoreProduct, User}
use ai_powered_market.Model.Status.{admin, approved, catalog_manage, role_eq}
use ai_powered_market.Prelude.{get, some, true, ℕ, ◌≡◌, ◌⊎◌}
use ai_powered_market.Session.{ok}

-- An administrator with the capability, or the approved owner of the store.
abbrev pub MayWrite : User → ℕ → Db → Type 0
MayWrite user store_id db =
    (s : Store) × (get store_key store_id db.stores ≡ some s)
    × (((user.role ≡ admin) × (has_capability user catalog_manage ≡ true))
        ⊎ ((m : Merchant) × (get merchant_key s.merchant_id db.merchants ≡ some m)
            × (m.owner_user_id ≡ user.id)
            × (m.status ≡ approved)))

-- A request to one of the two handlers that write a store's listing, and that commits.
pub data ListingWrite (store_id : ℕ) (user : User) (db db' : Db) : Type 0 where
  stocks :
      (payload : StoreProductCreate) (l : StoreProduct)
      → upsert_store_product store_id payload user db ≡ ok (l, db')
      → ListingWrite store_id user db db'
  relists :
      (listing_id : ℕ) (payload : StoreProductUpdate) (l : StoreProduct)
      → update_store_product store_id listing_id payload user db ≡ ok (l, db')
      → ListingWrite store_id user db db'
