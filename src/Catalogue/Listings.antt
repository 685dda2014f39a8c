-- ===== src/Catalogue/Listings.antt =====
-- A store lists a product once, whoever writes its listings: backend/app/api/v1/routes/commerce.py.
use ai_powered_market.Capabilities.{ensure_capability, require_roles}
use ai_powered_market.Catalogue.{StoreProductCreate, StoreProductUpdate, require_store_owner}
use ai_powered_market.Catalogue.Shelf.{
  listing_row, open_shelf, put_listing, update_store_product, updated_listing, upsert_store_product,
}
use ai_powered_market.Checkout.Inventory.{IsListed, IsListed-put}
use ai_powered_market.Effects.{record_admin_action}
use ai_powered_market.Model.Db.{Db}
use ai_powered_market.Model.Keys.{listing_key}
use ai_powered_market.Model.Market.{Store, StoreProduct, User}
use ai_powered_market.Prelude.{
  IsKeyed, IsKeyed-insert, List, Option-cases, arith, find_by, find_by-insert-none,
  find_by-insert-some, find_by_passes, found_get, get, get-key, has_key, inl, inr, insert, none,
  put, put-IsKeyed, refl, some, subst, sym, ℕ, ◌≡◌, ◌⊎◌,
}
use ai_powered_market.Session.{Result-cases, ok}
use ai_powered_market.Stock.{lists}

-- The next key is new to the listings.
abbrev pub IsNewListing : Db → Type 0
IsNewListing db = get listing_key db.next_id db.listings ≡ none

-- Listings with keys of their own, one for a store and a product.
abbrev pub AreListings : List StoreProduct → Type 0
AreListings ls = IsKeyed listing_key ls × IsListed ls

get-insert_listing :
    (id : ℕ) (row l : StoreProduct) (ls : List StoreProduct)
    → get listing_key id (insert row ls) ≡ some l
    → (get listing_key id ls ≡ some l) ⊎ (row ≡ l)
unfolding get
get-insert_listing id row l ls h = elim (Option-cases (get listing_key id ls)) [
  | inl gone ↦ inr (ground (arith, find_by-insert-none (has_key listing_key id) row ls))
  | inr (x, found) ↦ inl (ground (arith, find_by-insert-some (has_key listing_key id) row x ls))
]

AreListings-insert :
    (row : StoreProduct) (ls : List StoreProduct)
    → AreListings ls
    → get listing_key row.id ls ≡ none
    → find_by (lists row.store_id row.product_id) ls ≡ none
    → AreListings (insert row ls)
AreListings-insert row ls (k, u) fresh unlisted = (
  IsKeyed-insert listing_key row ls k fresh,
  λ l h. elim (get-insert_listing l.id row l ls h) [
    | inl old ↦ find_by-insert-some (lists l.store_id l.product_id) row l ls (u l old)
    | inr this ↦
        subst
          (λ (x : StoreProduct). find_by (lists x.store_id x.product_id) (insert row ls) ≡ some x)
          this
          (let last = find_by-insert-none (lists row.store_id row.product_id) row ls unlisted in
            ground arith)
  ],
)

pub AreListings-put :
    (l row : StoreProduct) (ls : List StoreProduct)
    → AreListings ls
    → get listing_key l.id ls ≡ some l
    → row.id ≡ l.id
    → row.store_id ≡ l.store_id
    → row.product_id ≡ l.product_id
    → AreListings (put listing_key row ls)
AreListings-put l row ls (k, u) stored e s p =
    (put-IsKeyed listing_key row ls k, IsListed-put l row ls k stored u e s p)

pub open_shelf_same :
    (store_id : ℕ) (user : User) (db : Db) {s : Store} {db' : Db}
    → open_shelf store_id user db ≡ ok (s, db')
    → db' ≡ db
unfolding open_shelf require_store_owner require_roles ensure_capability
open_shelf_same store_id user db {s} {db'} e = ground arith

put_listing_lem :
    (store_id : ℕ) (payload : StoreProductCreate) (db : Db) {l : StoreProduct} {db' : Db}
    → AreListings db.listings
    → IsNewListing db
    → put_listing store_id payload (find_by (lists store_id payload.product_id) db.listings) db
      ≡ ok (l, db')
    → AreListings db'.listings
put_listing_lem store_id payload db {l} {db'} a fresh e =
    elim (Option-cases (find_by (lists store_id payload.product_id) db.listings)) [
      | inl unlisted ↦
          let row = listing_row db.next_id store_id payload in
          let same : db'.listings ≡ insert row db.listings = ground arith in
          subst AreListings (sym same) (AreListings-insert row db.listings a fresh unlisted)
      | inr (old, found) ↦
          let row = listing_row old.id old.store_id payload in
          let passes = find_by_passes (lists store_id payload.product_id) db.listings old found in
          let stored =
            found_get listing_key (lists store_id payload.product_id) old db.listings a.0 found in
          let same : db'.listings ≡ put listing_key row db.listings = ground arith in
          subst AreListings (sym same)
            (AreListings-put old row db.listings a stored refl refl (ground arith))
    ]

pub upsert_store_product-AreListings :
    (store_id : ℕ) (payload : StoreProductCreate) (user : User) (db : Db) {l : StoreProduct}
    {db' : Db}
    → AreListings db.listings
    → IsNewListing db
    → upsert_store_product store_id payload user db ≡ ok (l, db')
    → AreListings db'.listings
unfolding upsert_store_product record_admin_action
upsert_store_product-AreListings store_id payload user db {l} {db'} a fresh e =
    elim (Result-cases (open_shelf store_id user db)) [
      | inr (x, e1) ↦ absurd (ground arith)
      | inl (s, db1, e1) ↦
          let same = open_shelf_same store_id user db {s = s} {db' = db1} e1 in
          elim (Result-cases (
            put_listing store_id payload (find_by (lists store_id payload.product_id) db.listings)
              db)) [
                | inr (x, e2) ↦ absurd (ground arith)
                | inl (row, db2, e2) ↦
                    let kept =
                      put_listing_lem store_id payload db {l = row} {db' = db2} a fresh e2 in
                    let last : db'.listings ≡ db2.listings = ground arith in
                    subst AreListings (sym last) kept
              ]
    ]

pub update_store_product-AreListings :
    (store_id listing_id : ℕ) (u : StoreProductUpdate) (user : User) (db : Db) {l : StoreProduct}
    {db' : Db}
    → AreListings db.listings
    → update_store_product store_id listing_id u user db ≡ ok (l, db')
    → AreListings db'.listings
unfolding update_store_product updated_listing record_admin_action
update_store_product-AreListings store_id listing_id u user db {l} {db'} a e =
    elim (Result-cases (open_shelf store_id user db)) [
      | inr (x, e1) ↦ absurd (ground arith)
      | inl (s, db1, e1) ↦
          let same = open_shelf_same store_id user db {s = s} {db' = db1} e1 in
          elim (Option-cases (get listing_key listing_id db.listings)) [
            | inl gone ↦ absurd (ground arith)
            | inr (old, found) ↦
                let key = get-key listing_key listing_id db.listings old found in
                let row = updated_listing old u in
                let last : db'.listings ≡ put listing_key row db.listings = ground arith in
                subst AreListings (sym last)
                  (AreListings-put old row db.listings a (ground arith) refl refl refl)
          ]
    ]
