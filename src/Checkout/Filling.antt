-- ===== src/Checkout/Filling.antt =====
-- What a basket holds, once `safe_checkout` has filled it.
use ai_powered_market.Checkout.{
  Circumstances, address_point, cart_of, cart_with_store, in_cart, inventory_error, locked_for,
  require_serviceable, trading, validate, wanted_ids,
}
use ai_powered_market.Checkout.Placing.{Basket, by_listing, fill_basket, require_some}
use ai_powered_market.Model.Db.{Db}
use ai_powered_market.Model.Keys.{store_key}
use ai_powered_market.Model.Market.{Address, Store, StoreProduct, User}
use ai_powered_market.Model.Orders.{Cart, CartItem}
use ai_powered_market.Prelude.{
  List, Option, Option-cases, [], arith, find_by, get, get-key, inl, inr, length, nat_eq, none,
  select, some, sort_by, ℕ, ◌!=◌, ◌∷◌, ◌≡◌,
}
use ai_powered_market.Session.{
  Action, Result-cases, gets, ok, or_raise, pure, raise_if, ◌>>=◌, ◌>>◌,
}

-- The items of a cart, in the order in which the listings are locked.
abbrev pub cart_rows : Cart → Db → List CartItem
cart_rows cart db = sort_by by_listing (select (in_cart cart.id) db.cart_items)

abbrev pub locked_rows : Cart → Db → List StoreProduct
locked_rows cart db = locked_for (wanted_ids (cart_rows cart db)) db

pub record Filled (c : Circumstances) (address : Address) (user : User) (db : Db) (basket : Basket)
    (db' : Db) : Type 0 where
  pub same : db' ≡ db
  pub has_cart : find_by (cart_of user.id) db.carts ≡ some basket.cart
  pub of_store : basket.cart.store_id ≡ some basket.store.id
  pub trades : trading db (get store_key basket.store.id db.stores) ≡ some basket.store
  pub serviceable : require_serviceable c address basket.store db ≡ ok (tt, db)
  pub validated :
      validate basket.store.id (locked_rows basket.cart db) (cart_rows basket.cart db)
      ≡ some basket.lines

require_serviceable_same :
    (c : Circumstances) (address : Address) (store : Store) (db : Db) {db' : Db}
    → require_serviceable c address store db ≡ ok (tt, db')
    → db' ≡ db
unfolding require_serviceable
require_serviceable_same c address store db e = elim (Option-cases store.service_area_id) [
  | inl unknown ↦ ground arith
  | inr (area_id, known) ↦ elim (Option-cases (address_point db address)) [
    | inl nowhere ↦ ground arith
    | inr (at, here) ↦ ground arith
  ]
]

require_some_same :
    (items : List CartItem) (db : Db) {db' : Db} → require_some items db ≡ ok (tt, db') → db' ≡ db
require_some_same [] db e = absurd (ground arith)
require_some_same (i ∷ items) db e = ground arith

cart_with_store_lem :
    (found : Option Cart) {cart : Cart} {store_id : ℕ}
    → cart_with_store found ≡ some (cart, store_id)
    → (found ≡ some cart) × (cart.store_id ≡ some store_id)
cart_with_store_lem none e = absurd (ground arith)
cart_with_store_lem (some cart) e = ground arith

pub trading_lem :
    (db : Db) (found : Option Store) {store : Store}
    → trading db found ≡ some store
    → found ≡ some store
trading_lem db none e = absurd (ground arith)
trading_lem db (some store) e = ground arith

module _ (c : Circumstances) (address : Address) (db : Db) (cart : Cart) (store : Store) where
  abbrev fill_lines : Action Basket
  fill_lines = do
    require_some (cart_rows cart db)
    require_serviceable c address store
    locked_listings ← gets (λ now. locked_for (wanted_ids (cart_rows cart db)) now)
    raise_if (length locked_listings != length (cart_rows cart db)) inventory_error
    lines ← or_raise (validate store.id locked_listings (cart_rows cart db)) inventory_error
    pure (record { cart = cart; store = store; lines = lines })

  fill_lines_lem :
      {basket : Basket} {db' : Db}
      → fill_lines db ≡ ok (basket, db')
      → (db' ≡ db)
        × (require_serviceable c address store db ≡ ok (tt, db))
        × (basket ≡ record { cart = cart; store = store; lines = basket.lines })
        × (validate store.id (locked_rows cart db) (cart_rows cart db) ≡ some basket.lines)
  fill_lines_lem {basket} {db'} e = elim (Result-cases (require_some (cart_rows cart db) db)) [
    | inr (x, e1) ↦ absurd (ground arith)
    | inl (w, db1, e1) ↦ elim (Result-cases (require_serviceable c address store db)) [
      | inr (x, e2) ↦
          absurd (ground (arith, require_some_same (cart_rows cart db) db {db' = db1} e1))
      | inl (v, db2, e2) ↦
          elim (Option-cases (validate store.id (locked_rows cart db) (cart_rows cart db))) [
            | inl invalid ↦ absurd (
                ground (
                  arith,
                  require_some_same (cart_rows cart db) db {db' = db1} e1,
                  require_serviceable_same c address store db {db' = db2} e2,
                ))
            | inr (lines, valid) ↦ ground (
              arith,
              require_some_same (cart_rows cart db) db {db' = db1} e1,
              require_serviceable_same c address store db {db' = db2} e2,
            )
          ]
    ]
  ]

pub fill_basket_lem :
    (c : Circumstances) (address : Address) (user : User) (db : Db) {basket : Basket} {db' : Db}
    → fill_basket c address user db ≡ ok (basket, db')
    → Filled c address user db basket db'
unfolding fill_basket
fill_basket_lem c address user db {basket} {db'} e =
    elim (Option-cases (cart_with_store (find_by (cart_of user.id) db.carts))) [
      | inl absent ↦ absurd (ground arith)
      | inr ((cart, store_id), found) ↦
          elim (Option-cases (trading db (get store_key store_id db.stores))) [
            | inl shut ↦ absurd (ground arith)
            | inr (store, here) ↦
                let lines : fill_lines c address db cart store db ≡ ok (basket, db') =
                  ground arith in
                let facts =
                  fill_lines_lem c address db cart store {basket = basket} {db' = db'} lines in
                let of_user = cart_with_store_lem (find_by (cart_of user.id) db.carts) found in
                let stored = trading_lem db (get store_key store_id db.stores) here in
                let key = get-key store_key store_id db.stores store stored in
                record {
                  same = facts.0;
                  has_cart = ground arith;
                  of_store = ground arith;
                  trades = ground arith;
                  serviceable = ground arith;
                  validated = ground arith;
                }
          ]
    ]
