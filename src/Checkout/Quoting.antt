-- ===== src/Checkout/Quoting.antt =====
-- What a quote of backend/app/api/v1/routes/checkout.py says of the database.
use ai_powered_market.Checkout.{
  Circumstances, Line, address_point, cart_of, cart_with_store, in_cart, own_address,
  require_serviceable, subtotal_of, trading,
}
use ai_powered_market.Checkout.Filling.{trading_lem}
use ai_powered_market.Checkout.Quote.{
  QuoteRead, cart_quote, inventory_is_valid, is_serviceable, quote_of, quote_rows, require_rows,
}
use ai_powered_market.Model.Db.{Db}
use ai_powered_market.Model.Keys.{address_key, store_key}
use ai_powered_market.Model.Market.{Address, Store, User}
use ai_powered_market.Model.Orders.{Cart}
use ai_powered_market.Prelude.{
  List, Option-cases, [], arith, find_by, get, get-key, inl, inr, refl, select, some, true, ℕ, ◌+◌,
  ◌∷◌, ◌≡◌,
}
use ai_powered_market.Pricing.{order_total, resolve_delivery_fee}
use ai_powered_market.Session.{Result-cases, ok}

-- What a quote has read.
pub record Quoted (c : Circumstances) (address_id : ℕ) (user : User) (db : Db) (quote : QuoteRead)
    : Type 0 where
  pub address : Address
  pub own : own_address user (get address_key address_id db.addresses) ≡ some address
  pub cart : Cart
  pub has_cart : cart_with_store (find_by (cart_of user.id) db.carts) ≡ some (cart, quote.store_id)
  pub shop : Store
  pub trades : trading db (get store_key quote.store_id db.stores) ≡ some shop
  pub has_rows :
      require_rows (quote_rows db (select (in_cart cart.id) db.cart_items)) db ≡ ok (tt, db)
  pub is_quote :
      quote ≡ quote_of c db address shop (quote_rows db (select (in_cart cart.id) db.cart_items))

require_rows_same :
    (rows : List Line) (db : Db) {db' : Db} → require_rows rows db ≡ ok (tt, db') → db' ≡ db
require_rows_same [] db e = absurd (ground arith)
require_rows_same (l ∷ rows) db e = ground arith

pub quote_of-store :
    (c : Circumstances) (db : Db) (address : Address) (store : Store) (rows : List Line)
    → (quote_of c db address store rows).store_id ≡ store.id
unfolding quote_of
quote_of-store c db address store rows = refl

pub cart_quote_lem :
    (c : Circumstances) (address_id : ℕ) (user : User) (db : Db) {quote : QuoteRead} {db' : Db}
    → cart_quote c address_id user db ≡ ok (quote, db')
    → Quoted c address_id user db quote
unfolding cart_quote
cart_quote_lem c address_id user db {quote} {db'} e =
    elim (Option-cases (own_address user (get address_key address_id db.addresses))) [
      | inl absent ↦ absurd (ground arith)
      | inr (address, own) ↦
          elim (Option-cases (cart_with_store (find_by (cart_of user.id) db.carts))) [
            | inl absent ↦ absurd (ground arith)
            | inr ((cart, store_id), found) ↦
                elim (Option-cases (trading db (get store_key store_id db.stores))) [
                  | inl shut ↦ absurd (ground arith)
                  | inr (store, here) ↦
                      let rows = quote_rows db (select (in_cart cart.id) db.cart_items) in
                      elim (Result-cases (require_rows rows db)) [
                        | inr (x, bad) ↦ absurd (ground arith)
                        | inl (w, db1, good) ↦
                            let same = require_rows_same rows db {db' = db1} good in
                            let answer : quote ≡ quote_of c db address store rows = ground arith in
                            let stored =
                              get-key store_key store_id db.stores store
                                (trading_lem db (get store_key store_id db.stores) here) in
                            let key : quote.store_id ≡ store_id =
                              ground (arith, quote_of-store c db address store rows) in
                            record {
                              address = address;
                              own = own;
                              cart = cart;
                              has_cart = ground arith;
                              shop = store;
                              trades = ground arith;
                              has_rows = ground arith;
                              is_quote = answer;
                            }
                      ]
                ]
          ]
    ]

pub ready_serves :
    (c : Circumstances) (db : Db) (address : Address) (store : Store) (rows : List Line)
    → (quote_of c db address store rows).checkout_ready ≡ true
    → (require_serviceable c address store db ≡ ok (tt, db))
      × (inventory_is_valid store.id rows ≡ true)
unfolding quote_of is_serviceable require_serviceable
ready_serves c db address store rows h = elim (Option-cases store.service_area_id) [
  | inl unknown ↦ absurd (ground arith)
  | inr (area_id, known) ↦ elim (Option-cases (address_point db address)) [
    | inl nowhere ↦ absurd (ground arith)
    | inr (at, here) ↦ ground arith
  ]
]

pub quote_of-amounts :
    (c : Circumstances) (db : Db) (address : Address) (store : Store) (rows : List Line)
    → let quote = quote_of c db address store rows in
      (quote.subtotal ≡ subtotal_of rows)
      × (quote.delivery_fee ≡ resolve_delivery_fee c.default_fee store db)
      × (quote.total ≡ quote.subtotal + quote.delivery_fee)
unfolding quote_of order_total
quote_of-amounts c db address store rows = (refl, refl, refl)
