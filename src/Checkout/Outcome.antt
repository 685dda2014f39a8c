-- ===== src/Checkout/Outcome.antt =====
-- The two ways in which `safe_checkout` of backend/app/api/v1/routes/checkout.py returns an order.
use ai_powered_market.Checkout.{Circumstances, existing_idempotent_order, own_address}
use ai_powered_market.Checkout.Filling.{Filled, fill_basket_lem}
use ai_powered_market.Checkout.Placing.{
  Basket, CheckoutRequest, checked_key, checkout_cart, fill_basket, place_order, safe_checkout,
}
use ai_powered_market.Checkout.Receipt.{Placed, place_order_lem}
use ai_powered_market.Model.Db.{Db}
use ai_powered_market.Model.Keys.{address_key}
use ai_powered_market.Model.Market.{Address, User}
use ai_powered_market.Model.Orders.{Order}
use ai_powered_market.Prelude.{
  Option, Option-cases, String, arith, get, inl, inr, none, some, subst, ◌≡◌, ◌⊎◌,
}
use ai_powered_market.Session.{Result-cases, bind_ok, ok}

-- The key came back, or a basket was filled and placed.
pub record NewOrder (c : Circumstances) (number : String) (payload : CheckoutRequest) (user : User)
    (db : Db) (order : Order) (db' : Db) : Type 0 where
  pub address : Address
  pub own : own_address user (get address_key payload.address_id db.addresses) ≡ some address
  pub key : Option String
  pub key_checked : checked_key payload.idempotency_key db ≡ ok (key, db)
  pub unknown : existing_idempotent_order db user.id key ≡ none
  pub basket : Basket
  pub filled : Filled c address user db basket db
  pub placed : Placed c number user address key payload.payment_method basket db db' order

pub record SameOrder (payload : CheckoutRequest) (user : User) (db : Db) (order : Order) (db' : Db)
    : Type 0 where
  pub key : Option String
  pub key_checked : checked_key payload.idempotency_key db ≡ ok (key, db)
  pub exists : existing_idempotent_order db user.id key ≡ some order
  pub unchanged : db' ≡ db

pub checked_key_same :
    (raw : Option String) (db : Db) {key : Option String} {db' : Db}
    → checked_key raw db ≡ ok (key, db')
    → db' ≡ db
unfolding checked_key
checked_key_same none db e = ground arith
checked_key_same (some raw) db e = ground arith

module _ (c : Circumstances) (number : String) (payload : CheckoutRequest) (user : User)
    (db : Db) where
  fill_and_place :
      (address : Address) (key : Option String) {order : Order} {db' : Db}
      → own_address user (get address_key payload.address_id db.addresses) ≡ some address
      → checked_key payload.idempotency_key db ≡ ok (key, db)
      → existing_idempotent_order db user.id key ≡ none
      → checkout_cart c number payload user address key none db ≡ ok (order, db')
      → NewOrder c number payload user db order db'
  fill_and_place address key {order} {db'} own checked unknown e =
      elim (Result-cases (fill_basket c address user db)) [
        | inr (x, e1) ↦ absurd (ground arith)
        | inl (basket, db1, e1) ↦
            let facts = fill_basket_lem c address user db {basket = basket} {db' = db1} e1 in
            let rest =
              bind_ok (fill_basket c address user)
                (place_order c number user address key payload.payment_method) db e1 e in
            record {
              address = address;
              own = own;
              key = key;
              key_checked = checked;
              unknown = unknown;
              basket = basket;
              filled = subst (Filled c address user db basket) facts.same facts;
              placed = place_order_lem c number user address key payload.payment_method basket db (
                  subst
                    (λ at.
                      place_order c number user address key payload.payment_method basket at
                      ≡ ok (order, db'))
                    facts.same rest);
            }
      ]

  pub safe_checkout_lem :
      {order : Order} {db' : Db}
      → safe_checkout c number payload user db ≡ ok (order, db')
      → SameOrder payload user db order db' ⊎ NewOrder c number payload user db order db'
  unfolding safe_checkout
  safe_checkout_lem {order} {db'} e = elim (Result-cases (checked_key payload.idempotency_key db)) [
    | inr (x, e1) ↦ absurd (ground arith)
    | inl (key, db1, e1) ↦
        let same = checked_key_same payload.idempotency_key db e1 in
        let checked = subst (λ at. checked_key payload.idempotency_key db ≡ ok (key, at)) same e1 in
        elim (Option-cases (existing_idempotent_order db user.id key)) [
          | inr (o, found) ↦ inl (record {
            key = key;
            key_checked = checked;
            exists = ground arith;
            unchanged = ground arith;
          })
          | inl absent_key ↦
              elim (Option-cases
                (own_address user (get address_key payload.address_id db.addresses))) [
                  | inl absent ↦ absurd (ground arith)
                  | inr (address, own) ↦
                      let rest : checkout_cart c number payload user address key none db
                          ≡ ok (order, db') =
                        ground arith in
                      inr (fill_and_place address key own checked absent_key rest)
                ]
        ]
  ]
