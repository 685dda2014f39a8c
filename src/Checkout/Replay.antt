-- ===== src/Checkout/Replay.antt =====
-- A checkout sent again with its key: backend/app/api/v1/routes/checkout.py.
use ai_powered_market.Checkout.{
  Circumstances, existing_idempotent_order, has_order_key, new_order, subtotal_of,
}
use ai_powered_market.Checkout.Outcome.{safe_checkout_lem}
use ai_powered_market.Checkout.Placing.{CheckoutRequest, checked_key, safe_checkout}
use ai_powered_market.Checkout.Receipt.{fee_of}
use ai_powered_market.Model.Db.{Db}
use ai_powered_market.Model.Market.{Address, Store, User}
use ai_powered_market.Model.Orders.{Order}
use ai_powered_market.Model.Status.{PaymentMethod}
use ai_powered_market.Prelude.{
  Option, String, arith, false, find_by-insert-none, inl, inr, some, subst, true, ℕ, ◌≡◌,
}
use ai_powered_market.Prelude.Text.{is_empty, string_eq_refl, strip}
use ai_powered_market.Refunds.{keyed}
use ai_powered_market.Session.{ok}

checked_key_lem :
    (raw : String) (db : Db) {key : Option String}
    → checked_key (some raw) db ≡ ok (key, db)
    → (key ≡ some (strip raw)) × (is_empty (strip raw) ≡ false)
unfolding checked_key
checked_key_lem raw db e = ground arith

new_order-key :
    (id : ℕ) (number : String) (user : User) (store : Store) (address : Address) (raw : String)
    (method : PaymentMethod) (subtotal fee : ℕ)
    → has_order_key user.id raw
        (new_order id number user store address (some raw) method subtotal fee)
      ≡ true
unfolding new_order
new_order-key id number user store address raw method subtotal fee =
    ground (arith, string_eq_refl raw)

-- After a checkout with a key, the key finds the order.
key_finds :
    (c : Circumstances) (number : String) (payload : CheckoutRequest) (user : User) (raw : String)
    (db : Db) {order : Order} {db1 : Db}
    → payload.idempotency_key ≡ some raw
    → safe_checkout c number payload user db ≡ ok (order, db1)
    → existing_idempotent_order db1 user.id (some (strip raw)) ≡ some order
unfolding existing_idempotent_order
key_finds c number payload user raw db {order} {db1} keyed e =
    elim (safe_checkout_lem c number payload user db {order = order} {db' = db1} e) [
      | inl again ↦
          let checked : checked_key (some raw) db ≡ ok (again.key, db) =
            subst (λ k. checked_key k db ≡ ok (again.key, db)) keyed again.key_checked in
          ground (arith, checked_key_lem raw db checked, again.exists, again.unchanged)
      | inr made ↦
          let checked : checked_key (some raw) db ≡ ok (made.key, db) =
            subst (λ k. checked_key k db ≡ ok (made.key, db)) keyed made.key_checked in
          let b = made.basket in
          let key = checked_key_lem raw db checked in
          let bears =
            new_order-key db.next_id number user b.store made.address (strip raw)
              payload.payment_method (subtotal_of b.lines) (fee_of c b db) in
          ground (
            arith,
            key,
            bears,
            made.unknown,
            made.placed.all_orders,
            made.placed.is_new,
            find_by-insert-none (has_order_key user.id (strip raw)) order db.orders,
          )
    ]

-- A checkout that is sent again with the same key, whatever else it asks and whatever has changed in the time of
-- day, the settings and the service areas, returns the order that the first made and changes nothing.
pub safe_checkout_again :
    (c c' : Circumstances) (number number' : String) (payload payload' : CheckoutRequest)
    (user : User) (raw : String) (db : Db) {order : Order} {db1 : Db}
    → payload.idempotency_key ≡ some raw
    → payload'.idempotency_key ≡ some raw
    → safe_checkout c number payload user db ≡ ok (order, db1)
    → safe_checkout c' number' payload' user db1 ≡ ok (order, db1)
unfolding safe_checkout checked_key
safe_checkout_again c c' number number' payload payload' user raw db {order} {db1} keyed keyed' e =
    ground (arith, key_finds c number payload user raw db {order = order} {db1 = db1} keyed e)
