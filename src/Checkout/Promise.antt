-- ===== src/Checkout/Promise.antt =====
-- A quote of backend/app/api/v1/routes/checkout.py that calls the cart ready is kept by the checkout.
use ai_powered_market.Checkout.{
  Circumstances, Line, cart_of, cart_with_store, existing_idempotent_order, in_cart, new_order,
  order_item, place_line, place_lines, require_serviceable, sold, subtotal_of, trading,
}
use ai_powered_market.Checkout.Bill.{new_order-amounts}
use ai_powered_market.Checkout.Conservation.{IsOnce, Filled-Sells}
use ai_powered_market.Checkout.Filling.{cart_rows, fill_basket_lem}
use ai_powered_market.Checkout.Inventory.{Sells}
use ai_powered_market.Checkout.Locking.{AllListed, length-locked_for, validate-quote_rows}
use ai_powered_market.Checkout.Placing.{
  Basket, CheckoutRequest, add_delivery, add_order, by_listing, checked_key, empty_cart,
  fill_basket, place_order, require_some, safe_checkout,
}
use ai_powered_market.Checkout.Quote.{
  QuoteRead, cart_quote, inventory_is_valid, quote_rows, require_rows,
}
use ai_powered_market.Checkout.Quoting.{
  Quoted, cart_quote_lem, quote_of-amounts, quote_of-store, ready_serves,
}
use ai_powered_market.Checkout.Receipt.{fee_of, place_order_lem, with_order}
use ai_powered_market.Checkout.Sorting.{
  AllListed-select, AllListed-sort_by, subtotal_of-sort_by, valid-sort_by,
}
use ai_powered_market.Effects.{enqueue_notification}
use ai_powered_market.Model.Db.{Db}
use ai_powered_market.Model.Keys.{listing_key, merchant_key, product_key, store_key}
use ai_powered_market.Model.Market.{Address, Store, StoreProduct, User}
use ai_powered_market.Model.Orders.{Cart, CartItem, Order}
use ai_powered_market.Model.Status.{PaymentMethod}
use ai_powered_market.Prelude.{
  IsKeyed, IsKeyed-sort_by, List, Option, Option-cases, String, [], arith, find_by, get, inl, inr,
  insert, insert_by, none, put, refl, select, some, sort_by, subst, suc, true, ℕ, ◌∙◌, ◌∷◌, ◌≡◌,
  ◌≢◌,
}
use ai_powered_market.Session.{Result-cases, ok}

-- The foreign key of a listing.
abbrev pub AllStocked : Db → Type 0
AllStocked db =
    (l : StoreProduct)
    → get listing_key l.id db.listings ≡ some l
    → get product_key l.product_id db.products ≢ none

place_lines_succeeds :
    (s order_id : ℕ) (lines : List Line) (db before : Db)
    → AllStocked before
    → Sells s before.listings lines
    → db.products ≡ before.products
    → (db' : Db) × (place_lines order_id lines db ≡ ok (tt, db'))
unfolding place_lines place_line
place_lines_succeeds s order_id [] db before fk h same = (db, refl)
place_lines_succeeds s order_id (line ∷ lines) db before fk (stored, here, enough, lacks, h) same =
    elim (Option-cases (get product_key line.listing.product_id db.products)) [
      | inl absent ↦ absurd (ground (arith, fk line.listing stored))
      | inr (product, found) ↦
          let db1 = record db {
            next_id = suc db.next_id;
            order_items = insert (order_item db.next_id order_id product line) db.order_items;
            listings = put listing_key (sold line.listing line.cart_item.quantity) db.listings;
          } in
          let rest = place_lines_succeeds s order_id lines db1 before fk h same in
          (rest.0, ground (arith, rest.1))
    ]

place_order_succeeds :
    (c : Circumstances) (number : String) (user : User) (address : Address) (key : Option String)
    (method : PaymentMethod) (basket : Basket) (db : Db)
    → AllStocked db
    → Sells basket.store.id db.listings basket.lines
    → (order : Order) × (db' : Db) × (place_order c number user address key method basket db
        ≡ ok (order, db'))
unfolding place_order new_order add_order add_delivery empty_cart enqueue_notification
place_order_succeeds c number user address key method basket db fk h =
    let db0 = with_order c number user address key method basket db in
    let (db1, placed_lines) =
      place_lines_succeeds basket.store.id db.next_id basket.lines db0 db fk h refl in
    elim (Result-cases (place_order c number user address key method basket db)) [
      | inl (order, db', e) ↦ (order, db', e)
      | inr (x, e) ↦ elim (Option-cases (get merchant_key basket.store.merchant_id db1.merchants)) [
        | inl absent ↦ absurd (ground arith)
        | inr (m, found) ↦ absurd (ground arith)
      ]
    ]

insert_by-require_some :
    (i : CartItem) (items : List CartItem) (db : Db)
    → require_some (insert_by by_listing i items) db ≡ ok (tt, db)
unfolding insert_by
insert_by-require_some i [] db = refl
insert_by-require_some i (j ∷ items) db = ground arith

some_rows :
    (items : List CartItem) (db : Db)
    → require_rows (quote_rows db items) db ≡ ok (tt, db)
    → require_some (sort_by by_listing items) db ≡ ok (tt, db)
unfolding quote_rows sort_by
some_rows [] db h = absurd (ground arith)
some_rows (i ∷ items) db h = insert_by-require_some i (sort_by by_listing items) db

abbrev quoted_lines : Db → Cart → List Line
quoted_lines db cart = quote_rows db (cart_rows cart db)

module _ (c : Circumstances) (number : String) (payload : CheckoutRequest) (user : User) (db : Db)
    (k : IsKeyed listing_key db.listings) (once : IsOnce db.cart_items)
    (listed : AllListed db db.cart_items) (stocked : AllStocked db) where
  ready_basket :
      (address : Address) (cart : Cart) (store : Store)
      → cart_with_store (find_by (cart_of user.id) db.carts) ≡ some (cart, store.id)
      → trading db (get store_key store.id db.stores) ≡ some store
      → require_some (cart_rows cart db) db ≡ ok (tt, db)
      → require_serviceable c address store db ≡ ok (tt, db)
      → inventory_is_valid store.id (quoted_lines db cart) ≡ true
      → fill_basket c address user db
        ≡ ok (record { cart = cart; store = store; lines = quoted_lines db cart }, db)
  unfolding fill_basket
  ready_basket address cart store has_cart trades has_items serves valid =
      let rows = cart_rows cart db in
      let chosen = AllListed-select db (in_cart cart.id) db.cart_items listed in
      let all = AllListed-sort_by db (select (in_cart cart.id) db.cart_items) chosen in
      let keyed =
        IsKeyed-sort_by by_listing (select (in_cart cart.id) db.cart_items) (once cart.id) in
      ground (
        arith,
        length-locked_for db rows k keyed all,
        validate-quote_rows store.id db rows all valid,
      )

  -- The basket of a cart whose quote calls it ready.
  basket_of_quote :
      (quote : QuoteRead) (q : Quoted c payload.address_id user db quote)
      → quote.checkout_ready ≡ true
      → fill_basket c q.address user db
        ≡ ok (record { cart = q.cart; store = q.shop; lines = quoted_lines db q.cart }, db)
  basket_of_quote quote q can_go =
      let items = select (in_cart q.cart.id) db.cart_items in
      let rows = quote_rows db items in
      let key : quote.store_id ≡ q.shop.id =
        ground (arith, q.is_quote, quote_of-store c db q.address q.shop rows) in
      let (serves, valid) = ready_serves c db q.address q.shop rows (ground (arith, q.is_quote)) in
      ready_basket q.address q.cart q.shop
        (subst (λ s. cart_with_store (find_by (cart_of user.id) db.carts) ≡ some (q.cart, s)) key
          q.has_cart)
        (subst (λ s. trading db (get store_key s db.stores) ≡ some q.shop) key q.trades)
        (some_rows items db q.has_rows) serves (valid-sort_by db q.shop.id items ∙ valid)

  pub ready_checkout :
      (quote : QuoteRead) (q : Quoted c payload.address_id user db quote) {key : Option String}
      → quote.checkout_ready ≡ true
      → checked_key payload.idempotency_key db ≡ ok (key, db)
      → existing_idempotent_order db user.id key ≡ none
      → (order : Order) × (db' : Db) × (safe_checkout c number payload user db ≡ ok (order, db'))
        × (order.subtotal ≡ quote.subtotal)
        × (order.delivery_fee ≡ quote.delivery_fee)
        × (order.total ≡ quote.total)
  unfolding safe_checkout
  ready_checkout quote q {key} can_go checked unknown =
      let basket : Basket = record {
        cart = q.cart;
        store = q.shop;
        lines = quoted_lines db q.cart;
      } in
      let filled = basket_of_quote quote q can_go in
      let facts = fill_basket_lem c q.address user db {basket = basket} {db' = db} filled in
      let sells = Filled-Sells c q.address user db basket k once facts in
      let (order, db', e) =
        place_order_succeeds c number user q.address key payload.payment_method basket db stocked
          sells in
      let new =
        place_order_lem c number user q.address key payload.payment_method basket db {order = order}
          {db' = db'} e in
      let amounts =
        new_order-amounts db.next_id number user q.shop q.address key payload.payment_method
          (subtotal_of basket.lines) (fee_of c basket db) in
      let quoted =
        quote_of-amounts c db q.address q.shop
          (quote_rows db (select (in_cart q.cart.id) db.cart_items)) in
      let sum = subtotal_of-sort_by db (select (in_cart q.cart.id) db.cart_items) in
      (
        order,
        db',
        ground (arith, q.own),
        ground (arith, q.is_quote, new.is_new),
        ground (arith, q.is_quote, new.is_new),
        ground (arith, q.is_quote, new.is_new),
      )

-- A customer whose quote calls the cart ready, and who checks it out before anything changes, gets an order with
-- the subtotal, the delivery fee and the total of the quote: where the key of the request is sound and new,
-- and the database keeps its unique constraints and foreign keys on listings and items of carts.
pub quote_is_kept :
    (c : Circumstances) (number : String) (payload : CheckoutRequest) (user : User) (db : Db)
    {quote : QuoteRead} {read : Db} {key : Option String}
    → IsKeyed listing_key db.listings
    → IsOnce db.cart_items
    → AllListed db db.cart_items
    → AllStocked db
    → cart_quote c payload.address_id user db ≡ ok (quote, read)
    → quote.checkout_ready ≡ true
    → checked_key payload.idempotency_key db ≡ ok (key, db)
    → existing_idempotent_order db user.id key ≡ none
    → (order : Order) × (db' : Db) × (safe_checkout c number payload user db ≡ ok (order, db'))
      × (order.subtotal ≡ quote.subtotal)
      × (order.delivery_fee ≡ quote.delivery_fee)
      × (order.total ≡ quote.total)
quote_is_kept c number payload user db {quote} {read} {key} k once listed stocked quoted =
    ready_checkout c number payload user db k once listed stocked quote
      (cart_quote_lem c payload.address_id user db {quote = quote} {db' = read} quoted) {key = key}
