-- ===== src/Catalogue/Shelves.antt =====
-- Requests that write listings: backend/app/api/v1/routes/commerce.py, checkout.py, order_mutations.py and
-- delivery_operations.py.
use ai_powered_market.Catalogue.{StoreProductCreate, StoreProductUpdate}
use ai_powered_market.Catalogue.Listings.{
  AreListings, AreListings-put, IsNewListing, update_store_product-AreListings,
  upsert_store_product-AreListings,
}
use ai_powered_market.Catalogue.Shelf.{update_store_product, upsert_store_product}
use ai_powered_market.Checkout.{Circumstances, Line, place_line, place_lines}
use ai_powered_market.Checkout.Conservation.{Filled-Sells, IsOnce}
use ai_powered_market.Checkout.Inventory.{Sells}
use ai_powered_market.Checkout.Outcome.{safe_checkout_lem}
use ai_powered_market.Checkout.Placing.{CheckoutRequest, safe_checkout}
use ai_powered_market.Checkout.Receipt.{with_order}
use ai_powered_market.Checkout.Sale.{place_line-Sells}
use ai_powered_market.Deliveries.{return_to_store_transaction}
use ai_powered_market.Deliveries.Returns.{return_parts}
use ai_powered_market.Model.Db.{Db}
use ai_powered_market.Model.Keys.{listing_key}
use ai_powered_market.Model.Market.{StoreProduct, User}
use ai_powered_market.Model.Money.{PaymentRefund}
use ai_powered_market.Model.Orders.{Delivery, Order, OrderItem}
use ai_powered_market.Orders.{cancel_transaction}
use ai_powered_market.Orders.Cancellation.{cancel_transaction-listings}
use ai_powered_market.Prelude.{
  Bool, Bool-cases, List, Option, Option-cases, String, [], arith, find_by, found_get, inl, inr,
  is_some, put, refl, some, subst, sym, ℕ, ◌∷◌, ◌≡◌,
}
use ai_powered_market.Session.{Result-cases, bind_ok, ok, save_order, store_order_same}
use ai_powered_market.Stock.{lists, restock, restore_items, restore_order_stock_once}
use ai_powered_market.Stock.Restoration.{items_of}

place_lines-AreListings :
    (s order_id : ℕ) (lines : List Line) (db : Db) {db' : Db}
    → AreListings db.listings
    → Sells s db.listings lines
    → place_lines order_id lines db ≡ ok (tt, db')
    → AreListings db'.listings
unfolding place_lines
place_lines-AreListings s order_id [] db {db'} a h e =
    let same : db' ≡ db = ground arith in subst (λ (x : Db). AreListings x.listings) (sym same) a
place_lines-AreListings s order_id (line ∷ lines) db {db'} (k, u) h e =
    elim (Result-cases (place_line order_id line db)) [
      | inr (x, e1) ↦ absurd (ground arith)
      | inl (w, db1, e1) ↦
          let (k1, u1, h1) = place_line-Sells s order_id line lines db {db' = db1} k u h e1 in
          place_lines-AreListings s order_id lines db1 {db' = db'} (k1, u1) h1
            (bind_ok (place_line order_id line) (λ _. place_lines order_id lines) db e1 e)
    ]

safe_checkout-AreListings :
    (c : Circumstances) (number : String) (payload : CheckoutRequest) (user : User) (db : Db)
    {order : Order} {db' : Db}
    → AreListings db.listings
    → IsOnce db.cart_items
    → safe_checkout c number payload user db ≡ ok (order, db')
    → AreListings db'.listings
safe_checkout-AreListings c number payload user db {order} {db'} a once e =
    elim (safe_checkout_lem c number payload user db {order = order} {db' = db'} e) [
      | inl again ↦ subst (λ (x : Db). AreListings x.listings) (sym again.unchanged) a
      | inr made ↦
          let b = made.basket in
          let p = made.placed in
          let sells = Filled-Sells c made.address user db b a.0 once made.filled in
          let db0 = with_order c number user made.address made.key payload.payment_method b db in
          subst AreListings (sym p.last_listings) (
            place_lines-AreListings b.store.id order.id b.lines db0 {db' = p.lines_db} a sells
              p.lines_placed)
    ]

restore_items-AreListings :
    (s : ℕ) (items : List OrderItem) (db : Db) {db' : Db}
    → AreListings db.listings
    → restore_items s items db ≡ ok (tt, db')
    → AreListings db'.listings
unfolding restore_items restock
restore_items-AreListings s [] db {db'} a e =
    let same : db' ≡ db = ground arith in subst (λ (x : Db). AreListings x.listings) (sym same) a
restore_items-AreListings s (i ∷ items) db {db'} a e =
    elim (Option-cases (find_by (lists s i.product_id) db.listings)) [
      | inl gone ↦ absurd (ground arith)
      | inr (l, found) ↦
          let row = restock l i.quantity in
          let stored = found_get listing_key (lists s i.product_id) l db.listings a.0 found in
          let db1 = record db { listings = put listing_key row db.listings } in
          restore_items-AreListings s items db1 {db' = db'}
            (AreListings-put l row db.listings a stored refl refl refl) (ground arith)
    ]

restore_once-AreListings :
    (now : ℕ) (order : Order) (db : Db) {r : Bool × Order} {db' : Db}
    → AreListings db.listings
    → restore_order_stock_once now order db ≡ ok (r, db')
    → AreListings db'.listings
unfolding restore_order_stock_once save_order
restore_once-AreListings now order db {r} {db'} a e =
    elim (Bool-cases (is_some order.stock_restored_at)) [
      | inl before ↦
          let same : db' ≡ db = ground arith in
          subst (λ (x : Db). AreListings x.listings) (sym same) a
      | inr first ↦ elim (Result-cases (restore_items order.store_id (items_of order db) db)) [
        | inr (x, e1) ↦ absurd (ground arith)
        | inl (w, db1, e1) ↦
            let stamped = record order { stock_restored_at = some now } in
            let same : db'.listings ≡ db1.listings = ground (arith, store_order_same stamped db1) in
            subst AreListings (sym same)
              (restore_items-AreListings order.store_id (items_of order db) db {db' = db1} a e1)
      ]
    ]

-- A request that writes listings and commits. A product of the merchant's own name and the other cancellations are not among them.
pub data ShelfStep (db db' : Db) : Type 0 where
  upserts :
      (store_id : ℕ) (payload : StoreProductCreate) (user : User) (l : StoreProduct)
      → upsert_store_product store_id payload user db ≡ ok (l, db')
      → ShelfStep db db'
  patches :
      (store_id listing_id : ℕ) (payload : StoreProductUpdate) (user : User) (l : StoreProduct)
      → update_store_product store_id listing_id payload user db ≡ ok (l, db')
      → ShelfStep db db'
  sells :
      (c : Circumstances) (number : String) (payload : CheckoutRequest) (user : User)
      (order : Order)
      → safe_checkout c number payload user db ≡ ok (order, db')
      → ShelfStep db db'
  takes_back :
      (now order_id : ℕ) (user : User) (r : Option PaymentRefund × Order)
      → cancel_transaction now order_id user db ≡ ok (r, db')
      → ShelfStep db db'
  brings_back :
      (now : ℕ) (remarks : Option String) (user : User) (d : Delivery) (order : Order)
      (r : Option PaymentRefund × Order)
      → return_to_store_transaction now remarks user d order db ≡ ok (r, db')
      → ShelfStep db db'

-- The constraint that a store lists a product once, under keys of their own, outlives both handlers that write one listing
-- of a known product, what a checkout sells, what a customer's cancellation takes back, and what a failed delivery
-- brings back.
pub ShelfStep-AreListings :
    (db : Db) {db' : Db}
    → AreListings db.listings
    → IsNewListing db
    → IsOnce db.cart_items
    → ShelfStep db db'
    → AreListings db'.listings
ShelfStep-AreListings db a fresh once (upserts store_id payload user l e) =
    upsert_store_product-AreListings store_id payload user db a fresh e
ShelfStep-AreListings db a fresh once (patches store_id listing_id payload user l e) =
    update_store_product-AreListings store_id listing_id payload user db a e
ShelfStep-AreListings db a fresh once (sells c number payload user order e) =
    safe_checkout-AreListings c number payload user db a once e
ShelfStep-AreListings db {db'} a fresh once (takes_back now order_id user r e) =
    let (old, restored, at, found, given_back, same) =
      cancel_transaction-listings now order_id user db {db' = db'} e in
    subst AreListings (sym same)
      (restore_once-AreListings now old db {r = restored} {db' = at} a given_back)
ShelfStep-AreListings db {db'} a fresh once (brings_back now remarks user d order r e) =
    let (
      restored, db1, db2, db3, db4, refunding, settling, out, uncollected, given, orders2, entries2,
      voided_so, asked, orders', refunds', entries', same,
    ) =
      return_parts now remarks user d order db {r = r} {db' = db'} e in
    subst AreListings (sym same)
      (restore_once-AreListings now order db {r = restored} {db' = db1} a given)
