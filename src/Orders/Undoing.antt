-- ===== src/Orders/Undoing.antt =====
-- A cancellation undoes what the checkout did to the stock: backend/app/api/v1/routes/checkout.py and
-- order_mutations.py together.
use ai_powered_market.Checkout.{Circumstances}
use ai_powered_market.Checkout.Bill.{IsFresh, is_made, made_stored}
use ai_powered_market.Checkout.Conservation.{IsOnce, safe_checkout_conserves}
use ai_powered_market.Checkout.Inventory.{IsListed}
use ai_powered_market.Checkout.Placing.{CheckoutRequest, safe_checkout}
use ai_powered_market.Checkout.Receipt.{with_order}
use ai_powered_market.Checkout.Sale.{place_lines-IsKeyed}
use ai_powered_market.Model.Db.{Db}
use ai_powered_market.Model.Keys.{listing_key}
use ai_powered_market.Model.Market.{User}
use ai_powered_market.Model.Money.{PaymentRefund}
use ai_powered_market.Model.Orders.{Order}
use ai_powered_market.Orders.{cancel_transaction}
use ai_powered_market.Orders.Cancellation.{cancel_transaction-listings}
use ai_powered_market.Prelude.{IsKeyed, Option, String, arith, subst, sym, ℕ, ◌≡◌}
use ai_powered_market.Session.{ok}
use ai_powered_market.Stock.Restoration.{restore_once_adds, stock_at}

-- A checkout that is cancelled leaves every product's stock in the store as it was before the checkout, in a database
-- that holds a listing once for a store and a product, and once in a cart, and in which no order or item has the key
-- that the new order gets.
pub cancel_undoes_checkout :
    (c : Circumstances) (number : String) (payload : CheckoutRequest) (user : User) (now q : ℕ)
    (db : Db) {order : Order} {db1 db2 : Db} {r : Option PaymentRefund × Order}
    → IsKeyed listing_key db.listings
    → IsListed db.listings
    → IsOnce db.cart_items
    → IsFresh db
    → order.id ≡ db.next_id
    → safe_checkout c number payload user db ≡ ok (order, db1)
    → cancel_transaction now order.id user db1 ≡ ok (r, db2)
    → stock_at order.store_id q db2 ≡ stock_at order.store_id q db
cancel_undoes_checkout c number payload user now q db {order} {db1} {db2} k u once fresh is_new made
      gone =
    let new = is_made c number payload user db {order = order} {db' = db1} fresh is_new made in
    let (stored, unstamped) =
      made_stored c number payload user db {order = order} {db' = db1} fresh is_new new in
    let (old, restored, at, found, given, same) =
      cancel_transaction-listings now order.id user db1 {db' = db2} gone in
    let same_order : old ≡ order = ground arith in
    let p = new.placed in
    let db0 = with_order c number user new.address new.key payload.payment_method new.basket db in
    let keyed_lines =
      place_lines-IsKeyed order.id new.basket.lines db0 {db' = p.lines_db} k p.lines_placed in
    let keyed1 = subst (IsKeyed listing_key) (sym p.last_listings) keyed_lines in
    ground (
      arith,
      safe_checkout_conserves c number payload user q db {order = order} {db' = db1} k u once made,
      restore_once_adds now q old db1 {order' = restored.1} {db' = at} {b = restored.0} keyed1,
    )
