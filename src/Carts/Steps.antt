-- ===== src/Carts/Steps.antt =====
-- All that changes a cart: the handlers of backend/app/api/v1/routes/orders.py, and the checkout of
-- backend/app/api/v1/routes/checkout.py.
use ai_powered_market.Carts.{CartItemUpsert, CartRead, add_cart_item, clear_cart, remove_cart_item}
use ai_powered_market.Carts.Homes.{
  AllAtHome, AreAtHome, forget_store, none_left, origin_of, select_items,
}
use ai_powered_market.Carts.Opening.{HasCarts}
use ai_powered_market.Carts.Shopping.{
  add_cart_item-AreAtHome, clear_cart-AreAtHome, remove_cart_item-AreAtHome,
}
use ai_powered_market.Checkout.{Circumstances, Line, in_cart, place_line, place_lines, sold}
use ai_powered_market.Checkout.Conservation.{IsOnce, Filled-Sells}
use ai_powered_market.Checkout.Inventory.{IsListed, Sells}
use ai_powered_market.Checkout.Outcome.{safe_checkout_lem}
use ai_powered_market.Checkout.Placing.{CheckoutRequest, safe_checkout}
use ai_powered_market.Checkout.Receipt.{with_order}
use ai_powered_market.Checkout.Sale.{place_line-Sells}
use ai_powered_market.Model.Db.{Db}
use ai_powered_market.Model.Keys.{cart_key, listing_key, product_key}
use ai_powered_market.Model.Market.{StoreProduct, User}
use ai_powered_market.Model.Orders.{Cart, CartItem, Order}
use ai_powered_market.Prelude.{
  IsKeyed, List, Option-cases, String, [], arith, get, get-put_ne, get-put_self, inl, inr, none,
  not, put, select, some, subst, sym, ℕ, ◌∙◌, ◌∷◌, ◌≡◌,
}
use ai_powered_market.Session.{Result-cases, bind_ok, ok}

-- A request that changes the user's cart and commits.
pub data CartStep (user : User) (db db' : Db) : Type 0 where
  adds :
      (payload : CartItemUpsert) (r : CartRead)
      → add_cart_item payload user db ≡ ok (r, db')
      → CartStep user db db'
  removes :
      (id : ℕ) (r : CartRead) → remove_cart_item id user db ≡ ok (r, db') → CartStep user db db'
  clears : (r : CartRead) → clear_cart user db ≡ ok (r, db') → CartStep user db db'
  buys :
      (c : Circumstances) (number : String) (payload : CheckoutRequest) (order : Order)
      → safe_checkout c number payload user db ≡ ok (order, db')
      → CartStep user db db'

place_line-origin :
    (s order_id : ℕ) (line : Line) (db : Db) (i : CartItem) {db' : Db}
    → get listing_key line.listing.id db.listings ≡ some line.listing
    → place_line order_id line db ≡ ok (tt, db')
    → origin_of db'.listings i ≡ origin_of db.listings i
unfolding place_line sold
place_line-origin s order_id line db i {db'} stored e =
    elim (Option-cases (get product_key line.listing.product_id db.products)) [
      | inl absent ↦ absurd (ground arith)
      | inr (product, found) ↦
          let row = sold line.listing line.cart_item.quantity in
          ground (
            arith,
            get-put_self listing_key row line.listing db.listings stored,
            get-put_ne listing_key i.store_product_id row db.listings,
          )
    ]

place_lines-origin :
    (s order_id : ℕ) (lines : List Line) (db : Db) (i : CartItem) {db' : Db}
    → IsKeyed listing_key db.listings
    → IsListed db.listings
    → Sells s db.listings lines
    → place_lines order_id lines db ≡ ok (tt, db')
    → origin_of db'.listings i ≡ origin_of db.listings i
unfolding place_lines
place_lines-origin s order_id [] db i k u h e = ground arith
place_lines-origin s order_id (line ∷ lines) db i {db'} k u h e =
    elim (Result-cases (place_line order_id line db)) [
      | inr (x, e1) ↦ absurd (ground arith)
      | inl (w, db1, e1) ↦
          let (k1, u1, h1) = place_line-Sells s order_id line lines db {db' = db1} k u h e1 in
          let one = place_line-origin s order_id line db i {db' = db1} h.0 e1 in
          let rest =
            place_lines-origin s order_id lines db1 i {db' = db'} k1 u1 h1
              (bind_ok (place_line order_id line) (λ _. place_lines order_id lines) db e1 e) in
          rest ∙ one
    ]

same_origins :
    (carts : List Cart) (ls ls' : List StoreProduct) (items : List CartItem)
    → ((i : CartItem) → origin_of ls' i ≡ origin_of ls i)
    → AllAtHome carts ls items
    → AllAtHome carts ls' items
same_origins carts ls ls' [] same h = tt
same_origins carts ls ls' (i ∷ items) same h =
    let this = same i in ground (arith, same_origins carts ls ls' items same h.1)

safe_checkout-AreAtHome :
    (c : Circumstances) (number : String) (payload : CheckoutRequest) (user : User) (db : Db)
    {order : Order} {db' : Db}
    → IsKeyed listing_key db.listings
    → IsListed db.listings
    → IsOnce db.cart_items
    → AreAtHome db
    → safe_checkout c number payload user db ≡ ok (order, db')
    → AreAtHome db'
safe_checkout-AreAtHome c number payload user db {order} {db'} k u once home e =
    elim (safe_checkout_lem c number payload user db {order = order} {db' = db'} e) [
      | inl again ↦ subst AreAtHome (sym again.unchanged) home
      | inr made ↦
          let p = made.placed in
          let b = made.basket in
          let s = b.store.id in
          let sells = Filled-Sells c made.address user db b k once made.filled in
          let db0 = with_order c number user made.address made.key payload.payment_method b db in
          let kept =
            select_items db.listings db.carts (λ (i : CartItem). not (in_cart b.cart.id i))
              db.cart_items home in
          let left = none_left b.cart.id db.cart_items in
          let items = select (λ (i : CartItem). not (in_cart b.cart.id i)) db.cart_items in
          let forgets = forget_store db.listings db.carts b.cart items left kept in
          let moved =
            same_origins (put cart_key (record b.cart { store_id = none }) db.carts) db.listings
              p.lines_db.listings items
              (λ i.
                place_lines-origin s order.id b.lines db0 i {db' = p.lines_db} k u sells
                  p.lines_placed)
              forgets in
          ground (arith, p.cart_forgets, p.cart_is_empty, p.last_listings)
    ]

-- Whatever a user does with the cart, by adding, removing, clearing and checking out, every item of every cart comes
-- from the store of its cart afterwards as before, in a database with its unique constraints.
pub CartStep-AreAtHome :
    (user : User) (db : Db) {db' : Db}
    → HasCarts db
    → IsKeyed listing_key db.listings
    → IsListed db.listings
    → IsOnce db.cart_items
    → AreAtHome db
    → CartStep user db db'
    → AreAtHome db'
CartStep-AreAtHome user db valid k u once home (adds payload r e) =
    add_cart_item-AreAtHome payload user db valid home e
CartStep-AreAtHome user db valid k u once home (removes id r e) =
    remove_cart_item-AreAtHome id user db valid home e
CartStep-AreAtHome user db valid k u once home (clears r e) =
    clear_cart-AreAtHome user db valid home e
CartStep-AreAtHome user db valid k u once home (buys c number payload order e) =
    safe_checkout-AreAtHome c number payload user db k u once home e
