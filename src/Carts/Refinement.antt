-- ===== src/Carts/Refinement.antt =====
-- The handlers of the cart and the checkout implement the operations on the map of quantities:
-- backend/app/api/v1/routes/orders.py and checkout.py.
use ai_powered_market.Carts.{
  CartItemUpsert, CartRead, add_cart_item, cart_payload, clear_cart, get_or_create_cart,
  new_cart_item, remove_cart_item, same_line, set_item,
}
use ai_powered_market.Carts.Contents.{
  Contents, contents, nothing, quantity_of, set_quantity, without,
}
use ai_powered_market.Carts.Homes.{AreAtHome}
use ai_powered_market.Carts.Opening.{HasCarts, get_or_create_cart_lem}
use ai_powered_market.Carts.Shopping.{add_cart_item_lem}
use ai_powered_market.Carts.Steps.{CartStep, adds, buys, clears, removes}
use ai_powered_market.Checkout.{Circumstances, cart_of, in_cart}
use ai_powered_market.Checkout.Outcome.{NewOrder, SameOrder, safe_checkout_lem}
use ai_powered_market.Checkout.Placing.{CheckoutRequest, safe_checkout}
use ai_powered_market.Model.Db.{Db}
use ai_powered_market.Model.Keys.{cart_item_key, cart_key, listing_key}
use ai_powered_market.Model.Market.{User}
use ai_powered_market.Model.Orders.{Cart, CartItem, Order}
use ai_powered_market.Prelude.{
  Bool, Bool-cases, IsKeyed, List, Option, Option-cases, String, [], ap, arith, false, find_by,
  find_by-insert-none, find_by-put_other, find_by-put_same, find_by_passes, found_get, get-key, inl,
  inr, insert, nat_eq, none, not, put, refl, select, some, subst, sym, true, ℕ, ◌==◌, ◌∷◌, ◌≡◌, ◌≤◌,
  ◌⊎◌,
}
use ai_powered_market.Refunds.{keyed}
use ai_powered_market.Session.{Result-cases, ok}

find_by-insert_other :
    (p : CartItem → Bool) (i : CartItem) (items : List CartItem)
    → p i ≡ false
    → find_by p (insert i items) ≡ find_by p items
unfolding find_by insert
find_by-insert_other p i [] h = ground arith
find_by-insert_other p i (j ∷ items) h = ground (arith, find_by-insert_other p i items)

-- A deletion of other rows.
find_by-select :
    (p q : CartItem → Bool) (items : List CartItem)
    → ((i : CartItem) → p i ≡ true → q i ≡ true)
    → find_by p (select q items) ≡ find_by p items
unfolding find_by select
find_by-select p q [] h = refl
find_by-select p q (i ∷ items) h = ground (arith, find_by-select p q items h, h i)

find_by-select-none :
    (p q : CartItem → Bool) (items : List CartItem)
    → ((i : CartItem) → p i ≡ true → q i ≡ false)
    → find_by p (select q items) ≡ none
unfolding find_by select
find_by-select-none p q [] h = refl
find_by-select-none p q (i ∷ items) h = ground (arith, find_by-select-none p q items h, h i)

-- The user's cart, after its store is written.
still_found :
    (user_id : ℕ) (cart : Cart) (s : Option ℕ) (carts : List Cart)
    → IsKeyed cart_key carts
    → find_by (cart_of user_id) carts ≡ some cart
    → find_by (cart_of user_id) (put cart_key (record cart { store_id = s }) carts)
      ≡ some (record cart { store_id = s })
still_found user_id cart s carts k found =
    let passes = find_by_passes (cart_of user_id) carts cart found in
    find_by-put_same cart_key (cart_of user_id) cart (record cart { store_id = s }) carts k found
      refl (ground arith)

set_item_contents :
    (cart_id k n l : ℕ) (db : Db) {db' : Db}
    → IsKeyed cart_item_key db.cart_items
    → set_item cart_id k n (find_by (same_line cart_id k) db.cart_items) db ≡ ok (tt, db')
    → (db'.carts ≡ db.carts)
      × (quantity_of (find_by (same_line cart_id l) db'.cart_items)
          ≡ set_quantity k n (λ x. quantity_of (find_by (same_line cart_id x) db.cart_items)) l)
set_item_contents cart_id k n l db {db'} keyed e =
    elim (Option-cases (find_by (same_line cart_id k) db.cart_items)) [
      | inl absent ↦
          let row = new_cart_item db.next_id cart_id k n in
          ground (
            arith,
            find_by-insert-none (same_line cart_id k) row db.cart_items,
            find_by-insert_other (same_line cart_id l) row db.cart_items,
          )
      | inr (i, found) ↦
          let row = record i { quantity = n } in
          let passes = find_by_passes (same_line cart_id k) db.cart_items i found in
          let stored = found_get cart_item_key (same_line cart_id k) i db.cart_items keyed found in
          ground (
            arith,
            find_by-put_same cart_item_key (same_line cart_id k) i row db.cart_items keyed found,
            find_by-put_other cart_item_key (same_line cart_id l) i row db.cart_items keyed stored,
          )
    ]

add_cart_item-contents :
    (payload : CartItemUpsert) (user : User) (db : Db) {r : CartRead} {db' : Db}
    → HasCarts db
    → AreAtHome db
    → IsKeyed cart_item_key db.cart_items
    → add_cart_item payload user db ≡ ok (r, db')
    → (l : ℕ)
    → contents user.id db' l
      ≡ set_quantity payload.store_product_id payload.quantity (contents user.id db) l
add_cart_item-contents payload user db {r} {db'} valid home keyed e l =
    let a = add_cart_item_lem payload user db {r = r} {db' = db'} e in
    let o = get_or_create_cart_lem user.id db {cart = a.cart} {db' = a.db1} valid home a.opened in
    let key = get-key listing_key payload.store_product_id db.listings a.listing a.is_listed in
    let row = record a.cart { store_id = some a.listing.store_id } in
    let db2 = record a.db1 { carts = put cart_key row a.db1.carts } in
    let keyed2 = subst (IsKeyed cart_item_key) (sym o.same_items) keyed in
    let (carts, items) =
      set_item_contents a.cart.id a.listing.id payload.quantity l db2 {db' = db'} keyed2
        a.items_set in
    let found = still_found user.id a.cart (some a.listing.store_id) a.db1.carts o.keyed o.found in
    ground (arith, o.same_items, o.same_contents l)

remove_cart_item-contents :
    (k : ℕ) (user : User) (db : Db) {r : CartRead} {db' : Db}
    → HasCarts db
    → AreAtHome db
    → remove_cart_item k user db ≡ ok (r, db')
    → (l : ℕ) → contents user.id db' l ≡ without k (contents user.id db) l
unfolding remove_cart_item cart_payload
remove_cart_item-contents k user db {r} {db'} valid home e l =
    elim (Result-cases (get_or_create_cart user.id db)) [
      | inr (x, failed_to) ↦ absurd (ground arith)
      | inl (cart, db1, was_opened) ↦
          let o =
            get_or_create_cart_lem user.id db {cart = cart} {db' = db1} valid home was_opened in
          let q = λ (i : CartItem). not (same_line cart.id k i) in
          let found = still_found user.id cart none db1.carts o.keyed o.found in
          let others = find_by-select (same_line cart.id l) q db1.cart_items in
          let these =
            find_by-select-none (same_line cart.id k) q db1.cart_items (λ i h. ground arith) in
          let left : quantity_of (find_by (same_line cart.id l) (select q db1.cart_items))
              ≡ without k (contents user.id db) l =
            elim (Bool-cases (l == k)) [
              | inl same ↦ ground arith
              | inr differs ↦
                  ground (arith, others (λ i h. ground arith), o.same_items, o.same_contents l)
            ] in
          elim (Option-cases (find_by (in_cart cart.id) (select q db1.cart_items))) [
            | inl gone ↦ ground arith
            | inr (i, stays) ↦ ground (arith, o.found)
          ]
    ]

clear_cart-contents :
    (user : User) (db : Db) {r : CartRead} {db' : Db}
    → HasCarts db
    → AreAtHome db
    → clear_cart user db ≡ ok (r, db')
    → (l : ℕ) → contents user.id db' l ≡ nothing l
unfolding clear_cart cart_payload
clear_cart-contents user db {r} {db'} valid home e l =
    elim (Result-cases (get_or_create_cart user.id db)) [
      | inr (x, failed_to) ↦ absurd (ground arith)
      | inl (cart, db1, was_opened) ↦
          let o =
            get_or_create_cart_lem user.id db {cart = cart} {db' = db1} valid home was_opened in
          let q = λ (i : CartItem). not (in_cart cart.id i) in
          let found = still_found user.id cart none db1.carts o.keyed o.found in
          let gone =
            find_by-select-none (same_line cart.id l) q db1.cart_items (λ i h. ground arith) in
          ground arith
    ]

-- What the specification asks of each step, operation by operation, of the cart's map before and after.
abbrev pub Refines :
    (user : User) (db db' : Db) → CartStep user db db' → Contents → Contents → Type 0
Refines user db db' (adds payload r e) m m' =
    (1 ≤ payload.quantity)
    × (payload.quantity ≤ 99)
    × ((l : ℕ) → m' l ≡ set_quantity payload.store_product_id payload.quantity m l)
Refines user db db' (removes k r e) m m' = (l : ℕ) → m' l ≡ without k m l
Refines user db db' (clears r e) m m' = (l : ℕ) → m' l ≡ nothing l
Refines user db db' (buys c number payload order e) m m' =
    (SameOrder payload user db order db' × ((l : ℕ) → m' l ≡ m l))
    ⊎ (NewOrder c number payload user db order db' × ((l : ℕ) → m' l ≡ nothing l))

safe_checkout-contents :
    (c : Circumstances) (number : String) (payload : CheckoutRequest) (user : User) (db : Db)
    {order : Order} {db' : Db}
    → IsKeyed cart_key db.carts
    → safe_checkout c number payload user db ≡ ok (order, db')
    → (SameOrder payload user db order db'
        × ((l : ℕ) → contents user.id db' l ≡ contents user.id db l))
      ⊎ (NewOrder c number payload user db order db'
          × ((l : ℕ) → contents user.id db' l ≡ nothing l))
safe_checkout-contents c number payload user db {order} {db'} k e =
    elim (safe_checkout_lem c number payload user db {order = order} {db' = db'} e) [
      | inl again ↦ inl (again, (λ l. ap (λ (x : Db). contents user.id x l) again.unchanged))
      | inr made ↦
          let cart = made.basket.cart in
          let p = made.placed in
          let q = λ (i : CartItem). not (in_cart cart.id i) in
          let found = still_found user.id cart none db.carts k made.filled.has_cart in
          inr (
            made,
            (λ l. ground (
              arith,
              p.cart_forgets,
              p.cart_is_empty,
              find_by-select-none (same_line cart.id l) q db.cart_items (λ i h. ground arith),
            )),
          )
    ]

-- The cart's handlers and the checkout implement a finite map, each its own operation: seen as the quantities of the
-- user's cart by listing, an addition sets the quantity of its listing, from 1 to 99, a removal drops its listing,
-- clearing empties the map, and so does a checkout that makes an order; one that repeats an order leaves the map.
pub CartStep-Refines :
    (user : User) (db : Db) {db' : Db} (step : CartStep user db db')
    → HasCarts db
    → AreAtHome db
    → IsKeyed cart_item_key db.cart_items
    → Refines user db db' step (contents user.id db) (contents user.id db')
CartStep-Refines user db {db'} (adds payload r e) valid home keyed =
    let a = add_cart_item_lem payload user db {r = r} {db' = db'} e in
    (
      a.some_units,
      a.few,
      add_cart_item-contents payload user db {r = r} {db' = db'} valid home keyed e,
    )
CartStep-Refines user db {db'} (removes k r e) valid home keyed =
    remove_cart_item-contents k user db {r = r} {db' = db'} valid home e
CartStep-Refines user db {db'} (clears r e) valid home keyed =
    clear_cart-contents user db {r = r} {db' = db'} valid home e
CartStep-Refines user db {db'} (buys c number payload order e) valid home keyed =
    safe_checkout-contents c number payload user db {order = order} {db' = db'} valid.0 e
