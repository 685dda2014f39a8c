-- ===== src/Carts/Shopping.antt =====
-- What the cart's handlers of backend/app/api/v1/routes/orders.py leave in the database.
use ai_powered_market.Carts.{
  CartItemUpsert, CartRead, add_cart_item, cart_payload, clear_cart, get_or_create_cart, in_stock,
  is_elsewhere, new_cart_item, remove_cart_item, same_line, set_item,
}
use ai_powered_market.Carts.Homes.{
  AreAtHome, IsAtHome, forget_store, none_left, select_items, take_store,
}
use ai_powered_market.Carts.Opening.{HasCarts, get_or_create_cart_lem, set_item_home}
use ai_powered_market.Checkout.{in_cart, trading}
use ai_powered_market.Model.Db.{Db}
use ai_powered_market.Model.Keys.{cart_item_key, cart_key, listing_key, store_key}
use ai_powered_market.Model.Market.{StoreProduct, User}
use ai_powered_market.Model.Orders.{Cart, CartItem}
use ai_powered_market.Prelude.{
  IsKeyed, List, Option, Option-cases, arith, false, find_by, find_by-insert-none, find_by-put_same,
  find_by_passes, get, get-key, get-put_self, inl, inr, none, not, put, refl, select, some, subst,
  sym, true, ℕ, ◌≡◌, ◌≤◌,
}
use ai_powered_market.Session.{Result-cases, ok}

in_stock_lem :
    (quantity : ℕ) (found : Option StoreProduct) {l : StoreProduct}
    → in_stock quantity found ≡ some l
    → (found ≡ some l) × (l.is_available ≡ true) × (quantity ≤ l.stock_quantity)
in_stock_lem quantity none e = absurd (ground arith)
in_stock_lem quantity (some l) e = ground arith

-- The parts of an addition that succeeds.
pub record Added (payload : CartItemUpsert) (user : User) (db : Db) (r : CartRead) (db' : Db)
    : Type 0 where
  pub listing : StoreProduct
  pub is_listed : get listing_key payload.store_product_id db.listings ≡ some listing
  pub on_sale : listing.is_available ≡ true
  pub enough : payload.quantity ≤ listing.stock_quantity
  pub few : payload.quantity ≤ 99
  pub some_units : 1 ≤ payload.quantity
  pub cart : Cart
  pub db1 : Db
  pub opened : get_or_create_cart user.id db ≡ ok (cart, db1)
  pub goes : is_elsewhere cart.store_id listing.store_id ≡ false
  pub items_set :
      let db2 = record db1 {
        carts = put cart_key (record cart { store_id = some listing.store_id }) db1.carts;
      } in
      set_item cart.id listing.id payload.quantity
        (find_by (same_line cart.id listing.id) db2.cart_items)
        db2
      ≡ ok (tt, db')
  pub of_cart : r.id ≡ cart.id

pub add_cart_item_lem :
    (payload : CartItemUpsert) (user : User) (db : Db) {r : CartRead} {db' : Db}
    → add_cart_item payload user db ≡ ok (r, db')
    → Added payload user db r db'
unfolding add_cart_item cart_payload
add_cart_item_lem payload user db {r} {db'} e =
    elim (Option-cases
      (in_stock payload.quantity (get listing_key payload.store_product_id db.listings))) [
        | inl absent ↦ absurd (ground arith)
        | inr (l, found) ↦ elim (Option-cases (trading db (get store_key l.store_id db.stores))) [
          | inl shut ↦ absurd (ground arith)
          | inr (store, here) ↦ elim (Result-cases (get_or_create_cart user.id db)) [
            | inr (x, failed_to) ↦ absurd (ground arith)
            | inl (cart, db1, opened) ↦
                let facts =
                  in_stock_lem payload.quantity
                    (get listing_key payload.store_product_id db.listings) found in
                let items = find_by (same_line cart.id l.id) db1.cart_items in
                let db2 = record db1 {
                  carts = put cart_key (record cart { store_id = some l.store_id }) db1.carts;
                } in
                elim (Result-cases (set_item cart.id l.id payload.quantity items db2)) [
                  | inr (x, failed_to) ↦ absurd (ground arith)
                  | inl (w, db3, was_set) ↦ record {
                    listing = l;
                    is_listed = ground arith;
                    on_sale = ground arith;
                    enough = ground arith;
                    few = ground arith;
                    some_units = ground arith;
                    cart = cart;
                    db1 = db1;
                    opened = ground arith;
                    goes = ground arith;
                    items_set = ground arith;
                    of_cart = ground arith;
                  }
                ]
          ]
        ]
      ]

same_line-put :
    (row i : CartItem) (cart_id listing_id : ℕ) (items : List CartItem)
    → IsKeyed cart_item_key items
    → find_by (same_line cart_id listing_id) items ≡ some i
    → row ≡ record i { quantity = row.quantity }
    → find_by (same_line cart_id listing_id) (put cart_item_key row items) ≡ some row
same_line-put row i cart_id listing_id items k found form =
    let passes = find_by_passes (same_line cart_id listing_id) items i found in
    find_by-put_same cart_item_key (same_line cart_id listing_id) i row items k found (ground arith)
      (ground arith)

same_line_self :
    (id cart_id listing_id quantity : ℕ)
    → same_line cart_id listing_id (new_cart_item id cart_id listing_id quantity) ≡ true
same_line_self id cart_id listing_id quantity = ground arith

-- An addition puts the asked number of units, from 1 to 99 and no more than the listing has, under the listing in
-- the cart, whether the listing was in the cart or not.
pub add_cart_item-sets :
    (payload : CartItemUpsert) (user : User) (db : Db) {r : CartRead} {db' : Db}
    → HasCarts db
    → AreAtHome db
    → IsKeyed cart_item_key db.cart_items
    → add_cart_item payload user db ≡ ok (r, db')
    → (i : CartItem) × (find_by (same_line r.id payload.store_product_id) db'.cart_items ≡ some i)
      × (i.quantity ≡ payload.quantity)
      × (1 ≤ i.quantity)
      × (i.quantity ≤ 99)
add_cart_item-sets payload user db {r} {db'} valid home k e =
    let a = add_cart_item_lem payload user db {r = r} {db' = db'} e in
    let o = get_or_create_cart_lem user.id db {cart = a.cart} {db' = a.db1} valid home a.opened in
    let key = get-key listing_key payload.store_product_id db.listings a.listing a.is_listed in
    let p = same_line a.cart.id a.listing.id in
    let n = payload.quantity in
    let few = a.few in
    let some_units = a.some_units in
    elim (Option-cases (find_by p a.db1.cart_items)) [
      | inl absent ↦
          let row = new_cart_item a.db1.next_id a.cart.id a.listing.id n in
          (
            row,
            ground (
              arith,
              a.items_set,
              a.of_cart,
              same_line_self a.db1.next_id a.cart.id a.listing.id n,
              find_by-insert-none p row a.db1.cart_items,
            ),
            refl,
            some_units,
            few,
          )
      | inr (i, found) ↦
          let row = record i { quantity = n } in
          (
            row,
            ground (
              arith,
              a.items_set,
              a.of_cart,
              o.same_items,
              same_line-put row i a.cart.id a.listing.id a.db1.cart_items,
            ),
            refl,
            some_units,
            few,
          )
    ]

-- No addition mixes stores in a cart: where each item came from its cart's store before, so it does after.
pub add_cart_item-AreAtHome :
    (payload : CartItemUpsert) (user : User) (db : Db) {r : CartRead} {db' : Db}
    → HasCarts db
    → AreAtHome db
    → add_cart_item payload user db ≡ ok (r, db')
    → AreAtHome db'
add_cart_item-AreAtHome payload user db {r} {db'} valid home e =
    let a = add_cart_item_lem payload user db {r = r} {db' = db'} e in
    let o = get_or_create_cart_lem user.id db {cart = a.cart} {db' = a.db1} valid home a.opened in
    let key = get-key listing_key payload.store_product_id db.listings a.listing a.is_listed in
    let row = record a.cart { store_id = some a.listing.store_id } in
    let db2 = record a.db1 { carts = put cart_key row a.db1.carts } in
    let taken_in =
      take_store a.db1.listings a.db1.carts a.cart a.listing.store_id a.db1.cart_items o.stored
        a.goes o.at_home in
    let at : IsAtHome db2.carts db2.listings
        (new_cart_item 0 a.cart.id a.listing.id payload.quantity) =
      ground (
        arith,
        o.same_listings,
        a.is_listed,
        get-put_self cart_key row a.cart a.db1.carts o.stored,
      ) in
    set_item_home a.cart.id a.listing.id payload.quantity db2 {db' = db'} at taken_in a.items_set

abbrev forgotten : Cart → List Cart → List Cart
forgotten cart carts = put cart_key (record cart { store_id = none }) carts

pub remove_cart_item-AreAtHome :
    (store_product_id : ℕ) (user : User) (db : Db) {r : CartRead} {db' : Db}
    → HasCarts db
    → AreAtHome db
    → remove_cart_item store_product_id user db ≡ ok (r, db')
    → AreAtHome db'
unfolding remove_cart_item cart_payload
remove_cart_item-AreAtHome store_product_id user db {r} {db'} valid home e =
    elim (Result-cases (get_or_create_cart user.id db)) [
      | inr (x, failed_to) ↦ absurd (ground arith)
      | inl (cart, db1, opened) ↦
          let o = get_or_create_cart_lem user.id db {cart = cart} {db' = db1} valid home opened in
          let p = λ (i : CartItem). not (same_line cart.id store_product_id i) in
          let kept = select_items db1.listings db1.carts p db1.cart_items o.at_home in
          elim (Option-cases (find_by (in_cart cart.id) (select p db1.cart_items))) [
            | inr (i, left) ↦
                subst AreAtHome
                  (sym (
                    let same : db' ≡ record db1 { cart_items = select p db1.cart_items } =
                      ground arith in
                    same))
                  kept
            | inl gone ↦
                let same : db' ≡ record db1 {
                  cart_items = select p db1.cart_items;
                  carts = forgotten cart db1.carts;
                } =
                  ground arith in
                subst AreAtHome (sym same)
                  (forget_store db1.listings db1.carts cart (select p db1.cart_items) gone kept)
          ]
    ]

pub clear_cart-AreAtHome :
    (user : User) (db : Db) {r : CartRead} {db' : Db}
    → HasCarts db
    → AreAtHome db
    → clear_cart user db ≡ ok (r, db')
    → AreAtHome db'
unfolding clear_cart cart_payload
clear_cart-AreAtHome user db {r} {db'} valid home e =
    elim (Result-cases (get_or_create_cart user.id db)) [
      | inr (x, failed_to) ↦ absurd (ground arith)
      | inl (cart, db1, opened) ↦
          let o = get_or_create_cart_lem user.id db {cart = cart} {db' = db1} valid home opened in
          let p = λ (i : CartItem). not (in_cart cart.id i) in
          let kept = select_items db1.listings db1.carts p db1.cart_items o.at_home in
          let same : db' ≡ record db1 {
            cart_items = select p db1.cart_items;
            carts = forgotten cart db1.carts;
          } =
            ground arith in
          subst AreAtHome (sym same) (
            forget_store db1.listings db1.carts cart (select p db1.cart_items)
              (none_left cart.id db1.cart_items) kept)
    ]
