-- ===== src/Stock/Restoration.antt =====
-- What the restoration of an order's stock does to the listings of its store.
use ai_powered_market.Model.Db.{Db}
use ai_powered_market.Model.Keys.{listing_key}
use ai_powered_market.Model.Market.{StoreProduct}
use ai_powered_market.Model.Orders.{Order, OrderItem}
use ai_powered_market.Prelude.{
  Bool, IsKeyed, List, Option, Option-cases, [], arith, false, find_by, find_by-put_other,
  find_by-put_same, find_by_passes, found_get, if◌then◌else◌, inl, inr, is_some, nat_eq, none, put,
  put-IsKeyed, refl, select, some, true, ℕ, ◌+◌, ◌<◌, ◌==◌, ◌∷◌, ◌≡◌, ◌≢◌,
}
use ai_powered_market.Session.{Result-cases, ok, save_order, store_order}
use ai_powered_market.Stock.{lists, restock, restore_items, restore_order_stock_once}

-- How many units of a product the items hold.
abbrev pub units : ℕ → List OrderItem → ℕ
units product_id [] = 0
units product_id (i ∷ items) =
    let rest = units product_id items in
    if i.product_id == product_id then i.quantity + rest else rest

-- The items of an order, as the service selects them.
abbrev pub items_of : Order → Db → List OrderItem
items_of order db = select (λ (i : OrderItem). i.order_id == order.id) db.order_items

abbrev pub stock : Option StoreProduct → ℕ
stock none = 0
stock (some l) = l.stock_quantity

abbrev pub on_sale : Option StoreProduct → Bool
on_sale none = false
on_sale (some l) = l.is_available

-- The units that a store has of a product.
abbrev pub stock_at : ℕ → ℕ → Db → ℕ
stock_at store_id product_id db = stock (find_by (lists store_id product_id) db.listings)

lists_other : (s p q : ℕ) (l : StoreProduct) → lists s p l ≡ true → p ≢ q → lists s q l ≡ false
lists_other s p q l h ne = ground arith

module _ (s p n : ℕ) (l : StoreProduct) (ls : List StoreProduct) (k : IsKeyed listing_key ls)
    (h : find_by (lists s p) ls ≡ some l) where
  find_by-restock_self : find_by (lists s p) (put listing_key (restock l n) ls) ≡ some (restock l n)
  unfolding restock
  find_by-restock_self =
      find_by-put_same listing_key (lists s p) l (restock l n) ls k h refl
        (find_by_passes (lists s p) ls l h)

  find_by-restock_other :
      (q : ℕ)
      → p ≢ q
      → find_by (lists s q) (put listing_key (restock l n) ls) ≡ find_by (lists s q) ls
  unfolding restock
  find_by-restock_other q ne =
      let other = lists_other s p q l (find_by_passes (lists s p) ls l h) ne in
      find_by-put_other listing_key (lists s q) l (restock l n) ls k
        (found_get listing_key (lists s p) l ls k h) other other

  stock-restock :
      (q : ℕ)
      → stock (find_by (lists s q) (put listing_key (restock l n) ls))
        ≡ stock (find_by (lists s q) ls) + (if p == q then n else 0)
  unfolding restock
  stock-restock q = ground (arith, find_by-restock_self, find_by-restock_other q)

restore_items_adds :
    (s q : ℕ) (items : List OrderItem) (db : Db) {db' : Db}
    → IsKeyed listing_key db.listings
    → restore_items s items db ≡ ok (tt, db')
    → stock_at s q db' ≡ stock_at s q db + units q items
unfolding restore_items
restore_items_adds s q [] db k h = ground arith
restore_items_adds s q (i ∷ items) db {db'} k h =
    elim (Option-cases (find_by (lists s i.product_id) db.listings)) [
      | inl absent ↦ ground arith
      | inr (l, found) ↦
          let listings = put listing_key (restock l i.quantity) db.listings in
          ground (
            arith,
            stock-restock s i.product_id i.quantity l db.listings k found q,
            restore_items_adds s q items (record db { listings = listings }) {db' = db'}
                (put-IsKeyed listing_key (restock l i.quantity) db.listings k),
          )
    ]

-- The whole service: a second call for the order that the first returned restores nothing and
-- changes nothing.
pub restore_once_idempotent :
    (now later : ℕ) (order : Order) (db : Db) {order' : Order} {db' : Db} {b : Bool}
    → restore_order_stock_once now order db ≡ ok ((b, order'), db')
    → restore_order_stock_once later order' db' ≡ ok ((false, order'), db')
unfolding restore_order_stock_once save_order
restore_once_idempotent now later order db h = ground arith

-- A first, successful call gives the store, of each product, exactly the units of the order's items, and
-- returns the order as marked; a call for an order that is marked changes nothing.
pub restore_once_adds :
    (now q : ℕ) (order : Order) (db : Db) {order' : Order} {db' : Db} {b : Bool}
    → IsKeyed listing_key db.listings
    → restore_order_stock_once now order db ≡ ok ((b, order'), db')
    → (order.stock_restored_at ≡ none
        → (b ≡ true)
          × (order' ≡ record order { stock_restored_at = some now })
          × (stock_at order.store_id q db'
              ≡ stock_at order.store_id q db + units q (items_of order db)))
      × (is_some order.stock_restored_at ≡ true → (b ≡ false) × (db' ≡ db))
unfolding restore_order_stock_once save_order store_order
restore_once_adds now q order db k h =
    elim (Result-cases (restore_items order.store_id (items_of order db) db)) [
      | inl (u, db1, e) ↦
          ground (arith, restore_items_adds order.store_id q (items_of order db) db {db' = db1} k)
      | inr (x, e) ↦ ground arith
    ]

-- Of a restoration that returns: the store has, of each product, the units of the order's items more, or, where
-- the order was marked before, as many as it had.
abbrev pub IsGivenBack : Order → Db → Db → Type 0
IsGivenBack order db db' =
    (q : ℕ)
    → stock_at order.store_id q db'
      ≡ stock_at order.store_id q db
        + (if is_some order.stock_restored_at then 0 else units q (items_of order db))

pub restore_once-IsGivenBack :
    (now : ℕ) (order : Order) (db db' : Db) {r : Bool × Order} {db1 : Db}
    → IsKeyed listing_key db.listings
    → restore_order_stock_once now order db ≡ ok (r, db1)
    → db'.listings ≡ db1.listings
    → IsGivenBack order db db'
restore_once-IsGivenBack now order db db' {r} {db1} k h same q =
    let (raised_by, left_alone) =
      restore_once_adds now q order db {order' = r.1} {db' = db1} {b = r.0} k h in
    elim (Option-cases order.stock_restored_at) [
      | inl unmarked ↦ ground (arith, (raised_by unmarked).2)
      | inr (at, marked) ↦ ground (arith, (left_alone (ground arith)).1)
    ]

on_sale-restock :
    (s p q n : ℕ) (l : StoreProduct) (ls : List StoreProduct)
    → IsKeyed listing_key ls
    → find_by (lists s p) ls ≡ some l
    → 0 < stock (find_by (lists s q) ls)
    → on_sale (find_by (lists s q) (put listing_key (restock l n) ls))
      ≡ on_sale (find_by (lists s q) ls)
unfolding restock
on_sale-restock s p q n l ls k h lt =
    ground (arith, find_by-restock_self s p n l ls k h, find_by-restock_other s p n l ls k h q)

-- A product of which the store still has units is not put on sale, nor taken off it, by a restoration:
-- only the automatic sold-out flag is undone.
pub restore_items-on_sale :
    (s q : ℕ) (items : List OrderItem) (db : Db) {db' : Db}
    → IsKeyed listing_key db.listings
    → restore_items s items db ≡ ok (tt, db')
    → 0 < stock_at s q db
    → on_sale (find_by (lists s q) db'.listings) ≡ on_sale (find_by (lists s q) db.listings)
unfolding restore_items
restore_items-on_sale s q [] db k h lt = ground arith
restore_items-on_sale s q (i ∷ items) db {db'} k h lt =
    elim (Option-cases (find_by (lists s i.product_id) db.listings)) [
      | inl absent ↦ ground arith
      | inr (l, found) ↦
          let listings = put listing_key (restock l i.quantity) db.listings in
          ground (
            arith,
            stock-restock s i.product_id i.quantity l db.listings k found q,
            on_sale-restock s i.product_id q i.quantity l db.listings k found,
            restore_items-on_sale s q items (record db { listings = listings }) {db' = db'}
                (put-IsKeyed listing_key (restock l i.quantity) db.listings k),
          )
    ]
