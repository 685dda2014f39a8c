-- ===== src/Carts/Opening.antt =====
-- The cart that a handler of backend/app/api/v1/routes/orders.py opens, and an item that it writes.
use ai_powered_market.Carts.{fresh_cart, get_or_create_cart, new_cart_item, same_line, set_item}
use ai_powered_market.Carts.Contents.{contents, quantity_of}
use ai_powered_market.Carts.Homes.{
  AllAtHome, AreAtHome, IsAtHome, insert_cart, insert_item, put_item,
}
use ai_powered_market.Checkout.{cart_of}
use ai_powered_market.Model.Db.{Db}
use ai_powered_market.Model.Keys.{cart_item_key, cart_key}
use ai_powered_market.Model.Market.{StoreProduct}
use ai_powered_market.Model.Orders.{Cart, CartItem}
use ai_powered_market.Prelude.{
  IsKeyed, IsKeyed-insert, List, Option-cases, [], arith, find_by, find_by-insert-none,
  find_by_passes, found_get, get, has_key, inl, inr, insert, none, put, refl, some, subst, suc, sym,
  ℕ, ◌∷◌, ◌≡◌,
}
use ai_powered_market.Session.{ok}

-- Keys of carts are different and the next one is new.
abbrev pub HasCarts : Db → Type 0
HasCarts db = IsKeyed cart_key db.carts × (get cart_key db.next_id db.carts ≡ none)

pub record Opened (user_id : ℕ) (db : Db) (cart : Cart) (db' : Db) : Type 0 where
  pub at_home : AreAtHome db'
  pub stored : get cart_key cart.id db'.carts ≡ some cart
  pub of_user : cart.user_id ≡ user_id
  pub same_items : db'.cart_items ≡ db.cart_items
  pub same_listings : db'.listings ≡ db.listings
  pub found : find_by (cart_of user_id) db'.carts ≡ some cart
  pub keyed : IsKeyed cart_key db'.carts
  pub same_contents :
      (l : ℕ) → quantity_of (find_by (same_line cart.id l) db.cart_items) ≡ contents user_id db l

get-insert_last :
    (cart : Cart) (carts : List Cart)
    → get cart_key cart.id carts ≡ none
    → get cart_key cart.id (insert cart carts) ≡ some cart
unfolding get
get-insert_last cart carts h =
    ground (arith, find_by-insert-none (has_key cart_key cart.id) cart carts)

-- A cart that is not stored has no items.
no_items :
    (carts : List Cart) (ls : List StoreProduct) (items : List CartItem) (id l : ℕ)
    → get cart_key id carts ≡ none
    → AllAtHome carts ls items
    → find_by (same_line id l) items ≡ none
unfolding find_by
no_items carts ls [] id l absent h = refl
no_items carts ls (i ∷ items) id l absent h =
    ground (arith, no_items carts ls items id l absent h.1)

pub get_or_create_cart_lem :
    (user_id : ℕ) (db : Db) {cart : Cart} {db' : Db}
    → HasCarts db
    → AreAtHome db
    → get_or_create_cart user_id db ≡ ok (cart, db')
    → Opened user_id db cart db'
unfolding get_or_create_cart
get_or_create_cart_lem user_id db {cart} {db'} valid home e =
    elim (Option-cases (find_by (cart_of user_id) db.carts)) [
      | inr (c, found) ↦
          let stored = found_get cart_key (cart_of user_id) c db.carts valid.0 found in
          let passes = find_by_passes (cart_of user_id) db.carts c found in
          record {
            at_home = ground arith;
            stored = ground arith;
            of_user = ground arith;
            same_items = ground arith;
            same_listings = ground arith;
            found = ground arith;
            keyed = ground arith;
            same_contents = λ l. ground arith;
          }
      | inl absent ↦
          let new = fresh_cart db.next_id user_id in
          let added = insert_cart db.listings db.carts new db.cart_items home in
          let stored = get-insert_last new db.carts valid.1 in
          let same : db' ≡ record db { next_id = suc db.next_id; carts = insert new db.carts } =
            ground arith in
          record {
            at_home = subst AreAtHome (sym same) added;
            stored = ground arith;
            of_user = ground arith;
            same_items = ground arith;
            same_listings = ground arith;
            found = ground (arith, find_by-insert-none (cart_of user_id) new db.carts);
            keyed =
                subst (λ (x : Db). IsKeyed cart_key x.carts) (sym same)
                  (IsKeyed-insert cart_key new db.carts valid.0 valid.1);
            same_contents = λ l.
                ground
                  (arith, no_items db.carts db.listings db.cart_items db.next_id l valid.1 home);
          }
    ]

pub set_item_home :
    (cart_id listing_id quantity : ℕ) (db : Db) {db' : Db}
    → IsAtHome db.carts db.listings (new_cart_item 0 cart_id listing_id quantity)
    → AreAtHome db
    → set_item cart_id listing_id quantity (find_by (same_line cart_id listing_id) db.cart_items) db
      ≡ ok (tt, db')
    → AreAtHome db'
set_item_home cart_id listing_id quantity db {db'} at home e =
    elim (Option-cases (find_by (same_line cart_id listing_id) db.cart_items)) [
      | inl absent ↦
          let row = new_cart_item db.next_id cart_id listing_id quantity in
          let same : db'
              ≡ record db { next_id = suc db.next_id; cart_items = insert row db.cart_items } =
            ground arith in
          subst AreAtHome (sym same) (insert_item db.listings db.carts row db.cart_items at home)
      | inr (i, found) ↦
          let row = record i { quantity = quantity } in
          let same : db' ≡ record db { cart_items = put cart_item_key row db.cart_items } =
            ground arith in
          let is_line = find_by_passes (same_line cart_id listing_id) db.cart_items i found in
          let still : IsAtHome db.carts db.listings row = ground arith in
          subst AreAtHome (sym same) (put_item db.listings db.carts row db.cart_items still home)
    ]
