-- ===== src/Carts/Homes.antt =====
-- Each item of a cart comes from the cart's store: backend/app/api/v1/routes/orders.py allows one store for a cart.
use ai_powered_market.Carts.{is_elsewhere}
use ai_powered_market.Checkout.{in_cart}
use ai_powered_market.Model.Db.{Db}
use ai_powered_market.Model.Keys.{cart_item_key, cart_key, listing_key}
use ai_powered_market.Model.Market.{StoreProduct}
use ai_powered_market.Model.Orders.{Cart, CartItem}
use ai_powered_market.Prelude.{
  Bool, List, Option, Option-cases, [], arith, false, find_by, find_by-insert-some, get, get-put_ne,
  get-put_self, has_key, inl, inr, insert, none, not, put, refl, select, some, ℕ, ◌∷◌, ◌≡◌, ◌≢◌,
}

abbrev cart_store : Option Cart → Option ℕ
cart_store none = none
cart_store (some c) = c.store_id

abbrev listing_store : Option StoreProduct → Option ℕ
listing_store none = none
listing_store (some l) = some l.store_id

-- The store of the item's cart, and the store of its listing.
abbrev pub home_of : List Cart → CartItem → Option ℕ
home_of carts i = cart_store (get cart_key i.cart_id carts)

abbrev pub origin_of : List StoreProduct → CartItem → Option ℕ
origin_of listings i = listing_store (get listing_key i.store_product_id listings)

abbrev pub IsAtHome : List Cart → List StoreProduct → CartItem → Type 0
IsAtHome carts listings i = (home_of carts i ≡ origin_of listings i) × (origin_of listings i ≢ none)

abbrev pub AllAtHome : List Cart → List StoreProduct → List CartItem → Type 0
AllAtHome carts listings [] = Unit
AllAtHome carts listings (i ∷ items) = IsAtHome carts listings i × AllAtHome carts listings items

-- The database's carts, listings and items.
abbrev pub AreAtHome : Db → Type 0
AreAtHome db = AllAtHome db.carts db.listings db.cart_items

module _ (ls : List StoreProduct) where
  -- A cart that takes the store it has, or takes one when it had none.
  pub take_store :
      (carts : List Cart) (cart : Cart) (s : ℕ) (items : List CartItem)
      → get cart_key cart.id carts ≡ some cart
      → is_elsewhere cart.store_id s ≡ false
      → AllAtHome carts ls items
      → AllAtHome (put cart_key (record cart { store_id = some s }) carts) ls items
  take_store carts cart s [] stored same h = tt
  take_store carts cart s (i ∷ items) stored same h =
      let row = record cart { store_id = some s } in
      ground (
        arith,
        take_store carts cart s items stored same h.1,
        get-put_self cart_key row cart carts stored,
        get-put_ne cart_key i.cart_id row carts,
      )

  pub insert_cart :
      (carts : List Cart) (cart : Cart) (items : List CartItem)
      → AllAtHome carts ls items
      → AllAtHome (insert cart carts) ls items
  unfolding get
  insert_cart carts cart [] h = tt
  insert_cart carts cart (i ∷ items) h = elim (Option-cases (get cart_key i.cart_id carts)) [
    | inl absent ↦ absurd (ground arith)
    | inr (c, found) ↦ ground (
      arith,
      insert_cart carts cart items h.1,
      find_by-insert-some (has_key cart_key i.cart_id) cart c carts,
    )
  ]

  pub select_items :
      (carts : List Cart) (p : CartItem → Bool) (items : List CartItem)
      → AllAtHome carts ls items
      → AllAtHome carts ls (select p items)
  unfolding select
  select_items carts p [] h = tt
  select_items carts p (i ∷ items) h = ground (arith, select_items carts p items h.1)

  pub insert_item :
      (carts : List Cart) (i : CartItem) (items : List CartItem)
      → IsAtHome carts ls i
      → AllAtHome carts ls items
      → AllAtHome carts ls (insert i items)
  unfolding insert
  insert_item carts i [] at h = ground arith
  insert_item carts i (j ∷ items) at h = ground (arith, insert_item carts i items at h.1)

  pub put_item :
      (carts : List Cart) (i : CartItem) (items : List CartItem)
      → IsAtHome carts ls i
      → AllAtHome carts ls items
      → AllAtHome carts ls (put cart_item_key i items)
  unfolding put
  put_item carts i [] at h = tt
  put_item carts i (j ∷ items) at h = ground (arith, put_item carts i items at h.1)

  -- A cart with no items left forgets its store.
  pub forget_store :
      (carts : List Cart) (cart : Cart) (items : List CartItem)
      → find_by (in_cart cart.id) items ≡ none
      → AllAtHome carts ls items
      → AllAtHome (put cart_key (record cart { store_id = none }) carts) ls items
  unfolding find_by
  forget_store carts cart [] gone h = tt
  forget_store carts cart (i ∷ items) gone h = ground (
    arith,
    forget_store carts cart items,
    get-put_ne cart_key i.cart_id (record cart { store_id = none }) carts,
  )

pub none_left :
    (cart_id : ℕ) (items : List CartItem)
    → find_by (in_cart cart_id) (select (λ (i : CartItem). not (in_cart cart_id i)) items) ≡ none
unfolding find_by select
none_left cart_id [] = refl
none_left cart_id (i ∷ items) = ground (arith, none_left cart_id items)
