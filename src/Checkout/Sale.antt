-- ===== src/Checkout/Sale.antt =====
-- What the second loop of `safe_checkout` does to the stock, and which lines the first loop lets through.
use ai_powered_market.Checkout.{Line, can_sell, order_item, place_line, place_lines, sold, validate}
use ai_powered_market.Checkout.Inventory.{
  IsListed, IsListed-sold, Sells, Sells-sold, LacksId, stock-sold, taken,
}
use ai_powered_market.Checkout.Placing.{by_listing}
use ai_powered_market.Model.Db.{Db}
use ai_powered_market.Model.Keys.{listing_key, product_key}
use ai_powered_market.Model.Market.{StoreProduct}
use ai_powered_market.Model.Orders.{CartItem, OrderItem}
use ai_powered_market.Prelude.{
  IsKeyed, List, Option-cases, [], arith, get, get-key, if◌then◌else◌, inl, inr, insert, nat_eq,
  none, put, put-IsKeyed, select, some, subst, suc, sym, true, ℕ, ◌+◌, ◌==◌, ◌∷◌, ◌≡◌, ◌≤◌,
}
use ai_powered_market.Session.{Result-cases, bind_ok, ok}
use ai_powered_market.Stock.Restoration.{stock_at, units}

abbrev pub placed_items : ℕ → Db → List OrderItem
placed_items order_id db = select (λ (i : OrderItem). i.order_id == order_id) db.order_items

units-insert :
    (q order_id : ℕ) (i : OrderItem) (items : List OrderItem)
    → i.order_id ≡ order_id
    → units q (select (λ (j : OrderItem). j.order_id == order_id) (insert i items))
      ≡ units q (select (λ (j : OrderItem). j.order_id == order_id) items)
        + (if i.product_id == q then i.quantity else 0)
unfolding insert select
units-insert q order_id i [] e = ground arith
units-insert q order_id i (j ∷ items) e = ground (arith, units-insert q order_id i items)

-- One line, from the listing that is stored to the one that is sold.
place_line-takes :
    (s q order_id : ℕ) (line : Line) (db : Db) {db' : Db}
    → IsKeyed listing_key db.listings
    → IsListed db.listings
    → get listing_key line.listing.id db.listings ≡ some line.listing
    → line.listing.store_id ≡ s
    → line.cart_item.quantity ≤ line.listing.stock_quantity
    → place_line order_id line db ≡ ok (tt, db')
    → (db'.listings ≡ put listing_key (sold line.listing line.cart_item.quantity) db.listings)
      × (stock_at s q db
          ≡ stock_at s q db'
            + (if line.listing.product_id == q then line.cart_item.quantity else 0))
      × (units q (placed_items order_id db')
          ≡ units q (placed_items order_id db)
            + (if line.listing.product_id == q then line.cart_item.quantity else 0))
unfolding place_line order_item
place_line-takes s q order_id line db {db'} k u stored here enough e =
    elim (Option-cases (get product_key line.listing.product_id db.products)) [
      | inl absent ↦ absurd (ground arith)
      | inr (product, found) ↦
          let n = line.cart_item.quantity in
          ground (
            arith,
            get-key product_key line.listing.product_id db.products product found,
            stock-sold s n line.listing db.listings k stored u here q enough,
            units-insert q order_id (order_item db.next_id order_id product line) db.order_items,
          )
    ]

-- After the first line, the others are as the validation made them still.
pub place_line-Sells :
    (s order_id : ℕ) (line : Line) (lines : List Line) (db : Db) {db' : Db}
    → IsKeyed listing_key db.listings
    → IsListed db.listings
    → Sells s db.listings (line ∷ lines)
    → place_line order_id line db ≡ ok (tt, db')
    → IsKeyed listing_key db'.listings × IsListed db'.listings × Sells s db'.listings lines
place_line-Sells s order_id line lines db {db'} k u (stored, here, enough, lacks, h) e =
    let n = line.cart_item.quantity in
    let back = sym (place_line-takes s 0 order_id line db {db' = db'} k u stored here enough e).0 in
    (
      subst (IsKeyed listing_key) back
          (put-IsKeyed listing_key (sold line.listing n) db.listings k),
      subst IsListed back (IsListed-sold s n line.listing db.listings k stored u here),
      subst (λ ls. Sells s ls lines) back
          (Sells-sold s n line.listing db.listings k stored u here lines lacks h),
    )

-- Placing the lines takes from the store, of each product, exactly the units that the order's new items hold.
pub place_lines-takes :
    (s q order_id : ℕ) (lines : List Line) (db : Db) {db' : Db}
    → IsKeyed listing_key db.listings
    → IsListed db.listings
    → Sells s db.listings lines
    → place_lines order_id lines db ≡ ok (tt, db')
    → (stock_at s q db ≡ stock_at s q db' + taken q lines)
      × (units q (placed_items order_id db') ≡ units q (placed_items order_id db) + taken q lines)
unfolding place_lines
place_lines-takes s q order_id [] db k u h e = ground arith
place_lines-takes s q order_id (line ∷ lines) db {db'} k u h e =
    elim (Result-cases (place_line order_id line db)) [
      | inr (x, e1) ↦ absurd (ground arith)
      | inl (w, db1, e1) ↦
          let (k1, u1, h1) = place_line-Sells s order_id line lines db {db' = db1} k u h e1 in
          let one = place_line-takes s q order_id line db {db' = db1} k u h.0 h.1 h.2 e1 in
          let rest =
            place_lines-takes s q order_id lines db1 {db' = db'} k1 u1 h1
              (bind_ok (place_line order_id line) (λ _. place_lines order_id lines) db e1 e) in
          ground (arith, one, rest)
    ]

-- What the sale of lines leaves alone.
pub record OnlySells (db db' : Db) : Type 0 where
  pub same_orders : db'.orders ≡ db.orders
  pub same_deliveries : db'.deliveries ≡ db.deliveries
  pub same_carts : db'.carts ≡ db.carts
  pub same_cart_items : db'.cart_items ≡ db.cart_items
  pub same_merchants : db'.merchants ≡ db.merchants
  pub same_transitions : db'.transitions ≡ db.transitions

place_line_only :
    (order_id : ℕ) (line : Line) (db : Db) {db' : Db}
    → place_line order_id line db ≡ ok (tt, db')
    → OnlySells db db'
unfolding place_line
place_line_only order_id line db {db'} e =
    elim (Option-cases (get product_key line.listing.product_id db.products)) [
      | inl absent ↦ absurd (ground arith)
      | inr (product, found) ↦ ground arith
    ]

pub place_lines_only :
    (order_id : ℕ) (lines : List Line) (db : Db) {db' : Db}
    → place_lines order_id lines db ≡ ok (tt, db')
    → OnlySells db db'
unfolding place_lines
place_lines_only order_id [] db e = ground arith
place_lines_only order_id (line ∷ lines) db {db'} e =
    elim (Result-cases (place_line order_id line db)) [
      | inr (x, e1) ↦ absurd (ground arith)
      | inl (w, db1, e1) ↦
          let rest = bind_ok (place_line order_id line) (λ _. place_lines order_id lines) db e1 e in
          let one = place_line_only order_id line db {db' = db1} e1 in
          let more = place_lines_only order_id lines db1 {db' = db'} rest in ground arith
    ]

pub place_lines-IsKeyed :
    (order_id : ℕ) (lines : List Line) (db : Db) {db' : Db}
    → IsKeyed listing_key db.listings
    → place_lines order_id lines db ≡ ok (tt, db')
    → IsKeyed listing_key db'.listings
unfolding place_lines place_line
place_lines-IsKeyed order_id [] db k e = ground arith
place_lines-IsKeyed order_id (line ∷ lines) db {db'} k e =
    elim (Option-cases (get product_key line.listing.product_id db.products)) [
      | inl absent ↦ absurd (ground arith)
      | inr (product, found) ↦
          let row = sold line.listing line.cart_item.quantity in
          let db1 = record db {
            next_id = suc db.next_id;
            order_items = insert (order_item db.next_id order_id product line) db.order_items;
            listings = put listing_key row db.listings;
          } in
          place_lines-IsKeyed order_id lines db1 {db' = db'}
            (put-IsKeyed listing_key row db.listings k) (ground arith)
    ]

-- What the first loop has checked, of its first line.
pub record LinePasses (s : ℕ) (locked_listings : List StoreProduct) (item : CartItem)
    (items : List CartItem) (lines : List Line) : Type 0 where
  pub listing : StoreProduct
  pub rest : List Line
  pub is_locked : get listing_key item.store_product_id locked_listings ≡ some listing
  pub sells : can_sell s item listing ≡ true
  pub rest_passes : validate s locked_listings items ≡ some rest
  pub are_lines : lines ≡ record { cart_item = item; listing = listing } ∷ rest

pub validate-LinePasses :
    (s : ℕ) (locked_listings : List StoreProduct) (item : CartItem) (items : List CartItem)
    {lines : List Line}
    → validate s locked_listings (item ∷ items) ≡ some lines
    → LinePasses s locked_listings item items lines
unfolding validate
validate-LinePasses s locked_listings item items {lines} e =
    elim (Option-cases (get listing_key item.store_product_id locked_listings)) [
      | inl absent ↦ absurd (ground arith)
      | inr (l, found) ↦ elim (Option-cases (validate s locked_listings items)) [
        | inl short ↦ absurd (ground arith)
        | inr (more, passed) ↦ record {
          listing = l;
          rest = more;
          is_locked = found;
          sells = ground arith;
          rest_passes = passed;
          are_lines = ground arith;
        }
      ]
    ]

validate-LacksId :
    (s id : ℕ) (locked_listings : List StoreProduct) (items : List CartItem) {lines : List Line}
    → validate s locked_listings items ≡ some lines
    → get by_listing id items ≡ none
    → LacksId id lines
unfolding validate get
validate-LacksId s id locked_listings [] {lines} e h =
    let no_lines : [] ≡ lines = ground arith in subst (LacksId id) no_lines tt
validate-LacksId s id locked_listings (item ∷ items) e h =
    let first = validate-LinePasses s locked_listings item items e in
    let more = validate-LacksId s id locked_listings items first.rest_passes (ground arith) in
    let key =
      get-key listing_key item.store_product_id locked_listings first.listing first.is_locked in
    subst (LacksId id) (sym first.are_lines) (ground arith, more)

-- The first loop lets through stored listings of the store only, each once and with enough units.
pub validate-Sells :
    (s : ℕ) (locked_listings ls : List StoreProduct) (items : List CartItem) {lines : List Line}
    → ((id : ℕ) (l : StoreProduct)
        → get listing_key id locked_listings ≡ some l
        → get listing_key id ls ≡ some l)
    → IsKeyed by_listing items
    → validate s locked_listings items ≡ some lines
    → Sells s ls lines
unfolding validate
validate-Sells s locked_listings ls [] {lines} sub k e =
    let no_lines : [] ≡ lines = ground arith in subst (Sells s ls) no_lines tt
validate-Sells s locked_listings ls (item ∷ items) sub k e =
    let first = validate-LinePasses s locked_listings item items e in
    let key =
      get-key listing_key item.store_product_id locked_listings first.listing first.is_locked in
    let stored = sub item.store_product_id first.listing first.is_locked in
    subst (Sells s ls) (sym first.are_lines) (
      ground arith,
      ground arith,
      ground arith,
      ground (arith, validate-LacksId s first.listing.id locked_listings items first.rest_passes),
      validate-Sells s locked_listings ls items sub k.1 first.rest_passes,
    )
