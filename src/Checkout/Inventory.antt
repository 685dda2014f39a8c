-- ===== src/Checkout/Inventory.antt =====
-- What placing the lines of an order does to the listings of its store.
use ai_powered_market.Checkout.{Line, sold}
use ai_powered_market.Model.Keys.{listing_key}
use ai_powered_market.Model.Market.{StoreProduct}
use ai_powered_market.Prelude.{
  Bool-cases, IsKeyed, List, [], arith, false, find_by, find_by-put_other, find_by-put_same,
  find_by_passes, get, get-put_ne, get-put_self, if◌then◌else◌, inl, inr, nat_eq, put, refl, some,
  subst, sym, ℕ, ◌+◌, ◌==◌, ◌∷◌, ◌≡◌, ◌≢◌, ◌≤◌,
}
use ai_powered_market.Stock.{lists}
use ai_powered_market.Stock.Restoration.{stock}

-- `uq_store_product`: a store's listing for a product is the only one.
abbrev pub IsListed : List StoreProduct → Type 0
IsListed ls =
    (l : StoreProduct)
    → get listing_key l.id ls ≡ some l
    → find_by (lists l.store_id l.product_id) ls ≡ some l

abbrev pub LacksId : ℕ → List Line → Type 0
LacksId id [] = Unit
LacksId id (line ∷ lines) = (line.listing.id ≢ id) × LacksId id lines

-- Lines as the validation makes them: stored listings of the store, each once, with enough units.
abbrev pub Sells : ℕ → List StoreProduct → List Line → Type 0
Sells s ls [] = Unit
Sells s ls (line ∷ lines) =
    (get listing_key line.listing.id ls ≡ some line.listing)
    × (line.listing.store_id ≡ s)
    × (line.cart_item.quantity ≤ line.listing.stock_quantity)
    × LacksId line.listing.id lines
    × Sells s ls lines

-- How many units of a product the lines take.
abbrev pub taken : ℕ → List Line → ℕ
taken product_id [] = 0
taken product_id (line ∷ lines) =
    let rest = taken product_id lines in
    if line.listing.product_id == product_id then line.cart_item.quantity + rest else rest

-- A listing may be written again, for the same store and product.
pub IsListed-put :
    (l row : StoreProduct) (ls : List StoreProduct)
    → IsKeyed listing_key ls
    → get listing_key l.id ls ≡ some l
    → IsListed ls
    → row.id ≡ l.id
    → row.store_id ≡ l.store_id
    → row.product_id ≡ l.product_id
    → IsListed (put listing_key row ls)
IsListed-put l row ls k stored u e s p m stored' =
    let t = lists m.store_id m.product_id in
    let at_row = subst (λ x. get listing_key x ls ≡ some l) (sym e) stored in
    elim (Bool-cases (m.id == l.id)) [
      | inl same ↦ ground (
        arith,
        get-put_self listing_key row l ls at_row,
        find_by-put_same listing_key t l row ls k,
        u l stored,
      )
      | inr differs ↦ elim (Bool-cases (t l)) [
        | inl clash ↦ ground (arith, get-put_ne listing_key m.id row ls, u m, u l stored)
        | inr apart ↦ ground (
          arith,
          get-put_ne listing_key m.id row ls,
          u m,
          find_by-put_other listing_key t l row ls k at_row apart,
        )
      ]
    ]

module _ (s n : ℕ) (l : StoreProduct) (ls : List StoreProduct) (k : IsKeyed listing_key ls)
    (stored : get listing_key l.id ls ≡ some l) (u : IsListed ls) (here : l.store_id ≡ s) where
  found_here : find_by (lists s l.product_id) ls ≡ some l
  found_here = subst (λ t. find_by (lists t l.product_id) ls ≡ some l) here (u l stored)

  pub find_by-sold_other :
      (t q : ℕ)
      → lists t q l ≡ false
      → find_by (lists t q) (put listing_key (sold l n) ls) ≡ find_by (lists t q) ls
  unfolding sold
  find_by-sold_other t q ne =
      find_by-put_other listing_key (lists t q) l (sold l n) ls k stored ne ne

  pub find_by-sold_self :
      find_by (lists s l.product_id) (put listing_key (sold l n) ls) ≡ some (sold l n)
  unfolding sold
  find_by-sold_self =
      find_by-put_same listing_key (lists s l.product_id) l (sold l n) ls k found_here refl
        (find_by_passes (lists s l.product_id) ls l found_here)

  pub stock-sold :
      (q : ℕ)
      → n ≤ l.stock_quantity
      → stock (find_by (lists s q) ls)
        ≡ stock (find_by (lists s q) (put listing_key (sold l n) ls))
          + (if l.product_id == q then n else 0)
  unfolding sold
  stock-sold q enough = ground (arith, found_here, find_by-sold_self, find_by-sold_other s q)

  pub get-sold_self : get listing_key l.id (put listing_key (sold l n) ls) ≡ some (sold l n)
  unfolding sold
  get-sold_self = get-put_self listing_key (sold l n) l ls stored

  pub get-sold_ne :
      (id : ℕ)
      → id ≢ l.id
      → get listing_key id (put listing_key (sold l n) ls) ≡ get listing_key id ls
  unfolding sold
  get-sold_ne id ne = get-put_ne listing_key id (sold l n) ls ne

  pub IsListed-sold : IsListed (put listing_key (sold l n) ls)
  unfolding sold
  IsListed-sold = IsListed-put l (sold l n) ls k stored u refl refl refl

  pub Sells-sold :
      (lines : List Line)
      → LacksId l.id lines
      → Sells s ls lines
      → Sells s (put listing_key (sold l n) ls) lines
  Sells-sold [] f h = tt
  Sells-sold (line ∷ lines) f h = ground (arith, get-sold_ne line.listing.id, Sells-sold lines f.1)
