-- ===== src/Checkout/Locking.antt =====
-- The listings that `safe_checkout` locks are all that its cart asks for.
use ai_powered_market.Checkout.{locked_for, validate, wanted_ids}
use ai_powered_market.Checkout.Placing.{by_listing}
use ai_powered_market.Checkout.Quote.{inventory_is_valid, quote_rows}
use ai_powered_market.Model.Db.{Db}
use ai_powered_market.Model.Keys.{listing_key}
use ai_powered_market.Model.Market.{StoreProduct}
use ai_powered_market.Model.Orders.{CartItem}
use ai_powered_market.Prelude.{
  Bool, IsKeyed, List, [], arith, contains, false, get, has_key, length, nat_eq, none, refl, select,
  some, true, ℕ, ◌+◌, ◌∷◌, ◌≡◌, ◌≢◌,
}

-- The foreign key of a cart's item.
abbrev pub AllListed : Db → List CartItem → Type 0
AllListed db [] = Unit
AllListed db (i ∷ items) =
    (get listing_key i.store_product_id db.listings ≢ none) × AllListed db items

abbrev AllIn : List ℕ → List CartItem → Type 0
AllIn ids [] = Unit
AllIn ids (i ∷ items) = (contains ids i.store_product_id ≡ true) × AllIn ids items

AllIn-more :
    (id : ℕ) (ids : List ℕ) (items : List CartItem) → AllIn ids items → AllIn (id ∷ ids) items
AllIn-more id ids [] h = tt
AllIn-more id ids (i ∷ items) h = ground (arith, AllIn-more id ids items h.1)

AllIn-wanted : (items : List CartItem) → AllIn (wanted_ids items) items
AllIn-wanted [] = tt
AllIn-wanted (i ∷ items) =
    ground (arith, AllIn-more i.store_product_id (wanted_ids items) items (AllIn-wanted items))

abbrev among : List ℕ → StoreProduct → Bool
among ids l = contains ids l.id

get-among :
    (ids : List ℕ) (id : ℕ) (ls : List StoreProduct)
    → contains ids id ≡ true
    → get listing_key id (select (among ids) ls) ≡ get listing_key id ls
unfolding get select
get-among ids id [] h = refl
get-among ids id (l ∷ ls) h = ground (arith, get-among ids id ls)

none-among :
    (id : ℕ) (ls : List StoreProduct)
    → get listing_key id ls ≡ none
    → length (select (has_key listing_key id) ls) ≡ 0
unfolding get select
none-among id [] h = refl
none-among id (l ∷ ls) h = ground (arith, none-among id ls)

one-among :
    (id : ℕ) (ls : List StoreProduct)
    → IsKeyed listing_key ls
    → get listing_key id ls ≢ none
    → length (select (has_key listing_key id) ls) ≡ 1
unfolding get select
one-among id [] k h = absurd (h refl)
one-among id (l ∷ ls) k h = ground (arith, one-among id ls k.1, none-among id ls)

length-among :
    (id : ℕ) (ids : List ℕ) (ls : List StoreProduct)
    → contains ids id ≡ false
    → length (select (among (id ∷ ids)) ls)
      ≡ length (select (has_key listing_key id) ls) + length (select (among ids) ls)
unfolding select
length-among id ids [] h = refl
length-among id ids (l ∷ ls) h = ground (arith, length-among id ids ls)

not_wanted :
    (id : ℕ) (items : List CartItem)
    → get by_listing id items ≡ none
    → contains (wanted_ids items) id ≡ false
unfolding get
not_wanted id [] h = refl
not_wanted id (i ∷ items) h = ground (arith, not_wanted id items)

nothing_wanted : (ls : List StoreProduct) → length (select (among []) ls) ≡ 0
unfolding select
nothing_wanted [] = refl
nothing_wanted (l ∷ ls) = ground (arith, nothing_wanted ls)

-- One listing is locked for each item.
pub length-locked_for :
    (db : Db) (items : List CartItem)
    → IsKeyed listing_key db.listings
    → IsKeyed by_listing items
    → AllListed db items
    → length (locked_for (wanted_ids items) db) ≡ length items
length-locked_for db [] k d h = nothing_wanted db.listings
length-locked_for db (i ∷ items) k d h = ground (
  arith,
  length-locked_for db items k d.1 h.1,
  one-among i.store_product_id db.listings k h.0,
  length-among i.store_product_id (wanted_ids items) db.listings,
  not_wanted i.store_product_id items d.0,
)

valid_lines :
    (s : ℕ) (db : Db) (ids : List ℕ) (items : List CartItem)
    → AllIn ids items
    → AllListed db items
    → inventory_is_valid s (quote_rows db items) ≡ true
    → validate s (locked_for ids db) items ≡ some (quote_rows db items)
unfolding validate quote_rows inventory_is_valid
valid_lines s db ids [] a h v = refl
valid_lines s db ids (i ∷ items) a h v =
    ground
      (arith, valid_lines s db ids items a.1 h.1, get-among ids i.store_product_id db.listings a.0)

-- Where the rows of the quote are valid, the first loop makes just them.
pub validate-quote_rows :
    (s : ℕ) (db : Db) (items : List CartItem)
    → AllListed db items
    → inventory_is_valid s (quote_rows db items) ≡ true
    → validate s (locked_for (wanted_ids items) db) items ≡ some (quote_rows db items)
validate-quote_rows s db items = valid_lines s db (wanted_ids items) items (AllIn-wanted items)
