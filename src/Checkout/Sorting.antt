-- ===== src/Checkout/Sorting.antt =====
-- The quote reads the items of a cart in the order of the table, the checkout in the order of their
-- listings: neither the amounts nor the checks depend on it.
use ai_powered_market.Checkout.{subtotal_of}
use ai_powered_market.Checkout.Locking.{AllListed}
use ai_powered_market.Checkout.Placing.{by_listing}
use ai_powered_market.Checkout.Quote.{inventory_is_valid, quote_rows}
use ai_powered_market.Model.Db.{Db}
use ai_powered_market.Model.Keys.{listing_key}
use ai_powered_market.Model.Orders.{CartItem}
use ai_powered_market.Prelude.{
  Bool, List, [], arith, get, insert_by, none, refl, select, sort_by, ℕ, ◌∙◌, ◌∷◌, ◌≡◌, ◌≢◌,
}

module _ (db : Db) where
  subtotal_of-insert_by :
      (i : CartItem) (items : List CartItem)
      → subtotal_of (quote_rows db (insert_by by_listing i items))
        ≡ subtotal_of (quote_rows db (i ∷ items))
  unfolding insert_by quote_rows subtotal_of
  subtotal_of-insert_by i [] = refl
  subtotal_of-insert_by i (j ∷ items) = ground (arith, subtotal_of-insert_by i items)

  subtotal_of-cons :
      (i : CartItem) (xs ys : List CartItem)
      → subtotal_of (quote_rows db xs) ≡ subtotal_of (quote_rows db ys)
      → subtotal_of (quote_rows db (i ∷ xs)) ≡ subtotal_of (quote_rows db (i ∷ ys))
  unfolding quote_rows subtotal_of
  subtotal_of-cons i xs ys h = ground arith

  pub subtotal_of-sort_by :
      (items : List CartItem)
      → subtotal_of (quote_rows db (sort_by by_listing items)) ≡ subtotal_of (quote_rows db items)
  unfolding sort_by
  subtotal_of-sort_by [] = refl
  subtotal_of-sort_by (i ∷ items) =
      subtotal_of-insert_by i (sort_by by_listing items)
      ∙ subtotal_of-cons i (sort_by by_listing items) items (subtotal_of-sort_by items)

  AllListed-insert_by :
      (i : CartItem) (items : List CartItem)
      → get listing_key i.store_product_id db.listings ≢ none
      → AllListed db items
      → AllListed db (insert_by by_listing i items)
  unfolding insert_by
  AllListed-insert_by i [] n h = ground arith
  AllListed-insert_by i (j ∷ items) n h = ground (arith, AllListed-insert_by i items n h.1)

  pub AllListed-sort_by :
      (items : List CartItem) → AllListed db items → AllListed db (sort_by by_listing items)
  unfolding sort_by
  AllListed-sort_by [] h = tt
  AllListed-sort_by (i ∷ items) h =
      AllListed-insert_by i (sort_by by_listing items) h.0 (AllListed-sort_by items h.1)

  pub AllListed-select :
      (p : CartItem → Bool) (items : List CartItem)
      → AllListed db items
      → AllListed db (select p items)
  unfolding select
  AllListed-select p [] h = tt
  AllListed-select p (i ∷ items) h = ground (arith, AllListed-select p items h.1)

module _ (db : Db) (s : ℕ) where
  valid-insert_by :
      (i : CartItem) (items : List CartItem)
      → inventory_is_valid s (quote_rows db (insert_by by_listing i items))
        ≡ inventory_is_valid s (quote_rows db (i ∷ items))
  unfolding insert_by quote_rows inventory_is_valid
  valid-insert_by i [] = refl
  valid-insert_by i (j ∷ items) = ground (arith, valid-insert_by i items)

  valid-cons :
      (i : CartItem) (xs ys : List CartItem)
      → inventory_is_valid s (quote_rows db xs) ≡ inventory_is_valid s (quote_rows db ys)
      → inventory_is_valid s (quote_rows db (i ∷ xs))
        ≡ inventory_is_valid s (quote_rows db (i ∷ ys))
  unfolding quote_rows inventory_is_valid
  valid-cons i xs ys h = ground arith

  pub valid-sort_by :
      (items : List CartItem)
      → inventory_is_valid s (quote_rows db (sort_by by_listing items))
        ≡ inventory_is_valid s (quote_rows db items)
  unfolding sort_by
  valid-sort_by [] = refl
  valid-sort_by (i ∷ items) =
      valid-insert_by i (sort_by by_listing items)
      ∙ valid-cons i (sort_by by_listing items) items (valid-sort_by items)
