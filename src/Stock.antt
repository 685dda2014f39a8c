-- ===== src/Stock.antt =====
-- backend/app/services/stock.py: units of an order that will never be fulfilled go back to the store.
-- Proofs are in the child module.
pub mod Restoration
pub mod Stamp
use ai_powered_market.Model.Keys.{listing_key}
use ai_powered_market.Model.Market.{StoreProduct}
use ai_powered_market.Model.Orders.{Order, OrderItem}
use ai_powered_market.Prelude.{
  Bool, List, [], false, find_by, if◌then◌else◌, is_some, nat_eq, not, put, select, some, true, ℕ,
  ◌&&◌, ◌+◌, ◌==◌, ◌∷◌,
}
use ai_powered_market.Session.{Action, gets, http, modify, or_raise, pure, save_order, ◌>>=◌, ◌>>◌}

-- The listing of a store for a product; `uq_store_product` makes it unique.
abbrev pub lists : ℕ → ℕ → StoreProduct → Bool
lists store_id product_id l = l.store_id == store_id && l.product_id == product_id

-- The body of the loop, on one listing. Only the automatic sold-out flag is undone.
unfoldable pub restock : StoreProduct → ℕ → StoreProduct
restock l quantity =
    let was_sold_out = l.stock_quantity == 0 in
    record l {
      stock_quantity = l.stock_quantity + quantity;
      is_available = if was_sold_out && not l.is_available then true else l.is_available;
    }

-- The objects of `by_product` are the rows themselves, so each item reads the current row.
unfoldable pub restore_items : ℕ → List OrderItem → Action (Unit {0})
restore_items store_id [] = pure tt
restore_items store_id (item ∷ items) = do
  found ← gets (λ db. find_by (lists store_id item.product_id) db.listings)
  listing ← or_raise found (http 409 "Order inventory reference is missing")
  modify
      (λ db. record db { listings = put listing_key (restock listing item.quantity) db.listings })
  restore_items store_id items

-- Whether this call restored, and the order as it is afterwards.
unfoldable pub restore_order_stock_once : ℕ → Order → Action (Bool × Order)
restore_order_stock_once now order =
    if is_some order.stock_restored_at then pure (false, order) else (do
      items ← gets (λ db. select (λ (i : OrderItem). i.order_id == order.id) db.order_items)
      restore_items order.store_id items
      restored ← save_order (record order { stock_restored_at = some now })
      pure (true, restored))
