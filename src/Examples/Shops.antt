-- ===== src/Examples/Shops.antt =====
-- The theorems on the catalogue at concrete inputs.
use ai_powered_market.Capabilities.{capabilities_for, ensure_capability, has_capability}
use ai_powered_market.Catalogue.{
  StoreProductCreate, approve_merchant, decide_merchant, set_merchant_status,
  update_merchant_status,
}
use ai_powered_market.Catalogue.Shelf.{upsert_store_product}
use ai_powered_market.Catalogue.Suspension.{IsElsewhere, suspension_undone}
use ai_powered_market.Checkout.{Circumstances, trading}
use ai_powered_market.Checkout.Outcome.{SameOrder}
use ai_powered_market.Checkout.Placing.{CheckoutRequest, safe_checkout}
use ai_powered_market.Checkout.Quote.{QuoteRead, cart_quote}
use ai_powered_market.Effects.{record_admin_action}
use ai_powered_market.Examples.Data.{founder, owner, rice, shop}
use ai_powered_market.Examples.Shopping.{bazaar}
use ai_powered_market.Model.Db.{Db}
use ai_powered_market.Model.Keys.{merchant_key}
use ai_powered_market.Model.Market.{Merchant, StoreProduct, User}
use ai_powered_market.Model.Orders.{Order}
use ai_powered_market.Model.Status.{approved, suspended}
use ai_powered_market.Prelude.{
  String, find_by, get, insert, put, refl, some, true, update_where, ℕ, ◌≡◌, ◌⊎◌,
}
use ai_powered_market.Session.{Result, err, ok, respond}

abbrev offer : StoreProductCreate
offer = record { product_id = 40; price = 5500; stock_quantity = 9; is_available = true }

abbrev written : Db
written = (respond (upsert_store_product 20 offer owner) bazaar).1

abbrev listing_of : Result (StoreProduct × Db) → StoreProduct
listing_of (ok (l, db)) = l
listing_of (err e) = rice

abbrev fresh_rice : StoreProduct
fresh_rice = listing_of (upsert_store_product 20 offer owner bazaar)

abbrev grocer : Merchant
grocer = record { id = 10; owner_user_id = 2; status = approved }

abbrev halted : Db
halted = (respond (update_merchant_status 10 suspended founder) bazaar).1

abbrev resumed : Db
resumed = (respond (approve_merchant 10 founder) halted).1

halted_ok :
    update_merchant_status 10 suspended founder bazaar
    ≡ ok (record grocer { status = suspended }, halted)
unfolding update_merchant_status decide_merchant ensure_capability has_capability capabilities_for
    get find_by set_merchant_status put update_where record_admin_action insert
halted_ok = refl

resumed_ok : approve_merchant 10 founder halted ≡ ok (grocer, resumed)
unfolding approve_merchant update_merchant_status decide_merchant ensure_capability has_capability
    capabilities_for get find_by set_merchant_status put update_where record_admin_action insert
resumed_ok = refl

grocer_stored : get merchant_key 10 bazaar.merchants ≡ some grocer
unfolding get find_by
grocer_stored = refl

suspension_undone_example :
    ((c : Circumstances) (address_id : ℕ) (customer : User) (quote : QuoteRead) (read : Db)
      → cart_quote c address_id customer halted ≡ ok (quote, read)
      → IsElsewhere 10 halted quote.store_id)
    × ((c : Circumstances) (number : String) (payload : CheckoutRequest) (customer : User)
          (order : Order) (made : Db)
        → safe_checkout c number payload customer halted ≡ ok (order, made)
        → SameOrder payload customer halted order made ⊎ IsElsewhere 10 halted order.store_id)
    × (halted.stores ≡ bazaar.stores)
    × (trading resumed (some shop) ≡ trading bazaar (some shop))
    × (resumed.stores ≡ bazaar.stores)
suspension_undone_example =
    suspension_undone 10 grocer founder bazaar shop grocer_stored refl halted_ok resumed_ok
