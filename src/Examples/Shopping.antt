-- ===== src/Examples/Shopping.antt =====
-- The theorems on carts and checkouts at concrete inputs.
use ai_powered_market.Carts.{
  CartItemUpsert, CartRead, add_cart_item, cart_payload, get_or_create_cart,
}
use ai_powered_market.Carts.Contents.{contents}
use ai_powered_market.Carts.Homes.{AreAtHome}
use ai_powered_market.Carts.Opening.{HasCarts}
use ai_powered_market.Carts.Refinement.{CartStep-Refines, Refines}
use ai_powered_market.Carts.Steps.{CartStep-AreAtHome, adds, buys}
use ai_powered_market.Checkout.{
  Circumstances, address_point, address_snapshot, existing_idempotent_order, new_order, order_item,
  place_line, place_lines, require_serviceable, sold, subtotal_of, validate,
}
use ai_powered_market.Checkout.Bill.{AllBilled, IsFresh, safe_checkout-AllBilled}
use ai_powered_market.Checkout.Conservation.{IsOnce, safe_checkout_conserves}
use ai_powered_market.Checkout.Inventory.{IsListed}
use ai_powered_market.Checkout.Locking.{AllListed}
use ai_powered_market.Checkout.Placing.{
  CheckoutRequest, add_delivery, add_order, checked_key, empty_cart, fill_basket, place_order,
  safe_checkout,
}
use ai_powered_market.Checkout.Promise.{AllStocked, quote_is_kept}
use ai_powered_market.Checkout.Quote.{
  QuoteRead, cart_quote, inventory_is_valid, is_serviceable, quote_of, quote_rows,
}
use ai_powered_market.Checkout.Replay.{safe_checkout_again}
use ai_powered_market.Checkout.Sale.{placed_items}
use ai_powered_market.Effects.{annotate_order_transition, annotate_transition, enqueue_notification}
use ai_powered_market.Examples.Data.{alice, market, paid_order, rice, shop}
use ai_powered_market.Model.Db.{Db}
use ai_powered_market.Model.Keys.{cart_item_key, listing_key}
use ai_powered_market.Model.Market.{Address, StoreProduct}
use ai_powered_market.Model.Money.{PaymentRefund}
use ai_powered_market.Model.Orders.{CartItem, Order}
use ai_powered_market.Model.Status.{cod}
use ai_powered_market.Orders.{cancel_transaction, notify_merchant}
use ai_powered_market.Orders.Undoing.{cancel_undoes_checkout}
use ai_powered_market.Prelude.{
  IsKeyed, Option, [], arith, find_by, get, insert, none, put, refl, select, some, sort_by, true,
  update_where, ℕ, ◌+◌, ◌<◌, ◌↔◌, ◌∷◌, ◌≡◌, ◌≢◌,
}
use ai_powered_market.Prelude.Text.{is_space, lstrip, rstrip, strip}
use ai_powered_market.Pricing.{order_total, resolve_delivery_fee}
use ai_powered_market.Refunds.{ensure_refund_request}
use ai_powered_market.Session.{Result, audit_order, err, ok, respond, save_order, store_order}
use ai_powered_market.Stock.{restock, restore_items, restore_order_stock_once}
use ai_powered_market.Stock.Restoration.{stock_at, units}
use ai_powered_market.StoreHours.{is_open_at, store_is_open}
use ai_powered_market.StoreHours.Window.{is_open_at-arc, since}
use ai_powered_market.Transitions.{can_transition_order, transition_order}

-- Five bags on the shelf.
abbrev full_rice : StoreProduct
full_rice = record rice { stock_quantity = 5; is_available = true }

abbrev home : Address
home = record {
  id = 60;
  user_id = 1;
  village_id = 7;
  recipient_name = none;
  phone = none;
  house_details = none;
  landmark = "Well";
  directions = none;
  latitude = some 18;
  longitude = some 74;
  archived_at = none;
}

abbrev basket_row : CartItem
basket_row = record { id = 101; cart_id = 100; store_product_id = 30; quantity = 2 }

-- Two bags in the customer's cart, no order yet.
abbrev pub bazaar : Db
bazaar = record (market paid_order) {
  products = record { id = 40; name = "Rice"; unit = "kg" } ∷ [];
  listings = full_rice ∷ [];
  service_areas = record { id = 5; delivery_fee = some 2500; is_active = true } ∷ [];
  addresses = home ∷ [];
  carts = record { id = 100; user_id = 1; store_id = some 20 } ∷ [];
  cart_items = basket_row ∷ [];
  orders = [];
  order_items = [];
  attempts = [];
}

abbrev morning : Circumstances
morning = record {
  local_time = 36000;
  default_fee = 2000;
  serves = λ db area latitude longitude. true;
}

abbrev request : CheckoutRequest
request = record { address_id = 60; payment_method = cod; idempotency_key = some "k1" }

abbrev order_of : Result (Order × Db) → Order
order_of (ok (o, db)) = o
order_of (err e) = paid_order

abbrev bought : Result (Order × Db)
bought = safe_checkout morning "GO1" request alice bazaar

abbrev new_row : Order
new_row = order_of bought

abbrev after : Db
after = (respond (safe_checkout morning "GO1" request alice) bazaar).1

bought_ok : bought ≡ ok (new_row, after)
unfolding safe_checkout checked_key strip lstrip rstrip is_space existing_idempotent_order
    fill_basket require_serviceable store_is_open address_point validate place_order add_order
    place_lines place_line add_delivery empty_cart enqueue_notification get find_by select put
    update_where insert sort_by new_order sold order_item subtotal_of resolve_delivery_fee
    order_total address_snapshot is_open_at
bought_ok = refl

IsKeyed-listings : IsKeyed listing_key bazaar.listings
unfolding get
IsKeyed-listings = ground arith

IsListed-listings : IsListed bazaar.listings
unfolding get
IsListed-listings l stored = ground arith

once : IsOnce bazaar.cart_items
unfolding get select
once cart_id = ground arith

safe_checkout_conserves_example :
    stock_at new_row.store_id 40 bazaar + units 40 (placed_items new_row.id bazaar)
    ≡ stock_at new_row.store_id 40 after + units 40 (placed_items new_row.id after)
safe_checkout_conserves_example =
    safe_checkout_conserves morning "GO1" request alice 40 bazaar IsKeyed-listings IsListed-listings
      once bought_ok

all_billed : AllBilled bazaar
unfolding get
all_billed id o h = ground arith

is_fresh : IsFresh bazaar
unfolding get select
is_fresh = (refl, refl)

safe_checkout-AllBilled_example : AllBilled after
safe_checkout-AllBilled_example =
    safe_checkout-AllBilled morning "GO1" request alice bazaar all_billed is_fresh bought_ok

safe_checkout_again_example :
    safe_checkout
      (record morning { local_time = 0 })
      "GO2"
      (record request { address_id = 61 })
      alice
      after
    ≡ ok (new_row, after)
safe_checkout_again_example =
    safe_checkout_again morning (record morning { local_time = 0 }) "GO1" "GO2" request
      (record request { address_id = 61 }) alice "k1" bazaar refl refl bought_ok

abbrev read_quote : Result (QuoteRead × Db) → QuoteRead
read_quote (ok (q, db)) = q
read_quote (err e) = quote_of morning bazaar home shop []

abbrev answer : QuoteRead
answer = read_quote (cart_quote morning 60 alice bazaar)

answer_ok : cart_quote morning 60 alice bazaar ≡ ok (answer, bazaar)
unfolding cart_quote quote_rows quote_of is_serviceable get find_by select store_is_open is_open_at
answer_ok = refl

answer_can_go : answer.checkout_ready ≡ true
unfolding cart_quote quote_rows quote_of is_serviceable get find_by select store_is_open is_open_at
    inventory_is_valid address_point
answer_can_go = refl

all_listed : AllListed bazaar bazaar.cart_items
unfolding get find_by
all_listed = ground arith

all_stocked : AllStocked bazaar
unfolding get find_by
all_stocked l stored = ground arith

request_key : checked_key (some "k1") bazaar ≡ ok (some "k1", bazaar)
unfolding checked_key strip lstrip rstrip is_space
request_key = refl

no_order_yet : existing_idempotent_order bazaar 1 (some "k1") ≡ none
unfolding existing_idempotent_order find_by
no_order_yet = refl

quote_is_kept_example :
    (order : Order) × (db' : Db) × (safe_checkout morning "GO1" request alice bazaar
      ≡ ok (order, db'))
    × (order.subtotal ≡ answer.subtotal)
    × (order.delivery_fee ≡ answer.delivery_fee)
    × (order.total ≡ answer.total)
quote_is_kept_example =
    quote_is_kept morning "GO1" request alice bazaar IsKeyed-listings once all_listed all_stocked
      answer_ok answer_can_go request_key no_order_yet

abbrev undone : Result ((Option PaymentRefund × Order) × Db)
undone = cancel_transaction 9 new_row.id alice after

abbrev undone_value : Result ((Option PaymentRefund × Order) × Db) → Option PaymentRefund × Order
undone_value (ok (r, db)) = r
undone_value (err e) = (none, paid_order)

abbrev restored_db : Db
restored_db = (respond (cancel_transaction 9 new_row.id alice) after).1

undone_ok : undone ≡ ok (undone_value undone, restored_db)
unfolding safe_checkout checked_key strip lstrip rstrip is_space existing_idempotent_order
    fill_basket require_serviceable store_is_open is_open_at address_point validate place_order
    add_order place_lines place_line add_delivery empty_cart enqueue_notification get find_by select
    put update_where insert sort_by new_order sold order_item subtotal_of resolve_delivery_fee
    order_total address_snapshot cancel_transaction annotate_order_transition annotate_transition
    notify_merchant ensure_refund_request save_order store_order audit_order restock restore_items
    restore_order_stock_once can_transition_order transition_order
undone_ok = refl

new_row_id : new_row.id ≡ bazaar.next_id
unfolding safe_checkout checked_key strip lstrip rstrip is_space existing_idempotent_order
    fill_basket require_serviceable store_is_open is_open_at address_point validate place_order
    add_order place_lines place_line add_delivery empty_cart enqueue_notification get find_by select
    put update_where insert sort_by new_order sold order_item subtotal_of resolve_delivery_fee
    order_total address_snapshot
new_row_id = refl

cancel_undoes_checkout_example :
    stock_at new_row.store_id 40 restored_db ≡ stock_at new_row.store_id 40 bazaar
cancel_undoes_checkout_example =
    cancel_undoes_checkout morning "GO1" request alice 9 40 bazaar IsKeyed-listings
      IsListed-listings once is_fresh new_row_id bought_ok undone_ok

has_carts : HasCarts bazaar
unfolding get
has_carts = ground arith

at_home : AreAtHome bazaar
unfolding get find_by
at_home = ground arith

CartStep-AreAtHome_example : AreAtHome after
CartStep-AreAtHome_example =
    CartStep-AreAtHome alice bazaar has_carts IsKeyed-listings IsListed-listings once at_home
      (buys morning "GO1" request new_row bought_ok)

abbrev four : CartItemUpsert
four = record { store_product_id = 30; quantity = 4 }

abbrev more_db : Db
more_db = (respond (add_cart_item four alice) bazaar).1

abbrev read_cart : Result (CartRead × Db) → CartRead
read_cart (ok (r, db)) = r
read_cart (err e) = record { id = 0; store_id = none; items = []; subtotal = 0 }

abbrev more : CartRead
more = read_cart (add_cart_item four alice bazaar)

more_ok : add_cart_item four alice bazaar ≡ ok (more, more_db)
unfolding add_cart_item get_or_create_cart cart_payload get find_by put update_where select
    quote_rows subtotal_of
more_ok = refl

IsKeyed-cart_items : IsKeyed cart_item_key bazaar.cart_items
unfolding get
IsKeyed-cart_items = ground arith

abbrev evening : ℕ
evening = 72000

abbrev dawn : ℕ
dawn = 21600

is_open_at-arc_example :
    ((evening ≢ dawn)
      → (is_open_at (some evening) (some dawn) 3600 ≡ true)
        ↔ (since evening 3600 < since evening dawn))
    × (is_open_at (some evening) (some evening) 3600 ≡ true)
    × (is_open_at none (some dawn) 3600 ≡ true)
    × (is_open_at (some evening) none 3600 ≡ true)
is_open_at-arc_example =
    is_open_at-arc evening dawn 3600 (ground arith) (ground arith) (ground arith)

CartStep-Refines_example :
    Refines alice bazaar more_db (adds four more more_ok) (contents 1 bazaar) (contents 1 more_db)
CartStep-Refines_example =
    CartStep-Refines alice bazaar (adds four more more_ok) has_carts at_home IsKeyed-cart_items
