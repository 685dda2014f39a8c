-- ===== src/Carts/Contents.antt =====
-- A user's cart as a finite map from listings to quantities, and what the handlers of
-- backend/app/api/v1/routes/orders.py do to it.
use ai_powered_market.Carts.{same_line}
use ai_powered_market.Checkout.{cart_of}
use ai_powered_market.Model.Db.{Db}
use ai_powered_market.Model.Orders.{Cart, CartItem}
use ai_powered_market.Prelude.{List, Option, find_by, if◌then◌else◌, nat_eq, none, some, ℕ, ◌==◌}

-- The abstract view: how many units of each listing the user has in the cart.
abbrev pub Contents : Type 0
Contents = ℕ → Option ℕ

abbrev pub quantity_of : Option CartItem → Option ℕ
quantity_of none = none
quantity_of (some i) = some i.quantity

abbrev in_found_cart : Option Cart → List CartItem → ℕ → Option ℕ
in_found_cart none items listing_id = none
in_found_cart (some cart) items listing_id =
    quantity_of (find_by (same_line cart.id listing_id) items)

abbrev pub contents : ℕ → Db → Contents
contents user_id db listing_id =
    in_found_cart (find_by (cart_of user_id) db.carts) db.cart_items listing_id

-- The three operations of the specification.
abbrev pub set_quantity : ℕ → ℕ → Contents → Contents
set_quantity listing_id quantity m other = if other == listing_id then some quantity else m other

abbrev pub without : ℕ → Contents → Contents
without listing_id m other = if other == listing_id then none else m other

abbrev pub nothing : Contents
nothing listing_id = none
