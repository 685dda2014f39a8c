-- ===== src/Model/Keys.antt =====
-- The primary key of each table: the column `id` of backend/app/models/*.py.
use ai_powered_market.Model.Market.{
  Address, Merchant, Product, ServiceArea, Store, StoreProduct, User, Village,
}
use ai_powered_market.Model.Money.{PaymentAttempt, PaymentRefund, SettlementEntry}
use ai_powered_market.Model.Orders.{
  Cart, CartItem, Delivery, DeliveryProof, Order, StatusTransitionEvent,
}
use ai_powered_market.Prelude.{ℕ}

abbrev pub user_key : User → ℕ
user_key row = row.id

abbrev pub merchant_key : Merchant → ℕ
merchant_key row = row.id

abbrev pub store_key : Store → ℕ
store_key row = row.id

abbrev pub product_key : Product → ℕ
product_key row = row.id

abbrev pub listing_key : StoreProduct → ℕ
listing_key row = row.id

abbrev pub area_key : ServiceArea → ℕ
area_key row = row.id

abbrev pub village_key : Village → ℕ
village_key row = row.id

abbrev pub address_key : Address → ℕ
address_key row = row.id

abbrev pub cart_key : Cart → ℕ
cart_key row = row.id

abbrev pub cart_item_key : CartItem → ℕ
cart_item_key row = row.id

abbrev pub order_key : Order → ℕ
order_key row = row.id

abbrev pub delivery_key : Delivery → ℕ
delivery_key row = row.id

abbrev pub proof_key : DeliveryProof → ℕ
proof_key row = row.id

abbrev pub attempt_key : PaymentAttempt → ℕ
attempt_key row = row.id

abbrev pub entry_key : SettlementEntry → ℕ
entry_key row = row.id

abbrev pub refund_key : PaymentRefund → ℕ
refund_key row = row.id

abbrev pub event_key : StatusTransitionEvent → ℕ
event_key row = row.id
