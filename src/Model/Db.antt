-- ===== src/Model/Db.antt =====
-- The database: one list of rows for each table, in the order of insertion. `next_id` stands for
-- `uuid.uuid4`: each new row takes the next number.
use ai_powered_market.Prelude.{ℕ, List, []}
use ai_powered_market.Model.Market.{
  User, Merchant, Store, Product, StoreProduct, ServiceArea, Village, Address,
}
use ai_powered_market.Model.Orders.{
  Cart, CartItem, Order, OrderItem, Delivery, DeliveryProof, StatusTransitionEvent,
}
use ai_powered_market.Model.Money.{
  NotificationEvent, PaymentAttempt, PaymentWebhookEvent, SettlementEntry, PaymentRefund,
  SettlementAdjustment, CodCollection, AdministrativeAuditEvent,
}
use ai_powered_market.Model.Support.{SupportTicket, SupportMessage}

pub record Db : Type 0 where
  pub next_id : ℕ
  pub users : List User
  pub merchants : List Merchant
  pub stores : List Store
  pub products : List Product
  pub listings : List StoreProduct
  pub service_areas : List ServiceArea
  pub villages : List Village
  pub addresses : List Address
  pub carts : List Cart
  pub cart_items : List CartItem
  pub orders : List Order
  pub order_items : List OrderItem
  pub deliveries : List Delivery
  pub proofs : List DeliveryProof
  pub transitions : List StatusTransitionEvent
  pub notifications : List NotificationEvent
  pub attempts : List PaymentAttempt
  pub webhook_events : List PaymentWebhookEvent
  pub settlements : List SettlementEntry
  pub refunds : List PaymentRefund
  pub adjustments : List SettlementAdjustment
  pub collections : List CodCollection
  pub audit_events : List AdministrativeAuditEvent
  pub tickets : List SupportTicket
  pub messages : List SupportMessage

abbrev pub empty_db : Db
empty_db = record {
  next_id = 0;
  users = [];
  merchants = [];
  stores = [];
  products = [];
  listings = [];
  service_areas = [];
  villages = [];
  addresses = [];
  carts = [];
  cart_items = [];
  orders = [];
  order_items = [];
  deliveries = [];
  proofs = [];
  transitions = [];
  notifications = [];
  attempts = [];
  webhook_events = [];
  settlements = [];
  refunds = [];
  adjustments = [];
  collections = [];
  audit_events = [];
  tickets = [];
  messages = [];
}
