-- ===== src/Model/Orders.antt =====
-- Rows of carts, orders and deliveries: backend/app/models/orders.py.
use ai_powered_market.Prelude.{ℕ, String, Option}
use ai_powered_market.Model.Status.{OrderStatus, PaymentMethod, PaymentStatus, DeliveryStatus}

pub record Cart : Type 0 where
  pub id : ℕ
  pub user_id : ℕ
  pub store_id : Option ℕ

pub record CartItem : Type 0 where
  pub id : ℕ
  pub cart_id : ℕ
  pub store_product_id : ℕ
  pub quantity : ℕ

-- The dictionary `Order.delivery_address`: a missing key is `none`.
pub record AddressSnapshot : Type 0 where
  pub recipient_name : Option String
  pub phone : Option String
  pub house_details : Option String
  pub landmark : Option String
  pub directions : Option String
  pub latitude : Option ℕ
  pub longitude : Option ℕ
  pub village_id : Option ℕ

pub record Order : Type 0 where
  pub id : ℕ
  pub order_number : String
  pub user_id : ℕ
  pub store_id : ℕ
  pub address_id : ℕ
  pub idempotency_key : Option String
  pub stock_restored_at : Option ℕ
  pub delivery_address : AddressSnapshot
  pub status : OrderStatus
  pub payment_method : PaymentMethod
  pub payment_status : PaymentStatus
  pub subtotal : ℕ
  pub delivery_fee : ℕ
  pub total : ℕ

pub record OrderItem : Type 0 where
  pub id : ℕ
  pub order_id : ℕ
  pub product_id : ℕ
  pub product_name : String
  pub unit : String
  pub unit_price : ℕ
  pub quantity : ℕ
  pub line_total : ℕ

pub record Delivery : Type 0 where
  pub id : ℕ
  pub order_id : ℕ
  pub delivery_partner_id : Option ℕ
  pub status : DeliveryStatus
  pub assigned_at : Option ℕ
  pub picked_up_at : Option ℕ
  pub delivered_at : Option ℕ
  pub failed_at : Option ℕ
  pub failure_reason : Option String
  pub failure_notes : Option String
  pub failure_evidence_url : Option String

-- `otp_hash` is the digest of the code as a number.
pub record DeliveryProof : Type 0 where
  pub id : ℕ
  pub delivery_id : ℕ
  pub otp_hash : ℕ
  pub otp_expires_at : ℕ
  pub last_challenge_at : Option ℕ
  pub challenge_count : ℕ
  pub verification_attempt_count : ℕ
  pub verification_locked_at : Option ℕ
  pub verified_at : Option ℕ
  pub evidence_url : Option String
  pub recipient_name : Option String
  pub notes : Option String
  pub updated_at : ℕ

-- The status of either entity, as the audit trail stores it.
pub data Status : Type 0 where
  order_status : OrderStatus → Status
  delivery_status : DeliveryStatus → Status

-- `entity_type` is told by the constructor of the two statuses.
pub record StatusTransitionEvent : Type 0 where
  pub id : ℕ
  pub entity_id : ℕ
  pub order_id : ℕ
  pub delivery_id : Option ℕ
  pub actor_user_id : Option ℕ
  pub from_status : Status
  pub to_status : Status
  pub reason : Option String
