-- ===== src/Model/Status.antt =====
-- The enumerations of backend/app/models/orders.py, user.py and commerce.py, the status constants of
-- services/refunds.py and services/settlements.py, and Python's `==` on them.
use ai_powered_market.Prelude.{ℕ, Bool, true, false, nat_beq, Eq}

pub data OrderStatus : Type 0 where
  placed accepted preparing ready out_for_delivery delivered returned cancelled : OrderStatus

pub data PaymentMethod : Type 0 where
  cod upi : PaymentMethod

pub data PaymentStatus : Type 0 where
  pending paid failed refund_pending refunded : PaymentStatus

pub data DeliveryStatus : Type 0 where
  unassigned assigned picked_up delivered failed : DeliveryStatus

pub data UserRole : Type 0 where
  customer merchant delivery admin : UserRole

pub data MerchantStatus : Type 0 where
  pending approved suspended : MerchantStatus

-- `REFUND_REQUESTED` and so on.
pub data RefundStatus : Type 0 where
  requested processing succeeded failed : RefundStatus

-- `REFUND_REASON_CANCELLED` and so on.
pub data RefundReason : Type 0 where
  order_cancelled delivery_returned capture_after_cancellation : RefundReason

-- `SETTLEMENT_PENDING` and so on.
pub data SettlementStatus : Type 0 where
  pending settled voided : SettlementStatus

-- `VOID_REASON_REFUNDED`, `VOID_REASON_RETURNED`
pub data VoidReason : Type 0 where
  order_refunded delivery_returned : VoidReason

-- The values that the code writes to `PaymentAttempt.status`.
pub data AttemptStatus : Type 0 where
  created attempted paid failed : AttemptStatus

-- `Capability` of backend/app/core/capabilities.py.
pub data Capability : Type 0 where
  user_read user_manage admin_manage merchant_read merchant_manage catalog_manage : Capability
  geography_manage order_read order_operations rider_read rider_operations : Capability
  support_manage media_moderate notification_operations payment_read refund_read : Capability
  refund_write settlement_read settlement_write delivery_financial_write audit_read : Capability

abbrev order_code : OrderStatus → ℕ
order_code placed = 0
order_code accepted = 1
order_code preparing = 2
order_code ready = 3
order_code out_for_delivery = 4
order_code OrderStatus.delivered = 5
order_code returned = 6
order_code cancelled = 7

abbrev payment_code : PaymentStatus → ℕ
payment_code PaymentStatus.pending = 0
payment_code PaymentStatus.paid = 1
payment_code PaymentStatus.failed = 2
payment_code refund_pending = 3
payment_code refunded = 4

abbrev delivery_code : DeliveryStatus → ℕ
delivery_code unassigned = 0
delivery_code assigned = 1
delivery_code picked_up = 2
delivery_code DeliveryStatus.delivered = 3
delivery_code DeliveryStatus.failed = 4

abbrev method_beq : PaymentMethod → PaymentMethod → Bool
method_beq cod cod = true
method_beq upi upi = true
method_beq _ _ = false

abbrev role_code : UserRole → ℕ
role_code customer = 0
role_code merchant = 1
role_code delivery = 2
role_code admin = 3

abbrev merchant_code : MerchantStatus → ℕ
merchant_code MerchantStatus.pending = 0
merchant_code approved = 1
merchant_code suspended = 2

abbrev refund_code : RefundStatus → ℕ
refund_code requested = 0
refund_code processing = 1
refund_code succeeded = 2
refund_code RefundStatus.failed = 3

abbrev settlement_code : SettlementStatus → ℕ
settlement_code SettlementStatus.pending = 0
settlement_code settled = 1
settlement_code voided = 2

abbrev attempt_code : AttemptStatus → ℕ
attempt_code created = 0
attempt_code attempted = 1
attempt_code AttemptStatus.paid = 2
attempt_code AttemptStatus.failed = 3

abbrev capability_code : Capability → ℕ
capability_code user_read = 0
capability_code user_manage = 1
capability_code admin_manage = 2
capability_code merchant_read = 3
capability_code merchant_manage = 4
capability_code catalog_manage = 5
capability_code geography_manage = 6
capability_code order_read = 7
capability_code order_operations = 8
capability_code rider_read = 9
capability_code rider_operations = 10
capability_code support_manage = 11
capability_code media_moderate = 12
capability_code notification_operations = 13
capability_code payment_read = 14
capability_code refund_read = 15
capability_code refund_write = 16
capability_code settlement_read = 17
capability_code settlement_write = 18
capability_code delivery_financial_write = 19
capability_code audit_read = 20

instance abbrev pub capability_eq : Eq Capability
capability_eq = record { beq = λ a b. nat_beq (capability_code a) (capability_code b) }

instance abbrev pub order_status_eq : Eq OrderStatus
order_status_eq = record { beq = λ a b. nat_beq (order_code a) (order_code b) }

instance abbrev pub payment_status_eq : Eq PaymentStatus
payment_status_eq = record { beq = λ a b. nat_beq (payment_code a) (payment_code b) }

instance abbrev pub delivery_status_eq : Eq DeliveryStatus
delivery_status_eq = record { beq = λ a b. nat_beq (delivery_code a) (delivery_code b) }

instance abbrev pub method_eq : Eq PaymentMethod
method_eq = record { beq = method_beq }

instance abbrev pub role_eq : Eq UserRole
role_eq = record { beq = λ a b. nat_beq (role_code a) (role_code b) }

instance abbrev pub merchant_status_eq : Eq MerchantStatus
merchant_status_eq = record { beq = λ a b. nat_beq (merchant_code a) (merchant_code b) }

instance abbrev pub refund_status_eq : Eq RefundStatus
refund_status_eq = record { beq = λ a b. nat_beq (refund_code a) (refund_code b) }

instance abbrev pub settlement_status_eq : Eq SettlementStatus
settlement_status_eq = record { beq = λ a b. nat_beq (settlement_code a) (settlement_code b) }

instance abbrev pub attempt_status_eq : Eq AttemptStatus
attempt_status_eq = record { beq = λ a b. nat_beq (attempt_code a) (attempt_code b) }
