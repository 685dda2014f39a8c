-- ===== src/Model/Money.antt =====
-- Rows of payments, refunds, settlements and audit: backend/app/models/integrations.py and
-- governance.py.
use ai_powered_market.Prelude.{ℕ, String, Bool, Option, nat_beq, Eq}
use ai_powered_market.Prelude.Int.{ℤ}
use ai_powered_market.Model.Status.{
  PaymentMethod, AttemptStatus, SettlementStatus, VoidReason, RefundStatus, RefundReason,
  Capability,
}

-- Title, body and data are display text and are left out.
pub record NotificationEvent : Type 0 where
  pub user_id : ℕ
  pub event_type : String

-- Provider identifiers are numbers; none is a missing or an empty text.
pub record PaymentAttempt : Type 0 where
  pub id : ℕ
  pub order_id : ℕ
  pub provider_order_id : Option ℕ
  pub provider_payment_id : Option ℕ
  pub status : AttemptStatus
  pub amount : ℕ
  pub created_at : ℕ
  pub updated_at : ℕ

pub record PaymentWebhookEvent : Type 0 where
  pub event_key : ℕ
  pub processed_at : Option ℕ

pub record SettlementEntry : Type 0 where
  pub id : ℕ
  pub order_id : ℕ
  pub store_id : ℕ
  pub merchant_id : ℕ
  pub payment_method : PaymentMethod
  pub gross_amount : ℕ
  pub merchant_amount : ℕ
  pub delivery_fee_amount : ℕ
  pub status : SettlementStatus
  pub settled_at : Option ℕ
  pub voided_at : Option ℕ
  pub void_reason : Option VoidReason

-- The text `f"order-refund:{order_id}"`, by the value that it is formatted from.
pub data RefundKey : Type 0 where
  order_refund : ℕ → RefundKey

-- The text `f"settlement-reversal:{entry.id}"`.
pub data ReversalKey : Type 0 where
  settlement_reversal : ℕ → ReversalKey

abbrev pub refund_key_beq : RefundKey → RefundKey → Bool
refund_key_beq (order_refund a) (order_refund b) = nat_beq a b

abbrev pub reversal_key_beq : ReversalKey → ReversalKey → Bool
reversal_key_beq (settlement_reversal a) (settlement_reversal b) = nat_beq a b

instance abbrev pub refund_key_eq : Eq RefundKey
refund_key_eq = record { beq = refund_key_beq }

instance abbrev pub reversal_key_eq : Eq ReversalKey
reversal_key_eq = record { beq = reversal_key_beq }

-- The status of a refund as Razorpay reports it; `other` is `pending` and anything unrecognised.
pub data ProviderStatus : Type 0 where
  processed failed : ProviderStatus
  other : ℕ → ProviderStatus

pub record PaymentRefund : Type 0 where
  pub id : ℕ
  pub order_id : ℕ
  pub payment_attempt_id : Option ℕ
  pub provider_payment_id : Option ℕ
  pub provider_refund_id : Option ℕ
  pub amount : ℕ
  pub status : RefundStatus
  pub reason : RefundReason
  pub idempotency_key : RefundKey
  pub provider_status : Option ProviderStatus
  pub failure_reason : Option String
  pub attempt_count : ℕ
  pub requested_at : ℕ
  pub processed_at : Option ℕ
  pub failed_at : Option ℕ

-- The amount is negative: money that must come back.
pub record SettlementAdjustment : Type 0 where
  pub id : ℕ
  pub settlement_entry_id : ℕ
  pub order_id : ℕ
  pub merchant_id : ℕ
  pub amount : ℤ
  pub reason : VoidReason
  pub idempotency_key : ReversalKey

pub record CodCollection : Type 0 where
  pub id : ℕ
  pub delivery_id : ℕ
  pub order_id : ℕ
  pub amount : ℕ
  pub collected_by_user_id : Option ℕ
  pub collected_at : ℕ

-- Of backend/app/models/governance.py; the two state dictionaries are left out.
pub record AdministrativeAuditEvent : Type 0 where
  pub actor_user_id : ℕ
  pub action : String
  pub capability : Capability
  pub resource_id : ℕ
  pub reason : Option String
