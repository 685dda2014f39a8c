-- ===== src/Examples/Data.antt =====
-- A village market: one store with one product, a customer, the store's owner, a rider, and a founder who
-- may do everything. Each order is a variation of one.
use ai_powered_market.Model.Db.{Db, empty_db}
use ai_powered_market.Model.Market.{Store, StoreProduct, User}
use ai_powered_market.Model.Money.{PaymentAttempt, PaymentRefund, SettlementEntry, order_refund}
use ai_powered_market.Model.Orders.{AddressSnapshot, Delivery, DeliveryProof, Order, OrderItem}
use ai_powered_market.Model.Status.{
  AttemptStatus, PaymentStatus, SettlementStatus, UserRole, admin, approved, cancelled,
  order_cancelled, picked_up, placed, refund_pending, requested, upi,
}
use ai_powered_market.Prelude.{[], false, none, some, true, ◌∷◌}

abbrev pub alice : User
alice = record {
  id = 1;
  role = UserRole.customer;
  is_super_admin = false;
  is_active = true;
  is_verified = true;
}

abbrev pub owner : User
owner = record {
  id = 2;
  role = UserRole.merchant;
  is_super_admin = false;
  is_active = true;
  is_verified = true;
}

abbrev pub rider : User
rider = record {
  id = 3;
  role = UserRole.delivery;
  is_super_admin = false;
  is_active = true;
  is_verified = true;
}

abbrev pub founder : User
founder = record {
  id = 4;
  role = admin;
  is_super_admin = true;
  is_active = true;
  is_verified = true;
}

abbrev pub shop : Store
shop = record {
  id = 20;
  merchant_id = 10;
  service_area_id = some 5;
  name = "Kirana";
  latitude = none;
  longitude = none;
  opens_at = none;
  closes_at = none;
  delivery_enabled = true;
  is_active = true;
}

abbrev pub rice : StoreProduct
rice = record {
  id = 30;
  store_id = 20;
  product_id = 40;
  price = 5000;
  stock_quantity = 0;
  is_available = false;
}

abbrev pub no_address : AddressSnapshot
no_address = record {
  recipient_name = none;
  phone = none;
  house_details = none;
  landmark = none;
  directions = none;
  latitude = none;
  longitude = none;
  village_id = none;
}

-- Two bags of rice, paid online.
abbrev pub paid_order : Order
paid_order = record {
  id = 50;
  order_number = "GO-50";
  user_id = 1;
  store_id = 20;
  address_id = 60;
  idempotency_key = none;
  stock_restored_at = none;
  delivery_address = no_address;
  status = placed;
  payment_method = upi;
  payment_status = PaymentStatus.paid;
  subtotal = 10000;
  delivery_fee = 2000;
  total = 12000;
}

abbrev pub bags : OrderItem
bags = record {
  id = 70;
  order_id = 50;
  product_id = 40;
  product_name = "Rice";
  unit = "kg";
  unit_price = 5000;
  quantity = 2;
  line_total = 10000;
}

abbrev pub capture : PaymentAttempt
capture = record {
  id = 80;
  order_id = 50;
  provider_order_id = some 800;
  provider_payment_id = some 801;
  status = AttemptStatus.paid;
  amount = 12000;
  created_at = 1;
  updated_at = 2;
}

-- The market with this order.
abbrev pub market : Order → Db
market order = record empty_db {
  next_id = 1000;
  users = alice ∷ owner ∷ rider ∷ founder ∷ [];
  merchants = record { id = 10; owner_user_id = 2; status = approved } ∷ [];
  stores = shop ∷ [];
  listings = rice ∷ [];
  orders = order ∷ [];
  order_items = bags ∷ [];
  attempts = capture ∷ [];
}

abbrev pub owed : PaymentRefund
owed = record {
  id = 90;
  order_id = 50;
  payment_attempt_id = some 80;
  provider_payment_id = some 801;
  provider_refund_id = none;
  amount = 12000;
  status = requested;
  reason = order_cancelled;
  idempotency_key = order_refund 50;
  provider_status = none;
  failure_reason = none;
  attempt_count = 0;
  requested_at = 3;
  processed_at = none;
  failed_at = none;
}

abbrev pub entry : SettlementEntry
entry = record {
  id = 95;
  order_id = 50;
  store_id = 20;
  merchant_id = 10;
  payment_method = upi;
  gross_amount = 12000;
  merchant_amount = 10000;
  delivery_fee_amount = 2000;
  status = SettlementStatus.pending;
  settled_at = none;
  voided_at = none;
  void_reason = none;
}

-- The market with a cancelled order, its refund, and the merchant's entry.
abbrev pub refunding : Db
refunding =
    record (market (record paid_order { status = cancelled; payment_status = refund_pending })) {
      refunds = owed ∷ [];
      settlements = entry ∷ [];
    }

abbrev pub trip : Delivery
trip = record {
  id = 110;
  order_id = 50;
  delivery_partner_id = some 3;
  status = picked_up;
  assigned_at = some 4;
  picked_up_at = some 5;
  delivered_at = none;
  failed_at = none;
  failure_reason = none;
  failure_notes = none;
  failure_evidence_url = none;
}

abbrev pub code : DeliveryProof
code = record {
  id = 120;
  delivery_id = 110;
  otp_hash = 1234;
  otp_expires_at = 1000;
  last_challenge_at = some 6;
  challenge_count = 1;
  verification_attempt_count = 4;
  verification_locked_at = none;
  verified_at = none;
  evidence_url = none;
  recipient_name = none;
  notes = none;
  updated_at = 6;
}

-- The market with an order on its way.
abbrev pub on_the_way : Order → Delivery → Db
on_the_way order d = record (market order) { deliveries = d ∷ []; proofs = code ∷ [] }
