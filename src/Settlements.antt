-- ===== src/Settlements.antt =====
-- backend/app/services/settlements.py: what a merchant is entitled to, and how it is taken back. The
-- race that the caught `IntegrityError` of the reversal handles cannot occur in a request that runs
-- alone. Proofs are in the child module.
pub mod Entitlement
use ai_powered_market.Model.Db.{Db}
use ai_powered_market.Model.Keys.{entry_key, store_key}
use ai_powered_market.Model.Market.{Store}
use ai_powered_market.Model.Money.{
  PaymentRefund, ReversalKey, SettlementAdjustment, SettlementEntry, reversal_key_eq,
  settlement_reversal,
}
use ai_powered_market.Model.Orders.{Order}
use ai_powered_market.Model.Status.{
  PaymentStatus, SettlementStatus, VoidReason, cancelled, order_status_eq, payment_status_eq,
  settlement_status_eq, voided,
}
use ai_powered_market.Prelude.{
  Bool, Option, false, find_by, get, if◌then◌else◌, insert, is_some, nat_eq, none, put, some, suc,
  true, ℕ, ◌!=◌, ◌==◌,
}
use ai_powered_market.Prelude.Int.{neg}
use ai_powered_market.Session.{Action, gets, modify, or_raise, pure, value_error, ◌>>=◌, ◌>>◌}

abbrev pub settles : ℕ → SettlementEntry → Bool
settles order_id e = e.order_id == order_id

abbrev pub refunds_order : ℕ → PaymentRefund → Bool
refunds_order order_id r = r.order_id == order_id

abbrev pub reverses : ReversalKey → SettlementAdjustment → Bool
reverses key a = a.idempotency_key == key

unfoldable pub settlement_is_eligible : Db → Order → Bool
settlement_is_eligible db order =
    if order.payment_status != PaymentStatus.paid
    then false
    else (if order.status == cancelled
        then false
        else (if is_some (find_by (refunds_order order.id) db.refunds) then false else true))

unfoldable pub new_entry : ℕ → Order → Store → SettlementEntry
new_entry id order store = record {
  id = id;
  order_id = order.id;
  store_id = store.id;
  merchant_id = store.merchant_id;
  payment_method = order.payment_method;
  gross_amount = order.total;
  merchant_amount = order.subtotal;
  delivery_fee_amount = order.delivery_fee;
  status = SettlementStatus.pending;
  settled_at = none;
  voided_at = none;
  void_reason = none;
}

create_entry : Order → Action (Option SettlementEntry)
unfolding new_entry
create_entry order = do
  found ← gets (λ db. get store_key order.store_id db.stores)
  store ← or_raise found value_error
  id ← gets (λ db. db.next_id)
  let entry = new_entry id order store
  modify (λ db. record db { next_id = suc db.next_id; settlements = insert entry db.settlements })
  pure (some entry)

unfoldable pub ensure_settlement_entry : Order → Action (Option SettlementEntry)
unfolding create_entry
ensure_settlement_entry order = do
  existing ← gets (λ db. find_by (settles order.id) db.settlements)
  eligible ← gets (λ db. settlement_is_eligible db order)
  if is_some existing then pure existing else (if eligible then create_entry order else pure none)

unfoldable pub voided_entry : ℕ → VoidReason → SettlementEntry → SettlementEntry
voided_entry now why entry = record entry {
  status = voided;
  voided_at = some now;
  void_reason = some why;
}

-- Minus the merchant's amount, under the key of the entry.
unfoldable pub reversal : ℕ → Order → VoidReason → SettlementEntry → SettlementAdjustment
reversal id order why entry = record {
  id = id;
  settlement_entry_id = entry.id;
  order_id = order.id;
  merchant_id = entry.merchant_id;
  amount = neg entry.merchant_amount;
  reason = why;
  idempotency_key = settlement_reversal entry.id;
}

void_entry : ℕ → VoidReason → SettlementEntry → Action (Unit {0})
unfolding voided_entry
void_entry now why entry =
    modify
      λ db. record db { settlements = put entry_key (voided_entry now why entry) db.settlements }

reverse_entry : Order → VoidReason → SettlementEntry → Action (Unit {0})
unfolding reversal
reverse_entry order why entry = do
  existing ← gets (λ db. find_by (reverses (settlement_reversal entry.id)) db.adjustments)
  if is_some existing
      then pure tt
      else modify (λ db. record db {
        next_id = suc db.next_id;
        adjustments = insert (reversal db.next_id order why entry) db.adjustments;
      })

abbrev void_found : ℕ → Order → VoidReason → Option SettlementEntry → Action (Unit {0})
void_found now order reason none db = pure tt db
void_found now order reason (some entry) db =
    (if entry.status == voided
        then pure tt
        else (if entry.status == SettlementStatus.pending
            then void_entry now reason entry
            else reverse_entry order reason entry))
      db

unfoldable pub void_settlement_for_refund : ℕ → Order → VoidReason → Action (Unit {0})
unfolding void_entry reverse_entry
void_settlement_for_refund now order reason = do
  found ← gets (λ db. find_by (settles order.id) db.settlements)
  void_found now order reason found
