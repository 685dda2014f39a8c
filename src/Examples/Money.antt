-- ===== src/Examples/Money.antt =====
-- The theorems on settlements, stock, payments and capabilities at concrete inputs.
use ai_powered_market.Examples.Data.{bags, capture, market, paid_order, refunding, rice}
use ai_powered_market.Model.Db.{Db}
use ai_powered_market.Model.Keys.{order_key, store_key}
use ai_powered_market.Model.Market.{Store}
use ai_powered_market.Model.Money.{
  PaymentAttempt, PaymentRefund, SettlementEntry, settlement_reversal,
}
use ai_powered_market.Model.Orders.{Order}
use ai_powered_market.Model.Status.{
  OrderStatus, PaymentStatus, RefundStatus, SettlementStatus, attempted, cancelled, order_refunded,
  refund_pending, settled, upi, voided,
}
use ai_powered_market.Payments.{
  apply_paid, capture_order, is_refunding, late_capture, lock_payment_context, save_attempt,
  show_attempt,
}
use ai_powered_market.Payments.Capture.{apply_paid_cases}
use ai_powered_market.Payments.Orphans.{IsGivenUp, late_refund_unsendable}
use ai_powered_market.Payments.Replay.{webhook_replay}
use ai_powered_market.Payments.Webhook.{
  ProviderEvent, hardened_razorpay_webhook, payment_captured, process_event,
}
use ai_powered_market.Prelude.{
  [], arith, count_where, false, find_by, get, insert, none, put, refl, select, some, true,
  update_where, ◌+◌, ◌∷◌, ◌≡◌, ◌≢◌, ◌≤◌, ◌⊎◌,
}
use ai_powered_market.Prelude.Int.{neg}
use ai_powered_market.Refunds.{
  ensure_refund_request, keyed, latest, latest_captured_attempt, refund_idempotency_key,
}
use ai_powered_market.Refunds.Dispatch.{claim_refund, done, now_at}
use ai_powered_market.Session.{audit_order, ok, respond, save_order, store_order}
use ai_powered_market.Settlements.{
  ensure_settlement_entry, refunds_order, reverses, settlement_is_eligible, settles,
  void_settlement_for_refund,
}
use ai_powered_market.Settlements.Entitlement.{
  Entitles, ensure_settlement_entry_cases, ensure_settlement_entry_unique, entry_status,
  reversal_amount, void_settlement_cases,
}
use ai_powered_market.Stock.{restock, restore_items, restore_order_stock_once}
use ai_powered_market.Stock.Restoration.{items_of, restore_once_adds, stock_at, units}

abbrev delivered_order : Order
delivered_order = record paid_order { status = OrderStatus.delivered }

ensure_settlement_entry_cases_example :
    let r = ensure_settlement_entry delivered_order (market delivered_order) in
    let found = find_by (settles 50) (market delivered_order).settlements in
    ((e : SettlementEntry) → found ≡ some e → r ≡ ok (some e, market delivered_order))
    × (found ≡ none
        → ((PaymentStatus.paid ≢ PaymentStatus.paid)
            ⊎ (delivered_order.status ≡ cancelled)
            ⊎ (find_by (refunds_order 50) (market delivered_order).refunds ≢ none))
        → r ≡ ok (none, market delivered_order))
    × ((s : Store)
        → found ≡ none
        → PaymentStatus.paid ≡ PaymentStatus.paid
        → delivered_order.status ≢ cancelled
        → find_by (refunds_order 50) (market delivered_order).refunds ≡ none
        → get store_key 20 (market delivered_order).stores ≡ some s
        → (e : SettlementEntry) × (db' : Db) × (r ≡ ok (some e, db'))
          × Entitles delivered_order e
          × (find_by (settles 50) db'.settlements ≡ some e))
ensure_settlement_entry_cases_example =
    ensure_settlement_entry_cases delivered_order (market delivered_order)

ensure_settlement_entry_unique_example :
    count_where
      (settles 50)
      (respond (ensure_settlement_entry delivered_order) (market delivered_order)).1.settlements
    ≤ 1
unfolding ensure_settlement_entry settlement_is_eligible get find_by insert
ensure_settlement_entry_unique_example =
    ensure_settlement_entry_unique delivered_order 50 (market delivered_order) (omega arith) refl

abbrev voided_db : Db
voided_db = (respond (void_settlement_for_refund 9 paid_order order_refunded) refunding).1

void_settlement_cases_example :
    let found = find_by (settles 50) refunding.settlements in
    let r = (respond (void_settlement_for_refund 9 paid_order order_refunded) refunding).0 in
    (r ≡ ok tt)
    × (entry_status (find_by (settles 50) voided_db.settlements) ≢ some SettlementStatus.pending)
    × ((e : SettlementEntry)
        → found ≡ some e
        → e.status ≡ settled
        → find_by (reverses (settlement_reversal e.id)) refunding.adjustments ≡ none
        → reversal_amount (find_by (reverses (settlement_reversal e.id)) voided_db.adjustments)
          ≡ some (neg e.merchant_amount))
    × (entry_status found ≢ some settled → voided_db.adjustments ≡ refunding.adjustments)
    × ((e : SettlementEntry)
        → found ≡ some e
        → e.status ≡ SettlementStatus.pending
        → find_by (settles 50) voided_db.settlements
          ≡ some
              (record e { status = voided; voided_at = some 9; void_reason = some order_refunded }))
    × (entry_status found ≡ some settled → voided_db.settlements ≡ refunding.settlements)
    × (found ≡ none → voided_db ≡ refunding)
    × (entry_status found ≡ some voided → voided_db ≡ refunding)
unfolding get find_by
void_settlement_cases_example =
    void_settlement_cases 9 paid_order order_refunded refunding (refl, tt)

abbrev restored_db : Db
restored_db = (respond (restore_order_stock_once 9 paid_order) (market paid_order)).1

restore_once_adds_example :
    (paid_order.stock_restored_at ≡ none
      → (true ≡ true)
        × (record paid_order { stock_restored_at = some 9 }
            ≡ record paid_order { stock_restored_at = some 9 })
        × (stock_at 20 40 restored_db
            ≡ stock_at 20 40 (market paid_order)
              + units 40 (items_of paid_order (market paid_order))))
    × (false ≡ true → (true ≡ false) × (restored_db ≡ market paid_order))
unfolding restore_order_stock_once restore_items restock save_order store_order audit_order get
    find_by put update_where select
restore_once_adds_example = restore_once_adds 9 40 paid_order (market paid_order) (refl, tt) refl

abbrev stocked : Db
stocked = record (market paid_order) { listings = record rice { stock_quantity = 7 } ∷ [] }

abbrev restocked : Db
restocked = (respond (restore_items 20 (bags ∷ [])) stocked).1

abbrev closed_order : Order
closed_order = record paid_order { status = cancelled; payment_status = PaymentStatus.pending }

abbrev late_db : Db
late_db = (respond (apply_paid 9 capture closed_order (some 801)) (market closed_order)).1

abbrev late_order : Order
late_order = record closed_order { payment_status = refund_pending }

apply_paid_cases_example :
    (cancelled ≡ cancelled)
    × (is_refunding closed_order ≡ true
        → (late_order ≡ closed_order)
          × (late_db.orders ≡ (market closed_order).orders)
          × (late_db.settlements ≡ (market closed_order).settlements))
    × (cancelled ≡ cancelled
        → is_refunding closed_order ≡ false
        → (get order_key 50 late_db.orders ≡ some late_order)
          × (upi ≡ upi → find_by (keyed (refund_idempotency_key 50)) late_db.refunds ≢ none)
          × (late_db.settlements ≡ (market closed_order).settlements))
    × (cancelled ≢ cancelled
        → is_refunding closed_order ≡ false
        → late_order ≡ record closed_order { payment_status = PaymentStatus.paid })
unfolding apply_paid show_attempt capture_order save_attempt late_capture ensure_refund_request
    latest_captured_attempt latest save_order store_order audit_order get find_by put update_where
    select insert
apply_paid_cases_example =
    apply_paid_cases 9 capture closed_order (some 801) (market closed_order) refl refl

abbrev captured : ProviderEvent
captured = record {
  event_key = 7;
  kind = payment_captured;
  payment_id = some 801;
  provider_order = some 800;
  refund = record { id = none; status = none };
  refund_payment_id = none;
}

abbrev unpaid : Order
unpaid = record paid_order { payment_status = PaymentStatus.pending }

abbrev hooked_db : Db
hooked_db =
    (respond (hardened_razorpay_webhook true (some true) (some captured) 9) (market unpaid)).1

webhook_replay_example :
    hardened_razorpay_webhook true (some true) (some captured) 99 hooked_db ≡ ok (tt, hooked_db)
unfolding hardened_razorpay_webhook process_event lock_payment_context apply_paid show_attempt
    capture_order save_attempt ensure_settlement_entry settlement_is_eligible save_order store_order
    audit_order get find_by put update_where select insert
webhook_replay_example = webhook_replay captured captured 9 99 (market unpaid) refl refl

abbrev first_capture : PaymentAttempt
first_capture = record capture { status = attempted; provider_payment_id = none }

abbrev given_up : Db
given_up = record (market closed_order) { attempts = first_capture ∷ [] }

abbrev surprised : Db
surprised = (respond (apply_paid 9 first_capture closed_order (some 801)) given_up).1

late_refund_unsendable_example :
    (r : PaymentRefund) × (find_by (keyed (refund_idempotency_key 50)) surprised.refunds ≡ some r)
    × (r.amount ≡ 12000)
    × (r.provider_payment_id ≡ none)
    × (db2 : Db) × (claim_refund true 10 r.id surprised
        ≡ ok (done (now_at RefundStatus.failed), db2))
    × IsGivenUp r.id db2
unfolding apply_paid show_attempt capture_order save_attempt late_capture ensure_refund_request
    latest_captured_attempt latest save_order store_order audit_order get find_by put update_where
    select insert
late_refund_unsendable_example =
    late_refund_unsendable 9 10 true first_capture closed_order (some 801) given_up refl refl
      (ground arith) refl refl refl refl refl refl
