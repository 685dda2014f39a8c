-- ===== src/Payments/Replay.antt =====
-- A webhook that is delivered again.
use ai_powered_market.Model.Db.{Db}
use ai_powered_market.Model.Keys.{order_key, refund_key}
use ai_powered_market.Model.Money.{
  PaymentAttempt, PaymentRefund, PaymentWebhookEvent, ProviderStatus, SettlementEntry,
}
use ai_powered_market.Model.Orders.{Order}
use ai_powered_market.Model.Status.{
  PaymentStatus, RefundReason, capture_after_cancellation, refunded, succeeded,
}
use ai_powered_market.Payments.{
  Context, apply_failed, apply_paid, capture_order, context_of, late_capture, lock_payment_context,
  locked, no_attempt, no_order, save_attempt, take_payment_id,
}
use ai_powered_market.Payments.Capture.{apply_paid_parts}
use ai_powered_market.Payments.Webhook.{
  EventKind, ProviderEvent, by_provider_order, fold_refund, hardened_razorpay_webhook, order_paid,
  other_event, payment_captured, payment_failed, process_event, process_kind, process_order,
  process_payment, process_refund_event, refund_event, refund_of_event, seen,
}
use ai_powered_market.Prelude.{
  Option, Option-cases, arith, find_by, find_by-insert-none, get, inl, inr, insert, none, put, some,
  true, ℕ, ◌≡◌,
}
use ai_powered_market.Refunds.{
  RefundPayload, apply_provider_refund_result, ensure_refund_request, fold_report, mark_failed,
  mark_succeeded, refund_order, save_refund, settle_refunded_order,
}
use ai_powered_market.Refunds.Outcome.{reported}
use ai_powered_market.Session.{Result-cases, audit_order, ok, save_order, store_order}
use ai_powered_market.Settlements.{ensure_settlement_entry, void_settlement_for_refund}

apply_failed_seen :
    (now : ℕ) (a : PaymentAttempt) (order : Order) (db : Db) {u : Unit {0}} {db' : Db}
    → apply_failed now a order db ≡ ok (u, db')
    → db'.webhook_events ≡ db.webhook_events
unfolding apply_failed save_attempt save_order store_order audit_order
apply_failed_seen now a order db h = ground arith

ensure_entry_seen :
    (order : Order) (db : Db) {e : Option SettlementEntry} {db' : Db}
    → ensure_settlement_entry order db ≡ ok (e, db')
    → db'.webhook_events ≡ db.webhook_events
unfolding ensure_settlement_entry
ensure_entry_seen order db h = ground arith

ensure_refund_seen :
    (now : ℕ) (order : Order) (why : RefundReason) (db : Db) {r : Option PaymentRefund × Order}
    {db' : Db}
    → ensure_refund_request now order why db ≡ ok (r, db')
    → db'.webhook_events ≡ db.webhook_events
unfolding ensure_refund_request save_order store_order audit_order
ensure_refund_seen now order why db h = ground arith

late_capture_seen :
    (now : ℕ) (order : Order) (db : Db) {o : Order} {db' : Db}
    → late_capture now order db ≡ ok (o, db')
    → db'.webhook_events ≡ db.webhook_events
unfolding late_capture save_order store_order audit_order
late_capture_seen now order db h =
    let paid_for = record order { payment_status = PaymentStatus.paid } in
    let db1 = store_order paid_for db in
    elim (Result-cases (ensure_refund_request now paid_for capture_after_cancellation db1)) [
      | inr (x, raised) ↦ ground arith
      | inl (r, db2, asked) ↦
          ground (arith, ensure_refund_seen now paid_for capture_after_cancellation db1 asked)
    ]

take_payment_id_seen :
    (payment_id : Option ℕ) (a : PaymentAttempt) (db : Db) {t : PaymentAttempt} {db' : Db}
    → take_payment_id payment_id a db ≡ ok (t, db')
    → db'.webhook_events ≡ db.webhook_events
take_payment_id_seen none a db h = ground arith
take_payment_id_seen (some payment_id) a db h = ground arith

store_order_seen : (o : Order) (db : Db) → (store_order o db).webhook_events ≡ db.webhook_events
unfolding store_order audit_order
store_order_seen o db = ground arith

capture_order_seen :
    (now : ℕ) (order : Order) (db : Db) {o : Order} {db' : Db}
    → capture_order now order db ≡ ok (o, db')
    → db'.webhook_events ≡ db.webhook_events
unfolding capture_order save_order
capture_order_seen now order db {o} {db'} h =
    let paid_for = record order { payment_status = PaymentStatus.paid } in
    let db2 = store_order paid_for db in
    let late = late_capture_seen now order db {o = o} {db' = db'} in
    elim (Result-cases (ensure_settlement_entry paid_for db2)) [
      | inl (e, db3, q) ↦
          ground (arith, late, ensure_entry_seen paid_for db2 q, store_order_seen paid_for db)
      | inr (x, raised) ↦ ground (arith, late)
    ]

apply_paid_seen :
    (now : ℕ) (a : PaymentAttempt) (order : Order) (payment_id : Option ℕ) (db : Db) {o : Order}
    {db' : Db}
    → apply_paid now a order payment_id db ≡ ok (o, db')
    → db'.webhook_events ≡ db.webhook_events
apply_paid_seen now a order payment_id db {o} {db'} h =
    let (t, db1, db2, shown, same1, captures, same2) =
      apply_paid_parts now a order payment_id db {o = o} {db' = db'} h in
    let seen = capture_order_seen now order db1 {o = o} {db' = db2} captures in
    ground (arith, same1.same_events, same2.same_events)

refund_order_seen :
    (now : ℕ) (found : Option Order) (db : Db) {u : Unit {0}} {db' : Db}
    → refund_order now found db ≡ ok (u, db')
    → db'.webhook_events ≡ db.webhook_events
unfolding settle_refunded_order void_settlement_for_refund save_order
refund_order_seen now none db h = ground arith
refund_order_seen now (some o) db h =
    ground (arith, store_order_seen (record o { payment_status = refunded }) db)

mark_succeeded_seen :
    (now : ℕ) (refund : PaymentRefund) (s : Option ProviderStatus) (db : Db) {r : PaymentRefund}
    {db' : Db}
    → mark_succeeded now refund s db ≡ ok (r, db')
    → db'.webhook_events ≡ db.webhook_events
unfolding mark_succeeded save_refund
mark_succeeded_seen now refund s db h =
    let row = record refund {
      status = succeeded;
      provider_status = s;
      failure_reason = none;
      processed_at = some now;
    } in
    let db1 = record db { refunds = put refund_key row db.refunds } in
    let found = get order_key refund.order_id db.orders in
    elim (Result-cases (refund_order now found db1)) [
      | inl (u, db2, paid_back) ↦ ground (arith, refund_order_seen now found db1 paid_back)
      | inr (x, raised) ↦ ground arith
    ]

fold_report_seen :
    (now : ℕ) (s : Option ProviderStatus) (refund : PaymentRefund) (db : Db) {r : PaymentRefund}
    {db' : Db}
    → fold_report now s refund db ≡ ok (r, db')
    → db'.webhook_events ≡ db.webhook_events
unfolding mark_failed save_refund
fold_report_seen now none refund db h = ground arith
fold_report_seen now (some ProviderStatus.processed) refund db h =
    mark_succeeded_seen now refund (some ProviderStatus.processed) db h
fold_report_seen now (some ProviderStatus.failed) refund db h = ground arith
fold_report_seen now (some (ProviderStatus.other n)) refund db h = ground arith

fold_refund_seen :
    (now : ℕ) (payload : RefundPayload) (found : Option PaymentRefund) (db : Db) {u : Unit {0}}
    {db' : Db}
    → fold_refund now payload found db ≡ ok (u, db')
    → db'.webhook_events ≡ db.webhook_events
unfolding apply_provider_refund_result
fold_refund_seen now payload none db h = ground arith
fold_refund_seen now payload (some refund) db h =
    let row = reported refund payload in
    elim (Result-cases (fold_report now payload.status row db)) [
      | inl (r, db1, folded) ↦ ground (arith, fold_report_seen now payload.status row db folded)
      | inr (x, raised) ↦ ground arith
    ]

process_payment_seen :
    (now : ℕ) (kind : EventKind) (payment_id : Option ℕ) (c : Context) (db : Db) {u : Unit {0}}
    {db' : Db}
    → process_payment now kind payment_id c db ≡ ok (u, db')
    → db'.webhook_events ≡ db.webhook_events
process_payment_seen now order_paid payment_id (locked a o) db h =
    elim (Result-cases (apply_paid now a o payment_id db)) [
      | inl (r, db1, paid_so) ↦ ground (arith, apply_paid_seen now a o payment_id db paid_so)
      | inr (x, raised) ↦ ground arith
    ]
process_payment_seen now payment_captured payment_id (locked a o) db h =
    elim (Result-cases (apply_paid now a o payment_id db)) [
      | inl (r, db1, paid_so) ↦ ground (arith, apply_paid_seen now a o payment_id db paid_so)
      | inr (x, raised) ↦ ground arith
    ]
process_payment_seen now payment_failed payment_id (locked a o) db h =
    apply_failed_seen now a o db h
process_payment_seen now refund_event payment_id (locked a o) db h = ground arith
process_payment_seen now other_event payment_id (locked a o) db h = ground arith
process_payment_seen now kind payment_id no_attempt db h = ground arith
process_payment_seen now kind payment_id no_order db h = ground arith

process_order_seen :
    (now : ℕ) (event : ProviderEvent) (provider_order : Option ℕ) (db : Db) {u : Unit {0}}
    {db' : Db}
    → process_order now event provider_order db ≡ ok (u, db')
    → db'.webhook_events ≡ db.webhook_events
unfolding lock_payment_context
process_order_seen now event none db h = ground arith
process_order_seen now event (some id) db h =
    process_payment_seen now event.kind event.payment_id
      (context_of db none (by_provider_order id db)) db h

process_kind_seen :
    (now : ℕ) (event : ProviderEvent) (kind : EventKind) (db : Db) {u : Unit {0}} {db' : Db}
    → process_kind now event kind db ≡ ok (u, db')
    → db'.webhook_events ≡ db.webhook_events
unfolding process_refund_event
process_kind_seen now event refund_event db h =
    fold_refund_seen now event.refund (refund_of_event db event) db h
process_kind_seen now event order_paid db h = process_order_seen now event event.provider_order db h
process_kind_seen now event payment_captured db h =
    process_order_seen now event event.provider_order db h
process_kind_seen now event payment_failed db h =
    process_order_seen now event event.provider_order db h
process_kind_seen now event other_event db h =
    process_order_seen now event event.provider_order db h

-- An event that was accepted once has no effect again, whenever it comes and whatever its body then says
-- beside the key: the provider is told that all is well, and nothing changes.
pub webhook_replay :
    (event again : ProviderEvent) (now later : ℕ) (db : Db) {db' : Db}
    → again.event_key ≡ event.event_key
    → hardened_razorpay_webhook true (some true) (some event) now db ≡ ok (tt, db')
    → hardened_razorpay_webhook true (some true) (some again) later db' ≡ ok (tt, db')
unfolding hardened_razorpay_webhook process_event
webhook_replay event again now later db {db'} e h =
    let row : PaymentWebhookEvent = record {
      event_key = event.event_key;
      processed_at = some now;
    } in
    let db1 = record db { webhook_events = insert row db.webhook_events } in
    let inserted = find_by-insert-none (seen event.event_key) row db.webhook_events in
    elim (Option-cases (find_by (seen event.event_key) db.webhook_events)) [
      | inr (old, found) ↦ ground arith
      | inl absent ↦ elim (Result-cases (process_kind now event event.kind db1)) [
        | inl (u, db2, processed_so) ↦
            ground (arith, inserted, process_kind_seen now event event.kind db1 processed_so)
        | inr (x, raised) ↦ ground arith
      ]
    ]
