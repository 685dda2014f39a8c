-- ===== src/Refunds/Outcome.antt =====
-- What a report of the provider does to the refund, its order and the merchant's entitlement.
use ai_powered_market.Model.Db.{Db}
use ai_powered_market.Model.Keys.{entry_key, order_key, refund_key}
use ai_powered_market.Model.Money.{PaymentRefund, ProviderStatus}
use ai_powered_market.Model.Orders.{Order}
use ai_powered_market.Model.Status.{
  PaymentStatus, RefundStatus, SettlementStatus, order_refunded, payment_status_eq, refunded,
  succeeded,
}
use ai_powered_market.Prelude.{
  IsKeyed, Option, arith, find_by, get, get-key, get-put_self, if◌then◌else◌, is_none, is_some,
  none, put, refl, some, subst, sym, ℕ, ◌!=◌, ◌&&◌, ◌∙◌, ◌≡◌, ◌≢◌,
}
use ai_powered_market.Refunds.{
  RefundPayload, apply_provider_refund_result, fold_report, mark_failed, mark_succeeded,
  refund_order, save_refund, settle_refunded_order,
}
use ai_powered_market.Session.{
  ok, respond, save_order, store_order, store_order-orders, store_order_same,
}
use ai_powered_market.Settlements.{settles, void_settlement_for_refund}
use ai_powered_market.Settlements.Entitlement.{
  entry_status, void_settlement_cases, void_settlement_frame,
}

-- A report other than `processed` leaves every order as it is and does not make the refund succeed.
pub unprocessed_report_harmless :
    (now : ℕ) (refund : PaymentRefund) (payload : RefundPayload) (db : Db) {saved : PaymentRefund}
    {db' : Db}
    → payload.status ≢ some ProviderStatus.processed
    → apply_provider_refund_result now refund payload db ≡ ok (saved, db')
    → (db'.orders ≡ db.orders) × (db'.settlements ≡ db.settlements) × (saved.status ≢ succeeded)
unfolding apply_provider_refund_result save_refund mark_failed
unprocessed_report_harmless now refund payload db h e = ground arith

abbrev pub payment_status_of : Option Order → Option PaymentStatus
payment_status_of none = none
payment_status_of (some o) = some o.payment_status

abbrev pub refund_status_of : Option PaymentRefund → Option RefundStatus
refund_status_of none = none
refund_status_of (some r) = some r.status

-- The tables after `_mark_succeeded` where both rows are stored.
module _ (now : ℕ) (refund old : PaymentRefund) (status : Option ProviderStatus) (order : Order)
    (db : Db) (stored : get refund_key refund.id db.refunds ≡ some old)
    (ordered : get order_key refund.order_id db.orders ≡ some order)
    (k : IsKeyed entry_key db.settlements) where
  abbrev saved_refund : PaymentRefund
  saved_refund = record refund {
    status = succeeded;
    provider_status = status;
    failure_reason = none;
    processed_at = some now;
  }

  abbrev saved_order : Order
  saved_order = record order { payment_status = refunded }

  abbrev saved_db : Db
  saved_db = record db { refunds = put refund_key saved_refund db.refunds }

  abbrev stored_db : Db
  stored_db = store_order saved_order saved_db

  abbrev voided_db : Db
  voided_db = (respond (void_settlement_for_refund now saved_order order_refunded) stored_db).1

  abbrev final_db : Db
  final_db = if order.payment_status != refunded then voided_db else saved_db

  same_id : order.id ≡ refund.order_id
  same_id = get-key order_key refund.order_id db.orders order ordered

  IsKeyed-after : IsKeyed entry_key stored_db.settlements
  IsKeyed-after =
      subst (IsKeyed entry_key) (sym (store_order_same saved_order saved_db).same_settlements) k

  refund_order_lem :
      (o : Option Order) → o ≡ some order → refund_order now o saved_db ≡ ok (tt, final_db)
  unfolding settle_refunded_order save_order
  refund_order_lem none h = ground arith
  refund_order_lem (some o) h =
      ground (arith, void_settlement_cases now saved_order order_refunded stored_db IsKeyed-after)

  mark_succeeded_lem : mark_succeeded now refund status db ≡ ok (saved_refund, final_db)
  unfolding mark_succeeded save_refund
  mark_succeeded_lem =
      ground (arith, refund_order_lem (get order_key refund.order_id db.orders) ordered)

  final_refund : get refund_key refund.id final_db.refunds ≡ some saved_refund
  final_refund = ground (
    arith,
    get-put_self refund_key saved_refund old db.refunds stored,
    store_order_same saved_order saved_db,
    void_settlement_frame now saved_order order_refunded stored_db,
  )

  final_order : payment_status_of (get order_key refund.order_id final_db.orders) ≡ some refunded
  final_order = ground (
    arith,
    same_id,
    get-put_self order_key saved_order order db.orders,
    store_order-orders saved_order saved_db,
    void_settlement_frame now saved_order order_refunded stored_db,
  )

  final_entry :
      order.payment_status ≢ refunded
      → entry_status (find_by (settles refund.order_id) final_db.settlements)
        ≢ some SettlementStatus.pending
  final_entry ne =
      ground (
        arith,
        same_id,
        void_settlement_cases now saved_order order_refunded stored_db IsKeyed-after,
      )

abbrev pub reported : PaymentRefund → RefundPayload → PaymentRefund
reported refund payload = record refund {
  provider_refund_id =
      if is_some payload.id && is_none refund.provider_refund_id
      then payload.id
      else refund.provider_refund_id;
  provider_status = payload.status;
}

fold_report_processed :
    (now : ℕ) (s : Option ProviderStatus) (refund : PaymentRefund) (db : Db)
    → s ≡ some ProviderStatus.processed
    → fold_report now s refund db ≡ mark_succeeded now refund (some ProviderStatus.processed) db
fold_report_processed now none refund db h = ground arith
fold_report_processed now (some ProviderStatus.processed) refund db h = refl
fold_report_processed now (some ProviderStatus.failed) refund db h = ground arith
fold_report_processed now (some (ProviderStatus.other n)) refund db h = ground arith

-- A `processed` report on a stored refund always succeeds: the refund is stored as succeeded, its order
-- reads refunded, and if it did not before, the merchant is left with no pending entry for it.
pub processed_report_settles :
    (now : ℕ) (refund old : PaymentRefund) (payload : RefundPayload) (order : Order) (db : Db)
    → payload.status ≡ some ProviderStatus.processed
    → get refund_key refund.id db.refunds ≡ some old
    → get order_key refund.order_id db.orders ≡ some order
    → IsKeyed entry_key db.settlements
    → (r : PaymentRefund) × (db' : Db) × (apply_provider_refund_result now refund payload db
        ≡ ok (r, db'))
      × (get refund_key refund.id db'.refunds ≡ some r)
      × (r.status ≡ succeeded)
      × (payment_status_of (get order_key refund.order_id db'.orders) ≡ some refunded)
      × (order.payment_status ≢ refunded
          → entry_status (find_by (settles refund.order_id) db'.settlements)
            ≢ some SettlementStatus.pending)
unfolding apply_provider_refund_result
processed_report_settles now refund old payload order db h s o k =
    let u = reported refund payload in
    let p = some ProviderStatus.processed in
    (
      saved_refund now u old p order db s o k,
      final_db now u old p order db s o k,
      fold_report_processed now payload.status u db h
          ∙ mark_succeeded_lem now u old p order db s o k,
      final_refund now u old p order db s o k,
      refl,
      final_order now u old p order db s o k,
      final_entry now u old p order db s o k,
    )
