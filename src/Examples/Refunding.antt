-- ===== src/Examples/Refunding.antt =====
-- The theorems on refunds at concrete inputs.
use ai_powered_market.Capabilities.{capabilities_for, has_capability}
use ai_powered_market.Examples.Data.{founder, market, owed, paid_order, refunding}
use ai_powered_market.Model.Db.{Db}
use ai_powered_market.Model.Keys.{order_key, refund_key}
use ai_powered_market.Model.Money.{PaymentRefund, ProviderStatus, order_refund}
use ai_powered_market.Model.Orders.{Order}
use ai_powered_market.Model.Status.{
  RefundStatus, SettlementStatus, cancelled, order_cancelled, processing, refund_pending,
  refund_write, refunded, requested, succeeded,
}
use ai_powered_market.Prelude.{
  [], arith, count_where, false, find_by, get, insert, none, refl, select, some, true, ◌∷◌, ◌≡◌,
  ◌≢◌, ◌≤◌, ◌⊎◌,
}
use ai_powered_market.Refunds.{
  RefundPayload, apply_provider_refund_result, ensure_refund_request, keyed, latest,
  latest_captured_attempt, refund_idempotency_key, save_refund,
}
use ai_powered_market.Refunds.Administration.{retry_transaction}
use ai_powered_market.Refunds.Dispatch.{
  DispatchStatus, call, claim_refund, dispatch_refund, settle_refund, unreachable,
}
use ai_powered_market.Refunds.Obligation.{
  ensure_refund_request_cases, ensure_refund_request_unique, owes,
}
use ai_powered_market.Refunds.Outcome.{
  payment_status_of, processed_report_settles, refund_status_of,
}
use ai_powered_market.Refunds.Overwriting.{IsUnprocessed, late_failure_overwrites}
use ai_powered_market.Refunds.Retry.{retry_revives}
use ai_powered_market.Refunds.Sending.{NeverProcessed, claimed_refund_stuck}
use ai_powered_market.Session.{audit_order, ok, respond, save_order, store_order}
use ai_powered_market.Settlements.{settles}
use ai_powered_market.Settlements.Entitlement.{entry_status}

none_not_processed : none ≢ some ProviderStatus.processed
none_not_processed = ground arith

down-NeverProcessed : NeverProcessed (λ p a k. unreachable "down")
down-NeverProcessed payment amount key payload h = ground arith

abbrev processed_payload : RefundPayload
processed_payload = record { id = some 900; status = some ProviderStatus.processed }

abbrev owed_order : Order
owed_order = record paid_order { status = cancelled; payment_status = refund_pending }

processed_report_settles_example :
    (r : PaymentRefund) × (db' : Db) × (apply_provider_refund_result 9 owed processed_payload
        refunding
      ≡ ok (r, db'))
    × (get refund_key 90 db'.refunds ≡ some r)
    × (r.status ≡ succeeded)
    × (payment_status_of (get order_key 50 db'.orders) ≡ some refunded)
    × (refund_pending ≢ refunded
        → entry_status (find_by (settles 50) db'.settlements) ≢ some SettlementStatus.pending)
unfolding get find_by
processed_report_settles_example =
    processed_report_settles 9 owed owed processed_payload owed_order refunding refl refl refl
      (refl, tt)

abbrev pending_payload : RefundPayload
pending_payload = record { id = some 900; status = none }

abbrev pending_db : Db
pending_db = (respond (apply_provider_refund_result 9 owed pending_payload) refunding).1

abbrev claimed_db : Db
claimed_db = (respond (claim_refund true 9 90) refunding).1

claimed_refund_stuck_example :
    (d : DispatchStatus) × (dispatch_refund true (λ p a k. unreachable "down") 99 90 claimed_db
      ≡ ok (d, claimed_db))
    × (refund_status_of (get refund_key 90 claimed_db.refunds) ≡ some processing)
unfolding claim_refund save_refund get find_by
claimed_refund_stuck_example =
    claimed_refund_stuck true true (λ p a k. unreachable "down") 9 99 90 801 12000 (order_refund 50)
      owed refunding refl refl

abbrev confirmed : Db
confirmed = record refunding { refunds = record owed { status = succeeded } ∷ [] }

timeout_IsUnprocessed : IsUnprocessed (unreachable "timeout")
timeout_IsUnprocessed payload h = ground arith

late_failure_overwrites_example :
    (d : DispatchStatus) × (saved : PaymentRefund) × (db' : Db) × (settle_refund 9 90
        (unreachable "timeout")
        confirmed
      ≡ ok (d, db'))
    × (get refund_key 90 db'.refunds ≡ some saved)
    × ((saved.status ≡ RefundStatus.failed) ⊎ (saved.status ≡ processing))
    × (db'.orders ≡ confirmed.orders)
unfolding get find_by
late_failure_overwrites_example =
    late_failure_overwrites 9 90 (unreachable "timeout") (record owed { status = succeeded })
      confirmed refl refl timeout_IsUnprocessed

abbrev sent_db : Db
sent_db = (respond (dispatch_refund true (λ p a k. unreachable "down") 9 90) refunding).1

ensure_refund_request_unique_example :
    count_where
      (keyed (refund_idempotency_key 50))
      (respond (ensure_refund_request 9 paid_order order_cancelled) (market paid_order)).1.refunds
    ≤ 1
unfolding ensure_refund_request save_order store_order audit_order get find_by
    latest_captured_attempt latest select insert
ensure_refund_request_unique_example =
    ensure_refund_request_unique 9 50 paid_order order_cancelled (market paid_order) (omega arith)
      refl

abbrev asked_db : Db
asked_db = (respond (ensure_refund_request 9 paid_order order_cancelled) (market paid_order)).1

ensure_refund_request_cases_example :
    let order' = record paid_order { payment_status = refund_pending } in
    let existing = find_by (keyed (refund_idempotency_key 50)) (market paid_order).refunds in
    (owes paid_order ≡ false
      → ensure_refund_request 9 paid_order order_cancelled (market paid_order)
        ≡ ok ((none, paid_order), market paid_order))
    × ((r : PaymentRefund)
        → owes paid_order ≡ true
        → existing ≡ some r
        → ensure_refund_request 9 paid_order order_cancelled (market paid_order)
          ≡ ok ((some r, paid_order), market paid_order))
    × (owes paid_order ≡ true
        → existing ≡ none
        → (r : PaymentRefund) × (ensure_refund_request 9 paid_order order_cancelled
              (market paid_order)
            ≡ ok ((some r, order'), asked_db))
          × (r.amount ≡ 12000)
          × (r.status ≡ requested)
          × (find_by (keyed (refund_idempotency_key 50)) asked_db.refunds ≡ some r)
          × (get order_key 50 asked_db.orders ≡ some order'))
unfolding get find_by
ensure_refund_request_cases_example =
    ensure_refund_request_cases 9 paid_order order_cancelled (market paid_order) refl

abbrev spent : PaymentRefund
spent = record owed { status = RefundStatus.failed; attempt_count = 8 }

abbrev spent_db : Db
spent_db = record refunding { refunds = spent ∷ [] }

founder_refunds : has_capability founder refund_write ≡ true
unfolding has_capability capabilities_for
founder_refunds = refl

retry_revives_example :
    (db1 db2 : Db) × (retry_transaction 90 founder spent_db ≡ ok (tt, db1))
    × (claim_refund true 99 90 db1 ≡ ok (call 801 12000 (order_refund 50), db2))
    × (db2.orders ≡ spent_db.orders)
unfolding get find_by
retry_revives_example =
    retry_revives 99 90 801 spent founder spent_db founder_refunds refl refl refl refl
