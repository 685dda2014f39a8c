-- ===== src/Examples/Orders.antt =====
-- The theorems on the life of an order at concrete inputs.
use ai_powered_market.Capabilities.{has_capability, require_roles}
use ai_powered_market.Effects.{annotate_order_transition, annotate_transition, enqueue_notification}
use ai_powered_market.Examples.Data.{alice, market, owner, paid_order}
use ai_powered_market.Model.Db.{Db}
use ai_powered_market.Model.Keys.{order_key}
use ai_powered_market.Model.Money.{PaymentRefund}
use ai_powered_market.Model.Orders.{Order}
use ai_powered_market.Model.Status.{
  DeliveryStatus, UserRole, accepted, admin, assigned, cancelled, order_cancelled, order_status_eq,
  picked_up, placed, ready, refund_write, unassigned,
}
use ai_powered_market.Orders.{
  authorise_update, cancel_transaction, effects_of_update, notify_merchant, update_transaction,
}
use ai_powered_market.Orders.Cancellation.{cancel_transaction_lem}
use ai_powered_market.Orders.Fulfilment.{update_transaction_lem}
use ai_powered_market.Prelude.{
  arith, contains, false, find_by, get, insert, none, put, refl, select, some, true, update_where,
  ◌+◌, ◌≡◌, ◌≢◌, ◌≤◌, ◌⊎◌,
}
use ai_powered_market.Refunds.{
  ensure_refund_request, keyed, latest, latest_captured_attempt, new_refund, refund_idempotency_key,
}
use ai_powered_market.Refunds.Obligation.{owes}
use ai_powered_market.Riders.Exclusive.{order_status_of}
use ai_powered_market.Session.{audit_order, ok, respond, save_order, store_order}
use ai_powered_market.Stock.{restock, restore_items, restore_order_stock_once}
use ai_powered_market.Stock.Restoration.{IsGivenBack}
use ai_powered_market.Stock.Stamp.{restored_at}
use ai_powered_market.Transitions.{
  can_transition_delivery, can_transition_order, merchant_assignable_statuses,
  payment_allows_fulfillment, transition_order,
}
use ai_powered_market.Transitions.Lifecycle.{DeliveryHistory, History, stage, steps, steps-le_stage}

abbrev way : History placed cancelled
unfolding can_transition_order
way = History.next {t = accepted} (History.next {t = placed} History.start refl) refl

steps-le_stage_example : stage placed + steps way ≤ stage cancelled
steps-le_stage_example = steps-le_stage way

placed_not_cancelled : placed ≢ cancelled
placed_not_cancelled = ground arith

abbrev journey : DeliveryHistory unassigned DeliveryStatus.delivered
unfolding can_transition_delivery
journey =
    DeliveryHistory.step {t = picked_up}
      (DeliveryHistory.step {t = assigned}
        (DeliveryHistory.step {t = unassigned} DeliveryHistory.begin refl) refl)
      refl

unassigned_not_delivered : unassigned ≢ DeliveryStatus.delivered
unassigned_not_delivered = ground arith

-- The cancellation takes numbers for the audit event and the refund: 1000 and 1001.
abbrev cancel_refund : PaymentRefund
cancel_refund =
    new_refund 1001 9 paid_order (latest_captured_attempt (market paid_order) 50) order_cancelled

abbrev cancel_db : Db
cancel_db = (respond (cancel_transaction 9 50 alice) (market paid_order)).1

cancel_transaction_lem_example :
    (old : Order) × (get order_key 50 (market paid_order).orders ≡ some old)
    × (old.user_id ≡ 1)
    × ((old.status ≡ placed) ⊎ (old.status ≡ accepted))
    × (order_status_of (get order_key 50 cancel_db.orders) ≡ some cancelled)
    × (restored_at (get order_key 50 cancel_db.orders) ≢ none)
    × (owes old ≡ true → find_by (keyed (refund_idempotency_key 50)) cancel_db.refunds ≢ none)
    × (owes old ≡ false → some cancel_refund ≡ none)
    × IsGivenBack old (market paid_order) cancel_db
unfolding cancel_transaction can_transition_order restore_order_stock_once restore_items restock
    transition_order annotate_order_transition annotate_transition ensure_refund_request
    latest_captured_attempt latest new_refund enqueue_notification notify_merchant save_order
    store_order audit_order get find_by put update_where select insert
cancel_transaction_lem_example =
    cancel_transaction_lem 9 50 alice (market paid_order) (refl, tt) refl

update_transaction_lem_example :
    (old : Order) × (get order_key 50 (market paid_order).orders ≡ some old)
    × ((UserRole.merchant ≡ admin) ⊎ (UserRole.merchant ≡ UserRole.merchant))
    × (contains merchant_assignable_statuses accepted ≡ true)
    × (can_transition_order old.status accepted ≡ true)
    × (accepted ≡ ready → payment_allows_fulfillment old ≡ true)
    × (UserRole.merchant ≡ admin → accepted ≡ cancelled → has_capability owner refund_write ≡ true)
    × (authorise_update old owner (market paid_order) ≡ ok (tt, market paid_order))
    × (accepted ≡ accepted)
unfolding update_transaction require_roles authorise_update can_transition_order effects_of_update
    transition_order save_order store_order audit_order annotate_order_transition
    annotate_transition enqueue_notification get find_by put update_where insert
update_transaction_lem_example = update_transaction_lem 9 50 accepted owner (market paid_order) refl
