-- ===== src/Deliveries.antt =====
-- backend/app/api/v1/routes/delivery_operations.py, first part: a delivery fails, and operations close
-- the failure. The proof of delivery, the cash and the completion are in child modules. Metadata of
-- the audit trail, the second re-reading of a row and display texts are left out.
pub mod Proofs
pub mod Completion
pub mod Guesses
pub mod Returns
pub mod Payday
pub mod Handover
use ai_powered_market.Capabilities.{ensure_capability, require_roles}
use ai_powered_market.Effects.{
  annotate_delivery_transition, annotate_order_transition, enqueue_notification,
  record_admin_action,
}
use ai_powered_market.Model.Keys.{delivery_key, order_key}
use ai_powered_market.Model.Market.{User}
use ai_powered_market.Model.Money.{CodCollection, PaymentRefund}
use ai_powered_market.Model.Orders.{Delivery, Order}
use ai_powered_market.Model.Status.{
  DeliveryStatus, OrderStatus, RefundReason, UserRole, VoidReason, admin, assigned, cod,
  delivery_status_eq, method_eq, order_status_eq, picked_up, ready, refund_write, returned,
  rider_operations, role_eq, settlement_write, unassigned,
}
use ai_powered_market.Orders.{notify_customer, notify_merchant}
use ai_powered_market.Prelude.{
  Bool, Option, String, [], false, find_by, get, is_some, nat_eq, none, not, some, true, ℕ, ◌!=◌,
  ◌&&◌, ◌==◌, ◌||◌, ◌∷◌,
}
use ai_powered_market.Refunds.{ensure_refund_request}
use ai_powered_market.Refunds.Dispatch.{Provider, try_dispatch_order_refund}
use ai_powered_market.Riders.{require_assigned_rider}
use ai_powered_market.Session.{Action, gets, http, or_raise, pure, raise_if, when, ◌>>=◌, ◌>>◌}
use ai_powered_market.Settlements.{void_settlement_for_refund}
use ai_powered_market.Stock.{restore_order_stock_once}
use ai_powered_market.Transitions.{can_transition_order, transition_delivery, transition_order}

-- `_locked_delivery_order`
unfoldable pub locked_delivery_order : ℕ → Action (Delivery × Order)
locked_delivery_order delivery_id = do
  found ← gets (λ db. get delivery_key delivery_id db.deliveries)
  delivery ← or_raise found (http 404 "Delivery not found")
  ordered ← gets (λ db. get order_key delivery.order_id db.orders)
  order ← or_raise ordered (http 409 "Delivery order is missing")
  pure (delivery, order)

-- `DeliveryFailureRequest`
pub record FailureRequest : Type 0 where
  pub failure_reason : String
  pub failure_notes : Option String
  pub failure_evidence_url : Option String

-- All columns are sent to the table by one flush, so they are set before the status here.
unfoldable pub fail_delivery : ℕ → ℕ → FailureRequest → User → Action Delivery
fail_delivery now delivery_id payload user = do
  require_roles (UserRole.delivery ∷ admin ∷ []) user
  both ← locked_delivery_order delivery_id
  require_assigned_rider both.0 user rider_operations
  raise_if (not (both.0.status == assigned || both.0.status == picked_up))
      (http 409 "Only an active delivery can be failed")
  lost ←
      transition_delivery
        (record both.0 {
          failed_at = some now;
          failure_reason = some payload.failure_reason;
          failure_notes = payload.failure_notes;
          failure_evidence_url = payload.failure_evidence_url;
        })
        DeliveryStatus.failed
  annotate_delivery_transition lost (some user.id) (some payload.failure_reason)
  enqueue_notification both.1.user_id "delivery.failed"
  when (user.role == admin) (
      record_admin_action user "delivery.failed" rider_operations lost.id
        (some payload.failure_reason))
  pure lost

-- What recovering and reassigning share: the delivery loses its rider and is open again.
abbrev pub release_delivery :
    User → String → String → Option String → Delivery → Order → Action Delivery
release_delivery user note action reason delivery order db =
    (do
      opened ←
          transition_delivery (record delivery { delivery_partner_id = none; assigned_at = none })
            unassigned
      annotate_delivery_transition opened (some user.id) (some note)
      enqueue_notification order.user_id "delivery.reassignment"
      record_admin_action user action rider_operations opened.id reason
      pure opened)
      db

unfoldable pub recover_failed_delivery : ℕ → User → Action Delivery
recover_failed_delivery delivery_id user = do
  ensure_capability user rider_operations
  both ← locked_delivery_order delivery_id
  raise_if (both.0.status != DeliveryStatus.failed)
      (http 409 "Only a failed delivery can be recovered")
  raise_if (both.1.status != ready || is_some both.0.picked_up_at) (
      http 409 "A delivery can only be reassigned after failure if custody never left the merchant")
  release_delivery user "admin_recovered_before_pickup" "delivery.recovered_before_pickup"
      (some "admin_recovered_before_pickup") both.0 both.1

pub data Resolution : Type 0 where
  reassign return_to_store : Resolution

pub record Resolved : Type 0 where
  pub order_status : OrderStatus
  pub delivery_status : DeliveryStatus
  pub refund_requested : Bool
  pub settlement_voided : Bool

abbrev or_text : Option String → String → Option String
or_text none s = some s
or_text (some t) s = some t

-- The guard of a cash order whose cash is recorded.
abbrev pub collected_for : ℕ → CodCollection → Bool
collected_for delivery_id c = c.delivery_id == delivery_id

abbrev require_no_cash : Delivery → Order → Action (Unit {0})
require_no_cash delivery order db =
    raise_if
      (order.payment_method == cod && is_some (find_by (collected_for delivery.id) db.collections))
      (http 409
        "A cash collection is recorded for this delivery. Reconcile the cash before resolving the failure.")
      db

-- The goods went back: the second half of `resolve_failed_delivery`, up to its commit.
unfoldable pub return_to_store_transaction :
    ℕ → Option String → User → Delivery → Order → Action (Option PaymentRefund × Order)
return_to_store_transaction now notes user delivery order = do
  ensure_capability user refund_write
  ensure_capability user settlement_write
  raise_if (not (can_transition_order order.status returned))
      (http 409 "Order cannot be returned from ")
  require_no_cash delivery order
  restored ← restore_order_stock_once now order
  back ← transition_order restored.1 returned
  annotate_order_transition back (some user.id) (some "delivery_failed_after_pickup")
  void_settlement_for_refund now back VoidReason.delivery_returned
  refund ← ensure_refund_request now back RefundReason.delivery_returned
  notify_customer refund.1 "order.returned"
  notify_merchant refund.1 "merchant.order_returned"
  record_admin_action user "delivery.failure_returned_to_store" settlement_write delivery.id
      (or_text notes "delivery_failed_after_pickup")
  pure refund

abbrev resolve_with :
    Bool → Provider → ℕ → Option String → User → Resolution → Delivery → Order → Action Resolved
resolve_with enabled provider now notes user reassign delivery order db =
    (do
      raise_if (is_some delivery.picked_up_at)
          (http 409 "A delivery can only be reassigned if custody never left the merchant")
      raise_if (order.status != ready) (http 409 "Only a ready order can be reassigned")
      opened ←
          release_delivery user "admin_reassign" "delivery.failure_reassigned"
            (or_text notes "failed_delivery_reassignment") delivery order
      pure (record {
        order_status = order.status;
        delivery_status = opened.status;
        refund_requested = false;
        settlement_voided = false;
      }))
      db
resolve_with enabled provider now notes user return_to_store delivery order db =
    (do
      refund ← return_to_store_transaction now notes user delivery order
      when (is_some refund.0) (try_dispatch_order_refund enabled provider now order.id)
      pure (record {
        order_status = refund.1.status;
        delivery_status = delivery.status;
        refund_requested = is_some refund.0;
        settlement_voided = true;
      }))
      db

unfoldable pub resolve_failed_delivery :
    Bool → Provider → ℕ → ℕ → Resolution → Option String → User → Action Resolved
resolve_failed_delivery enabled provider now delivery_id resolution notes user = do
  ensure_capability user rider_operations
  both ← locked_delivery_order delivery_id
  raise_if (both.0.status != DeliveryStatus.failed)
      (http 409 "Only a failed delivery can be resolved")
  resolve_with enabled provider now notes user resolution both.0 both.1
