-- ===== src/Examples/Deliveries.antt =====
-- The theorems on deliveries at concrete inputs.
use ai_powered_market.Capabilities.{
  capabilities_for, ensure_capability, has_capability, require_roles,
}
use ai_powered_market.Deliveries.{collected_for, locked_delivery_order, return_to_store_transaction}
use ai_powered_market.Deliveries.Completion.{
  complete_delivery_with_financials, is_verified_proof, record_cod_collection, require_cash,
  require_completable, settle_if_paid,
}
use ai_powered_market.Deliveries.Guesses.{WithinBudget, check_guess_lem}
use ai_powered_market.Deliveries.Handover.{complete_delivery_lem}
use ai_powered_market.Deliveries.Payday.{CashMatches, require_completable_lem}
use ai_powered_market.Deliveries.Proofs.{
  ProofSubmit, allowed, check_guess, locked_error, otp_max_verification_attempts, proves,
  save_proof,
}
use ai_powered_market.Deliveries.Returns.{return_to_store_lem}
use ai_powered_market.Effects.{
  annotate_order_transition, annotate_transition, enqueue_notification, record_admin_action,
}
use ai_powered_market.Examples.Data.{code, entry, founder, on_the_way, paid_order, rider, trip}
use ai_powered_market.Model.Db.{Db}
use ai_powered_market.Model.Keys.{delivery_key, order_key}
use ai_powered_market.Model.Money.{CodCollection}
use ai_powered_market.Model.Orders.{Delivery, DeliveryProof, Order}
use ai_powered_market.Model.Status.{
  DeliveryStatus, OrderStatus, PaymentStatus, SettlementStatus, UserRole, admin, assigned, cod,
  out_for_delivery, picked_up, ready, refund_write, returned, settlement_write, unassigned, upi,
}
use ai_powered_market.Orders.{notify_merchant}
use ai_powered_market.Prelude.{
  [], arith, find_by, get, insert, none, put, refl, select, some, true, update_where, ◌+◌, ◌<◌, ◌∷◌,
  ◌≡◌, ◌≢◌, ◌≤◌, ◌⊎◌,
}
use ai_powered_market.Refunds.{
  ensure_refund_request, keyed, latest, latest_captured_attempt, new_refund, refund_idempotency_key,
}
use ai_powered_market.Refunds.Obligation.{owes}
use ai_powered_market.Refunds.Outcome.{payment_status_of}
use ai_powered_market.Riders.{
  claim_delivery, move_with_order, require_assigned_rider, update_delivery_status,
}
use ai_powered_market.Riders.Exclusive.{
  IsExclusive, claim_delivery-IsExclusive, order_status_of, update_delivery_status_cases,
}
use ai_powered_market.Session.{
  Error, Result, audit_delivery, audit_order, err, respond, save_delivery, save_order,
  store_delivery, store_order,
}
use ai_powered_market.Settlements.{
  ensure_settlement_entry, new_entry, refunds_order, settlement_is_eligible, settles,
  void_settlement_for_refund,
}
use ai_powered_market.Settlements.Entitlement.{entry_status}
use ai_powered_market.Stock.{restock, restore_items, restore_order_stock_once}
use ai_powered_market.Stock.Restoration.{IsGivenBack}
use ai_powered_market.Stock.Stamp.{restored_at}
use ai_powered_market.Transitions.{
  can_transition_delivery, can_transition_order, payment_allows_fulfillment, transition_delivery,
  transition_order,
}

abbrev ready_order : Order
ready_order = record paid_order { status = ready }

abbrev open_trip : Delivery
open_trip = record trip {
  delivery_partner_id = none;
  status = unassigned;
  assigned_at = none;
  picked_up_at = none;
}

abbrev waiting : Db
waiting = on_the_way ready_order open_trip

abbrev claimed_trip : Db
claimed_trip = (respond (claim_delivery 9 110 rider) waiting).1

waiting-IsExclusive : IsExclusive waiting.deliveries
unfolding get find_by
waiting-IsExclusive r i j a b ga gb ca cb = ground arith

claim_delivery-IsExclusive_example : IsExclusive claimed_trip.deliveries
unfolding claim_delivery require_roles payment_allows_fulfillment can_transition_delivery
    transition_delivery save_delivery store_delivery audit_delivery enqueue_notification get find_by
    put update_where insert
claim_delivery-IsExclusive_example =
    claim_delivery-IsExclusive 9 110 rider waiting waiting-IsExclusive refl

abbrev assigned_trip : Delivery
assigned_trip = record trip { status = assigned; picked_up_at = none }

abbrev fetching : Db
fetching = on_the_way ready_order assigned_trip

abbrev fetched : Db
fetched = (respond (update_delivery_status 9 110 picked_up rider) fetching).1

abbrev fetched_trip : Delivery
fetched_trip = record trip { picked_up_at = some 9 }

update_delivery_status_cases_example :
    (old : Delivery) × (o : Order) × (get delivery_key 110 fetching.deliveries ≡ some old)
    × (get order_key old.order_id fetching.orders ≡ some o)
    × (can_transition_delivery old.status picked_up ≡ true)
    × ((UserRole.delivery ≡ admin) ⊎ (old.delivery_partner_id ≡ some 3))
    × (picked_up ≡ picked_up)
    × (get delivery_key 110 fetched.deliveries ≡ some fetched_trip)
    × ((picked_up ≡ picked_up)
        → (o.status ≡ ready)
          × (payment_allows_fulfillment o ≡ true)
          × (order_status_of (get order_key old.order_id fetched.orders) ≡ some out_for_delivery)
          × (fetched_trip.picked_up_at ≡ some 9))
    × ((picked_up ≡ unassigned)
        → (o.status ≡ ready)
          × (fetched.orders ≡ fetching.orders)
          × (fetched_trip.delivery_partner_id ≡ none))
    × (picked_up ≢ DeliveryStatus.delivered)
    × (picked_up ≢ DeliveryStatus.failed)
unfolding update_delivery_status require_assigned_rider require_roles move_with_order
    payment_allows_fulfillment can_transition_order can_transition_delivery transition_order
    save_order store_order audit_order transition_delivery save_delivery store_delivery
    audit_delivery enqueue_notification get find_by put update_where insert
update_delivery_status_cases_example =
    update_delivery_status_cases 9 110 picked_up rider fetching refl

abbrev sent_order : Order
sent_order = record paid_order { status = out_for_delivery }

abbrev cash_order : Order
cash_order = record sent_order { payment_method = cod; payment_status = PaymentStatus.pending }

abbrev travelling : Db
travelling = on_the_way cash_order trip

abbrev wrong : ProofSubmit
wrong = record { otp = 1; evidence_url = none; recipient_name = none; notes = none }

abbrev guess_db : Db
guess_db = (respond (check_guess allowed (λ c. c) 9 wrong rider trip code) travelling).1

check_guess_lem_example :
    (p' : DeliveryProof) × (find_by (proves 110) guess_db.proofs ≡ some p')
    × (4 ≤ p'.verification_attempt_count)
    × WithinBudget p'
    × (code.verified_at ≡ none
        → p'.verified_at ≢ none
        → (code.otp_hash ≡ wrong.otp) × (9 < 1000) × (4 < otp_max_verification_attempts))
    × (code.verified_at ≡ none
        → code.otp_hash ≢ wrong.otp
        → (p'.verification_attempt_count ≡ 4 + 1)
          × ((e : Error) × (◌≡◌ {A = Result DeliveryProof} (err locked_error) (err e))))
unfolding check_guess save_proof get find_by put update_where
check_guess_lem_example =
    check_guess_lem allowed (λ c. c) 9 wrong rider trip code travelling (refl, tt) refl
      (omega arith) refl

abbrev locked_code : DeliveryProof
locked_code = record code { verification_attempt_count = 5 }

abbrev second_code : DeliveryProof
second_code = record code {
  otp_hash = 77;
  otp_expires_at = 1000;
  last_challenge_at = some 100;
  challenge_count = 2;
  updated_at = 100;
}

abbrev shown : Db
shown = record (on_the_way sent_order trip) { proofs = record code { verified_at = some 8 } ∷ [] }

require_completable_lem_example :
    (shown ≡ shown)
    × (picked_up ≡ picked_up)
    × (out_for_delivery ≡ out_for_delivery)
    × (is_verified_proof (find_by (proves 110) shown.proofs) ≡ true)
    × ((upi ≡ cod → CashMatches trip sent_order shown)
        × (upi ≢ cod → PaymentStatus.paid ≡ PaymentStatus.paid))
unfolding require_completable require_assigned_rider require_cash can_transition_delivery
    can_transition_order payment_allows_fulfillment find_by
require_completable_lem_example = require_completable_lem trip sent_order rider shown refl

abbrev collected : CodCollection
collected = record {
  id = 1000;
  delivery_id = 110;
  order_id = 50;
  amount = 12000;
  collected_by_user_id = some 3;
  collected_at = 9;
}

abbrev cash_db : Db
cash_db = (respond (record_cod_collection 9 110 12000 rider) travelling).1

abbrev lost : Delivery
lost = record trip { status = DeliveryStatus.failed }

abbrev stranded : Db
stranded = record (on_the_way sent_order lost) { settlements = entry ∷ [] }

abbrev back_db : Db
back_db = (respond (return_to_store_transaction 9 none founder lost sent_order) stranded).1

return_to_store_lem_example :
    (has_capability founder refund_write ≡ true)
    × (has_capability founder settlement_write ≡ true)
    × (out_for_delivery ≡ out_for_delivery)
    × (upi ≡ cod → find_by (collected_for 110) stranded.collections ≡ none)
    × (order_status_of (get order_key 50 back_db.orders) ≡ some returned)
    × (restored_at (get order_key 50 back_db.orders) ≢ none)
    × (entry_status (find_by (settles 50) back_db.settlements) ≢ some SettlementStatus.pending)
    × (owes sent_order ≡ true → find_by (keyed (refund_idempotency_key 50)) back_db.refunds ≢ none)
    × IsGivenBack sent_order stranded back_db
unfolding return_to_store_transaction ensure_capability has_capability capabilities_for
    can_transition_order restore_order_stock_once restore_items restock transition_order
    annotate_order_transition annotate_transition void_settlement_for_refund ensure_refund_request
    latest_captured_attempt latest new_refund enqueue_notification notify_merchant
    record_admin_action save_order store_order audit_order get find_by put update_where select
    insert
return_to_store_lem_example =
    return_to_store_lem 9 none founder lost sent_order stranded refl (refl, tt) (refl, tt) refl

abbrev done_db : Db
done_db = (respond (complete_delivery_with_financials 9 110 rider) shown).1

complete_delivery_lem_example :
    (DeliveryStatus.delivered ≡ DeliveryStatus.delivered)
    × (order_status_of (get order_key 50 done_db.orders) ≡ some OrderStatus.delivered)
    × (payment_status_of (get order_key 50 done_db.orders) ≡ some PaymentStatus.paid)
    × (find_by (refunds_order 50) shown.refunds ≡ none
        → find_by (settles 50) done_db.settlements ≢ none)
unfolding complete_delivery_with_financials require_completable require_assigned_rider require_cash
    settle_if_paid ensure_settlement_entry settlement_is_eligible new_entry require_roles
    locked_delivery_order transition_delivery transition_order save_delivery save_order
    store_delivery store_order audit_delivery audit_order can_transition_delivery
    can_transition_order payment_allows_fulfillment enqueue_notification get find_by put
    update_where insert
complete_delivery_lem_example =
    complete_delivery_lem 9 110 rider trip sent_order shown refl refl refl
