-- ===== src/Orders/Cancellation.antt =====
-- What a cancellation does.
use ai_powered_market.Effects.{annotate_order_transition, annotate_transition, enqueue_notification}
use ai_powered_market.Model.Db.{Db}
use ai_powered_market.Model.Keys.{listing_key, order_key}
use ai_powered_market.Model.Market.{User}
use ai_powered_market.Model.Money.{PaymentRefund}
use ai_powered_market.Model.Orders.{Order}
use ai_powered_market.Model.Status.{OrderStatus, accepted, cancelled, order_cancelled, placed}
use ai_powered_market.Orders.{cancel_transaction, notify_merchant}
use ai_powered_market.Prelude.{
  Bool, IsKeyed, Option, Option-cases, ap, arith, false, find_by, get, get-key, inl, inr, none,
  refl, some, subst, true, ℕ, ◌∙◌, ◌≡◌, ◌≢◌, ◌⊎◌,
}
use ai_powered_market.Refunds.{ensure_refund_request, keyed, refund_idempotency_key}
use ai_powered_market.Refunds.Obligation.{
  ensure_refund_request-listings, ensure_refund_request_after, owes,
}
use ai_powered_market.Riders.Exclusive.{order_status_of}
use ai_powered_market.Session.{
  Result-cases, closed_stored, ok, ordered_again, respond, save_order, store_order,
  store_order-orders, store_order_same,
}
use ai_powered_market.Stock.{restore_order_stock_once}
use ai_powered_market.Stock.Restoration.{IsGivenBack, restore_once-IsGivenBack}
use ai_powered_market.Stock.Stamp.{restore_once_order, restored_at}
use ai_powered_market.Transitions.{can_transition_order, transition_order}

-- The parts of a cancellation that succeeds: the restoring, the move, and the refund request.
cancel_transaction_parts :
    (now order_id : ℕ) (user : User) (db : Db) {r : Option PaymentRefund × Order} {db' : Db}
    → cancel_transaction now order_id user db ≡ ok (r, db')
    → (old : Order) × (restored : Bool × Order) × (db1 db2 db3 : Db) × (get order_key order_id
          db.orders
        ≡ some old)
      × (old.user_id ≡ user.id)
      × (restore_order_stock_once now old db ≡ ok (restored, db1))
      × (can_transition_order old.status cancelled ≡ true)
      × (db2.orders ≡ (store_order (record restored.1 { status = cancelled }) db1).orders)
      × (db2.refunds ≡ db1.refunds)
      × (ensure_refund_request now (record restored.1 { status = cancelled }) order_cancelled db2
          ≡ ok (r, db3))
      × (db'.orders ≡ db3.orders)
      × (db'.refunds ≡ db3.refunds)
unfolding cancel_transaction transition_order save_order annotate_order_transition
    annotate_transition enqueue_notification notify_merchant
cancel_transaction_parts now order_id user db h =
    elim (Option-cases (get order_key order_id db.orders)) [
      | inl absent ↦ absurd (ground arith)
      | inr (old, found) ↦ elim (Result-cases (restore_order_stock_once now old db)) [
        | inr (x, raised) ↦ absurd (ground arith)
        | inl (restored, db1, given) ↦
            let closed = record restored.1 { status = cancelled } in
            let db2 =
              (respond (annotate_order_transition closed (some user.id) (some "customer_cancelled"))
                (store_order closed db1)).1 in
            elim (Result-cases (ensure_refund_request now closed order_cancelled db2)) [
              | inr (x, raised) ↦ absurd (ground arith)
              | inl (r', db3, asked) ↦ (
                old,
                restored,
                db1,
                db2,
                db3,
                found,
                ground arith,
                given,
                ground arith,
                refl,
                (store_order_same closed db1).same_refunds,
                ground arith,
                ground arith,
                ground arith,
              )
            ]
      ]
    ]

-- Of the listings, a cancellation changes what the restoration of the order's stock changes.
pub cancel_transaction-listings :
    (now order_id : ℕ) (user : User) (db : Db) {r : Option PaymentRefund × Order} {db' : Db}
    → cancel_transaction now order_id user db ≡ ok (r, db')
    → (old : Order) × (restored : Bool × Order) × (db1 : Db) × (get order_key order_id db.orders
        ≡ some old)
      × (restore_order_stock_once now old db ≡ ok (restored, db1))
      × (db'.listings ≡ db1.listings)
unfolding cancel_transaction transition_order save_order annotate_order_transition
    annotate_transition enqueue_notification notify_merchant
cancel_transaction-listings now order_id user db h =
    elim (Option-cases (get order_key order_id db.orders)) [
      | inl absent ↦ absurd (ground arith)
      | inr (old, found) ↦ elim (Result-cases (restore_order_stock_once now old db)) [
        | inr (x, raised) ↦ absurd (ground arith)
        | inl (restored, db1, given) ↦
            let closed = record restored.1 { status = cancelled } in
            let db2 =
              (respond (annotate_order_transition closed (some user.id) (some "customer_cancelled"))
                (store_order closed db1)).1 in
            let same2 : db2.listings ≡ db1.listings = (store_order_same closed db1).same_listings in
            elim (Result-cases (ensure_refund_request now closed order_cancelled db2)) [
              | inr (x, raised) ↦ absurd (ground arith)
              | inl (r', db3, asked) ↦ (
                old,
                restored,
                db1,
                found,
                given,
                ground (
                  arith,
                  ensure_refund_request-listings now closed order_cancelled db2 {db' = db3} asked,
                ),
              )
            ]
      ]
    ]

can_cancel :
    (s : OrderStatus) → can_transition_order s cancelled ≡ true → (s ≡ placed) ⊎ (s ≡ accepted)
unfolding can_transition_order
can_cancel s h = ground arith

-- A cancellation that commits, in a database whose listings have keys of their own, found an order of its caller that was
-- placed or accepted. It stores it as cancelled and stamped, gives the store exactly the units of its items back, unless
-- that was done before, and where captured money was owed, the request to refund it stands in the same commit; where
-- none was, no request is returned.
pub cancel_transaction_lem :
    (now order_id : ℕ) (user : User) (db : Db) {r : Option PaymentRefund × Order} {db' : Db}
    → IsKeyed listing_key db.listings
    → cancel_transaction now order_id user db ≡ ok (r, db')
    → (old : Order) × (get order_key order_id db.orders ≡ some old)
      × (old.user_id ≡ user.id)
      × ((old.status ≡ placed) ⊎ (old.status ≡ accepted))
      × (order_status_of (get order_key order_id db'.orders) ≡ some cancelled)
      × (restored_at (get order_key order_id db'.orders) ≢ none)
      × (owes old ≡ true → find_by (keyed (refund_idempotency_key order_id)) db'.refunds ≢ none)
      × (owes old ≡ false → r.0 ≡ none)
      × IsGivenBack old db db'
cancel_transaction_lem now order_id user db {r} {db'} k h =
    let (
      old, restored, db1, db2, db3, found, own, given, able, orders2, refunds2, asked, orders3,
      refunds3,
    ) =
      cancel_transaction_parts now order_id user db h in
    let (old2, restored2, at, found2, given2, same2) =
      cancel_transaction-listings now order_id user db {r = r} {db' = db'} h in
    let one : old2 ≡ old = ground arith in
    let back = restore_once-IsGivenBack now old2 db db' {r = restored2} {db1 = at} k given2 same2 in
    let closed = record restored.1 { status = cancelled } in
    let old_id = get-key order_key order_id db.orders old found in
    let stored = ordered_again old order_id db old_id found in
    let (held, form, stamped, remembered, books) = restore_once_order now old db stored given in
    let written =
      closed_stored restored.1 old.id closed db1 db2 (ap (λ (o : Order). o.id) form) refl held
        (orders2 ∙ store_order-orders closed db1) in
    let (row, same, owed, free, entries) =
      ensure_refund_request_after now closed order_cancelled db2 written asked in
    (
      old,
      found,
      own,
      can_cancel old.status able,
      ground (arith, old_id, form, row, same, orders3),
      ground (arith, old_id, form, row, same, orders3, stamped),
      ground (arith, old_id, form, owed, refunds3),
      ground (arith, form, free),
      subst (λ (o : Order). IsGivenBack o db db') one back,
    )
