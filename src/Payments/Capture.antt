-- ===== src/Payments/Capture.antt =====
-- What a captured payment does to an order.
use ai_powered_market.Model.Db.{Db}
use ai_powered_market.Model.Keys.{order_key}
use ai_powered_market.Model.Money.{PaymentAttempt}
use ai_powered_market.Model.Orders.{Order}
use ai_powered_market.Model.Status.{PaymentStatus, cancelled, capture_after_cancellation, upi}
use ai_powered_market.Payments.{
  apply_failed, apply_paid, capture_order, is_refunding, late_capture, save_attempt, show_attempt,
  take_payment_id,
}
use ai_powered_market.Prelude.{
  Option, arith, false, find_by, get, get-put_self, inl, inr, none, some, true, ℕ, ◌≡◌, ◌≢◌, ◌⊎◌,
}
use ai_powered_market.Refunds.{ensure_refund_request, keyed, refund_idempotency_key}
use ai_powered_market.Refunds.Obligation.{ensure_refund_request_after}
use ai_powered_market.Session.{
  Result-cases, ok, respond, save_order, store_order, store_order-orders, store_order_same,
}

take_payment_id_same :
    (payment_id : Option ℕ) (a : PaymentAttempt) (db : Db) {t : PaymentAttempt} {db' : Db}
    → take_payment_id payment_id a db ≡ ok (t, db')
    → db' ≡ db
take_payment_id_same none a db h = ground arith
take_payment_id_same (some payment_id) a db h = ground arith

late_capture_lem :
    (now : ℕ) (order : Order) (db : Db) {o : Order} {db' : Db}
    → get order_key order.id db.orders ≡ some order
    → late_capture now order db ≡ ok (o, db')
    → (o.status ≡ order.status)
      × (get order_key order.id db'.orders ≡ some o)
      × (order.payment_method ≡ upi
          → find_by (keyed (refund_idempotency_key order.id)) db'.refunds ≢ none)
      × (db'.settlements ≡ db.settlements)
unfolding late_capture save_order
late_capture_lem now order db stored h =
    let paid_for = record order { payment_status = PaymentStatus.paid } in
    let db1 = store_order paid_for db in
    let stored1 : get order_key paid_for.id db1.orders ≡ some paid_for = ground (
      arith,
      store_order-orders paid_for db,
      get-put_self order_key paid_for order db.orders stored,
    ) in
    elim (Result-cases (ensure_refund_request now paid_for capture_after_cancellation db1)) [
      | inr (x, raised) ↦ absurd (ground arith)
      | inl (r, db2, asked) ↦ ground (
        arith,
        ensure_refund_request_after now paid_for capture_after_cancellation db1 stored1 asked,
        store_order_same paid_for db,
      )
    ]

-- Two databases that differ in the attempts at most, as far as a capture reads and writes.
pub record SameButAttempts (db db' : Db) : Type 0 where
  pub same_orders : db'.orders ≡ db.orders
  pub same_refunds : db'.refunds ≡ db.refunds
  pub same_settlements : db'.settlements ≡ db.settlements
  pub same_events : db'.webhook_events ≡ db.webhook_events

show_attempt_same :
    (a t : PaymentAttempt) (db : Db)
    → (db' : Db) × (show_attempt a t db ≡ ok (tt, db')) × SameButAttempts db db'
unfolding show_attempt
show_attempt_same a t db =
    let db1 : Db = (respond (show_attempt a t) db).1 in
    (
      db1,
      ground arith,
      record {
        same_orders = ground arith;
        same_refunds = ground arith;
        same_settlements = ground arith;
        same_events = ground arith;
      },
    )

-- What a capture does to the order stands between two writes of the attempt.
pub apply_paid_parts :
    (now : ℕ) (a : PaymentAttempt) (order : Order) (payment_id : Option ℕ) (db : Db) {o : Order}
    {db' : Db}
    → apply_paid now a order payment_id db ≡ ok (o, db')
    → (t : PaymentAttempt) × (db1 db2 : Db) × (show_attempt a t db ≡ ok (tt, db1))
      × SameButAttempts db db1
      × (capture_order now order db1 ≡ ok (o, db2))
      × SameButAttempts db2 db'
unfolding apply_paid save_attempt
apply_paid_parts now a order payment_id db {o} {db'} h =
    elim (Result-cases (take_payment_id payment_id a db)) [
      | inr (x, raised) ↦ absurd (ground arith)
      | inl (t, db0, taken_so) ↦
          let same : db0 ≡ db = take_payment_id_same payment_id a db taken_so in
          let (db1, shown, same1) = show_attempt_same a t db in
          elim (Result-cases (capture_order now order db1)) [
            | inr (x, raised) ↦ absurd (ground arith)
            | inl (o2, db2, done_so) ↦ (
              t,
              db1,
              db2,
              shown,
              same1,
              ground arith,
              record {
                same_orders = ground arith;
                same_refunds = ground arith;
                same_settlements = ground arith;
                same_events = ground arith;
              },
            )
          ]
    ]

capture_order_lem :
    (now : ℕ) (order : Order) (db : Db) {o : Order} {db' : Db}
    → get order_key order.id db.orders ≡ some order
    → capture_order now order db ≡ ok (o, db')
    → (o.status ≡ order.status)
      × (is_refunding order ≡ true
          → (o ≡ order) × (db'.orders ≡ db.orders) × (db'.settlements ≡ db.settlements))
      × (order.status ≡ cancelled
          → is_refunding order ≡ false
          → (get order_key order.id db'.orders ≡ some o)
            × (order.payment_method ≡ upi
                → find_by (keyed (refund_idempotency_key order.id)) db'.refunds ≢ none)
            × (db'.settlements ≡ db.settlements))
      × (order.status ≢ cancelled
          → is_refunding order ≡ false
          → o ≡ record order { payment_status = PaymentStatus.paid })
unfolding capture_order save_order
capture_order_lem now order db {o} {db'} stored h =
    let late = late_capture_lem now order db {o = o} {db' = db'} stored in
    (ground (arith, late), ground arith, ground (arith, late), ground arith)

-- A capture that is applied never changes the order's status. Where the order is being refunded already,
-- its row is left as it is. Where it is cancelled and not refunding, the order is stored as it is
-- returned, and for an online order the request to refund the late money stands. In both cases no
-- settlement entry is written. Any other order is returned as paid.
pub apply_paid_cases :
    (now : ℕ) (a : PaymentAttempt) (order : Order) (payment_id : Option ℕ) (db : Db) {o : Order}
    {db' : Db}
    → get order_key order.id db.orders ≡ some order
    → apply_paid now a order payment_id db ≡ ok (o, db')
    → (o.status ≡ order.status)
      × (is_refunding order ≡ true
          → (o ≡ order) × (db'.orders ≡ db.orders) × (db'.settlements ≡ db.settlements))
      × (order.status ≡ cancelled
          → is_refunding order ≡ false
          → (get order_key order.id db'.orders ≡ some o)
            × (order.payment_method ≡ upi
                → find_by (keyed (refund_idempotency_key order.id)) db'.refunds ≢ none)
            × (db'.settlements ≡ db.settlements))
      × (order.status ≢ cancelled
          → is_refunding order ≡ false
          → o ≡ record order { payment_status = PaymentStatus.paid })
apply_paid_cases now a order payment_id db {o} {db'} stored h =
    let (t, db1, db2, shown, same1, captures, same2) =
      apply_paid_parts now a order payment_id db {o = o} {db' = db'} h in
    let stored1 : get order_key order.id db1.orders ≡ some order =
      ground (arith, same1.same_orders) in
    let cases = capture_order_lem now order db1 {o = o} {db' = db2} stored1 captures in
    ground (arith, cases, same1, same2)

-- A late report of a failure writes nothing where the order is cancelled, paid, or being refunded.
pub late_failure_ignored :
    (now : ℕ) (a : PaymentAttempt) (order : Order) (db : Db)
    → ((order.status ≡ cancelled)
        ⊎ (order.payment_status ≡ PaymentStatus.paid)
        ⊎ (is_refunding order ≡ true))
    → apply_failed now a order db ≡ ok (tt, db)
unfolding apply_failed
late_failure_ignored now a order db h = ground arith
