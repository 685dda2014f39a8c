-- ===== src/Deliveries/Handover.antt =====
-- What a completion writes.
use ai_powered_market.Capabilities.{require_roles}
use ai_powered_market.Deliveries.{locked_delivery_order}
use ai_powered_market.Deliveries.Completion.{
  complete_delivery_with_financials, paid_on_delivery, require_completable, settle_if_paid,
}
use ai_powered_market.Deliveries.Payday.{require_completable_lem}
use ai_powered_market.Effects.{enqueue_notification, record_admin_action}
use ai_powered_market.Model.Db.{Db}
use ai_powered_market.Model.Keys.{delivery_key, order_key}
use ai_powered_market.Model.Market.{User}
use ai_powered_market.Model.Orders.{Delivery, Order}
use ai_powered_market.Model.Status.{DeliveryStatus, OrderStatus, PaymentMethod, PaymentStatus, cod}
use ai_powered_market.Prelude.{
  ap, arith, find_by, get, get-key, get-put_self, inl, inr, none, some, sym, true, ℕ, ◌∙◌, ◌≡◌, ◌≢◌,
  ◌⊎◌,
}
use ai_powered_market.Refunds.Outcome.{payment_status_of}
use ai_powered_market.Riders.Exclusive.{order_status_of}
use ai_powered_market.Session.{
  Result-cases, ok, save_delivery, save_order, store_delivery, store_delivery_same, store_order,
  store_order-orders, store_order_same,
}
use ai_powered_market.Settlements.{
  ensure_settlement_entry, refunds_order, settlement_is_eligible, settles,
}
use ai_powered_market.Settlements.Entitlement.{ensure_settlement_entry_after}
use ai_powered_market.Transitions.{
  can_transition_delivery, can_transition_order, transition_delivery, transition_order,
}

abbrev delivered_order : Order → Order
delivered_order o = record (paid_on_delivery o) { status = OrderStatus.delivered }

method_is_cod : (m : PaymentMethod) → (m ≡ cod) ⊎ (m ≢ cod)
method_is_cod m = ground arith

settle_if_paid_lem :
    (o : Order) (db : Db) {u : Unit {0}} {db' : Db}
    → settle_if_paid o db ≡ ok (u, db')
    → (db'.orders ≡ db.orders)
      × (o.payment_status ≡ PaymentStatus.paid
          → settlement_is_eligible db o ≡ true
          → find_by (settles o.id) db'.settlements ≢ none)
unfolding settle_if_paid
settle_if_paid_lem o db h = elim (Result-cases (ensure_settlement_entry o db)) [
  | inl (e, db1, settled_so) ↦ ground (arith, ensure_settlement_entry_after o db settled_so)
  | inr (x, raised) ↦ ground arith
]

eligible_when :
    (o : Order) (db : Db)
    → o.payment_status ≡ PaymentStatus.paid
    → o.status ≡ OrderStatus.delivered
    → find_by (refunds_order o.id) db.refunds ≡ none
    → settlement_is_eligible db o ≡ true
unfolding settlement_is_eligible
eligible_when o db p s n = ground arith

paid_when :
    (o : Order) {A : Type 0}
    → ((o.payment_method ≡ cod → A)
        × (o.payment_method ≢ cod → o.payment_status ≡ PaymentStatus.paid))
    → (paid_on_delivery o).payment_status ≡ PaymentStatus.paid
paid_when o h = elim (method_is_cod o.payment_method) [
  | inl c ↦ ground arith
  | inr n ↦ let p = h.1 n in ground arith
]

handed_over :
    (d : Delivery) (o0 : Order) (k : ℕ) (db : Db) {v : Unit {0}} {db3 : Db}
    → get order_key k db.orders ≡ some o0
    → (paid_on_delivery o0).payment_status ≡ PaymentStatus.paid
    → settle_if_paid (delivered_order o0) (store_order (delivered_order o0) (store_delivery d db))
      ≡ ok (v, db3)
    → (order_status_of (get order_key k db3.orders) ≡ some OrderStatus.delivered)
      × (payment_status_of (get order_key k db3.orders) ≡ some PaymentStatus.paid)
      × (find_by (refunds_order o0.id) db.refunds ≡ none
          → find_by (settles o0.id) db3.settlements ≢ none)
handed_over d o0 k db {db3 = db3} stored p h =
    let over = delivered_order o0 in
    let db1 = store_delivery d db in
    let db2 = store_order over db1 in
    let (same, entitled) = settle_if_paid_lem over db2 h in
    let id : over.id ≡ o0.id = ground arith in
    let same1 = store_delivery_same d db in
    let stored1 : get order_key over.id db1.orders ≡ some o0 =
      ground (arith, get-key order_key k db.orders o0 stored) in
    let row : get order_key k db3.orders ≡ some over = ground (
      arith,
      get-key order_key k db.orders o0 stored,
      store_order-orders over db1,
      get-put_self order_key over o0 db1.orders stored1,
    ) in
    (
      ap order_status_of row,
      ground arith,
      ground (arith, eligible_when over db2, store_order_same over db1),
    )

-- A completion that commits stores the order as delivered and paid, and the delivery that it returns is
-- delivered; and unless a refund of the order exists, the merchant has an entry for it.
pub complete_delivery_lem :
    (now delivery_id : ℕ) (user : User) (d0 : Delivery) (o0 : Order) (db : Db) {d : Delivery}
    {db' : Db}
    → get delivery_key delivery_id db.deliveries ≡ some d0
    → get order_key d0.order_id db.orders ≡ some o0
    → complete_delivery_with_financials now delivery_id user db ≡ ok (d, db')
    → (d.status ≡ DeliveryStatus.delivered)
      × (order_status_of (get order_key d0.order_id db'.orders) ≡ some OrderStatus.delivered)
      × (payment_status_of (get order_key d0.order_id db'.orders) ≡ some PaymentStatus.paid)
      × (find_by (refunds_order o0.id) db.refunds ≡ none
          → find_by (settles o0.id) db'.settlements ≢ none)
unfolding complete_delivery_with_financials require_roles locked_delivery_order transition_delivery
    transition_order save_delivery save_order can_transition_delivery can_transition_order
    enqueue_notification record_admin_action
complete_delivery_lem now delivery_id user d0 o0 db {d} {db'} fd fo h =
    let over = delivered_order o0 in
    let handed = record d0 { delivered_at = some now; status = DeliveryStatus.delivered } in
    let db1 = store_delivery handed db in
    let db2 = store_order over db1 in
    elim (Result-cases (require_completable d0 o0 user db)) [
      | inr (x, raised) ↦ absurd (ground arith)
      | inl (u, db0, passed) ↦ elim (Result-cases (settle_if_paid over db2)) [
        | inr (x, raised) ↦ absurd (ground (arith, require_completable_lem d0 o0 user db passed))
        | inl (v, db3, settled_so) ↦
            let guards = require_completable_lem d0 o0 user db passed in
            let written : (d ≡ handed)
                × (db'.orders ≡ db3.orders)
                × (db'.settlements ≡ db3.settlements) =
              ground (arith, guards) in
            let (reads, paid_so, entitled) =
              handed_over handed o0 d0.order_id db fo (paid_when o0 guards.4) settled_so in
            (
              ap (λ (d : Delivery). d.status) written.0,
              ap (λ os. order_status_of (get order_key d0.order_id os)) written.1 ∙ reads,
              ap (λ os. payment_status_of (get order_key d0.order_id os)) written.1 ∙ paid_so,
              λ n e. entitled n (ap (find_by (settles o0.id)) (sym written.2) ∙ e),
            )
      ]
    ]
