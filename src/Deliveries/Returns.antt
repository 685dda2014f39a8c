-- ===== src/Deliveries/Returns.antt =====
-- What a failed delivery leads to.
use ai_powered_market.Capabilities.{ensure_capability, has_capability}
use ai_powered_market.Deliveries.{collected_for, return_to_store_transaction}
use ai_powered_market.Effects.{
  annotate_order_transition, annotate_transition, enqueue_notification, record_admin_action,
}
use ai_powered_market.Model.Db.{Db}
use ai_powered_market.Model.Keys.{entry_key, listing_key, order_key}
use ai_powered_market.Model.Market.{User}
use ai_powered_market.Model.Money.{PaymentRefund}
use ai_powered_market.Model.Orders.{Delivery, Order}
use ai_powered_market.Model.Status.{
  RefundReason, SettlementStatus, VoidReason, cod, out_for_delivery, refund_write, returned,
  settlement_write,
}
use ai_powered_market.Orders.{notify_merchant}
use ai_powered_market.Prelude.{
  Bool, IsKeyed, Option, String, ap, arith, find_by, get, inl, inr, none, refl, some, subst, sym,
  true, ℕ, ◌∙◌, ◌≡◌, ◌≢◌,
}
use ai_powered_market.Refunds.{ensure_refund_request, keyed, refund_idempotency_key}
use ai_powered_market.Refunds.Obligation.{
  ensure_refund_request-listings, ensure_refund_request_after, owes,
}
use ai_powered_market.Riders.Exclusive.{order_status_of}
use ai_powered_market.Session.{
  Result-cases, closed_stored, ok, respond, save_order, store_order, store_order-orders,
  store_order_same,
}
use ai_powered_market.Settlements.{settles, void_settlement_for_refund}
use ai_powered_market.Settlements.Entitlement.{
  entry_status, void_settlement_cases, void_settlement_frame,
}
use ai_powered_market.Stock.{restore_order_stock_once}
use ai_powered_market.Stock.Restoration.{IsGivenBack, restore_once-IsGivenBack}
use ai_powered_market.Stock.Stamp.{restore_once_order, restored_at}
use ai_powered_market.Transitions.{can_transition_order, transition_order}

-- The parts of a return that commits: its guards, the restoring, the move, the voiding and the refund request.
pub return_parts :
    (now : ℕ) (remarks : Option String) (user : User) (d : Delivery) (o : Order) (db : Db)
    {r : Option PaymentRefund × Order} {db' : Db}
    → return_to_store_transaction now remarks user d o db ≡ ok (r, db')
    → (restored : Bool × Order) × (db1 db2 db3 db4 : Db) × (has_capability user refund_write ≡ true)
      × (has_capability user settlement_write ≡ true)
      × (o.status ≡ out_for_delivery)
      × (o.payment_method ≡ cod → find_by (collected_for d.id) db.collections ≡ none)
      × (restore_order_stock_once now o db ≡ ok (restored, db1))
      × (db2.orders ≡ (store_order (record restored.1 { status = returned }) db1).orders)
      × (db2.settlements ≡ (store_order (record restored.1 { status = returned }) db1).settlements)
      × (db3
          ≡ (respond
              (void_settlement_for_refund now
                (record restored.1 { status = returned })
                VoidReason.delivery_returned)
              db2).1)
      × (ensure_refund_request now
            (record restored.1 { status = returned })
            RefundReason.delivery_returned
            db3
          ≡ ok (r, db4))
      × (db'.orders ≡ db4.orders)
      × (db'.refunds ≡ db4.refunds)
      × (db'.settlements ≡ db4.settlements)
      × (db'.listings ≡ db1.listings)
unfolding return_to_store_transaction ensure_capability can_transition_order transition_order
    save_order annotate_order_transition annotate_transition enqueue_notification notify_merchant
    record_admin_action
return_parts now remarks user d o db h = elim (Result-cases (restore_order_stock_once now o db)) [
  | inr (x, raised) ↦ absurd (ground arith)
  | inl (restored, db1, given) ↦
      let back = record restored.1 { status = returned } in
      let db2 =
        (respond
          (annotate_order_transition back (some user.id) (some "delivery_failed_after_pickup"))
          (store_order back db1)).1 in
      elim (Result-cases (void_settlement_for_refund now back VoidReason.delivery_returned db2)) [
        | inr (x, raised) ↦ absurd (ground arith)
        | inl (u, db3, voided_so) ↦
            elim (Result-cases
              (ensure_refund_request now back RefundReason.delivery_returned db3)) [
                | inr (x, raised) ↦ absurd (ground arith)
                | inl (r', db4, asked) ↦ (
                  restored,
                  db1,
                  db2,
                  db3,
                  db4,
                  ground arith,
                  ground arith,
                  ground arith,
                  ground arith,
                  given,
                  refl,
                  refl,
                  ground arith,
                  ground arith,
                  ground arith,
                  ground arith,
                  ground arith,
                  ground (
                    arith,
                    (store_order_same back db1).same_listings,
                    void_settlement_frame now back VoidReason.delivery_returned db2,
                    ensure_refund_request-listings now back RefundReason.delivery_returned db3
                        {r = r'} {db' = db4} asked,
                  ),
                )
              ]
      ]
]

-- A return that commits, in a database whose listings and entries have keys of their own, needs both financial capabilities, an order that is out for delivery and, where it
-- is to be paid in cash, no recorded cash. The order is stored as returned and stamped, the
-- store has exactly the units of its items back, unless that was done before, the merchant has no pending entry for it, and where captured money was owed, the request
-- to refund it stands in the same commit.
pub return_to_store_lem :
    (now : ℕ) (remarks : Option String) (user : User) (d : Delivery) (o : Order) (db : Db)
    {r : Option PaymentRefund × Order} {db' : Db}
    → get order_key o.id db.orders ≡ some o
    → IsKeyed entry_key db.settlements
    → IsKeyed listing_key db.listings
    → return_to_store_transaction now remarks user d o db ≡ ok (r, db')
    → (has_capability user refund_write ≡ true)
      × (has_capability user settlement_write ≡ true)
      × (o.status ≡ out_for_delivery)
      × (o.payment_method ≡ cod → find_by (collected_for d.id) db.collections ≡ none)
      × (order_status_of (get order_key o.id db'.orders) ≡ some returned)
      × (restored_at (get order_key o.id db'.orders) ≢ none)
      × (entry_status (find_by (settles o.id) db'.settlements) ≢ some SettlementStatus.pending)
      × (owes o ≡ true → find_by (keyed (refund_idempotency_key o.id)) db'.refunds ≢ none)
      × IsGivenBack o db db'
return_to_store_lem now remarks user d o db {r} {db'} stored k kl h =
    let (
      restored, db1, db2, db3, db4, refunding, settling, out, uncollected, given, orders2, entries2,
      voided_so, asked, orders', refunds', entries', listings',
    ) =
      return_parts now remarks user d o db h in
    let back = record restored.1 { status = returned } in
    let (held, form, stamped, remembered, books) = restore_once_order now o db stored given in
    let written =
      closed_stored restored.1 o.id back db1 db2 (ap (λ (o : Order). o.id) form) refl held
        (orders2 ∙ store_order-orders back db1) in
    let keyed2 =
      subst (IsKeyed entry_key)
        (sym (entries2 ∙ (store_order_same back db1).same_settlements ∙ books)) k in
    let frame = void_settlement_frame now back VoidReason.delivery_returned db2 in
    let gone = void_settlement_cases now back VoidReason.delivery_returned db2 keyed2 in
    let stored3 : get order_key back.id db3.orders ≡ some back = ground (arith, frame) in
    let (row, same, owed, free, entries) =
      ensure_refund_request_after now back RefundReason.delivery_returned db3 stored3 asked in
    (
      refunding,
      settling,
      out,
      uncollected,
      ground (arith, form, row, same, orders'),
      ground (arith, form, row, same, orders', stamped),
      ground (arith, form, gone, entries),
      ground (arith, form, owed, refunds'),
      restore_once-IsGivenBack now o db db' {r = restored} {db1 = db1} kl given listings',
    )
