-- ===== src/Refunds/Obligation.antt =====
-- The obligation to refund: when it is recorded, for how much, and that there is one at most.
use ai_powered_market.Model.Db.{Db}
use ai_powered_market.Model.Keys.{order_key}
use ai_powered_market.Model.Money.{PaymentRefund}
use ai_powered_market.Model.Orders.{Order}
use ai_powered_market.Model.Status.{
  PaymentStatus, RefundReason, method_eq, payment_status_eq, refund_pending, requested, upi,
}
use ai_powered_market.Prelude.{
  Bool, Option, arith, count_where, count_where-find_none, count_where-insert, false, find_by,
  find_by-insert-none, get, get-put_self, insert, none, some, suc, true, ℕ, ◌&&◌, ◌==◌, ◌||◌, ◌≡◌,
  ◌≢◌, ◌≤◌,
}
use ai_powered_market.Refunds.{
  ensure_refund_request, keyed, latest_captured_attempt, new_refund, refund_idempotency_key,
}
use ai_powered_market.Session.{
  ok, respond, save_order, store_order, store_order-orders, store_order_same,
}

-- Money of this order was captured online and has not gone back.
abbrev pub owes : Order → Bool
owes order =
    order.payment_method == upi
    && (order.payment_status == PaymentStatus.paid || order.payment_status == refund_pending)

-- `ensure_refund_request` on a stored order never fails. It answers `None` and changes nothing exactly
-- where no captured money is owed. Where the obligation exists, it is returned and nothing
-- changes. Otherwise one is recorded: requested, for the order's total, found by the order's key;
-- and an order that read paid reads refund-pending, in the table and in the caller's hands.
pub ensure_refund_request_cases :
    (now : ℕ) (order : Order) (why : RefundReason) (db : Db)
    → get order_key order.id db.orders ≡ some order
    → let existing = find_by (keyed (refund_idempotency_key order.id)) db.refunds in
      (owes order ≡ false → ensure_refund_request now order why db ≡ ok ((none, order), db))
      × ((r : PaymentRefund)
          → owes order ≡ true
          → existing ≡ some r
          → ensure_refund_request now order why db ≡ ok ((some r, order), db))
      × (owes order ≡ true
          → existing ≡ none
          → let db' = (respond (ensure_refund_request now order why) db).1 in
            let order' = record order { payment_status = refund_pending } in
            (r : PaymentRefund) × (ensure_refund_request now order why db
              ≡ ok ((some r, order'), db'))
            × (r.amount ≡ order.total)
            × (r.status ≡ requested)
            × (find_by (keyed (refund_idempotency_key order.id)) db'.refunds ≡ some r)
            × (get order_key order.id db'.orders ≡ some order'))
unfolding ensure_refund_request save_order store_order
ensure_refund_request_cases now order why db stored = (
  λ h. ground arith,
  λ r h e. ground arith,
  λ h e.
      let r = new_refund db.next_id now order (latest_captured_attempt db order.id) why in
      let found = find_by-insert-none (keyed (refund_idempotency_key order.id)) r db.refunds e in
      let put_self =
        get-put_self order_key (record order { payment_status = refund_pending }) order db.orders
          stored in
      (
        r,
        ground arith,
        ground arith,
        ground arith,
        ground (arith, found),
        ground (arith, put_self),
      ),
)

-- `ensure_refund_request`, for any order, leaves one obligation at most under a key that had one at most.
pub ensure_refund_request_unique :
    (now k : ℕ) (order : Order) (why : RefundReason) (db : Db) {r : Option PaymentRefund}
    {order' : Order} {db' : Db}
    → count_where (keyed (refund_idempotency_key k)) db.refunds ≤ 1
    → ensure_refund_request now order why db ≡ ok ((r, order'), db')
    → count_where (keyed (refund_idempotency_key k)) db'.refunds ≤ 1
unfolding ensure_refund_request save_order store_order
ensure_refund_request_unique now k order why db c h =
    grind (arith, count_where-insert, count_where-find_none)

-- Of a request that returns: the order as it is afterwards, and what stands for it among the refunds.
pub ensure_refund_request_after :
    (now : ℕ) (order : Order) (why : RefundReason) (db : Db) {r : Option PaymentRefund × Order}
    {db' : Db}
    → get order_key order.id db.orders ≡ some order
    → ensure_refund_request now order why db ≡ ok (r, db')
    → (get order_key order.id db'.orders ≡ some r.1)
      × (r.1 ≡ record order { payment_status = r.1.payment_status })
      × (owes order ≡ true → find_by (keyed (refund_idempotency_key order.id)) db'.refunds ≢ none)
      × (owes order ≡ false → r.0 ≡ none)
      × (db'.settlements ≡ db.settlements)
unfolding ensure_refund_request save_order
ensure_refund_request_after now order why db stored h =
    let row = record order { payment_status = refund_pending } in
    let refund = new_refund db.next_id now order (latest_captured_attempt db order.id) why in
    let db1 = record db { next_id = suc db.next_id; refunds = insert refund db.refunds } in
    ground (
      arith,
      get-put_self order_key row order db.orders stored,
      store_order-orders row db1,
      store_order_same row db1,
      find_by-insert-none (keyed (refund_idempotency_key order.id)) refund db.refunds,
    )

-- No listing is written.
pub ensure_refund_request-listings :
    (now : ℕ) (order : Order) (why : RefundReason) (db : Db) {r : Option PaymentRefund × Order}
    {db' : Db}
    → ensure_refund_request now order why db ≡ ok (r, db')
    → db'.listings ≡ db.listings
unfolding ensure_refund_request save_order
ensure_refund_request-listings now order why db h =
    let row = record order { payment_status = refund_pending } in
    let refund = new_refund db.next_id now order (latest_captured_attempt db order.id) why in
    ground (
      arith,
      store_order_same row
          (record db { next_id = suc db.next_id; refunds = insert refund db.refunds }),
    )
