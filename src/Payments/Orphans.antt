-- ===== src/Payments/Orphans.antt =====
-- Money that is captured for an order that is cancelled already: backend/app/api/v1/routes/payment_hardening.py and
-- backend/app/services/refunds.py together.
use ai_powered_market.Model.Db.{Db}
use ai_powered_market.Model.Keys.{order_key, refund_key}
use ai_powered_market.Model.Money.{PaymentAttempt, PaymentRefund}
use ai_powered_market.Model.Orders.{Order}
use ai_powered_market.Model.Status.{
  AttemptStatus, PaymentStatus, RefundReason, RefundStatus, cancelled, capture_after_cancellation,
  refund_pending, requested, upi,
}
use ai_powered_market.Payments.{apply_paid, capture_order, is_refunding, late_capture, show_attempt}
use ai_powered_market.Payments.Capture.{apply_paid_parts}
use ai_powered_market.Prelude.{
  Bool, Option, arith, false, find_by, find_by-insert-none, get, get-insert_self, get-put_self, inl,
  inr, insert, none, put, refl, some, suc, ℕ, ◌≡◌, ◌≢◌,
}
use ai_powered_market.Refunds.{
  ensure_refund_request, keyed, latest_captured_attempt, mark_failed, new_refund,
  refund_idempotency_key, save_refund,
}
use ai_powered_market.Refunds.Dispatch.{claim_refund, done, max_refund_attempts, now_at}
use ai_powered_market.Session.{
  Result-cases, audit_order, ok, respond, save_order, store_order, store_order_same,
}

-- The refund is stored as failed, with all its attempts spent.
abbrev pub IsGivenUp : ℕ → Db → Type 0
IsGivenUp refund_id db =
    (r : PaymentRefund) × (get refund_key refund_id db.refunds ≡ some r)
    × (r.status ≡ RefundStatus.failed)
    × (r.attempt_count ≡ max_refund_attempts)

unsendable_claim :
    (later : ℕ) (enabled : Bool) (r : PaymentRefund) (db : Db)
    → get refund_key r.id db.refunds ≡ some r
    → r.status ≡ requested
    → r.attempt_count ≡ 0
    → r.provider_payment_id ≡ none
    → (db' : Db) × (claim_refund enabled later r.id db
        ≡ ok (done (now_at RefundStatus.failed), db'))
      × IsGivenUp r.id db'
unfolding claim_refund save_refund mark_failed
unsendable_claim later enabled r db stored asked_for untried unknown =
    let db' : Db = (respond (claim_refund enabled later r.id) db).1 in
    let row : PaymentRefund = record r {
      status = RefundStatus.failed;
      failure_reason =
          some
            "No captured provider payment id is recorded for this order; manual reconciliation required";
      failed_at = some later;
    } in
    let spent : PaymentRefund = record row { attempt_count = max_refund_attempts } in
    let once : get refund_key r.id (put refund_key row db.refunds) ≡ some row =
      get-put_self refund_key row r db.refunds stored in
    (
      db',
      ground arith,
      (
        spent,
        ground (arith, get-put_self refund_key spent row (put refund_key row db.refunds)),
        refl,
        refl,
      ),
    )

new_obligation :
    (now : ℕ) (order : Order) (why : RefundReason) (db : Db) {r : Option PaymentRefund × Order}
    {db' : Db}
    → latest_captured_attempt db order.id ≡ none
    → order.payment_method ≡ upi
    → order.payment_status ≡ PaymentStatus.paid
    → find_by (keyed (refund_idempotency_key order.id)) db.refunds ≡ none
    → ensure_refund_request now order why db ≡ ok (r, db')
    → db'.refunds ≡ insert (new_refund db.next_id now order none why) db.refunds
unfolding ensure_refund_request save_order
new_obligation now order why db uncaptured online paid_for unowed h =
    let refund = new_refund db.next_id now order none why in
    ground (
      arith,
      store_order_same (record order { payment_status = refund_pending })
          (record db { next_id = suc db.next_id; refunds = insert refund db.refunds }),
    )

next_id_same :
    (order : Order) (s : PaymentStatus) (db : Db)
    → get order_key order.id db.orders ≡ some order
    → (store_order (record order { payment_status = s }) db).next_id ≡ db.next_id
unfolding store_order audit_order
next_id_same order s db stored = ground arith

late_capture_refund :
    (now : ℕ) (order : Order) (db : Db) {o : Order} {db' : Db}
    → get order_key order.id db.orders ≡ some order
    → latest_captured_attempt db order.id ≡ none
    → order.payment_method ≡ upi
    → find_by (keyed (refund_idempotency_key order.id)) db.refunds ≡ none
    → late_capture now order db ≡ ok (o, db')
    → db'.refunds
      ≡ insert (new_refund db.next_id now order none capture_after_cancellation) db.refunds
unfolding late_capture save_order new_refund latest_captured_attempt
late_capture_refund now order db {o} {db'} stored uncaptured online unowed h =
    let paid_for = record order { payment_status = PaymentStatus.paid } in
    let db1 = store_order paid_for db in
    let same = store_order_same paid_for db in
    elim (Result-cases (ensure_refund_request now paid_for capture_after_cancellation db1)) [
      | inr (x, raised) ↦ absurd (ground arith)
      | inl (r, db2, asked) ↦
          let added =
            new_obligation now paid_for capture_after_cancellation db1 {r = r} {db' = db2}
              (ground (arith, same.same_attempts)) online refl (ground (arith, same.same_refunds))
              asked in
          ground (arith, same.same_refunds, next_id_same order PaymentStatus.paid db stored)
    ]

-- Money that an attempt, not paid before, captures for a cancelled online order that is not being refunded, of which no
-- payment was captured and no refund recorded before, is recorded as owed, for the order's total, by a refund without a
-- payment of the provider, since the query for the captured attempt does not see the one that is just being marked. So
-- the first claim of that refund calls nobody, stores it as failed, and spends all its attempts.
pub late_refund_unsendable :
    (now later : ℕ) (enabled : Bool) (a : PaymentAttempt) (order : Order) (payment_id : Option ℕ)
    (db : Db) {o : Order} {db' : Db}
    → get order_key order.id db.orders ≡ some order
    → latest_captured_attempt db order.id ≡ none
    → a.status ≢ AttemptStatus.paid
    → order.status ≡ cancelled
    → order.payment_method ≡ upi
    → is_refunding order ≡ false
    → find_by (keyed (refund_idempotency_key order.id)) db.refunds ≡ none
    → get refund_key db.next_id db.refunds ≡ none
    → apply_paid now a order payment_id db ≡ ok (o, db')
    → (r : PaymentRefund) × (find_by (keyed (refund_idempotency_key order.id)) db'.refunds ≡ some r)
      × (r.amount ≡ order.total)
      × (r.provider_payment_id ≡ none)
      × (db2 : Db) × (claim_refund enabled later r.id db'
          ≡ ok (done (now_at RefundStatus.failed), db2))
      × IsGivenUp r.id db2
unfolding show_attempt capture_order new_refund
late_refund_unsendable now later enabled a order payment_id db {o} {db'} stored uncaptured unpaid
      given_up online free unowed fresh h =
    let (t, db1, db2, shown, same1, captures, same2) =
      apply_paid_parts now a order payment_id db {o = o} {db' = db'} h in
    let same : db1 ≡ db = ground arith in
    let late : late_capture now order db ≡ ok (o, db2) = ground arith in
    let written =
      late_capture_refund now order db {o = o} {db' = db2} stored uncaptured online unowed late in
    let r = new_refund db.next_id now order none capture_after_cancellation in
    let filed : get refund_key r.id db'.refunds ≡ some r =
      ground (arith, same2.same_refunds, get-insert_self refund_key r db.refunds fresh) in
    let (db3, claimed, lost) = unsendable_claim later enabled r db' filed refl refl refl in
    (
      r,
      ground (
        arith,
        same2.same_refunds,
        find_by-insert-none (keyed (refund_idempotency_key order.id)) r db.refunds,
      ),
      refl,
      refl,
      db3,
      claimed,
      lost,
    )
