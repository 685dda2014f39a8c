-- ===== src/Refunds/Retry.antt =====
-- A retry by an administrator: backend/app/api/v1/routes/refunds.py.
use ai_powered_market.Capabilities.{ensure_capability, has_capability}
use ai_powered_market.Effects.{record_admin_action}
use ai_powered_market.Model.Db.{Db}
use ai_powered_market.Model.Keys.{refund_key}
use ai_powered_market.Model.Market.{User}
use ai_powered_market.Model.Money.{PaymentRefund}
use ai_powered_market.Model.Status.{RefundStatus, admin, processing, refund_write}
use ai_powered_market.Prelude.{
  Bool-cases, arith, get, get-key, get-put_self, inl, inr, ltb, put, some, true, ℕ, ◌+◌, ◌∙◌, ◌≡◌,
}
use ai_powered_market.Refunds.{save_refund}
use ai_powered_market.Refunds.Administration.{retried, retry_transaction}
use ai_powered_market.Refunds.Dispatch.{call, claim_refund}
use ai_powered_market.Session.{ok, respond}

abbrev Spendable : PaymentRefund → ℕ → Type 0
Spendable r payment =
    (r.status ≡ RefundStatus.failed)
    × (r.attempt_count ≡ 0)
    × (r.provider_payment_id ≡ some payment)

claimable_refund :
    (now refund_id payment : ℕ) (r : PaymentRefund) (db : Db)
    → get refund_key refund_id db.refunds ≡ some r
    → Spendable r payment
    → (db' : Db) × (claim_refund true now refund_id db
        ≡ ok (call payment r.amount r.idempotency_key, db'))
      × (db'.orders ≡ db.orders)
unfolding claim_refund save_refund
claimable_refund now refund_id payment r db stored (lost, fresh, paid) =
    let sent = record r { status = processing; attempt_count = r.attempt_count + 1 } in
    (record db { refunds = put refund_key sent db.refunds }, ground arith, ground arith)

retried_lem :
    (payment : ℕ) (r : PaymentRefund)
    → r.status ≡ RefundStatus.failed
    → r.provider_payment_id ≡ some payment
    → Spendable (retried r) payment
      × ((retried r).amount ≡ r.amount)
      × ((retried r).idempotency_key ≡ r.idempotency_key)
      × (refund_key (retried r) ≡ refund_key r)
unfolding retried
retried_lem payment r lost paid = elim (Bool-cases (ltb 0 r.attempt_count)) [
  | inl h ↦ ground arith
  | inr h ↦ ground arith
]

retry_stores :
    (refund_id : ℕ) (r : PaymentRefund) (user : User) (db : Db)
    → has_capability user refund_write ≡ true
    → user.role ≡ admin
    → get refund_key refund_id db.refunds ≡ some r
    → refund_key (retried r) ≡ refund_key r
    → (db1 : Db) × (retry_transaction refund_id user db ≡ ok (tt, db1))
      × (get refund_key refund_id db1.refunds ≡ some (retried r))
      × (db1.orders ≡ db.orders)
unfolding retry_transaction ensure_capability save_refund record_admin_action
retry_stores refund_id r user db may is_admin stored same_key =
    let db1 : Db = (respond (retry_transaction refund_id user) db).1 in
    (
      db1,
      ground arith,
      ground (
        arith,
        get-key refund_key refund_id db.refunds r stored,
        get-put_self refund_key (retried r) r db.refunds,
      ),
      ground arith,
    )

-- A failed refund whose captured payment is known is sent to the provider again after an administrator's retry, however
-- many attempts it has used up: the retry commits, and the next claim is a call for the refund's own payment,
-- amount and key, where the provider is configured.
pub retry_revives :
    (now refund_id payment : ℕ) (r : PaymentRefund) (user : User) (db : Db)
    → has_capability user refund_write ≡ true
    → user.role ≡ admin
    → get refund_key refund_id db.refunds ≡ some r
    → r.status ≡ RefundStatus.failed
    → r.provider_payment_id ≡ some payment
    → (db1 db2 : Db) × (retry_transaction refund_id user db ≡ ok (tt, db1))
      × (claim_refund true now refund_id db1 ≡ ok (call payment r.amount r.idempotency_key, db2))
      × (db2.orders ≡ db.orders)
retry_revives now refund_id payment r user db may is_admin stored lost paid =
    let (ready_again, same_amount, same_key, same_id) = retried_lem payment r lost paid in
    let (db1, retries, stored1, orders1) =
      retry_stores refund_id r user db may is_admin stored same_id in
    let (db2, claims, orders2) =
      claimable_refund now refund_id payment (retried r) db1 stored1 ready_again in
    (db1, db2, retries, ground arith, orders2 ∙ orders1)
