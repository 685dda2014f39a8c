-- ===== src/Refunds/Overwriting.antt =====
-- An answer of the provider that comes after the refund was settled: `settle_refund` of backend/app/services/refunds.py.
use ai_powered_market.Model.Db.{Db}
use ai_powered_market.Model.Keys.{refund_key}
use ai_powered_market.Model.Money.{PaymentRefund, ProviderStatus}
use ai_powered_market.Model.Status.{RefundStatus, processing, succeeded}
use ai_powered_market.Prelude.{
  Option, arith, get, get-key, get-put_self, inl, inr, none, put, refl, some, ℕ, ◌≡◌, ◌≢◌, ◌⊎◌,
}
use ai_powered_market.Refunds.{
  RefundPayload, apply_provider_refund_result, fold_report, mark_failed, save_refund,
}
use ai_powered_market.Refunds.Dispatch.{
  DispatchStatus, ProviderReply, answered, now_at, settle_locked, settle_refund, unreachable,
}
use ai_powered_market.Refunds.Outcome.{reported}
use ai_powered_market.Session.{ok}

abbrev pub IsUnprocessed : ProviderReply → Type 0
IsUnprocessed reply =
    (payload : RefundPayload)
    → reply ≡ answered payload
    → payload.status ≢ some ProviderStatus.processed

-- The row that a failure or an unfinished answer leaves.
abbrev IsTakenBack : ℕ → PaymentRefund → Db → Db → Type 0
IsTakenBack refund_id saved db db' =
    (get refund_key refund_id db'.refunds ≡ some saved)
    × ((saved.status ≡ RefundStatus.failed) ⊎ (saved.status ≡ processing))
    × (db'.orders ≡ db.orders)

saved_back :
    (refund_id : ℕ) (saved old : PaymentRefund) (db : Db)
    → get refund_key saved.id db.refunds ≡ some old
    → refund_id ≡ saved.id
    → (saved.status ≡ RefundStatus.failed) ⊎ (saved.status ≡ processing)
    → IsTakenBack refund_id saved db (record db { refunds = put refund_key saved db.refunds })
saved_back refund_id saved old db stored same s =
    (ground (arith, get-put_self refund_key saved old db.refunds), s, refl)

folded_back :
    (now : ℕ) (s : Option ProviderStatus) (refund old : PaymentRefund) (db : Db)
    → get refund_key refund.id db.refunds ≡ some old
    → s ≢ some ProviderStatus.processed
    → (saved : PaymentRefund) × (db' : Db) × (fold_report now s refund db ≡ ok (saved, db'))
      × IsTakenBack refund.id saved db db'
unfolding save_refund mark_failed
folded_back now none refund old db stored h =
    let saved = record refund { status = processing } in
    (saved, _, refl, saved_back refund.id saved old db stored refl (inr refl))
folded_back now (some ProviderStatus.processed) refund old db stored h = absurd (h refl)
folded_back now (some ProviderStatus.failed) refund old db stored h =
    let saved = record refund {
      status = RefundStatus.failed;
      failure_reason = some "Razorpay reported the refund as failed";
      failed_at = some now;
    } in
    (saved, _, refl, saved_back refund.id saved old db stored refl (inl refl))
folded_back now (some (ProviderStatus.other n)) refund old db stored h =
    let saved = record refund { status = processing } in
    (saved, _, refl, saved_back refund.id saved old db stored refl (inr refl))

overwritten :
    (now : ℕ) (reply : ProviderReply) (r : PaymentRefund) (db : Db)
    → get refund_key r.id db.refunds ≡ some r
    → IsUnprocessed reply
    → (d : DispatchStatus) × (saved : PaymentRefund) × (db' : Db) × (settle_locked now reply
          (some r)
          db
        ≡ ok (d, db'))
      × IsTakenBack r.id saved db db'
unfolding save_refund mark_failed apply_provider_refund_result
overwritten now (unreachable message) r db stored h =
    let saved = record r {
      status = RefundStatus.failed;
      failure_reason = some message;
      failed_at = some now;
    } in
    (now_at RefundStatus.failed, saved, _, refl, saved_back r.id saved r db stored refl (inl refl))
overwritten now (answered payload) r db stored h =
    let (saved, db', folded, back) =
      folded_back now payload.status (reported r payload) r db stored (h payload refl) in
    (now_at saved.status, saved, db', ground arith, back)

-- Settling does not look at the status that the refund has by then: an error of the call, or any answer other than
-- `processed`, that is handled after the refund was stored as succeeded takes the success back, to failed or processing,
-- while every order stays as it is.
pub late_failure_overwrites :
    (now refund_id : ℕ) (reply : ProviderReply) (r : PaymentRefund) (db : Db)
    → get refund_key refund_id db.refunds ≡ some r
    → r.status ≡ succeeded
    → IsUnprocessed reply
    → (d : DispatchStatus) × (saved : PaymentRefund) × (db' : Db) × (settle_refund now refund_id
          reply db
        ≡ ok (d, db'))
      × (get refund_key refund_id db'.refunds ≡ some saved)
      × ((saved.status ≡ RefundStatus.failed) ⊎ (saved.status ≡ processing))
      × (db'.orders ≡ db.orders)
unfolding settle_refund
late_failure_overwrites now refund_id reply r db found succeeded_before other =
    let key = get-key refund_key refund_id db.refunds r found in
    let stored : get refund_key r.id db.refunds ≡ some r = ground arith in
    let (d, saved, db', settles_so, taken_back) = overwritten now reply r db stored other in
    (d, saved, db', ground arith, ground arith, taken_back.1, taken_back.2)
