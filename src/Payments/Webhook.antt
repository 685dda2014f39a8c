-- ===== src/Payments/Webhook.antt =====
-- backend/app/api/v1/routes/payment_hardening.py, the provider's webhook.
use ai_powered_market.Model.Db.{Db}
use ai_powered_market.Model.Money.{PaymentAttempt, PaymentRefund, PaymentWebhookEvent}
use ai_powered_market.Payments.{Context, apply_failed, apply_paid, lock_payment_context, locked}
use ai_powered_market.Prelude.{
  Bool, List, Option, [], find_by, if◌then◌else◌, insert, is_some, ltb, nat_eq, none, not,
  option_eq, select, some, ℕ, ◌==◌, ◌∷◌,
}
use ai_powered_market.Refunds.{RefundPayload, apply_provider_refund_result}
use ai_powered_market.Session.{Action, gets, http, modify, or_raise, pure, raise_if, ◌>>=◌, ◌>>◌}

-- What `_process_event` reads of the body: `event`, and the entities it may carry. `refund` is the refund
-- entity, with its payment. Missing and empty texts are `none`.
pub data EventKind : Type 0 where
  refund_event order_paid payment_captured payment_failed other_event : EventKind

pub record ProviderEvent : Type 0 where
  pub event_key : ℕ
  pub kind : EventKind
  pub payment_id : Option ℕ
  pub provider_order : Option ℕ
  pub refund : RefundPayload
  pub refund_payment_id : Option ℕ

abbrev last_requested : PaymentRefund → Option PaymentRefund → PaymentRefund
last_requested a none = a
last_requested a (some b) = if ltb a.requested_at b.requested_at then b else a

-- `ORDER BY requested_at DESC`, the first row.
unfoldable pub newest_refund : List PaymentRefund → Option PaymentRefund
newest_refund [] = none
newest_refund (r ∷ rs) = some (last_requested r (newest_refund rs))

abbrev by_refund_id : Db → Option ℕ → Option PaymentRefund
by_refund_id db none = none
by_refund_id db (some id) =
    find_by (λ (r : PaymentRefund). r.provider_refund_id == some id) db.refunds

abbrev by_payment_id : Db → Option ℕ → Option PaymentRefund
by_payment_id db none = none
by_payment_id db (some id) =
    newest_refund (select (λ (r : PaymentRefund). r.provider_payment_id == some id) db.refunds)

abbrev or_else : Option PaymentRefund → Option PaymentRefund → Option PaymentRefund
or_else none b = b
or_else (some a) b = some a

unfoldable pub refund_of_event : Db → ProviderEvent → Option PaymentRefund
refund_of_event db event =
    or_else (by_refund_id db event.refund.id) (by_payment_id db event.refund_payment_id)

abbrev pub fold_refund : ℕ → RefundPayload → Option PaymentRefund → Action (Unit {0})
fold_refund now payload none db = pure tt db
fold_refund now payload (some refund) db =
    (do apply_provider_refund_result now refund payload; pure tt) db

-- `_process_refund_event`, whose answer nobody reads.
unfoldable pub process_refund_event : ℕ → ProviderEvent → Action (Unit {0})
process_refund_event now event = do
  refund ← gets (λ db. refund_of_event db event)
  fold_refund now event.refund refund

abbrev pub by_provider_order : ℕ → Db → Option PaymentAttempt
by_provider_order id db =
    find_by (λ (a : PaymentAttempt). a.provider_order_id == some id) db.attempts

abbrev pub process_payment : ℕ → EventKind → Option ℕ → Context → Action (Unit {0})
process_payment now order_paid payment_id (locked attempt order) db =
    (do apply_paid now attempt order payment_id; pure tt) db
process_payment now payment_captured payment_id (locked attempt order) db =
    (do apply_paid now attempt order payment_id; pure tt) db
process_payment now payment_failed payment_id (locked attempt order) db =
    apply_failed now attempt order db
process_payment now _ payment_id _ db = pure tt db

abbrev pub process_order : ℕ → ProviderEvent → Option ℕ → Action (Unit {0})
process_order now event none db = pure tt db
process_order now event (some provider_order) db =
    (do
      context ← lock_payment_context none (by_provider_order provider_order)
      process_payment now event.kind event.payment_id context)
      db

abbrev pub process_kind : ℕ → ProviderEvent → EventKind → Action (Unit {0})
process_kind now event refund_event db = process_refund_event now event db
process_kind now event _ db = process_order now event event.provider_order db

-- `_process_event`
unfoldable pub process_event : ℕ → ProviderEvent → Action (Unit {0})
process_event now event = process_kind now event event.kind

abbrev pub seen : ℕ → PaymentWebhookEvent → Bool
seen event_key e = e.event_key == event_key

-- `valid` is what the check of the signature says, `none` where it is not configured; `body` is the parsed
-- body, `none` where it is no JSON object. The row of the event is added processed here: it is
-- committed together with what the processing wrote.
unfoldable pub hardened_razorpay_webhook :
    Bool → Option Bool → Option ProviderEvent → ℕ → Action (Unit {0})
hardened_razorpay_webhook signed valid body now = do
  raise_if (not signed) (http 400 "Missing Razorpay signature")
  checked ← or_raise valid (http 503 "Razorpay webhook secret is not configured")
  raise_if (not checked) (http 400 "Invalid Razorpay webhook signature")
  event ← or_raise body (http 400 "Invalid Razorpay webhook payload")
  existing ← gets (λ db. find_by (seen event.event_key) db.webhook_events)
  if is_some existing then pure tt else (do
    modify (λ db. record db {
      webhook_events =
          insert (record { event_key = event.event_key; processed_at = some now })
            db.webhook_events;
    })
    process_event now event)
