-- ===== src/Settlements/Entitlement.antt =====
-- How many entries an order has, what they are worth, and when the entitlement is gone.
use ai_powered_market.Model.Db.{Db}
use ai_powered_market.Model.Keys.{entry_key, store_key}
use ai_powered_market.Model.Market.{Store}
use ai_powered_market.Model.Money.{SettlementAdjustment, SettlementEntry, settlement_reversal}
use ai_powered_market.Model.Orders.{Order}
use ai_powered_market.Model.Status.{
  PaymentStatus, SettlementStatus, VoidReason, cancelled, settled, voided,
}
use ai_powered_market.Prelude.{
  IsKeyed, Option, Option-cases, arith, count_where, count_where-find_none, count_where-insert,
  find_by, find_by-insert-none, find_by-put_same, find_by_passes, get, inl, inr, insert, none, some,
  suc, true, ℕ, ◌≡◌, ◌≢◌, ◌≤◌, ◌⊎◌,
}
use ai_powered_market.Prelude.Int.{neg, ℤ}
use ai_powered_market.Session.{ok, respond}
use ai_powered_market.Settlements.{
  ensure_settlement_entry, new_entry, refunds_order, reversal, reverses, settlement_is_eligible,
  settles, void_settlement_for_refund, voided_entry,
}

-- The order's entry stands for exactly the order's money.
abbrev pub Entitles : Order → SettlementEntry → Type 0
Entitles order e =
    (e.order_id ≡ order.id)
    × (e.gross_amount ≡ order.total)
    × (e.merchant_amount ≡ order.subtotal)
    × (e.delivery_fee_amount ≡ order.delivery_fee)
    × (e.status ≡ SettlementStatus.pending)

-- `ensure_settlement_entry` by its three outcomes: an order that has an entry gets it back; one that is
-- not paid, is cancelled, or has any refund gets none; in both cases nothing changes. Any other order of
-- a known store gets one new pending entry, for its own amounts, which a lookup then finds.
pub ensure_settlement_entry_cases :
    (order : Order) (db : Db)
    → let r = ensure_settlement_entry order db in
      let found = find_by (settles order.id) db.settlements in
      ((e : SettlementEntry) → found ≡ some e → r ≡ ok (some e, db))
      × (found ≡ none
          → ((order.payment_status ≢ PaymentStatus.paid)
              ⊎ (order.status ≡ cancelled)
              ⊎ (find_by (refunds_order order.id) db.refunds ≢ none))
          → r ≡ ok (none, db))
      × ((s : Store)
          → found ≡ none
          → order.payment_status ≡ PaymentStatus.paid
          → order.status ≢ cancelled
          → find_by (refunds_order order.id) db.refunds ≡ none
          → get store_key order.store_id db.stores ≡ some s
          → (e : SettlementEntry) × (db' : Db) × (r ≡ ok (some e, db'))
            × Entitles order e
            × (find_by (settles order.id) db'.settlements ≡ some e))
unfolding ensure_settlement_entry settlement_is_eligible
ensure_settlement_entry_cases order db = (
  λ e h. ground arith,
  λ h i. elim (Option-cases (find_by (refunds_order order.id) db.refunds)) [
    | inl unrefunded ↦ ground arith
    | inr (r, refund) ↦ ground arith
  ],
  λ s h paid_for uncancelled unrefunded g. (
    new_entry db.next_id order s,
    record db {
      next_id = suc db.next_id;
      settlements = insert (new_entry db.next_id order s) db.settlements;
    },
    ground arith,
    ground arith,
    ground (
      arith,
      find_by-insert-none (settles order.id) (new_entry db.next_id order s) db.settlements h,
    ),
  ),
)

-- A call of `ensure_settlement_entry` for any order never gives an order, this one or another, a second entry.
pub ensure_settlement_entry_unique :
    (order : Order) (order_id : ℕ) (db : Db) {e : Option SettlementEntry} {db' : Db}
    → count_where (settles order_id) db.settlements ≤ 1
    → ensure_settlement_entry order db ≡ ok (e, db')
    → count_where (settles order_id) db'.settlements ≤ 1
unfolding ensure_settlement_entry
ensure_settlement_entry_unique order order_id db c h =
    grind (arith, count_where-insert, count_where-find_none)

abbrev pub entry_status : Option SettlementEntry → Option SettlementStatus
entry_status none = none
entry_status (some e) = some e.status

-- The correction of an entry that was paid out.
abbrev pub reversal_amount : Option SettlementAdjustment → Option ℤ
reversal_amount none = none
reversal_amount (some a) = some a.amount

-- Voiding never fails, and leaves no pending entry for the order. A pending entry becomes voided, with the moment and
-- the reason, and no adjustment is written; a settled one stays, with every other entry, and if it had no reversal
-- before, it has one of minus the merchant's amount; where the order has no entry, or a voided one, nothing changes.
pub void_settlement_cases :
    (now : ℕ) (order : Order) (why : VoidReason) (db : Db)
    → IsKeyed entry_key db.settlements
    → let found = find_by (settles order.id) db.settlements in
      let (r, db') = respond (void_settlement_for_refund now order why) db in
      (r ≡ ok tt)
      × (entry_status (find_by (settles order.id) db'.settlements) ≢ some SettlementStatus.pending)
      × ((e : SettlementEntry)
          → found ≡ some e
          → e.status ≡ settled
          → find_by (reverses (settlement_reversal e.id)) db.adjustments ≡ none
          → reversal_amount (find_by (reverses (settlement_reversal e.id)) db'.adjustments)
            ≡ some (neg e.merchant_amount))
      × (entry_status found ≢ some settled → db'.adjustments ≡ db.adjustments)
      × ((e : SettlementEntry)
          → found ≡ some e
          → e.status ≡ SettlementStatus.pending
          → find_by (settles order.id) db'.settlements
            ≡ some (record e { status = voided; voided_at = some now; void_reason = some why }))
      × (entry_status found ≡ some settled → db'.settlements ≡ db.settlements)
      × (found ≡ none → db' ≡ db)
      × (entry_status found ≡ some voided → db' ≡ db)
unfolding void_settlement_for_refund voided_entry
void_settlement_cases now order why db k =
    elim (Option-cases (find_by (settles order.id) db.settlements)) [
      | inl absent ↦ ground arith
      | inr (e, found) ↦ ground (
        arith,
        find_by-put_same entry_key (settles order.id) e (voided_entry now why e) db.settlements k
            found,
        find_by_passes (settles order.id) db.settlements e found,
        find_by-insert-none (reverses (settlement_reversal e.id)) (reversal db.next_id order why e)
            db.adjustments,
      )
    ]

-- Voiding a second time, whenever and for whatever reason, changes nothing.
pub void_settlement_idempotent :
    (now later : ℕ) (order : Order) (why why' : VoidReason) (db : Db)
    → IsKeyed entry_key db.settlements
    → let db' = (respond (void_settlement_for_refund now order why) db).1 in
      void_settlement_for_refund later order why' db' ≡ ok (tt, db')
unfolding void_settlement_for_refund voided_entry reversal
void_settlement_idempotent now later order why why' db k =
    elim (Option-cases (find_by (settles order.id) db.settlements)) [
      | inl absent ↦ ground arith
      | inr (e, found) ↦ ground (
        arith,
        find_by-put_same entry_key (settles order.id) e (voided_entry now why e) db.settlements k
            found,
        find_by_passes (settles order.id) db.settlements e found,
        find_by-insert-none (reverses (settlement_reversal e.id)) (reversal db.next_id order why e)
            db.adjustments,
      )
    ]

-- Voiding writes settlements and adjustments only.
pub void_settlement_frame :
    (now : ℕ) (order : Order) (why : VoidReason) (db : Db)
    → let db' = (respond (void_settlement_for_refund now order why) db).1 in
      (db'.orders ≡ db.orders)
      × (db'.refunds ≡ db.refunds)
      × (db'.deliveries ≡ db.deliveries)
      × (db'.order_items ≡ db.order_items)
      × (db'.listings ≡ db.listings)
unfolding void_settlement_for_refund
void_settlement_frame now order why db = ground arith

-- Of a call that returns: an eligible order has an entry afterwards; only settlements are written.
pub ensure_settlement_entry_after :
    (order : Order) (db : Db) {e : Option SettlementEntry} {db' : Db}
    → ensure_settlement_entry order db ≡ ok (e, db')
    → (db'.orders ≡ db.orders)
      × (settlement_is_eligible db order ≡ true → find_by (settles order.id) db'.settlements ≢ none)
unfolding ensure_settlement_entry
ensure_settlement_entry_after order db h =
    elim (Option-cases (get store_key order.store_id db.stores)) [
      | inl absent ↦ ground arith
      | inr (s, found) ↦ ground (
        arith,
        find_by-insert-none (settles order.id) (new_entry db.next_id order s) db.settlements,
      )
    ]
