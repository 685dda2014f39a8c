-- ===== src/Deliveries/Payday.antt =====
-- What a completed delivery pays.
use ai_powered_market.Capabilities.{require_roles}
use ai_powered_market.Deliveries.{collected_for, locked_delivery_order}
use ai_powered_market.Deliveries.Completion.{
  is_verified_proof, record_cod_collection, require_cash, require_completable,
}
use ai_powered_market.Deliveries.Proofs.{proves}
use ai_powered_market.Effects.{record_admin_action}
use ai_powered_market.Model.Db.{Db}
use ai_powered_market.Model.Keys.{delivery_key, order_key}
use ai_powered_market.Model.Market.{User}
use ai_powered_market.Model.Money.{CodCollection}
use ai_powered_market.Model.Orders.{Delivery, Order}
use ai_powered_market.Model.Status.{
  PaymentStatus, cod, delivery_financial_write, out_for_delivery, picked_up,
}
use ai_powered_market.Prelude.{
  Option-cases, arith, count_where, count_where-find_none, count_where-insert, find_by,
  find_by-insert-none, get, inl, inr, some, true, ℕ, ◌≡◌, ◌≢◌, ◌≤◌,
}
use ai_powered_market.Riders.{require_assigned_rider, require_assigned_rider_lem}
use ai_powered_market.Session.{Result-cases, ok}
use ai_powered_market.Transitions.{
  can_transition_delivery, can_transition_order, payment_allows_fulfillment,
}

abbrev pub CashMatches : Delivery → Order → Db → Type 0
CashMatches d o db =
    (c : CodCollection) × (find_by (collected_for d.id) db.collections ≡ some c)
    × (c.order_id ≡ o.id)
    × (c.amount ≡ o.total)

-- The guards of a completion pass only where the delivery is picked up and its order out for delivery,
-- the proof of delivery is verified, and the money is there: captured online, or collected in
-- cash from the customer for exactly the order's total. They write nothing.
pub require_completable_lem :
    (d : Delivery) (o : Order) (user : User) (db : Db) {u : Unit {0}} {db' : Db}
    → require_completable d o user db ≡ ok (u, db')
    → (db' ≡ db)
      × (d.status ≡ picked_up)
      × (o.status ≡ out_for_delivery)
      × (is_verified_proof (find_by (proves d.id) db.proofs) ≡ true)
      × ((o.payment_method ≡ cod → CashMatches d o db)
          × (o.payment_method ≢ cod → o.payment_status ≡ PaymentStatus.paid))
unfolding require_completable require_cash can_transition_delivery can_transition_order
    payment_allows_fulfillment
require_completable_lem d o user db h =
    elim (Result-cases (require_assigned_rider d user delivery_financial_write db)) [
      | inr (x, raised) ↦ absurd (ground arith)
      | inl (u, db1, passed) ↦
          let same = (require_assigned_rider_lem d user delivery_financial_write db passed).0 in
          elim (Option-cases (find_by (collected_for d.id) db.collections)) [
            | inl absent ↦ (
              ground (arith, same),
              ground (arith, same),
              ground (arith, same),
              ground (arith, same),
              (λ m. absurd (ground (arith, same)), ground (arith, same)),
            )
            | inr (c, found) ↦ (
              ground (arith, same),
              ground (arith, same),
              ground (arith, same),
              ground (arith, same),
              (λ m. (c, found, ground (arith, same), ground (arith, same)), ground (arith, same)),
            )
          ]
    ]

-- Recording cash: the amount is the order's total, the row is found afterwards, and a delivery that has
-- one row at most keeps that.
pub record_cod_collection_lem :
    (now delivery_id amount : ℕ) (user : User) (d : Delivery) (db : Db) {c : CodCollection}
    {db' : Db}
    → get delivery_key delivery_id db.deliveries ≡ some d
    → count_where (collected_for d.id) db.collections ≤ 1
    → record_cod_collection now delivery_id amount user db ≡ ok (c, db')
    → (c.amount ≡ amount)
      × (find_by (collected_for d.id) db'.collections ≡ some c)
      × (count_where (collected_for d.id) db'.collections ≤ 1)
      × (db'.orders ≡ db.orders)
unfolding record_cod_collection locked_delivery_order require_roles record_admin_action
record_cod_collection_lem now delivery_id amount user d db {c} s n h =
    elim (Option-cases (get order_key d.order_id db.orders)) [
      | inl absent ↦ absurd (ground arith)
      | inr (o, ordered) ↦
          elim (Result-cases (require_assigned_rider d user delivery_financial_write db)) [
            | inr (x, raised) ↦ absurd (ground arith)
            | inl (u, db1, passed) ↦
                let same =
                  (require_assigned_rider_lem d user delivery_financial_write db passed).0 in
                let p = collected_for d.id in
                ground (
                  arith,
                  same,
                  find_by-insert-none p c db.collections,
                  count_where-insert p c db.collections,
                  count_where-find_none p db.collections,
                )
          ]
    ]
