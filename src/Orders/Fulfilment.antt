-- ===== src/Orders/Fulfilment.antt =====
-- Which moves of an order are possible, and for whom.
use ai_powered_market.Capabilities.{ensure_capability, has_capability, require_roles}
use ai_powered_market.Model.Db.{Db}
use ai_powered_market.Model.Keys.{order_key, store_key}
use ai_powered_market.Model.Market.{Merchant, Store, User}
use ai_powered_market.Model.Money.{PaymentRefund}
use ai_powered_market.Model.Orders.{Order}
use ai_powered_market.Model.Status.{
  OrderStatus, UserRole, admin, approved, cancelled, order_operations, order_status_eq, ready,
  refund_write,
}
use ai_powered_market.Orders.{authorise_update, effects_of_update, update_transaction}
use ai_powered_market.Prelude.{
  Option, Option-cases, arith, contains, find_by, get, inl, inr, nat_eq, some, true, ℕ, ◌==◌, ◌↔◌,
  ◌≡◌, ◌≢◌, ◌⊎◌,
}
use ai_powered_market.Session.{Result-cases, ok, save_order}
use ai_powered_market.Transitions.{
  can_transition_order, merchant_assignable_statuses, payment_allows_fulfillment, transition_order,
}

-- The merchant and the store as the check of ownership reads them.
abbrev pub Owns : User → Order → Db → Type 0
Owns user order db =
    (m : Merchant) × (s : Store) × (find_by (λ (m : Merchant). m.owner_user_id == user.id)
        db.merchants
      ≡ some m)
    × (get store_key order.store_id db.stores ≡ some s)
    × (s.merchant_id ≡ m.id)
    × (m.status ≡ approved)

role_is_admin : (r : UserRole) → (r ≡ admin) ⊎ (r ≢ admin)
role_is_admin r = ground arith

-- `authorise_update` passes an administrator who may operate on orders, and the owner of the store whose
-- merchant is approved, and nobody else.
pub authorise_update_iff :
    (order : Order) (user : User) (db : Db)
    → (authorise_update order user db ≡ ok (tt, db)) ↔ (
        ((user.role ≡ admin) × (has_capability user order_operations ≡ true))
        ⊎ ((user.role ≢ admin) × Owns user order db))
unfolding authorise_update ensure_capability
authorise_update_iff order user db = (
  λ h. elim (Option-cases (find_by (λ (m : Merchant). m.owner_user_id == user.id) db.merchants)) [
    | inl absent ↦ ground arith
    | inr (m, owner) ↦ elim (Option-cases (get store_key order.store_id db.stores)) [
      | inl absent ↦ ground arith
      | inr (s, store) ↦ elim (role_is_admin user.role) [
        | inl a ↦ inl (a, ground arith)
        | inr a ↦ inr (a, (m, s, owner, store, ground arith, ground arith))
      ]
    ]
  ],
  λ h. elim h [
    | inl (a, c) ↦ ground arith
    | inr (a, (m, s, owner, store, same, status)) ↦ ground arith
  ],
)

authorise_update_same :
    (order : Order) (user : User) (db : Db) {u : Unit {0}} {db' : Db}
    → authorise_update order user db ≡ ok (u, db')
    → db' ≡ db
unfolding authorise_update ensure_capability
authorise_update_same order user db h = ground arith

can_cancel_effects :
    (now : ℕ) (user : User) (order : Order) (target : OrderStatus) (db : Db)
    {r : Option PaymentRefund × Order} {db' : Db}
    → effects_of_update now user order target db ≡ ok (r, db')
    → (target ≡ cancelled)
    → (user.role ≡ admin)
    → has_capability user refund_write ≡ true
unfolding effects_of_update ensure_capability
can_cancel_effects now user order target db h t a = ground arith

-- A move of an order that commits is to a status that a merchant may assign, from one that leads there;
-- to ready only where the payment allows it; and a cancellation by an administrator only where
-- that one may write refunds. The order that is returned has the new status.
pub update_transaction_lem :
    (now order_id : ℕ) (target : OrderStatus) (user : User) (db : Db)
    {r : Option PaymentRefund × Order} {db' : Db}
    → update_transaction now order_id target user db ≡ ok (r, db')
    → (old : Order) × (get order_key order_id db.orders ≡ some old)
      × ((user.role ≡ admin) ⊎ (user.role ≡ UserRole.merchant))
      × (contains merchant_assignable_statuses target ≡ true)
      × (can_transition_order old.status target ≡ true)
      × (target ≡ ready → payment_allows_fulfillment old ≡ true)
      × (user.role ≡ admin → target ≡ cancelled → has_capability user refund_write ≡ true)
      × (authorise_update old user db ≡ ok (tt, db))
      × (r.1.status ≡ target)
unfolding update_transaction require_roles transition_order save_order
update_transaction_lem now order_id target user db h =
    elim (Option-cases (get order_key order_id db.orders)) [
      | inl absent ↦ absurd (ground arith)
      | inr (old, found) ↦ elim (Result-cases (authorise_update old user db)) [
        | inr (x, raised) ↦ absurd (ground arith)
        | inl (u, db1, allowed) ↦
            let same = authorise_update_same old user db allowed in
            elim (Result-cases (effects_of_update now user old target db1)) [
              | inr (x, raised) ↦ absurd (ground arith)
              | inl (refund, db2, done_so) ↦ (
                old,
                found,
                ground arith,
                ground arith,
                ground arith,
                ground arith,
                λ a t. can_cancel_effects now user old target db1 done_so t a,
                ground (arith, same),
                ground arith,
              )
            ]
      ]
    ]
