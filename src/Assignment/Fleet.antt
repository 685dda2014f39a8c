-- ===== src/Assignment/Fleet.antt =====
-- The rule of one active delivery for a rider, under automatic assignment.
use ai_powered_market.Assignment.{
  Nearest, Queue, Tally, active_of, assign_rider, auto_assign_delivery, dispatch_one,
  dispatch_ready_deliveries, dispatch_turns, take_task,
}
use ai_powered_market.Capabilities.{ensure_capability}
use ai_powered_market.Deliveries.{locked_delivery_order}
use ai_powered_market.Effects.{
  annotate_delivery_transition, annotate_transition, enqueue_notification, record_admin_action,
}
use ai_powered_market.Examples.Data.{rider}
use ai_powered_market.Model.Db.{Db}
use ai_powered_market.Model.Keys.{delivery_key, order_key, store_key, user_key}
use ai_powered_market.Model.Market.{User}
use ai_powered_market.Model.Orders.{Delivery, Order}
use ai_powered_market.Payments.Webhook.{seen}
use ai_powered_market.Prelude.{
  List, Option-cases, [], arith, find_by, find_by-get-none, get, get-key, get-put_ne, get-put_self,
  inl, inr, none, put, some, subst, suc, sym, zero, ℕ, ◌∷◌, ◌≡◌,
}
use ai_powered_market.Riders.Exclusive.{IsExclusive}
use ai_powered_market.Session.{Result-cases, ok, save_delivery, store_delivery-deliveries}
use ai_powered_market.Transitions.{transition_delivery}

-- The rows are those of the first database, with one of them given to a rider who carried none.
abbrev Gives : ℕ → Delivery → Db → Db → Type 0
Gives k d db db' =
    (rider : ℕ) × (d.id ≡ k)
    × (d.delivery_partner_id ≡ some rider)
    × (db'.deliveries ≡ put delivery_key d db.deliveries)
    × (find_by (active_of rider) db.deliveries ≡ none)

Gives-IsExclusive :
    (k : ℕ) (d old : Delivery) (db db' : Db)
    → IsExclusive db.deliveries
    → get delivery_key k db.deliveries ≡ some old
    → Gives k d db db'
    → IsExclusive db'.deliveries
Gives-IsExclusive k d old db db' x stored (rider, same, taken, written, free) r i j a b ga gb ca
      cb =
    ground (
      arith,
      x r i j a b,
      get-put_self delivery_key d old db.deliveries,
      get-put_ne delivery_key i d db.deliveries,
      get-put_ne delivery_key j d db.deliveries,
      find_by-get-none delivery_key (active_of rider) i a db.deliveries,
      find_by-get-none delivery_key (active_of rider) j b db.deliveries,
    )

assign_rider_lem :
    (now : ℕ) (user : User) (old : Delivery) (o : Order) (rider_id : ℕ) (db : Db) {d : Delivery}
    {db' : Db}
    → assign_rider now user old o rider_id db ≡ ok (d, db')
    → Gives old.id d db db'
unfolding assign_rider transition_delivery save_delivery enqueue_notification record_admin_action
assign_rider_lem now user old o rider_id db {d} h =
    elim (Option-cases (get user_key rider_id db.users)) [
      | inl absent ↦ absurd (ground arith)
      | inr (rider, found) ↦ (
        rider.id,
        ground arith,
        ground arith,
        ground (arith, store_delivery-deliveries d db),
        ground arith,
      )
    ]

take_task_lem :
    (now : ℕ) (old : Delivery) (o : Order) (rider_id : ℕ) (db : Db) {d : Delivery} {db' : Db}
    → take_task now old o rider_id db ≡ ok (d, db')
    → Gives old.id d db db'
unfolding take_task transition_delivery save_delivery enqueue_notification
    annotate_delivery_transition annotate_transition
take_task_lem now old o rider_id db {d} h = (
  rider_id,
  ground arith,
  ground arith,
  ground (arith, store_delivery-deliveries d db),
  ground arith,
)

-- Where no rider carries two deliveries, none does after an administrator has a delivery assigned,
-- whichever rider is nearest.
pub auto_assign_delivery-IsExclusive :
    (nearest : Nearest) (now delivery_id : ℕ) (user : User) (db : Db) {d : Delivery} {db' : Db}
    → IsExclusive db.deliveries
    → auto_assign_delivery nearest now delivery_id user db ≡ ok (d, db')
    → IsExclusive db'.deliveries
unfolding auto_assign_delivery ensure_capability locked_delivery_order
auto_assign_delivery-IsExclusive nearest now delivery_id user db {d} {db'} x h =
    elim (Option-cases (get delivery_key delivery_id db.deliveries)) [
      | inl absent ↦ absurd (ground arith)
      | inr (old, found) ↦ elim (Option-cases (get order_key old.order_id db.orders)) [
        | inl absent ↦ absurd (ground arith)
        | inr (o, ordered) ↦ elim (Option-cases (get store_key o.store_id db.stores)) [
          | inl absent ↦ absurd (ground arith)
          | inr (s, located) ↦ elim (Option-cases (nearest db s)) [
            | inl absent ↦ absurd (ground arith)
            | inr (r, chosen) ↦
                let same = get-key delivery_key delivery_id db.deliveries old found in
                let run : assign_rider now user old o r db ≡ ok (d, db') = ground arith in
                Gives-IsExclusive old.id d old db db' x
                  (subst (λ k. get delivery_key k db.deliveries ≡ some old) (sym same) found)
                  (assign_rider_lem now user old o r db run)
          ]
        ]
      ]
    ]

dispatch_one-IsExclusive :
    (nearest : Nearest) (now : ℕ) (old : Delivery) (db : Db) {d : Delivery} {db' : Db}
    → IsExclusive db.deliveries
    → get delivery_key old.id db.deliveries ≡ some old
    → dispatch_one nearest now old db ≡ ok (d, db')
    → IsExclusive db'.deliveries
unfolding dispatch_one
dispatch_one-IsExclusive nearest now old db {d} {db'} x found h =
    elim (Option-cases (get order_key old.order_id db.orders)) [
      | inl absent ↦ absurd (ground arith)
      | inr (o, ordered) ↦ elim (Option-cases (get store_key o.store_id db.stores)) [
        | inl absent ↦ absurd (ground arith)
        | inr (s, located) ↦ elim (Option-cases (nearest db s)) [
          | inl absent ↦ absurd (ground arith)
          | inr (r, chosen) ↦
              let run : take_task now old o r db ≡ ok (d, db') = ground arith in
              Gives-IsExclusive old.id d old db db' x found (take_task_lem now old o r db run)
        ]
      ]
    ]

-- The queue yields rows that are stored.
abbrev pub YieldsStored : Queue → Type 0
YieldsStored queue =
    (db : Db) (seen : List ℕ) (d : Delivery)
    → queue db seen ≡ some d
    → get delivery_key d.id db.deliveries ≡ some d

dispatch_turns-IsExclusive :
    (queue : Queue) (nearest : Nearest) (now turns : ℕ) (seen : List ℕ) (t : Tally) (db : Db)
    → YieldsStored queue
    → IsExclusive db.deliveries
    → IsExclusive (dispatch_turns queue nearest now turns seen t db).1.deliveries
unfolding dispatch_turns
dispatch_turns-IsExclusive queue nearest now zero seen t db q x = x
dispatch_turns-IsExclusive queue nearest now (suc turns) seen t db q x =
    let safe = λ (r : Tally × Db). IsExclusive r.1.deliveries in
    elim (Option-cases (queue db seen)) [
      | inl stop ↦
          let ends : dispatch_turns queue nearest now (suc turns) seen t db ≡ (t, db) =
            ground arith in
          subst safe (sym ends) x
      | inr (d, next) ↦ elim (Result-cases (dispatch_one nearest now d db)) [
        | inl (taken, db1, given) ↦
            let t1 = record t { assigned_count = suc t.assigned_count } in
            let goes : dispatch_turns queue nearest now (suc turns) seen t db
                ≡ dispatch_turns queue nearest now turns (d.id ∷ seen) t1 db1 =
              ground arith in
            subst safe (sym goes) (
              dispatch_turns-IsExclusive queue nearest now turns (d.id ∷ seen) t1 db1 q
                (dispatch_one-IsExclusive nearest now d db x (q db seen d next) given))
        | inr (e, refused_so) ↦
            let t1 = record t { skipped_count = suc t.skipped_count } in
            let goes : dispatch_turns queue nearest now (suc turns) seen t db
                ≡ dispatch_turns queue nearest now turns (d.id ∷ seen) t1 db =
              ground arith in
            subst safe (sym goes)
              (dispatch_turns-IsExclusive queue nearest now turns (d.id ∷ seen) t1 db q x)
      ]
    ]

-- Where no rider carries two deliveries, none does after a run of the worker, whatever deliveries the
-- queue yields, in whatever order, and whichever riders are nearest.
pub dispatch_ready-IsExclusive :
    (queue : Queue) (nearest : Nearest) (now limit : ℕ) (db : Db)
    → YieldsStored queue
    → IsExclusive db.deliveries
    → IsExclusive (dispatch_ready_deliveries queue nearest now limit db).1.deliveries
unfolding dispatch_ready_deliveries
dispatch_ready-IsExclusive queue nearest now limit db q x =
    dispatch_turns-IsExclusive queue nearest now limit []
      (record { assigned_count = 0; skipped_count = 0 }) db q x
