-- ===== src/Support/Linking.antt =====
-- What the tickets of backend/app/api/v1/routes/support.py may be linked to.
use ai_powered_market.Capabilities.{ensure_capability}
use ai_powered_market.Model.Db.{Db}
use ai_powered_market.Model.Keys.{delivery_key, order_key, store_key}
use ai_powered_market.Model.Market.{Store, User}
use ai_powered_market.Model.Orders.{Delivery, Order}
use ai_powered_market.Prelude.{Option, arith, get, inl, inr, none, some, subst, sym, ℕ, ◌≡◌, ◌≢◌}
use ai_powered_market.Session.{Error, Result-cases, ok}
use ai_powered_market.Support.{
  References, Resources, TicketCreate, explicit, look_up, missing_error, order_of_delivery, relate,
  validate_references,
}

abbrev pub find_order : ℕ → Db → Option Order
find_order id db = get order_key id db.orders

abbrev pub find_delivery : ℕ → Db → Option Delivery
find_delivery id db = get delivery_key id db.deliveries

abbrev pub find_store : ℕ → Db → Option Store
find_store id db = get store_key id db.stores

-- A reference that is given is stored; one that is not given is none.
abbrev pub IsFound : {A : Type 0} → Option ℕ → (ℕ → Db → Option A) → Db → Option A → Type 0
IsFound none find db r = r ≡ none
IsFound (some id) find db r = (find id db ≡ r) × (r ≢ none)

explicit_lem :
    {A : Type 0} (id : Option ℕ) (find : ℕ → Db → Option A) (x : Error) (db : Db) {r : Option A}
    {db' : Db}
    → explicit id find x db ≡ ok (r, db')
    → (db' ≡ db) × IsFound id find db r
explicit_lem none find x db e = ground arith
explicit_lem (some id) find x db e = ground arith

abbrev pub order_id_in : Option Delivery → Option ℕ
order_id_in none = none
order_id_in (some d) = some d.order_id

order_of_delivery_lem :
    (d : Option Delivery) (x : Error) (db : Db) {r : Option Order} {db' : Db}
    → order_of_delivery d x db ≡ ok (r, db')
    → (db' ≡ db) × IsFound (order_id_in d) find_order db r
order_of_delivery_lem none x db e = ground arith
order_of_delivery_lem (some d) x db e = ground arith

-- Each resource is the one that the payload, or the delivery, names.
pub record Looked (payload : TicketCreate) (db : Db) (r : Resources) (db' : Db) : Type 0 where
  pub same : db' ≡ db
  pub order_found : IsFound payload.order_id find_order db r.explicit_order
  pub delivery_found : IsFound payload.delivery_id find_delivery db r.explicit_delivery
  pub delivery_order_found :
      IsFound (order_id_in r.explicit_delivery) find_order db r.delivery_order
  pub store_found : IsFound payload.store_id find_store db r.explicit_store

pub look_up_lem :
    (payload : TicketCreate) (user : User) (db : Db) {r : Resources} {db' : Db}
    → look_up payload user db ≡ ok (r, db')
    → Looked payload db r db'
unfolding look_up
look_up_lem payload user db {r} {db'} e =
    let no = missing_error user in
    elim (Result-cases (explicit payload.order_id find_order (no "Order not found") db)) [
      | inr (x, e1) ↦ absurd (ground arith)
      | inl (eo, db1, e1) ↦
          let f1 =
            explicit_lem payload.order_id find_order (no "Order not found") db {r = eo} {db' = db1}
              e1 in
          elim (Result-cases
            (explicit payload.delivery_id find_delivery (no "Delivery not found") db)) [
              | inr (x, e2) ↦ absurd (ground arith)
              | inl (ed, db2, e2) ↦
                  let f2 =
                    explicit_lem payload.delivery_id find_delivery (no "Delivery not found") db
                      {r = ed} {db' = db2} e2 in
                  elim (Result-cases (order_of_delivery ed (no "Delivery not found") db)) [
                    | inr (x, e3) ↦ absurd (ground arith)
                    | inl (edo, db3, e3) ↦
                        let f3 =
                          order_of_delivery_lem ed (no "Delivery not found") db {r = edo}
                            {db' = db3} e3 in
                        elim (Result-cases
                          (explicit payload.store_id find_store (no "Store not found") db)) [
                            | inr (x, e4) ↦ absurd (ground arith)
                            | inl (es, db4, e4) ↦
                                let f4 =
                                  explicit_lem payload.store_id find_store (no "Store not found") db
                                    {r = es} {db' = db4} e4 in
                                let it : r ≡ record {
                                  explicit_order = eo;
                                  explicit_delivery = ed;
                                  delivery_order = edo;
                                  explicit_store = es;
                                } =
                                  ground arith in
                                let made : Looked payload db
                                    (record {
                                      explicit_order = eo;
                                      explicit_delivery = ed;
                                      delivery_order = edo;
                                      explicit_store = es;
                                    })
                                    db' =
                                  record {
                                    same = ground arith;
                                    order_found = f1.1;
                                    delivery_found = f2.1;
                                    delivery_order_found = f3.1;
                                    store_found = f4.1;
                                  } in
                                subst (λ x. Looked payload db x db') (sym it) made
                          ]
                  ]
            ]
    ]

-- Checking the references changes nothing.
pub validate_references_same :
    (payload : TicketCreate) (user : User) (db : Db) {r : References} {db' : Db}
    → validate_references payload user db ≡ ok (r, db')
    → db' ≡ db
unfolding validate_references relate ensure_capability
validate_references_same payload user db {r} {db'} e =
    elim (Result-cases (look_up payload user db)) [
      | inr (x, e1) ↦ absurd (ground arith)
      | inl (res, db1, e1) ↦
          let l = look_up_lem payload user db {r = res} {db' = db1} e1 in ground (arith, l.same)
    ]
