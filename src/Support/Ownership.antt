-- ===== src/Support/Ownership.antt =====
-- A customer's ticket links the customer's own orders: backend/app/api/v1/routes/support.py.
use ai_powered_market.Effects.{record_admin_action}
use ai_powered_market.Model.Db.{Db}
use ai_powered_market.Model.Keys.{order_key, store_key}
use ai_powered_market.Model.Market.{Store, User}
use ai_powered_market.Model.Orders.{Delivery, Order}
use ai_powered_market.Model.Status.{UserRole}
use ai_powered_market.Model.Support.{SupportTicket}
use ai_powered_market.Prelude.{
  Option, Option-cases, String, arith, false, get, get-key, inl, inr, is_some, none, refl, some,
  subst, sym, true, ℕ, ◌≡◌, ◌≢◌,
}
use ai_powered_market.Session.{Result-cases, ok}
use ai_powered_market.Support.{
  References, Resources, TicketCreate, has_reference, is_of_other, look_up, may_refer, or_other,
  relate, store_of, validate_references,
}
use ai_powered_market.Support.Linking.{
  IsFound, Looked, find_delivery, find_order, find_store, look_up_lem, order_id_in,
}
use ai_powered_market.Support.Tickets.{
  TicketRead, create_ticket, delivery_id_of, existing_ticket_replay, open_ticket, order_id_of,
  public_read, replayed_ticket_or_conflict, store_id_of, ticket_replay_matches, ticket_row,
}

-- An order that the references name is stored, the user's, and of the store that they name.
abbrev OwnOrder : User → Db → Option Order → Option ℕ → Type 0
OwnOrder user db none store_id = store_id ≡ none
OwnOrder user db (some o) store_id =
    (get order_key o.id db.orders ≡ some o) × (o.user_id ≡ user.id) × (store_id ≡ some o.store_id)

abbrev OwnReferences : User → Db → References → Db → Option Order → Type 0
OwnReferences user db r db' order =
    (db' ≡ db)
    × OwnOrder user db order (store_id_of r.store)
    × (order ≡ none → delivery_id_of r.delivery ≡ none)

stored_order :
    (id : Option ℕ) (db : Db) (o : Order)
    → IsFound id find_order db (some o)
    → get order_key o.id db.orders ≡ some o
stored_order none db o h = absurd (ground arith)
stored_order (some id) db o h = ground (arith, get-key order_key id db.orders o h.0)

store_named :
    (id : Option ℕ) (db : Db) (o : Order) (s : Option Store) {named : Option Store}
    → or_other s (store_of db (some o)) ≡ named
    → is_of_other s (some o) ≡ false
    → named ≢ none
    → store_id_of named ≡ some o.store_id
store_named id db o (some s) {named} e other n = ground arith
store_named id db o none {named} e other n =
    elim (Option-cases (get store_key o.store_id db.stores)) [
      | inl absent ↦ absurd (ground arith)
      | inr (s, found) ↦ ground (arith, get-key store_key o.store_id db.stores s found)
    ]

found_given :
    {A : Type 0} (id : Option ℕ) (find : ℕ → Db → Option A) (db : Db) (r : Option A)
    → IsFound id find db r
    → r ≢ none
    → is_some id ≡ true
found_given none find db r h n = absurd (n h)
found_given (some id) find db r h n = refl

found_none :
    {A : Type 0} (id : Option ℕ) (find : ℕ → Db → Option A) (db : Db) (r : Option A)
    → IsFound id find db r
    → is_some id ≡ false
    → r ≡ none
found_none none find db r h n = h
found_none (some id) find db r h n = absurd (ground arith)

delivery_given : (d : Option Delivery) → is_some (order_id_in d) ≡ true → d ≢ none
delivery_given none h = ground arith
delivery_given (some d) h = ground arith

module _ (payload : TicketCreate) (user : User) (db : Db)
    (is_customer : user.role ≡ UserRole.customer) where
  relate_own :
      (res : Resources) {r : References} {db' : Db}
      → Looked payload db res db
      → relate payload user res db ≡ ok (r, db')
      → OwnReferences user db r db' r.order
  unfolding relate may_refer
  relate_own res {r} {db'} l e = elim (Option-cases res.explicit_order) [
    | inr (o, given) ↦
        let stored =
          stored_order payload.order_id db o
            (subst (IsFound payload.order_id find_order db) given l.order_found) in
        let given_id =
          found_given payload.order_id find_order db res.explicit_order l.order_found
            (ground arith) in
        let chosen : r.order ≡ some o = ground arith in
        let named =
          store_named none db o res.explicit_store {named = r.store} (ground arith) (ground arith)
            (ground arith) in
        subst (OwnReferences user db r db') (sym chosen)
          (ground arith, (stored, ground arith, named), ground arith)
    | inl absent ↦ elim (Option-cases res.delivery_order) [
      | inr (o, given) ↦
          let stored = stored_order (order_id_in res.explicit_delivery) db o (
            subst (IsFound (order_id_in res.explicit_delivery) find_order db) given
              l.delivery_order_found) in
          let given_order =
            found_given (order_id_in res.explicit_delivery) find_order db res.delivery_order
              l.delivery_order_found (ground arith) in
          let given_id =
            found_given payload.delivery_id find_delivery db res.explicit_delivery l.delivery_found
              (delivery_given res.explicit_delivery given_order) in
          let chosen : r.order ≡ some o = ground arith in
          let named =
            store_named none db o res.explicit_store {named = r.store} (ground arith) (ground arith)
              (ground arith) in
          subst (OwnReferences user db r db') (sym chosen)
            (ground arith, (stored, ground arith, named), ground arith)
      | inl absent_too ↦
          let nothing : has_reference payload ≡ false = ground arith in
          let no_delivery =
            found_none payload.delivery_id find_delivery db res.explicit_delivery l.delivery_found
              (ground arith) in
          let no_store =
            found_none payload.store_id find_store db res.explicit_store l.store_found
              (ground arith) in
          let chosen : r.order ≡ none = ground arith in
          subst (OwnReferences user db r db') (sym chosen)
            (ground arith, ground arith, λ h. ground arith)
    ]
  ]

-- The order of a ticket's links is stored and the user's, and the store is the order's; without an order there is
-- no link.
abbrev pub LinksOwn : User → Db → Option ℕ → Option ℕ → Option ℕ → Type 0
LinksOwn user db none delivery_id store_id = (delivery_id ≡ none) × (store_id ≡ none)
LinksOwn user db (some id) delivery_id store_id =
    (o : Order) × (get order_key id db.orders ≡ some o)
    × (o.user_id ≡ user.id)
    × (store_id ≡ some o.store_id)

links_own :
    (user : User) (db : Db) (r : References) {db' : Db} (order : Option Order)
    → OwnReferences user db r db' order
    → LinksOwn user db (order_id_of order) (delivery_id_of r.delivery) (store_id_of r.store)
links_own user db r none h = ground arith
links_own user db r (some o) h = (o, h.1.0, h.1.1, h.1.2)

validate_own :
    (payload : TicketCreate) (user : User) (db : Db) {r : References} {db' : Db}
    → user.role ≡ UserRole.customer
    → validate_references payload user db ≡ ok (r, db')
    → (db' ≡ db)
      × LinksOwn user db (order_id_of r.order) (delivery_id_of r.delivery) (store_id_of r.store)
unfolding validate_references
validate_own payload user db {r} {db'} is_customer e =
    elim (Result-cases (look_up payload user db)) [
      | inr (x, e1) ↦ absurd (ground arith)
      | inl (res, db1, e1) ↦
          let l = look_up_lem payload user db {r = res} {db' = db1} e1 in
          let l' = subst (Looked payload db res) l.same l in
          let own =
            relate_own payload user db is_customer res {r = r} {db' = db'} l'
              (ground (arith, l.same)) in
          (own.0, links_own user db r {db' = db'} r.order own)
    ]

links_same :
    (user : User) (db : Db) {o o' d d' s s' : Option ℕ}
    → o ≡ o'
    → d ≡ d'
    → s ≡ s'
    → LinksOwn user db o d s
    → LinksOwn user db o' d' s'
links_same user db {o} {o'} {d} {d'} {s} {s'} eo ed es h =
    subst (λ x. LinksOwn user db x d' s') eo
      (subst (λ x. LinksOwn user db o x s') ed (subst (LinksOwn user db o d) es h))

-- The links that a requester reads are those of the request, also of a ticket that comes back.
open_ticket_reads :
    (lower : String → String) (now : ℕ) (payload : TicketCreate) (user : User) (r : References)
    (existing : Option SupportTicket) (db : Db) {read : TicketRead} {db' : Db}
    → open_ticket lower now payload user r existing db ≡ ok (read, db')
    → (read.order_id ≡ order_id_of r.order)
      × (read.delivery_id ≡ delivery_id_of r.delivery)
      × (read.store_id ≡ store_id_of r.store)
unfolding replayed_ticket_or_conflict ticket_replay_matches public_read ticket_row
    record_admin_action
open_ticket_reads lower now payload user r (some t) db e = ground arith
open_ticket_reads lower now payload user r none db e = ground arith

-- Whatever a customer names, a ticket that is opened, or that comes back under its key, links no order but a stored
-- one of the customer's own, with that order's store; without an order it links no delivery and no store.
pub create_ticket-LinksOwn :
    (lower : String → String) (now : ℕ) (payload : TicketCreate) (user : User) (db : Db)
    {read : TicketRead} {db' : Db}
    → user.role ≡ UserRole.customer
    → create_ticket lower now payload user db ≡ ok (read, db')
    → LinksOwn user db read.order_id read.delivery_id read.store_id
unfolding create_ticket
create_ticket-LinksOwn lower now payload user db {read} {db'} is_customer e =
    elim (Result-cases (validate_references payload user db)) [
      | inr (x, e1) ↦ absurd (ground arith)
      | inl (r, db1, e1) ↦
          let own = validate_own payload user db {r = r} {db' = db1} is_customer e1 in
          let existing = existing_ticket_replay user.id payload.idempotency_key db in
          let (o, d, s) =
            open_ticket_reads lower now payload user r existing db {read = read} {db' = db'}
              (ground (arith, own)) in
          links_same user db (sym o) (sym d) (sym s) own.1
    ]
