-- ===== src/Support.antt =====
-- backend/app/api/v1/routes/support.py: tickets, their messages, and the work of the support staff. The clock
-- and `str.lower` are arguments. Proofs are in child modules.
pub mod Triage
pub mod Tickets
pub mod Messages
pub mod Linking
pub mod Ownership
pub mod Changes
pub mod Replies
pub mod Versions
pub mod Privacy
pub mod Repeats
use ai_powered_market.Capabilities.{ensure_capability}
use ai_powered_market.Checkout.Placing.{delivery_row}
use ai_powered_market.Model.Db.{Db}
use ai_powered_market.Model.Keys.{delivery_key, order_key, store_key}
use ai_powered_market.Model.Market.{Merchant, Store, User}
use ai_powered_market.Model.Orders.{Delivery, Order}
use ai_powered_market.Model.Status.{UserRole, admin, role_eq, support_manage}
use ai_powered_market.Model.Support.{TicketStatus, closed, in_progress, resolved, waiting_customer}
use ai_powered_market.Prelude.{
  Bool, List, Option, String, [], false, find_by, get, if◌then◌else◌, is_none, is_some, nat_eq,
  none, not, option_eq, some, true, ℕ, ◌!=◌, ◌&&◌, ◌==◌, ◌||◌, ◌∷◌,
}
use ai_powered_market.Session.{
  Action, Error, gets, http, or_raise, pure, raise_if, when, ◌>>=◌, ◌>>◌,
}

-- `TicketCreate`
pub record TicketCreate : Type 0 where
  pub subject : String
  pub description : String
  pub store_id : Option ℕ
  pub order_id : Option ℕ
  pub delivery_id : Option ℕ
  pub idempotency_key : Option ℕ

-- `TicketUpdate`; `notes_supplied` tells a missing field from a null one.
pub record TicketUpdate : Type 0 where
  pub status : TicketStatus
  pub notes_supplied : Bool
  pub resolution_notes : Option String
  pub expected_version : Option ℕ

-- `TicketAssignment`
pub record TicketAssignment : Type 0 where
  pub assigned_admin_id : Option ℕ
  pub expected_version : ℕ

-- `MessageCreate`, whose validator strips the body.
pub record MessageCreate : Type 0 where
  pub body : String
  pub idempotency_key : ℕ

-- `ALLOWED_TRANSITIONS`
unfoldable pub allowed_transitions : TicketStatus → List TicketStatus
allowed_transitions TicketStatus.opened = in_progress ∷ waiting_customer ∷ resolved ∷ closed ∷ []
allowed_transitions in_progress = waiting_customer ∷ resolved ∷ closed ∷ []
allowed_transitions waiting_customer = in_progress ∷ resolved ∷ closed ∷ []
allowed_transitions resolved = in_progress ∷ closed ∷ []
allowed_transitions closed = TicketStatus.opened ∷ []

-- What `_validate_references` returns.
pub record References : Type 0 where
  pub order : Option Order
  pub delivery : Option Delivery
  pub store : Option Store

abbrev pub linked_error : Error
linked_error = http 404 "Linked support context not found"

-- `missing`: an administrator reads which resource it is.
abbrev pub missing_error : User → String → Error
missing_error user detail = if user.role == admin then http 404 detail else linked_error

-- `db.get(Table, id) if id else None`, and `missing` where there is no such row.
abbrev pub explicit : {A : Type 0} → Option ℕ → (ℕ → Db → Option A) → Error → Action (Option A)
explicit none find e db = pure none db
explicit (some id) find e db =
    (do found ← gets (λ db. find id db); row ← or_raise found e; pure (some row)) db

abbrev pub order_of_delivery : Option Delivery → Error → Action (Option Order)
order_of_delivery none e db = pure none db
order_of_delivery (some d) e db =
    explicit (some d.order_id) (λ id db. get order_key id db.orders) e db

-- `explicit_order is not None and delivery_order is not None and explicit_order.id != delivery_order.id`
abbrev pub orders_differ : Option Order → Option Order → Bool
orders_differ (some a) (some b) = a.id != b.id
orders_differ _ _ = false

-- A store and an order of another store.
abbrev pub is_of_other : Option Store → Option Order → Bool
is_of_other (some s) (some o) = o.store_id != s.id
is_of_other _ _ = false

abbrev is_of_user : User → Option Order → Bool
is_of_user user none = true
is_of_user user (some o) = o.user_id == user.id

abbrev pub customer_may : User → Option Order → Option Order → Option Store → Bool
customer_may user order delivery_order store =
    (is_some order || is_some delivery_order)
    && (is_of_user user order
        && (is_of_user user delivery_order
            && (not (orders_differ order delivery_order)
                && (not (is_of_other store order) && not (is_of_other store delivery_order)))))

abbrev is_of_merchant : Merchant → Option Store → Bool
is_of_merchant m none = true
is_of_merchant m (some s) = s.merchant_id == m.id

abbrev merchant_may : Option Merchant → Option Store → Option Store → Option Store → Bool
merchant_may none a b c = false
merchant_may (some m) a b c =
    (is_some a || (is_some b || is_some c))
    && (is_of_merchant m a && (is_of_merchant m b && is_of_merchant m c))

abbrev is_carried_by : User → Option Delivery → Bool
is_carried_by user none = false
is_carried_by user (some d) = d.delivery_partner_id == some user.id

abbrev pub store_of : Db → Option Order → Option Store
store_of db none = none
store_of db (some o) = get store_key o.store_id db.stores

-- Whether the references belong to the requester, by role.
unfoldable pub may_refer :
    Db → User → Option Order → Option Delivery → Option Order → Option Store → Bool
may_refer db user order delivery_row delivery_order store = elim user.role [
  | UserRole.customer ↦ customer_may user order delivery_order store
  | UserRole.merchant ↦
      merchant_may (find_by (λ (m : Merchant). m.owner_user_id == user.id) db.merchants) store
        (store_of db order) (store_of db delivery_order)
  | UserRole.delivery ↦
      is_carried_by user delivery_row
      && (not (orders_differ order delivery_order) && not (is_of_other store delivery_order))
  | admin ↦ true
]

abbrev pub has_reference : TicketCreate → Bool
has_reference payload =
    is_some payload.store_id || (is_some payload.order_id || is_some payload.delivery_id)

abbrev pub or_other : {A : Type 0} → Option A → Option A → Option A
or_other (some a) other = some a
or_other none other = other

-- The resources that the payload names, and the order of its delivery.
pub record Resources : Type 0 where
  pub explicit_order : Option Order
  pub explicit_delivery : Option Delivery
  pub delivery_order : Option Order
  pub explicit_store : Option Store

unfoldable pub look_up : TicketCreate → User → Action Resources
look_up payload user = do
  explicit_order ←
      explicit payload.order_id (λ id db. get order_key id db.orders)
        (missing_error user "Order not found")
  explicit_delivery ←
      explicit payload.delivery_id (λ id db. get delivery_key id db.deliveries)
        (missing_error user "Delivery not found")
  delivery_order ← order_of_delivery explicit_delivery (missing_error user "Delivery not found")
  explicit_store ←
      explicit payload.store_id (λ id db. get store_key id db.stores)
        (missing_error user "Store not found")
  pure (record {
    explicit_order = explicit_order;
    explicit_delivery = explicit_delivery;
    delivery_order = delivery_order;
    explicit_store = explicit_store;
  })

-- The guards on the resources, and what they refer to.
unfoldable pub relate : TicketCreate → User → Resources → Action References
relate payload user r = do
  permitted ← gets (λ db.
      may_refer db user r.explicit_order r.explicit_delivery r.delivery_order r.explicit_store)
  raise_if (has_reference payload && not permitted) linked_error
  raise_if (orders_differ r.explicit_order r.delivery_order)
      (http 422 "Delivery does not belong to the referenced order")
  let order = or_other r.explicit_order r.delivery_order
  raise_if (is_of_other r.explicit_store order)
      (http 422 "Order does not belong to the referenced store")
  of_order ← gets (λ db. store_of db order)
  let store = or_other r.explicit_store of_order
  raise_if (is_some order && is_none store) linked_error
  pure (record { order = order; delivery = r.explicit_delivery; store = store })

-- `_validate_references`
unfoldable pub validate_references : TicketCreate → User → Action References
validate_references payload user = do
  when (user.role == admin) (ensure_capability user support_manage)
  resources ← look_up payload user
  relate payload user resources
