-- ===== src/Transitions/Lifecycle.antt =====
-- Histories of orders and of deliveries along the permitted transitions.
use ai_powered_market.Model.Db.{Db}
use ai_powered_market.Model.Keys.{order_key}
use ai_powered_market.Model.Orders.{Order}
use ai_powered_market.Model.Status.{
  DeliveryStatus, OrderStatus, accepted, cancelled, delivery_status_eq, order_status_eq,
  out_for_delivery, picked_up, placed, preparing, ready, returned,
}
use ai_powered_market.Prelude.{
  Bool, Bool-cases, arith, false, get, get-put_self, inl, inr, length, length-insert, refl, some,
  suc, true, ℕ, ◌!=◌, ◌+◌, ◌==◌, ◌||◌, ◌≡◌, ◌≢◌, ◌≤◌, ◌⊎◌,
}
use ai_powered_market.Session.{err, ok, respond, save_order, store_order, value_error}
use ai_powered_market.Transitions.{can_transition_delivery, can_transition_order, transition_order}

-- The way of an order: how far each status is from the beginning.
abbrev pub stage : OrderStatus → ℕ
stage placed = 0
stage accepted = 1
stage preparing = 2
stage ready = 3
stage out_for_delivery = 4
stage _ = 5

-- A history: a chain of statuses, each a permitted successor of the one before.
pub data History (s : OrderStatus) : OrderStatus → Type 0 where
  start : History s s
  next : {t u : OrderStatus} → History s t → can_transition_order t u ≡ true → History s u

pub steps : {s t : OrderStatus} → History s t → ℕ
steps start = 0
steps (next h p) = suc (steps h)

stage-transition : (s t : OrderStatus) → can_transition_order s t ≡ true → stage s + 1 ≤ stage t
unfolding can_transition_order
stage-transition s t h = ground arith

-- Every history from `s` to `t` climbs one stage with each step at least, so it is finite: at most
-- five steps, with no status met twice.
pub steps-le_stage : {s t : OrderStatus} (h : History s t) → stage s + steps h ≤ stage t
unfolding steps
steps-le_stage start = omega arith
steps-le_stage (next {t} {u} h p) = omega (arith, steps-le_stage h, stage-transition t u p)

-- No status can be reached again: a history that comes back to its beginning is empty.
pub steps-loop : {s : OrderStatus} (h : History s s) → steps h ≡ 0
steps-loop h = omega (arith, steps-le_stage h)

abbrev pub IsFinal : OrderStatus → Type 0
IsFinal s = (s ≡ OrderStatus.delivered) ⊎ (s ≡ returned) ⊎ (s ≡ cancelled)

IsFinal-of_stuck :
    (s : OrderStatus) → ((t : OrderStatus) → can_transition_order s t ≡ false) → IsFinal s
unfolding can_transition_order
IsFinal-of_stuck placed h = ground (arith, h accepted)
IsFinal-of_stuck accepted h = ground (arith, h preparing)
IsFinal-of_stuck preparing h = ground (arith, h ready)
IsFinal-of_stuck ready h = ground (arith, h out_for_delivery)
IsFinal-of_stuck out_for_delivery h = ground (arith, h returned)
IsFinal-of_stuck _ h = ground arith

-- Exactly the delivered, the returned and the cancelled order admits no further transition.
pub IsFinal-iff_stuck :
    (s : OrderStatus)
    → (IsFinal s → (t : OrderStatus) → can_transition_order s t ≡ false)
      × (((t : OrderStatus) → can_transition_order s t ≡ false) → IsFinal s)
unfolding can_transition_order
IsFinal-iff_stuck s = (λ f t. ground arith, IsFinal-of_stuck s)

before_cancelled : (t : OrderStatus) → can_transition_order t cancelled ≡ true → stage t ≤ 1
unfolding can_transition_order
before_cancelled t p = ground arith

-- A history that ends in a cancellation and has a step begins before the store prepares the order:
-- at a placed or an accepted order.
pub cancelled_begins_early :
    {s : OrderStatus} (h : History s cancelled) → s ≢ cancelled → stage s ≤ 1
cancelled_begins_early start ne = absurd (ne refl)
cancelled_begins_early (next {t} h p) ne = omega (arith, steps-le_stage h, before_cancelled t p)

-- A history of a delivery.
pub data DeliveryHistory (s : DeliveryStatus) : DeliveryStatus → Type 0 where
  begin : DeliveryHistory s s
  step :
      {t u : DeliveryStatus}
      → DeliveryHistory s t
      → can_transition_delivery t u ≡ true
      → DeliveryHistory s u

-- The goods were picked up at some point of the history.
pub passes_pickup : {s t : DeliveryStatus} → DeliveryHistory s t → Bool
passes_pickup {s} begin = s == picked_up
passes_pickup (step {u} h p) = passes_pickup h || u == picked_up

pickup_of_delivered :
    (t : DeliveryStatus) → can_transition_delivery t DeliveryStatus.delivered ≡ true → t ≡ picked_up
unfolding can_transition_delivery
pickup_of_delivered t p = ground arith

passes_pickup_now :
    {s t : DeliveryStatus} (h : DeliveryHistory s t) → t ≡ picked_up → passes_pickup h ≡ true
unfolding passes_pickup
passes_pickup_now begin e = rw e
passes_pickup_now (step h p) e = ground (arith, passes_pickup h)

-- A delivery that was not delivered at first is delivered only by a history that passes the pickup.
pub delivered_passes_pickup :
    {s : DeliveryStatus} (h : DeliveryHistory s DeliveryStatus.delivered)
    → s ≢ DeliveryStatus.delivered
    → passes_pickup h ≡ true
unfolding passes_pickup
delivered_passes_pickup begin ne = absurd (ne refl)
delivered_passes_pickup (step {t} h p) ne =
    ground (arith, passes_pickup_now h (pickup_of_delivered t p))

changes : (s t : OrderStatus) → can_transition_order s t ≡ true → (s != t) ≡ true
unfolding can_transition_order
changes s t h = ground arith

-- `transition_order` on a stored order: a permitted target is stored, with the rest of the row as it
-- was and exactly one event more in the audit trail; any other target raises and changes nothing.
pub transition_order_lem :
    (order : Order) (target : OrderStatus) (db : Db)
    → get order_key order.id db.orders ≡ some order
    → let (r, db') = respond (transition_order order target) db in
      (can_transition_order order.status target ≡ true
        → (r ≡ ok (record order { status = target }))
          × (get order_key order.id db'.orders ≡ some (record order { status = target }))
          × (length db'.transitions ≡ length db.transitions + 1))
      × (can_transition_order order.status target ≡ false → (r ≡ err value_error) × (db' ≡ db))
unfolding transition_order save_order store_order
transition_order_lem order target db h =
    elim (Bool-cases (can_transition_order order.status target)) [
      | inl permitted ↦ grind (
        arith,
        changes order.status target permitted,
        get-put_self order_key (record order { status = target }) order db.orders h,
        length-insert,
      )
      | inr refused ↦ ground arith
    ]
