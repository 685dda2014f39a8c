-- ===== src/Effects.antt =====
-- What handlers record beside their own tables: backend/app/services/notifications.py, audit.py and
-- governance_audit.py.
use ai_powered_market.Model.Market.{User}
use ai_powered_market.Model.Orders.{
  Delivery, Order, Status, StatusTransitionEvent, delivery_status, order_status,
}
use ai_powered_market.Model.Status.{Capability, admin, delivery_status_eq, order_status_eq, role_eq}
use ai_powered_market.Prelude.{
  Bool, List, Option, String, [], false, if◌then◌else◌, insert, is_some, nat_eq, none, some, ℕ,
  ◌!=◌, ◌&&◌, ◌==◌, ◌∷◌,
}
use ai_powered_market.Session.{Action, modify, raise_if, value_error, ◌>>◌}

unfoldable pub enqueue_notification : ℕ → String → Action (Unit {0})
unfolding insert
enqueue_notification user_id event_type = modify λ db. record db {
  notifications = insert (record { user_id = user_id; event_type = event_type }) db.notifications;
}

abbrev status_beq : Status → Status → Bool
status_beq (order_status a) (order_status b) = a == b
status_beq (delivery_status a) (delivery_status b) = a == b
status_beq _ _ = false

-- The newest row that passes is the last one.
update_last : {A : Type 0} → (A → Bool) → (A → A) → List A → Option (List A)
update_last p f [] = none
update_last p f (x ∷ xs) = elim (update_last p f xs) [
  | some ys ↦ some (x ∷ ys)
  | none ↦ if p x then some (f x ∷ xs) else none
]

annotate : Option ℕ → Option String → StatusTransitionEvent → StatusTransitionEvent
annotate actor reason event = record event {
  actor_user_id = if is_some actor then actor else event.actor_user_id;
  reason = if is_some reason then reason else event.reason;
}

-- `entity_type` and `to_status` are told by one value. An annotation that finds no row is dropped.
unfoldable pub annotate_transition : ℕ → Status → Option ℕ → Option String → Action (Unit {0})
unfolding update_last annotate
annotate_transition entity_id to_status actor reason = modify λ db. record db {
  transitions =
      elim (update_last
        (λ (e : StatusTransitionEvent).
          e.entity_id == entity_id && status_beq e.to_status to_status)
        (annotate actor reason) db.transitions) [ some events ↦ events | none ↦ db.transitions ];
}

unfoldable pub annotate_order_transition : Order → Option ℕ → Option String → Action (Unit {0})
annotate_order_transition order actor reason =
    annotate_transition order.id (order_status order.status) actor reason

unfoldable pub annotate_delivery_transition :
    Delivery → Option ℕ → Option String → Action (Unit {0})
annotate_delivery_transition delivery actor reason =
    annotate_transition delivery.id (delivery_status delivery.status) actor reason

unfoldable pub record_admin_action :
    User → String → Capability → ℕ → Option String → Action (Unit {0})
unfolding insert
record_admin_action actor action capability resource_id reason = do
  raise_if (actor.role != admin) value_error
  modify λ db. record db {
    audit_events =
        insert
          (record {
            actor_user_id = actor.id;
            action = action;
            capability = capability;
            resource_id = resource_id;
            reason = reason;
          })
          db.audit_events;
  }
