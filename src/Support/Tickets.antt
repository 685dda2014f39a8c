-- ===== src/Support/Tickets.antt =====
-- Tickets of backend/app/api/v1/routes/support.py: opened, read, moved on and assigned.
use ai_powered_market.Capabilities.{ensure_capability, has_capability}
use ai_powered_market.Effects.{enqueue_notification, record_admin_action}
use ai_powered_market.Model.Db.{Db}
use ai_powered_market.Model.Keys.{user_key}
use ai_powered_market.Model.Market.{Store, User}
use ai_powered_market.Model.Orders.{Delivery, Order}
use ai_powered_market.Model.Status.{UserRole, admin, role_eq, support_manage}
use ai_powered_market.Model.Support.{
  SupportTicket, TicketStatus, closed, resolved, ticket_key, ticket_status_eq,
}
use ai_powered_market.Prelude.{
  Bool, Option, String, contains, false, find_by, get, if◌then◌else◌, insert, leb, ltb, nat_eq,
  none, not, option_eq, put, some, suc, true, ℕ, ◌!=◌, ◌&&◌, ◌==◌, ◌||◌,
}
use ai_powered_market.Prelude.Text.{string_eq, strip, text_length}
use ai_powered_market.Session.{
  Action, gets, http, modify, or_raise, pure, raise_if, when, ◌>>=◌, ◌>>◌,
}
use ai_powered_market.Support.{
  References, TicketAssignment, TicketCreate, TicketUpdate, allowed_transitions,
  validate_references,
}
use ai_powered_market.Support.Triage.{high, triage_ticket}

-- `_public_read`; `updated_at` is left out.
pub record TicketRead : Type 0 where
  pub id : ℕ
  pub user_id : ℕ
  pub store_id : Option ℕ
  pub order_id : Option ℕ
  pub delivery_id : Option ℕ
  pub requester_type : Option UserRole
  pub subject : String
  pub description : String
  pub category : String
  pub priority : String
  pub status : TicketStatus
  pub resolution_notes : Option String
  pub version : ℕ
  pub created_at : ℕ
  pub resolved_at : Option ℕ

unfoldable pub public_read : SupportTicket → TicketRead
public_read t = record {
  id = t.id;
  user_id = t.user_id;
  store_id = t.store_id;
  order_id = t.order_id;
  delivery_id = t.delivery_id;
  requester_type = t.requester_type;
  subject = t.subject;
  description = t.description;
  category = t.category;
  priority = t.priority;
  status = t.status;
  resolution_notes = t.resolution_notes;
  version = t.version;
  created_at = t.created_at;
  resolved_at = t.resolved_at;
}

-- `_admin_read`
pub record AdminRead : Type 0 where
  pub ticket : TicketRead
  pub assigned_admin_id : Option ℕ
  pub triage_summary : String
  pub suggested_action : String

unfoldable pub admin_read : SupportTicket → AdminRead
admin_read t = record {
  ticket = public_read t;
  assigned_admin_id = t.assigned_admin_id;
  triage_summary = t.triage_summary;
  suggested_action = t.suggested_action;
}

abbrev pub owned : User → Option SupportTicket → Option SupportTicket
owned user none = none
owned user (some t) = if t.user_id == user.id then some t else none

-- `_owned_ticket`
unfoldable pub owned_ticket : ℕ → User → Action SupportTicket
owned_ticket ticket_id user = do
  found ← gets (λ db. owned user (get ticket_key ticket_id db.tickets))
  or_raise found (http 404 "Support ticket not found")

unfoldable pub my_ticket : ℕ → User → Action TicketRead
my_ticket ticket_id user = do ticket ← owned_ticket ticket_id user; pure (public_read ticket)

unfoldable pub admin_ticket : ℕ → User → Action AdminRead
admin_ticket ticket_id user = do
  ensure_capability user support_manage
  found ← gets (λ db. get ticket_key ticket_id db.tickets)
  ticket ← or_raise found (http 404 "Support ticket not found")
  pure (admin_read ticket)

abbrev pub opens : ℕ → ℕ → SupportTicket → Bool
opens user_id key t = t.user_id == user_id && t.idempotency_key == some key

-- `_existing_ticket_replay`
unfoldable pub existing_ticket_replay : ℕ → Option ℕ → Db → Option SupportTicket
existing_ticket_replay user_id none db = none
existing_ticket_replay user_id (some key) db = find_by (opens user_id key) db.tickets

abbrev pub order_id_of : Option Order → Option ℕ
order_id_of none = none
order_id_of (some o) = some o.id

abbrev pub delivery_id_of : Option Delivery → Option ℕ
delivery_id_of none = none
delivery_id_of (some d) = some d.id

abbrev pub store_id_of : Option Store → Option ℕ
store_id_of none = none
store_id_of (some s) = some s.id

-- `_ticket_replay_matches`
unfoldable pub ticket_replay_matches : SupportTicket → TicketCreate → References → Bool
unfolding strip
ticket_replay_matches t payload r =
    t.subject == strip payload.subject
    && (t.description == strip payload.description
        && (t.order_id == order_id_of r.order
            && (t.delivery_id == delivery_id_of r.delivery && t.store_id == store_id_of r.store)))

-- `_replayed_ticket_or_conflict`
unfoldable pub replayed_ticket_or_conflict :
    SupportTicket → TicketCreate → References → Action TicketRead
replayed_ticket_or_conflict t payload r = do
  raise_if (not (ticket_replay_matches t payload r)) (http 409 "Idempotency key payload mismatch")
  pure (public_read t)

unfoldable pub ticket_row :
    (String → String) → ℕ → ℕ → TicketCreate → User → References → SupportTicket
unfolding strip
ticket_row lower id now payload user r =
    let triage = triage_ticket lower payload.subject payload.description in
    record {
      id = id;
      user_id = user.id;
      order_id = order_id_of r.order;
      delivery_id = delivery_id_of r.delivery;
      store_id = store_id_of r.store;
      requester_type = some user.role;
      assigned_admin_id = none;
      idempotency_key = payload.idempotency_key;
      subject = strip payload.subject;
      description = strip payload.description;
      category = triage.category;
      priority = triage.priority;
      status = TicketStatus.opened;
      triage_summary = triage.summary;
      suggested_action = triage.suggested_action;
      resolution_notes = none;
      version = 0;
      created_at = now;
      resolved_at = none;
    }

abbrev is_length : ℕ → ℕ → String → Bool
is_length low high text = leb low (text_length text) && leb (text_length text) high

-- The schema's bounds: 3 to 180 characters of subject, 5 to 5000 of description.
abbrev pub check_create : TicketCreate → Action (Unit {0})
check_create payload =
    raise_if (not (is_length 3 180 payload.subject && is_length 5 5000 payload.description))
      (http 422 "length")

abbrev pub open_ticket :
    (String → String)
    → ℕ
    → TicketCreate
    → User
    → References
    → Option SupportTicket
    → Action TicketRead
open_ticket lower now payload user r (some existing) db =
    replayed_ticket_or_conflict existing payload r db
open_ticket lower now payload user r none db =
    (do
      id ← gets (λ db. db.next_id)
      let ticket = ticket_row lower id now payload user r
      modify (λ db. record db { next_id = suc db.next_id; tickets = insert ticket db.tickets })
      when (user.role == admin) (
          record_admin_action user "support.ticket_created" support_manage ticket.id
            (some "administrator_support_escalation"))
      pure (public_read ticket))
      db

-- The race of two requests with one key, which the unique constraint settles, has no place where a request runs
-- alone.
unfoldable pub create_ticket : (String → String) → ℕ → TicketCreate → User → Action TicketRead
create_ticket lower now payload user = do
  check_create payload
  refs ← validate_references payload user
  existing ← gets (λ db. existing_ticket_replay user.id payload.idempotency_key db)
  open_ticket lower now payload user refs existing

-- `_locked_ticket`
unfoldable pub locked_ticket : ℕ → Action SupportTicket
locked_ticket ticket_id = do
  found ← gets (λ db. get ticket_key ticket_id db.tickets)
  or_raise found (http 404 "Support ticket not found")

abbrev pub is_stale : SupportTicket → Option ℕ → Bool
is_stale t none = false
is_stale t (some expected) = t.version != expected

-- `_check_version`
unfoldable pub check_version : SupportTicket → Option ℕ → Action (Unit {0})
check_version t expected =
    raise_if (is_stale t expected) (http 409 "Support ticket changed; refresh and retry")

abbrev pub save_ticket : SupportTicket → Action (Unit {0})
save_ticket t = modify λ db. record db { tickets = put ticket_key t db.tickets }

abbrev or_now : Option ℕ → ℕ → Option ℕ
or_now (some at) now = some at
or_now none now = some now

abbrev pub next_notes : SupportTicket → TicketUpdate → Option String
next_notes t payload =
    if payload.notes_supplied then payload.resolution_notes else t.resolution_notes

-- The ticket after an update.
unfoldable pub updated_ticket : ℕ → SupportTicket → TicketUpdate → SupportTicket
updated_ticket now t payload = record t {
  status = payload.status;
  resolution_notes = next_notes t payload;
  resolved_at =
      if payload.status == resolved || payload.status == closed
      then or_now t.resolved_at now
      else none;
  version = suc t.version;
}

abbrev pub too_long : Option String → Bool
too_long none = false
too_long (some text) = ltb 1000 (text_length text)

unfoldable pub update_ticket : ℕ → ℕ → TicketUpdate → User → Action AdminRead
update_ticket now ticket_id payload user = do
  ensure_capability user support_manage
  raise_if (too_long payload.resolution_notes) (http 422 "resolution_notes")
  ticket ← locked_ticket ticket_id
  check_version ticket payload.expected_version
  if payload.status == ticket.status && next_notes ticket payload == ticket.resolution_notes
      then pure (admin_read ticket)
      else (do
        raise_if
            (payload.status != ticket.status
              && not (contains (allowed_transitions ticket.status) payload.status))
            (http 409 "Invalid support transition from ")
        save_ticket (updated_ticket now ticket payload)
        record_admin_action user "support.ticket_updated" support_manage ticket.id
            (some "support_ticket_resolution")
        enqueue_notification ticket.user_id "support.ticket_updated"
        pure (admin_read (updated_ticket now ticket payload)))

abbrev may_take : Option User → Bool
may_take none = false
may_take (some u) = has_capability u support_manage && (u.is_active && u.is_verified)

-- Whether the ticket may go to the administrator, or to nobody.
abbrev pub is_assignable : Db → Option ℕ → Bool
is_assignable db none = true
is_assignable db (some id) = may_take (get user_key id db.users)

unfoldable pub assigned_ticket : SupportTicket → Option ℕ → SupportTicket
assigned_ticket t assignee = record t { assigned_admin_id = assignee; version = suc t.version }

unfoldable pub assign_ticket : ℕ → TicketAssignment → User → Action AdminRead
assign_ticket ticket_id payload user = do
  ensure_capability user support_manage
  ticket ← locked_ticket ticket_id
  check_version ticket (some payload.expected_version)
  assignable ← gets (λ db. is_assignable db payload.assigned_admin_id)
  raise_if (not assignable) (http 422 "Select an active verified administrator")
  if ticket.assigned_admin_id == payload.assigned_admin_id then pure (admin_read ticket) else (do
    save_ticket (assigned_ticket ticket payload.assigned_admin_id)
    record_admin_action user "support.ticket_assigned" support_manage ticket.id
        (some "support_queue_assignment")
    pure (admin_read (assigned_ticket ticket payload.assigned_admin_id)))
