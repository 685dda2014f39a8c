-- ===== src/Support/Messages.antt =====
-- Messages of backend/app/api/v1/routes/support.py: the requester's replies, the staff's replies and their notes.
use ai_powered_market.Capabilities.{ensure_capability}
use ai_powered_market.Effects.{enqueue_notification, record_admin_action}
use ai_powered_market.Model.Db.{Db}
use ai_powered_market.Model.Market.{User}
use ai_powered_market.Model.Status.{UserRole, support_manage}
use ai_powered_market.Model.Support.{
  SupportMessage, SupportTicket, Visibility, closed, in_progress, internal, public,
  ticket_status_eq, visibility_eq, waiting_customer,
}
use ai_powered_market.Prelude.{
  Bool, List, Option, String, [], false, find_by, if◌then◌else◌, insert, ltb, map, nat_eq, none,
  not, option_eq, select, some, sort_by, suc, take, true, zero, ℕ, ◌!=◌, ◌&&◌, ◌==◌, ◌||◌, ◌∷◌,
}
use ai_powered_market.Prelude.Text.{is_empty, string_eq, strip, text_length}
use ai_powered_market.Session.{Action, Error, gets, http, modify, pure, raise_if, ◌>>=◌, ◌>>◌}
use ai_powered_market.Support.{MessageCreate}
use ai_powered_market.Support.Tickets.{locked_ticket, owned_ticket, save_ticket}

-- `_public_message`
pub record PublicMessage : Type 0 where
  pub id : ℕ
  pub author_type : UserRole
  pub body : String
  pub created_at : ℕ

unfoldable pub public_message : SupportMessage → PublicMessage
public_message m = record {
  id = m.id;
  author_type = m.author_type;
  body = m.body;
  created_at = m.created_at;
}

-- `_internal_message`
pub record InternalMessage : Type 0 where
  pub message : PublicMessage
  pub author_user_id : Option ℕ

unfoldable pub internal_message : SupportMessage → InternalMessage
internal_message m = record { message = public_message m; author_user_id = m.author_user_id }

abbrev drop : ℕ → List SupportMessage → List SupportMessage
drop zero ms = ms
drop (suc n) [] = []
drop (suc n) (m ∷ ms) = drop n ms

abbrev pub is_shown : ℕ → Visibility → SupportMessage → Bool
is_shown ticket_id visibility m = m.ticket_id == ticket_id && m.visibility == visibility

abbrev by_id : SupportMessage → ℕ
by_id m = m.id

abbrev by_creation : SupportMessage → ℕ
by_creation m = m.created_at

-- `_messages`, by the moment and then by the key.
unfoldable pub page_of_messages : Db → ℕ → Visibility → ℕ → ℕ → List SupportMessage
page_of_messages db ticket_id visibility limit offset = take limit (
    drop offset
      (sort_by by_creation (sort_by by_id (select (is_shown ticket_id visibility) db.messages))))

unfoldable pub my_ticket_messages : ℕ → ℕ → ℕ → User → Action (List PublicMessage)
my_ticket_messages ticket_id limit offset user = do
  ticket ← owned_ticket ticket_id user
  gets (λ db. map public_message (page_of_messages db ticket.id public limit offset))

abbrev pub answers : ℕ → ℕ → SupportMessage → Bool
answers ticket_id key m = m.ticket_id == ticket_id && m.idempotency_key == key

-- Whether a message under the same key is the one that is sent.
abbrev pub is_same_message : User → Visibility → String → SupportMessage → Bool
is_same_message author visibility body m =
    m.author_user_id == some author.id && (m.visibility == visibility && m.body == body)

abbrev pub mismatch : Error
mismatch = http 409 "Idempotency key payload mismatch"

unfoldable pub message_row :
    ℕ → ℕ → SupportTicket → User → Visibility → MessageCreate → String → SupportMessage
message_row id now ticket author visibility payload body = record {
  id = id;
  ticket_id = ticket.id;
  author_user_id = some author.id;
  author_type = author.role;
  visibility = visibility;
  idempotency_key = payload.idempotency_key;
  body = body;
  created_at = now;
}

abbrev pub answered : SupportTicket → SupportTicket
answered t = record t { version = suc t.version }

abbrev pub write_message :
    ℕ
    → SupportTicket
    → User
    → Visibility
    → MessageCreate
    → Option SupportMessage
    → Action (SupportMessage × Bool)
write_message now ticket author visibility payload (some existing) db =
    (do
      raise_if (not (is_same_message author visibility (strip payload.body) existing)) mismatch
      pure (existing, false))
      db
write_message now ticket author visibility payload none db =
    (do
      save_ticket (answered ticket)
      id ← gets (λ db. db.next_id)
      let message = message_row id now ticket author visibility payload (strip payload.body)
      modify (λ db. record db { next_id = suc db.next_id; messages = insert message db.messages })
      pure (message, true))
      db

-- `_add_message`: the message and whether it is new; a new one raises the ticket's version.
unfoldable pub add_message :
    ℕ → SupportTicket → User → Visibility → MessageCreate → Action (SupportMessage × Bool)
unfolding strip
add_message now ticket author visibility payload = do
  existing ← gets (λ db. find_by (answers ticket.id payload.idempotency_key) db.messages)
  write_message now ticket author visibility payload existing

abbrev pub replay_of :
    User → Visibility → MessageCreate → Option SupportMessage → Action (Option SupportMessage)
replay_of author visibility payload none db = pure none db
replay_of author visibility payload (some existing) db =
    (do
      raise_if (not (is_same_message author visibility payload.body existing)) mismatch
      pure (some existing))
      db

-- `_idempotent_replay`
unfoldable pub idempotent_replay :
    SupportTicket → User → Visibility → MessageCreate → Action (Option SupportMessage)
idempotent_replay ticket author visibility payload = do
  existing ← gets (λ db. find_by (answers ticket.id payload.idempotency_key) db.messages)
  replay_of author visibility payload existing

-- `MessageCreate`: 1 to 5000 characters, and not only spaces; the validator strips them.
unfoldable pub checked_message : MessageCreate → Action MessageCreate
unfolding strip
checked_message payload = do
  raise_if (text_length payload.body == 0 || ltb 5000 (text_length payload.body)) (http 422 "body")
  raise_if (is_empty (strip payload.body)) (http 422 "Message body cannot be empty")
  pure (record payload { body = strip payload.body })

abbrev closed_error : Error
closed_error = http 409 "Closed tickets must be reopened before replying"

-- A reply takes a ticket that waits for the customer up again.
abbrev pub taken_up : SupportTicket → SupportTicket
taken_up t = if t.status == waiting_customer then record t { status = in_progress } else t

abbrev pub tell_assignee : Option ℕ → Action (Unit {0})
tell_assignee none db = pure tt db
tell_assignee (some admin_id) db = enqueue_notification admin_id "support.requester_replied" db

-- After the message is written, in the transaction of the requester.
abbrev pub requester_effects : SupportTicket → SupportMessage × Bool → Action PublicMessage
requester_effects ticket (message, false) db = pure (public_message message) db
requester_effects ticket (message, true) db =
    (do
      save_ticket (taken_up (answered ticket))
      tell_assignee ticket.assigned_admin_id
      pure (public_message message))
      db

abbrev pub reply_new :
    ℕ → SupportTicket → User → MessageCreate → Option SupportMessage → Action PublicMessage
reply_new now ticket user payload (some replay) db = pure (public_message replay) db
reply_new now ticket user payload none db =
    (do
      raise_if (ticket.status == closed) closed_error
      message ← add_message now ticket user public payload
      requester_effects ticket message)
      db

unfoldable pub add_requester_message : ℕ → ℕ → MessageCreate → User → Action PublicMessage
add_requester_message now ticket_id payload user = do
  sent ← checked_message payload
  ticket ← locked_ticket ticket_id
  raise_if (ticket.user_id != user.id) (http 404 "Support ticket not found")
  replay ← idempotent_replay ticket user public sent
  reply_new now ticket user sent replay

abbrev pub staff_effects : SupportTicket → User → SupportMessage × Bool → Action PublicMessage
staff_effects ticket user (message, false) db = pure (public_message message) db
staff_effects ticket user (message, true) db =
    (do
      record_admin_action user "support.public_message_added" support_manage ticket.id
          (some "customer_visible_support_response")
      enqueue_notification ticket.user_id "support.public_message"
      pure (public_message message))
      db

abbrev pub staff_reply_new :
    ℕ → SupportTicket → User → MessageCreate → Option SupportMessage → Action PublicMessage
staff_reply_new now ticket user payload (some replay) db = pure (public_message replay) db
staff_reply_new now ticket user payload none db =
    (do
      raise_if (ticket.status == closed) closed_error
      message ← add_message now ticket user public payload
      staff_effects ticket user message)
      db

unfoldable pub add_admin_public_message : ℕ → ℕ → MessageCreate → User → Action PublicMessage
add_admin_public_message now ticket_id payload user = do
  ensure_capability user support_manage
  sent ← checked_message payload
  ticket ← locked_ticket ticket_id
  replay ← idempotent_replay ticket user public sent
  staff_reply_new now ticket user sent replay

abbrev pub note_effects : SupportTicket → User → SupportMessage × Bool → Action InternalMessage
note_effects ticket user (message, false) db = pure (internal_message message) db
note_effects ticket user (message, true) db =
    (do
      record_admin_action user "support.internal_note_added" support_manage ticket.id
          (some "internal_support_collaboration")
      pure (internal_message message))
      db

unfoldable pub add_internal_note : ℕ → ℕ → MessageCreate → User → Action InternalMessage
add_internal_note now ticket_id payload user = do
  ensure_capability user support_manage
  sent ← checked_message payload
  ticket ← locked_ticket ticket_id
  message ← add_message now ticket user internal sent
  note_effects ticket user message
