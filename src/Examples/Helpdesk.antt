-- ===== src/Examples/Helpdesk.antt =====
-- The theorems on support tickets at concrete inputs.
use ai_powered_market.Capabilities.{capabilities_for, ensure_capability, has_capability}
use ai_powered_market.Effects.{enqueue_notification, record_admin_action}
use ai_powered_market.Examples.Data.{alice, founder, market, paid_order}
use ai_powered_market.Model.Db.{Db}
use ai_powered_market.Model.Status.{UserRole, support_manage}
use ai_powered_market.Model.Support.{
  SupportTicket, closed, in_progress, ticket_key, waiting_customer,
}
use ai_powered_market.Prelude.{
  String, [], arith, false, find_by, get, insert, none, put, refl, some, true, update_where, ◌∷◌,
  ◌≡◌, ◌≢◌, ◌≤◌,
}
use ai_powered_market.Prelude.Text.{is_space, lstrip, rstrip, strip}
use ai_powered_market.Session.{Result, err, http, ok, respond}
use ai_powered_market.Support.{
  MessageCreate, TicketCreate, TicketUpdate, look_up, may_refer, relate, validate_references,
}
use ai_powered_market.Support.Changes.{Follows}
use ai_powered_market.Support.Messages.{
  InternalMessage, PublicMessage, add_internal_note, add_message, add_requester_message,
  checked_message, idempotent_replay, internal_message, message_row, my_ticket_messages,
  public_message,
}
use ai_powered_market.Support.Ownership.{LinksOwn, create_ticket-LinksOwn}
use ai_powered_market.Support.Privacy.{internal_note_unseen}
use ai_powered_market.Support.Tickets.{
  TicketRead, create_ticket, existing_ticket_replay, locked_ticket, public_read, ticket_row,
  update_ticket,
}
use ai_powered_market.Support.Versions.{TicketStep, TicketStep-version, no_update_lost, replies}

-- A customer's question on an order of the customer's own.
abbrev question : TicketCreate
question = record {
  subject = " Late order ";
  description = "Where is my rice?";
  store_id = none;
  order_id = some 50;
  delivery_id = none;
  idempotency_key = some 9;
}

abbrev as_is : String → String
as_is s = s

abbrev desk : Db
desk = market paid_order

abbrev read_of : Result (TicketRead × Db) → TicketRead
read_of (ok (r, db)) = r
read_of (err e) =
    public_read
      (ticket_row as_is 0 0 question alice (record { order = none; delivery = none; store = none }))

abbrev asked : Db
asked = (respond (create_ticket as_is 10 question alice) desk).1

abbrev asked_read : TicketRead
asked_read = read_of (create_ticket as_is 10 question alice desk)

asked_ok : create_ticket as_is 10 question alice desk ≡ ok (asked_read, asked)
unfolding create_ticket validate_references look_up relate may_refer get find_by
    existing_ticket_replay insert ticket_row public_read strip lstrip rstrip
asked_ok = refl

create_ticket-LinksOwn_example :
    LinksOwn alice desk asked_read.order_id asked_read.delivery_id asked_read.store_id
create_ticket-LinksOwn_example = create_ticket-LinksOwn as_is 10 question alice desk refl asked_ok

-- A stored ticket.
abbrev issue : SupportTicket
issue = record {
  id = 300;
  user_id = 1;
  order_id = some 50;
  delivery_id = none;
  store_id = some 20;
  requester_type = some UserRole.customer;
  assigned_admin_id = some 4;
  idempotency_key = none;
  subject = "Late";
  description = "Where is it?";
  category = "delivery";
  priority = "high";
  status = waiting_customer;
  triage_summary = "Where is it?";
  suggested_action = "Review";
  resolution_notes = none;
  version = 3;
  created_at = 5;
  resolved_at = none;
}

abbrev help : Db
help = record desk { tickets = issue ∷ [] }

issue_stored : get ticket_key 300 help.tickets ≡ some issue
unfolding get find_by
issue_stored = refl

abbrev thanks : MessageCreate
thanks = record { body = " thanks"; idempotency_key = 77 }

abbrev message_of : Result (PublicMessage × Db) → PublicMessage
message_of (ok (r, db)) = r
message_of (err e) = record { id = 0; author_type = UserRole.customer; body = ""; created_at = 0 }

abbrev thanked : Db
thanked = (respond (add_requester_message 20 300 thanks alice) help).1

abbrev thanks_read : PublicMessage
thanks_read = message_of (add_requester_message 20 300 thanks alice help)

thanks_ok : add_requester_message 20 300 thanks alice help ≡ ok (thanks_read, thanked)
unfolding add_requester_message checked_message strip lstrip rstrip is_space locked_ticket get
    find_by idempotent_replay add_message put update_where insert enqueue_notification message_row
    public_message
thanks_ok = refl

abbrev reply : TicketStep help thanked
reply = replies 20 300 thanks alice thanks_read thanks_ok

TicketStep-version_example :
    (t' : SupportTicket) × (get ticket_key 300 thanked.tickets ≡ some t')
    × (t'.user_id ≡ 1)
    × (3 ≤ t'.version)
    × (t'.version ≡ 3 → t' ≡ issue)
    × Follows waiting_customer t'.status
TicketStep-version_example = TicketStep-version 300 issue help issue_stored reply

abbrev answered_issue : SupportTicket
answered_issue = record issue { status = in_progress; version = 4 }

issue_answered : get ticket_key 300 thanked.tickets ≡ some answered_issue
unfolding add_requester_message checked_message strip lstrip rstrip is_space locked_ticket get
    find_by idempotent_replay add_message put update_where insert enqueue_notification message_row
    public_message
issue_answered = refl

answered_differs : answered_issue ≢ issue
answered_differs e = ground arith

abbrev close : TicketUpdate
close = record {
  status = closed;
  notes_supplied = false;
  resolution_notes = none;
  expected_version = some 3;
}

founder_may : has_capability founder support_manage ≡ true
unfolding has_capability capabilities_for
founder_may = refl

no_update_lost_example :
    update_ticket 30 300 close founder thanked
    ≡ err (http 409 "Support ticket changed; refresh and retry")
no_update_lost_example =
    no_update_lost 30 300 issue answered_issue close founder help issue_stored reply issue_answered
      answered_differs founder_may refl refl

abbrev noted : Db
noted = (respond (add_internal_note 25 300 thanks founder) help).1

abbrev note_of : Result (InternalMessage × Db) → InternalMessage
note_of (ok (r, db)) = r
note_of (err e) = record { message = thanks_read; author_user_id = none }

abbrev note_read : InternalMessage
note_read = note_of (add_internal_note 25 300 thanks founder help)

note_ok : add_internal_note 25 300 thanks founder help ≡ ok (note_read, noted)
unfolding add_internal_note ensure_capability has_capability capabilities_for checked_message strip
    lstrip rstrip is_space locked_ticket get find_by add_message put update_where insert
    record_admin_action message_row internal_message public_message
note_ok = refl

issue_present : get ticket_key 300 help.tickets ≢ none
unfolding get find_by
issue_present = ground arith

internal_note_unseen_example :
    (noted.notifications ≡ help.notifications)
    × ((respond (my_ticket_messages 300 50 0 alice) noted).0
        ≡ (respond (my_ticket_messages 300 50 0 alice) help).0)
internal_note_unseen_example =
    internal_note_unseen 25 300 thanks founder alice 300 50 0 help issue_present note_ok
