-- ===== src/Support/Replies.antt =====
-- What a message to backend/app/api/v1/routes/support.py does to the table of tickets.
use ai_powered_market.Capabilities.{ensure_capability}
use ai_powered_market.Effects.{enqueue_notification, record_admin_action}
use ai_powered_market.Model.Db.{Db}
use ai_powered_market.Model.Market.{User}
use ai_powered_market.Model.Support.{
  SupportMessage, SupportTicket, Visibility, internal, public, ticket_key, ticket_status_eq,
  waiting_customer,
}
use ai_powered_market.Prelude.{
  Bool, Bool-cases, Option, Option-cases, arith, false, find_by, get, get-key, inl, inr, none, put,
  refl, some, true, ℕ, ◌==◌, ◌≡◌,
}
use ai_powered_market.Prelude.Text.{strip}
use ai_powered_market.Session.{Result-cases, ok}
use ai_powered_market.Support.{MessageCreate, allowed_transitions}
use ai_powered_market.Support.Changes.{Follows, TicketChange, changed, kept, put-put}
use ai_powered_market.Support.Messages.{
  InternalMessage, PublicMessage, add_admin_public_message, add_internal_note, add_message,
  add_requester_message, answered, answers, checked_message, idempotent_replay, reply_new,
  staff_reply_new, taken_up,
}
use ai_powered_market.Support.Tickets.{locked_ticket}

pub add_message-change :
    (now : ℕ) (ticket : SupportTicket) (author : User) (visibility : Visibility)
    (payload : MessageCreate) (db : Db) {m : SupportMessage} {b : Bool} {db' : Db}
    → add_message now ticket author visibility payload db ≡ ok ((m, b), db')
    → (b ≡ false → db' ≡ db)
      × (b ≡ true → db'.tickets ≡ put ticket_key (answered ticket) db.tickets)
      × (db'.notifications ≡ db.notifications)
unfolding add_message
add_message-change now ticket author visibility payload db {m} {b} {db'} e =
    elim (Option-cases (find_by (answers ticket.id payload.idempotency_key) db.messages)) [
      | inl absent ↦ ground arith
      | inr (existing, found) ↦ ground arith
    ]

taken_up-Follows : (t : SupportTicket) → Follows t.status (taken_up (answered t)).status
unfolding allowed_transitions
taken_up-Follows t = elim (Bool-cases (t.status == waiting_customer)) [
  | inl waits ↦ inr (ground arith)
  | inr other ↦ inl (ground arith)
]

pub reply_new-change :
    (now : ℕ) (t : SupportTicket) (user : User) (payload : MessageCreate)
    (replay : Option SupportMessage) (db : Db) {r : PublicMessage} {db' : Db}
    → get ticket_key t.id db.tickets ≡ some t
    → reply_new now t user payload replay db ≡ ok (r, db')
    → TicketChange db.tickets db'.tickets
unfolding enqueue_notification
reply_new-change now t user payload (some m) db stored e = kept (ground arith)
reply_new-change now t user payload none db {r} {db'} stored e =
    elim (Result-cases (add_message now t user public payload db)) [
      | inr (x, e1) ↦ absurd (ground arith)
      | inl ((m, b), db1, e1) ↦
          let c = add_message-change now t user public payload db {m = m} {b = b} {db' = db1} e1 in
          elim (Bool-cases b) [
            | inr again ↦ kept (ground arith)
            | inl made ↦
                let row = taken_up (answered t) in
                let twice = put-put (answered t) row db.tickets (ground arith) in
                changed t row stored (ground arith) (ground arith) (ground arith)
                  (taken_up-Follows t) (ground (arith, twice))
          ]
    ]

staff_reply_new-change :
    (now : ℕ) (t : SupportTicket) (user : User) (payload : MessageCreate)
    (replay : Option SupportMessage) (db : Db) {r : PublicMessage} {db' : Db}
    → get ticket_key t.id db.tickets ≡ some t
    → staff_reply_new now t user payload replay db ≡ ok (r, db')
    → TicketChange db.tickets db'.tickets
unfolding enqueue_notification record_admin_action
staff_reply_new-change now t user payload (some m) db stored e = kept (ground arith)
staff_reply_new-change now t user payload none db {r} {db'} stored e =
    elim (Result-cases (add_message now t user public payload db)) [
      | inr (x, e1) ↦ absurd (ground arith)
      | inl ((m, b), db1, e1) ↦
          let c = add_message-change now t user public payload db {m = m} {b = b} {db' = db1} e1 in
          elim (Bool-cases b) [
            | inr again ↦ kept (ground arith)
            | inl made ↦ changed t (answered t) stored refl refl refl (inl refl) (ground arith)
          ]
    ]

pub checked_message_same :
    (payload : MessageCreate) (db : Db) {sent : MessageCreate} {db' : Db}
    → checked_message payload db ≡ ok (sent, db')
    → (db' ≡ db)
      × (sent.body ≡ strip payload.body)
      × (sent.idempotency_key ≡ payload.idempotency_key)
unfolding checked_message
checked_message_same payload db e = ground arith

pub idempotent_replay_same :
    (t : SupportTicket) (author : User) (visibility : Visibility) (payload : MessageCreate)
    (db : Db) {r : Option SupportMessage} {db' : Db}
    → idempotent_replay t author visibility payload db ≡ ok (r, db')
    → (db' ≡ db) × (r ≡ find_by (answers t.id payload.idempotency_key) db.messages)
unfolding idempotent_replay
idempotent_replay_same t author visibility payload db e =
    elim (Option-cases (find_by (answers t.id payload.idempotency_key) db.messages)) [
      | inl absent ↦ ground arith
      | inr (m, found) ↦ ground arith
    ]

pub add_requester_message-change :
    (now ticket_id : ℕ) (payload : MessageCreate) (user : User) (db : Db) {r : PublicMessage}
    {db' : Db}
    → add_requester_message now ticket_id payload user db ≡ ok (r, db')
    → TicketChange db.tickets db'.tickets
unfolding add_requester_message locked_ticket
add_requester_message-change now ticket_id payload user db {r} {db'} e =
    elim (Result-cases (checked_message payload db)) [
      | inr (x, e1) ↦ absurd (ground arith)
      | inl (sent, db1, e1) ↦
          let c = checked_message_same payload db {sent = sent} {db' = db1} e1 in
          elim (Option-cases (get ticket_key ticket_id db.tickets)) [
            | inl absent ↦ absurd (ground arith)
            | inr (t, found) ↦ elim (Result-cases (idempotent_replay t user public sent db)) [
              | inr (x, e2) ↦ absurd (ground arith)
              | inl (replay, db2, e2) ↦
                  let s =
                    idempotent_replay_same t user public sent db {r = replay} {db' = db2} e2 in
                  reply_new-change now t user sent replay db {r = r} {db' = db'}
                    (ground (arith, get-key ticket_key ticket_id db.tickets t found)) (ground arith)
            ]
          ]
    ]

pub add_admin_public_message-change :
    (now ticket_id : ℕ) (payload : MessageCreate) (user : User) (db : Db) {r : PublicMessage}
    {db' : Db}
    → add_admin_public_message now ticket_id payload user db ≡ ok (r, db')
    → TicketChange db.tickets db'.tickets
unfolding add_admin_public_message locked_ticket ensure_capability
add_admin_public_message-change now ticket_id payload user db {r} {db'} e =
    elim (Result-cases (checked_message payload db)) [
      | inr (x, e1) ↦ absurd (ground arith)
      | inl (sent, db1, e1) ↦
          let c = checked_message_same payload db {sent = sent} {db' = db1} e1 in
          elim (Option-cases (get ticket_key ticket_id db.tickets)) [
            | inl absent ↦ absurd (ground arith)
            | inr (t, found) ↦ elim (Result-cases (idempotent_replay t user public sent db)) [
              | inr (x, e2) ↦ absurd (ground arith)
              | inl (replay, db2, e2) ↦
                  let s =
                    idempotent_replay_same t user public sent db {r = replay} {db' = db2} e2 in
                  staff_reply_new-change now t user sent replay db {r = r} {db' = db'}
                    (ground (arith, get-key ticket_key ticket_id db.tickets t found)) (ground arith)
            ]
          ]
    ]

-- A note changes its ticket's version at most, and tells nobody.
pub add_internal_note-change :
    (now ticket_id : ℕ) (payload : MessageCreate) (user : User) (db : Db) {r : InternalMessage}
    {db' : Db}
    → add_internal_note now ticket_id payload user db ≡ ok (r, db')
    → TicketChange db.tickets db'.tickets × (db'.notifications ≡ db.notifications)
unfolding add_internal_note locked_ticket ensure_capability record_admin_action
add_internal_note-change now ticket_id payload user db {r} {db'} e =
    elim (Result-cases (checked_message payload db)) [
      | inr (x, e1) ↦ absurd (ground arith)
      | inl (sent, db1, e1) ↦
          let c = checked_message_same payload db {sent = sent} {db' = db1} e1 in
          elim (Option-cases (get ticket_key ticket_id db.tickets)) [
            | inl absent ↦ absurd (ground arith)
            | inr (t, found) ↦ elim (Result-cases (add_message now t user internal sent db)) [
              | inr (x, e2) ↦ absurd (ground arith)
              | inl ((m, b), db2, e2) ↦
                  let a =
                    add_message-change now t user internal sent db {m = m} {b = b} {db' = db2} e2 in
                  let key = get-key ticket_key ticket_id db.tickets t found in
                  elim (Bool-cases b) [
                    | inr again ↦ (kept (ground arith), ground arith)
                    | inl made ↦ (
                      changed t (answered t) (ground arith) refl refl refl (inl refl)
                          (ground arith),
                      ground arith,
                    )
                  ]
            ]
          ]
    ]
