-- ===== src/Support/Privacy.antt =====
-- Internal notes of backend/app/api/v1/routes/support.py stay with the staff.
use ai_powered_market.Capabilities.{ensure_capability}
use ai_powered_market.Effects.{record_admin_action}
use ai_powered_market.Model.Db.{Db}
use ai_powered_market.Model.Market.{User}
use ai_powered_market.Model.Support.{SupportMessage, SupportTicket, internal, public, ticket_key}
use ai_powered_market.Prelude.{
  Bool, Bool-cases, List, Option-cases, [], arith, find_by, get, get-key, inl, inr, insert, is_some,
  none, select, some, ℕ, ◌∷◌, ◌≡◌, ◌≢◌,
}
use ai_powered_market.Prelude.Text.{strip}
use ai_powered_market.Session.{Result-cases, ok, respond}
use ai_powered_market.Support.{MessageCreate}
use ai_powered_market.Support.Changes.{TicketChange}
use ai_powered_market.Support.Messages.{
  InternalMessage, add_internal_note, add_message, answers, checked_message, is_shown, message_row,
  my_ticket_messages, page_of_messages,
}
use ai_powered_market.Support.Replies.{add_internal_note-change, checked_message_same}
use ai_powered_market.Support.Tickets.{locked_ticket, owned, owned_ticket}
use ai_powered_market.Support.Versions.{change_lem}

select-hidden :
    (ticket_id : ℕ) (m : SupportMessage) (ms : List SupportMessage)
    → m.visibility ≡ internal
    → select (is_shown ticket_id public) (insert m ms) ≡ select (is_shown ticket_id public) ms
unfolding select insert
select-hidden ticket_id m [] h = ground arith
select-hidden ticket_id m (n ∷ ms) h = ground (arith, select-hidden ticket_id m ms h)

add_message-internal :
    (now : ℕ) (ticket : SupportTicket) (author : User) (payload : MessageCreate) (ticket_id : ℕ)
    (db : Db) {r : SupportMessage × Bool} {db' : Db}
    → add_message now ticket author internal payload db ≡ ok (r, db')
    → select (is_shown ticket_id public) db'.messages
      ≡ select (is_shown ticket_id public) db.messages
unfolding add_message message_row
add_message-internal now ticket author payload ticket_id db {r} {db'} e =
    elim (Option-cases (find_by (answers ticket.id payload.idempotency_key) db.messages)) [
      | inr (existing, found) ↦ ground arith
      | inl absent ↦
          let row =
            message_row db.next_id now ticket author internal payload (strip payload.body) in
          ground (arith, select-hidden ticket_id row db.messages)
    ]

owned-change :
    (ticket_id : ℕ) (user : User) (ts ts' : List SupportTicket)
    → TicketChange ts ts'
    → get ticket_key ticket_id ts ≢ none
    → is_some (owned user (get ticket_key ticket_id ts'))
      ≡ is_some (owned user (get ticket_key ticket_id ts))
owned-change ticket_id user ts ts' c n = elim (Option-cases (get ticket_key ticket_id ts)) [
  | inl absent ↦ absurd (n absent)
  | inr (t, stored) ↦
      let (t', stored', requester, later, same, follows) = change_lem ticket_id t ts ts' stored c in
      ground arith
]

owned_key :
    (ticket_id : ℕ) (user : User) (ts : List SupportTicket) (t : SupportTicket)
    → owned user (get ticket_key ticket_id ts) ≡ some t
    → t.id ≡ ticket_id
owned_key ticket_id user ts t h = elim (Option-cases (get ticket_key ticket_id ts)) [
  | inl absent ↦ absurd (ground arith)
  | inr (x, stored) ↦ ground (arith, get-key ticket_key ticket_id ts x stored)
]

-- What a requester reads depends on who owns the ticket and on its public messages alone.
same_page :
    (ticket_id limit offset : ℕ) (user : User) (db db' : Db)
    → is_some (owned user (get ticket_key ticket_id db'.tickets))
      ≡ is_some (owned user (get ticket_key ticket_id db.tickets))
    → select (is_shown ticket_id public) db'.messages
      ≡ select (is_shown ticket_id public) db.messages
    → (respond (my_ticket_messages ticket_id limit offset user) db').0
      ≡ (respond (my_ticket_messages ticket_id limit offset user) db).0
unfolding my_ticket_messages owned_ticket page_of_messages
same_page ticket_id limit offset user db db' own shown =
    elim (Option-cases (owned user (get ticket_key ticket_id db.tickets))) [
      | inl absent ↦ elim (Option-cases (owned user (get ticket_key ticket_id db'.tickets))) [
        | inl absent' ↦ ground arith
        | inr (t', found') ↦ absurd (ground arith)
      ]
      | inr (t, found) ↦ elim (Option-cases (owned user (get ticket_key ticket_id db'.tickets))) [
        | inl absent' ↦ absurd (ground arith)
        | inr (t', found') ↦ ground (
          arith,
          owned_key ticket_id user db.tickets t found,
          owned_key ticket_id user db'.tickets t' found',
        )
      ]
    ]

note-messages :
    (now id : ℕ) (payload : MessageCreate) (user : User) (ticket_id : ℕ) (db : Db)
    {r : InternalMessage} {db' : Db}
    → add_internal_note now id payload user db ≡ ok (r, db')
    → select (is_shown ticket_id public) db'.messages
      ≡ select (is_shown ticket_id public) db.messages
unfolding add_internal_note locked_ticket ensure_capability record_admin_action
note-messages now id payload user ticket_id db {r} {db'} e =
    elim (Result-cases (checked_message payload db)) [
      | inr (x, e1) ↦ absurd (ground arith)
      | inl (sent, db1, e1) ↦
          let c = checked_message_same payload db {sent = sent} {db' = db1} e1 in
          elim (Option-cases (get ticket_key id db.tickets)) [
            | inl absent ↦ absurd (ground arith)
            | inr (t, found) ↦ elim (Result-cases (add_message now t user internal sent db)) [
              | inr (x, e2) ↦ absurd (ground arith)
              | inl ((m, b), db2, e2) ↦
                  let a =
                    add_message-internal now t user sent ticket_id db {r = (m, b)} {db' = db2} e2 in
                  elim (Bool-cases b) [ inl made ↦ ground arith | inr again ↦ ground arith ]
            ]
          ]
    ]

-- An internal note of the staff queues no notification, and no requester's page of messages of a stored ticket differs
-- for it, whoever asks, for any ticket, limit and offset.
pub internal_note_unseen :
    (now id : ℕ) (payload : MessageCreate) (staff user : User) (ticket_id limit offset : ℕ)
    (db : Db) {r : InternalMessage} {db' : Db}
    → get ticket_key ticket_id db.tickets ≢ none
    → add_internal_note now id payload staff db ≡ ok (r, db')
    → (db'.notifications ≡ db.notifications)
      × ((respond (my_ticket_messages ticket_id limit offset user) db').0
          ≡ (respond (my_ticket_messages ticket_id limit offset user) db).0)
internal_note_unseen now id payload staff user ticket_id limit offset db {r} {db'} n e =
    let (c, quiet) = add_internal_note-change now id payload staff db {r = r} {db' = db'} e in
    (
      quiet,
      same_page ticket_id limit offset user db db'
          (owned-change ticket_id user db.tickets db'.tickets c n)
          (note-messages now id payload staff ticket_id db {r = r} {db' = db'} e),
    )
