-- ===== src/Support/Repeats.antt =====
-- Messages that are sent twice to backend/app/api/v1/routes/support.py.
use ai_powered_market.Effects.{enqueue_notification}
use ai_powered_market.Model.Db.{Db}
use ai_powered_market.Model.Market.{User}
use ai_powered_market.Model.Support.{SupportMessage, SupportTicket, public, ticket_key}
use ai_powered_market.Prelude.{
  Option, Option-cases, String, arith, find_by, find_by-insert-none, get, get-key, inl, inr, none,
  some, true, ℕ, ◌≡◌,
}
use ai_powered_market.Prelude.Text.{string_eq_refl, strip, strip-strip}
use ai_powered_market.Session.{Result-cases, ok}
use ai_powered_market.Support.{MessageCreate}
use ai_powered_market.Support.Messages.{
  PublicMessage, add_message, add_requester_message, answers, checked_message, idempotent_replay,
  is_same_message, message_row, public_message, reply_new,
}
use ai_powered_market.Support.Replies.{
  add_requester_message-change, checked_message_same, idempotent_replay_same,
}
use ai_powered_market.Support.Tickets.{locked_ticket}
use ai_powered_market.Support.Versions.{change_lem}

message_row-answers :
    (id now : ℕ) (t : SupportTicket) (author : User) (payload : MessageCreate) (body : String)
    → (answers t.id payload.idempotency_key (message_row id now t author public payload body)
        ≡ true)
      × (is_same_message author public body (message_row id now t author public payload body)
          ≡ true)
unfolding message_row
message_row-answers id now t author payload body = ground (arith, string_eq_refl body)

-- After a reply, its key finds the message that the requester was shown.
reply_new_stores :
    (now : ℕ) (t : SupportTicket) (user : User) (sent : MessageCreate) (db : Db) {r : PublicMessage}
    {db' : Db}
    → strip sent.body ≡ sent.body
    → find_by (answers t.id sent.idempotency_key) db.messages ≡ none
    → reply_new now t user sent none db ≡ ok (r, db')
    → (m : SupportMessage) × (find_by (answers t.id sent.idempotency_key) db'.messages ≡ some m)
      × (is_same_message user public sent.body m ≡ true)
      × (r ≡ public_message m)
unfolding add_message enqueue_notification
reply_new_stores now t user sent db {r} {db'} stripped absent e =
    let m = message_row db.next_id now t user public sent (strip sent.body) in
    let (found, same) = message_row-answers db.next_id now t user sent (strip sent.body) in
    (
      m,
      ground (arith, find_by-insert-none (answers t.id sent.idempotency_key) m db.messages),
      ground arith,
      ground arith,
    )

-- The parts of a reply that succeeds, up to the look for its key.
record Heard (now ticket_id : ℕ) (payload : MessageCreate) (user : User) (db : Db)
    (r : PublicMessage) (db' : Db) : Type 0 where
  sent : MessageCreate
  checked : checked_message payload db ≡ ok (sent, db)
  ticket : SupportTicket
  stored : get ticket_key ticket_id db.tickets ≡ some ticket
  own : ticket.user_id ≡ user.id
  replay : Option SupportMessage
  looked : idempotent_replay ticket user public sent db ≡ ok (replay, db)
  rest : reply_new now ticket user sent replay db ≡ ok (r, db')

add_requester_message_lem :
    (now ticket_id : ℕ) (payload : MessageCreate) (user : User) (db : Db) {r : PublicMessage}
    {db' : Db}
    → add_requester_message now ticket_id payload user db ≡ ok (r, db')
    → Heard now ticket_id payload user db r db'
unfolding add_requester_message locked_ticket
add_requester_message_lem now ticket_id payload user db {r} {db'} e =
    elim (Result-cases (checked_message payload db)) [
      | inr (x, e1) ↦ absurd (ground arith)
      | inl (sent, db1, e1) ↦
          let c = checked_message_same payload db {sent = sent} {db' = db1} e1 in
          elim (Option-cases (get ticket_key ticket_id db.tickets)) [
            | inl absent ↦ absurd (ground arith)
            | inr (t, found) ↦ elim (Result-cases (idempotent_replay t user public sent db)) [
              | inr (x, e2) ↦ absurd (ground arith)
              | inl (replay, db2, e2) ↦
                  let s =
                    idempotent_replay_same t user public sent db {r = replay} {db' = db2} e2 in
                  record {
                    sent = sent;
                    checked = ground arith;
                    ticket = t;
                    stored = found;
                    own = ground arith;
                    replay = replay;
                    looked = ground arith;
                    rest = ground arith;
                  }
            ]
          ]
    ]

Heard-again :
    (now later ticket_id : ℕ) (payload : MessageCreate) (user : User) (db db' : Db)
    {r : PublicMessage} (h : Heard now ticket_id payload user db r db') (m : SupportMessage)
    (t' : SupportTicket)
    → get ticket_key ticket_id db'.tickets ≡ some t'
    → t'.user_id ≡ user.id
    → find_by (answers ticket_id h.sent.idempotency_key) db'.messages ≡ some m
    → is_same_message user public h.sent.body m ≡ true
    → r ≡ public_message m
    → add_requester_message later ticket_id payload user db' ≡ ok (r, db')
unfolding add_requester_message locked_ticket idempotent_replay checked_message
Heard-again now later ticket_id payload user db db' {r} h m t' stored own found same shown =
    let key = get-key ticket_key ticket_id db'.tickets t' stored in ground (arith, h.checked)

-- A reply that is sent again under its key, by its author and with its body, is answered with the message that was
-- written and changes nothing, at any later moment and whatever the status of the ticket.
pub add_requester_message_again :
    (now later ticket_id : ℕ) (payload : MessageCreate) (user : User) (db : Db) {r : PublicMessage}
    {db' : Db}
    → add_requester_message now ticket_id payload user db ≡ ok (r, db')
    → add_requester_message later ticket_id payload user db' ≡ ok (r, db')
unfolding idempotent_replay checked_message
add_requester_message_again now later ticket_id payload user db {r} {db'} e =
    let h = add_requester_message_lem now ticket_id payload user db {r = r} {db' = db'} e in
    let c = add_requester_message-change now ticket_id payload user db {r = r} {db' = db'} e in
    let (t', stored, owner, later_version, same, follows) =
      change_lem ticket_id h.ticket db.tickets db'.tickets h.stored c in
    let key = get-key ticket_key ticket_id db.tickets h.ticket h.stored in
    let stripped : strip h.sent.body ≡ h.sent.body =
      ground (arith, h.checked, strip-strip payload.body) in
    elim (Option-cases (find_by (answers h.ticket.id h.sent.idempotency_key) db.messages)) [
      | inr (m, found) ↦
          let was : h.replay ≡ some m = ground (arith, h.looked) in
          let unchanged : db' ≡ db = ground (arith, h.rest) in
          Heard-again now later ticket_id payload user db db' {r = r} h m t' stored
            (ground (arith, h.own)) (ground arith) (ground (arith, h.looked))
            (ground (arith, h.rest))
      | inl absent ↦
          let was : h.replay ≡ none = ground (arith, h.looked) in
          let (m, kept_m, same_m, shown_m) =
            reply_new_stores now h.ticket user h.sent db {r = r} {db' = db'} stripped absent
              (ground (arith, h.rest)) in
          Heard-again now later ticket_id payload user db db' {r = r} h m t' stored
            (ground (arith, h.own)) (ground arith) same_m shown_m
    ]
