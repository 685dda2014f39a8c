-- ===== src/Support/Changes.antt =====
-- What a request to backend/app/api/v1/routes/support.py does to the table of tickets.
use ai_powered_market.Capabilities.{ensure_capability}
use ai_powered_market.Effects.{enqueue_notification, record_admin_action}
use ai_powered_market.Model.Db.{Db}
use ai_powered_market.Model.Market.{User}
use ai_powered_market.Model.Support.{SupportTicket, TicketStatus, ticket_key, ticket_status_eq}
use ai_powered_market.Prelude.{
  Bool-cases, List, Option, Option-cases, String, [], arith, contains, get, get-key, inl, inr,
  insert, nat_eq, none, not, option_eq, put, refl, some, suc, true, ℕ, ◌!=◌, ◌&&◌, ◌==◌, ◌∷◌, ◌≡◌,
  ◌⊎◌,
}
use ai_powered_market.Prelude.Text.{string_eq}
use ai_powered_market.Session.{Result-cases, ok}
use ai_powered_market.Support.{
  References, TicketAssignment, TicketCreate, TicketUpdate, allowed_transitions,
  validate_references,
}
use ai_powered_market.Support.Linking.{validate_references_same}
use ai_powered_market.Support.Tickets.{
  AdminRead, TicketRead, assign_ticket, assigned_ticket, check_version, create_ticket,
  existing_ticket_replay, locked_ticket, next_notes, open_ticket, replayed_ticket_or_conflict,
  ticket_row, update_ticket, updated_ticket,
}

-- A status stays or moves along `ALLOWED_TRANSITIONS`.
abbrev pub Follows : TicketStatus → TicketStatus → Type 0
Follows s s' = (s' ≡ s) ⊎ (contains (allowed_transitions s) s' ≡ true)

-- What a request does to the table of tickets.
pub data TicketChange (ts ts' : List SupportTicket) : Type 0 where
  kept : ts' ≡ ts → TicketChange ts ts'
  added : (row : SupportTicket) → ts' ≡ insert row ts → TicketChange ts ts'
  changed :
      (old row : SupportTicket)
      → get ticket_key old.id ts ≡ some old
      → row.id ≡ old.id
      → row.user_id ≡ old.user_id
      → row.version ≡ suc old.version
      → Follows old.status row.status
      → ts' ≡ put ticket_key row ts
      → TicketChange ts ts'

-- The second of two writes under one key is the one that counts.
pub put-put :
    (a b : SupportTicket) (ts : List SupportTicket)
    → a.id ≡ b.id
    → put ticket_key b (put ticket_key a ts) ≡ put ticket_key b ts
unfolding put
put-put a b [] e = refl
put-put a b (t ∷ ts) e = ground (arith, put-put a b ts e)

open_ticket-change :
    (lower : String → String) (now : ℕ) (payload : TicketCreate) (user : User) (r : References)
    (existing : Option SupportTicket) (db : Db) {read : TicketRead} {db' : Db}
    → open_ticket lower now payload user r existing db ≡ ok (read, db')
    → TicketChange db.tickets db'.tickets
unfolding replayed_ticket_or_conflict record_admin_action
open_ticket-change lower now payload user r (some t) db e = kept (ground arith)
open_ticket-change lower now payload user r none db e =
    added (ticket_row lower db.next_id now payload user r) (ground arith)

pub create_ticket-change :
    (lower : String → String) (now : ℕ) (payload : TicketCreate) (user : User) (db : Db)
    {r : TicketRead} {db' : Db}
    → create_ticket lower now payload user db ≡ ok (r, db')
    → TicketChange db.tickets db'.tickets
unfolding create_ticket
create_ticket-change lower now payload user db {r} {db'} e =
    elim (Result-cases (validate_references payload user db)) [
      | inr (x, e1) ↦ absurd (ground arith)
      | inl (refs, db1, e1) ↦
          let same = validate_references_same payload user db {r = refs} {db' = db1} e1 in
          let existing = existing_ticket_replay user.id payload.idempotency_key db in
          open_ticket-change lower now payload user refs existing db {read = r} {db' = db'}
            (ground (arith, same))
    ]

pub update_ticket-change :
    (now ticket_id : ℕ) (payload : TicketUpdate) (user : User) (db : Db) {r : AdminRead} {db' : Db}
    → update_ticket now ticket_id payload user db ≡ ok (r, db')
    → TicketChange db.tickets db'.tickets
unfolding update_ticket locked_ticket updated_ticket record_admin_action enqueue_notification
    ensure_capability check_version
update_ticket-change now ticket_id payload user db {r} {db'} e =
    elim (Option-cases (get ticket_key ticket_id db.tickets)) [
      | inl absent ↦ absurd (ground arith)
      | inr (old, found) ↦
          let key = get-key ticket_key ticket_id db.tickets old found in
          elim (Bool-cases
            (payload.status == old.status && next_notes old payload == old.resolution_notes)) [
              | inl same ↦ kept (ground arith)
              | inr moved ↦
                  elim (Bool-cases (
                    payload.status != old.status
                    && not (contains (allowed_transitions old.status) payload.status))) [
                      | inl bad ↦ absurd (ground arith)
                      | inr good ↦
                          changed old (updated_ticket now old payload) (ground arith) refl refl refl
                            (ground arith) (ground arith)
                    ]
            ]
    ]

pub assign_ticket-change :
    (ticket_id : ℕ) (payload : TicketAssignment) (user : User) (db : Db) {r : AdminRead} {db' : Db}
    → assign_ticket ticket_id payload user db ≡ ok (r, db')
    → TicketChange db.tickets db'.tickets
unfolding assign_ticket locked_ticket assigned_ticket record_admin_action ensure_capability
    check_version
assign_ticket-change ticket_id payload user db {r} {db'} e =
    elim (Option-cases (get ticket_key ticket_id db.tickets)) [
      | inl absent ↦ absurd (ground arith)
      | inr (old, found) ↦
          let key = get-key ticket_key ticket_id db.tickets old found in
          elim (Bool-cases (old.assigned_admin_id == payload.assigned_admin_id)) [
            | inl same ↦ kept (ground arith)
            | inr moved ↦
                changed old (assigned_ticket old payload.assigned_admin_id) (ground arith) refl refl
                  refl (inl refl) (ground arith)
          ]
    ]
