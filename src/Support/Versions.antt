-- ===== src/Support/Versions.antt =====
-- Versions and statuses of the tickets of backend/app/api/v1/routes/support.py.
use ai_powered_market.Capabilities.{ensure_capability, has_capability}
use ai_powered_market.Model.Db.{Db}
use ai_powered_market.Model.Market.{User}
use ai_powered_market.Model.Status.{support_manage}
use ai_powered_market.Model.Support.{SupportTicket, ticket_key}
use ai_powered_market.Prelude.{
  Bool-cases, List, String, arith, false, find_by-insert-some, get, get-put_ne, get-put_self,
  has_key, inl, inr, nat_eq, refl, some, subst, sym, true, ℕ, ◌==◌, ◌∙◌, ◌≡◌, ◌≢◌, ◌≤◌,
}
use ai_powered_market.Session.{err, http, ok}
use ai_powered_market.Support.{MessageCreate, TicketAssignment, TicketCreate, TicketUpdate}
use ai_powered_market.Support.Changes.{
  Follows, TicketChange, added, assign_ticket-change, changed, create_ticket-change, kept,
  update_ticket-change,
}
use ai_powered_market.Support.Messages.{
  InternalMessage, PublicMessage, add_admin_public_message, add_internal_note,
  add_requester_message,
}
use ai_powered_market.Support.Replies.{
  add_admin_public_message-change, add_internal_note-change, add_requester_message-change,
}
use ai_powered_market.Support.Tickets.{
  AdminRead, TicketRead, assign_ticket, check_version, create_ticket, locked_ticket, too_long,
  update_ticket,
}

-- A change never lowers a version, changes no ticket without raising its version, and moves a status only along the
-- table.
pub change_lem :
    (k : ℕ) (t : SupportTicket) (ts ts' : List SupportTicket)
    → get ticket_key k ts ≡ some t
    → TicketChange ts ts'
    → (t' : SupportTicket) × (get ticket_key k ts' ≡ some t')
      × (t'.user_id ≡ t.user_id)
      × (t.version ≤ t'.version)
      × (t'.version ≡ t.version → t' ≡ t)
      × Follows t.status t'.status
unfolding get
change_lem k t ts ts' stored (kept same) =
    (t, ground arith, refl, ground arith, λ e. refl, inl refl)
change_lem k t ts ts' stored (added row same) = (
  t,
  ground (arith, find_by-insert-some (has_key ticket_key k) row t ts stored),
  refl,
  ground arith,
  λ e. refl,
  inl refl,
)
change_lem k t ts ts' stored (changed old row found id owner later follows same) =
    elim (Bool-cases (old.id == k)) [
      | inl this ↦
          let is_old : old ≡ t = ground arith in
          (
            row,
            ground (arith, get-put_self ticket_key row old ts),
            ground arith,
            ground arith,
            λ e. absurd (ground arith),
            subst (λ x. Follows x.status row.status) is_old follows,
          )
      | inr other ↦ (
        t,
        ground (arith, get-put_ne ticket_key k row ts),
        refl,
        ground arith,
        λ e. refl,
        inl refl,
      )
    ]

-- A request to the support that commits.
pub data TicketStep (db db' : Db) : Type 0 where
  creates :
      (lower : String → String) (now : ℕ) (payload : TicketCreate) (user : User) (r : TicketRead)
      → create_ticket lower now payload user db ≡ ok (r, db')
      → TicketStep db db'
  updates :
      (now id : ℕ) (payload : TicketUpdate) (user : User) (r : AdminRead)
      → update_ticket now id payload user db ≡ ok (r, db')
      → TicketStep db db'
  assigns :
      (id : ℕ) (payload : TicketAssignment) (user : User) (r : AdminRead)
      → assign_ticket id payload user db ≡ ok (r, db')
      → TicketStep db db'
  replies :
      (now id : ℕ) (payload : MessageCreate) (user : User) (r : PublicMessage)
      → add_requester_message now id payload user db ≡ ok (r, db')
      → TicketStep db db'
  staff_replies :
      (now id : ℕ) (payload : MessageCreate) (user : User) (r : PublicMessage)
      → add_admin_public_message now id payload user db ≡ ok (r, db')
      → TicketStep db db'
  notes :
      (now id : ℕ) (payload : MessageCreate) (user : User) (r : InternalMessage)
      → add_internal_note now id payload user db ≡ ok (r, db')
      → TicketStep db db'

step_change : (db : Db) {db' : Db} → TicketStep db db' → TicketChange db.tickets db'.tickets
step_change db (creates lower now payload user r e) =
    create_ticket-change lower now payload user db e
step_change db (updates now id payload user r e) = update_ticket-change now id payload user db e
step_change db (assigns id payload user r e) = assign_ticket-change id payload user db e
step_change db (replies now id payload user r e) =
    add_requester_message-change now id payload user db e
step_change db (staff_replies now id payload user r e) =
    add_admin_public_message-change now id payload user db e
step_change db (notes now id payload user r e) =
    (add_internal_note-change now id payload user db e).0

-- Through any request to the support a ticket stays stored and its requester's, its version never falls, its status stays or moves along
-- `ALLOWED_TRANSITIONS`, and where its version is the same, so is the whole ticket.
pub TicketStep-version :
    (k : ℕ) (t : SupportTicket) (db : Db) {db' : Db}
    → get ticket_key k db.tickets ≡ some t
    → TicketStep db db'
    → (t' : SupportTicket) × (get ticket_key k db'.tickets ≡ some t')
      × (t'.user_id ≡ t.user_id)
      × (t.version ≤ t'.version)
      × (t'.version ≡ t.version → t' ≡ t)
      × Follows t.status t'.status
TicketStep-version k t db {db'} stored s =
    change_lem k t db.tickets db'.tickets stored (step_change db s)

-- An update that names the version of a ticket that has changed since is refused: none is lost.
pub no_update_lost :
    (now k : ℕ) (t t' : SupportTicket) (payload : TicketUpdate) (user : User) (db : Db) {db' : Db}
    → get ticket_key k db.tickets ≡ some t
    → TicketStep db db'
    → get ticket_key k db'.tickets ≡ some t'
    → t' ≢ t
    → has_capability user support_manage ≡ true
    → too_long payload.resolution_notes ≡ false
    → payload.expected_version ≡ some t.version
    → update_ticket now k payload user db'
      ≡ err (http 409 "Support ticket changed; refresh and retry")
unfolding update_ticket ensure_capability locked_ticket check_version
no_update_lost now k t t' payload user db {db'} stored s stored' differs can short expects =
    let (u, found, owner, later, same, follows) = TicketStep-version k t db {db' = db'} stored s in
    let is_u : u ≡ t' = ground arith in
    let newer : t'.version ≢ t.version = λ e.
      differs
        (sym is_u ∙ same (subst (λ (x : SupportTicket). x.version ≡ t.version) (sym is_u) e)) in
    ground arith
