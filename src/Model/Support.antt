-- ===== src/Model/Support.antt =====
-- Rows of support tickets and their messages: backend/app/models/support.py. Columns that hold one of a few
-- words are data types; `updated_at`, which nothing tests, is left out.
use ai_powered_market.Model.Status.{UserRole}
use ai_powered_market.Prelude.{Eq, Option, String, nat_beq, ℕ}

-- The statuses that `ALLOWED_TRANSITIONS` names; `open` is `opened`.
pub data TicketStatus : Type 0 where
  opened in_progress waiting_customer resolved closed : TicketStatus

-- `visibility IN ('public', 'internal')`
pub data Visibility : Type 0 where
  public internal : Visibility

abbrev ticket_code : TicketStatus → ℕ
ticket_code opened = 0
ticket_code in_progress = 1
ticket_code waiting_customer = 2
ticket_code resolved = 3
ticket_code closed = 4

abbrev visibility_code : Visibility → ℕ
visibility_code public = 0
visibility_code internal = 1

instance abbrev pub ticket_status_eq : Eq TicketStatus
ticket_status_eq = record { beq = λ a b. nat_beq (ticket_code a) (ticket_code b) }

instance abbrev pub visibility_eq : Eq Visibility
visibility_eq = record { beq = λ a b. nat_beq (visibility_code a) (visibility_code b) }

pub record SupportTicket : Type 0 where
  pub id : ℕ
  pub user_id : ℕ
  pub order_id : Option ℕ
  pub delivery_id : Option ℕ
  pub store_id : Option ℕ
  pub requester_type : Option UserRole
  pub assigned_admin_id : Option ℕ
  pub idempotency_key : Option ℕ
  pub subject : String
  pub description : String
  pub category : String
  pub priority : String
  pub status : TicketStatus
  pub triage_summary : String
  pub suggested_action : String
  pub resolution_notes : Option String
  pub version : ℕ
  pub created_at : ℕ
  pub resolved_at : Option ℕ

pub record SupportMessage : Type 0 where
  pub id : ℕ
  pub ticket_id : ℕ
  pub author_user_id : Option ℕ
  pub author_type : UserRole
  pub visibility : Visibility
  pub idempotency_key : ℕ
  pub body : String
  pub created_at : ℕ

abbrev pub ticket_key : SupportTicket → ℕ
ticket_key row = row.id
