-- ===== src/Capabilities/Policy.antt =====
-- Who holds which capability, against an independent description of what moves money.
use ai_powered_market.Capabilities.{has_capability}
use ai_powered_market.Model.Market.{User}
use ai_powered_market.Model.Status.{
  Capability, admin, admin_manage, audit_read, delivery_financial_write, payment_read, refund_read,
  refund_write, role_eq, settlement_read, settlement_write, user_manage,
}
use ai_powered_market.Prelude.{Bool, arith, false, not, true, ◌&&◌, ◌==◌, ◌||◌, ◌≡◌}

-- What only a super administrator holds: the money, the other administrators and the audit trail.
abbrev pub is_reserved : Capability → Bool
is_reserved admin_manage = true
is_reserved payment_read = true
is_reserved refund_read = true
is_reserved refund_write = true
is_reserved settlement_read = true
is_reserved settlement_write = true
is_reserved delivery_financial_write = true
is_reserved audit_read = true
is_reserved _ = false

-- The capability that no tier lists.
abbrev pub is_unmapped : Capability → Bool
is_unmapped user_manage = true
is_unmapped _ = false

-- The rule in one line: administrators only, `USER_MANAGE` nobody, what is reserved only the top tier.
abbrev pub grants : User → Capability → Bool
grants u c = u.role == admin && (not (is_unmapped c) && (u.is_super_admin || not (is_reserved c)))

-- A user holds a capability exactly when the user is an administrator, the capability is not
-- `USER_MANAGE`, and it is not reserved or the user is a super administrator.
pub has_capability-grants : (u : User) (c : Capability) → has_capability u c ≡ grants u c
unfolding has_capability
has_capability-grants u c = ground arith
