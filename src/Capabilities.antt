-- ===== src/Capabilities.antt =====
-- backend/app/core/capabilities.py and `ensure_capability` of backend/app/api/deps.py: what a user may
-- do. Proofs are in the child module.
pub mod Policy
use ai_powered_market.Model.Market.{User}
use ai_powered_market.Model.Status.{
  Capability, UserRole, admin, admin_manage, audit_read, capability_eq, catalog_manage,
  delivery_financial_write, geography_manage, media_moderate, merchant_manage, merchant_read,
  notification_operations, order_operations, order_read, payment_read, refund_read, refund_write,
  rider_operations, rider_read, role_eq, settlement_read, settlement_write, support_manage,
  user_read,
}
use ai_powered_market.Prelude.{Bool, List, [], contains, if◌then◌else◌, not, ◌!=◌, ◌++◌, ◌∷◌}
use ai_powered_market.Session.{Action, http, raise_if}

-- `ADMIN_CAPABILITIES`
abbrev pub admin_capabilities : List Capability
admin_capabilities =
    user_read ∷ merchant_read ∷ merchant_manage ∷ catalog_manage ∷ geography_manage ∷ order_read
    ∷ order_operations ∷ rider_read ∷ rider_operations ∷ support_manage ∷ media_moderate
    ∷ notification_operations ∷ []

-- `SUPER_ADMIN_CAPABILITIES`
abbrev pub super_admin_capabilities : List Capability
super_admin_capabilities =
    admin_capabilities
    ++ admin_manage ∷ payment_read ∷ refund_read ∷ refund_write ∷ settlement_write ∷ settlement_read
      ∷ delivery_financial_write ∷ audit_read ∷ []

unfoldable pub capabilities_for : User → List Capability
capabilities_for user =
    if user.role != admin
    then []
    else (if user.is_super_admin then super_admin_capabilities else admin_capabilities)

unfoldable pub has_capability : User → Capability → Bool
unfolding capabilities_for
has_capability user c = contains (capabilities_for user) c

unfoldable pub ensure_capability : User → Capability → Action (Unit {0})
ensure_capability user c =
    raise_if (not (has_capability user c)) (http 403 "Missing required capability: ")

-- `require_roles`
unfoldable pub require_roles : List UserRole → User → Action (Unit {0})
require_roles roles user =
    raise_if (not (contains roles user.role)) (http 403 "Insufficient permissions")
