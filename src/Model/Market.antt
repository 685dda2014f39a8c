-- ===== src/Model/Market.antt =====
-- Rows of the marketplace: backend/app/models/user.py, commerce.py and geography.py. A key (UUID) is a
-- number, since keys are only compared; money is a number of paise (`Numeric(10, 2)`); a moment is a
-- number of seconds. A coordinate is a number too: it is only passed on to PostGIS. Columns that no
-- modelled code reads are left out.
use ai_powered_market.Prelude.{ℕ, String, Bool, Option}
use ai_powered_market.Model.Status.{UserRole, MerchantStatus}

pub record User : Type 0 where
  pub id : ℕ
  pub role : UserRole
  pub is_super_admin : Bool
  pub is_active : Bool
  pub is_verified : Bool

pub record Merchant : Type 0 where
  pub id : ℕ
  pub owner_user_id : ℕ
  pub status : MerchantStatus

-- Times of day are seconds since midnight in India-local time.
pub record Store : Type 0 where
  pub id : ℕ
  pub merchant_id : ℕ
  pub service_area_id : Option ℕ
  pub name : String
  pub latitude : Option ℕ
  pub longitude : Option ℕ
  pub opens_at : Option ℕ
  pub closes_at : Option ℕ
  pub delivery_enabled : Bool
  pub is_active : Bool

pub record Product : Type 0 where
  pub id : ℕ
  pub name : String
  pub unit : String

-- One listing of a store.
pub record StoreProduct : Type 0 where
  pub id : ℕ
  pub store_id : ℕ
  pub product_id : ℕ
  pub price : ℕ
  pub stock_quantity : ℕ
  pub is_available : Bool

pub record ServiceArea : Type 0 where
  pub id : ℕ
  pub delivery_fee : Option ℕ
  pub is_active : Bool

pub record Village : Type 0 where
  pub id : ℕ
  pub latitude : Option ℕ
  pub longitude : Option ℕ

pub record Address : Type 0 where
  pub id : ℕ
  pub user_id : ℕ
  pub village_id : ℕ
  pub recipient_name : Option String
  pub phone : Option String
  pub house_details : Option String
  pub landmark : String
  pub directions : Option String
  pub latitude : Option ℕ
  pub longitude : Option ℕ
  pub archived_at : Option ℕ
