-- ===== src/Pricing.antt =====
-- backend/app/services/pricing.py. Amounts are whole numbers of paise already, so that `quantize` to two
-- places changes nothing. `DEFAULT_DELIVERY_FEE` of the settings is an argument.
use ai_powered_market.Model.Db.{Db}
use ai_powered_market.Model.Keys.{area_key}
use ai_powered_market.Model.Market.{ServiceArea, Store}
use ai_powered_market.Prelude.{Option, get, none, some, ℕ, ◌+◌}

abbrev area_fee : Option ServiceArea → Option ℕ
area_fee none = none
area_fee (some area) = area.delivery_fee

abbrev area_of : Db → Option ℕ → Option ServiceArea
area_of db none = none
area_of db (some area_id) = get area_key area_id db.service_areas

unfoldable pub resolve_delivery_fee : ℕ → Store → Db → ℕ
resolve_delivery_fee default_fee store db = elim (area_fee (area_of db store.service_area_id)) [
  | some fee ↦ fee
  | none ↦ default_fee
]

unfoldable pub order_total : ℕ → ℕ → ℕ
order_total subtotal delivery_fee = subtotal + delivery_fee
