-- ===== src/StoreHours.antt =====
-- backend/app/services/store_hours.py: whether a store is open. Times are seconds since midnight in
-- India-local time, and so is the moment that the clock gives. Proofs are in the child module.
pub mod Window
use ai_powered_market.Model.Market.{Store}
use ai_powered_market.Prelude.{
  Bool, Option, if◌then◌else◌, leb, ltb, nat_eq, none, some, true, ℕ, ◌&&◌, ◌==◌, ◌||◌,
}

-- `is_open_at`, of a local time of day.
unfoldable pub is_open_at : Option ℕ → Option ℕ → ℕ → Bool
is_open_at none closes local = true
is_open_at (some opens) none local = true
is_open_at (some opens) (some closes) local =
    if opens == closes
    then true
    else (if ltb opens closes
        then leb opens local && ltb local closes
        else leb opens local || ltb local closes)

unfoldable pub store_is_open : Store → ℕ → Bool
store_is_open store local = is_open_at store.opens_at store.closes_at local
