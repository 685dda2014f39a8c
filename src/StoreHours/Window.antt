-- ===== src/StoreHours/Window.antt =====
-- Opening hours as an arc of the day's circle.
use ai_powered_market.Prelude.{
  arith, none, refl, some, true, ℕ, ◌%◌, ◌*◌, ◌+◌, ◌-◌, ◌<◌, ◌↔◌, ◌≡◌, ◌≢◌,
}
use ai_powered_market.StoreHours.{is_open_at}

-- One day in seconds.
abbrev day : ℕ
day = 24 * 60 * 60

-- How long after the opening the moment is, once around the clock at most.
abbrev pub since : ℕ → ℕ → ℕ
since opens moment = (moment + day - opens) % day

-- A store with two different times is open at a moment exactly when less time has passed since the opening
-- than lies between the opening and the closing, counted around midnight. With equal times, or
-- with one missing, it is always open.
pub is_open_at-arc :
    (opens closes moment : ℕ)
    → opens < day
    → closes < day
    → moment < day
    → ((opens ≢ closes)
        → (is_open_at (some opens) (some closes) moment ≡ true)
          ↔ (since opens moment < since opens closes))
      × (is_open_at (some opens) (some opens) moment ≡ true)
      × (is_open_at none (some closes) moment ≡ true)
      × (is_open_at (some opens) none moment ≡ true)
unfolding is_open_at
is_open_at-arc opens closes moment o c m = (ground arith, ground arith, refl, refl)
